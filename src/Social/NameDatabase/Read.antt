-- ===== src/Social/NameDatabase/Read.antt =====
-- The methods of src/social/name_database.cpp that read the database.
use unisphere.Prelude.{
  ℕ, Bool, true, Option, none, some, List, [], ◌∷◌, ◌++◌, map, length, keep, find,
}
use unisphere.Identity.NodeIdentifier.{NodeIdentifier, id_eq}
use unisphere.Social.NameDatabase.Record.{
  RecordType, cache, sloppy_group, NameRecord, is_more_fresh, NameDatabase, Effect, export_record,
  Indices, has_type, count_type,
}

-- `size()`, `sizeActive()`, `sizeCache()`
unfoldable pub size : NameDatabase → ℕ
size db = length db.records

unfoldable pub size_active : NameDatabase → ℕ
unfolding count_type
size_active db = count_type sloppy_group db.records

unfoldable pub size_cache : NameDatabase → ℕ
unfolding count_type
size_cache db = count_type cache db.records

-- `equal_range(type)` of the index by type and destination
unfoldable pub get_names : Indices → RecordType → NameDatabase → List NameRecord
get_names indices type db = keep (has_type type) (indices.by_type_destination.view db.records)

-- `m_nameDb.find(nodeId)`: the index orders the records of one node by their type
unfoldable pub lookup : Indices → NodeIdentifier → NameDatabase → Option NameRecord
lookup indices id db = find (λ r. id_eq id r.node_id) (indices.by_destination.view db.records)

unfoldable pub full_update : Indices → NodeIdentifier → NameDatabase → List Effect
unfolding get_names
full_update indices peer db = map (λ r. export_record r peer) (get_names indices sloppy_group db)

unfoldable pub export_found : NodeIdentifier → Option NameRecord → List Effect
export_found peer none = []
export_found peer (some r) = export_record r peer ∷ []

unfoldable pub diff_update :
    Indices → List NodeIdentifier → NodeIdentifier → NameDatabase → List Effect
unfolding lookup export_found
diff_update indices [] peer db = []
diff_update indices (id ∷ ids) peer db =
    export_found peer (lookup indices id db) ++ diff_update indices ids peer db

-- A record is news to a peer that has none for the node, or an older one.
unfoldable pub news_for : (NodeIdentifier → Option NameRecord) → NameRecord → Bool
news_for source r = elim (source r.node_id) [ none ↦ true | some other ↦ is_more_fresh r other ]

unfoldable pub diff :
    Indices → (NodeIdentifier → Option NameRecord) → NameDatabase → List NodeIdentifier
unfolding get_names news_for
diff indices source db =
    map (λ r. r.node_id) (keep (news_for source) (get_names indices sloppy_group db))
