-- ===== src/Social/NameDatabase/Lookup.antt =====
-- What `lookup`, `diff` and `diffUpdate` find.
use unisphere.Prelude.{
  ◌≡◌, refl, sym, ◌∙◌, ap, subst, ◌⊎◌, inl, inr, Bool, true, false, Option, none, some, List, [],
  ◌∷◌, Bool-cases, Option-cases, find, In, All-In, find-eq-some, find_of-In, arith,
}
use unisphere.Prelude.Index.{find-least}
use unisphere.Identity.NodeIdentifier.{NodeIdentifier, id_eq}
use unisphere.Identity.NodeIdentifier.Order.{id_eq_iff}
use unisphere.Social.NameDatabase.Record.{
  RecordType, cache, sloppy_group, NameRecord, NameDatabase, export_record, Indices, destination_lt,
  has_key, find_record,
}
use unisphere.Social.NameDatabase.Read.{lookup, diff_update, export_found}
use unisphere.Social.NameDatabase.Keys.{UniqueKeys, has_key_iff}

-- The only record under a key is the one that is found.
find_of_unique :
    (id : NodeIdentifier) (t : RecordType) (x : NameRecord) (rs : List NameRecord)
    → UniqueKeys rs
    → In x rs
    → has_key id t x ≡ true
    → find_record id t rs ≡ some x
unfolding find_record
find_of_unique id t x [] u m h = absurd m
find_of_unique id t x (r ∷ rs) u (inl e) h =
    ground (arith, subst (λ y. has_key id t y ≡ true) e h, e)
find_of_unique id t x (r ∷ rs) u (inr m) h =
    let clash = All-In (λ s. has_key r.node_id r.type s ≡ false) rs u.0 m in
    elim (Bool-cases (has_key id t r)) [
      | inl k ↦
          let (same_node, same_type) = (has_key_iff id t r).0 k in
          let other : has_key r.node_id r.type x ≡ true = rw (← same_node, ← same_type) h in
          ground (arith, other, clash)
      | inr k ↦ rw k (find_of_unique id t x rs u.1 m h)
    ]

-- The cached record of a node, or else its sloppy group record.
pub preferred : NodeIdentifier → List NameRecord → Option NameRecord
preferred id rs = elim (find_record id cache rs) [
  | none ↦ find_record id sloppy_group rs
  | some r ↦ some r
]

abbrev of_node : NodeIdentifier → NameRecord → Bool
of_node id r = id_eq id r.node_id

of_node_of_key :
    (id : NodeIdentifier) (t : RecordType) (r : NameRecord)
    → has_key id t r ≡ true
    → of_node id r ≡ true
unfolding has_key
of_node_of_key id t r h = ground arith

-- a cached record stands before a sloppy group record of the same node
cached_first :
    (id : NodeIdentifier) (x y : NameRecord)
    → of_node id x ≡ true
    → has_key id cache y ≡ true
    → (destination_lt y x ≡ false) ⊎ (x ≡ y)
    → x.type ≡ cache
cached_first id x y h k (inl e) =
    let (same_node, same_type) = (has_key_iff id cache y).0 k in
    let same : id_eq y.node_id x.node_id ≡ true = rw (← same_node) h in
    go x.type refl same (sym same_type)
  where
    go :
        (t : RecordType)
        → x.type ≡ t
        → id_eq y.node_id x.node_id ≡ true
        → y.type ≡ cache
        → x.type ≡ cache
    go cache p q c = p
    go sloppy_group p q c = ground (arith, e)
cached_first id x y h k (inr e) =
    ap (λ (r : NameRecord). r.type) e ∙ sym ((has_key_iff id cache y).0 k).1

module _ (indices : Indices) (db : NameDatabase) (unique : UniqueKeys db.records) where
  abbrev ordered : List NameRecord
  ordered = indices.by_destination.view db.records

  ordered-none :
      (id : NodeIdentifier) (t : RecordType)
      → find (of_node id) ordered ≡ none
      → find_record id t db.records ≡ none
  unfolding find_record
  ordered-none id t h = elim (Option-cases (find (has_key id t) db.records)) [
    | inl e ↦ e
    | inr (r, e) ↦
        let (keyed, present) = find-eq-some (has_key id t) db.records r e in
        let seen = (indices.by_destination.view-In db.records r).1 present in
        absurd (find_of-In (of_node id) ordered r seen (of_node_of_key id t r keyed) h)
  ]

  ordered-some :
      (id : NodeIdentifier) (x : NameRecord)
      → find (of_node id) ordered ≡ some x
      → some x ≡ preferred id db.records
  unfolding preferred find_record
  ordered-some id x found = go x.type refl
    where
      here : (of_node id x ≡ true) × In x ordered
      here = find-eq-some (of_node id) ordered x found

      keyed : (t : RecordType) → x.type ≡ t → find_record id t db.records ≡ some x
      keyed t e =
          find_of_unique id t x db.records unique
            ((indices.by_destination.view-In db.records x).0 here.1)
            ((has_key_iff id t x).1 ((id_eq_iff id x.node_id).0 here.0, sym e))

      go : (t : RecordType) → x.type ≡ t → some x ≡ preferred id db.records
      go cache e = ground (arith, keyed cache e)
      go sloppy_group e = elim (Option-cases (find_record id cache db.records)) [
        | inl absent ↦ ground (arith, keyed sloppy_group e, absent)
        | inr (y, there) ↦
            let (k, present) = find-eq-some (has_key id cache) db.records y there in
            let seen = (indices.by_destination.view-In db.records y).1 present in
            let least =
              find-least destination_lt (of_node id) ordered x y
                (indices.by_destination.view-IsSorted db.records) found seen
                (of_node_of_key id cache y k) in
            let c = cached_first id x y here.0 k least in ground (arith, c, e)
      ]

  -- In a table of unique keys, `lookup` finds the cached record of a node, or else its sloppy group
  -- record, and nothing only where there is neither.
  pub lookup-eq-preferred : (id : NodeIdentifier) → lookup indices id db ≡ preferred id db.records
  unfolding lookup preferred
  lookup-eq-preferred id = elim (Option-cases (find (of_node id) ordered)) [
    | inl e ↦ ground (arith, e, ordered-none id cache e, ordered-none id sloppy_group e)
    | inr (x, e) ↦ e ∙ ordered-some id x e
  ]

  -- `diffUpdate` looks every node up with no type: where the node has a cached record too, the cached
  -- record is exported to the peer, in place of the sloppy group record that is news to it.
  pub diff_update_cached :
      (id : NodeIdentifier) (ids : List NodeIdentifier) (peer : NodeIdentifier) (c : NameRecord)
      → find_record id cache db.records ≡ some c
      → diff_update indices (id ∷ ids) peer db
        ≡ export_record c peer ∷ diff_update indices ids peer db
  unfolding diff_update export_found
  diff_update_cached id ids peer c e =
      let found : lookup indices id db ≡ some c =
        lookup-eq-preferred id ∙ (unfold preferred in rw (e, preferred)) in
      rw found
