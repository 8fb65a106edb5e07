-- ===== src/Social/NameDatabase/Record.antt =====
-- The data of src/social/name_database.h and name_database.cpp: the records, the database, its effects
-- and its table.
--
-- `m_nameDb` is the list of its records and three ordered indices (unisphere.Prelude.Index). The clocks
-- (`microsec_clock`, `getCurrentTimestamp`) are arguments. A signal that a method emits and a timer
-- that it arms are entries of the list of effects that the method returns; the locks are left out.
use unisphere.Prelude.{
  ℕ, Bool, true, false, not, ◌&&◌, ◌||◌, Option, List, [], ◌∷◌, map, ltb, ◌==◌, if◌then◌else◌,
  length, keep, find,
}
use unisphere.Prelude.Index.{OrderedIndex}
use unisphere.Identity.NodeIdentifier.{NodeIdentifier, invalid, id_eq, id_lt}
use unisphere.Social.Address.{LandmarkAddress, null_address}

-- `NameRecord::Type`, with the order of its two values
pub data RecordType : Type 0 where
  cache sloppy_group : RecordType

abbrev pub type_eq : RecordType → RecordType → Bool
type_eq cache cache = true
type_eq sloppy_group sloppy_group = true
type_eq cache sloppy_group = false
type_eq sloppy_group cache = false

abbrev pub type_lt : RecordType → RecordType → Bool
type_lt cache cache = false
type_lt cache sloppy_group = true
type_lt sloppy_group cache = false
type_lt sloppy_group sloppy_group = false

pub record NameRecord : Type 0 where
  pub node_id : NodeIdentifier
  pub type : RecordType
  pub addresses : List LandmarkAddress
  pub last_update : ℕ
  pub received_peer_id : NodeIdentifier
  pub timestamp : ℕ
  pub seqno : ℕ

-- the constructor
unfoldable pub new_record : NodeIdentifier → RecordType → NameRecord
new_record id type = record {
  node_id = id;
  type = type;
  addresses = [];
  last_update = 0;
  received_peer_id = invalid;
  timestamp = 0;
  seqno = 0;
}

unfoldable pub no_addresses : List LandmarkAddress → Bool
no_addresses [] = true
no_addresses (a ∷ rest) = false

first_address : List LandmarkAddress → LandmarkAddress
first_address [] = null_address
first_address (a ∷ rest) = a

unfoldable pub landmark_address : NameRecord → LandmarkAddress
unfolding first_address
landmark_address r = first_address r.addresses

-- seconds
unfoldable pub ttl : NameRecord → ℕ
ttl r = elim r.type [ cache ↦ 300 | sloppy_group ↦ 1200 ]

unfoldable pub is_more_fresh : NameRecord → NameRecord → Bool
is_more_fresh r other =
    if ltb other.timestamp r.timestamp
    then true
    else if r.timestamp == other.timestamp && ltb other.seqno r.seqno
    then true
    else false

-- `max_stored_addresses` and `max_cache_entries`
abbrev pub max_stored_addresses : ℕ
max_stored_addresses = 3

abbrev pub max_cache_entries : ℕ
max_cache_entries = 5

pub record Statistics : Type 0 where
  pub record_insertions : ℕ
  pub record_updates : ℕ
  pub record_expirations : ℕ
  pub record_drops : ℕ
  pub local_refreshes : ℕ

abbrev pub no_statistics : Statistics
no_statistics = record {
  record_insertions = 0;
  record_updates = 0;
  record_expirations = 0;
  record_drops = 0;
  local_refreshes = 0;
}

pub record NameDatabase : Type 0 where
  pub local_id : NodeIdentifier
  pub records : List NameRecord
  pub statistics : Statistics

unfoldable pub init : NodeIdentifier → NameDatabase
init id = record { local_id = id; records = []; statistics = no_statistics }

-- What a method does to the rest of the program: `signalExportRecord` (to one peer, or to all for the
-- invalid identifier), a record's expiry timer, set to its `ttl()` give or take the random part that
-- `Context::roughly` adds, and `m_refreshSignal`.
pub data Effect : Type 0 where
  export_record : NameRecord → NodeIdentifier → Effect
  arm_expiry : NameRecord → ℕ → Effect
  request_refresh : Effect

-- the keys of the three indices
abbrev pub destination_lt : NameRecord → NameRecord → Bool
destination_lt r s =
    id_lt r.node_id s.node_id || (id_eq r.node_id s.node_id && type_lt r.type s.type)

abbrev pub type_destination_lt : NameRecord → NameRecord → Bool
type_destination_lt r s =
    type_lt r.type s.type || (type_eq r.type s.type && id_lt r.node_id s.node_id)

abbrev pub type_age_lt : NameRecord → NameRecord → Bool
type_age_lt r s =
    type_lt r.type s.type || (type_eq r.type s.type && ltb r.last_update s.last_update)

pub record Indices : Type 0 where
  pub by_destination : OrderedIndex destination_lt
  pub by_type_destination : OrderedIndex type_destination_lt
  pub by_type_age : OrderedIndex type_age_lt

-- The unique keys (node identifier, type), at which the container replaces, modifies and erases.
unfoldable pub has_key : NodeIdentifier → RecordType → NameRecord → Bool
has_key id type r = id_eq id r.node_id && type_eq type r.type

unfoldable pub find_record : NodeIdentifier → RecordType → List NameRecord → Option NameRecord
unfolding has_key
find_record id type rs = find (has_key id type) rs

unfoldable pub erase_record : NodeIdentifier → RecordType → List NameRecord → List NameRecord
unfolding has_key
erase_record id type rs = keep (λ r. not (has_key id type r)) rs

unfoldable pub modify_record :
    NodeIdentifier → RecordType → (NameRecord → NameRecord) → List NameRecord → List NameRecord
unfolding has_key
modify_record id type f rs = map (λ r. if has_key id type r then f r else r) rs

abbrev pub has_type : RecordType → NameRecord → Bool
has_type type r = type_eq type r.type

unfoldable pub count_type : RecordType → List NameRecord → ℕ
count_type type rs = length (keep (has_type type) rs)
