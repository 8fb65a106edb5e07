-- ===== src/Social/NameDatabase/Store.antt =====
-- The methods of src/social/name_database.cpp that change the database.
use unisphere.Prelude.{
  ℕ, ◌+◌, ◌-◌, ◌%◌, ◌^◌, Bool, true, false, not, ◌&&◌, ◌||◌, Option, none, some, List, [], ◌∷◌, leb,
  ◌==◌, if◌then◌else◌, find,
}
use unisphere.Identity.NodeIdentifier.{NodeIdentifier, invalid, is_null, id_eq}
use unisphere.Social.Address.{LandmarkAddress, address_null}
use unisphere.Social.NameDatabase.Record.{
  RecordType, cache, sloppy_group, type_eq, NameRecord, new_record, ttl, is_more_fresh,
  max_stored_addresses, max_cache_entries, Statistics, no_statistics, NameDatabase, Effect,
  export_record, arm_expiry, request_refresh, Indices, no_addresses, find_record, erase_record,
  modify_record, count_type, type_lt,
}

unfoldable pub drop_record : NameDatabase → NameDatabase
drop_record db = record db {
  statistics = record db.statistics { record_drops = db.statistics.record_drops + 1 };
}

count_insertion : Statistics → Statistics
count_insertion s = record s { record_insertions = s.record_insertions + 1 }

count_update : Statistics → Statistics
count_update s = record s { record_updates = s.record_updates + 1 }

-- the end of `store(record)`: the timer, and the export to the sloppy group peers
unfoldable pub published : NameRecord → List Effect
published r = arm_expiry r (ttl r) ∷ export_record r invalid ∷ []

-- the table part of `store(record)`, by what is stored under the record's key
unfoldable pub put_record :
    NameRecord → NameDatabase → Option NameRecord → NameDatabase × List Effect
unfolding count_insertion count_update published
put_record r db none = (
  record db { records = r ∷ db.records; statistics = count_insertion db.statistics },
  published r,
)
put_record r db (some existing) = if not (is_more_fresh r existing) then (db, []) else (
  record db {
    records = modify_record r.node_id sloppy_group (λ s. r) db.records;
    statistics = count_update db.statistics;
  },
  published r,
)

-- `store(NameRecordPtr)`. `accepts` is what the slots of `signalImportRecord` answer together.
unfoldable pub store_record :
    (NameRecord → Bool) → ℕ → NameRecord → NameDatabase → NameDatabase × List Effect
unfolding drop_record put_record
store_record accepts now r db =
    if is_null r.node_id || no_addresses r.addresses
    then (drop_record db, [])
    else if id_eq r.node_id db.local_id
    then (drop_record db, [])
    else let seen = record r { last_update = now } in
      if not (accepts seen)
      then (drop_record db, [])
      else put_record seen db (find_record r.node_id sloppy_group db.records)

-- The loop over the given addresses: null ones are skipped, and it ends after three.
unfoldable pub select_addresses : ℕ → List LandmarkAddress → List LandmarkAddress
select_addresses room [] = []
select_addresses room (a ∷ rest) =
    let skipped = select_addresses room rest in
    let taken = select_addresses (room - 1) rest in
    if address_null a then skipped else if leb room 1 then a ∷ [] else a ∷ taken

-- `nibCache.erase(nibCache.lower_bound(Cache))`: the first record, in the order of age, whose type is
-- not below `cache`
unfoldable pub erase_oldest : Indices → List NameRecord → List NameRecord
erase_oldest indices rs =
    elim (find (λ r. not (type_lt r.type cache)) (indices.by_type_age.view rs)) [
      | none ↦ rs
      | some oldest ↦ erase_record oldest.node_id oldest.type rs
    ]

-- The new record is in the table already when its type's limit is checked.
unfoldable pub limit_cache : Indices → RecordType → List NameRecord → List NameRecord
limit_cache indices type rs =
    if type_eq type cache && leb max_cache_entries (count_type cache rs)
    then erase_oldest indices rs
    else rs

-- a record of the local node gets a new time stamp, or the next sequence number within one second
unfoldable pub renew_version : ℕ → NameRecord → NameRecord
renew_version timestamp r =
    if r.timestamp == timestamp
    then record r { seqno = (r.seqno + 1) % 2 ^ 8 }
    else record r { timestamp = timestamp; seqno = 0 }

-- The record under the key after an update, without its addresses.
unfoldable pub refreshed : NodeIdentifier → ℕ → ℕ → NameRecord → NameRecord
unfolding renew_version
refreshed local_id now timestamp r =
    let versioned = if id_eq r.node_id local_id then renew_version timestamp r else r in
    record versioned { last_update = now; addresses = [] }

unfoldable pub created : NodeIdentifier → RecordType → ℕ → ℕ → NameRecord
unfolding new_record
created id type now timestamp = record (new_record id type) {
  timestamp = timestamp;
  seqno = 0;
  last_update = now;
}

unfoldable pub with_addresses : List LandmarkAddress → NameRecord → NameRecord
with_addresses addresses r = record r { addresses = addresses }

-- the record that `store` works on, and the table that holds it, by what is stored under the key
unfoldable pub open_record :
    Indices
    → NodeIdentifier
    → RecordType
    → ℕ
    → ℕ
    → NameDatabase
    → Option NameRecord
    → NameRecord × List NameRecord
open_record indices id type now timestamp db none =
    let r = created id type now timestamp in (r, limit_cache indices type (r ∷ db.records))
open_record indices id type now timestamp db (some existing) =
    let r = refreshed db.local_id now timestamp existing in
    (r, modify_record id type (λ s. r) db.records)

-- own records never expire, and only they are to be exported
unfoldable pub after_store : NodeIdentifier → NameRecord → List Effect
after_store local_id r =
    if id_eq r.node_id local_id then request_refresh ∷ [] else arm_expiry r (ttl r) ∷ []

-- `store(nodeId, addresses, type)`. The addresses are written through the pointer to the record, so
-- they reach the table where the record still is in it.
unfoldable pub store_addresses :
    Indices
    → ℕ
    → ℕ
    → NodeIdentifier
    → List LandmarkAddress
    → RecordType
    → NameDatabase
    → NameDatabase × List Effect
unfolding with_addresses
store_addresses indices now timestamp id addresses type db =
    if is_null id || no_addresses addresses
    then (db, [])
    else let (r, rs) =
        open_record indices id type now timestamp db (find_record id type db.records) in
      let chosen = select_addresses max_stored_addresses addresses in
      (
        record db { records = modify_record id type (with_addresses chosen) rs },
        after_store db.local_id (with_addresses chosen r),
      )

-- `remove(nodeId, type)` and `clear()`
unfoldable pub remove : NodeIdentifier → RecordType → NameDatabase → NameDatabase
remove id type db = record db { records = erase_record id type db.records }

unfoldable pub clear : NameDatabase → NameDatabase
clear db = record db { records = []; statistics = no_statistics }

-- `refreshLocalRecord()`, the slot of `m_refreshSignal`
unfoldable pub refresh_local_record : ℕ → NameDatabase → NameDatabase × List Effect
refresh_local_record timestamp db = elim (find_record db.local_id sloppy_group db.records) [
  | none ↦ (db, [])
  | some r ↦
      if r.timestamp == timestamp
      then (db, [])
      else let renewed = record r { timestamp = timestamp; seqno = 0 } in
        (
          record db {
            records = modify_record db.local_id sloppy_group (λ s. renewed) db.records;
            statistics = record db.statistics {
              local_refreshes = db.statistics.local_refreshes + 1;
            };
          },
          export_record renewed invalid ∷ [],
        )
]

-- `entryTimerExpired`: `error` where the timer was cancelled, `none` where the record is gone
unfoldable pub entry_timer_expired : Bool → Option NameRecord → NameDatabase → NameDatabase
unfolding remove
entry_timer_expired true r db = db
entry_timer_expired false none db = db
entry_timer_expired false (some r) db =
    let counted = record db.statistics {
      record_expirations = db.statistics.record_expirations + 1;
    } in
    remove r.node_id r.type (record db { statistics = counted })
