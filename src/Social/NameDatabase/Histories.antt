-- ===== src/Social/NameDatabase/Histories.antt =====
-- Histories of calls of the methods of `NameDatabase`.
use unisphere.Prelude.{ℕ, ◌≡◌, Bool, Option, List, [], ◌∷◌, All}
use unisphere.Identity.NodeIdentifier.{NodeIdentifier}
use unisphere.Social.Address.{LandmarkAddress}
use unisphere.Social.NameDatabase.Record.{
  RecordType, sloppy_group, NameRecord, NameDatabase, init, Indices,
}
use unisphere.Social.NameDatabase.Store.{
  store_record, store_addresses, remove, clear, refresh_local_record, entry_timer_expired,
}
use unisphere.Social.NameDatabase.Invariant.{
  IsWellFormed, init-IsWellFormed, erase-IsWellFormed, store_record-IsWellFormed,
  store_addresses-IsWellFormed, refresh_local_record-IsWellFormed, entry_timer_expired-IsWellFormed,
}

-- One call of a method that changes the database, with what it takes from its surroundings.
pub data Call : Type 0 where
  record_stored : (NameRecord → Bool) → ℕ → NameRecord → Call
  addresses_stored : ℕ → ℕ → NodeIdentifier → List LandmarkAddress → RecordType → Call
  removed : NodeIdentifier → RecordType → Call
  cleared : Call
  local_refreshed : ℕ → Call
  timer_expired : Bool → Option NameRecord → Call

-- what the assertion at the head of `store(NameRecordPtr)` demands
abbrev pub IsAllowed : Call → Type 0
IsAllowed (record_stored accepts now r) = r.type ≡ sloppy_group
IsAllowed _ = Unit

unfoldable pub step : Indices → NameDatabase → Call → NameDatabase
step indices db (record_stored accepts now r) = (store_record accepts now r db).0
step indices db (addresses_stored now timestamp id addresses type) =
    (store_addresses indices now timestamp id addresses type db).0
step indices db (removed id type) = remove id type db
step indices db cleared = clear db
step indices db (local_refreshed timestamp) = (refresh_local_record timestamp db).0
step indices db (timer_expired error r) = entry_timer_expired error r db

unfoldable pub run : Indices → NameDatabase → List Call → NameDatabase
run indices db [] = db
run indices db (c ∷ cs) = run indices (step indices db c) cs

step-IsWellFormed :
    (indices : Indices) (db : NameDatabase) (c : Call)
    → IsAllowed c
    → IsWellFormed db.records
    → IsWellFormed (step indices db c).records
unfolding step remove clear
step-IsWellFormed indices db (record_stored accepts now r) t w =
    store_record-IsWellFormed accepts now r db t w
step-IsWellFormed indices db (addresses_stored now timestamp id addresses type) t w =
    store_addresses-IsWellFormed indices now timestamp id addresses type db w
step-IsWellFormed indices db (removed id type) t w = erase-IsWellFormed id type db.records w
step-IsWellFormed indices db cleared t w = init-IsWellFormed
step-IsWellFormed indices db (local_refreshed timestamp) t w =
    refresh_local_record-IsWellFormed timestamp db w
step-IsWellFormed indices db (timer_expired error r) t w =
    entry_timer_expired-IsWellFormed error r db w

run-IsWellFormed :
    (indices : Indices) (db : NameDatabase) (cs : List Call)
    → All IsAllowed cs
    → IsWellFormed db.records
    → IsWellFormed (run indices db cs).records
unfolding run
run-IsWellFormed indices db [] a w = w
run-IsWellFormed indices db (c ∷ cs) a w =
    run-IsWellFormed indices (step indices db c) cs a.1 (step-IsWellFormed indices db c a.0 w)

-- After any history of calls that respects the assertion on record types, from the empty database,
-- no two records have the same node and type, and at most four records are cached, one fewer than
-- `max_cache_entries`.
pub history-IsWellFormed :
    (indices : Indices) (id : NodeIdentifier) (cs : List Call)
    → All IsAllowed cs
    → IsWellFormed (run indices (init id) cs).records
unfolding init
history-IsWellFormed indices id cs a = run-IsWellFormed indices _ cs a init-IsWellFormed
