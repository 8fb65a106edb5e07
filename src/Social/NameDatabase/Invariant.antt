-- ===== src/Social/NameDatabase/Invariant.antt =====
-- What every method keeps: one record for each key, and the limit on cached records.
use unisphere.Prelude.{
  ℕ, ◌+◌, ◌≤◌, ◌≡◌, refl, sym, subst, ◌∙◌, if_elim, inl, inr, Bool, true, false, not, ◌||◌, Option,
  none, some, List, [], ◌∷◌, All, Bool-cases, Option-cases, leb, ◌==◌, arith,
}
use unisphere.Identity.NodeIdentifier.{NodeIdentifier, is_null}
use unisphere.Social.Address.{LandmarkAddress}
use unisphere.Social.NameDatabase.Record.{
  RecordType, cache, sloppy_group, NameRecord, NameDatabase, Effect, Indices, has_key, find_record,
  modify_record, erase_record, count_type, max_cache_entries, no_addresses, is_more_fresh,
}
use unisphere.Social.NameDatabase.Store.{
  store_record, put_record, store_addresses, open_record, limit_cache, created, refreshed,
  with_addresses, drop_record, refresh_local_record, entry_timer_expired,
}
use unisphere.Social.NameDatabase.Keys.{
  UniqueKeys, has_key_iff, count-cons, find_key, All-none, modify-UniqueKeys, count-modify,
  erase-UniqueKeys, count-erase-le,
}
use unisphere.Social.NameDatabase.Eviction.{erase_oldest-UniqueKeys, count-erase_oldest}

-- One record for each node and type, and at most four cached records: the new record counts when
-- the limit of five is checked.
pub record IsWellFormed (rs : List NameRecord) : Type 0 where
  pub unique : UniqueKeys rs
  pub cached : count_type cache rs + 1 ≤ max_cache_entries

pub init-IsWellFormed : IsWellFormed []
unfolding count_type
init-IsWellFormed = record { unique = tt; cached = omega arith }

KeepsKey : NodeIdentifier → RecordType → (NameRecord → NameRecord) → Type 0
KeepsKey id t f =
    (s : NameRecord) → has_key id t s ≡ true → ((f s).node_id ≡ s.node_id) × ((f s).type ≡ s.type)

-- a replacement by a record with the key
replace-KeepsKey :
    (id : NodeIdentifier) (t : RecordType) (r : NameRecord)
    → r.node_id ≡ id
    → r.type ≡ t
    → KeepsKey id t (λ s. r)
unfolding KeepsKey
replace-KeepsKey id t r p q s h =
    let (same_node, same_type) = (has_key_iff id t s).0 h in (p ∙ same_node, q ∙ same_type)

modify-IsWellFormed :
    (id : NodeIdentifier) (t : RecordType) (f : NameRecord → NameRecord) (rs : List NameRecord)
    → KeepsKey id t f
    → IsWellFormed rs
    → IsWellFormed (modify_record id t f rs)
unfolding KeepsKey
modify-IsWellFormed id t f rs k w = record {
  unique = modify-UniqueKeys id t f k rs w.unique;
  cached = rw (count-modify id t f k cache rs) w.cached;
}

pub erase-IsWellFormed :
    (id : NodeIdentifier) (t : RecordType) (rs : List NameRecord)
    → IsWellFormed rs
    → IsWellFormed (erase_record id t rs)
erase-IsWellFormed id t rs w = record {
  unique = erase-UniqueKeys id t rs w.unique;
  cached = omega (arith, w.cached, count-erase-le id t cache rs);
}

-- A new record goes in, and an old cached one goes out where that makes five.
insert-IsWellFormed :
    (indices : Indices) (r : NameRecord) (rs : List NameRecord)
    → find_record r.node_id r.type rs ≡ none
    → IsWellFormed rs
    → IsWellFormed (limit_cache indices r.type (r ∷ rs))
unfolding limit_cache
insert-IsWellFormed indices r rs absent w =
    let unique : UniqueKeys (r ∷ rs) = (All-none r.node_id r.type rs absent, w.unique) in
    go r.type refl unique
  where
    go :
        (t : RecordType)
        → r.type ≡ t
        → UniqueKeys (r ∷ rs)
        → IsWellFormed (limit_cache indices t (r ∷ rs))
    go cache e u = elim (Bool-cases (leb max_cache_entries (count_type cache (r ∷ rs)))) [
      | inl full ↦ rw full (record {
        unique = erase_oldest-UniqueKeys indices (r ∷ rs) u;
        cached = ground (
          arith,
          count-erase_oldest indices (r ∷ rs) r (inl refl) e,
          count-cons cache r rs,
          w.cached,
        );
      })
      | inr room ↦ rw room (record { unique = u; cached = ground arith })
    ]
    go sloppy_group e u = record {
      unique = u;
      cached = ground (arith, count-cons cache r rs, w.cached);
    }

put_record-IsWellFormed :
    (r : NameRecord) (db : NameDatabase)
    → r.type ≡ sloppy_group
    → IsWellFormed db.records
    → IsWellFormed (put_record r db (find_record r.node_id sloppy_group db.records)).0.records
unfolding put_record
put_record-IsWellFormed r db t w =
    elim (Option-cases (find_record r.node_id sloppy_group db.records)) [
      | inl e ↦ rw e (record {
        unique = (
          subst (λ u. All (λ s. has_key r.node_id u s ≡ false) db.records) (sym t)
              (All-none r.node_id sloppy_group db.records e),
          w.unique,
        );
        cached = ground (arith, count-cons cache r db.records, w.cached);
      })
      | inr (s, e) ↦ rw e (
          if_elim (λ (x : NameDatabase × List Effect). IsWellFormed x.0.records)
            (not (is_more_fresh r s)) w
            (modify-IsWellFormed r.node_id sloppy_group (λ s. r) db.records
              (replace-KeepsKey r.node_id sloppy_group r refl t) w))
    ]

pub store_record-IsWellFormed :
    (accepts : NameRecord → Bool) (now : ℕ) (r : NameRecord) (db : NameDatabase)
    → r.type ≡ sloppy_group
    → IsWellFormed db.records
    → IsWellFormed (store_record accepts now r db).0.records
unfolding store_record drop_record
store_record-IsWellFormed accepts now r db t w =
    ground (arith, put_record-IsWellFormed (record r { last_update = now }) db t w)

pub refreshed-key :
    (local_id : NodeIdentifier) (now timestamp : ℕ) (s : NameRecord)
    → ((refreshed local_id now timestamp s).node_id ≡ s.node_id)
      × ((refreshed local_id now timestamp s).type ≡ s.type)
      × ((refreshed local_id now timestamp s).last_update ≡ now)
unfolding refreshed
refreshed-key local_id now timestamp s = (ground arith, ground arith, ground arith)

open_record-IsWellFormed :
    (indices : Indices) (id : NodeIdentifier) (type : RecordType) (now timestamp : ℕ)
    (db : NameDatabase)
    → IsWellFormed db.records
    → IsWellFormed (open_record indices id type now timestamp db (find_record id type db.records)).1
unfolding open_record created
open_record-IsWellFormed indices id type now timestamp db w =
    elim (Option-cases (find_record id type db.records)) [
      | inl e ↦ rw e (insert-IsWellFormed indices _ db.records e w)
      | inr (s, e) ↦
          let (same_node, same_type) = find_key id type db.records s e in
          let (kept_node, kept_type, kept_time) = refreshed-key db.local_id now timestamp s in
          rw e (
            modify-IsWellFormed id type (λ x. refreshed db.local_id now timestamp s) db.records
              (replace-KeepsKey id type _ (kept_node ∙ sym same_node) (kept_type ∙ sym same_type))
              w)
    ]

with_addresses-KeepsKey :
    (id : NodeIdentifier) (t : RecordType) (addresses : List LandmarkAddress)
    → KeepsKey id t (with_addresses addresses)
unfolding KeepsKey with_addresses
with_addresses-KeepsKey id t addresses s h = (refl, refl)

pub store_addresses-IsWellFormed :
    (indices : Indices) (now timestamp : ℕ) (id : NodeIdentifier) (addresses : List LandmarkAddress)
    (type : RecordType) (db : NameDatabase)
    → IsWellFormed db.records
    → IsWellFormed (store_addresses indices now timestamp id addresses type db).0.records
unfolding store_addresses
store_addresses-IsWellFormed indices now timestamp id addresses type db w =
    if_elim (λ (x : NameDatabase × List Effect). IsWellFormed x.0.records)
      (is_null id || no_addresses addresses) w
      (modify-IsWellFormed id type _ _ (with_addresses-KeepsKey id type _)
        (open_record-IsWellFormed indices id type now timestamp db w))

pub refresh_local_record-IsWellFormed :
    (timestamp : ℕ) (db : NameDatabase)
    → IsWellFormed db.records
    → IsWellFormed (refresh_local_record timestamp db).0.records
unfolding refresh_local_record
refresh_local_record-IsWellFormed timestamp db w =
    elim (Option-cases (find_record db.local_id sloppy_group db.records)) [
      | inl e ↦ rw (e, refresh_local_record) w
      | inr (s, e) ↦
          let (same_node, same_type) = find_key db.local_id sloppy_group db.records s e in
          rw (e, refresh_local_record)
            (if_elim (λ (x : NameDatabase × List Effect). IsWellFormed x.0.records)
              (s.timestamp == timestamp) w
              (modify-IsWellFormed db.local_id sloppy_group _ db.records
                (replace-KeepsKey db.local_id sloppy_group
                  (record s { timestamp = timestamp; seqno = 0 }) (sym same_node) (sym same_type))
                w))
    ]

pub entry_timer_expired-IsWellFormed :
    (error : Bool) (r : Option NameRecord) (db : NameDatabase)
    → IsWellFormed db.records
    → IsWellFormed (entry_timer_expired error r db).records
unfolding entry_timer_expired
entry_timer_expired-IsWellFormed true r db w = w
entry_timer_expired-IsWellFormed false none db w = w
entry_timer_expired-IsWellFormed false (some r) db w =
    erase-IsWellFormed r.node_id r.type db.records w
