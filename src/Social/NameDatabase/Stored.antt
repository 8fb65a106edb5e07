-- ===== src/Social/NameDatabase/Stored.antt =====
-- What `store(nodeId, addresses, type)` leaves under its key.
use unisphere.Prelude.{
  ℕ, zero, suc, ◌<◌, ◌≡◌, refl, sym, ◌∙◌, ap, inl, inr, false, not, none, some, List, [], ◌∷◌, leb,
  Bool-cases, Option-cases, take, keep, In, All, All-In, arith,
}
use unisphere.Identity.NodeIdentifier.{NodeIdentifier, is_null}
use unisphere.Social.Address.{LandmarkAddress, address_null}
use unisphere.Social.NameDatabase.Record.{
  RecordType, type_eq, cache, sloppy_group, NameRecord, NameDatabase, Indices, has_key, find_record,
  count_type, max_stored_addresses, max_cache_entries, no_addresses,
}
use unisphere.Social.NameDatabase.Store.{
  select_addresses, limit_cache, erase_oldest, created, refreshed, open_record, with_addresses,
  store_addresses,
}
use unisphere.Social.NameDatabase.Keys.{
  has_key_iff, has_key_same, has_own_key, find_key, find-cons, count-cons, All-none, find-erase_ne,
  find-modify_self,
}
use unisphere.Social.NameDatabase.Diff.{type_eq_iff}
use unisphere.Social.NameDatabase.Invariant.{refreshed-key}
use unisphere.Social.NameDatabase.Eviction.{erase_oldest_lem}

-- The loop takes the first three addresses that are not null.
pub select_addresses-eq-take :
    (room : ℕ) (addresses : List LandmarkAddress)
    → select_addresses (suc room) addresses
      ≡ take (suc room) (keep (λ a. not (address_null a)) addresses)
unfolding select_addresses
select_addresses-eq-take room [] = refl
select_addresses-eq-take zero (a ∷ rest) = ground (arith, select_addresses-eq-take zero rest)
select_addresses-eq-take (suc room) (a ∷ rest) =
    ground (arith, select_addresses-eq-take (suc room) rest, select_addresses-eq-take room rest)

no_records : (t : RecordType) → 0 < count_type t [] → ⊥
unfolding count_type
no_records t h = omega arith

some_of_count :
    (t : RecordType) (rs : List NameRecord)
    → 0 < count_type t rs
    → (r : NameRecord) × In r rs × (r.type ≡ t)
some_of_count t [] h = absurd (no_records t h)
some_of_count t (r ∷ rs) h = elim (Bool-cases (type_eq t r.type)) [
  | inl e ↦ (r, inl refl, sym ((type_eq_iff t r.type).0 e))
  | inr e ↦ let (s, m, k) = some_of_count t rs (ground (arith, count-cons t r rs)) in (s, inr m, k)
]

-- Every cached record is from before now.
abbrev pub IsPast : ℕ → List NameRecord → Type 0
IsPast now rs = All (λ s. s.last_update < now) rs

module _ (indices : Indices) (r : NameRecord) (rs : List NameRecord)
    (absent : find_record r.node_id r.type rs ≡ none) (past : IsPast r.last_update rs) where
  -- A new record is not the one that has to go.
  find-erase_oldest :
      r.type ≡ cache
      → 0 < count_type cache rs
      → find_record r.node_id r.type (erase_oldest indices (r ∷ rs)) ≡ some r
  find-erase_oldest c some_cached =
      let (y, m, k) = some_of_count cache rs some_cached in
      let (old, oldest, e) = erase_oldest_lem indices (r ∷ rs) y (inr m) k in
      let before : old.last_update < r.last_update =
        omega (
          arith,
          oldest.oldest y (inr m) k,
          All-In (λ s. s.last_update < r.last_update) rs past m,
        ) in
      rw (e) (
        find-erase_ne r.node_id r.type old.node_id old.type (r ∷ rs)
          (λ x h. has_key_same r.node_id r.type old x h ∙ other old oldest.present before)
        ∙ find-cons r.node_id r.type r rs
        ∙ rw (has_own_key r))
    where
      other :
          (old : NameRecord)
          → In old (r ∷ rs)
          → old.last_update < r.last_update
          → has_key r.node_id r.type old ≡ false
      other old (inl e) before = absurd (omega (arith, ap (λ (x : NameRecord). x.last_update) e))
      other old (inr m) before =
          All-In (λ s. has_key r.node_id r.type s ≡ false) rs (All-none r.node_id r.type rs absent)
            m

  plain : find_record r.node_id r.type (r ∷ rs) ≡ some r
  plain = find-cons r.node_id r.type r rs ∙ rw (has_own_key r)

  find-limit_cache : find_record r.node_id r.type (limit_cache indices r.type (r ∷ rs)) ≡ some r
  unfolding limit_cache
  find-limit_cache = go r.type refl
    where
      go :
          (t : RecordType)
          → r.type ≡ t
          → find_record r.node_id r.type (limit_cache indices t (r ∷ rs)) ≡ some r
      go sloppy_group e = plain
      go cache e = elim (Bool-cases (leb max_cache_entries (count_type cache (r ∷ rs)))) [
        | inl full ↦ rw full (find-erase_oldest e (ground (arith, full, count-cons cache r rs)))
        | inr room ↦ rw room plain
      ]

find-open_record :
    (indices : Indices) (now timestamp : ℕ) (id : NodeIdentifier) (type : RecordType)
    (db : NameDatabase)
    → IsPast now db.records
    → (r : NameRecord) × (find_record id type
          (open_record indices id type now timestamp db (find_record id type db.records)).1
        ≡ some r)
      × (r.last_update ≡ now)
unfolding open_record created
find-open_record indices now timestamp id type db past =
    elim (Option-cases (find_record id type db.records)) [
      | inl e ↦ rw e (_, find-limit_cache indices _ db.records e past, refl)
      | inr (s, e) ↦
          let next = refreshed db.local_id now timestamp s in
          let (same_node, same_type) = find_key id type db.records s e in
          let kept = refreshed-key db.local_id now timestamp s in
          rw e (
            next,
            find-modify_self id type (λ x. next) db.records s
                (λ x h.
                  (has_key_iff id type next).1 (same_node ∙ sym kept.0, same_type ∙ sym kept.1))
                e,
            kept.2,
          )
    ]

-- After `store` of a list of addresses for a node, with the clock ahead of every stored record, the key
-- holds a record of that time with the first three of the addresses that are not null.
pub find-store_addresses :
    (indices : Indices) (now timestamp : ℕ) (id : NodeIdentifier) (addresses : List LandmarkAddress)
    (type : RecordType) (db : NameDatabase)
    → is_null id ≡ false
    → no_addresses addresses ≡ false
    → IsPast now db.records
    → (r : NameRecord) × (find_record id type
          (store_addresses indices now timestamp id addresses type db).0.records
        ≡ some r)
      × (r.addresses ≡ take 3 (keep (λ a. not (address_null a)) addresses))
      × (r.last_update ≡ now)
unfolding store_addresses with_addresses
find-store_addresses indices now timestamp id addresses type db valid given past =
    let opened = open_record indices id type now timestamp db (find_record id type db.records) in
    let chosen = select_addresses max_stored_addresses addresses in
    let (r, found, timed) = find-open_record indices now timestamp id type db past in
    rw (valid, given)
      (
        with_addresses chosen r,
        find-modify_self id type (with_addresses chosen) opened.1 r (λ s h. unfold has_key in h)
            found,
        select_addresses-eq-take 2 addresses,
        timed,
      )
