-- ===== src/Social/NameDatabase/Eviction.antt =====
-- The limit on cached records: what `limit_cache` erases, and what is left.
use unisphere.Prelude.{
  ◌+◌, ◌≤◌, ◌≡◌, subst, ◌⊎◌, inl, inr, Bool, true, false, not, some, List, find, In, find-eq-some,
  find_of-In, Option-cases, arith,
}
use unisphere.Prelude.Index.{find-least}
use unisphere.Social.NameDatabase.Record.{
  cache, type_lt, NameRecord, Indices, type_age_lt, has_key, erase_record, count_type,
}
use unisphere.Social.NameDatabase.Store.{erase_oldest}
use unisphere.Social.NameDatabase.Keys.{UniqueKeys, has_own_key, erase-UniqueKeys, count-erase}

type_of_least :
    (y r : NameRecord) → y.type ≡ cache → (type_age_lt y r ≡ false) ⊎ (r ≡ y) → r.type ≡ cache
type_of_least y r c h = ground arith

age_of_least :
    (s r : NameRecord)
    → s.type ≡ cache
    → r.type ≡ cache
    → (type_age_lt s r ≡ false) ⊎ (r ≡ s)
    → r.last_update ≤ s.last_update
age_of_least s r k c h = ground arith

module _ (indices : Indices) (rs : List NameRecord) where
  -- A cached record of the table that no cached record is older than.
  pub record IsOldest (r : NameRecord) : Type 0 where
    pub present : In r rs
    pub cached : r.type ≡ cache
    pub oldest : (s : NameRecord) → In s rs → s.type ≡ cache → r.last_update ≤ s.last_update

  abbrev eligible : NameRecord → Bool
  eligible r = not (type_lt r.type cache)

  first-IsOldest :
      (y r : NameRecord)
      → In y rs
      → y.type ≡ cache
      → find eligible (indices.by_type_age.view rs) ≡ some r
      → IsOldest r
  first-IsOldest y r m c found =
      let sorted = indices.by_type_age.view-IsSorted rs in
      let viewed = indices.by_type_age.view-In rs in
      let least : (s : NameRecord)
          → In s rs
          → s.type ≡ cache
          → (type_age_lt s r ≡ false) ⊎ (r ≡ s) =
        λ s n k. find-least type_age_lt eligible _ r s sorted found ((viewed s).1 n) (rw k) in
      let cached = type_of_least y r c (least y m c) in
      record {
        present = (viewed r).0 (find-eq-some eligible _ r found).1;
        cached = cached;
        oldest = λ s n k. age_of_least s r k cached (least s n k);
      }

  -- Where there is a cached record, the one that goes is a cached one with the least time of update.
  pub erase_oldest_lem :
      (y : NameRecord)
      → In y rs
      → y.type ≡ cache
      → (r : NameRecord) × IsOldest r × (erase_oldest indices rs ≡ erase_record r.node_id r.type rs)
  unfolding erase_oldest
  erase_oldest_lem y m c = elim (Option-cases (find eligible (indices.by_type_age.view rs))) [
    | inl absent ↦
        absurd (find_of-In eligible _ y ((indices.by_type_age.view-In rs y).1 m) (rw c) absent)
    | inr (r, found) ↦ (r, first-IsOldest y r m c found, rw (found, erase_oldest))
  ]

  pub erase_oldest-UniqueKeys : UniqueKeys rs → UniqueKeys (erase_oldest indices rs)
  unfolding erase_oldest
  erase_oldest-UniqueKeys u = elim (Option-cases (find eligible (indices.by_type_age.view rs))) [
    | inl absent ↦ rw (absent, erase_oldest) u
    | inr (r, found) ↦ rw (found, erase_oldest) (erase-UniqueKeys r.node_id r.type rs u)
  ]

  -- An erasure makes room for one more cached record.
  pub count-erase_oldest :
      (y : NameRecord)
      → In y rs
      → y.type ≡ cache
      → count_type cache (erase_oldest indices rs) + 1 ≤ count_type cache rs
  count-erase_oldest y m c =
      let (r, oldest, e) = erase_oldest_lem y m c in
      rw (e, oldest.cached)
        (count-erase r.node_id cache rs r oldest.present
          (subst (λ t. has_key r.node_id t r ≡ true) oldest.cached (has_own_key r)))
