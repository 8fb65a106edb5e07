-- ===== src/Social/NameDatabase/Keys.antt =====
-- The table under its unique keys: what finding, erasing and modifying do to one another.
use unisphere.Prelude.{
  suc, ◌+◌, ◌≤◌, ◌≡◌, ◌∙◌, refl, sym, subst, Bool-cases, ◌↔◌, inl, inr, true, false, not, none,
  some, List, [], ◌∷◌, if◌then◌else◌, All, All-keep, In, find-eq-some, arith,
}
use mathlib.Core.Path.{subst₂}
use unisphere.Identity.NodeIdentifier.{NodeIdentifier}
use unisphere.Identity.NodeIdentifier.Order.{id_eq_iff}
use unisphere.Social.NameDatabase.Record.{
  RecordType, cache, sloppy_group, type_eq, NameRecord, has_key, find_record, erase_record,
  modify_record, count_type,
}

-- No two records have the same node identifier and type.
abbrev pub UniqueKeys : List NameRecord → Type 0
UniqueKeys [] = Unit
UniqueKeys (r ∷ rs) = All (λ s. has_key r.node_id r.type s ≡ false) rs × UniqueKeys rs

pub has_key_iff :
    (id : NodeIdentifier) (t : RecordType) (r : NameRecord)
    → (has_key id t r ≡ true) ↔ ((id ≡ r.node_id) × (t ≡ r.type))
unfolding has_key
has_key_iff id cache r =
    (λ h. ground (arith, id_eq_iff id r.node_id), λ e. ground (arith, id_eq_iff id r.node_id))
has_key_iff id sloppy_group r =
    (λ h. ground (arith, id_eq_iff id r.node_id), λ e. ground (arith, id_eq_iff id r.node_id))

pub count-cons :
    (t : RecordType) (r : NameRecord) (rs : List NameRecord)
    → count_type t (r ∷ rs) ≡ (if type_eq t r.type then suc (count_type t rs) else count_type t rs)
unfolding count_type
count-cons t r rs = ground arith

module _ (id : NodeIdentifier) (t : RecordType) where
  pub find-erase_self : (rs : List NameRecord) → find_record id t (erase_record id t rs) ≡ none
  unfolding find_record erase_record
  find-erase_self [] = refl
  find-erase_self (r ∷ rs) = ground (arith, find-erase_self rs)

  -- What a modification under another key leaves alone.
  pub find-modify_ne :
      (j : NodeIdentifier) (u : RecordType) (f : NameRecord → NameRecord) (rs : List NameRecord)
      → ((r : NameRecord) → has_key j u r ≡ true → has_key id t r ≡ false)
      → ((r : NameRecord) → has_key j u r ≡ true → has_key id t (f r) ≡ false)
      → find_record id t (modify_record j u f rs) ≡ find_record id t rs
  unfolding find_record modify_record
  find-modify_ne j u f [] old new = refl
  find-modify_ne j u f (r ∷ rs) old new =
      ground (arith, old r, new r, find-modify_ne j u f rs old new)

  pub find-erase_ne :
      (j : NodeIdentifier) (u : RecordType) (rs : List NameRecord)
      → ((r : NameRecord) → has_key j u r ≡ true → has_key id t r ≡ false)
      → find_record id t (erase_record j u rs) ≡ find_record id t rs
  unfolding find_record erase_record
  find-erase_ne j u [] other = refl
  find-erase_ne j u (r ∷ rs) other = ground (arith, other r, find-erase_ne j u rs other)

  -- A modification that keeps the key is seen under the key.
  pub find-modify_self :
      (f : NameRecord → NameRecord) (rs : List NameRecord) (r : NameRecord)
      → ((s : NameRecord) → has_key id t s ≡ true → has_key id t (f s) ≡ true)
      → find_record id t rs ≡ some r
      → find_record id t (modify_record id t f rs) ≡ some (f r)
  unfolding find_record modify_record
  find-modify_self f [] r keeps h = ground arith
  find-modify_self f (s ∷ rs) r keeps h = ground (arith, keeps s, find-modify_self f rs r keeps)

  pub find-modify_none :
      (f : NameRecord → NameRecord) (rs : List NameRecord)
      → find_record id t rs ≡ none
      → find_record id t (modify_record id t f rs) ≡ none
  unfolding find_record modify_record
  find-modify_none f [] h = refl
  find-modify_none f (s ∷ rs) h = ground (arith, find-modify_none f rs)

  pub find_key :
      (rs : List NameRecord) (r : NameRecord)
      → find_record id t rs ≡ some r
      → (id ≡ r.node_id) × (t ≡ r.type)
  unfolding find_record
  find_key rs r h = (has_key_iff id t r).0 (find-eq-some (has_key id t) rs r h).0

  pub All-none :
      (rs : List NameRecord) → find_record id t rs ≡ none → All (λ s. has_key id t s ≡ false) rs
  unfolding find_record
  All-none [] h = tt
  All-none (r ∷ rs) h = ground (arith, All-none rs)

  pub erase-UniqueKeys : (rs : List NameRecord) → UniqueKeys rs → UniqueKeys (erase_record id t rs)
  unfolding erase_record
  erase-UniqueKeys [] u = tt
  erase-UniqueKeys (r ∷ rs) u = ground (
    arith,
    erase-UniqueKeys rs u.1,
    All-keep (λ s. has_key r.node_id r.type s ≡ false) (λ s. not (has_key id t s)) rs u.0,
  )

  -- A modification of the record under the key that keeps its key.
  module _ (f : NameRecord → NameRecord)
      (keeps : (s : NameRecord)
        → has_key id t s ≡ true
        → ((f s).node_id ≡ s.node_id) × ((f s).type ≡ s.type)) where
    All-modify :
        (j : NodeIdentifier) (u : RecordType) (rs : List NameRecord)
        → All (λ s. has_key j u s ≡ false) rs
        → All (λ s. has_key j u s ≡ false) (modify_record id t f rs)
    unfolding modify_record has_key
    All-modify j u [] h = tt
    All-modify j u (r ∷ rs) h = ground (arith, keeps r, All-modify j u rs h.1)

    pub modify-UniqueKeys :
        (rs : List NameRecord) → UniqueKeys rs → UniqueKeys (modify_record id t f rs)
    unfolding modify_record
    modify-UniqueKeys [] u = tt
    modify-UniqueKeys (r ∷ rs) u = elim (Bool-cases (has_key id t r)) [
      | inl h ↦
          let (same_node, same_type) = keeps r h in
          rw h (
            subst₂ (λ j v. All (λ s. has_key j v s ≡ false) (modify_record id t f rs))
                (sym same_node) (sym same_type) (All-modify r.node_id r.type rs u.0),
            modify-UniqueKeys rs u.1,
          )
      | inr h ↦ rw h (All-modify r.node_id r.type rs u.0, modify-UniqueKeys rs u.1)
    ]

    pub count-modify :
        (u : RecordType) (rs : List NameRecord)
        → count_type u (modify_record id t f rs) ≡ count_type u rs
    unfolding count_type modify_record
    count-modify u [] = refl
    count-modify u (r ∷ rs) = ground (arith, keeps r, count-modify u rs)

  pub count-erase-le :
      (u : RecordType) (rs : List NameRecord)
      → count_type u (erase_record id t rs) ≤ count_type u rs
  unfolding count_type erase_record
  count-erase-le u [] = omega arith
  count-erase-le u (r ∷ rs) = ground (arith, count-erase-le u rs)

  -- Erasing a record that is there makes one fewer of its type.
  pub count-erase :
      (rs : List NameRecord) (r : NameRecord)
      → In r rs
      → has_key id t r ≡ true
      → count_type t (erase_record id t rs) + 1 ≤ count_type t rs
  unfolding count_type erase_record has_key
  count-erase [] r m h = absurd m
  count-erase (s ∷ rs) r (inl e) h =
      ground (arith, count-erase-le t rs, subst (λ x. has_key id t x ≡ true) e h)
  count-erase (s ∷ rs) r (inr m) h = ground (arith, count-erase rs r m)

pub has_own_key : (r : NameRecord) → has_key r.node_id r.type r ≡ true
has_own_key r = (has_key_iff r.node_id r.type r).1 (refl, refl)

pub find-cons :
    (id : NodeIdentifier) (t : RecordType) (r : NameRecord) (rs : List NameRecord)
    → find_record id t (r ∷ rs) ≡ (if has_key id t r then some r else find_record id t rs)
unfolding find_record
find-cons id t r rs = refl

-- Two records with one key are found under the same keys.
pub has_key_same :
    (id : NodeIdentifier) (t : RecordType) (r s : NameRecord)
    → has_key r.node_id r.type s ≡ true
    → has_key id t s ≡ has_key id t r
unfolding has_key
has_key_same id t r s h =
    let (same_node, same_type) = (has_key_iff r.node_id r.type s).0 h in rw (same_node, same_type)

-- A replacement under the key of the new record, where there was one.
pub find-replace :
    (id : NodeIdentifier) (t : RecordType) (r s : NameRecord) (rs : List NameRecord)
    → find_record r.node_id r.type rs ≡ some s
    → find_record id t (modify_record r.node_id r.type (λ x. r) rs)
      ≡ (if has_key id t r then some r else find_record id t rs)
find-replace id t r s rs found = elim (Bool-cases (has_key id t r)) [
  | inl h ↦
      let (same_node, same_type) = (has_key_iff id t r).0 h in
      rw (h, same_node, same_type)
        (find-modify_self r.node_id r.type (λ x. r) rs s (λ x k. has_own_key r) found)
  | inr h ↦ rw h (
      find-modify_ne id t r.node_id r.type (λ x. r) rs (λ x k. has_key_same id t r x k ∙ h)
        (λ x k. h))
]
