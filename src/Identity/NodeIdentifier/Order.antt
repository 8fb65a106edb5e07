-- ===== src/Identity/NodeIdentifier/Order.antt =====
-- Comparison of identifiers, from src/identity/node_identifier.h.
use unisphere.Prelude.{
  ℕ, ◌≡◌, refl, ap, ◌↔◌, ◌⊎◌, inl, inr, true, false, Bool-cases, List, [], ◌∷◌, Bool-ext, arith,
}
use unisphere.Identity.NodeIdentifier.{NodeIdentifier, bytes_eq, bytes_lt, id_eq, id_lt}

bytes_eq_sound : (xs ys : List ℕ) → bytes_eq xs ys ≡ true → xs ≡ ys
unfolding bytes_eq
bytes_eq_sound [] [] h = refl
bytes_eq_sound [] (y ∷ ys) h = ground arith
bytes_eq_sound (x ∷ xs) [] h = ground arith
bytes_eq_sound (x ∷ xs) (y ∷ ys) h = ground (arith, bytes_eq_sound xs ys)

bytes_eq_refl : (xs : List ℕ) → bytes_eq xs xs ≡ true
unfolding bytes_eq
bytes_eq_refl [] = refl
bytes_eq_refl (x ∷ xs) = ground (arith, bytes_eq_refl xs)

pub bytes_eq_iff : (xs ys : List ℕ) → (bytes_eq xs ys ≡ true) ↔ (xs ≡ ys)
bytes_eq_iff xs ys = (bytes_eq_sound xs ys, λ e. rw e (bytes_eq_refl ys))

-- `==` holds exactly for the same identifier.
pub id_eq_iff : (a b : NodeIdentifier) → (id_eq a b ≡ true) ↔ (a ≡ b)
unfolding id_eq
id_eq_iff a b = (
  λ h.
      ap (λ (bs : List ℕ). record { identifier = bs }) (bytes_eq_sound a.identifier b.identifier h),
  λ e. rw e (bytes_eq_refl b.identifier),
)

pub id_eq_refl : (a : NodeIdentifier) → id_eq a a ≡ true
id_eq_refl a = (id_eq_iff a a).1 refl

pub id_eq_comm : (a b : NodeIdentifier) → id_eq a b ≡ id_eq b a
id_eq_comm a b =
    Bool-ext _ _ (λ h. rw ((id_eq_iff a b).0 h) (id_eq_refl b))
      (λ h. rw ((id_eq_iff b a).0 h) (id_eq_refl a))

pub bytes_lt_irrefl : (xs : List ℕ) → bytes_lt xs xs ≡ false
unfolding bytes_lt
bytes_lt_irrefl [] = refl
bytes_lt_irrefl (x ∷ xs) = ground (arith, bytes_lt_irrefl xs)

pub bytes_lt_trans :
    (xs ys zs : List ℕ) → bytes_lt xs ys ≡ true → bytes_lt ys zs ≡ true → bytes_lt xs zs ≡ true
unfolding bytes_lt
bytes_lt_trans [] [] zs h k = k
bytes_lt_trans [] (y ∷ ys) [] h k = ground arith
bytes_lt_trans [] (y ∷ ys) (z ∷ zs) h k = refl
bytes_lt_trans (x ∷ xs) [] zs h k = ground arith
bytes_lt_trans (x ∷ xs) (y ∷ ys) [] h k = ground arith
bytes_lt_trans (x ∷ xs) (y ∷ ys) (z ∷ zs) h k = ground (arith, bytes_lt_trans xs ys zs)

pub bytes_lt_total :
    (xs ys : List ℕ) → (bytes_lt xs ys ≡ true) ⊎ (bytes_lt ys xs ≡ true) ⊎ (xs ≡ ys)
unfolding bytes_lt
bytes_lt_total [] [] = inr (inr refl)
bytes_lt_total [] (y ∷ ys) = inl refl
bytes_lt_total (x ∷ xs) [] = inr (inl refl)
bytes_lt_total (x ∷ xs) (y ∷ ys) = ground (arith, bytes_lt_total xs ys)

-- a strict total order
pub record IsStrictOrder : Type 0 where
  pub irrefl : (a : NodeIdentifier) → id_lt a a ≡ false
  pub trans : (a b c : NodeIdentifier) → id_lt a b ≡ true → id_lt b c ≡ true → id_lt a c ≡ true
  pub total : (a b : NodeIdentifier) → (id_lt a b ≡ true) ⊎ (id_lt b a ≡ true) ⊎ (id_eq a b ≡ true)

-- `<` on identifiers is irreflexive and transitive, and any two identifiers are ordered by it or equal.
pub id_lt-IsStrictOrder : IsStrictOrder
unfolding id_lt id_eq
id_lt-IsStrictOrder = record {
  irrefl = λ a. bytes_lt_irrefl a.identifier;
  trans = λ a b c. bytes_lt_trans a.identifier b.identifier c.identifier;
  total = λ a b. elim (bytes_lt_total a.identifier b.identifier) [
    | inl h ↦ inl h
    | inr (inl h) ↦ inr (inl h)
    | inr (inr e) ↦ inr (inr (rw e (bytes_eq_refl b.identifier)))
  ];
}

-- The two laws by which a container sorts.
pub id_lt_asym : (a b : NodeIdentifier) → id_lt a b ≡ true → id_lt b a ≡ false
id_lt_asym a b h = elim (Bool-cases (id_lt b a)) [
  | inl k ↦ ground (arith, id_lt-IsStrictOrder.trans a b a h k, id_lt-IsStrictOrder.irrefl a)
  | inr k ↦ k
]

pub id_lt_trans_not :
    (a b c : NodeIdentifier) → id_lt b a ≡ false → id_lt c b ≡ false → id_lt c a ≡ false
id_lt_trans_not a b c h k = elim (Bool-cases (id_lt c a)) [
  | inr l ↦ l
  | inl l ↦ elim (id_lt-IsStrictOrder.total a b) [
    | inl p ↦ ground (arith, id_lt-IsStrictOrder.trans c a b l p, k)
    | inr (inl p) ↦ ground (arith, p, h)
    | inr (inr p) ↦ ground (arith, l, k, (id_eq_iff a b).0 p)
  ]
]
