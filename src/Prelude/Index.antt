-- ===== src/Prelude/Index.antt =====
-- Boost.MultiIndex, as the program uses it. A container is modelled by the list of its elements, in
-- no particular order. An ordered index is a parameter: a view of those elements that is sorted by
-- the index's comparison. How it orders elements that compare equal is left open.
use mathlib.Core.Path.{◌≡◌}
use mathlib.Core.Bool.{Bool, true, false}
use mathlib.Core.Logic.{◌↔◌, ◌⊎◌, inl, inr}
use mathlib.Core.Option.{some}
use mathlib.Core.List.{List, [], ◌∷◌}
use native.Mathlib.Omega.{arith}
use unisphere.Prelude.Tests.{if◌then◌else◌, Bool-cases}
use unisphere.Prelude.Lists.{All, In, All-In, All-of-In, find}

module _ {A : Type 0} where
  -- No element compares less than one before it.
  abbrev pub IsSorted : (A → A → Bool) → List A → Type 0
  IsSorted lt [] = Unit
  IsSorted lt (x ∷ xs) = All (λ y. lt y x ≡ false) xs × IsSorted lt xs

pub record OrderedIndex {A : Type 0} (lt : A → A → Bool) : Type 0 where
  pub view : List A → List A
  pub view-In : (xs : List A) (x : A) → In x (view xs) ↔ In x xs
  pub view-IsSorted : (xs : List A) → IsSorted lt (view xs)

-- The first element of a sorted list that passes a test is a least one of those that do.
pub find-least :
    {A : Type 0} (lt : A → A → Bool) (p : A → Bool) (xs : List A) (x y : A)
    → IsSorted lt xs
    → find p xs ≡ some x
    → In y xs
    → p y ≡ true
    → (lt y x ≡ false) ⊎ (x ≡ y)
find-least lt p [] x y s f m h = absurd m
find-least lt p (z ∷ xs) x y s f (inl e) h = ground (arith, e)
find-least lt p (z ∷ xs) x y s f (inr m) h =
    let later = All-In (λ w. lt w z ≡ false) xs s.0 m in
    ground (arith, later, find-least lt p xs x y s.1)

-- A sorted view by insertion, for a comparison that is a strict weak order.
module _ {A : Type 0} (lt : A → A → Bool) (asym : (x y : A) → lt x y ≡ true → lt y x ≡ false)
    (trans : (x y z : A) → lt y x ≡ false → lt z y ≡ false → lt z x ≡ false) where
  unfoldable pub insert_sorted : A → List A → List A
  insert_sorted x [] = x ∷ []
  insert_sorted x (y ∷ ys) = if lt x y then x ∷ y ∷ ys else y ∷ insert_sorted x ys

  unfoldable pub sort : List A → List A
  unfolding insert_sorted
  sort [] = []
  sort (x ∷ xs) = insert_sorted x (sort xs)

  insert_sorted-In : (x : A) (ys : List A) (z : A) → In z (insert_sorted x ys) ↔ In z (x ∷ ys)
  unfolding insert_sorted
  insert_sorted-In x [] z = (λ m. m, λ m. m)
  insert_sorted-In x (y ∷ ys) z =
      let ih = insert_sorted-In x ys z in (λ m. ground (arith, ih), λ m. ground (arith, ih))

  pub sort-In : (xs : List A) (z : A) → In z (sort xs) ↔ In z xs
  unfolding sort
  sort-In [] z = (λ m. m, λ m. m)
  sort-In (x ∷ xs) z =
      let ih = sort-In xs z in
      let put = insert_sorted-In x (sort xs) z in
      (λ m. ground (arith, ih, put), λ m. ground (arith, ih, put))

  insert_sorted-IsSorted : (x : A) (ys : List A) → IsSorted lt ys → IsSorted lt (insert_sorted x ys)
  unfolding insert_sorted
  insert_sorted-IsSorted x [] s = (tt, tt)
  insert_sorted-IsSorted x (y ∷ ys) s = elim (Bool-cases (lt x y)) [
    | inl below ↦
        let first = asym x y below in
        let rest =
          All-of-In (λ w. lt w x ≡ false) ys
            (λ w m. trans x y w first (All-In (λ v. lt v y ≡ false) ys s.0 m)) in
        rw below ((first, rest), s)
    | inr above ↦
        let rest =
          All-of-In (λ w. lt w y ≡ false) (insert_sorted x ys)
            (λ w m. elim ((insert_sorted-In x ys w).0 m) [
              | inl e ↦ rw e above
              | inr n ↦ All-In (λ v. lt v y ≡ false) ys s.0 n
            ]) in
        rw above (rest, insert_sorted-IsSorted x ys s.1)
  ]

  pub sort-IsSorted : (xs : List A) → IsSorted lt (sort xs)
  unfolding sort
  sort-IsSorted [] = tt
  sort-IsSorted (x ∷ xs) = insert_sorted-IsSorted x (sort xs) (sort-IsSorted xs)

  unfoldable pub sorted_index : OrderedIndex lt
  unfolding sort
  sorted_index = record { view = sort; view-In = sort-In; view-IsSorted = sort-IsSorted }
