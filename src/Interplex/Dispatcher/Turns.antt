-- ===== src/Interplex/Dispatcher/Turns.antt =====
-- The loop of the dispatcher ends, and finds a connected linklet where there is one.
use unisphere.Prelude.{
  ℕ, zero, suc, ◌+◌, ◌<◌, ◌≤◌, ◌≡◌, ◌≢◌, refl, sym, subst, ◌⊎◌, inl, inr, Bool, true, false, Option,
  some, none, List, [], ◌∷◌, ◌==◌, if◌then◌else◌, length, get_elem?, Bool-cases, arith,
}
use unisphere.Interplex.Dispatcher.{
  Linklet, is_linklet_connected, Choice, no_linklets, chosen, exhausted, looping, wrapped, choose,
  dispatch,
}

-- No linklet is connected from one position up to another.
abbrev pub IsDown : List Linklet → ℕ → ℕ → Type 0
IsDown ls i j =
    (k : ℕ) (l : Linklet) → i ≤ k → k < j → get_elem? ls k ≡ some l → is_linklet_connected l ≡ false

abbrev pub IsServed : List Linklet → Choice → Type 0
IsServed ls no_linklets = ls ≡ []
IsServed ls (chosen i) = (l : Linklet) × (get_elem? ls i ≡ some l) × (is_linklet_connected l ≡ true)
IsServed ls exhausted = IsDown ls 0 (length ls)
IsServed ls looping = ⊥

get_elem?-some :
    (ls : List Linklet) (i : ℕ) → i < length ls → (l : Linklet) × (get_elem? ls i ≡ some l)
get_elem?-some [] i h = ground (arith, h)
get_elem?-some (l ∷ ls) zero h = (l, refl)
get_elem?-some (l ∷ ls) (suc i) h = get_elem?-some ls i (omega (arith, h))

leb-cases : (a b : ℕ) → (a ≤ b) ⊎ (b < a)
leb-cases a b = ground arith

module _ (ls : List Linklet) (start : ℕ) (within : start ≤ length ls) where
  IsDown-step :
      (i j : ℕ) (l : Linklet)
      → get_elem? ls j ≡ some l
      → is_linklet_connected l ≡ false
      → IsDown ls i j
      → IsDown ls i (j + 1)
  IsDown-step i j l e off down k m ik kj f = elim (Bool-cases (k == j)) [
    | inl same ↦ ground (arith, e, f, off, same)
    | inr other ↦ down k m ik (ground (arith, other)) f
  ]

  -- One turn: at a connected linklet, where the loop began, or further on
  turn :
      (fuel p q : ℕ) (l : Linklet)
      → wrapped ls p ≡ q
      → get_elem? ls q ≡ some l
      → (is_linklet_connected l ≡ false → q + 1 ≡ start → IsServed ls exhausted)
      → (is_linklet_connected l ≡ false
          → q + 1 ≢ start
          → IsServed ls (choose fuel ls start (q + 1)))
      → IsServed ls (choose (suc fuel) ls start p)
  unfolding choose
  turn fuel p q l w e stop go =
      subst (λ v. IsServed ls (found v (get_elem? ls v))) (sym w)
        (subst (λ o. IsServed ls (found q o)) (sym e)
          (by_tests (is_linklet_connected l) (q + 1 == start) refl refl))
    where
      found : ℕ → Option Linklet → Choice
      found v o = elim o as (λ x. Choice) [
        | none ↦ no_linklets
        | some m ↦
            if is_linklet_connected m
            then chosen v
            else if v + 1 == start
            then exhausted
            else choose fuel ls start (v + 1)
      ]

      by_tests :
          (up back : Bool)
          → is_linklet_connected l ≡ up
          → (q + 1 == start) ≡ back
          → IsServed ls
              (if up then chosen q else if back then exhausted else choose fuel ls start (q + 1))
      by_tests true back u b = (l, e, u)
      by_tests false true u b = stop u (ground (arith, b))
      by_tests false false u b = go u (λ same. ground (arith, same, b))

  -- Before the place where it began, once the rest is known to be down
  below :
      (fuel p : ℕ)
      → p < start
      → start ≤ fuel + p
      → IsDown ls 0 p
      → IsDown ls start (length ls)
      → IsServed ls (choose fuel ls start p)
  below zero p h enough early late = absurd (omega (arith, h, enough))
  below (suc fuel) p h enough early late =
      let here = get_elem?-some ls p (omega (arith, h, within)) in
      turn fuel p p (here.0) (ground (arith, h, within)) (here.1)
        (λ off back. joined (IsDown-step 0 p (here.0) (here.1) off early) back)
        (λ off other.
          below fuel (p + 1) (ground (arith, h, other)) (omega (arith, enough))
            (IsDown-step 0 p (here.0) (here.1) off early) late)
    where
      joined : IsDown ls 0 (p + 1) → p + 1 ≡ start → IsDown ls 0 (length ls)
      joined first back k l i j f = elim (leb-cases k p) [
        | inl low ↦ first k l i (omega (arith, low)) f
        | inr high ↦ late k l (omega (arith, high, back)) j f
      ]

  -- From the place where it began up to the end, and then from the front
  above :
      (fuel p : ℕ)
      → 0 < start
      → start ≤ p
      → p ≤ length ls
      → length ls + start ≤ fuel + p
      → IsDown ls start p
      → IsServed ls (choose fuel ls start p)
  above zero p positive low high enough down = absurd (omega (arith, positive, high, enough))
  above (suc fuel) p positive low high enough down = elim (leb-cases (length ls) p) [
    | inl end ↦
        let here = get_elem?-some ls 0 (omega (arith, positive, within)) in
        let rest : IsDown ls start (length ls) =
          λ k l i j f. down k l i (omega (arith, j, end)) f in
        let none_before : IsDown ls 0 0 = λ k l i j f. absurd (omega (arith, j)) in
        turn fuel p 0 (here.0) (ground (arith, end, high)) (here.1)
          (λ off back. whole back rest (IsDown-step 0 0 (here.0) (here.1) off none_before))
          (λ off other.
            below fuel 1 (ground (arith, positive, other))
              (omega (arith, enough, end, high, within))
              (IsDown-step 0 0 (here.0) (here.1) off none_before) rest)
    | inr inside ↦
        let here = get_elem?-some ls p (omega (arith, inside)) in
        turn fuel p p (here.0) (ground (arith, inside)) (here.1)
          (λ off back. absurd (omega (arith, back, low)))
          (λ off other.
            above fuel (p + 1) positive (omega (arith, low)) (omega (arith, inside))
              (omega (arith, enough)) (IsDown-step start p (here.0) (here.1) off down))
  ]
    where
      whole : 1 ≡ start → IsDown ls start (length ls) → IsDown ls 0 1 → IsDown ls 0 (length ls)
      whole back rest first k l i j f = elim (leb-cases k 0) [
        | inl zero_k ↦ first k l i (omega (arith, zero_k)) f
        | inr more ↦ rest k l (omega (arith, more, back)) j f
      ]

-- The iterator is at the end, or at a linklet that is not the first one.
abbrev pub IsTurned : List Linklet → Option ℕ → Type 0
IsTurned ls none = Unit
IsTurned ls (some i) = (0 < i) × (i < length ls)

-- Where the iterator is at the end or past the first linklet, the loop of `send` ends within its turns: at a
-- connected linklet, or where there is none, either because the list is empty or because none is connected.
pub dispatch-IsServed :
    (ls : List Linklet) (last : Option ℕ) → IsTurned ls last → IsServed ls (dispatch ls last)
unfolding dispatch choose
dispatch-IsServed [] none t = refl
dispatch-IsServed [] (some i) t = absurd (omega (arith, t.1))
dispatch-IsServed (l ∷ ls) none t =
    above (l ∷ ls) (length (l ∷ ls)) (omega arith) (length (l ∷ ls) + 1) (length (l ∷ ls))
      (omega arith) (omega arith) (omega arith) (omega arith)
      (λ k m i j f. absurd (omega (arith, i, j)))
dispatch-IsServed (l ∷ ls) (some i) t =
    above (l ∷ ls) i (omega (arith, t.1)) (length (l ∷ ls) + 1) i (t.0) (omega arith)
      (omega (arith, t.1)) (omega arith) (λ k m p q f. absurd (omega (arith, p, q)))
