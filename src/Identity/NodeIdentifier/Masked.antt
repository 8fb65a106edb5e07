-- ===== src/Identity/NodeIdentifier/Masked.antt =====
-- The prefix and the shared leading digits by recursion on the bytes, for the proofs. `masked` and `Agree` take `q` whole bytes, then `r` digits of the next one.
use unisphere.Prelude.{
  ℕ, zero, suc, ◌+◌, ◌-◌, ◌*◌, ◌/◌, ◌%◌, ◌^◌, ◌≤◌, ◌<◌, bit_xor, ◌≡◌, refl, sym, ap, ◌∙◌, ◌↔◌, List,
  [], ◌∷◌, ◌++◌, All, length, take, replicate, arith,
}
use native.Mathlib.Nat.{one-le-pow}
use unisphere.Prelude.Bits.{shift, shift_bounds, shift_unique}
use unisphere.Identity.NodeIdentifier.{
  NodeIdentifier, id_length, bit_length, is_valid, leading_zeros, common_bits, merge_byte, merge_at,
  prefix,
}
use unisphere.Identity.NodeIdentifier.Bytes.{leading_zeros-xor, merge_byte_lem}

abbrev pub AreBytes : List ℕ → Type 0
AreBytes xs = All (λ x. x < 256) xs

-- An identifier that the program accepts: 20 bytes.
pub record IsProper (a : NodeIdentifier) : Type 0 where
  pub sized : length a.identifier ≡ id_length
  pub bytes : AreBytes a.identifier

unfoldable pub masked : ℕ → ℕ → ℕ → List ℕ → List ℕ
masked q r fill [] = []
masked zero zero fill (x ∷ xs) = fill ∷ masked zero zero fill xs
masked zero (suc r) fill (x ∷ xs) = merge_byte (suc r) fill x ∷ masked zero zero fill xs
masked (suc q) r fill (x ∷ xs) = x ∷ masked q r fill xs

unfoldable pub Agree : ℕ → ℕ → List ℕ → List ℕ → Type 0
Agree zero zero xs ys = Unit
Agree zero (suc r) [] ys = Unit
Agree zero (suc r) (x ∷ xs) [] = Unit
Agree zero (suc r) (x ∷ xs) (y ∷ ys) = shift (8 - suc r) x ≡ shift (8 - suc r) y
Agree (suc q) r [] ys = Unit
Agree (suc q) r (x ∷ xs) [] = Unit
Agree (suc q) r (x ∷ xs) (y ∷ ys) = (x ≡ y) × Agree q r xs ys

masked-blank : (fill n : ℕ) (xs : List ℕ) → length xs ≡ n → masked 0 0 fill xs ≡ replicate n fill
unfolding masked
masked-blank fill zero [] h = refl
masked-blank fill (suc n) [] h = absurd (omega arith)
masked-blank fill zero (x ∷ xs) h = absurd (omega arith)
masked-blank fill (suc n) (x ∷ xs) h = ap (◌∷◌ fill) (masked-blank fill n xs (omega arith))

masked-whole :
    (q fill n : ℕ) (xs : List ℕ)
    → length xs ≡ q + n
    → masked q 0 fill xs ≡ take q xs ++ replicate n fill
unfolding masked
masked-whole zero fill n xs h = masked-blank fill n xs (omega arith)
masked-whole (suc q) fill n [] h = absurd (omega arith)
masked-whole (suc q) fill n (x ∷ xs) h = ap (◌∷◌ x) (masked-whole q fill n xs (omega arith))

masked-merge :
    (q r fill n : ℕ) (xs : List ℕ)
    → length xs ≡ q + suc n
    → masked q (suc r) fill xs ≡ merge_at q (suc r) (take q xs ++ replicate (suc n) fill) xs
unfolding masked merge_at
masked-merge zero r fill n [] h = absurd (omega arith)
masked-merge zero r fill n (x ∷ xs) h =
    ap (◌∷◌ (merge_byte (suc r) fill x)) (masked-blank fill n xs (omega arith))
masked-merge (suc q) r fill n [] h = absurd (omega arith)
masked-merge (suc q) r fill n (x ∷ xs) h = ap (◌∷◌ x) (masked-merge q r fill n xs (omega arith))

-- The source's copy, mask and merge are the recursion `masked`.
pub prefix-masked :
    (a : NodeIdentifier) (bits fill : ℕ)
    → IsProper a
    → bits ≤ bit_length
    → (prefix a bits fill).identifier ≡ masked (bits / 8) (bits % 8) fill a.identifier
unfolding prefix is_valid
prefix-masked a bits fill p h = go (bits % 8) refl
  where
    go :
        (r : ℕ)
        → bits % 8 ≡ r
        → (prefix a bits fill).identifier ≡ masked (bits / 8) (bits % 8) fill a.identifier
    go zero e = ground (
      arith,
      masked-whole (bits / 8) fill (id_length - bits / 8) a.identifier (omega (arith, p.sized)),
      p.sized,
    )
    go (suc r) e =
        let left : ℕ = id_length - bits / 8 - 1 in
        let whole : id_length - bits / 8 ≡ suc left = omega arith in
        let merged = masked-merge (bits / 8) r fill left a.identifier (omega (arith, p.sized)) in
        rw (whole, e) (ground (arith, merged, p.sized))

leading_zeros-le : (i z : ℕ) → leading_zeros i z ≤ i
unfolding leading_zeros
leading_zeros-le zero z = omega arith
leading_zeros-le (suc i) z = ground (arith, leading_zeros-le i z)

-- Two strings of bytes of one length, long enough for `q` bytes and `r` digits.
pub record IsComparable (q r : ℕ) (xs ys : List ℕ) : Type 0 where
  pub partial : r < 8
  pub lengths : length xs ≡ length ys
  pub enough : q * 8 + r ≤ length xs * 8
  pub left : AreBytes xs
  pub right : AreBytes ys

pub IsComparable-tail :
    {q r x y : ℕ} {xs ys : List ℕ}
    → IsComparable (suc q) r (x ∷ xs) (y ∷ ys)
    → IsComparable q r xs ys
IsComparable-tail c = record {
  partial = c.partial;
  lengths = omega (arith, c.lengths);
  enough = omega (arith, c.enough);
  left = c.left.1;
  right = c.right.1;
}

-- Past the last compared byte nothing is asked of the tails.
pub IsComparable-rest :
    {r x y : ℕ} {xs ys : List ℕ} → IsComparable 0 r (x ∷ xs) (y ∷ ys) → IsComparable 0 0 xs ys
IsComparable-rest c = record {
  partial = omega arith;
  lengths = omega (arith, c.lengths);
  enough = omega arith;
  left = c.left.1;
  right = c.right.1;
}

-- The loops of `longestCommonPrefix` count `q` bytes and `r` digits exactly where these agree.
pub common_bits-Agree :
    (q r : ℕ) (xs ys : List ℕ)
    → IsComparable q r xs ys
    → (q * 8 + r ≤ common_bits xs ys) ↔ Agree q r xs ys
unfolding common_bits Agree
common_bits-Agree zero zero xs ys c = (λ h. tt, λ h. omega arith)
common_bits-Agree zero (suc r) [] ys c = absurd (omega (arith, c.enough))
common_bits-Agree zero (suc r) (x ∷ xs) [] c = absurd (omega (arith, c.lengths))
common_bits-Agree zero (suc r) (x ∷ xs) (y ∷ ys) c =
    let zeros = leading_zeros-xor (suc r) x y (omega (arith, c.partial)) c.left.0 c.right.0 in
    (
      λ h. zeros.0 (ground (arith, c.partial, leading_zeros-le 8 (bit_xor x y))),
      λ h. ground (arith, zeros.1 h, c.partial),
    )
common_bits-Agree (suc q) r [] ys c = absurd (omega (arith, c.enough))
common_bits-Agree (suc q) r (x ∷ xs) [] c = absurd (omega (arith, c.lengths))
common_bits-Agree (suc q) r (x ∷ xs) (y ∷ ys) c =
    let zeros = leading_zeros-xor 8 x y (omega arith) c.left.0 c.right.0 in
    let ih = common_bits-Agree q r xs ys (IsComparable-tail c) in
    (
      λ h.
          let all : 8 ≤ leading_zeros 8 (bit_xor x y) =
            ground (arith, leading_zeros-le 8 (bit_xor x y)) in
          (zeros.0 all, ih.0 (ground (arith, all, leading_zeros-le 8 (bit_xor x y)))),
      λ h. ground (arith, zeros.1 h.0, ih.1 h.1, leading_zeros-le 8 (bit_xor x y)),
    )

-- At one byte: what a merge with zeros or with ones says about the leading digits.
module _ (r x y : ℕ) (hr : r < 8) (hx : x < 256) (hy : y < 256) where
  pub merge-eq : (merge_byte r 0 x ≡ merge_byte r 0 y) ↔ (shift (8 - r) x ≡ shift (8 - r) y)
  merge-eq = (
    λ h. sym (
        shift_unique (8 - r) y (shift (8 - r) x)
          (omega (arith, lower x hx, lower y hy, shift_bounds (8 - r) y))
          (omega (arith, lower x hx, lower y hy, shift_bounds (8 - r) y))),
    λ h. lower x hx ∙ ap (λ (t : ℕ). t * 2 ^ (8 - r)) h ∙ sym (lower y hy),
  )
    where
      lower : (b : ℕ) → b < 256 → merge_byte r 0 b ≡ shift (8 - r) b * 2 ^ (8 - r)
      lower b hb = (merge_byte_lem r b hr hb).0

  pub merge-range :
      ((merge_byte r 0 x ≤ y) × (y ≤ merge_byte r 255 x)) ↔ (shift (8 - r) x ≡ shift (8 - r) y)
  merge-range = (
    λ h. sym (
        shift_unique (8 - r) y (shift (8 - r) x) (omega (arith, merge_byte_lem r x hr hx, h))
          (omega (arith, merge_byte_lem r x hr hx, h, one-le-pow (8 - r) 2))),
    λ h.
        rw (merge_byte_lem r x hr hx).0
          (rw (merge_byte_lem r x hr hx).1 (rw h (omega (arith, shift_bounds (8 - r) y)))),
  )
