-- ===== src/Identity/NodeIdentifier/Prefix.antt =====
-- What prefixes and common prefixes say about identifiers, and why a sloppy group is an interval of
-- the routing table's order.
use unisphere.Prelude.{
  ℕ, zero, suc, ◌/◌, ◌%◌, ◌≤◌, ◌≡◌, refl, sym, ap, ◌∙◌, ◌↔◌, Bool, true, not, ◌&&◌, List, [], ◌∷◌,
  arith,
}
use unisphere.Identity.NodeIdentifier.{
  NodeIdentifier, bit_length, is_valid, bytes_lt, id_lt, longest_common_prefix, prefix,
}
use unisphere.Identity.NodeIdentifier.Masked.{
  IsProper, masked, Agree, prefix-masked, IsComparable, IsComparable-tail, IsComparable-rest,
  common_bits-Agree, merge-eq, merge-range,
}

masked-eq :
    (q r : ℕ) (xs ys : List ℕ)
    → IsComparable q r xs ys
    → (masked q r 0 xs ≡ masked q r 0 ys) ↔ Agree q r xs ys
unfolding masked Agree
masked-eq zero zero [] [] c = (λ h. tt, λ h. refl)
masked-eq zero zero [] (y ∷ ys) c = absurd (omega (arith, c.lengths))
masked-eq zero zero (x ∷ xs) [] c = absurd (omega (arith, c.lengths))
masked-eq zero zero (x ∷ xs) (y ∷ ys) c =
    (λ h. tt, λ h. ap (◌∷◌ 0) ((masked-eq zero zero xs ys (IsComparable-rest c)).1 tt))
masked-eq zero (suc r) [] ys c = absurd (omega (arith, c.enough))
masked-eq zero (suc r) (x ∷ xs) [] c = absurd (omega (arith, c.lengths))
masked-eq zero (suc r) (x ∷ xs) (y ∷ ys) c =
    let at = merge-eq (suc r) x y c.partial c.left.0 c.right.0 in
    let rest = (masked-eq zero zero xs ys (IsComparable-rest c)).1 tt in
    (λ h. at.0 (cc), λ h. ground (arith, at.1 h, rest))
masked-eq (suc q) r [] ys c = absurd (omega (arith, c.enough))
masked-eq (suc q) r (x ∷ xs) [] c = absurd (omega (arith, c.lengths))
masked-eq (suc q) r (x ∷ xs) (y ∷ ys) c =
    let ih = masked-eq q r xs ys (IsComparable-tail c) in
    (λ h. (cc, ih.0 (cc)), λ h. ground (arith, h.0, ih.1 h.1))

-- Not below the prefix filled with zeros, and not above the one filled with ones.
between : ℕ → ℕ → List ℕ → List ℕ → Bool
between q r xs ys = not (bytes_lt ys (masked q r 0 xs)) && not (bytes_lt (masked q r 255 xs) ys)

between-Agree :
    (q r : ℕ) (xs ys : List ℕ)
    → IsComparable q r xs ys
    → (between q r xs ys ≡ true) ↔ Agree q r xs ys
unfolding between masked Agree bytes_lt
between-Agree zero zero [] [] c = (λ h. tt, λ h. refl)
between-Agree zero zero [] (y ∷ ys) c = absurd (omega (arith, c.lengths))
between-Agree zero zero (x ∷ xs) [] c = absurd (omega (arith, c.lengths))
between-Agree zero zero (x ∷ xs) (y ∷ ys) c = (
  λ h. tt,
  λ h. ground (arith, (between-Agree zero zero xs ys (IsComparable-rest c)).1 tt, c.right.0),
)
between-Agree zero (suc r) [] ys c = absurd (omega (arith, c.enough))
between-Agree zero (suc r) (x ∷ xs) [] c = absurd (omega (arith, c.lengths))
between-Agree zero (suc r) (x ∷ xs) (y ∷ ys) c =
    let at = merge-range (suc r) x y c.partial c.left.0 c.right.0 in
    let rest = (between-Agree zero zero xs ys (IsComparable-rest c)).1 tt in
    (λ h. at.0 (ground arith), λ h. ground (arith, at.1 h, rest))
between-Agree (suc q) r [] ys c = absurd (omega (arith, c.enough))
between-Agree (suc q) r (x ∷ xs) [] c = absurd (omega (arith, c.lengths))
between-Agree (suc q) r (x ∷ xs) (y ∷ ys) c =
    let ih = between-Agree q r xs ys (IsComparable-tail c) in
    (λ h. (ground arith, ih.0 (ground arith)), λ h. ground (arith, h.0, ih.1 h.1))

module _ (a b : NodeIdentifier) (bits : ℕ) (pa : IsProper a) (pb : IsProper b)
    (h : bits ≤ bit_length) where
  comparable : IsComparable (bits / 8) (bits % 8) a.identifier b.identifier
  comparable = record {
    partial = omega arith;
    lengths = pa.sized ∙ sym pb.sized;
    enough = omega (arith, pa.sized);
    left = pa.bytes;
    right = pb.bytes;
  }

  common :
      (bits ≤ longest_common_prefix a b) ↔ Agree (bits / 8) (bits % 8) a.identifier b.identifier
  unfolding longest_common_prefix is_valid
  common =
      let loops = common_bits-Agree (bits / 8) (bits % 8) a.identifier b.identifier comparable in
      (
        λ n. loops.0 (ground (arith, pa.sized, pb.sized)),
        λ n. ground (arith, loops.1 n, pa.sized, pb.sized),
      )

  -- Two proper identifiers have the same prefix of `bits` bits, for at most 160 bits, exactly when
  -- their longest common prefix has at least `bits` bits.
  pub prefix-eq_iff : (prefix a bits 0 ≡ prefix b bits 0) ↔ (bits ≤ longest_common_prefix a b)
  prefix-eq_iff =
      let bytes = masked-eq (bits / 8) (bits % 8) a.identifier b.identifier comparable in
      let left = prefix-masked a bits 0 pa h in
      let right = prefix-masked b bits 0 pb h in
      (
        λ e. common.1 (bytes.0 (sym left ∙ ap (λ (i : NodeIdentifier). i.identifier) e ∙ right)),
        λ n.
            ap (λ (bs : List ℕ). record { identifier = bs })
              (left ∙ bytes.1 (common.0 n) ∙ sym right),
      )

  -- The routing table takes the members of a sloppy group from the interval between the prefix filled
  -- with zero bits and the prefix filled with one bits. For proper identifiers and at most 160 bits
  -- that interval holds exactly the identifiers with the same prefix.
  pub group_interval_iff :
      (not (id_lt b (prefix a bits 0)) && not (id_lt (prefix a bits 255) b) ≡ true)
      ↔ (prefix b bits 0 ≡ prefix a bits 0)
  unfolding id_lt between prefix
  group_interval_iff =
      let inside = between-Agree (bits / 8) (bits % 8) a.identifier b.identifier comparable in
      let same = prefix-eq_iff in
      rw (prefix-masked a bits 0 pa h, prefix-masked a bits 255 pa h)
        (λ t. sym (same.1 (common.1 (inside.0 t))), λ e. inside.1 (common.0 (same.0 (sym e))))
