-- ===== src/Identity/NodeIdentifier/Bytes.antt =====
-- One byte at a time: how the inner loops of `longestCommonPrefix` and `prefix` act on a byte.
use unisphere.Prelude.{
  ℕ, ◌+◌, ◌-◌, ◌*◌, ◌^◌, ◌≤◌, ◌<◌, ◌≡◌, refl, ◌↔◌, Bool, true, false, not, ◌&&◌, bit_xor, leb, ◌==◌,
  arith,
}
use unisphere.Prelude.Bits.{holds_at, holds_under, shift, shift-bit_xor}
use unisphere.Identity.NodeIdentifier.{leading_zeros, merge_byte}

abbrev same : Bool → Bool → Bool
same true b = b
same false b = not b

-- Every byte at every digit: the loop counts at least `k` zeros where the byte is below 2^(8 - k).
abbrev zeros_agree : ℕ → Bool
zeros_agree z = holds_under (λ k. same (leb k (leading_zeros 8 z)) (shift (8 - k) z == 0)) 9

zeros_table : holds_under zeros_agree 256 ≡ true
unfolding holds_under leading_zeros
zeros_table = refl

leading_zeros_iff : (k z : ℕ) → k ≤ 8 → z < 256 → (k ≤ leading_zeros 8 z) ↔ (shift (8 - k) z ≡ 0)
leading_zeros_iff k z hk hz =
    same_iff k z (holds_at _ 9 k (omega arith) (holds_at zeros_agree 256 z hz zeros_table))
  where
    same_iff :
        (k z : ℕ)
        → same (leb k (leading_zeros 8 z)) (shift (8 - k) z == 0) ≡ true
        → (k ≤ leading_zeros 8 z) ↔ (shift (8 - k) z ≡ 0)
    same_iff k z h = (λ p. ground arith, λ p. ground arith)

-- A byte of an exclusive or is a byte.
xor-lt : (x y : ℕ) → x < 256 → y < 256 → bit_xor x y < 256
xor-lt x y p q = ground (arith, (shift-bit_xor 8 x y).1 (omega arith))

-- Two bytes share `k` leading digits exactly where the loop counts at least `k`.
pub leading_zeros-xor :
    (k x y : ℕ)
    → k ≤ 8
    → x < 256
    → y < 256
    → (k ≤ leading_zeros 8 (bit_xor x y)) ↔ (shift (8 - k) x ≡ shift (8 - k) y)
leading_zeros-xor k x y hk p q = (
  λ h. (shift-bit_xor (8 - k) x y).0 ((leading_zeros_iff k _ hk (xor-lt x y p q)).0 h),
  λ h. (leading_zeros_iff k _ hk (xor-lt x y p q)).1 ((shift-bit_xor (8 - k) x y).1 h),
)

-- Every byte under every mask.
abbrev merge_agree : ℕ → Bool
merge_agree x =
    holds_under
      (λ r.
        (merge_byte r 0 x == shift (8 - r) x * 2 ^ (8 - r))
        && (merge_byte r 255 x == shift (8 - r) x * 2 ^ (8 - r) + (2 ^ (8 - r) - 1)))
      8

merge_table : holds_under merge_agree 256 ≡ true
unfolding holds_under merge_byte
merge_table = refl

pub merge_byte_lem :
    (r x : ℕ)
    → r < 8
    → x < 256
    → (merge_byte r 0 x ≡ shift (8 - r) x * 2 ^ (8 - r))
      × (merge_byte r 255 x ≡ shift (8 - r) x * 2 ^ (8 - r) + (2 ^ (8 - r) - 1))
merge_byte_lem r x hr hx =
    let h = holds_at _ 8 r hr (holds_at merge_agree 256 x hx merge_table) in ground (arith, h)
