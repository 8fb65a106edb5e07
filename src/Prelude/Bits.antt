-- ===== src/Prelude/Bits.antt =====
-- Bit operations at variables: exclusive or by its digits, and tables over a small range.
use Prim.Native.Nat.{
  ℕ, zero, suc, ◌+◌, ◌*◌, ◌/◌, ◌%◌, ◌^◌, ◌≤◌, ◌<◌, bit_xor, digits, differ, bit_xor-bitwise,
}
use mathlib.Core.Path.{◌≡◌, refl, ap, ◌∙◌}
use mathlib.Core.Bool.{Bool, true, ◌&&◌}
use mathlib.Core.Logic.{◌↔◌}
use native.Mathlib.Omega.{arith}
use native.Mathlib.Nat.{pow-suc}

-- A test on every number under a bound, which evaluation decides.
unfoldable pub holds_under : (ℕ → Bool) → ℕ → Bool
holds_under test zero = true
holds_under test (suc bound) = holds_under test bound && test bound

pub holds_at :
    (test : ℕ → Bool) (bound v : ℕ) → v < bound → holds_under test bound ≡ true → test v ≡ true
unfolding holds_under
holds_at test zero v below every = absurd (omega arith)
holds_at test (suc bound) v below every = ground (arith, holds_at test bound v)

abbrev xor_digits : ℕ → ℕ → ℕ → ℕ
xor_digits n a b = digits (λ b. b) differ n a b

-- Spare steps find no further digits.
enough_steps : (b a k l : ℕ) → a ≤ l → a ≤ k → xor_digits k a b ≡ xor_digits l a b
enough_steps b zero zero zero few many = refl
enough_steps b zero zero (suc l) few many = refl
enough_steps b zero (suc k) zero few many = refl
enough_steps b zero (suc k) (suc l) few many = refl
enough_steps b (suc a) zero l few many = absurd (omega arith)
enough_steps b (suc a) (suc k) zero few many = absurd (omega arith)
enough_steps b (suc a) (suc k) (suc l) few many =
    omega (arith, enough_steps (b / 2) (suc a / 2) k l (omega arith) (omega arith))

zero-bit_xor : (b : ℕ) → bit_xor 0 b ≡ b
zero-bit_xor b = bit_xor-bitwise 0 b

mod-lt_two : (a : ℕ) → a % 2 < 2
mod-lt_two a = omega arith

differ-zero : (b : ℕ) → differ 0 b ≡ b
differ-zero b = refl

bit_xor-digit : (a b : ℕ) → bit_xor a b ≡ bit_xor (a / 2) (b / 2) * 2 + differ (a % 2) (b % 2)
bit_xor-digit zero b = omega (arith, zero-bit_xor b, zero-bit_xor (b / 2), differ-zero (b % 2))
bit_xor-digit (suc a) b = omega (
  arith,
  bit_xor-bitwise (suc a) b,
  bit_xor-bitwise (suc a / 2) (b / 2),
  enough_steps (b / 2) (suc a / 2) a (suc a / 2) (omega arith) (omega arith),
)

-- `a >> k`, one digit at a time: at a numeral `k` the tactics see the divisions by two.
abbrev pub shift : ℕ → ℕ → ℕ
shift zero a = a
shift (suc k) a = shift k (a / 2)

-- Of two binary digits.
differ_digits :
    (x y : ℕ)
    → x < 2
    → y < 2
    → (differ x y < 2) × (differ x y ≡ 0 → x ≡ y) × (x ≡ y → differ x y ≡ 0)
differ_digits zero y p q = (q, λ e. omega arith, λ e. omega arith)
differ_digits (suc zero) zero p q = (p, λ e. omega arith, λ e. omega arith)
differ_digits (suc zero) (suc zero) p q = (omega arith, λ e. refl, λ e. refl)
differ_digits (suc zero) (suc (suc y)) p q = absurd (omega arith)
differ_digits (suc (suc x)) y p q = absurd (omega arith)

abbrev low_digits :
    (a b : ℕ)
    → (differ (a % 2) (b % 2) < 2)
      × (differ (a % 2) (b % 2) ≡ 0 → a % 2 ≡ b % 2)
      × (a % 2 ≡ b % 2 → differ (a % 2) (b % 2) ≡ 0)
low_digits a b = differ_digits (a % 2) (b % 2) (mod-lt_two a) (mod-lt_two b)

bit_xor-half : (a b : ℕ) → bit_xor a b / 2 ≡ bit_xor (a / 2) (b / 2)
bit_xor-half a b = omega (arith, bit_xor-digit a b, (low_digits a b).0)

bit_xor_self_fuel : (n a : ℕ) → a ≤ n → bit_xor a a ≡ 0
bit_xor_self_fuel n zero h = zero-bit_xor 0
bit_xor_self_fuel zero (suc a) h = absurd (omega arith)
bit_xor_self_fuel (suc n) (suc a) h = omega (
  arith,
  bit_xor-digit (suc a) (suc a),
  (low_digits (suc a) (suc a)).2 refl,
  bit_xor_self_fuel n (suc a / 2) (omega arith),
)

bit_xor_eq_fuel : (n a b : ℕ) → a ≤ n → bit_xor a b ≡ 0 → a ≡ b
bit_xor_eq_fuel n zero b h e = omega (arith, zero-bit_xor b)
bit_xor_eq_fuel zero (suc a) b h e = absurd (omega arith)
bit_xor_eq_fuel (suc n) (suc a) b h e =
    let low = (low_digits (suc a) b).1 (omega (arith, bit_xor-digit (suc a) b)) in
    let high =
      bit_xor_eq_fuel n (suc a / 2) (b / 2) (omega arith)
        (omega (arith, bit_xor-digit (suc a) b)) in
    omega (arith, low, high)

-- An exclusive or is zero exactly for equal numbers.
pub bit_xor-eq-zero : (a b : ℕ) → (bit_xor a b ≡ 0) ↔ (a ≡ b)
bit_xor-eq-zero a b =
    (bit_xor_eq_fuel a a b (omega arith), λ e. rw e (bit_xor_self_fuel b b (omega arith)))

-- Above digit `k` an exclusive or vanishes exactly where the numbers agree above `k`.
pub shift-bit_xor : (k a b : ℕ) → (shift k (bit_xor a b) ≡ 0) ↔ (shift k a ≡ shift k b)
shift-bit_xor zero a b = bit_xor-eq-zero a b
shift-bit_xor (suc k) a b = rw (bit_xor-half a b) (shift-bit_xor k (a / 2) (b / 2))

bit_xor-parity : (a b : ℕ) → bit_xor a b % 2 ≡ differ (a % 2) (b % 2)
bit_xor-parity a b = omega (arith, bit_xor-digit a b, (low_digits a b).0)

differ_twice : (x y : ℕ) → x < 2 → y < 2 → differ x (differ x y) ≡ y
differ_twice zero y p q = refl
differ_twice (suc zero) zero p q = refl
differ_twice (suc zero) (suc zero) p q = refl
differ_twice (suc zero) (suc (suc y)) p q = absurd (omega arith)
differ_twice (suc (suc x)) y p q = absurd (omega arith)

-- The digits of one side come back after a second exclusive or.
bit_xor_twice_fuel : (n a b : ℕ) → a ≤ n → bit_xor a (bit_xor a b) ≡ b
bit_xor_twice_fuel n zero b h = rw (zero-bit_xor b) (zero-bit_xor b)
bit_xor_twice_fuel zero (suc a) b h = absurd (omega arith)
bit_xor_twice_fuel (suc n) (suc a) b h =
    let mixed = bit_xor (suc a) b in
    let ih = bit_xor_twice_fuel n (suc a / 2) (b / 2) (omega arith) in
    let high = ap (bit_xor (suc a / 2)) (bit_xor-half (suc a) b) ∙ ih in
    let parity = bit_xor-parity (suc a) b in
    omega (
      arith,
      bit_xor-digit (suc a) mixed,
      high,
      ap (differ (suc a % 2)) parity,
      differ_twice (suc a % 2) (b % 2) (mod-lt_two (suc a)) (mod-lt_two b),
    )

pub bit_xor_twice : (a b : ℕ) → bit_xor a (bit_xor a b) ≡ b
bit_xor_twice a b = bit_xor_twice_fuel a a b (omega arith)

-- `shift k a` is the number of whole blocks of `2 ^ k` below `a`.
pub shift_bounds : (k a : ℕ) → (shift k a * 2 ^ k ≤ a) × (a < shift k a * 2 ^ k + 2 ^ k)
shift_bounds zero a = (omega arith, omega arith)
shift_bounds (suc k) a =
    let s = shift k (a / 2) in
    let (low, high) = shift_bounds k (a / 2) in
    let e : s * 2 ^ suc k ≡ 2 * (s * 2 ^ k) = omega (arith, ap (λ (t : ℕ). s * t) (pow-suc 2 k)) in
    (omega arith, omega (arith, pow-suc 2 k))

pub shift_unique : (k a s : ℕ) → s * 2 ^ k ≤ a → a < s * 2 ^ k + 2 ^ k → shift k a ≡ s
shift_unique zero a s p q = omega arith
shift_unique (suc k) a s p q =
    let e : s * 2 ^ suc k ≡ 2 * (s * 2 ^ k) = omega (arith, ap (λ (t : ℕ). s * t) (pow-suc 2 k)) in
    shift_unique k (a / 2) s (omega arith) (omega (arith, pow-suc 2 k))
