-- ===== src/Identity/NodeIdentifier.antt =====
-- src/identity/node_identifier.h and node_identifier.cpp: 160-bit identifiers as strings of bytes,
-- their comparison, exclusive or, common prefixes and masked prefixes. The conversions to and from
-- hexadecimal and binary text go through Botan and GMP and are not modelled.
pub mod Bytes
pub mod Order
pub mod Masked
pub mod Prefix
pub mod Examples
use unisphere.Prelude.{
  ℕ, zero, suc, ◌+◌, ◌-◌, ◌*◌, ◌/◌, ◌%◌, ◌^◌, ◌≡◌, Bool, true, false, not, ◌&&◌, ◌||◌, List, [],
  ◌∷◌, ◌++◌, bit_and, bit_or, bit_xor, ltb, ◌==◌, if◌then◌else◌, length, take, drop, replicate,
}

-- `m_identifier`, a `std::string`, as the list of its bytes.
pub record NodeIdentifier : Type 0 where
  pub identifier : List ℕ

-- `NodeIdentifier::length` and `bit_length`
abbrev pub id_length : ℕ
id_length = 20

abbrev pub bit_length : ℕ
bit_length = id_length * 8

-- `INVALID`, and the default constructor
abbrev pub invalid : NodeIdentifier
invalid = record { identifier = [] }

unfoldable pub bytes_empty : List ℕ → Bool
bytes_empty [] = true
bytes_empty (b ∷ bs) = false

unfoldable pub is_null : NodeIdentifier → Bool
unfolding bytes_empty
is_null a = bytes_empty a.identifier

unfoldable pub is_valid : NodeIdentifier → Bool
is_valid a = length a.identifier == id_length

-- `raw()`, which is `as(Format::Raw)`: an invalid identifier is the empty string.
unfoldable pub raw : NodeIdentifier → List ℕ
unfolding is_valid
raw a = if is_valid a then a.identifier else []

-- `std::string::operator==` and `operator<`, by unsigned bytes
unfoldable pub bytes_eq : List ℕ → List ℕ → Bool
bytes_eq [] [] = true
bytes_eq [] (y ∷ ys) = false
bytes_eq (x ∷ xs) [] = false
bytes_eq (x ∷ xs) (y ∷ ys) = x == y && bytes_eq xs ys

unfoldable pub bytes_lt : List ℕ → List ℕ → Bool
bytes_lt [] [] = false
bytes_lt [] (y ∷ ys) = true
bytes_lt (x ∷ xs) [] = false
bytes_lt (x ∷ xs) (y ∷ ys) = ltb x y || (x == y && bytes_lt xs ys)

unfoldable pub id_eq : NodeIdentifier → NodeIdentifier → Bool
unfolding bytes_eq
id_eq a b = bytes_eq a.identifier b.identifier

unfoldable pub id_lt : NodeIdentifier → NodeIdentifier → Bool
unfolding bytes_lt
id_lt a b = bytes_lt a.identifier b.identifier

-- the loop of `operator^`
unfoldable pub xor_bytes : List ℕ → List ℕ → List ℕ
xor_bytes [] ys = []
xor_bytes (x ∷ xs) [] = []
xor_bytes (x ∷ xs) (y ∷ ys) = bit_xor x y ∷ xor_bytes xs ys

unfoldable pub xor : NodeIdentifier → NodeIdentifier → NodeIdentifier
unfolding xor_bytes is_valid
xor a b =
    if not (is_valid a) || not (is_valid b)
    then invalid
    else record { identifier = xor_bytes a.identifier b.identifier }

-- the inner loop of `longestCommonPrefix`: digits `i - 1` down to 0 of `xored`, up to the first one
unfoldable pub leading_zeros : ℕ → ℕ → ℕ
leading_zeros zero xored = 0
leading_zeros (suc i) xored =
    let rest = leading_zeros i xored in if xored / 2 ^ i % 2 == 1 then 0 else suc rest

-- the outer loop: it goes on after a byte in which no difference was found
unfoldable pub common_bits : List ℕ → List ℕ → ℕ
common_bits [] ys = 0
common_bits (x ∷ xs) [] = 0
common_bits (x ∷ xs) (y ∷ ys) =
    let lcp = leading_zeros 8 (bit_xor x y) in
    let rest = common_bits xs ys in if lcp == 8 then lcp + rest else lcp

unfoldable pub longest_common_prefix : NodeIdentifier → NodeIdentifier → ℕ
unfolding common_bits leading_zeros is_valid
longest_common_prefix a b =
    if not (is_valid a) || not (is_valid b) then 0 else common_bits a.identifier b.identifier

-- `mask |= (1 << (7 - i))` for `i` below `bits % 8`
unfoldable pub prefix_mask : ℕ → ℕ
prefix_mask zero = 0
prefix_mask (suc i) = bit_or (prefix_mask i) (2 ^ (7 - i))

-- `prefix[bits / 8]` after `&= ~mask` and `|= m_identifier[bits / 8] & mask`
unfoldable pub merge_byte : ℕ → ℕ → ℕ → ℕ
unfolding prefix_mask
merge_byte bits dest source =
    let mask = prefix_mask bits in bit_or (bit_and dest (255 - mask)) (bit_and source mask)

-- the same on the byte at a position
unfoldable pub merge_at : ℕ → ℕ → List ℕ → List ℕ → List ℕ
merge_at i bits [] source = []
merge_at i bits (d ∷ dest) [] = d ∷ dest
merge_at zero bits (d ∷ dest) (s ∷ source) = merge_byte bits d s ∷ dest
merge_at (suc i) bits (d ∷ dest) (s ∷ source) = d ∷ merge_at i bits dest source

-- For more than `bit_length` bits the source copies past the end of both strings.
unfoldable pub prefix : NodeIdentifier → ℕ → ℕ → NodeIdentifier
unfolding merge_at merge_byte is_valid
prefix a bits fill =
    let whole = take (bits / 8) a.identifier ++ replicate (id_length - bits / 8) fill in
    if not (is_valid a)
    then invalid
    else if bits % 8 == 0
    then record { identifier = whole }
    else record { identifier = merge_at (bits / 8) (bits % 8) whole a.identifier }
