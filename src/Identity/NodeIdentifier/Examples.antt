-- ===== src/Identity/NodeIdentifier/Examples.antt =====
-- Runs of the identifier operations, and the theorems at concrete identifiers.
use unisphere.Prelude.{◌≤◌, ◌≡◌, refl, ◌↔◌, true, not, ◌&&◌, ◌∷◌, replicate, arith}
use unisphere.Identity.NodeIdentifier.{NodeIdentifier, id_lt, longest_common_prefix, prefix}
use unisphere.Identity.NodeIdentifier.Masked.{IsProper}
use unisphere.Identity.NodeIdentifier.Prefix.{prefix-eq_iff, group_interval_iff}

abbrev low : NodeIdentifier
low = record { identifier = 0x83 ∷ 0x90 ∷ replicate 18 7 }

abbrev high : NodeIdentifier
high = record { identifier = 0x83 ∷ 0x9f ∷ replicate 18 200 }

low-IsProper : IsProper low
low-IsProper = record { sized = refl; bytes = omega arith }

high-IsProper : IsProper high
high-IsProper = record { sized = refl; bytes = omega arith }

common_prefix : longest_common_prefix low high ≡ 12
unfolding longest_common_prefix
common_prefix = refl

prefix_fill : prefix high 12 0xff ≡ record { identifier = 0x83 ∷ 0x9f ∷ replicate 18 255 }
unfolding prefix
prefix_fill = refl

prefix_zero : prefix high 10 0 ≡ record { identifier = 0x83 ∷ 0x80 ∷ replicate 18 0 }
unfolding prefix
prefix_zero = refl

prefix-eq_iff_example : (prefix low 12 0 ≡ prefix high 12 0) ↔ (12 ≤ longest_common_prefix low high)
prefix-eq_iff_example = prefix-eq_iff low high 12 low-IsProper high-IsProper (omega arith)

group_interval_iff_example :
    (not (id_lt high (prefix low 12 0)) && not (id_lt (prefix low 12 255) high) ≡ true)
    ↔ (prefix high 12 0 ≡ prefix low 12 0)
group_interval_iff_example = group_interval_iff low high 12 low-IsProper high-IsProper (omega arith)
