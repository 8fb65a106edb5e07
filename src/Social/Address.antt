-- ===== src/Social/Address.antt =====
-- src/social/address.h and address.cpp: landmark-relative addresses.
use unisphere.Prelude.{ℕ, ◌≡◌, ◌↔◌, Bool, true, ◌&&◌, List, [], ◌∷◌, length, arith}
use unisphere.Identity.NodeIdentifier.{NodeIdentifier, invalid, is_null, bytes_eq, id_eq}
use unisphere.Identity.NodeIdentifier.Order.{bytes_eq_iff, id_eq_iff}

-- `Vport` is a 32-bit number, and `RoutingPath` a list of them.
abbrev pub RoutingPath : Type 0
RoutingPath = List ℕ

-- `std::list::operator==`, element by element
unfoldable pub path_eq : RoutingPath → RoutingPath → Bool
unfolding bytes_eq
path_eq p q = bytes_eq p q

pub path_eq_iff : (p q : RoutingPath) → (path_eq p q ≡ true) ↔ (p ≡ q)
unfolding path_eq
path_eq_iff p q = bytes_eq_iff p q

pub record LandmarkAddress : Type 0 where
  pub landmark_id : NodeIdentifier
  pub path : RoutingPath

-- the default constructor, and the address of a landmark itself
abbrev pub null_address : LandmarkAddress
null_address = record { landmark_id = invalid; path = [] }

abbrev pub landmark_itself : NodeIdentifier → LandmarkAddress
landmark_itself id = record { landmark_id = id; path = [] }

unfoldable pub address_null : LandmarkAddress → Bool
unfolding is_null
address_null a = is_null a.landmark_id

unfoldable pub size : LandmarkAddress → ℕ
size a = length a.path

unfoldable pub pop_front : RoutingPath → RoutingPath
pop_front [] = []
pop_front (v ∷ vs) = vs

-- One hop forward; an empty path stays.
unfoldable pub shift : LandmarkAddress → LandmarkAddress
unfolding pop_front
shift a = record a { path = pop_front a.path }

unfoldable pub address_eq : LandmarkAddress → LandmarkAddress → Bool
address_eq a b = id_eq a.landmark_id b.landmark_id && path_eq a.path b.path

-- Two addresses compare equal exactly when landmark and path are the same.
pub address_eq_iff : (a b : LandmarkAddress) → (address_eq a b ≡ true) ↔ (a ≡ b)
unfolding address_eq
address_eq_iff a b =
    let ids = id_eq_iff a.landmark_id b.landmark_id in
    let paths = path_eq_iff a.path b.path in
    (λ h. ground (arith, ids, paths), λ e. ground (arith, ids, paths, e))
