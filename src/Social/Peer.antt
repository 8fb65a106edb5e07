-- ===== src/Social/Peer.antt =====
-- src/social/peer.h and peer.cpp: the security associations of a peer. The two containers, a sequence
-- with a unique index on the public key, are lists of keys in the order of the sequence; key generation
-- is a parameter.
pub mod Limits
pub mod Examples
use unisphere.Prelude.{
  ℕ, zero, suc, ◌≡◌, refl, ◌≤◌, ◌+◌, ◌-◌, ◌||◌, Bool, true, false, not, ◌&&◌, Option, some, none,
  List, [], ◌∷◌, ltb, if◌then◌else◌, length, keep, find, drop_last, length-drop_last,
  length-keep-le, Bool-cases, inl, inr, arith,
}
use unisphere.Identity.NodeIdentifier.{NodeIdentifier, bytes_eq}
use unisphere.Interplex.Contact.{Contact, contact_null, contact_id}

abbrev pub max_peer_security_associations : ℕ
max_peer_security_associations = 10

abbrev pub max_private_security_associations : ℕ
max_private_security_associations = 13

pub record Peer : Type 0 where
  pub contact : Contact
  pub peer_sa : List (List ℕ)
  pub private_sa : List (List ℕ)

-- `Peer(contact)`
abbrev pub new_peer : Contact → Peer
new_peer c = record { contact = c; peer_sa = []; private_sa = [] }

unfoldable pub peer_null : Peer → Bool
peer_null p = contact_null p.contact

unfoldable pub peer_id : Peer → NodeIdentifier
peer_id p = contact_id p.contact

-- `setContact`, for a contact of the same node, as the source asserts
unfoldable pub set_contact : Contact → Peer → Peer
set_contact c p = record p { contact = c }

unfoldable pub has_private_security_associations : Peer → Bool
has_private_security_associations p = elim p.private_sa [ [] ↦ false | k ∷ ks ↦ true ]

unfoldable pub has_public_security_associations : Peer → Bool
has_public_security_associations p = elim p.peer_sa [ [] ↦ false | k ∷ ks ↦ true ]

abbrev pub has_public_key : List ℕ → List (List ℕ) → Bool
has_public_key key [] = false
has_public_key key (k ∷ ks) = bytes_eq key k || has_public_key key ks

-- `push_front`, which does nothing where the key is in the container already
unfoldable pub push_front : List ℕ → List (List ℕ) → List (List ℕ)
push_front key keys = if has_public_key key keys then keys else key ∷ keys

-- `pop_back` above the limit
unfoldable pub limit_to : ℕ → List (List ℕ) → List (List ℕ)
limit_to limit keys = if ltb limit (length keys) then drop_last keys else keys

unfoldable pub add_peer_security_association : List ℕ → Peer → Peer
unfolding push_front limit_to
add_peer_security_association key p = record p {
  peer_sa = limit_to max_peer_security_associations (push_front key p.peer_sa);
}

-- `none` where the method throws `InvalidSecurityAssociation`
unfoldable pub remove_peer_security_association : List ℕ → Peer → Option Peer
remove_peer_security_association key p =
    if has_public_key key p.peer_sa
    then some (record p { peer_sa = keep (λ k. not (bytes_eq key k)) p.peer_sa })
    else none

unfoldable pub has_peer_security_association : List ℕ → Peer → Bool
has_peer_security_association key p = has_public_key key p.peer_sa

-- the loop that counts a random index down; the source leaves the result past the end undefined
unfoldable pub nth_association : ℕ → List (List ℕ) → Option (List ℕ)
nth_association index [] = none
nth_association zero (k ∷ ks) = some k
nth_association (suc index) (k ∷ ks) = nth_association index ks

-- `random` draws an index that is at most the one given
unfoldable pub select_peer_security_association : (ℕ → ℕ) → Peer → Option (List ℕ)
unfolding nth_association
select_peer_security_association random p =
    nth_association (random (length p.peer_sa - 1)) p.peer_sa

-- `generated` is the public key of the new key pair.
unfoldable pub create_private_security_association : List ℕ → Peer → Peer
unfolding push_front limit_to
create_private_security_association generated p = record p {
  private_sa = limit_to max_private_security_associations (push_front generated p.private_sa);
}

unfoldable pub get_private_security_association : List ℕ → Peer → Option (List ℕ)
get_private_security_association key p = find (bytes_eq key) p.private_sa
