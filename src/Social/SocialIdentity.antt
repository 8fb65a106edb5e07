-- ===== src/Social/SocialIdentity.antt =====
-- src/social/social_identity.h and social_identity.cpp: the peers of a node, and the cache of the public
-- keys of their security associations. The map and the set are lists; the peers are shared objects, so
-- that an operation on a peer that `getPeer` returned changes the peer in the map.
pub mod Cache
pub mod Examples
use unisphere.Prelude.{
  ℕ, Bool, true, false, not, ◌&&◌, Option, some, none, List, [], ◌∷◌, map, keep, find,
  if◌then◌else◌,
}
use unisphere.Identity.NodeIdentifier.{NodeIdentifier, is_valid, id_eq, bytes_eq}
use unisphere.Interplex.Contact.{Contact, null_contact, contact_id}
use unisphere.Social.Peer.{
  Peer, new_peer, peer_null, peer_id, has_public_key, add_peer_security_association,
  remove_peer_security_association,
}

pub record SocialIdentity : Type 0 where
  pub local_id : NodeIdentifier
  pub peers : List Peer
  pub sa_cache : List (List ℕ)

pub data PeerSignal : Type 0 where
  peer_added : Peer → PeerSignal
  peer_removed : NodeIdentifier → PeerSignal

abbrev pub has_id : NodeIdentifier → Peer → Bool
has_id id p = id_eq id (peer_id p)

-- `getPeer`
unfoldable pub get_peer : NodeIdentifier → SocialIdentity → Option Peer
get_peer id s = find (has_id id) s.peers

unfoldable pub is_peer : NodeIdentifier → SocialIdentity → Bool
unfolding get_peer
is_peer id s = elim (get_peer id s) [ none ↦ false | some p ↦ true ]

-- `m_peers[peer->nodeId()] = peer`
unfoldable pub put_peer : Peer → List Peer → List Peer
put_peer p ps = p ∷ keep (λ q. not (has_id (peer_id p) q)) ps

unfoldable pub add_peer : Peer → SocialIdentity → SocialIdentity × List PeerSignal
unfolding put_peer
add_peer p s =
    if peer_null p then (s, []) else (record s { peers = put_peer p s.peers }, peer_added p ∷ [])

unfoldable pub add_contact_peer : Contact → SocialIdentity → SocialIdentity × List PeerSignal
unfolding add_peer
add_contact_peer c s = add_peer (new_peer c) s

unfoldable pub remove_peer : NodeIdentifier → SocialIdentity → SocialIdentity × List PeerSignal
remove_peer id s =
    (record s { peers = keep (λ q. not (has_id id q)) s.peers }, peer_removed id ∷ [])

unfoldable pub get_peer_contact : NodeIdentifier → SocialIdentity → Contact
unfolding get_peer
get_peer_contact id s =
    if not (is_valid id)
    then null_contact
    else elim (get_peer id s) [ none ↦ null_contact | some p ↦ p.contact ]

-- The peer object with an identifier, changed in place.
unfoldable pub modify_peer : NodeIdentifier → (Peer → Peer) → List Peer → List Peer
modify_peer id f ps = map (λ p. if has_id id p then f p else p) ps

abbrev pub insert_key : List ℕ → List (List ℕ) → List (List ℕ)
insert_key key keys = if has_public_key key keys then keys else key ∷ keys

abbrev pub erase_key : List ℕ → List (List ℕ) → List (List ℕ)
erase_key key keys = keep (λ k. not (bytes_eq key k)) keys

unfoldable pub add_identity_association : Peer → List ℕ → SocialIdentity → SocialIdentity
unfolding modify_peer
add_identity_association p key s = record s {
  sa_cache = insert_key key s.sa_cache;
  peers = modify_peer (peer_id p) (add_peer_security_association key) s.peers;
}

-- The cache forgets the key before the peer is asked to; the second component tells whether the peer
-- throws, in which case it is as it was.
unfoldable pub without_association : List ℕ → Peer → Peer
without_association key p = elim (remove_peer_security_association key p) [ none ↦ p | some q ↦ q ]

unfoldable pub remove_identity_association : Peer → List ℕ → SocialIdentity → SocialIdentity × Bool
unfolding modify_peer without_association
remove_identity_association p key s = (
  record s {
    sa_cache = erase_key key s.sa_cache;
    peers = modify_peer (peer_id p) (without_association key) s.peers;
  },
  not (has_public_key key p.peer_sa),
)

unfoldable pub has_identity_association : List ℕ → SocialIdentity → Bool
has_identity_association key s = has_public_key key s.sa_cache
