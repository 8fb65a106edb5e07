-- ===== src/Social/SocialIdentity/Examples.antt =====
-- Social identities at concrete values: two peers, and a key that both hold.
use unisphere.Prelude.{
  ℕ, ◌≡◌, refl, ap, sym, subst, inl, inr, false, List, [], ◌∷◌, replicate, In, arith,
}
use unisphere.Identity.NodeIdentifier.{id_eq}
use unisphere.Social.Peer.{Peer, peer_id}
use unisphere.Interplex.Contact.{contact_id}
use unisphere.Social.SocialIdentity.{
  SocialIdentity, has_id, add_identity_association, remove_identity_association,
  has_identity_association,
}
use unisphere.Social.SocialIdentity.Cache.{
  IsCached, add_identity_association-IsCached, remove_identity_association-IsCached,
  remove_identity_association_forgets,
}

abbrev friend : ℕ → List (List ℕ) → Peer
friend b keys = record {
  contact = record {
    peer_key = record { bytes = b ∷ []; hashed = record { identifier = replicate 20 b } };
    addresses = [];
  };
  peer_sa = keys;
  private_sa = [];
}

abbrev identity : SocialIdentity
identity = record {
  local_id = record { identifier = replicate 20 9 };
  peers = friend 1 ((5 ∷ []) ∷ []) ∷ friend 2 ((6 ∷ []) ∷ []) ∷ [];
  sa_cache = (5 ∷ []) ∷ (6 ∷ []) ∷ [];
}

identity-IsCached : IsCached identity
identity-IsCached p (inl e) key m = elim (subst (λ r. In key r.peer_sa) e m) [
  | inl h ↦ inl h
  | inr z ↦ absurd z
]
identity-IsCached p (inr (inl e)) key m = elim (subst (λ r. In key r.peer_sa) e m) [
  | inl h ↦ inr (inl h)
  | inr z ↦ absurd z
]
identity-IsCached p (inr (inr e)) key m = absurd e

add_identity_association-IsCached_example :
    IsCached (add_identity_association (friend 1 ((5 ∷ []) ∷ [])) (7 ∷ []) identity)
add_identity_association-IsCached_example =
    add_identity_association-IsCached (friend 1 ((5 ∷ []) ∷ [])) (7 ∷ []) identity identity-IsCached

others_differ :
    (q : Peer)
    → In q identity.peers
    → has_id (peer_id (friend 1 ((5 ∷ []) ∷ []))) q ≡ false
    → ¬ In (5 ∷ []) q.peer_sa
unfolding peer_id id_eq contact_id
others_differ q (inl e) h k =
    ground (arith, ap (has_id (peer_id (friend 1 ((5 ∷ []) ∷ [])))) (sym e), h)
others_differ q (inr (inl e)) h k = differ (subst (λ r. In (5 ∷ []) r.peer_sa) e k)
  where
    differ : In {A = List ℕ} (5 ∷ []) ((6 ∷ []) ∷ []) → ⊥
    differ (inl h) = ground (arith, h)
    differ (inr z) = z
others_differ q (inr (inr e)) h k = e

remove_identity_association-IsCached_example :
    IsCached (remove_identity_association (friend 1 ((5 ∷ []) ∷ [])) (5 ∷ []) identity).0
remove_identity_association-IsCached_example =
    remove_identity_association-IsCached (friend 1 ((5 ∷ []) ∷ [])) (5 ∷ []) identity others_differ
      identity-IsCached

apart : has_id (peer_id (friend 1 ((5 ∷ []) ∷ []))) (friend 2 ((6 ∷ []) ∷ [])) ≡ false
unfolding peer_id id_eq contact_id
apart = refl

remove_identity_association_forgets_example :
    In
      (friend 2 ((6 ∷ []) ∷ []))
      (remove_identity_association (friend 1 ((5 ∷ []) ∷ [])) (6 ∷ []) identity).0.peers
    × (has_identity_association
          (6 ∷ [])
          (remove_identity_association (friend 1 ((5 ∷ []) ∷ [])) (6 ∷ []) identity).0
        ≡ false)
remove_identity_association_forgets_example =
    remove_identity_association_forgets (friend 1 ((5 ∷ []) ∷ [])) (friend 2 ((6 ∷ []) ∷ []))
      (6 ∷ []) identity (inr (inl refl)) apart (inl refl)
