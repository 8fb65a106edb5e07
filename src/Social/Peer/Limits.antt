-- ===== src/Social/Peer/Limits.antt =====
-- The numbers of security associations that a peer keeps, over histories of calls.
use unisphere.Prelude.{
  ℕ, ◌≤◌, not, some, none, List, [], ◌∷◌, length, length-drop_last, length-keep-le, arith,
}
use unisphere.Identity.NodeIdentifier.{bytes_eq}
use unisphere.Social.Peer.{
  Peer, max_peer_security_associations, max_private_security_associations, push_front, limit_to,
  add_peer_security_association, remove_peer_security_association,
  create_private_security_association,
}

pub record IsWithinLimits (p : Peer) : Type 0 where
  pub peer_limit : length p.peer_sa ≤ max_peer_security_associations
  pub private_limit : length p.private_sa ≤ max_private_security_associations

limit-push :
    (limit : ℕ) (key : List ℕ) (keys : List (List ℕ))
    → length keys ≤ limit
    → length (limit_to limit (push_front key keys)) ≤ limit
unfolding limit_to push_front
limit-push limit key keys h = ground (arith, length-drop_last (key ∷ keys))

pub data PeerCall : Type 0 where
  add_call remove_call create_call : List ℕ → PeerCall

-- A call that throws leaves the peer as it is.
unfoldable pub peer_step : Peer → PeerCall → Peer
unfolding add_peer_security_association create_private_security_association
peer_step p (add_call key) = add_peer_security_association key p
peer_step p (remove_call key) = elim (remove_peer_security_association key p) [
  | none ↦ p
  | some q ↦ q
]
peer_step p (create_call key) = create_private_security_association key p

unfoldable pub peer_run : Peer → List PeerCall → Peer
unfolding peer_step
peer_run p [] = p
peer_run p (c ∷ cs) = peer_run (peer_step p c) cs

remove-IsWithinLimits :
    (key : List ℕ) (p : Peer) → IsWithinLimits p → IsWithinLimits (peer_step p (remove_call key))
unfolding peer_step remove_peer_security_association
remove-IsWithinLimits key p h = record {
  peer_limit = ground (arith, h.peer_limit, length-keep-le (λ k. not (bytes_eq key k)) p.peer_sa);
  private_limit = ground (arith, h.private_limit);
}

peer_step-IsWithinLimits :
    (p : Peer) (c : PeerCall) → IsWithinLimits p → IsWithinLimits (peer_step p c)
unfolding peer_step add_peer_security_association create_private_security_association
peer_step-IsWithinLimits p (remove_call key) h = remove-IsWithinLimits key p h
peer_step-IsWithinLimits p (add_call key) h = record {
  peer_limit = limit-push 10 key p.peer_sa h.peer_limit;
  private_limit = h.private_limit;
}
peer_step-IsWithinLimits p (create_call key) h = record {
  peer_limit = h.peer_limit;
  private_limit = limit-push 13 key p.private_sa h.private_limit;
}

-- Over any history of calls, a peer within its limits stays with at most 10 security associations of
-- its own choice and 13 of ours.
pub peer_run-IsWithinLimits :
    (cs : List PeerCall) (p : Peer) → IsWithinLimits p → IsWithinLimits (peer_run p cs)
unfolding peer_run
peer_run-IsWithinLimits [] p h = h
peer_run-IsWithinLimits (c ∷ cs) p h =
    peer_run-IsWithinLimits cs (peer_step p c) (peer_step-IsWithinLimits p c h)
