-- ===== src/Social/Router/Associations.antt =====
-- The security associations that the router sends to its peers and learns from them. A peer that has been
-- looked up is a shared object: what is done to it is done to the peer in the identity.
use unisphere.Prelude.{
  ℕ, zero, suc, ◌+◌, Option, some, none, List, [], ◌∷◌, ◌++◌, map, ◌==◌, if◌then◌else◌, length,
}
use unisphere.Social.Peer.{
  Peer, peer_id, create_private_security_association, has_private_security_associations,
}
use unisphere.Social.SocialIdentity.{
  modify_peer, add_identity_association, remove_identity_association,
}
use unisphere.Social.Router.State.{
  Router, Surroundings, Cryptography, count_updates, Effect, send_sa_create,
}

-- The loop that makes key pairs, with the number of the first draw
unfoldable pub create_associations : (ℕ → List ℕ) → ℕ → ℕ → Peer → Peer × List (List ℕ)
create_associations generate draw zero p = (p, [])
create_associations generate draw (suc count) p =
    let rest =
      create_associations generate (draw + 1) count
        (create_private_security_association (generate draw) p) in
    (rest.0, generate draw ∷ rest.1)

unfoldable pub refresh_count : ℕ → Peer → ℕ
refresh_count zero p = if has_private_security_associations p then 0 else 1
refresh_count (suc n) p = suc n

-- `saRefresh`
unfoldable pub refresh_new : Surroundings → ℕ → Peer → Router → Router × List Effect
unfolding create_associations modify_peer
refresh_new env count p r =
    let made = create_associations env.generate r.entropy count p in
    (
      record r {
        identity = record (r.identity) {
          peers = modify_peer (peer_id p) (λ q. made.0) r.identity.peers;
        };
        statistics = count_updates count r.statistics;
        entropy = r.entropy + count;
      },
      map (send_sa_create p.contact) made.1,
    )

unfoldable pub retransmit : Peer → Router → Router × List Effect
retransmit p r = (
  record r { statistics = count_updates (length p.private_sa) r.statistics },
  map (send_sa_create p.contact) p.private_sa,
)

abbrev pub refresh_by_count : Surroundings → ℕ → Peer → Router → Router × List Effect
refresh_by_count env zero p r = retransmit p r
refresh_by_count env (suc n) p r = refresh_new env (suc n) p r

unfoldable pub sa_refresh : Surroundings → Peer → ℕ → Router → Router × List Effect
unfolding refresh_count refresh_new retransmit
sa_refresh env p count r = refresh_by_count env (refresh_count count p) p r

unfoldable pub sa_refresh_peers : Surroundings → List Peer → Router → Router × List Effect
unfolding sa_refresh
sa_refresh_peers env [] r = (r, [])
sa_refresh_peers env (p ∷ ps) r =
    let first = sa_refresh env p 1 r in
    let rest = sa_refresh_peers env ps first.0 in (rest.0, first.1 ++ rest.1)

unfoldable pub sa_refresh_all : Surroundings → Router → Router × List Effect
unfolding sa_refresh_peers
sa_refresh_all env r = sa_refresh_peers env r.identity.peers r

-- The three branches of `messageReceived`, for the peer of the link or `none`
unfoldable pub receive_sa_create :
    Cryptography → List ℕ → Option Peer → Router → Router × List Effect
receive_sa_create c key none r = (r, [])
receive_sa_create c key (some p) r =
    if length key == c.sign_key_size
    then (record r { identity = add_identity_association p key r.identity }, [])
    else (r, [])

unfoldable pub receive_sa_invalid : List ℕ → Option Peer → Router → Router × List Effect
receive_sa_invalid key none r = (r, [])
receive_sa_invalid key (some p) r =
    (record r { identity = (remove_identity_association p key r.identity).0 }, [])

unfoldable pub receive_sa_flush : Surroundings → Option Peer → Router → Router × List Effect
unfolding sa_refresh
receive_sa_flush env none r = (r, [])
receive_sa_flush env (some p) r = sa_refresh env p 0 r
