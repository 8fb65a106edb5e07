-- ===== src/Social/Peer/Examples.antt =====
-- A peer that is given a key twice and loses it.
use unisphere.Prelude.{List, [], ◌∷◌, replicate, arith}
use unisphere.Social.Peer.{Peer, new_peer}
use unisphere.Social.Peer.Limits.{
  IsWithinLimits, PeerCall, add_call, remove_call, create_call, peer_run, peer_run-IsWithinLimits,
}

abbrev friend : Peer
friend = new_peer (record {
  peer_key = record { bytes = 7 ∷ []; hashed = record { identifier = replicate 20 1 } };
  addresses = [];
})

abbrev calls : List PeerCall
calls =
    add_call (1 ∷ [])
    ∷ add_call (2 ∷ [])
    ∷ add_call (1 ∷ [])
    ∷ create_call (3 ∷ [])
    ∷ remove_call (2 ∷ [])
    ∷ []

peer_run-IsWithinLimits_example : IsWithinLimits (peer_run friend calls)
peer_run-IsWithinLimits_example =
    peer_run-IsWithinLimits calls friend
      (record { peer_limit = omega arith; private_limit = omega arith })
