-- ===== src/Social/RoutedMessage/Hops.antt =====
-- The two hop counters along a route.
use unisphere.Prelude.{ℕ, zero, suc, ◌+◌, ◌<◌, ◌≡◌, true, ◌&&◌, ltb, if◌then◌else◌, List, arith}
use unisphere.Identity.NodeIdentifier.{NodeIdentifier}
use unisphere.Social.Address.{LandmarkAddress}
use unisphere.Social.RoutedMessage.{
  RoutingOptions, RoutedMessage, originate, message_valid, process_hop,
}

-- The message after `n` further nodes have called `processHop()` on it.
unfoldable pub process_hops : ℕ → RoutedMessage → RoutedMessage
process_hops zero m = m
process_hops (suc n) m = process_hops n (process_hop m)

-- After `n` hops a message is valid exactly when it was valid at first and had more than `n` hops
-- left: no message is forwarded for ever.
pub message_valid-process_hops :
    (n : ℕ) (m : RoutedMessage)
    → message_valid (process_hops n m) ≡ (message_valid m && ltb n m.hop_limit)
unfolding process_hops message_valid process_hop
message_valid-process_hops zero m = ground arith
message_valid-process_hops (suc n) m = ground (arith, message_valid-process_hops n (process_hop m))

hop_distance-process_hops :
    (n : ℕ) (m : RoutedMessage)
    → m.hop_distance + n < 256
    → (process_hops n m).hop_distance
      ≡ (if ltb 0 m.hop_distance then m.hop_distance + n else m.hop_distance)
unfolding process_hops process_hop
hop_distance-process_hops zero m h = ground arith
hop_distance-process_hops (suc n) m h = ground (arith, hop_distance-process_hops n (process_hop m))

module _ (source_address : LandmarkAddress) (source : NodeIdentifier) (source_comp : ℕ)
    (address : LandmarkAddress) (destination : NodeIdentifier) (destination_comp type : ℕ)
    (payload : List ℕ) (opts : RoutingOptions) where
  -- the message that a node starts
  abbrev pub started : RoutedMessage
  started =
      originate source_address source source_comp address destination destination_comp type payload
        opts

  -- A message that starts with an 8-bit hop limit and is still valid after `n` hops carries the number
  -- `n + 1` if its options track the distance, and 0 if not: its 8-bit counter has not wrapped.
  pub hop_distance_exact :
      (n : ℕ)
      → opts.hop_limit < 256
      → message_valid (process_hops n started) ≡ true
      → (process_hops n started).hop_distance ≡ (if opts.track_hop_distance then n + 1 else 0)
  unfolding originate
  hop_distance_exact n h v =
      ground (arith, message_valid-process_hops n started, hop_distance-process_hops n started)
