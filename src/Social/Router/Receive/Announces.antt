-- ===== src/Social/Router/Receive/Announces.antt =====
-- The routing table and the name database while the router receives messages.
use unisphere.Prelude.{
  ℕ, ◌<◌, ◌≡◌, refl, false, not, Option, some, none, List, [], ◌∷◌, if◌then◌else◌, if_elim, length,
  ◌==◌,
}
use unisphere.Identity.NodeIdentifier.{NodeIdentifier, id_eq, is_null}
use unisphere.Social.RoutedMessage.{RoutedMessage, message_valid, process_hop, of_message}
use unisphere.Social.Address.{address_null}
use unisphere.Social.Peer.{Peer, has_private_security_associations}
use unisphere.Social.SocialIdentity.{get_peer}
use unisphere.Social.RoutingTable.Table.{get_vport_for_neighbor}
use unisphere.Social.RoutingTable.Select.{retract}
use unisphere.Social.RoutingTable.Read.{full_update}
use unisphere.Social.RoutingTable.Operations.{retract-IsRouted}
use unisphere.Social.RoutingTable.Histories.{neighbor-rib}
use unisphere.Social.NameDatabase.Invariant.{store_addresses-IsWellFormed}
use unisphere.Social.Router.State.{Router, Surroundings, PathAnnounce, Effect}
use unisphere.Social.Router.Route.{
  Decision, finish, counted, decide, transmit, receive_local, route, receive_routed,
}
use unisphere.Social.Router.Associations.{
  sa_refresh, receive_sa_create, receive_sa_invalid, receive_sa_flush,
}
use unisphere.Social.Router.Delegation.{
  Chain, validated, refused, undecodable, Verdict, imported, skipped, malformed, uncaught,
  announced_entry, check_chain, sign_subkey, no_delegations, chain_verdict, validate,
}
use unisphere.Social.Router.Export.{Called}
use unisphere.Social.Router.Receive.Consistent.{
  IsConsistent, OnReturn, and_then-OnReturn, option-OnReturn, Keeps, kept-IsConsistent,
  perform-IsConsistent, after_table-IsConsistent, import_entry-IsConsistent, sa_refresh-Keeps,
}
use unisphere.Social.Router.Receive.{
  LinkMessage, sa_create_message, sa_invalid_message, sa_flush_message, announce_message,
  retract_message, refresh_message, routed_message, other_message, import_entry, import_verdict,
  import_announces, receive_from, receive_announces, receive_retract, update_peer, receive_refresh,
  message_received,
}

abbrev IsOff : Verdict → Type 0
IsOff (imported e) = e.active ≡ false
IsOff skipped = Unit
IsOff malformed = Unit
IsOff uncaught = Unit

module _ (env : Surroundings) where
  -- What the loop over announcements imports is not active.
  verdict-IsOff :
      (a : PathAnnounce) (vport : ℕ) (r : Router) → IsOff (validate env.crypto r.identity vport a)
  unfolding validate announced_entry
  verdict-IsOff a vport r =
      if_elim {x = uncaught}
        {y = if no_delegations a.delegation_chain
          then malformed
          else chain_verdict (announced_entry env.crypto vport a) (
              check_chain env.crypto r.identity [] (sign_subkey env.crypto a.public_key)
                a.delegation_chain)}
        IsOff (not (length a.public_key == env.crypto.peer_key_size)) tt
        (if_elim {x = malformed} IsOff (no_delegations a.delegation_chain) tt (
          by_chain (
            check_chain env.crypto r.identity [] (sign_subkey env.crypto a.public_key)
              a.delegation_chain)))
    where
      by_chain : (o : Chain) → IsOff (chain_verdict (announced_entry env.crypto vport a) o)
      by_chain (validated key ds) = refl
      by_chain refused = tt
      by_chain undecodable = tt

  module _ (positive : 0 < env.environment.maximum_vicinity_size) where
    import_verdict-IsConsistent :
        (v : Verdict) (rest : Router → Called) (r : Router)
        → IsOff v
        → ((q : Router) → IsConsistent q → OnReturn IsConsistent (rest q))
        → IsConsistent r
        → OnReturn IsConsistent (import_verdict env v rest r)
    unfolding import_verdict
    import_verdict-IsConsistent (imported e) rest r off k w =
        and_then-OnReturn IsConsistent (import_entry env e r) rest
          (import_entry-IsConsistent env e r positive off w) k
    import_verdict-IsConsistent skipped rest r off k w = k r w
    import_verdict-IsConsistent malformed rest r off k w = w
    import_verdict-IsConsistent uncaught rest r off k w = w

    import_announces-IsConsistent :
        (vport : ℕ) (announces : List PathAnnounce) (r : Router)
        → IsConsistent r
        → OnReturn IsConsistent (import_announces env vport announces r)
    unfolding import_announces
    import_announces-IsConsistent vport [] r w = w
    import_announces-IsConsistent vport (a ∷ more) r w =
        import_verdict-IsConsistent (validate env.crypto r.identity vport a)
          (import_announces env vport more) r (verdict-IsOff a vport r)
          (λ q. import_announces-IsConsistent vport more q) w

    receive_from-IsConsistent :
        (vport : ℕ) (announces : List PathAnnounce) (p : Peer) (r : Router)
        → IsConsistent r
        → OnReturn IsConsistent (receive_from env vport announces p r)
    unfolding receive_from
    receive_from-IsConsistent vport announces p r w =
        and_then-OnReturn IsConsistent
          (some (if has_private_security_associations p then (r, []) else sa_refresh env p 1 r))
          (import_announces env vport announces)
          (if_elim (λ (o : Router × List Effect). IsConsistent o.0)
            (has_private_security_associations p) w
            (kept-IsConsistent r (sa_refresh env p 1 r).0 (sa_refresh-Keeps env p 1 r) w))
          (λ q. import_announces-IsConsistent vport announces q)

  known-IsConsistent :
      (originator : NodeIdentifier) (r : Router)
      → IsConsistent r
      → IsConsistent (record r { routes = (get_vport_for_neighbor originator r.routes).1 })
  known-IsConsistent originator r w =
      kept-IsConsistent r (record r { routes = (get_vport_for_neighbor originator r.routes).1 })
        (neighbor-rib originator r.routes, refl) w

  transmit-Keeps : (d : Decision) (r : Router) → Keeps r (transmit env d r).0
  unfolding transmit
  transmit-Keeps d r =
      if_elim (λ (o : Router × List Effect). Keeps r o.0) _ (refl, refl) (refl, refl)

  finish-Keeps : (o : Option Decision) (r : Router) → Keeps r (finish env r o).0
  unfolding finish counted
  finish-Keeps none r = (refl, refl)
  finish-Keeps (some d) r = transmit-Keeps d (counted d r)

  receive_local-IsConsistent :
      (r : Router) (m : RoutedMessage) → IsConsistent r → IsConsistent (receive_local env r m).0
  unfolding receive_local
  receive_local-IsConsistent r m w =
      if_elim (λ (o : Router × List Effect). IsConsistent o.0) (is_null m.origin_link_id) w
        (if_elim (λ (o : Router × List Effect). IsConsistent o.0) (address_null m.source_address) w
          (record {
            routed = w.routed;
            well_formed =
                store_addresses-IsWellFormed _ _ _ m.source_node_id (m.source_address ∷ []) _
                  r.names w.well_formed;
          }))

  route-IsConsistent :
      (r : Router) (m : RoutedMessage) → IsConsistent r → IsConsistent (route env r m).0
  unfolding route
  route-IsConsistent r m w =
      if_elim (λ (o : Router × List Effect). IsConsistent o.0) (not (message_valid m)) w
        (if_elim (λ (o : Router × List Effect). IsConsistent o.0)
          (id_eq m.destination_node_id r.routes.local_id) (receive_local-IsConsistent r m w)
          (kept-IsConsistent r (finish env r (decide env r m)).0 (finish-Keeps (decide env r m) r)
            w))

  -- Whatever a neighbour sends, and unless a null pointer is followed on the way, the routing table has at
  -- most one route through a neighbour and at most one active route to a destination, none where it has no
  -- route, and the name database has unique records and a bounded cache after it if they had before; the
  -- vicinity has to have room for one entry.
  pub message_received-IsConsistent :
      (m : LinkMessage) (from : NodeIdentifier) (r : Router)
      → 0 < env.environment.maximum_vicinity_size
      → IsConsistent r
      → OnReturn IsConsistent (message_received env m from r)
  unfolding message_received receive_announces receive_retract receive_refresh update_peer
      receive_routed receive_sa_create receive_sa_invalid receive_sa_flush
  message_received-IsConsistent (sa_create_message key) from r positive w =
      by_peer (get_peer from r.identity)
    where
      by_peer : (o : Option Peer) → IsConsistent (receive_sa_create env.crypto key o r).0
      by_peer none = w
      by_peer (some p) =
          if_elim (λ (o : Router × List Effect). IsConsistent o.0)
            (length key == env.crypto.sign_key_size)
            (record { routed = w.routed; well_formed = w.well_formed }) w
  message_received-IsConsistent (sa_invalid_message key) from r positive w =
      by_peer (get_peer from r.identity)
    where
      by_peer : (o : Option Peer) → IsConsistent (receive_sa_invalid key o r).0
      by_peer none = w
      by_peer (some p) = record { routed = w.routed; well_formed = w.well_formed }
  message_received-IsConsistent sa_flush_message from r positive w =
      by_peer (get_peer from r.identity)
    where
      by_peer : (o : Option Peer) → IsConsistent (receive_sa_flush env o r).0
      by_peer none = w
      by_peer (some p) = kept-IsConsistent r (sa_refresh env p 0 r).0 (sa_refresh-Keeps env p 0 r) w
  message_received-IsConsistent (announce_message sent) from r positive w =
      option-OnReturn IsConsistent (get_peer from r.identity) _
        (λ p.
          receive_from env (get_vport_for_neighbor from r.routes).0 sent p
            (record r { routes = (get_vport_for_neighbor from r.routes).1 }))
        (known-IsConsistent from r w)
        (λ p. receive_from-IsConsistent positive _ sent p _ (known-IsConsistent from r w))
  message_received-IsConsistent (retract_message destination) from r positive w =
      let assigned = get_vport_for_neighbor from r.routes in
      let known = known-IsConsistent from r w in
      let out = retract env.environment.indices assigned.0 destination assigned.1 in
      after_table-IsConsistent env out.table out.effects r
        (retract-IsRouted env.environment.indices assigned.0 destination assigned.1 known.routed) w
  message_received-IsConsistent (refresh_message destination) from r positive w =
      if_elim (OnReturn IsConsistent) (is_null destination)
        (perform-IsConsistent env (full_update env.environment.indices from r.routes) r w) w
  message_received-IsConsistent (routed_message m) from r positive w =
      route-IsConsistent _ (process_hop (of_message m from))
        (record { routed = w.routed; well_formed = w.well_formed })
  message_received-IsConsistent other_message from r positive w = w
