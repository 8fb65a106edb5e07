-- ===== src/Social/Router/Receive.antt =====
-- `messageReceived` and the calls of the timers of src/social/compact_router.cpp.
pub mod Consistent
pub mod Announces
pub mod Examples
use unisphere.Prelude.{
  ℕ, zero, suc, ◌+◌, Bool, true, false, not, ◌&&◌, Option, some, none, List, [], ◌∷◌, ◌++◌, map,
  ◌==◌, if◌then◌else◌, length, find, keep,
}
use unisphere.Identity.NodeIdentifier.{NodeIdentifier, invalid, is_null}
use unisphere.Interplex.Contact.{Contact, contact_id}
use unisphere.Social.RoutedMessage.{WireMessage}
use unisphere.Social.Peer.{
  Peer, peer_id, select_peer_security_association, has_private_security_associations,
}
use unisphere.Social.SocialIdentity.{SocialIdentity, get_peer, is_peer}
use unisphere.Social.RoutingTable.Entry.{RoutingEntry}
use unisphere.Social.RoutingTable.Table as Table
use unisphere.Social.RoutingTable.Table.{Outcome, get_vport_for_neighbor}
use unisphere.Social.RoutingTable.Select.{retract, set_landmark}
use unisphere.Social.RoutingTable.Import.{import}
use unisphere.Social.RoutingTable.Read.{full_update}
use unisphere.Social.Router.State.{
  Router, Surroundings, Cryptography, PathAnnounce, count_updates, Effect, send_sa_flush,
  send_refresh, arm_announce,
}
use unisphere.Social.Router.Route.{receive_routed}
use unisphere.Social.Router.Delegation.{
  Verdict, imported, skipped, malformed, uncaught, validate, sign_subkey,
}
use unisphere.Social.Router.Associations.{
  sa_refresh, sa_refresh_all, receive_sa_create, receive_sa_invalid, receive_sa_flush,
}
use unisphere.Social.Router.Export.{Called, and_then, ask_associations, queue_announce, perform}

-- The signals of an operation of the routing table, after it.
unfoldable pub after_table : Surroundings → Table.RoutingTable → List Table.Effect → Router → Called
unfolding perform
after_table env t effects r = perform env effects (record r { routes = t })

unfoldable pub import_entry : Surroundings → RoutingEntry → Router → Called
unfolding after_table
import_entry env e r = elim (import env.environment env.now e r.routes) [
  | none ↦ none
  | some o ↦ after_table env o.table o.effects r
]

-- The loop over the announcements of one message. An exception that leaves it ends it like `return`.
unfoldable pub import_verdict : Surroundings → Verdict → (Router → Called) → Router → Called
unfolding import_entry
import_verdict env (imported e) rest r = and_then (import_entry env e r) rest
import_verdict env skipped rest r = rest r
import_verdict env malformed rest r = some (r, [])
import_verdict env uncaught rest r = some (r, [])

unfoldable pub import_announces : Surroundings → ℕ → List PathAnnounce → Router → Called
unfolding import_verdict
import_announces env vport [] r = some (r, [])
import_announces env vport (a ∷ more) r =
    import_verdict env (validate env.crypto r.identity vport a) (import_announces env vport more) r

unfoldable pub receive_from : Surroundings → ℕ → List PathAnnounce → Peer → Router → Called
unfolding import_announces
receive_from env vport announces p r =
    and_then (some (if has_private_security_associations p then (r, []) else sa_refresh env p 1 r))
      (import_announces env vport announces)

unfoldable pub receive_announces :
    Surroundings → List PathAnnounce → NodeIdentifier → Router → Called
unfolding receive_from
receive_announces env announces originator r =
    let assigned = get_vport_for_neighbor originator r.routes in
    let known = record r { routes = assigned.1 } in
    elim (get_peer originator r.identity) [
      | none ↦ some (known, [])
      | some p ↦ receive_from env assigned.0 announces p known
    ]

unfoldable pub receive_retract : Surroundings → NodeIdentifier → NodeIdentifier → Router → Called
unfolding after_table
receive_retract env destination originator r =
    let assigned = get_vport_for_neighbor originator r.routes in
    let out = retract env.environment.indices assigned.0 destination assigned.1 in
    after_table env out.table out.effects r

unfoldable pub update_peer : Surroundings → NodeIdentifier → Router → Called
unfolding perform
update_peer env peer r = perform env (full_update env.environment.indices peer r.routes) r

unfoldable pub receive_refresh : Surroundings → NodeIdentifier → NodeIdentifier → Router → Called
unfolding update_peer
receive_refresh env destination originator r =
    if is_null destination then update_peer env originator r else some (r, [])

-- The messages between neighbours, by type
pub data LinkMessage : Type 0 where
  sa_create_message : List ℕ → LinkMessage
  sa_invalid_message : List ℕ → LinkMessage
  sa_flush_message : LinkMessage
  announce_message : List PathAnnounce → LinkMessage
  retract_message : NodeIdentifier → LinkMessage
  refresh_message : NodeIdentifier → LinkMessage
  routed_message : WireMessage → LinkMessage
  other_message : LinkMessage

unfoldable pub message_received : Surroundings → LinkMessage → NodeIdentifier → Router → Called
unfolding receive_announces receive_retract receive_refresh
message_received env (sa_create_message key) from r =
    some (receive_sa_create env.crypto key (get_peer from r.identity) r)
message_received env (sa_invalid_message key) from r =
    some (receive_sa_invalid key (get_peer from r.identity) r)
message_received env sa_flush_message from r =
    some (receive_sa_flush env (get_peer from r.identity) r)
message_received env (announce_message sent) from r = receive_announces env sent from r
message_received env (retract_message destination) from r = receive_retract env destination from r
message_received env (refresh_message destination) from r = receive_refresh env destination from r
message_received env (routed_message w) from r = some (receive_routed env r w from)
message_received env other_message from r = some (r, [])

-- `peerAdded`, for a peer that is in the identity
unfoldable pub peer_joined : Surroundings → Peer → Router → Called
unfolding update_peer
peer_joined env p r = and_then (some (sa_refresh env p 1 r)) (update_peer env (peer_id p))

-- `announceOurselves`: the announcement of this node, of which only a landmark gives its vport
unfoldable pub own_announce : Cryptography → ℕ → Bool → List ℕ → ℕ → PathAnnounce
own_announce c seqno landmark sa vport = record {
  public_key = c.local_key;
  forward_path = [];
  reverse_path = if landmark then vport ∷ [] else [];
  landmark = landmark;
  seqno = seqno;
  delegation_chain = c.sign (sign_subkey c c.local_key) (c.encode sa) ∷ [];
}

unfoldable pub announce_with : Surroundings → Peer → Option (List ℕ) → Router → Called
unfolding ask_associations own_announce update_peer queue_announce
announce_with env p none r = some (ask_associations p r)
announce_with env p (some sa) r =
    let assigned = get_vport_for_neighbor (peer_id p) r.routes in
    let known = if r.routes.landmark then record r { routes = assigned.1 } else r in
    and_then
      (some (
        queue_announce p.contact (own_announce env.crypto r.seqno r.routes.landmark sa assigned.0)
          known))
      (update_peer env (peer_id p))

unfoldable pub announce_to : Surroundings → List Peer → Router → Called
unfolding announce_with
announce_to env [] r = some (r, arm_announce ∷ [])
announce_to env (p ∷ ps) r =
    and_then
      (announce_with env p (select_peer_security_association (env.random r.entropy) p)
        (record r { entropy = r.entropy + 1 }))
      (announce_to env ps)

unfoldable pub announce_ourselves : Surroundings → Bool → Router → Called
unfolding announce_to
announce_ourselves env error r = if error then some (r, []) else announce_to env r.identity.peers r

-- `requestFullRoutes`
unfoldable pub request_full_routes : Router → List Effect
request_full_routes r = map (λ p. send_refresh p.contact invalid) r.identity.peers

-- `linkVerifyPeer`
unfoldable pub link_verify_peer : Contact → Router → Bool
link_verify_peer c r = is_peer (contact_id c) r.identity

-- `networkSizeEstimateChanged`: `elected` is the test of a random number against the estimate.
unfoldable pub network_size_changed : Surroundings → Bool → Router → Called
unfolding after_table
network_size_changed env elected r =
    let out = set_landmark env.environment.indices true r.routes in
    if r.force_landmark
    then after_table env out.0 out.1 r
    else if elected
    then after_table env out.0 out.1 r
    else some (r, [])
