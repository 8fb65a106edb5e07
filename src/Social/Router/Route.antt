-- ===== src/Social/Router/Route.antt =====
-- `route` of src/social/compact_router.cpp, step by step.
use unisphere.Prelude.{
  ◌+◌, Bool, true, false, not, ◌&&◌, ◌||◌, Option, some, none, List, [], ◌∷◌, ◌++◌, map, ltb,
  if◌then◌else◌, length,
}
use unisphere.Identity.NodeIdentifier.{NodeIdentifier, id_eq, is_null}
use unisphere.Interplex.Contact.{Contact, contact_null, contact_id}
use unisphere.Social.Address.{RoutingPath, address_null, landmark_itself}
use unisphere.Social.RoutedMessage.{
  RoutedMessage, WireMessage, message_valid, process_hop, process_source_route_hop, serialize,
  of_message,
}
use unisphere.Social.SocialIdentity.{get_peer_contact}
use unisphere.Social.RoutingTable.Table.{get_neighbor_for_vport}
use unisphere.Social.RoutingTable.Read.{get_active_route, get_sloppy_group_relay}
use unisphere.Social.NameDatabase.Record.{NameRecord, landmark_address, cache}
use unisphere.Social.NameDatabase.Store.{store_addresses}
use unisphere.Social.NameDatabase.Read.{lookup}
use unisphere.Social.Router.State.{
  Router, Surroundings, count_xmit, count_rcvd, count_link, Effect, deliver, post_delivery,
  send_routed, name_effect,
}

-- What is known of the next hop while `route` decides: the message, perhaps with a new destination
-- address, a contact, perhaps null, and whether the two counters move.
pub record Decision : Type 0 where
  pub message : RoutedMessage
  pub next_hop : Contact
  pub landmark_routed : Bool
  pub relayed : Bool

-- the neighbour that the active route to a node goes through
unfoldable pub route_contact : Surroundings → Router → NodeIdentifier → Contact
route_contact env r destination =
    get_peer_contact ((get_active_route env.environment.indices destination r.routes).node_id)
      r.identity

-- A path of more than one hop is put into the message, unless it has an address that is no longer.
unfoldable pub embed_path : NodeIdentifier → RoutingPath → RoutedMessage → RoutedMessage
embed_path local_id path m =
    if address_null m.destination_address || ltb (length path) (length m.destination_address.path)
    then process_source_route_hop (record m {
      destination_address = record { landmark_id = local_id; path = path };
      delivery_mode = true;
    })
    else m

unfoldable pub direct_stage : Surroundings → Router → RoutedMessage → Decision
unfolding embed_path
direct_stage env r m =
    let hop = get_active_route env.environment.indices m.destination_node_id r.routes in
    let next = get_peer_contact hop.node_id r.identity in
    record {
      message =
          if not (contact_null next) && ltb 1 (length hop.path)
          then embed_path r.routes.local_id hop.path m
          else m;
      next_hop = next;
      landmark_routed = false;
      relayed = false;
    }

-- By the source path in delivery mode, and towards the landmark otherwise; `none` drops the message.
unfoldable pub follow_path : Router → RoutedMessage → Bool → RoutingPath → Option Decision
follow_path r m counted [] = none
follow_path r m counted (v ∷ vs) = some (record {
  message = process_source_route_hop m;
  next_hop = get_peer_contact (get_neighbor_for_vport v r.routes) r.identity;
  landmark_routed = counted;
  relayed = false;
})

unfoldable pub follow_address : Surroundings → Router → RoutedMessage → Bool → Option Decision
unfolding follow_path
follow_address env r m counted =
    if m.delivery_mode
    then follow_path r m counted m.destination_address.path
    else some (record {
      message = m;
      next_hop = route_contact env r m.destination_address.landmark_id;
      landmark_routed = counted;
      relayed = false;
    })

-- At the landmark of the address itself: an empty path is resolved by the name database, and any other
-- path is followed from here on.
unfoldable pub resolve_here :
    Surroundings → Router → RoutedMessage → Option NameRecord → Option Decision
resolve_here env r m none = none
resolve_here env r m (some found) =
    follow_address env r (record m { destination_address = landmark_address found }) false

unfoldable pub at_landmark : Surroundings → Router → RoutedMessage → RoutingPath → Option Decision
unfolding resolve_here
at_landmark env r m [] =
    resolve_here env r m (lookup env.name_indices m.destination_node_id r.names)
at_landmark env r m (v ∷ vs) = follow_address env r (record m { delivery_mode = true }) true

unfoldable pub address_stage : Surroundings → Router → Decision → Option Decision
unfolding at_landmark follow_address
address_stage env r d =
    if contact_null d.next_hop && not (address_null d.message.destination_address)
    then (if id_eq d.message.destination_address.landmark_id r.routes.local_id
        then at_landmark env r d.message d.message.destination_address.path
        else follow_address env r d.message false)
    else some d

-- The local name database, and then a relay of the destination's sloppy group.
unfoldable pub from_record : Surroundings → Router → Decision → Option NameRecord → Decision
from_record env r d none = d
from_record env r d (some found) = record d {
  message = record (d.message) { destination_address = landmark_address found };
  next_hop = route_contact env r ((landmark_address found).landmark_id);
}

unfoldable pub relay_stage : Surroundings → Router → Decision → Decision
relay_stage env r d =
    let relay = get_sloppy_group_relay env.environment d.message.destination_node_id r.routes in
    if contact_null d.next_hop
    then record d {
      message = record (d.message) { destination_address = landmark_itself relay.node_id };
      next_hop = get_peer_contact relay.next_hop r.identity;
      relayed = true;
    }
    else d

unfoldable pub search_stage : Surroundings → Router → Decision → Decision
unfolding from_record relay_stage
search_stage env r d =
    if contact_null d.next_hop
    then relay_stage env r
        (from_record env r d (lookup env.name_indices d.message.destination_node_id r.names))
    else d

-- The whole decision; `none` where the message is dropped on the way.
unfoldable pub search_option : Surroundings → Router → Option Decision → Option Decision
search_option env r none = none
search_option env r (some d) = some (search_stage env r d)

unfoldable pub decide : Surroundings → Router → RoutedMessage → Option Decision
unfolding direct_stage address_stage search_stage search_option
decide env r m =
    if m.options.direct_delivery
    then some (direct_stage env r m)
    else search_option env r (address_stage env r (direct_stage env r m))

-- The end of `route`: a null next hop or a slot that refuses drops the message.
unfoldable pub counted : Decision → Router → Router
counted d r = record r {
  statistics = record (r.statistics) {
    msgs_landmark_routed = r.statistics.msgs_landmark_routed + (if d.landmark_routed then 1 else 0);
    msgs_sg_routed = r.statistics.msgs_sg_routed + (if d.relayed then 1 else 0);
  };
}

unfoldable pub transmit : Surroundings → Decision → Router → Router × List Effect
unfolding count_link
transmit env d r = if contact_null d.next_hop || not (env.forwards d.message) then (r, []) else (
  record r {
    statistics = record (r.statistics) {
      links = count_link (contact_id d.next_hop) count_xmit r.statistics.links;
    };
  },
  send_routed d.next_hop (serialize d.message) ∷ [],
)

unfoldable pub finish : Surroundings → Router → Option Decision → Router × List Effect
unfolding counted transmit
finish env r none = (r, [])
finish env r (some d) = transmit env d (counted d r)

-- A message for this node: one that came over a link teaches the address of its source.
unfoldable pub receive_local : Surroundings → Router → RoutedMessage → Router × List Effect
receive_local env r m =
    let stored =
      store_addresses env.name_indices env.now env.timestamp m.source_node_id
        (m.source_address ∷ []) cache r.names in
    if is_null m.origin_link_id
    then (r, post_delivery m ∷ [])
    else if address_null m.source_address
    then (r, deliver m ∷ [])
    else (record r { names = stored.0 }, map name_effect stored.1 ++ (deliver m ∷ []))

unfoldable pub route : Surroundings → Router → RoutedMessage → Router × List Effect
unfolding decide finish receive_local
route env r m =
    if not (message_valid m)
    then (r, [])
    else if id_eq m.destination_node_id r.routes.local_id
    then receive_local env r m
    else finish env r (decide env r m)

-- The branch of `messageReceived` for a routed message
unfoldable pub receive_routed :
    Surroundings → Router → WireMessage → NodeIdentifier → Router × List Effect
unfolding route count_link
receive_routed env r w originator =
    let seen = record r {
      statistics = record (r.statistics) {
        links = count_link originator count_rcvd r.statistics.links;
      };
    } in
    route env seen (process_hop (of_message w originator))
