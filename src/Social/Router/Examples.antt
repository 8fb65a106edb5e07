-- ===== src/Social/Router/Examples.antt =====
-- The router at concrete values: a node with one peer, through which it has a route.
use unisphere.Prelude.{
  List, some, none, Option, true, false, ◌++◌, ◌==◌, if◌then◌else◌, ℕ, ◌+◌, ◌≡◌, ◌≤◌, ◌<◌, refl,
  subst, sym, ◌∙◌, arith, inl, inr, [], ◌∷◌, replicate, In,
}
use unisphere.Prelude.Index.{sorted_index, sort, insert_sorted}
use unisphere.Identity.NodeIdentifier.{NodeIdentifier, id_eq, is_valid}
use unisphere.Interplex.Contact.{Contact, contact_null, key_null, contact_id, key_node_id}
use unisphere.Social.RoutedMessage.{
  RoutedMessage, WireMessage, message_valid, process_hop, of_message, serialize,
}
use unisphere.Social.Peer.{peer_id}
use unisphere.Social.SocialIdentity.{get_peer, get_peer_contact}
use unisphere.Social.RoutingTable.Entry.{RoutingEntry, front_vport}
use unisphere.Social.RoutingTable.Table.{no_statistics, get_neighbor_for_vport}
use unisphere.Social.RoutingTable.Read.{get_active_route}
use unisphere.Social.RoutingTable.Routed.{IsRouted}
use unisphere.Social.RoutingTable.Examples as Routes
use unisphere.Social.NameDatabase.Examples as Names
use unisphere.Social.NameDatabase.Record as Records
use unisphere.Social.Router.State.{
  Cryptography, Router, Surroundings, count_link, count_rcvd, send_routed,
}
use unisphere.Social.Router.Route.{route_contact, direct_stage, route, receive_routed}
use unisphere.Social.Router.Stages.{route_direct}
use unisphere.Social.Router.Direct.{IsSourceRouted, route_by_table}
use unisphere.Social.Router.Forward.{IsForwarded, route-IsForwarded}
use unisphere.Social.Router.Journey.{
  IsHop, hop, here, further, limit, IsKept, journey_ends, journey-IsKept,
}

abbrev pub node : ℕ → NodeIdentifier
node b = record { identifier = replicate 20 b }

abbrev pub friend : Contact
friend = record { peer_key = record { bytes = 8 ∷ []; hashed = node 8 }; addresses = [] }

-- The route to node 3 that the peer announced
abbrev pub announced : RoutingEntry
announced = record {
  destination = node 3;
  public_key = [];
  delegations = [];
  sa_key = [];
  forward_path = 0 ∷ [];
  reverse_path = [];
  landmark = false;
  vicinity = true;
  extended_vicinity = false;
  seqno = 1;
  cost = 1;
  active = true;
  last_update = 0;
}

abbrev pub router : Router
router = record {
  identity = record {
    local_id = node 1;
    peers = record { contact = friend; peer_sa = []; private_sa = [] } ∷ [];
    sa_cache = [];
  };
  routes = record {
    local_id = node 1;
    rib = announced ∷ [];
    vport_map = record { neighbor = node 8; vport = 0 } ∷ [];
    next_vport = 1;
    local_address = [];
    landmark = false;
    statistics = no_statistics;
  };
  names = Records.init (node 1);
  statistics = record {
    links = [];
    entry_xmits = 0;
    sa_update_xmits = 0;
    msgs_landmark_routed = 0;
    msgs_sg_routed = 0;
  };
  seqno = 1;
  exports = [];
  force_landmark = false;
  entropy = 0;
}

abbrev pub opened : List ℕ → List ℕ → Option (List ℕ)
opened [] message = none
opened (k ∷ key) [] = none
opened (k ∷ key) (b ∷ message) = if k == b then some message else none

-- A library whose signatures carry the key in front of the message
abbrev pub crypto : Cryptography
crypto = record {
  sign_key_size = 1;
  peer_key_size = 2;
  hash = λ key. node 7;
  sign_open = opened;
  sign = λ key message. key ++ message;
  encode = λ key. key;
  decode = λ message. some message;
  local_key = 1 ∷ 1 ∷ [];
}

abbrev pub surroundings : Surroundings
surroundings = record {
  environment = record {
    indices = Routes.indices;
    accepts = λ e. true;
    maximum_vicinity_size = 2;
    maximum_bucket_size = 1;
    group_prefix_length = 4;
  };
  name_indices = Names.indices;
  now = 5;
  timestamp = 5;
  forwards = λ m. true;
  crypto = crypto;
  random = λ n limit. 0;
  generate = λ n. n ∷ [];
}

-- From node 7 to node 3, received over the link of node 7
abbrev sent : WireMessage
sent = record {
  source_landmark = [];
  source_address = [];
  source_node = replicate 20 7;
  source_comp = 1;
  destination_landmark = none;
  destination_address = [];
  destination_node = replicate 20 3;
  destination_comp = 1;
  hop_limit = 30;
  hop_distance = none;
  delivery = false;
  type = 1;
  payload = 42 ∷ [];
}

abbrev received : RoutedMessage
received = process_hop (of_message sent (node 7))

abbrev onward : WireMessage
onward = serialize (direct_stage surroundings router received).message

abbrev recipient : Contact
recipient = route_contact surroundings router (node 3)

received-valid : message_valid received ≡ true
unfolding message_valid process_hop of_message is_valid
received-valid = refl

received-foreign : id_eq received.destination_node_id router.routes.local_id ≡ false
unfolding process_hop of_message id_eq
received-foreign = refl

recipient-known : contact_null recipient ≡ false
unfolding contact_null key_null route_contact get_active_route Routes.indices sorted_index sort
    insert_sorted get_neighbor_for_vport get_peer_contact get_peer peer_id contact_id key_node_id
    id_eq is_valid front_vport
recipient-known = refl

received_sent : (route surroundings router received).1 ≡ send_routed recipient onward ∷ []
unfolding process_hop of_message
received_sent =
    route_direct surroundings router received received-valid received-foreign recipient-known refl

-- The same node with a path of two hops
abbrev far : RoutingEntry
far = record announced { forward_path = 0 ∷ 4 ∷ [] }

abbrev distant : Router
distant = record router { routes = record (router.routes) { rib = far ∷ [] } }

only : (x : RoutingEntry) → In x (far ∷ []) → x ≡ far
only x (inl e) = e
only x (inr m) = absurd m

far-IsRouted : IsRouted (far ∷ [])
far-IsRouted = record {
  unique = λ a b ma mb s. only a ma ∙ sym (only b mb);
  single = λ a b ma mb oa ob g. only a ma ∙ sym (only b mb);
  served = λ e m p. rw (only e m) (far, inl refl, refl, refl, omega arith);
}

distant_neighbor : get_neighbor_for_vport 0 distant.routes ≡ node 8
unfolding get_neighbor_for_vport
distant_neighbor = refl

distant_peer :
    get_peer (node 8) distant.identity
    ≡ some (record { contact = friend; peer_sa = []; private_sa = [] })
unfolding get_peer peer_id contact_id key_node_id key_null id_eq
distant_peer = refl

node-valid : is_valid (node 8) ≡ true
unfolding is_valid
node-valid = refl

friend-known : contact_null friend ≡ false
unfolding contact_null key_null
friend-known = refl

route_by_table_example :
    (n : RoutedMessage) × ((route surroundings distant received).1
      ≡ send_routed friend (serialize n) ∷ [])
    × IsSourceRouted surroundings distant received 0 (4 ∷ []) n
unfolding process_hop of_message
route_by_table_example =
    route_by_table surroundings distant received far 0 (4 ∷ []) (node 8)
      (record { contact = friend; peer_sa = []; private_sa = [] }) received-valid received-foreign
      far-IsRouted (inl refl) refl refl refl distant_neighbor node-valid distant_peer friend-known
      (λ n. refl)

sent_on : In (send_routed recipient onward) (route surroundings router received).1
sent_on = subst (λ es. In (send_routed recipient onward) es) (sym received_sent) (inl refl)

route-IsForwarded_example : IsForwarded router received recipient onward
route-IsForwarded_example = route-IsForwarded surroundings router received recipient onward sent_on

-- One hop of the message, through this node
abbrev counting : Router
counting = record router {
  statistics = record (router.statistics) { links = count_link (node 7) count_rcvd [] };
}

first-IsHop : IsHop sent onward
unfolding receive_routed direct_stage route_contact process_hop of_message
first-IsHop = hop surroundings router (node 7) recipient (
    subst (λ es. In (send_routed recipient onward) es)
      (sym (
        route_direct surroundings counting received received-valid received-foreign recipient-known
          refl))
      (inl refl))

journey_ends_example : (1 + limit onward ≤ limit sent) × (1 < 256)
journey_ends_example = journey_ends (further here first-IsHop)

journey-IsKept_example : IsKept sent onward
journey-IsKept_example = journey-IsKept (further here first-IsHop)
