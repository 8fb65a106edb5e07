-- ===== src/Social/RoutedMessage.antt =====
-- src/social/routed_message.h and routed_message.cpp: messages on their way through the overlay, and
-- their wire form, the fields of `message RoutedMessage` in src/social/messages.proto. The payload is
-- already serialized; Protocol Buffers' own byte format is not modelled.
pub mod Hops
pub mod Wire
pub mod Examples
use unisphere.Prelude.{
  ℕ, zero, suc, ◌+◌, ◌-◌, ◌%◌, ◌^◌, ◌≤◌, ◌<◌, ◌≡◌, refl, Bool, true, false, ◌&&◌, Option, none,
  some, List, [], ltb, if◌then◌else◌, arith,
}
use unisphere.Identity.NodeIdentifier.{NodeIdentifier, is_valid, is_null, raw}
use unisphere.Social.Address.{RoutingPath, LandmarkAddress, null_address, shift}

pub record RoutingOptions : Type 0 where
  pub direct_delivery : Bool
  pub hop_limit : ℕ
  pub track_hop_distance : Bool

-- the default constructor
abbrev pub default_options : RoutingOptions
default_options = record { direct_delivery = false; hop_limit = 30; track_hop_distance = false }

pub record RoutedMessage : Type 0 where
  pub source_address : LandmarkAddress
  pub source_node_id : NodeIdentifier
  pub source_comp_id : ℕ
  pub destination_address : LandmarkAddress
  pub destination_node_id : NodeIdentifier
  pub destination_comp_id : ℕ
  pub hop_limit : ℕ
  pub hop_distance : ℕ
  pub delivery_mode : Bool
  pub payload_type : ℕ
  pub payload : List ℕ
  pub origin_link_id : NodeIdentifier
  pub options : RoutingOptions

-- the constructor for a message that starts here
unfoldable pub originate :
    LandmarkAddress
    → NodeIdentifier
    → ℕ
    → LandmarkAddress
    → NodeIdentifier
    → ℕ
    → ℕ
    → List ℕ
    → RoutingOptions
    → RoutedMessage
originate source_address source source_comp address destination destination_comp type payload opts =
    record {
      source_address = source_address;
      source_node_id = source;
      source_comp_id = source_comp;
      destination_address = address;
      destination_node_id = destination;
      destination_comp_id = destination_comp;
      hop_limit = opts.hop_limit;
      hop_distance = if opts.track_hop_distance then 1 else 0;
      delivery_mode = false;
      payload_type = type;
      payload = payload;
      origin_link_id = record { identifier = [] };
      options = opts;
    }

-- `isValid()`
unfoldable pub message_valid : RoutedMessage → Bool
message_valid m = is_valid m.source_node_id && is_valid m.destination_node_id && ltb 0 m.hop_limit

-- Both counters are `std::uint8_t`: the distance wraps, and a limit of 0 stays.
unfoldable pub process_hop : RoutedMessage → RoutedMessage
process_hop m = record m {
  hop_limit = if ltb 0 m.hop_limit then m.hop_limit - 1 else m.hop_limit;
  hop_distance = if ltb 0 m.hop_distance then (m.hop_distance + 1) % 2 ^ 8 else m.hop_distance;
}

unfoldable pub process_source_route_hop : RoutedMessage → RoutedMessage
process_source_route_hop m =
    if m.delivery_mode then record m { destination_address = shift m.destination_address } else m

-- `Protocol::RoutedMessage`
pub record WireMessage : Type 0 where
  pub source_landmark : List ℕ
  pub source_address : List ℕ
  pub source_node : List ℕ
  pub source_comp : ℕ
  pub destination_landmark : Option (List ℕ)
  pub destination_address : List ℕ
  pub destination_node : List ℕ
  pub destination_comp : ℕ
  pub hop_limit : ℕ
  pub hop_distance : Option ℕ
  pub delivery : Bool
  pub type : ℕ
  pub payload : List ℕ

unfoldable pub serialize : RoutedMessage → WireMessage
serialize m = record {
  source_landmark = raw m.source_address.landmark_id;
  source_address = m.source_address.path;
  source_node = raw m.source_node_id;
  source_comp = m.source_comp_id;
  destination_landmark = some (raw m.destination_address.landmark_id);
  destination_address = m.destination_address.path;
  destination_node = raw m.destination_node_id;
  destination_comp = m.destination_comp_id;
  hop_limit = m.hop_limit;
  hop_distance = if ltb 0 m.hop_distance then some m.hop_distance else none;
  delivery = m.delivery_mode;
  type = m.payload_type;
  payload = m.payload;
}

abbrev pub wire_destination : Option (List ℕ) → RoutingPath → LandmarkAddress
wire_destination none path = null_address
wire_destination (some id) path = record { landmark_id = record { identifier = id }; path = path }

abbrev pub wire_distance : Option ℕ → ℕ
wire_distance none = 0
wire_distance (some d) = d

-- The constructor from a received message; the two counters are cut to 8 bits.
unfoldable pub of_message : WireMessage → NodeIdentifier → RoutedMessage
of_message w originator = record {
  source_address = record {
    landmark_id = record { identifier = w.source_landmark };
    path = w.source_address;
  };
  source_node_id = record { identifier = w.source_node };
  source_comp_id = w.source_comp;
  destination_address = wire_destination w.destination_landmark w.destination_address;
  destination_node_id = record { identifier = w.destination_node };
  destination_comp_id = w.destination_comp;
  hop_limit = w.hop_limit % 2 ^ 8;
  hop_distance = wire_distance w.hop_distance % 2 ^ 8;
  delivery_mode = w.delivery;
  payload_type = w.type;
  payload = w.payload;
  origin_link_id = originator;
  options = default_options;
}
