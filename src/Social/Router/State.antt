-- ===== src/Social/Router/State.antt =====
-- The state of the router and what it tells others. The counters of a link are kept in the order in
-- which the links were first used; the source keeps them in a hash map.
use unisphere.Prelude.{Option, ℕ, ◌+◌, Bool, List, [], ◌∷◌, if◌then◌else◌}
use unisphere.Identity.NodeIdentifier.{NodeIdentifier, id_eq}
use unisphere.Interplex.Contact.{Contact}
use unisphere.Social.Address.{RoutingPath}
use unisphere.Social.RoutedMessage.{RoutedMessage, WireMessage}
use unisphere.Social.SocialIdentity.{SocialIdentity}
use unisphere.Social.RoutingTable.Table as Table
use unisphere.Social.RoutingTable.Table.{RoutingTable}
use unisphere.Social.RoutingTable.Import.{Environment}
use unisphere.Social.NameDatabase.Record as Names
use unisphere.Social.NameDatabase.Record.{NameDatabase}

pub record LinkStatistics : Type 0 where
  pub link : NodeIdentifier
  pub msg_xmits : ℕ
  pub msg_rcvd : ℕ

pub record Statistics : Type 0 where
  pub links : List LinkStatistics
  pub entry_xmits : ℕ
  pub sa_update_xmits : ℕ
  pub msgs_landmark_routed : ℕ
  pub msgs_sg_routed : ℕ

-- `Protocol::PathAnnounce`
pub record PathAnnounce : Type 0 where
  pub public_key : List ℕ
  pub forward_path : RoutingPath
  pub reverse_path : RoutingPath
  pub landmark : Bool
  pub seqno : ℕ
  pub delegation_chain : List (List ℕ)

-- The announcements that wait for a neighbour, at most one for a public key
pub record AggregationBuffer : Type 0 where
  pub contact : Contact
  pub announces : List PathAnnounce
  pub buffering : Bool

-- `entropy` counts what was drawn from the random generators.
pub record Router : Type 0 where
  pub identity : SocialIdentity
  pub routes : RoutingTable
  pub names : NameDatabase
  pub statistics : Statistics
  pub seqno : ℕ
  pub exports : List AggregationBuffer
  pub force_landmark : Bool
  pub entropy : ℕ

-- Keys and signatures: a private key is named by its public key. `sign_open` has no result where the
-- signature is invalid, and `decode` none where the bytes are no `Protocol::PathDelegation`.
pub record Cryptography : Type 0 where
  pub sign_key_size : ℕ
  pub peer_key_size : ℕ
  pub hash : List ℕ → NodeIdentifier
  pub sign_open : List ℕ → List ℕ → Option (List ℕ)
  pub sign : List ℕ → List ℕ → List ℕ
  pub encode : List ℕ → List ℕ
  pub decode : List ℕ → Option (List ℕ)
  pub local_key : List ℕ

-- What a call reads besides the state: the environment of the routing table, the indices of the name
-- database, its two clocks, what the slots of `signalForwardMessage` answer together, and by the count of draws an
-- index that is at most the one given and the public key of a new key pair.
pub record Surroundings : Type 0 where
  pub environment : Environment
  pub name_indices : Names.Indices
  pub now : ℕ
  pub timestamp : ℕ
  pub forwards : RoutedMessage → Bool
  pub crypto : Cryptography
  pub random : ℕ → ℕ → ℕ
  pub generate : ℕ → List ℕ

-- `links[id]`, which is created where it is missing, with one counter moved
abbrev pub count_xmit : LinkStatistics → LinkStatistics
count_xmit l = record l { msg_xmits = l.msg_xmits + 1 }

abbrev pub count_rcvd : LinkStatistics → LinkStatistics
count_rcvd l = record l { msg_rcvd = l.msg_rcvd + 1 }

-- `saUpdateXmits`
abbrev pub count_updates : ℕ → Statistics → Statistics
count_updates n s = record s { sa_update_xmits = s.sa_update_xmits + n }

unfoldable pub count_link :
    NodeIdentifier → (LinkStatistics → LinkStatistics) → List LinkStatistics → List LinkStatistics
count_link id f [] = f (record { link = id; msg_xmits = 0; msg_rcvd = 0 }) ∷ []
count_link id f (l ∷ ls) =
    let rest = count_link id f ls in if id_eq id l.link then f l ∷ ls else l ∷ rest

-- A message handed to the local components at once or through the event queue, a message sent to a
-- neighbour, what the name database and the routing table tell others, and the timers.
pub data Effect : Type 0 where
  deliver : RoutedMessage → Effect
  post_delivery : RoutedMessage → Effect
  send_routed : Contact → WireMessage → Effect
  send_sa_create : Contact → List ℕ → Effect
  send_sa_invalid : Contact → List ℕ → Effect
  send_sa_flush : Contact → Effect
  send_announce : Contact → List PathAnnounce → Effect
  send_retract : Contact → NodeIdentifier → Effect
  send_refresh : Contact → NodeIdentifier → Effect
  name_effect : Names.Effect → Effect
  table_effect : Table.Effect → Effect
  arm_export : NodeIdentifier → Effect
  arm_announce : Effect
