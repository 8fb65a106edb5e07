-- ===== src/Social/SloppyGroup.antt =====
-- src/social/sloppy_group.cpp: the exchange of name records between the members of a sloppy group. The
-- peer views are lists; their index by hops is a parameter (unisphere.Prelude.Index). The name database
-- and the routing table are handed to the operations that read or change them.
pub mod Exchange
pub mod Views
pub mod Announced
pub mod Examples
use unisphere.Prelude.{
  ℕ, ◌+◌, Bool, true, false, not, ◌&&◌, ◌||◌, Option, some, none, List, [], ◌∷◌, ◌++◌, map, keep,
  find, ltb, leb, if◌then◌else◌, length,
}
use unisphere.Prelude.Index.{OrderedIndex}
use unisphere.Identity.NodeIdentifier.{
  NodeIdentifier, invalid, id_eq, is_null, raw, prefix, bytes_eq,
}
use unisphere.Social.Address.{RoutingPath, LandmarkAddress, null_address}
use unisphere.Social.RoutingTable.Table.{RoutingTable}
use unisphere.Social.RoutingTable.Entry as Entry
use unisphere.Social.RoutingTable.Read.{get_vicinity}
use unisphere.Social.NameDatabase.Record as Names
use unisphere.Social.NameDatabase.Record.{NameRecord}

pub record SloppyPeer : Type 0 where
  pub node_id : NodeIdentifier
  pub addresses : List LandmarkAddress
  pub hops : ℕ

-- The constructor from an identifier, an address and a number of hops
abbrev pub sloppy_peer : NodeIdentifier → LandmarkAddress → ℕ → SloppyPeer
sloppy_peer id a hops = record { node_id = id; addresses = a ∷ []; hops = hops }

unfoldable pub peer_address : SloppyPeer → LandmarkAddress
peer_address p = elim p.addresses [ [] ↦ null_address | a ∷ rest ↦ a ]

-- `Protocol::NameAnnounce`, with the identifiers of its landmarks as bytes
pub record NameAnnounce : Type 0 where
  pub origin_id : List ℕ
  pub timestamp : ℕ
  pub seqno : ℕ
  pub addresses : List (List ℕ × RoutingPath)

pub record NameAggregationBuffer : Type 0 where
  pub peer : SloppyPeer
  pub announces : List NameAnnounce
  pub buffering : Bool

pub record SloppyGroup : Type 0 where
  pub local_id : NodeIdentifier
  pub foreign : List SloppyPeer
  pub reverse : List SloppyPeer
  pub exports : List NameAggregationBuffer
  pub group_prefix_length : ℕ
  pub group_prefix : NodeIdentifier
  pub max_peer_view_size : ℕ
  pub record_xmits : ℕ
  pub record_rcvd : ℕ

-- What the group asks of others: a message to a node, by its address, the timer of a buffer, an update of
-- the name database to a node after a delay, the maintenance, and what the database asks.
pub data GroupEffect : Type 0 where
  route_names : NodeIdentifier → LandmarkAddress → List NameAnnounce → GroupEffect
  arm_names : NodeIdentifier → GroupEffect
  schedule_update : NodeIdentifier → GroupEffect
  schedule_diff : List NodeIdentifier → NodeIdentifier → GroupEffect
  maintain : GroupEffect
  database_effect : Names.Effect → GroupEffect

abbrev pub hops_lt : SloppyPeer → SloppyPeer → Bool
hops_lt p q = ltb p.hops q.hops

-- The peer views
abbrev pub is_peer_node : NodeIdentifier → SloppyPeer → Bool
is_peer_node id p = id_eq id p.node_id

unfoldable pub find_peer : NodeIdentifier → List SloppyPeer → Option SloppyPeer
find_peer id ps = find (is_peer_node id) ps

abbrev pub has_peer : NodeIdentifier → List SloppyPeer → Bool
has_peer id [] = false
has_peer id (p ∷ ps) = is_peer_node id p || has_peer id ps

unfoldable pub insert_peer : SloppyPeer → List SloppyPeer → List SloppyPeer
insert_peer p ps = if has_peer p.node_id ps then ps else p ∷ ps

abbrev pub erase_peer : NodeIdentifier → List SloppyPeer → List SloppyPeer
erase_peer id ps = keep (λ p. not (is_peer_node id p)) ps

unfoldable pub in_own_group : NodeIdentifier → SloppyGroup → Bool
in_own_group id g = id_eq (prefix id g.group_prefix_length 0) g.group_prefix

-- `getLocalPeerView`
unfoldable pub group_peers : SloppyGroup → List (NodeIdentifier × ℕ) → List SloppyPeer
unfolding in_own_group insert_peer
group_peers g [] = []
group_peers g (v ∷ vs) =
    let later = group_peers g vs in
    if in_own_group (v.0) g then insert_peer (sloppy_peer (v.0) null_address (v.1)) later else later

unfoldable pub get_local_peer_view : Entry.Indices → RoutingTable → SloppyGroup → List SloppyPeer
unfolding group_peers
get_local_peer_view indices t g = group_peers g (get_vicinity indices t)

-- `networkSizeEstimateChanged`, with the prefix length and the rounded square of the logarithm
unfoldable pub group_size_changed : ℕ → ℕ → SloppyGroup → SloppyGroup × List GroupEffect
group_size_changed bits size g = (
  record g {
    group_prefix_length = bits;
    group_prefix = prefix g.local_id bits 0;
    max_peer_view_size = if ltb size 4 then 4 else size;
  },
  maintain ∷ [],
)

-- `ribVicinityLearned`
unfoldable pub vicinity_arrived : NodeIdentifier → SloppyGroup → SloppyGroup × List GroupEffect
unfolding in_own_group
vicinity_arrived id g =
    if not (in_own_group id g)
    then (g, [])
    else if has_peer id g.reverse
    then (record g { reverse = erase_peer id g.reverse }, [])
    else (g, schedule_update id ∷ [])

-- `shutdown`
unfoldable pub views_cleared : SloppyGroup → SloppyGroup
views_cleared g = record g { foreign = []; reverse = [] }
