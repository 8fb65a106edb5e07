-- ===== src/Social/SloppyGroup/Exchange.antt =====
-- The name records that a node sends to its peers, and those it receives.
use unisphere.Prelude.{
  ℕ, ◌+◌, ◌%◌, ◌^◌, Bool, true, false, not, ◌&&◌, ◌||◌, Option, some, none, List, [], ◌∷◌, ◌++◌,
  map, keep, find, ltb, leb, ◌==◌, if◌then◌else◌, length,
}
use unisphere.Prelude.Index.{OrderedIndex}
use unisphere.Identity.NodeIdentifier.{NodeIdentifier, id_eq, is_null, raw, bytes_eq}
use unisphere.Social.Address.{RoutingPath, LandmarkAddress, null_address}
use unisphere.Social.RoutingTable.Table.{RoutingTable}
use unisphere.Social.RoutingTable.Entry as Entry
use unisphere.Social.NameDatabase.Record as Names
use unisphere.Social.NameDatabase.Record.{NameRecord, NameDatabase, sloppy_group, new_record}
use unisphere.Social.NameDatabase.Store.{store_record}
use unisphere.Social.NameDatabase.Read.{diff}
use unisphere.Social.SloppyGroup.{
  SloppyPeer, sloppy_peer, peer_address, NameAnnounce, NameAggregationBuffer, SloppyGroup,
  GroupEffect, route_names, arm_names, schedule_diff, database_effect, hops_lt, find_peer, has_peer,
  insert_peer, erase_peer, in_own_group, get_local_peer_view,
}

-- `nibExportQueueRecord`
abbrev pub for_peer : NodeIdentifier → NameAggregationBuffer → Bool
for_peer id b = id_eq id b.peer.node_id

unfoldable pub put_name : NameAnnounce → List NameAnnounce → List NameAnnounce
put_name a bs = a ∷ keep (λ b. not (bytes_eq a.origin_id b.origin_id)) bs

abbrev pub named : NameAnnounce → NameAggregationBuffer → NameAggregationBuffer
named a b = record b { announces = put_name a b.announces; buffering = true }

unfoldable pub put_named :
    SloppyPeer → NameAnnounce → List NameAggregationBuffer → List NameAggregationBuffer × Bool
unfolding put_name
put_named p a [] = (named a (record { peer = p; announces = []; buffering = false }) ∷ [], true)
put_named p a (b ∷ bs) =
    let later = put_named p a bs in
    if for_peer p.node_id b then (named a b ∷ bs, not b.buffering) else (b ∷ later.0, later.1)

unfoldable pub queue_record :
    SloppyPeer → NameAnnounce → SloppyGroup → SloppyGroup × List GroupEffect
unfolding put_named
queue_record p a g =
    let put = put_named p a g.exports in
    (record g { exports = put.0 }, if put.1 then arm_names p.node_id ∷ [] else [])

-- `nibExportTransmitBuffer`
unfoldable pub names_emptied :
    NodeIdentifier → List NameAggregationBuffer → List NameAggregationBuffer
names_emptied id [] = []
names_emptied id (b ∷ bs) =
    let later = names_emptied id bs in
    if for_peer id b then record b { announces = []; buffering = false } ∷ bs else b ∷ later

abbrev pub transmit_names_found :
    NodeIdentifier → Option NameAggregationBuffer → SloppyGroup → SloppyGroup × List GroupEffect
transmit_names_found id none g = (g, [])
transmit_names_found id (some b) g = (
  record g {
    exports = names_emptied id g.exports;
    record_xmits = g.record_xmits + length b.announces;
  },
  route_names b.peer.node_id (peer_address b.peer) b.announces ∷ [],
)

unfoldable pub transmit_names : Bool → NodeIdentifier → SloppyGroup → SloppyGroup × List GroupEffect
unfolding names_emptied
transmit_names error id g =
    if error then (g, []) else transmit_names_found id (find (for_peer id) g.exports) g

-- `nibExportRecord`
unfoldable pub name_announce : NameRecord → NameAnnounce
name_announce r = record {
  origin_id = raw r.node_id;
  timestamp = r.timestamp;
  seqno = r.seqno;
  addresses = map (λ (a : LandmarkAddress). (raw a.landmark_id, a.path)) r.addresses;
}

abbrev pub is_excluded : NameRecord → SloppyPeer → Bool
is_excluded r p = id_eq r.received_peer_id p.node_id || id_eq r.node_id p.node_id

unfoldable pub export_to_view :
    NameRecord → List SloppyPeer → SloppyGroup → SloppyGroup × List GroupEffect
unfolding queue_record name_announce
export_to_view r [] g = (g, [])
export_to_view r (p ∷ ps) g =
    let first = if is_excluded r p then (g, []) else queue_record p (name_announce r) g in
    let rest = export_to_view r ps first.0 in (rest.0, first.1 ++ rest.1)

unfoldable pub export_to_views :
    NameRecord → List SloppyPeer → SloppyGroup → SloppyGroup × List GroupEffect
unfolding export_to_view
export_to_views r near g =
    let first = export_to_view r near g in
    let second = export_to_view r g.foreign first.0 in
    let third = export_to_view r g.reverse second.0 in (third.0, first.1 ++ (second.1 ++ third.1))

unfoldable pub known_peer : NodeIdentifier → SloppyGroup → SloppyPeer
unfolding find_peer
known_peer id g = elim (find_peer id g.foreign) [
  | some p ↦ p
  | none ↦ elim (find_peer id g.reverse) [ some p ↦ p | none ↦ sloppy_peer id null_address 0 ]
]

unfoldable pub export_name :
    List SloppyPeer → NameRecord → NodeIdentifier → SloppyGroup → SloppyGroup × List GroupEffect
unfolding export_to_views known_peer
export_name near r id g =
    if is_null id
    then export_to_views r near g
    else if id_eq r.node_id id
    then (g, [])
    else queue_record (known_peer id g) (name_announce r) g

-- What the name database tells while it stores a record; only the export is heard here.
unfoldable pub hear :
    List SloppyPeer → List Names.Effect → SloppyGroup → SloppyGroup × List GroupEffect
unfolding export_name
hear near [] g = (g, [])
hear near (Names.export_record r id ∷ es) g =
    let first = export_name near r id g in
    let rest = hear near es first.0 in (rest.0, first.1 ++ rest.1)
hear near (e ∷ es) g = let rest = hear near es g in (rest.0, database_effect e ∷ rest.1)

-- A received announcement as a record of its source, whose sequence number is cut to 8 bits
unfoldable pub announced_record : NodeIdentifier → NameAnnounce → NameRecord
announced_record source a = record (new_record (record { identifier = a.origin_id }) sloppy_group) {
  received_peer_id = source;
  timestamp = a.timestamp;
  seqno = a.seqno % 2 ^ 8;
  addresses =
      map
        (λ (x : List ℕ × RoutingPath). record {
          landmark_id = record { identifier = x.0 };
          path = x.1;
        })
        a.addresses;
}

-- What a delivery has of the world: the indices, the slots that filter records, and the clock
pub record GroupSurroundings : Type 0 where
  pub table_indices : Entry.Indices
  pub database_indices : Names.Indices
  pub by_hops : OrderedIndex hops_lt
  pub accepts : NameRecord → Bool
  pub now : ℕ

pub record Delivered : Type 0 where
  pub group : SloppyGroup
  pub names : NameDatabase
  pub effects : List GroupEffect

-- The loop over the announcements: those from outside the group are dropped.
unfoldable pub store_announced :
    GroupSurroundings
    → List SloppyPeer
    → NodeIdentifier
    → List NameAnnounce
    → SloppyGroup
    → NameDatabase
    → Delivered
unfolding announced_record hear
store_announced env near source [] g db = record { group = g; names = db; effects = [] }
store_announced env near source (a ∷ more) g db =
    let r = announced_record source a in
    let stored = store_record env.accepts env.now r db in
    let heard = hear near stored.1 g in
    let after = store_announced env near source more heard.0 stored.0 in
    let skipped = store_announced env near source more g db in
    if in_own_group r.node_id g
    then record { group = after.group; names = after.names; effects = heard.1 ++ after.effects }
    else skipped

-- `sourceSummary`: the first announcement of an origin
unfoldable pub summary :
    NodeIdentifier → List NameAnnounce → SloppyGroup → NodeIdentifier → Option NameRecord
unfolding announced_record
summary source [] g id = none
summary source (a ∷ more) g id =
    let r = announced_record source a in
    let later = summary source more g id in
    if in_own_group r.node_id g && id_eq id r.node_id then some r else later

-- The reverse view takes a peer while it has room, and otherwise in place of its farthest one.
abbrev pub last_peer : List SloppyPeer → Option SloppyPeer
last_peer [] = none
last_peer (p ∷ []) = some p
last_peer (p ∷ q ∷ ps) = last_peer (q ∷ ps)

unfoldable pub replaced : SloppyPeer → Option SloppyPeer → SloppyGroup → SloppyGroup × Bool
replaced p none g = (g, false)
replaced p (some far) g =
    if ltb p.hops far.hops
    then (record g { reverse = insert_peer p (erase_peer far.node_id g.reverse) }, true)
    else (g, false)

unfoldable pub backlink :
    OrderedIndex hops_lt → List SloppyPeer → SloppyPeer → SloppyGroup → SloppyGroup × Bool
unfolding insert_peer replaced
backlink index near p g =
    if has_peer p.node_id near || has_peer p.node_id g.reverse
    then (g, false)
    else if leb g.max_peer_view_size (length g.reverse)
    then replaced p (last_peer (index.view g.reverse)) g
    else (record g { reverse = insert_peer p g.reverse }, true)

-- `messageDelivery`, for a message of the group's component that announces names
unfoldable pub names_delivered :
    GroupSurroundings
    → NodeIdentifier
    → LandmarkAddress
    → ℕ
    → List NameAnnounce
    → RoutingTable
    → SloppyGroup
    → NameDatabase
    → Delivered
unfolding store_announced summary backlink get_local_peer_view
names_delivered env source address distance announces t g db =
    let near = get_local_peer_view env.table_indices t g in
    let counted = record g { record_rcvd = g.record_rcvd + length announces } in
    let stored = store_announced env near source announces counted db in
    let linked = backlink env.by_hops near (sloppy_peer source address distance) stored.group in
    let news = diff env.database_indices (summary source announces g) stored.names in
    record {
      group = linked.0;
      names = stored.names;
      effects =
          stored.effects
          ++ (if linked.1 && ltb 0 (length news) then schedule_diff news source ∷ [] else []);
    }

unfoldable pub message_delivered :
    GroupSurroundings
    → ℕ
    → ℕ
    → NodeIdentifier
    → LandmarkAddress
    → ℕ
    → List NameAnnounce
    → RoutingTable
    → SloppyGroup
    → NameDatabase
    → Delivered
unfolding names_delivered in_own_group
message_delivered env component type source address distance announces t g db =
    let nothing : Delivered = record { group = g; names = db; effects = [] } in
    if not (component == 2) || not (type == 1)
    then nothing
    else if not (in_own_group source g) || distance == 0
    then nothing
    else names_delivered env source address distance announces t g db
