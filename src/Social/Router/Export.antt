-- ===== src/Social/Router/Export.antt =====
-- The announcements and retractions that the router sends, and the buffers that gather announcements, from
-- src/social/compact_router.cpp.
pub mod Buffers
use unisphere.Prelude.{
  ℕ, zero, suc, ◌+◌, Bool, true, false, not, ◌&&◌, Option, some, none, List, [], ◌∷◌, ◌++◌, map,
  ◌==◌, if◌then◌else◌, length, find, keep,
}
use unisphere.Identity.NodeIdentifier.{NodeIdentifier, id_eq, is_null, bytes_eq}
use unisphere.Interplex.Contact.{Contact, contact_id}
use unisphere.Social.Peer.{
  Peer, peer_id, select_peer_security_association, get_private_security_association,
}
use unisphere.Social.SocialIdentity.{SocialIdentity, get_peer}
use unisphere.Social.RoutingTable.Entry.{RoutingEntry, origin_vport}
use unisphere.Social.RoutingTable.Table.{get_vport_for_neighbor, get_neighbor_for_vport}
use unisphere.Social.RoutingTable.Table as Table
use unisphere.Social.RoutingTable.Read.{full_update}
use unisphere.Social.NameDatabase.Record.{sloppy_group}
use unisphere.Social.NameDatabase.Store.{store_addresses}
use unisphere.Social.Router.State.{
  Router, Surroundings, Cryptography, PathAnnounce, AggregationBuffer, count_updates, Effect,
  send_sa_invalid, send_sa_flush, send_announce, send_retract, send_refresh, name_effect,
  table_effect, arm_export, arm_announce,
}
use unisphere.Social.Router.Delegation.{sign_subkey}

-- `m_ribExportAggregate.find`
abbrev pub for_node : NodeIdentifier → AggregationBuffer → Bool
for_node id b = id_eq id (contact_id b.contact)

abbrev pub of_key : List ℕ → PathAnnounce → Bool
of_key key a = bytes_eq key a.public_key

-- `buffer->announces[key] = announce`
unfoldable pub put_announce : PathAnnounce → List PathAnnounce → List PathAnnounce
put_announce a bs = a ∷ keep (λ b. not (of_key a.public_key b)) bs

unfoldable pub buffered : PathAnnounce → AggregationBuffer → AggregationBuffer
unfolding put_announce
buffered a b = record b { announces = put_announce a b.announces; buffering = true }

abbrev pub new_buffer : Contact → AggregationBuffer
new_buffer c = record { contact = c; announces = []; buffering = false }

-- The buffer of a contact, made where it is missing, with one more announcement; the second component
-- tells whether its timer has to start.
unfoldable pub put_buffered :
    Contact → PathAnnounce → List AggregationBuffer → List AggregationBuffer × Bool
unfolding buffered
put_buffered c a [] = (buffered a (new_buffer c) ∷ [], true)
put_buffered c a (b ∷ bs) =
    let later = put_buffered c a bs in
    if for_node (contact_id c) b
    then (buffered a b ∷ bs, not b.buffering)
    else (b ∷ later.0, later.1)

-- `ribExportQueueAnnounce`
unfoldable pub queue_announce : Contact → PathAnnounce → Router → Router × List Effect
unfolding put_buffered
queue_announce c a r =
    let put = put_buffered c a r.exports in
    (record r { exports = put.0 }, if put.1 then arm_export (contact_id c) ∷ [] else [])

-- `ribExportTransmitBuffer`, for the buffer of a node; `error` is set when the timer was cancelled.
unfoldable pub emptied : NodeIdentifier → List AggregationBuffer → List AggregationBuffer
emptied id [] = []
emptied id (b ∷ bs) =
    let later = emptied id bs in
    if for_node id b then record b { announces = []; buffering = false } ∷ bs else b ∷ later

unfoldable pub transmit_found :
    NodeIdentifier → Option AggregationBuffer → Router → Router × List Effect
unfolding emptied
transmit_found id none r = (r, [])
transmit_found id (some b) r = (
  record r {
    exports = emptied id r.exports;
    statistics = record (r.statistics) {
      entry_xmits = r.statistics.entry_xmits + length b.announces;
    };
  },
  send_announce b.contact b.announces ∷ [],
)

unfoldable pub transmit_buffer : Bool → NodeIdentifier → Router → Router × List Effect
unfolding transmit_found
transmit_buffer error id r =
    if error then (r, []) else transmit_found id (find (for_node id) r.exports) r

-- What is left of a call after a call that it makes; `none` stands for a null pointer that is followed.
abbrev pub Called : Type 0
Called = Option (Router × List Effect)

abbrev pub and_then : Called → (Router → Called) → Called
and_then none f = none
and_then (some o) f = elim (f o.0) [ none ↦ none | some q ↦ some (q.0, o.1 ++ q.1) ]

-- The announcement of an entry for a neighbour: its vport ends the reverse path, and a delegation to the
-- neighbour's association ends the chain, signed with the association that the entry was delegated to.
unfoldable pub export_announce : Cryptography → RoutingEntry → List ℕ → ℕ → PathAnnounce
export_announce c e sa vport = record {
  public_key = e.public_key;
  forward_path = e.forward_path;
  reverse_path = e.reverse_path ++ (vport ∷ []);
  landmark = e.landmark;
  seqno = e.seqno;
  delegation_chain = e.delegations ++ (c.sign e.sa_key (c.encode sa) ∷ []);
}

-- A neighbour that has given no association is asked for one.
unfoldable pub ask_associations : Peer → Router → Router × List Effect
ask_associations p r =
    (record r { statistics = count_updates 1 r.statistics }, send_sa_flush p.contact ∷ [])

unfoldable pub export_with :
    Surroundings → RoutingEntry → Peer → Option (List ℕ) → Router → Router × List Effect
unfolding ask_associations queue_announce export_announce
export_with env e p none r = ask_associations p r
export_with env e p (some sa) r =
    let assigned = get_vport_for_neighbor (peer_id p) r.routes in
    let known = record r { routes = assigned.1 } in
    if assigned.0 == origin_vport e
    then (known, [])
    else queue_announce p.contact (export_announce env.crypto e sa assigned.0) known

unfoldable pub export_to : Surroundings → RoutingEntry → Peer → Router → Router × List Effect
unfolding export_with
export_to env e p r =
    export_with env e p (select_peer_security_association (env.random r.entropy) p)
      (record r { entropy = r.entropy + 1 })

unfoldable pub export_all : Surroundings → RoutingEntry → List Peer → Router → Router × List Effect
unfolding export_to
export_all env e [] r = (r, [])
export_all env e (p ∷ ps) r =
    let first = export_to env e p r in
    let rest = export_all env e ps first.0 in (rest.0, first.1 ++ rest.1)

unfoldable pub export_delegated : Surroundings → RoutingEntry → NodeIdentifier → Router → Called
unfolding export_all
export_delegated env e peer r =
    if is_null peer
    then some (export_all env e r.identity.peers r)
    else elim (get_peer peer r.identity) [ none ↦ none | some p ↦ some (export_to env e p r) ]

-- `ribExportEntry`, from the peer that the entry came from
unfoldable pub export_from : Surroundings → RoutingEntry → NodeIdentifier → Peer → Router → Called
unfolding export_delegated
export_from env e peer incoming r = elim (get_private_security_association e.sa_key incoming) [
  | none ↦ some (
    record r { statistics = count_updates 1 r.statistics },
    send_sa_invalid incoming.contact e.sa_key ∷ [],
  )
  | some key ↦ export_delegated env e peer r
]

unfoldable pub rib_export_entry : Surroundings → RoutingEntry → NodeIdentifier → Router → Called
unfolding export_from
rib_export_entry env e peer r =
    elim (get_peer (get_neighbor_for_vport (origin_vport e) r.routes) r.identity) [
      | none ↦ none
      | some incoming ↦ export_from env e peer incoming r
    ]

-- `ribRetractEntry`
unfoldable pub retract_to : RoutingEntry → List Peer → Router → Router × List Effect
retract_to e [] r = (r, [])
retract_to e (p ∷ ps) r =
    let assigned = get_vport_for_neighbor (peer_id p) r.routes in
    let rest = retract_to e ps (record r { routes = assigned.1 }) in
    (
      rest.0,
      (if assigned.0 == origin_vport e then [] else send_retract p.contact e.destination ∷ [])
          ++ rest.1,
    )

unfoldable pub rib_retract_entry : RoutingEntry → Router → Router × List Effect
unfolding retract_to
rib_retract_entry e r = retract_to e r.identity.peers r

-- What the signals of the routing table do. Their slots read and change the table's vports only, which the
-- operations that raise them do not read, so that they are run after an operation, in order.
unfoldable pub perform_one : Surroundings → Table.Effect → Router → Called
unfolding rib_export_entry rib_retract_entry
perform_one env (Table.export_entry e peer) r = rib_export_entry env e peer r
perform_one env (Table.retract_entry e) r = some (rib_retract_entry e r)
perform_one env (Table.address_changed addresses) r =
    let stored =
      store_addresses env.name_indices env.now env.timestamp r.identity.local_id addresses
        sloppy_group r.names in
    some (
      record r { names = stored.0 },
      map name_effect stored.1 ++ (table_effect (Table.address_changed addresses) ∷ []),
    )
perform_one env (Table.landmark_learned id) r =
    some (r, table_effect (Table.landmark_learned id) ∷ [])
perform_one env (Table.landmark_removed id) r =
    some (r, table_effect (Table.landmark_removed id) ∷ [])
perform_one env (Table.vicinity_learned id hops) r =
    some (r, table_effect (Table.vicinity_learned id hops) ∷ [])
perform_one env (Table.vicinity_removed id) r =
    some (r, table_effect (Table.vicinity_removed id) ∷ [])
perform_one env (Table.arm_expiry e) r = some (r, table_effect (Table.arm_expiry e) ∷ [])

unfoldable pub perform : Surroundings → List Table.Effect → Router → Called
unfolding perform_one
perform env [] r = some (r, [])
perform env (e ∷ es) r = and_then (perform_one env e r) (perform env es)
