-- ===== src/Social/RoutingTable/Read.antt =====
-- Queries of the routing table, its expiry timer, and `clear`.
use unisphere.Prelude.{
  ℕ, ◌+◌, Bool, true, false, ◌&&◌, Option, some, none, List, [], ◌∷◌, map, ltb, if◌then◌else◌, keep,
  length, find, head?,
}
use unisphere.Identity.NodeIdentifier.{NodeIdentifier, invalid}
use unisphere.Social.Address.{RoutingPath, LandmarkAddress, null_address}
use unisphere.Social.RoutingTable.Entry.{RoutingEntry, Indices, hops, origin_vport, to_destination}
use unisphere.Social.RoutingTable.Table.{
  RoutingTable, Effect, export_entry, no_statistics, get_neighbor_for_vport,
}
use unisphere.Social.RoutingTable.Select.{retract}
use unisphere.Social.RoutingTable.Import.{Environment, in_group, get_current_vicinity}

pub record NextHop : Type 0 where
  pub node_id : NodeIdentifier
  pub path : RoutingPath

unfoldable pub get_active_route : Indices → NodeIdentifier → RoutingTable → NextHop
get_active_route indices destination t =
    elim (find (λ e. e.active && to_destination destination e) (indices.by_active.view t.rib)) [
      | none ↦ record { node_id = invalid; path = [] }
      | some e ↦ record {
        node_id = get_neighbor_for_vport (origin_vport e) t;
        path = e.forward_path;
      }
    ]

pub record SloppyGroupRelay : Type 0 where
  pub node_id : NodeIdentifier
  pub next_hop : NodeIdentifier

-- The loop for the first entry with the fewest hops; `none` stands for the largest `size_t`.
unfoldable pub nearest : Option RoutingEntry → List RoutingEntry → Option RoutingEntry
nearest best [] = best
nearest none (e ∷ es) = nearest (some e) es
nearest (some b) (e ∷ es) = nearest (if ltb (hops e) (hops b) then some e else some b) es

unfoldable pub group_entries : Environment → NodeIdentifier → RoutingTable → List RoutingEntry
group_entries env destination t =
    keep (in_group destination env.group_prefix_length) (env.indices.by_vicinity_any.view t.rib)

-- In an empty table the range is empty.
unfoldable pub get_sloppy_group_relay :
    Environment → NodeIdentifier → RoutingTable → SloppyGroupRelay
unfolding nearest group_entries
get_sloppy_group_relay env destination t = elim (nearest none (group_entries env destination t)) [
  | none ↦ record { node_id = invalid; next_hop = invalid }
  | some e ↦ record {
    node_id = e.destination;
    next_hop = get_neighbor_for_vport (origin_vport e) t;
  }
]

unfoldable pub full_update : Indices → NodeIdentifier → RoutingTable → List Effect
full_update indices peer t =
    map (λ e. export_entry e peer) (keep (λ e. e.active) (indices.by_active.view t.rib))

-- `entry` is none where the entry is gone by the time its timer runs out.
unfoldable pub entry_timer_expired :
    Indices → Bool → Option RoutingEntry → RoutingTable → RoutingTable × List Effect
unfolding retract
entry_timer_expired indices true entry t = (t, [])
entry_timer_expired indices false none t = (t, [])
entry_timer_expired indices false (some e) t =
    let counted = record t {
      statistics = (record (t.statistics) {
        route_expirations = t.statistics.route_expirations + 1;
      });
    } in
    let out = retract indices (origin_vport e) e.destination counted in (out.table, out.effects)

unfoldable pub size : RoutingTable → ℕ
size t = length t.rib

unfoldable pub size_active : RoutingTable → ℕ
size_active t = length (keep (λ e. e.active) t.rib)

unfoldable pub size_vicinity : Indices → RoutingTable → ℕ
unfolding get_current_vicinity
size_vicinity indices t = (get_current_vicinity indices t).vicinity_size

-- The vports keep counting on, and the node keeps its addresses and its landmark status.
unfoldable pub clear : RoutingTable → RoutingTable
clear t = record t { rib = []; vport_map = []; statistics = no_statistics }

unfoldable pub get_local_address : RoutingTable → LandmarkAddress
get_local_address t = elim (head? t.local_address) [ none ↦ null_address | some a ↦ a ]

-- Neighbours in the vicinity, as pairs of an identifier and a number of hops.
unfoldable pub get_vicinity : Indices → RoutingTable → List (NodeIdentifier × ℕ)
get_vicinity indices t =
    map (λ e. (e.destination, hops e))
      (keep (λ e. e.active && e.vicinity) (indices.by_vicinity_any.view t.rib))
