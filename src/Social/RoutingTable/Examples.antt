-- ===== src/Social/RoutingTable/Examples.antt =====
-- The routing table at concrete values.
use unisphere.Prelude.{
  ℕ, ◌≡◌, refl, ◌⊎◌, inl, inr, Bool, true, false, some, List, [], ◌∷◌, ◌≤◌, length, replicate,
  arith,
}
use unisphere.Prelude.Index.{sorted_index}
use unisphere.Identity.NodeIdentifier.{NodeIdentifier, bytes_eq, id_eq, id_lt}
use unisphere.Identity.NodeIdentifier.Order.{
  id_lt_asym, id_lt_trans_not, id_eq_iff, id_eq_refl, id_lt-IsStrictOrder,
}
use unisphere.Social.RoutingTable.Entry.{
  RoutingEntry, Indices, destination_lt, active_lt, landmark_lt, vicinity_lt, vicinity_any_lt,
  vport_lt,
}
use unisphere.Social.RoutingTable.Table.{
  RoutingTable, init, insert_mapping, no_statistics, get_neighbor_for_vport, get_vport_for_neighbor,
}
use unisphere.Social.RoutingTable.Select.{select_local_address}
use unisphere.Social.RoutingTable.Vports.{
  assign, get_neighbor-get_vport, length-select_local_address,
}
use unisphere.Social.RoutingTable.Import.{Environment}
use unisphere.Social.RoutingTable.Routed.{IsRouted}
use unisphere.Social.RoutingTable.Histories.{
  Call, import_call, neighbor_call, retract_call, run, history-IsRouted,
}

module _ (x y : RoutingEntry) where
  pub destination_asym : destination_lt x y ≡ true → destination_lt y x ≡ false
  destination_asym h = ground (
    arith,
    id_lt_asym x.destination y.destination,
    id_eq_iff x.destination y.destination,
    id_eq_iff y.destination x.destination,
    id_lt-IsStrictOrder.irrefl x.destination,
  )

  pub active_asym : active_lt x y ≡ true → active_lt y x ≡ false
  active_asym h = ground (arith, id_lt_asym x.destination y.destination)

  pub landmark_asym : landmark_lt x y ≡ true → landmark_lt y x ≡ false
  landmark_asym h = ground arith

  pub vicinity_asym : vicinity_lt x y ≡ true → vicinity_lt y x ≡ false
  vicinity_asym h = ground arith

  pub vicinity_any_asym : vicinity_any_lt x y ≡ true → vicinity_any_lt y x ≡ false
  vicinity_any_asym h = ground (
    arith,
    id_lt_asym x.destination y.destination,
    id_eq_iff x.destination y.destination,
    id_eq_iff y.destination x.destination,
    id_lt-IsStrictOrder.irrefl x.destination,
  )

  pub vport_asym : vport_lt x y ≡ true → vport_lt y x ≡ false
  vport_asym h = ground (arith, id_lt_asym x.destination y.destination)

  abbrev compared :
      (id_lt x.destination y.destination ≡ true)
      ⊎ (id_lt y.destination x.destination ≡ true)
      ⊎ (x.destination ≡ y.destination)
  compared = elim (id_lt-IsStrictOrder.total x.destination y.destination) [
    | inl h ↦ inl h
    | inr (inl h) ↦ inr (inl h)
    | inr (inr h) ↦ inr (inr ((id_eq_iff x.destination y.destination).0 h))
  ]

module _ (x y z : RoutingEntry) where
  pub destination_trans :
      destination_lt y x ≡ false → destination_lt z y ≡ false → destination_lt z x ≡ false
  destination_trans h k = elim (compared x y) [
    | inl p ↦ ground (
      arith,
      id_lt-IsStrictOrder.trans z.destination x.destination y.destination,
      id_eq_iff z.destination x.destination,
    )
    | inr (inl p) ↦ ground arith
    | inr (inr p) ↦ ground (arith, id_eq_refl y.destination)
  ]

  pub active_trans : active_lt y x ≡ false → active_lt z y ≡ false → active_lt z x ≡ false
  active_trans h k = ground (arith, id_lt_trans_not x.destination y.destination z.destination)

  pub landmark_trans : landmark_lt y x ≡ false → landmark_lt z y ≡ false → landmark_lt z x ≡ false
  landmark_trans h k = ground arith

  pub vicinity_trans : vicinity_lt y x ≡ false → vicinity_lt z y ≡ false → vicinity_lt z x ≡ false
  vicinity_trans h k = ground arith

  pub vicinity_any_trans :
      vicinity_any_lt y x ≡ false → vicinity_any_lt z y ≡ false → vicinity_any_lt z x ≡ false
  vicinity_any_trans h k = elim (compared x y) [
    | inl p ↦ ground (
      arith,
      id_lt-IsStrictOrder.trans z.destination x.destination y.destination,
      id_eq_iff z.destination x.destination,
    )
    | inr (inl p) ↦ ground arith
    | inr (inr p) ↦ ground (arith, id_eq_refl y.destination)
  ]

  pub vport_trans : vport_lt y x ≡ false → vport_lt z y ≡ false → vport_lt z x ≡ false
  vport_trans h k = ground (arith, id_lt_trans_not x.destination y.destination z.destination)

unfoldable pub indices : Indices
unfolding sorted_index
indices = record {
  by_destination = sorted_index destination_lt destination_asym destination_trans;
  by_active = sorted_index active_lt active_asym active_trans;
  by_landmark = sorted_index landmark_lt landmark_asym landmark_trans;
  by_vicinity = sorted_index vicinity_lt vicinity_asym vicinity_trans;
  by_vicinity_any = sorted_index vicinity_any_lt vicinity_any_asym vicinity_any_trans;
  by_vport = sorted_index vport_lt vport_asym vport_trans;
}

abbrev node : ℕ → NodeIdentifier
node b = record { identifier = replicate 20 b }

abbrev learned : List ℕ → NodeIdentifier → Bool → RoutingEntry
learned path destination landmark = record {
  destination = destination;
  public_key = [];
  delegations = [];
  sa_key = [];
  forward_path = path;
  reverse_path = [];
  landmark = landmark;
  vicinity = false;
  extended_vicinity = false;
  seqno = 1;
  cost = 0;
  active = false;
  last_update = 0;
}

abbrev environment : Environment
environment = record {
  indices = indices;
  accepts = λ e. true;
  maximum_vicinity_size = 2;
  maximum_bucket_size = 1;
  group_prefix_length = 4;
}

-- Two routes to one node, a landmark and a route that finds the vicinity full; then the neighbour of
-- the first route goes.
abbrev calls : List Call
calls =
    neighbor_call (node 8)
    ∷ import_call environment 1 (learned (0 ∷ 5 ∷ []) (node 3) false)
    ∷ import_call environment 2 (learned (1 ∷ []) (node 3) false)
    ∷ import_call environment 3 (learned (0 ∷ []) (node 4) true)
    ∷ import_call environment 4 (learned (0 ∷ 6 ∷ 7 ∷ []) (node 5) false)
    ∷ retract_call 1 (record { identifier = [] })
    ∷ []

history-IsRouted_example :
    (u : RoutingTable) × (run indices (some (init (node 1))) calls ≡ some u) × IsRouted u.rib
history-IsRouted_example = history-IsRouted indices (node 1) calls (
  tt,
  (
    (omega arith, refl),
    ((omega arith, refl), ((omega arith, refl), ((omega arith, refl), (tt, tt)))),
  ),
)

abbrev empty : RoutingTable
empty = record {
  local_id = node 1;
  rib = [];
  vport_map = record { neighbor = node 8; vport = 0 } ∷ [];
  next_vport = 1;
  local_address = [];
  landmark = true;
  statistics = no_statistics;
}

-- Node 9 asks between two others, and again.
abbrev asked : ℕ × RoutingTable
asked = get_vport_for_neighbor (node 9) (assign (node 8 ∷ []) (init (node 1)))

get_neighbor-get_vport_example :
    (get_neighbor_for_vport asked.0 (assign (node 7 ∷ node 9 ∷ []) asked.1) ≡ node 9)
    × (get_vport_for_neighbor (node 9) (assign (node 7 ∷ node 9 ∷ []) asked.1)
        ≡ (asked.0, assign (node 7 ∷ node 9 ∷ []) asked.1))
get_neighbor-get_vport_example =
    get_neighbor-get_vport (node 1) (node 9) (node 8 ∷ []) (node 7 ∷ node 9 ∷ []) (omega arith)

second_vport : asked.0 ≡ 1
unfolding get_vport_for_neighbor insert_mapping assign init id_eq bytes_eq
second_vport = refl

length-select_local_address_example :
    length (select_local_address indices empty).table.local_address ≤ 3
length-select_local_address_example = length-select_local_address indices empty (omega arith)
