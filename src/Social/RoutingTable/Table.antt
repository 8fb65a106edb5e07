-- ===== src/Social/RoutingTable/Table.antt =====
-- The state of src/social/routing_table.cpp, its effects, and the assignment of vports to neighbours.
--
-- A signal that a method emits, at once or deferred, and a timer that it arms are entries of the list of
-- effects that the method returns. The locks are left out.
use unisphere.Prelude.{ℕ, ◌+◌, ◌%◌, ◌^◌, Bool, false, some, none, List, [], ◌∷◌, ◌==◌, find}
use unisphere.Identity.NodeIdentifier.{NodeIdentifier, invalid, id_eq}
use unisphere.Social.Address.{LandmarkAddress}
use unisphere.Social.RoutingTable.Entry.{RoutingEntry}

pub record Statistics : Type 0 where
  pub route_updates : ℕ
  pub route_expirations : ℕ

abbrev pub no_statistics : Statistics
no_statistics = record { route_updates = 0; route_expirations = 0 }

-- One pair of `m_vportMap`
pub record VportMapping : Type 0 where
  pub neighbor : NodeIdentifier
  pub vport : ℕ

pub record RoutingTable : Type 0 where
  pub local_id : NodeIdentifier
  pub rib : List RoutingEntry
  pub vport_map : List VportMapping
  pub next_vport : ℕ
  pub local_address : List LandmarkAddress
  pub landmark : Bool
  pub statistics : Statistics

-- the constructor
unfoldable pub init : NodeIdentifier → RoutingTable
init id = record {
  local_id = id;
  rib = [];
  vport_map = [];
  next_vport = 0;
  local_address = [];
  landmark = false;
  statistics = no_statistics;
}

pub data Effect : Type 0 where
  export_entry : RoutingEntry → NodeIdentifier → Effect
  retract_entry : RoutingEntry → Effect
  landmark_learned : NodeIdentifier → Effect
  landmark_removed : NodeIdentifier → Effect
  vicinity_learned : NodeIdentifier → ℕ → Effect
  vicinity_removed : NodeIdentifier → Effect
  address_changed : List LandmarkAddress → Effect
  arm_expiry : RoutingEntry → Effect

-- What a method that returns a Boolean leaves behind.
pub record Outcome : Type 0 where
  pub changed : Bool
  pub table : RoutingTable
  pub effects : List Effect

-- Lookup from both sides of the bimap.
abbrev pub of_neighbor : NodeIdentifier → VportMapping → Bool
of_neighbor neighbor m = id_eq neighbor m.neighbor

abbrev pub of_vport : ℕ → VportMapping → Bool
of_vport vport m = vport == m.vport

-- `m_vportMap.insert`, which does nothing where either side is taken
unfoldable pub insert_mapping : VportMapping → List VportMapping → List VportMapping
insert_mapping m ms = elim (find (of_neighbor m.neighbor) ms) [
  | some n ↦ ms
  | none ↦ elim (find (of_vport m.vport) ms) [ some n ↦ ms | none ↦ m ∷ ms ]
]

unfoldable pub get_vport_for_neighbor : NodeIdentifier → RoutingTable → ℕ × RoutingTable
unfolding insert_mapping
get_vport_for_neighbor neighbor t = elim (find (of_neighbor neighbor) t.vport_map) [
  | some m ↦ (m.vport, t)
  | none ↦ (
    t.next_vport,
    record t {
      vport_map = insert_mapping (record { neighbor = neighbor; vport = t.next_vport }) t.vport_map;
      next_vport = (t.next_vport + 1) % 2 ^ 32;
    },
  )
]

unfoldable pub get_neighbor_for_vport : ℕ → RoutingTable → NodeIdentifier
get_neighbor_for_vport vport t = elim (find (of_vport vport) t.vport_map) [
  | some m ↦ m.neighbor
  | none ↦ invalid
]
