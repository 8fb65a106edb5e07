-- ===== src/Social/RoutingTable/Entry.antt =====
-- The entries of src/social/routing_table.h and the indices of the routing information base of
-- routing_table.cpp (unisphere.Prelude.Index). The originator's key, the delegations and the key of the
-- security association are bytes that the table carries along.
use unisphere.Prelude.{
  ℕ, Bool, true, false, not, ◌&&◌, ◌||◌, Option, List, [], ◌∷◌, map, ltb, ◌==◌, if◌then◌else◌,
  length, keep, find,
}
use unisphere.Prelude.Index.{OrderedIndex}
use unisphere.Identity.NodeIdentifier.{NodeIdentifier, id_eq, id_lt}
use unisphere.Social.Address.{RoutingPath, path_eq}

pub record RoutingEntry : Type 0 where
  pub destination : NodeIdentifier
  pub public_key : List ℕ
  pub delegations : List (List ℕ)
  pub sa_key : List ℕ
  pub forward_path : RoutingPath
  pub reverse_path : RoutingPath
  pub landmark : Bool
  pub vicinity : Bool
  pub extended_vicinity : Bool
  pub seqno : ℕ
  pub cost : ℕ
  pub active : Bool
  pub last_update : ℕ

-- `forwardPath.front()`. The path is not empty: the router puts the vport of the neighbour that it
-- learns a route from in front of it. For an empty path the source leaves the result undefined.
unfoldable pub front_vport : RoutingPath → ℕ
front_vport [] = 0
front_vport (v ∷ vs) = v

abbrev pub origin_vport : RoutingEntry → ℕ
origin_vport e = front_vport e.forward_path

abbrev pub hops : RoutingEntry → ℕ
hops e = length e.forward_path

-- `operator==` of entries
abbrev pub bool_eq : Bool → Bool → Bool
bool_eq true b = b
bool_eq false b = not b

unfoldable pub entry_eq : RoutingEntry → RoutingEntry → Bool
entry_eq a b =
    id_eq a.destination b.destination
    && bool_eq a.landmark b.landmark
    && a.seqno == b.seqno
    && a.cost == b.cost
    && path_eq a.forward_path b.forward_path
    && path_eq a.reverse_path b.reverse_path

-- The comparisons of the composite keys, field after field.
abbrev pub bool_lt : Bool → Bool → Bool
bool_lt a b = not a && b

abbrev pub destination_lt : RoutingEntry → RoutingEntry → Bool
destination_lt a b =
    id_lt a.destination b.destination || (id_eq a.destination b.destination && ltb a.cost b.cost)

abbrev pub active_lt : RoutingEntry → RoutingEntry → Bool
active_lt a b =
    bool_lt a.active b.active || (bool_eq a.active b.active && id_lt a.destination b.destination)

abbrev pub landmark_lt : RoutingEntry → RoutingEntry → Bool
landmark_lt a b =
    bool_lt a.landmark b.landmark || (bool_eq a.landmark b.landmark && ltb a.cost b.cost)

abbrev pub vicinity_lt : RoutingEntry → RoutingEntry → Bool
vicinity_lt a b =
    bool_lt a.active b.active
    || (bool_eq a.active b.active
        && (bool_lt a.vicinity b.vicinity
            || (bool_eq a.vicinity b.vicinity
                && (bool_lt a.extended_vicinity b.extended_vicinity
                    || (bool_eq a.extended_vicinity b.extended_vicinity
                        && ltb (hops a) (hops b))))))

abbrev pub vicinity_any_lt : RoutingEntry → RoutingEntry → Bool
vicinity_any_lt a b =
    bool_lt a.active b.active
    || (bool_eq a.active b.active
        && (bool_lt a.vicinity b.vicinity
            || (bool_eq a.vicinity b.vicinity
                && (id_lt a.destination b.destination
                    || (id_eq a.destination b.destination && ltb (hops a) (hops b))))))

abbrev pub vport_lt : RoutingEntry → RoutingEntry → Bool
vport_lt a b =
    ltb (origin_vport a) (origin_vport b)
    || (origin_vport a == origin_vport b && id_lt a.destination b.destination)

pub record Indices : Type 0 where
  pub by_destination : OrderedIndex destination_lt
  pub by_active : OrderedIndex active_lt
  pub by_landmark : OrderedIndex landmark_lt
  pub by_vicinity : OrderedIndex vicinity_lt
  pub by_vicinity_any : OrderedIndex vicinity_any_lt
  pub by_vport : OrderedIndex vport_lt

-- The unique key (origin vport, destination), at which entries are found, modified and erased.
unfoldable pub has_route : ℕ → NodeIdentifier → RoutingEntry → Bool
has_route vport destination e = vport == origin_vport e && id_eq destination e.destination

abbrev pub to_destination : NodeIdentifier → RoutingEntry → Bool
to_destination destination e = id_eq destination e.destination

abbrev pub same_route : RoutingEntry → RoutingEntry → Bool
same_route a b = has_route (origin_vport a) a.destination b

unfoldable pub find_route : ℕ → NodeIdentifier → List RoutingEntry → Option RoutingEntry
find_route vport destination es = find (has_route vport destination) es

unfoldable pub modify_route :
    RoutingEntry → (RoutingEntry → RoutingEntry) → List RoutingEntry → List RoutingEntry
modify_route r f es = map (λ e. if same_route r e then f e else e) es

unfoldable pub erase_route : RoutingEntry → List RoutingEntry → List RoutingEntry
erase_route r es = keep (λ e. not (same_route r e)) es
