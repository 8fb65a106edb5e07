-- ===== src/Social/RoutingTable/Select.antt =====
-- Selection of the best route to a destination, of the node's own addresses, and retraction.
use unisphere.Prelude.{
  ℕ, ◌+◌, Bool, true, false, not, ◌&&◌, ◌||◌, Option, some, none, List, [], ◌∷◌, ◌++◌, leb, ◌==◌,
  if◌then◌else◌, keep,
}
use unisphere.Identity.NodeIdentifier.{NodeIdentifier, invalid, id_eq, is_null}
use unisphere.Social.Address.{LandmarkAddress, landmark_itself, address_eq}
use unisphere.Social.RoutingTable.Entry.{
  RoutingEntry, Indices, hops, origin_vport, to_destination, same_route, modify_route, erase_route,
  find_route,
}
use unisphere.Social.RoutingTable.Table.{
  RoutingTable, Effect, export_entry, retract_entry, landmark_learned, landmark_removed,
  vicinity_learned, vicinity_removed, address_changed, Outcome,
}

-- The loop over the routes to a destination, in order of cost: `old_best` and `new_best` as it ends.
unfoldable pub scan_routes :
    List RoutingEntry
    → Option RoutingEntry
    → Option RoutingEntry
    → Option RoutingEntry × Option RoutingEntry
scan_routes [] old new = (old, new)
scan_routes (e ∷ es) old none = scan_routes es (if e.active then some e else old) (some e)
scan_routes (e ∷ es) old (some n) =
    if e.active
    then (some e, some n)
    else elim old [ some o ↦ (some o, some n) | none ↦ scan_routes es none (some n) ]

abbrev pub set_active : Bool → RoutingEntry → RoutingEntry
set_active b e = record e { active = b }

-- what is signalled when the active route changes, and how
unfoldable pub landmark_effects : NodeIdentifier → Bool → Bool → List Effect
landmark_effects destination true false = landmark_removed destination ∷ []
landmark_effects destination false true = landmark_learned destination ∷ []
landmark_effects destination true true = []
landmark_effects destination false false = []

unfoldable pub vicinity_effects : NodeIdentifier → Bool → RoutingEntry → List Effect
vicinity_effects destination was new =
    if was && not new.vicinity
    then vicinity_removed destination ∷ []
    else if not was && new.vicinity
    then vicinity_learned new.destination (hops new) ∷ []
    else []

-- What `selectBestRoute` returns, and the table and the signals that it leaves.
pub record Selection : Type 0 where
  pub activated : Bool
  pub new_best : Option RoutingEntry
  pub old_best : Option RoutingEntry
  pub table : RoutingTable
  pub effects : List Effect

abbrev pub deactivate : Option RoutingEntry → List RoutingEntry → List RoutingEntry
deactivate none es = es
deactivate (some o) es = modify_route o (set_active false) es

abbrev pub was_landmark : Option RoutingEntry → Bool
was_landmark none = false
was_landmark (some o) = o.landmark

abbrev pub was_vicinity : Option RoutingEntry → Bool
was_vicinity none = false
was_vicinity (some o) = o.vicinity

abbrev pub is_route : RoutingEntry → Option RoutingEntry → Bool
is_route n none = false
is_route n (some o) = same_route n o

unfoldable pub activate :
    NodeIdentifier → RoutingEntry → Option RoutingEntry → RoutingTable → Selection
unfolding landmark_effects vicinity_effects
activate destination n old t =
    if is_route n old
    then record { activated = true; new_best = some n; old_best = old; table = t; effects = [] }
    else record {
      activated = true;
      new_best = some (set_active true n);
      old_best = old;
      table = record t {
        rib = modify_route n (set_active true) (deactivate old t.rib);
        statistics = (record (t.statistics) { route_updates = t.statistics.route_updates + 1 });
      };
      effects =
          landmark_effects destination (was_landmark old) n.landmark
          ++ vicinity_effects destination (was_vicinity old) n
          ++ (export_entry (set_active true n) invalid ∷ []);
    }

abbrev pub no_selection : RoutingTable → Selection
no_selection t = record {
  activated = false;
  new_best = none;
  old_best = none;
  table = t;
  effects = [];
}

unfoldable pub select_best_route : Indices → NodeIdentifier → RoutingTable → Selection
unfolding scan_routes activate
select_best_route indices destination t =
    let routes = keep (to_destination destination) (indices.by_destination.view t.rib) in
    let best = scan_routes routes none none in
    elim best.1 [ none ↦ no_selection t | some n ↦ activate destination n best.0 t ]

abbrev pub local_address_redundancy : ℕ
local_address_redundancy = 3

abbrev pub address_of : RoutingEntry → LandmarkAddress
address_of e = record { landmark_id = e.destination; path = e.reverse_path }

-- The loop over the landmarks in order of cost. `before` addresses stand in front of the iterator
-- `ait` and `rest` from it on; the result replaces `rest`, and tells whether it differs.
unfoldable pub renew_addresses :
    List RoutingEntry → NodeIdentifier → ℕ → List LandmarkAddress → List LandmarkAddress × Bool
renew_addresses [] last before rest = (rest, false)
renew_addresses (e ∷ es) last before rest = elim (id_eq e.destination last) [
  | true ↦ renew_addresses es last before rest
  | false ↦ elim rest [
    | [] ↦ elim (leb local_address_redundancy before) [
      | true ↦ ([], false)
      | false ↦ (address_of e ∷ (renew_addresses es e.destination (before + 1) []).0, true)
    ]
    | current ∷ later ↦
        let renewed = renew_addresses es e.destination (before + 1) later in
        (address_of e ∷ renewed.0, not (address_eq current (address_of e)) || renewed.1)
  ]
]

-- `m_localAddress` of a landmark is itself alone.
unfoldable pub is_own_address : NodeIdentifier → List LandmarkAddress → Bool
is_own_address id [] = false
is_own_address id (a ∷ []) = id_eq a.landmark_id id
is_own_address id (a ∷ b ∷ more) = false

unfoldable pub select_local_address : Indices → RoutingTable → Outcome
unfolding is_own_address renew_addresses
select_local_address indices t =
    let own = landmark_itself t.local_id ∷ [] in
    let landmarks = keep (λ e. e.landmark) (indices.by_landmark.view t.rib) in
    let renewed = renew_addresses landmarks invalid 0 t.local_address in
    if t.landmark
    then (if is_own_address t.local_id t.local_address
        then record { changed = false; table = t; effects = [] }
        else record {
          changed = true;
          table = record t { local_address = own };
          effects = address_changed own ∷ [];
        })
    else record {
      changed = renewed.1;
      table = record t { local_address = renewed.0 };
      effects = if renewed.1 then address_changed (renewed.0) ∷ [] else [];
    }

unfoldable pub set_landmark : Indices → Bool → RoutingTable → RoutingTable × List Effect
unfolding select_local_address
set_landmark indices true t =
    let out = select_local_address indices (record t { landmark = true }) in
    if t.landmark then (t, []) else (out.table, out.effects)
set_landmark indices false t =
    let out = select_local_address indices (record t { landmark = false }) in
    if t.landmark then (out.table, out.effects) else (t, [])

-- The loops of the two `retract` methods.
unfoldable pub retractions : List RoutingEntry → List Effect
retractions [] = []
retractions (e ∷ es) = if e.active then retract_entry e ∷ retractions es else retractions es

unfoldable pub any_landmark : List RoutingEntry → Bool
any_landmark [] = false
any_landmark (e ∷ es) = e.landmark || any_landmark es

-- `retract(destination)`, by the routes to the destination
unfoldable pub retract_found : NodeIdentifier → RoutingTable → List RoutingEntry → Outcome
unfolding retractions any_landmark
retract_found destination t [] = record { changed = false; table = t; effects = [] }
retract_found destination t (e ∷ es) = record {
  changed = true;
  table = record t { rib = keep (λ r. not (to_destination destination r)) t.rib };
  effects =
      retractions (e ∷ es)
      ++ ((if any_landmark (e ∷ es)
            then landmark_removed destination
            else vicinity_removed destination)
          ∷ []);
}

unfoldable pub retract_destination : Indices → NodeIdentifier → RoutingTable → Outcome
unfolding retract_found
retract_destination indices destination t =
    retract_found destination t
      (keep (to_destination destination) (indices.by_destination.view t.rib))

-- One round of `retract(vport, destination)`. `entry->active` is read from the table's own object, which
-- a selection for another destination may have changed by now; the object is there, as the loop erases
-- each once.
unfoldable pub retract_route : Indices → RoutingEntry → RoutingTable → RoutingTable × List Effect
unfolding select_best_route
retract_route indices e t =
    let erased = record t { rib = erase_route e t.rib } in
    let s = select_best_route indices e.destination erased in
    elim (find_route (origin_vport e) e.destination t.rib) [
      | none ↦ (t, [])
      | some current ↦
          if not current.active
          then (erased, [])
          else (s.table, s.effects ++ (if s.activated then [] else retract_entry current ∷ []))
    ]

unfoldable pub retract_routes :
    Indices → List RoutingEntry → RoutingTable → RoutingTable × List Effect
unfolding retract_route
retract_routes indices [] t = (t, [])
retract_routes indices (e ∷ es) t =
    let first = retract_route indices e t in
    let rest = retract_routes indices es first.0 in (rest.0, first.1 ++ rest.1)

-- `retract(vport, destination)`: with a null destination, all routes through the vport. It returns
-- false whatever it does.
unfoldable pub retract : Indices → ℕ → NodeIdentifier → RoutingTable → Outcome
unfolding retract_routes
retract indices vport destination t =
    let routes =
      keep (λ e. (vport == origin_vport e) && (is_null destination || to_destination destination e))
        (indices.by_vport.view t.rib) in
    let out = retract_routes indices routes t in
    record { changed = false; table = out.0; effects = out.1 }
