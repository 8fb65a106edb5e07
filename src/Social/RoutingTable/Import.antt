-- ===== src/Social/RoutingTable/Import.antt =====
-- `import` of src/social/routing_table.cpp: what is admitted to the table, and what has to leave it.
use unisphere.Prelude.{
  ℕ, ◌%◌, ◌^◌, Bool, true, false, not, ◌&&◌, ◌||◌, Option, some, none, List, [], ◌∷◌, ◌++◌, ltb,
  leb, if◌then◌else◌, keep, length,
}
use unisphere.Identity.NodeIdentifier.{NodeIdentifier, id_eq, id_lt, prefix}
use unisphere.Social.RoutingTable.Entry.{
  RoutingEntry, Indices, bool_eq, hops, origin_vport, entry_eq, same_route, find_route,
  modify_route,
}
use unisphere.Social.RoutingTable.Table.{
  RoutingTable, Effect, arm_expiry, landmark_learned, landmark_removed, Outcome,
}
use unisphere.Social.RoutingTable.Select.{
  select_best_route, select_local_address, retract_destination,
}

-- What the table asks of others: its indices, the slots of `signalImportEntry`, the sizes that follow
-- from the estimate of the network's size by `sqrt` and `log`, and `getGroupPrefixLength`.
pub record Environment : Type 0 where
  pub indices : Indices
  pub accepts : RoutingEntry → Bool
  pub maximum_vicinity_size : ℕ
  pub maximum_bucket_size : ℕ
  pub group_prefix_length : ℕ

abbrev pub last? : List RoutingEntry → Option RoutingEntry
last? [] = none
last? (e ∷ []) = some e
last? (e ∷ f ∷ es) = last? (f ∷ es)

pub record CurrentVicinity : Type 0 where
  pub vicinity_size : ℕ
  pub max_hop_entry : Option RoutingEntry

abbrev pub in_vicinity : RoutingEntry → Bool
in_vicinity e = e.active && e.vicinity && not e.extended_vicinity

unfoldable pub get_current_vicinity : Indices → RoutingTable → CurrentVicinity
get_current_vicinity indices t =
    let entries = keep in_vicinity (indices.by_vicinity.view t.rib) in
    record { vicinity_size = length entries; max_hop_entry = last? entries }

-- The range of the index from `lower_bound` of the group's start to `upper_bound` of its end.
abbrev pub in_group : NodeIdentifier → ℕ → RoutingEntry → Bool
in_group id bits e =
    e.active
    && e.vicinity
    && (not (id_lt e.destination (prefix id bits 0))
        && not (id_lt (prefix id bits 255) e.destination))

pub record SloppyGroupBucket : Type 0 where
  pub bucket_size : ℕ
  pub max_hop_entry : Option RoutingEntry

-- the loop: the last entry of the extended vicinity with the most hops
unfoldable pub farthest : Option RoutingEntry → List RoutingEntry → Option RoutingEntry
farthest best [] = best
farthest none (e ∷ es) = farthest (if e.extended_vicinity then some e else none) es
farthest (some b) (e ∷ es) =
    farthest (if e.extended_vicinity && leb (hops b) (hops e) then some e else some b) es

unfoldable pub get_sloppy_group_bucket :
    Environment → NodeIdentifier → RoutingTable → SloppyGroupBucket
unfolding farthest
get_sloppy_group_bucket env id t =
    let entries =
      keep (in_group id env.group_prefix_length) (env.indices.by_vicinity_any.view t.rib) in
    record { bucket_size = length entries; max_hop_entry = farthest none entries }

-- A landmark leaves the vicinity only; any other entry leaves the table with all routes to it.
unfoldable pub make_room : Indices → RoutingEntry → RoutingTable → RoutingTable × List Effect
unfolding retract_destination
make_room indices e t =
    let out = retract_destination indices e.destination t in
    if e.landmark
    then (
      record t {
        rib = modify_route e (λ r. record r { vicinity = false; extended_vicinity = false }) t.rib;
      },
      [],
    )
    else (out.table, out.effects)

-- `isVicinity` and `isExtendedVicinity` as they are decided, and the table that is left.
pub record Admission : Type 0 where
  pub is_vicinity : Bool
  pub is_extended_vicinity : Bool
  pub table : RoutingTable
  pub effects : List Effect

abbrev pub admit : Bool → RoutingTable × List Effect → Admission
admit extended room = record {
  is_vicinity = true;
  is_extended_vicinity = extended;
  table = room.0;
  effects = room.1;
}

abbrev pub outside : RoutingTable → Admission
outside t = record { is_vicinity = false; is_extended_vicinity = false; table = t; effects = [] }

-- the bucket of the entry's sloppy group may overflow by the member that leaves the vicinity
unfoldable pub displaced : Environment → RoutingTable → ℕ → Option RoutingEntry → Admission
unfolding make_room
displaced env t bucket none = admit false (t, [])
displaced env t bucket (some m) =
    if leb env.maximum_bucket_size bucket
    then admit false (make_room env.indices m t)
    else admit false (t, [])

-- the vicinity is full, but the entry is nearer than the farthest member of it
unfoldable pub displace : Environment → RoutingEntry → RoutingEntry → RoutingTable → Admission
unfolding get_sloppy_group_bucket displaced
displace env e farthest_member t =
    let moved = record t {
      rib = modify_route farthest_member (λ r. record r { extended_vicinity = true }) t.rib;
    } in
    let bucket = get_sloppy_group_bucket env e.destination moved in
    displaced env moved bucket.bucket_size bucket.max_hop_entry

-- a bucket that is full makes room for an entry nearer than its farthest one
unfoldable pub extended :
    Environment → RoutingEntry → RoutingTable → ℕ → Option RoutingEntry → Admission
unfolding make_room
extended env e t bucket none =
    if leb env.maximum_bucket_size bucket then outside t else admit true (t, [])
extended env e t bucket (some m) =
    if leb env.maximum_bucket_size bucket
    then (if ltb (hops e) (hops m) then admit true (make_room env.indices m t) else outside t)
    else admit true (t, [])

-- the vicinity is full of nearer members: the bucket of the entry's sloppy group decides
unfoldable pub extend : Environment → RoutingEntry → RoutingTable → Admission
unfolding get_sloppy_group_bucket extended
extend env e t =
    let bucket = get_sloppy_group_bucket env e.destination t in
    extended env e t bucket.bucket_size bucket.max_hop_entry

-- `none` where the code follows a null pointer: a vicinity of size 0 has no farthest member, and is
-- full where its maximum is 0.
unfoldable pub admitted :
    Environment → RoutingEntry → RoutingTable → CurrentVicinity → Option Admission
unfolding displace extend
admitted env e t vicinity =
    if leb env.maximum_vicinity_size vicinity.vicinity_size
    then elim vicinity.max_hop_entry [
      | none ↦ none
      | some m ↦ some (if ltb (hops e) (hops m) then displace env e m t else extend env e t)
    ]
    else some (admit false (t, []))

unfoldable pub admission : Environment → RoutingEntry → RoutingTable → Option Admission
unfolding get_current_vicinity admitted
admission env e t = admitted env e t (get_current_vicinity env.indices t)

-- The cost by the number of hops, and the time stamp.
unfoldable pub stamped : ℕ → RoutingEntry → RoutingEntry
stamped now e = record e { cost = hops e % 2 ^ 16; last_update = now }

-- An entry that is the same as the one in the table. A wait is pending for every entry of the table, so
-- that its timer is armed again.
unfoldable pub refresh_entry : RoutingEntry → RoutingEntry → RoutingEntry
refresh_entry e r = record r {
  last_update = e.last_update;
  delegations = e.delegations;
  sa_key = e.sa_key;
}

-- an entry that takes the place of the one in the table
unfoldable pub update_entry : RoutingEntry → RoutingEntry → RoutingEntry
update_entry e r = record r {
  forward_path = e.forward_path;
  reverse_path = e.reverse_path;
  landmark = e.landmark;
  seqno = e.seqno;
  cost = e.cost;
  last_update = e.last_update;
  delegations = e.delegations;
  sa_key = e.sa_key;
}

-- `newBest == oldBest && entry == newBest`, by the routes that the objects stand for
unfoldable pub kept_best : RoutingEntry → Option RoutingEntry → Option RoutingEntry → Bool
kept_best e none old = false
kept_best e (some n) none = false
kept_best e (some n) (some o) = same_route n o && same_route e n

-- The end of `import`. `inserted` tells whether the table holds the imported object itself: where an
-- older object was updated in its place, `entry == newBest` compares two different objects.
unfoldable pub reselect :
    Indices → Bool → Bool → RoutingEntry → RoutingTable → List Effect → Outcome
unfolding select_best_route select_local_address kept_best
reselect indices inserted landmark_changed_type e t before =
    let s = select_best_route indices e.destination t in
    let told =
      if kept_best e s.new_best s.old_best && inserted && landmark_changed_type
      then (if e.landmark then landmark_learned e.destination else landmark_removed e.destination)
        ∷ []
      else [] in
    let local = select_local_address indices s.table in
    if e.landmark || landmark_changed_type
    then record {
      changed = true;
      table = local.table;
      effects = before ++ s.effects ++ told ++ local.effects;
    }
    else record { changed = true; table = s.table; effects = before ++ s.effects ++ told }

unfoldable pub unchanged : RoutingTable → Outcome
unchanged t = record { changed = false; table = t; effects = [] }

-- the branch of an entry whose route is in the table already
unfoldable pub import_update : Environment → RoutingEntry → RoutingEntry → RoutingTable → Outcome
unfolding reselect refresh_entry update_entry
import_update env e existing t =
    if entry_eq existing e
    then record {
      changed = false;
      table = record t { rib = modify_route existing (refresh_entry e) t.rib };
      effects = arm_expiry (refresh_entry e existing) ∷ [];
    }
    else reselect env.indices false (not (bool_eq existing.landmark e.landmark)) e
        (record t { rib = modify_route existing (update_entry e) t.rib })
        (arm_expiry (update_entry e existing) ∷ [])

-- the branch of a new route
unfoldable pub import_admitted : Environment → RoutingEntry → RoutingTable → Admission → Outcome
unfolding reselect
import_admitted env e t a =
    let inserted = record e {
      vicinity = a.is_vicinity;
      extended_vicinity = a.is_extended_vicinity;
    } in
    if not a.is_vicinity && not e.landmark
    then record { changed = false; table = a.table; effects = a.effects }
    else reselect env.indices true false inserted
        (record (a.table) { rib = inserted ∷ a.table.rib })
        (a.effects ++ (arm_expiry inserted ∷ []))

-- `import`: `none` where the code follows a null pointer.
unfoldable pub import : Environment → ℕ → RoutingEntry → RoutingTable → Option Outcome
unfolding admission import_update import_admitted stamped unchanged
import env now entry t =
    let e = stamped now entry in
    if id_eq entry.destination t.local_id
    then some (unchanged t)
    else if not (env.accepts e)
    then some (unchanged t)
    else elim (find_route (origin_vport e) e.destination t.rib) [
      | some existing ↦ some (import_update env e existing t)
      | none ↦ elim (admission env e t) [ none ↦ none | some a ↦ some (import_admitted env e t a) ]
    ]
