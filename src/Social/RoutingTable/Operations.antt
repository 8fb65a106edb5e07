-- ===== src/Social/RoutingTable/Operations.antt =====
-- `import`, `retract` and `setLandmark` as a whole keep the invariant of the routing table.
use unisphere.Prelude.{
  ℕ, ◌≡◌, refl, sym, ap, subst, ◌∙◌, inl, inr, ◌<◌, Bool, true, false, not, ◌==◌, ◌&&◌, ◌||◌, some,
  List, [], ◌∷◌, ◌++◌, if_elim, keep, find-eq-none, In, Bool-cases, Option-cases, arith,
}
use unisphere.Identity.NodeIdentifier.{NodeIdentifier, id_eq, is_null}
use unisphere.Social.RoutingTable.Entry.{
  RoutingEntry, Indices, origin_vport, has_route, same_route, erase_route, modify_route, find_route,
  entry_eq, bool_eq, to_destination,
}
use unisphere.Social.RoutingTable.Table.{RoutingTable, Effect, arm_expiry, Outcome}
use unisphere.Social.RoutingTable.Select.{
  select_best_route, select_local_address, set_landmark, retract_route, retract_routes, retract,
}
use unisphere.Social.RoutingTable.Import.{
  Environment, Admission, refresh_entry, update_entry, stamped, reselect, import_update,
  import_admitted, import, unchanged,
}
use unisphere.Social.RoutingTable.Routes.{same_route_iff, In-erase_route}
use unisphere.Social.RoutingTable.Routed.{IsRouted, IsRoutedBut, select-IsRouted}
use unisphere.Social.RoutingTable.Admitted.{admission-some}
use unisphere.Social.RoutingTable.Kept.{
  part-IsRoutedOn, modified_others, found_route, insert-IsRoutedBut,
}

-- The choice of local addresses leaves the routes alone.
select_local_address-rib :
    (indices : Indices) (t : RoutingTable) → (select_local_address indices t).table.rib ≡ t.rib
unfolding select_local_address
select_local_address-rib indices t = ground arith

reselect-IsRouted :
    (indices : Indices) (inserted landmark_changed : Bool) (e : RoutingEntry) (t : RoutingTable)
    (before : List Effect)
    → IsRoutedBut e.destination t.rib
    → IsRouted ((reselect indices inserted landmark_changed e t before).table.rib)
unfolding reselect
reselect-IsRouted indices inserted landmark_changed e t before routed =
    let selected = select-IsRouted indices e.destination t routed in
    let after = (select_best_route indices e.destination t).table in
    if_elim (λ (o : Outcome). IsRouted (o.table.rib)) (e.landmark || landmark_changed)
      (subst IsRouted (sym (select_local_address-rib indices after)) selected) selected

weaken : (d : NodeIdentifier) (es : List RoutingEntry) → IsRouted es → IsRoutedBut d es
weaken d es routed = record {
  unique = routed.unique;
  single = routed.single;
  served = λ e m p. routed.served e m tt;
}

import_update-IsRouted :
    (env : Environment) (e existing : RoutingEntry) (t : RoutingTable)
    → same_route e existing ≡ true
    → IsRouted t.rib
    → IsRouted ((import_update env e existing t).table.rib)
unfolding import_update refresh_entry update_entry
import_update-IsRouted env e existing t same routed =
    let key = (same_route_iff e existing).0 same in
    if_elim (λ (o : Outcome). IsRouted (o.table.rib)) (entry_eq existing e)
      (modified_others existing (refresh_entry e) t.rib (λ r h. refl) (λ r. refl) (λ r. refl)
        (λ r h p. refl) routed)
      (reselect-IsRouted env.indices false (not (bool_eq existing.landmark e.landmark)) e
        (record t { rib = modify_route existing (update_entry e) t.rib })
        (arm_expiry (update_entry e existing) ∷ [])
        (modified_others existing (update_entry e) t.rib
          (λ r h. key.0 ∙ ((same_route_iff existing r).0 h).0) (λ r. refl) (λ r. refl)
          (λ r h p. absurd (p (sym (key.1 ∙ ((same_route_iff existing r).0 h).1))))
          (weaken e.destination t.rib routed)))

import_admitted-IsRouted :
    (env : Environment) (e : RoutingEntry) (t : RoutingTable) (a : Admission)
    → e.active ≡ false
    → ((r : RoutingEntry) → In r a.table.rib → same_route e r ≡ false)
    → IsRouted a.table.rib
    → IsRouted ((import_admitted env e t a).table.rib)
unfolding import_admitted
import_admitted-IsRouted env e t a off new routed =
    let inserted = (record e {
      vicinity = a.is_vicinity;
      extended_vicinity = a.is_extended_vicinity;
    }) in
    if_elim (λ (o : Outcome). IsRouted (o.table.rib)) (not a.is_vicinity && not e.landmark) routed
      (reselect-IsRouted env.indices true false inserted
        (record (a.table) { rib = inserted ∷ a.table.rib })
        (a.effects ++ (arm_expiry inserted ∷ []))
        (insert-IsRoutedBut inserted a.table.rib off new routed))

-- `import` of an entry as its constructor leaves it, not active, returns and keeps the invariant, where
-- the vicinity may have a member.
pub import-some :
    (env : Environment) (now : ℕ) (e : RoutingEntry) (t : RoutingTable)
    → 0 < env.maximum_vicinity_size
    → e.active ≡ false
    → IsRouted t.rib
    → (o : Outcome) × (import env now e t ≡ some o) × IsRouted (o.table.rib)
unfolding import stamped unchanged find_route
import-some env now e t positive off routed = elim (Bool-cases (id_eq e.destination t.local_id)) [
  | inl own ↦ (unchanged t, rw (import, own) refl, routed)
  | inr other ↦ elim (Bool-cases (env.accepts (stamped now e))) [
    | inr refused ↦ (unchanged t, rw (import, other, refused) refl, routed)
    | inl taken ↦ elim (Option-cases (find_route (origin_vport e) e.destination t.rib)) [
      | inr found ↦ (
        import_update env (stamped now e) (found.0) t,
        rw (import, other, taken, found.1) refl,
        import_update-IsRouted env (stamped now e) (found.0) t
            ((found_route e (found.0) t.rib (found.1)).0) routed,
      )
      | inl missing ↦
          let a =
            admission-some env (stamped now e) t positive routed
              (find-eq-none (has_route (origin_vport e) e.destination) t.rib missing) in
          (
            import_admitted env (stamped now e) t (a.0),
            rw (import, other, taken, missing, a.1) refl,
            import_admitted-IsRouted env (stamped now e) t (a.0) off (a.3) (a.2),
          )
    ]
  ]
]

-- Erasing an entry leaves only its own destination to be served, and none where it was not active.
erase_route-IsRoutedBut :
    (r : RoutingEntry) (es : List RoutingEntry)
    → In r es
    → IsRouted es
    → IsRoutedBut r.destination (erase_route r es)
erase_route-IsRoutedBut r es member routed =
    part-IsRoutedOn es (erase_route r es) (λ e m. ((In-erase_route r e es).0 m).0)
      (λ e m p.
        let s = routed.served e (((In-erase_route r e es).0 m).0) tt in
        (
          s.0,
          (In-erase_route r (s.0) es).1 (s.1, other (s.0) (λ g. p (sym (s.3) ∙ g))),
          s.2,
          s.3,
          s.4,
        ))
      routed
  where
    other : (b : RoutingEntry) → ¬ (b.destination ≡ r.destination) → not (same_route r b) ≡ true
    other b h = elim (Bool-cases (same_route r b)) [
      | inr k ↦ ap not k
      | inl k ↦ absurd (h (sym (((same_route_iff r b).0 k).1)))
    ]

erase_inactive-IsRouted :
    (r : RoutingEntry) (es : List RoutingEntry)
    → In r es
    → r.active ≡ false
    → IsRouted es
    → IsRouted (erase_route r es)
erase_inactive-IsRouted r es member off routed =
    part-IsRoutedOn es (erase_route r es) (λ e m. ((In-erase_route r e es).0 m).0)
      (λ e m p.
        let s = routed.served e (((In-erase_route r e es).0 m).0) tt in
        (s.0, (In-erase_route r (s.0) es).1 (s.1, other (s.0) (s.1) (s.2)), s.2, s.3, s.4))
      routed
  where
    other : (b : RoutingEntry) → In b es → b.active ≡ true → not (same_route r b) ≡ true
    other b m on = elim (Bool-cases (same_route r b)) [
      | inr k ↦ ap not k
      | inl k ↦ ground (arith, ap (λ x. x.active) (routed.unique r b member m k), off, on)
    ]

-- Erasing goes by the route alone.
erase_route_same :
    (e r : RoutingEntry) (es : List RoutingEntry)
    → same_route e r ≡ true
    → erase_route r es ≡ erase_route e es
unfolding erase_route
erase_route_same e r es same =
    let key = (same_route_iff e r).0 same in
    ap (λ v. keep (λ x. not (has_route v r.destination x)) es) (sym (key.0))
    ∙ ap (λ d. keep (λ x. not (has_route (origin_vport e) d x)) es) (sym (key.1))

retract_route-IsRouted :
    (indices : Indices) (e : RoutingEntry) (t : RoutingTable)
    → IsRouted t.rib
    → IsRouted ((retract_route indices e t).0.rib)
unfolding retract_route
retract_route-IsRouted indices e t routed =
    elim (Option-cases (find_route (origin_vport e) e.destination t.rib)) [
      | inl missing ↦ rw (missing, retract_route) routed
      | inr found ↦
          let r = found.0 in
          let at = found_route e r t.rib (found.1) in
          rw (found.1, retract_route)
            (elim (Bool-cases r.active) [
              | inr off ↦ rw off (
                  subst IsRouted (erase_route_same e r t.rib (at.0))
                    (erase_inactive-IsRouted r t.rib (at.1) off routed))
              | inl on ↦ rw on (
                  select-IsRouted indices e.destination (record t { rib = erase_route e t.rib })
                    (subst (λ d. IsRoutedBut d (erase_route e t.rib))
                      (sym (((same_route_iff e r).0 (at.0)).1))
                      (subst (IsRoutedBut r.destination) (erase_route_same e r t.rib (at.0))
                        (erase_route-IsRoutedBut r t.rib (at.1) routed))))
            ])
    ]

retract_routes-IsRouted :
    (indices : Indices) (es : List RoutingEntry) (t : RoutingTable)
    → IsRouted t.rib
    → IsRouted ((retract_routes indices es t).0.rib)
unfolding retract_routes
retract_routes-IsRouted indices [] t routed = routed
retract_routes-IsRouted indices (e ∷ es) t routed =
    retract_routes-IsRouted indices es ((retract_route indices e t).0)
      (retract_route-IsRouted indices e t routed)

retracted : Indices → ℕ → NodeIdentifier → RoutingTable → List RoutingEntry
retracted indices vport d t =
    keep (λ e. (vport == origin_vport e) && (is_null d || to_destination d e))
      (indices.by_vport.view t.rib)

pub retract-IsRouted :
    (indices : Indices) (vport : ℕ) (d : NodeIdentifier) (t : RoutingTable)
    → IsRouted t.rib
    → IsRouted ((retract indices vport d t).table.rib)
unfolding retract retracted
retract-IsRouted indices vport d t routed =
    retract_routes-IsRouted indices (retracted indices vport d t) t routed

pub set_landmark-rib :
    (indices : Indices) (b : Bool) (t : RoutingTable) → (set_landmark indices b t).0.rib ≡ t.rib
unfolding set_landmark
set_landmark-rib indices true t =
    ground (arith, select_local_address-rib indices (record t { landmark = true }))
set_landmark-rib indices false t =
    ground (arith, select_local_address-rib indices (record t { landmark = false }))
