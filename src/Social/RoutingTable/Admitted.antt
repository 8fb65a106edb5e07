-- ===== src/Social/RoutingTable/Admitted.antt =====
-- What `import` does to the table before it inserts a route: it keeps the invariant, adds no route, and
-- does not fail while the vicinity may have a member.
use unisphere.Prelude.{
  ℕ, inl, inr, ◌≡◌, refl, ap, ◌∙◌, ◌<◌, Bool, true, false, not, Option, some, none, List, [], ◌∷◌,
  if◌then◌else◌, if_elim, keep, leb, leb→le, ltb, length, In, In-keep, Bool-cases, arith,
}
use unisphere.Identity.NodeIdentifier.{NodeIdentifier}
use unisphere.Social.RoutingTable.Entry.{
  RoutingEntry, Indices, hops, origin_vport, same_route, modify_route, to_destination,
}
use unisphere.Social.RoutingTable.Table.{RoutingTable, Effect}
use unisphere.Social.RoutingTable.Select.{retract_found, retract_destination}
use unisphere.Social.RoutingTable.Import.{
  Environment, Admission, CurrentVicinity, make_room, displaced, displace, extended, extend,
  admitted, admit, admission, get_current_vicinity, last?, in_vicinity,
}
use unisphere.Social.RoutingTable.Routes.{same_route_iff, In-modify_route}
use unisphere.Social.RoutingTable.Routed.{IsRouted}
use unisphere.Social.RoutingTable.Kept.{displace-IsRouted, extend-IsRouted}

-- No entry has the route of `e`.
abbrev pub IsNew : RoutingEntry → List RoutingEntry → Type 0
IsNew e es = (r : RoutingEntry) → In r es → same_route e r ≡ false

route_of_same :
    (e a b : RoutingEntry)
    → origin_vport a ≡ origin_vport b
    → a.destination ≡ b.destination
    → same_route e b ≡ false
    → same_route e a ≡ false
route_of_same e a b p g h = elim (Bool-cases (same_route e a)) [
  | inr k ↦ k
  | inl k ↦
      let both = (same_route_iff e a).0 k in
      ground (arith, h, (same_route_iff e b).1 (both.0 ∙ p, both.1 ∙ g))
]

modify_route-IsNew :
    (e r : RoutingEntry) (f : RoutingEntry → RoutingEntry) (es : List RoutingEntry)
    → ((x : RoutingEntry) → origin_vport (f x) ≡ origin_vport x)
    → ((x : RoutingEntry) → (f x).destination ≡ x.destination)
    → IsNew e es
    → IsNew e (modify_route r f es)
modify_route-IsNew e r f es ports goals new x m =
    let y = In-modify_route r f es x m in
    ap (same_route e) (y.2) ∙ either (same_route r (y.0)) (y.0) (new (y.0) (y.1))
  where
    either :
        (b : Bool) (y : RoutingEntry)
        → same_route e y ≡ false
        → same_route e (if b then f y else y) ≡ false
    either true y h = route_of_same e (f y) y (ports y) (goals y) h
    either false y h = h

retract_found-IsNew :
    (e : RoutingEntry) (d : NodeIdentifier) (t : RoutingTable) (es : List RoutingEntry)
    → IsNew e t.rib
    → IsNew e ((retract_found d t es).table.rib)
unfolding retract_found
retract_found-IsNew e d t [] new = new
retract_found-IsNew e d t (x ∷ es) new =
    λ r m. new r (((In-keep (λ q. not (to_destination d q)) t.rib r).0 m).0)

make_room-IsNew :
    (e : RoutingEntry) (indices : Indices) (m : RoutingEntry) (t : RoutingTable)
    → IsNew e t.rib
    → IsNew e ((make_room indices m t).0.rib)
unfolding make_room retract_destination
make_room-IsNew e indices m t new =
    if_elim (λ (p : RoutingTable × List Effect). IsNew e (p.0.rib)) m.landmark
      (modify_route-IsNew e m (λ r. record r { vicinity = false; extended_vicinity = false }) t.rib
        (λ x. refl) (λ x. refl) new)
      (retract_found-IsNew e m.destination t _ new)

displaced-IsNew :
    (e : RoutingEntry) (env : Environment) (t : RoutingTable) (bucket : ℕ) (m : Option RoutingEntry)
    → IsNew e t.rib
    → IsNew e ((displaced env t bucket m).table.rib)
unfolding displaced
displaced-IsNew e env t bucket none new = new
displaced-IsNew e env t bucket (some m) new =
    if_elim (λ (a : Admission). IsNew e (a.table.rib)) (leb env.maximum_bucket_size bucket)
      (make_room-IsNew e env.indices m t new) new

displace-IsNew :
    (env : Environment) (e m : RoutingEntry) (t : RoutingTable)
    → IsNew e t.rib
    → IsNew e ((displace env e m t).table.rib)
unfolding displace
displace-IsNew env e m t new = displaced-IsNew e env _ _ _ (
    modify_route-IsNew e m (λ r. record r { extended_vicinity = true }) t.rib (λ x. refl)
      (λ x. refl) new)

extend-IsNew :
    (env : Environment) (e : RoutingEntry) (t : RoutingTable)
    → IsNew e t.rib
    → IsNew e ((extend env e t).table.rib)
unfolding extend extended
extend-IsNew env e t new = by_bucket _ _
  where
    by_bucket :
        (bucket : ℕ) (m : Option RoutingEntry) → IsNew e ((extended env e t bucket m).table.rib)
    by_bucket bucket none =
        if_elim (λ (a : Admission). IsNew e (a.table.rib)) (leb env.maximum_bucket_size bucket) new
          new
    by_bucket bucket (some m) =
        if_elim (λ (a : Admission). IsNew e (a.table.rib)) (leb env.maximum_bucket_size bucket)
          (if_elim (λ (a : Admission). IsNew e (a.table.rib)) (ltb (hops e) (hops m))
            (make_room-IsNew e env.indices m t new) new)
          new

last-some : (es : List RoutingEntry) → 0 < length es → (m : RoutingEntry) × (last? es ≡ some m)
last-some [] h = absurd (omega arith)
last-some (e ∷ []) h = (e, refl)
last-some (e ∷ f ∷ es) h = last-some (f ∷ es) (omega arith)

-- The admission of a new route, where the vicinity may have a member.
pub admission-some :
    (env : Environment) (e : RoutingEntry) (t : RoutingTable)
    → 0 < env.maximum_vicinity_size
    → IsRouted t.rib
    → IsNew e t.rib
    → (a : Admission) × (admission env e t ≡ some a)
      × IsRouted (a.table.rib)
      × IsNew e (a.table.rib)
unfolding admission admitted get_current_vicinity
admission-some env e t positive routed new =
    by_vicinity (length members) (last? members) (last-some members)
  where
    members : List RoutingEntry
    members = keep in_vicinity (env.indices.by_vicinity.view t.rib)

    Result : CurrentVicinity → Type 0
    Result v =
        (a : Admission) × (admitted env e t v ≡ some a)
        × IsRouted (a.table.rib)
        × IsNew e (a.table.rib)

    by_vicinity :
        (size : ℕ) (farthest_member : Option RoutingEntry)
        → (0 < size → (m : RoutingEntry) × (farthest_member ≡ some m))
        → Result (record { vicinity_size = size; max_hop_entry = farthest_member })
    by_vicinity size none h =
        let room : leb env.maximum_vicinity_size size ≡ false =
          elim (Bool-cases (leb env.maximum_vicinity_size size)) [
            | inr k ↦ k
            | inl k ↦ ground (arith, (h (omega (arith, leb→le _ _ k, positive))).1)
          ] in
        (
          admit false (t, []),
          ap (λ b. if b then none else some (admit false (t, []))) room,
          routed,
          new,
        )
    by_vicinity size (some m) h =
        let nearer = if ltb (hops e) (hops m) then displace env e m t else extend env e t in
        elim (Bool-cases (leb env.maximum_vicinity_size size)) [
          | inr room ↦ (
            admit false (t, []),
            ap (λ b. if b then some nearer else some (admit false (t, []))) room,
            routed,
            new,
          )
          | inl full ↦ (
            nearer,
            ap (λ b. if b then some nearer else some (admit false (t, []))) full,
            if_elim (λ (a : Admission). IsRouted (a.table.rib)) (ltb (hops e) (hops m))
                (displace-IsRouted env e m t routed) (extend-IsRouted env e t routed),
            if_elim (λ (a : Admission). IsNew e (a.table.rib)) (ltb (hops e) (hops m))
                (displace-IsNew env e m t new) (extend-IsNew env e t new),
          )
        ]
