-- ===== src/Social/RoutingTable/Selected.antt =====
-- What `select_best_route` leaves in the table.
use unisphere.Prelude.{
  ◌≡◌, refl, sym, ap, subst, ◌∙◌, ◌↔◌, ◌⊎◌, inl, inr, ◌≤◌, Bool, true, false, Option, some, none,
  List, [], ◌∷◌, if◌then◌else◌, find, keep, In, In-keep, Bool-cases, arith,
}
use unisphere.Prelude.Index.{find-least}
use unisphere.Identity.NodeIdentifier.{NodeIdentifier, id_eq}
use unisphere.Identity.NodeIdentifier.Order.{id_eq_iff}
use unisphere.Social.RoutingTable.Entry.{
  RoutingEntry, Indices, to_destination, has_route, same_route, destination_lt,
}
use unisphere.Social.RoutingTable.Table.{RoutingTable}
use unisphere.Social.RoutingTable.Select.{
  scan_routes, set_active, activate, no_selection, select_best_route, Selection,
}
use unisphere.Social.RoutingTable.Routes.{
  same_route_iff, same_route_refl, IsImage, IsImage-modify_route, IsImage-refl, IsImage-trans,
  IsImage-ext,
}

-- One entry for each route, and one active entry for each destination.
abbrev pub IsUnique : List RoutingEntry → Type 0
IsUnique es = (a b : RoutingEntry) → In a es → In b es → same_route a b ≡ true → a ≡ b

abbrev pub IsSingle : List RoutingEntry → Type 0
IsSingle es =
    (a b : RoutingEntry)
    → In a es
    → In b es
    → a.active ≡ true
    → b.active ≡ true
    → a.destination ≡ b.destination
    → a ≡ b

-- The scan keeps its first route, and finds an active one if there is one.
scan-new :
    (es : List RoutingEntry) (old : Option RoutingEntry) (n : RoutingEntry)
    → (scan_routes es old (some n)).1 ≡ some n
unfolding scan_routes
scan-new [] old n = refl
scan-new (e ∷ es) none n = ground (arith, scan-new es none n)
scan-new (e ∷ es) (some o) n = ground arith

scan-some :
    (es : List RoutingEntry) (old : Option RoutingEntry) (n o : RoutingEntry)
    → (scan_routes es old (some n)).0 ≡ some o
    → (old ≡ some o) ⊎ (In o es × (o.active ≡ true))
unfolding scan_routes
scan-some [] old n o h = inl h
scan-some (e ∷ es) none n o h = ground (arith, scan-some es none n o)
scan-some (e ∷ es) (some p) n o h = ground arith

scan-none :
    (es : List RoutingEntry) (old : Option RoutingEntry) (n : RoutingEntry)
    → (scan_routes es old (some n)).0 ≡ none
    → (old ≡ none) × ((e : RoutingEntry) → In e es → e.active ≡ false)
unfolding scan_routes
scan-none [] old n h = (h, λ e m. absurd m)
scan-none (x ∷ es) (some p) n h = ground arith
scan-none (x ∷ es) none n h = elim (Bool-cases x.active) [
  | inl a ↦ ground arith
  | inr a ↦ let ih = scan-none es none n (ground arith) in (refl, later x es (ih.1) a)
]
  where
    later :
        (x : RoutingEntry) (es : List RoutingEntry)
        → ((e : RoutingEntry) → In e es → e.active ≡ false)
        → x.active ≡ false
        → (e : RoutingEntry) → In e (x ∷ es)
        → e.active ≡ false
    later x es ih a e (inl h) = rw h a
    later x es ih a e (inr m) = ih e m

-- A cheapest route to a destination.
pub record IsCheapest (d : NodeIdentifier) (n : RoutingEntry) (es : List RoutingEntry)
    : Type 0 where
  pub member : In n es
  pub goes : n.destination ≡ d
  pub least : (e : RoutingEntry) → In e es → e.destination ≡ d → n.cost ≤ e.cost

-- The selection's effect on one entry.
abbrev pub mark : NodeIdentifier → RoutingEntry → RoutingEntry → RoutingEntry
mark d n e = if to_destination d e then set_active (same_route n e) e else e

set_active_same : (b : Bool) (e : RoutingEntry) → e.active ≡ b → set_active b e ≡ e
set_active_same b e h = ap (λ a. set_active a e) (sym h)

to_destination_iff :
    (d : NodeIdentifier) (e : RoutingEntry) → (to_destination d e ≡ true) ↔ (e.destination ≡ d)
to_destination_iff d e =
    (λ h. sym ((id_eq_iff d e.destination).0 h), λ h. (id_eq_iff d e.destination).1 (sym h))

find-keep :
    (p : RoutingEntry → Bool) (es : List RoutingEntry) (n : RoutingEntry) (rest : List RoutingEntry)
    → keep p es ≡ n ∷ rest
    → find p es ≡ some n
find-keep p [] n rest h = ground arith
find-keep p (e ∷ es) n rest h = ground (arith, find-keep p es n rest)

least_cost :
    (n e : RoutingEntry)
    → n.destination ≡ e.destination
    → (destination_lt e n ≡ false) ⊎ (n ≡ e)
    → n.cost ≤ e.cost
least_cost n e g (inr h) = rw h (omega arith)
least_cost n e g (inl h) = ground (arith, (id_eq_iff e.destination n.destination).1 (sym g))

-- The scan, started on the routes, finds an active one of them unless none is active.
scan-some_start :
    (n o : RoutingEntry) (es : List RoutingEntry)
    → (scan_routes (n ∷ es) none none).0 ≡ some o
    → In o (n ∷ es) × (o.active ≡ true)
unfolding scan_routes
scan-some_start n o es h = elim (scan-some es (if n.active then some n else none) n o h) [
  | inr m ↦ (inr (m.0), m.1)
  | inl k ↦ elim (Bool-cases n.active) [ inl a ↦ ground arith | inr a ↦ ground arith ]
]

scan-none_start :
    (n : RoutingEntry) (es : List RoutingEntry)
    → (scan_routes (n ∷ es) none none).0 ≡ none
    → (e : RoutingEntry) → In e (n ∷ es)
    → e.active ≡ false
unfolding scan_routes
scan-none_start n es h e (inl k) =
    rw k (ground (arith, scan-none es (if n.active then some n else none) n h))
scan-none_start n es h e (inr m) = (scan-none es (if n.active then some n else none) n h).1 e m

module _ (indices : Indices) (d : NodeIdentifier) (t : RoutingTable) where
  abbrev routes : List RoutingEntry
  routes = keep (to_destination d) (indices.by_destination.view t.rib)

  routes_iff : (e : RoutingEntry) → In e routes ↔ (In e t.rib × (e.destination ≡ d))
  routes_iff e =
      let kept = In-keep (to_destination d) (indices.by_destination.view t.rib) e in
      let seen = indices.by_destination.view-In t.rib e in
      let goes = to_destination_iff d e in
      (
        λ m. (seen.0 ((kept.0 m).0), goes.0 ((kept.0 m).1)),
        λ p. kept.1 (seen.1 (p.0), goes.1 (p.1)),
      )

  -- The first route of the index is a cheapest one.
  first-IsCheapest :
      (n : RoutingEntry) (es : List RoutingEntry) → routes ≡ n ∷ es → IsCheapest d n t.rib
  first-IsCheapest n es h =
      let here = (routes_iff n).0 (rw h (inl refl)) in
      record {
        member = here.0;
        goes = here.1;
        least = λ e m g. least_cost n e (here.1 ∙ sym g) (
            find-least destination_lt (to_destination d) _ n e
              (indices.by_destination.view-IsSorted t.rib) (find-keep (to_destination d) _ n es h)
              ((indices.by_destination.view-In t.rib e).1 m) ((to_destination_iff d e).1 g));
      }

-- How `mark` reads for an entry whose flag is known.
mark_other :
    (d : NodeIdentifier) (n e : RoutingEntry) → id_eq d e.destination ≡ false → e ≡ mark d n e
mark_other d n e h = rw (mark, h) refl

mark_kept : (d : NodeIdentifier) (n e : RoutingEntry) → e.active ≡ same_route n e → e ≡ mark d n e
mark_kept d n e h = elim (Bool-cases (id_eq d e.destination)) [
  | inl g ↦ rw (mark, g) (sym (set_active_same (same_route n e) e h))
  | inr g ↦ mark_other d n e g
]

not_active_other :
    (n e : RoutingEntry) → (e.active ≡ true → n ≡ e) → same_route n e ≡ false → e.active ≡ false
not_active_other n e h s = elim (Bool-cases e.active) [
  | inr a ↦ a
  | inl a ↦ ground (arith, ap (same_route n) (h a), same_route_refl n)
]

-- The change to one entry, where the active route `o` gives way to `n`, and where there was none.
abbrev replaced : RoutingEntry → RoutingEntry → RoutingEntry → RoutingEntry
replaced n o e =
    let f = if same_route o e then set_active false e else e in
    if same_route n f then set_active true f else f

flag_branch :
    (b : Bool) (e : RoutingEntry)
    → (if b then set_active true e else set_active false e) ≡ set_active b e
flag_branch true e = refl
flag_branch false e = refl

replaced_flag :
    (a : Bool) (n e : RoutingEntry)
    → (a ≡ false → e.active ≡ false)
    → (let f = if a then set_active false e else e in
        if same_route n f then set_active true f else f)
      ≡ set_active (same_route n e) e
unfolding has_route
replaced_flag true n e h = flag_branch (same_route n e) e
replaced_flag false n e h =
    let still = set_active_same false e (h refl) in
    ap (λ f. if same_route n e then set_active true e else f) (sym still)
    ∙ flag_branch (same_route n e) e

apart :
    (d : NodeIdentifier) (a e : RoutingEntry)
    → a.destination ≡ d
    → id_eq d e.destination ≡ false
    → same_route a e ≡ false
apart d a e g h = elim (Bool-cases (same_route a e)) [
  | inr k ↦ k
  | inl k ↦ ground (arith, (id_eq_iff d e.destination).1 (sym g ∙ ((same_route_iff a e).0 k).1))
]

replaced-eq_mark :
    (d : NodeIdentifier) (n o e : RoutingEntry)
    → (e.destination ≡ d → e.active ≡ true → o ≡ e)
    → n.destination ≡ d
    → o.destination ≡ d
    → replaced n o e ≡ mark d n e
replaced-eq_mark d n o e single gn go = elim (Bool-cases (id_eq d e.destination)) [
  | inl g ↦
      replaced_flag (same_route o e) n e (λ k. elim (Bool-cases e.active) [
        | inr a ↦ a
        | inl a ↦
            let same = single (sym ((id_eq_iff d e.destination).0 g)) a in
            ground (arith, ap (same_route o) same, same_route_refl o)
      ])
      ∙ marked g
  | inr g ↦ untouched (same_route o e) (apart d o e go g) (apart d n e gn g) ∙ mark_other d n e g
]
  where
    marked : id_eq d e.destination ≡ true → set_active (same_route n e) e ≡ mark d n e
    marked g = rw (mark, g) refl

    untouched :
        (a : Bool)
        → a ≡ false
        → same_route n e ≡ false
        → (let f = if a then set_active false e else e in
            if same_route n f then set_active true f else f)
          ≡ e
    untouched a h k = ground (arith, h, k)

module _ (d : NodeIdentifier) (n : RoutingEntry) (t : RoutingTable) (unique : IsUnique t.rib)
    (single : IsSingle t.rib) (best : IsCheapest d n t.rib) where
  -- Activation marks the routes to one destination, and leaves the others.
  activate-none :
      ((e : RoutingEntry) → In e t.rib → e.destination ≡ d → e.active ≡ false)
      → IsImage (mark d n) t.rib ((activate d n none t).table.rib)
  unfolding activate
  activate-none inactive =
      IsImage-ext t.rib _ (IsImage-modify_route n (set_active true) t.rib)
        (λ e m. fresh e (inactive e m) (Bool-cases (id_eq d e.destination)))
    where
      fresh :
          (e : RoutingEntry)
          → (e.destination ≡ d → e.active ≡ false)
          → (id_eq d e.destination ≡ true) ⊎ (id_eq d e.destination ≡ false)
          → (if same_route n e then set_active true e else e) ≡ mark d n e
      fresh e h (inl g) =
          let off = set_active_same false e (h (sym ((id_eq_iff d e.destination).0 g))) in
          rw (mark, g)
            (ap (λ f. if same_route n e then set_active true e else f) (sym off)
              ∙ flag_branch (same_route n e) e)
      fresh e h (inr g) =
          ap (λ b. if b then set_active true e else e) (apart d n e best.goes g)
          ∙ mark_other d n e g

  activate-some :
      (o : RoutingEntry)
      → In o t.rib
      → o.destination ≡ d
      → o.active ≡ true
      → IsImage (mark d n) t.rib ((activate d n (some o) t).table.rib)
  unfolding activate
  activate-some o m go a = elim (Bool-cases (same_route n o)) [
    | inl same ↦ rw same (
        IsImage-ext t.rib t.rib (IsImage-refl t.rib)
          (λ e k. kept e k ((unique n o best.member m same))))
    | inr other ↦ rw other (
        IsImage-ext t.rib _
          (IsImage-trans t.rib _ _ (IsImage-modify_route o (set_active false) t.rib)
            (IsImage-modify_route n (set_active true) _))
          (λ e k. replaced-eq_mark d n o e (λ g b. single o e m k a b (go ∙ sym g)) best.goes go))
  ]
    where
      kept : (e : RoutingEntry) → In e t.rib → n ≡ o → e ≡ mark d n e
      kept e k same = elim (Bool-cases (id_eq d e.destination)) [
        | inr g ↦ mark_other d n e g
        | inl g ↦ mark_kept d n e (elim (Bool-cases e.active) [
          | inl b ↦
              let is = single o e m k a b (go ∙ (id_eq_iff d e.destination).0 g) in
              b ∙ sym (ap (same_route n) (sym is ∙ sym same) ∙ same_route_refl n)
          | inr b ↦
              b
              ∙ sym (elim (Bool-cases (same_route n e)) [
                | inr r ↦ r
                | inl r ↦
                    let is = unique n e best.member k r in
                    ground (arith, sym a ∙ ap (λ x. x.active) (sym same ∙ is) ∙ b)
              ])
        ])
      ]

-- A selection either finds no route and changes nothing, or it marks a cheapest route as the active one.
abbrev pub IsSelected : NodeIdentifier → RoutingTable → Selection → Type 0
IsSelected d t s =
    (((e : RoutingEntry) → In e t.rib → ¬ (e.destination ≡ d))
      × (s.table ≡ t)
      × (s.activated ≡ false))
    ⊎ ((n : RoutingEntry) × IsCheapest d n t.rib
        × IsImage (mark d n) t.rib (s.table.rib)
        × (s.activated ≡ true))

activated_true :
    (d : NodeIdentifier) (n : RoutingEntry) (old : Option RoutingEntry) (t : RoutingTable)
    → (activate d n old t).activated ≡ true
unfolding activate
activated_true d n old t = ground arith

picked : NodeIdentifier → RoutingTable → List RoutingEntry → Selection
picked d t rs =
    let best = scan_routes rs none none in
    elim best.1 [ none ↦ no_selection t | some n ↦ activate d n best.0 t ]

pub select_best_route-IsSelected :
    (indices : Indices) (d : NodeIdentifier) (t : RoutingTable)
    → IsUnique t.rib
    → IsSingle t.rib
    → IsSelected d t (select_best_route indices d t)
unfolding select_best_route picked scan_routes
select_best_route-IsSelected indices d t unique single = by_routes (routes indices d t) refl
  where
    found :
        (n : RoutingEntry) (es : List RoutingEntry) (old : Option RoutingEntry)
        → routes indices d t ≡ n ∷ es
        → (scan_routes (n ∷ es) none none).0 ≡ old
        → IsImage (mark d n) t.rib ((activate d n old t).table.rib)
    found n es none h k =
        activate-none d n t unique single (first-IsCheapest indices d t n es h) (λ e m g.
          scan-none_start n es k e (subst (λ rs. In e rs) h ((routes_iff indices d t e).1 (m, g))))
    found n es (some o) h k =
        let on = scan-some_start n o es k in
        let here = (routes_iff indices d t o).0 (subst (λ rs. In o rs) (sym h) (on.0)) in
        activate-some d n t unique single (first-IsCheapest indices d t n es h) o (here.0) (here.1)
          (on.1)

    by_routes : (rs : List RoutingEntry) → routes indices d t ≡ rs → IsSelected d t (picked d t rs)
    by_routes [] h =
        inl (λ e m g. subst (λ rs. In e rs) h ((routes_iff indices d t e).1 (m, g)), refl, refl)
    by_routes (n ∷ es) h =
        let old = scan_routes (n ∷ es) none none in
        subst
          (λ o. IsSelected d t (elim o [ none ↦ no_selection t | some m ↦ activate d m old.0 t ]))
          (sym (scan-new es (if n.active then some n else none) n))
          (inr (
            n,
            first-IsCheapest indices d t n es h,
            found n es (old.0) h refl,
            activated_true d n (old.0) t,
          ))
