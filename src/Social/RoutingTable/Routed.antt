-- ===== src/Social/RoutingTable/Routed.antt =====
-- The invariant of the routing information base, and that a selection restores it.
use unisphere.Prelude.{
  ◌≡◌, refl, sym, ap, subst, ◌∙◌, inl, inr, ◌≤◌, Bool, true, false, List, if◌then◌else◌, In,
  Bool-cases, arith,
}
use unisphere.Identity.NodeIdentifier.{NodeIdentifier, id_eq}
use unisphere.Identity.NodeIdentifier.Order.{id_eq_iff}
use unisphere.Social.RoutingTable.Entry.{RoutingEntry, Indices, origin_vport, same_route}
use unisphere.Social.RoutingTable.Table.{RoutingTable}
use unisphere.Social.RoutingTable.Select.{set_active, select_best_route, Selection}
use unisphere.Social.RoutingTable.Routes.{same_route_iff, same_route_refl, IsImage}
use unisphere.Social.RoutingTable.Selected.{
  IsUnique, IsSingle, IsCheapest, IsSelected, mark, select_best_route-IsSelected,
}

-- An active route to the destination of an entry that costs no more than the entry.
abbrev pub Server : List RoutingEntry → RoutingEntry → Type 0
Server es e =
    (b : RoutingEntry) × In b es
    × (b.active ≡ true)
    × (b.destination ≡ e.destination)
    × (b.cost ≤ e.cost)

-- One entry for each vport and destination, at most one active entry for each destination, and for the
-- destinations in `P` one of least cost.
pub record IsRoutedOn (P : NodeIdentifier → Type 0) (es : List RoutingEntry) : Type 0 where
  pub unique : IsUnique es
  pub single : IsSingle es
  pub served : (e : RoutingEntry) → In e es → P e.destination → Server es e

abbrev pub IsRouted : List RoutingEntry → Type 0
IsRouted es = IsRoutedOn (λ d. Unit) es

abbrev pub IsRoutedBut : NodeIdentifier → List RoutingEntry → Type 0
IsRoutedBut d es = IsRoutedOn (λ x. ¬ (x ≡ d)) es

-- A change to the entries that keeps their routes keeps them unique.
IsUnique-image :
    (f : RoutingEntry → RoutingEntry) (es fs : List RoutingEntry)
    → IsImage f es fs
    → ((e : RoutingEntry) → In e es → origin_vport (f e) ≡ origin_vport e)
    → ((e : RoutingEntry) → In e es → (f e).destination ≡ e.destination)
    → IsUnique es
    → IsUnique fs
IsUnique-image f es fs image ports goals unique a b ma mb same =
    let x = image.from a ma in
    let y = image.from b mb in
    let both = (same_route_iff a b).0 same in
    let port =
      sym (ports (x.0) (x.1))
      ∙ ap origin_vport (sym (x.2))
      ∙ both.0
      ∙ ap origin_vport (y.2)
      ∙ ports (y.0) (y.1) in
    let goal =
      sym (goals (x.0) (x.1))
      ∙ ap (λ e. e.destination) (sym (x.2))
      ∙ both.1
      ∙ ap (λ e. e.destination) (y.2)
      ∙ goals (y.0) (y.1) in
    x.2
    ∙ ap f (unique (x.0) (y.0) (x.1) (y.1) ((same_route_iff (x.0) (y.0)).1 (port, goal)))
    ∙ sym (y.2)

pub image-IsRoutedOn :
    {P : NodeIdentifier → Type 0} (f : RoutingEntry → RoutingEntry) (es fs : List RoutingEntry)
    → IsImage f es fs
    → ((e : RoutingEntry) → In e es → origin_vport (f e) ≡ origin_vport e)
    → ((e : RoutingEntry) → In e es → (f e).destination ≡ e.destination)
    → ((e : RoutingEntry) → In e es → (f e).active ≡ e.active)
    → ((e : RoutingEntry) → In e es → P e.destination → (f e).cost ≡ e.cost)
    → IsRoutedOn P es
    → IsRoutedOn P fs
image-IsRoutedOn {P} f es fs image ports goals flags costs routed = record {
  unique = IsUnique-image f es fs image ports goals routed.unique;
  single = λ a b ma mb oa ob g.
      let x = image.from a ma in
      let y = image.from b mb in
      x.2
      ∙ ap f (
          routed.single (x.0) (y.0) (x.1) (y.1)
            (sym (flags (x.0) (x.1)) ∙ ap (λ e. e.active) (sym (x.2)) ∙ oa)
            (sym (flags (y.0) (y.1)) ∙ ap (λ e. e.active) (sym (y.2)) ∙ ob)
            (sym (goals (x.0) (x.1))
              ∙ ap (λ e. e.destination) (sym (x.2))
              ∙ g
              ∙ ap (λ e. e.destination) (y.2)
              ∙ goals (y.0) (y.1)))
      ∙ sym (y.2);
  served = λ a ma p.
      let x = image.from a ma in
      let goal = ap (λ e. e.destination) (x.2) ∙ goals (x.0) (x.1) in
      let s = routed.served (x.0) (x.1) (subst P goal p) in
      let b = s.0 in
      (
        f b,
        image.to b (s.1),
        flags b (s.1) ∙ s.2,
        goals b (s.1) ∙ s.3 ∙ sym goal,
        omega (
          arith,
          costs b (s.1) (subst P (goal ∙ sym (s.3)) p),
          costs (x.0) (x.1) (subst P goal p),
          ap (λ e. e.cost) (x.2),
          s.4,
        ),
      );
}

set_active_if :
    (c b : Bool) (e : RoutingEntry)
    → (origin_vport (if c then set_active b e else e) ≡ origin_vport e)
      × ((if c then set_active b e else e).destination ≡ e.destination)
      × ((if c then set_active b e else e).cost ≡ e.cost)
      × ((if c then set_active b e else e).active ≡ (if c then b else e.active))
set_active_if true b e = (refl, refl, refl, refl)
set_active_if false b e = (refl, refl, refl, refl)

marked :
    (d : NodeIdentifier) (n e : RoutingEntry)
    → (origin_vport (mark d n e) ≡ origin_vport e)
      × ((mark d n e).destination ≡ e.destination)
      × ((mark d n e).cost ≡ e.cost)
      × ((mark d n e).active ≡ (if id_eq d e.destination then same_route n e else e.active))
marked d n e = set_active_if (id_eq d e.destination) (same_route n e) e

-- The flag after the selection, for an entry to its destination and for any other.
marked_here :
    (d : NodeIdentifier) (n e : RoutingEntry)
    → e.destination ≡ d
    → (mark d n e).active ≡ same_route n e
marked_here d n e g =
    (marked d n e).3
    ∙ ap (λ c. if c then same_route n e else e.active) ((id_eq_iff d e.destination).1 (sym g))

marked_elsewhere :
    (d : NodeIdentifier) (n e : RoutingEntry)
    → id_eq d e.destination ≡ false
    → (mark d n e).active ≡ e.active
marked_elsewhere d n e g = (marked d n e).3 ∙ ap (λ c. if c then same_route n e else e.active) g

-- A selection for `d` makes up for the missing active route to `d`.
pub select-IsRouted :
    (indices : Indices) (d : NodeIdentifier) (t : RoutingTable)
    → IsRoutedBut d t.rib
    → IsRouted ((select_best_route indices d t).table.rib)
select-IsRouted indices d t routed =
    by_cases (select_best_route indices d t)
      (select_best_route-IsSelected indices d t routed.unique routed.single)
  where
    by_cases : (s : Selection) → IsSelected d t s → IsRouted (s.table.rib)
    by_cases s (inl none_here) =
        subst (λ u. IsRouted (u.rib)) (sym (none_here.1))
          (record {
            unique = routed.unique;
            single = routed.single;
            served = λ e m p. routed.served e m (none_here.0 e m);
          })
    by_cases s (inr chosen) =
        let n = chosen.0 in
        let best = chosen.1 in
        let image = chosen.2 in
        record {
          unique =
              IsUnique-image (mark d n) t.rib _ image (λ e m. (marked d n e).0)
                (λ e m. (marked d n e).1) routed.unique;
          single = λ a b ma mb oa ob g.
              let x = image.from a ma in
              let y = image.from b mb in
              x.2
              ∙ ap (mark d n) (
                  same_active n best (x.0) (y.0) (x.1) (y.1) (ap (λ e. e.active) (sym (x.2)) ∙ oa)
                    (ap (λ e. e.active) (sym (y.2)) ∙ ob)
                    (sym ((marked d n (x.0)).1)
                      ∙ ap (λ e. e.destination) (sym (x.2))
                      ∙ g
                      ∙ ap (λ e. e.destination) (y.2)
                      ∙ (marked d n (y.0)).1))
              ∙ sym (y.2);
          served = λ a ma p. served_by n best s image a ma;
        }
      where
        same_active :
            (n : RoutingEntry)
            → IsCheapest d n t.rib
            → (x y : RoutingEntry) → In x t.rib
            → In y t.rib
            → (mark d n x).active ≡ true
            → (mark d n y).active ≡ true
            → x.destination ≡ y.destination
            → x ≡ y
        same_active n best x y mx my ox oy g = elim (Bool-cases (id_eq d x.destination)) [
          | inl here ↦
              let gx = sym ((id_eq_iff d x.destination).0 here) in
              let nx = routed.unique n x best.member mx (sym (marked_here d n x gx) ∙ ox) in
              let ny =
                routed.unique n y best.member my (sym (marked_here d n y (sym g ∙ gx)) ∙ oy) in
              sym nx ∙ ny
          | inr other ↦
              routed.single x y mx my (sym (marked_elsewhere d n x other) ∙ ox)
                (sym (marked_elsewhere d n y (ap (id_eq d) (sym g) ∙ other)) ∙ oy) g
        ]

        served_by :
            (n : RoutingEntry)
            → IsCheapest d n t.rib
            → (s : Selection) → IsImage (mark d n) t.rib (s.table.rib)
            → (a : RoutingEntry) → In a (s.table.rib)
            → Server (s.table.rib) a
        served_by n best s image a ma =
            let x = image.from a ma in
            let goal = ap (λ e. e.destination) (x.2) ∙ (marked d n (x.0)).1 in
            let price = ap (λ e. e.cost) (x.2) ∙ (marked d n (x.0)).2 in
            elim (Bool-cases (id_eq d (x.0).destination)) [
              | inl here ↦
                  let gx = sym ((id_eq_iff d (x.0).destination).0 here) in
                  (
                    mark d n n,
                    image.to n best.member,
                    marked_here d n n best.goes ∙ same_route_refl n,
                    (marked d n n).1 ∙ best.goes ∙ sym gx ∙ sym goal,
                    omega (arith, (marked d n n).2, price, best.least (x.0) (x.1) gx),
                  )
              | inr other ↦
                  let b =
                    routed.served (x.0) (x.1)
                      (λ g. ground (arith, other, (id_eq_iff d (x.0).destination).1 (sym g))) in
                  (
                    mark d n (b.0),
                    image.to (b.0) (b.1),
                    marked_elsewhere d n (b.0) (ap (id_eq d) (b.3) ∙ other) ∙ b.2,
                    (marked d n (b.0)).1 ∙ b.3 ∙ sym goal,
                    omega (arith, (marked d n (b.0)).2, price, b.4),
                  )
            ]
