-- ===== src/Social/RoutingTable/Routes.antt =====
-- Lemmas on the routing information base: its unique key, and what modifying and erasing leave.
use unisphere.Prelude.{
  ◌≡◌, refl, ◌↔◌, inl, inr, true, not, List, [], ◌∷◌, if◌then◌else◌, ==_iff, In, In-keep, ap, subst,
  ◌∙◌, arith,
}
use unisphere.Identity.NodeIdentifier.Order.{id_eq_iff}
use unisphere.Social.RoutingTable.Entry.{
  RoutingEntry, origin_vport, has_route, same_route, modify_route, erase_route,
}

-- Two entries stand for the same route where vport and destination agree.
pub same_route_iff :
    (a b : RoutingEntry)
    → (same_route a b ≡ true)
      ↔ ((origin_vport a ≡ origin_vport b) × (a.destination ≡ b.destination))
unfolding has_route
same_route_iff a b = (
  λ h. ((==_iff _ _).0 (ground arith), (id_eq_iff _ _).0 (ground arith)),
  λ p. ground (arith, (==_iff _ _).1 p.0, (id_eq_iff _ _).1 p.1),
)

pub same_route_refl : (a : RoutingEntry) → same_route a a ≡ true
same_route_refl a = (same_route_iff a a).1 (refl, refl)

-- An entry of a modified table comes from an entry of the table.
pub In-modify_route :
    (r : RoutingEntry) (f : RoutingEntry → RoutingEntry) (es : List RoutingEntry) (x : RoutingEntry)
    → In x (modify_route r f es)
    → (e : RoutingEntry) × In e es × (x ≡ (if same_route r e then f e else e))
unfolding modify_route
In-modify_route r f [] x m = absurd m
In-modify_route r f (e ∷ es) x (inl h) = (e, inl refl, h)
In-modify_route r f (e ∷ es) x (inr m) =
    let ih = In-modify_route r f es x m in (ih.0, inr (ih.1), ih.2)

pub modify_route-In :
    (r : RoutingEntry) (f : RoutingEntry → RoutingEntry) (es : List RoutingEntry) (e : RoutingEntry)
    → In e es
    → In (if same_route r e then f e else e) (modify_route r f es)
unfolding modify_route
modify_route-In r f [] e m = absurd m
modify_route-In r f (x ∷ es) e (inl h) = inl (rw h refl)
modify_route-In r f (x ∷ es) e (inr m) = inr (modify_route-In r f es e m)

-- The elements of one list are those of another, changed one by one.
pub record IsImage (f : RoutingEntry → RoutingEntry) (es fs : List RoutingEntry) : Type 0 where
  pub to : (e : RoutingEntry) → In e es → In (f e) fs
  pub from : (x : RoutingEntry) → In x fs → (e : RoutingEntry) × In e es × (x ≡ f e)

pub IsImage-modify_route :
    (r : RoutingEntry) (f : RoutingEntry → RoutingEntry) (es : List RoutingEntry)
    → IsImage (λ e. if same_route r e then f e else e) es (modify_route r f es)
IsImage-modify_route r f es = record {
  to = λ e m. modify_route-In r f es e m;
  from = λ x m. In-modify_route r f es x m;
}

pub IsImage-refl : (es : List RoutingEntry) → IsImage (λ e. e) es es
IsImage-refl es = record { to = λ e m. m; from = λ x m. (x, m, refl) }

pub IsImage-trans :
    {f g : RoutingEntry → RoutingEntry} (es fs gs : List RoutingEntry)
    → IsImage f es fs
    → IsImage g fs gs
    → IsImage (λ e. g (f e)) es gs
IsImage-trans {f} {g} es fs gs i j = record {
  to = λ e m. j.to (f e) (i.to e m);
  from = λ x m. let y = j.from x m in let z = i.from (y.0) (y.1) in (z.0, z.1, y.2 ∙ ap g (z.2));
}

pub IsImage-ext :
    {f g : RoutingEntry → RoutingEntry} (es fs : List RoutingEntry)
    → IsImage f es fs
    → ((e : RoutingEntry) → In e es → f e ≡ g e)
    → IsImage g es fs
IsImage-ext {f} {g} es fs i h = record {
  to = λ e m. subst (λ x. In x fs) (h e m) (i.to e m);
  from = λ x m. let y = i.from x m in (y.0, y.1, y.2 ∙ h (y.0) (y.1));
}

-- Erasing keeps exactly the entries of other routes.
pub In-erase_route :
    (r x : RoutingEntry) (es : List RoutingEntry)
    → In x (erase_route r es) ↔ (In x es × (not (same_route r x) ≡ true))
unfolding erase_route
In-erase_route r x es = In-keep (λ e. not (same_route r e)) es x
