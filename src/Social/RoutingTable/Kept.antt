-- ===== src/Social/RoutingTable/Kept.antt =====
-- Every operation of the routing table keeps its invariant.
use unisphere.Prelude.{
  ℕ, ◌≡◌, refl, sym, ap, ◌∙◌, inl, inr, Bool, true, false, not, Option, some, none, List, [], ◌∷◌,
  if◌then◌else◌, if_elim, keep, leb, ltb, find-eq-some, In, In-keep, arith,
}
use unisphere.Identity.NodeIdentifier.{NodeIdentifier, id_eq}
use unisphere.Social.RoutingTable.Entry.{
  RoutingEntry, Indices, origin_vport, to_destination, has_route, same_route, modify_route,
  find_route,
}
use unisphere.Social.RoutingTable.Table.{RoutingTable, Effect}
use unisphere.Social.RoutingTable.Select.{retract_found, retract_destination}
use unisphere.Social.RoutingTable.Import.{
  Environment, make_room, displaced, displace, extended, extend, Admission,
}
use unisphere.Social.RoutingTable.Routes.{same_route_iff, IsImage-modify_route}
use unisphere.Social.RoutingTable.Routed.{
  Server, IsRoutedOn, IsRouted, IsRoutedBut, image-IsRoutedOn,
}

-- A part of the entries is still unique and single; it serves what it still has a server for.
pub part-IsRoutedOn :
    {P Q : NodeIdentifier → Type 0} (es fs : List RoutingEntry)
    → ((e : RoutingEntry) → In e fs → In e es)
    → ((e : RoutingEntry) → In e fs → Q e.destination → Server fs e)
    → IsRoutedOn P es
    → IsRoutedOn Q fs
part-IsRoutedOn es fs within served routed = record {
  unique = λ a b ma mb. routed.unique a b (within a ma) (within b mb);
  single = λ a b ma mb. routed.single a b (within a ma) (within b mb);
  served = served;
}

pub retract_destination-IsRouted :
    (indices : Indices) (d : NodeIdentifier) (t : RoutingTable)
    → IsRouted t.rib
    → IsRouted ((retract_destination indices d t).table.rib)
unfolding retract_destination retract_found
retract_destination-IsRouted indices d t routed =
    by_routes (keep (to_destination d) (indices.by_destination.view t.rib))
  where
    others : List RoutingEntry
    others = keep (λ r. not (to_destination d r)) t.rib

    left : IsRouted others
    left =
        part-IsRoutedOn t.rib others (λ e m. ((In-keep _ t.rib e).0 m).0)
          (λ e m p.
            let here = (In-keep (λ r. not (to_destination d r)) t.rib e).0 m in
            let s = routed.served e (here.0) tt in
            (
              s.0,
              (In-keep (λ r. not (to_destination d r)) t.rib (s.0)).1
                  (s.1, ap (λ x. not (id_eq d x)) (s.3) ∙ here.1),
              s.2,
              s.3,
              s.4,
            ))
          routed

    by_routes : (es : List RoutingEntry) → IsRouted ((retract_found d t es).table.rib)
    by_routes [] = routed
    by_routes (e ∷ es) = left

-- A change to the entries of one route that shows in no field of the invariant.
pub modified_others :
    {P : NodeIdentifier → Type 0} (r : RoutingEntry) (f : RoutingEntry → RoutingEntry)
    (es : List RoutingEntry)
    → ((e : RoutingEntry) → same_route r e ≡ true → origin_vport (f e) ≡ origin_vport e)
    → ((e : RoutingEntry) → (f e).destination ≡ e.destination)
    → ((e : RoutingEntry) → (f e).active ≡ e.active)
    → ((e : RoutingEntry) → same_route r e ≡ true → P e.destination → (f e).cost ≡ e.cost)
    → IsRoutedOn P es
    → IsRoutedOn P (modify_route r f es)
modified_others {P} r f es ports goals flags costs routed =
    image-IsRoutedOn (λ e. if same_route r e then f e else e) es _ (IsImage-modify_route r f es)
      (λ e m. on (same_route r e) (λ x. origin_vport x ≡ origin_vport e) (ports e) refl)
      (λ e m. on (same_route r e) (λ x. x.destination ≡ e.destination) (λ h. goals e) refl)
      (λ e m. on (same_route r e) (λ x. x.active ≡ e.active) (λ h. flags e) refl)
      (λ e m p. on (same_route r e) (λ x. x.cost ≡ e.cost) (λ h. costs e h p) refl) routed
  where
    on :
        {e : RoutingEntry} (b : Bool) (Q : RoutingEntry → Type 0)
        → (b ≡ true → Q (f e))
        → Q e
        → Q (if b then f e else e)
    on true Q h k = h refl
    on false Q h k = k

make_room-IsRouted :
    (indices : Indices) (e : RoutingEntry) (t : RoutingTable)
    → IsRouted t.rib
    → IsRouted ((make_room indices e t).0.rib)
unfolding make_room
make_room-IsRouted indices e t routed =
    if_elim (λ (p : RoutingTable × List Effect). IsRouted (p.0.rib)) e.landmark
      (modified_others e (λ r. record r { vicinity = false; extended_vicinity = false }) t.rib
        (λ r h. refl) (λ r. refl) (λ r. refl) (λ r h p. refl) routed)
      (retract_destination-IsRouted indices e.destination t routed)

displaced-IsRouted :
    (env : Environment) (t : RoutingTable) (bucket : ℕ) (m : Option RoutingEntry)
    → IsRouted t.rib
    → IsRouted ((displaced env t bucket m).table.rib)
unfolding displaced
displaced-IsRouted env t bucket none routed = routed
displaced-IsRouted env t bucket (some m) routed =
    if_elim (λ (a : Admission). IsRouted (a.table.rib)) (leb env.maximum_bucket_size bucket)
      (make_room-IsRouted env.indices m t routed) routed

pub displace-IsRouted :
    (env : Environment) (e m : RoutingEntry) (t : RoutingTable)
    → IsRouted t.rib
    → IsRouted ((displace env e m t).table.rib)
unfolding displace
displace-IsRouted env e m t routed = displaced-IsRouted env _ _ _ (
    modified_others m (λ r. record r { extended_vicinity = true }) t.rib (λ r h. refl) (λ r. refl)
      (λ r. refl) (λ r h p. refl) routed)

extended-IsRouted :
    (env : Environment) (e : RoutingEntry) (t : RoutingTable) (bucket : ℕ) (m : Option RoutingEntry)
    → IsRouted t.rib
    → IsRouted ((extended env e t bucket m).table.rib)
unfolding extended
extended-IsRouted env e t bucket none routed =
    if_elim (λ (a : Admission). IsRouted (a.table.rib)) (leb env.maximum_bucket_size bucket) routed
      routed
extended-IsRouted env e t bucket (some m) routed =
    if_elim (λ (a : Admission). IsRouted (a.table.rib)) (leb env.maximum_bucket_size bucket)
      (if_elim (λ (a : Admission). IsRouted (a.table.rib)) (ltb _ _)
        (make_room-IsRouted env.indices m t routed) routed)
      routed

-- The route's key, as `find` looks for it.
pub found_route :
    (e r : RoutingEntry) (es : List RoutingEntry)
    → find_route (origin_vport e) e.destination es ≡ some r
    → (same_route e r ≡ true) × In r es
unfolding find_route
found_route e r es h = find-eq-some (has_route (origin_vport e) e.destination) es r h

-- A new entry that is not active leaves only its own destination to be served.
pub insert-IsRoutedBut :
    (e : RoutingEntry) (es : List RoutingEntry)
    → e.active ≡ false
    → ((r : RoutingEntry) → In r es → same_route e r ≡ false)
    → IsRouted es
    → IsRoutedBut e.destination (e ∷ es)
insert-IsRoutedBut e es off new routed = record {
  unique = λ a b ma mb s. uniquely a b ma mb s;
  single = λ a b ma mb oa ob g. singly a b ma mb oa ob g;
  served = λ a ma p. serve a ma p;
}
  where
    uniquely : (a b : RoutingEntry) → In a (e ∷ es) → In b (e ∷ es) → same_route a b ≡ true → a ≡ b
    uniquely a b (inl h) (inl k) s = h ∙ sym k
    uniquely a b (inl h) (inr k) s = ground (arith, ap (λ x. same_route x b) h, new b k)
    uniquely a b (inr h) (inl k) s =
        let swap = (same_route_iff a b).0 s in
        let back = (same_route_iff b a).1 (sym (swap.0), sym (swap.1)) in
        ground (arith, ap (λ x. same_route x a) k, new a h, back)
    uniquely a b (inr h) (inr k) s = routed.unique a b h k s

    singly :
        (a b : RoutingEntry)
        → In a (e ∷ es)
        → In b (e ∷ es)
        → a.active ≡ true
        → b.active ≡ true
        → a.destination ≡ b.destination
        → a ≡ b
    singly a b (inl h) mb oa ob g = ground (arith, ap (λ x. x.active) h, off)
    singly a b (inr h) (inl k) oa ob g = ground (arith, ap (λ x. x.active) k, off)
    singly a b (inr h) (inr k) oa ob g = routed.single a b h k oa ob g

    serve :
        (a : RoutingEntry) → In a (e ∷ es) → ¬ (a.destination ≡ e.destination) → Server (e ∷ es) a
    serve a (inl h) p = absurd (p (ap (λ x. x.destination) h))
    serve a (inr m) p = let s = routed.served a m tt in (s.0, inr (s.1), s.2, s.3, s.4)

pub extend-IsRouted :
    (env : Environment) (e : RoutingEntry) (t : RoutingTable)
    → IsRouted t.rib
    → IsRouted ((extend env e t).table.rib)
unfolding extend
extend-IsRouted env e t routed = extended-IsRouted env e t _ _ routed
