-- ===== src/Interplex/LinkManager/Managed.antt =====
-- The order of the link manager, and what changes of its map and its counters leave of it.
use unisphere.Prelude.{
  ℕ, ◌+◌, ◌≡◌, refl, false, not, List, [], ◌∷◌, map, if_elim, All, All-keep, arith,
}
use unisphere.Identity.NodeIdentifier.{NodeIdentifier, id_eq}
use unisphere.Interplex.Link.{Link, LinkEffect}
use unisphere.Interplex.Link.Sound.{IsSound, loops, IsReturned, IsSteady}
use unisphere.Interplex.LinkManager.{
  Traffic, LinkTraffic, LinkManager, Asked, link_id, is_for, erase_link, remove_link, put_link,
  asks_removal, settle, count_traffic, counted_for,
}

-- At most one link for a node
abbrev pub IsOnePerNode : List Link → Type 0
IsOnePerNode [] = Unit
IsOnePerNode (k ∷ ks) = All (λ l. is_for (link_id k) l ≡ false) ks × IsOnePerNode ks

abbrev pub sum : (Traffic → ℕ) → List LinkTraffic → ℕ
sum f [] = 0
sum f (l ∷ ls) = f l.traffic + sum f ls

-- Every link is in order, a node has one link at most, and the counters of the links add up to the total.
pub record IsManaged (m : LinkManager) : Type 0 where
  pub sound : All IsSound m.links
  pub single : IsOnePerNode m.links
  pub tallied_xmits : m.total.xmits ≡ sum (λ t. t.xmits) m.by_link
  pub tallied_rcvd : m.total.rcvd ≡ sum (λ t. t.rcvd) m.by_link

abbrev IsAnswered : List Asked → Type 0
IsAnswered es = All (λ e. loops e.asked ≡ false) es

abbrev pub IsOrderly : LinkManager × List Asked → Type 0
IsOrderly o = IsManaged o.0 × IsAnswered o.1

erase-IsOnePerNode :
    (id : NodeIdentifier) (ks : List Link) → IsOnePerNode ks → IsOnePerNode (erase_link id ks)
erase-IsOnePerNode id [] h = tt
erase-IsOnePerNode id (k ∷ ks) h =
    if_elim IsOnePerNode (not (is_for id k))
      (
        All-keep (λ l. is_for (link_id k) l ≡ false) (λ l. not (is_for id l)) ks h.0,
        erase-IsOnePerNode id ks h.1,
      )
      (erase-IsOnePerNode id ks h.1)

erased : (id : NodeIdentifier) (ks : List Link) → All (λ l. is_for id l ≡ false) (erase_link id ks)
erased id [] = tt
erased id (k ∷ ks) = ground (arith, erased id ks)

pub removed-IsManaged :
    (id : NodeIdentifier) (m : LinkManager) → IsManaged m → IsManaged (remove_link id m)
unfolding remove_link
removed-IsManaged id m w = record {
  sound = All-keep IsSound (λ k. not (is_for id k)) m.links w.sound;
  single = erase-IsOnePerNode id m.links w.single;
  tallied_xmits = w.tallied_xmits;
  tallied_rcvd = w.tallied_rcvd;
}

put-IsManaged :
    (k : Link) (m : LinkManager)
    → IsSound k
    → IsManaged m
    → IsManaged (record m { links = put_link k m.links })
put-IsManaged k m s w = record {
  sound = (s, All-keep IsSound (λ l. not (is_for (link_id k) l)) m.links w.sound);
  single = (erased (link_id k) m.links, erase-IsOnePerNode (link_id k) m.links w.single);
  tallied_xmits = w.tallied_xmits;
  tallied_rcvd = w.tallied_rcvd;
}

asked-IsAnswered :
    (id : NodeIdentifier) (es : List LinkEffect)
    → IsReturned es
    → IsAnswered (map (λ e. record { from = id; asked = e }) es)
asked-IsAnswered id [] h = tt
asked-IsAnswered id (e ∷ es) h = (h.0, asked-IsAnswered id es h.1)

pub settle-IsOrderly :
    (o : Link × List LinkEffect) (m : LinkManager)
    → IsSteady o
    → IsManaged m
    → IsOrderly (settle o m)
unfolding settle
settle-IsOrderly o m s w = (
  if_elim IsManaged (asks_removal o.1) (removed-IsManaged (link_id o.0) m w)
      (put-IsManaged o.0 m s.0 w),
  asked-IsAnswered (link_id o.0) o.1 s.1,
)

sum-count_traffic :
    (id : NodeIdentifier) (f : Traffic → Traffic) (g : Traffic → ℕ) (more : ℕ)
    (ls : List LinkTraffic)
    → ((t : Traffic) → g (f t) ≡ g t + more)
    → g (record { xmits = 0; rcvd = 0 }) ≡ 0
    → sum g (count_traffic id f ls) ≡ sum g ls + more
unfolding count_traffic
sum-count_traffic id f g more [] step zeros =
    omega (arith, step (record { xmits = 0; rcvd = 0 }), zeros)
sum-count_traffic id f g more (l ∷ ls) step zeros =
    let later = sum-count_traffic id f g more ls step zeros in
    if_elim (λ ks. sum g ks ≡ g l.traffic + sum g ls + more) (id_eq id l.node)
      (omega (arith, step l.traffic)) (omega (arith, later))

pub counted-IsManaged :
    (id : NodeIdentifier) (f : Traffic → Traffic) (sends receives : ℕ) (m : LinkManager)
    → ((t : Traffic) → (f t).xmits ≡ t.xmits + sends)
    → ((t : Traffic) → (f t).rcvd ≡ t.rcvd + receives)
    → IsManaged m
    → IsManaged (counted_for id f m)
unfolding counted_for
counted-IsManaged id f sends receives m x r w = record {
  sound = w.sound;
  single = w.single;
  tallied_xmits = omega (
    arith,
    x m.total,
    w.tallied_xmits,
    sum-count_traffic id f (λ t. t.xmits) sends m.by_link x refl,
  );
  tallied_rcvd = omega (
    arith,
    r m.total,
    w.tallied_rcvd,
    sum-count_traffic id f (λ t. t.rcvd) receives m.by_link r refl,
  );
}
