-- ===== src/Social/Router/Receive/Consistent.antt =====
-- What the exports and the operations of the routing table leave consistent.
use unisphere.Prelude.{
  ℕ, zero, suc, ◌+◌, ◌<◌, ◌≡◌, refl, sym, subst, ◌∙◌, false, Option, some, none, List, [], ◌∷◌,
  ◌++◌, if_elim,
}
use unisphere.Identity.NodeIdentifier.{NodeIdentifier, is_null}
use unisphere.Social.Peer.{Peer, peer_id, get_private_security_association}
use unisphere.Social.SocialIdentity.{get_peer}
use unisphere.Social.RoutingTable.Entry.{RoutingEntry}
use unisphere.Social.RoutingTable.Table as Table
use unisphere.Social.RoutingTable.Table.{RoutingTable, get_vport_for_neighbor}
use unisphere.Social.RoutingTable.Routed.{IsRouted}
use unisphere.Social.RoutingTable.Operations.{import-some}
use unisphere.Social.RoutingTable.Histories.{neighbor-rib}
use unisphere.Social.NameDatabase.Invariant.{IsWellFormed, store_addresses-IsWellFormed}
use unisphere.Social.Router.State.{Router, Surroundings, Effect}
use unisphere.Social.Router.Associations.{
  sa_refresh, refresh_by_count, refresh_new, retransmit, refresh_count,
}
use unisphere.Social.Router.Export.{
  Called, and_then, queue_announce, export_with, export_to, export_all, export_delegated,
  export_from, rib_export_entry, retract_to, rib_retract_entry, perform_one, perform,
}
use unisphere.Social.Router.Receive.{after_table, import_entry}

-- The routes are single and served, and the records unique with a bounded cache.
pub record IsConsistent (r : Router) : Type 0 where
  pub routed : IsRouted r.routes.rib
  pub well_formed : IsWellFormed r.names.records

abbrev pub OnReturn : (Router → Type 0) → Called → Type 0
OnReturn P none = Unit
OnReturn P (some o) = P o.0

pub and_then-OnReturn :
    (P : Router → Type 0) (o : Called) (f : Router → Called)
    → OnReturn P o
    → ((r : Router) → P r → OnReturn P (f r))
    → OnReturn P (and_then o f)
and_then-OnReturn P none f h k = tt
and_then-OnReturn P (some o) f h k = by_rest (f o.0) (k o.0 h)
  where
    by_rest :
        (q : Called)
        → OnReturn P q
        → OnReturn P (elim q as (λ x. Called) [ none ↦ none | some v ↦ some (v.0, o.1 ++ v.1) ])
    by_rest none m = tt
    by_rest (some v) m = m

pub option-OnReturn :
    {A : Type 0} (P : Router → Type 0) (o : Option A) (x : Called) (f : A → Called)
    → OnReturn P x
    → ((a : A) → OnReturn P (f a))
    → OnReturn P (elim o as (λ q. Called) [ none ↦ x | some a ↦ f a ])
option-OnReturn P none x f h k = h
option-OnReturn P (some a) x f h k = k a

-- The parts of the router that the invariant reads, unchanged.
abbrev pub Keeps : Router → Router → Type 0
Keeps r q = (q.routes.rib ≡ r.routes.rib) × (q.names ≡ r.names)

pub kept-IsConsistent : (r q : Router) → Keeps r q → IsConsistent r → IsConsistent q
kept-IsConsistent r q k w = record {
  routed = subst IsRouted (sym k.0) w.routed;
  well_formed = subst (λ n. IsWellFormed n.records) (sym k.1) w.well_formed;
}

Keeps-trans : (r q p : Router) → Keeps r q → Keeps q p → Keeps r p
Keeps-trans r q p h k = (k.0 ∙ h.0, k.1 ∙ h.1)

module _ (env : Surroundings) where
  export_with-Keeps :
      (e : RoutingEntry) (p : Peer) (o : Option (List ℕ)) (r : Router)
      → Keeps r (export_with env e p o r).0
  unfolding export_with queue_announce
  export_with-Keeps e p none r = (refl, refl)
  export_with-Keeps e p (some sa) r =
      if_elim (λ (o : Router × List Effect). Keeps r o.0) _ (neighbor-rib _ r.routes, refl)
        (neighbor-rib _ r.routes, refl)

  export_to-Keeps : (e : RoutingEntry) (p : Peer) (r : Router) → Keeps r (export_to env e p r).0
  unfolding export_to
  export_to-Keeps e p r = export_with-Keeps e p _ (record r { entropy = r.entropy + 1 })

  export_all-Keeps :
      (e : RoutingEntry) (ps : List Peer) (r : Router) → Keeps r (export_all env e ps r).0
  unfolding export_all
  export_all-Keeps e [] r = (refl, refl)
  export_all-Keeps e (p ∷ ps) r =
      let first = export_to env e p r in
      Keeps-trans r first.0 (export_all env e ps first.0).0 (export_to-Keeps e p r)
        (export_all-Keeps e ps first.0)

  rib_export_entry-Keeps :
      (e : RoutingEntry) (peer : NodeIdentifier) (r : Router)
      → OnReturn (Keeps r) (rib_export_entry env e peer r)
  unfolding rib_export_entry export_from export_delegated
  rib_export_entry-Keeps e peer r =
      option-OnReturn (Keeps r) (get_peer _ r.identity) none (λ p. export_from env e peer p r) tt
        (λ p.
          option-OnReturn (Keeps r) (get_private_security_association e.sa_key p) _
            (λ key. export_delegated env e peer r) (refl, refl)
            (λ key.
              if_elim (OnReturn (Keeps r)) (is_null peer) (export_all-Keeps e r.identity.peers r) (
                option-OnReturn (Keeps r) (get_peer peer r.identity) none
                  (λ q. some (export_to env e q r)) tt (λ q. export_to-Keeps e q r))))

  retract_to-Keeps :
      (e : RoutingEntry) (ps : List Peer) (r : Router) → Keeps r (retract_to e ps r).0
  unfolding retract_to
  retract_to-Keeps e [] r = (refl, refl)
  retract_to-Keeps e (p ∷ ps) r =
      let known = record r { routes = (get_vport_for_neighbor (peer_id p) r.routes).1 } in
      Keeps-trans r known (retract_to e ps known).0 (neighbor-rib _ r.routes, refl)
        (retract_to-Keeps e ps known)

  perform_one-IsConsistent :
      (e : Table.Effect) (r : Router) → IsConsistent r → OnReturn IsConsistent (perform_one env e r)
  unfolding perform_one rib_retract_entry
  perform_one-IsConsistent (Table.export_entry e peer) r w =
      returned (rib_export_entry env e peer r) (rib_export_entry-Keeps e peer r)
    where
      returned : (o : Called) → OnReturn (Keeps r) o → OnReturn IsConsistent o
      returned none k = tt
      returned (some o) k = kept-IsConsistent r o.0 k w
  perform_one-IsConsistent (Table.retract_entry e) r w =
      kept-IsConsistent r (retract_to e r.identity.peers r).0
        (retract_to-Keeps e r.identity.peers r) w
  perform_one-IsConsistent (Table.address_changed addresses) r w = record {
    routed = w.routed;
    well_formed = store_addresses-IsWellFormed _ _ _ _ addresses _ r.names w.well_formed;
  }
  perform_one-IsConsistent (Table.landmark_learned id) r w = w
  perform_one-IsConsistent (Table.landmark_removed id) r w = w
  perform_one-IsConsistent (Table.vicinity_learned id hops) r w = w
  perform_one-IsConsistent (Table.vicinity_removed id) r w = w
  perform_one-IsConsistent (Table.arm_expiry e) r w = w

  pub perform-IsConsistent :
      (es : List Table.Effect) (r : Router)
      → IsConsistent r
      → OnReturn IsConsistent (perform env es r)
  unfolding perform
  perform-IsConsistent [] r w = w
  perform-IsConsistent (e ∷ es) r w =
      and_then-OnReturn IsConsistent (perform_one env e r) (perform env es)
        (perform_one-IsConsistent e r w) (λ q. perform-IsConsistent es q)

  pub after_table-IsConsistent :
      (t : RoutingTable) (es : List Table.Effect) (r : Router)
      → IsRouted t.rib
      → IsConsistent r
      → OnReturn IsConsistent (after_table env t es r)
  unfolding after_table
  after_table-IsConsistent t es r routed w =
      perform-IsConsistent es (record r { routes = t })
        (record { routed = routed; well_formed = w.well_formed })

  pub import_entry-IsConsistent :
      (e : RoutingEntry) (r : Router)
      → 0 < env.environment.maximum_vicinity_size
      → e.active ≡ false
      → IsConsistent r
      → OnReturn IsConsistent (import_entry env e r)
  unfolding import_entry
  import_entry-IsConsistent e r positive off w =
      let i = import-some env.environment env.now e r.routes positive off w.routed in
      subst
        (λ o.
          OnReturn IsConsistent (elim o as (λ q. Called) [
            | none ↦ none
            | some v ↦ after_table env v.table v.effects r
          ]))
        (sym i.1) (after_table-IsConsistent (i.0).table (i.0).effects r i.2 w)

  pub sa_refresh-Keeps : (p : Peer) (n : ℕ) (r : Router) → Keeps r (sa_refresh env p n r).0
  unfolding sa_refresh refresh_new retransmit
  sa_refresh-Keeps p n r = by_count (refresh_count n p)
    where
      by_count : (m : ℕ) → Keeps r (refresh_by_count env m p r).0
      by_count zero = (refl, refl)
      by_count (suc m) = (refl, refl)
