-- ===== src/Social/Router/Direct.antt =====
-- Where `route` sends or delivers a message.
use unisphere.Prelude.{
  ℕ, suc, ◌≡◌, ◌≤◌, ◌<◌, ◌⊎◌, inl, inr, refl, sym, ap, ◌∙◌, Bool, not, ◌&&◌, ◌||◌, true, false,
  Option, none, some, [], ◌∷◌, ltb, if◌then◌else◌, find, find-eq-some, find-eq-none, length, In,
  arith, Bool-cases,
}
use unisphere.Identity.NodeIdentifier.{NodeIdentifier, invalid, id_eq, is_valid}
use unisphere.Identity.NodeIdentifier.Order.{id_eq_iff}
use unisphere.Interplex.Contact.{Contact, contact_null, null_contact}
use unisphere.Social.Address.{RoutingPath, address_null, shift, pop_front}
use unisphere.Social.Peer.{Peer}
use unisphere.Social.SocialIdentity.{get_peer, get_peer_contact}
use unisphere.Social.RoutingTable.Entry.{RoutingEntry, origin_vport, to_destination, front_vport}
use unisphere.Social.RoutingTable.Table.{get_neighbor_for_vport}
use unisphere.Social.RoutingTable.Read.{NextHop, get_active_route}
use unisphere.Social.RoutingTable.Routed.{IsRouted}
use unisphere.Social.RoutedMessage.{
  RoutedMessage, message_valid, process_source_route_hop, serialize,
}
use unisphere.Social.Router.State.{Router, Surroundings, send_routed}
use unisphere.Social.Router.Route.{Decision, route_contact, embed_path, direct_stage, route}
use unisphere.Social.Router.Stages.{route_direct}

module _ (env : Surroundings) (r : Router) (m : RoutedMessage) where
  contact_of_peer :
      (id : NodeIdentifier) (p : Peer)
      → is_valid id ≡ true
      → get_peer id r.identity ≡ some p
      → get_peer_contact id r.identity ≡ p.contact
  unfolding get_peer_contact
  contact_of_peer id p proper known =
      ap
        (λ b.
          if not b
          then null_contact
          else (elim (get_peer id r.identity) [ none ↦ null_contact | some q ↦ q.contact ]))
        proper
      ∙ ap
          (λ (o : Option Peer). elim o as (λ q. Contact) [
            | none ↦ null_contact
            | some q ↦ q.contact
          ])
          known

  -- The active entry of a destination is the one that is found.
  found_active :
      (e : RoutingEntry)
      → IsRouted r.routes.rib
      → In e r.routes.rib
      → e.active ≡ true
      → e.destination ≡ m.destination_node_id
      → get_active_route env.environment.indices m.destination_node_id r.routes ≡ record {
        node_id = get_neighbor_for_vport (origin_vport e) r.routes;
        path = e.forward_path;
      }
  unfolding get_active_route
  found_active e routed stands on goal =
      by_found (find serves (env.environment.indices.by_active.view r.routes.rib)) refl
    where
      serves : RoutingEntry → Bool
      serves x = x.active && to_destination m.destination_node_id x

      chosen : serves e ≡ true
      chosen = ground (arith, on, id_eq_iff m.destination_node_id e.destination, sym goal)

      by_found :
          (o : Option RoutingEntry)
          → find serves (env.environment.indices.by_active.view r.routes.rib) ≡ o
          → (elim o as (λ q. NextHop) [
            | none ↦ record { node_id = invalid; path = [] }
            | some x ↦ record {
              node_id = get_neighbor_for_vport (origin_vport x) r.routes;
              path = x.forward_path;
            }
          ])
            ≡ record {
              node_id = get_neighbor_for_vport (origin_vport e) r.routes;
              path = e.forward_path;
            }
      by_found none missing =
          let off =
            find-eq-none serves (env.environment.indices.by_active.view r.routes.rib) missing e
              ((env.environment.indices.by_active.view-In r.routes.rib e).1 stands) in
          absurd (ground (arith, off, chosen))
      by_found (some x) found =
          let hit =
            find-eq-some serves (env.environment.indices.by_active.view r.routes.rib) x found in
          let there = (env.environment.indices.by_active.view-In r.routes.rib x).0 hit.1 in
          let active : x.active ≡ true = ground (arith, hit.0) in
          let named : id_eq m.destination_node_id x.destination ≡ true = ground (arith, hit.0) in
          let same : x ≡ e =
            routed.single x e there stands active on
              (sym ((id_eq_iff m.destination_node_id x.destination).0 named) ∙ sym goal) in
          ap
            (λ (y : RoutingEntry). record {
              node_id = get_neighbor_for_vport (origin_vport y) r.routes;
              path = y.forward_path;
            })
            same

  -- What is sent along a route is the message as it was, where the route is a single hop or the message
  -- has an address whose path is no longer; otherwise the rest of the route is its address.
  abbrev pub IsSourceRouted : ℕ → RoutingPath → RoutedMessage → Type 0
  IsSourceRouted v vs n =
      ((n ≡ m)
        × ((vs ≡ [])
            ⊎ ((address_null m.destination_address ≡ false)
                × (length m.destination_address.path ≤ suc (length vs)))))
      ⊎ ((n ≡ record m {
        destination_address = record { landmark_id = r.routes.local_id; path = vs };
        delivery_mode = true;
      })
          × (0 < length vs)
          × ((address_null m.destination_address ≡ true)
              ⊎ (suc (length vs) < length m.destination_address.path)))

  embedded :
      (v : ℕ) (vs : RoutingPath)
      → IsSourceRouted v vs
          (if ltb 1 (length (v ∷ vs)) then embed_path r.routes.local_id (v ∷ vs) m else m)
  unfolding embed_path process_source_route_hop shift pop_front
  embedded v [] = inl (refl, inl refl)
  embedded v (w ∷ ws) =
      let many : ltb 1 (length (v ∷ w ∷ ws)) ≡ true = ground arith in
      elim (Bool-cases (
        address_null m.destination_address
        || ltb (length (v ∷ w ∷ ws)) (length m.destination_address.path))) [
          | inl short ↦
              rw (many, short)
                (inr (
                  refl,
                  ground arith,
                  elim (Bool-cases (address_null m.destination_address)) [
                    | inl null ↦ inl null
                    | inr some_address ↦ inr (ground (arith, short, some_address))
                  ],
                ))
          | inr long ↦
              rw (many, long) (inl (refl, inr (ground (arith, long), ground (arith, long))))
        ]

  -- A valid message for another node, to which the routing table has an active entry whose first vport
  -- leads to a peer, is sent to that peer, where the slots let it pass: as it was, if the entry is one hop
  -- or the message has an address with a path no longer than the entry's, and else with the rest of the
  -- entry's path from this node as its address, in delivery mode. The table is routed, as it is after any
  -- history of its calls.
  pub route_by_table :
      (e : RoutingEntry) (v : ℕ) (vs : RoutingPath) (id : NodeIdentifier) (p : Peer)
      → message_valid m ≡ true
      → id_eq m.destination_node_id r.routes.local_id ≡ false
      → IsRouted r.routes.rib
      → In e r.routes.rib
      → e.active ≡ true
      → e.destination ≡ m.destination_node_id
      → e.forward_path ≡ v ∷ vs
      → get_neighbor_for_vport v r.routes ≡ id
      → is_valid id ≡ true
      → get_peer id r.identity ≡ some p
      → contact_null p.contact ≡ false
      → ((n : RoutedMessage) → env.forwards n ≡ true)
      → (n : RoutedMessage) × ((route env r m).1 ≡ send_routed p.contact (serialize n) ∷ [])
        × IsSourceRouted v vs n
  unfolding direct_stage route_contact front_vport
  route_by_table e v vs id p valid foreign routed stands on goal path port proper known keyed
        passes =
      let active = found_active e routed stands on goal in
      let hop : get_active_route env.environment.indices m.destination_node_id r.routes
          ≡ record { node_id = id; path = v ∷ vs } =
        active
        ∙ ap
            (λ (q : RoutingPath). record {
              node_id = get_neighbor_for_vport (front_vport q) r.routes;
              path = q;
            })
            path
        ∙ ap (λ (x : NodeIdentifier). record { node_id = x; path = v ∷ vs }) port in
      let contact = contact_of_peer id p proper known in
      let sent = if ltb 1 (length (v ∷ vs)) then embed_path r.routes.local_id (v ∷ vs) m else m in
      let stage : direct_stage env r m ≡ record {
        message = sent;
        next_hop = p.contact;
        landmark_routed = false;
        relayed = false;
      } =
        rw (direct_stage, hop, contact, keyed) refl in
      let known_hop : contact_null (route_contact env r m.destination_node_id) ≡ false =
        rw (route_contact, hop, contact) keyed in
      (
        sent,
        route_direct env r m valid foreign known_hop (passes (direct_stage env r m).message)
            ∙ ap (λ (d : Decision). send_routed d.next_hop (serialize d.message) ∷ []) stage,
        embedded v vs,
      )
