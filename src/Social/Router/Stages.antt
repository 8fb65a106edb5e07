-- ===== src/Social/Router/Stages.antt =====
-- A message whose first stage finds a next hop.
use unisphere.Prelude.{◌≡◌, refl, ap, ◌∙◌, true, false, some, List, [], ◌∷◌, if◌then◌else◌, if_elim}
use unisphere.Identity.NodeIdentifier.{id_eq}
use unisphere.Interplex.Contact.{contact_null}
use unisphere.Social.RoutedMessage.{RoutedMessage, message_valid, serialize}
use unisphere.Social.Router.State.{Router, Surroundings, Effect, send_routed}
use unisphere.Social.Router.Route.{
  Decision, route_contact, direct_stage, address_stage, search_stage, search_option, decide,
  transmit, finish, route,
}

module _ (env : Surroundings) (r : Router) (m : RoutedMessage) where
  -- A first stage that finds a next hop is the whole decision.
  decided :
      contact_null (direct_stage env r m).next_hop ≡ false
      → decide env r m ≡ some (direct_stage env r m)
  unfolding decide search_option
  decided h =
      ap (λ o. if m.options.direct_delivery then some (direct_stage env r m) else o)
        (ap (search_option env r) addressed ∙ ap some searched)
      ∙ if_elim (λ o. o ≡ some (direct_stage env r m)) m.options.direct_delivery refl refl
    where
      addressed : address_stage env r (direct_stage env r m) ≡ some (direct_stage env r m)
      addressed = rw (address_stage, h) refl

      searched : search_stage env r (direct_stage env r m) ≡ direct_stage env r m
      searched = rw (search_stage, h) refl

  finished :
      (d : Decision)
      → contact_null d.next_hop ≡ false
      → env.forwards d.message ≡ true
      → (finish env r (some d)).1 ≡ send_routed d.next_hop (serialize d.message) ∷ []
  unfolding finish
  finished d h k = rw (transmit, h, k) refl

  away :
      message_valid m ≡ true
      → id_eq m.destination_node_id r.routes.local_id ≡ false
      → route env r m ≡ finish env r (decide env r m)
  unfolding route finish
  away k l = rw (route, k, l) refl

  pub route_direct :
      message_valid m ≡ true
      → id_eq m.destination_node_id r.routes.local_id ≡ false
      → contact_null (route_contact env r m.destination_node_id) ≡ false
      → env.forwards (direct_stage env r m).message ≡ true
      → (route env r m).1
        ≡ send_routed
            (route_contact env r m.destination_node_id)
            (serialize (direct_stage env r m).message)
          ∷ []
  unfolding direct_stage route_contact
  route_direct valid foreign known accepted =
      ap (λ (o : Router × List Effect). o.1)
        (away valid foreign ∙ ap (finish env r) (decided known))
      ∙ finished (direct_stage env r m) known accepted
