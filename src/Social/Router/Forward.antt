-- ===== src/Social/Router/Forward.antt =====
-- What `route` sends to other nodes.
use unisphere.Prelude.{
  ◌≡◌, refl, sym, ap, subst, ◌∙◌, inl, inr, true, false, not, ◌||◌, Option, some, none, List, [],
  ◌∷◌, ◌++◌, map, In, if_elim, Bool-cases, arith,
}
use unisphere.Identity.NodeIdentifier.{id_eq, is_null}
use unisphere.Interplex.Contact.{Contact, contact_null, null_contact}
use unisphere.Social.Address.{address_null}
use unisphere.Social.RoutedMessage.{RoutedMessage, WireMessage, message_valid, serialize}
use unisphere.Social.Peer.{Peer}
use unisphere.Social.NameDatabase.Record as Names
use unisphere.Social.NameDatabase.Record.{NameRecord, landmark_address}
use unisphere.Social.Router.State.{
  Router, Surroundings, Effect, deliver, post_delivery, send_routed, name_effect,
}
use unisphere.Social.Router.Route.{
  Decision, decide, counted, transmit, finish, receive_local, route,
}
use unisphere.Social.Router.Decision.{
  IsReaddressed, IsPeerContact, IsSound, IsSoundOption, decide-IsSound,
}

-- A message that is sent on is valid, not for this node, sent to a peer, and changed at most in its
-- destination address and delivery mode.
pub record IsForwarded (r : Router) (m : RoutedMessage) (c : Contact) (w : WireMessage)
    : Type 0 where
  pub sent : RoutedMessage
  pub wire : w ≡ serialize sent
  pub readdressed : IsReaddressed m sent
  pub valid : message_valid m ≡ true
  pub foreign : id_eq m.destination_node_id r.routes.local_id ≡ false
  pub recipient : Peer
  pub known : In recipient r.identity.peers
  pub addressed : recipient.contact ≡ c

abbrev effect_contact : Effect → Contact
effect_contact (send_routed c w) = c
effect_contact _ = null_contact

abbrev effect_wire : WireMessage → Effect → WireMessage
effect_wire v (send_routed c w) = w
effect_wire v _ = v

abbrev IsSending : Effect → Type 0
IsSending (send_routed c w) = Unit
IsSending _ = ⊥

not_sent :
    (es : List Names.Effect) (m : RoutedMessage) (c : Contact) (w : WireMessage)
    → ¬ In (send_routed c w) (map name_effect es ++ (deliver m ∷ []))
not_sent [] m c w (inl h) = subst IsSending h tt
not_sent [] m c w (inr h) = h
not_sent (e ∷ es) m c w (inl h) = subst IsSending h tt
not_sent (e ∷ es) m c w (inr h) = not_sent es m c w h

module _ (env : Surroundings) (r : Router) (m : RoutedMessage) (c : Contact) (w : WireMessage) where
  receive_local_silent : ¬ In (send_routed c w) (receive_local env r m).1
  unfolding receive_local
  receive_local_silent =
      if_elim (λ (o : Router × List Effect). ¬ In (send_routed c w) o.1) (is_null m.origin_link_id)
        (λ h. posted h)
        (if_elim (λ (o : Router × List Effect). ¬ In (send_routed c w) o.1)
          (address_null m.source_address) (not_sent [] m c w) (not_sent _ m c w))
    where
      posted : ¬ In (send_routed c w) (post_delivery m ∷ [])
      posted (inl h) = subst IsSending h tt
      posted (inr h) = h

  transmit-IsForwarded :
      (d : Decision) (r' : Router)
      → IsSound r m d
      → message_valid m ≡ true
      → id_eq m.destination_node_id r.routes.local_id ≡ false
      → In (send_routed c w) (transmit env d r').1
      → IsForwarded r m c w
  unfolding transmit
  transmit-IsForwarded d r' sound valid foreign h =
      elim (Bool-cases (contact_null d.next_hop || not (env.forwards d.message))) [
        | inl stop ↦ absurd (subst (λ es. In (send_routed c w) es) (stopped stop) h)
        | inr go ↦ elim (subst (λ es. In (send_routed c w) es) (going go) h) [
          | inl e ↦ member sound.peer (ground (arith, go)) e
          | inr z ↦ absurd z
        ]
      ]
    where
      stopped :
          (contact_null d.next_hop || not (env.forwards d.message)) ≡ true
          → (transmit env d r').1 ≡ []
      stopped k = rw (transmit, k) refl

      going :
          (contact_null d.next_hop || not (env.forwards d.message)) ≡ false
          → (transmit env d r').1 ≡ send_routed d.next_hop (serialize d.message) ∷ []
      going k = rw (transmit, k) refl

      member :
          IsPeerContact r.identity d.next_hop
          → contact_null d.next_hop ≡ false
          → send_routed c w ≡ send_routed d.next_hop (serialize d.message)
          → IsForwarded r m c w
      member (inl null) k e = ground (arith, null, k)
      member (inr p) k e = record {
        sent = d.message;
        wire = ap (effect_wire w) e;
        readdressed = sound.readdressed;
        valid = valid;
        foreign = foreign;
        recipient = p.0;
        known = p.1;
        addressed = p.2 ∙ sym (ap effect_contact e);
      }

  -- Whatever `route` sends to another node is a valid message that is not for this node; it goes to the
  -- contact of a peer, and differs from the message only in its destination address and delivery mode.
  pub route-IsForwarded : In (send_routed c w) (route env r m).1 → IsForwarded r m c w
  unfolding route finish
  route-IsForwarded h = elim (Bool-cases (message_valid m)) [
    | inr invalid ↦
        absurd (subst (λ (o : Router × List Effect). In (send_routed c w) o.1) (dropped invalid) h)
    | inl valid ↦ elim (Bool-cases (id_eq m.destination_node_id r.routes.local_id)) [
      | inl here ↦ absurd (
          receive_local_silent
            (subst (λ (o : Router × List Effect). In (send_routed c w) o.1) (local valid here) h))
      | inr foreign ↦
          by_decision (decide env r m) (decide-IsSound env r m) valid foreign
            (subst (λ (o : Router × List Effect). In (send_routed c w) o.1) (away valid foreign) h)
    ]
  ]
    where
      dropped : message_valid m ≡ false → route env r m ≡ (r, [])
      dropped k = rw (route, k) refl

      local :
          message_valid m ≡ true
          → id_eq m.destination_node_id r.routes.local_id ≡ true
          → route env r m ≡ receive_local env r m
      local k l = rw (route, k, l) refl

      away :
          message_valid m ≡ true
          → id_eq m.destination_node_id r.routes.local_id ≡ false
          → route env r m ≡ finish env r (decide env r m)
      away k l = rw (route, k, l) refl

      by_decision :
          (o : Option Decision)
          → IsSoundOption r m o
          → message_valid m ≡ true
          → id_eq m.destination_node_id r.routes.local_id ≡ false
          → In (send_routed c w) (finish env r o).1
          → IsForwarded r m c w
      by_decision none sound valid foreign k = absurd k
      by_decision (some d) sound valid foreign k =
          transmit-IsForwarded d (counted d r) sound valid foreign k
