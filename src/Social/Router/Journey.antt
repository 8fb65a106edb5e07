-- ===== src/Social/Router/Journey.antt =====
-- A routed message on its way from node to node, whatever the routers on the way hold.
use unisphere.Prelude.{ℕ, suc, ◌+◌, ◌%◌, ◌^◌, ◌<◌, ◌≤◌, ◌≡◌, refl, ap, ◌∙◌, true, In, List, arith}
use unisphere.Identity.NodeIdentifier.{NodeIdentifier, raw, is_valid}
use unisphere.Interplex.Contact.{Contact}
use unisphere.Social.RoutedMessage.{WireMessage, message_valid, process_hop, serialize, of_message}
use unisphere.Social.Router.State.{Router, Surroundings, send_routed}
use unisphere.Social.Router.Route.{receive_routed}
use unisphere.Social.Router.Forward.{IsForwarded, route-IsForwarded}

-- One node receives `u` over the link of some neighbour, and sends `v` to a neighbour.
pub data IsHop (u v : WireMessage) : Type 0 where
  hop :
      (env : Surroundings) (r : Router) (originator : NodeIdentifier) (c : Contact)
      → In (send_routed c v) (receive_routed env r u originator).1
      → IsHop u v

-- `n` hops, one after another
pub data Journey (u : WireMessage) : ℕ → WireMessage → Type 0 where
  here : Journey u 0 u
  further : {n : ℕ} {v w : WireMessage} → Journey u n v → IsHop v w → Journey u (suc n) w

-- The 8-bit hop limit that a node reads.
abbrev pub limit : WireMessage → ℕ
limit w = w.hop_limit % 2 ^ 8

-- What a transit node leaves alone.
pub record IsKept (u v : WireMessage) : Type 0 where
  pub source_comp : v.source_comp ≡ u.source_comp
  pub destination_comp : v.destination_comp ≡ u.destination_comp
  pub type : v.type ≡ u.type
  pub payload : v.payload ≡ u.payload
  pub source_node : v.source_node ≡ u.source_node
  pub destination_node : v.destination_node ≡ u.destination_node

raw_valid :
    (bytes : List ℕ)
    → is_valid (record { identifier = bytes }) ≡ true
    → raw (record { identifier = bytes }) ≡ bytes
unfolding raw
raw_valid bytes h = ground (arith, h)

module _ (u v : WireMessage) where
  forwarded :
      (r : Router) (originator : NodeIdentifier) (c : Contact)
      → IsForwarded r (process_hop (of_message u originator)) c v
      → (limit v + 1 ≤ limit u) × (1 ≤ limit v) × IsKept u v
  unfolding process_hop of_message serialize message_valid
  forwarded r originator c f =
      let m = process_hop (of_message u originator) in
      let e : v
          ≡ serialize (record m {
            destination_address = f.sent.destination_address;
            delivery_mode = f.sent.delivery_mode;
          }) =
        f.wire ∙ ap serialize f.readdressed in
      (
        ground (arith, ap (λ w. w.hop_limit) e, f.valid),
        ground (arith, ap (λ w. w.hop_limit) e, f.valid),
        record {
          source_comp = ap (λ w. w.source_comp) e;
          destination_comp = ap (λ w. w.destination_comp) e;
          type = ap (λ w. w.type) e;
          payload = ap (λ w. w.payload) e;
          source_node =
              ap (λ w. w.source_node) e ∙ raw_valid u.source_node (ground (arith, f.valid));
          destination_node =
              ap (λ w. w.destination_node) e
              ∙ raw_valid u.destination_node (ground (arith, f.valid));
        },
      )

  hop-step : IsHop u v → (limit v + 1 ≤ limit u) × (1 ≤ limit v) × IsKept u v
  unfolding receive_routed
  hop-step (hop env r originator c h) =
      forwarded _ originator c
        (route-IsForwarded env _ (process_hop (of_message u originator)) c v h)

IsKept-trans : (u v w : WireMessage) → IsKept u v → IsKept v w → IsKept u w
IsKept-trans u v w h k = record {
  source_comp = k.source_comp ∙ h.source_comp;
  destination_comp = k.destination_comp ∙ h.destination_comp;
  type = k.type ∙ h.type;
  payload = k.payload ∙ h.payload;
  source_node = k.source_node ∙ h.source_node;
  destination_node = k.destination_node ∙ h.destination_node;
}

-- Whatever routers a message meets, the hops it has made and the 8-bit hop limit it has left are together
-- at most the limit it started with, so that it makes fewer than 256 hops.
pub journey_ends : {u v : WireMessage} {n : ℕ} → Journey u n v → (n + limit v ≤ limit u) × (n < 256)
journey_ends {u} here = (omega arith, omega arith)
journey_ends (further {n} {v} {w} j h) =
    let before = journey_ends j in let step = hop-step v w h in omega (arith, before.0, step.0)

-- The nodes on the way change neither the two ends of a message nor its payload.
pub journey-IsKept : {u v : WireMessage} {n : ℕ} → Journey u n v → IsKept u v
journey-IsKept here = record {
  source_comp = refl;
  destination_comp = refl;
  type = refl;
  payload = refl;
  source_node = refl;
  destination_node = refl;
}
journey-IsKept {u} (further {n} {v} {w} j h) =
    IsKept-trans u v w (journey-IsKept j) ((hop-step v w h).2)
