-- ===== src/Social/RoutedMessage/Examples.antt =====
-- Addresses and messages at concrete values.
use unisphere.Prelude.{◌≡◌, refl, inl, inr, true, ◌&&◌, [], ◌∷◌, replicate, ltb, arith}
use unisphere.Identity.NodeIdentifier.{NodeIdentifier, is_valid, is_null}
use unisphere.Social.Address.{null_address}
use unisphere.Social.RoutedMessage.{
  RoutedMessage, RoutingOptions, default_options, originate, message_valid, process_hop, serialize,
  of_message,
}
use unisphere.Social.RoutedMessage.Hops.{
  process_hops, message_valid-process_hops, started, hop_distance_exact,
}
use unisphere.Social.RoutedMessage.Wire.{IsSendable, of_message-serialize}

abbrev here : NodeIdentifier
here = record { identifier = replicate 20 1 }

abbrev there : NodeIdentifier
there = record { identifier = replicate 20 2 }

abbrev tracked : RoutingOptions
tracked = record default_options { track_hop_distance = true }

abbrev sent : RoutedMessage
sent = started null_address here 1 null_address there 1 7 (104 ∷ 105 ∷ []) tracked

sent-IsSendable : IsSendable sent
unfolding originate is_valid is_null
sent-IsSendable = record {
  limit = omega arith;
  distance = omega arith;
  source_landmark = inl refl;
  source = inr refl;
  destination_landmark = inl refl;
  destination = inr refl;
}

message_valid-process_hops_example :
    message_valid (process_hops 29 sent) ≡ (message_valid sent && ltb 29 sent.hop_limit)
message_valid-process_hops_example = message_valid-process_hops 29 sent

still_valid : message_valid (process_hops 29 sent) ≡ true
unfolding message_valid process_hops process_hop originate is_valid
still_valid = refl

hop_distance_exact_example : (process_hops 29 sent).hop_distance ≡ 30
hop_distance_exact_example =
    hop_distance_exact null_address here 1 null_address there 1 7 (104 ∷ 105 ∷ []) tracked 29
      (omega arith) still_valid

of_message-serialize_example :
    of_message (serialize sent) there
    ≡ record sent { origin_link_id = there; options = default_options }
of_message-serialize_example = of_message-serialize sent there sent-IsSendable
