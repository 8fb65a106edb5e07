-- ===== src/Social/RoutedMessage/Wire.antt =====
-- The wire form of a routed message.
use unisphere.Prelude.{ℕ, ◌<◌, ◌≡◌, refl, ap, ◌⊎◌, inl, inr, true, List, [], ◌∷◌, arith}
use unisphere.Identity.NodeIdentifier.{NodeIdentifier, is_valid, is_null, raw}
use unisphere.Social.RoutedMessage.{RoutedMessage, default_options, serialize, of_message}

abbrev pub IsNullOrValid : NodeIdentifier → Type 0
IsNullOrValid a = (is_null a ≡ true) ⊎ (is_valid a ≡ true)

bytes_empty_iff : (a : NodeIdentifier) → is_null a ≡ true → a ≡ record { identifier = [] }
unfolding is_null
bytes_empty_iff a h = go a.identifier refl
  where
    go : (bs : List ℕ) → a.identifier ≡ bs → a ≡ record { identifier = [] }
    go [] e = ap (λ (x : List ℕ). record { identifier = x }) e
    go (b ∷ bs) e = ground (arith, e)

raw-identity : (a : NodeIdentifier) → IsNullOrValid a → raw a ≡ a.identifier
unfolding raw
raw-identity a (inl h) = rw (bytes_empty_iff a h)
raw-identity a (inr h) = rw h

-- What a program may send: counters of 8 bits, and identifiers that are null or valid.
pub record IsSendable (m : RoutedMessage) : Type 0 where
  pub limit : m.hop_limit < 256
  pub distance : m.hop_distance < 256
  pub source_landmark : IsNullOrValid m.source_address.landmark_id
  pub source : IsNullOrValid m.source_node_id
  pub destination_landmark : IsNullOrValid m.destination_address.landmark_id
  pub destination : IsNullOrValid m.destination_node_id

-- A message whose counters fit 8 bits and whose identifiers are null or valid arrives as it was sent,
-- but for the link that it came by and the sender's routing options, which do not travel.
pub of_message-serialize :
    (m : RoutedMessage) (originator : NodeIdentifier)
    → IsSendable m
    → of_message (serialize m) originator
      ≡ record m { origin_link_id = originator; options = default_options }
unfolding of_message serialize
of_message-serialize m originator s = ground (
  arith,
  raw-identity m.source_address.landmark_id s.source_landmark,
  raw-identity m.source_node_id s.source,
  raw-identity m.destination_address.landmark_id s.destination_landmark,
  raw-identity m.destination_node_id s.destination,
  s.limit,
  s.distance,
)
