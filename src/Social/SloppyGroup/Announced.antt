-- ===== src/Social/SloppyGroup/Announced.antt =====
-- A name record that is announced, as its receiver sees it.
use unisphere.Prelude.{
  ℕ, ◌%◌, ◌^◌, ◌<◌, ◌≡◌, refl, sym, ap, ◌∙◌, true, List, [], ◌∷◌, map, All, arith, if◌then◌else◌,
}
use unisphere.Identity.NodeIdentifier.{NodeIdentifier, is_valid, raw}
use unisphere.Social.Address.{RoutingPath, LandmarkAddress}
use unisphere.Social.NameDatabase.Record.{RecordType, NameRecord, sloppy_group, new_record}
use unisphere.Social.SloppyGroup.Exchange.{name_announce, announced_record}

raw-valid : (a : NodeIdentifier) → is_valid a ≡ true → raw a ≡ a.identifier
unfolding raw
raw-valid a h = ap (λ b. if b then a.identifier else []) h

addresses_back :
    (addresses : List LandmarkAddress)
    → All (λ a. is_valid a.landmark_id ≡ true) addresses
    → map
        (λ (x : List ℕ × RoutingPath). record {
          landmark_id = record { identifier = x.0 };
          path = x.1;
        })
        (map (λ (a : LandmarkAddress). (raw a.landmark_id, a.path)) addresses)
      ≡ addresses
addresses_back [] h = refl
addresses_back (a ∷ more) h =
    ap
      (λ (bs : List ℕ).
        record { landmark_id = record { identifier = bs }; path = a.path }
        ∷ map
            (λ (x : List ℕ × RoutingPath). record {
              landmark_id = record { identifier = x.0 };
              path = x.1;
            })
            (map (λ (b : LandmarkAddress). (raw b.landmark_id, b.path)) more))
      (raw-valid a.landmark_id h.0)
    ∙ ap (λ (rest : List LandmarkAddress). a ∷ rest) (addresses_back more h.1)

-- A record of the sloppy group with valid identifiers, and with a sequence number of 8 bits, arrives as it
-- was: only the peer that it was received from is the receiver's own, and it has no time of storage yet.
pub announced_record-name_announce :
    (source : NodeIdentifier) (r : NameRecord)
    → r.type ≡ sloppy_group
    → r.seqno < 2 ^ 8
    → is_valid r.node_id ≡ true
    → All (λ a. is_valid a.landmark_id ≡ true) r.addresses
    → announced_record source (name_announce r)
      ≡ record r { received_peer_id = source; last_update = 0 }
unfolding announced_record name_announce new_record
announced_record-name_announce source r typed fits named reached =
    let uncut : r.seqno % 2 ^ 8 ≡ r.seqno = omega (arith, fits) in
    let arrived : List ℕ → RecordType → List LandmarkAddress → ℕ → NameRecord =
      λ bs type addresses seqno. record {
        node_id = record { identifier = bs };
        type = type;
        addresses = addresses;
        last_update = 0;
        received_peer_id = source;
        timestamp = r.timestamp;
        seqno = seqno;
      } in
    let back =
      map
        (λ (x : List ℕ × RoutingPath). record {
          landmark_id = record { identifier = x.0 };
          path = x.1;
        })
        (map (λ (a : LandmarkAddress). (raw a.landmark_id, a.path)) r.addresses) in
    ap (λ bs. arrived bs sloppy_group back (r.seqno % 2 ^ 8)) (raw-valid r.node_id named)
    ∙ ap (λ t. arrived r.node_id.identifier t back (r.seqno % 2 ^ 8)) (sym typed)
    ∙ ap (λ places. arrived r.node_id.identifier r.type places (r.seqno % 2 ^ 8))
        (addresses_back r.addresses reached)
    ∙ ap (λ n. arrived r.node_id.identifier r.type r.addresses n) uncut
