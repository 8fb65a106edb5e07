-- ===== src/Social/Router/Decision.antt =====
-- What `route` may change in a message, and where it may send it.
use unisphere.Prelude.{
  ◌≡◌, refl, ap, ◌∙◌, ◌⊎◌, inl, inr, Bool, true, false, not, ◌&&◌, Option, some, none, [], ◌∷◌, In,
  find, find-eq-some, if◌then◌else◌, if_elim,
}
use unisphere.Identity.NodeIdentifier.{NodeIdentifier, id_eq, is_valid}
use unisphere.Interplex.Contact.{Contact, contact_null, null_contact, key_null}
use unisphere.Social.Address.{RoutingPath, address_null, landmark_itself}
use unisphere.Social.RoutedMessage.{RoutedMessage, process_source_route_hop}
use unisphere.Social.Peer.{Peer}
use unisphere.Social.SocialIdentity.{SocialIdentity, get_peer, get_peer_contact, has_id}
use unisphere.Social.RoutingTable.Read.{get_sloppy_group_relay}
use unisphere.Social.NameDatabase.Record.{NameRecord, landmark_address}
use unisphere.Social.Router.State.{Router, Surroundings}
use unisphere.Social.Router.Route.{
  Decision, route_contact, embed_path, direct_stage, follow_path, follow_address, resolve_here,
  at_landmark, address_stage, from_record, relay_stage, search_stage, search_option, decide,
}

-- The same message, but for its destination address and delivery mode.
abbrev pub IsReaddressed : RoutedMessage → RoutedMessage → Type 0
IsReaddressed m n =
    n ≡ record m { destination_address = n.destination_address; delivery_mode = n.delivery_mode }

-- Null, or the contact of a peer.
abbrev pub IsPeerContact : SocialIdentity → Contact → Type 0
IsPeerContact s c = (contact_null c ≡ true) ⊎ ((p : Peer) × In p s.peers × (p.contact ≡ c))

get_peer_contact-IsPeerContact :
    (id : NodeIdentifier) (s : SocialIdentity) → IsPeerContact s (get_peer_contact id s)
unfolding get_peer_contact get_peer contact_null key_null
get_peer_contact-IsPeerContact id s = by_peer (is_valid id) (find (has_id id) s.peers) refl
  where
    by_peer :
        (b : Bool) (o : Option Peer)
        → find (has_id id) s.peers ≡ o
        → IsPeerContact s
            (if not b then null_contact else elim o [ none ↦ null_contact | some p ↦ p.contact ])
    by_peer false o h = inl refl
    by_peer true none h = inl refl
    by_peer true (some p) h = inr (p, (find-eq-some (has_id id) s.peers p h).1, refl)

pub record IsSound (r : Router) (m : RoutedMessage) (d : Decision) : Type 0 where
  pub readdressed : IsReaddressed m d.message
  pub peer : IsPeerContact r.identity d.next_hop

abbrev pub IsSoundOption : Router → RoutedMessage → Option Decision → Type 0
IsSoundOption r m none = Unit
IsSoundOption r m (some d) = IsSound r m d

-- Steps of readdressing compose.
IsReaddressed-twice :
    (m n o : RoutedMessage) → IsReaddressed m n → IsReaddressed n o → IsReaddressed m o
IsReaddressed-twice m n o h k =
    k
    ∙ ap
        (λ (x : RoutedMessage). record x {
          destination_address = o.destination_address;
          delivery_mode = o.delivery_mode;
        })
        h

source_hop-IsReaddressed : (m : RoutedMessage) → IsReaddressed m (process_source_route_hop m)
unfolding process_source_route_hop
source_hop-IsReaddressed m = if_elim (λ n. IsReaddressed m n) m.delivery_mode refl refl

module _ (env : Surroundings) (r : Router) where
  direct_stage-IsSound : (m : RoutedMessage) → IsSound r m (direct_stage env r m)
  unfolding direct_stage embed_path
  direct_stage-IsSound m = record {
    readdressed =
        if_elim (λ n. IsReaddressed m n) _
          (if_elim (λ n. IsReaddressed m n) _ (source_hop-IsReaddressed _) refl) refl;
    peer = get_peer_contact-IsPeerContact _ r.identity;
  }

  contact-IsPeerContact : (id : NodeIdentifier) → IsPeerContact r.identity (route_contact env r id)
  unfolding route_contact
  contact-IsPeerContact id = get_peer_contact-IsPeerContact _ r.identity

  module _ (m : RoutedMessage) where
    follow_path-IsSound :
        (n : RoutedMessage) (b : Bool) (path : RoutingPath)
        → IsReaddressed m n
        → IsSoundOption r m (follow_path r n b path)
    unfolding follow_path
    follow_path-IsSound n b [] h = tt
    follow_path-IsSound n b (v ∷ vs) h = record {
      readdressed =
          IsReaddressed-twice m n (process_source_route_hop n) h (source_hop-IsReaddressed n);
      peer = get_peer_contact-IsPeerContact _ r.identity;
    }

    follow_address-IsSound :
        (n : RoutedMessage) (b : Bool)
        → IsReaddressed m n
        → IsSoundOption r m (follow_address env r n b)
    unfolding follow_address
    follow_address-IsSound n b h =
        if_elim (IsSoundOption r m) n.delivery_mode
          (follow_path-IsSound n b n.destination_address.path h)
          (record {
            readdressed = h;
            peer = contact-IsPeerContact n.destination_address.landmark_id;
          })

    resolve_here-IsSound :
        (n : RoutedMessage) (o : Option NameRecord)
        → IsReaddressed m n
        → IsSoundOption r m (resolve_here env r n o)
    unfolding resolve_here
    resolve_here-IsSound n none h = tt
    resolve_here-IsSound n (some found) h =
        follow_address-IsSound (record n { destination_address = landmark_address found }) false
          (IsReaddressed-twice m n (record n { destination_address = landmark_address found }) h
            refl)

    at_landmark-IsSound :
        (n : RoutedMessage) (path : RoutingPath)
        → IsReaddressed m n
        → IsSoundOption r m (at_landmark env r n path)
    unfolding at_landmark
    at_landmark-IsSound n [] h = resolve_here-IsSound n _ h
    at_landmark-IsSound n (v ∷ vs) h =
        follow_address-IsSound (record n { delivery_mode = true }) true
          (IsReaddressed-twice m n (record n { delivery_mode = true }) h refl)

    address_stage-IsSound :
        (d : Decision) → IsSound r m d → IsSoundOption r m (address_stage env r d)
    unfolding address_stage
    address_stage-IsSound d h =
        if_elim {y = some d} (IsSoundOption r m)
          (contact_null d.next_hop && not (address_null d.message.destination_address))
          (if_elim (IsSoundOption r m)
            (id_eq d.message.destination_address.landmark_id r.routes.local_id)
            (at_landmark-IsSound d.message d.message.destination_address.path h.readdressed)
            (follow_address-IsSound d.message false h.readdressed))
          h

    from_record-IsSound :
        (d : Decision) (o : Option NameRecord) → IsSound r m d → IsSound r m (from_record env r d o)
    unfolding from_record
    from_record-IsSound d none h = h
    from_record-IsSound d (some found) h = record {
      readdressed =
          IsReaddressed-twice m d.message
            (record (d.message) { destination_address = landmark_address found }) h.readdressed
            refl;
      peer = contact-IsPeerContact ((landmark_address found).landmark_id);
    }

    relay_stage-IsSound : (d : Decision) → IsSound r m d → IsSound r m (relay_stage env r d)
    unfolding relay_stage
    relay_stage-IsSound d h =
        let relay = get_sloppy_group_relay env.environment d.message.destination_node_id r.routes in
        if_elim (IsSound r m) (contact_null d.next_hop)
          (record {
            readdressed =
                IsReaddressed-twice m d.message
                  (record (d.message) { destination_address = landmark_itself relay.node_id })
                  h.readdressed refl;
            peer = get_peer_contact-IsPeerContact relay.next_hop r.identity;
          })
          h

    search_stage-IsSound : (d : Decision) → IsSound r m d → IsSound r m (search_stage env r d)
    unfolding search_stage
    search_stage-IsSound d h =
        if_elim (IsSound r m) (contact_null d.next_hop)
          (relay_stage-IsSound _ (from_record-IsSound d _ h)) h

    search_option-IsSound :
        (o : Option Decision) → IsSoundOption r m o → IsSoundOption r m (search_option env r o)
    unfolding search_option
    search_option-IsSound none h = tt
    search_option-IsSound (some d) h = search_stage-IsSound d h

    pub decide-IsSound : IsSoundOption r m (decide env r m)
    unfolding decide
    decide-IsSound =
        let first = direct_stage env r m in
        if_elim {x = some first} (IsSoundOption r m) m.options.direct_delivery
          (direct_stage-IsSound m)
          (search_option-IsSound (address_stage env r first)
            (address_stage-IsSound first (direct_stage-IsSound m)))
