-- ===== src/Social/Router/Receive/Examples.antt =====
-- Messages between neighbours at concrete values.
use unisphere.Prelude.{
  ℕ, ◌≡◌, ◌↔◌, refl, false, ◌&&◌, some, none, List, [], ◌∷◌, if◌then◌else◌, arith,
}
use unisphere.Identity.NodeIdentifier.{id_eq, bytes_eq}
use unisphere.Interplex.Contact.{contact_id, key_node_id, key_null}
use unisphere.Social.SocialIdentity.{has_identity_association}
use unisphere.Social.RoutingTable.Entry.{RoutingEntry}
use unisphere.Social.RoutingTable.Histories.{nothing-IsRouted}
use unisphere.Social.NameDatabase.Record as Records
use unisphere.Social.NameDatabase.Invariant.{init-IsWellFormed}
use unisphere.Social.Router.State.{Router, PathAnnounce}
use unisphere.Social.Router.Delegation.{validated, imported, open_delegation, check_chain, validate}
use unisphere.Social.Router.Delegation.Chains.{IsDelegated, ends, delegates, check_chain_iff}
use unisphere.Social.Router.Delegation.Passed.{validate-export_announce}
use unisphere.Social.Router.Export.{
  queue_announce, export_announce, transmit_buffer, put_buffered, buffered, put_announce,
}
use unisphere.Social.Router.Export.Buffers.{
  waiting, waiting-queue_announce, IsTransmitted, transmit_buffer-IsTransmitted,
}
use unisphere.Social.Router.Receive.{announce_message, message_received}
use unisphere.Social.Router.Receive.Consistent.{IsConsistent, OnReturn}
use unisphere.Social.Router.Receive.Announces.{message_received-IsConsistent}
use unisphere.Social.Router.Examples.{router, surroundings, crypto, announced, friend, node}

-- An entry of the node with key 5 6, which has delegated it to the association 4 of this node's.
abbrev entry : RoutingEntry
entry = record announced {
  public_key = 5 ∷ 6 ∷ [];
  delegations = (5 ∷ 4 ∷ []) ∷ [];
  sa_key = 4 ∷ [];
}

entry-IsDelegated : IsDelegated crypto router.identity (5 ∷ []) ((5 ∷ 4 ∷ []) ∷ []) (4 ∷ [])
unfolding open_delegation has_identity_association
entry-IsDelegated = delegates refl refl refl ends

abbrev chain : List (List ℕ)
chain = (5 ∷ 4 ∷ []) ∷ []

check_chain_iff_example :
    (check_chain crypto router.identity [] (5 ∷ []) chain ≡ validated (4 ∷ []) chain)
    ↔ (IsDelegated crypto router.identity (5 ∷ []) chain (4 ∷ []) × (chain ≡ chain))
check_chain_iff_example = check_chain_iff crypto router.identity (5 ∷ []) (4 ∷ []) chain chain

fresh : has_identity_association (3 ∷ []) router.identity ≡ false
unfolding has_identity_association
fresh = refl

validate-export_announce_example :
    validate crypto router.identity 7 (export_announce crypto entry (3 ∷ []) 2)
    ≡ imported (record entry {
      destination = node 7;
      delegations = (5 ∷ 4 ∷ []) ∷ (4 ∷ 3 ∷ []) ∷ [];
      sa_key = 3 ∷ [];
      forward_path = 7 ∷ 0 ∷ [];
      vicinity = false;
      cost = 0;
      active = false;
    })
validate-export_announce_example =
    validate-export_announce crypto router.identity entry (3 ∷ []) 2 7 (λ m. refl) (λ key. refl)
      refl entry-IsDelegated fresh refl

abbrev message : PathAnnounce
message = export_announce crypto entry (3 ∷ []) 2

waiting-queue_announce_example :
    waiting (node 8) (5 ∷ 6 ∷ []) (queue_announce friend message router).0.exports ≡ (
      if id_eq (node 8) (contact_id friend) && bytes_eq (5 ∷ 6 ∷ []) message.public_key
      then some message
      else none)
waiting-queue_announce_example = waiting-queue_announce (node 8) (5 ∷ 6 ∷ []) friend message router

waits :
    waiting (node 8) (5 ∷ 6 ∷ []) (queue_announce friend message router).0.exports ≡ some message
unfolding queue_announce put_buffered buffered put_announce export_announce contact_id key_node_id
    key_null id_eq
waits = refl

transmit_buffer-IsTransmitted_example :
    IsTransmitted
      (node 8)
      message
      (queue_announce friend message router).0
      (transmit_buffer false (node 8) (queue_announce friend message router).0).0
      (transmit_buffer false (node 8) (queue_announce friend message router).0).1
transmit_buffer-IsTransmitted_example =
    transmit_buffer-IsTransmitted (node 8) (5 ∷ 6 ∷ []) message
      (queue_announce friend message router).0 waits

-- A router that has no routes yet
abbrev starting : Router
starting = record router { routes = record (router.routes) { rib = [] } }

starting-IsConsistent : IsConsistent starting
unfolding Records.init
starting-IsConsistent = record { routed = nothing-IsRouted; well_formed = init-IsWellFormed }

message_received-IsConsistent_example :
    OnReturn IsConsistent
      (message_received surroundings (announce_message (message ∷ [])) (node 8) starting)
message_received-IsConsistent_example =
    message_received-IsConsistent surroundings (announce_message (message ∷ [])) (node 8) starting
      (omega arith) starting-IsConsistent
