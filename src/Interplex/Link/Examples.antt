-- ===== src/Interplex/Link/Examples.antt =====
-- A link at concrete values: one linklet to one address, and messages before it is connected.
use unisphere.Prelude.Int.{pos}
use unisphere.Prelude.{ℕ, ◌≡◌, refl, some, none, List, [], ◌∷◌, replicate, arith}
use unisphere.Interplex.Contact.{PeerKey, Contact, ip}
use unisphere.Interplex.Dispatcher.{Linklet, linklet_connected, linklet_closed, dispatch}
use unisphere.Interplex.Dispatcher.Turns.{IsServed, dispatch-IsServed}
use unisphere.Interplex.Link.{Message, Link, link_connecting, link_connected, new_link, set_state}
use unisphere.Interplex.Link.Sound.{IsSteady}
use unisphere.Interplex.Link.Histories.{
  LinkCall, message_sent, contact_added, connection_succeeded, disconnected, link_run,
  link_run-IsSound,
}
use unisphere.Interplex.Link.Delivery.{IsSentAll, set_state-IsSentAll}

abbrev pub key : PeerKey
key = record { bytes = 1 ∷ []; hashed = record { identifier = replicate 20 7 } }

abbrev pub reachable : Contact
reachable = record {
  peer_key = key;
  addresses = record { priority = pos 10; address = ip (127 ∷ []) 8001 } ∷ [];
}

abbrev pub note : ℕ → Message
note n = record { type = n; payload = []; originator = record { identifier = [] } }

abbrev calls : List LinkCall
calls =
    contact_added reachable
    ∷ message_sent (note 1)
    ∷ message_sent (note 2)
    ∷ connection_succeeded 0
    ∷ message_sent (note 3)
    ∷ disconnected 0
    ∷ []

link_run-IsSound_example : IsSteady (link_run calls (new_link key))
link_run-IsSound_example = link_run-IsSound key calls

abbrev pair : List Linklet
pair =
    record { object = 0; linklet_state = linklet_closed }
    ∷ record { object = 1; linklet_state = linklet_connected }
    ∷ []

dispatch-IsServed_example : IsServed pair (dispatch pair (some 1))
dispatch-IsServed_example = dispatch-IsServed pair (some 1) (omega arith, omega arith)

abbrev ready : Link
ready = record (new_link key) {
  link_state = link_connecting;
  messages = note 1 ∷ note 2 ∷ [];
  linklets = pair;
  last_linklet = none;
}

set_state-IsSentAll_example :
    IsSentAll (note 1 ∷ note 2 ∷ []) (set_state link_connected ready).1
    × ((set_state link_connected ready).0.messages ≡ [])
set_state-IsSentAll_example = set_state-IsSentAll ready refl refl tt
