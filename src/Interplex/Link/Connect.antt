-- ===== src/Interplex/Link/Connect.antt =====
-- How a link of src/interplex/link.cpp gets its linklets and sends its messages, and the slots of its
-- linklets' signals.
use unisphere.Prelude.{
  ℕ, ◌+◌, Bool, false, not, ◌&&◌, ◌||◌, Option, some, none, List, [], ◌∷◌, ◌++◌, ◌==◌, ltb,
  if◌then◌else◌, length, head?, drop,
}
use unisphere.Identity.NodeIdentifier.{id_eq}
use unisphere.Interplex.Contact.{
  key_node_id, Address, address_lt, Ranked, Contact, add_address, default_priority, contact_id,
}
use unisphere.Interplex.Dispatcher.{LinkletState, linklet_closed, linklet_connected, is_up, Linklet}
use unisphere.Interplex.Link.{
  Message, LinkState, link_invalid, link_closed, link_connecting, link_connected, Link, LinkEffect,
  open_linklet, arm_retry, arm_idle, receive_message, too_many_linklets, dispatch_message,
  same_state, set_state, is_pending, check_linklet_state, remove_linklet, close_link,
}

-- `addLinklet`
abbrev pub max_linklets : ℕ
max_linklets = 16

abbrev pub has_object : ℕ → List Linklet → Bool
has_object object [] = false
has_object object (l ∷ ls) = l.object == object || has_object object ls

unfoldable pub added : Linklet → Link → Link × List LinkEffect
unfolding set_state
added l k =
    let more = record k { linklets = k.linklets ++ (l ∷ []) } in
    if is_up l.linklet_state
    then set_state link_connected more
    else if is_pending l.linklet_state && same_state k.link_state link_closed
    then set_state link_connecting more
    else (more, [])

unfoldable pub add_linklet : Linklet → Link → Link × List LinkEffect
unfolding added
add_linklet l k =
    if has_object l.object k.linklets
    then (k, [])
    else if ltb max_linklets (length k.linklets)
    then (k, too_many_linklets ∷ [])
    else added l k

-- `addContact`: the addresses are a set in the order of `operator<`.
unfoldable pub insert_address : Address → List Address → List Address
insert_address a [] = a ∷ []
insert_address a (b ∷ bs) =
    let later = insert_address a bs in
    if address_lt a b then a ∷ b ∷ bs else if address_lt b a then b ∷ later else b ∷ bs

unfoldable pub insert_addresses : List Ranked → List Address → List Address
unfolding insert_address
insert_addresses [] as' = as'
insert_addresses (r ∷ rs) as' = insert_addresses rs (insert_address r.address as')

unfoldable pub add_contact : Contact → Link → Link
unfolding insert_addresses
add_contact c k = record k { address_list = insert_addresses c.addresses k.address_list }

-- `contact()`
unfoldable pub with_addresses : List Address → Contact → Contact
with_addresses [] c = c
with_addresses (a ∷ more) c = with_addresses more (add_address a default_priority c)

unfoldable pub link_contact : Link → Contact
unfolding with_addresses
link_contact k = with_addresses k.address_list (record { peer_key = k.peer_key; addresses = [] })

-- The next address: the one behind the iterator, and the first one at the end
unfoldable pub behind : Address → List Address → Option Address
behind a [] = none
behind a (b ∷ bs) = if not (address_lt a b) && not (address_lt b a) then head? bs else behind a bs

unfoldable pub next_address : Option Address → List Address → Option Address
unfolding behind
next_address none as' = head? as'
next_address (some a) as' = elim (behind a as') [ none ↦ head? as' | some b ↦ some b ]

-- `tryNextAddress`
unfoldable pub connect_to : Address → Link → Link × List LinkEffect
unfolding set_state add_linklet
connect_to a k =
    let started =
      set_state link_connecting (record k { address_at = some a; created = k.created + 1 }) in
    let out =
      add_linklet (record { object = k.created; linklet_state = linklet_closed }) started.0 in
    (
      out.0,
      started.1
          ++ (out.1
              ++ (if ltb max_linklets (length k.linklets)
                  then []
                  else open_linklet k.created a ∷ [])),
    )

unfoldable pub try_next_address : Link → Link × List LinkEffect
unfolding next_address connect_to close_link
try_next_address k =
    if same_state k.link_state link_closed
    then elim (next_address k.address_at k.address_list) [
      | none ↦ close_link k
      | some a ↦ connect_to a k
    ]
    else (k, [])

-- `send`
abbrev pub max_messages : ℕ
max_messages = 512

unfoldable pub queued : Message → Link → Link
queued m k =
    let ms = k.messages ++ (m ∷ []) in
    record k { messages = if ltb max_messages (length ms) then drop 1 ms else ms }

unfoldable pub send_by_state : LinkState → Message → Link → Link × List LinkEffect
unfolding queued dispatch_message try_next_address
send_by_state link_invalid m k = (k, [])
send_by_state link_connected m k = dispatch_message m k
send_by_state link_connecting m k = (queued m k, [])
send_by_state link_closed m k = try_next_address (queued m k)

unfoldable pub send : Message → Link → Link × List LinkEffect
unfolding send_by_state
send m k = send_by_state k.link_state m k

-- The slots of the linklets' signals. `now` is the state that the linklet has when it calls.
unfoldable pub turned_to : ℕ → LinkletState → List Linklet → List Linklet
turned_to object now [] = []
turned_to object now (l ∷ ls) =
    (if l.object == object then record l { linklet_state = now } else l) ∷ turned_to object now ls

unfoldable pub linklet_connection_success : ℕ → Link → Link × List LinkEffect
unfolding check_linklet_state turned_to
linklet_connection_success object k =
    check_linklet_state (record k { linklets = turned_to object linklet_connected k.linklets })

unfoldable pub linklet_connection_failed : ℕ → Link → Link × List LinkEffect
unfolding remove_linklet
linklet_connection_failed object k =
    let out = remove_linklet object k in
    (out.0, out.1 ++ (if same_state out.0.link_state link_closed then arm_retry ∷ [] else []))

unfoldable pub linklet_disconnected : ℕ → Link → Link × List LinkEffect
unfolding remove_linklet close_link
linklet_disconnected object k =
    let out = remove_linklet object k in
    let closed = close_link out.0 in
    if same_state out.0.link_state link_closed then (closed.0, out.1 ++ closed.1) else out

unfoldable pub linklet_verify_peer : Contact → Link → Bool
linklet_verify_peer c k = id_eq (contact_id c) (key_node_id k.peer_key)

-- `cancelled` is the number of waits that `expires_from_now` cancels.
unfoldable pub linklet_message_received : ℕ → Message → Link → List LinkEffect
linklet_message_received cancelled m k =
    (if ltb 0 cancelled then arm_idle ∷ [] else [])
    ++ (receive_message (record m { originator = key_node_id k.peer_key }) ∷ [])

-- The timers, `aborted` where they were cancelled
unfoldable pub retry_timeout : Bool → Link → Link × List LinkEffect
unfolding try_next_address
retry_timeout aborted k = if aborted then (k, []) else try_next_address k

unfoldable pub idle_timeout : Bool → Link → Link × List LinkEffect
unfolding close_link
idle_timeout aborted k = if aborted then (k, []) else close_link k
