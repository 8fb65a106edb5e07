-- ===== src/Interplex/LinkManager.antt =====
-- src/interplex/link_manager.h and link_manager.cpp: the links of a node. A link that a call changes is
-- put back into the map, or erased where it asks for it (`remove_me`).
pub mod Managed
pub mod Calls
pub mod Examples
use unisphere.Prelude.{
  ℕ, zero, suc, ◌+◌, Bool, true, false, not, ◌&&◌, ◌||◌, Option, some, none, List, [], ◌∷◌, ◌++◌,
  map, keep, find, if◌then◌else◌, length,
}
use unisphere.Identity.NodeIdentifier.{NodeIdentifier, id_eq}
use unisphere.Interplex.Contact.{
  PeerKey, key_node_id, Address, no_address, ip, local, Ranked, Contact, null_contact, contact_id,
  has_addresses, add_address, default_priority,
}
use unisphere.Interplex.Dispatcher.{Linklet}
use unisphere.Interplex.Link.{
  Message, Link, LinkEffect, remove_me, too_many_linklets, close_linklet, is_link_valid, new_link,
  close_link, try_cleanup,
}
use unisphere.Interplex.Link.Connect.{add_contact, link_contact, add_linklet, send}
use unisphere.Interplex.Link.Histories.{
  LinkCall, linklet_accepted, cleanup_tried, link_closed_down, message_sent, contact_added,
  link_step,
}

-- The counters of all links together, and of one
pub record Traffic : Type 0 where
  pub xmits : ℕ
  pub rcvd : ℕ

pub record LinkTraffic : Type 0 where
  pub node : NodeIdentifier
  pub traffic : Traffic

pub record LinkManager : Type 0 where
  pub own_key : PeerKey
  pub links : List Link
  pub listeners : List Address
  pub total : Traffic
  pub by_link : List LinkTraffic

-- Effects of a link, with its node
pub record Asked : Type 0 where
  pub from : NodeIdentifier
  pub asked : LinkEffect

abbrev pub link_id : Link → NodeIdentifier
link_id k = key_node_id k.peer_key

abbrev pub is_for : NodeIdentifier → Link → Bool
is_for id k = id_eq id (link_id k)

unfoldable pub find_link : NodeIdentifier → LinkManager → Option Link
find_link id m = find (is_for id) m.links

-- `removeLink`
abbrev pub erase_link : NodeIdentifier → List Link → List Link
erase_link id ks = keep (λ k. not (is_for id k)) ks

unfoldable pub remove_link : NodeIdentifier → LinkManager → LinkManager
remove_link id m = record m { links = erase_link id m.links }

abbrev pub put_link : Link → List Link → List Link
put_link k ks = k ∷ erase_link (link_id k) ks

-- `getOrCreateLink`, before the link is put into the map
abbrev pub open_link : Contact → Option Link
open_link c = if has_addresses c then some (add_contact c (new_link c.peer_key)) else none

unfoldable pub usable : Contact → Option Link → Option Link
usable c none = open_link c
usable c (some k) = if is_link_valid k.link_state then some k else open_link c

-- An invalid link is removed.
unfoldable pub without_invalid : Option Link → LinkManager → LinkManager
unfolding remove_link
without_invalid none m = m
without_invalid (some k) m = if is_link_valid k.link_state then m else remove_link (link_id k) m

unfoldable pub get_or_create_link : Contact → LinkManager → Option Link × LinkManager
unfolding find_link usable without_invalid
get_or_create_link c m =
    let found = find_link (contact_id c) m in (usable c found, without_invalid found m)

-- The map after a call of a link
abbrev pub is_removal : LinkEffect → Bool
is_removal remove_me = true
is_removal _ = false

abbrev pub asks_removal : List LinkEffect → Bool
asks_removal [] = false
asks_removal (e ∷ es) = is_removal e || asks_removal es

unfoldable pub settle : Link × List LinkEffect → LinkManager → LinkManager × List Asked
unfolding remove_link
settle o m = (
  if asks_removal o.1
      then remove_link (link_id o.0) m
      else record m { links = put_link o.0 m.links },
  map (λ e. record { from = link_id o.0; asked = e }) o.1,
)

-- The counters
abbrev pub sent_one : Traffic → Traffic
sent_one t = record t { xmits = t.xmits + 1 }

abbrev pub received_one : Traffic → Traffic
received_one t = record t { rcvd = t.rcvd + 1 }

unfoldable pub count_traffic :
    NodeIdentifier → (Traffic → Traffic) → List LinkTraffic → List LinkTraffic
count_traffic id f [] = record { node = id; traffic = f (record { xmits = 0; rcvd = 0 }) } ∷ []
count_traffic id f (l ∷ ls) =
    let later = count_traffic id f ls in
    if id_eq id l.node then record l { traffic = f l.traffic } ∷ ls else l ∷ later

unfoldable pub counted_for : NodeIdentifier → (Traffic → Traffic) → LinkManager → LinkManager
unfolding count_traffic
counted_for id f m = record m { total = f m.total; by_link = count_traffic id f m.by_link }

-- Whether a call of the link throws
unfoldable pub refuses : List LinkEffect → Bool
refuses [] = false
refuses (too_many_linklets ∷ es) = true
refuses (_ ∷ es) = refuses es

-- `send` on a link, which is not counted where its exception passes
unfoldable pub send_over : Message → Option Link → LinkManager → LinkManager × List Asked
unfolding settle counted_for
send_over msg none m = (m, [])
send_over msg (some k) m =
    let made = link_step (message_sent msg) k in
    let out = settle made m in
    if refuses made.1 then out else (counted_for (link_id k) sent_one out.0, out.1)

-- `send(contact, msg)`
unfoldable pub send_to_contact : Contact → Message → LinkManager → LinkManager × List Asked
unfolding send_over
send_to_contact c msg m =
    if id_eq (contact_id c) (key_node_id m.own_key)
    then (m, [])
    else (let k = get_or_create_link c m in send_over msg k.0 k.1)

-- `send(nodeId, msg)`
abbrev pub send_existing :
    NodeIdentifier → Message → Option Link → LinkManager → LinkManager × List Asked
send_existing id msg none m = (m, [])
send_existing id msg (some k) m =
    if is_link_valid k.link_state then send_over msg (some k) m else (remove_link id m, [])

unfoldable pub send_to_node : NodeIdentifier → Message → LinkManager → LinkManager × List Asked
unfolding find_link send_over remove_link
send_to_node id msg m = send_existing id msg (find_link id m) m

-- `linkletAcceptedConnection`: too many linklets close the new one.
unfoldable pub accept_on : Linklet → Option Link → LinkManager → LinkManager × List Asked
unfolding settle refuses
accept_on l none m =
    (m, record { from = key_node_id m.own_key; asked = close_linklet l.object } ∷ [])
accept_on l (some k) m =
    let out = link_step (linklet_accepted l) k in
    let cleaned = settle (link_step cleanup_tried out.0) m in
    if refuses out.1
    then (
      cleaned.0,
      cleaned.1 ++ (record { from = link_id k; asked = close_linklet l.object } ∷ []),
    )
    else settle out m

unfoldable pub linklet_accepted_connection :
    Linklet → Contact → LinkManager → LinkManager × List Asked
unfolding accept_on
linklet_accepted_connection l c m = let k = get_or_create_link c m in accept_on l k.0 k.1

-- What happens to a link by its linklets and timers
unfoldable pub link_called : NodeIdentifier → LinkCall → LinkManager → LinkManager × List Asked
unfolding settle find_link
link_called id c m = elim (find_link id m) [ none ↦ (m, []) | some k ↦ settle (link_step c k) m ]

-- `linkMessageReceived`
unfoldable pub link_message_received : Message → LinkManager → LinkManager
unfolding counted_for
link_message_received msg m = counted_for msg.originator received_one m

-- `listen`: `bound` tells whether the linklet could listen; the public method returns no value.
unfoldable pub listen : Bool → Address → LinkManager → LinkManager × Bool
listen bound a m =
    if bound then (record m { listeners = m.listeners ++ (a ∷ []) }, true) else (m, false)

-- `close`
unfoldable pub close_each : List Link → LinkManager → LinkManager × List Asked
unfolding settle
close_each [] m = (m, [])
close_each (k ∷ ks) m =
    let first = settle (close_link k) m in
    let rest = close_each ks first.0 in (rest.0, first.1 ++ rest.1)

unfoldable pub close_manager : LinkManager → LinkManager × List Asked
unfolding close_each
close_manager m = close_each m.links (record m { listeners = [] })

unfoldable pub get_link_contact : NodeIdentifier → LinkManager → Contact
unfolding find_link
get_link_contact id m = elim (find_link id m) [ none ↦ null_contact | some k ↦ link_contact k ]

unfoldable pub get_link_ids : LinkManager → List NodeIdentifier
get_link_ids m = map link_id m.links

-- `verifyPeer`, with what the registered slots answer
unfoldable pub verify_peer : (Contact → Bool) → Contact → LinkManager → Bool
verify_peer hooks c m = not (id_eq (contact_id c) (key_node_id m.own_key)) && hooks c

-- `getLocalContact`: an address for any interface stands for those that the host has.
unfoldable pub add_local : (List ℕ → Bool) → (ℕ → Contact) → Address → Contact → Contact
add_local is_any introspected no_address c = add_address no_address default_priority c
add_local is_any introspected (local p) c = add_address (local p) default_priority c
add_local is_any introspected (ip h p) c =
    if is_any h
    then add_each (introspected p).addresses c
    else add_address (ip h p) default_priority c
  where
    add_each : List Ranked → Contact → Contact
    add_each [] c = c
    add_each (r ∷ rs) c = add_each rs (add_address r.address default_priority c)

unfoldable pub add_locals : (List ℕ → Bool) → (ℕ → Contact) → List Address → Contact → Contact
unfolding add_local
add_locals is_any introspected [] c = c
add_locals is_any introspected (a ∷ more) c =
    add_locals is_any introspected more (add_local is_any introspected a c)

unfoldable pub get_local_contact : (List ℕ → Bool) → (ℕ → Contact) → LinkManager → Contact
unfolding add_locals
get_local_contact is_any introspected m =
    add_locals is_any introspected m.listeners (record { peer_key = m.own_key; addresses = [] })
