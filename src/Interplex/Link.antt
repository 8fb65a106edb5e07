-- ===== src/Interplex/Link.antt =====
-- src/interplex/link.h and link.cpp: a link to a neighbour over any number of linklets. The linklets
-- change their states by themselves, and then call the link.
pub mod Connect
pub mod Sound
pub mod Histories
pub mod Delivery
pub mod Examples
use unisphere.Prelude.{
  ℕ, zero, suc, ◌+◌, Bool, true, false, not, ◌&&◌, ◌||◌, Option, some, none, List, [], ◌∷◌, ◌++◌,
  map, keep, ◌==◌, ltb, if◌then◌else◌, length, head?, drop, get_elem?,
}
use unisphere.Identity.NodeIdentifier.{NodeIdentifier, id_eq}
use unisphere.Interplex.Contact.{
  PeerKey, key_node_id, Address, address_lt, Ranked, Contact, add_address, default_priority,
  contact_id,
}
use unisphere.Interplex.Dispatcher.{
  LinkletState, linklet_closed, linklet_connecting, intro_wait, linklet_connected, listening, is_up,
  Linklet, Choice, no_linklets, chosen, exhausted, looping, dispatch, advanced,
}

-- `Message` of src/interplex/message.h
pub record Message : Type 0 where
  pub type : ℕ
  pub payload : List ℕ
  pub originator : NodeIdentifier

pub data LinkState : Type 0 where
  link_invalid : LinkState
  link_closed : LinkState
  link_connecting : LinkState
  link_connected : LinkState

-- The dispatcher is its iterator, and the address iterator the address that it stands at. `created` counts
-- the linklets that were made.
pub record Link : Type 0 where
  pub peer_key : PeerKey
  pub link_state : LinkState
  pub messages : List Message
  pub last_linklet : Option ℕ
  pub linklets : List Linklet
  pub address_list : List Address
  pub address_at : Option Address
  pub created : ℕ

-- What a link asks of its linklets and its manager. `send_past_end` stands for a message for which the
-- dispatcher follows an iterator at the end, and `send_loops` for one with which it does not return.
pub data LinkEffect : Type 0 where
  send_on : Linklet → Message → LinkEffect
  send_past_end : Message → LinkEffect
  send_loops : Message → LinkEffect
  open_linklet : ℕ → Address → LinkEffect
  close_linklet : ℕ → LinkEffect
  arm_retry : LinkEffect
  arm_idle : LinkEffect
  cancel_timers : LinkEffect
  remove_me : LinkEffect
  receive_message : Message → LinkEffect
  too_many_linklets : LinkEffect

unfoldable pub new_link : PeerKey → Link
new_link key = record {
  peer_key = key;
  link_state = link_closed;
  messages = [];
  last_linklet = none;
  linklets = [];
  address_list = [];
  address_at = none;
  created = 0;
}

abbrev pub is_link_valid : LinkState → Bool
is_link_valid link_invalid = false
is_link_valid _ = true

-- `RoundRobinMessageDispatcher::send`
unfoldable pub sent_by : Link → Message → Choice → Link × List LinkEffect
sent_by k m no_linklets = (k, [])
sent_by k m (chosen i) = (
  record k { last_linklet = advanced k.linklets i },
  elim (get_elem? k.linklets i) [ none ↦ [] | some l ↦ send_on l m ∷ [] ],
)
sent_by k m exhausted = elim k.last_linklet [
  | none ↦ (k, send_past_end m ∷ [])
  | some i ↦ (
    record k { last_linklet = advanced k.linklets i },
    elim (get_elem? k.linklets i) [ none ↦ [] | some l ↦ send_on l m ∷ [] ],
  )
]
sent_by k m looping = (k, send_loops m ∷ [])

unfoldable pub dispatch_message : Message → Link → Link × List LinkEffect
unfolding sent_by
dispatch_message m k = sent_by k m (dispatch k.linklets k.last_linklet)

unfoldable pub dispatch_messages : List Message → Link → Link × List LinkEffect
unfolding dispatch_message
dispatch_messages [] k = (k, [])
dispatch_messages (m ∷ ms) k =
    let first = dispatch_message m k in
    let rest = dispatch_messages ms first.0 in (rest.0, first.1 ++ rest.1)

-- `setState`: the queue is delivered when the link becomes connected.
unfoldable pub delivered : Link → Link × List LinkEffect
unfolding dispatch_messages
delivered k = let out = dispatch_messages k.messages k in (record (out.0) { messages = [] }, out.1)

abbrev pub same_state : LinkState → LinkState → Bool
same_state link_invalid link_invalid = true
same_state link_closed link_closed = true
same_state link_connecting link_connecting = true
same_state link_connected link_connected = true
same_state _ _ = false

unfoldable pub set_state : LinkState → Link → Link × List LinkEffect
unfolding delivered
set_state new k =
    let changed = record k { link_state = new } in
    if same_state new link_connected && not (same_state k.link_state link_connected)
    then delivered changed
    else (changed, [])

-- `checkLinkletState`
abbrev pub is_pending : LinkletState → Bool
is_pending linklet_connecting = true
is_pending intro_wait = true
is_pending linklet_closed = false
is_pending linklet_connected = false
is_pending listening = false

abbrev pub any_linklet : (LinkletState → Bool) → List Linklet → Bool
any_linklet p [] = false
any_linklet p (l ∷ ls) = p l.linklet_state || any_linklet p ls

unfoldable pub linklets_state : List Linklet → LinkState
linklets_state ls =
    if any_linklet is_up ls
    then link_connected
    else if any_linklet is_pending ls
    then link_connecting
    else link_closed

unfoldable pub check_linklet_state : Link → Link × List LinkEffect
unfolding set_state linklets_state
check_linklet_state k =
    if is_link_valid k.link_state then set_state (linklets_state k.linklets) k else (k, [])

-- `removeLinklet`, which resets the dispatcher
abbrev pub without : ℕ → List Linklet → List Linklet
without object ls = keep (λ l. not (l.object == object)) ls

unfoldable pub remove_linklet : ℕ → Link → Link × List LinkEffect
unfolding check_linklet_state
remove_linklet object k =
    check_linklet_state (record k { linklets = without object k.linklets; last_linklet = none })

-- `close`: an invalid link changes no more, so that the removals leave it as it is.
unfoldable pub close_linklets : List Linklet → List LinkEffect
close_linklets ls = map (λ l. close_linklet l.object) ls

unfoldable pub close_link : Link → Link × List LinkEffect
unfolding close_linklets
close_link k =
    if is_link_valid k.link_state
    then (
      record k { link_state = link_invalid; linklets = []; last_linklet = none },
      cancel_timers ∷ (close_linklets k.linklets ++ (remove_me ∷ [])),
    )
    else (k, [])

-- `tryCleanup`
unfoldable pub try_cleanup : Link → Link × List LinkEffect
unfolding close_link
try_cleanup k = if length k.linklets == 0 then close_link k else (k, [])
