-- ===== src/Interplex/LinkManager/Calls.antt =====
-- Histories of calls of the link manager.
use unisphere.Prelude.{
  ◌≡◌, refl, Bool, false, Option, some, none, List, [], ◌∷◌, ◌++◌, find, find-eq-some, if_elim, All,
  All-append, All-In, arith,
}
use unisphere.Identity.NodeIdentifier.{NodeIdentifier, id_eq}
use unisphere.Interplex.Contact.{Address, Contact, contact_id, has_addresses, key_node_id}
use unisphere.Interplex.Dispatcher.{Linklet}
use unisphere.Interplex.Link.{Message, Link, close_linklet, is_link_valid, close_link}
use unisphere.Interplex.Link.Connect.{add_contact}
use unisphere.Interplex.Link.Sound.{IsSound, loops, close_link-IsSteady}
use unisphere.Interplex.Link.Histories.{
  LinkCall, linklet_accepted, cleanup_tried, message_sent, link_step, link_step-IsSteady,
  new_link-IsSound,
}
use unisphere.Interplex.LinkManager.{
  LinkManager, Asked, link_id, is_for, find_link, open_link, usable, without_invalid,
  get_or_create_link, settle, sent_one, received_one, send_over, send_to_contact, send_existing,
  send_to_node, refuses, accept_on, linklet_accepted_connection, link_called, link_message_received,
  listen, close_each, close_manager,
}
use unisphere.Interplex.LinkManager.Managed.{
  IsManaged, IsOrderly, removed-IsManaged, settle-IsOrderly, counted-IsManaged,
}

-- A link that may be used, if any
abbrev IsUsable : Option Link → Type 0
IsUsable none = Unit
IsUsable (some k) = IsSound k

opened-IsUsable : (c : Contact) → IsUsable (open_link c)
unfolding add_contact
opened-IsUsable c =
    let s = new_link-IsSound c.peer_key in
    if_elim IsUsable (has_addresses c)
      (record { bounded = s.bounded; turned = s.turned; gone = s.gone; flushed = s.flushed }) tt

found-IsUsable : (id : NodeIdentifier) (m : LinkManager) → IsManaged m → IsUsable (find_link id m)
unfolding find_link
found-IsUsable id m w = by_found (find (is_for id) m.links) refl
  where
    by_found : (o : Option Link) → find (is_for id) m.links ≡ o → IsUsable o
    by_found none h = tt
    by_found (some k) h = All-In IsSound m.links w.sound (find-eq-some (is_for id) m.links k h).1

opened-IsManaged :
    (c : Contact) (m : LinkManager)
    → IsManaged m
    → IsUsable (get_or_create_link c m).0 × IsManaged (get_or_create_link c m).1
unfolding get_or_create_link usable without_invalid
opened-IsManaged c m w = by_found (find_link (contact_id c) m) (found-IsUsable (contact_id c) m w)
  where
    by_found :
        (o : Option Link) → IsUsable o → IsUsable (usable c o) × IsManaged (without_invalid o m)
    by_found none u = (opened-IsUsable c, w)
    by_found (some k) u = (
      if_elim IsUsable (is_link_valid k.link_state) u (opened-IsUsable c),
      if_elim IsManaged (is_link_valid k.link_state) w (removed-IsManaged (link_id k) m w),
    )

send_over-IsOrderly :
    (msg : Message) (o : Option Link) (m : LinkManager)
    → IsUsable o
    → IsManaged m
    → IsOrderly (send_over msg o m)
unfolding send_over
send_over-IsOrderly msg none m u w = (w, tt)
send_over-IsOrderly msg (some k) m u w =
    let o =
      settle-IsOrderly (link_step (message_sent msg) k) m
        (link_step-IsSteady (message_sent msg) k u) w in
    if_elim IsOrderly (refuses (link_step (message_sent msg) k).1) o (
      counted-IsManaged (link_id k) sent_one 1 0 (settle (link_step (message_sent msg) k) m).0
          (λ t. refl) (λ t. omega arith) o.0,
      o.1,
    )

accept_on-IsOrderly :
    (l : Linklet) (o : Option Link) (m : LinkManager)
    → IsUsable o
    → IsManaged m
    → IsOrderly (accept_on l o m)
unfolding accept_on
accept_on-IsOrderly l none m u w = (w, (refl, tt))
accept_on-IsOrderly l (some k) m u w =
    let out = link_step (linklet_accepted l) k in
    let s = link_step-IsSteady (linklet_accepted l) k u in
    let cleaned =
      settle-IsOrderly (link_step cleanup_tried out.0) m
        (link_step-IsSteady cleanup_tried out.0 s.0) w in
    if_elim IsOrderly (refuses out.1)
      (
        cleaned.0,
        All-append (λ (e : Asked). loops e.asked ≡ false)
            (settle (link_step cleanup_tried out.0) m).1
            (record { from = link_id k; asked = close_linklet l.object } ∷ []) cleaned.1 (refl, tt),
      )
      (settle-IsOrderly out m s w)

send_existing-IsOrderly :
    (id : NodeIdentifier) (msg : Message) (o : Option Link) (m : LinkManager)
    → IsUsable o
    → IsManaged m
    → IsOrderly (send_existing id msg o m)
send_existing-IsOrderly id msg none m u w = (w, tt)
send_existing-IsOrderly id msg (some k) m u w =
    if_elim IsOrderly (is_link_valid k.link_state) (send_over-IsOrderly msg (some k) m u w)
      (removed-IsManaged id m w, tt)

close_each-IsOrderly :
    (ks : List Link) (m : LinkManager) → All IsSound ks → IsManaged m → IsOrderly (close_each ks m)
unfolding close_each
close_each-IsOrderly [] m s w = (w, tt)
close_each-IsOrderly (k ∷ ks) m s w =
    let first = settle-IsOrderly (close_link k) m (close_link-IsSteady k s.0) w in
    let rest = close_each-IsOrderly ks (settle (close_link k) m).0 s.1 first.0 in
    (
      rest.0,
      All-append (λ (e : Asked). loops e.asked ≡ false) (settle (close_link k) m).1
          (close_each ks (settle (close_link k) m).0).1 first.1 rest.1,
    )

pub data ManagerCall : Type 0 where
  contact_sent : Contact → Message → ManagerCall
  node_sent : NodeIdentifier → Message → ManagerCall
  connection_accepted : Linklet → Contact → ManagerCall
  link_event : NodeIdentifier → LinkCall → ManagerCall
  message_arrived : Message → ManagerCall
  listened : Bool → Address → ManagerCall
  manager_closed : ManagerCall

unfoldable pub manager_step : ManagerCall → LinkManager → LinkManager × List Asked
manager_step (contact_sent c msg) m = send_to_contact c msg m
manager_step (node_sent id msg) m = send_to_node id msg m
manager_step (connection_accepted l c) m = linklet_accepted_connection l c m
manager_step (link_event id c) m = link_called id c m
manager_step (message_arrived msg) m = (link_message_received msg m, [])
manager_step (listened bound a) m = ((listen bound a m).0, [])
manager_step manager_closed m = close_manager m

unfoldable pub manager_run : List ManagerCall → LinkManager → LinkManager × List Asked
unfolding manager_step
manager_run [] m = (m, [])
manager_run (c ∷ cs) m =
    let first = manager_step c m in let rest = manager_run cs first.0 in (rest.0, first.1 ++ rest.1)

manager_step-IsOrderly :
    (c : ManagerCall) (m : LinkManager) → IsManaged m → IsOrderly (manager_step c m)
unfolding manager_step send_to_contact send_to_node linklet_accepted_connection link_called
    link_message_received listen close_manager
manager_step-IsOrderly (contact_sent c msg) m w =
    let k = opened-IsManaged c m w in
    if_elim IsOrderly (id_eq (contact_id c) (key_node_id m.own_key)) (w, tt)
      (send_over-IsOrderly msg (get_or_create_link c m).0 (get_or_create_link c m).1 k.0 k.1)
manager_step-IsOrderly (node_sent id msg) m w =
    send_existing-IsOrderly id msg (find_link id m) m (found-IsUsable id m w) w
manager_step-IsOrderly (connection_accepted l c) m w =
    let k = opened-IsManaged c m w in
    accept_on-IsOrderly l (get_or_create_link c m).0 (get_or_create_link c m).1 k.0 k.1
manager_step-IsOrderly (link_event id c) m w = by_found (find_link id m) (found-IsUsable id m w)
  where
    by_found :
        (o : Option Link)
        → IsUsable o
        → IsOrderly (elim o as (λ q. LinkManager × List Asked) [
          | none ↦ (m, [])
          | some k ↦ settle (link_step c k) m
        ])
    by_found none u = (w, tt)
    by_found (some k) u = settle-IsOrderly (link_step c k) m (link_step-IsSteady c k u) w
manager_step-IsOrderly (message_arrived msg) m w =
    (counted-IsManaged msg.originator received_one 0 1 m (λ t. omega arith) (λ t. refl) w, tt)
manager_step-IsOrderly (listened bound a) m w = (
  if_elim (λ (o : LinkManager × Bool). IsManaged o.0) bound
      (record {
        sound = w.sound;
        single = w.single;
        tallied_xmits = w.tallied_xmits;
        tallied_rcvd = w.tallied_rcvd;
      })
      w,
  tt,
)
manager_step-IsOrderly manager_closed m w =
    close_each-IsOrderly m.links (record m { listeners = [] }) w.sound
      (record {
        sound = w.sound;
        single = w.single;
        tallied_xmits = w.tallied_xmits;
        tallied_rcvd = w.tallied_rcvd;
      })

-- Any history of calls keeps the link manager in order: every link has a bounded queue that is empty once
-- it is connected and a dispatcher in order, a node has at most one link, the counters of the links add up
-- to the totals, and no dispatcher fails to return from a message.
pub manager_run-IsOrderly :
    (cs : List ManagerCall) (m : LinkManager) → IsManaged m → IsOrderly (manager_run cs m)
unfolding manager_run
manager_run-IsOrderly [] m w = (w, tt)
manager_run-IsOrderly (c ∷ cs) m w =
    let first = manager_step-IsOrderly c m w in
    let rest = manager_run-IsOrderly cs (manager_step c m).0 first.0 in
    (
      rest.0,
      All-append (λ (e : Asked). loops e.asked ≡ false) (manager_step c m).1
          (manager_run cs (manager_step c m).0).1 first.1 rest.1,
    )
