-- ===== src/Interplex/Link/Histories.antt =====
-- Histories of a link: its operations, and linklets that change their states by themselves.
use unisphere.Prelude.{
  ℕ, ◌+◌, ◌≤◌, ◌≡◌, refl, sym, ap, subst, ◌∙◌, inl, inr, Bool, true, false, ◌&&◌, Option, some,
  none, List, [], ◌∷◌, ◌++◌, ltb, if◌then◌else◌, if_elim, length, drop, length-append, All-append,
  Bool-cases, arith,
}
use unisphere.Interplex.Contact.{Address, Contact, PeerKey}
use unisphere.Interplex.Dispatcher.{Linklet, LinkletState, linklet_closed, linklet_connected, is_up}
use unisphere.Interplex.Dispatcher.Turns.{IsTurned}
use unisphere.Interplex.Link.{
  Message, LinkState, link_invalid, link_closed, link_connecting, link_connected, Link, LinkEffect,
  new_link, is_link_valid, same_state, is_pending, set_state, remove_linklet, close_link,
  try_cleanup,
}
use unisphere.Interplex.Link.Connect.{
  max_linklets, has_object, added, add_linklet, add_contact, next_address, connect_to,
  try_next_address, max_messages, queued, send_by_state, send, turned_to,
  linklet_connection_success, linklet_connection_failed, linklet_disconnected, retry_timeout,
  idle_timeout,
}
use unisphere.Interplex.Link.Sound.{
  IsSound, loops, IsReturned, IsSteady, IsReady, IsConnected, IsInvalid, set_state-IsSteady,
  check_linklet_state-IsSteady, remove_linklet-IsSteady, close_link-IsSteady, try_cleanup-IsSteady,
  dispatch_message-IsSteady,
}

pub data LinkCall : Type 0 where
  message_sent : Message → LinkCall
  contact_added : Contact → LinkCall
  linklet_accepted : Linklet → LinkCall
  linklet_changed : ℕ → LinkletState → LinkCall
  connection_succeeded : ℕ → LinkCall
  connection_failed : ℕ → LinkCall
  disconnected : ℕ → LinkCall
  retry_expired : Bool → LinkCall
  idle_expired : Bool → LinkCall
  cleanup_tried : LinkCall
  link_closed_down : LinkCall

-- The manager adds linklets to valid links only.
abbrev pub accepted : LinkState → Linklet → Link → Link × List LinkEffect
accepted link_invalid l k = (k, [])
accepted _ l k = add_linklet l k

unfoldable pub link_step : LinkCall → Link → Link × List LinkEffect
unfolding turned_to
link_step (message_sent m) k = send m k
link_step (contact_added c) k = (add_contact c k, [])
link_step (linklet_accepted l) k = accepted k.link_state l k
link_step (linklet_changed object now) k =
    (record k { linklets = turned_to object now k.linklets }, [])
link_step (connection_succeeded object) k = linklet_connection_success object k
link_step (connection_failed object) k = linklet_connection_failed object k
link_step (disconnected object) k = linklet_disconnected object k
link_step (retry_expired aborted) k = retry_timeout aborted k
link_step (idle_expired aborted) k = idle_timeout aborted k
link_step cleanup_tried k = try_cleanup k
link_step link_closed_down k = close_link k

unfoldable pub link_run : List LinkCall → Link → Link × List LinkEffect
unfolding link_step
link_run [] k = (k, [])
link_run (c ∷ cs) k =
    let first = link_step c k in let rest = link_run cs first.0 in (rest.0, first.1 ++ rest.1)

-- Steps one after another
joined :
    (o : Link × List LinkEffect) (f : Link → Link × List LinkEffect)
    → IsSteady o
    → ((k : Link) → IsSound k → IsSteady (f k))
    → IsSteady ((f o.0).0, o.1 ++ (f o.0).1)
joined o f h g = let r = g o.0 h.0 in (r.0, All-append (λ e. loops e ≡ false) o.1 (f o.0).1 h.1 r.1)

push_back-IsTurned :
    (ls : List Linklet) (l : Linklet) (last : Option ℕ)
    → IsTurned ls last
    → IsTurned (ls ++ (l ∷ [])) last
push_back-IsTurned ls l none t = tt
push_back-IsTurned ls l (some i) t = (t.0, omega (arith, t.1, length-append ls (l ∷ [])))

length-turned_to :
    (object : ℕ) (now : LinkletState) (ls : List Linklet)
    → length (turned_to object now ls) ≡ length ls
unfolding turned_to
length-turned_to object now [] = refl
length-turned_to object now (l ∷ ls) = omega (arith, length-turned_to object now ls)

turned_to-IsTurned :
    (object : ℕ) (now : LinkletState) (ls : List Linklet) (last : Option ℕ)
    → IsTurned ls last
    → IsTurned (turned_to object now ls) last
turned_to-IsTurned object now ls none t = tt
turned_to-IsTurned object now ls (some i) t =
    (t.0, omega (arith, t.1, length-turned_to object now ls))

turned-IsSound :
    (object : ℕ) (now : LinkletState) (k : Link)
    → IsSound k
    → IsSound (record k { linklets = turned_to object now k.linklets })
unfolding turned_to
turned-IsSound object now k s = record {
  bounded = s.bounded;
  turned = turned_to-IsTurned object now k.linklets k.last_linklet s.turned;
  gone = λ h. ap (turned_to object now) (s.gone h);
  flushed = s.flushed;
}

-- A link that is not invalid
abbrev IsAlive : Link → Type 0
IsAlive k = k.link_state ≡ link_invalid → ⊥

add_linklet-IsSteady : (l : Linklet) (k : Link) → IsAlive k → IsSound k → IsSteady (add_linklet l k)
unfolding add_linklet added
add_linklet-IsSteady l k alive s =
    if_elim IsSteady (has_object l.object k.linklets) (s, tt)
      (if_elim IsSteady (ltb max_linklets (length k.linklets)) (s, (refl, tt))
        (if_elim IsSteady (is_up l.linklet_state)
          (set_state-IsSteady link_connected more (ready refl))
          (if_elim IsSteady (is_pending l.linklet_state && same_state k.link_state link_closed)
            (set_state-IsSteady link_connecting more (ready refl))
            (
              record {
                bounded = s.bounded;
                turned = push_back-IsTurned k.linklets l k.last_linklet s.turned;
                gone = λ h. absurd (alive h);
                flushed = s.flushed;
              },
              tt,
            ))))
  where
    more : Link
    more = record k { linklets = k.linklets ++ (l ∷ []) }

    ready : {new : LinkState} → is_link_valid new ≡ true → IsReady new more
    ready v = record {
      bounded = s.bounded;
      turned = push_back-IsTurned k.linklets l k.last_linklet s.turned;
      kept = s.flushed;
      valid = v;
    }

connect_to-IsSteady :
    (a : Address) (k : Link) → k.link_state ≡ link_closed → IsSound k → IsSteady (connect_to a k)
unfolding connect_to set_state
connect_to-IsSteady a k closed s =
    let started = record k {
      link_state = link_connecting;
      address_at = some a;
      created = k.created + 1;
    } in
    let l : Linklet = record { object = k.created; linklet_state = linklet_closed } in
    let o =
      add_linklet-IsSteady l started (λ h. absurd (subst IsInvalid (sym h) tt))
        (record {
          bounded = s.bounded;
          turned = s.turned;
          gone = λ h. absurd (subst IsInvalid (sym h) tt);
          flushed = λ h. absurd (subst IsConnected (sym h) tt);
        }) in
    (
      o.0,
      All-append (λ e. loops e ≡ false) (add_linklet l started).1 _ o.1
          (if_elim IsReturned (ltb max_linklets (length k.linklets)) tt (refl, tt)),
    )

same_closed : (a : LinkState) → same_state a link_closed ≡ true → a ≡ link_closed
same_closed link_invalid h = ground (arith, h)
same_closed link_closed h = refl
same_closed link_connecting h = ground (arith, h)
same_closed link_connected h = ground (arith, h)

try_next_address-IsSteady : (k : Link) → IsSound k → IsSteady (try_next_address k)
unfolding try_next_address
try_next_address-IsSteady k s = by_state (same_state k.link_state link_closed) refl
  where
    by_address :
        k.link_state ≡ link_closed
        → (o : Option Address)
        → IsSteady (elim o as (λ q. Link × List LinkEffect) [
          | none ↦ close_link k
          | some a ↦ connect_to a k
        ])
    by_address closed none = close_link-IsSteady k s
    by_address closed (some a) = connect_to-IsSteady a k closed s

    by_state :
        (b : Bool)
        → same_state k.link_state link_closed ≡ b
        → IsSteady (
            if b
            then elim (next_address k.address_at k.address_list) as (λ q. Link × List LinkEffect) [
              | none ↦ close_link k
              | some a ↦ connect_to a k
            ]
            else (k, []))
    by_state true h =
        by_address (same_closed k.link_state h) (next_address k.address_at k.address_list)
    by_state false h = (s, tt)

queued-bounded :
    (m : Message) (k : Link) → length k.messages ≤ 512 → length (queued m k).messages ≤ 512
unfolding queued
queued-bounded m k h = elim (Bool-cases (ltb max_messages (length (k.messages ++ (m ∷ []))))) [
  | inl over ↦
      rw over
        (shorter (k.messages ++ (m ∷ [])) (omega (arith, h, length-append k.messages (m ∷ []))))
  | inr under ↦ rw under (ground (arith, under))
]
  where
    shorter : (ms : List Message) → length ms ≤ 513 → length (drop 1 ms) ≤ 512
    shorter [] h = omega arith
    shorter (x ∷ ms) h = omega (arith, h)

queued-IsSound :
    (m : Message) (k : Link)
    → (k.link_state ≡ link_connected → ⊥)
    → IsSound k
    → IsSound (queued m k)
unfolding queued
queued-IsSound m k waiting s = record {
  bounded = queued-bounded m k s.bounded;
  turned = s.turned;
  gone = s.gone;
  flushed = λ h. absurd (waiting h);
}

send-IsSteady : (m : Message) (k : Link) → IsSound k → IsSteady (send m k)
unfolding send send_by_state
send-IsSteady m k s = by_state k.link_state refl
  where
    by_state : (st : LinkState) → k.link_state ≡ st → IsSteady (send_by_state st m k)
    by_state link_invalid h = (s, tt)
    by_state link_connected h = dispatch_message-IsSteady m k s
    by_state link_connecting h =
        (queued-IsSound m k (λ e. absurd (subst IsConnected (sym (sym h ∙ e)) tt)) s, tt)
    by_state link_closed h =
        try_next_address-IsSteady (queued m k)
          (queued-IsSound m k (λ e. absurd (subst IsConnected (sym (sym h ∙ e)) tt)) s)

failed-IsSteady :
    (object : ℕ) (k : Link) → IsSound k → IsSteady (linklet_connection_failed object k)
unfolding linklet_connection_failed
failed-IsSteady object k s =
    let o = remove_linklet-IsSteady object k s in
    (
      o.0,
      All-append (λ e. loops e ≡ false) (remove_linklet object k).1 _ o.1
          (if_elim IsReturned (same_state (remove_linklet object k).0.link_state link_closed)
            (refl, tt) tt),
    )

disconnected-IsSteady :
    (object : ℕ) (k : Link) → IsSound k → IsSteady (linklet_disconnected object k)
unfolding linklet_disconnected
disconnected-IsSteady object k s =
    let o = remove_linklet-IsSteady object k s in
    if_elim IsSteady (same_state (remove_linklet object k).0.link_state link_closed)
      (joined (remove_linklet object k) close_link o close_link-IsSteady) o

accepted-IsSteady : (l : Linklet) (k : Link) → IsSound k → IsSteady (accepted k.link_state l k)
accepted-IsSteady l k s = by_state k.link_state refl
  where
    by_state : (st : LinkState) → k.link_state ≡ st → IsSteady (accepted st l k)
    by_state link_invalid h = (s, tt)
    by_state link_closed h = add_linklet-IsSteady l k (λ e. subst IsInvalid (sym (sym h ∙ e)) tt) s
    by_state link_connecting h =
        add_linklet-IsSteady l k (λ e. subst IsInvalid (sym (sym h ∙ e)) tt) s
    by_state link_connected h =
        add_linklet-IsSteady l k (λ e. subst IsInvalid (sym (sym h ∙ e)) tt) s

pub link_step-IsSteady : (c : LinkCall) (k : Link) → IsSound k → IsSteady (link_step c k)
unfolding link_step linklet_connection_success retry_timeout idle_timeout add_contact
link_step-IsSteady (message_sent m) k s = send-IsSteady m k s
link_step-IsSteady (contact_added c) k s =
    (record { bounded = s.bounded; turned = s.turned; gone = s.gone; flushed = s.flushed }, tt)
link_step-IsSteady (linklet_accepted l) k s = accepted-IsSteady l k s
link_step-IsSteady (linklet_changed object now) k s = (turned-IsSound object now k s, tt)
link_step-IsSteady (connection_succeeded object) k s =
    let t = turned-IsSound object linklet_connected k s in
    check_linklet_state-IsSteady
      (record k { linklets = turned_to object linklet_connected k.linklets }) t.bounded t.turned
      t.gone t.flushed
link_step-IsSteady (connection_failed object) k s = failed-IsSteady object k s
link_step-IsSteady (disconnected object) k s = disconnected-IsSteady object k s
link_step-IsSteady (retry_expired aborted) k s =
    if_elim IsSteady aborted (s, tt) (try_next_address-IsSteady k s)
link_step-IsSteady (idle_expired aborted) k s =
    if_elim IsSteady aborted (s, tt) (close_link-IsSteady k s)
link_step-IsSteady cleanup_tried k s = try_cleanup-IsSteady k s
link_step-IsSteady link_closed_down k s = close_link-IsSteady k s

link_run-IsSteady : (cs : List LinkCall) (k : Link) → IsSound k → IsSteady (link_run cs k)
unfolding link_run
link_run-IsSteady [] k s = (s, tt)
link_run-IsSteady (c ∷ cs) k s =
    joined (link_step c k) (link_run cs) (link_step-IsSteady c k s)
      (λ q t. link_run-IsSteady cs q t)

pub new_link-IsSound : (key : PeerKey) → IsSound (new_link key)
unfolding new_link
new_link-IsSound key = record {
  bounded = omega arith;
  turned = tt;
  gone = λ h. refl;
  flushed = λ h. refl;
}

-- After any history of calls and of changes of its linklets, a new link has at most 512 messages in its
-- queue, none once it is connected, and no linklets once it is invalid; its dispatcher is in order, and has
-- returned from every message.
pub link_run-IsSound : (key : PeerKey) (cs : List LinkCall) → IsSteady (link_run cs (new_link key))
link_run-IsSound key cs = link_run-IsSteady cs (new_link key) (new_link-IsSound key)
