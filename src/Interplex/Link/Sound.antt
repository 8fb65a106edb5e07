-- ===== src/Interplex/Link/Sound.antt =====
-- What every operation of a link leaves in order.
use unisphere.Prelude.{
  ℕ, zero, suc, ◌+◌, ◌<◌, ◌≤◌, ◌≡◌, refl, sym, ap, subst, ◌∙◌, inl, inr, Bool, true, false, not,
  Option, some, none, List, [], ◌∷◌, ◌++◌, ◌==◌, if◌then◌else◌, if_elim, length, All, All-append,
  get_elem?, Bool-cases, arith,
}
use unisphere.Interplex.Dispatcher.{
  Linklet, Choice, no_linklets, chosen, exhausted, looping, dispatch, advanced,
}
use unisphere.Interplex.Dispatcher.Turns.{IsServed, IsTurned, dispatch-IsServed}
use unisphere.Interplex.Link.{
  Message, LinkState, link_invalid, link_closed, link_connecting, link_connected, Link, LinkEffect,
  send_on, send_past_end, send_loops, remove_me, is_link_valid, sent_by, dispatch_message,
  dispatch_messages, delivered, same_state, set_state, linklets_state, check_linklet_state, without,
  remove_linklet, close_linklets, close_link, try_cleanup,
}

-- The queue is bounded, and empty once the link is connected; the dispatcher's iterator is in order, and an
-- invalid link has no linklets.
pub record IsSound (k : Link) : Type 0 where
  pub bounded : length k.messages ≤ 512
  pub turned : IsTurned k.linklets k.last_linklet
  pub gone : k.link_state ≡ link_invalid → k.linklets ≡ []
  pub flushed : k.link_state ≡ link_connected → k.messages ≡ []

-- The dispatcher returned from every message.
abbrev pub loops : LinkEffect → Bool
loops (send_loops m) = true
loops _ = false

abbrev pub IsReturned : List LinkEffect → Type 0
IsReturned es = All (λ e. loops e ≡ false) es

abbrev pub IsSteady : Link × List LinkEffect → Type 0
IsSteady o = IsSound o.0 × IsReturned o.1

-- Only the iterator has moved.
abbrev pub IsDispatched : Link → Link × List LinkEffect → Type 0
IsDispatched k o =
    (o.0 ≡ record k { last_linklet = o.0.last_linklet })
    × IsTurned k.linklets o.0.last_linklet
    × IsReturned o.1

advanced-IsTurned : (ls : List Linklet) (i : ℕ) → i < length ls → IsTurned ls (advanced ls i)
advanced-IsTurned ls i h = elim (Bool-cases (i + 1 == length ls)) [
  | inl end ↦ rw end tt
  | inr inside ↦ rw inside (omega arith, ground (arith, h, inside))
]

pub get_elem?-within :
    (ls : List Linklet) (i : ℕ) (l : Linklet) → get_elem? ls i ≡ some l → i < length ls
get_elem?-within [] i l h = ground (arith, h)
get_elem?-within (m ∷ ls) zero l h = omega arith
get_elem?-within (m ∷ ls) (suc i) l h = omega (arith, get_elem?-within ls i l h)

sending-IsReturned :
    (o : Option Linklet) (m : Message)
    → IsReturned (elim o as (λ q. List LinkEffect) [ none ↦ [] | some l ↦ send_on l m ∷ [] ])
sending-IsReturned none m = tt
sending-IsReturned (some l) m = (refl, tt)

sent_by-IsDispatched :
    (k : Link) (m : Message) (c : Choice)
    → IsTurned k.linklets k.last_linklet
    → IsServed k.linklets c
    → IsDispatched k (sent_by k m c)
unfolding sent_by
sent_by-IsDispatched k m no_linklets t s = (refl, t, tt)
sent_by-IsDispatched k m (chosen i) t s = (
  refl,
  advanced-IsTurned k.linklets i (get_elem?-within k.linklets i (s.0) (s.1)),
  sending-IsReturned _ m,
)
sent_by-IsDispatched k m exhausted t s = by_last k.last_linklet t
  where
    by_last :
        (o : Option ℕ)
        → IsTurned k.linklets o
        → IsDispatched k (elim o as (λ q. Link × List LinkEffect) [
          | none ↦ (record k { last_linklet = o }, send_past_end m ∷ [])
          | some i ↦ (
            record k { last_linklet = advanced k.linklets i },
            elim (get_elem? k.linklets i) as (λ q. List LinkEffect) [
              | none ↦ []
              | some l ↦ send_on l m ∷ []
            ],
          )
        ])
    by_last none t = (refl, tt, (refl, tt))
    by_last (some i) t =
        (refl, advanced-IsTurned k.linklets i (t.1), sending-IsReturned (get_elem? k.linklets i) m)
sent_by-IsDispatched k m looping t s = absurd s

pub dispatch_message-IsDispatched :
    (m : Message) (k : Link)
    → IsTurned k.linklets k.last_linklet
    → IsDispatched k (dispatch_message m k)
unfolding dispatch_message
dispatch_message-IsDispatched m k t =
    sent_by-IsDispatched k m (dispatch k.linklets k.last_linklet) t
      (dispatch-IsServed k.linklets k.last_linklet t)

dispatch_messages-IsDispatched :
    (ms : List Message) (k : Link)
    → IsTurned k.linklets k.last_linklet
    → IsDispatched k (dispatch_messages ms k)
unfolding dispatch_messages
dispatch_messages-IsDispatched [] k t = (refl, t, tt)
dispatch_messages-IsDispatched (m ∷ ms) k t =
    joined (dispatch_message m k) (dispatch_message-IsDispatched m k t)
      (λ q u. dispatch_messages-IsDispatched ms q u)
  where
    joined :
        (o : Link × List LinkEffect)
        → IsDispatched k o
        → ((q : Link)
            → IsTurned q.linklets q.last_linklet
            → IsDispatched q (dispatch_messages ms q))
        → IsDispatched k ((dispatch_messages ms o.0).0, o.1 ++ (dispatch_messages ms o.0).1)
    joined o h rest =
        let same : o.0.linklets ≡ k.linklets = ap (λ (q : Link). q.linklets) h.0 in
        let r = rest o.0 (subst (λ ls. IsTurned ls o.0.last_linklet) (sym same) h.1) in
        (
          r.0
              ∙ ap
                  (λ (q : Link). record q {
                    last_linklet = (dispatch_messages ms o.0).0.last_linklet;
                  })
                  h.0,
          subst (λ ls. IsTurned ls (dispatch_messages ms o.0).0.last_linklet) same r.1,
          All-append (λ e. loops e ≡ false) o.1 (dispatch_messages ms o.0).1 h.2 r.2,
        )

-- What a change of state asks of a link.
pub record IsReady (new : LinkState) (k : Link) : Type 0 where
  pub bounded : length k.messages ≤ 512
  pub turned : IsTurned k.linklets k.last_linklet
  pub kept : k.link_state ≡ link_connected → k.messages ≡ []
  pub valid : is_link_valid new ≡ true

pub same_connected : (a : LinkState) → same_state a link_connected ≡ true → a ≡ link_connected
same_connected link_invalid h = ground (arith, h)
same_connected link_closed h = ground (arith, h)
same_connected link_connecting h = ground (arith, h)
same_connected link_connected h = refl

abbrev pub IsConnected : LinkState → Type 0
IsConnected link_connected = Unit
IsConnected _ = ⊥

abbrev pub IsInvalid : LinkState → Type 0
IsInvalid link_invalid = Unit
IsInvalid _ = ⊥

delivered-IsSteady :
    (k : Link)
    → IsTurned k.linklets k.last_linklet
    → is_link_valid k.link_state ≡ true
    → IsSteady (delivered k)
unfolding delivered
delivered-IsSteady k t valid =
    let d = dispatch_messages-IsDispatched k.messages k t in
    (
      record {
        bounded = omega arith;
        turned =
            subst (λ ls. IsTurned ls (dispatch_messages k.messages k).0.last_linklet)
              (sym (ap (λ (q : Link). q.linklets) d.0)) d.1;
        gone = λ h.
            ground (arith, valid, ap is_link_valid (sym (ap (λ (q : Link). q.link_state) d.0) ∙ h));
        flushed = λ h. refl;
      },
      d.2,
    )

pub set_state-IsSteady : (new : LinkState) (k : Link) → IsReady new k → IsSteady (set_state new k)
unfolding set_state
set_state-IsSteady link_invalid k r = ground (arith, r.valid)
set_state-IsSteady link_closed k r = (
  record {
    bounded = r.bounded;
    turned = r.turned;
    gone = λ h. absurd (subst IsInvalid (sym h) tt);
    flushed = λ h. absurd (subst IsConnected (sym h) tt);
  },
  tt,
)
set_state-IsSteady link_connecting k r = (
  record {
    bounded = r.bounded;
    turned = r.turned;
    gone = λ h. absurd (subst IsInvalid (sym h) tt);
    flushed = λ h. absurd (subst IsConnected (sym h) tt);
  },
  tt,
)
set_state-IsSteady link_connected k r = by_old (same_state k.link_state link_connected) refl
  where
    changed : Link
    changed = record k { link_state = link_connected }

    by_old :
        (old : Bool)
        → same_state k.link_state link_connected ≡ old
        → IsSteady (if not old then delivered changed else (changed, []))
    by_old false h = delivered-IsSteady changed r.turned refl
    by_old true h = (
      record {
        bounded = r.bounded;
        turned = r.turned;
        gone = λ e. absurd (subst IsInvalid (sym e) tt);
        flushed = λ e. r.kept (same_connected k.link_state h);
      },
      tt,
    )

linklets_state-valid : (ls : List Linklet) → is_link_valid (linklets_state ls) ≡ true
unfolding linklets_state
linklets_state-valid ls = ground arith

-- `checkLinkletState`, when the linklets have changed and the iterator is in order
pub check_linklet_state-IsSteady :
    (k : Link)
    → length k.messages ≤ 512
    → IsTurned k.linklets k.last_linklet
    → (k.link_state ≡ link_invalid → k.linklets ≡ [])
    → (k.link_state ≡ link_connected → k.messages ≡ [])
    → IsSteady (check_linklet_state k)
unfolding check_linklet_state
check_linklet_state-IsSteady k bounded turned gone kept =
    if_elim IsSteady (is_link_valid k.link_state)
      (set_state-IsSteady (linklets_state k.linklets) k (record {
        bounded = bounded;
        turned = turned;
        kept = kept;
        valid = linklets_state-valid k.linklets;
      }))
      (record { bounded = bounded; turned = turned; gone = gone; flushed = kept }, tt)

pub remove_linklet-IsSteady :
    (object : ℕ) (k : Link) → IsSound k → IsSteady (remove_linklet object k)
unfolding remove_linklet
remove_linklet-IsSteady object k s =
    check_linklet_state-IsSteady
      (record k { linklets = without object k.linklets; last_linklet = none }) s.bounded tt
      (λ h. ap (without object) (s.gone h)) s.flushed

closing-IsReturned : (ls : List Linklet) → IsReturned (close_linklets ls ++ (remove_me ∷ []))
unfolding close_linklets
closing-IsReturned [] = (refl, tt)
closing-IsReturned (l ∷ ls) = (refl, closing-IsReturned ls)

pub close_link-IsSteady : (k : Link) → IsSound k → IsSteady (close_link k)
unfolding close_link
close_link-IsSteady k s =
    if_elim IsSteady (is_link_valid k.link_state)
      (
        record {
          bounded = s.bounded;
          turned = tt;
          gone = λ h. refl;
          flushed = λ h. absurd (subst IsConnected (sym h) tt);
        },
        (refl, closing-IsReturned k.linklets),
      )
      (s, tt)

pub try_cleanup-IsSteady : (k : Link) → IsSound k → IsSteady (try_cleanup k)
unfolding try_cleanup
try_cleanup-IsSteady k s =
    if_elim IsSteady (length k.linklets == 0) (close_link-IsSteady k s) (s, tt)

pub dispatch_message-IsSteady :
    (m : Message) (k : Link) → IsSound k → IsSteady (dispatch_message m k)
dispatch_message-IsSteady m k s =
    let d = dispatch_message-IsDispatched m k s.turned in
    let moved : IsSound (record k { last_linklet = (dispatch_message m k).0.last_linklet }) =
      record { bounded = s.bounded; turned = d.1; gone = s.gone; flushed = s.flushed } in
    (subst IsSound (sym d.0) moved, d.2)
