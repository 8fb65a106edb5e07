-- ===== src/Interplex/Link/Delivery.antt =====
-- Messages that a connected link sends.
use unisphere.Prelude.{
  ℕ, suc, ◌≡◌, refl, sym, ap, subst, ◌∙◌, true, false, not, some, none, List, [], ◌∷◌, ◌++◌,
  if◌then◌else◌, get_elem?, arith,
}
use unisphere.Interplex.Dispatcher.{
  Linklet, Choice, no_linklets, chosen, exhausted, looping, dispatch, is_linklet_connected, is_up,
}
use unisphere.Interplex.Dispatcher.Turns.{IsServed, IsTurned, dispatch-IsServed}
use unisphere.Interplex.Link.{
  Message, link_connected, Link, LinkEffect, send_on, sent_by, dispatch_message, dispatch_messages,
  delivered, same_state, set_state, any_linklet,
}
use unisphere.Interplex.Link.Sound.{get_elem?-within, dispatch_message-IsDispatched}

-- Each of the messages is sent, in order, on a connected linklet, and nothing else is.
abbrev pub IsSentAll : List Message → List LinkEffect → Type 0
IsSentAll [] [] = Unit
IsSentAll [] (e ∷ es) = ⊥
IsSentAll (m ∷ ms) (send_on l n ∷ es) =
    (n ≡ m) × ((is_linklet_connected l ≡ true) × IsSentAll ms es)
IsSentAll (m ∷ ms) _ = ⊥

-- A connected linklet is not down.
up_not_down :
    (ls : List Linklet)
    → any_linklet is_up ls ≡ true
    → ((k : ℕ) (l : Linklet) → get_elem? ls k ≡ some l → is_linklet_connected l ≡ false)
    → ⊥
up_not_down [] h down = ground (arith, h)
up_not_down (l ∷ ls) h down =
    let first = down 0 l refl in
    up_not_down ls (ground (arith, h, first)) (λ k m f. down (suc k) m f)

abbrev IsSentOn : Message → List LinkEffect → Type 0
IsSentOn m es = (l : Linklet) × (es ≡ send_on l m ∷ []) × (is_linklet_connected l ≡ true)

dispatch_message-sent :
    (m : Message) (k : Link)
    → any_linklet is_up k.linklets ≡ true
    → IsTurned k.linklets k.last_linklet
    → IsSentOn m (dispatch_message m k).1
unfolding dispatch_message sent_by
dispatch_message-sent m k up t =
    by_choice (dispatch k.linklets k.last_linklet) (dispatch-IsServed k.linklets k.last_linklet t)
  where
    by_choice : (c : Choice) → IsServed k.linklets c → IsSentOn m (sent_by k m c).1
    by_choice no_linklets s = absurd (up_not_down k.linklets up (λ i l f. ground (arith, s, f)))
    by_choice (chosen i) s = (
      s.0,
      ap (λ o. elim o as (λ q. List LinkEffect) [ none ↦ [] | some l ↦ send_on l m ∷ [] ]) s.1,
      s.2,
    )
    by_choice exhausted s = absurd (
        up_not_down k.linklets up
          (λ i l f. s i l (omega arith) (get_elem?-within k.linklets i l f) f))
    by_choice looping s = absurd s

dispatch_messages-IsSentAll :
    (ms : List Message) (k : Link)
    → any_linklet is_up k.linklets ≡ true
    → IsTurned k.linklets k.last_linklet
    → IsSentAll ms (dispatch_messages ms k).1
unfolding dispatch_messages
dispatch_messages-IsSentAll [] k up t = tt
dispatch_messages-IsSentAll (m ∷ ms) k up t =
    let d = dispatch_message-IsDispatched m k t in
    let f = dispatch_message-sent m k up t in
    let same = ap (λ (q : Link). q.linklets) d.0 in
    let after = (dispatch_message m k).0 in
    let rest =
      dispatch_messages-IsSentAll ms after (ap (any_linklet is_up) same ∙ up)
        (subst (λ ls. IsTurned ls after.last_linklet) (sym same) d.1) in
    subst (λ es. IsSentAll (m ∷ ms) (es ++ (dispatch_messages ms after).1)) (sym f.1)
      (refl, (f.2, rest))

-- A link that was not connected and becomes so with a connected linklet sends every message of its queue,
-- in order and on connected linklets, and its queue is empty then.
pub set_state-IsSentAll :
    (k : Link)
    → same_state k.link_state link_connected ≡ false
    → any_linklet is_up k.linklets ≡ true
    → IsTurned k.linklets k.last_linklet
    → IsSentAll k.messages (set_state link_connected k).1
      × ((set_state link_connected k).0.messages ≡ [])
unfolding set_state delivered
set_state-IsSentAll k before up t =
    subst
      (λ b.
        IsSentAll k.messages (if not b then delivered changed else (changed, [])).1
        × ((if not b then delivered changed else (changed, [])).0.messages ≡ []))
      (sym before) (dispatch_messages-IsSentAll k.messages changed up t, refl)
  where
    changed : Link
    changed = record k { link_state = link_connected }
