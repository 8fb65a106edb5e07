-- ===== src/Interplex/Dispatcher.antt =====
-- src/interplex/message_dispatcher.cpp: the choice of a linklet for a message, in turn. Of a linklet
-- (src/interplex/linklet.h) only its state is kept, with a number that stands for the object.
pub mod Turns
use unisphere.Prelude.{
  ℕ, zero, suc, ◌+◌, Bool, true, false, Option, some, none, List, [], ◌∷◌, ◌==◌, if◌then◌else◌,
  length, get_elem?,
}

pub data LinkletState : Type 0 where
  linklet_closed : LinkletState
  linklet_connecting : LinkletState
  intro_wait : LinkletState
  linklet_connected : LinkletState
  listening : LinkletState

pub record Linklet : Type 0 where
  pub object : ℕ
  pub linklet_state : LinkletState

abbrev pub is_up : LinkletState → Bool
is_up linklet_connected = true
is_up linklet_closed = false
is_up linklet_connecting = false
is_up intro_wait = false
is_up listening = false

abbrev pub is_linklet_connected : Linklet → Bool
is_linklet_connected l = is_up l.linklet_state

-- Where the loop of `send` stops: without linklets, at a connected one, or where it began. A position is
-- the number of linklets before it; `looping` is the end of the fuel.
pub data Choice : Type 0 where
  no_linklets : Choice
  chosen : ℕ → Choice
  exhausted : Choice
  looping : Choice

abbrev pub wrapped : List Linklet → ℕ → ℕ
wrapped ls p = if p == length ls then 0 else p

unfoldable pub choose : ℕ → List Linklet → ℕ → ℕ → Choice
choose zero ls start p = looping
choose (suc fuel) ls start p =
    let q = wrapped ls p in
    let rest = choose fuel ls start (q + 1) in
    elim (get_elem? ls q) [
      | none ↦ no_linklets
      | some l ↦
          if is_linklet_connected l then chosen q else if q + 1 == start then exhausted else rest
    ]

-- The iterator `m_lastLinklet` is `none` at the end of the list.
abbrev pub position : List Linklet → Option ℕ → ℕ
position ls none = length ls
position ls (some i) = i

-- One turn of the loop for every linklet, and one more where there is none
unfoldable pub dispatch : List Linklet → Option ℕ → Choice
unfolding choose
dispatch ls last = choose (length ls + 1) ls (position ls last) (position ls last)

-- `m_lastLinklet++`
abbrev pub advanced : List Linklet → ℕ → Option ℕ
advanced ls i = if i + 1 == length ls then none else some (i + 1)
