-- ===== src/Social/Router/Export/Buffers.antt =====
-- The buffers of announcements.
use unisphere.Prelude.{
  ℕ, ◌+◌, ◌≡◌, refl, true, false, not, ◌&&◌, Option, some, none, List, [], ◌∷◌, if◌then◌else◌,
  length, find, find-eq-some, keep, In, Bool-cases, inl, inr, arith,
}
use unisphere.Identity.NodeIdentifier.{NodeIdentifier, id_eq, bytes_eq}
use unisphere.Identity.NodeIdentifier.Order.{bytes_eq_iff, id_eq_iff}
use unisphere.Interplex.Contact.{Contact, contact_id}
use unisphere.Social.Router.State.{Router, PathAnnounce, AggregationBuffer, Effect, send_announce}
use unisphere.Social.Router.Export.{
  for_node, of_key, put_announce, buffered, put_buffered, queue_announce, emptied, transmit_found,
  transmit_buffer,
}

-- The announcement of a key that waits for a node
abbrev pub waiting_in : List ℕ → Option AggregationBuffer → Option PathAnnounce
waiting_in key none = none
waiting_in key (some b) = find (of_key key) b.announces

abbrev pub waiting : NodeIdentifier → List ℕ → List AggregationBuffer → Option PathAnnounce
waiting id key bs = waiting_in key (find (for_node id) bs)

find-put_announce :
    (key : List ℕ) (a : PathAnnounce) (bs : List PathAnnounce)
    → find (of_key key) (put_announce a bs)
      ≡ (if bytes_eq key a.public_key then some a else find (of_key key) bs)
unfolding put_announce
find-put_announce key a bs = elim (Bool-cases (bytes_eq key a.public_key)) [
  | inl h ↦ rw h refl
  | inr h ↦ rw h (others h bs)
]
  where
    others :
        bytes_eq key a.public_key ≡ false
        → (cs : List PathAnnounce)
        → find (of_key key) (keep (λ b. not (of_key a.public_key b)) cs) ≡ find (of_key key) cs
    others h [] = refl
    others h (b ∷ cs) = ground (
      arith,
      h,
      others h cs,
      bytes_eq_iff key b.public_key,
      bytes_eq_iff a.public_key b.public_key,
      bytes_eq_iff key a.public_key,
    )

put_buffered_lem :
    (id : NodeIdentifier) (key : List ℕ) (c : Contact) (a : PathAnnounce)
    (bs : List AggregationBuffer)
    → waiting id key (put_buffered c a bs).0
      ≡ (if id_eq id (contact_id c) && bytes_eq key a.public_key then some a else waiting id key bs)
unfolding put_buffered buffered
put_buffered_lem id key c a [] = ground (arith, find-put_announce key a [])
put_buffered_lem id key c a (b ∷ bs) = ground (
  arith,
  put_buffered_lem id key c a bs,
  find-put_announce key a b.announces,
  id_eq_iff (contact_id c) (contact_id b.contact),
  id_eq_iff id (contact_id b.contact),
  id_eq_iff id (contact_id c),
)

-- After an announcement is queued for a contact, it is the one of its key that waits for that node; what
-- waits of another key, or for another node, is as it was.
pub waiting-queue_announce :
    (id : NodeIdentifier) (key : List ℕ) (c : Contact) (a : PathAnnounce) (r : Router)
    → waiting id key (queue_announce c a r).0.exports ≡ (
        if id_eq id (contact_id c) && bytes_eq key a.public_key
        then some a
        else waiting id key r.exports)
unfolding queue_announce
waiting-queue_announce id key c a r = put_buffered_lem id key c a r.exports

find-emptied :
    (id : NodeIdentifier) (bs : List AggregationBuffer)
    → (key : List ℕ) → waiting id key (emptied id bs) ≡ none
unfolding emptied
find-emptied id [] key = refl
find-emptied id (b ∷ bs) key = ground (arith, find-emptied id bs key)

find-emptied_other :
    (id other : NodeIdentifier) (key : List ℕ) (bs : List AggregationBuffer)
    → id_eq other id ≡ false
    → waiting other key (emptied id bs) ≡ waiting other key bs
unfolding emptied
find-emptied_other id other key [] h = refl
find-emptied_other id other key (b ∷ bs) h = ground (
  arith,
  h,
  find-emptied_other id other key bs,
  id_eq_iff other (contact_id b.contact),
  id_eq_iff id (contact_id b.contact),
  id_eq_iff other id,
)

-- What the timer of a node's buffer sends
pub record IsTransmitted (id : NodeIdentifier) (a : PathAnnounce) (r after : Router)
    (effects : List Effect) : Type 0 where
  pub contact : Contact
  pub addressed : id_eq id (contact_id contact) ≡ true
  pub announces : List PathAnnounce
  pub sent : effects ≡ send_announce contact announces ∷ []
  pub included : In a announces
  pub counted : after.statistics.entry_xmits ≡ r.statistics.entry_xmits + length announces
  pub none_left : (key : List ℕ) → waiting id key after.exports ≡ none
  pub others_wait :
      (other : NodeIdentifier) (key : List ℕ)
      → id_eq other id ≡ false
      → waiting other key after.exports ≡ waiting other key r.exports

-- When the timer of a node's buffer runs out, an announcement that waits for the node is in the one message
-- that is sent, to that node; its announcements are counted, none of them waits any more, and those for
-- other nodes still wait.
pub transmit_buffer-IsTransmitted :
    (id : NodeIdentifier) (key : List ℕ) (a : PathAnnounce) (r : Router)
    → waiting id key r.exports ≡ some a
    → IsTransmitted id a r (transmit_buffer false id r).0 (transmit_buffer false id r).1
unfolding transmit_buffer transmit_found
transmit_buffer-IsTransmitted id key a r h = by_buffer (find (for_node id) r.exports) refl h
  where
    by_buffer :
        (o : Option AggregationBuffer)
        → find (for_node id) r.exports ≡ o
        → waiting_in key o ≡ some a
        → IsTransmitted id a r (transmit_found id o r).0 (transmit_found id o r).1
    by_buffer none e k = ground (arith, k)
    by_buffer (some b) e k = record {
      contact = b.contact;
      addressed = (find-eq-some (for_node id) r.exports b e).0;
      announces = b.announces;
      sent = refl;
      included = (find-eq-some (of_key key) b.announces a k).1;
      counted = refl;
      none_left = λ key. find-emptied id r.exports key;
      others_wait = λ other key l. find-emptied_other id other key r.exports l;
    }
