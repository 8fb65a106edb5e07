-- ===== src/Social/SocialIdentity/Cache.antt =====
-- What the cache of keys promises: that it knows the keys of every peer.
use unisphere.Prelude.{
  ℕ, ◌≡◌, refl, sym, ap, subst, ◌∙◌, ◌↔◌, ◌⊎◌, inl, inr, Bool, true, false, not, List, [], ◌∷◌,
  if◌then◌else◌, ltb, length, drop_last, In, In-keep, Bool-cases, arith,
}
use unisphere.Identity.NodeIdentifier.{NodeIdentifier, bytes_eq}
use unisphere.Identity.NodeIdentifier.Order.{bytes_eq_iff}
use unisphere.Social.Peer.{
  Peer, peer_id, has_public_key, add_peer_security_association, remove_peer_security_association,
  push_front, limit_to, max_peer_security_associations,
}
use unisphere.Social.SocialIdentity.{
  SocialIdentity, has_id, modify_peer, insert_key, erase_key, add_identity_association,
  without_association, remove_identity_association, has_identity_association,
}

-- A key is found exactly where it is in the list.
pub has_public_key_iff :
    (key : List ℕ) (keys : List (List ℕ)) → (has_public_key key keys ≡ true) ↔ In key keys
has_public_key_iff key [] = (λ h. ground (arith, h), λ m. absurd m)
has_public_key_iff key (k ∷ ks) =
    let ih = has_public_key_iff key ks in
    let same = bytes_eq_iff key k in (λ h. ground (arith, ih, same), λ m. ground (arith, ih, same))

-- Every key of a peer is in the cache.
abbrev pub IsCached : SocialIdentity → Type 0
IsCached s = (p : Peer) → In p s.peers → (key : List ℕ) → In key p.peer_sa → In key s.sa_cache

In-drop_last : (key : List ℕ) (keys : List (List ℕ)) → In key (drop_last keys) → In key keys
In-drop_last key [] m = m
In-drop_last key (k ∷ []) m = absurd m
In-drop_last key (k ∷ l ∷ ks) (inl h) = inl h
In-drop_last key (k ∷ l ∷ ks) (inr m) = inr (In-drop_last key (l ∷ ks) m)

In-modify_peer :
    (id : NodeIdentifier) (f : Peer → Peer) (ps : List Peer) (q : Peer)
    → In q (modify_peer id f ps)
    → (p : Peer) × In p ps × (q ≡ (if has_id id p then f p else p))
unfolding modify_peer
In-modify_peer id f [] q m = absurd m
In-modify_peer id f (p ∷ ps) q (inl h) = (p, inl refl, h)
In-modify_peer id f (p ∷ ps) q (inr m) = let r = In-modify_peer id f ps q m in (r.0, inr (r.1), r.2)

limited-key :
    (b : Bool) (k : List ℕ) (ks : List (List ℕ)) → In k (if b then drop_last ks else ks) → In k ks
limited-key true k ks m = In-drop_last k ks m
limited-key false k ks m = m

pushed-key :
    (b : Bool) (key k : List ℕ) (ks : List (List ℕ))
    → In k (if b then ks else key ∷ ks)
    → (k ≡ key) ⊎ In k ks
pushed-key true key k ks m = inr m
pushed-key false key k ks m = m

-- A peer holds no key but those that it held and the one that is added.
added-key :
    (key k : List ℕ) (p : Peer)
    → In k (add_peer_security_association key p).peer_sa
    → (k ≡ key) ⊎ In k p.peer_sa
unfolding add_peer_security_association push_front limit_to
added-key key k p m =
    let front = push_front key p.peer_sa in
    pushed-key (has_public_key key p.peer_sa) key k p.peer_sa
      (limited-key (ltb max_peer_security_associations (length front)) k front m)

In-insert_key :
    (key k : List ℕ) (keys : List (List ℕ)) → (k ≡ key) ⊎ In k keys → In k (insert_key key keys)
In-insert_key key k keys m = elim (Bool-cases (has_public_key key keys)) [
  | inr new ↦ rw new m
  | inl known ↦ rw known (elim m [
    | inl h ↦ (has_public_key_iff k keys).0 (ap (λ x. has_public_key x keys) h ∙ known)
    | inr n ↦ n
  ])
]

-- After a peer is given a key, the cache still knows the keys of every peer.
pub add_identity_association-IsCached :
    (p : Peer) (key : List ℕ) (s : SocialIdentity)
    → IsCached s
    → IsCached (add_identity_association p key s)
unfolding add_identity_association
add_identity_association-IsCached p key s cached q member k held =
    let from = In-modify_peer (peer_id p) (add_peer_security_association key) s.peers q member in
    let old = from.0 in
    In-insert_key key k s.sa_cache (
      by_change (has_id (peer_id p) old) old (cached old (from.1))
        (subst (λ r. In k r.peer_sa) (from.2) held))
  where
    by_change :
        (b : Bool) (old : Peer)
        → ((k : List ℕ) → In k old.peer_sa → In k s.sa_cache)
        → In k (if b then add_peer_security_association key old else old).peer_sa
        → (k ≡ key) ⊎ In k s.sa_cache
    by_change true old before held = elim (added-key key k old held) [
      | inl h ↦ inl h
      | inr h ↦ inr (before k h)
    ]
    by_change false old before held = inr (before k held)

In-erase_key :
    (key k : List ℕ) (keys : List (List ℕ))
    → In k (erase_key key keys) ↔ (In k keys × (not (bytes_eq key k) ≡ true))
In-erase_key key k keys = In-keep (λ j. not (bytes_eq key j)) keys k

erased_key : (key : List ℕ) (keys : List (List ℕ)) → ¬ In key (erase_key key keys)
erased_key key keys m =
    ground (arith, (In-erase_key key key keys).0 m, (bytes_eq_iff key key).1 refl)

without_association-peer_sa :
    (key : List ℕ) (p : Peer)
    → (without_association key p).peer_sa
      ≡ (if has_public_key key p.peer_sa then erase_key key p.peer_sa else p.peer_sa)
unfolding without_association remove_peer_security_association
without_association-peer_sa key p = ground arith

-- A peer that is told to forget a key holds what it held, but not that key.
removed-key :
    (key k : List ℕ) (p : Peer)
    → In k (without_association key p).peer_sa
    → In k p.peer_sa × ¬ (k ≡ key)
removed-key key k p m =
    by_has (has_public_key key p.peer_sa) refl
      (subst (λ ks. In k ks) (without_association-peer_sa key p) m)
  where
    by_has :
        (b : Bool)
        → has_public_key key p.peer_sa ≡ b
        → In k (if b then erase_key key p.peer_sa else p.peer_sa)
        → In k p.peer_sa × ¬ (k ≡ key)
    by_has true h n = (
      ((In-erase_key key k p.peer_sa).0 n).0,
      λ e. erased_key key p.peer_sa (subst (λ x. In x (erase_key key p.peer_sa)) e n),
    )
    by_has false h n = (
      n,
      λ e.
          ground (arith, h, (has_public_key_iff key p.peer_sa).1 (subst (λ x. In x p.peer_sa) e n)),
    )

-- After a peer is told to forget a key, the cache still knows the keys of every peer, provided that no
-- other peer holds that key.
pub remove_identity_association-IsCached :
    (p : Peer) (key : List ℕ) (s : SocialIdentity)
    → ((q : Peer) → In q s.peers → has_id (peer_id p) q ≡ false → ¬ In key q.peer_sa)
    → IsCached s
    → IsCached (remove_identity_association p key s).0
unfolding remove_identity_association
remove_identity_association-IsCached p key s alone cached q member k held =
    let from = In-modify_peer (peer_id p) (without_association key) s.peers q member in
    let old = from.0 in
    let kept =
      by_change (has_id (peer_id p) old) old (alone old (from.1))
        (subst (λ r. In k r.peer_sa) (from.2) held) in
    (In-erase_key key k s.sa_cache).1 (cached old (from.1) k (kept.0), other (λ e. kept.1 e))
  where
    by_change :
        (b : Bool) (old : Peer)
        → (b ≡ false → ¬ In key old.peer_sa)
        → In k (if b then without_association key old else old).peer_sa
        → In k old.peer_sa × ¬ (k ≡ key)
    by_change true old h held = removed-key key k old held
    by_change false old h held = (held, λ e. h refl (subst (λ x. In x old.peer_sa) e held))

    other : ¬ (k ≡ key) → not (bytes_eq key k) ≡ true
    other h = elim (Bool-cases (bytes_eq key k)) [
      | inr e ↦ ap not e
      | inl e ↦ absurd (h (sym ((bytes_eq_iff key k).0 e)))
    ]

modify_peer_other :
    (id : NodeIdentifier) (f : Peer → Peer) (ps : List Peer) (q : Peer)
    → In q ps
    → has_id id q ≡ false
    → In q (modify_peer id f ps)
unfolding modify_peer
modify_peer_other id f [] q m h = absurd m
modify_peer_other id f (p ∷ ps) q (inl e) h =
    inl (e ∙ sym (kept (has_id id p) (ap (has_id id) (sym e) ∙ h)))
  where
    kept : (b : Bool) → b ≡ false → (if b then f p else p) ≡ p
    kept true k = ground (arith, k)
    kept false k = refl
modify_peer_other id f (p ∷ ps) q (inr m) h = inr (modify_peer_other id f ps q m h)

-- Any peer can make the cache forget a key that another peer holds: the loop detection of the router,
-- which asks the cache, does not see that key from then on.
pub remove_identity_association_forgets :
    (p q : Peer) (key : List ℕ) (s : SocialIdentity)
    → In q s.peers
    → has_id (peer_id p) q ≡ false
    → In key q.peer_sa
    → In q (remove_identity_association p key s).0.peers
      × (has_identity_association key (remove_identity_association p key s).0 ≡ false)
unfolding remove_identity_association has_identity_association
remove_identity_association_forgets p q key s member other held = (
  modify_peer_other (peer_id p) (without_association key) s.peers q member other,
  unknown (Bool-cases (has_public_key key (erase_key key s.sa_cache))),
)
  where
    unknown :
        (has_public_key key (erase_key key s.sa_cache) ≡ true)
          ⊎ (has_public_key key (erase_key key s.sa_cache) ≡ false)
        → has_public_key key (erase_key key s.sa_cache) ≡ false
    unknown (inr h) = h
    unknown (inl h) =
        absurd (erased_key key s.sa_cache ((has_public_key_iff key (erase_key key s.sa_cache)).0 h))
