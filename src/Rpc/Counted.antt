-- ===== src/Rpc/Counted.antt =====
-- src/rpc/engine.hpp: the answers that a call can still get, and what the operations leave of them.
use unisphere.Prelude.{
  ℕ, ◌+◌, ◌≤◌, ◌<◌, ◌≡◌, refl, ap, subst, inl, inr, Bool, true, false, not, ◌||◌, Option, some,
  List, [], ◌∷◌, ◌++◌, find, ltb, leb, ◌==◌, if◌then◌else◌, if_elim, length, drop_last,
  length-drop_last, All, All-keep, In, Bool-cases, arith,
}
use unisphere.Identity.NodeIdentifier.{NodeIdentifier}
use unisphere.Rpc.Engine.{
  RpcCall, RpcEngine, RpcEffect, request, respond, handle, arm_timeout, succeeded, failed,
  recent_size, of_object, has_id, erase_call, is_member, push_recent, create_call, cancel_call,
}

-- How often the handlers of a call were invoked
abbrev pub answer : ℕ → RpcEffect → ℕ
answer o (succeeded p d) = if p == o then 1 else 0
answer o (failed p c) = if p == o then 1 else 0
answer o (request d r) = 0
answer o (respond r) = 0
answer o (handle r) = 0
answer o (arm_timeout p t) = 0

abbrev pub answers : ℕ → List RpcEffect → ℕ
answers o [] = 0
answers o (f ∷ fs) = answer o f + answers o fs

pub answers-append :
    (o : ℕ) (fs gs : List RpcEffect) → answers o (fs ++ gs) ≡ answers o fs + answers o gs
answers-append o [] gs = omega arith
answers-append o (f ∷ fs) gs = omega (arith, answers-append o fs gs)

abbrev pub has_object : ℕ → List RpcCall → Bool
has_object o [] = false
has_object o (c ∷ cs) = of_object o c || has_object o cs

-- Calls are told apart by their numbers, which were counted.
abbrev pub IsDistinct : List RpcCall → Type 0
IsDistinct [] = Unit
IsDistinct (c ∷ cs) = All (λ d. of_object c.object d ≡ false) cs × IsDistinct cs

pub record IsCounted (e : RpcEngine) : Type 0 where
  pub distinct : IsDistinct e.pending
  pub below : All (λ c. c.object < e.created) e.pending
  pub bounded : length e.recent ≤ 20

-- The answers that a call can still get
abbrev pub left : ℕ → RpcEngine → ℕ
left o e = if leb e.created o || has_object o e.pending then 1 else 0

pub has_object-In :
    (o : ℕ) (cs : List RpcCall) (c : RpcCall)
    → In c cs
    → of_object o c ≡ true
    → has_object o cs ≡ true
has_object-In o [] c m h = absurd m
has_object-In o (d ∷ ds) c (inl e) h =
    subst (λ (x : RpcCall). (of_object o x || has_object o ds) ≡ true) e (ground (arith, h))
has_object-In o (d ∷ ds) c (inr m) h = ground (arith, has_object-In o ds c m h)

pub left-le : (o : ℕ) (e : RpcEngine) → left o e ≤ 1
left-le o e = ground arith

erase-IsDistinct : (id : ℕ) (cs : List RpcCall) → IsDistinct cs → IsDistinct (erase_call id cs)
erase-IsDistinct id [] h = tt
erase-IsDistinct id (c ∷ cs) h =
    if_elim IsDistinct (not (has_id id c))
      (
        All-keep (λ d. of_object c.object d ≡ false) (λ d. not (has_id id d)) cs h.0,
        erase-IsDistinct id cs h.1,
      )
      (erase-IsDistinct id cs h.1)

has_object-erase :
    (o id : ℕ) (cs : List RpcCall)
    → has_object o cs ≡ false
    → has_object o (erase_call id cs) ≡ false
has_object-erase o id [] h = refl
has_object-erase o id (c ∷ cs) h = ground (arith, h, has_object-erase o id cs)

absent :
    (o : ℕ) (c : RpcCall) (cs : List RpcCall)
    → All (λ d. of_object c.object d ≡ false) cs
    → of_object o c ≡ true
    → has_object o cs ≡ false
absent o c [] h e = refl
absent o c (d ∷ ds) h e = ground (arith, h.0, e, absent o c ds h.1 e)

pub has_object-ended :
    (o : ℕ) (cs : List RpcCall) (c : RpcCall)
    → IsDistinct cs
    → find (of_object o) cs ≡ some c
    → has_object o (erase_call c.rpc_id cs) ≡ false
has_object-ended o [] c h f = ground (arith, f)
has_object-ended o (d ∷ ds) c h f = elim (Bool-cases (of_object o d)) [
  | inl same ↦
      let gone = has_object-erase o c.rpc_id ds (absent o d ds h.0 same) in
      ground (arith, f, same, gone, ap (λ (x : Option RpcCall). x) f)
  | inr other ↦ ground (arith, f, other, has_object-ended o ds c h.1)
]

pub cancelled-IsCounted : (id : ℕ) (e : RpcEngine) → IsCounted e → IsCounted (cancel_call id e)
unfolding cancel_call
cancelled-IsCounted id e w = record {
  distinct = erase-IsDistinct id e.pending w.distinct;
  below = All-keep (λ c. c.object < e.created) (λ c. not (has_id id c)) e.pending w.below;
  bounded = w.bounded;
}

pub cancelled-left : (o id : ℕ) (e : RpcEngine) → left o (cancel_call id e) ≤ left o e
unfolding cancel_call
cancelled-left o id e = ground (arith, has_object-erase o id e.pending)

push_recent-bounded : (id : ℕ) (ids : List ℕ) → length ids ≤ 20 → length (push_recent id ids) ≤ 20
unfolding push_recent
push_recent-bounded id ids h = elim (Bool-cases (is_member id ids)) [
  | inl old ↦ rw old (cut ids (omega (arith, h)))
  | inr new ↦ rw new (cut (id ∷ ids) (omega (arith, h)))
]
  where
    cut :
        (more : List ℕ)
        → length more ≤ 21
        → length (if ltb recent_size (length more) then drop_last more else more) ≤ 20
    cut more h = ground (arith, h, length-drop_last more)

fresh-IsDistinct :
    (n : ℕ) (cs : List RpcCall) → All (λ c. c.object < n) cs → All (λ d. (d.object == n) ≡ false) cs
fresh-IsDistinct n [] h = tt
fresh-IsDistinct n (c ∷ cs) h = (ground (arith, h.0), fresh-IsDistinct n cs h.1)

grown : (n : ℕ) (cs : List RpcCall) → All (λ c. c.object < n) cs → All (λ c. c.object < n + 1) cs
grown n [] h = tt
grown n (c ∷ cs) h = (omega (arith, h.0), grown n cs h.1)

pub created-IsCounted :
    (id timeout : ℕ) (to : NodeIdentifier) (method payload : List ℕ) (e : RpcEngine)
    → IsCounted e
    → IsCounted (create_call id timeout to method payload e).0
unfolding create_call
created-IsCounted id timeout to method payload e w =
    let below = All-keep (λ c. c.object < e.created) (λ c. not (has_id id c)) e.pending w.below in
    record {
      distinct = (
        fresh-IsDistinct e.created (erase_call id e.pending) below,
        erase-IsDistinct id e.pending w.distinct,
      );
      below = (omega arith, grown e.created (erase_call id e.pending) below);
      bounded = push_recent-bounded id e.recent w.bounded;
    }

pub created-left :
    (o id timeout : ℕ) (to : NodeIdentifier) (method payload : List ℕ) (e : RpcEngine)
    → left o (create_call id timeout to method payload e).0 ≤ left o e
unfolding create_call
created-left o id timeout to method payload e = ground (arith, has_object-erase o id e.pending)
