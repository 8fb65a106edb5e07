-- ===== src/Rpc/Once.antt =====
-- A call is answered at most once.
use unisphere.Prelude.{
  ℕ, ◌+◌, ◌≤◌, ◌<◌, ◌≡◌, refl, ap, subst, ◌∙◌, ◌⊎◌, inl, inr, Bool, true, false, Option, some, none,
  List, [], ◌∷◌, ◌++◌, find, find-eq-some, ◌==◌, if◌then◌else◌, length, All-In, Bool-cases, arith,
}
use unisphere.Identity.NodeIdentifier.{NodeIdentifier}
use unisphere.Rpc.Engine.{
  RpcRequest, RpcResult, rpc_data, rpc_error, RpcResponse, RpcCall, Posted, RpcEngine, new_engine,
  RpcEffect, respond, handle, of_object, has_id, create_call, cancel_call, call_unconfirmed, ending,
  end_call, timer_expired, handle_response, run_posted, register_method, unregister_method,
  handle_request, request_timed_out, has_method, get_error_response, method_not_found,
}
use unisphere.Rpc.Counted.{
  answer, answers, answers-append, IsCounted, left, has_object-In, left-le, has_object-ended,
  cancelled-IsCounted, cancelled-left, created-IsCounted, created-left,
}

pub data RpcEvent : Type 0 where
  called : ℕ → ℕ → NodeIdentifier → List ℕ → List ℕ → RpcEvent
  called_unconfirmed : ℕ → ℕ → NodeIdentifier → List ℕ → List ℕ → RpcEvent
  cancelled : ℕ → RpcEvent
  expired : ℕ → RpcEvent
  responded : RpcResponse → RpcEvent
  posted_ran : RpcEvent
  registered : List ℕ → RpcEvent
  unregistered : List ℕ → RpcEvent
  requested : RpcRequest → RpcEvent

unfoldable pub rpc_step : RpcEvent → RpcEngine → RpcEngine × List RpcEffect
rpc_step (called id timeout destination method payload) e =
    create_call id timeout destination method payload e
rpc_step (called_unconfirmed id timeout destination method payload) e =
    call_unconfirmed id timeout destination method payload e
rpc_step (cancelled id) e = (cancel_call id e, [])
rpc_step (expired o) e = timer_expired o e
rpc_step (responded r) e = (handle_response r e, [])
rpc_step posted_ran e = run_posted e e.posted
rpc_step (registered name) e = (register_method name e, [])
rpc_step (unregistered name) e = (unregister_method name e, [])
rpc_step (requested r) e = (e, handle_request r e)

unfoldable pub rpc_run : List RpcEvent → RpcEngine → RpcEngine × List RpcEffect
unfolding rpc_step
rpc_run [] e = (e, [])
rpc_run (v ∷ vs) e =
    let first = rpc_step v e in let rest = rpc_run vs first.0 in (rest.0, first.1 ++ rest.1)

-- A step keeps the numbers in order, and its answers to a call are taken from those that are left.
abbrev IsFair : ℕ → RpcEngine → RpcEngine × List RpcEffect → Type 0
IsFair o e out = IsCounted out.0 × (answers o out.1 + left o out.0 ≤ left o e)

ending-answer : (o p : ℕ) (r : RpcResult) → answer o (ending p r) ≡ (if p == o then 1 else 0)
ending-answer o p (rpc_data d) = refl
ending-answer o p (rpc_error c) = refl

end_call-IsFair :
    (o p : ℕ) (result : RpcResult) (e : RpcEngine)
    → IsCounted e
    → IsFair o e (end_call result (find (of_object p) e.pending) e)
unfolding end_call
end_call-IsFair o p result e w = by_call (find (of_object p) e.pending) refl
  where
    none_left :
        (c : RpcCall)
        → find (of_object p) e.pending ≡ some c
        → of_object o c ≡ true
        → c.object < e.created
        → p ≡ o
        → left o (cancel_call c.rpc_id e) ≡ 0
    none_left c f same below number =
        let gone =
          has_object-ended o e.pending c w.distinct
            (subst (λ x. find (of_object x) e.pending ≡ some c) number f) in
        ground (arith, gone, same, below)

    answered :
        (c : RpcCall)
        → find (of_object p) e.pending ≡ some c
        → (of_object o c ≡ true) ⊎ (of_object o c ≡ false)
        → answers o (ending c.object result ∷ []) + left o (cancel_call c.rpc_id e) ≤ left o e
    answered c f (inr other) =
        let quiet : answer o (ending c.object result) ≡ 0 =
          ending-answer o c.object result ∙ ap (λ b. if b then 1 else 0) other in
        omega (arith, quiet, cancelled-left o c.rpc_id e)
    answered c f (inl same) =
        let once : answer o (ending c.object result) ≡ 1 =
          ending-answer o c.object result ∙ ap (λ b. if b then 1 else 0) same in
        let found = find-eq-some (of_object p) e.pending c f in
        let number : p ≡ o = ground (arith, found.0, same) in
        let here = has_object-In o e.pending c found.1 same in
        let before : left o e ≡ 1 = ground (arith, here) in
        let after : left o (cancel_call c.rpc_id e) ≡ 0 =
          none_left c f same (All-In (λ x. x.object < e.created) e.pending w.below found.1)
            number in
        omega (arith, once, before, after)

    by_call :
        (c : Option RpcCall) → find (of_object p) e.pending ≡ c → IsFair o e (end_call result c e)
    by_call none f = (w, omega arith)
    by_call (some c) f =
        (cancelled-IsCounted c.rpc_id e w, answered c f (Bool-cases (of_object o c)))

posted-IsFair :
    (o : ℕ) (ps : List Posted) (e : RpcEngine) → IsCounted e → IsFair o e (run_posted e ps)
unfolding run_posted
posted-IsFair o [] e w = (w, omega arith)
posted-IsFair o (p ∷ ps) e w =
    end_call-IsFair o p.object p.result (record e { posted = ps })
      (record { distinct = w.distinct; below = w.below; bounded = w.bounded })

responded-IsFair :
    (o : ℕ) (r : RpcResponse) (e : RpcEngine) → IsCounted e → IsFair o e (handle_response r e, [])
unfolding handle_response
responded-IsFair o r e w = by_call (find (has_id r.rpc_id) e.pending)
  where
    by_call :
        (c : Option RpcCall)
        → IsFair o e (
          elim c as (λ q. RpcEngine) [
            | none ↦ e
            | some c ↦ record e {
              posted = e.posted ++ (record { object = c.object; result = r.result } ∷ []);
            }
          ],
          [],
        )
    by_call none = (w, omega arith)
    by_call (some c) =
        (record { distinct = w.distinct; below = w.below; bounded = w.bounded }, omega arith)

rpc_step-IsFair : (o : ℕ) (v : RpcEvent) (e : RpcEngine) → IsCounted e → IsFair o e (rpc_step v e)
unfolding rpc_step timer_expired call_unconfirmed create_call register_method unregister_method
    handle_request
rpc_step-IsFair o (called id timeout to method payload) e w = (
  created-IsCounted id timeout to method payload e w,
  omega (arith, created-left o id timeout to method payload e),
)
rpc_step-IsFair o (called_unconfirmed id timeout to method payload) e w =
    let made = (create_call id timeout to method payload e).0 in
    (
      cancelled-IsCounted id made (created-IsCounted id timeout to method payload e w),
      omega (arith, created-left o id timeout to method payload e, cancelled-left o id made),
    )
rpc_step-IsFair o (cancelled id) e w =
    (cancelled-IsCounted id e w, omega (arith, cancelled-left o id e))
rpc_step-IsFair o (expired p) e w = end_call-IsFair o p (rpc_error request_timed_out) e w
rpc_step-IsFair o (responded r) e w = responded-IsFair o r e w
rpc_step-IsFair o posted_ran e w = posted-IsFair o e.posted e w
rpc_step-IsFair o (registered name) e w =
    (record { distinct = w.distinct; below = w.below; bounded = w.bounded }, omega arith)
rpc_step-IsFair o (unregistered name) e w =
    (record { distinct = w.distinct; below = w.below; bounded = w.bounded }, omega arith)
rpc_step-IsFair o (requested r) e w = (w, omega (arith, silent (has_method r.method e.methods)))
  where
    silent :
        (b : Bool)
        → answers o (
            if b
            then handle r ∷ []
            else respond (get_error_response r.rpc_id method_not_found) ∷ [])
          ≡ 0
    silent true = refl
    silent false = refl

rpc_run-IsFair :
    (o : ℕ) (vs : List RpcEvent) (e : RpcEngine) → IsCounted e → IsFair o e (rpc_run vs e)
unfolding rpc_run
rpc_run-IsFair o [] e w = (w, omega arith)
rpc_run-IsFair o (v ∷ vs) e w =
    let first = rpc_step-IsFair o v e w in
    let rest = rpc_run-IsFair o vs (rpc_step v e).0 first.0 in
    (
      rest.0,
      omega (
        arith,
        first.1,
        rest.1,
        answers-append o (rpc_step v e).1 (rpc_run vs (rpc_step v e).0).1,
      ),
    )

-- In any history of calls, responses, timeouts and requests, the handlers of a call are invoked at most
-- once, whether by a response, an error or the timeout, and the list of recent calls has at most 20.
pub rpc_run-once :
    (o : ℕ) (vs : List RpcEvent)
    → (answers o (rpc_run vs new_engine).1 ≤ 1) × (length (rpc_run vs new_engine).0.recent ≤ 20)
unfolding new_engine
rpc_run-once o vs =
    let r =
      rpc_run-IsFair o vs new_engine
        (record { distinct = tt; below = tt; bounded = omega arith }) in
    (omega (arith, r.1, left-le o new_engine), r.0.bounded)
