-- ===== src/Rpc/Groups.antt =====
-- src/rpc/call_group.hpp: calls that complete together.
use unisphere.Prelude.{
  ℕ, zero, suc, ◌+◌, ◌-◌, ◌≡◌, refl, ap, ◌∙◌, Bool, true, false, ◌&&◌, List, [], ◌∷◌, ◌++◌,
  replicate, leb, arith,
}

-- `m_calls` is an `int`, and a group is started once its calls are queued. A call stays in the count until
-- its handler has run; `queue` counts the closures of `m_queue`.
pub record RpcCallGroup : Type 0 where
  pub calls : ℕ
  pub queue : ℕ
  pub has_handler : Bool

unfoldable pub new_group : Bool → RpcCallGroup
new_group complete = record { calls = 0; queue = 0; has_handler = complete }

-- `call`, and `group` for a group inside this one
unfoldable pub add_call : RpcCallGroup → RpcCallGroup
add_call g = record g { calls = g.calls + 1; queue = g.queue + 1 }

-- `start`: the number of calls that are made
unfoldable pub start_group : RpcCallGroup → RpcCallGroup × ℕ
start_group g = (record g { queue = 0 }, g.queue)

-- `checkCompletion`, which tells whether the handler is invoked. The count does not go below 0 here, where
-- the source would go on; the test has the same answer.
unfoldable pub check_completion : RpcCallGroup → RpcCallGroup × Bool
check_completion g = (record g { calls = g.calls - 1 }, leb (g.calls - 1) 0 && g.has_handler)

unfoldable pub add_calls : ℕ → RpcCallGroup → RpcCallGroup
unfolding add_call
add_calls zero g = g
add_calls (suc n) g = add_calls n (add_call g)

-- The answers of a number of completions
unfoldable pub completions : ℕ → RpcCallGroup → List Bool
unfolding check_completion
completions zero g = []
completions (suc n) g = let out = check_completion g in out.1 ∷ completions n out.0

add_calls-eq :
    (n : ℕ) (g : RpcCallGroup)
    → add_calls n g ≡ record g { calls = g.calls + n; queue = g.queue + n }
unfolding add_calls add_call
add_calls-eq zero g =
    ap (λ (x : ℕ × ℕ). record g { calls = x.0; queue = x.1 }) (same g.calls g.queue)
  where
    same : (a b : ℕ) → ◌≡◌ {A = ℕ × ℕ} (a, b) (a + 0, b + 0)
    same a b = ground arith
add_calls-eq (suc n) g =
    add_calls-eq n (add_call g)
    ∙ ap (λ (x : ℕ × ℕ). record g { calls = x.0; queue = x.1 }) (moved g.calls g.queue)
  where
    moved : (a b : ℕ) → ◌≡◌ {A = ℕ × ℕ} (a + 1 + n, b + 1 + n) (a + suc n, b + suc n)
    moved a b = ground arith

last_only :
    (n queue : ℕ)
    → completions (suc n) (record { calls = suc n; queue = queue; has_handler = true })
      ≡ replicate n false ++ (true ∷ [])
unfolding completions check_completion
last_only zero queue = refl
last_only (suc n) queue =
    ap
      (λ (m : ℕ).
        (leb m 0 && true)
        ∷ completions (suc n) (record { calls = m; queue = queue; has_handler = true }))
      (fewer n)
    ∙ ap
        (λ (b : Bool).
          b ∷ completions (suc n) (record { calls = suc n; queue = queue; has_handler = true }))
        (still n)
    ∙ ap (λ bs. false ∷ bs) (last_only n queue)
  where
    still : (m : ℕ) → (leb (suc m) 0 && true) ≡ false
    still m = ground arith

    fewer : (m : ℕ) → suc (suc m) - 1 ≡ suc m
    fewer m = omega arith

added : (n : ℕ) → add_calls n (new_group true) ≡ record { calls = n; queue = n; has_handler = true }
unfolding new_group
added n =
    add_calls-eq n (new_group true)
    ∙ ap (λ (m : ℕ). record { calls = m; queue = m; has_handler = true }) (from_zero n)
  where
    from_zero : (m : ℕ) → 0 + m ≡ m
    from_zero m = omega arith

-- A group with a handler and at least one call makes as many calls as were put into it, and invokes its
-- handler at the completion of the last of them, and at no other.
pub completions-last :
    (n : ℕ)
    → ((start_group (add_calls (suc n) (new_group true))).1 ≡ suc n)
      × (completions (suc n) (start_group (add_calls (suc n) (new_group true))).0
          ≡ replicate n false ++ (true ∷ []))
unfolding start_group
completions-last n =
    let made = added (suc n) in
    (
      ap (λ (g : RpcCallGroup). g.queue) made,
      ap (λ (g : RpcCallGroup). completions (suc n) (record g { queue = 0 })) made ∙ last_only n 0,
    )
