-- ===== src/Rpc/Examples.antt =====
-- Calls at concrete values.
use unisphere.Prelude.{◌≡◌, ◌≤◌, true, false, List, [], ◌∷◌, length, replicate}
use unisphere.Rpc.Engine.{rpc_data, new_engine}
use unisphere.Rpc.Once.{RpcEvent, called, expired, responded, posted_ran, rpc_run, rpc_run-once}
use unisphere.Rpc.Counted.{answers}
use unisphere.Rpc.Groups.{new_group, add_calls, start_group, completions, completions-last}

-- A response that is posted and runs, after the timeout of the call
abbrev events : List RpcEvent
events =
    called 77 15 (record { identifier = replicate 20 3 }) (1 ∷ []) []
    ∷ responded (record { rpc_id = 77; result = rpc_data (9 ∷ []) })
    ∷ expired 0
    ∷ posted_ran
    ∷ []

rpc_run-once_example :
    (answers 0 (rpc_run events new_engine).1 ≤ 1)
    × (length (rpc_run events new_engine).0.recent ≤ 20)
rpc_run-once_example = rpc_run-once 0 events

completions-last_example :
    ((start_group (add_calls 2 (new_group true))).1 ≡ 2)
    × (completions 2 (start_group (add_calls 2 (new_group true))).0 ≡ false ∷ true ∷ [])
completions-last_example = completions-last 1
