-- ===== src/Rpc/Engine.antt =====
-- src/rpc/engine.hpp and call.hpp: pending calls, and the requests of others. A call lives as long as it is
-- pending, and `object` tells calls apart that have the same random identifier.
use unisphere.Prelude.{
  ℕ, ◌+◌, Bool, false, not, ◌||◌, Option, some, none, List, [], ◌∷◌, ◌++◌, keep, find, ltb, ◌==◌,
  if◌then◌else◌, length, drop_last,
}
use unisphere.Identity.NodeIdentifier.{NodeIdentifier, bytes_eq}

-- `RpcErrorCode`
abbrev pub method_not_found : ℕ
method_not_found = 1

abbrev pub request_timed_out : ℕ
request_timed_out = 2

-- `Protocol::RpcRequest` and `Protocol::RpcResponse`, an error as its code and its message
pub record RpcRequest : Type 0 where
  pub rpc_id : ℕ
  pub method : List ℕ
  pub argument : List ℕ

pub data RpcResult : Type 0 where
  rpc_data : List ℕ → RpcResult
  rpc_error : ℕ → RpcResult

pub record RpcResponse : Type 0 where
  pub rpc_id : ℕ
  pub result : RpcResult

pub record RpcCall : Type 0 where
  pub object : ℕ
  pub rpc_id : ℕ
  pub destination : NodeIdentifier

-- A response that waits in the strand of its call
pub record Posted : Type 0 where
  pub object : ℕ
  pub result : RpcResult

pub record RpcEngine : Type 0 where
  pub pending : List RpcCall
  pub recent : List ℕ
  pub methods : List (List ℕ)
  pub posted : List Posted
  pub created : ℕ

unfoldable pub new_engine : RpcEngine
new_engine = record { pending = []; recent = []; methods = []; posted = []; created = 0 }

pub data RpcEffect : Type 0 where
  request : NodeIdentifier → RpcRequest → RpcEffect
  respond : RpcResponse → RpcEffect
  handle : RpcRequest → RpcEffect
  arm_timeout : ℕ → ℕ → RpcEffect
  succeeded : ℕ → List ℕ → RpcEffect
  failed : ℕ → ℕ → RpcEffect

abbrev pub recent_size : ℕ
recent_size = 20

abbrev pub has_id : ℕ → RpcCall → Bool
has_id id c = c.rpc_id == id

abbrev pub of_object : ℕ → RpcCall → Bool
of_object o c = c.object == o

-- `m_pendingCalls.erase`
abbrev pub erase_call : ℕ → List RpcCall → List RpcCall
erase_call id cs = keep (λ c. not (has_id id c)) cs

-- `m_recentCalls`, whose elements are unique
abbrev pub is_member : ℕ → List ℕ → Bool
is_member id [] = false
is_member id (x ∷ xs) = x == id || is_member id xs

unfoldable pub push_recent : ℕ → List ℕ → List ℕ
push_recent id ids =
    let more = if is_member id ids then ids else id ∷ ids in
    if ltb recent_size (length more) then drop_last more else more

unfoldable pub is_recent_call : ℕ → RpcEngine → Bool
is_recent_call id e = is_member id e.recent

-- `createCall`, with the random identifier and the timeout
unfoldable pub create_call :
    ℕ → ℕ → NodeIdentifier → List ℕ → List ℕ → RpcEngine → RpcEngine × List RpcEffect
unfolding push_recent
create_call id timeout destination method payload e = (
  record e {
    pending =
        record { object = e.created; rpc_id = id; destination = destination }
        ∷ erase_call id e.pending;
    recent = push_recent id e.recent;
    created = e.created + 1;
  },
  arm_timeout e.created timeout
      ∷ request destination (record { rpc_id = id; method = method; argument = payload })
      ∷ [],
)

-- `cancel`
unfoldable pub cancel_call : ℕ → RpcEngine → RpcEngine
cancel_call id e = record e { pending = erase_call id e.pending }

-- `call` without handlers: the call is cancelled at once.
unfoldable pub call_unconfirmed :
    ℕ → ℕ → NodeIdentifier → List ℕ → List ℕ → RpcEngine → RpcEngine × List RpcEffect
unfolding create_call cancel_call
call_unconfirmed id timeout destination method payload e =
    let out = create_call id timeout destination method payload e in (cancel_call id out.0, out.1)

-- The end of a call, if it is still there
abbrev pub ending : ℕ → RpcResult → RpcEffect
ending o (rpc_data d) = succeeded o d
ending o (rpc_error code) = failed o code

unfoldable pub end_call : RpcResult → Option RpcCall → RpcEngine → RpcEngine × List RpcEffect
unfolding cancel_call
end_call result none e = (e, [])
end_call result (some c) e = (cancel_call c.rpc_id e, ending c.object result ∷ [])

unfoldable pub timer_expired : ℕ → RpcEngine → RpcEngine × List RpcEffect
unfolding end_call
timer_expired o e = end_call (rpc_error request_timed_out) (find (of_object o) e.pending) e

-- `handleResponse` posts the response to the call's strand, which runs it later.
unfoldable pub handle_response : RpcResponse → RpcEngine → RpcEngine
handle_response response e = elim (find (has_id response.rpc_id) e.pending) [
  | none ↦ e
  | some c ↦ record e {
    posted = e.posted ++ (record { object = c.object; result = response.result } ∷ []);
  }
]

unfoldable pub run_posted : RpcEngine → List Posted → RpcEngine × List RpcEffect
unfolding end_call
run_posted e [] = (e, [])
run_posted e (p ∷ ps) =
    end_call p.result (find (of_object p.object) e.pending) (record e { posted = ps })

-- Methods and requests
abbrev pub has_method : List ℕ → List (List ℕ) → Bool
has_method name [] = false
has_method name (m ∷ ms) = bytes_eq name m || has_method name ms

unfoldable pub register_method : List ℕ → RpcEngine → RpcEngine
register_method name e = record e {
  methods = if has_method name e.methods then e.methods else name ∷ e.methods;
}

unfoldable pub unregister_method : List ℕ → RpcEngine → RpcEngine
unregister_method name e = record e { methods = keep (λ m. not (bytes_eq name m)) e.methods }

unfoldable pub get_error_response : ℕ → ℕ → RpcResponse
get_error_response id code = record { rpc_id = id; result = rpc_error code }

unfoldable pub handle_request : RpcRequest → RpcEngine → List RpcEffect
unfolding get_error_response
handle_request r e =
    if has_method r.method e.methods
    then handle r ∷ []
    else respond (get_error_response r.rpc_id method_not_found) ∷ []
