-- ===== src/Rpc.antt =====
-- The client for remote calls of rmb-sdk-go/peer/rpc.go: calls run at once with the handler of the
-- incoming envelopes, and meet it in the map of channels. An interleaving is a sequence of steps,
-- each of which is atomic in the source: a part between locks, one operation on a channel. A uuid
-- is the number of its call, so it is fresh; texts that are only compared are numbers.
pub mod Invariant
pub mod Safety
mod Tests
use mathlib.Core.Option
use tfgrid_sdk_go.Peer.{
  Payload, plain, cipher, no_payload, Envelope, PeerError, PeerEnv, Incoming, get_error,
  is_response, process,
}
use tfgrid_sdk_go.Prelude.{
  ℕ, ◌≡◌, Bool, true, false, List, [], ◌∷◌, Option, none, some, ◌==◌, if◌then◌else◌, not, ◌&&◌,
  ◌||◌,
}

-- `not_plain` is a panic: the payload is taken for a plain one.
pub data RpcError : Type 0 where
  send_failed : ℕ → RpcError
  context_done : RpcError
  incoming_failed : PeerError → RpcError
  remote_error : ℕ → RpcError
  not_a_response : RpcError
  invalid_schema : RpcError
  not_plain : RpcError
  bad_output : ℕ → RpcError

-- `rmb.DefaultSchema`, and `json.Unmarshal` with its error.
abbrev pub default_schema : ℕ
default_schema = 0

unfoldable pub is_default_schema : Option ℕ → Bool
is_default_schema none = false
is_default_schema (some s) = s == default_schema

unfoldable pub decode : (ℕ → Option ℕ) → Payload → Option RpcError
decode unmarshal (plain output) = Option.map bad_output (unmarshal output)
decode unmarshal (cipher body) = some not_plain
decode unmarshal no_payload = some not_plain

-- What a call returns for what came in; `wants` says whether it was given a place for the result.
unfoldable pub answer_envelope : (ℕ → Option ℕ) → Bool → Envelope → Option RpcError
answer_envelope unmarshal wants env = elim (get_error env.message) [
  | some message ↦ some (remote_error message)
  | none ↦
      if not (is_response env.message)
      then some not_a_response
      else if not wants
      then none
      else if not (is_default_schema env.schema)
      then some invalid_schema
      else decode unmarshal env.payload
]

unfoldable pub answer : (ℕ → Option ℕ) → Bool → Incoming → Option RpcError
answer unmarshal wants incoming = elim incoming.error [
  | some e ↦ some (incoming_failed e)
  | none ↦ answer_envelope unmarshal wants incoming.env
]

-- Where a call stands in `CallWithSession`. A returning call has its result, which is no error or
-- one; then its deferred function closes the channel, and after that deletes it from the map.
pub data Phase : Type 0 where
  not_called : Phase
  registered : Phase
  waiting : Phase
  returning : Option RpcError → Phase
  closing : Option RpcError → Phase
  returned : Option RpcError → Phase

-- Each call makes a channel with room for one; the channel has the number of its call.
pub record RpcClient : Type 0 where
  pub responses : ℕ → Option ℕ
  pub buffer : ℕ → Option Incoming
  pub is_closed : ℕ → Bool
  pub phase : ℕ → Phase
  pub has_panicked : Bool

abbrev pub set_at {ℓ} : {A : Type ℓ} → (ℕ → A) → ℕ → A → ℕ → A
set_at f i a j = if i == j then a else f j

abbrev pub new_rpc_client : RpcClient
new_rpc_client = record {
  responses = λ id. none;
  buffer = λ id. none;
  is_closed = λ id. false;
  phase = λ id. not_called;
  has_panicked = false;
}

unfoldable pub register : ℕ → RpcClient → RpcClient
register id d = record d {
  responses = set_at d.responses id (some id);
  phase = set_at d.phase id registered;
}

unfoldable pub send_request : ℕ → Option ℕ → RpcClient → RpcClient
send_request id none d = record d { phase = set_at d.phase id waiting }
send_request id (some e) d = record d {
  phase = set_at d.phase id (returning (some (send_failed e)));
}

unfoldable pub give_up_waiting : ℕ → RpcClient → RpcClient
give_up_waiting id d = record d { phase = set_at d.phase id (returning (some context_done)) }

unfoldable pub receive : (ℕ → Option ℕ) → Bool → ℕ → Incoming → RpcClient → RpcClient
receive unmarshal wants id incoming d = record d {
  buffer = set_at d.buffer id none;
  phase = set_at d.phase id (returning (answer unmarshal wants incoming));
}

unfoldable pub close_channel : ℕ → Option RpcError → RpcClient → RpcClient
close_channel id result d = record d {
  is_closed = set_at d.is_closed id true;
  phase = set_at d.phase id (closing result);
}

unfoldable pub delete_channel : ℕ → Option RpcError → RpcClient → RpcClient
delete_channel id result d = record d {
  responses = set_at d.responses id none;
  phase = set_at d.phase id (returned result);
}

-- The `select` of `router`: a send on a closed channel panics, on a full one nothing happens.
unfoldable pub offer : ℕ → Incoming → RpcClient → RpcClient
offer ch incoming d =
    if d.is_closed ch then record d { has_panicked = true } else elim (d.buffer ch) [
      | some old ↦ d
      | none ↦ record d { buffer = set_at d.buffer ch (some incoming) }
    ]

unfoldable pub dispatch : Incoming → RpcClient → RpcClient
dispatch incoming d = elim (d.responses incoming.env.uid) [
  | none ↦ d
  | some ch ↦ offer ch incoming d
]

-- The peer, `json.Unmarshal` with its error, and whether a call has a place for the result.
pub record Caller : Type 0 where
  pub peer : PeerEnv
  pub unmarshal : ℕ → Option ℕ
  pub wants : ℕ → Bool

-- The steps of the calls and of the handler, which gets what `process` makes of an envelope.
pub data Step (c : Caller) (d d' : RpcClient) : Type 0 where
  registers : (id : ℕ) → d.phase id ≡ not_called → d' ≡ register id d → Step c d d'
  sends : (id : ℕ) (e : Option ℕ) → d.phase id ≡ registered → d' ≡ send_request id e d → Step c d d'
  gives_up : (id : ℕ) → d.phase id ≡ waiting → d' ≡ give_up_waiting id d → Step c d d'
  receives :
      (id : ℕ) (incoming : Incoming)
      → d.phase id ≡ waiting
      → d.buffer id ≡ some incoming
      → d' ≡ receive c.unmarshal (c.wants id) id incoming d
      → Step c d d'
  closes :
      (id : ℕ) (result : Option RpcError)
      → d.phase id ≡ returning result
      → d' ≡ close_channel id result d
      → Step c d d'
  deletes :
      (id : ℕ) (result : Option RpcError)
      → d.phase id ≡ closing result
      → d' ≡ delete_channel id result d
      → Step c d d'
  routes : (env : Envelope) → d' ≡ dispatch (process c.peer env) d → Step c d d'

-- The states that a client reaches, from any envelopes and in any order; a panic is the end of it.
pub data Reach (c : Caller) : RpcClient → Type 0 where
  start : Reach c new_rpc_client
  later : {d d' : RpcClient} → Reach c d → d.has_panicked ≡ false → Step c d d' → Reach c d'
