-- ===== src/Deployer/World.antt =====
-- What the deployer works on: the calls that it has made of the chain and of the nodes, each with its
-- outcome, the last one first, and the map from nodes to contracts that it is building. The chain
-- client (tfchain-client-go behind grid-client/subi) and the node client (grid-client/node over rmb)
-- answer by the calls made before.
pub mod Rules
use tfgrid_sdk_go.Prelude.{ℕ, Bool, List, [], ◌∷◌, Option, none, some, Result, ok, err}
use tfgrid_sdk_go.Deployer.Zos.{Workload, Deployment}

-- An error of the chain or of a node: whether its text contains "ContractNotExists".
pub data GridError : Type 0 where
  contract_not_exists : GridError
  other_error : ℕ → GridError

pub data Event : Type 0 where
  got_client : ℕ → Option GridError → Event
  got_deployment : ℕ → ℕ → Result GridError Deployment → Event
  created : ℕ → ℕ → ℕ → ℕ → Option ℕ → Result GridError ℕ → Event
  updated : ℕ → ℕ → ℕ → Result GridError ℕ → Event
  canceled : ℕ → Option GridError → Event
  sent : ℕ → Deployment → Option GridError → Event
  sent_update : ℕ → Deployment → Option GridError → Event
  waited : ℕ → ℕ → Event

-- One attempt of the retries in `Wait`: the clock in milliseconds, and what `DeploymentChanges` gave.
pub record Attempt : Type 0 where
  pub time : ℕ
  pub changes : Result GridError (List Workload)

-- The methods of the chain client and of the node clients that the deployer calls. `attempts` are the
-- attempts for which the package backoff allows while one deployment is waited for, from
-- `wait_start`.
pub record Grid : Type 0 where
  pub get_node_client : List Event → ℕ → Option GridError
  pub deployment_get : List Event → ℕ → ℕ → Result GridError Deployment
  pub create_node_contract : List Event → ℕ → ℕ → ℕ → ℕ → Option ℕ → Result GridError ℕ
  pub update_node_contract : List Event → ℕ → ℕ → ℕ → Result GridError ℕ
  pub ensure_contract_canceled : List Event → ℕ → Option GridError
  pub deployment_deploy : List Event → ℕ → Deployment → Option GridError
  pub deployment_update : List Event → ℕ → Deployment → Option GridError
  pub wait_start : List Event → ℕ → ℕ → ℕ
  pub attempts : List Event → ℕ → ℕ → List Attempt

-- What `Wait` gives: the error of the node, a workload in a bad state, no progress for too long, or
-- the end of the retries.
pub data WaitError : Type 0 where
  changes_failed : GridError → WaitError
  workload_failed : Workload → WaitError
  timed_out : WaitError
  in_progress : WaitError

pub data Error : Type 0 where
  delete_failed : GridError → Error
  client_failed : GridError → Error
  sign_failed : ℕ → Error
  invalid_deployment : ℕ → Error
  hash_failed : ℕ → Error
  count_failed : ℕ → Error
  create_failed : GridError → Error
  cancel_manually : ℕ → GridError → Error
  send_failed : GridError → Error
  wait_failed : WaitError → Error
  get_old_failed : GridError → Error
  versions_failed : ℕ → Error
  update_failed : GridError → Error
  send_update_failed : GridError → Error

abbrev pub Contracts : Type 0
Contracts = List (ℕ × ℕ)

pub record World : Type 0 where
  pub log : List Event
  pub current : Contracts

-- A step of the deployer, with what it changed before it failed.
abbrev pub Deploy : Type 0 → Type 0
Deploy A = World → Result Error A × World

infixl 5 ◌>>=◌ ◌>>◌
unfoldable pub ◌>>=◌ : {A B : Type 0} → Deploy A → (A → Deploy B) → Deploy B
◌>>=◌ m f w = let (r, w') = m w in elim r [ ok a ↦ f a w' | err e ↦ (err e, w') ]

abbrev pub ◌>>◌ : {A B : Type 0} → Deploy A → Deploy B → Deploy B
m >> k = m >>= λ _. k

unfoldable pub done : Deploy (Unit {0})
done w = (ok tt, w)

-- Code that calls neither the chain nor a node.
unfoldable pub lift : {E A : Type 0} → (E → Error) → Result E A → Deploy A
lift wrap (ok a) w = (ok a, w)
lift wrap (err e) w = (err (wrap e), w)

unfoldable pub lift_option : {E : Type 0} → (E → Error) → Option E → Deploy (Unit {0})
lift_option wrap none w = (ok tt, w)
lift_option wrap (some e) w = (err (wrap e), w)

-- A call, which is written down with its outcome.
unfoldable pub call : {A : Type 0} → (List Event → A) → (A → Event) → Deploy A
call answer event w = let a = answer w.log in (ok a, record w { log = event a ∷ w.log })

unfoldable pub set_current : (Contracts → Contracts) → Deploy (Unit {0})
set_current g w = (ok tt, record w { current = g w.current })
