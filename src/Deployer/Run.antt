-- ===== src/Deployer/Run.antt =====
-- `deploy`, `Cancel` and `GetDeployments` of grid-client/deployer/deployer.go. The three loops range
-- over maps, in the order of the lists: the second and the third loop touch different nodes of
-- `new_deployments`, so that one order stands for both.
pub mod Steps
pub mod Nodes
pub mod Tracked
pub mod Accounted
use tfgrid_sdk_go.Prelude.{
  ℕ, Bool, true, false, ◌&&◌, List, [], ◌∷◌, Option, none, some, map, Result, ok, err, ◌==◌,
  if◌then◌else◌,
}
use tfgrid_sdk_go.Prelude.Maps
use tfgrid_sdk_go.Deployer.Zos.{
  ZosPackages, Workload, Deployment, sign, valid, challenge_hash, hash_deployment,
  count_deployment_public_ips, same_workloads_names,
}
use tfgrid_sdk_go.Deployer.Versions.{match_old_versions, assign_versions}
use tfgrid_sdk_go.Deployer.Wait.{wait}
use tfgrid_sdk_go.Deployer.World.{
  GridError, contract_not_exists, other_error, Grid, Event, got_client, got_deployment, created,
  updated, canceled, sent, sent_update, waited, Error, delete_failed, client_failed, sign_failed,
  invalid_deployment, hash_failed, count_failed, create_failed, cancel_manually, send_failed,
  wait_failed, get_old_failed, versions_failed, update_failed, send_update_failed, Contracts, World,
  Deploy, ◌>>=◌, ◌>>◌, done, lift, lift_option, call, set_current,
}

abbrev pub Deployments : Type 0
Deployments = List (ℕ × Deployment)

-- A loop that stops at the first error.
unfoldable pub for_each : {A : Type 0} → (A → Deploy (Unit {0})) → List A → Deploy (Unit {0})
for_each body [] = done
for_each body (x ∷ xs) = body x >> for_each body xs

-- The versions of a new deployment: 0 for each name.
unfoldable pub zero_versions : List Workload → List (ℕ × ℕ) → List (ℕ × ℕ)
zero_versions [] versions = versions
zero_versions (w ∷ ws) versions = zero_versions ws (Maps.insert w.name 0 versions)

-- An error in which "ContractNotExists" stands does not count.
abbrev pub unless_gone : Option GridError → Option GridError
unless_gone none = none
unless_gone (some contract_not_exists) = none
unless_gone (some (other_error e)) = some (other_error e)

module _ (zos : ZosPackages) (grid : Grid) where
  unfoldable pub get_client : ℕ → Deploy (Unit {0})
  get_client node = do
    failed ← call (λ log. grid.get_node_client log node) (got_client node)
    lift_option client_failed failed

  unfoldable pub wait_for : ℕ → ℕ → List (ℕ × ℕ) → Deploy (Unit {0})
  wait_for node contract versions = do
    failed ←
        call
          (λ log.
            wait versions (grid.wait_start log node contract) (grid.attempts log node contract))
          (λ failed. waited node contract)
    lift_option wait_failed failed

  -- A round of the deletions.
  unfoldable pub delete_one : Deployments → ℕ × ℕ → Deploy (Unit {0})
  delete_one new_deployments (node, contract) = if Maps.has node new_deployments then done else (do
    failed ← call (λ log. grid.ensure_contract_canceled log contract) (canceled contract)
    lift_option delete_failed (unless_gone failed)
    set_current (Maps.remove node))

  -- The contract of a deployment that the node refused is canceled.
  unfoldable pub give_up : ℕ → GridError → Deploy (Unit {0})
  give_up contract refused = do
    failed ← call (λ log. grid.ensure_contract_canceled log contract) (canceled contract)
    lift_option (cancel_manually contract) failed
    lift_option send_failed (some refused)

  -- What follows the node's answer to a new deployment.
  unfoldable pub settle : ℕ → Deployment → Option GridError → Deploy (Unit {0})
  settle node dl (some refused) = give_up dl.contract_id refused
  settle node dl none = do
    set_current (Maps.insert node dl.contract_id)
    wait_for node dl.contract_id (zero_versions dl.workloads [])

  -- The new deployment is sent to its node under its contract.
  unfoldable pub send_new : ℕ → Deployment → Deploy (Unit {0})
  send_new node dl = do
    refused ← call (λ log. grid.deployment_deploy log node dl) (sent node dl)
    settle node dl refused

  -- A round of the creations, for a node without a deployment.
  unfoldable pub create : ℕ → Deployment → Option ℕ → Deploy (Unit {0})
  unfolding get_client
  create node dl provider = do
    get_client node
    signed ← lift sign_failed (sign zos dl)
    lift_option invalid_deployment (valid zos signed)
    hash ← lift hash_failed (challenge_hash zos signed)
    ips ← lift count_failed (count_deployment_public_ips zos signed)
    answer ←
        call (λ log. grid.create_node_contract log node signed.metadata (zos.hex hash) ips provider)
          (created node signed.metadata (zos.hex hash) ips provider)
    contract ← lift create_failed answer
    send_new node (record signed { contract_id = contract })

  unfoldable pub create_one : Contracts → List (ℕ × Option ℕ) → ℕ × Deployment → Deploy (Unit {0})
  create_one old_deployments providers (node, dl) =
      if Maps.has node old_deployments
      then done
      else create node dl (elim (Maps.lookup node providers) [ some p ↦ p | none ↦ none ])

  -- The changed deployment, with its versions assigned, goes to the chain and to the node.
  unfoldable pub send_changed : ℕ → List (ℕ × ℕ) → Deployment → Deploy (Unit {0})
  unfolding wait_for
  send_changed node versions dl = do
    signed ← lift sign_failed (sign zos dl)
    lift_option invalid_deployment (valid zos signed)
    hash ← lift hash_failed (challenge_hash zos signed)
    answer ←
        call
          (λ log. grid.update_node_contract log signed.contract_id signed.metadata (zos.hex hash))
          (updated signed.contract_id signed.metadata (zos.hex hash))
    contract ← lift update_failed answer
    let changed = record signed { contract_id = contract }
    refused ← call (λ log. grid.deployment_update log node changed) (sent_update node changed)
    lift_option send_update_failed refused
    set_current (Maps.insert node contract)
    wait_for node contract versions

  -- Nothing is sent where the hashes and the names are the same.
  unfoldable pub send_unless_same : ℕ → Deployment → Deployment → Bool → Deploy (Unit {0})
  send_unless_same node old_dl matched true = done
  send_unless_same node old_dl matched false = do
    assigned ← lift versions_failed (assign_versions zos old_dl matched)
    send_changed node assigned.0 (record (assigned.1) { contract_id = old_dl.contract_id })

  -- A round of the updates, for a node with a deployment.
  unfoldable pub update_deployment : ℕ → ℕ → Deployment → Deploy (Unit {0})
  unfolding get_client
  update_deployment node old_id dl = do
    get_client node
    answer ← call (λ log. grid.deployment_get log node old_id) (got_deployment node old_id)
    old_dl ← lift get_old_failed answer
    let matched = match_old_versions old_dl dl
    old_hash ← lift hash_failed (hash_deployment zos old_dl)
    new_hash ← lift hash_failed (hash_deployment zos matched)
    send_unless_same node old_dl matched
        (old_hash == new_hash && same_workloads_names matched old_dl)

  unfoldable pub update_one : Contracts → ℕ × Deployment → Deploy (Unit {0})
  update_one old_deployments (node, dl) = elim (Maps.lookup node old_deployments) [
    | none ↦ done
    | some old_id ↦ update_deployment node old_id dl
  ]

  -- The three loops.
  unfoldable pub deploy_loops : Contracts → Deployments → List (ℕ × Option ℕ) → Deploy (Unit {0})
  deploy_loops old_deployments new_deployments providers = do
    for_each (delete_one new_deployments) old_deployments
    for_each (create_one old_deployments providers) new_deployments
    for_each (update_one old_deployments) new_deployments

  -- `deploy`: the map `currentDeployments` starts as a copy of the old one.
  unfoldable pub deploy :
      Contracts → Deployments → List (ℕ × Option ℕ) → List Event → Result Error (Unit {0}) × World
  deploy old_deployments new_deployments providers log =
      deploy_loops old_deployments new_deployments providers
        (record { log = log; current = old_deployments })

  -- `Cancel`
  unfoldable pub cancel : ℕ → Deploy (Unit {0})
  cancel contract = do
    failed ← call (λ log. grid.ensure_contract_canceled log contract) (canceled contract)
    lift_option delete_failed failed

  -- `GetDeployments`, with the deployments so far.
  unfoldable pub get_deployments_from : Deployments → Contracts → Deploy Deployments
  unfolding get_client
  get_deployments_from res [] = λ w. (ok res, w)
  get_deployments_from res ((node, dl_id) ∷ dls) = do
    get_client node
    answer ← call (λ log. grid.deployment_get log node dl_id) (got_deployment node dl_id)
    dl ← lift get_old_failed answer
    get_deployments_from (Maps.insert node dl res) dls
