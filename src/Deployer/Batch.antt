-- ===== src/Deployer/Batch.antt =====
-- `BatchDeploy` of grid-client/deployer/deployer.go. The deployments are prepared and sent by
-- goroutines; the order in which the prepared ones arrive is that of the list. What the chain and the
-- nodes answer is a parameter.
pub mod Covered
mod Tests
use tfgrid_sdk_go.Prelude.{
  ℕ, suc, ◌+◌, Bool, true, false, List, [], ◌∷◌, ◌++◌, Option, none, some, Result, ok, err, ◌>>=◌,
  ◌>>◌, ◌==◌, get_elem?, if◌then◌else◌,
}
use tfgrid_sdk_go.Prelude.Maps
use tfgrid_sdk_go.Deployer.Zos.{
  ZosPackages, Deployment, sign, valid, challenge_hash, count_deployment_public_ips,
}
use tfgrid_sdk_go.Deployer.World.{
  GridError, WaitError, Error, client_failed, sign_failed, invalid_deployment, hash_failed,
  count_failed, create_failed, Attempt,
}
use tfgrid_sdk_go.Deployer.Wait.{wait}
use tfgrid_sdk_go.Deployer.Run.{Deployments, zero_versions}

-- `substrate.BatchCreateContractData`
pub record ContractData : Type 0 where
  pub node : ℕ
  pub contract_body : ℕ
  pub hash : ℕ
  pub public_ips : ℕ
  pub solution_provider : Option ℕ

-- What `BatchCreateContract` gives: the contracts, the place of the one that failed, and the error.
pub record BatchCreated : Type 0 where
  pub contracts : List ℕ
  pub index : Option ℕ
  pub create_error : Option GridError

-- `client_again` is the second request for a node's client, before a deployment is sent.
pub record BatchGrid : Type 0 where
  pub client_first : ℕ → Option GridError
  pub client_again : ℕ → Option GridError
  pub create_contracts : List ContractData → BatchCreated
  pub send : ℕ → Deployment → Option GridError
  pub wait_attempts : ℕ → ℕ → ℕ × List Attempt

-- A deployment with its node and its place in the node's list.
abbrev pub Item : Type 0
Item = ℕ × ℕ × Deployment

abbrev pub Prepared : Type 0
Prepared = ContractData × Deployment

-- The provider at the deployment's place in the node's list, if the list is that long.
abbrev pub provider_at : ℕ → Option (List (Option ℕ)) → Option ℕ
provider_at i none = none
provider_at i (some providers) = elim (get_elem? providers i) [ none ↦ none | some p ↦ p ]

abbrev pub as_error : {E A : Type 0} → (E → Error) → Result E A → Result Error A
as_error wrap (ok a) = ok a
as_error wrap (err e) = err (wrap e)

abbrev pub if_valid : Option ℕ → Result Error (Unit {0})
if_valid none = ok tt
if_valid (some e) = err (invalid_deployment e)

unfoldable pub prepare : ZosPackages → List (ℕ × List (Option ℕ)) → Item → Result Error Prepared
prepare zos providers (node, i, dl) = do
  signed ← as_error sign_failed (sign zos dl)
  if_valid (valid zos signed)
  hash ← as_error hash_failed (challenge_hash zos signed)
  ips ← as_error count_failed (count_deployment_public_ips zos signed)
  ok (
    record {
      node = node;
      contract_body = signed.metadata;
      hash = zos.hex hash;
      public_ips = ips;
      solution_provider = provider_at i (Maps.lookup node providers);
    },
    signed,
  )

-- The goroutines of the group: the error of one is that of all.
unfoldable pub prepare_all :
    ZosPackages → List (ℕ × List (Option ℕ)) → List Item → Result Error (List Prepared)
prepare_all zos providers [] = ok []
prepare_all zos providers (item ∷ items) = do
  prepared ← prepare zos providers item
  rest ← prepare_all zos providers items
  ok (prepared ∷ rest)

-- The clients are requested first.
unfoldable pub first_clients : BatchGrid → List ℕ → Result Error (Unit {0})
first_clients grid [] = ok tt
first_clients grid (node ∷ nodes) =
    elim (grid.client_first node) as (λ r. Result Error (Unit {0})) [
      | some e ↦ err (client_failed e)
      | none ↦ first_clients grid nodes
    ]

-- The end of one goroutine: the deployment has its contract, a contract is to be canceled, or the
-- program stops since the chain gave fewer contracts than it should have.
pub data Sent : Type 0 where
  deployed_as : ℕ → Sent
  to_cancel : ℕ → Sent
  out_of_range : Sent

unfoldable pub send_with : BatchGrid → ℕ → Deployment → Sent
send_with grid node dl = elim (grid.send node dl) as (λ r. Sent) [
  | some e ↦ to_cancel dl.contract_id
  | none ↦
      elim (wait (zero_versions dl.workloads []) (grid.wait_attempts node dl.contract_id).0
          (grid.wait_attempts node dl.contract_id).1)
        as (λ r. Sent) [ some e ↦ to_cancel dl.contract_id | none ↦ deployed_as dl.contract_id ]
]

-- Where the client is missing, what is to be canceled is the contract id that the deployment had.
unfoldable pub send_one : BatchGrid → Option ℕ → Prepared → Sent
send_one grid contract (data', dl) = elim (grid.client_again data'.node) as (λ r. Sent) [
  | some e ↦ to_cancel dl.contract_id
  | none ↦ elim contract as (λ r. Sent) [
    | none ↦ out_of_range
    | some id ↦ send_with grid data'.node (record dl { contract_id = id })
  ]
]

-- The loop up to the place `index`.
unfoldable pub send_all : BatchGrid → List ℕ → Option ℕ → ℕ → List Prepared → List Sent
send_all grid contracts index i [] = []
send_all grid contracts index i (p ∷ ps) =
    let rest = send_all grid contracts index (suc i) ps in
    if elim index [ none ↦ false | some stop ↦ stop == i ]
    then []
    else send_one grid (get_elem? contracts i) p ∷ rest

abbrev pub cancel_of : Sent → List ℕ
cancel_of (deployed_as id) = []
cancel_of (to_cancel id) = id ∷ []
cancel_of out_of_range = []

-- `failedContracts`
unfoldable pub failed_contracts : List Sent → List ℕ
failed_contracts [] = []
failed_contracts (s ∷ ss) = cancel_of s ++ failed_contracts ss

abbrev pub with_contract : Sent → Deployment → Deployment
with_contract (deployed_as id) dl = record dl { contract_id = id }
with_contract (to_cancel id) dl = dl
with_contract out_of_range dl = dl

-- The slice after the goroutines: those that were deployed have their contract.
unfoldable pub store_contracts : List Prepared → List Sent → List (ℕ × Deployment)
store_contracts [] ss = []
store_contracts ((data', dl) ∷ ps) [] = (data'.node, dl) ∷ store_contracts ps []
store_contracts ((data', dl) ∷ ps) (s ∷ ss) =
    (data'.node, with_contract s dl) ∷ store_contracts ps ss

abbrev pub or_no_deployments : Option (List Deployment) → List Deployment
or_no_deployments none = []
or_no_deployments (some dls) = dls

-- The map that is given back.
unfoldable pub by_node :
    List (ℕ × Deployment) → List (ℕ × List Deployment) → List (ℕ × List Deployment)
by_node [] m = m
by_node ((node, dl) ∷ dls) m =
    by_node dls (Maps.insert node (or_no_deployments (Maps.lookup node m) ++ dl ∷ []) m)

-- The slice, the map that is made of it, and the contracts that are canceled at the end. The errors
-- that the goroutines collect are only texts, and left out.
pub record Batch : Type 0 where
  pub sent_slice : List (ℕ × Deployment)
  pub batch_result : List (ℕ × List Deployment)
  pub batch_canceled : List ℕ

abbrev pub batch_of : List Prepared → List Sent → Batch
batch_of prepared sents = record {
  sent_slice = store_contracts prepared sents;
  batch_result = by_node (store_contracts prepared sents) [];
  batch_canceled = failed_contracts sents;
}

abbrev pub contract_data : List Prepared → List ContractData
contract_data [] = []
contract_data (p ∷ ps) = p.0 ∷ contract_data ps

-- The test `err != nil && index == nil`.
abbrev pub total_failure : Option GridError → Option ℕ → Option GridError
total_failure (some e) none = some e
total_failure (some e) (some stop) = none
total_failure none index = none

unfoldable pub send_created : BatchGrid → List Prepared → BatchCreated → Result Error Batch
send_created grid prepared c =
    elim (total_failure c.create_error c.index) as (λ r. Result Error Batch) [
      | some e ↦ err (create_failed e)
      | none ↦ ok (batch_of prepared (send_all grid c.contracts c.index 0 prepared))
    ]

-- `BatchDeploy`
unfoldable pub batch_deploy :
    ZosPackages → BatchGrid → List (ℕ × List (Option ℕ)) → List ℕ → List Item → Result Error Batch
batch_deploy zos grid providers nodes items = do
  _ ← first_clients grid nodes
  prepared ← prepare_all zos providers items
  send_created grid prepared (grid.create_contracts (contract_data prepared))
