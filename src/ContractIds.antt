-- ===== src/ContractIds.antt =====
-- The contracts that the grid client keeps for each node: StoreContractIDs and RemoveContractIDs of
-- grid-client/state/state.go, with Delete of grid-client/workloads/slice_operations.go.
pub mod Stored
mod Tests
use tfgrid_sdk_go.Prelude.{
  ℕ, List, [], ◌∷◌, ◌++◌, Option, none, some, ◌==◌, if◌then◌else◌, contains,
}
use tfgrid_sdk_go.Prelude.Maps

-- `CurrentNodeDeployments` of `State`.
abbrev pub NodeDeployments : Type 0
NodeDeployments = List (ℕ × List ℕ)

abbrev pub or_empty : Option (List ℕ) → List ℕ
or_empty none = []
or_empty (some contracts) = contracts

-- A missing key reads as no contracts.
unfoldable pub contracts_of : NodeDeployments → ℕ → List ℕ
contracts_of current node = or_empty (Maps.lookup node current)

-- `Delete` removes the first place only.
unfoldable pub delete : List ℕ → ℕ → List ℕ
delete [] element = []
delete (x ∷ xs) element = let rest = delete xs element in if x == element then xs else x ∷ rest

unfoldable pub store_one : ℕ → NodeDeployments → ℕ → NodeDeployments
store_one node current contract =
    if contains (contracts_of current node) contract
    then current
    else Maps.insert node (contracts_of current node ++ contract ∷ []) current

unfoldable pub store_contract_ids : ℕ → List ℕ → NodeDeployments → NodeDeployments
store_contract_ids node [] current = current
store_contract_ids node (contract ∷ contracts) current =
    store_contract_ids node contracts (store_one node current contract)

unfoldable pub remove_one : ℕ → NodeDeployments → ℕ → NodeDeployments
remove_one node current contract =
    Maps.insert node (delete (contracts_of current node) contract) current

unfoldable pub remove_contract_ids : ℕ → List ℕ → NodeDeployments → NodeDeployments
remove_contract_ids node [] current = current
remove_contract_ids node (contract ∷ contracts) current =
    remove_contract_ids node contracts (remove_one node current contract)
