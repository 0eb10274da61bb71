-- ===== src/ContractIds/Tests.antt =====
-- Contracts stored for and removed from node 4, where node 5 has one too.
use tfgrid_sdk_go.Prelude.{
  ℕ, ◌≡◌, refl, not, ◌&&◌, ◌||◌, [], ◌∷◌, Bool-cases, inl, inr, ◌==◌, contains,
}
use tfgrid_sdk_go.Prelude.Maps
use tfgrid_sdk_go.ContractIds.{
  NodeDeployments, contracts_of, delete, store_one, store_contract_ids, remove_one,
  remove_contract_ids,
}
use tfgrid_sdk_go.ContractIds.Stored.{IsOnce, contract_ids_kept}

abbrev two_nodes : NodeDeployments
two_nodes = (4, 1 ∷ 2 ∷ []) ∷ (5, 9 ∷ []) ∷ []

stored : contracts_of (store_contract_ids 4 (2 ∷ 3 ∷ []) two_nodes) 4 ≡ 1 ∷ 2 ∷ 3 ∷ []
unfolding contracts_of store_one store_contract_ids Maps.lookup Maps.insert Maps.remove
stored = refl

removed : contracts_of (remove_contract_ids 4 (2 ∷ 3 ∷ []) two_nodes) 4 ≡ 1 ∷ []
unfolding contracts_of delete remove_one remove_contract_ids Maps.lookup Maps.insert Maps.remove
removed = refl

two_nodes-IsOnce : IsOnce two_nodes
unfolding contracts_of Maps.lookup
two_nodes-IsOnce node = elim (Bool-cases (4 == node)) [
  | inl e ↦ rw e (refl, (refl, tt))
  | inr e ↦ elim (Bool-cases (5 == node)) [
    | inl f ↦ rw e (rw f (refl, tt))
    | inr f ↦ rw e (rw f tt)
  ]
]

contract_ids_kept_example :
    IsOnce (store_contract_ids 4 (2 ∷ 3 ∷ []) two_nodes)
    × IsOnce (remove_contract_ids 4 (2 ∷ 3 ∷ []) two_nodes)
    × ((other a : ℕ)
        → (contains (contracts_of (store_contract_ids 4 (2 ∷ 3 ∷ []) two_nodes) other) a ≡ (
            contains (contracts_of two_nodes other) a || (4 == other && contains (2 ∷ 3 ∷ []) a)))
          × (contains (contracts_of (remove_contract_ids 4 (2 ∷ 3 ∷ []) two_nodes) other) a ≡ (
              contains (contracts_of two_nodes other) a
              && not (4 == other && contains (2 ∷ 3 ∷ []) a))))
contract_ids_kept_example = contract_ids_kept 4 (2 ∷ 3 ∷ []) two_nodes two_nodes-IsOnce
