-- ===== src/ContractIds/Stored.antt =====
-- What is stored and removed by StoreContractIDs and RemoveContractIDs of grid-client/state/state.go.
use tfgrid_sdk_go.Prelude.{
  ℕ, ◌≡◌, refl, not, ◌&&◌, ◌||◌, inl, inr, List, [], ◌∷◌, ◌++◌, subst, Bool-cases, arith, ◌==◌,
  if◌then◌else◌, contains, contains-append,
}
use tfgrid_sdk_go.Prelude.Maps
use tfgrid_sdk_go.Prelude.Dedup.{Distinct, Distinct-snoc}
use tfgrid_sdk_go.ContractIds.{
  NodeDeployments, contracts_of, delete, store_one, store_contract_ids, remove_one,
  remove_contract_ids,
}

-- No node has a contract twice.
abbrev pub IsOnce : NodeDeployments → Type 0
IsOnce current = (node : ℕ) → Distinct (contracts_of current node)

contracts_of-insert :
    (node other : ℕ) (xs : List ℕ) (current : NodeDeployments)
    → contracts_of (Maps.insert node xs current) other
      ≡ (if node == other then xs else contracts_of current other)
unfolding contracts_of
contracts_of-insert node other xs current = ground (arith, Maps.lookup-insert other node xs current)

contains-delete :
    (xs : List ℕ) (a b : ℕ)
    → Distinct xs
    → contains (delete xs a) b ≡ (contains xs b && not (a == b))
unfolding delete
contains-delete [] a b d = refl
contains-delete (x ∷ xs) a b (new, d) = ground (arith, new, contains-delete xs a b d)

Distinct-delete : (xs : List ℕ) (a : ℕ) → Distinct xs → Distinct (delete xs a)
unfolding delete
Distinct-delete [] a d = tt
Distinct-delete (x ∷ xs) a (new, d) = elim (Bool-cases (x == a)) [
  | inl e ↦ rw e d
  | inr e ↦ rw e (ground (arith, new, contains-delete xs a x d), Distinct-delete xs a d)
]

-- The node's contracts are `xs`, those of the others stay.
Changes : ℕ → List ℕ → NodeDeployments → NodeDeployments → Type 0
Changes node xs current next =
    (other : ℕ)
    → contracts_of next other ≡ (if node == other then xs else contracts_of current other)

Changes-IsOnce :
    (node : ℕ) (xs : List ℕ) (current next : NodeDeployments)
    → Changes node xs current next
    → Distinct xs
    → IsOnce current
    → IsOnce next
unfolding Changes
Changes-IsOnce node xs current next changes d once other = elim (Bool-cases (node == other)) [
  | inl e ↦ subst Distinct (ground (arith, changes other, e)) d
  | inr e ↦ subst Distinct (ground (arith, changes other, e)) (once other)
]

store_one-step :
    (node contract : ℕ) (current : NodeDeployments)
    → IsOnce current
    → IsOnce (store_one node current contract)
      × ((other a : ℕ)
          → contains (contracts_of (store_one node current contract) other) a
            ≡ (contains (contracts_of current other) a || (node == other && contract == a)))
unfolding store_one Changes
store_one-step node contract current once =
    let xs = contracts_of current node in
    elim (Bool-cases (contains xs contract)) [
      | inl e ↦ rw e (once, λ other a. ground (arith, e))
      | inr e ↦ rw e (
        Changes-IsOnce node (xs ++ contract ∷ []) current
            (Maps.insert node (xs ++ contract ∷ []) current)
            (λ other. contracts_of-insert node other (xs ++ contract ∷ []) current)
            (Distinct-snoc xs contract (once node) e) once,
        λ other a. ground (
          arith,
          contracts_of-insert node other (xs ++ contract ∷ []) current,
          contains-append xs (contract ∷ []) a,
        ),
      )
    ]

remove_one-step :
    (node contract : ℕ) (current : NodeDeployments)
    → IsOnce current
    → IsOnce (remove_one node current contract)
      × ((other a : ℕ)
          → contains (contracts_of (remove_one node current contract) other) a
            ≡ (contains (contracts_of current other) a && not (node == other && contract == a)))
unfolding remove_one Changes
remove_one-step node contract current once =
    let xs = contracts_of current node in
    (
      Changes-IsOnce node (delete xs contract) current
          (Maps.insert node (delete xs contract) current)
          (λ other. contracts_of-insert node other (delete xs contract) current)
          (Distinct-delete xs contract (once node)) once,
      λ other a. ground (
        arith,
        contracts_of-insert node other (delete xs contract) current,
        contains-delete xs contract a (once node),
      ),
    )

-- Where no node has a contract twice: this stays so when contracts are stored for a node, and when
-- contracts are removed; after storing, the node has in addition exactly the given contracts, after
-- removing it has none of them and all others that it had; the other nodes' contracts stay.
pub contract_ids_kept :
    (node : ℕ) (contracts : List ℕ) (current : NodeDeployments)
    → IsOnce current
    → IsOnce (store_contract_ids node contracts current)
      × IsOnce (remove_contract_ids node contracts current)
      × ((other a : ℕ)
          → (contains (contracts_of (store_contract_ids node contracts current) other) a ≡ (
              contains (contracts_of current other) a || (node == other && contains contracts a)))
            × (contains (contracts_of (remove_contract_ids node contracts current) other) a ≡ (
                contains (contracts_of current other) a
                && not (node == other && contains contracts a))))
unfolding store_contract_ids remove_contract_ids
contract_ids_kept node [] current once = (once, once, λ other a. (ground arith, ground arith))
contract_ids_kept node (contract ∷ contracts) current once =
    let (once1, has1) = store_one-step node contract current once in
    let (once2, has2) = remove_one-step node contract current once in
    let (stored, _, more) =
      contract_ids_kept node contracts (store_one node current contract) once1 in
    let (_, removed, less) =
      contract_ids_kept node contracts (remove_one node current contract) once2 in
    (
      stored,
      removed,
      λ other a. (
        ground (arith, (more other a).0, has1 other a),
        ground (arith, (less other a).1, has2 other a),
      ),
    )
