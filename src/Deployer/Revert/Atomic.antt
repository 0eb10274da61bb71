-- ===== src/Deployer/Revert/Atomic.antt =====
-- `Deploy` of grid-client/deployer/deployer.go against its contract: all or nothing.
use tfgrid_sdk_go.Prelude.{ℕ, ◌≡◌, Bool, true, false, List, Option, none, some, Result, ok, err}
use tfgrid_sdk_go.Prelude.Maps
use tfgrid_sdk_go.Deployer.Zos.{ZosPackages}
use tfgrid_sdk_go.Deployer.World.{Grid, Error, Contracts, World}
use tfgrid_sdk_go.Deployer.Validate.{Proxy}
use tfgrid_sdk_go.Deployer.Run.{Deployments}
use tfgrid_sdk_go.Deployer.Revert.{
  Order, DeployError, rejected, failed, not_revertable, not_reverted, reverted,
}

-- Ranging over a map meets each of its keys and no other.
pub record MeetsAllKeys (order : Order) : Type 0 where
  pub meets_contracts : (k : ℕ) (m : Contracts) → Maps.has k (order.contracts m) ≡ Maps.has k m
  pub meets_deployments :
      (k : ℕ) (m : Deployments) → Maps.has k (order.deployments m) ≡ Maps.has k m

-- The contract of `Deploy`, for the set of nodes that have a deployment: it is the wanted one after a
-- success, and the one from before where the error says that the validation failed or that the old
-- deployments are back. An error that says nothing of the reversal comes only where it is off, and
-- the two of a reversal that failed only where it is on; these three promise nothing of the nodes.
abbrev pub IsAtomic : Bool → Option DeployError → (ℕ → Bool) → (ℕ → Bool) → (ℕ → Bool) → Type 0
IsAtomic reverts none before wanted after = (k : ℕ) → after k ≡ wanted k
IsAtomic reverts (some (rejected e)) before wanted after = (k : ℕ) → after k ≡ before k
IsAtomic reverts (some (reverted e)) before wanted after = (k : ℕ) → after k ≡ before k
IsAtomic reverts (some (failed e)) before wanted after = reverts ≡ false
IsAtomic reverts (some (not_revertable e unread)) before wanted after = reverts ≡ true
IsAtomic reverts (some (not_reverted e again)) before wanted after = reverts ≡ true

module _ (zos : ZosPackages) (grid : Grid) (proxy : Proxy) (order : Order)
    (revert_on_failure : Bool) (providers : List (ℕ × Option ℕ)) (old_ids : Contracts)
    (new_deployments : Deployments) (meets : MeetsAllKeys order) where
  -- The contract, for the outcome and the world in which it ends.
  Ends : Bool → Option DeployError × World → Type 0
  Ends reverts s =
      IsAtomic reverts s.0 (λ k. Maps.has k old_ids) (λ k. Maps.has k new_deployments)
        (λ k. Maps.has k s.1.current)

  -- The old deployments were read, with the nodes that have one, or they were not.
  IsRead : Result Error Deployments → Type 0
  IsRead (ok old) = (k : ℕ) → Maps.has k old ≡ Maps.has k old_ids
  IsRead (err e) = Unit
