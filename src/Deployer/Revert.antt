-- ===== src/Deployer/Revert.antt =====
-- `Deploy` of grid-client/deployer/deployer.go: validating, deploying, and going back to the old
-- deployments where that fails. Go ranges over a map in an order of its own, which `Order` stands for.
pub mod Atomic
use tfgrid_sdk_go.Prelude.{Bool, true, false, List, [], ◌∷◌, Option, none, some, Result, ok, err, ℕ}
use tfgrid_sdk_go.Deployer.Zos.{ZosPackages}
use tfgrid_sdk_go.Deployer.World.{Grid, Event, Error, Contracts, World}
use tfgrid_sdk_go.Deployer.Validate.{Proxy, ValidateError, Counts, validate_deployments}
use tfgrid_sdk_go.Deployer.Run.{Deployments, deploy, get_deployments_from}

pub record Order : Type 0 where
  pub contracts : Contracts → Contracts
  pub deployments : Deployments → Deployments

-- The errors of `Deploy`, by what they say of the reversal.
pub data DeployError : Type 0 where
  rejected : ValidateError → DeployError
  failed : Error → DeployError
  not_revertable : Error → Error → DeployError
  not_reverted : Error → Error → DeployError
  reverted : Error → DeployError

-- The validation, which is left out where the old deployments cannot be read.
abbrev pub check_readable :
    ZosPackages → Proxy → Deployments → Result Error Deployments → Option ValidateError
check_readable zos proxy new_deployments (err e) = none
check_readable zos proxy new_deployments (ok old_deployments) =
    elim (validate_deployments zos proxy old_deployments new_deployments) [
      | ok counts ↦ none
      | err e ↦ some e
    ]

abbrev pub after_revert : Error → Result Error (Unit {0}) × World → Option DeployError × World
after_revert e (ok u, w) = (some (reverted e), w)
after_revert e (err again, w) = (some (not_reverted e again), w)

module _ (zos : ZosPackages) (grid : Grid) (proxy : Proxy) (order : Order)
    (revert_on_failure : Bool) (providers : List (ℕ × Option ℕ)) where
  -- The second run of `deploy`, from what the first one left to the old deployments.
  unfoldable pub revert :
      Bool → Result Error Deployments → Error → World → Option DeployError × World
  revert false old e w = (some (failed e), w)
  revert true (err unread) e w = (some (not_revertable e unread), w)
  revert true (ok old_deployments) e w = after_revert e (
      deploy zos grid (order.contracts w.current) (order.deployments old_deployments) providers
        w.log)

  abbrev pub after_deploy :
      Result Error Deployments → Result Error (Unit {0}) × World → Option DeployError × World
  after_deploy old (ok u, w) = (none, w)
  after_deploy old (err e, w) = revert revert_on_failure old e w

  unfoldable pub deploy_checked :
      Contracts
      → Deployments
      → Result Error Deployments × World
      → Option ValidateError
      → Option DeployError × World
  deploy_checked old_ids new_deployments (old, w) (some e) =
      (some (rejected e), record w { current = old_ids })
  deploy_checked old_ids new_deployments (old, w) none =
      after_deploy old (deploy zos grid old_ids new_deployments providers w.log)

  -- `Deploy`
  unfoldable pub deploy_or_revert :
      Contracts → Deployments → List Event → Option DeployError × World
  deploy_or_revert old_ids new_deployments log =
      let read =
        get_deployments_from zos grid [] old_ids (record { log = log; current = old_ids }) in
      deploy_checked old_ids new_deployments read (check_readable zos proxy new_deployments read.0)
