-- ===== src/Deployer/Tests.antt =====
-- The theorems on the deployer at concrete inputs.
use tfgrid_sdk_go.Prelude.{
  ℕ, ◌+◌, ◌≡◌, ◌≢◌, refl, subst, ok_inj, List, [], ◌∷◌, some, ok, arith, All, Any, here, there,
}
use tfgrid_sdk_go.Prelude.Maps.{lookup, remove, insert, has}
use tfgrid_sdk_go.Deployer.Zos.{
  Deployment, sign, is_light, any_light, package_for, count_public_ips, count_deployment_public_ips,
  hash_workloads, get_workload_hashes, construct_versions, sum_capacity, add_zos_capacity,
  deployment_capacity, has_workload,
}
use tfgrid_sdk_go.Deployer.World.{
  World, Attempt, in_progress, ◌>>=◌, done, lift, lift_option, call, set_current,
}
use tfgrid_sdk_go.Deployer.Wait.{is_expected, count_state, count_ok, decide, retry, wait}
use tfgrid_sdk_go.Deployer.Wait.Outcome.{IsDeployed, wait-none}
use tfgrid_sdk_go.Deployer.Wait.Deadline.{IsBounded, CountsAtMost, wait_decides}
use tfgrid_sdk_go.Deployer.Versions.{
  match_workload, match_old_versions, assign_workload, assign_versions,
}
use tfgrid_sdk_go.Deployer.Versions.Assigned.{
  Assigned, IsVersioned, assign_versions-Assigned, assign_versions-IsVersioned,
}
use tfgrid_sdk_go.Deployer.Run.{
  Deployments, for_each, zero_versions, get_client, wait_for, delete_one, settle, send_new, create,
  create_one, update_one, deploy_loops, deploy,
}
use tfgrid_sdk_go.Deployer.Run.Tracked.{made, told_by, IsTracked}
use tfgrid_sdk_go.Deployer.Run.Accounted.{deploy_accounts}
use tfgrid_sdk_go.Deployer.Run.Nodes.{deploy_nodes}
use tfgrid_sdk_go.Deployer.Validate.{
  available, check_node, total_with_old, check_deployment, check_deployments,
}
use tfgrid_sdk_go.Deployer.Validate.Budget.{required_on, IsSane, Fits, check_deployments_sound}
use tfgrid_sdk_go.Deployer.Samples.{
  plain_zos, willing_grid, refusing_grid, plain_proxy, two_workloads, machine, address,
  small_deployment, good_attempt, read_nodes,
}

-- Node 3 is given up, node 4 is new.
abbrev old_on_three : List (ℕ × ℕ)
old_on_three = (3, 30) ∷ []

abbrev new_on_four : Deployments
new_on_four = (4, two_workloads) ∷ []

abbrev deployed_world : World
deployed_world = (deploy plain_zos willing_grid old_on_three new_on_four [] []).1

deployed_ok : deploy plain_zos willing_grid old_on_three new_on_four [] [] ≡ (ok tt, deployed_world)
unfolding deploy deploy_loops for_each delete_one create_one create update_one get_client wait_for
    settle send_new zero_versions sign is_light any_light package_for count_public_ips
    count_deployment_public_ips lookup remove insert has ◌>>=◌ done lift lift_option call
    set_current is_expected count_state count_ok decide retry wait
deployed_ok = refl

deploy_nodes_example : has 4 deployed_world.current ≡ has 4 new_on_four
deploy_nodes_example =
    deploy_nodes plain_zos willing_grid old_on_three new_on_four [] 4 [] deployed_ok

-- The node refuses the deployment, and the contract cannot be canceled.
deploy_accounts_example :
    let (r, w) = deploy plain_zos refusing_grid old_on_three new_on_four [] [] in
    All (IsTracked (told_by r) w) (made w.log)
unfolding has lookup
deploy_accounts_example =
    deploy_accounts plain_zos refusing_grid old_on_three new_on_four [] (refl, tt)

abbrev versions_of_both : List (ℕ × ℕ)
versions_of_both = (1, 0) ∷ (2, 0) ∷ []

wait_none_example : Any (IsDeployed versions_of_both) (good_attempt 0 ∷ [])
unfolding is_expected count_state count_ok decide retry wait lookup
wait_none_example = wait-none versions_of_both 0 (good_attempt 0 ∷ []) refl

-- A node that never answers with a good workload, asked three times.
abbrev silent_attempt : ℕ → Attempt
silent_attempt now = record { time = now; changes = ok [] }

abbrev silent_attempts : List Attempt
silent_attempts =
    silent_attempt 1_000_000 ∷ silent_attempt 2_000_000 ∷ silent_attempt 3_000_000 ∷ []

silent-CountsAtMost : (now : ℕ) → CountsAtMost ((1, 0) ∷ []) (silent_attempt now)
unfolding count_ok
silent-CountsAtMost now wls e =
    subst (λ ws. IsBounded 1 (count_ok ((1, 0) ∷ []) ws 0)) (ok_inj e) (omega arith)

wait_decides_example : wait ((1, 0) ∷ []) 0 silent_attempts ≢ some in_progress
wait_decides_example =
    wait_decides ((1, 0) ∷ []) 0 1_000_000 silent_attempts
      (omega arith, omega arith, (omega arith, omega arith, (omega arith, omega arith, tt)))
      (
        silent-CountsAtMost 1_000_000,
        (silent-CountsAtMost 2_000_000, (silent-CountsAtMost 3_000_000, tt)),
      )
      (there (there (here (omega arith))))

-- The machine changes, the address stays.
abbrev changed : Deployment
changed = small_deployment 0 9 (machine 0 4 ∷ address 0 ∷ [])

abbrev running : Deployment
running = small_deployment 6 8 (machine 6 3 ∷ address 2 ∷ [])

abbrev updated_dl : Deployment
updated_dl = small_deployment 7 9 (machine 7 4 ∷ address 2 ∷ [])

assigned_ok :
    assign_versions plain_zos running (match_old_versions running changed)
    ≡ ok ((2, 2) ∷ (1, 7) ∷ [], updated_dl)
unfolding assign_versions match_old_versions match_workload assign_workload construct_versions
    get_workload_hashes hash_workloads lookup remove insert has is_light
assigned_ok = refl

assign_versions_example : Assigned plain_zos running changed ((2, 2) ∷ (1, 7) ∷ []) updated_dl
assign_versions_example = assign_versions-Assigned plain_zos running changed assigned_ok

assign_versions-IsVersioned_example : IsVersioned updated_dl × (7 ≡ 6 + 1)
assign_versions-IsVersioned_example =
    assign_versions-IsVersioned plain_zos running changed assigned_ok
      (omega arith, (omega arith, tt)) (omega arith)

checked_ok :
    check_deployments plain_zos plain_proxy [] read_nodes new_on_four ((1, 2) ∷ [])
    ≡ ok ((1, 1) ∷ [])
unfolding check_deployments check_deployment check_node total_with_old available lookup remove
    insert count_public_ips count_deployment_public_ips sum_capacity add_zos_capacity
    deployment_capacity has_workload is_light any_light package_for
checked_ok = refl

four_IsSane : All (IsSane plain_zos plain_proxy [] read_nodes) new_on_four
unfolding lookup
four_IsSane = ((omega arith, omega arith, omega arith, omega arith, omega arith, omega arith), tt)

check_deployments_example :
    ((farm : ℕ)
      → required_on plain_zos read_nodes farm new_on_four + available farm ((1, 1) ∷ [])
        ≡ available farm ((1, 2) ∷ []))
    × All (Fits plain_zos plain_proxy [] read_nodes) new_on_four
check_deployments_example =
    check_deployments_sound plain_zos plain_proxy [] read_nodes new_on_four ((1, 2) ∷ [])
      four_IsSane checked_ok
