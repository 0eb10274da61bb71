-- ===== src/Deployer/Batch/Tests.antt =====
-- A batch of two deployments on node 4, where the node refuses the second.
use tfgrid_sdk_go.Prelude.{◌≡◌, refl, List, [], ◌∷◌, Result, ok, none}
use tfgrid_sdk_go.Prelude.Maps.{lookup}
use tfgrid_sdk_go.Deployer.Zos.{
  sign, is_light, any_light, package_for, count_public_ips, count_deployment_public_ips,
}
use tfgrid_sdk_go.Deployer.World.{Error}
use tfgrid_sdk_go.Deployer.Batch.{
  Item, Prepared, Batch, batch_of, prepare, prepare_all, first_clients, send_all, send_created,
  batch_deploy,
}
use tfgrid_sdk_go.Deployer.Batch.Covered.{IsGivenBack, batch_deploy_covers}
use tfgrid_sdk_go.Deployer.Samples.{plain_zos, batch_grid, two_workloads}

abbrev two_items : List Item
two_items = (4, 0, two_workloads) ∷ (4, 1, two_workloads) ∷ []

abbrev or_nothing : Result Error (List Prepared) → List Prepared
or_nothing (ok ps) = ps
or_nothing e = []

abbrev two_prepared : List Prepared
two_prepared = or_nothing (prepare_all plain_zos [] two_items)

abbrev the_batch : Batch
the_batch = batch_of two_prepared (send_all batch_grid (501 ∷ 502 ∷ []) none 0 two_prepared)

prepared_ok : prepare_all plain_zos [] two_items ≡ ok two_prepared
unfolding prepare_all prepare sign is_light any_light package_for count_public_ips
    count_deployment_public_ips lookup
prepared_ok = refl

batch_ok : batch_deploy plain_zos batch_grid [] (4 ∷ []) two_items ≡ ok the_batch
unfolding batch_deploy first_clients send_created prepare_all prepare sign is_light any_light
    package_for count_public_ips count_deployment_public_ips lookup
batch_ok = refl

abbrev second_or : Prepared → List Prepared → Prepared
second_or p (q ∷ r ∷ ps) = r
second_or p ps = p

abbrev no_prepared : Prepared
no_prepared = (
  record { node = 0; contract_body = 0; hash = 0; public_ips = 0; solution_provider = none },
  two_workloads,
)

abbrev second_prepared : Prepared
second_prepared = second_or no_prepared two_prepared

batch_deploy_covers_example :
    IsGivenBack second_prepared.0.node 502 the_batch.batch_canceled the_batch.batch_result
unfolding prepare_all prepare sign is_light any_light package_for count_public_ips
    count_deployment_public_ips lookup
batch_deploy_covers_example =
    batch_deploy_covers batch_grid (λ node. refl) plain_zos [] (4 ∷ []) two_items two_prepared
      the_batch 1 502 second_prepared batch_ok prepared_ok refl refl tt
