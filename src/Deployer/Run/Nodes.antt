-- ===== src/Deployer/Run/Nodes.antt =====
-- The nodes of the map that `deploy` gives (grid-client/deployer/deployer.go).
use tfgrid_sdk_go.Prelude.{
  ℕ, ◌≡◌, refl, ◌∙◌, subst, true, false, List, [], ◌∷◌, Option, ok, arith, inl, inr, Bool-cases,
  Option-cases,
}
use tfgrid_sdk_go.Prelude.Maps
use tfgrid_sdk_go.Deployer.Zos.{ZosPackages, Deployment}
use tfgrid_sdk_go.Deployer.World.{Grid, Error, Contracts, World, Event, done}
use tfgrid_sdk_go.Deployer.World.Rules.{Runs, bind-Runs, weaken-Runs, strengthen-Runs, After}
use tfgrid_sdk_go.Deployer.Run.{
  Deployments, delete_one, create_one, update_one, deploy_loops, deploy,
}
use tfgrid_sdk_go.Deployer.Run.Steps.{
  for_each-Runs, create-Runs, update_deployment-Runs, delete_one-Runs,
}

module _ (zos : ZosPackages) (grid : Grid) (old_deployments : Contracts)
    (new_deployments : Deployments) (providers : List (ℕ × Option ℕ)) (k : ℕ) where
  Fails : Error → World → Type 0
  Fails e w = Unit

  -- Between the deletions, with `left` still to be looked at.
  Deleting : Contracts → World → Type 0
  Deleting left w =
      (Maps.has k new_deployments ≡ true → Maps.has k w.current ≡ Maps.has k old_deployments)
      × (Maps.has k new_deployments ≡ false
          → Maps.has k left ≡ false
          → Maps.has k w.current ≡ false)

  -- Between the creations.
  Creating : Deployments → World → Type 0
  Creating left w =
      (Maps.has k left ≡ true → Maps.has k new_deployments ≡ true)
      × (Maps.has k new_deployments ≡ false → Maps.has k w.current ≡ false)
      × (Maps.has k new_deployments ≡ true
          → Maps.has k old_deployments ≡ false
          → Maps.has k left ≡ false
          → Maps.has k w.current ≡ true)
      × (Maps.has k new_deployments ≡ true
          → Maps.has k old_deployments ≡ true
          → Maps.has k w.current ≡ true)

  delete_round :
      (x : ℕ × ℕ) (left : Contracts)
      → Runs
          (Deleting (x ∷ left))
          (delete_one zos grid new_deployments x)
          (λ _. Deleting left)
          Fails
  unfolding Deleting Fails
  delete_round (node, contract) left =
      delete_one-Runs zos grid _ _ new_deployments node contract (λ e w n p. p) (λ e w p. tt)
        (λ kept w p. ground (arith, Maps.has-cons k node contract left, p, kept))
        (λ gone w p.
          ground
            (arith, Maps.has-cons k node contract left, Maps.has-remove k node w.current, p, gone))

  create_round :
      (x : ℕ × Deployment) (left : Deployments)
      → Runs
          (Creating (x ∷ left))
          (create_one zos grid old_deployments providers x)
          (λ _. Creating left)
          Fails
  unfolding Creating Fails create_one done
  create_round (node, dl) left = elim (Bool-cases (Maps.has node old_deployments)) [
    | inl has_one ↦
        rw has_one
          (record { runs = λ w p. ground (arith, Maps.has-cons k node dl left, p, has_one) })
    | inr fresh ↦ rw fresh (
        create-Runs zos grid _ _ (λ id. Creating ((node, dl) ∷ left)) node (λ e w n p. p)
          (λ e w p. tt) (λ id e w n p. p) (λ metadata hash ips id q w p. p) (λ id e w p. tt)
          (λ id e w p. tt)
          (λ id w p.
            ground
              (arith, Maps.has-cons k node dl left, Maps.has-insert k node id w.current, p, fresh))
          (λ e w n p. p) (λ e w p. tt) dl _)
  ]

  -- Between the updates.
  Updating : Deployments → World → Type 0
  Updating left w =
      (Maps.has k left ≡ true → Maps.has k new_deployments ≡ true)
      × (Maps.has k w.current ≡ Maps.has k new_deployments)

  update_round :
      (x : ℕ × Deployment) (left : Deployments)
      → Runs
          (Updating (x ∷ left))
          (update_one zos grid old_deployments x)
          (λ _. Updating left)
          Fails
  unfolding Updating Fails update_one done
  update_round (node, dl) left = elim (Option-cases (Maps.lookup node old_deployments)) [
    | inl fresh ↦
        rw (fresh, update_one)
          (record { runs = λ w p. (λ h. ground (arith, Maps.has-cons k node dl left, p, h), p.1) })
    | inr (old_id, has_one) ↦
        rw (has_one, update_one)
          (strengthen-Runs _
            (λ a w p. (λ h. ground (arith, Maps.has-cons k node dl left, p, h), p.1))
            (update_deployment-Runs zos grid (Updating ((node, dl) ∷ left)) node (λ e w n p. p)
              (λ e w p. tt)
              (λ id w p. (
                p.0,
                ground
                    (arith, Maps.has-cons k node dl left, Maps.has-insert k node id w.current, p),
              ))
              old_id dl))
  ]

  settled : (w : World) → Creating [] w → Maps.has k w.current ≡ Maps.has k new_deployments
  unfolding Creating
  settled w (_, absent, made, had) = ground (arith, absent, made, had, Maps.has-nil Deployment k)

  loops_nodes :
      Runs
        (Deleting old_deployments)
        (deploy_loops zos grid old_deployments new_deployments providers)
        (λ _. Updating [])
        Fails
  unfolding deploy_loops Creating Deleting Updating
  loops_nodes = bind-Runs _ _ (for_each-Runs Deleting _ delete_round old_deployments) λ _.
      bind-Runs _ _
        (weaken-Runs _
          (λ w p. (λ h. h, λ n. p.1 n (Maps.has-nil ℕ k), λ n o l. cc, λ n o. p.0 n ∙ o))
          (for_each-Runs Creating _ create_round new_deployments))
        λ _.
          weaken-Runs _ (λ w p. (λ h. h, settled w p))
            (for_each-Runs Updating _ update_round new_deployments)

  -- If `deploy` succeeds, the nodes of the map that it gives are the nodes of the new deployments,
  -- whatever the old ones were.
  pub deploy_nodes :
      (log : List Event) {w : World}
      → deploy zos grid old_deployments new_deployments providers log ≡ (ok tt, w)
      → Maps.has k w.current ≡ Maps.has k new_deployments
  unfolding deploy Deleting Updating
  deploy_nodes log h =
      (subst (After (λ _. Updating []) Fails) h (
        loops_nodes.runs (record { log = log; current = old_deployments })
          (λ _. refl, λ _ absent. absent))).1
