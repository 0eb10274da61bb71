-- ===== src/Deployer/Run/Accounted.antt =====
-- No contract that `deploy` creates (grid-client/deployer/deployer.go) is lost.
use tfgrid_sdk_go.Prelude.{
  ℕ, ◌≡◌, refl, sym, ◌∙◌, subst, inl, inr, true, false, List, [], ◌∷◌, Option, none, some, Result,
  ok, err, arith, ◌==◌, All, All-map, here, Bool-cases, Option-cases, ==_refl,
}
use tfgrid_sdk_go.Prelude.Maps
use tfgrid_sdk_go.Deployer.Zos.{ZosPackages, Deployment}
use tfgrid_sdk_go.Deployer.World.{
  Grid, GridError, Event, created, canceled, Error, cancel_manually, Contracts, World, done,
}
use tfgrid_sdk_go.Deployer.World.Rules.{Runs, bind-Runs, weaken-Runs, After}
use tfgrid_sdk_go.Deployer.Run.{
  Deployments, delete_one, create_one, update_one, deploy_loops, deploy,
}
use tfgrid_sdk_go.Deployer.Run.Steps.{
  IsNeutral, grow, for_each-Runs, create-Runs, update_deployment-Runs, delete_one-Runs,
}
use tfgrid_sdk_go.Deployer.Run.Tracked.{
  made, told_by, IsTracked, HasDistinctKeys, made-grow, IsTracked-grow, IsTracked-told,
  IsTracked-insert,
}

module _ (zos : ZosPackages) (grid : Grid) (old_deployments : Contracts)
    (new_deployments : Deployments) (providers : List (ℕ × Option ℕ)) where
  -- Where the run fails.
  Failed : Error → World → Type 0
  Failed e w = All (IsTracked (told_by (err e)) w) (made w.log)

  -- What is kept of each contract, with `left` still to be created.
  Kept : Deployments → World → ℕ × ℕ → Type 0
  Kept left w x =
      IsTracked [] w x × (Maps.has x.0 old_deployments ≡ false) × (Maps.has x.0 left ≡ false)

  Creating : Deployments → World → Type 0
  Creating left w = HasDistinctKeys left × All (Kept left w) (made w.log)

  -- The contract `id` was made for `node` and does not stand anywhere yet.
  Pending : ℕ → Deployments → ℕ → World → Type 0
  Pending node left id w =
      HasDistinctKeys left
      × (rest : Contracts) × (made w.log ≡ (node, id) ∷ rest)
      × All (Kept left w) rest

  Kept-grow :
      (left : Deployments) (e : Event) (w : World) (x : ℕ × ℕ)
      → Kept left w x
      → Kept left (grow e w) x
  unfolding Kept
  Kept-grow left e w x (t, rest, later) = (IsTracked-grow [] e w x t, rest, later)

  Creating-grow :
      (left : Deployments) (e : Event) (w : World)
      → IsNeutral e
      → Creating left w
      → Creating left (grow e w)
  unfolding Creating
  Creating-grow left e w n (d, kept) = (
    d,
    subst (All (Kept left (grow e w))) (sym (made-grow e w.log n))
        (All-map (made w.log) (Kept-grow left e w) kept),
  )

  Creating-fails : (left : Deployments) (e : Error) (w : World) → Creating left w → Failed e w
  unfolding Creating Failed Kept
  Creating-fails left e w (d, kept) = All-map (made w.log) (λ x k. IsTracked-told _ w x k.0) kept

  module _ (node : ℕ) (dl : Deployment) (left : Deployments) where
    Kept-tail :
        (w : World) (x : ℕ × ℕ)
        → Kept ((node, dl) ∷ left) w x
        → ((node == x.0) ≡ false) × (Maps.has x.0 left ≡ false)
    unfolding Kept
    Kept-tail w x (t, fresh, later) = ground (arith, Maps.has-cons x.0 node dl left, later)

    Creating-skip : (w : World) → Creating ((node, dl) ∷ left) w → Creating left w
    unfolding Creating Kept
    Creating-skip w (d, kept) =
        (d.1, All-map (made w.log) (λ x k. (k.0, k.1, (Kept-tail w x k).1)) kept)

    Creating-makes :
        (metadata hash ips id : ℕ) (p : Option ℕ) (w : World)
        → Creating ((node, dl) ∷ left) w
        → Pending node ((node, dl) ∷ left) id (grow (created node metadata hash ips p (ok id)) w)
    unfolding Creating Pending
    Creating-makes metadata hash ips id p w (d, kept) = (
      d,
      made w.log,
      refl,
      All-map (made w.log)
          (Kept-grow ((node, dl) ∷ left) (created node metadata hash ips p (ok id)) w) kept,
    )

    Pending-grow :
        (id : ℕ) (e : Event) (w : World)
        → IsNeutral e
        → Pending node ((node, dl) ∷ left) id w
        → Pending node ((node, dl) ∷ left) id (grow e w)
    unfolding Pending
    Pending-grow id e w n (d, rest, eq, kept) =
        (d, rest, made-grow e w.log n ∙ eq, All-map rest (Kept-grow ((node, dl) ∷ left) e w) kept)

    Pending-cancels :
        (id : ℕ) (e : Error) (w : World)
        → Pending node ((node, dl) ∷ left) id w
        → Failed e (grow (canceled id none) w)
    unfolding Pending Failed Kept
    Pending-cancels id e w (d, rest, eq, kept) =
        subst (All (IsTracked (told_by (err e)) (grow (canceled id none) w))) (sym eq) (
          inr (inl (here refl)),
          All-map rest (λ x k. IsTracked-told _ _ x (IsTracked-grow [] (canceled id none) w x k.0))
              kept,
        )

    Pending-cancel_fails :
        (id : ℕ) (e : GridError) (w : World)
        → Pending node ((node, dl) ∷ left) id w
        → Failed (cancel_manually id e) (grow (canceled id (some e)) w)
    unfolding Pending Failed Kept
    Pending-cancel_fails id e w (d, rest, eq, kept) =
        subst (All (IsTracked (id ∷ []) (grow (canceled id (some e)) w))) (sym eq) (
          inr (inr (ground (arith, ==_refl id))),
          All-map rest
              (λ x k.
                IsTracked-told (id ∷ []) _ x (IsTracked-grow [] (canceled id (some e)) w x k.0))
              kept,
        )

    Pending-stores :
        Maps.has node old_deployments ≡ false
        → (id : ℕ) (w : World) → Pending node ((node, dl) ∷ left) id w
        → Creating left (record w { current = Maps.insert node id w.current })
    unfolding Pending Creating Kept
    Pending-stores fresh id w (d, rest, eq, kept) = (
      d.1,
      subst (All (Kept left (record w { current = Maps.insert node id w.current }))) (sym eq) (
        (inl (ground (arith, Maps.lookup-insert node node id w.current, ==_refl node)), fresh, d.0),
        All-map rest
            (λ x k.
              (IsTracked-insert w node id x (Kept-tail w x k).0 k.0, k.1, (Kept-tail w x k).1))
            kept,
      ),
    )

    create_round :
        Runs
          (Creating ((node, dl) ∷ left))
          (create_one zos grid old_deployments providers (node, dl))
          (λ _. Creating left)
          Failed
    unfolding create_one done
    create_round = elim (Bool-cases (Maps.has node old_deployments)) [
      | inl has_one ↦ rw has_one (record { runs = λ w p. Creating-skip w p })
      | inr fresh ↦ rw fresh (
          create-Runs zos grid (Creating ((node, dl) ∷ left)) (Creating left)
            (Pending node ((node, dl) ∷ left)) node (λ e w n p. Creating-grow _ e w n p)
            (Creating-fails _) Pending-grow Creating-makes Pending-cancels Pending-cancel_fails
            (Pending-stores fresh) (Creating-grow left) (Creating-fails left) dl _)
    ]

  -- Between the updates: the contracts that were made are of other nodes.
  Updating : World → Type 0
  Updating w = All (Kept [] w) (made w.log)

  Updating-stores :
      (node id : ℕ) (w : World)
      → Maps.has node old_deployments ≡ true
      → Updating w
      → Updating (record w { current = Maps.insert node id w.current })
  unfolding Updating Kept
  Updating-stores node id w has_one kept =
      All-map (made w.log)
        (λ x k. (IsTracked-insert w node id x (ground (arith, k.1, has_one)) k.0, k.1, k.2)) kept

  update_round :
      (x : ℕ × Deployment) (left : Deployments)
      → Runs Updating (update_one zos grid old_deployments x) (λ _. Updating) Failed
  unfolding update_one done Updating Creating Maps.has
  update_round (node, dl) left = elim (Option-cases (Maps.lookup node old_deployments)) [
    | inl fresh ↦ rw (fresh, update_one) (record { runs = λ w p. p })
    | inr (old_id, has_one) ↦
        rw (has_one, update_one)
          (update_deployment-Runs zos grid Updating node
            (λ e w n p. (Creating-grow [] e w n (tt, p)).1) (λ e w p. Creating-fails [] e w (tt, p))
            (λ id w p. Updating-stores node id w (ground (arith, has_one)) p) old_id dl)
  ]

  -- Nothing is made by the deletions.
  Deleting : World → Type 0
  Deleting w = made w.log ≡ []

  delete_round :
      (x : ℕ × ℕ) (left : Contracts)
      → Runs Deleting (delete_one zos grid new_deployments x) (λ _. Deleting) Failed
  unfolding Deleting Failed
  delete_round (node, contract) left =
      delete_one-Runs zos grid _ _ new_deployments node contract
        (λ e w n p. made-grow e w.log n ∙ p) (λ e w p. subst (All _) (sym p) tt) (λ kept w p. p)
        (λ gone w p. p)

  loops_account :
      HasDistinctKeys new_deployments
      → Runs Deleting
          (deploy_loops zos grid old_deployments new_deployments providers)
          (λ _. Updating)
          Failed
  unfolding deploy_loops Deleting Creating Updating
  loops_account distinct =
      bind-Runs _ _ (for_each-Runs (λ _. Deleting) _ delete_round old_deployments) λ _.
        bind-Runs _ _
          (weaken-Runs _ (λ w p. (distinct, subst (All _) (sym p) tt))
            (for_each-Runs Creating _ (λ x left. create_round x.0 x.1 left) new_deployments))
          λ _.
            weaken-Runs _ (λ w p. p.1)
              (for_each-Runs (λ _. Updating) _ update_round new_deployments)

  -- Where no node is named twice, as in a map: every contract that `deploy` creates stands in the map
  -- that it gives, under its node, or was canceled, or the error names it as one to cancel by hand;
  -- this holds however `deploy` ends.
  pub deploy_accounts :
      HasDistinctKeys new_deployments
      → let (r, w) = deploy zos grid old_deployments new_deployments providers [] in
        All (IsTracked (told_by r) w) (made w.log)
  unfolding deploy Updating Failed Kept Deleting
  deploy_accounts distinct =
      after (deploy_loops zos grid old_deployments new_deployments providers start)
        ((loops_account distinct).runs start refl)
    where
      start : World
      start = record { log = []; current = old_deployments }

      after :
          (s : Result Error (Unit {0}) × World)
          → After (λ _. Updating) Failed s
          → All (IsTracked (told_by s.0) s.1) (made s.1.log)
      after (ok u, w) kept = All-map (made w.log) (λ x k. k.0) kept
      after (err e, w) f = f
