-- ===== src/Deployer/Run/Steps.antt =====
-- Rules for the loops of `deploy` (grid-client/deployer/deployer.go) and for a round of each.
use tfgrid_sdk_go.Prelude.{
  ℕ, ◌≡◌, refl, Bool, true, false, List, [], ◌∷◌, Option, none, some, Result, ok, err, inl, inr,
  Bool-cases,
}
use tfgrid_sdk_go.Prelude.Maps
use tfgrid_sdk_go.Deployer.Zos.{ZosPackages, Deployment}
use tfgrid_sdk_go.Deployer.World.{
  GridError, Grid, Event, got_client, got_deployment, created, updated, canceled, sent, sent_update,
  waited, Error, cancel_manually, send_failed, create_failed, ◌>>=◌, ◌>>◌, lift, lift_option, World,
  Deploy, done, set_current,
}
use tfgrid_sdk_go.Deployer.World.Rules.{
  Runs, bind-Runs, lift-Runs, lift_option-Runs, lift_option-Runs_last, call-Runs, set_current-Runs,
}
use tfgrid_sdk_go.Deployer.Run.{
  Deployments, unless_gone, for_each, get_client, wait_for, delete_one, give_up, settle, send_new,
  create, send_changed, send_unless_same, update_deployment,
}

-- A call after which no new contract stands.
abbrev pub IsNeutral : Event → Type 0
IsNeutral (created node metadata hash ips provider (ok id)) = ⊥
IsNeutral (created node metadata hash ips provider (err e)) = Unit
IsNeutral (got_client node e) = Unit
IsNeutral (got_deployment node id r) = Unit
IsNeutral (updated id metadata hash r) = Unit
IsNeutral (canceled id e) = Unit
IsNeutral (sent node dl e) = Unit
IsNeutral (sent_update node dl e) = Unit
IsNeutral (waited node id) = Unit

abbrev pub grow : Event → World → World
grow e w = record w { log = e ∷ w.log }

abbrev pub IsClosed : (World → Type 0) → Type 0
IsClosed P = (e : Event) (w : World) → IsNeutral e → P w → P (grow e w)

module _ {A : Type 0} {X : Error → World → Type 0} (Inv : List A → World → Type 0)
    (body : A → Deploy (Unit {0})) where
  -- The rule for a loop: an invariant over the elements that are left.
  pub for_each-Runs :
      ((x : A) (xs : List A) → Runs (Inv (x ∷ xs)) (body x) (λ _. Inv xs) X)
      → (xs : List A) → Runs (Inv xs) (for_each body xs) (λ _. Inv []) X
  unfolding for_each done
  for_each-Runs step [] = record { runs = λ w p. p }
  for_each-Runs step (x ∷ xs) =
      bind-Runs (body x) (λ _. for_each body xs) (step x xs) (λ _. for_each-Runs step xs)

module _ (zos : ZosPackages) (grid : Grid) {X : Error → World → Type 0} where
  -- Steps that only call in a neutral way, from a condition that outlasts such calls.
  module _ (P : World → Type 0) (closed : IsClosed P)
      (fails : (e : Error) (w : World) → P w → X e w) where
    pub get_client-Runs : (node : ℕ) → Runs P (get_client zos grid node) (λ _. P) X
    unfolding get_client
    get_client-Runs node =
        call-Runs _ (got_client node) _ (λ w p. closed _ w tt p)
          (λ failed. lift_option-Runs_last _ failed (λ e w p. fails _ w p) (λ w p. p))

    wait_for-Runs :
        (node id : ℕ) (versions : List (ℕ × ℕ))
        → Runs P (wait_for zos grid node id versions) (λ _. P) X
    unfolding wait_for
    wait_for-Runs node id versions =
        call-Runs _ (λ failed. waited node id) _ (λ w p. closed _ w tt p)
          (λ failed. lift_option-Runs_last _ failed (λ e w p. fails _ w p) (λ w p. p))

  -- A round of the creations: `Made id` holds from the contract's creation to the end of the sending.
  module _ (P R : World → Type 0) (Made : ℕ → World → Type 0) (node : ℕ) (closed : IsClosed P)
      (fails : (e : Error) (w : World) → P w → X e w) (closed_made : (id : ℕ) → IsClosed (Made id))
      (makes : (metadata hash ips id : ℕ) (p : Option ℕ) (w : World)
        → P w
        → Made id (grow (created node metadata hash ips p (ok id)) w))
      (cancels : (id : ℕ) (e : Error) (w : World) → Made id w → X e (grow (canceled id none) w))
      (cancel_fails : (id : ℕ) (e : GridError) (w : World)
        → Made id w
        → X (cancel_manually id e) (grow (canceled id (some e)) w))
      (stores : (id : ℕ) (w : World)
        → Made id w
        → R (record w { current = Maps.insert node id w.current }))
      (closed_after : IsClosed R) (fails_after : (e : Error) (w : World) → R w → X e w) where
    -- The world after a call, with the one before it.
    abbrev Called : (World → Type 0) → Event → World → Type 0
    Called Before e w' = (w : World) × Before w × (w' ≡ grow e w)

    give_up-Runs :
        (id : ℕ) (refused : GridError) → Runs (Made id) (give_up zos grid id refused) (λ _. R) X
    unfolding give_up ◌>>=◌ lift_option
    give_up-Runs id refused =
        call-Runs {Q = λ failed. Called (Made id) (canceled id failed)} _ (canceled id) _
          (λ w m. (w, m, refl)) ended
      where
        ended :
            (failed : Option GridError)
            → Runs
                (Called (Made id) (canceled id failed))
                (lift_option (cancel_manually id) failed >> lift_option send_failed (some refused))
                (λ _. R)
                X
        ended none = record { runs = λ w' (w, m, eq). rw eq (cancels id (send_failed refused) w m) }
        ended (some e) = record { runs = λ w' (w, m, eq). rw eq (cancel_fails id e w m) }

    settle-Runs :
        (dl : Deployment) (refused : Option GridError)
        → Runs (Made dl.contract_id) (settle zos grid node dl refused) (λ _. R) X
    unfolding settle
    settle-Runs dl (some e) = give_up-Runs dl.contract_id e
    settle-Runs dl none =
        set_current-Runs (Maps.insert node dl.contract_id) _ (stores dl.contract_id)
          (wait_for-Runs R closed_after fails_after node dl.contract_id _)

    send_new-Runs :
        (dl : Deployment) → Runs (Made dl.contract_id) (send_new zos grid node dl) (λ _. R) X
    unfolding send_new
    send_new-Runs dl = call-Runs _ (sent node dl) _ (λ w m. closed_made _ _ w tt m) (settle-Runs dl)

    -- The chain's answer to the request for a contract.
    answered :
        (signed : Deployment) (metadata hash ips : ℕ) (p : Option ℕ) (answer : Result GridError ℕ)
        → Runs
            (Called P (created node metadata hash ips p answer))
            (lift create_failed answer >>= λ id.
              send_new zos grid node (record signed { contract_id = id }))
            (λ _. R)
            X
    unfolding ◌>>=◌ lift
    answered signed metadata hash ips p (ok id) = record {
      runs = λ w' (w, before, eq). rw eq (
          (send_new-Runs (record signed { contract_id = id })).runs _
            (makes metadata hash ips id p w before));
    }
    answered signed metadata hash ips p (err e) = record {
      runs = λ w' (w, before, eq). rw eq (fails _ _ (closed _ w tt before));
    }

    pub create-Runs :
        (dl : Deployment) (provider : Option ℕ)
        → Runs P (create zos grid node dl provider) (λ _. R) X
    unfolding create
    create-Runs dl provider =
        bind-Runs (get_client zos grid node) _ (get_client-Runs P closed fails node) λ _.
          lift-Runs _ _ _ (λ e w p. fails _ w p)
            λ signed.
              lift_option-Runs _ _ _ (λ e w p. fails _ w p)
                (lift-Runs _ _ _ (λ e w p. fails _ w p)
                  λ hash.
                    lift-Runs _ _ _ (λ e w p. fails _ w p)
                      λ ips.
                        call-Runs
                          {Q = λ answer.
                            Called P
                              (created node signed.metadata (zos.hex hash) ips provider answer)}
                          _ (created node signed.metadata (zos.hex hash) ips provider) _
                          (λ w p. (w, p, refl))
                          (answered signed signed.metadata (zos.hex hash) ips provider))

  -- A round of the updates, which ends with the contract in the map.
  module _ (P : World → Type 0) (node : ℕ) (closed : IsClosed P)
      (fails : (e : Error) (w : World) → P w → X e w)
      (stores : (id : ℕ) (w : World)
        → P w
        → P (record w { current = Maps.insert node id w.current })) where
    send_changed-Runs :
        (versions : List (ℕ × ℕ)) (dl : Deployment)
        → Runs P (send_changed zos grid node versions dl) (λ _. P) X
    unfolding send_changed
    send_changed-Runs versions dl =
        lift-Runs _ _ _ (λ e w p. fails _ w p)
          λ signed.
            lift_option-Runs _ _ _ (λ e w p. fails _ w p)
              (lift-Runs _ _ _ (λ e w p. fails _ w p)
                λ hash.
                  call-Runs _ (updated signed.contract_id signed.metadata (zos.hex hash)) _
                    (λ w p. closed _ w tt p)
                    λ answer.
                      lift-Runs _ _ _ (λ e w p. fails _ w p)
                        λ id.
                          call-Runs _ (sent_update node (record signed { contract_id = id })) _
                            (λ w p. closed _ w tt p)
                            λ refused.
                              lift_option-Runs _ _ _ (λ e w p. fails _ w p)
                                (set_current-Runs (Maps.insert node id) _ (stores id)
                                  (wait_for-Runs P closed fails node id versions)))

    send_unless_same-Runs :
        (old_dl matched : Deployment) (same : Bool)
        → Runs P (send_unless_same zos grid node old_dl matched same) (λ _. P) X
    unfolding send_unless_same done
    send_unless_same-Runs old_dl matched true = record { runs = λ w p. p }
    send_unless_same-Runs old_dl matched false =
        lift-Runs _ _ _ (λ e w p. fails _ w p) λ assigned. send_changed-Runs _ _

    pub update_deployment-Runs :
        (old_id : ℕ) (dl : Deployment)
        → Runs P (update_deployment zos grid node old_id dl) (λ _. P) X
    unfolding update_deployment
    update_deployment-Runs old_id dl =
        bind-Runs (get_client zos grid node) _ (get_client-Runs P closed fails node) λ _.
          call-Runs _ (got_deployment node old_id) _ (λ w p. closed _ w tt p)
            λ answer.
              lift-Runs _ _ _ (λ e w p. fails _ w p)
                λ old_dl.
                  lift-Runs _ _ _ (λ e w p. fails _ w p)
                    λ old_hash.
                      lift-Runs _ _ _ (λ e w p. fails _ w p)
                        λ new_hash. send_unless_same-Runs old_dl _ _

  -- A round of the deletions.
  pub delete_one-Runs :
      (P R : World → Type 0) (new_deployments : Deployments) (node contract : ℕ)
      → IsClosed P
      → ((e : Error) (w : World) → P w → X e w)
      → (Maps.has node new_deployments ≡ true → (w : World) → P w → R w)
      → (Maps.has node new_deployments ≡ false
          → (w : World) → P w
          → R (record w { current = Maps.remove node w.current }))
      → Runs P (delete_one zos grid new_deployments (node, contract)) (λ _. R) X
  unfolding delete_one done set_current
  delete_one-Runs P R new_deployments node contract closed fails stays goes =
      elim (Bool-cases (Maps.has node new_deployments)) [
        | inl kept ↦ rw kept (record { runs = stays kept })
        | inr gone ↦ rw gone (
            call-Runs _ (canceled contract) _ (λ w p. closed _ w tt p)
              λ failed.
                lift_option-Runs _ (unless_gone failed) _ (λ e w p. fails _ w p)
                  (record { runs = goes gone }))
      ]
