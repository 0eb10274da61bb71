-- ===== src/Deployer/Batch/Covered.antt =====
-- What becomes of the contracts of a batch (`BatchDeploy` of grid-client/deployer/deployer.go).
use mathlib.Core.Option.{some_inj}
use tfgrid_sdk_go.Prelude.Maps
use tfgrid_sdk_go.Prelude.{
  ℕ, zero, suc, ◌+◌, ◌<◌, ◌≡◌, refl, sym, ap, subst, ◌⊎◌, inl, inr, true, false, List, [], ◌∷◌,
  ◌++◌, Option, none, some, Result, ok, err, ok_inj, arith, ◌==◌, ==_refl, get_elem?, contains,
  contains-append, Any, here, there, Option-cases, Bool-cases, if◌then◌else◌,
}
use tfgrid_sdk_go.Deployer.Zos.{ZosPackages, Deployment}
use tfgrid_sdk_go.Deployer.World.{Error, create_failed}
use tfgrid_sdk_go.Deployer.Wait.{wait}
use tfgrid_sdk_go.Deployer.Run.{zero_versions}
use tfgrid_sdk_go.Deployer.Batch.{
  BatchGrid, BatchCreated, Batch, Prepared, Sent, deployed_as, to_cancel, send_with, send_one,
  send_all, cancel_of, failed_contracts, with_contract, store_contracts, send_created, batch_of,
  total_failure, by_node, or_no_deployments, contract_data, prepare_all, batch_deploy, Item,
}

-- The contract is on the list to cancel, or a deployment of the slice for that node has it.
abbrev IsCovered : ℕ → ℕ → List ℕ → List (ℕ × Deployment) → Type 0
IsCovered node id canceled stored =
    (contains canceled id ≡ true) ⊎ Any (λ x. (x.0 ≡ node) × (x.1.contract_id ≡ id)) stored

-- The contract is on the list to cancel, or a deployment of that node in the map has it.
abbrev pub IsGivenBack : ℕ → ℕ → List ℕ → List (ℕ × List Deployment) → Type 0
IsGivenBack node id canceled result =
    (contains canceled id ≡ true)
    ⊎ Any (λ dl. dl.contract_id ≡ id) (or_no_deployments (Maps.lookup node result))

-- The place is before the one where the chain stopped.
abbrev pub IsBefore : ℕ → Option ℕ → Type 0
IsBefore k none = Unit
IsBefore k (some stop) = k < stop

IsBefore-add : (i k : ℕ) (index : Option ℕ) → IsBefore (i + k) index → IsBefore i index
IsBefore-add i k none b = tt
IsBefore-add i k (some stop) b = omega (arith, b)

-- Those that are sent and the slice, for the contract `id`.
abbrev KeepsTrack : ℕ → ℕ → List Prepared → List Sent → Type 0
KeepsTrack node id ps ss = IsCovered node id (failed_contracts ss) (store_contracts ps ss)

covers_first :
    (id : ℕ) (p : Prepared) (ps : List Prepared) (s : Sent) (ss : List Sent)
    → ((s ≡ to_cancel id) ⊎ (s ≡ deployed_as id))
    → KeepsTrack p.0.node id (p ∷ ps) (s ∷ ss)
unfolding failed_contracts store_contracts
covers_first id (data', dl) ps s ss (inl refused) = inl (
    subst (λ s. contains (cancel_of s ++ failed_contracts ss) id ≡ true) (sym refused)
      (ground (arith, ==_refl id)))
covers_first id (data', dl) ps s ss (inr deployed) =
    inr (here (refl, subst (λ s. (with_contract s dl).contract_id ≡ id) (sym deployed) refl))

covers_later :
    (node id : ℕ) (p : Prepared) (ps : List Prepared) (s : Sent) (ss : List Sent)
    → KeepsTrack node id ps ss
    → KeepsTrack node id (p ∷ ps) (s ∷ ss)
unfolding failed_contracts store_contracts
covers_later node id (data', dl) ps s ss (inl canceled) =
    inl (ground (arith, contains-append (cancel_of s) (failed_contracts ss) id, canceled))
covers_later node id (data', dl) ps s ss (inr stored) = inr (there stored)

Any-append_left : (P : Deployment → Type 0) (xs ys : List Deployment) → Any P xs → Any P (xs ++ ys)
Any-append_left P [] ys a = elim a [ ]
Any-append_left P (x ∷ xs) ys (here p) = here p
Any-append_left P (x ∷ xs) ys (there a) = there (Any-append_left P xs ys a)

Any-append_right : (P : Deployment → Type 0) (xs ys : List Deployment) → Any P ys → Any P (xs ++ ys)
Any-append_right P [] ys a = a
Any-append_right P (x ∷ xs) ys a = there (Any-append_right P xs ys a)

-- The map has what it had and what is put into it.
by_node-Any :
    (P : Deployment → Type 0) (node : ℕ) (dls : List (ℕ × Deployment))
    (m : List (ℕ × List Deployment))
    → Any (λ x. (x.0 ≡ node) × P x.1) dls ⊎ Any P (or_no_deployments (Maps.lookup node m))
    → Any P (or_no_deployments (Maps.lookup node (by_node dls m)))
unfolding by_node
by_node-Any P node [] m (inl a) = elim a [ ]
by_node-Any P node [] m (inr a) = a
by_node-Any P node ((n, dl) ∷ dls) m h =
    by_node-Any P node dls (Maps.insert n (before ++ dl ∷ []) m) (next h)
  where
    before : List Deployment
    before = or_no_deployments (Maps.lookup n m)

    put :
        Maps.lookup node (Maps.insert n (before ++ dl ∷ []) m)
        ≡ (if n == node then some (before ++ dl ∷ []) else Maps.lookup node m)
    put = Maps.lookup-insert node n (before ++ dl ∷ []) m

    at_node :
        n ≡ node
        → Any P (before ++ dl ∷ [])
        → Any P (or_no_deployments (Maps.lookup node (Maps.insert n (before ++ dl ∷ []) m)))
    at_node e a =
        let found : Maps.lookup node (Maps.insert n (before ++ dl ∷ []) m)
            ≡ some (before ++ dl ∷ []) =
          ground (arith, put, e) in
        subst (λ o. Any P (or_no_deployments o)) (sym found) a

    next :
        Any (λ x. (x.0 ≡ node) × P x.1) ((n, dl) ∷ dls)
          ⊎ Any P (or_no_deployments (Maps.lookup node m))
        → Any (λ x. (x.0 ≡ node) × P x.1) dls
          ⊎ Any P (or_no_deployments (Maps.lookup node (Maps.insert n (before ++ dl ∷ []) m)))
    next (inl (here (e, p))) = inr (at_node e (Any-append_right P before (dl ∷ []) (here p)))
    next (inl (there a)) = inl a
    next (inr a) = elim (Bool-cases (n == node)) [
      | inl e ↦
          let same : n ≡ node = ground (arith, e) in
          inr (
            at_node same (
              Any-append_left P before (dl ∷ [])
                (subst (λ k. Any P (or_no_deployments (Maps.lookup k m))) (sym same) a)))
      | inr e ↦
          let kept : Maps.lookup node (Maps.insert n (before ++ dl ∷ []) m) ≡ Maps.lookup node m =
            ground (arith, put, e) in
          inr (subst (λ o. Any P (or_no_deployments o)) (sym kept) a)
    ]

covered-IsGivenBack :
    (node id : ℕ) (canceled : List ℕ) (stored : List (ℕ × Deployment))
    → IsCovered node id canceled stored
    → IsGivenBack node id canceled (by_node stored [])
covered-IsGivenBack node id canceled stored (inl c) = inl c
covered-IsGivenBack node id canceled stored (inr a) =
    inr (by_node-Any (λ dl. dl.contract_id ≡ id) node stored [] (inl a))

module _ (grid : BatchGrid) (cached : (node : ℕ) → grid.client_again node ≡ none) where
  send_with_cases :
      (node : ℕ) (dl : Deployment)
      → (send_with grid node dl ≡ to_cancel dl.contract_id)
        ⊎ (send_with grid node dl ≡ deployed_as dl.contract_id)
  unfolding send_with
  send_with_cases node dl = elim (Option-cases (grid.send node dl)) [
    | inr (e, refused) ↦ inl (rw (refused, send_with) refl)
    | inl accepted ↦
        elim (Option-cases (
          wait (zero_versions dl.workloads []) (grid.wait_attempts node dl.contract_id).0
            (grid.wait_attempts node dl.contract_id).1)) [
              | inr (e, late) ↦ inl (rw (accepted, late, send_with) refl)
              | inl good ↦ inr (rw (accepted, good, send_with) refl)
            ]
  ]

  send_one_cases :
      (id : ℕ) (p : Prepared)
      → (send_one grid (some id) p ≡ to_cancel id) ⊎ (send_one grid (some id) p ≡ deployed_as id)
  unfolding send_one
  send_one_cases id (data', dl) =
      rw (cached data'.node, send_one) (send_with_cases data'.node (record dl { contract_id = id }))

  send_all-next :
      (contracts : List ℕ) (index : Option ℕ) (i : ℕ) (p : Prepared) (ps : List Prepared)
      → IsBefore i index
      → send_all grid contracts index i (p ∷ ps)
        ≡ send_one grid (get_elem? contracts i) p ∷ send_all grid contracts index (suc i) ps
  unfolding send_all
  send_all-next contracts none i p ps b = refl
  send_all-next contracts (some stop) i p ps b =
      ap
        (λ t.
          if t
          then []
          else send_one grid (get_elem? contracts i) p
            ∷ send_all grid contracts (some stop) (suc i) ps)
        not_here
    where
      not_here : (stop == i) ≡ false
      not_here = ground (arith, b)

  send_all_covers :
      (contracts : List ℕ) (index : Option ℕ) (i k id : ℕ) (ps : List Prepared) (q : Prepared)
      → get_elem? contracts (i + k) ≡ some id
      → get_elem? ps k ≡ some q
      → IsBefore (i + k) index
      → KeepsTrack q.0.node id ps (send_all grid contracts index i ps)
  send_all_covers contracts index i k id [] q at l b = absurd (ground (arith, l))
  send_all_covers contracts index i zero id (p ∷ ps) q at l b =
      subst (λ r. KeepsTrack r.0.node id (p ∷ ps) (send_all grid contracts index i (p ∷ ps)))
        (some_inj.0 l)
        (subst (KeepsTrack p.0.node id (p ∷ ps))
          (sym (send_all-next contracts index i p ps (IsBefore-add i 0 index b)))
          (covers_first id p ps _ _ (
            subst (λ c. (send_one grid c p ≡ to_cancel id) ⊎ (send_one grid c p ≡ deployed_as id))
              (sym (subst (λ n. get_elem? contracts n ≡ some id) (omega arith) at))
              (send_one_cases id p))))
  send_all_covers contracts index i (suc k) id (p ∷ ps) q at l b =
      subst (KeepsTrack q.0.node id (p ∷ ps))
        (sym (send_all-next contracts index i p ps (IsBefore-add i (suc k) index b)))
        (covers_later q.0.node id p ps _ _ (
          send_all_covers contracts index (suc i) k id ps q
            (subst (λ n. get_elem? contracts n ≡ some id) same at) l
            (subst (λ n. IsBefore n index) same b)))
    where
      same : i + suc k ≡ suc i + k
      same = omega arith

  send_created_covers :
      (prepared : List Prepared) (c : BatchCreated) {b : Batch} (k id : ℕ) (q : Prepared)
      → send_created grid prepared c ≡ ok b
      → get_elem? c.contracts k ≡ some id
      → get_elem? prepared k ≡ some q
      → IsBefore k c.index
      → IsGivenBack q.0.node id b.batch_canceled b.batch_result
  unfolding send_created
  send_created_covers prepared c {b} k id q done at l before =
      elim (Option-cases (total_failure c.create_error c.index)) [
        | inr (e, all) ↦ absurd (ground (arith, done, all))
        | inl some_made ↦
            let sents = send_all grid c.contracts c.index 0 prepared in
            subst (λ b. IsGivenBack q.0.node id b.batch_canceled b.batch_result)
              (ok_inj (
                subst
                  (λ t.
                    (elim t as (λ r. Result Error Batch) [
                      | some e ↦ err (create_failed e)
                      | none ↦ ok (batch_of prepared sents)
                    ])
                    ≡ ok b)
                  some_made done))
              (covered-IsGivenBack q.0.node id (failed_contracts sents)
                (store_contracts prepared sents)
                (send_all_covers c.contracts c.index 0 k id prepared q
                  (subst (λ n. get_elem? c.contracts n ≡ some id) (omega arith) at) l
                  (subst (λ n. IsBefore n c.index) (omega arith) before)))
      ]

  -- Where the second request for a node's client does not fail: if `BatchDeploy` gives a result, each
  -- contract that the chain gave for a prepared deployment before the place where it stopped is on
  -- the list that is canceled at the end, or a deployment has it that the map which is given back has
  -- for the node of the prepared one.
  pub batch_deploy_covers :
      (zos : ZosPackages) (providers : List (ℕ × List (Option ℕ))) (nodes : List ℕ)
      (items : List Item) (prepared : List Prepared) (b : Batch) (k id : ℕ) (q : Prepared)
      → batch_deploy zos grid providers nodes items ≡ ok b
      → prepare_all zos providers items ≡ ok prepared
      → let c = grid.create_contracts (contract_data prepared) in
        get_elem? c.contracts k ≡ some id
        → get_elem? prepared k ≡ some q
        → IsBefore k c.index
        → IsGivenBack q.0.node id b.batch_canceled b.batch_result
  unfolding batch_deploy
  batch_deploy_covers zos providers nodes items prepared b k id q done ready =
      send_created_covers prepared (grid.create_contracts (contract_data prepared)) {b = b} k id q
        (ground (arith, done, ready))
