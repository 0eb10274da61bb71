-- ===== src/Tfrobot/Retry.antt =====
-- What the trials of tfrobot/pkg/deployer/deployer.go keep.
use tfgrid_sdk_go.Prelude.{
  Result, ok, err, ◌⊎◌, true, ◌++◌, ℕ, ◌+◌, ◌%◌, ◌≡◌, ◌≢◌, refl, inl, inr, subst, false, ◌||◌, List,
  [], ◌∷◌, some, ok_inj, Result-cases, Option-cases, Bool-cases, arith, length, get_elem?,
}
use tfgrid_sdk_go.Prelude.Maps
use tfgrid_sdk_go.Tfrobot.{
  GridClient, is_failed, is_undeployed, move_to, move_failed, update_failed_deployments, Trials,
  prepare_group, is_panic, uses_ygg, Robot, vms_of,
}
use tfgrid_sdk_go.Tfrobot.Build.{Vms, VmDeployment, NetworkDeployment, GroupDeployments, RobotError}

-- A machine that has a contract keeps it.
abbrev pub Keeps : GroupDeployments → GroupDeployments → Type 0
Keeps [] [] = Unit
Keeps [] (y ∷ e) = ⊥
Keeps (x ∷ d) [] = ⊥
Keeps (x ∷ d) (y ∷ e) = (x.0.contract_id ≢ 0 → y.0.contract_id ≡ x.0.contract_id) × Keeps d e

-- What the loop that moves failed deployments does to one of them.
pub data Moved (nodes : List ℕ) (x y : VmDeployment × NetworkDeployment) : Type 0 where
  stays : is_failed x ≡ false → y ≡ x → Moved nodes x y
  moves : (i node : ℕ) → get_elem? nodes i ≡ some node → y ≡ move_to node x → Moved nodes x y

abbrev pub AllMoved : List ℕ → GroupDeployments → GroupDeployments → Type 0
AllMoved nodes [] [] = Unit
AllMoved nodes [] (y ∷ e) = ⊥
AllMoved nodes (x ∷ d) [] = ⊥
AllMoved nodes (x ∷ d) (y ∷ e) = Moved nodes x y × AllMoved nodes d e

pub move_failed-AllMoved :
    (nodes : List ℕ) (idx : ℕ) (d : GroupDeployments) {e : GroupDeployments}
    → move_failed nodes idx d ≡ ok e
    → AllMoved nodes d e
unfolding move_failed
move_failed-AllMoved nodes idx [] {e} h = subst (AllMoved nodes []) (ok_inj h) tt
move_failed-AllMoved nodes idx (x ∷ d) {e} h = elim (Bool-cases (is_failed x || is_undeployed x)) [
  | inl b ↦ elim (Option-cases (get_elem? nodes (idx % length nodes))) [
    | inl n ↦ absurd (ground (arith, h, b, n))
    | inr (node, g) ↦ elim (Result-cases (move_failed nodes (idx + 1) d)) [
      | inr (y, r) ↦ absurd (ground (arith, h, b, g, r))
      | inl (rest, r) ↦
          let made : move_to node x ∷ rest ≡ e = ground (arith, h, b, g, r) in
          subst (AllMoved nodes (x ∷ d)) made
            (moves (idx % length nodes) node g refl, move_failed-AllMoved nodes (idx + 1) d r)
    ]
  ]
  | inr b ↦ elim (Result-cases (move_failed nodes (idx + 1) d)) [
    | inr (y, r) ↦ absurd (ground (arith, h, b, r))
    | inl (rest, r) ↦
        let made : x ∷ rest ≡ e = ground (arith, h, b, r) in
        subst (AllMoved nodes (x ∷ d)) made
          (stays (ground (arith, b)) refl, move_failed-AllMoved nodes (idx + 1) d r)
  ]
]

-- What has been deployed so far is kept, whatever becomes of the rest.
KeepsTrial : GroupDeployments → Trials → Type 0
KeepsTrial d t = (e : GroupDeployments) × (t.deployments ≡ some e) × Keeps d e

-- The nodes that a trial goes to, and what becomes of the deployments there.
pub prepare_group_update :
    (grid : GridClient) (vms : List Vms) (t : Trials) (d : GroupDeployments) {e : GroupDeployments}
    → t.deployments ≡ some d
    → prepare_group grid vms t ≡ ok e
    → (nodes : List ℕ) × (grid.filter_nodes t.nodes_count t.excluded_nodes (uses_ygg t.group vms)
        ≡ ok nodes)
      × (update_failed_deployments grid nodes d ≡ ok e)
unfolding prepare_group
prepare_group_update grid vms t d s h =
    elim (Result-cases (grid.filter_nodes t.nodes_count t.excluded_nodes (uses_ygg t.group vms))) [
      | inr (x, f) ↦ absurd (ground (arith, h, f))
      | inl (nodes, f) ↦ (nodes, f, ground (arith, h, f, s))
    ]

-- The group has passed, with machines of which none has lost a contract, and nothing is canceled; or
-- it has failed, nothing of it is kept, and all its contracts are canceled by the project's name; or
-- the program has panicked.
abbrev pub IsFinished : ℕ → GroupDeployments → Robot → Result RobotError Robot → Type 0
IsFinished group d s (err e) = is_panic e ≡ true
IsFinished group d s (ok s') =
    ((e : GroupDeployments) × Keeps d e
      × (Maps.lookup group s'.passed_groups ≡ some (vms_of e))
      × (s'.failed_groups ≡ s.failed_groups)
      × (s'.canceled_projects ≡ s.canceled_projects))
    ⊎ ((e : RobotError) × (s'.passed_groups ≡ s.passed_groups)
        × (s'.failed_groups ≡ s.failed_groups ++ (group, e) ∷ [])
        × (s'.canceled_projects ≡ group ∷ s.canceled_projects))
