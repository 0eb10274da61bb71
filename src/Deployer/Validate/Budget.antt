-- ===== src/Deployer/Validate/Budget.antt =====
-- The public addresses and the resources that `Validate` of grid-client/deployer/deployer.go accounts
-- for.
use mathlib.Core.Option.{Option, some_inj}
use tfgrid_sdk_go.Prelude.{
  ℕ, ◌+◌, ◌-◌, ◌*◌, ◌^◌, ◌%◌, ◌<◌, ◌≤◌, ◌≡◌, sym, subst, ◌∙◌, false, ltb, some, ap, List, [], ◌∷◌,
  none, Result, ok, err, ok_inj, Result-cases, inl, inr, arith, ◌==◌, if◌then◌else◌, All,
}
use tfgrid_sdk_go.Prelude.Maps
use tfgrid_sdk_go.Deployer.Zos.{
  ZosPackages, ZosCapacity, Deployment, valid, count_deployment_public_ips, deployment_capacity,
  no_capacity,
}
use tfgrid_sdk_go.Deployer.Validate.{
  u64_sub, is_short, Proxy, ProxyCapacity, NodeInfo, Nodes, Counts, add_capacity, or_zero_info,
  available, total_with_old, check_node, check_deployment, check_deployments, free_capacity_of,
}

-- The addresses of one deployment.
abbrev pub count_or_zero : Result ℕ ℕ → ℕ
count_or_zero (ok n) = n
count_or_zero (err e) = 0

abbrev pub or_no_capacity : Result ℕ ZosCapacity → ZosCapacity
or_no_capacity (ok c) = c
or_no_capacity (err e) = no_capacity

-- The addresses that the deployments on one farm's nodes ask for.
abbrev pub required_on : ZosPackages → Nodes → ℕ → List (ℕ × Deployment) → ℕ
required_on zos nodes farm [] = 0
required_on zos nodes farm ((node, dl) ∷ dls) =
    let rest = required_on zos nodes farm dls in
    if (or_zero_info (Maps.lookup node nodes)).farm_id == farm
    then count_or_zero (count_deployment_public_ips zos dl) + rest
    else rest

available-insert :
    (farm j n : ℕ) (ips : Counts)
    → available farm (Maps.insert j n ips) ≡ (if j == farm then n else available farm ips)
unfolding available
available-insert farm j n ips = ground (arith, Maps.lookup-insert farm j n ips)

-- What is not short of the free space fits beside what is in use.
fits_in :
    (exact used needed : ℕ) {total : ℕ}
    → total ≡ exact
    → used ≤ exact
    → exact < 2 ^ 64
    → ltb (u64_sub total used) needed ≡ false
    → used + needed ≤ exact
fits_in exact used needed same u t h = ground (arith, same, u, t, h)

exact_sum : (a : ℕ) {r b c : ℕ} → r ≡ (a + c) % 2 ^ 64 → b ≡ c → a + b < 2 ^ 64 → r ≡ a + b
exact_sum a e f l = omega (arith, e, f, l)

module _ (zos : ZosPackages) (proxy : Proxy) (old_deployments : List (ℕ × Deployment))
    (nodes : Nodes) where
  -- What one accepted deployment takes.
  check_deployment_left :
      (node : ℕ) (dl : Deployment) (ips : Counts) {ips' : Counts}
      → check_deployment zos proxy old_deployments nodes node dl ips ≡ ok ips'
      → let farm = (or_zero_info (Maps.lookup node nodes)).farm_id in
        let n = count_or_zero (count_deployment_public_ips zos dl) in
        (n ≤ available farm ips) × (ips' ≡ Maps.insert farm (available farm ips - n) ips)
  unfolding check_deployment
  check_deployment_left node dl ips h = (ground arith, ground arith)

  check_deployments_budget :
      (farm : ℕ) (dls : List (ℕ × Deployment)) (ips : Counts) {left : Counts}
      → check_deployments zos proxy old_deployments nodes dls ips ≡ ok left
      → required_on zos nodes farm dls + available farm left ≡ available farm ips
  unfolding check_deployments
  check_deployments_budget farm [] ips h = omega (arith, ap (available farm) (ok_inj h))
  check_deployments_budget farm ((node, dl) ∷ dls) ips {left} h =
      elim (Result-cases (check_deployment zos proxy old_deployments nodes node dl ips)) [
        | inl (ips', e) ↦
            let (enough, taken) = check_deployment_left node dl ips e in
            let rest =
              check_deployments_budget farm dls ips' {left = left} (ground (arith, h, e)) in
            ground (
              arith,
              enough,
              rest,
              ap (available farm) taken,
              available-insert farm (or_zero_info (Maps.lookup node nodes)).farm_id
                  (available (or_zero_info (Maps.lookup node nodes)).farm_id ips
                    - count_or_zero (count_deployment_public_ips zos dl))
                  ips,
            )
        | inr (x, e) ↦ ground (arith, h, e)
      ]

  abbrev pub info_of : ℕ → NodeInfo
  info_of node = or_zero_info (Maps.lookup node nodes)

  -- What the old deployment of a node has, if there is one.
  abbrev pub capacity_or_none : Option Deployment → ZosCapacity
  capacity_or_none none = no_capacity
  capacity_or_none (some old_dl) = or_no_capacity (deployment_capacity zos old_dl)

  abbrev pub old_capacity : ℕ → ZosCapacity
  old_capacity node = capacity_or_none (Maps.lookup node old_deployments)

  -- The node uses no more than it has with the old deployment, twice that of the SSD; and all of it is
  -- a uint64.
  abbrev pub IsSane : ℕ × Deployment → Type 0
  IsSane (node, dl) =
      let info = info_of node in
      let old = old_capacity node in
      (info.used.total_mru ≤ info.total.total_mru + old.mru)
      × (info.used.total_hru ≤ info.total.total_hru + old.hru)
      × (info.used.total_sru ≤ 2 * (info.total.total_sru + old.sru))
      × (info.total.total_mru + old.mru < 2 ^ 64)
      × (info.total.total_hru + old.hru < 2 ^ 64)
      × (2 * (info.total.total_sru + old.sru) < 2 ^ 64)

  -- The deployment is valid and fits on its node beside what is in use there, where what the old
  -- deployment has comes on top of what the node has, and the SSD counts twice. It asks for no more
  -- public addresses than the contract of the old deployment has.
  abbrev pub Fits : ℕ × Deployment → Type 0
  Fits (node, dl) =
      let info = info_of node in
      let old = old_capacity node in
      let needed = or_no_capacity (deployment_capacity zos dl) in
      (valid zos dl ≡ none)
      × (info.used.total_mru + needed.mru ≤ info.total.total_mru + old.mru)
      × (info.used.total_hru + needed.hru ≤ info.total.total_hru + old.hru)
      × (info.used.total_sru + needed.sru ≤ 2 * (info.total.total_sru + old.sru))
      × ((old_dl : Deployment)
          → Maps.lookup node old_deployments ≡ some old_dl
          → (current : ℕ) × (proxy.contract_public_ips old_dl.contract_id ≡ ok current)
            × (count_or_zero (count_deployment_public_ips zos dl) ≤ current))

  -- The total of an accepted deployment's node, without wrap-around.
  total_with_old-exact :
      (node required : ℕ) (t : ProxyCapacity) (o : Option Deployment) {total : ProxyCapacity}
      → t.total_mru + (capacity_or_none o).mru < 2 ^ 64
      → t.total_hru + (capacity_or_none o).hru < 2 ^ 64
      → t.total_sru + (capacity_or_none o).sru < 2 ^ 64
      → total_with_old zos proxy node required t o ≡ ok total
      → (total.total_mru ≡ t.total_mru + (capacity_or_none o).mru)
        × (total.total_hru ≡ t.total_hru + (capacity_or_none o).hru)
        × (total.total_sru ≡ t.total_sru + (capacity_or_none o).sru)
        × ((old_dl : Deployment)
            → o ≡ some old_dl
            → (current : ℕ) × (proxy.contract_public_ips old_dl.contract_id ≡ ok current)
              × (required ≤ current))
  unfolding total_with_old add_capacity
  total_with_old-exact node required t none {total} m hd sd h =
      let same : t ≡ total = ok_inj h in
      (
        ap (λ (c : ProxyCapacity). c.total_mru) (sym same) ∙ omega arith,
        ap (λ (c : ProxyCapacity). c.total_hru) (sym same) ∙ omega arith,
        ap (λ (c : ProxyCapacity). c.total_sru) (sym same) ∙ omega arith,
        λ old_dl e. absurd (ground (arith, e)),
      )
  total_with_old-exact node required t (some old_dl) {total} m hd sd h =
      elim (Result-cases (deployment_capacity zos old_dl)) [
        | inr (e, c) ↦ absurd (ground (arith, h, c))
        | inl (cap, c) ↦ elim (Result-cases (proxy.contract_public_ips old_dl.contract_id)) [
          | inr (e, p) ↦ absurd (ground (arith, h, c, p))
          | inl (current, p) ↦
              let same : add_capacity t cap ≡ total = ground (arith, h, c, p) in
              let enough : required ≤ current = ground (arith, h, c, p) in
              let known : or_no_capacity (deployment_capacity zos old_dl) ≡ cap =
                ap or_no_capacity c in
              (
                exact_sum t.total_mru (ap (λ (q : ProxyCapacity). q.total_mru) (sym same))
                    (ap (λ (q : ZosCapacity). q.mru) known) m,
                exact_sum t.total_hru (ap (λ (q : ProxyCapacity). q.total_hru) (sym same))
                    (ap (λ (q : ZosCapacity). q.hru) known) hd,
                exact_sum t.total_sru (ap (λ (q : ProxyCapacity). q.total_sru) (sym same))
                    (ap (λ (q : ZosCapacity). q.sru) known) sd,
                λ dl e. (
                  current,
                  subst (λ (q : Deployment). proxy.contract_public_ips q.contract_id ≡ ok current)
                      (some_inj.0 e) p,
                  enough,
                ),
              )
        ]
      ]

  -- What the tests of an accepted deployment have found.
  check_deployment_ok :
      (node : ℕ) (dl : Deployment) (ips : Counts) {ips' : Counts}
      → check_deployment zos proxy old_deployments nodes node dl ips ≡ ok ips'
      → (total : ProxyCapacity) × (total_with_old zos proxy node
            (count_or_zero (count_deployment_public_ips zos dl))
            (info_of node).total
            (Maps.lookup node old_deployments)
          ≡ ok total)
        × (valid zos dl ≡ none)
        × (is_short
              (free_capacity_of total (info_of node).used)
              (or_no_capacity (deployment_capacity zos dl))
            ≡ false)
  unfolding check_deployment check_node
  check_deployment_ok node dl ips {ips'} h =
      elim (Result-cases (
        total_with_old zos proxy node (count_or_zero (count_deployment_public_ips zos dl))
          (info_of node).total (Maps.lookup node old_deployments))) [
            | inr (e, t) ↦ absurd (ground (arith, h, t))
            | inl (total, t) ↦ (total, t, ground (arith, h, t), ground (arith, h, t))
          ]

  check_deployment-Fits :
      (node : ℕ) (dl : Deployment) (ips : Counts) {ips' : Counts}
      → IsSane (node, dl)
      → check_deployment zos proxy old_deployments nodes node dl ips ≡ ok ips'
      → Fits (node, dl)
  unfolding check_deployment check_node
  check_deployment-Fits node dl ips {ips'} sane h =
      let (total, t, is_valid, enough) = check_deployment_ok node dl ips {ips' = ips'} h in
      let (m, hd, sd, old) =
        total_with_old-exact node (count_or_zero (count_deployment_public_ips zos dl))
          (info_of node).total (Maps.lookup node old_deployments) {total = total} sane.3 sane.4
          (omega (arith, sane)) t in
      let needed = or_no_capacity (deployment_capacity zos dl) in
      let info = info_of node in
      let o = old_capacity node in
      let twice : 2 * total.total_sru % 2 ^ 64 ≡ 2 * (info.total.total_sru + o.sru) =
        omega (arith, sd, sane.5) in
      (
        is_valid,
        fits_in (info.total.total_mru + o.mru) info.used.total_mru needed.mru m sane.0 sane.3
            (ground (arith, enough)),
        fits_in (info.total.total_hru + o.hru) info.used.total_hru needed.hru hd sane.1 sane.4
            (ground (arith, enough)),
        fits_in (2 * (info.total.total_sru + o.sru)) info.used.total_sru needed.sru twice sane.2
            sane.5 (ground (arith, enough)),
        old,
      )

  check_deployments-Fits :
      (dls : List (ℕ × Deployment)) (ips : Counts) {left : Counts}
      → All IsSane dls
      → check_deployments zos proxy old_deployments nodes dls ips ≡ ok left
      → All Fits dls
  unfolding check_deployments
  check_deployments-Fits [] ips sane h = tt
  check_deployments-Fits ((node, dl) ∷ dls) ips {left} sane h =
      elim (Result-cases (check_deployment zos proxy old_deployments nodes node dl ips)) [
        | inl (ips', e) ↦ (
          check_deployment-Fits node dl ips sane.0 e,
          check_deployments-Fits dls ips' {left = left} sane.1 (ground (arith, h, e)),
        )
        | inr (x, e) ↦ absurd (ground (arith, h, e))
      ]

  -- Where no node in question uses more than it has with its old deployment, twice that of the SSD,
  -- and these sums are uint64: if the loop over the new deployments accepts them, then on each farm
  -- the public addresses that they ask for and those that are left add up to those that were
  -- available before the loop; and each deployment is valid, asks for no more public addresses than
  -- the contract of its node's old deployment has, and needs no more memory and HDD than the node has
  -- with those of the old deployment, less what is in use, and no more SSD than twice that sum, less
  -- what is in use.
  pub check_deployments_sound :
      (dls : List (ℕ × Deployment)) (ips : Counts) {left : Counts}
      → All IsSane dls
      → check_deployments zos proxy old_deployments nodes dls ips ≡ ok left
      → ((farm : ℕ) → required_on zos nodes farm dls + available farm left ≡ available farm ips)
        × All Fits dls
  check_deployments_sound dls ips sane h =
      (λ farm. check_deployments_budget farm dls ips h, check_deployments-Fits dls ips sane h)
