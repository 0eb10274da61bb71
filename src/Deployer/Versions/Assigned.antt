-- ===== src/Deployer/Versions/Assigned.antt =====
-- The versions that an update gives to a deployment and its workloads (`matchOldVersions` and
-- `assignVersions` of grid-client/deployer/deployer.go).
use tfgrid_sdk_go.Prelude.{
  ℕ, ◌+◌, ◌^◌, ◌≤◌, ◌<◌, ◌≡◌, refl, sym, ◌∙◌, subst, ap, ◌⊎◌, inl, inr, true, List, [], some, map,
  ok, ok_inj, Result-cases, arith, All, All-map, All-zip, All-of_map, map-map, Bool-cases,
  if◌then◌else◌,
}
use tfgrid_sdk_go.Prelude.Maps
use tfgrid_sdk_go.Deployer.Zos.{
  ZosPackages, Workload, Deployment, construct_versions, hash_workloads, get_workload_hashes,
}
use tfgrid_sdk_go.Deployer.Versions.{
  or_zero, match_workload, match_old_versions, is_changed, assign_workload, next_version,
  assign_versions,
}
use tfgrid_sdk_go.Deployer.Versions.Named.{
  construct_versions-has, construct_versions-le, construct_versions-All, IsBy,
}

-- A workload that the node is to leave alone: the old deployment has one of its name with its version
-- and its hash.
abbrev pub IsUntouched : List (ℕ × ℕ) → List (ℕ × ℕ) → List (ℕ × ℕ) → Workload → Type 0
IsUntouched old_versions old_hashes new_hashes w =
    (Maps.lookup w.name old_versions ≡ some w.wl_version)
    × (Maps.has w.name old_hashes ≡ true)
    × (Maps.lookup w.name new_hashes ≡ Maps.lookup w.name old_hashes)

-- No workload has a version above that of the deployment.
abbrev pub IsVersioned : Deployment → Type 0
IsVersioned dl = All (λ w. w.wl_version ≤ dl.version) dl.workloads

module _ (zos : ZosPackages) (old_dl new_dl : Deployment) where
  -- What `assignVersions` makes of a workload after `matchOldVersions`.
  abbrev assigned : List (ℕ × ℕ) → List (ℕ × ℕ) → Workload → Workload
  assigned old_hashes new_hashes w =
      assign_workload (next_version old_dl.version) old_hashes new_hashes
        (match_workload (construct_versions old_dl.workloads []) w)

  abbrev assigned_by : List (ℕ × ℕ) → List (ℕ × ℕ) → ℕ → ℕ
  assigned_by old_hashes new_hashes name =
      if is_changed (Maps.lookup name new_hashes) (Maps.lookup name old_hashes)
      then next_version old_dl.version
      else or_zero (Maps.lookup name (construct_versions old_dl.workloads []))

  abbrev pub Assigned : List (ℕ × ℕ) → Deployment → Type 0
  Assigned versions dl =
      (old_hashes : List (ℕ × ℕ)) × (new_hashes : List (ℕ × ℕ)) × (get_workload_hashes zos old_dl
        ≡ ok old_hashes)
      × (get_workload_hashes zos (match_old_versions old_dl new_dl) ≡ ok new_hashes)
      × (dl.version ≡ next_version old_dl.version)
      × All
          (λ w.
            (w.wl_version ≡ dl.version)
            ⊎ IsUntouched (construct_versions old_dl.workloads []) old_hashes new_hashes w)
          dl.workloads
      × All (λ w. Maps.lookup w.name versions ≡ some w.wl_version) dl.workloads

  assigned-IsBy :
      (old_hashes new_hashes : List (ℕ × ℕ)) (w : Workload)
      → IsBy (assigned_by old_hashes new_hashes) (assigned old_hashes new_hashes w)
  unfolding assign_workload match_workload
  assigned-IsBy old_hashes new_hashes w = ground arith

  assigned_or_IsUntouched :
      (old_hashes new_hashes : List (ℕ × ℕ)) (w : Workload)
      → hash_workloads zos old_dl.workloads [] ≡ ok old_hashes
      → ((assigned old_hashes new_hashes w).wl_version ≡ next_version old_dl.version)
        ⊎ IsUntouched
            (construct_versions old_dl.workloads [])
            old_hashes
            new_hashes
            (assigned old_hashes new_hashes w)
  unfolding assign_workload match_workload Maps.has
  assigned_or_IsUntouched old_hashes new_hashes w hashed =
      elim (Bool-cases
        (is_changed (Maps.lookup w.name new_hashes) (Maps.lookup w.name old_hashes))) [
          | inl changed ↦ inl (ground (arith, changed))
          | inr same ↦ inr (
              rw same (
                ground (
                  arith,
                  same,
                  construct_versions-has zos w.name old_dl.workloads [] [] hashed refl,
                ),
                ground (arith, same),
                ground (arith, same),
              ))
        ]

  assigned-Assigned :
      (old_hashes new_hashes : List (ℕ × ℕ))
      → get_workload_hashes zos old_dl ≡ ok old_hashes
      → get_workload_hashes zos (match_old_versions old_dl new_dl) ≡ ok new_hashes
      → let ws = map (assigned old_hashes new_hashes) new_dl.workloads in
        Assigned
          (construct_versions ws [])
          (record new_dl { version = next_version old_dl.version; workloads = ws })
  unfolding get_workload_hashes
  assigned-Assigned old_hashes new_hashes h0 h1 = (
    old_hashes,
    new_hashes,
    h0,
    h1,
    refl,
    All-of_map _ (assigned old_hashes new_hashes) new_dl.workloads
        (λ w. assigned_or_IsUntouched old_hashes new_hashes w h0),
    All-zip _ (λ w by found. found ∙ ap some (sym by)) by_name
        (construct_versions-All (assigned_by old_hashes new_hashes) _ [] by_name),
  )
    where
      by_name :
          All
            (IsBy (assigned_by old_hashes new_hashes))
            (map (assigned old_hashes new_hashes) new_dl.workloads)
      by_name =
          All-of_map _ (assigned old_hashes new_hashes) new_dl.workloads
            (assigned-IsBy old_hashes new_hashes)

  computed :
      (old_hashes new_hashes : List (ℕ × ℕ))
      → get_workload_hashes zos old_dl ≡ ok old_hashes
      → get_workload_hashes zos (match_old_versions old_dl new_dl) ≡ ok new_hashes
      → let ws = map (assigned old_hashes new_hashes) new_dl.workloads in
        assign_versions zos old_dl (match_old_versions old_dl new_dl)
        ≡ ok (
          construct_versions ws [],
          record new_dl { version = next_version old_dl.version; workloads = ws },
        )
  unfolding assign_versions match_old_versions
  computed old_hashes new_hashes h0 h1 =
      rw (h0, h1)
        (ap
          (λ ws. ok (
            construct_versions ws [],
            record new_dl { version = next_version old_dl.version; workloads = ws },
          ))
          (map-map (assign_workload (next_version old_dl.version) old_hashes new_hashes)
            (match_workload (construct_versions old_dl.workloads [])) new_dl.workloads))

  -- If the versions of an update are assigned: the deployment has the next version; each of its
  -- workloads has that version, or has the version and the hash of the workload of its name in the
  -- old deployment; and the map to wait for has, for each workload, the version it was given.
  pub assign_versions-Assigned :
      {versions : List (ℕ × ℕ)} {dl : Deployment}
      → assign_versions zos old_dl (match_old_versions old_dl new_dl) ≡ ok (versions, dl)
      → Assigned versions dl
  unfolding assign_versions
  assign_versions-Assigned {versions} {dl} h =
      elim (Result-cases (get_workload_hashes zos old_dl)) [
        | inr (e, bad) ↦ absurd (ground (arith, h, bad))
        | inl (old_hashes, h0) ↦
            elim (Result-cases (get_workload_hashes zos (match_old_versions old_dl new_dl))) [
              | inr (e, bad) ↦ absurd (ground (arith, h, h0, bad))
              | inl (new_hashes, h1) ↦
                  subst (λ p. Assigned p.0 p.1)
                    (ok_inj (sym (computed old_hashes new_hashes h0 h1) ∙ h))
                    (assigned-Assigned old_hashes new_hashes h0 h1)
            ]
      ]

  -- Where no workload of the old deployment has a version above the deployment's, and that version
  -- can still grow, the same holds of the updated deployment, and its version is the next number.
  pub assign_versions-IsVersioned :
      {versions : List (ℕ × ℕ)} {dl : Deployment}
      → assign_versions zos old_dl (match_old_versions old_dl new_dl) ≡ ok (versions, dl)
      → IsVersioned old_dl
      → old_dl.version + 1 < 2 ^ 32
      → IsVersioned dl × (dl.version ≡ old_dl.version + 1)
  unfolding Maps.lookup
  assign_versions-IsVersioned {versions} {dl} h versioned small =
      let (old_hashes, new_hashes, h0, h1, next, each, found) = assign_versions-Assigned h in
      let same : dl.version ≡ old_dl.version + 1 = next ∙ ground (arith, small) in
      (All-map dl.workloads (λ w. bounded old_hashes new_hashes w same) each, same)
    where
      bounded :
          (old_hashes new_hashes : List (ℕ × ℕ)) (w : Workload)
          → dl.version ≡ old_dl.version + 1
          → ((w.wl_version ≡ dl.version)
              ⊎ IsUntouched (construct_versions old_dl.workloads []) old_hashes new_hashes w)
          → w.wl_version ≤ dl.version
      bounded oh nh w same (inl new) = ground (arith, new)
      bounded oh nh w same (inr (kept, _, _)) = ground (
        arith,
        same,
        kept,
        construct_versions-le old_dl.version w.name old_dl.workloads [] versioned (omega arith),
      )
