-- ===== src/Deployer/Versions/Named.antt =====
-- The map from names to versions that grid-client/deployer/deployer.go builds in a loop.
use tfgrid_sdk_go.Prelude.{
  ℕ, ◌≤◌, ◌≡◌, ◌∙◌, ap, inl, inr, List, [], ◌∷◌, some, ok, ok_inj, Result-cases, arith, ==_refl,
  All,
}
use tfgrid_sdk_go.Prelude.Maps
use tfgrid_sdk_go.Deployer.Zos.{
  ZosPackages, Workload, construct_versions, hash_workloads, workload_challenge,
}
use tfgrid_sdk_go.Deployer.Versions.{or_zero}

-- The map of versions has the names that the map of hashes has.
pub construct_versions-has :
    (zos : ZosPackages) (k : ℕ) (ws : List Workload) (versions hashes : List (ℕ × ℕ))
    {all_hashes : List (ℕ × ℕ)}
    → hash_workloads zos ws hashes ≡ ok all_hashes
    → Maps.has k versions ≡ Maps.has k hashes
    → Maps.has k (construct_versions ws versions) ≡ Maps.has k all_hashes
unfolding construct_versions hash_workloads
construct_versions-has zos k [] versions hashes h same = same ∙ ap (Maps.has k) (ok_inj h)
construct_versions-has zos k (w ∷ ws) versions hashes {all_hashes} h same =
    elim (Result-cases (workload_challenge zos w)) [
      | inr (e, bad) ↦ absurd (ground (arith, h, bad))
      | inl (written, c) ↦
          construct_versions-has zos k ws (Maps.insert w.name w.wl_version versions)
            (Maps.insert w.name (zos.md5 written) hashes) {all_hashes = all_hashes}
            (ground (arith, h, c))
            (ground (
              arith,
              same,
              Maps.has-insert k w.name w.wl_version versions,
              Maps.has-insert k w.name (zos.md5 written) hashes,
            ))
    ]

-- The version of a name, where it depends on the name alone.
module _ (version_of : ℕ → ℕ) where
  abbrev pub IsBy : Workload → Type 0
  IsBy w = w.wl_version ≡ version_of w.name

  lookup-construct_versions :
      (k : ℕ) (ws : List Workload) (versions : List (ℕ × ℕ))
      → All IsBy ws
      → Maps.lookup k versions ≡ some (version_of k)
      → Maps.lookup k (construct_versions ws versions) ≡ some (version_of k)
  unfolding construct_versions
  lookup-construct_versions k [] versions by found = found
  lookup-construct_versions k (w ∷ ws) versions by found =
      lookup-construct_versions k ws (Maps.insert w.name w.wl_version versions) by.1
        (ground (arith, Maps.lookup-insert k w.name w.wl_version versions, by.0, found))

  pub construct_versions-All :
      (ws : List Workload) (versions : List (ℕ × ℕ))
      → All IsBy ws
      → All (λ w. Maps.lookup w.name (construct_versions ws versions) ≡ some (version_of w.name)) ws
  unfolding construct_versions
  construct_versions-All [] versions by = tt
  construct_versions-All (w ∷ ws) versions by = (
    lookup-construct_versions w.name ws (Maps.insert w.name w.wl_version versions) by.1 (
        ground
          (arith, Maps.lookup-insert w.name w.name w.wl_version versions, by.0, ==_refl w.name)),
    construct_versions-All ws (Maps.insert w.name w.wl_version versions) by.1,
  )

-- No version in the map is above a bound of the workloads' versions.
pub construct_versions-le :
    (bound k : ℕ) (ws : List Workload) (versions : List (ℕ × ℕ))
    → All (λ w. w.wl_version ≤ bound) ws
    → or_zero (Maps.lookup k versions) ≤ bound
    → or_zero (Maps.lookup k (construct_versions ws versions)) ≤ bound
unfolding construct_versions
construct_versions-le bound k [] versions all l = l
construct_versions-le bound k (w ∷ ws) versions all l =
    construct_versions-le bound k ws (Maps.insert w.name w.wl_version versions) all.1
      (ground (arith, Maps.lookup-insert k w.name w.wl_version versions, all.0, l))
