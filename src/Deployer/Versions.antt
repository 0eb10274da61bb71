-- ===== src/Deployer/Versions.antt =====
-- The versions of an update: `matchOldVersions` and `assignVersions` of
-- grid-client/deployer/deployer.go.
pub mod Named
pub mod Assigned
use tfgrid_sdk_go.Prelude.{
  ℕ, ◌+◌, ◌%◌, ◌^◌, Bool, true, false, not, List, [], ◌∷◌, Option, none, some, map, Result, ok, err,
  ◌>>=◌, ◌==◌, if◌then◌else◌,
}
use tfgrid_sdk_go.Prelude.Maps
use tfgrid_sdk_go.Deployer.Zos.{
  ZosPackages, Workload, Deployment, construct_versions, get_workload_hashes,
}

-- A missing key reads as 0 in Go.
abbrev pub or_zero : Option ℕ → ℕ
or_zero none = 0
or_zero (some n) = n

unfoldable pub match_workload : List (ℕ × ℕ) → Workload → Workload
match_workload versions wl = record wl { wl_version = or_zero (Maps.lookup wl.name versions) }

-- `matchOldVersions`
unfoldable pub match_old_versions : Deployment → Deployment → Deployment
match_old_versions old_dl new_dl = record new_dl {
  version = old_dl.version;
  workloads = map (match_workload (construct_versions old_dl.workloads [])) new_dl.workloads;
}

-- A workload that is new or has another hash takes the version of the deployment. A hash that is
-- missing in `new_hashes` reads as the empty text, which is no hash.
abbrev pub is_changed : Option ℕ → Option ℕ → Bool
is_changed new_hash none = true
is_changed none (some old_hash) = true
is_changed (some new_hash) (some old_hash) = not (new_hash == old_hash)

unfoldable pub assign_workload : ℕ → List (ℕ × ℕ) → List (ℕ × ℕ) → Workload → Workload
assign_workload version old_hashes new_hashes w =
    if is_changed (Maps.lookup w.name new_hashes) (Maps.lookup w.name old_hashes)
    then record w { wl_version = version }
    else w

abbrev pub next_version : ℕ → ℕ
next_version version = (version + 1) % 2 ^ 32

-- `assignVersions`, with the map of versions to wait for beside the deployment.
unfoldable pub assign_versions :
    ZosPackages → Deployment → Deployment → Result ℕ (List (ℕ × ℕ) × Deployment)
assign_versions zos old_dl new_dl = do
  old_hashes ← get_workload_hashes zos old_dl
  new_hashes ← get_workload_hashes zos new_dl
  let version = next_version old_dl.version
  let assigned = map (assign_workload version old_hashes new_hashes) new_dl.workloads
  ok (construct_versions assigned [], record new_dl { version = version; workloads = assigned })
