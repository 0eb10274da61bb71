-- ===== src/Deployer/Zos.antt =====
-- Deployments and workloads: grid-client/zos/deployment.go, workload.go, types.go and capacity.go,
-- with the helpers of grid-client/deployer/deployment_utils.go. Texts that are only compared, and
-- hashes, are numbers. The packages zos and zos4, which check, sign and hash, are parameters.
use tfgrid_sdk_go.Prelude.{
  ℕ, ◌+◌, ◌%◌, ◌^◌, Bool, true, false, ◌||◌, not, List, [], ◌∷◌, ◌++◌, Option, Result, ok, ◌>>=◌,
  ◌==◌, length, if◌then◌else◌,
}
use tfgrid_sdk_go.Prelude.Maps

-- The workload types that are told apart.
pub data WorkloadType : Type 0 where
  public_ip : WorkloadType
  network_light : WorkloadType
  zmachine_light : WorkloadType
  gateway_fqdn_proxy : WorkloadType
  gateway_name_proxy : WorkloadType
  other_type : ℕ → WorkloadType

pub data ResultState : Type 0 where
  state_init : ResultState
  state_unchanged : ResultState
  state_error : ResultState
  state_ok : ResultState
  state_deleted : ResultState
  state_paused : ResultState

-- `body` is the data, the metadata and the description, which are only handed on.
pub record Workload : Type 0 where
  pub wl_version : ℕ
  pub name : ℕ
  pub wl_type : WorkloadType
  pub body : ℕ
  pub result_state : ResultState

-- `details` are the twin, the description, the expiration and what the signatures must be.
pub record Deployment : Type 0 where
  pub version : ℕ
  pub contract_id : ℕ
  pub metadata : ℕ
  pub details : ℕ
  pub signatures : List ℕ
  pub workloads : List Workload

pub record ZosCapacity : Type 0 where
  pub cru : ℕ
  pub sru : ℕ
  pub hru : ℕ
  pub mru : ℕ
  pub ipv4u : ℕ

-- What one of the packages zos and zos4 does with a deployment or a workload that was copied into its
-- types. `sign_with` gives the signatures that the copy has after signing.
pub record ZosPackage : Type 0 where
  pub valid_copy : Deployment → Option ℕ
  pub sign_with : Deployment → Result ℕ (List ℕ)
  pub challenge_hash_of : Deployment → Result ℕ ℕ
  pub challenge_of : Deployment → Result ℕ (List ℕ)
  pub workload_challenge_of : Workload → Result ℕ (List ℕ)
  pub workload_capacity_of : Workload → Result ℕ ZosCapacity

-- Both packages, the flag `V4` in the data of a public address, and the encodings of Go.
pub record ZosPackages : Type 0 where
  pub zos3 : ZosPackage
  pub zos4 : ZosPackage
  pub public_ip_v4 : Workload → Result ℕ Bool
  pub md5 : List ℕ → ℕ
  pub hex : ℕ → ℕ

unfoldable pub is_light : WorkloadType → Bool
is_light network_light = true
is_light zmachine_light = true
is_light public_ip = false
is_light gateway_fqdn_proxy = false
is_light gateway_name_proxy = false
is_light (other_type t) = false

unfoldable pub any_light : List Workload → Bool
any_light [] = false
any_light (wl ∷ wls) = is_light wl.wl_type || any_light wls

-- The package that a deployment goes through: zos4 if some workload of it is light.
unfoldable pub package_for : ZosPackages → Deployment → ZosPackage
package_for zos dl = if any_light dl.workloads then zos.zos4 else zos.zos3

-- `Valid`, `ChallengeHash` and `Challenge` of `Deployment`.
abbrev pub valid : ZosPackages → Deployment → Option ℕ
valid zos dl = (package_for zos dl).valid_copy dl

abbrev pub challenge_hash : ZosPackages → Deployment → Result ℕ ℕ
challenge_hash zos dl = (package_for zos dl).challenge_hash_of dl

abbrev pub challenge : ZosPackages → Deployment → Result ℕ (List ℕ)
challenge zos dl = (package_for zos dl).challenge_of dl

-- `copySignature` appends the signatures of the signed copy to those of the deployment.
abbrev pub copy_signature : List ℕ → Deployment → Deployment
copy_signature signed dl = record dl { signatures = dl.signatures ++ signed }

unfoldable pub sign : ZosPackages → Deployment → Result ℕ Deployment
sign zos dl = do signed ← (package_for zos dl).sign_with dl; ok (copy_signature signed dl)

abbrev pub workload_challenge : ZosPackages → Workload → Result ℕ (List ℕ)
workload_challenge zos wl =
    (if is_light wl.wl_type then zos.zos4 else zos.zos3).workload_challenge_of wl

abbrev pub workload_capacity : ZosPackages → Workload → Result ℕ ZosCapacity
workload_capacity zos wl =
    (if is_light wl.wl_type then zos.zos4 else zos.zos3).workload_capacity_of wl

abbrev pub is_public_ip : WorkloadType → Bool
is_public_ip public_ip = true
is_public_ip network_light = false
is_public_ip zmachine_light = false
is_public_ip gateway_fqdn_proxy = false
is_public_ip gateway_name_proxy = false
is_public_ip (other_type t) = false

-- The loop of `CountDeploymentPublicIPs`, from the count `res`, a uint32.
unfoldable pub count_public_ips : ZosPackages → List Workload → ℕ → Result ℕ ℕ
count_public_ips zos [] res = ok res
count_public_ips zos (wl ∷ wls) res =
    let counted = count_public_ips zos wls ((res + 1) % 2 ^ 32) in
    let skipped = count_public_ips zos wls res in
    if is_public_ip wl.wl_type
    then (zos.public_ip_v4 wl >>= λ v4. if v4 then counted else skipped)
    else skipped

unfoldable pub count_deployment_public_ips : ZosPackages → Deployment → Result ℕ ℕ
count_deployment_public_ips zos dl = count_public_ips zos dl.workloads 0

-- `HashDeployment`
unfoldable pub hash_deployment : ZosPackages → Deployment → Result ℕ ℕ
hash_deployment zos dl = do written ← challenge zos dl; ok (zos.md5 written)

-- The loop of `GetWorkloadHashes`, with the hashes so far.
unfoldable pub hash_workloads : ZosPackages → List Workload → List (ℕ × ℕ) → Result ℕ (List (ℕ × ℕ))
hash_workloads zos [] hashes = ok hashes
hash_workloads zos (w ∷ ws) hashes = do
  written ← workload_challenge zos w
  hash_workloads zos ws (Maps.insert w.name (zos.md5 written) hashes)

unfoldable pub get_workload_hashes : ZosPackages → Deployment → Result ℕ (List (ℕ × ℕ))
get_workload_hashes zos dl = hash_workloads zos dl.workloads []

unfoldable pub names_of : List Workload → List (ℕ × Bool) → List (ℕ × Bool)
names_of [] names = names
names_of (w ∷ ws) names = names_of ws (Maps.insert w.name true names)

unfoldable pub all_named : List (ℕ × Bool) → List Workload → Bool
all_named names [] = true
all_named names (w ∷ ws) =
    let rest = all_named names ws in if not (Maps.has w.name names) then false else rest

-- `SameWorkloadsNames`
unfoldable pub same_workloads_names : Deployment → Deployment → Bool
same_workloads_names d1 d2 =
    if not (length d1.workloads == length d2.workloads)
    then false
    else all_named (names_of d1.workloads []) d2.workloads

-- The map from the workloads' names to their versions: the loops of `ConstructWorkloadVersions` and
-- of `matchOldVersions`.
unfoldable pub construct_versions : List Workload → List (ℕ × ℕ) → List (ℕ × ℕ)
construct_versions [] versions = versions
construct_versions (w ∷ ws) versions =
    construct_versions ws (Maps.insert w.name w.wl_version versions)

abbrev type_eq : WorkloadType → WorkloadType → Bool
type_eq public_ip public_ip = true
type_eq network_light network_light = true
type_eq zmachine_light zmachine_light = true
type_eq gateway_fqdn_proxy gateway_fqdn_proxy = true
type_eq gateway_name_proxy gateway_name_proxy = true
type_eq (other_type s) (other_type t) = s == t
type_eq s t = false

-- `HasWorkload`
unfoldable pub has_workload : List Workload → WorkloadType → Bool
has_workload [] t = false
has_workload (wl ∷ wls) t =
    let rest = has_workload wls t in if type_eq wl.wl_type t then true else rest

abbrev pub u64_add : ℕ → ℕ → ℕ
u64_add a b = (a + b) % 2 ^ 64

-- `Add` of `Capacity`
unfoldable pub add_zos_capacity : ZosCapacity → ZosCapacity → ZosCapacity
add_zos_capacity c o = record {
  cru = u64_add c.cru o.cru;
  sru = u64_add c.sru o.sru;
  hru = u64_add c.hru o.hru;
  mru = u64_add c.mru o.mru;
  ipv4u = u64_add c.ipv4u o.ipv4u;
}

abbrev pub no_capacity : ZosCapacity
no_capacity = record { cru = 0; sru = 0; hru = 0; mru = 0; ipv4u = 0 }

-- The loop of `Capacity` in deployment_utils.go.
unfoldable pub sum_capacity : ZosPackages → List Workload → ZosCapacity → Result ℕ ZosCapacity
sum_capacity zos [] cap = ok cap
sum_capacity zos (wl ∷ wls) cap = do
  wl_cap ← workload_capacity zos wl
  sum_capacity zos wls (add_zos_capacity cap wl_cap)

unfoldable pub deployment_capacity : ZosPackages → Deployment → Result ℕ ZosCapacity
deployment_capacity zos dl = sum_capacity zos dl.workloads no_capacity
