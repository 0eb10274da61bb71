-- ===== src/Deployer/Samples.antt =====
-- A chain and nodes that accept everything, with a small deployment.
use tfgrid_sdk_go.Prelude.{ℕ, ◌+◌, true, List, [], ◌∷◌, none, some, ok, ◌==◌, if◌then◌else◌}
use tfgrid_sdk_go.Deployer.Zos.{
  public_ip, other_type, state_ok, Workload, Deployment, ZosCapacity, ZosPackage, ZosPackages,
}
use tfgrid_sdk_go.Deployer.World.{other_error, Attempt, Grid}
use tfgrid_sdk_go.Deployer.Validate.{NodeInfo, Proxy}
use tfgrid_sdk_go.Deployer.Revert.{Order}
use tfgrid_sdk_go.Deployer.Batch.{BatchGrid}

abbrev pub one_gigabyte : ZosCapacity
one_gigabyte = record { cru = 1; sru = 10; hru = 0; mru = 1; ipv4u = 0 }

-- The hash of a workload is its data, and that of a deployment its metadata.
abbrev pub plain_package : ZosPackage
plain_package = record {
  valid_copy = λ dl. none;
  sign_with = λ dl. ok (7 ∷ []);
  challenge_hash_of = λ dl. ok dl.metadata;
  challenge_of = λ dl. ok (dl.metadata ∷ []);
  workload_challenge_of = λ w. ok (w.body ∷ []);
  workload_capacity_of = λ w. ok one_gigabyte;
}

abbrev pub first_or_zero : List ℕ → ℕ
first_or_zero [] = 0
first_or_zero (x ∷ xs) = x

abbrev pub plain_zos : ZosPackages
plain_zos = record {
  zos3 = plain_package;
  zos4 = plain_package;
  public_ip_v4 = λ w. ok true;
  md5 = first_or_zero;
  hex = λ h. h;
}

abbrev pub machine : ℕ → ℕ → Workload
machine version body = record {
  wl_version = version;
  name = 1;
  wl_type = other_type 0;
  body = body;
  result_state = state_ok;
}

abbrev pub address : ℕ → Workload
address version = record {
  wl_version = version;
  name = 2;
  wl_type = public_ip;
  body = 5;
  result_state = state_ok;
}

abbrev pub small_deployment : ℕ → ℕ → List Workload → Deployment
small_deployment version metadata workloads = record {
  version = version;
  contract_id = 0;
  metadata = metadata;
  details = 0;
  signatures = [];
  workloads = workloads;
}

-- The nodes show the machine and the address, both good, at the first attempt.
abbrev pub good_attempt : ℕ → Attempt
good_attempt version = record {
  time = 1000;
  changes = ok (machine version 3 ∷ address version ∷ []);
}

abbrev pub willing_grid : Grid
willing_grid = record {
  get_node_client = λ log node. none;
  deployment_get = λ log node id. ok (small_deployment 0 8 (machine 0 3 ∷ address 0 ∷ []));
  create_node_contract = λ log node metadata hash ips provider. ok (100 + node);
  update_node_contract = λ log id metadata hash. ok id;
  ensure_contract_canceled = λ log id. none;
  deployment_deploy = λ log node dl. none;
  deployment_update = λ log node dl. none;
  wait_start = λ log node id. 0;
  attempts = λ log node id. good_attempt 0 ∷ [];
}

-- The nodes refuse new deployments, and the chain does not cancel their contracts.
abbrev pub refusing_grid : Grid
refusing_grid = record willing_grid {
  deployment_deploy = λ log node dl. some (other_error 1);
  ensure_contract_canceled = λ log id. some (other_error 2);
}

abbrev pub plain_node : NodeInfo
plain_node = record {
  farm_id = 1;
  total = record { total_cru = 8; total_sru = 1000; total_hru = 0; total_mru = 64 };
  used = record { total_cru = 0; total_sru = 100; total_hru = 0; total_mru = 32 };
  has_ipv4 = true;
  has_domain = true;
}

abbrev pub read_nodes : List (ℕ × NodeInfo)
read_nodes = (4, plain_node) ∷ []

abbrev pub plain_proxy : Proxy
plain_proxy = record {
  node_info = λ node. ok plain_node;
  farms = λ farm. ok ((0 ∷ 0 ∷ 9 ∷ []) ∷ []);
  contract_public_ips = λ id. ok 1;
}

abbrev pub plain_order : Order
plain_order = record { contracts = λ m. m; deployments = λ m. m }

abbrev pub two_workloads : Deployment
two_workloads = small_deployment 0 8 (machine 0 3 ∷ address 0 ∷ [])

-- Two contracts are made; the second deployment is refused.
abbrev pub batch_grid : BatchGrid
batch_grid = record {
  client_first = λ node. none;
  client_again = λ node. none;
  create_contracts =
      λ data'. record { contracts = 501 ∷ 502 ∷ []; index = none; create_error = none };
  send = λ node dl. if dl.contract_id == 502 then some (other_error 3) else none;
  wait_attempts = λ node id. (0, good_attempt 0 ∷ []);
}
