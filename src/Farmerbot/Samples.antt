-- ===== src/Farmerbot/Samples.antt =====
-- A small farm for the tests: a chain and a daemon that answer, float64 as exact integers, and a sort.
use tfgrid_sdk_go.Prelude.{
  ℕ, ◌+◌, ◌-◌, ◌*◌, ◌/◌, ◌≤◌, ◌≡◌, refl, inl, inr, true, false, List, [], ◌∷◌, none, some, ok, ltb,
  leb, ◌==◌, arith, if◌then◌else◌, All, All-map, IsIn, here, there, Bool-cases,
}
use tfgrid_sdk_go.Prelude.Int.{ℤ, pos, negsuc}
use tfgrid_sdk_go.Farmerbot.Capacity.{Capacity}
use tfgrid_sdk_go.Farmerbot.Env.{not_found, ChainNode, Substrate, ZosCapacity, Rmb, FloatOps}
use tfgrid_sdk_go.Farmerbot.Env.Laws.{FloatLaws, AnswersById}
use tfgrid_sdk_go.Farmerbot.Node.{PowerState, on, off, rank, Node, hour}
use tfgrid_sdk_go.Farmerbot.State.{Config, State}
use tfgrid_sdk_go.Farmerbot.FindNode.{NodeFilterOption}
use tfgrid_sdk_go.Farmerbot.FindNode.Choice.{Ordered, Sorts}
use tfgrid_sdk_go.Farmerbot.Round.{World}

abbrev of_ℤ : ℤ → ℕ
of_ℤ (pos n) = n
of_ℤ (negsuc n) = 0

abbrev pub exact_floats : FloatOps
exact_floats = record {
  of_uint64 = λ n. n;
  of_int8 = of_ℤ;
  to_uint64 = λ n. n;
  float_mul = λ a b. a * b;
  float_div = λ a b. a / b;
  float_sub = λ a b. a - b;
  float_lt = ltb;
  float_eq = λ a b. a == b;
  ceil = λ a. a;
}

pub exact_floats-FloatLaws : FloatLaws exact_floats
exact_floats-FloatLaws = record {
  lt_exact = λ a b ha hb. refl;
  mul_exact = λ a b h. refl;
  int8_exact = λ a h. refl;
  ceil_exact = λ a h. refl;
  to_exact = λ a h. refl;
}

abbrev insert : Node → List Node → List Node
insert n [] = n ∷ []
insert n (m ∷ ms) =
    let rest = insert n ms in
    if leb (rank n.power_state) (rank m.power_state) then n ∷ m ∷ ms else m ∷ rest

abbrev pub sort_by_state : List Node → List Node
sort_by_state [] = []
sort_by_state (n ∷ ns) = insert n (sort_by_state ns)

insert-IsIn : (n : Node) (ms : List Node) (a : Node) → IsIn a (insert n ms) → IsIn a (n ∷ ms)
insert-IsIn n [] a i = i
insert-IsIn n (m ∷ ms) a i = elim (Bool-cases (leb (rank n.power_state) (rank m.power_state))) [
  | inl e ↦ rw e at i
  | inr e ↦ elim (rw e at i) [
    | here h ↦ there (here h)
    | there j ↦ elim (insert-IsIn n ms a j) [ here h ↦ here h | there k ↦ there (there k) ]
  ]
]

IsIn-insert : (n : Node) (ms : List Node) (a : Node) → IsIn a (n ∷ ms) → IsIn a (insert n ms)
IsIn-insert n [] a i = i
IsIn-insert n (m ∷ ms) a i = elim (Bool-cases (leb (rank n.power_state) (rank m.power_state))) [
  | inl e ↦ rw e i
  | inr e ↦ rw e (elim i [
    | here h ↦ there (IsIn-insert n ms a (here h))
    | there j ↦ elim j [ here h ↦ here h | there k ↦ there (IsIn-insert n ms a (there k)) ]
  ])
]

All-insert : (P : Node → Type 0) (n : Node) (ms : List Node) → P n → All P ms → All P (insert n ms)
All-insert P n [] h a = (h, tt)
All-insert P n (m ∷ ms) h a = elim (Bool-cases (leb (rank n.power_state) (rank m.power_state))) [
  | inl e ↦ rw e (h, a)
  | inr e ↦ rw e (a.0, All-insert P n ms h a.1)
]

insert-Ordered : (n : Node) (ms : List Node) → Ordered ms → Ordered (insert n ms)
insert-Ordered n [] o = (tt, tt)
insert-Ordered n (m ∷ ms) o = elim (Bool-cases (leb (rank n.power_state) (rank m.power_state))) [
  | inl e ↦ rw e ((le e, All-map ms (λ k h. omega (arith, le e)) o.0), o)
  | inr e ↦ rw e (
    All-insert (λ k. rank m.power_state ≤ rank k.power_state) n ms (ground (arith, e)) o.0,
    insert-Ordered n ms o.1,
  )
]
  where
    le :
        leb (rank n.power_state) (rank m.power_state) ≡ true
        → rank n.power_state ≤ rank m.power_state
    le e = ground (arith, e)

sort-IsIn : (ns : List Node) (a : Node) → IsIn a (sort_by_state ns) → IsIn a ns
sort-IsIn [] a i = i
sort-IsIn (n ∷ ns) a i = elim (insert-IsIn n (sort_by_state ns) a i) [
  | here h ↦ here h
  | there j ↦ there (sort-IsIn ns a j)
]

IsIn-sort : (ns : List Node) (a : Node) → IsIn a ns → IsIn a (sort_by_state ns)
IsIn-sort [] a i = i
IsIn-sort (n ∷ ns) a (here h) = IsIn-insert n (sort_by_state ns) a (here h)
IsIn-sort (n ∷ ns) a (there i) = IsIn-insert n (sort_by_state ns) a (there (IsIn-sort ns a i))

sort-Ordered : (ns : List Node) → Ordered (sort_by_state ns)
sort-Ordered [] = tt
sort-Ordered (n ∷ ns) = insert-Ordered n (sort_by_state ns) (sort-Ordered ns)

pub sort_by_state-Sorts : Sorts sort_by_state
sort_by_state-Sorts = record { kept = sort-IsIn; all_there = IsIn-sort; ordered = sort-Ordered }

abbrev chain_node : ℕ → ChainNode
chain_node k = record {
  id = k;
  twin_id = k + 100;
  chain_hru = 4000;
  chain_sru = 1000;
  chain_cru = 8;
  chain_mru = 16;
  is_certified = true;
  has_public_config = false;
}

-- A chain that accepts every call and reports every node up.
abbrev pub calm_chain : Substrate
calm_chain = record {
  get_farm =
      λ k. ok (record { farm_id = k; farm_twin_id = 7; dedicated_farm = false; public_ips = 5 });
  get_nodes = λ k. ok (1 ∷ 2 ∷ 3 ∷ []);
  get_chain_node = λ k. ok (chain_node k);
  get_dedicated_node_price = λ k. ok 0;
  get_node_rent_contract = λ k. (0, some not_found);
  get_node_contracts = λ k. ok [];
  get_power_target = λ cs k. ok (record {
    state_is_up = true;
    state_is_down = false;
    target_is_up = true;
    target_is_down = false;
  });
  set_node_power_target = λ cs k up. none;
}

pub calm_chain-AnswersById : AnswersById calm_chain
calm_chain-AnswersById = record { chain_id = λ k c e. cc }

abbrev zos_capacity : ℕ → ZosCapacity
zos_capacity k = record { cru = k; sru = k; hru = k; mru = k; ipv4u = 0 }

abbrev pub calm_rmb : Rmb
calm_rmb = record {
  statistics =
      λ k. ok (record { total = zos_capacity 8; used = zos_capacity 1; system = zos_capacity 1 });
  get_storage_pools = λ k. ok [];
  list_gpus = λ k. ok [];
}

abbrev pub capacity : ℕ → ℕ → ℕ → ℕ → Capacity
capacity h s c m = record { hru = h; sru = s; cru = c; mru = m }

-- A node with nothing but the system's own use, which changed its state at the time 0.
abbrev pub sample_node : ℕ → PowerState → Node
sample_node k s = record {
  chain = chain_node k;
  resources = record {
    total = capacity 4000 1000 8 16;
    used = capacity 0 100 0 2;
    system = capacity 0 100 0 2;
  };
  public_ips_used = 0;
  pools = [];
  gpus = [];
  has_active_rent_contract = false;
  has_active_contracts = false;
  dedicated = false;
  never_shut_down = false;
  power_state = s;
  timeout_claimed_resources = 0;
  last_time_power_state_changed = 0;
  last_time_awake = 0;
  times_random_wake_ups = 0;
  last_time_periodic_wake_up = 0;
}

abbrev pub sample_config : Config
sample_config = record {
  config_farm_id = 1;
  included_nodes = [];
  excluded_nodes = [];
  priority_nodes = 3 ∷ 9 ∷ [];
  never_shut_down_nodes = [];
  power = record {
    wake_up_threshold = record {
      cru_threshold = 70;
      sru_threshold = 90;
      mru_threshold = 0;
      hru_threshold = 10;
    };
    periodic_wake_up_start = 8 * hour;
    periodic_wake_up_limit = 1;
    over_provision_cpu = pos 2;
  };
  continue_on_powering_on_err = false;
}

-- Two nodes that are on and one that is off.
abbrev pub sample_state : State
sample_state = record {
  farm = record { farm_id = 1; farm_twin_id = 7; dedicated_farm = false; public_ips = 5 };
  nodes = sample_node 1 on ∷ sample_node 2 on ∷ sample_node 3 off ∷ [];
  config = sample_config;
  calls = [];
}

-- A farm with nothing but a node that is off.
abbrev pub asleep_state : State
asleep_state = record sample_state { nodes = sample_node 3 off ∷ [] }

abbrev pub sample_options : NodeFilterOption
sample_options = record {
  nodes_excluded = 1 ∷ [];
  num_gpu = 0;
  gpu_vendors = [];
  gpu_devices = [];
  certified = true;
  want_dedicated = false;
  public_config = false;
  public_ips = 1;
  hru = 0;
  sru = 0;
  cru = 4;
  mru = 0;
}

-- Two hours after the time 0.
abbrev pub sample_now : ℕ
sample_now = 2 * hour

-- Every node is heard of at the time 0, and every draw is 0.
abbrev pub sample_world : World
sample_world = record { updated_at = λ k. some 0; random = λ k. 0; day_of_month = λ t. 2 }
