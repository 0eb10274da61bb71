-- ===== src/NodeFilter/Tests.antt =====
-- Two nodes with pools of both kinds, from one page of a proxy; what is asked for at once comes in order.
use mathlib.Core.List.{Permᴰ}
use mathlib.Core.List.Permᴰ
use tfgrid_sdk_go.Prelude.{
  ℕ, ◌≤◌, ◌≡◌, refl, subst, ◌⊎◌, inl, inr, true, List, [], ◌∷◌, ◌++◌, none, some, ok, leb, ltb,
  if◌then◌else◌, All, All-map, IsIn, here, there, Bool-cases, arith,
}
use tfgrid_sdk_go.NodeFilter.{
  FilterOptions, ProxyNode, FilterEnv, Disks, pools_fit, node_fits, get_nodes, pages_from,
  page_rounds, sent_pages, some_failed, collect, page_results, filter_rounds, with_defaults,
  filter_nodes,
}
use tfgrid_sdk_go.NodeFilter.PublicNode.{
  forced_nodes, prefer, first_public, public_options, no_disks, get_public_node,
}
use tfgrid_sdk_go.NodeFilter.Pools.{
  ssd_device, hdd_device, DevicePool, free_space, pools_of, has_enough_storage, provision_all,
}
use tfgrid_sdk_go.NodeFilter.Storage.{
  IsSane, Leads, SortsPools, Decided, has_enough_storage-Decided,
}
use tfgrid_sdk_go.NodeFilter.Found.{FilterLaws, HasCount, IsFound, filter_nodes-IsFound}
use tfgrid_sdk_go.NodeFilter.Public.{IsChosen, IsForced, get_public_node-IsChosen}

-- The best pool first; the order of the others does not matter.
abbrev best_of : DevicePool → List DevicePool → List DevicePool
best_of p [] = p ∷ []
best_of p (q ∷ qs) = if leb (free_space q) (free_space p) then p ∷ q ∷ qs else q ∷ p ∷ qs

abbrev best_first : List DevicePool → List DevicePool
best_first [] = []
best_first (p ∷ ps) = best_of p (best_first ps)

best_of-Perm : (p : DevicePool) (qs : List DevicePool) → Permᴰ (p ∷ qs) (best_of p qs)
best_of-Perm p [] = Permᴰ.refl (p ∷ [])
best_of-Perm p (q ∷ qs) = elim (Bool-cases (leb (free_space q) (free_space p))) [
  | inl e ↦ rw e (Permᴰ.refl (p ∷ q ∷ qs))
  | inr e ↦ rw e (Permᴰ.swap refl refl)
]

best_first-Perm : (ps : List DevicePool) → Permᴰ ps (best_first ps)
best_first-Perm [] = Permᴰ.nil
best_first-Perm (p ∷ ps) =
    Permᴰ.trans (Permᴰ.cons refl (best_first-Perm ps)) (best_of-Perm p (best_first ps))

best_of-Leads : (p : DevicePool) (qs : List DevicePool) → Leads qs → Leads (best_of p qs)
best_of-Leads p [] h = tt
best_of-Leads p (q ∷ qs) h = elim (Bool-cases (leb (free_space q) (free_space p))) [
  | inl e ↦
      let le : free_space q ≤ free_space p = ground (arith, e) in
      rw e (le, All-map qs (λ k l. omega (arith, l, le)) h)
  | inr e ↦ rw e (ground (arith, e), h)
]

best_first-Leads : (ps : List DevicePool) → Leads (best_first ps)
best_first-Leads [] = tt
best_first-Leads (p ∷ ps) = best_of-Leads p (best_first ps) (best_first-Leads ps)

best_first-SortsPools : SortsPools best_first
best_first-SortsPools = record { same = best_first-Perm; leads = best_first-Leads }

abbrev test_pools : List DevicePool
test_pools =
    record { name = 1; device = ssd_device; size = 100; used = 20 }
    ∷ record { name = 2; device = hdd_device; size = 500; used = 0 }
    ∷ record { name = 3; device = ssd_device; size = 90; used = 0 }
    ∷ []

test_pools-IsSane : All IsSane test_pools
test_pools-IsSane =
    ((omega arith, omega arith), ((omega arith, omega arith), ((omega arith, omega arith), tt)))

has_enough_storage-Decided_example :
    Decided
      (has_enough_storage best_first test_pools (60 ∷ 70 ∷ []) ssd_device)
      (pools_of ssd_device test_pools)
      (60 ∷ 70 ∷ [])
has_enough_storage-Decided_example =
    has_enough_storage-Decided best_first best_first-SortsPools test_pools (60 ∷ 70 ∷ []) ssd_device
      test_pools-IsSane

abbrev flatten : List (List ProxyNode) → List ProxyNode
flatten [] = []
flatten (xs ∷ xss) = xs ++ flatten xss

IsIn-either : (xs ys : List ProxyNode) (n : ProxyNode) → IsIn n (xs ++ ys) → IsIn n xs ⊎ IsIn n ys
IsIn-either [] ys n i = inr i
IsIn-either (x ∷ xs) ys n (here e) = inl (here e)
IsIn-either (x ∷ xs) ys n (there i) = elim (IsIn-either xs ys n i) [
  | inl j ↦ inl (there j)
  | inr j ↦ inr j
]

IsIn-flatten :
    (xss : List (List ProxyNode)) (n : ProxyNode)
    → IsIn n (flatten xss)
    → (xs : List ProxyNode) × IsIn xs xss × IsIn n xs
IsIn-flatten [] n i = elim i [ ]
IsIn-flatten (xs ∷ xss) n i = elim (IsIn-either xs (flatten xss) n i) [
  | inl j ↦ (xs, here refl, j)
  | inr j ↦ let (ys, k, l) = IsIn-flatten xss n j in (ys, there k, l)
]

abbrev proxy_node : ℕ → ProxyNode
proxy_node id = record { node_id = id; public_ipv4 = id }

-- The address of a node below 20 is private.
abbrev test_env : FilterEnv
test_env = record {
  nodes = λ o limit. ok (proxy_node 11 ∷ proxy_node 22 ∷ proxy_node 33 ∷ [], 3);
  client_error = λ id. none;
  pools = λ id. ok test_pools;
  sort_pools = best_first;
  sort_disks = λ ds. ds;
  arrive = flatten;
  pages_of = λ count size. 1;
  node_info = λ id. ok (record { info_ipv4 = id; is_up = true });
  parse_cidr = λ text. ok (ltb text 20);
}

test_env-FilterLaws : FilterLaws test_env
test_env-FilterLaws = record {
  sorts = best_first-SortsPools;
  sane =
      λ id ps e. subst (λ qs. All IsSane qs) {x = test_pools} (ground (arith, e)) test_pools-IsSane;
  arrived = IsIn-flatten;
}

abbrev test_options : FilterOptions
test_options = record {
  available_for = none;
  healthy = none;
  ipv4 = none;
  status_up = true;
  free_sru = some 130;
  free_hru = none;
  others = 0;
}

abbrev test_disks : Disks
test_disks = record { ssd = 70 ∷ 50 ∷ []; hdd = []; rootfs = 10 ∷ [] }

filter_two :
    filter_nodes test_env 1 test_options test_disks (some 2)
    ≡ ok (proxy_node 11 ∷ proxy_node 22 ∷ [])
unfolding filter_nodes filter_rounds page_rounds pages_from page_results get_nodes node_fits
    pools_fit has_enough_storage provision_all sent_pages some_failed collect
filter_two = refl

filter_nodes-IsFound_example :
    All
      (IsFound test_env
        record { options = with_defaults 1 test_options; disks = test_disks; limit_size = some 2 })
      (proxy_node 11 ∷ proxy_node 22 ∷ [])
    × HasCount (some 2) 2
filter_nodes-IsFound_example =
    filter_nodes-IsFound test_env test_env-FilterLaws 1 test_options test_disks (some 2) filter_two

public_node : get_public_node test_env 1 (33 ∷ 44 ∷ []) ≡ ok 33
unfolding get_public_node filter_nodes filter_rounds page_rounds pages_from page_results get_nodes
    sent_pages some_failed collect forced_nodes prefer first_public
public_node = refl

-- Only node 44 has an address that is not private, but what comes back is 0.
added_node :
    get_public_node (record test_env { parse_cidr = λ text. ok (ltb text 40) }) 1 (44 ∷ []) ≡ ok 0
unfolding get_public_node filter_nodes filter_rounds page_rounds pages_from page_results get_nodes
    sent_pages some_failed collect forced_nodes prefer first_public
added_node = refl

get_public_node-IsChosen_example :
    (nodes : List ProxyNode) × (n : ProxyNode) × (filter_nodes test_env 1 public_options no_disks
        none
      ≡ ok nodes)
    × (IsIn n nodes ⊎ IsForced (33 ∷ 44 ∷ []) test_env nodes (33 ∷ 44 ∷ []) n)
    × IsChosen (33 ∷ 44 ∷ []) test_env (nodes ++ forced_nodes test_env nodes (33 ∷ 44 ∷ [])) 33 n
get_public_node-IsChosen_example = get_public_node-IsChosen (33 ∷ 44 ∷ []) test_env 1 public_node
