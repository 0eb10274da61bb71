-- ===== src/NodeFilter/Found.antt =====
-- What the nodes that FilterNodes of grid-client/deployer/node_filter.go gives are good for.
use tfgrid_sdk_go.Prelude.{
  ℕ, ◌%◌, ◌^◌, ◌≤◌, ◌<◌, ◌≡◌, sym, ap, ◌∙◌, subst, inl, inr, Bool, true, false, ◌||◌, List, [], ◌∷◌,
  ◌++◌, Option, none, some, ok, length, All, All-map, All-IsIn, IsIn-All, IsIn, keep, keep-All_of,
  Bool-cases, Option-cases, Result-cases, arith,
}
use tfgrid_sdk_go.NodeFilter.{
  FilterOptions, ProxyNode, FilterEnv, Disks, pools_fit, node_fits, both_none, get_nodes,
  sent_pages, some_failed, collect, Query, nodes_count, limit_of, page_results, filter_rounds,
  page_rounds, with_defaults, pages_count, or_no_match, filter_nodes,
}
use tfgrid_sdk_go.NodeFilter.Pools.{
  DeviceType, ssd_device, hdd_device, DevicePool, pools_of, has_enough_storage,
}
use tfgrid_sdk_go.NodeFilter.Storage.{
  IsSane, SortsPools, CanHold, Decided, has_enough_storage-Decided,
}
use tfgrid_sdk_go.NodeFilter.Collect.{collect-All, collect_full, collect_short}

-- `sort.Slice`, pools that use no more than their size, and a channel that gives only what was sent.
pub record FilterLaws (env : FilterEnv) : Type 0 where
  pub sorts : SortsPools env.sort_pools
  pub sane : (id : ℕ) (ps : List DevicePool) → env.pools id ≡ ok ps → All IsSane ps
  pub arrived :
      (xss : List (List ProxyNode)) (n : ProxyNode)
      → IsIn n (env.arrive xss)
      → (xs : List ProxyNode) × IsIn xs xss × IsIn n xs

-- The pools of the node hold the disks, and those for the roots of the machines after the others.
abbrev pub HoldsDisks : FilterEnv → Disks → ℕ → Type 0
HoldsDisks env disks id =
    (ps : List DevicePool) × (env.client_error id ≡ none)
    × (env.pools id ≡ ok ps)
    × CanHold (pools_of hdd_device ps) (env.sort_disks disks.hdd)
    × CanHold (pools_of ssd_device ps) (env.sort_disks disks.ssd ++ disks.rootfs)

-- The proxy listed the node on one of the pages, and it holds the disks if storage is asked for.
abbrev pub IsFound : FilterEnv → Query → ProxyNode → Type 0
IsFound env q n =
    (i : ℕ) × (listed : List ProxyNode) × (total : ℕ) × (env.nodes q.options
        (limit_of q.limit_size i)
      ≡ ok (listed, total))
    × IsIn n listed
    × (both_none q.options.free_sru q.options.free_hru ≡ false
        → HoldsDisks env q.disks (n.node_id % 2 ^ 32))

-- As many nodes as the limit says, or up to 50.
abbrev pub HasCount : Option ℕ → ℕ → Type 0
HasCount none n = (0 < n) × (n ≤ 50)
HasCount (some size) n = n ≡ size

full-HasCount : (limit_size : Option ℕ) {n : ℕ} → n ≡ nodes_count limit_size → HasCount limit_size n
full-HasCount none e = omega (arith, e)
full-HasCount (some size) e = e

or_no_match_ok :
    (nodes : List ProxyNode) {found : List ProxyNode}
    → or_no_match nodes ≡ ok found
    → (nodes ≡ found) × (0 < length found)
or_no_match_ok [] h = absurd (ground (arith, h))
or_no_match_ok (n ∷ nodes) {found} h =
    let same : (n ∷ nodes) ≡ found = ground (arith, h) in
    (same, subst (λ ns. 0 < length ns) same (omega arith))

module _ (env : FilterEnv) (laws : FilterLaws env) where
  enough-CanHold :
      (ps : List DevicePool) (storages : List ℕ) (device : DeviceType)
      → All IsSane ps
      → has_enough_storage env.sort_pools ps storages device ≡ true
      → CanHold (pools_of device ps) storages
  enough-CanHold ps storages device s h =
      subst (λ b. Decided b (pools_of device ps) storages) h
        (has_enough_storage-Decided env.sort_pools laws.sorts ps storages device s)

  pools_fit-CanHold :
      (disks : Disks) (ps : List DevicePool)
      → All IsSane ps
      → pools_fit env disks ps ≡ true
      → CanHold (pools_of hdd_device ps) (env.sort_disks disks.hdd)
        × CanHold (pools_of ssd_device ps) (env.sort_disks disks.ssd ++ disks.rootfs)
  unfolding pools_fit
  pools_fit-CanHold disks ps s h =
      let hdds = env.sort_disks disks.hdd in
      let ssds = env.sort_disks disks.ssd ++ disks.rootfs in
      (
        enough-CanHold ps hdds hdd_device s (ground (arith, h)),
        enough-CanHold ps ssds ssd_device s (ground (arith, h)),
      )

  node_fits-HoldsDisks :
      (disks : Disks) (n : ProxyNode)
      → node_fits env disks n ≡ true
      → HoldsDisks env disks (n.node_id % 2 ^ 32)
  unfolding node_fits
  node_fits-HoldsDisks disks n h = elim (Option-cases (env.client_error (n.node_id % 2 ^ 32))) [
    | inr (e, c) ↦ absurd (ground (arith, h, c))
    | inl c ↦ elim (Result-cases (env.pools (n.node_id % 2 ^ 32))) [
      | inr (e, p) ↦ absurd (ground (arith, h, c, p))
      | inl (ps, p) ↦
          let holds =
            pools_fit-CanHold disks ps (laws.sane (n.node_id % 2 ^ 32) ps p)
              (ground (arith, h, c, p)) in
          (ps, c, p, holds.0, holds.1)
    ]
  ]

  get_nodes-IsFound :
      (q : Query) (i : ℕ) {ns : List ProxyNode}
      → get_nodes env q.options q.disks (limit_of q.limit_size i) ≡ ok ns
      → All (IsFound env q) ns
  unfolding get_nodes
  get_nodes-IsFound q i {ns} h =
      elim (Result-cases (env.nodes q.options (limit_of q.limit_size i))) [
        | inr (e, g) ↦ absurd (ground (arith, h, g))
        | inl ((listed, total), g) ↦
            elim (Bool-cases (both_none q.options.free_sru q.options.free_hru)) [
              | inl b ↦
                  let same : listed ≡ ns = ground (arith, h, g, b) in
                  subst (λ l. All (IsFound env q) l) same
                    (All-map listed
                      (λ n at. (i, listed, total, g, at, λ f. absurd (ground (arith, b, f))))
                      (All-IsIn listed))
              | inr b ↦
                  let same : keep (node_fits env q.disks) listed ≡ ns = ground (arith, h, g, b) in
                  subst (λ l. All (IsFound env q) l) same
                    (All-map (keep (node_fits env q.disks) listed)
                      (λ n a. (i, listed, total, g, a.0, λ f. node_fits-HoldsDisks q.disks n a.1))
                      (keep-All_of (λ x. IsIn x listed) (node_fits env q.disks) listed
                        (All-IsIn listed)))
            ]
      ]

  pages-IsFound :
      (q : Query) (pages : List ℕ)
      → All (λ xs. All (IsFound env q) xs) (sent_pages (page_results env q pages))
  unfolding page_results sent_pages
  pages-IsFound q [] = tt
  pages-IsFound q (i ∷ pages) =
      elim (Result-cases (get_nodes env q.options q.disks (limit_of q.limit_size i))) [
        | inr (e, g) ↦ rw (g, sent_pages) (pages-IsFound q pages)
        | inl (ns, g) ↦ rw (g, sent_pages) (get_nodes-IsFound q i g, pages-IsFound q pages)
      ]

  arrive-IsFound :
      (q : Query) (pages : List ℕ)
      → All (IsFound env q) (env.arrive (sent_pages (page_results env q pages)))
  arrive-IsFound q pages =
      let xss = sent_pages (page_results env q pages) in
      All-map (env.arrive xss)
        (λ n at.
          let (xs, there_xs, there_n) = laws.arrived xss n at in
          IsIn-All (IsFound env q) xs
            (IsIn-All (λ ys. All (IsFound env q) ys) xss (pages-IsFound q pages) there_xs) there_n)
        (All-IsIn (env.arrive xss))

  filter_rounds-IsFound :
      (q : Query) (nodes : List ProxyNode) (failed : Bool) (rounds : List (List ℕ))
      {found : List ProxyNode}
      → All (IsFound env q) nodes
      → (q.limit_size ≡ none → length nodes < 50)
      → filter_rounds env q nodes failed rounds ≡ ok found
      → All (IsFound env q) found × HasCount q.limit_size (length found)
  unfolding filter_rounds
  filter_rounds-IsFound q nodes failed [] a l h = absurd (ground (arith, h))
  filter_rounds-IsFound q nodes failed (pages ∷ more) {found} a l h =
      let results = page_results env q pages in
      let arriving = env.arrive (sent_pages results) in
      let count = nodes_count q.limit_size in
      let got = collect count nodes arriving in
      let all_got = collect-All (IsFound env q) count nodes arriving a (arrive-IsFound q pages) in
      elim (Bool-cases got.0) [
        | inl full ↦
            let same : got.1 ≡ found = ground (arith, h, full) in
            (
              subst (λ ns. All (IsFound env q) ns) same all_got,
              full-HasCount q.limit_size
                  (sym (ap length same) ∙ collect_full count nodes arriving full),
            )
        | inr short ↦ elim (Option-cases q.limit_size) [
          | inl e ↦
              let (same, some_found) =
                or_no_match_ok got.1 {found = found} (ground (arith, h, short, e)) in
              let below : length got.1 < 50 =
                subst (λ c. length got.1 < c) (ap nodes_count e)
                  (collect_short count nodes arriving
                    (subst (λ c. length nodes < c) (sym (ap nodes_count e)) (l e)) short) in
              (
                subst (λ ns. All (IsFound env q) ns) same all_got,
                subst (λ o. HasCount o (length found)) (sym e)
                    (some_found, omega (arith, below, ap length same)),
              )
          | inr (size, e) ↦
              filter_rounds-IsFound q got.1 (failed || some_failed results) more all_got
                (λ n. absurd (ground (arith, n, e))) (ground (arith, h, short, e))
        ]
      ]

  -- Where `sort.Slice` sorts the pools, no node's pool uses more than its size, and the channel gives
  -- only nodes that were sent: if `FilterNodes` succeeds, each node that it gives was listed by the
  -- proxy on one of the pages, and where storage is asked for, its pools hold the disks, those for the
  -- roots of the machines after the others; with a limit there are as many nodes as it says, and
  -- without one from 1 to 50.
  pub filter_nodes-IsFound :
      (twin : ℕ) (o : FilterOptions) (disks : Disks) (limit_size : Option ℕ)
      {found : List ProxyNode}
      → filter_nodes env twin o disks limit_size ≡ ok found
      → All
          (IsFound env
            record { options = with_defaults twin o; disks = disks; limit_size = limit_size })
          found
        × HasCount limit_size (length found)
  unfolding filter_nodes
  filter_nodes-IsFound twin o disks none h =
      filter_rounds-IsFound
        (record { options = with_defaults twin o; disks = disks; limit_size = none }) [] false
        (page_rounds 1 1 1 1) tt (λ e. omega arith) h
  filter_nodes-IsFound twin o disks (some size) h =
      let q : Query = record {
        options = with_defaults twin o;
        disks = disks;
        limit_size = some size;
      } in
      elim (Result-cases (pages_count env size (env.nodes q.options (limit_of (some size) 0)))) [
        | inr (e, c) ↦ absurd (ground (arith, h, c))
        | inl (total, c) ↦
            filter_rounds-IsFound q [] false (page_rounds total 1 total 5) tt
              (λ n. absurd (ground (arith, n))) (ground (arith, h, c))
      ]
