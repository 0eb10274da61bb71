-- ===== src/NodeFilter/Storage.antt =====
-- What hasEnoughStorage of grid-client/deployer/node_filter.go decides.
use mathlib.Core.List.{Permᴰ}
use mathlib.Core.List.Permᴰ
use tfgrid_sdk_go.Prelude.{
  ℕ, ◌+◌, ◌-◌, ◌%◌, ◌^◌, ◌≤◌, ◌<◌, ◌≡◌, sym, subst, ◌⊎◌, inl, inr, Bool, true, false, List, [], ◌∷◌,
  ltb, if◌then◌else◌, All, All-map, keep-All_of, Bool-cases, arith,
}
use tfgrid_sdk_go.NodeFilter.Pools.{
  DeviceType, DevicePool, same_device, free_space, provision, provision_all, pools_of, is_empty,
  has_enough_storage,
}

-- No pool uses more than its size, which is a uint64.
abbrev pub IsSane : DevicePool → Type 0
IsSane p = (p.used ≤ p.size) × (p.size < 2 ^ 64)

-- What `sort.Slice` promises: the same pools, and none has more free space than the first one.
abbrev pub Leads : List DevicePool → Type 0
Leads [] = Unit
Leads (p ∷ ps) = All (λ q. free_space q ≤ free_space p) ps

pub record SortsPools (sort : List DevicePool → List DevicePool) : Type 0 where
  pub same : (ps : List DevicePool) → Permᴰ ps (sort ps)
  pub leads : (ps : List DevicePool) → Leads (sort ps)

-- Some pools, in any order, hold all the storages: the first one goes to a pool with enough space that
-- is not in use, and they hold the others with what is left. Here with no remainders and no sorting.
abbrev pub CanHold : List DevicePool → List ℕ → Type 0
CanHold ps [] = Unit
CanHold ps (storage ∷ storages) =
    (p : DevicePool) × (rest : List DevicePool) × Permᴰ ps (p ∷ rest)
    × (p.used + storage ≤ p.size)
    × CanHold (record p { used = p.used + storage } ∷ rest) storages

-- Each storage goes to a pool with the most free space, until one fits in no pool any more.
abbrev pub IsStuck : List DevicePool → List ℕ → Type 0
IsStuck ps [] = ⊥
IsStuck ps (storage ∷ storages) =
    All (λ p. p.size < p.used + storage) ps
    ⊎ ((p : DevicePool) × (rest : List DevicePool) × Permᴰ ps (p ∷ rest)
        × All (λ q. q.size - q.used ≤ p.size - p.used) rest
        × (p.used + storage ≤ p.size)
        × IsStuck (record p { used = p.used + storage } ∷ rest) storages)

Perm-All : (P : DevicePool → Type 0) {xs ys : List DevicePool} → Permᴰ xs ys → All P xs → All P ys
Perm-All P Permᴰ.nil h = h
Perm-All P (Permᴰ.cons e d) h = (subst P e h.0, Perm-All P d h.1)
Perm-All P (Permᴰ.swap e f) h = (subst P f h.1.0, (subst P e h.0, h.1.1))
Perm-All P (Permᴰ.trans d d') h = Perm-All P d' (Perm-All P d h)

-- On such pools there is no wrap-around.
free_space-IsSane : (p : DevicePool) → IsSane p → free_space p ≡ p.size - p.used
free_space-IsSane p h = ground (arith, h)

provision-IsSane :
    (p : DevicePool) (storage : ℕ)
    → IsSane p
    → ltb (free_space p) storage ≡ false
    → (p.used + storage ≤ p.size) × ((p.used + storage) % 2 ^ 64 ≡ p.used + storage)
provision-IsSane p storage h e =
    let free = free_space-IsSane p h in (ground (arith, h, e, free), ground (arith, h, e, free))

abbrev pub Decided : Bool → List DevicePool → List ℕ → Type 0
Decided true ps storages = CanHold ps storages
Decided false ps storages = IsStuck ps storages

-- One storage that fits into the first of the sorted pools.
provisioned :
    (b : Bool) (ps : List DevicePool) (p : DevicePool) (rest : List DevicePool) (storage : ℕ)
    (storages : List ℕ)
    → Permᴰ ps (p ∷ rest)
    → All (λ q. q.size - q.used ≤ p.size - p.used) rest
    → p.used + storage ≤ p.size
    → Decided b (record p { used = p.used + storage } ∷ rest) storages
    → Decided b ps (storage ∷ storages)
provisioned true ps p rest storage storages same leads fits d = (p, rest, same, fits, d)
provisioned false ps p rest storage storages same leads fits d = inr (p, rest, same, leads, fits, d)

-- The free spaces without the wrap-around.
leads_plain :
    (p : DevicePool) (rest : List DevicePool)
    → IsSane p
    → All IsSane rest
    → All (λ q. free_space q ≤ free_space p) rest
    → All (λ q. q.size - q.used ≤ p.size - p.used) rest
leads_plain p [] h hs l = tt
leads_plain p (q ∷ rest) h hs l = (
  omega (arith, l.0, free_space-IsSane p h, free_space-IsSane q hs.0),
  leads_plain p rest h hs.1 l.1,
)

none_fits :
    (p : DevicePool) (rest : List DevicePool) (storage : ℕ)
    → IsSane p
    → All IsSane rest
    → All (λ q. q.size - q.used ≤ p.size - p.used) rest
    → ltb (free_space p) storage ≡ true
    → All (λ q. q.size < q.used + storage) rest
none_fits p [] storage h hs l e = tt
none_fits p (q ∷ rest) storage h hs l e = (
  (let free = free_space-IsSane p h in ground (arith, h, hs.0, l.0, e, free)),
  none_fits p rest storage h hs.1 l.1 e,
)

module _ (sort : List DevicePool → List DevicePool) (l : SortsPools sort) where
  first_provisioned :
      (ps : List DevicePool) (storage : ℕ) (storages : List ℕ)
      → All IsSane ps
      → ((qs : List DevicePool)
          → All IsSane qs
          → Decided (provision_all sort qs storages) qs storages)
      → (qs : List DevicePool) → Permᴰ ps qs
      → Leads qs
      → Decided
          (elim qs [
            | [] ↦ false
            | p ∷ rest ↦
                if ltb (free_space p) storage
                then false
                else provision_all sort (provision p storage ∷ rest) storages
          ])
          ps
          (storage ∷ storages)
  first_provisioned ps storage storages h others [] same leads =
      inl (Perm-All (λ q. q.size < q.used + storage) (Permᴰ.symm same) tt)
  first_provisioned ps storage storages h others (p ∷ rest) same leads =
      let sane = Perm-All IsSane same h in
      let plain = leads_plain p rest sane.0 sane.1 leads in
      let free = free_space-IsSane p sane.0 in
      elim (Bool-cases (ltb (free_space p) storage)) [
        | inl e ↦ rw e (
            inl (
              Perm-All (λ q. q.size < q.used + storage) (Permᴰ.symm same)
                (ground (arith, sane.0, e, free), none_fits p rest storage sane.0 sane.1 plain e)))
        | inr e ↦
            let (fits, exact) = provision-IsSane p storage sane.0 e in
            let filled : DevicePool = record p { used = p.used + storage } in
            rw e (
              provisioned (provision_all sort (provision p storage ∷ rest) storages) ps p rest
                storage storages same plain fits
                (subst
                  (λ (u : ℕ).
                    Decided (provision_all sort (record p { used = u } ∷ rest) storages)
                      (filled ∷ rest) storages)
                  (sym exact) (others (filled ∷ rest) ((fits, sane.0.1), sane.1))))
      ]

  provision_all-Decided :
      (ps : List DevicePool) (storages : List ℕ)
      → All IsSane ps
      → Decided (provision_all sort ps storages) ps storages
  unfolding provision_all
  provision_all-Decided ps [] h = tt
  provision_all-Decided ps (storage ∷ storages) h =
      first_provisioned ps storage storages h (λ qs k. provision_all-Decided qs storages k)
        (sort ps) (l.same ps) (l.leads ps)

  unless_empty :
      (qs : List DevicePool) (storage : ℕ) (storages : List ℕ)
      → All IsSane qs
      → Decided
          (if is_empty qs then false else provision_all sort qs (storage ∷ storages))
          qs
          (storage ∷ storages)
  unless_empty [] storage storages h = inl tt
  unless_empty (q ∷ qs) storage storages h = provision_all-Decided (q ∷ qs) (storage ∷ storages) h

  -- Where no pool uses more than its size: `hasEnoughStorage` says yes only if the pools of the type can
  -- hold all the storages, each one in a single pool; and it says no only if, when each storage is put
  -- into a pool with the most free space, one of the storages fits into none of them any more.
  pub has_enough_storage-Decided :
      (pools : List DevicePool) (storages : List ℕ) (device : DeviceType)
      → All IsSane pools
      → Decided (has_enough_storage sort pools storages device) (pools_of device pools) storages
  unfolding has_enough_storage
  has_enough_storage-Decided pools [] device h = tt
  has_enough_storage-Decided pools (storage ∷ storages) device h =
      unless_empty (pools_of device pools) storage storages (
        All-map (pools_of device pools) (λ p a. a.0)
          (keep-All_of IsSane (λ p. same_device p.device device) pools h))
