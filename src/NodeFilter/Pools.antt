-- ===== src/NodeFilter/Pools.antt =====
-- The pools of a node: hasEnoughStorage of grid-client/deployer/node_filter.go.
use tfgrid_sdk_go.Prelude.{
  ℕ, ◌+◌, ◌-◌, ◌%◌, ◌^◌, Bool, true, false, List, [], ◌∷◌, ltb, if◌then◌else◌, keep,
}

pub data DeviceType : Type 0 where
  ssd_device : DeviceType
  hdd_device : DeviceType
  unknown_device : DeviceType

pub record DevicePool : Type 0 where
  pub name : ℕ
  pub device : DeviceType
  pub size : ℕ
  pub used : ℕ

abbrev pub same_device : DeviceType → DeviceType → Bool
same_device ssd_device ssd_device = true
same_device hdd_device hdd_device = true
same_device unknown_device unknown_device = true
same_device ssd_device hdd_device = false
same_device ssd_device unknown_device = false
same_device hdd_device ssd_device = false
same_device hdd_device unknown_device = false
same_device unknown_device ssd_device = false
same_device unknown_device hdd_device = false

-- `Size - Used` and `Used += storage` on uint64.
abbrev pub free_space : DevicePool → ℕ
free_space p = (p.size + (2 ^ 64 - p.used)) % 2 ^ 64

abbrev pub provision : DevicePool → ℕ → DevicePool
provision p storage = record p { used = (p.used + storage) % 2 ^ 64 }

-- The loop over the storages, where `sort` puts the pools with the most free space first.
unfoldable pub provision_all : (List DevicePool → List DevicePool) → List DevicePool → List ℕ → Bool
provision_all sort pools [] = true
provision_all sort pools (storage ∷ storages) = elim (sort pools) [
  | [] ↦ false
  | p ∷ ps ↦
      if ltb (free_space p) storage
      then false
      else provision_all sort (provision p storage ∷ ps) storages
]

abbrev pub pools_of : DeviceType → List DevicePool → List DevicePool
pools_of device pools = keep (λ p. same_device p.device device) pools

abbrev pub is_empty : {A : Type 0} → List A → Bool
is_empty [] = true
is_empty (x ∷ xs) = false

unfoldable pub has_enough_storage :
    (List DevicePool → List DevicePool) → List DevicePool → List ℕ → DeviceType → Bool
has_enough_storage sort pools storages device =
    if is_empty storages
    then true
    else if is_empty (pools_of device pools)
    then false
    else provision_all sort (pools_of device pools) storages
