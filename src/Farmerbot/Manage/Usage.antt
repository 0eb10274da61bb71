-- ===== src/Farmerbot/Manage/Usage.antt =====
-- The sums of `calculateResourceUsage` in farmerbot/internal/power.go.
use tfgrid_sdk_go.Prelude.{
  ℕ, ◌+◌, ◌%◌, ◌≤◌, ◌<◌, ◌≡◌, refl, List, [], ◌∷◌, arith, if◌then◌else◌, All, inl, inr, Bool-cases,
}
use tfgrid_sdk_go.Farmerbot.Capacity.{Capacity, empty, add, u64_mod}
use tfgrid_sdk_go.Farmerbot.Node.{Node}
use tfgrid_sdk_go.Farmerbot.Manage.{resource_usage_from, calculate_resource_usage}

-- What a node counts as used: all of a rented node.
abbrev pub used_of : Node → Capacity
used_of n = if n.has_active_rent_contract then n.total else n.used

-- A sum over nodes, without wrapping.
unfoldable pub sum_of : (Node → ℕ) → List Node → ℕ
sum_of g [] = 0
sum_of g (n ∷ ns) = g n + sum_of g ns

pub sum_of-le :
    (g h : Node → ℕ) (ns : List Node) → All (λ n. g n ≤ h n) ns → sum_of g ns ≤ sum_of h ns
unfolding sum_of
sum_of-le g h [] a = omega arith
sum_of-le g h (n ∷ ns) a = omega (arith, sum_of-le g h ns a.1)

module _ (field : Capacity → ℕ)
    (field-add : (a b : Capacity) → field (add a b) ≡ (field a + field b) % u64_mod) where
  usage_field :
      (u t : Capacity) (ns : List Node)
      → field u < u64_mod
      → field t < u64_mod
      → (field (resource_usage_from u t ns).0
          ≡ (field u + sum_of (λ n. field (used_of n)) ns) % u64_mod)
        × (field (resource_usage_from u t ns).1
            ≡ (field t + sum_of (λ n. field n.total) ns) % u64_mod)
  unfolding resource_usage_from sum_of
  usage_field u t [] hu ht = (omega arith, omega arith)
  usage_field u t (n ∷ ns) hu ht = elim (Bool-cases n.has_active_rent_contract) [
    | inl rented ↦
        let (p, q) =
          usage_field (add u n.total) (add t n.total) ns (omega (arith, field-add u n.total))
            (omega (arith, field-add t n.total)) in
        rw rented (omega (arith, p, field-add u n.total), omega (arith, q, field-add t n.total))
    | inr free ↦
        let (p, q) =
          usage_field (add u n.used) (add t n.total) ns (omega (arith, field-add u n.used))
            (omega (arith, field-add t n.total)) in
        rw free (omega (arith, p, field-add u n.used), omega (arith, q, field-add t n.total))
  ]

-- The four sums are the plain ones modulo 2 ^ 64, where a rented node counts as used in full.
pub calculate_resource_usage-sum_of :
    (ns : List Node)
    → let (used, total) = calculate_resource_usage ns in
      (used.cru ≡ sum_of (λ n. (used_of n).cru) ns % u64_mod)
      × (used.mru ≡ sum_of (λ n. (used_of n).mru) ns % u64_mod)
      × (used.sru ≡ sum_of (λ n. (used_of n).sru) ns % u64_mod)
      × (used.hru ≡ sum_of (λ n. (used_of n).hru) ns % u64_mod)
      × (total.cru ≡ sum_of (λ n. n.total.cru) ns % u64_mod)
      × (total.mru ≡ sum_of (λ n. n.total.mru) ns % u64_mod)
      × (total.sru ≡ sum_of (λ n. n.total.sru) ns % u64_mod)
      × (total.hru ≡ sum_of (λ n. n.total.hru) ns % u64_mod)
unfolding calculate_resource_usage add
calculate_resource_usage-sum_of ns =
    let cru = usage_field (λ c. c.cru) (λ a b. refl) empty empty ns (omega arith) (omega arith) in
    let mru = usage_field (λ c. c.mru) (λ a b. refl) empty empty ns (omega arith) (omega arith) in
    let sru = usage_field (λ c. c.sru) (λ a b. refl) empty empty ns (omega arith) (omega arith) in
    let hru = usage_field (λ c. c.hru) (λ a b. refl) empty empty ns (omega arith) (omega arith) in
    (
      omega (arith, cru.0),
      omega (arith, mru.0),
      omega (arith, sru.0),
      omega (arith, hru.0),
      omega (arith, cru.1),
      omega (arith, mru.1),
      omega (arith, sru.1),
      omega (arith, hru.1),
    )
