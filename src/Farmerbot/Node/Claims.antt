-- ===== src/Farmerbot/Node/Claims.antt =====
-- The claims on a node's resources: `canClaimResources`, `claimResources` and `freeCapacity` of
-- farmerbot/internal/types.go, where the float computations are exact.
use tfgrid_sdk_go.Prelude.{
  ℕ, ◌+◌, ◌-◌, ◌*◌, ◌%◌, ◌≤◌, ◌<◌, ◌≡◌, ap, ◌∙◌, ◌⊎◌, true, arith, ltb, if◌then◌else◌,
}
use tfgrid_sdk_go.Prelude.Int.{pos}
use tfgrid_sdk_go.Farmerbot.Capacity.{Capacity, add, subtract, u64_mod}
use tfgrid_sdk_go.Farmerbot.Env.{FloatOps}
use tfgrid_sdk_go.Farmerbot.Env.Laws.{exact_bound, FloatLaws}
use tfgrid_sdk_go.Farmerbot.Node.{Node, free_capacity, can_claim_resources, claim_resources}

-- The cores that can be claimed are those of the node times the over-provisioning factor.
free_cru :
    (fl : FloatOps) (n : Node) (over : ℕ)
    → FloatLaws fl
    → over < 128
    → n.total.cru * over < exact_bound
    → fl.to_uint64 (fl.ceil (fl.float_mul (fl.of_uint64 n.total.cru) (fl.of_int8 (pos over))))
      ≡ n.total.cru * over
free_cru fl n over laws small exact =
    ap (λ x. fl.to_uint64 (fl.ceil (fl.float_mul (fl.of_uint64 n.total.cru) x)))
      (laws.int8_exact over small)
    ∙ ap (λ x. fl.to_uint64 (fl.ceil x)) (laws.mul_exact n.total.cru over exact)
    ∙ ap (λ x. fl.to_uint64 x) (laws.ceil_exact (n.total.cru * over) exact)
    ∙ laws.to_exact (n.total.cru * over) exact

-- One kind of resource after a claim.
abbrev pub Fits : ℕ → ℕ → ℕ → ℕ → Type 0
Fits used total wanted after = (wanted ≡ 0) ⊎ ((after ≡ used + wanted) × (after ≤ total))

fits :
    (used total wanted : ℕ)
    → total < u64_mod
    → wanted ≤ (if ltb used total then total - used else 0)
    → Fits used total wanted ((used + wanted) % u64_mod)
fits used total wanted small h = ground arith

-- Where float64 is exact on small integers, the factor is below 128, the cores times the factor are
-- below 2 ^ 53 and the other totals below 2 ^ 64: if the claim is granted, each resource that was asked
-- for is used by the sum of both and no more than the node has, with the cores counted `over` times.
pub can_claim_resources-Fits :
    (fl : FloatOps) (n : Node) (cap : Capacity) (over : ℕ)
    → FloatLaws fl
    → over < 128
    → n.total.cru * over < exact_bound
    → n.total.mru < u64_mod
    → n.total.sru < u64_mod
    → n.total.hru < u64_mod
    → can_claim_resources fl n cap (pos over) ≡ true
    → let m = claim_resources n cap in
      Fits n.used.cru (n.total.cru * over) cap.cru m.used.cru
      × Fits n.used.mru n.total.mru cap.mru m.used.mru
      × Fits n.used.sru n.total.sru cap.sru m.used.sru
      × Fits n.used.hru n.total.hru cap.hru m.used.hru
unfolding can_claim_resources free_capacity claim_resources subtract add
can_claim_resources-Fits fl n cap over laws small exact mru sru hru h = (
  fits n.used.cru (n.total.cru * over) cap.cru (omega arith) (ground (arith, h, exactly)),
  fits n.used.mru n.total.mru cap.mru mru (ground (arith, h)),
  fits n.used.sru n.total.sru cap.sru sru (ground (arith, h)),
  fits n.used.hru n.total.hru cap.hru hru (ground (arith, h)),
)
  where
    exactly :
        fl.to_uint64 (fl.ceil (fl.float_mul (fl.of_uint64 n.total.cru) (fl.of_int8 (pos over))))
        ≡ n.total.cru * over
    exactly = free_cru fl n over laws small exact
