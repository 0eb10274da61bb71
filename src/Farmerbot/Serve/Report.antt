-- ===== src/Farmerbot/Serve/Report.antt =====
-- The numbers of `createNodeReport` (farmerbot/internal/report.go).
use tfgrid_sdk_go.Prelude.{
  ℕ, ◌*◌, ◌/◌, ◌≤◌, ◌<◌, ◌≡◌, refl, sym, subst, ◌⊎◌, inl, inr, false, ◌||◌, arith, ◌==◌, [], ◌∷◌,
  Result, ok, err, if◌then◌else◌, Bool-cases,
}
use native.Mathlib.Nat.{div-le_of_le-mul}
use tfgrid_sdk_go.Farmerbot.Capacity.{Capacity, u64_mod}
use tfgrid_sdk_go.Farmerbot.Node.{Node}
use tfgrid_sdk_go.Farmerbot.State.{Error, divide_by_zero}
use tfgrid_sdk_go.Farmerbot.Manage.{calculate_resource_usage}
use tfgrid_sdk_go.Farmerbot.Manage.Usage.{used_of, sum_of, calculate_resource_usage-sum_of}
use tfgrid_sdk_go.Farmerbot.Serve.{NodeReport, percentage, report_of, create_node_report}

-- The share of the total in percent, rounded down.
abbrev pub percent : ℕ → ℕ → ℕ
percent used total = if total == 0 then 0 else 100 * used / total

percentage-percent :
    (used total : ℕ)
    → used ≤ total
    → 100 * total < u64_mod
    → (total == 0) ≡ false
    → (percentage used total ≡ percent used total) × (percent used total ≤ 100)
percentage-percent used total within small some_total =
    let le = div-le_of_le-mul total {m = 100 * used} {n = 100} (omega arith) in ground (arith, le)

share_percent :
    (used total : ℕ)
    → used ≤ total
    → 100 * total < u64_mod
    → ((if total == 0 then 0 else percentage used total) ≡ percent used total)
      × (percent used total ≤ 100)
share_percent used total within small = elim (Bool-cases (total == 0)) [
  | inl e ↦ ground (arith, e)
  | inr e ↦ ground (arith, e, percentage-percent used total within small e)
]

-- One kind of resource that a report can show without wrapping.
abbrev pub Shown : ℕ → ℕ → Type 0
Shown used total = (used ≤ total) × (100 * total < u64_mod)

abbrev pub Shows : NodeReport → Capacity → Capacity → Type 0
Shows r used total =
    (r.cru_usage_percentage ≡ percent used.cru total.cru)
    × (r.sru_usage_percentage ≡ percent used.sru total.sru)
    × (r.mru_usage_percentage ≡ percent used.mru total.mru)
    × (r.hru_usage_percentage ≡ percent used.hru total.hru)

abbrev pub AtMost100 : NodeReport → Type 0
AtMost100 r =
    (r.cru_usage_percentage ≤ 100)
    × (r.sru_usage_percentage ≤ 100)
    × (r.mru_usage_percentage ≤ 100)
    × (r.hru_usage_percentage ≤ 100)

abbrev Reported : Result Error NodeReport → Capacity → Capacity → Type 0
Reported res used total =
    ((res ≡ err divide_by_zero) × ((total.cru ≡ 0) ⊎ (total.sru ≡ 0) ⊎ (total.mru ≡ 0)))
    ⊎ ((r : NodeReport) × (res ≡ ok r) × Shows r used total × AtMost100 r)

report_of-percent :
    (now : ℕ) (n : Node) (used total : Capacity)
    → Shown used.cru total.cru
    → Shown used.sru total.sru
    → Shown used.mru total.mru
    → Shown used.hru total.hru
    → Reported (report_of now n used total) used total
unfolding report_of
report_of-percent now n used total cru sru mru hru =
    elim (Bool-cases (total.cru == 0 || total.sru == 0 || total.mru == 0)) [
      | inl zero_total ↦ rw (zero_total, report_of) (inl (refl, ground arith))
      | inr some_total ↦
          let c = percentage-percent used.cru total.cru cru.0 cru.1 (ground arith) in
          let s = percentage-percent used.sru total.sru sru.0 sru.1 (ground arith) in
          let m = percentage-percent used.mru total.mru mru.0 mru.1 (ground arith) in
          let h = share_percent used.hru total.hru hru.0 hru.1 in
          rw (some_total, report_of)
            (inr (
              _,
              refl,
              (c.0, s.0, m.0, h.0),
              (
                subst (λ x. x ≤ 100) (sym c.0) c.1,
                subst (λ x. x ≤ 100) (sym s.0) s.1,
                subst (λ x. x ≤ 100) (sym m.0) m.1,
                subst (λ x. x ≤ 100) (sym h.0) h.1,
              ),
            ))
    ]

usage_of_one :
    (n : Node)
    → Shown (used_of n).cru n.total.cru
    → Shown (used_of n).sru n.total.sru
    → Shown (used_of n).mru n.total.mru
    → Shown (used_of n).hru n.total.hru
    → calculate_resource_usage (n ∷ []) ≡ (used_of n, n.total)
unfolding sum_of
usage_of_one n cru sru mru hru = ground (arith, calculate_resource_usage-sum_of (n ∷ []))

-- Where a node uses no more than its total of each resource and no total times 100 reaches 2 ^ 64: the
-- report fails and the cores, the SSD or the memory in total are 0, or it shows the shares in percent,
-- each 100 at most.
pub create_node_report_percent :
    (now : ℕ) (n : Node)
    → Shown (used_of n).cru n.total.cru
    → Shown (used_of n).sru n.total.sru
    → Shown (used_of n).mru n.total.mru
    → Shown (used_of n).hru n.total.hru
    → ((create_node_report now n ≡ err divide_by_zero)
        × ((n.total.cru ≡ 0) ⊎ (n.total.sru ≡ 0) ⊎ (n.total.mru ≡ 0)))
      ⊎ ((r : NodeReport) × (create_node_report now n ≡ ok r)
          × Shows r (used_of n) n.total
          × AtMost100 r)
unfolding create_node_report
create_node_report_percent now n cru sru mru hru =
    rw (usage_of_one n cru sru mru hru)
      (report_of-percent now n (used_of n) n.total cru sru mru hru)
