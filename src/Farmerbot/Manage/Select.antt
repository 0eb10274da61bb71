-- ===== src/Farmerbot/Manage/Select.antt =====
-- What `selectNodesToPowerOn` of farmerbot/internal/power.go selects, and when it can.
use tfgrid_sdk_go.Prelude.{
  ℕ, zero, suc, ◌<◌, ◌≡◌, refl, Bool, true, false, ◌||◌, ◌&&◌, List, [], ◌∷◌, ok, err, arith, leb,
  ◌==◌, if◌then◌else◌,
}
use tfgrid_sdk_go.Farmerbot.Capacity.{Capacity}
use tfgrid_sdk_go.Farmerbot.Node.{off, state_eq, Node}
use tfgrid_sdk_go.Farmerbot.State.{demand_unmet}
use tfgrid_sdk_go.Farmerbot.Manage.{
  remaining_after, demand_after, is_met, select_from, select_round, select_nodes_to_power_on,
}

-- Whether there is nothing to cover, or one node that is off covers the demand alone.
unfoldable pub can_cover : (Node → ℕ) → ℕ → List Node → Bool
can_cover has d [] = d == 0
can_cover has d (n ∷ ns) = (state_eq n.power_state off && leb d (has n)) || can_cover has d ns

pub can_cover-zero : (has : Node → ℕ) (ns : List Node) → can_cover has 0 ns ≡ true
unfolding can_cover
can_cover-zero has [] = refl
can_cover-zero has (n ∷ ns) = ground (arith, can_cover-zero has ns)

-- One of the four resources: what a node has of it, and what is asked.
module _ (has : Node → ℕ) (asked : Capacity → ℕ)
    (after : (n : Node) (d : Capacity)
      → asked (demand_after n d) ≡ remaining_after (has n) (asked d))
    (met : (d : Capacity) → is_met d ≡ true → asked d ≡ 0) where
  select_round-asked :
      (n : Node) (ns : List Node) (d : Capacity) (more : Capacity → List Node × Capacity)
      → ((e : Capacity) → asked (more e).1 ≡ (if can_cover has (asked e) ns then 0 else asked e))
      → asked (select_round n d more).1 ≡ (if can_cover has (asked d) (n ∷ ns) then 0 else asked d)
  unfolding select_round can_cover remaining_after
  select_round-asked n ns d more ih =
      ground (
        arith,
        ih d,
        ih (demand_after n d),
        after n d,
        met (demand_after n d),
        can_cover-zero has ns,
      )

  select_from-asked :
      (ns : List Node) (d : Capacity)
      → asked (select_from ns d).1 ≡ (if can_cover has (asked d) ns then 0 else asked d)
  unfolding select_from can_cover
  select_from-asked [] d = ground arith
  select_from-asked (n ∷ ns) d = select_round-asked n ns d (select_from ns) (select_from-asked ns)

pub after_cru :
    (n : Node) (d : Capacity) → (demand_after n d).cru ≡ remaining_after n.chain_cru d.cru
unfolding demand_after
after_cru n d = refl

pub after_sru :
    (n : Node) (d : Capacity) → (demand_after n d).sru ≡ remaining_after n.chain_sru d.sru
unfolding demand_after
after_sru n d = refl

pub after_mru :
    (n : Node) (d : Capacity) → (demand_after n d).mru ≡ remaining_after n.chain_mru d.mru
unfolding demand_after
after_mru n d = refl

pub after_hru :
    (n : Node) (d : Capacity) → (demand_after n d).hru ≡ remaining_after n.chain_hru d.hru
unfolding demand_after
after_hru n d = refl

pub is_met-zero :
    (d : Capacity) → is_met d ≡ true → (d.cru ≡ 0) × (d.sru ≡ 0) × (d.mru ≡ 0) × (d.hru ≡ 0)
unfolding is_met
is_met-zero d h = ground arith

-- Each resource is covered, or asked for as at first.
select_from_left :
    (ns : List Node) (d : Capacity)
    → ((select_from ns d).1.cru ≡ (if can_cover (λ n. n.chain_cru) d.cru ns then 0 else d.cru))
      × ((select_from ns d).1.sru ≡ (if can_cover (λ n. n.chain_sru) d.sru ns then 0 else d.sru))
      × ((select_from ns d).1.mru ≡ (if can_cover (λ n. n.chain_mru) d.mru ns then 0 else d.mru))
      × ((select_from ns d).1.hru ≡ (if can_cover (λ n. n.chain_hru) d.hru ns then 0 else d.hru))
select_from_left ns d = (
  select_from-asked (λ n. n.chain_cru) (λ e. e.cru) after_cru (λ e h. (is_met-zero e h).0) ns d,
  select_from-asked (λ n. n.chain_sru) (λ e. e.sru) after_sru (λ e h. (is_met-zero e h).1) ns d,
  select_from-asked (λ n. n.chain_mru) (λ e. e.mru) after_mru (λ e h. (is_met-zero e h).2) ns d,
  select_from-asked (λ n. n.chain_hru) (λ e. e.hru) after_hru (λ e h. (is_met-zero e h).3) ns d,
)

-- A demand of 0 is covered by nothing at all.
can_cover-false : (has : Node → ℕ) (d : ℕ) (ns : List Node) → can_cover has d ns ≡ false → 0 < d
can_cover-false has zero ns h = cc (can_cover-zero has ns)
can_cover-false has (suc d) ns h = omega arith

-- Whether nodes that are off cover the demand, each of the four resources by one node.
unfoldable pub can_meet : Capacity → List Node → Bool
can_meet d ns =
    can_cover (λ n. n.chain_cru) d.cru ns
    && can_cover (λ n. n.chain_sru) d.sru ns
    && can_cover (λ n. n.chain_mru) d.mru ns
    && can_cover (λ n. n.chain_hru) d.hru ns

-- The selection fails exactly when some resource has a demand that no single node which is off
-- covers; otherwise it gives what the loop selected.
pub select_nodes_to_power_on-can_meet :
    (ns : List Node) (d : Capacity)
    → select_nodes_to_power_on ns d
      ≡ (if can_meet d ns then ok (select_from ns d).0 else err demand_unmet)
unfolding select_nodes_to_power_on can_meet
select_nodes_to_power_on-can_meet ns d = ground (
  arith,
  select_from_left ns d,
  can_cover-false (λ n. n.chain_cru) d.cru ns,
  can_cover-false (λ n. n.chain_sru) d.sru ns,
  can_cover-false (λ n. n.chain_mru) d.mru ns,
  can_cover-false (λ n. n.chain_hru) d.hru ns,
)
