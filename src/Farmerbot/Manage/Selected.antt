-- ===== src/Farmerbot/Manage/Selected.antt =====
-- The nodes that `selectNodesToPowerOn` of farmerbot/internal/power.go gives.
use tfgrid_sdk_go.Prelude.{
  ℕ, ◌≤◌, ◌≡◌, refl, ◌⊎◌, inl, inr, Bool, true, false, List, [], ◌∷◌, ok, arith, ◌==◌,
  if◌then◌else◌, All, Any, IsIn, All-IsIn, sym, ◌∙◌, subst, here, there, Bool-cases,
}
use tfgrid_sdk_go.Farmerbot.Capacity.{Capacity}
use tfgrid_sdk_go.Farmerbot.Node.{off, state_eq, state_eq_iff, Node}
use tfgrid_sdk_go.Farmerbot.Manage.{
  covers, remaining_after, contributes, demand_after, is_met, select_from, select_round,
  select_nodes_to_power_on,
}
use tfgrid_sdk_go.Farmerbot.Manage.Select.{
  after_cru, after_sru, after_mru, after_hru, is_met-zero, can_meet,
  select_nodes_to_power_on-can_meet, can_cover,
}

-- The two shapes of a round.
select_round_awake :
    (n : Node) (d : Capacity) (more : Capacity → List Node × Capacity)
    → state_eq n.power_state off ≡ false
    → select_round n d more ≡ more d
unfolding select_round
select_round_awake n d more h = rw h refl

abbrev rest_of : Capacity → (Capacity → List Node × Capacity) → List Node
rest_of left more = if is_met left then [] else (more left).0

select_round_asleep :
    (n : Node) (d : Capacity) (more : Capacity → List Node × Capacity)
    → state_eq n.power_state off ≡ true
    → (select_round n d more).0 ≡ (
        if contributes n d
        then n ∷ rest_of (demand_after n d) more
        else rest_of (demand_after n d) more)
unfolding select_round
select_round_asleep n d more h = ground arith

rest_of-All {κ} :
    (Q : Node → Type κ) (left : Capacity) (more : Capacity → List Node × Capacity)
    → All Q (more left).0
    → All Q (rest_of left more)
rest_of-All Q left more h = elim (Bool-cases (is_met left)) [ inl e ↦ rw e tt | inr e ↦ rw e h ]

-- What is selected is off, and has what all the listed nodes have.
select_round-All {κ} :
    (P : Node → Type κ) (n : Node) (d : Capacity) (more : Capacity → List Node × Capacity)
    → P n
    → ((e : Capacity) → All (λ m. P m × (m.power_state ≡ off)) (more e).0)
    → All (λ m. P m × (m.power_state ≡ off)) (select_round n d more).0
select_round-All P n d more p ih = elim (Bool-cases (state_eq n.power_state off)) [
  | inr awake ↦ rw (select_round_awake n d more awake) (ih d)
  | inl asleep ↦ elim (Bool-cases (contributes n d)) [
    | inl hit ↦
        rw (select_round_asleep n d more asleep, hit)
          ((p, state_eq_iff n.power_state off asleep), rest_of-All _ _ more (ih (demand_after n d)))
    | inr miss ↦
        rw (select_round_asleep n d more asleep, miss)
          (rest_of-All _ _ more (ih (demand_after n d)))
  ]
]

pub select_from-All {κ} :
    (P : Node → Type κ) (ns : List Node) (d : Capacity)
    → All P ns
    → All (λ m. P m × (m.power_state ≡ off)) (select_from ns d).0
unfolding select_from
select_from-All P [] d h = tt
select_from-All P (n ∷ ns) d h =
    select_round-All P n d (select_from ns) h.0 (λ e. select_from-All P ns e h.1)

later-Any {κ} :
    {Q : Node → Type κ} (b : Bool) (n : Node) (ns : List Node)
    → Any Q ns
    → Any Q (if b then n ∷ ns else ns)
later-Any true n ns a = there a
later-Any false n ns a = a

module _ (has : Node → ℕ) (asked : Capacity → ℕ)
    (after : (n : Node) (d : Capacity)
      → asked (demand_after n d) ≡ remaining_after (has n) (asked d))
    (met : (d : Capacity) → is_met d ≡ true → asked d ≡ 0)
    (counts : (n : Node) (d : Capacity)
      → covers (has n) (asked d) ≡ true
      → contributes n d ≡ true) where
  -- What a round that does not cover the resource leaves to the nodes that follow.
  Later : Node → List Node → Capacity → Type 0
  Later n ns d = (can_cover has (asked d) ns ≡ true) × (asked (demand_after n d) ≡ asked d)

  uncovered-Later :
      (n : Node) (ns : List Node) (d : Capacity)
      → can_cover has (asked d) (n ∷ ns) ≡ true
      → covers (has n) (asked d) ≡ false
      → (asked d ≡ 0) ⊎ Later n ns d
  unfolding can_cover remaining_after Later
  uncovered-Later n ns d h u = elim (Bool-cases (asked d == 0)) [
    | inl nothing ↦ inl (ground arith)
    | inr something ↦ inr (ground arith, ground (arith, after n d))
  ]

  -- A demand that some node covers is covered by one of the selected nodes.
  pub select_from-serves :
      (ns : List Node) (d : Capacity)
      → can_cover has (asked d) ns ≡ true
      → (asked d ≡ 0) ⊎ Any (λ n. asked d ≤ has n) (select_from ns d).0
  unfolding select_from can_cover Later
  select_from-serves [] d h = inl (ground arith)
  select_from-serves (n ∷ ns) d h = elim (Bool-cases (state_eq n.power_state off)) [
    | inr awake ↦
        rw (select_round_awake n d (select_from ns) awake) (select_from-serves ns d (ground arith))
    | inl asleep ↦ elim (Bool-cases (covers (has n) (asked d))) [
      | inl covered ↦
          rw (select_round_asleep n d (select_from ns) asleep, counts n d covered)
            (inr (here (ground arith)))
      | inr uncovered ↦ elim (uncovered-Later n ns d h uncovered) [
        | inl nothing ↦ inl nothing
        | inr (later, same) ↦ elim (Bool-cases (is_met (demand_after n d))) [
          | inl done ↦ inl (ground (arith, met (demand_after n d) done))
          | inr wanting ↦ elim (select_from-serves ns (demand_after n d) (rw same later)) [
            | inl nothing ↦ inl (ground arith)
            | inr found ↦
                rw (select_round_asleep n d (select_from ns) asleep, wanting)
                  (inr (later-Any (contributes n d) n _ (rw same at found)))
          ]
        ]
      ]
    ]
  ]

counts_cru : (n : Node) (d : Capacity) → covers n.chain_cru d.cru ≡ true → contributes n d ≡ true
unfolding contributes
counts_cru n d h = rw h refl

counts_sru : (n : Node) (d : Capacity) → covers n.chain_sru d.sru ≡ true → contributes n d ≡ true
unfolding contributes
counts_sru n d h = ground arith

counts_mru : (n : Node) (d : Capacity) → covers n.chain_mru d.mru ≡ true → contributes n d ≡ true
unfolding contributes
counts_mru n d h = ground arith

counts_hru : (n : Node) (d : Capacity) → covers n.chain_hru d.hru ≡ true → contributes n d ≡ true
unfolding contributes
counts_hru n d h = ground arith

can_meet-parts :
    (d : Capacity) (ns : List Node)
    → can_meet d ns ≡ true
    → (can_cover (λ n. n.chain_cru) d.cru ns ≡ true)
      × (can_cover (λ n. n.chain_sru) d.sru ns ≡ true)
      × (can_cover (λ n. n.chain_mru) d.mru ns ≡ true)
      × (can_cover (λ n. n.chain_hru) d.hru ns ≡ true)
unfolding can_meet
can_meet-parts d ns h = ground arith

-- A demand is met where it is 0 or one of the nodes has as much.
abbrev pub Met : (Node → ℕ) → ℕ → List Node → Type 0
Met has d sel = (d ≡ 0) ⊎ Any (λ n. d ≤ has n) sel

selected-IsIn :
    (ns : List Node) (d : Capacity) {sel : List Node}
    → (select_from ns d).0 ≡ sel
    → All (λ m. IsIn m ns × (m.power_state ≡ off)) sel
selected-IsIn ns d e =
    subst (All (λ m. IsIn m ns × (m.power_state ≡ off))) e (select_from-All _ ns d (All-IsIn ns))

-- A selection that is given holds nodes of the list which are off, and for each of the four
-- resources the demand is 0 or one selected node has all of it.
pub select_nodes_to_power_on_sound :
    (ns : List Node) (d : Capacity) {sel : List Node}
    → select_nodes_to_power_on ns d ≡ ok sel
    → All (λ m. IsIn m ns × (m.power_state ≡ off)) sel
      × Met (λ n. n.chain_cru) d.cru sel
      × Met (λ n. n.chain_sru) d.sru sel
      × Met (λ n. n.chain_mru) d.mru sel
      × Met (λ n. n.chain_hru) d.hru sel
select_nodes_to_power_on_sound ns d {sel} h = elim (Bool-cases (can_meet d ns)) [
  | inr short ↦ cc (select_nodes_to_power_on-can_meet ns d, short)
  | inl enough ↦
      let given : ok (select_from ns d).0 ≡ ok sel =
        rw enough at (sym (select_nodes_to_power_on-can_meet ns d) ∙ h) in
      let e : (select_from ns d).0 ≡ sel = cc in
      let (cru, sru, mru, hru) = can_meet-parts d ns enough in
      (
        selected-IsIn ns d e,
        rw e at (
            select_from-serves (λ n. n.chain_cru) (λ c. c.cru) after_cru
              (λ c m. (is_met-zero c m).0) counts_cru ns d cru),
        rw e at (
            select_from-serves (λ n. n.chain_sru) (λ c. c.sru) after_sru
              (λ c m. (is_met-zero c m).1) counts_sru ns d sru),
        rw e at (
            select_from-serves (λ n. n.chain_mru) (λ c. c.mru) after_mru
              (λ c m. (is_met-zero c m).2) counts_mru ns d mru),
        rw e at (
            select_from-serves (λ n. n.chain_hru) (λ c. c.hru) after_hru
              (λ c m. (is_met-zero c m).3) counts_hru ns d hru),
      )
]
