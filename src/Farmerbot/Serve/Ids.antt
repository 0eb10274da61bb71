-- ===== src/Farmerbot/Serve/Ids.antt =====
-- No request gives the farmerbot two nodes with the same id (`serve` of farmerbot/internal/farmerbot.go).
use tfgrid_sdk_go.Prelude.{
  ℕ, ◌≡◌, refl, ap, sym, subst, ◌∙◌, inl, inr, Bool, false, not, ◌||◌, ◌&&◌, List, [], ◌∷◌, ◌++◌,
  Option, none, some, Result, ok, err, arith, ◌==◌, length, contains, if◌then◌else◌, Bool-cases,
  Option-cases, Result-cases, list_cases, keep, if_intro,
}
use tfgrid_sdk_go.Prelude.Dedup.{Distinct, Distinct-snoc}
use tfgrid_sdk_go.Farmerbot.Env.{Substrate, Rmb, FloatOps}
use tfgrid_sdk_go.Farmerbot.Env.Laws.{AnswersById}
use tfgrid_sdk_go.Farmerbot.Node.{Node, state_eq, off, shutting_down}
use tfgrid_sdk_go.Farmerbot.State.{State, Error, get_node, add_node}
use tfgrid_sdk_go.Farmerbot.State.Lookup.{ids, Distinct-delete_node}
use tfgrid_sdk_go.Farmerbot.Power.{power_on, store_node}
use tfgrid_sdk_go.Farmerbot.Power.Guards.{switch_ids}
use tfgrid_sdk_go.Farmerbot.Capacity.{Capacity}
use tfgrid_sdk_go.Farmerbot.FindNode.{
  NodeFilterOption, take_node, find_node, store_found, claimed, enough_public_ips, with_num_gpu,
  options_capacity, is_possible,
}
use tfgrid_sdk_go.Farmerbot.Power.Switch.{store_node-ids}
use tfgrid_sdk_go.Farmerbot.Refresh.{fetch_node}
use tfgrid_sdk_go.Farmerbot.Refresh.Updated.{fetch_node-id}
use tfgrid_sdk_go.Farmerbot.Serve.{
  Balance, include_node, serve_power_off, serve_power_on, release, Request, findnode, includenode,
  poweroff, poweron, authorize, authorized, drop_value, serve, validate_account_enough_balance,
}

ids-add_node : (ns : List Node) (n : Node) → ids (add_node ns n) ≡ ids ns ++ n.id ∷ []
unfolding add_node
ids-add_node [] n = refl
ids-add_node (x ∷ ns) n = ap (λ l. x.id ∷ l) (ids-add_node ns n)

-- An id that is not found is not listed.
get_node-none : (ns : List Node) (k : ℕ) → get_node ns k ≡ none → contains (ids ns) k ≡ false
unfolding get_node
get_node-none [] k h = refl
get_node-none (n ∷ ns) k h = ground (arith, get_node-none ns k)

abbrev pub HasDistinctIds : State → Type 0
HasDistinctIds f = Distinct (ids f.nodes)

include_node-Distinct :
    (sub : Substrate) (rmb : Rmb) (now k : ℕ) (f : State)
    → AnswersById sub
    → HasDistinctIds f
    → HasDistinctIds (include_node sub rmb now k f).1
unfolding include_node
include_node-Distinct sub rmb now k f answers d = elim (Option-cases (get_node f.nodes k)) [
  | inr (n, found) ↦ rw (found, include_node) d
  | inl absent ↦ elim (Bool-cases refused) [
    | inl out ↦ rw (absent, include_node, out) d
    | inr in_farm ↦ elim (Result-cases fetched) [
      | inr (e, failed) ↦ rw (absent, include_node, in_farm, failed) d
      | inl (node, got) ↦
          rw (absent, include_node, in_farm, got)
            (subst Distinct (sym (ids-add_node f.nodes node)) (
              Distinct-snoc (ids f.nodes) node.id d (
                subst (λ j. contains (ids f.nodes) j ≡ false)
                  (sym (fetch_node-id sub rmb f.calls now k _ _ _ answers got))
                  (get_node-none f.nodes k absent))))
    ]
  ]
]
  where
    open f use {config}

    refused : Bool
    refused =
        contains config.excluded_nodes k
        || length config.excluded_nodes == 0 && not (contains config.included_nodes k)

    fetched : Result Error Node
    fetched =
        fetch_node sub rmb f.calls now k config.continue_on_powering_on_err
          (contains config.never_shut_down_nodes k) f.farm.dedicated_farm

release-Distinct :
    (k : ℕ) (r : Option Error × State) → HasDistinctIds r.1 → HasDistinctIds (release k r).1
release-Distinct k (none, g) d = Distinct-delete_node g.nodes k d
release-Distinct k (some e, g) d = d

module _ (fl : FloatOps) (sub : Substrate) (balance : Balance) (now k : ℕ) (f : State) where
  serve_power_on-Distinct :
      HasDistinctIds f → HasDistinctIds (serve_power_on fl sub balance now k f).1
  unfolding serve_power_on
  serve_power_on-Distinct d = elim (Option-cases (validate_account_enough_balance fl balance)) [
    | inr (e, poor) ↦ rw (poor, serve_power_on) d
    | inl rich ↦
        rw (rich, serve_power_on)
          (release-Distinct k _ (subst Distinct (sym (switch_ids sub now k f).0) d))
  ]

  serve_power_off-Distinct :
      HasDistinctIds f → HasDistinctIds (serve_power_off fl sub balance now k f).1
  unfolding serve_power_off
  serve_power_off-Distinct d = elim (Option-cases (validate_account_enough_balance fl balance)) [
    | inr (e, poor) ↦ rw (poor, serve_power_off) d
    | inl rich ↦
        rw (rich, serve_power_off)
          (release-Distinct k _ (subst Distinct (sym (switch_ids sub now k f).1) d))
  ]

store_found-ids :
    (found : Node) (r : Option Error × State) → ids (store_found found r).1.nodes ≡ ids r.1.nodes
store_found-ids found (some e, g) = refl
store_found-ids found (none, g) = elim (Option-cases (store_node g found).0) [
  | inl stored ↦ rw (stored, store_found) (store_node-ids g found)
  | inr (e, failed) ↦ rw (failed, store_found) (store_node-ids g found)
]

take_node-ids :
    (sub : Substrate) (now : ℕ) (o : NodeFilterOption) (room : Capacity) (n : Node) (f : State)
    → ids (take_node sub now o room n f).1.nodes ≡ ids f.nodes
unfolding take_node
take_node-ids sub now o room n f =
    store_found-ids found (if asleep then woken else (none, f))
    ∙ if_intro (λ r. ids r.1.nodes ≡ ids f.nodes) asleep {x = woken} {y = (none, f)}
        (switch_ids sub now found.id f).0 refl
  where
    found : Node
    found = claimed now o room n

    asleep : Bool
    asleep = state_eq found.power_state off || state_eq found.power_state shutting_down

    woken : Option Error × State
    woken = power_on sub now found.id f

find_node-ids :
    (fl : FloatOps) (sort : List Node → List Node) (sub : Substrate) (now : ℕ)
    (o : NodeFilterOption) (f : State)
    → ids (find_node fl sort sub now o f).1.nodes ≡ ids f.nodes
unfolding find_node
find_node-ids fl sort sub now o f = elim (Bool-cases (enough_public_ips f (with_num_gpu o))) [
  | inr few ↦ rw (few, find_node) refl
  | inl enough ↦ elim (list_cases suitable) [
    | inl empty ↦ rw (enough, find_node, empty) refl
    | inr (n, rest, e) ↦
        rw (enough, find_node, e) (take_node-ids sub now (with_num_gpu o) (options_capacity o) n f)
  ]
]
  where
    suitable : List Node
    suitable = sort (keep (is_possible fl f (with_num_gpu o) (options_capacity o)) f.nodes)

authorized-Distinct :
    (own twin : ℕ) (f : State) (r : Option Error × State)
    → HasDistinctIds f
    → HasDistinctIds r.1
    → HasDistinctIds (authorized own twin f r).1
authorized-Distinct own twin f r d d' = elim (Option-cases (authorize own twin)) [
  | inl granted ↦ rw (granted, authorized) d'
  | inr (e, denied) ↦ rw (denied, authorized) d
]

drop_value-state : (r : Result Error ℕ × State) → (drop_value r).1 ≡ r.1
drop_value-state (ok k, f) = refl
drop_value-state (err e, f) = refl

-- Where the chain answers a request for a node with the node of that id: if the ids of the nodes are
-- distinct, they are distinct after any request, whoever sends it and however it ends.
pub serve-HasDistinctIds :
    (fl : FloatOps) (sort : List Node → List Node) (sub : Substrate) (rmb : Rmb) (balance : Balance)
    (own_twin now twin : ℕ) (q : Request) (f : State)
    → AnswersById sub
    → HasDistinctIds f
    → HasDistinctIds (serve fl sort sub rmb balance own_twin now twin q f).1
unfolding serve
serve-HasDistinctIds fl sort sub rmb balance own_twin now twin (findnode o) f answers d =
    subst (λ g. HasDistinctIds g) (sym (drop_value-state (find_node fl sort sub now o f)))
      (subst Distinct (sym (find_node-ids fl sort sub now o f)) d)
serve-HasDistinctIds fl sort sub rmb balance own_twin now twin (includenode k) f answers d =
    authorized-Distinct own_twin twin f _ d (include_node-Distinct sub rmb now k f answers d)
serve-HasDistinctIds fl sort sub rmb balance own_twin now twin (poweroff k) f answers d =
    authorized-Distinct own_twin twin f _ d (serve_power_off-Distinct fl sub balance now k f d)
serve-HasDistinctIds fl sort sub rmb balance own_twin now twin (poweron k) f answers d =
    authorized-Distinct own_twin twin f _ d (serve_power_on-Distinct fl sub balance now k f d)
