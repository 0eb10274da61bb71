-- ===== src/Farmerbot/Refresh/Updated.antt =====
-- What `update` and `getNode` of the farmerbot leave in a node (farmerbot/internal/types.go, state.go).
use tfgrid_sdk_go.Prelude.{
  ℕ, ◌<◌, ◌≡◌, refl, ap, ◌∙◌, ◌⊎◌, inl, inr, Bool, true, false, not, ◌||◌, ◌&&◌, List, Result, ok,
  err, arith, ◌==◌, if◌then◌else◌, if_intro, Result-cases, ok_inj, subst,
}
use tfgrid_sdk_go.Farmerbot.Env.{
  Counters, PoolMetrics, Gpu, ChainError, ChainNode, Substrate, Rmb, TargetCall, PowerTarget,
}
use tfgrid_sdk_go.Farmerbot.Env.Laws.{AnswersById}
use tfgrid_sdk_go.Farmerbot.Node.{Node, update_resources, has_claimed_resources}
use tfgrid_sdk_go.Farmerbot.State.{Error, chain_error, invalid_node_id, invalid_twin_id}
use tfgrid_sdk_go.Farmerbot.Refresh.{
  Update, ◌>>=◌, ◌>>◌, ask, ask_node, modify, raise_if, read_contracts, read_chain, read_pools,
  read_node, follow_target, update, unless_asleep, zero_node, total_from_chain, fetch_node,
  rent_contract, is_nil, is_asleep,
}
use tfgrid_sdk_go.Farmerbot.Refresh.Target.{follow_target_rest}

-- An action that keeps an invariant of the node, also when it fails.
pub record Keeps (I : Node → Type 0) {A : Type 0} (m : Update A) : Type 0 where
  pub keeps : (n : Node) → I n → I (m n).1

module _ {I : Node → Type 0} where
  bind-Keeps :
      {A B : Type 0} (m : Update A) (f : A → Update B)
      → Keeps I m
      → ((a : A) → Keeps I (f a))
      → Keeps I (m >>= f)
  bind-Keeps {A = A} {B = B} m f hm hf = record {
    keeps = λ n i. after (m n).0 (m n).1 (hm.keeps n i);
  }
    where
      after :
          (r : Result Error A) (n' : Node)
          → I n'
          → I (elim r as (λ x. Result Error B × Node) [ ok a ↦ f a n' | err e ↦ (err e, n') ]).1
      after (ok a) n' i = (hf a).keeps n' i
      after (err e) n' i = i

  ask-Keeps :
      {A B : Type 0} (r : Result ChainError A) (f : A → Update B)
      → ((a : A) → Keeps I (f a))
      → Keeps I (ask r >>= f)
  ask-Keeps (ok a) f h = record { keeps = λ n i. (h a).keeps n i }
  ask-Keeps (err e) f h = record { keeps = λ n i. i }

  ask_node-Keeps :
      {A B : Type 0} (r : Result ℕ A) (f : A → Update B)
      → ((a : A) → Keeps I (f a))
      → Keeps I (ask_node r >>= f)
  ask_node-Keeps (ok a) f h = record { keeps = λ n i. (h a).keeps n i }
  ask_node-Keeps (err e) f h = record { keeps = λ n i. i }

  modify-Keeps :
      {B : Type 0} (g : Node → Node) (m : Update B)
      → ((n : Node) → I n → I (g n))
      → Keeps I m
      → Keeps I (modify g >> m)
  modify-Keeps g m h k = record { keeps = λ n i. k.keeps (g n) (h n i) }

  -- An invariant that reads none of the fields which the contracts set.
  pub read_contracts-Keeps :
      (sub : Substrate) (calls : List TargetCall) (now : ℕ) (farm : Bool) (k : ℕ)
      → ((n : Node) → I n → I (record n { dedicated = true }))
      → ((n : Node) (b : Bool) → I n → I (record n { has_active_rent_contract = b }))
      → ((n : Node) (b : Bool) → I n → I (record n { has_active_contracts = b }))
      → ((n : Node) (t : PowerTarget) → I n → I (follow_target now t n))
      → Keeps I (read_contracts sub calls now farm k)
  unfolding read_contracts
  read_contracts-Keeps sub calls now farm k hd hr hc ht =
      ask-Keeps (sub.get_dedicated_node_price k) _ λ price.
        modify-Keeps (λ n. if not (price == 0) || farm then record n { dedicated = true } else n) _
          (λ n i. if_intro I (not (price == 0) || farm) (hd n i) i)
          (ask-Keeps (rent_contract (sub.get_node_rent_contract k)) _ λ contract.
            modify-Keeps (λ n. record n { has_active_rent_contract = not (contract == 0) }) _
              (λ n i. hr n (not (contract == 0)) i)
              (ask-Keeps (sub.get_node_contracts k) _ λ contracts.
                modify-Keeps (λ n. record n { has_active_contracts = not (is_nil contracts) }) _
                  (λ n i. hc n (not (is_nil contracts)) i)
                  (ask-Keeps (sub.get_power_target calls k)
                    (λ target. modify (follow_target now target))
                    (λ target. record { keeps = λ n i. ht n target i }))))

  pub read_chain_keeps :
      (sub : Substrate) (calls : List TargetCall) (now : ℕ) (pinned farm : Bool) (k : ℕ)
      → ((c : ChainNode) (n : Node)
          → sub.get_chain_node k ≡ ok c
          → I n
          → I (record n { chain = c; never_shut_down = pinned }))
      → Keeps I (read_contracts sub calls now farm k)
      → (n : Node) → I n
      → I (read_chain sub calls now pinned farm k n).1
  unfolding read_chain
  read_chain_keeps sub calls now pinned farm k hn hc n i =
      elim (Result-cases (sub.get_chain_node k)) [
        | inl (c, e) ↦ rw (e, read_chain) (hc.keeps _ (hn c n e i))
        | inr (x, e) ↦ rw (e, read_chain) i
      ]

  read_pools-Keeps :
      (rmb : Rmb) (twin : ℕ)
      → ((n : Node) (ps : List PoolMetrics) → I n → I (record n { pools = ps }))
      → ((n : Node) (gs : List Gpu) → I n → I (record n { gpus = gs }))
      → Keeps I (read_pools rmb twin)
  unfolding read_pools
  read_pools-Keeps rmb twin hp hg = ask_node-Keeps (rmb.get_storage_pools twin) _ λ ps.
      modify-Keeps (λ n. record n { pools = ps }) _ (λ n i. hp n ps i)
        (ask_node-Keeps (rmb.list_gpus twin) (λ gs. modify (λ n. record n { gpus = gs }))
          (λ gs. record { keeps = λ n i. hg n gs i }))

  pub read_node-Keeps :
      (rmb : Rmb) (claimed : Bool) (twin : ℕ)
      → (claimed ≡ false → (n : Node) (stats : Counters) → I n → I (update_resources n stats))
      → Keeps I (read_pools rmb twin)
      → Keeps I (read_node rmb claimed twin)
  unfolding read_node
  read_node-Keeps rmb true twin hs hp = hp
  read_node-Keeps rmb false twin hs hp =
      ask_node-Keeps (rmb.statistics twin) _
        λ stats. modify-Keeps (λ n. update_resources n stats) _ (λ n i. hs refl n stats i) hp

module _ (sub : Substrate) (rmb : Rmb) (calls : List TargetCall) (now : ℕ)
    (pinned farm go_on : Bool) (old : Node) where
  -- What every step of `update` keeps, the whole of it keeps.
  update_keeps :
      (I : Node → Type 0)
      → ((c : ChainNode) (n : Node)
          → sub.get_chain_node old.id ≡ ok c
          → I n
          → I (record n { chain = c; never_shut_down = pinned }))
      → Keeps I (read_contracts sub calls now farm old.id)
      → ((n : Node) → I n → I (read_node rmb (has_claimed_resources now n) old.twin_id n).1)
      → I old
      → I (update sub rmb calls now pinned farm go_on old).1
  unfolding update
  update_keeps I hc hr hn i =
      (bind-Keeps (raise_if (old.id == 0) invalid_node_id) _ (record { keeps = λ n j. j })
          λ _.
            bind-Keeps (raise_if (old.twin_id == 0) invalid_twin_id) _ (record { keeps = λ n j. j })
              λ _.
                bind-Keeps (read_chain sub calls now pinned farm old.id) (λ _. rest)
                  (record {
                    keeps = λ n j. read_chain_keeps sub calls now pinned farm old.id hc hr n j;
                  })
                  (λ _. record {
                    keeps = λ n j.
                        if_intro (λ r. I r.1) (is_asleep n && go_on) {x = (ok tt, n)} {y = read n n}
                          j (hn n j);
                  })).keeps
        old i
    where
      read : Node → Update (Unit {0})
      read n = read_node rmb (has_claimed_resources now n) old.twin_id

      rest : Update (Unit {0})
      rest = unless_asleep go_on (λ n. n) read

  -- Where the chain answers a request for a node with the node of that id, a node keeps its id, also
  -- where its update fails halfway.
  pub update-id : AnswersById sub → (update sub rmb calls now pinned farm go_on old).1.id ≡ old.id
  unfolding update_resources
  update-id answers =
      update_keeps (λ n. n.id ≡ old.id) (λ c n e i. answers.chain_id old.id c e)
        (read_contracts-Keeps sub calls now farm old.id (λ n i. i) (λ n b i. i) (λ n b i. i)
          (λ n t i. ap (λ c. c.id) (follow_target_rest now t n).0 ∙ i))
        (λ n i.
          (read_node-Keeps {I = λ m. m.id ≡ old.id} rmb (has_claimed_resources now n) old.twin_id
              (λ _ m stats j. j)
              (read_pools-Keeps rmb old.twin_id (λ m ps j. j) (λ m gs j. j))).keeps
            n i)
        refl

  -- While the claim on a node lasts, an update changes neither its resources, nor its number of used
  -- public addresses, nor the time-out, whatever the chain and the node answer.
  pub update_protects_claims :
      now < old.timeout_claimed_resources
      → let n = (update sub rmb calls now pinned farm go_on old).1 in
        (n.resources ≡ old.resources)
        × (n.public_ips_used ≡ old.public_ips_used)
        × (n.timeout_claimed_resources ≡ old.timeout_claimed_resources)
  update_protects_claims lasts =
      update_keeps Kept (λ c n e i. i)
        (read_contracts-Keeps sub calls now farm old.id (λ n i. i) (λ n b i. i) (λ n b i. i)
          (λ n t i.
            let rest = follow_target_rest now t n in (rest.1 ∙ i.0, rest.2 ∙ i.1, rest.3 ∙ i.2)))
        (λ n i.
          (read_node-Keeps {I = Kept} rmb (has_claimed_resources now n) old.twin_id
              (λ over m stats j. absurd (not_claimed n i over))
              (read_pools-Keeps rmb old.twin_id (λ m ps j. j) (λ m gs j. j))).keeps
            n i)
        (refl, refl, refl)
    where
      Kept : Node → Type 0
      Kept n =
          (n.resources ≡ old.resources)
          × (n.public_ips_used ≡ old.public_ips_used)
          × (n.timeout_claimed_resources ≡ old.timeout_claimed_resources)

      not_claimed : (n : Node) → Kept n → has_claimed_resources now n ≡ false → ⊥
      not_claimed n (_, _, same) over = ground arith

-- The id after the chain has answered.
read_chain-id :
    (sub : Substrate) (calls : List TargetCall) (now : ℕ) (pinned farm : Bool) (k : ℕ) (n : Node)
    → AnswersById sub
    → ((read_chain sub calls now pinned farm k n).1.id ≡ k)
      ⊎ ((e : Error) × ((read_chain sub calls now pinned farm k n).0 ≡ err e))
unfolding read_chain
read_chain-id sub calls now pinned farm k n answers = elim (Result-cases (sub.get_chain_node k)) [
  | inl (c, e) ↦
      rw (e, read_chain)
        (inl (
          (read_contracts-Keeps {I = λ m. m.id ≡ k} sub calls now farm k (λ n i. i) (λ n b i. i)
              (λ n b i. i) (λ n t i. ap (λ c. c.id) (follow_target_rest now t n).0 ∙ i)).keeps
            _ (answers.chain_id k c e)))
  | inr (x, e) ↦ rw (e, read_chain) (inr (chain_error x, refl))
]

-- An action that fails, or has made the invariant hold for what follows.
module _ (I : Node → Type 0) where
  bind_makes :
      {A B : Type 0} (m : Update A) (f : A → Update B) (n : Node)
      → (I (m n).1 ⊎ ((e : Error) × ((m n).0 ≡ err e)))
      → ((a : A) → Keeps I (f a))
      → I ((m >>= f) n).1 ⊎ ((e : Error) × (((m >>= f) n).0 ≡ err e))
  bind_makes {A = A} {B = B} m f n hm hf = after (m n).0 (m n).1 hm
    where
      after :
          (r : Result Error A) (n' : Node)
          → (I n' ⊎ ((e : Error) × (r ≡ err e)))
          → let s = elim r as (λ x. Result Error B × Node) [
            | ok a ↦ f a n'
            | err e ↦ (err e, n')
          ] in
            I s.1 ⊎ ((e : Error) × (s.0 ≡ err e))
      after (ok a) n' (inl i) = inl ((hf a).keeps n' i)
      after (ok a) n' (inr (e, h)) = cc
      after (err e) n' h = inr (e, refl)

  made :
      (r : Result Error (Unit {0})) (n : Node) {node : Node}
      → (I n ⊎ ((e : Error) × (r ≡ err e)))
      → (elim r as (λ x. Result Error Node) [ ok _ ↦ ok n | err e ↦ err e ]) ≡ ok node
      → I node
  made (ok u) n (inl i) h = subst I (ok_inj h) i
  made (ok u) n (inr (e, bad)) h = cc
  made (err e) n i h = cc

-- A node that is fetched has the id that was asked for.
pub fetch_node-id :
    (sub : Substrate) (rmb : Rmb) (calls : List TargetCall) (now k : ℕ) (go_on pinned farm : Bool)
    {node : Node}
    → AnswersById sub
    → fetch_node sub rmb calls now k go_on pinned farm ≡ ok node
    → node.id ≡ k
unfolding fetch_node update_resources total_from_chain
fetch_node-id sub rmb calls now k go_on pinned farm answers h =
    made (λ n. n.id ≡ k) _ _
      (bind_makes (λ n. n.id ≡ k) (read_chain sub calls now pinned farm k) (λ _. rest) zero_node
        (read_chain-id sub calls now pinned farm k zero_node answers)
        (λ _. record {
          keeps = λ n j.
              if_intro (λ r. r.1.id ≡ k) (is_asleep n && go_on) {x = (ok tt, total_from_chain n)}
                {y = read n n} (kept_total n j) ((read_keeps n).keeps n j);
        }))
      h
  where
    read : Node → Update (Unit {0})
    read n = read_node rmb false n.twin_id

    read_keeps : (n : Node) → Keeps (λ m. m.id ≡ k) (read n)
    read_keeps n =
        read_node-Keeps rmb false n.twin_id (λ _ m stats j. j)
          (read_pools-Keeps rmb n.twin_id (λ m ps j. j) (λ m gs j. j))

    kept_total : (n : Node) → n.id ≡ k → (total_from_chain n).id ≡ k
    kept_total n j = j

    rest : Update (Unit {0})
    rest = unless_asleep go_on total_from_chain read
