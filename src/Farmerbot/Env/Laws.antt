-- ===== src/Farmerbot/Env/Laws.antt =====
-- What the farmerbot relies on in the code that it calls, as hypotheses of the theorems: IEEE 754 on
-- the integers that a float64 holds exactly, and that the chain answers about the node it is asked for.
use tfgrid_sdk_go.Prelude.{ℕ, ◌*◌, ◌^◌, ◌<◌, ◌≡◌, ok, ltb}
use tfgrid_sdk_go.Prelude.Int.{pos}
use tfgrid_sdk_go.Farmerbot.Env.{Substrate, ChainNode, FloatOps}

-- Every integer below this bound is a float64.
abbrev pub exact_bound : ℕ
exact_bound = 2 ^ 53

pub record FloatLaws (fl : FloatOps) : Type 0 where
  pub lt_exact :
      (a b : ℕ)
      → a < exact_bound
      → b < exact_bound
      → fl.float_lt (fl.of_uint64 a) (fl.of_uint64 b) ≡ ltb a b
  pub mul_exact :
      (a b : ℕ)
      → a * b < exact_bound
      → fl.float_mul (fl.of_uint64 a) (fl.of_uint64 b) ≡ fl.of_uint64 (a * b)
  pub int8_exact : (a : ℕ) → a < 128 → fl.of_int8 (pos a) ≡ fl.of_uint64 a
  pub ceil_exact : (a : ℕ) → a < exact_bound → fl.ceil (fl.of_uint64 a) ≡ fl.of_uint64 a
  pub to_exact : (a : ℕ) → a < exact_bound → fl.to_uint64 (fl.of_uint64 a) ≡ a

-- `GetNode` answers with the node of the id.
pub record AnswersById (sub : Substrate) : Type 0 where
  pub chain_id : (k : ℕ) (c : ChainNode) → sub.get_chain_node k ≡ ok c → c.id ≡ k
