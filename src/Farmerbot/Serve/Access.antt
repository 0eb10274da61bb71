-- ===== src/Farmerbot/Serve/Access.antt =====
-- Who may manage the farm, and which nodes can be added to it (`serve`, `authorize` and the handler
-- `includenode` of farmerbot/internal/farmerbot.go).
use tfgrid_sdk_go.Prelude.{
  ℕ, ◌≡◌, ◌≢◌, refl, Bool, true, false, List, [], Option, none, some, arith,
}
use tfgrid_sdk_go.Farmerbot.Env.{Substrate, Rmb, FloatOps}
use tfgrid_sdk_go.Farmerbot.Node.{Node}
use tfgrid_sdk_go.Farmerbot.State.{State, Error, unauthorized, node_excluded, get_node}
use tfgrid_sdk_go.Farmerbot.Setup.{is_managed}
use tfgrid_sdk_go.Farmerbot.Serve.{
  Balance, include_node, Request, findnode, includenode, poweroff, poweron, authorize, authorized,
  serve,
}

-- The requests that change which nodes the farmerbot has, or their power.
abbrev pub is_management : Request → Bool
is_management (findnode o) = false
is_management (includenode k) = true
is_management (poweroff k) = true
is_management (poweron k) = true

authorized-other :
    (own twin : ℕ) (f : State) (r : Option Error × State)
    → twin ≢ own
    → authorized own twin f r ≡ (some unauthorized, f)
unfolding authorize
authorized-other own twin f r other = ground arith

-- A request to include a node or to switch its power from a twin other than the farm's is refused
-- with the state unchanged.
pub serve_unauthorized :
    (fl : FloatOps) (sort : List Node → List Node) (sub : Substrate) (rmb : Rmb) (balance : Balance)
    (own_twin now twin : ℕ) (q : Request) (f : State)
    → is_management q ≡ true
    → twin ≢ own_twin
    → serve fl sort sub rmb balance own_twin now twin q f ≡ (some unauthorized, f)
unfolding serve
serve_unauthorized fl sort sub rmb balance own_twin now twin (findnode o) f m other = cc
serve_unauthorized fl sort sub rmb balance own_twin now twin (includenode k) f m other =
    authorized-other own_twin twin f _ other
serve_unauthorized fl sort sub rmb balance own_twin now twin (poweroff k) f m other =
    authorized-other own_twin twin f _ other
serve_unauthorized fl sort sub rmb balance own_twin now twin (poweron k) f m other =
    authorized-other own_twin twin f _ other

-- If the configuration lists neither included nor excluded nodes, the farmerbot manages every node,
-- and a request to include a node that it does not have is refused with the state unchanged.
pub include_node_unlisted :
    (sub : Substrate) (rmb : Rmb) (now k : ℕ) (f : State)
    → f.config.included_nodes ≡ []
    → f.config.excluded_nodes ≡ []
    → get_node f.nodes k ≡ none
    → (is_managed f.config k ≡ true) × (include_node sub rmb now k f ≡ (some node_excluded, f))
unfolding is_managed include_node
include_node_unlisted sub rmb now k f included excluded absent =
    (rw (included, excluded) refl, rw (absent, include_node, included, excluded) refl)
