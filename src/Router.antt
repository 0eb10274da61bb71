-- ===== src/Router.antt =====
-- The router of the direct client, rmb-sdk-go/peer/router.go. A text is the list of its bytes. What is
-- only handed on, as a context, a payload, a response and an error, is a number. A pointer to a sub
-- router is the path of prefixes that leads to it.
pub mod Flat
pub mod Semantics
pub mod Register
mod Tests
use tfgrid_sdk_go.Prelude.{
  ℕ, Bool, true, false, ◌&&◌, List, [], ◌∷◌, ◌++◌, Option, none, some, Result, ok, err, ◌>>=◌, ◌==◌,
  if◌then◌else◌,
}
use mathlib.Core.Option

abbrev pub Text : Type 0
Text = List ℕ

abbrev pub dot : ℕ
dot = 46

unfoldable pub text_eq : Text → Text → Bool
text_eq [] [] = true
text_eq [] (y ∷ ys) = false
text_eq (x ∷ xs) [] = false
text_eq (x ∷ xs) (y ∷ ys) = x == y && text_eq xs ys

-- What a handler does when it is called: it returns, or it panics.
pub data Handled : Type 0 where
  returned : Result ℕ ℕ → Handled
  panicked : ℕ → Handled

-- By the context and the payload.
abbrev pub HandlerFunc : Type 0
HandlerFunc = ℕ → ℕ → Handled

abbrev pub Middleware : Type 0
Middleware = ℕ → ℕ → Result ℕ ℕ

abbrev pub Handlers : Type 0
Handlers = List (Text × HandlerFunc)

-- `Router`, with its map of sub routers.
mutual
  pub data Router : Type 0 where
    router : Handlers → Routes → List Middleware → Router

  pub data Routes : Type 0 where
    no_routes : Routes
    route : Text → Router → Routes → Routes

-- `NewRouter`
abbrev pub new_router : Router
new_router = router [] no_routes []

pub data CallError : Type 0 where
  failed : ℕ → CallError
  function_not_found : CallError
  handler_panicked : ℕ → CallError

unfoldable pub find_handler : Text → Handlers → Option HandlerFunc
find_handler k [] = none
find_handler k ((name, h) ∷ hs) =
    let rest = find_handler k hs in if text_eq name k then some h else rest

-- `strings.SplitN(route, ".", 2)`: what stands before the first dot, and after it, or nothing.
unfoldable pub before_dot : Text → Text
before_dot [] = []
before_dot (x ∷ xs) = let rest = before_dot xs in if x == dot then [] else x ∷ rest

unfoldable pub after_dot : Text → Text
after_dot [] = []
after_dot (x ∷ xs) = let rest = after_dot xs in if x == dot then xs else rest

-- The loop over the middlewares, which hand the context on.
unfoldable pub run_middlewares : List Middleware → ℕ → ℕ → Result ℕ ℕ
run_middlewares [] ctx payload = ok ctx
run_middlewares (mw ∷ mws) ctx payload = do next ← mw ctx payload; run_middlewares mws next payload

-- The deferred `recover`.
unfoldable pub recover : Handled → Result CallError ℕ
recover (returned (ok response)) = ok response
recover (returned (err e)) = err (failed e)
recover (panicked rec) = err (handler_panicked rec)

-- The first error of a middleware ends the call.
abbrev pub then_call : Result ℕ ℕ → (ℕ → Result CallError ℕ) → Result CallError ℕ
then_call (err e) k = err (failed e)
then_call (ok next) k = k next

-- `call`
unfoldable mutual
  pub call : Router → ℕ → Text → ℕ → Result CallError ℕ
  call (router handlers subs mws) ctx path payload =
      then_call (run_middlewares mws ctx payload) λ next.
        elim (find_handler path handlers) as (λ r. Result CallError ℕ) [
          | some handler ↦ recover (handler next payload)
          | none ↦ call_sub subs (before_dot path) next (after_dot path) payload
        ]

  pub call_sub : Routes → Text → ℕ → Text → ℕ → Result CallError ℕ
  call_sub no_routes key ctx path payload = err function_not_found
  call_sub (route name r rest) key ctx path payload =
      let others = call_sub rest key ctx path payload in
      let found = call r ctx path payload in if text_eq name key then found else others

-- What `Serve` reads of an envelope.
pub record Envelope : Type 0 where
  pub command : Option Text
  pub has_default_schema : Bool
  pub plain_payload : Option ℕ

-- `Serve`: the response that is sent, if one is.
unfoldable pub serve_envelope : Router → ℕ → Option ℕ → Envelope → Option (Result CallError ℕ)
serve_envelope r ctx (some bad) env = none
serve_envelope r ctx none env = elim env.command as (λ c. Option (Result CallError ℕ)) [
  | none ↦ none
  | some cmd ↦
      if env.has_default_schema
      then (elim env.plain_payload as (λ p. Option (Result CallError ℕ)) [
        | none ↦ none
        | some payload ↦ some (call r ctx cmd payload)
      ])
      else none
]

-- `SubRoute` gives the sub router under a prefix, a new one where there is none, and panics at a dot.
-- `modify_sub` is that call and what is then done with the sub router.
unfoldable pub has_dot : Text → Bool
has_dot [] = false
has_dot (x ∷ xs) = let rest = has_dot xs in if x == dot then true else rest

unfoldable pub modify_route : Text → (Router → Option Router) → Routes → Option Routes
modify_route prefix f no_routes = Option.map (λ r. route prefix r no_routes) (f new_router)
modify_route prefix f (route name r rest) =
    let others = modify_route prefix f rest in
    if text_eq name prefix
    then Option.map (λ r'. route name r' rest) (f r)
    else Option.map (route name r) others

unfoldable pub modify_sub : Text → (Router → Option Router) → Router → Option Router
modify_sub prefix f (router handlers subs mws) =
    if has_dot prefix
    then none
    else Option.map (λ changed. router handlers changed mws) (modify_route prefix f subs)

-- A chain of `SubRoute` calls, and what is done with the router at its end.
unfoldable pub modify_at : List Text → (Router → Option Router) → Router → Option Router
modify_at [] f r = f r
modify_at (prefix ∷ prefixes) f r = modify_sub prefix (modify_at prefixes f) r

abbrev pub is_found : Option HandlerFunc → Bool
is_found none = false
is_found (some h) = true

-- `WithHandler`, which panics where the name is taken.
unfoldable pub with_handler : Text → HandlerFunc → Router → Option Router
with_handler sub_command handler (router handlers subs mws) =
    if is_found (find_handler sub_command handlers)
    then none
    else some (router ((sub_command, handler) ∷ handlers) subs mws)

-- `Use`
unfoldable pub use_middleware : Middleware → Router → Option Router
use_middleware mw (router handlers subs mws) = some (router handlers subs (mws ++ mw ∷ []))
