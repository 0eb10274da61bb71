-- ===== src/Router/Flat.antt =====
-- `call` of rmb-sdk-go/peer/router.go against a flat table: a path has a chain of middlewares and
-- perhaps a handler.
use tfgrid_sdk_go.Prelude.{
  ℕ, ◌≡◌, refl, sym, ◌∙◌, ap, Bool, true, false, List, [], ◌∷◌, ◌++◌, Option, none, some, Result,
  err, Result-cases, Option-cases, inl, inr, if◌then◌else◌,
}
use tfgrid_sdk_go.Router.{
  Text, text_eq, HandlerFunc, Middleware, Handlers, Router, router, Routes, no_routes, route,
  CallError, function_not_found, find_handler, before_dot, after_dot, run_middlewares, recover,
  then_call, call, call_sub,
}

-- A router's own middlewares and the handler that it finds, or those of the sub router.
abbrev path_end :
    List Middleware
    → Option HandlerFunc
    → List Middleware × Option HandlerFunc
    → List Middleware × Option HandlerFunc
path_end mws (some handler) sub = (mws, some handler)
path_end mws none (later, handler) = (mws ++ later, handler)

-- The middlewares of all routers on the way, and the handler at its end.
unfoldable mutual
  pub path_of : Router → Text → List Middleware × Option HandlerFunc
  path_of (router handlers subs mws) path =
      path_end mws (find_handler path handlers) (path_in subs (before_dot path) (after_dot path))

  pub path_in : Routes → Text → Text → List Middleware × Option HandlerFunc
  path_in no_routes key path = ([], none)
  path_in (route name r rest) key path =
      let others = path_in rest key path in
      let found = path_of r path in if text_eq name key then found else others

-- The whole chain first, then the handler.
unfoldable pub call_flat : List Middleware × Option HandlerFunc → ℕ → ℕ → Result CallError ℕ
call_flat (mws, handler) ctx payload = then_call (run_middlewares mws ctx payload) λ next.
    elim handler as (λ r. Result CallError ℕ) [
      | some h ↦ recover (h next payload)
      | none ↦ err function_not_found
    ]

-- A chain in two parts stops in the first one, or goes on with its context.
module _ (later : List Middleware) (handler : Option HandlerFunc) (payload : ℕ)
    (f : ℕ → Result CallError ℕ)
    (same : (next : ℕ) → f next ≡ call_flat (later, handler) next payload) where
  then_call-append :
      (mws : List Middleware) (ctx : ℕ)
      → then_call (run_middlewares mws ctx payload) f
        ≡ call_flat (mws ++ later, handler) ctx payload
  unfolding run_middlewares call_flat
  then_call-append [] ctx = same ctx
  then_call-append (mw ∷ mws) ctx = elim (Result-cases (mw ctx payload)) [
    | inl (next, accepted) ↦ rw (accepted, run_middlewares) (then_call-append mws next)
    | inr (e, refused) ↦ rw (refused, run_middlewares) refl
  ]

module _ (handlers : Handlers) (subs : Routes) (mws : List Middleware) (path : Text) where
  pub path_of-none :
      find_handler path handlers ≡ none
      → path_of (router handlers subs mws) path ≡ (
        mws ++ (path_in subs (before_dot path) (after_dot path)).0,
        (path_in subs (before_dot path) (after_dot path)).1,
      )
  unfolding path_of
  path_of-none unknown =
      ap (λ o. path_end mws o (path_in subs (before_dot path) (after_dot path))) unknown

  pub path_of-some :
      {h : HandlerFunc}
      → find_handler path handlers ≡ some h
      → path_of (router handlers subs mws) path ≡ (mws, some h)
  unfolding path_of
  path_of-some found =
      ap (λ o. path_end mws o (path_in subs (before_dot path) (after_dot path))) found

  call-none :
      (ctx payload : ℕ)
      → find_handler path handlers ≡ none
      → call (router handlers subs mws) ctx path payload
        ≡ then_call
            (run_middlewares mws ctx payload)
            (λ next. call_sub subs (before_dot path) next (after_dot path) payload)
  unfolding call
  call-none ctx payload unknown = rw unknown refl

  call-some :
      (ctx payload : ℕ) {h : HandlerFunc}
      → find_handler path handlers ≡ some h
      → call (router handlers subs mws) ctx path payload ≡ call_flat (mws, some h) ctx payload
  unfolding call call_flat
  call-some ctx payload found = rw found refl

if-call_flat :
    (b : Bool) (p q : List Middleware × Option HandlerFunc) (ctx payload : ℕ)
    {x y : Result CallError ℕ}
    → x ≡ call_flat p ctx payload
    → y ≡ call_flat q ctx payload
    → (if b then x else y) ≡ call_flat (if b then p else q) ctx payload
if-call_flat true p q ctx payload hx hy = hx
if-call_flat false p q ctx payload hx hy = hy

mutual
  unfolding call path_of call_flat run_middlewares

  router-call_flat :
      (r : Router) (ctx : ℕ) (path : Text) (payload : ℕ)
      → call r ctx path payload ≡ call_flat (path_of r path) ctx payload
  router-call_flat (router handlers subs mws) ctx path payload =
      elim (Option-cases (find_handler path handlers)) [
        | inr (h, found) ↦
            call-some handlers subs mws path ctx payload found
            ∙ ap (λ q. call_flat q ctx payload) (sym (path_of-some handlers subs mws path found))
        | inl unknown ↦
            call-none handlers subs mws path ctx payload unknown
            ∙ then_call-append _ _ payload _
                (λ next. call_sub-call_flat subs next (before_dot path) (after_dot path) payload)
                mws ctx
            ∙ ap (λ q. call_flat q ctx payload) (sym (path_of-none handlers subs mws path unknown))
      ]

  call_sub-call_flat :
      (rs : Routes) (ctx : ℕ) (key path : Text) (payload : ℕ)
      → call_sub rs key ctx path payload ≡ call_flat (path_in rs key path) ctx payload
  call_sub-call_flat no_routes ctx key path payload = refl
  call_sub-call_flat (route name r rest) ctx key path payload =
      if-call_flat (text_eq name key) (path_of r path) (path_in rest key path) ctx payload
        (router-call_flat r ctx path payload) (call_sub-call_flat rest ctx key path payload)

-- `call` is the same as running the middlewares of all routers on the path, from the outermost one,
-- up to the first error, and then the handler at the end of the path, if there is one.
pub call-call_flat :
    (r : Router) (ctx : ℕ) (path : Text) (payload : ℕ)
    → call r ctx path payload ≡ call_flat (path_of r path) ctx payload
call-call_flat = router-call_flat
