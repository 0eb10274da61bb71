-- ===== src/Router/Semantics.antt =====
-- `call` of rmb-sdk-go/peer/router.go against rules for what a call may give, which say what a map of
-- handlers, a cut at a dot, a chain of middlewares and a recovered panic are, and no more.
use tfgrid_sdk_go.Prelude.{
  ℕ, ◌≡◌, ◌≢◌, refl, sym, ap, ◌∙◌, subst, ◌⊎◌, inl, inr, true, false, List, [], ◌∷◌, ◌++◌, none,
  some, Result, ok, err, Result-cases, Option-cases, Bool-cases, All, arith, ◌==◌, ==_iff,
}
use tfgrid_sdk_go.Router.{
  Text, dot, text_eq, Handled, returned, panicked, HandlerFunc, Middleware, Handlers, Router,
  router, Routes, no_routes, route, CallError, failed, function_not_found, handler_panicked,
  find_handler, before_dot, after_dot, run_middlewares, recover, call, call_sub,
}

-- Each middleware accepts, with the context that the one before it gave.
pub data Passes (payload : ℕ) : List Middleware → ℕ → ℕ → Type 0 where
  all_passed : (ctx : ℕ) → Passes payload [] ctx ctx
  passes :
      (mw : Middleware) (mws : List Middleware) (ctx next end : ℕ)
      → mw ctx payload ≡ ok next
      → Passes payload mws next end
      → Passes payload (mw ∷ mws) ctx end

-- One refuses with an error, and those before it accept.
pub data Stops (payload : ℕ) : List Middleware → ℕ → ℕ → Type 0 where
  refuses :
      (mw : Middleware) (mws : List Middleware) (ctx e : ℕ)
      → mw ctx payload ≡ err e
      → Stops payload (mw ∷ mws) ctx e
  stops_later :
      (mw : Middleware) (mws : List Middleware) (ctx next e : ℕ)
      → mw ctx payload ≡ ok next
      → Stops payload mws next e
      → Stops payload (mw ∷ mws) ctx e

-- What comes back of a handler.
pub data Answers : Handled → Result CallError ℕ → Type 0 where
  responds : (response : ℕ) → Answers (returned (ok response)) (ok response)
  fails : (e : ℕ) → Answers (returned (err e)) (err (failed e))
  panics : (rec : ℕ) → Answers (panicked rec) (err (handler_panicked rec))

abbrev pub HasHandler : Text → Handlers → HandlerFunc → Type 0
HasHandler path [] h = ⊥
HasHandler path ((name, g) ∷ hs) h =
    ((name ≡ path) × (g ≡ h)) ⊎ ((name ≢ path) × HasHandler path hs h)

abbrev pub HasNoHandler : Text → Handlers → Type 0
HasNoHandler path hs = All (λ x. x.0 ≢ path) hs

abbrev pub HasRoute : Text → Routes → Router → Type 0
HasRoute key no_routes r = ⊥
HasRoute key (route name s rest) r = ((name ≡ key) × (s ≡ r)) ⊎ ((name ≢ key) × HasRoute key rest r)

abbrev pub HasNoRoute : Text → Routes → Type 0
HasNoRoute key no_routes = Unit
HasNoRoute key (route name s rest) = (name ≢ key) × HasNoRoute key rest

-- The path is cut at its first dot; without one all of it is the key.
abbrev pub IsCut : Text → Text → Text → Type 0
IsCut path key rest =
    All (λ x. x ≢ dot) key × (((path ≡ key) × (rest ≡ [])) ⊎ (path ≡ key ++ dot ∷ rest))

-- What a call may give.
pub data Calls (payload : ℕ) : Router → ℕ → Text → Result CallError ℕ → Type 0 where
  stopped :
      (hs : Handlers) (subs : Routes) (mws : List Middleware) (ctx e : ℕ) (path : Text)
      → Stops payload mws ctx e
      → Calls payload (router hs subs mws) ctx path (err (failed e))
  handled :
      (hs : Handlers) (subs : Routes) (mws : List Middleware) (ctx next : ℕ) (path : Text)
      (h : HandlerFunc) (answer : Result CallError ℕ)
      → Passes payload mws ctx next
      → HasHandler path hs h
      → Answers (h next payload) answer
      → Calls payload (router hs subs mws) ctx path answer
  entered :
      (hs : Handlers) (subs : Routes) (mws : List Middleware) (ctx next : ℕ) (path key rest : Text)
      (r : Router) (answer : Result CallError ℕ)
      → Passes payload mws ctx next
      → HasNoHandler path hs
      → IsCut path key rest
      → HasRoute key subs r
      → Calls payload r next rest answer
      → Calls payload (router hs subs mws) ctx path answer
  unknown :
      (hs : Handlers) (subs : Routes) (mws : List Middleware) (ctx next : ℕ) (path key rest : Text)
      → Passes payload mws ctx next
      → HasNoHandler path hs
      → IsCut path key rest
      → HasNoRoute key subs
      → Calls payload (router hs subs mws) ctx path (err function_not_found)

text_eq_same : (a b : Text) → text_eq a b ≡ true → a ≡ b
unfolding text_eq
text_eq_same [] [] h = refl
text_eq_same [] (y ∷ ys) h = absurd (ground (arith, h))
text_eq_same (x ∷ xs) [] h = absurd (ground (arith, h))
text_eq_same (x ∷ xs) (y ∷ ys) h =
    let first : x ≡ y = ground (arith, h) in
    let rest = text_eq_same xs ys (ground (arith, h)) in
    ap (λ (z : ℕ). z ∷ xs) first ∙ ap (λ (l : Text). y ∷ l) rest

text_eq_refl : (a : Text) → text_eq a a ≡ true
unfolding text_eq
text_eq_refl [] = refl
text_eq_refl (x ∷ xs) = ground (arith, text_eq_refl xs)

text_eq_other : (a b : Text) → text_eq a b ≡ false → a ≢ b
text_eq_other a b h e =
    absurd (ground (arith, h, subst (λ (c : Text). text_eq a c ≡ true) e (text_eq_refl a)))

run-cases :
    (payload : ℕ) (mws : List Middleware) (ctx : ℕ)
    → ((next : ℕ) × (run_middlewares mws ctx payload ≡ ok next) × Passes payload mws ctx next)
      ⊎ ((e : ℕ) × (run_middlewares mws ctx payload ≡ err e) × Stops payload mws ctx e)
unfolding run_middlewares
run-cases payload [] ctx = inl (ctx, refl, all_passed ctx)
run-cases payload (mw ∷ mws) ctx = elim (Result-cases (mw ctx payload)) [
  | inr (e, h) ↦ inr (e, rw (h, run_middlewares) refl, refuses mw mws ctx e h)
  | inl (next, h) ↦ elim (run-cases payload mws next) [
    | inl (end, f, p) ↦ inl (end, rw (h, run_middlewares) f, passes mw mws ctx next end h p)
    | inr (e, f, p) ↦ inr (e, rw (h, run_middlewares) f, stops_later mw mws ctx next e h p)
  ]
]

recover-Answers : (h : Handled) → Answers h (recover h)
unfolding recover
recover-Answers (returned (ok response)) = responds response
recover-Answers (returned (err e)) = fails e
recover-Answers (panicked rec) = panics rec

find_handler-HasHandler :
    (path : Text) (hs : Handlers) {h : HandlerFunc}
    → find_handler path hs ≡ some h
    → HasHandler path hs h
unfolding find_handler
find_handler-HasHandler path [] f = absurd (ground (arith, f))
find_handler-HasHandler path ((name, g) ∷ hs) {h} f = elim (Bool-cases (text_eq name path)) [
  | inl e ↦ inl (text_eq_same name path e, ground (arith, f, e))
  | inr e ↦
      inr
        (text_eq_other name path e, find_handler-HasHandler path hs {h = h} (ground (arith, f, e)))
]

find_handler-HasNoHandler :
    (path : Text) (hs : Handlers) → find_handler path hs ≡ none → HasNoHandler path hs
unfolding find_handler
find_handler-HasNoHandler path [] f = tt
find_handler-HasNoHandler path ((name, g) ∷ hs) f = elim (Bool-cases (text_eq name path)) [
  | inl e ↦ absurd (ground (arith, f, e))
  | inr e ↦ (text_eq_other name path e, find_handler-HasNoHandler path hs (ground (arith, f, e)))
]

dot-IsCut : (path : Text) → IsCut path (before_dot path) (after_dot path)
unfolding before_dot after_dot
dot-IsCut [] = (tt, inl (refl, refl))
dot-IsCut (x ∷ xs) = elim (Bool-cases (x == dot)) [
  | inl e ↦ rw e (tt, inr (ap (λ (z : ℕ). z ∷ xs) ((==_iff x dot).0 e)))
  | inr e ↦
      let (free, cut) = dot-IsCut xs in
      let other : x ≢ dot = ground (arith, e) in
      rw e (
        (other, free),
        elim cut [
          | inl (same, end) ↦ inl (ap (λ (l : Text). x ∷ l) same, end)
          | inr same ↦ inr (ap (λ (l : Text). x ∷ l) same)
        ],
      )
]

-- What the sub routers give for a key.
abbrev Enters : ℕ → Routes → Text → ℕ → Text → Result CallError ℕ → Type 0
Enters payload rs key ctx path answer =
    ((r : Router) × HasRoute key rs r × Calls payload r ctx path answer)
    ⊎ (HasNoRoute key rs × (answer ≡ err function_not_found))

mutual
  unfolding call

  router-Calls :
      (payload : ℕ) (r : Router) (ctx : ℕ) (path : Text)
      → Calls payload r ctx path (call r ctx path payload)
  router-Calls payload (router hs subs mws) ctx path = elim (run-cases payload mws ctx) [
    | inr (e, f, p) ↦ rw (f, call) (stopped hs subs mws ctx e path p)
    | inl (next, f, p) ↦ elim (Option-cases (find_handler path hs)) [
      | inr (h, g) ↦
          rw (f, call)
            (rw (g, call)
              (handled hs subs mws ctx next path h (recover (h next payload)) p
                (find_handler-HasHandler path hs g) (recover-Answers (h next payload))))
      | inl g ↦
          rw (f, call)
            (rw (g, call)
              (elim (routes-Enters payload subs (before_dot path) next (after_dot path)) [
                | inl (r, at, c) ↦
                    entered hs subs mws ctx next path (before_dot path) (after_dot path) r
                      (call_sub subs (before_dot path) next (after_dot path) payload) p
                      (find_handler-HasNoHandler path hs g) (dot-IsCut path) at c
                | inr (absent, same) ↦
                    subst (Calls payload (router hs subs mws) ctx path) (sym same) (
                      unknown hs subs mws ctx next path (before_dot path) (after_dot path) p
                        (find_handler-HasNoHandler path hs g) (dot-IsCut path) absent)
              ]))
    ]
  ]

  routes-Enters :
      (payload : ℕ) (rs : Routes) (key : Text) (ctx : ℕ) (path : Text)
      → Enters payload rs key ctx path (call_sub rs key ctx path payload)
  routes-Enters payload no_routes key ctx path = inr (tt, refl)
  routes-Enters payload (route name r rest) key ctx path =
      let here_r = router-Calls payload r ctx path in
      let others = routes-Enters payload rest key ctx path in
      elim (Bool-cases (text_eq name key)) [
        | inl e ↦ rw e (inl (r, inl (text_eq_same name key e, refl), here_r))
        | inr e ↦ rw e (elim others [
          | inl (s, at, c) ↦ inl (s, inr (text_eq_other name key e, at), c)
          | inr (absent, same) ↦ inr ((text_eq_other name key e, absent), same)
        ])
      ]

-- What `call` gives is what the rules allow: the error of the first middleware on the way that refuses;
-- or the answer of the handler with the name of the path, an error or a panic being an error; where
-- there is no such handler, what the sub router gives whose name stands before the first dot, for what
-- stands after it; and where there is none, that the function is not found. A handler or a sub router
-- gets the context of the last middleware.
pub call-Calls :
    (payload : ℕ) (r : Router) (ctx : ℕ) (path : Text)
    → Calls payload r ctx path (call r ctx path payload)
call-Calls = router-Calls
