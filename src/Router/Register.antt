-- ===== src/Router/Register.antt =====
-- `SubRoute` and `WithHandler` of rmb-sdk-go/peer/router.go: what is registered is found.
use tfgrid_sdk_go.Prelude.{
  ℕ, ◌≡◌, refl, ◌∙◌, ap, subst, true, false, List, [], ◌∷◌, ◌++◌, Option, none, some, arith,
  Bool-cases, inl, inr, ◌==◌, ==_refl, if◌then◌else◌,
}
use mathlib.Core.Option
use mathlib.Core.Option.{some_inj}
use tfgrid_sdk_go.Router.{
  Text, dot, text_eq, HandlerFunc, Handlers, Router, router, Routes, no_routes, route, new_router,
  find_handler, before_dot, after_dot, has_dot, modify_route, modify_sub, modify_at, is_found,
  with_handler, call,
}
use tfgrid_sdk_go.Router.Flat.{
  path_of, path_in, path_of-some, path_of-none, call_flat, call-call_flat,
}

-- The path of a command under a chain of prefixes.
abbrev pub join : List Text → Text → Text
join [] sub_command = sub_command
join (prefix ∷ prefixes) sub_command = prefix ++ dot ∷ join prefixes sub_command

abbrev pub find_route : Text → Routes → Option Router
find_route key no_routes = none
find_route key (route name r rest) =
    let others = find_route key rest in if text_eq name key then some r else others

abbrev pub or_new : Option Router → Router
or_new none = new_router
or_new (some r) = r

abbrev pub handlers_of : Router → Handlers
handlers_of (router handlers subs mws) = handlers

abbrev pub subs_of : Router → Routes
subs_of (router handlers subs mws) = subs

-- No router on the way has a handler for what is left of the path, which it would call instead.
abbrev pub IsClear : List Text → Text → Router → Type 0
IsClear [] sub_command r = Unit
IsClear (prefix ∷ prefixes) sub_command r =
    (find_handler (join (prefix ∷ prefixes) sub_command) (handlers_of r) ≡ none)
    × IsClear prefixes sub_command (or_new (find_route prefix (subs_of r)))

text_eq_refl : (k : Text) → text_eq k k ≡ true
unfolding text_eq
text_eq_refl [] = refl
text_eq_refl (x ∷ xs) = ground (arith, text_eq_refl xs, ==_refl x)

before_dot-append : (k rest : Text) → has_dot k ≡ false → before_dot (k ++ dot ∷ rest) ≡ k
unfolding before_dot has_dot
before_dot-append [] rest h = refl
before_dot-append (x ∷ xs) rest h = elim (Bool-cases (x == dot)) [
  | inl e ↦ absurd (ground (arith, h, e))
  | inr e ↦ rw e (ap (λ t. x ∷ t) (before_dot-append xs rest (ground (arith, h, e))))
]

after_dot-append : (k rest : Text) → has_dot k ≡ false → after_dot (k ++ dot ∷ rest) ≡ rest
unfolding after_dot has_dot
after_dot-append [] rest h = refl
after_dot-append (x ∷ xs) rest h = elim (Bool-cases (x == dot)) [
  | inl e ↦ absurd (ground (arith, h, e))
  | inr e ↦ rw e (after_dot-append xs rest (ground (arith, h, e)))
]

map-some :
    {A B : Type 0} (g : A → B) (o : Option A) {b : B}
    → Option.map g o ≡ some b
    → (a : A) × (o ≡ some a) × (g a ≡ b)
map-some g none h = absurd cc
map-some g (some a) h = (a, refl, some_inj.0 h)

path_in-same :
    (name key : Text) (r : Router) (rest : Routes) (path : Text)
    → text_eq name key ≡ true
    → path_in (route name r rest) key path ≡ path_of r path
unfolding path_of
path_in-same name key r rest path same =
    ap (λ b. if b then path_of r path else path_in rest key path) same

path_in-other :
    (name key : Text) (r : Router) (rest : Routes) (path : Text)
    → text_eq name key ≡ false
    → path_in (route name r rest) key path ≡ path_in rest key path
unfolding path_of
path_in-other name key r rest path other =
    ap (λ b. if b then path_of r path else path_in rest key path) other

-- The sub router under a prefix after it was changed, or made and changed.
abbrev Changed : Text → (Router → Option Router) → Routes → Routes → Type 0
Changed prefix f rs rs' =
    (r : Router) × (f (or_new (find_route prefix rs)) ≡ some r)
    × ((path : Text) → path_in rs' prefix path ≡ path_of r path)

modify_route-Changed :
    (prefix : Text) (f : Router → Option Router) (rs rs' : Routes)
    → modify_route prefix f rs ≡ some rs'
    → Changed prefix f rs rs'
unfolding modify_route
modify_route-Changed prefix f no_routes rs' h =
    let (r, e, eq) = map-some (λ r. route prefix r no_routes) (f new_router) h in
    (
      r,
      e,
      λ path.
          subst (λ rs. path_in rs prefix path ≡ path_of r path) eq
            (path_in-same prefix prefix r no_routes path (text_eq_refl prefix)),
    )
modify_route-Changed prefix f (route name r rest) rs' h = elim (Bool-cases (text_eq name prefix)) [
  | inl same ↦
      let (r', e, eq) =
        map-some (λ r'. route name r' rest) (f r)
          (subst
            (λ t.
              (if t
                then Option.map (λ r'. route name r' rest) (f r)
                else Option.map (route name r) (modify_route prefix f rest))
              ≡ some rs')
            same h) in
      (
        r',
        ap (λ t. f (or_new (if t then some r else find_route prefix rest))) same ∙ e,
        λ path.
            subst (λ rs. path_in rs prefix path ≡ path_of r' path) eq
              (path_in-same name prefix r' rest path same),
      )
  | inr other ↦
      let (rest', e, eq) = map-some (route name r) (modify_route prefix f rest) (
        subst
          (λ t.
            (if t
              then Option.map (λ r'. route name r' rest) (f r)
              else Option.map (route name r) (modify_route prefix f rest))
            ≡ some rs')
          other h) in
      let (r', e', found) = modify_route-Changed prefix f rest rest' e in
      (
        r',
        ap (λ t. f (or_new (if t then some r else find_route prefix rest))) other ∙ e',
        λ path.
            subst (λ rs. path_in rs prefix path ≡ path_of r' path) eq
              (path_in-other name prefix r rest' path other ∙ found path),
      )
]

with_handler_found :
    (sub_command : Text) (h : HandlerFunc) (r r' : Router)
    → with_handler sub_command h r ≡ some r'
    → (path_of r' sub_command).1 ≡ some h
unfolding with_handler find_handler
with_handler_found sub_command h (router handlers subs mws) r' done =
    elim (Bool-cases (is_found (find_handler sub_command handlers))) [
      | inl taken ↦ absurd (ground (arith, done, taken))
      | inr free ↦
          subst (λ q. (path_of q sub_command).1 ≡ some h)
            (some_inj.0 (
              subst
                (λ t.
                  (if t then none else some (router ((sub_command, h) ∷ handlers) subs mws))
                  ≡ some r')
                free done))
            (ap (λ q. q.1)
              (path_of-some ((sub_command, h) ∷ handlers) subs mws sub_command {h = h} (
                ap (λ t. if t then some h else find_handler sub_command handlers)
                  (text_eq_refl sub_command))))
    ]

register_found :
    (prefixes : List Text) (sub_command : Text) (h : HandlerFunc) (r r' : Router)
    → IsClear prefixes sub_command r
    → modify_at prefixes (with_handler sub_command h) r ≡ some r'
    → (path_of r' (join prefixes sub_command)).1 ≡ some h
unfolding modify_at modify_sub
register_found [] sub_command h r r' clear done = with_handler_found sub_command h r r' done
register_found (prefix ∷ prefixes) sub_command h (router handlers subs mws) r' (no_other, clear)
      done =
    elim (Bool-cases (has_dot prefix)) [
      | inl dotted ↦ absurd (ground (arith, done, dotted))
      | inr plain ↦
          let (subs', e, eq) =
            map-some (λ changed. router handlers changed mws)
              (modify_route prefix (modify_at prefixes (with_handler sub_command h)) subs)
              (subst
                (λ t.
                  (if t
                    then none
                    else Option.map (λ changed. router handlers changed mws)
                        (modify_route prefix (modify_at prefixes (with_handler sub_command h))
                          subs))
                  ≡ some r')
                plain done) in
          let (sub, made, found) =
            modify_route-Changed prefix (modify_at prefixes (with_handler sub_command h)) subs subs'
              e in
          subst (λ q. (path_of q (join (prefix ∷ prefixes) sub_command)).1 ≡ some h) eq
            (ap (λ q. q.1)
                (path_of-none handlers subs' mws (join (prefix ∷ prefixes) sub_command) no_other)
              ∙ ap (λ q. q.1)
                  (ap (λ k. path_in subs' k (after_dot (join (prefix ∷ prefixes) sub_command)))
                      (before_dot-append prefix (join prefixes sub_command) plain)
                    ∙ ap (λ k. path_in subs' prefix k)
                        (after_dot-append prefix (join prefixes sub_command) plain)
                    ∙ found (join prefixes sub_command))
              ∙ register_found prefixes sub_command h (or_new (find_route prefix subs)) sub clear
                  made)
    ]

-- Where no router on the way has a handler for what is left of the path: a call of the path of the
-- prefixes and the command, after a handler was registered there, runs the middlewares of the routers
-- on the way and then that handler.
pub call-registered :
    (prefixes : List Text) (sub_command : Text) (h : HandlerFunc) (r r' : Router)
    → IsClear prefixes sub_command r
    → modify_at prefixes (with_handler sub_command h) r ≡ some r'
    → (ctx payload : ℕ)
    → call r' ctx (join prefixes sub_command) payload
      ≡ call_flat ((path_of r' (join prefixes sub_command)).0, some h) ctx payload
call-registered prefixes sub_command h r r' clear done ctx payload =
    call-call_flat r' ctx (join prefixes sub_command) payload
    ∙ ap (λ o. call_flat ((path_of r' (join prefixes sub_command)).0, o) ctx payload)
        (register_found prefixes sub_command h r r' clear done)
