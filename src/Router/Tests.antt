-- ===== src/Router/Tests.antt =====
-- The theorems on the router at a small tree of routers.
use tfgrid_sdk_go.Prelude.{◌+◌, ◌≡◌, refl, [], ◌∷◌, some, ok, err, ◌==◌, if◌then◌else◌}
use tfgrid_sdk_go.Router.{
  Text, HandlerFunc, Middleware, returned, Router, router, no_routes, route, text_eq, find_handler,
  has_dot, before_dot, after_dot, run_middlewares, recover, call, modify_route, modify_sub,
  modify_at, with_handler,
}
use tfgrid_sdk_go.Router.Flat.{path_of, call_flat}
use tfgrid_sdk_go.Router.Semantics.{Calls, call-Calls}
use tfgrid_sdk_go.Router.Register.{join, call-registered}

-- Contexts other than 7 are refused with the error 1.
abbrev authorize_seven : Middleware
authorize_seven ctx payload = if ctx == 7 then ok ctx else err 1

abbrev add_one : HandlerFunc
add_one ctx payload = returned (ok (payload + 1))

-- The texts "farm", "power" and "on".
abbrev farm : Text
farm = b'f' ∷ b'a' ∷ b'r' ∷ b'm' ∷ []

abbrev power : Text
power = b'p' ∷ b'o' ∷ b'w' ∷ b'e' ∷ b'r' ∷ []

abbrev turn_on : Text
turn_on = b'o' ∷ b'n' ∷ []

abbrev guarded : Router
guarded = router [] no_routes (authorize_seven ∷ [])

abbrev registered : Router
registered =
    router []
      (route farm
        (router [] (route power (router ((turn_on, add_one) ∷ []) no_routes []) no_routes) [])
        no_routes)
      (authorize_seven ∷ [])

registered_ok :
    modify_at (farm ∷ power ∷ []) (with_handler turn_on add_one) guarded ≡ some registered
unfolding modify_at modify_sub modify_route with_handler has_dot find_handler
registered_ok = refl

call-Calls_example :
    Calls 41 registered 8
      (join (farm ∷ power ∷ []) turn_on)
      (call registered 8 (join (farm ∷ power ∷ []) turn_on) 41)
call-Calls_example = call-Calls 41 registered 8 (join (farm ∷ power ∷ []) turn_on)

call-registered_example :
    call registered 7 (join (farm ∷ power ∷ []) turn_on) 41
    ≡ call_flat ((path_of registered (join (farm ∷ power ∷ []) turn_on)).0, some add_one) 7 41
unfolding find_handler
call-registered_example =
    call-registered (farm ∷ power ∷ []) turn_on add_one guarded registered (refl, (refl, tt))
      registered_ok 7 41

-- The call gets through.
call_ok : call registered 7 (join (farm ∷ power ∷ []) turn_on) 41 ≡ ok 42
unfolding call run_middlewares find_handler text_eq before_dot after_dot recover
call_ok = refl
