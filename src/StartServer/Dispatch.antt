-- ===== src/StartServer/Dispatch.antt =====
-- Which handler a request reaches on the routers of the server.
use lisa_lashes_demo.Base.{
  ℕ, zero, suc, ◌≡◌, ◌≢◌, refl, ap, subst, ◌∙◌, Bool, true, false, some, List, [], ◌∷◌, ◌++◌,
  String, arith, get_elem?, All, Done,
}
use lisa_lashes_demo.Base.Text.{Text, bytes, text_eq}
use lisa_lashes_demo.Db.Exec.{ok}
use lisa_lashes_demo.Http.{lookup}
use lisa_lashes_demo.Expresso.Libraries.{Brewtils, put, text_lt}
use lisa_lashes_demo.Expresso.Router.{
  Method, head_method, options_method, Router, Exchange, Action, add_route, add_to_map, use_router,
  put_child, fetch_map_from_method, handle_request, handle_middlewares, without_last_slash, rest_of,
  has_slash_first, on_state, segment,
}
use lisa_lashes_demo.Expresso.Router.Prefix.{
  routes_of, middlewares_of, handle_middlewares-nil, handle_middlewares-one, handle_request-nowhere,
  has_no_handler, child_at,
}
use lisa_lashes_demo.Expresso.Router.Registration.{handler_at, handle_request-handler_at}
use lisa_lashes_demo.StartServer.{
  Handlers, Middlewares, Step, route, mount, api_steps, admin_steps, app_middlewares, build,
  build_api, build_admin, serve,
}
use lisa_lashes_demo.StartServer.Admin.{
  built, admin, api, serve-top, admin_free, to_api, serve-admin, admin-middlewares,
}

abbrev is_head : Method → Bool
is_head head_method = true
is_head _ = false

not_head : (m : Method) → is_head m ≡ false → m ≢ head_method
not_head m h e = cc (ap is_head e)

module _ {S : Type 0} where
  -- The router has the route.
  abbrev IsKept : Router S → Step S → Type 0
  IsKept r (route m path h) =
      (handler_at (fetch_map_from_method m (routes_of r)) (rest_of (bytes path)) ≡ some h)
      × (has_slash_first (rest_of (bytes path)) ≡ false)
      × (is_head m ≡ false)
  IsKept r (mount path child) = Done

  All-get_elem? :
      (P : Step S → Type 0) (xs : List (Step S)) (i : ℕ) (x : Step S)
      → All P xs
      → get_elem? xs i ≡ some x
      → P x
  All-get_elem? P [] i x h e = absurd (ground arith)
  All-get_elem? P (y ∷ ys) zero x h e = subst P (ground arith) h.0
  All-get_elem? P (y ∷ ys) (suc i) x h e = All-get_elem? P ys i x h.1 e

module _ {S : Type 0} (h : Handlers S) (m : Middlewares S) (lib : Brewtils)
    (end send_not_found : S → S) where
  api-IsKept : (a : Router S) → All (IsKept (api h m lib end send_not_found a)) (api_steps h m a)
  unfolding built build_api build add_route add_to_map put text_lt text_eq use_router
      without_last_slash put_child fetch_map_from_method lookup
  api-IsKept a = ground arith

  admin-IsKept : All (IsKept (admin h m lib end send_not_found)) (admin_steps h m)
  unfolding built build_admin build add_route add_to_map put text_lt text_eq fetch_map_from_method
      lookup
  admin-IsKept = ground arith

  reached :
      (r : Router S) (ex ex' : Exchange S) (method : Method) (path : String)
      (handler : Action S Done)
      → IsKept r (route method path handler)
      → handle_middlewares lib end send_not_found (middlewares_of r) ex ≡ (ok true, ex')
      → ex'.method ≡ method
      → ex'.temp_path ≡ rest_of (bytes path)
      → handle_request lib end send_not_found r ex ≡ handler ex'
  reached r ex ex' method path handler kept passed same_method same_path =
      handle_request-handler_at lib end send_not_found r (rest_of (bytes path)) handler ex ex'
        kept.1 passed same_path
        (ap
            (λ (n : Method).
              handler_at (fetch_map_from_method n (routes_of r)) (rest_of (bytes path)))
            same_method
          ∙ kept.0)

  api-middlewares : (a : Router S) → middlewares_of (api h m lib end send_not_found a) ≡ []
  unfolding built build_api build add_route add_to_map put text_lt text_eq use_router
      without_last_slash put_child
  api-middlewares a = refl

  -- Every route that main registers on the router of the API answers the requests of its method for
  -- its path under api/ that the middlewares of the server let through.
  pub serve-api_steps :
      (i : ℕ) (method : Method) (path : String) (handler : Action S Done) (ex ex' : Exchange S)
      → get_elem? (api_steps h m (admin h m lib end send_not_found)) i
        ≡ some (route method path handler)
      → handle_middlewares lib end send_not_found (app_middlewares h m) ex ≡ (ok true, ex')
      → ex'.method ≡ method
      → ex'.temp_path ≡ bytes "api/" ++ rest_of (bytes path)
      → serve h m lib end send_not_found ex
        ≡ handler (record ex' { temp_path = rest_of (bytes path) })
  serve-api_steps i method path handler ex ex' at_i passed same_method same_path =
      let a = admin h m lib end send_not_found in
      let r = api h m lib end send_not_found a in
      let kept = All-get_elem? (IsKept r) (api_steps h m a) i _ (api-IsKept a) at_i in
      let here : Exchange S = record ex' { temp_path = rest_of (bytes path) } in
      serve-top h m lib end send_not_found ex
      ∙ to_api h m lib end send_not_found r ex ex' (rest_of (bytes path)) passed
          (not_head ex'.method (ap is_head same_method ∙ kept.2)) same_path
      ∙ reached r here here method path handler kept
          (rw (api-middlewares a) (handle_middlewares-nil lib end send_not_found here)) same_method
          refl

  -- Every route that main registers on AdminRouter answers the requests of its method for its path
  -- under api/admin/ that the middlewares of the server and then AdminMiddleware let through.
  pub serve-admin_steps :
      (i : ℕ) (method : Method) (path : String) (handler : Action S Done) (ex ex' ex'' : Exchange S)
      → get_elem? (admin_steps h m) i ≡ some (route method path handler)
      → handle_middlewares lib end send_not_found (app_middlewares h m) ex ≡ (ok true, ex')
      → ex'.method ≢ head_method
      → ex'.temp_path ≡ bytes "api/admin/" ++ rest_of (bytes path)
      → m.admin_middleware (record ex' { temp_path = rest_of (bytes path) }) ≡ (ok true, ex'')
      → ex''.method ≡ method
      → ex''.temp_path ≡ rest_of (bytes path)
      → serve h m lib end send_not_found ex ≡ handler ex''
  serve-admin_steps i method path handler ex ex' ex'' at_i passed no_head path' let_in same_method
        same_path =
      let a = admin h m lib end send_not_found in
      let kept = All-get_elem? (IsKept a) (admin_steps h m) i _ admin-IsKept at_i in
      serve-admin h m lib end send_not_found ex ex' (rest_of (bytes path)) passed no_head path'
      ∙ reached a (record ex' { temp_path = rest_of (bytes path) }) ex'' method path handler kept
          (rw (admin-middlewares h m lib end send_not_found)
            (handle_middlewares-one lib end send_not_found m.admin_middleware _ _ let_in))
          same_method same_path

  api-nowhere :
      (a : Router S) (ex : Exchange S) (rest : Text)
      → ex.method ≡ options_method
      → has_slash_first rest ≡ false
      → text_eq (bytes "*") rest ≡ false
      → text_eq (bytes "admin") (segment rest) ≡ false
      → handle_request lib end send_not_found
          (api h m lib end send_not_found a)
          (record ex { temp_path = rest })
        ≡ (ok tt, on_state lib end send_not_found send_not_found (record ex { temp_path = rest }))
  unfolding built build_api build add_route add_to_map put text_lt text_eq use_router
      without_last_slash put_child has_no_handler child_at
  api-nowhere a ex rest options s star other =
      let here : Exchange S = record ex { temp_path = rest } in
      handle_request-nowhere lib end send_not_found (api h m lib end send_not_found a) here here
        (admin_free, tt) refl (handle_middlewares-nil lib end send_not_found here) s
        (ap (λ (n : Method). has_no_handler (routes_of (api h m lib end send_not_found a)) n rest)
            options
          ∙ rw star refl)
        (rw other refl)

  -- The route for OPTIONS at "/*" is that path and no pattern: a preflight for a path under api/, which
  -- the middlewares of the server let through, is answered by send_not_found, unless the path is
  -- api/* or starts with api/admin or its part behind api/ starts with a slash.
  pub serve_preflight :
      (ex ex' : Exchange S) (rest : Text)
      → handle_middlewares lib end send_not_found (app_middlewares h m) ex ≡ (ok true, ex')
      → ex'.method ≡ options_method
      → ex'.temp_path ≡ bytes "api/" ++ rest
      → has_slash_first rest ≡ false
      → text_eq (bytes "*") rest ≡ false
      → text_eq (bytes "admin") (segment rest) ≡ false
      → serve h m lib end send_not_found ex
        ≡ (ok tt, on_state lib end send_not_found send_not_found (record ex' { temp_path = rest }))
  serve_preflight ex ex' rest passed options path s star other =
      let a = admin h m lib end send_not_found in
      serve-top h m lib end send_not_found ex
      ∙ to_api h m lib end send_not_found (api h m lib end send_not_found a) ex ex' rest passed
          (not_head ex'.method (ap is_head options)) path
      ∙ api-nowhere a ex' rest options s star other
