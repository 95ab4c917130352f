-- ===== src/StartServer/Admin.antt =====
-- The router of the server for the paths under api/admin.
use lisa_lashes_demo.Base.{◌≡◌, ◌≢◌, refl, ap, ◌∙◌, true, false, [], ◌∷◌, ◌++◌}
use lisa_lashes_demo.Base.Text.{Text, bytes, text_eq}
use lisa_lashes_demo.Db.Exec.{Exception, Result, ok, throw}
use lisa_lashes_demo.Expresso.Libraries.{Brewtils, put, text_lt}
use lisa_lashes_demo.Expresso.Router.{
  Method, head_method, get_method, post_method, put_method, delete_method, options_method,
  patch_method, Router, Exchange, new_router, add_route, add_to_map, use_router, put_child,
  handle_request, handle_middlewares, without_last_slash, segment, behind_slash, on_state,
  has_slash_first,
}
use lisa_lashes_demo.Expresso.Router.Prefix.{
  IsSlashFree, child_at, has_no_handler, routes_of, children_of, middlewares_of,
  handle_request-child, handle_request_refused, handle_request_thrown, handle_middlewares-nil,
}
use lisa_lashes_demo.StartServer.{
  Handlers, Middlewares, app_middlewares, app, build, build_admin, build_api, build_app, serve,
  serve_with, then_build,
}

pub admin_free : IsSlashFree (bytes "admin")
admin_free = (refl, (refl, (refl, (refl, (refl, tt)))))

api_free : IsSlashFree (bytes "api")
api_free = (refl, (refl, (refl, tt)))

front_free : IsSlashFree (bytes "front")
front_free = (refl, (refl, (refl, (refl, (refl, tt)))))

module _ {S : Type 0} (h : Handlers S) (m : Middlewares S) (lib : Brewtils)
    (end send_not_found : S → S) where
  unfoldable pub built : Result (Router S) → Router S
  built (ok r) = r
  built (throw e) = new_router

  abbrev pub admin : Router S
  admin = built (build_admin h m)

  abbrev pub api : Router S → Router S
  api a = built (build_api h m a)

  abbrev pub top : Router S → Router S
  top b = built (build_app h m b)

  build_admin-ok : build_admin h m ≡ ok admin
  unfolding built build_admin build add_route add_to_map put text_lt text_eq
  build_admin-ok = refl

  build_api-ok : (a : Router S) → build_api h m a ≡ ok (api a)
  unfolding built build_api build add_route add_to_map put text_lt text_eq use_router
      without_last_slash put_child
  build_api-ok a = refl

  build_app-ok : (b : Router S) → build_app h m b ≡ ok (top b)
  unfolding built build_app build use_router without_last_slash put_child text_lt text_eq
  build_app-ok b = refl

  pub serve-top :
      (ex : Exchange S)
      → serve h m lib end send_not_found ex
        ≡ handle_request lib end send_not_found (top (api admin)) ex
  unfolding serve app
  serve-top ex =
      ap
        (λ (r : Result (Router S)).
          serve_with h m lib end send_not_found
            (then_build (then_build r (build_api h m)) (build_app h m)) ex)
        build_admin-ok
      ∙ ap
          (λ (r : Result (Router S)).
            serve_with h m lib end send_not_found (then_build r (build_app h m)) ex)
          (build_api-ok admin)
      ∙ ap (λ (r : Result (Router S)). serve_with h m lib end send_not_found r ex)
          (build_app-ok (api admin))

  -- The app and the router of the API have no handler for such a path.
  app_no_handler :
      (method : Method) (path : Text) (b : Router S)
      → method ≢ head_method
      → has_no_handler (routes_of (top b)) method path ≡ true
  unfolding built build_app build use_router without_last_slash put_child text_lt text_eq
      has_no_handler
  app_no_handler get_method path b e = refl
  app_no_handler post_method path b e = refl
  app_no_handler put_method path b e = refl
  app_no_handler patch_method path b e = refl
  app_no_handler delete_method path b e = refl
  app_no_handler options_method path b e = refl
  app_no_handler head_method path b e = absurd (e refl)

  api_no_handler :
      (method : Method) (rest : Text) (a : Router S)
      → method ≢ head_method
      → has_no_handler (routes_of (api a)) method (bytes "admin/" ++ rest) ≡ true
  unfolding built build_api build add_route add_to_map put text_lt text_eq use_router
      without_last_slash put_child has_no_handler
  api_no_handler get_method rest a e = refl
  api_no_handler post_method rest a e = refl
  api_no_handler put_method rest a e = refl
  api_no_handler patch_method rest a e = refl
  api_no_handler delete_method rest a e = refl
  api_no_handler options_method rest a e = refl
  api_no_handler head_method rest a e = absurd (e refl)

  -- The router for a path under api/.
  pub to_api :
      (b : Router S) (ex ex' : Exchange S) (rest : Text)
      → handle_middlewares lib end send_not_found (app_middlewares h m) ex ≡ (ok true, ex')
      → ex'.method ≢ head_method
      → ex'.temp_path ≡ bytes "api/" ++ rest
      → handle_request lib end send_not_found (top b) ex
        ≡ handle_request lib end send_not_found b (record ex' { temp_path = rest })
  unfolding built build_app build use_router without_last_slash put_child text_lt text_eq segment
      behind_slash child_at
  to_api b ex ex' rest passed method path =
      handle_request-child lib end send_not_found (top b) ex ex' b
        (admin_free, (api_free, (front_free, tt))) passed (ap has_slash_first path)
        (app_no_handler ex'.method ex'.temp_path b method)
        (ap (λ (p : Text). child_at (segment p) (children_of (top b))) path)
      ∙ ap
          (λ (p : Text).
            handle_request lib end send_not_found b (record ex' { temp_path = behind_slash p }))
          path

  pub to_admin :
      (a : Router S) (ex : Exchange S) (rest : Text)
      → ex.method ≢ head_method
      → handle_request lib end send_not_found
          (api a)
          (record ex { temp_path = bytes "admin/" ++ rest })
        ≡ handle_request lib end send_not_found a (record ex { temp_path = rest })
  unfolding built build_api build add_route add_to_map put text_lt text_eq use_router
      without_last_slash put_child segment behind_slash child_at
  to_admin a ex rest method =
      let here : Exchange S = record ex { temp_path = bytes "admin/" ++ rest } in
      handle_request-child lib end send_not_found (api a) here here a (admin_free, tt)
        (handle_middlewares-nil lib end send_not_found here) refl
        (api_no_handler ex.method rest a method) refl

  pub admin-middlewares : middlewares_of admin ≡ m.admin_middleware ∷ []
  unfolding built build_admin build add_route add_to_map put text_lt text_eq
  admin-middlewares = refl

  pub serve-admin :
      (ex ex' : Exchange S) (rest : Text)
      → handle_middlewares lib end send_not_found (app_middlewares h m) ex ≡ (ok true, ex')
      → ex'.method ≢ head_method
      → ex'.temp_path ≡ bytes "api/admin/" ++ rest
      → serve h m lib end send_not_found ex
        ≡ handle_request lib end send_not_found admin (record ex' { temp_path = rest })
  serve-admin ex ex' rest passed method path =
      serve-top ex
      ∙ to_api (api admin) ex ex' (bytes "admin/" ++ rest) passed method path
      ∙ to_admin admin ex' rest method

  -- One that makes AdminMiddleware throw is not answered.
  pub serve_thrown :
      (ex ex' thrown : Exchange S) (e : Exception) (rest : Text)
      → handle_middlewares lib end send_not_found (app_middlewares h m) ex ≡ (ok true, ex')
      → ex'.method ≢ head_method
      → ex'.temp_path ≡ bytes "api/admin/" ++ rest
      → m.admin_middleware (record ex' { temp_path = rest }) ≡ (throw e, thrown)
      → serve h m lib end send_not_found ex ≡ (throw e, thrown)
  serve_thrown ex ex' thrown e rest passed method path failure =
      serve-admin ex ex' rest passed method path
      ∙ handle_request_thrown lib end send_not_found admin m.admin_middleware
          (record ex' { temp_path = rest }) thrown e admin-middlewares failure

  -- A request for a path under api/admin/ that the middlewares of the server let through and
  -- AdminMiddleware refuses is ended as AdminMiddleware leaves it: no handler sees it, whatever its
  -- method and the rest of its path.
  pub serve_refused :
      (ex ex' refused : Exchange S) (rest : Text)
      → handle_middlewares lib end send_not_found (app_middlewares h m) ex ≡ (ok true, ex')
      → ex'.method ≢ head_method
      → ex'.temp_path ≡ bytes "api/admin/" ++ rest
      → m.admin_middleware (record ex' { temp_path = rest }) ≡ (ok false, refused)
      → serve h m lib end send_not_found ex ≡ (ok tt, on_state lib end send_not_found end refused)
  serve_refused ex ex' refused rest passed method path refusal =
      serve-admin ex ex' rest passed method path
      ∙ handle_request_refused lib end send_not_found admin m.admin_middleware
          (record ex' { temp_path = rest }) refused admin-middlewares refusal
