-- ===== src/StartServer.antt =====
-- back/start_server.cpp: the routers that main builds; ProtectedRouter is mounted nowhere. The
-- handlers and the middlewares are parameters, as actions on the state `S` of an exchange; Routes
-- and Middleware model those of back/.
pub mod Admin
pub mod Dispatch
pub mod Site
use lisa_lashes_demo.Base.{Bool, String, List, [], ◌∷◌, Done}
use lisa_lashes_demo.Base.Text.{Text, bytes}
use lisa_lashes_demo.Db.Exec.{Result, ok, throw}
use lisa_lashes_demo.Expresso.Libraries.{Brewtils}
use lisa_lashes_demo.Expresso.Router.{
  Method, get_method, post_method, put_method, delete_method, options_method, Router, Action,
  Exchange, new_router, add_route, use_router, use_middleware, handle_request,
}

pub record Handlers (S : Type 0) : Type 0 where
  pub get_product_routes : Action S Done
  pub post_product_routes : Action S Done
  pub put_product_routes : Action S Done
  pub delete_product_routes : Action S Done
  pub get_booking_routes : Action S Done
  pub post_booking_routes : Action S Done
  pub post_register_route : Action S Done
  pub post_login_route : Action S Done
  pub delete_user_route : Action S Done
  pub get_me_route : Action S Done
  pub post_logout_route : Action S Done
  pub get_resources_route : Action S Done
  pub get_salon_services_route : Action S Done
  pub get_all_bookings_route : Action S Done
  pub put_booking_routes : Action S Done
  pub delete_booking_routes : Action S Done
  pub get_users_route : Action S Done
  pub put_user_route : Action S Done
  pub post_resource_route : Action S Done
  pub put_resource_route : Action S Done
  pub delete_resource_route : Action S Done
  pub post_salon_service_route : Action S Done
  pub put_salon_service_route : Action S Done
  pub delete_salon_service_route : Action S Done
  pub put_resource_services_route : Action S Done
  pub get_schedule_route : Action S Done
  pub put_schedule_route : Action S Done
  pub get_schedule_overrides_route : Action S Done
  pub put_schedule_override_route : Action S Done
  pub delete_schedule_override_route : Action S Done
  pub opt_handler : Action S Done

-- Those of Server::setupMiddlewares are first: the version and the date.
pub record Middlewares (S : Type 0) : Type 0 where
  pub version : Action S Bool
  pub date : Action S Bool
  pub cors : Action S Bool
  pub cookie_parser : Action S Bool
  pub cacher : Action S Bool
  pub front_static : Action S Bool
  pub admin_middleware : Action S Bool
  pub admin_static : Action S Bool
  pub front_router_static : Action S Bool

-- Each call on a router, which may throw.
pub data Step (S : Type 0) : Type 0 where
  route : Method → String → Action S Done → Step S
  mount : String → Router S → Step S

module _ {S : Type 0} where
  abbrev one : Step S → Router S → Result (Router S)
  one (route m path h) r = add_route m (bytes path) h r
  one (mount path child) r = use_router (bytes path) child r

  abbrev then_build : Result (Router S) → (Router S → Result (Router S)) → Result (Router S)
  then_build (ok r) f = f r
  then_build (throw e) f = throw e

  unfoldable pub build : List (Step S) → Router S → Result (Router S)
  build [] r = ok r
  build (step ∷ rest) r = then_build (one step r) (build rest)

module _ {S : Type 0} (h : Handlers S) (m : Middlewares S) where
  -- AdminRouter
  abbrev pub admin_steps : List (Step S)
  admin_steps =
      route post_method "/products" h.post_product_routes
      ∷ route put_method "/products" h.put_product_routes
      ∷ route delete_method "/products" h.delete_product_routes
      ∷ route get_method "/bookings" h.get_all_bookings_route
      ∷ route put_method "/bookings" h.put_booking_routes
      ∷ route delete_method "/bookings" h.delete_booking_routes
      ∷ route get_method "/users" h.get_users_route
      ∷ route put_method "/users" h.put_user_route
      ∷ route delete_method "/users" h.delete_user_route
      ∷ route get_method "/resources" h.get_resources_route
      ∷ route post_method "/resources" h.post_resource_route
      ∷ route put_method "/resources" h.put_resource_route
      ∷ route delete_method "/resources" h.delete_resource_route
      ∷ route get_method "/salon-services" h.get_salon_services_route
      ∷ route post_method "/salon-services" h.post_salon_service_route
      ∷ route put_method "/salon-services" h.put_salon_service_route
      ∷ route delete_method "/salon-services" h.delete_salon_service_route
      ∷ route put_method "/resource-services" h.put_resource_services_route
      ∷ route get_method "/schedule" h.get_schedule_route
      ∷ route put_method "/schedule" h.put_schedule_route
      ∷ route get_method "/schedule-overrides" h.get_schedule_overrides_route
      ∷ route put_method "/schedule-overrides" h.put_schedule_override_route
      ∷ route delete_method "/schedule-overrides" h.delete_schedule_override_route
      ∷ route options_method "/*" h.opt_handler
      ∷ []

  -- router
  abbrev pub api_steps : Router S → List (Step S)
  api_steps admin_router =
      route get_method "/products" h.get_product_routes
      ∷ route get_method "/availability" h.get_booking_routes
      ∷ route post_method "/bookings" h.post_booking_routes
      ∷ route post_method "/auth/register" h.post_register_route
      ∷ route post_method "/auth/login" h.post_login_route
      ∷ route delete_method "/auth/user" h.delete_user_route
      ∷ route get_method "/auth/me" h.get_me_route
      ∷ route post_method "/auth/logout" h.post_logout_route
      ∷ route get_method "/resources" h.get_resources_route
      ∷ route get_method "/salon-services" h.get_salon_services_route
      ∷ route options_method "/*" h.opt_handler
      ∷ mount "/admin" admin_router
      ∷ []

  -- app, whose middlewares run before its routers whenever they are registered.
  abbrev pub app_steps : Router S → List (Step S)
  app_steps api_router =
      mount "/api" api_router
      ∷ mount "/admin" (use_middleware m.admin_static new_router)
      ∷ mount "/front" (use_middleware m.front_router_static new_router)
      ∷ []

  abbrev pub app_middlewares : List (Action S Bool)
  app_middlewares = m.version ∷ m.date ∷ m.cors ∷ m.cookie_parser ∷ m.cacher ∷ m.front_static ∷ []

  abbrev with_middlewares : List (Action S Bool) → Router S → Router S
  with_middlewares [] r = r
  with_middlewares (x ∷ xs) r = with_middlewares xs (use_middleware x r)

  unfoldable pub build_admin : Result (Router S)
  unfolding build
  build_admin = build admin_steps (use_middleware m.admin_middleware new_router)

  unfoldable pub build_api : Router S → Result (Router S)
  unfolding build
  build_api admin_router = build (api_steps admin_router) new_router

  unfoldable pub build_app : Router S → Result (Router S)
  unfolding build
  build_app api_router = build (app_steps api_router) (with_middlewares app_middlewares new_router)

  -- The router that main listens with.
  unfoldable pub app : Result (Router S)
  unfolding build_admin build_api build_app
  app = then_build (then_build build_admin build_api) build_app

  module _ (lib : Brewtils) (end send_not_found : S → S) where
    abbrev serve_with : Result (Router S) → Action S Done
    serve_with (ok r) ex = handle_request lib end send_not_found r ex
    serve_with (throw e) ex = (throw e, ex)

    -- Server::handleRequest of that router.
    unfoldable pub serve : Action S Done
    unfolding app
    serve ex = serve_with app ex
