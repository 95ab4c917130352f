-- ===== src/Expresso/Router.antt =====
-- src/core/router.cpp. A router works on an exchange: the fields of the request that routing reads
-- and writes, and a state `S` that holds all else, the rest of the request and the response
-- included. Handlers and middlewares are actions on it, which may throw. A router owns the routers
-- that it was given, so it is a tree.
pub mod Prefix
pub mod Registration
use lisa_lashes_demo.Base.{
  ℕ, ◌+◌, Bool, true, false, ◌&&◌, Option, none, some, List, [], ◌∷◌, ◌++◌, if◌then◌else◌, ◌==◌,
  leb, length, take, drop, Done,
}
use lisa_lashes_demo.Base.Text.{Text, is_empty, text_eq}
use lisa_lashes_demo.Db.Exec.{Exception, Result, ok, throw, runtime_error, text}
use lisa_lashes_demo.Http.{lookup}
use lisa_lashes_demo.Expresso.Libraries.{Brewtils, put, text_lt}

-- mochios::enums::method
pub data Method : Type 0 where
  get_method post_method put_method patch_method delete_method options_method head_method : Method

pub record Exchange (S : Type 0) : Type 0 where
  pub method : Method
  pub temp_path : Text
  pub params : List (Text × Text)
  pub state : S

abbrev pub Action : Type 0 → Type 0 → Type 0
Action S A = Exchange S → Result A × Exchange S

-- The maps of handlers, by method.
pub record Routes (S : Type 0) : Type 0 where
  pub get_map : List (Text × Action S Done)
  pub post_map : List (Text × Action S Done)
  pub put_map : List (Text × Action S Done)
  pub patch_map : List (Text × Action S Done)
  pub delete_map : List (Text × Action S Done)
  pub options_map : List (Text × Action S Done)

-- A Router: middlewares, handlers, routerMap in the order of its keys, and paramRouter with
-- paramRouterParam.
mutual
  pub data Router (S : Type 0) : Type 0 where
    node : List (Action S Bool) → Routes S → Children S → Param S → Router S

  pub data Children (S : Type 0) : Type 0 where
    no_child : Children S
    child : Text → Router S → Children S → Children S

  pub data Param (S : Type 0) : Type 0 where
    no_param : Param S
    param : Text → Router S → Param S

-- `path[0] == '/'`; the character behind an empty text is not one.
abbrev pub has_slash_first : Text → Bool
has_slash_first [] = false
has_slash_first (c ∷ t) = c == b'/'

abbrev pub rest_of : Text → Text
rest_of [] = []
rest_of (c ∷ t) = t

-- `path.substr(0, path.size() - 1)` if the last character is a slash.
unfoldable pub without_last_slash : Text → Text
without_last_slash [] = []
without_last_slash (c ∷ []) = if c == b'/' then [] else c ∷ []
without_last_slash (c ∷ d ∷ t) = c ∷ without_last_slash (d ∷ t)

-- The text up to the first slash, and behind it.
unfoldable pub segment : Text → Text
segment [] = []
segment (c ∷ t) = let rest = segment t in if c == b'/' then [] else c ∷ rest

unfoldable pub behind_slash : Text → Text
behind_slash [] = []
behind_slash (c ∷ t) = let rest = behind_slash t in if c == b'/' then t else rest

-- The test for the router at `key`, and the path that it is given.
unfoldable pub is_under : Text → Text → Bool
is_under key path =
    leb (length key) (length path)
    && text_eq (take (length (key ++ b'/' ∷ [])) (path ++ b'/' ∷ [])) (key ++ b'/' ∷ [])

unfoldable pub path_under : Text → Text → Text
path_under key path = if text_eq path key then [] else drop (length key + 1) path

abbrev wrong_path : Exception
wrong_path = runtime_error (
    text
      "void expresso::core::Router::put(std::string path, void (*handler)(expresso::messages::Request &request, Response &response))")

abbrev wrong_router_path : Exception
wrong_router_path =
    runtime_error (text "void expresso::core::Router::use(std::string path, Router *router)")

abbrev wrong_method : Exception
wrong_method = runtime_error (
    text
      "std::map<std::string, void (*)(expresso::messages::Request &request, expresso::messages::Response &response)> &expresso::core::Router::fetchRouterFromMethod(expresso::enums::method method)")

-- substr(1, ...) of the empty path that is left of "/".
abbrev no_path : Exception
no_path = Exception.out_of_range (text "basic_string::substr")

module _ {S : Type 0} where
  -- Router::Router
  abbrev pub new_router : Router S
  new_router =
      node []
        (record {
          get_map = [];
          post_map = [];
          put_map = [];
          patch_map = [];
          delete_map = [];
          options_map = [];
        })
        no_child no_param

  unfoldable pub fetch_map_from_method : Method → Routes S → Result (List (Text × Action S Done))
  fetch_map_from_method get_method r = ok r.get_map
  fetch_map_from_method post_method r = ok r.post_map
  fetch_map_from_method put_method r = ok r.put_map
  fetch_map_from_method patch_method r = ok r.patch_map
  fetch_map_from_method delete_method r = ok r.delete_map
  fetch_map_from_method options_method r = ok r.options_map
  fetch_map_from_method head_method r = throw wrong_method

  -- The write through the reference that fetchMapFromMethod returns.
  unfoldable pub add_to_map : Method → Text → Action S Done → Routes S → Result (Routes S)
  unfolding put
  add_to_map get_method key h r = ok (record r { get_map = put key h r.get_map })
  add_to_map post_method key h r = ok (record r { post_map = put key h r.post_map })
  add_to_map put_method key h r = ok (record r { put_map = put key h r.put_map })
  add_to_map patch_method key h r = ok (record r { patch_map = put key h r.patch_map })
  add_to_map delete_method key h r = ok (record r { delete_map = put key h r.delete_map })
  add_to_map options_method key h r = ok (record r { options_map = put key h r.options_map })
  add_to_map head_method key h r = throw wrong_method

  abbrev with_routes : Result (Routes S) → Router S → Result (Router S)
  with_routes (ok routes) (node ms rs cs p) = ok (node ms routes cs p)
  with_routes (throw e) r = throw e

  abbrev routes_of : Router S → Routes S
  routes_of (node ms rs cs p) = rs

  -- Router::addRoute, which get, post, put, patch, del and options call with their method.
  unfoldable pub add_route : Method → Text → Action S Done → Router S → Result (Router S)
  unfolding add_to_map
  add_route method path h r =
      if has_slash_first path
      then with_routes (add_to_map method (rest_of path) h (routes_of r)) r
      else throw wrong_path

  -- routerMap[key] = router
  unfoldable pub put_child : Text → Router S → Children S → Children S
  put_child key router no_child = child key router no_child
  put_child key router (child k r rest) =
      let later = put_child key router rest in
      if text_eq k key
      then child k router rest
      else if text_lt key k
      then child key router (child k r rest)
      else child k r later

  abbrev with_child : Text → Router S → Router S → Result (Router S)
  unfolding put_child
  with_child [] router r = throw no_path
  with_child (c ∷ key) router (node ms rs cs p) = ok (node ms rs (put_child key router cs) p)

  -- Router::use(path, router)
  unfoldable pub use_router : Text → Router S → Router S → Result (Router S)
  unfolding without_last_slash with_child
  use_router path router r =
      if has_slash_first path
      then with_child (without_last_slash path) router r
      else throw wrong_router_path

  -- Router::use(middleware)
  abbrev pub use_middleware : Action S Bool → Router S → Router S
  use_middleware m (node ms rs cs p) = node (ms ++ m ∷ []) rs cs p

  module _ (lib : Brewtils) (end send_not_found : S → S) where
    abbrev pub on_state : (S → S) → Exchange S → Exchange S
    on_state f ex = record ex { state = f ex.state }

    abbrev after :
        Result Bool × Exchange S
        → (Exchange S → Result Bool × Exchange S)
        → Result Bool × Exchange S
    after (ok true, ex) rest = rest ex
    after (ok false, ex) rest = (ok false, on_state end ex)
    after (throw e, ex) rest = (throw e, ex)

    -- Router::handleMiddlewares
    unfoldable pub handle_middlewares : List (Action S Bool) → Action S Bool
    handle_middlewares [] ex = (ok true, ex)
    handle_middlewares (m ∷ ms) ex = after (m ex) (handle_middlewares ms)

    abbrev admitted : Result Bool × Exchange S → Action S Done → Result Done × Exchange S
    admitted (ok true, ex) rest = rest ex
    admitted (ok false, ex) rest = (ok tt, ex)
    admitted (throw e, ex) rest = (throw e, ex)

    abbrev routed : Result (List (Text × Action S Done)) → Action S Done → Action S Done
    unfolding lookup
    routed (throw e) otherwise ex = (throw e, ex)
    routed (ok handlers) otherwise ex = elim (lookup ex.temp_path handlers) [
      | none ↦ otherwise ex
      | some handler ↦ handler ex
    ]

    -- The first slash of the path goes.
    abbrev pub at_root : Exchange S → Exchange S
    at_root ex =
        if has_slash_first ex.temp_path then record ex { temp_path = rest_of ex.temp_path } else ex

    -- The handler of the method's map at the path, or what is left.
    unfoldable pub dispatch : Routes S → Action S Done → Action S Done
    unfolding routed fetch_map_from_method
    dispatch routes otherwise ex = routed (fetch_map_from_method ex.method routes) otherwise ex

    abbrev pub to_child : Text → Exchange S → Exchange S
    unfolding path_under
    to_child key ex = record ex { temp_path = path_under key ex.temp_path }

    abbrev pub to_param : Text → Exchange S → Exchange S
    unfolding segment behind_slash put
    to_param name ex = record ex {
      params = put name (lib.decode (segment ex.temp_path)) ex.params;
      temp_path = behind_slash ex.temp_path;
    }

    -- Router::handleRequest
    unfoldable mutual
      unfolding dispatch handle_middlewares

      pub handle_request : Router S → Action S Done
      handle_request (node ms routes cs p) ex =
          admitted (handle_middlewares ms ex)
            (λ ex'. dispatch routes (find_child cs (find_param p)) (at_root ex'))

      pub find_child : Children S → Action S Done → Action S Done
      find_child no_child otherwise ex = otherwise ex
      find_child (child key router rest) otherwise ex =
          let later = find_child rest otherwise ex in
          let here = handle_request router (to_child key ex) in
          if is_under key ex.temp_path then here else later

      pub find_param : Param S → Action S Done
      find_param no_param ex = (ok tt, on_state send_not_found ex)
      find_param (param name router) ex = handle_request router (to_param name ex)
