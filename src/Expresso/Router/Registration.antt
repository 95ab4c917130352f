-- ===== src/Expresso/Router/Registration.antt =====
-- Router::addRoute and Router::handleRequest together.
use lisa_lashes_demo.Base.{
  ℕ, ◌==◌, ◌⊎◌, inl, inr, subst, sym, arith, Bool-cases, [], ◌≡◌, refl, Bool, true, false, Option,
  none, some, List, ◌∷◌, Done,
}
use lisa_lashes_demo.Base.Text.{Text}
use lisa_lashes_demo.Db.Exec.{Result, ok, throw}
use lisa_lashes_demo.Http.{lookup}
use lisa_lashes_demo.Expresso.Libraries.{Brewtils, put, lookup-put}
use lisa_lashes_demo.Expresso.Router.{
  Method, get_method, post_method, put_method, patch_method, delete_method, options_method,
  head_method, Router, node, Routes, Children, Param, Exchange, Action, add_route, add_to_map,
  fetch_map_from_method, dispatch, routed, handle_request, handle_middlewares, has_slash_first,
  rest_of,
}
use lisa_lashes_demo.Expresso.Router.Prefix.{routes_of, middlewares_of}

-- The handler of a method's map at a path.
abbrev pub handler_at :
    {S : Type 0} → Result (List (Text × Action S Done)) → Text → Option (Action S Done)
unfolding lookup
handler_at (ok handlers) path = lookup path handlers
handler_at (throw e) path = none

module _ {S : Type 0} (lib : Brewtils) (end send_not_found : S → S) where
  -- The exchange `ex`, whose middlewares leave `ex'`, is given to `h`, or the route was refused for its
  -- method or its path.
  abbrev pub Registered :
      Method → Text → Action S Done → Exchange S → Exchange S → Result (Router S) → Type 0
  Registered m path h ex ex' (ok r) =
      (has_slash_first path ≡ true) × (handle_request lib end send_not_found r ex ≡ h ex')
  Registered m path h ex ex' (throw e) = (m ≡ head_method) ⊎ (has_slash_first path ≡ false)

  module _ (ms : List (Action S Bool)) (cs : Children S) (p : Param S) (key : Text)
      (h : Action S Done) (ex ex' : Exchange S) (s : has_slash_first key ≡ false)
      (passed : handle_middlewares lib end send_not_found ms ex ≡ (ok true, ex'))
      (same_path : ex'.temp_path ≡ key) where
    found_handler :
        (rs : Routes S) (handlers : List (Text × Action S Done))
        → fetch_map_from_method ex'.method rs ≡ ok handlers
        → lookup key handlers ≡ some h
        → handle_request lib end send_not_found (node ms rs cs p) ex ≡ h ex'
    unfolding handle_request dispatch routed
    found_handler rs handlers f l = rw (passed, same_path, s, f, routed, l) refl

    found_handler_at :
        (rs : Routes S)
        → handler_at (fetch_map_from_method ex'.method rs) key ≡ some h
        → handle_request lib end send_not_found (node ms rs cs p) ex ≡ h ex'
    unfolding lookup handler_at
    found_handler_at rs l = by_map rs (fetch_map_from_method ex'.method rs) refl l
      where
        by_map :
            (rs : Routes S) (r : Result (List (Text × Action S Done)))
            → fetch_map_from_method ex'.method rs ≡ r
            → handler_at r key ≡ some h
            → handle_request lib end send_not_found (node ms rs cs p) ex ≡ h ex'
        by_map rs (ok handlers) f l = found_handler rs handlers f l
        by_map rs (throw e) f l = cc

    added_route :
        (m : Method) (rs : Routes S)
        → ex'.method ≡ m
        → Registered m (b'/' ∷ key) h ex ex' (add_route m (b'/' ∷ key) h (node ms rs cs p))
    unfolding add_route add_to_map fetch_map_from_method
    added_route get_method rs e =
        (refl, found_handler _ (put key h rs.get_map) (rw e refl) (lookup-put key h rs.get_map))
    added_route post_method rs e =
        (refl, found_handler _ (put key h rs.post_map) (rw e refl) (lookup-put key h rs.post_map))
    added_route put_method rs e =
        (refl, found_handler _ (put key h rs.put_map) (rw e refl) (lookup-put key h rs.put_map))
    added_route patch_method rs e =
        (refl, found_handler _ (put key h rs.patch_map) (rw e refl) (lookup-put key h rs.patch_map))
    added_route delete_method rs e = (
      refl,
      found_handler _ (put key h rs.delete_map) (rw e refl) (lookup-put key h rs.delete_map),
    )
    added_route options_method rs e = (
      refl,
      found_handler _ (put key h rs.options_map) (rw e refl) (lookup-put key h rs.options_map),
    )
    added_route head_method rs e = inl refl

  -- addRoute refuses a route only for the method HEAD or for a path that does not start with a slash.
  -- A route that it has taken and whose path does not start with two slashes is found: a request of
  -- its method for its path, without the slash at the start, that the middlewares let through is
  -- given to its handler, whatever else is registered.
  pub add_route-handle_request :
      (ms : List (Action S Bool)) (rs : Routes S) (cs : Children S) (p : Param S) (m : Method)
      (path : Text) (h : Action S Done) (ex ex' : Exchange S)
      → has_slash_first (rest_of path) ≡ false
      → handle_middlewares lib end send_not_found ms ex ≡ (ok true, ex')
      → ex'.method ≡ m
      → ex'.temp_path ≡ rest_of path
      → Registered m path h ex ex' (add_route m path h (node ms rs cs p))
  unfolding add_route
  add_route-handle_request ms rs cs p m [] h ex ex' s passed same_method same_path = inr refl
  add_route-handle_request ms rs cs p m (c ∷ key) h ex ex' s passed same_method same_path =
      elim (Bool-cases (c == b'/')) [
        | inl slash ↦
            let e : c ≡ b'/' = ground arith in
            subst
              (λ (d : ℕ).
                Registered m (d ∷ key) h ex ex' (add_route m (d ∷ key) h (node ms rs cs p)))
              (sym e) (added_route ms cs p key h ex ex' s passed same_path m rs same_method)
        | inr other ↦ rw (add_route, other) (inr other)
      ]

  -- The same of any router whose maps have the handler.
  pub handle_request-handler_at :
      (r : Router S) (key : Text) (h : Action S Done) (ex ex' : Exchange S)
      → has_slash_first key ≡ false
      → handle_middlewares lib end send_not_found (middlewares_of r) ex ≡ (ok true, ex')
      → ex'.temp_path ≡ key
      → handler_at (fetch_map_from_method ex'.method (routes_of r)) key ≡ some h
      → handle_request lib end send_not_found r ex ≡ h ex'
  handle_request-handler_at (node ms rs cs p) key h ex ex' s passed same_path l =
      found_handler_at ms cs p key h ex ex' s passed same_path rs l
