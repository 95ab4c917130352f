-- ===== src/Expresso/Router/Prefix.antt =====
-- The loop of Router::handleRequest over routerMap, which compares prefixes of the path, against a
-- search for the path's first segment.
use lisa_lashes_demo.Base.{
  suc, ◌+◌, ◌≡◌, refl, ap, ◌∙◌, sym, Bool, true, false, Option, none, some, List, [], ◌∷◌, ◌++◌,
  arith, if◌then◌else◌, ◌==◌, leb, length, take, drop, inl, inr, Bool-cases, Done,
}
use lisa_lashes_demo.Base.Text.{Text, text_eq, text_eq_sound}
use lisa_lashes_demo.Db.Exec.{Exception, Result, ok, throw}
use lisa_lashes_demo.Http.{lookup}
use lisa_lashes_demo.Expresso.Libraries.{Brewtils}
use lisa_lashes_demo.Expresso.Router.{
  Method, Router, node, Routes, Children, no_child, child, Param, no_param, fetch_map_from_method,
  dispatch, routed, handle_middlewares, has_slash_first, find_param, on_state, Exchange, Action,
  segment, behind_slash, is_under, path_under, handle_request, find_child, to_child,
}

abbrev pub IsSlashFree : Text → Type 0
IsSlashFree [] = Unit
IsSlashFree (c ∷ t) = ((c == b'/') ≡ false) × IsSlashFree t

starts-segment :
    (key path : Text)
    → IsSlashFree key
    → text_eq (take (length (key ++ b'/' ∷ [])) (path ++ b'/' ∷ [])) (key ++ b'/' ∷ [])
      ≡ text_eq key (segment path)
unfolding text_eq segment
starts-segment [] [] h = refl
starts-segment [] (c ∷ path) h = ground arith
starts-segment (k ∷ key) [] h = ground arith
starts-segment (k ∷ key) (c ∷ path) h = let ih = starts-segment key path h.1 in ground arith

segment-shorter :
    (key path : Text) → text_eq key (segment path) ≡ true → leb (length key) (length path) ≡ true
unfolding text_eq segment
segment-shorter [] path h = ground arith
segment-shorter (k ∷ key) [] h = ground arith
segment-shorter (k ∷ key) (c ∷ path) h = let ih = segment-shorter key path in ground arith

pub is_under-segment :
    (key path : Text) → IsSlashFree key → is_under key path ≡ text_eq key (segment path)
unfolding is_under
is_under-segment key path h =
    let e = starts-segment key path h in let s = segment-shorter key path in ground arith

drop-behind_slash :
    (key path : Text)
    → text_eq key (segment path) ≡ true
    → drop (suc (length key)) path ≡ behind_slash path
unfolding text_eq segment behind_slash
drop-behind_slash [] [] h = refl
drop-behind_slash [] (c ∷ path) h = ground arith
drop-behind_slash (k ∷ key) [] h = ground arith
drop-behind_slash (k ∷ key) (c ∷ path) h = let ih = drop-behind_slash key path in ground arith

drop_all : (path : Text) → drop (suc (length path)) path ≡ []
drop_all [] = refl
drop_all (c ∷ path) = drop_all path

path_under-drop : (key path : Text) → path_under key path ≡ drop (suc (length key)) path
unfolding path_under
path_under-drop key path =
    let n : length key + 1 ≡ suc (length key) = omega arith in
    elim (Bool-cases (text_eq path key)) [
      | inl same ↦ rw same (
          sym (
            ap (λ (k : Text). drop (suc (length k)) path) (sym (text_eq_sound path key same))
            ∙ drop_all path))
      | inr other ↦ rw (other, n) refl
    ]

-- The router that the map holds for a key.
unfoldable pub child_at : {S : Type 0} → Text → Children S → Option (Router S)
child_at key no_child = none
child_at key (child k router rest) =
    let later = child_at key rest in if text_eq k key then some router else later

abbrev pub KeysSlashFree : {S : Type 0} → Children S → Type 0
KeysSlashFree no_child = Unit
KeysSlashFree (child key router rest) = IsSlashFree key × KeysSlashFree rest

module _ {S : Type 0} where
  none_in : Result (List (Text × Action S Done)) → Text → Bool
  none_in (ok handlers) path = elim (lookup path handlers) [ none ↦ true | some h ↦ false ]
  none_in (throw e) path = false

  -- The method's map exists and has no handler at the path.
  unfoldable pub has_no_handler : Routes S → Method → Text → Bool
  unfolding none_in fetch_map_from_method lookup
  has_no_handler rs method path = none_in (fetch_map_from_method method rs) path

  abbrev pub middlewares_of : Router S → List (Action S Bool)
  middlewares_of (node ms rs cs p) = ms

  abbrev pub routes_of : Router S → Routes S
  routes_of (node ms rs cs p) = rs

  abbrev pub param_of : Router S → Param S
  param_of (node ms rs cs p) = p

  abbrev pub children_of : Router S → Children S
  children_of (node ms rs cs p) = cs

module _ {S : Type 0} (lib : Brewtils) (end send_not_found : S → S) where
  routed_none :
      (handlers : Result (List (Text × Action S Done))) (otherwise : Action S Done)
      (ex : Exchange S)
      → none_in handlers ex.temp_path ≡ true
      → routed lib end send_not_found handlers otherwise ex ≡ otherwise ex
  unfolding routed none_in
  routed_none handlers otherwise ex h = ground arith

  resume : Option (Router S) → Action S Done → Action S Done
  resume none otherwise ex = otherwise ex
  resume (some router) otherwise ex =
      handle_request lib end send_not_found router
        (record ex { temp_path = behind_slash ex.temp_path })

  -- The request goes on in the router for its first segment, with the rest of its path.
  pub by_segment : Children S → Action S Done → Action S Done
  by_segment cs otherwise ex = resume (child_at (segment ex.temp_path) cs) otherwise ex

  -- If no key of routerMap has a slash, the loop over its prefixes gives the request to the router
  -- whose key is the path's first segment, with the rest of the path, and goes on behind the loop if
  -- the map has no such key.
  pub find_child-by_segment :
      (cs : Children S) (otherwise : Action S Done) (ex : Exchange S)
      → KeysSlashFree cs
      → find_child lib end send_not_found cs otherwise ex ≡ by_segment cs otherwise ex
  unfolding handle_request by_segment resume child_at to_child
  find_child-by_segment no_child otherwise ex h = refl
  find_child-by_segment (child key router rest) otherwise ex (here, later) =
      let ih = find_child-by_segment rest otherwise ex later in
      let u = is_under-segment key ex.temp_path here in
      elim (Bool-cases (text_eq key (segment ex.temp_path))) [
        | inl e ↦
            rw (u, e, path_under-drop key ex.temp_path, drop-behind_slash key ex.temp_path e) refl
        | inr e ↦ rw (u, e) ih
      ]

  -- A request that the middlewares let through and that has no handler goes to the router for its
  -- first segment.
  pub handle_request-child :
      (r : Router S) (ex ex' : Exchange S) (router : Router S)
      → KeysSlashFree (children_of r)
      → handle_middlewares lib end send_not_found (middlewares_of r) ex ≡ (ok true, ex')
      → has_slash_first ex'.temp_path ≡ false
      → has_no_handler (routes_of r) ex'.method ex'.temp_path ≡ true
      → child_at (segment ex'.temp_path) (children_of r) ≡ some router
      → handle_request lib end send_not_found r ex
        ≡ handle_request lib end send_not_found router
            (record ex' { temp_path = behind_slash ex'.temp_path })
  unfolding handle_request dispatch by_segment resume none_in has_no_handler
  handle_request-child (node ms rs cs p) ex ex' router keys passed s n c =
      rw
        (
          passed,
          s,
          routed_none (fetch_map_from_method ex'.method rs)
              (find_child lib end send_not_found cs (find_param lib end send_not_found p)) ex' n,
        )
        (find_child-by_segment cs (find_param lib end send_not_found p) ex' keys
          ∙ ap (λ (o : Option (Router S)). resume o (find_param lib end send_not_found p) ex') c)

  -- One that has no router either is answered by send_not_found, if the router has no paramRouter.
  pub handle_request-nowhere :
      (r : Router S) (ex ex' : Exchange S)
      → KeysSlashFree (children_of r)
      → param_of r ≡ no_param
      → handle_middlewares lib end send_not_found (middlewares_of r) ex ≡ (ok true, ex')
      → has_slash_first ex'.temp_path ≡ false
      → has_no_handler (routes_of r) ex'.method ex'.temp_path ≡ true
      → child_at (segment ex'.temp_path) (children_of r) ≡ none
      → handle_request lib end send_not_found r ex
        ≡ (ok tt, on_state lib end send_not_found send_not_found ex')
  unfolding handle_request dispatch by_segment resume none_in has_no_handler
  handle_request-nowhere (node ms rs cs p) ex ex' keys alone passed s n c =
      rw
        (
          passed,
          s,
          routed_none (fetch_map_from_method ex'.method rs)
              (find_child lib end send_not_found cs (find_param lib end send_not_found p)) ex' n,
        )
        (find_child-by_segment cs (find_param lib end send_not_found p) ex' keys
          ∙ ap (λ (o : Option (Router S)). resume o (find_param lib end send_not_found p) ex') c
          ∙ ap (λ (q : Param S). find_param lib end send_not_found q ex') alone)

  pub handle_request_refused :
      (r : Router S) (m : Action S Bool) (ex ex' : Exchange S)
      → middlewares_of r ≡ m ∷ []
      → m ex ≡ (ok false, ex')
      → handle_request lib end send_not_found r ex
        ≡ (ok tt, on_state lib end send_not_found end ex')
  unfolding handle_request handle_middlewares
  handle_request_refused (node ms rs cs p) m ex ex' e h = rw (e, h) refl

  pub handle_request_thrown :
      (r : Router S) (m : Action S Bool) (ex ex' : Exchange S) (e : Exception)
      → middlewares_of r ≡ m ∷ []
      → m ex ≡ (throw e, ex')
      → handle_request lib end send_not_found r ex ≡ (throw e, ex')
  unfolding handle_request handle_middlewares
  handle_request_thrown (node ms rs cs p) m ex ex' x e h = rw (e, h) refl

  pub handle_middlewares-nil :
      (ex : Exchange S) → handle_middlewares lib end send_not_found [] ex ≡ (ok true, ex)
  unfolding handle_middlewares
  handle_middlewares-nil ex = refl

  pub handle_middlewares-one :
      (m : Action S Bool) (ex ex' : Exchange S)
      → m ex ≡ (ok true, ex')
      → handle_middlewares lib end send_not_found (m ∷ []) ex ≡ (ok true, ex')
  unfolding handle_middlewares
  handle_middlewares-one m ex ex' h = rw h refl
