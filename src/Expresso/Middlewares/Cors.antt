-- ===== src/Expresso/Middlewares/Cors.antt =====
-- src/middleware/cors.cpp, with the headers of include/expresso/constants/cors.h.
use lisa_lashes_demo.Base.{
  ℕ, ◌+◌, Bool, true, false, ◌||◌, Option, none, some, List, [], ◌∷◌, if◌then◌else◌, ◌==◌,
}
use lisa_lashes_demo.Base.Int.{pos, int_eq, ltb_ℤ, ◌-ℤ◌, ℤ}
use lisa_lashes_demo.Base.Text.{Text, bytes, is_empty, text_eq}
use lisa_lashes_demo.Expresso.Libraries.{Brewtils, text_lt}
use lisa_lashes_demo.Expresso.Response.{Response, set, status, send}
use lisa_lashes_demo.Expresso.Router.{
  Method, get_method, post_method, put_method, patch_method, delete_method, options_method,
  head_method,
}
use lisa_lashes_demo.Db.Exec.{Result, ok, throw, runtime_error, text}
use mathlib.Core.Option

-- std::set of texts
unfoldable pub insert_text : Text → List Text → List Text
insert_text t [] = t ∷ []
insert_text t (x ∷ rest) =
    let later = insert_text t rest in
    if text_eq t x then x ∷ rest else if text_lt t x then t ∷ x ∷ rest else x ∷ later

-- A std::set of enumerators, as the integers that they are.
unfoldable pub insert_method : ℤ → List ℤ → List ℤ
insert_method m [] = m ∷ []
insert_method m (x ∷ rest) =
    let later = insert_method m rest in
    if int_eq m x then x ∷ rest else if ltb_ℤ m x then m ∷ x ∷ rest else x ∷ later

abbrev pub method_value : Method → ℤ
method_value get_method = pos 0
method_value post_method = pos 1
method_value put_method = pos 2
method_value patch_method = pos 3
method_value delete_method = pos 4
method_value options_method = pos 5
method_value head_method = pos 6

pub record Cors : Type 0 where
  pub credentials : Bool
  pub allow_all_origins : Bool
  pub allowed_headers : Text
  pub origins : List Text
  pub headers : List Text
  pub methods : List ℤ

-- expresso::constants::cors::headers, in the order of the set.
abbrev cors_headers : List Text
cors_headers =
    bytes "accept"
    ∷ bytes "access-control-allow-credentials"
    ∷ bytes "access-control-allow-headers"
    ∷ bytes "access-control-allow-methods"
    ∷ bytes "access-control-allow-origin"
    ∷ bytes "access-control-expose-headers"
    ∷ bytes "access-control-max-age"
    ∷ bytes "authorization"
    ∷ bytes "content-type"
    ∷ bytes "origin"
    ∷ bytes "user-agent"
    ∷ bytes "x-requested-with"
    ∷ []

-- Cors::allowMethod(method)
abbrev pub allow_method : Method → Cors → Cors
unfolding insert_method
allow_method m cors = record cors { methods = insert_method (method_value m) cors.methods }

-- Cors::Cors
unfoldable pub new_cors : Cors
unfolding allow_method
new_cors = allow_method options_method (
    allow_method post_method (
      allow_method get_method (record {
        credentials = false;
        allow_all_origins = false;
        allowed_headers = [];
        origins = [];
        headers = cors_headers;
        methods = [];
      })))

-- std::set::find and std::distance from the first element.
position : Text → List Text → Option ℕ
position name [] = none
position name (x ∷ rest) =
    let later = position name rest in
    if text_eq x name then some 0 else Option.map (λ i. i + 1) later

-- Cors::allowMethod(std::string), for the names in mochios::enums::methods.
unfoldable pub allow_method_named : List Text → Text → Cors → Result Cors
unfolding position insert_method ◌-ℤ◌
allow_method_named names name cors = elim (position name names) [
  | none ↦
      throw
        (runtime_error (text "void expresso::middleware::Cors::allowMethod(std::string method)"))
  | some i ↦ ok (record cors { methods = insert_method (pos i -ℤ pos 1) cors.methods })
]

-- Cors::allowHeader
unfoldable pub allow_header : Brewtils → Text → Cors → Cors
unfolding insert_text
allow_header lib header cors =
    let headers = insert_text (lib.lower header) cors.headers in
    record cors { headers = headers; allowed_headers = lib.join headers (bytes ", ") }

abbrev starts_with_dot : Text → Bool
starts_with_dot [] = false
starts_with_dot (c ∷ t) = c == b'.'

-- Cors::allowOrigin
unfoldable pub allow_origin : Text → Cors → Cors
unfolding insert_text text_eq
allow_origin origin cors =
    let dotted = if starts_with_dot origin then origin else b'.' ∷ origin in
    record cors {
      origins = insert_text dotted cors.origins;
      allow_all_origins = text_eq dotted (bytes ".*") || cors.allow_all_origins;
    }

abbrev pub allow_credentials : Bool → Cors → Cors
allow_credentials credentials cors = record cors { credentials = credentials }

-- `regex_match pattern text`: std::regex_match of the text, for patterns that std::regex accepts.
module _ {Cookie' : Type 0} (lib : Brewtils) (serialize : Cookie' → Text) where
  abbrev bool_text : Bool → Text
  bool_text true = bytes "true"
  bool_text false = bytes "false"

  abbrev or_star : Text → Text
  or_star t = if is_empty t then bytes "*" else t

  unfoldable pub is_listed : (Text → Text → Bool) → Text → List Text → Bool
  is_listed regex_match origin [] = false
  is_listed regex_match origin (o ∷ rest) =
      let later = is_listed regex_match origin rest in
      if text_eq o (b'.' ∷ origin) || regex_match o origin then true else later

  abbrev allow_headers : Cors → Response Cookie' → Response Cookie'
  allow_headers cors res =
      set lib serialize "access-control-allow-headers" (or_star cors.allowed_headers)
        (set lib serialize "access-control-allow-credentials" (bool_text cors.credentials) res)

  -- Cors::use; `origin` is the request's header, "" without one.
  unfoldable pub cors_use :
      (Text → Text → Bool) → Cors → Text → Response Cookie' → Bool × Response Cookie'
  unfolding is_listed
  cors_use regex_match cors origin res =
      if cors.allow_all_origins
      then (
        true,
        allow_headers cors (set lib serialize "access-control-allow-origin" (or_star origin) res),
      )
      else if is_empty origin
      then (true, res)
      else if is_listed regex_match origin cors.origins
      then (true, allow_headers cors (set lib serialize "access-control-allow-origin" origin res))
      else (
        false,
        send lib serialize (bytes "Forbidden")
            (status 403 (set lib serialize "access-control-allow-origin" (bytes "null") res)),
      )
