-- ===== src/Http.antt =====
-- What the route handlers and the middlewares see of a request and write of a response. The JSON
-- values are the json library's: `Json` is a parameter of the handlers, as are its conversions.
-- An object is the list of its members. `data["k"] = v` of a new object is a member list.
use lisa_lashes_demo.Base.{
  ℕ, Bool, true, false, Option, none, some, List, [], ◌∷◌, String, if◌then◌else◌,
}
use lisa_lashes_demo.Base.Text.{Text, bytes, text_eq, is_empty, stoi, number, no_digits, too_large}
use lisa_lashes_demo.Base.Int.{ℤ}
use lisa_lashes_demo.Db.Exec.{
  Message, Exception, Result, ok, throw, invalid_argument, out_of_range, text, Exec, pure,
  from_result, ◌>>=◌,
}

pub record Cookie : Type 0 where
  pub name : Text
  pub value : Text

-- The fields of a Request that the handlers read.
pub record Request (Json : Type 0) : Type 0 where
  pub cookies : List Cookie
  pub queries : List (Text × Text)
  pub body : List (Text × Json)
  pub user_id : Option ℤ

-- What a handler passes to `json`: nothing, {"message": ...} with a fixed text or with what() of
-- an exception, or another object.
pub data Body (P : Type 0) : Type 0 where
  no_body : Body P
  message : String → Body P
  what : Message → Body P
  payload : P → Body P

pub record Response (P : Type 0) : Type 0 where
  pub status : ℕ
  pub body : Body P
  pub set_cookie : Option Text
  pub location : Option String

module _ {P : Type 0} where
  abbrev pub respond : ℕ → Body P → Response P
  respond status body = record { status = status; body = body; set_cookie = none; location = none }

-- The conversions of json::object that the handlers use; they may throw.
pub record JsonLibrary (Json : Type 0) : Type 0 where
  pub as_text : Json → Result Text
  pub as_int : Json → Result ℤ
  pub as_bool : Json → Result Bool
  -- arr[0], ..., arr[arr.size() - 1], and obj["k"]
  pub as_items : Json → Result (List Json)
  pub member : Json → String → Result Json

module _ {A : Type 0} where
  unfoldable pub lookup : Text → List (Text × A) → Option A
  lookup key [] = none
  lookup key ((k, v) ∷ rest) = if text_eq k key then some v else lookup key rest

-- `req.queries["k"]`: a missing key gives the empty text.
unfoldable pub query : {Json : Type 0} → Request Json → String → Text
unfolding lookup
query req key = elim (lookup (bytes key) req.queries) [ none ↦ [] | some value ↦ value ]

-- `body.find("k") == body.end()`, for a list of keys.
unfoldable pub field : {Json : Type 0} → Request Json → String → Option Json
unfolding lookup
field req key = lookup (bytes key) req.body

-- std::stoi with its two exceptions.
unfoldable pub int_of : Text → Result ℤ
int_of t = elim (stoi t) [
  | number z ↦ ok z
  | no_digits ↦ throw (invalid_argument (text "stoi"))
  | too_large ↦ throw (out_of_range (text "stoi"))
]

-- The loop over `req.cookies` that stops at the first cookie named "session".
unfoldable pub session_token : List Cookie → Text
session_token [] = []
session_token (c ∷ rest) = if text_eq c.name (bytes "session") then c.value else session_token rest

-- `(obj.find("k") != obj.end()) ? static_cast<std::string>(obj["k"]) : ""`
unfoldable pub text_or_empty :
    {Json : Type 0} → JsonLibrary Json → List (Text × Json) → String → Result Text
unfolding lookup
text_or_empty json object key = elim (lookup (bytes key) object) [
  | none ↦ ok []
  | some value ↦ json.as_text value
]

-- `obj.find("k") == obj.end()` for none of the keys.
unfoldable pub has_fields : {Json : Type 0} → List (Text × Json) → List String → Bool
unfolding lookup
has_fields object [] = true
has_fields object (key ∷ keys) =
    let rest = has_fields object keys in
    elim (lookup (bytes key) object) [ none ↦ false | some value ↦ rest ]

-- The same test with static_cast<int>, and another value for a missing member.
unfoldable pub int_or :
    {Json : Type 0} → JsonLibrary Json → ℤ → List (Text × Json) → String → Result ℤ
unfolding lookup
int_or json default object key = elim (lookup (bytes key) object) [
  | none ↦ ok default
  | some value ↦ json.as_int value
]

-- The same with static_cast<bool> and false.
unfoldable pub bool_or_false :
    {Json : Type 0} → JsonLibrary Json → List (Text × Json) → String → Result Bool
unfolding lookup
bool_or_false json object key = elim (lookup (bytes key) object) [
  | none ↦ ok false
  | some value ↦ json.as_bool value
]

-- The codes of src/include/expresso/enums/status_code.h that the handlers send.
abbrev pub status_ok : ℕ
status_ok = 200

abbrev pub created : ℕ
created = 201

abbrev pub found : ℕ
found = 302

abbrev pub bad_request : ℕ
bad_request = 400

abbrev pub unauthorized : ℕ
unauthorized = 401

abbrev pub forbidden : ℕ
forbidden = 403

abbrev pub not_found : ℕ
not_found = 404

abbrev pub conflict : ℕ
conflict = 409

abbrev pub internal_server_error : ℕ
internal_server_error = 500

module _ {S P : Type 0} where
  -- `return res.status(...).json(...).end();`
  abbrev pub reply : ℕ → Body P → Exec S (Response P)
  reply status body = pure (respond status body)

  -- The catch clause of most handlers, which answers without a body.
  abbrev pub fail_silently : Exception → Exec S (Response P)
  fail_silently e = reply internal_server_error no_body

  -- The catch clause that answers with a message.
  abbrev pub fail_loudly : Exception → Exec S (Response P)
  fail_loudly e = reply internal_server_error (message "Internal server error")

  -- `if (idStr.empty()) return res.status(BAD_REQUEST).end(); int id = std::stoi(idStr);`
  unfoldable pub with_id :
      {Json : Type 0} → Request Json → String → (ℤ → Exec S (Response P)) → Exec S (Response P)
  unfolding query int_of
  with_id req key handler =
      if is_empty (query req key)
      then reply bad_request no_body
      else do id ← from_result (int_of (query req key)); handler id
