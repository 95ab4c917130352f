-- ===== src/Expresso/Server.antt =====
-- src/core/server.cpp: makeRequest. A text that the source walks by an index is what is left of it
-- behind the index.
mod Parsing
pub mod Queries
pub mod Reading
pub mod Connection
use lisa_lashes_demo.Base.{
  ℕ, zero, suc, ◌+◌, ◌-◌, Bool, true, false, ◌&&◌, ◌||◌, Option, none, some, List, [], ◌∷◌, ◌++◌,
  if◌then◌else◌, ◌==◌, leb, length, take, drop, Done,
}
use lisa_lashes_demo.Base.Int.{ℤ, pos}
use lisa_lashes_demo.Base.Text.{Text, bytes, is_empty, text_eq}
use lisa_lashes_demo.Db.Exec.{Exception, out_of_range, runtime_error, text, Result, ok, throw}
use lisa_lashes_demo.Http.{int_of, lookup}
use lisa_lashes_demo.Expresso.Libraries.{Brewtils, put, with_key}
use lisa_lashes_demo.Expresso.Response.{crlf}
use lisa_lashes_demo.Expresso.Router.{
  Method, get_method, post_method, put_method, patch_method, delete_method, options_method,
  head_method,
}
pub use Parsing.{Free, lines-line, Parse, parsed, failed, undefined, endless, ◌>>=◌, try_parse}
unfoldable pub use Parsing.{part, cut, behind, get_method_from_string, lines}

-- The fields of a Request that makeRequest sets; `Json` is json::object.
pub record Request (Json : Type 0) : Type 0 where
  pub method : Method
  pub http_version : Text
  pub path : Text
  pub temp_path : Text
  pub host : Text
  pub xhr : Bool
  pub content_length : ℤ
  pub headers : List (Text × Text)
  pub queries : List (Text × Text)
  pub body : Json

-- json::parser::loads, json::object(std::string), an object of such members, and json::object().
pub record JsonParser (Json : Type 0) : Type 0 where
  pub loads : Text → Result Json
  pub of_text : Text → Json
  pub of_members : List (Text × Text) → Json
  pub empty : Json

abbrev substr_error : Exception
substr_error = out_of_range (text "basic_string::substr")

-- The loop over the queries; without a '=' it goes round for ever. The text is decoded in parts.
module _ (lib : Brewtils) where
  abbrev query_value : Option (Text × Text) → Text → Text × Text
  query_value none after = (after, [])
  query_value (some found) after = found

  unfoldable pub parse_queries : ℕ → Text → List (Text × Text) → Option (List (Text × Text))
  unfolding cut put
  parse_queries zero t queries = if is_empty t then some queries else none
  parse_queries (suc fuel) t queries = if is_empty t then some queries else elim (cut b'=' t) [
    | none ↦ parse_queries fuel t queries
    | some found ↦
        let value = query_value (cut b'&' found.1) found.1 in
        parse_queries fuel value.1 (put (lib.decode found.0) (lib.decode value.0) queries)
  ]

  finished : Option (List (Text × Text)) → Parse (List (Text × Text))
  finished none = endless
  finished (some queries) = parsed queries

  queries_behind : Option (Text × Text) → Parse (List (Text × Text))
  unfolding parse_queries finished
  queries_behind none = parsed []
  queries_behind (some found) = finished (parse_queries (suc (length found.1)) found.1 [])

  unfoldable pub queries_of : Text → Parse (List (Text × Text))
  unfolding cut queries_behind
  queries_of path = queries_behind (cut b'?' path)

  -- The path up to '?', without a slash at its end; the last character of an empty text is read out
  -- of bounds.
  before_query : Option (Text × Text) → Text → Text
  before_query none path = path
  before_query (some found) path = found.0

  trimmed : Text → Text
  trimmed [] = []
  trimmed (c ∷ []) = if c == b'/' then [] else c ∷ []
  trimmed (c ∷ d ∷ t) = c ∷ trimmed (d ∷ t)

  unfoldable pub temp_path_of : Text → Parse Text
  unfolding cut before_query trimmed
  temp_path_of path =
      let t = before_query (cut b'?' path) path in
      if is_empty t then undefined else parsed (trimmed t)

  module _ {Json : Type 0} (json : JsonParser Json) where
    set_header : Text → Text → Request Json → Parse (Request Json)
    unfolding put int_of
    set_header key value req =
        let with_key = record req { headers = put key value req.headers } in
        if text_eq key (bytes "content-length")
        then try_parse (int_of value) >>= (λ n. parsed (record with_key { content_length = n }))
        else if text_eq key (bytes "host")
        then parsed (record with_key { host = value })
        else if text_eq key (bytes "x-requested-with") && text_eq value (bytes "XMLHttpRequest")
        then parsed (record with_key { xhr = true })
        else parsed with_key

    -- `line.substr(separator + 2, line.size() - separator - 3)`; behind the ':' stand a space, the
    -- value and '\r'. A line that ends with ':' makes substr throw.
    set_line : Option (Text × Text) → Request Json → Parse (Request Json)
    unfolding set_header
    set_line none req = parsed req
    set_line (some found) req =
        if is_empty found.1
        then failed substr_error
        else set_header (lib.lower found.0) (take (length found.1 - 2) (drop 1 found.1)) req

    unfoldable pub parse_headers : List Text → Request Json → Parse (Request Json)
    unfolding set_line cut
    parse_headers [] req = parsed req
    parse_headers (line ∷ rest) req =
        if text_eq line (13 ∷ [])
        then parsed req
        else set_line (cut b':' line) req >>= parse_headers rest

    form_members : List Text → List (Text × Text) → Parse (List (Text × Text))
    unfolding put
    form_members [] members = parsed members
    form_members (str ∷ rest) members = do
      key ← part (lib.split str (bytes "=")) 0
      value ← part (lib.split str (bytes "=")) 1
      form_members rest (put (lib.decode key) (lib.decode value) members)

    without_last : ℕ → Text → Text
    without_last n t = take (length t - n) t

    -- `value.substr(0, value.size() - 3)` keeps all of a shorter text, as the length wraps.
    without_tail : Text → Text
    unfolding without_last
    without_tail t = if leb 3 (length t) then without_last 3 t else t

    multipart_member : List Text → List (Text × Text) → Parse (List (Text × Text))
    unfolding put without_last without_tail
    multipart_member (before ∷ data' ∷ []) members = do
      key ← part (lib.split data' crlf) 0
      value ← part (lib.split data' (crlf ++ crlf)) 1
      parsed (put (without_last 1 key) (lib.trim (without_tail value)) members)
    multipart_member _ members = parsed members

    multipart_members : List Text → List (Text × Text) → Parse (List (Text × Text))
    unfolding multipart_member
    multipart_members [] members = parsed members
    multipart_members (str ∷ rest) members =
        multipart_member (lib.split str (bytes "Content-Disposition: form-data; name=" ++ 34 ∷ []))
          members
        >>= multipart_members rest

    -- `request.substr(request.find("\r\n\r\n") + 4)`
    body_text : Text → Parse Text
    unfolding behind
    body_text request = elim (behind (crlf ++ crlf) request) [
      | none ↦ if leb 3 (length request) then parsed (drop 3 request) else failed substr_error
      | some body ↦ parsed body
    ]

    multipart_body : Text → Text → Parse Json
    unfolding multipart_members
    multipart_body content_type body = do
      parameter ← part (lib.split content_type (bytes ";")) 1
      delimiter ← part (lib.split parameter (bytes "=")) 1
      members ← multipart_members (lib.split body delimiter) []
      parsed (json.of_members members)

    abbrev header : Text → Request Json → Text
    unfolding lookup
    header key req = elim (lookup key req.headers) [ none ↦ [] | some value ↦ value ]

    unfoldable pub parse_body : Text → Text → Parse Json
    unfolding multipart_body form_members
    parse_body content_type body =
        if text_eq content_type (bytes "text/plain")
          || text_eq content_type (bytes "application/javascript")
        then parsed (json.of_text body)
        else if text_eq content_type (bytes "application/json")
        then try_parse (json.loads body)
        else if text_eq content_type (bytes "application/x-www-form-urlencoded")
        then form_members (lib.split body (bytes "&")) []
          >>= (λ members. parsed (json.of_members members))
        else part (lib.split content_type (bytes ";")) 0 >>= (λ kind.
          if text_eq kind (bytes "multipart/form-data")
          then multipart_body content_type body
          else parsed json.empty)

    with_body : Text → Request Json → Parse (Request Json)
    unfolding body_text header parse_body with_key
    with_body request req = do
      body ← body_text request
      content ← parse_body (header (bytes "content-type") req) body
      parsed
          (record req { body = content; headers = with_key (bytes "content-type") [] req.headers })

    -- GET and HEAD have no body.
    add_body : Method → Text → Request Json → Parse (Request Json)
    unfolding with_body
    add_body get_method request req = parsed req
    add_body head_method request req = parsed req
    add_body _ request req = with_body request req

    -- `req.path.substr(1, ...)`
    behind_first : Text → Parse Text
    behind_first [] = failed substr_error
    behind_first (c ∷ t) = parsed t

    abbrev first_line : List Text → Text
    first_line [] = []
    first_line (line ∷ rest) = line

    abbrev wrong_version : Exception
    wrong_version =
        runtime_error
          (text "expresso::core::Server::makeRequest(std::string &request) noexcept(false)")

    check_version : Text → Parse Done
    check_version version =
        if text_eq (take 5 version) (bytes "HTTP/") then parsed tt else failed wrong_version

    unfoldable pub make_request : Text → Parse (Request Json)
    unfolding lines get_method_from_string check_version behind_first parse_headers queries_of
        temp_path_of add_body
    make_request request =
        let parts = lib.split (first_line (lines request)) (bytes " ") in
        do
          word ← part parts 0
          target ← part parts 1
          method ← try_parse (get_method_from_string (lib.upper word))
          version ← part parts 2
          valid ← check_version version
          path ← behind_first target
          req ← parse_headers (drop 1 (lines request)) (record {
            method = method;
            http_version = version;
            path = path;
            temp_path = [];
            host = [];
            xhr = false;
            content_length = pos 0;
            headers = [];
            queries = [];
            body = json.empty;
          })
          queries ← queries_of path
          temp_path ← temp_path_of path
          add_body method request (record req { queries = queries; temp_path = temp_path })
