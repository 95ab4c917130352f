-- ===== src/Expresso/Server/Reading.antt =====
-- makeRequest reads what a client writes: the text of a request without a body, and the request that
-- it becomes.
pub mod Headers
use lisa_lashes_demo.Base.{
  ℕ, suc, ◌+◌, ◌-◌, ◌≡◌, refl, sym, ap, subst, ◌∙◌, Bool, true, false, ◌&&◌, Option, none, some,
  List, [], ◌∷◌, ◌++◌, arith, if◌then◌else◌, ◌==◌, length, take, drop, take-append, length-append,
  ◌⊎◌, inl, inr, Bool-cases,
}
use mathlib.Core.List.{append_assoc}
use lisa_lashes_demo.Base.Int.{ℤ, pos}
use lisa_lashes_demo.Base.Text.{Text, bytes, is_empty, text_eq, text_eq_sound}
use lisa_lashes_demo.Db.Exec.{Result, ok, throw}
use lisa_lashes_demo.Http.{int_of}
use lisa_lashes_demo.Expresso.Libraries.{Brewtils, put}
use lisa_lashes_demo.Expresso.Response.{crlf}
use lisa_lashes_demo.Expresso.Router.{get_method, without_last_slash}
use lisa_lashes_demo.Expresso.Server.{
  Free, lines-line, Parse, parsed, ◌>>=◌, cut, lines, get_method_from_string, Request, JsonParser,
  set_header, set_line, parse_headers, queries_of, queries_behind, temp_path_of, before_query,
  trimmed, check_version, add_body, behind_first, make_request,
}
use lisa_lashes_demo.Expresso.Server.Queries.{
  cut-none, cut-append, WellFormed, query_text, put_all, queries_of-query_text,
}
use Headers.{header_text, AreHeaders, with_headers, Free-append, parse_headers-header_text}

-- brewtils::string::split by one character.
pub record Splits (lib : Brewtils) : Type 0 where
  pub last : (c : ℕ) (t : Text) → Free c t → lib.split t (c ∷ []) ≡ t ∷ []
  pub first :
      (c : ℕ) (s t : Text) → Free c s → lib.split (s ++ c ∷ t) (c ∷ []) ≡ s ∷ lib.split t (c ∷ [])

-- What a client sends for GET, with "HTTP/" and the version.
pub request_text : Text → Text → Text → List (Text × Text) → Text
unfolding header_text
request_text word target version headers =
    (word ++ 32 ∷ (target ++ 32 ∷ (bytes "HTTP/" ++ (version ++ 13 ∷ []))))
    ++ (10 ∷ (header_text headers ++ crlf))

-- The path, and the pairs behind a '?'.
unfoldable pub path_text : Text → List (Text × Text) → Text
path_text path [] = path
path_text path (p ∷ rest) = path ++ b'?' ∷ query_text (p ∷ rest)

module _ (lib : Brewtils) where
  split-line :
      (word target version : Text)
      → Splits lib
      → Free 32 word
      → Free 32 target
      → Free 32 version
      → lib.split (word ++ 32 ∷ (target ++ 32 ∷ version)) (bytes " ") ≡ word ∷ target ∷ version ∷ []
  split-line word target version s w t v =
      s.first 32 word (target ++ 32 ∷ version) w
      ∙ ap (◌∷◌ word) (s.first 32 target version t ∙ ap (◌∷◌ target) (s.last 32 version v))

  queries_of-path_text :
      (path : Text) (pairs : List (Text × Text))
      → Free b'?' path
      → WellFormed pairs
      → queries_of lib (path_text path pairs) ≡ parsed (put_all lib pairs [])
  unfolding path_text put_all queries_of queries_behind
  queries_of-path_text path [] h w = rw (cut-none b'?' path h) refl
  queries_of-path_text path (p ∷ rest) h w = queries_of-query_text lib path (p ∷ rest) h w

  trimmed-without_last_slash : (t : Text) → trimmed lib t ≡ without_last_slash t
  unfolding trimmed without_last_slash
  trimmed-without_last_slash [] = refl
  trimmed-without_last_slash (c ∷ []) = refl
  trimmed-without_last_slash (c ∷ d ∷ t) = ap (◌∷◌ c) (trimmed-without_last_slash (d ∷ t))

  temp_path_of-path_text :
      (path : Text) (pairs : List (Text × Text))
      → Free b'?' path
      → is_empty path ≡ false
      → temp_path_of lib (path_text path pairs) ≡ parsed (without_last_slash path)
  unfolding path_text temp_path_of before_query
  temp_path_of-path_text path [] h n =
      rw (cut-none b'?' path h, n) (ap parsed (trimmed-without_last_slash path))
  temp_path_of-path_text path (p ∷ rest) h n =
      rw (cut-append b'?' path (query_text (p ∷ rest)) h, n)
        (ap parsed (trimmed-without_last_slash path))

  module _ {Json : Type 0} (json : JsonParser Json) where
    -- The request before its headers are read.
    abbrev pub started : Text → Text → Request Json
    started version path = record {
      method = get_method;
      http_version = version;
      path = path;
      temp_path = [];
      host = [];
      xhr = false;
      content_length = pos 0;
      headers = [];
      queries = [];
      body = json.empty;
    }

    -- What a client writes of a request whose first word upper makes GET is what makeRequest
    -- reads: the path and the decoded queries, without the slash at the end of the path that is routed, and each
    -- header by its name in lower case, the last one of a name, with those that are fields of the
    -- request. The version keeps the carriage return of its line. No word of the first line has a
    -- space or an end of line, and the path is not empty.
    pub make_request-request_text :
        (word path version : Text) (pairs headers : List (Text × Text))
        → Splits lib
        → get_method_from_string (lib.upper word) ≡ ok get_method
        → Free 32 word × Free 10 word
        → Free 32 (path_text path pairs) × Free 10 (path_text path pairs)
        → Free 32 version × Free 10 version
        → Free b'?' path
        → is_empty path ≡ false
        → WellFormed pairs
        → AreHeaders lib headers
        → make_request lib json (request_text word (b'/' ∷ path_text path pairs) version headers)
          ≡ parsed
              (record (with_headers lib headers
                (started (bytes "HTTP/" ++ (version ++ 13 ∷ [])) (path_text path pairs))) {
                  queries = put_all lib pairs [];
                  temp_path = without_last_slash path;
                })
    unfolding make_request request_text check_version behind_first add_body text_eq
    make_request-request_text word path version pairs headers s method w p v h n pairs' headers' =
        let target = b'/' ∷ path_text path pairs in
        let http = bytes "HTTP/" ++ (version ++ 13 ∷ []) in
        let line = word ++ 32 ∷ (target ++ 32 ∷ http) in
        let one_line : Free 10 line = Free-append 10 word (32 ∷ (target ++ 32 ∷ http)) w.1 (
          refl,
          Free-append 10 target (32 ∷ http) (refl, p.1)
              (
                refl,
                (
                  refl,
                  (refl, (refl, (refl, (refl, Free-append 10 version (13 ∷ []) v.1 (refl, tt))))),
                ),
              ),
        ) in
        let no_space : Free 32 http =
          (refl, (refl, (refl, (refl, (refl, Free-append 32 version (13 ∷ []) v.0 (refl, tt)))))) in
        rw
          (
            lines-line line (header_text headers ++ crlf) one_line,
            split-line word target http s w.0 (refl, p.0) no_space,
            method,
            parse_headers-header_text lib json headers (started http (path_text path pairs))
                headers',
            queries_of-path_text path pairs h pairs',
            temp_path_of-path_text path pairs h n,
          )
          refl
