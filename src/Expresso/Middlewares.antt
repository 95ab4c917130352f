-- ===== src/Expresso/Middlewares.antt =====
-- src/middleware/cookie_parser.cpp, cacher.cpp, date.cpp and version.cpp:
-- what `use` returns and does to the response. A middleware is given the fields of the request that
-- it reads.
pub mod Cors
pub mod Origins
pub mod StaticServe
use lisa_lashes_demo.Base.{
  ℕ, ◌+◌, Bool, true, false, not, ◌&&◌, ◌||◌, Option, none, some, List, [], ◌∷◌, ◌++◌,
  if◌then◌else◌, ◌==◌, String,
}
use lisa_lashes_demo.Base.Int.{pos, int_eq, ltb_ℤ, ◌-ℤ◌, ℤ, negsuc}
use lisa_lashes_demo.Base.Text.{Text, bytes, is_empty, text_eq, stoll, Parsed, number, decimal}
use lisa_lashes_demo.Http.{Cookie, lookup, has_fields}
use lisa_lashes_demo.Expresso.Libraries.{Brewtils, Files, text_lt}
use lisa_lashes_demo.Expresso.Response.{
  Response, set, status, send, send_file, get_available_file, quoted,
}
use lisa_lashes_demo.Expresso.Router.{
  Method, get_method, post_method, put_method, patch_method, delete_method, options_method,
  head_method,
}
use mathlib.Core.Option
use lisa_lashes_demo.Expresso.Server.{Parse, parsed, undefined, ◌>>=◌}

-- `map["k"]` of a std::map of texts
abbrev pub header_of : List (Text × Text) → String → Text
header_of headers name = elim (lookup (bytes name) headers) [ none ↦ [] | some value ↦ value ]

module _ {Cookie' : Type 0} (lib : Brewtils) (serialize : Cookie' → Text) where
  -- Cacher::Cacher and Cacher::use
  abbrev pub cacher_text : ℕ → Bool → Text
  cacher_text max_age is_private =
      bytes "max-age="
      ++ (decimal max_age ++ (if is_private then bytes ", private" else bytes ", public"))

  unfoldable pub cacher_use : ℕ → Bool → Response Cookie' → Bool × Response Cookie'
  unfolding decimal
  cacher_use max_age is_private res =
      (true, set lib serialize "cache-control" (cacher_text max_age is_private) res)

  -- Date::use, with the text of brewtils::date::getCurrentUTC
  unfoldable pub date_use : Text → Response Cookie' → Bool × Response Cookie'
  date_use now res = (true, set lib serialize "date" now res)

  -- Version::Version and Version::use
  abbrev pub version_text : ℕ → ℕ → ℕ → Text
  version_text major minor patch =
      b'v' ∷ (decimal major ++ (b'.' ∷ (decimal minor ++ (b'.' ∷ decimal patch))))

  unfoldable pub version_use : Text → Response Cookie' → Bool × Response Cookie'
  version_use version res = (
    true,
    set lib serialize "x-powered-by" (bytes "Expresso/" ++ version)
        (set lib serialize "expresso" version res),
  )

  -- CookieParser::use; a cookie without a '=' is read out of bounds.
  abbrev cookie_part : List Text → ℕ → Parse Text
  cookie_part [] i = undefined
  cookie_part (x ∷ []) i = if i == 0 then parsed x else undefined
  cookie_part (x ∷ y ∷ rest) i = if i == 0 then parsed x else parsed y

  abbrev cookie_of : List Text → Parse Cookie
  cookie_of pair = do
    name ← cookie_part pair 0
    value ← cookie_part pair 1
    parsed (record { name = lib.trim name; value = lib.decode (lib.trim value) })

  parse_cookies : List Text → Parse (List Cookie)
  parse_cookies [] = parsed []
  parse_cookies (text ∷ rest) = do
    cookie ← cookie_of (lib.split text (bytes "="))
    cookies ← parse_cookies rest
    parsed (cookie ∷ cookies)

  unfoldable pub cookie_parser_use : List (Text × Text) → Parse (List Cookie)
  unfolding parse_cookies lookup
  cookie_parser_use headers =
      let text = header_of headers "cookie" in
      if is_empty text then parsed [] else parse_cookies (lib.split text (bytes ";"))
