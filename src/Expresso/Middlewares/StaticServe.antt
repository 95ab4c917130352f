-- ===== src/Expresso/Middlewares/StaticServe.antt =====
-- src/middleware/static_serve.cpp: what `use` returns and does to the response.
pub mod Absolute
use lisa_lashes_demo.Base.{
  ℕ, ◌+◌, Bool, true, false, not, ◌&&◌, ◌||◌, Option, none, some, List, [], ◌∷◌, ◌++◌,
  if◌then◌else◌, ◌==◌, String,
}
use lisa_lashes_demo.Base.Int.{ℤ, negsuc}
use lisa_lashes_demo.Base.Text.{Text, bytes, is_empty, text_eq, stoll, Parsed, number, decimal}
use lisa_lashes_demo.Http.{Cookie, lookup, has_fields}
use lisa_lashes_demo.Expresso.Libraries.{Brewtils, Files, text_lt}
use lisa_lashes_demo.Expresso.Response.{
  Response, set, status, send, send_file, get_available_file, quoted,
}
use lisa_lashes_demo.Expresso.Router.{Method, get_method, post_method, options_method}
use lisa_lashes_demo.Expresso.Server.{Parse, parsed, undefined, ◌>>=◌}
use lisa_lashes_demo.Expresso.Middlewares.{header_of}

-- `parts.back()`
abbrev last_part : List Text → Parse Text
last_part [] = undefined
last_part (x ∷ []) = parsed x
last_part (x ∷ y ∷ rest) = last_part (y ∷ rest)

abbrev is_get : Method → Bool
is_get get_method = true
is_get _ = false

-- brewtils::os::dir::exists
abbrev is_directory : Files → Text → Bool
is_directory files path = elim (files.directory path) [ none ↦ false | some entries ↦ true ]

module _ {Cookie' : Type 0} (lib : Brewtils) (serialize : Cookie' → Text) where
  abbrev bound_of : Parsed → Option ℤ
  bound_of (number z) = some z
  bound_of _ = none

  abbrev minus_one : ℤ
  minus_one = negsuc 0

  abbrev or_minus_one : Option ℤ → ℤ
  or_minus_one none = minus_one
  or_minus_one (some z) = z

  -- The bounds of "start-end"; a start that std::stoll refuses leaves both at -1.
  abbrev bounds : List Text → ℤ × ℤ
  unfolding stoll
  bounds [] = (minus_one, minus_one)
  bounds (start ∷ []) = (or_minus_one (bound_of (stoll start)), minus_one)
  bounds (start ∷ last ∷ rest) = elim (bound_of (stoll start)) [
    | none ↦ (minus_one, minus_one)
    | some z ↦ (z, or_minus_one (bound_of (stoll last)))
  ]

  -- StaticServe::getRange
  range_of : List Text → ℤ × ℤ
  unfolding bounds
  range_of (before ∷ range ∷ []) = bounds (lib.split range (bytes "-"))
  range_of _ = (minus_one, minus_one)

  unfoldable pub get_range : Text → ℤ × ℤ
  unfolding range_of
  get_range range = range_of (lib.split range (bytes "bytes="))

  entry : Files → Text → Text → Text → Text
  entry files url_path file name =
      bytes "<li><a href="
      ++ (quoted (b'/' ∷ lib.join_path url_path name)
          ++ (b'>'
              ∷ (name
                  ++ ((if is_directory files file then bytes "/" else []) ++ bytes "</a></li>"))))

  entry_list : Files → Text → List Text → Parse Text
  unfolding entry
  entry_list files url_path [] = parsed []
  entry_list files url_path (file ∷ rest) = do
    name ← last_part (lib.split file (bytes "/"))
    later ← entry_list files url_path rest
    parsed (entry files url_path file name ++ later)

  abbrev link_up : Text → Text → Text
  link_up url_path temp_path =
      if is_empty temp_path
      then []
      else bytes "<li><a href="
        ++ (quoted (b'/' ∷ (url_path ++ bytes "/..")) ++ bytes ">..</a></li>")

  -- StaticServe::getFolderHTML, for what brewtils::os::dir::list gives.
  get_folder_html : Files → Text → Text → List Text → Parse Text
  unfolding entry_list
  get_folder_html files url_path temp_path entries = do
    items ← entry_list files url_path entries
    parsed (
        bytes "<html><head><title>Index of /"
        ++ (url_path
            ++ (bytes "</title></head><body><h1>Index of /"
                ++ (lib.decode url_path
                    ++ (bytes "</h1><ul>"
                        ++ (link_up url_path temp_path
                            ++ (items ++ bytes "</ul></body></html>")))))))

  list_folder : Text → Response Cookie' → Response Cookie'
  list_folder html res =
      status 200
        (set lib serialize "content-type" (bytes "text/html") (send lib serialize html res))

  serve_listing :
      Files → Bool → Text → Text → Text → Response Cookie' → Parse (Bool × Response Cookie')
  unfolding get_folder_html list_folder
  serve_listing files show_listing local_path url_path temp_path res =
      if show_listing
      then elim (files.directory local_path) [
        | none ↦ parsed (true, res)
        | some entries ↦ get_folder_html files url_path temp_path entries >>= λ html.
            parsed (false, list_folder html res)
      ]
      else parsed (true, res)

  -- StaticServe::use; `url_path` is the request's path, `temp_path` what the routers left of it.
  unfoldable pub static_serve_use :
      Files
      → Text
      → Bool
      → Method
      → Text
      → Text
      → List (Text × Text)
      → Response Cookie'
      → Parse (Bool × Response Cookie')
  unfolding get_range serve_listing
  static_serve_use files dirname show_listing method url_path temp_path headers res =
      if is_get method
      then (let local_path = lib.join_path dirname (lib.decode temp_path) in
          let available = get_available_file lib files local_path in
          let range = get_range (header_of headers "range") in
          if is_empty available
          then serve_listing files show_listing local_path url_path temp_path res
          else parsed (false, send_file lib serialize files available range.0 range.1 res))
      else parsed (true, res)
