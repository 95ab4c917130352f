-- ===== src/Expresso/Middlewares/StaticServe/Absolute.antt =====
-- A file outside of the directory that StaticServe is made with.
use lisa_lashes_demo.Base.{
  ◌≡◌, refl, ap, ◌∙◌, Bool, false, Option, none, some, List, [], ◌∷◌, ◌++◌, arith,
}
use lisa_lashes_demo.Base.Int.{negsuc}
use lisa_lashes_demo.Base.Text.{Text, bytes}
use lisa_lashes_demo.Http.{lookup}
use lisa_lashes_demo.Expresso.Libraries.{Brewtils, Files}
use lisa_lashes_demo.Expresso.Response.{Response, get_available_file, head, send_file}
use lisa_lashes_demo.Expresso.Response.Wire.{IsOpen}
use lisa_lashes_demo.Expresso.Response.Delivery.{whole_file, sent-send_file}
use lisa_lashes_demo.Expresso.Router.{get_method}
use lisa_lashes_demo.Expresso.Server.{Free, parsed}
use lisa_lashes_demo.Expresso.Middlewares.{header_of}
use lisa_lashes_demo.Expresso.Middlewares.StaticServe.{get_range, range_of, static_serve_use}

-- std::filesystem::path::append of an absolute path, brewtils::url::decode of a text with one escape
-- at its start, and brewtils::string::split of the empty text.
pub record Paths (lib : Brewtils) : Type 0 where
  pub absolute : (directory path : Text) → lib.join_path directory (b'/' ∷ path) ≡ b'/' ∷ path
  pub escaped :
      (path : Text)
      → Free b'%' path
      → Free b'+' path
      → lib.decode (bytes "%2f" ++ path) ≡ b'/' ∷ path
  pub one_part : lib.split [] (bytes "bytes=") ≡ [] ∷ []

module _ {Cookie : Type 0} (lib : Brewtils) (serialize : Cookie → Text) (files : Files) where
  available :
      (path contents : Text)
      → files.file path ≡ some contents
      → get_available_file lib files path ≡ path
  unfolding get_available_file
  available path contents e = ground arith

  absent :
      (headers : List (Text × Text))
      → lookup (bytes "range") headers ≡ none
      → header_of headers "range" ≡ []
  absent headers e = ap (λ (o : Option Text). elim o [ none ↦ [] | some value ↦ value ]) e

  no_range :
      (headers : List (Text × Text))
      → Paths lib
      → lookup (bytes "range") headers ≡ none
      → get_range lib serialize (header_of headers "range") ≡ (negsuc 0, negsuc 0)
  unfolding get_range range_of
  no_range headers p e =
      ap (get_range lib serialize) (absent headers e) ∙ ap (range_of lib serialize) p.one_part

  -- Whatever the directory is, StaticServe answers GET for %2f and the rest of an absolute path with
  -- the headers and the contents of the file at that path, if there is one and no range is asked
  -- for, and stops the routing.
  pub static_serve_use_absolute :
      (dirname : Text) (show_listing : Bool) (url_path path contents : Text)
      (headers : List (Text × Text)) (res : Response Cookie)
      → Paths lib
      → Free b'%' path
      → Free b'+' path
      → IsOpen res
      → files.file (b'/' ∷ path) ≡ some contents
      → lookup (bytes "range") headers ≡ none
      → (served : Response Cookie) × (static_serve_use lib serialize files dirname show_listing
            get_method url_path
            (bytes "%2f" ++ path)
            headers
            res
          ≡ parsed (false, served))
        × (served.socket.sent
            ≡ res.socket.sent
              ++ (head lib serialize (whole_file lib serialize files (b'/' ∷ path) contents res)
                  ++ contents))
  unfolding static_serve_use
  static_serve_use_absolute dirname show_listing url_path path contents headers res p f g o e n = (
    send_file lib serialize files (b'/' ∷ path) (negsuc 0) (negsuc 0) res,
    rw
        (
          p.escaped path f g,
          p.absolute dirname path,
          available (b'/' ∷ path) contents e,
          no_range headers p n,
        )
        refl,
    sent-send_file lib serialize files (b'/' ∷ path) (b'/' ∷ path) contents res o
        (available (b'/' ∷ path) contents e) refl e,
  )
