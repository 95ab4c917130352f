-- ===== src/Expresso/Libraries.antt =====
-- What src/ calls and lib/ implements: brewtils, zippuccino and the file system, which are
-- parameters of the model. And std::map, with the keys in the order of std::string.
use lisa_lashes_demo.Base.{
  ◌≡◌, Bool, true, false, ◌&&◌, ◌||◌, Option, none, some, List, [], ◌∷◌, if◌then◌else◌, ltb, ◌==◌,
  arith,
}
use lisa_lashes_demo.Base.Text.{Text, text_eq, text_eq_refl, text_eq_sound}
use lisa_lashes_demo.Http.{lookup}

pub record Brewtils : Type 0 where
  -- brewtils::string
  pub lower : Text → Text
  pub upper : Text → Text
  pub trim : Text → Text
  pub replace : Text → Text → Text → Text
  pub split : Text → Text → List Text
  pub join : List Text → Text → Text
  -- brewtils::url::decode
  pub decode : Text → Text
  -- brewtils::os::joinPath and brewtils::os::file::getMimeType
  pub join_path : Text → Text → Text
  pub mime_type : Text → Text

-- The files as the server finds them: `file` gives the bytes of the file at a path that exists,
-- `directory` what brewtils::os::dir::list gives for a directory that exists, and
-- `crc` is zippuccino::crc::compute, printed by std::hex with eight digits.
pub record Files : Type 0 where
  pub file : Text → Option Text
  pub directory : Text → Option (List Text)
  pub crc : Text → Text

-- operator< of std::string
unfoldable pub text_lt : Text → Text → Bool
text_lt [] [] = false
text_lt [] (b ∷ t) = true
text_lt (a ∷ s) [] = false
text_lt (a ∷ s) (b ∷ t) = ltb a b || (a == b && text_lt s t)

module _ {V : Type 0} where
  -- `map[key] = value`
  unfoldable pub put : Text → V → List (Text × V) → List (Text × V)
  put key value [] = (key, value) ∷ []
  put key value ((k, v) ∷ rest) =
      let later = put key value rest in
      if text_eq k key
      then (k, value) ∷ rest
      else if text_lt key k
      then (key, value) ∷ (k, v) ∷ rest
      else (k, v) ∷ later

  -- `map[key]` of a key that is missing adds it with the default value.
  unfoldable pub with_key : Text → V → List (Text × V) → List (Text × V)
  unfolding put lookup
  with_key key default m = elim (lookup key m) [ none ↦ put key default m | some value ↦ m ]

  pub lookup-put :
      (key : Text) (value : V) (m : List (Text × V)) → lookup key (put key value m) ≡ some value
  unfolding put lookup
  lookup-put key value [] = grind (arith, text_eq_refl)
  lookup-put key value ((k, v) ∷ rest) =
      let h = lookup-put key value rest in grind (arith, text_eq_refl)

  pub lookup-put_of_ne :
      (key other : Text) (value : V) (m : List (Text × V))
      → text_eq key other ≡ false
      → lookup other (put key value m) ≡ lookup other m
  unfolding put lookup
  lookup-put_of_ne key other value [] h = grind arith
  lookup-put_of_ne key other value ((k, v) ∷ rest) h =
      let ih = lookup-put_of_ne key other value rest h in
      let same = text_eq_sound k key in grind arith
