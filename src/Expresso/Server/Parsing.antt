-- ===== src/Expresso/Server/Parsing.antt =====
-- How Server::makeRequest of src/core/server.cpp reads texts, and getMethodFromString.
use lisa_lashes_demo.Base.{
  ℕ, zero, suc, Bool, true, false, ◌&&◌, Option, none, some, List, [], ◌∷◌, ◌++◌, ◌≡◌, refl,
  if◌then◌else◌, ◌==◌, length, drop,
}
use lisa_lashes_demo.Base.Text.{Text, bytes, is_empty, text_eq}
use lisa_lashes_demo.Db.Exec.{Exception, runtime_error, text, Result, ok, throw}
use lisa_lashes_demo.Expresso.Router.{
  Method, get_method, post_method, put_method, patch_method, delete_method, options_method,
  head_method,
}

-- How the parsing ends: with a value, with an exception, by a read out of bounds, or never.
pub data Parse (A : Type 0) : Type 0 where
  parsed : A → Parse A
  failed : Exception → Parse A
  undefined : Parse A
  endless : Parse A

module _ {A B : Type 0} where
  infixl 5 ◌>>=◌
  abbrev pub ◌>>=◌ : Parse A → (A → Parse B) → Parse B
  parsed a >>= f = f a
  failed e >>= f = failed e
  undefined >>= f = undefined
  endless >>= f = endless

module _ {A : Type 0} where
  abbrev pub try_parse : Result A → Parse A
  try_parse (ok a) = parsed a
  try_parse (throw e) = failed e

-- `parts[i]`
abbrev pub part : List Text → ℕ → Parse Text
part [] i = undefined
part (x ∷ xs) zero = parsed x
part (x ∷ xs) (suc i) = part xs i

-- `find(c)`: the text before the first such character, and that behind it.
unfoldable pub cut : ℕ → Text → Option (Text × Text)
cut c [] = none
cut c (d ∷ t) = elim (cut c t) [
  | none ↦ if d == c then some ([], t) else none
  | some found ↦ if d == c then some ([], t) else some (d ∷ found.0, found.1)
]

unfoldable pub starts_with : Text → Text → Bool
starts_with [] t = true
starts_with (c ∷ s) [] = false
starts_with (c ∷ s) (d ∷ t) = c == d && starts_with s t

-- `substr(find(s) + s.size())`; without an `s`, `find` gives npos, and npos + 4 is 3.
unfoldable pub behind : Text → Text → Option Text
unfolding starts_with
behind s [] = if is_empty s then some [] else none
behind s (c ∷ t) =
    let later = behind s t in
    if starts_with s (c ∷ t) then some (drop (length s) (c ∷ t)) else later

abbrev unsupported : Exception
unsupported =
    runtime_error
      (text "expresso::core::Server::getMethodFromString(std::string &method) noexcept(false)")

unfoldable pub get_method_from_string : Text → Result Method
get_method_from_string m =
    if text_eq m (bytes "GET")
    then ok get_method
    else if text_eq m (bytes "POST")
    then ok post_method
    else if text_eq m (bytes "PUT")
    then ok put_method
    else if text_eq m (bytes "PATCH")
    then ok patch_method
    else if text_eq m (bytes "DELETE")
    then ok delete_method
    else if text_eq m (bytes "OPTIONS")
    then ok options_method
    else if text_eq m (bytes "HEAD")
    then ok head_method
    else throw unsupported

-- The lines that std::getline gives.
add_character : ℕ → List Text → List Text
add_character c [] = (if c == 10 then [] else c ∷ []) ∷ []
add_character c (line ∷ rest) = if c == 10 then [] ∷ line ∷ rest else (c ∷ line) ∷ rest

unfoldable pub lines : Text → List Text
unfolding add_character
lines [] = []
lines (c ∷ t) = add_character c (lines t)

-- A text without the character.
abbrev pub Free : ℕ → Text → Type 0
Free c [] = Unit
Free c (d ∷ t) = ((d == c) ≡ false) × Free c t

pub lines-line : (line rest : Text) → Free 10 line → lines (line ++ 10 ∷ rest) ≡ line ∷ lines rest
unfolding lines
lines-line [] rest h = newline (lines rest)
  where
    newline : (ls : List Text) → add_character 10 ls ≡ [] ∷ ls
    newline [] = refl
    newline (l ∷ ls) = refl
lines-line (c ∷ line) rest h = rw (lines-line line rest h.1, add_character, h.0) refl
