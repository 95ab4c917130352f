-- ===== src/Base/Text.antt =====
-- std::string as the list of its bytes, and the conversions of <string> that the program calls.
use Prim.Native.Char.{code}
use lisa_lashes_demo.Base.Tests.{ltb, leb, ◌==◌, if◌then◌else◌}
use lisa_lashes_demo.Base.Int.{ℤ, pos, negsuc}
use Prim.Native.Nat.{ℕ, zero, suc, ◌+◌, ◌-◌, ◌*◌, ◌/◌, ◌%◌, ◌^◌}
use Prim.Native.String.{String}
use mathlib.Core.Path.{◌≡◌, refl}
use mathlib.Core.Bool.{Bool, true, false, ◌&&◌, ◌||◌}
use mathlib.Core.List.{List, [], ◌∷◌, ◌++◌}
use native.Mathlib.Omega.{arith}

abbrev pub Text : Type 0
Text = List ℕ

abbrev pub bytes : String → Text
bytes String.[] = []
bytes (String.◌∷◌ c s) = code c ∷ bytes s

abbrev pub is_empty : Text → Bool
is_empty [] = true
is_empty (c ∷ t) = false

-- operator==
unfoldable pub text_eq : Text → Text → Bool
text_eq [] [] = true
text_eq (a ∷ s) (b ∷ t) = a == b && text_eq s t
text_eq _ _ = false

pub text_eq_refl : (t : Text) → text_eq t t ≡ true
unfolding text_eq
text_eq_refl [] = refl
text_eq_refl (c ∷ t) = let h = text_eq_refl t in ground arith

pub text_eq_sound : (s t : Text) → text_eq s t ≡ true → s ≡ t
unfolding text_eq
text_eq_sound [] [] e = refl
text_eq_sound (a ∷ s) (b ∷ t) e = let h = text_eq_sound s t in ground arith
text_eq_sound [] (b ∷ t) e = ground arith
text_eq_sound (a ∷ s) [] e = ground arith

-- std::stoi: white space, a sign, and the digits up to the first other character.
pub data Parsed : Type 0 where
  number : ℤ → Parsed
  no_digits too_large : Parsed

abbrev is_space : ℕ → Bool
is_space c = c == 32 || (leb 9 c && leb c 13)

abbrev is_digit : ℕ → Bool
is_digit c = leb b'0' c && leb c b'9'

skip_spaces : Text → Text
skip_spaces [] = []
skip_spaces (c ∷ t) = let rest = skip_spaces t in if is_space c then rest else c ∷ t

digits : ℕ → Text → ℕ
digits n [] = n
digits n (c ∷ t) = let rest = digits (n * 10 + (c - b'0')) t in if is_digit c then rest else n

in_range : ℕ → Bool → ℕ → Parsed
in_range bits true n =
    if leb n (2 ^ bits)
    then (if n == 0 then number (pos 0) else number (negsuc (n - 1)))
    else too_large
in_range bits false n = if ltb n (2 ^ bits) then number (pos n) else too_large

unsigned : ℕ → Bool → Text → Parsed
unfolding digits in_range
unsigned bits minus [] = no_digits
unsigned bits minus (c ∷ t) =
    if is_digit c then in_range bits minus (digits 0 (c ∷ t)) else no_digits

signed : ℕ → Text → Parsed
unfolding unsigned
signed bits [] = no_digits
signed bits (c ∷ t) =
    if c == b'-'
    then unsigned bits true t
    else if c == b'+'
    then unsigned bits false t
    else unsigned bits false (c ∷ t)

unfoldable pub stoi : Text → Parsed
unfolding skip_spaces signed
stoi t = signed 31 (skip_spaces t)

-- std::stoll
unfoldable pub stoll : Text → Parsed
unfolding skip_spaces signed
stoll t = signed 63 (skip_spaces t)

-- A number of at most two digits, as two digits.
abbrev pub two_digits : ℕ → Text
two_digits n = (b'0' + n / 10) ∷ (b'0' + n % 10) ∷ []

pub stoi-two_digits : (n : ℕ) → ltb n 100 ≡ true → stoi (two_digits n) ≡ number (pos n)
unfolding stoi skip_spaces signed unsigned digits in_range
stoi-two_digits n h = ground arith

stoi-test : stoi (bytes " -42x") ≡ number (negsuc 41)
unfolding stoi skip_spaces signed unsigned digits in_range
stoi-test = refl

-- std::to_string; an `int` has at most ten digits.
unfoldable pub decimal_fuel : ℕ → ℕ → Text
decimal_fuel zero n = []
decimal_fuel (suc fuel) n =
    let rest = decimal_fuel fuel (n / 10) in
    if ltb n 10 then (b'0' + n) ∷ [] else rest ++ (b'0' + n % 10) ∷ []

unfoldable pub decimal : ℕ → Text
unfolding decimal_fuel
decimal n = decimal_fuel 10 n

unfoldable pub decimal_int : ℤ → Text
unfolding decimal
decimal_int (pos n) = decimal n
decimal_int (negsuc n) = b'-' ∷ decimal (n + 1)
