-- ===== src/Schedule/Clock.antt =====
-- The texts HH:MM: the lambdas toMins and toHHMM of back/services/booking_service.cpp, and
-- to_char(time, 'HH24:MI') of a column TIME, which counts seconds here.
use lisa_lashes_demo.Base.{
  ℕ, ◌+◌, ◌-◌, ◌*◌, ◌/◌, ◌%◌, ◌≡◌, ◌≤◌, ◌<◌, refl, ap, true, ◌∷◌, ◌++◌, length, take, drop, ltb,
  ◌==◌, if◌then◌else◌, arith,
}
use lisa_lashes_demo.Base.Int.{ℤ, pos, negsuc, ◌+ℤ◌, ◌*ℤ◌}
use lisa_lashes_demo.Base.Text.{
  Text, two_digits, stoi-two_digits, decimal, decimal_fuel, decimal_int,
}
use lisa_lashes_demo.Http.{int_of}
use lisa_lashes_demo.Db.Exec.{Result, ok, throw}

abbrev minutes : Result ℤ → Result ℤ → Result ℤ
minutes (ok h) (ok m) = ok (h *ℤ pos 60 +ℤ m)
minutes (ok h) (throw e) = throw e
minutes (throw e) m = throw e

unfoldable pub to_mins : Text → Result ℤ
unfolding int_of
to_mins t =
    if ltb (length t) 5
    then ok (pos 0)
    else minutes (int_of (take 2 t)) (int_of (take 2 (drop 3 t)))

-- (n < 10 ? "0" : "") + std::to_string(n)
padded : ℤ → Text
padded (pos n) = if ltb n 10 then b'0' ∷ decimal n else decimal n
padded (negsuc n) = b'0' ∷ decimal_int (negsuc n)

-- C++ divides towards zero.
quotient : ℤ → ℤ
quotient (pos m) = pos (m / 60)
quotient (negsuc m) = if ltb m 59 then pos 0 else negsuc ((m + 1) / 60 - 1)

remainder : ℤ → ℤ
remainder (pos m) = pos (m % 60)
remainder (negsuc m) = if (m + 1) % 60 == 0 then pos 0 else negsuc ((m + 1) % 60 - 1)

unfoldable pub to_hhmm : ℤ → Text
unfolding padded quotient remainder
to_hhmm m = padded (quotient m) ++ b':' ∷ padded (remainder m)

unfoldable pub to_char : ℕ → Text
to_char t = two_digits (t / 3600) ++ b':' ∷ two_digits (t / 60 % 60)

-- A column TIME as the server prints it, HH:MM:SS.
abbrev pub time_text : ℕ → Text
time_text t = two_digits (t / 3600) ++ b':' ∷ two_digits (t / 60 % 60) ++ b':' ∷ two_digits (t % 60)

padded-two_digits : (n : ℕ) → ltb n 100 ≡ true → padded (pos n) ≡ two_digits n
unfolding padded decimal decimal_fuel
padded-two_digits n h = ground arith

int_of-two_digits : (n : ℕ) → ltb n 100 ≡ true → int_of (two_digits n) ≡ ok (pos n)
unfolding int_of
int_of-two_digits n h = rw (int_of, stoi-two_digits n h) refl

total_minutes : (h m : ℕ) → pos h *ℤ pos 60 +ℤ pos m ≡ pos (h * 60 + m)
unfolding ◌+ℤ◌ ◌*ℤ◌
total_minutes h m = ground arith

-- The text of two numbers below 100 is read back as minutes.
to_mins-two_digits :
    (h m : ℕ)
    → ltb h 100 ≡ true
    → ltb m 100 ≡ true
    → to_mins (two_digits h ++ b':' ∷ two_digits m) ≡ ok (pos (h * 60 + m))
unfolding to_mins
to_mins-two_digits h m e e' =
    rw (int_of-two_digits h e, int_of-two_digits m e') (ap ok (total_minutes h m))

-- `toMins` reads what `toHHMM` has printed, for each number of minutes below one hundred hours.
to_mins-to_hhmm : (m : ℕ) → m < 6000 → to_mins (to_hhmm (pos m)) ≡ ok (pos m)
unfolding to_hhmm quotient remainder
to_mins-to_hhmm m h =
    rw
      (
        padded-two_digits (m / 60) (ground arith),
        padded-two_digits (m % 60) (ground arith),
        to_mins-two_digits (m / 60) (m % 60) (ground arith) (ground arith),
      )
      (ground arith)

-- `toMins` reads the hours and minutes of a column TIME and drops its seconds, and the slots that
-- `toHHMM` prints of these minutes are read as the same number.
pub to_mins-to_char :
    (t : ℕ)
    → t ≤ 86400
    → (to_mins (to_char t) ≡ ok (pos (t / 60)))
      × (to_mins (to_hhmm (pos (t / 60))) ≡ ok (pos (t / 60)))
unfolding to_char
to_mins-to_char t h = (
  rw (to_mins-two_digits (t / 3600) (t / 60 % 60) (ground arith) (ground arith)) (ground arith),
  to_mins-to_hhmm (t / 60) (ground arith),
)
