-- ===== src/Booking/Slots.antt =====
-- The loop of BookingRepository::getAvailableTimeSlots (back/services/booking_service.cpp) that
-- makes the slots of a day. A sum of `int`s that overflows makes the result undefined.
pub mod Marks
pub mod Turns
use lisa_lashes_demo.Base.{
  ℕ, zero, suc, ◌+◌, ◌*◌, ◌/◌, ◌≡◌, refl, sym, subst, get_elem?, Bool, true, false, not, ◌||◌, ◌&&◌,
  Option, none, some, List, [], ◌∷◌, if◌then◌else◌, arith,
}
use mathlib.Core.Option
use lisa_lashes_demo.Base.Int.{negsuc, ℤ, pos, ◌+ℤ◌, ◌-ℤ◌, leb_ℤ, fits_int, pos_part, int_laws}
use lisa_lashes_demo.Base.Text.{Text}
use lisa_lashes_demo.Schedule.Clock.{to_hhmm}

-- struct TimeSlot
pub record TimeSlot : Type 0 where
  pub start : Text
  pub end : Text
  pub is_free : Bool

-- The inner loop: no booked interval overlaps [s, e).
unfoldable pub free_of : List (ℤ × ℤ) → ℤ → ℤ → Bool
free_of [] s e = true
free_of (b ∷ bs) s e =
    let rest = free_of bs s e in if not (leb_ℤ e b.0 || leb_ℤ b.1 s) then false else rest

abbrev pub slot_at : List (ℤ × ℤ) → ℤ → ℤ → TimeSlot
slot_at booked slot_minutes s = record {
  start = to_hhmm s;
  end = to_hhmm (s +ℤ slot_minutes);
  is_free = free_of booked s (s +ℤ slot_minutes);
}

-- for (int s = startMins; s + slot_minutes <= endMins; s += step), or none where a sum overflows.
unfoldable pub slots_fuel : ℕ → List (ℤ × ℤ) → ℤ → ℤ → ℤ → Option (List TimeSlot)
unfolding free_of
slots_fuel zero booked slot_minutes end_mins s = none
slots_fuel (suc fuel) booked slot_minutes end_mins s =
    let rest = slots_fuel fuel booked slot_minutes end_mins (s +ℤ pos 30) in
    if not (fits_int (s +ℤ slot_minutes))
    then none
    else if leb_ℤ (s +ℤ slot_minutes) end_mins
    then if fits_int (s +ℤ pos 30)
      then Option.map (◌∷◌ (slot_at booked slot_minutes s)) rest
      else none
    else some []

-- One more than the number of turns.
abbrev pub slots_bound : ℤ → ℤ → ℤ → ℕ
slots_bound slot_minutes end_mins s = suc (pos_part (end_mins -ℤ slot_minutes -ℤ s) / 30 + 1)

unfoldable pub make_slots : List (ℤ × ℤ) → ℤ → ℤ → ℤ → Option (List TimeSlot)
unfolding slots_fuel
make_slots booked slot_minutes start_mins end_mins =
    slots_fuel (slots_bound slot_minutes end_mins start_mins) booked slot_minutes end_mins
      start_mins
