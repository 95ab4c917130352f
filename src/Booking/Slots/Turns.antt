-- ===== src/Booking/Slots/Turns.antt =====
-- The slots that the turns of the loop make.
use mathlib.Core.Option
use lisa_lashes_demo.Base.{
  ℕ, zero, suc, ◌+◌, ◌*◌, ◌/◌, ◌≡◌, ◌⊎◌, inl, inr, refl, sym, subst, ap, ◌∙◌, get_elem?, Bool, true,
  false, Option, none, some, List, [], ◌∷◌, if◌then◌else◌, arith, Bool-cases,
}
use lisa_lashes_demo.Base.Int.{
  ℤ, pos, negsuc, ◌+ℤ◌, ◌-ℤ◌, ◌≤ℤ◌, leb_ℤ, fits_int, pos_part, int_laws,
}
use lisa_lashes_demo.Schedule.Clock.{to_hhmm}
use lisa_lashes_demo.Booking.Slots.Marks.{IsMarked, free_of-IsMarked}
use lisa_lashes_demo.Booking.Slots.{TimeSlot, slot_at, slots_fuel, make_slots}

shift_add : (s : ℤ) (k : ℕ) → s +ℤ pos 30 +ℤ pos (30 * k) ≡ s +ℤ pos (30 * suc k)
unfolding ◌+ℤ◌
shift_add s k = ground arith

add_zero : (s : ℤ) → s +ℤ pos 0 ≡ s
unfolding ◌+ℤ◌
add_zero s = ground arith

later_lem :
    (s len end_mins : ℤ) (n : ℕ)
    → leb_ℤ (s +ℤ len) end_mins ≡ false
    → leb_ℤ (s +ℤ pos n +ℤ len) end_mins ≡ false
later_lem s len end_mins n h = grind int_laws

abbrev turns : ℤ → ℤ → ℤ → ℕ
turns len end_mins s = pos_part (end_mins -ℤ len -ℤ s) / 30 + 1

bound_lem :
    (s len end_mins : ℤ) → leb_ℤ (s +ℤ pos (30 * turns len end_mins s) +ℤ len) end_mins ≡ false
unfolding ◌+ℤ◌ ◌-ℤ◌
bound_lem s len end_mins = ground arith

clash : {b : Bool} → b ≡ true → b ≡ false → ⊥
clash h k = cc

fits_sum :
    (s len : ℤ)
    → leb_ℤ (negsuc 9999) s ≡ true
    → leb_ℤ (negsuc 2147399999) len ≡ true
    → leb_ℤ (s +ℤ len) (pos 2147483647) ≡ true
    → fits_int (s +ℤ len) ≡ true
unfolding ◌+ℤ◌
fits_sum s len h k l = ground arith

fits_start :
    (s len : ℤ) → s ≤ℤ pos 10000 → len ≤ℤ pos 2147400000 → leb_ℤ (s +ℤ len) (pos 2147483647) ≡ true
unfolding ◌+ℤ◌
fits_start s len h k = ground arith

fits_next :
    (s len end_mins : ℤ)
    → leb_ℤ (negsuc 9999) s ≡ true
    → leb_ℤ (negsuc 2147399999) len ≡ true
    → leb_ℤ end_mins (pos 10000) ≡ true
    → leb_ℤ (s +ℤ len) end_mins ≡ true
    → fits_int (s +ℤ pos 30) ≡ true
unfolding ◌+ℤ◌
fits_next s len end_mins h k l m = ground arith

low_next : (s : ℤ) → leb_ℤ (negsuc 9999) s ≡ true → leb_ℤ (negsuc 9999) (s +ℤ pos 30) ≡ true
unfolding ◌+ℤ◌
low_next s h = ground arith

high_next :
    (s len end_mins : ℤ)
    → leb_ℤ end_mins (pos 10000) ≡ true
    → leb_ℤ (s +ℤ len) end_mins ≡ true
    → leb_ℤ (s +ℤ pos 30 +ℤ len) (pos 2147483647) ≡ true
unfolding ◌+ℤ◌
high_next s len end_mins h k = ground arith

module _ (booked : List (ℤ × ℤ)) (len end_mins : ℤ) where
  -- The slot of turn `k`, if there is one.
  expected : ℤ → ℕ → Option TimeSlot
  expected s k =
      if leb_ℤ (s +ℤ pos (30 * k) +ℤ len) end_mins
      then some (slot_at booked len (s +ℤ pos (30 * k)))
      else none

  expected-none : (s : ℤ) (k : ℕ) → leb_ℤ (s +ℤ len) end_mins ≡ false → expected s k ≡ none
  unfolding expected
  expected-none s k h = rw (later_lem s len end_mins (30 * k) h) refl

  expected-zero :
      (s : ℤ) → leb_ℤ (s +ℤ len) end_mins ≡ true → expected s 0 ≡ some (slot_at booked len s)
  unfolding expected
  expected-zero s h = rw (add_zero s, h) refl

  expected-suc : (s : ℤ) (k : ℕ) → expected (s +ℤ pos 30) k ≡ expected s (suc k)
  unfolding expected
  expected-suc s k =
      ap (λ (x : ℤ). if leb_ℤ (x +ℤ len) end_mins then some (slot_at booked len x) else none)
        (shift_add s k)

  -- The slots of the loop from `s` on.
  Made : ℤ → Option (List TimeSlot) → Type 0
  Made s made =
      (slots : List TimeSlot) × (made ≡ some slots) × ((k : ℕ) → get_elem? slots k ≡ expected s k)

  by_stop :
      (s : ℤ) (made : Option (List TimeSlot))
      → leb_ℤ (s +ℤ len) end_mins ≡ false
      → made ≡ some []
      → Made s made
  unfolding Made
  by_stop s made h e = ([], e, λ k. sym (expected-none s k h))

  by_turn :
      (s : ℤ) (made rest : Option (List TimeSlot))
      → leb_ℤ (s +ℤ len) end_mins ≡ true
      → made ≡ Option.map (◌∷◌ (slot_at booked len s)) rest
      → Made (s +ℤ pos 30) rest
      → Made s made
  unfolding Made
  by_turn s made rest h e (slots, r, at_k) =
      (slot_at booked len s ∷ slots, e ∙ ap (Option.map (◌∷◌ (slot_at booked len s))) r, by_place)
    where
      by_place : (k : ℕ) → get_elem? (slot_at booked len s ∷ slots) k ≡ expected s k
      by_place zero = sym (expected-zero s h)
      by_place (suc k) = at_k k ∙ expected-suc s k

  goes_on :
      (fuel : ℕ) (s : ℤ)
      → fits_int (s +ℤ len) ≡ true
      → leb_ℤ (s +ℤ len) end_mins ≡ true
      → fits_int (s +ℤ pos 30) ≡ true
      → slots_fuel (suc fuel) booked len end_mins s
        ≡ Option.map
            (◌∷◌ (slot_at booked len s))
            (slots_fuel fuel booked len end_mins (s +ℤ pos 30))
  unfolding slots_fuel
  goes_on fuel s fits goes next = rw (slots_fuel, fits, goes, next) refl

  module _ (k : leb_ℤ (negsuc 2147399999) len ≡ true) (l : leb_ℤ end_mins (pos 10000) ≡ true) where
    slots_fuel_lem :
        (fuel : ℕ) (s : ℤ)
        → leb_ℤ (negsuc 9999) s ≡ true
        → leb_ℤ (s +ℤ len) (pos 2147483647) ≡ true
        → leb_ℤ (s +ℤ pos (30 * fuel) +ℤ len) end_mins ≡ false
        → (leb_ℤ (s +ℤ len) end_mins ≡ true) ⊎ (leb_ℤ (s +ℤ len) end_mins ≡ false)
        → Made s (slots_fuel (suc fuel) booked len end_mins s)
    unfolding slots_fuel
    slots_fuel_lem fuel s low high enough (inr stops) =
        let fits = fits_sum s len low k high in
        by_stop s _ stops (rw (slots_fuel, fits, stops) refl)
    slots_fuel_lem zero s low high enough (inl goes) =
        absurd (clash goes (subst (λ x. leb_ℤ (x +ℤ len) end_mins ≡ false) (add_zero s) enough))
    slots_fuel_lem (suc fuel) s low high enough (inl goes) =
        let fits = fits_sum s len low k high in
        let next = fits_next s len end_mins low k l goes in
        by_turn s _ (slots_fuel (suc fuel) booked len end_mins (s +ℤ pos 30)) goes
          (goes_on (suc fuel) s fits goes next)
          (slots_fuel_lem fuel (s +ℤ pos 30) (low_next s low) (high_next s len end_mins l goes)
            (rw (shift_add s fuel) enough) (Bool-cases (leb_ℤ (s +ℤ pos 30 +ℤ len) end_mins)))

  -- What is in place of the slot that starts at `s`: a slot that ends by the end of the day, or
  -- nothing because it would end later.
  abbrev pub IsSlot : ℤ → Option TimeSlot → Type 0
  IsSlot s none = leb_ℤ (s +ℤ len) end_mins ≡ false
  IsSlot s (some slot) =
      (leb_ℤ (s +ℤ len) end_mins ≡ true)
      × (slot.start ≡ to_hhmm s)
      × (slot.end ≡ to_hhmm (s +ℤ len))
      × IsMarked booked s (s +ℤ len) slot.is_free

expected-IsSlot :
    (booked : List (ℤ × ℤ)) (len end_mins s : ℤ) (k : ℕ)
    → IsSlot booked len end_mins (s +ℤ pos (30 * k)) (expected booked len end_mins s k)
unfolding expected
expected-IsSlot booked len end_mins s k =
    let from = s +ℤ pos (30 * k) in by_end (leb_ℤ (from +ℤ len) end_mins) refl
  where
    by_end :
        (b : Bool)
        → leb_ℤ (s +ℤ pos (30 * k) +ℤ len) end_mins ≡ b
        → IsSlot booked len end_mins
            (s +ℤ pos (30 * k))
            (if b then some (slot_at booked len (s +ℤ pos (30 * k))) else none)
    by_end true h = (h, refl, refl, free_of-IsMarked booked _ _)
    by_end false h = h

-- For a start of the day from -10000 to 10000 minutes, an end of at most 10000 and a length of
-- slots from -2147400000 to 2147400000, no sum of the loop overflows and it ends. Its slots start
-- every 30 minutes from the start of the day, each that ends by the end of the day is there and no
-- other, and a slot is marked free if it is apart from all booked intervals and taken if it
-- overlaps one.
pub make_slots-IsSlot :
    (booked : List (ℤ × ℤ)) (slot_minutes start_mins end_mins : ℤ)
    → negsuc 9999 ≤ℤ start_mins
    → start_mins ≤ℤ pos 10000
    → end_mins ≤ℤ pos 10000
    → negsuc 2147399999 ≤ℤ slot_minutes
    → slot_minutes ≤ℤ pos 2147400000
    → (slots : List TimeSlot) × (make_slots booked slot_minutes start_mins end_mins ≡ some slots)
      × ((k : ℕ)
          → IsSlot booked slot_minutes end_mins (start_mins +ℤ pos (30 * k)) (get_elem? slots k))
unfolding make_slots Made
make_slots-IsSlot booked slot_minutes start_mins end_mins a b c d e =
    let made =
      slots_fuel_lem booked slot_minutes end_mins (ground arith) (ground arith)
        (turns slot_minutes end_mins start_mins) start_mins (ground arith)
        (fits_start start_mins slot_minutes b e) (bound_lem start_mins slot_minutes end_mins)
        (Bool-cases (leb_ℤ (start_mins +ℤ slot_minutes) end_mins)) in
    (
      made.0,
      made.1,
      λ k.
          subst (IsSlot booked slot_minutes end_mins (start_mins +ℤ pos (30 * k))) (sym (made.2 k))
            (expected-IsSlot booked slot_minutes end_mins start_mins k),
    )
