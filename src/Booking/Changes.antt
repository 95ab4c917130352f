-- ===== src/Booking/Changes.antt =====
-- The UPDATE of BookingRepository::updateBooking (back/services/booking_service.cpp). The server
-- makes a conversion only for a row that it updates.
use mathlib.Core.Option
use lisa_lashes_demo.Base.{ℕ, ◌||◌, Option, none, some, List, [], ◌∷◌, if◌then◌else◌, Done}
use lisa_lashes_demo.Base.Int.{ℤ, pos, int_eq}
use lisa_lashes_demo.Base.Text.{Text, is_empty}
use lisa_lashes_demo.Db.Casts.{Casts}
use lisa_lashes_demo.Booking.Tables.{Status, BookingRow, Diary, to_status, instant_of}

-- CASE WHEN $2 != '' THEN $2::booking_status ELSE status END
abbrev changed_status : Text → Status → Option Status
changed_status text old = if is_empty text then some old else to_status text

-- CASE WHEN $6 != '' AND $7 != '' THEN (($6::date + $7::time) AT TIME ZONE 'Europe/Dublin') ELSE
-- start_time END, and the same of end_time
abbrev changed_time : Casts → Text → Text → ℕ → Option ℕ
changed_time casts date time old =
    if is_empty date || is_empty time then some old else instant_of casts date time

-- COALESCE(NULLIF(new, ''), old)
abbrev changed_text : Text → Text → Text
changed_text new old = if is_empty new then old else new

-- The texts of updateBooking, each "" where the request has none.
pub record Changes : Type 0 where
  pub status : Text
  pub customer_name : Text
  pub customer_phone : Text
  pub customer_email : Text
  pub date : Text
  pub start : Text
  pub end : Text

changed_with : Changes → BookingRow → Option Status → Option ℕ → Option ℕ → Option BookingRow
changed_with c b (some status) (some s) (some e) = some (record b {
  customer_name = changed_text c.customer_name b.customer_name;
  customer_phone = changed_text c.customer_phone b.customer_phone;
  customer_email = changed_text c.customer_email b.customer_email;
  start_time = s;
  end_time = e;
  status = status;
})
changed_with c b none _ _ = none
changed_with c b (some status) none _ = none
changed_with c b (some status) (some s) none = none

unfoldable pub changed_booking : Casts → Changes → BookingRow → Option BookingRow
unfolding to_status instant_of changed_with
changed_booking casts c b =
    changed_with c b (changed_status c.status b.status)
      (changed_time casts c.date c.start b.start_time) (changed_time casts c.date c.end b.end_time)

-- Each row with the id is changed; one that cannot be makes the statement fail.
unfoldable pub change_rows : Casts → ℤ → Changes → List BookingRow → Option (List BookingRow)
unfolding changed_booking
change_rows casts id c [] = some []
change_rows casts id c (b ∷ bs) =
    let rest = change_rows casts id c bs in
    elim (if int_eq (pos b.id) id then changed_booking casts c b else some b) [
      | none ↦ none
      | some b' ↦ Option.map (λ later. b' ∷ later) rest
    ]

-- UPDATE bookings SET ... WHERE id = $1
unfoldable pub update_booking_row : Casts → ℤ → Changes → Diary → Option (Done × Diary)
unfolding change_rows
update_booking_row casts id c d =
    Option.map (λ rows. (tt, record d { bookings = rows })) (change_rows casts id c d.bookings)
