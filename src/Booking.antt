-- ===== src/Booking.antt =====
-- back/services/booking_service.cpp: the methods of BookingRepository. The day
-- of the week, which getWeekdayFromDate finds with <ctime>, is an argument.
pub mod Slots
pub mod Tables
pub mod Changes
pub mod Overlap
use mathlib.Core.Option
use lisa_lashes_demo.Base.{
  ℕ, Bool, true, false, not, ◌&&◌, Option, none, some, List, [], ◌∷◌, ◌==◌, leb, map, if◌then◌else◌,
  Done,
}
use lisa_lashes_demo.Base.Int.{ℤ, pos, ltb_ℤ}
use lisa_lashes_demo.Base.Text.{Text, bytes}
use lisa_lashes_demo.Db.Casts.{Casts}
use lisa_lashes_demo.Db.Exec.{
  Result, ok, throw, Exec, pure, raise, or_raise, from_result, statement, ◌>>=◌, ◌>>◌,
  invalid_argument, runtime_error, text,
}
use lisa_lashes_demo.Schedule.Clock.{time_text, to_char, to_mins}
use lisa_lashes_demo.Schedule.{time_or_empty}
use lisa_lashes_demo.Schedule.Tables.{HoursRow, OverrideRow, select_override, select_day}
use lisa_lashes_demo.Http.{JsonLibrary, text_or_empty}
use Changes.{update_booking_row}
use Slots.{TimeSlot, make_slots}
use Tables.{
  BookingRow, Diary, on_schedule, select_before, select_overlap, insert_booking, select_booked,
  select_day_bookings, select_bookings, delete_booking_row, status_text,
}

-- struct Booking
pub record Booking : Type 0 where
  pub id : ℕ
  pub resource_id : ℤ
  pub service_id : ℤ
  pub customer_name : Text
  pub customer_phone : Text
  pub customer_email : Text
  pub date : Text
  pub start : Text
  pub end : Text
  pub status : Text

digit : ℕ → Bool
digit c = leb b'0' c && leb c b'9'

-- ^\d{4}-\d{2}-\d{2}$
matches_date : Text → Bool
unfolding digit
matches_date (a ∷ b ∷ c ∷ d ∷ m1 ∷ e ∷ f ∷ m2 ∷ g ∷ h ∷ []) =
    digit a
    && (digit b
        && (digit c
            && (digit d
                && (m1 == b'-' && (digit e && (digit f && (m2 == b'-' && (digit g && digit h))))))))
matches_date _ = false

module _ (casts : Casts) where
  pub is_valid_date_time : Text → Text → Text → Exec Diary Bool
  unfolding matches_date
  is_valid_date_time date start end =
      if not (matches_date date) then pure false else statement (select_before casts date start end)

  pub is_free : ℤ → Text → Text → Text → Exec Diary Bool
  unfolding is_valid_date_time
  is_free resource_id date start end = do
    valid ← is_valid_date_time date start end
    if not valid then raise (invalid_argument (text "Invalid datetime format")) else do
      overlap ← statement (select_overlap casts resource_id date start end)
      pure (not overlap)

  abbrev pub service_or_null : ℤ → Option ℤ
  service_or_null service_id = if ltb_ℤ (pos 0) service_id then some service_id else none

  pub add_booking : ℤ → Text → Text → Text → Text → Text → ℤ → Exec Diary Done
  unfolding is_valid_date_time
  add_booking resource_id customer_name date start end status service_id = do
    valid ← is_valid_date_time date start end
    if not valid
        then raise (invalid_argument (text "Invalid datetime format"))
        else statement (
            insert_booking casts resource_id customer_name date start end status
              (service_or_null service_id))

  weekly_hours : Option HoursRow → Bool × Text × Text
  weekly_hours none = (false, bytes "09:00", bytes "18:00")
  weekly_hours (some row) = (true, to_char row.start_time, to_char row.end_time)

  effective : ℤ → ℤ → Option OverrideRow → Exec Diary (Bool × Text × Text)
  unfolding weekly_hours
  effective resource_id weekday (some o) =
      pure (o.working, time_or_empty casts o.start_time, time_or_empty casts o.end_time)
  effective resource_id weekday none = do
    row ← statement (on_schedule (select_day resource_id weekday))
    pure (weekly_hours row)

  pub get_effective_hours : ℤ → Text → ℤ → Exec Diary (Bool × Text × Text)
  unfolding effective
  get_effective_hours resource_id date weekday = do
    o ← statement (on_schedule (select_override casts resource_id date))
    effective resource_id weekday o

  abbrev pair_of : {A B : Type 0} → Result A → Result B → Result (A × B)
  pair_of (ok a) (ok b) = ok (a, b)
  pair_of (ok a) (throw e) = throw e
  pair_of (throw e) b = throw e

  abbrev list_of : {A : Type 0} → Result A → Result (List A) → Result (List A)
  list_of (ok a) (ok rest) = ok (a ∷ rest)
  list_of (ok a) (throw e) = throw e
  list_of (throw e) rest = throw e

  -- The loop over the rows of `bookedRes`.
  pub booked_minutes : List BookingRow → Result (List (ℤ × ℤ))
  booked_minutes [] = ok []
  booked_minutes (b ∷ bs) =
      let rest = booked_minutes bs in
      list_of
        (pair_of (to_mins (to_char (casts.local_time b.start_time)))
          (to_mins (to_char (casts.local_time b.end_time))))
        rest

  -- The slots, or none where a sum of `int`s overflows.
  day_slots : ℤ → Text → ℤ → Bool × Text × Text → Exec Diary (Option (List TimeSlot))
  unfolding booked_minutes
  day_slots resource_id date slot_minutes (working, w_start, w_end) =
      if not working then pure (some []) else do
        start_mins ← from_result (to_mins w_start)
        end_mins ← from_result (to_mins w_end)
        rows ← statement (select_booked casts resource_id date)
        booked ← from_result (booked_minutes rows)
        pure (make_slots booked slot_minutes start_mins end_mins)

  pub get_available_time_slots : ℤ → ℤ → Text → ℤ → Exec Diary (Option (List TimeSlot))
  unfolding get_effective_hours day_slots
  get_available_time_slots weekday resource_id date slot_minutes = do
    hours ← get_effective_hours resource_id date weekday
    day_slots resource_id date slot_minutes hours

  abbrev pub booking_of : BookingRow → Booking
  booking_of b = record {
    id = b.id;
    resource_id = b.resource_id;
    service_id = Option.get_or b.service_id (pos 0);
    customer_name = b.customer_name;
    customer_phone = b.customer_phone;
    customer_email = b.customer_email;
    date = casts.date_text (casts.local_date b.start_time);
    start = to_char (casts.local_time b.start_time);
    end = to_char (casts.local_time b.end_time);
    status = status_text b.status;
  }

  pub get_bookings_for_day : ℤ → Text → Exec Diary (List (Text × Text))
  get_bookings_for_day resource_id date = do
    rows ← statement (select_day_bookings casts resource_id date)
    pure (map (λ b. (casts.instant_text b.start_time, casts.instant_text b.end_time)) rows)

  pub get_all_bookings : Exec Diary (List Booking)
  get_all_bookings = do rows ← statement select_bookings; pure (map booking_of rows)

-- Each text is read from the JSON object, whose conversions may throw.
pub update_booking :
    {Json : Type 0} → Casts → JsonLibrary Json → ℤ → List (Text × Json) → Exec Diary Done
update_booking casts json id obj = do
  status ← from_result (text_or_empty json obj "status")
  customer_name ← from_result (text_or_empty json obj "customer_name")
  customer_phone ← from_result (text_or_empty json obj "customer_phone")
  customer_email ← from_result (text_or_empty json obj "customer_email")
  date ← from_result (text_or_empty json obj "date")
  start ← from_result (text_or_empty json obj "start")
  end ← from_result (text_or_empty json obj "end")
  statement (
      update_booking_row casts id (record {
        status = status;
        customer_name = customer_name;
        customer_phone = customer_phone;
        customer_email = customer_email;
        date = date;
        start = start;
        end = end;
      }))

-- The columns as the server prints a TIME.
pub get_working_hours : ℤ → ℤ → Exec Diary (Text × Text)
get_working_hours resource_id weekday = do
  found ← statement (on_schedule (select_day resource_id weekday))
  row ← or_raise found (runtime_error (text "No working hours for that day"))
  pure (time_text row.start_time, time_text row.end_time)

pub delete_booking : ℤ → Exec Diary Done
delete_booking id = statement (delete_booking_row id)

-- What PostBookingRoutes (back/routes/booking_routes.cpp) asks of this service: the answer tells
-- whether the booking was created.
pub check_and_add : Casts → ℤ → Text → Text → Text → Text → Text → ℤ → Exec Diary Bool
check_and_add casts resource_id customer_name date start end status service_id = do
  free ← is_free casts resource_id date start end
  if not free then pure false else do
    add_booking casts resource_id customer_name date start end status service_id
    pure true
