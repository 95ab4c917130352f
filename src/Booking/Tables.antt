-- ===== src/Booking/Tables.antt =====
-- The table bookings of docker/init.sql, with the tables of the schedule and the ids of the table
-- salon_services, and the SQL of back/services/booking_service.cpp.
use mathlib.Core.Option
use lisa_lashes_demo.Base.{
  ℕ, ◌+◌, Bool, true, false, not, ◌&&◌, ◌||◌, Option, none, some, List, [], ◌∷◌, ◌++◌, ◌==◌, ltb,
  leb, if◌then◌else◌, select, Done,
}
use lisa_lashes_demo.Base.Int.{ℤ, pos, int_eq}
use lisa_lashes_demo.Base.Text.{Text, bytes, text_eq}
use lisa_lashes_demo.Db.Casts.{Casts}
use lisa_lashes_demo.Schedule.Tables.{Schedule, find_row, sort_rows}

-- The enumeration booking_status.
pub data Status : Type 0 where
  pending confirmed cancelled completed : Status

pub record BookingRow : Type 0 where
  pub id : ℕ
  pub resource_id : ℤ
  pub customer_name : Text
  pub customer_phone : Text
  pub customer_email : Text
  pub start_time : ℕ
  pub end_time : ℕ
  pub status : Status
  pub service_id : Option ℤ

pub record Diary : Type 0 where
  pub schedule : Schedule
  pub services : List ℤ
  pub bookings : List BookingRow
  pub next_booking : ℕ

abbrev pub status_text : Status → Text
status_text pending = bytes "pending"
status_text confirmed = bytes "confirmed"
status_text cancelled = bytes "cancelled"
status_text completed = bytes "completed"

unfoldable pub to_status : Text → Option Status
to_status t =
    if text_eq t (bytes "pending")
    then some pending
    else if text_eq t (bytes "confirmed")
    then some confirmed
    else if text_eq t (bytes "cancelled")
    then some cancelled
    else if text_eq t (bytes "completed")
    then some completed
    else none

abbrev pub is_confirmed : Status → Bool
is_confirmed confirmed = true
is_confirmed pending = false
is_confirmed cancelled = false
is_confirmed completed = false

abbrev pub answer : {A : Type 0} → A → Diary → Option (A × Diary)
answer a d = some (a, d)

-- A query of the schedule.
unfoldable pub on_schedule :
    {A : Type 0} → (Schedule → Option (A × Schedule)) → Diary → Option (A × Diary)
on_schedule f d = Option.map (λ r. (r.0, record d { schedule = r.1 })) (f d.schedule)

-- SELECT ($1 || ' ' || $2)::timestamp < ($1 || ' ' || $3)::timestamp
unfoldable pub select_before : Casts → Text → Text → Text → Diary → Option (Bool × Diary)
select_before casts date start end d = elim (casts.to_timestamp (date ++ bytes " " ++ start)) [
  | none ↦ none
  | some s ↦ elim (casts.to_timestamp (date ++ bytes " " ++ end)) [
    | none ↦ none
    | some e ↦ answer (ltb s e) d
  ]
]

-- tstzrange(a, b) && tstzrange(c, d): an empty range overlaps none.
abbrev pub ranges_overlap : ℕ → ℕ → ℕ → ℕ → Bool
ranges_overlap a b c d = ltb a b && (ltb c d && (ltb a d && ltb c b))

abbrev pub taken_by : ℤ → BookingRow → Bool
taken_by resource_id b = int_eq b.resource_id resource_id && is_confirmed b.status

-- tstzrange fails if its bounds are in the wrong order.
unfoldable pub all_ranges : List BookingRow → Bool
all_ranges [] = true
all_ranges (b ∷ bs) = let rest = all_ranges bs in leb b.start_time b.end_time && rest

unfoldable pub any_overlap : ℕ → ℕ → List BookingRow → Bool
any_overlap s e [] = false
any_overlap s e (b ∷ bs) =
    let rest = any_overlap s e bs in ranges_overlap b.start_time b.end_time s e || rest

-- ($2::date + $3::time) AT TIME ZONE 'Europe/Dublin'
unfoldable pub instant_of : Casts → Text → Text → Option ℕ
instant_of casts date time = elim (casts.to_date date) [
  | none ↦ none
  | some d ↦ Option.map (casts.instant d) (casts.to_time time)
]

unfoldable pub overlap_in : Option ℕ → Option ℕ → List BookingRow → Diary → Option (Bool × Diary)
unfolding any_overlap all_ranges
overlap_in (some s) (some e) rows d =
    if leb s e && all_ranges rows then answer (any_overlap s e rows) d else none
overlap_in none _ rows d = none
overlap_in (some s) none rows d = none

-- SELECT 1 FROM bookings WHERE resource_id = $1 AND status = 'confirmed' AND ...: whether there is
-- a row.
unfoldable pub select_overlap : Casts → ℤ → Text → Text → Text → Diary → Option (Bool × Diary)
unfolding instant_of overlap_in
select_overlap casts resource_id date start end d =
    overlap_in (instant_of casts date start) (instant_of casts date end)
      (select (taken_by resource_id) d.bookings) d

abbrev pub known_service : Option ℤ → List ℤ → Bool
known_service none services = true
known_service (some id) services = elim (find_row (λ x. int_eq x id) services) [
  | none ↦ false
  | some x ↦ true
]

abbrev pub known_resource : ℤ → List ℤ → Bool
known_resource id resources = elim (find_row (λ r. int_eq r id) resources) [
  | none ↦ false
  | some r ↦ true
]

-- The row of an INSERT, before its id.
abbrev pub new_row : ℤ → Text → Option ℤ → ℕ → ℕ → Status → BookingRow
new_row resource_id customer_name service_id s e status = record {
  id = 0;
  resource_id = resource_id;
  customer_name = customer_name;
  customer_phone = bytes " ";
  customer_email = bytes " ";
  start_time = s;
  end_time = e;
  status = status;
  service_id = service_id;
}

-- The rows that a new booking refers to must exist.
unfoldable pub insert_row : BookingRow → Diary → Option (Done × Diary)
unfolding find_row
insert_row row d =
    if known_resource row.resource_id d.schedule.resources
      && known_service row.service_id d.services
    then answer tt (record d {
      bookings = d.bookings ++ record row { id = d.next_booking } ∷ [];
      next_booking = d.next_booking + 1;
    })
    else none

unfoldable pub insert_at :
    ℤ → Text → Option ℤ → Option ℕ → Option ℕ → Option Status → Diary → Option (Done × Diary)
unfolding insert_row
insert_at resource_id customer_name service_id (some s) (some e) (some status) d =
    insert_row (new_row resource_id customer_name service_id s e status) d
insert_at resource_id customer_name service_id none _ _ d = none
insert_at resource_id customer_name service_id (some s) none _ d = none
insert_at resource_id customer_name service_id (some s) (some e) none d = none

-- INSERT INTO bookings
unfoldable pub insert_booking :
    Casts → ℤ → Text → Text → Text → Text → Text → Option ℤ → Diary → Option (Done × Diary)
unfolding instant_of to_status insert_at
insert_booking casts resource_id customer_name date start end status service_id =
    insert_at resource_id customer_name service_id (instant_of casts date start)
      (instant_of casts date end) (to_status status)

-- SELECT ... WHERE resource_id = $1 AND status = 'confirmed' AND (start_time AT TIME ZONE
-- 'Europe/Dublin')::date = $2::date
unfoldable pub select_booked : Casts → ℤ → Text → Diary → Option (List BookingRow × Diary)
select_booked casts resource_id date d = elim (casts.to_date date) [
  | none ↦ none
  | some day ↦
      answer
        (select (λ b. taken_by resource_id b && casts.local_date b.start_time == day) d.bookings) d
]

abbrev pub by_start : BookingRow → BookingRow → Bool
by_start a b = leb a.start_time b.start_time

-- The query of getBookingsForDay, ORDER BY start_time.
unfoldable pub select_day_bookings : Casts → ℤ → Text → Diary → Option (List BookingRow × Diary)
unfolding sort_rows
select_day_bookings casts resource_id date d = elim (casts.to_date date) [
  | none ↦ none
  | some day ↦
      answer
        (sort_rows by_start (
          select (λ b. taken_by resource_id b && casts.session_date b.start_time == day)
            d.bookings))
        d
]

-- SELECT ... FROM bookings ORDER BY start_time ASC
unfoldable pub select_bookings : Diary → Option (List BookingRow × Diary)
unfolding sort_rows
select_bookings d = answer (sort_rows by_start d.bookings) d

-- DELETE FROM bookings WHERE id = $1::integer
unfoldable pub delete_booking_row : ℤ → Diary → Option (Done × Diary)
delete_booking_row id d =
    answer tt (record d { bookings = select (λ b. not (int_eq (pos b.id) id)) d.bookings })
