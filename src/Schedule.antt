-- ===== src/Schedule.antt =====
-- back/services/schedule_service.cpp: the methods of ScheduleRepository.
pub mod Clock
pub mod Tables
pub mod Precedence
pub mod Weekly
use mathlib.Core.Option
use lisa_lashes_demo.Base.{
  ℕ, Bool, true, false, ◌&&◌, Option, none, some, List, [], ◌∷◌, ◌==◌, map, if◌then◌else◌, ltb, set,
  Done,
}
use lisa_lashes_demo.Base.Int.{ℤ, pos, negsuc, int_eq, ltb_ℤ, leb_ℤ}
use lisa_lashes_demo.Base.Text.{Text, bytes}
use lisa_lashes_demo.Db.Casts.{Casts}
use lisa_lashes_demo.Db.Exec.{Exec, pure, statement, ◌>>=◌, ◌>>◌}
use Clock.{to_char}
use Tables.{
  HoursRow, OverrideRow, Schedule, select_week, delete_week, insert_day_text, upsert_override_text,
  delete_override_row, select_override, select_day, select_overrides,
}

-- struct WorkingDay
pub record WorkingDay : Type 0 where
  pub weekday : ℤ
  pub working : Bool
  pub start : Text
  pub end : Text

-- struct ScheduleOverride
pub record ScheduleOverride : Type 0 where
  pub date : Text
  pub working : Bool
  pub start : Text
  pub end : Text
  pub note : Text

abbrev pub day_off : ℤ → WorkingDay
day_off weekday = record {
  weekday = weekday;
  working = false;
  start = bytes "09:00";
  end = bytes "18:00";
}

-- The loop over 0, ..., 6.
abbrev pub days_off : List WorkingDay
days_off = map (λ i. day_off (pos i)) (0 ∷ 1 ∷ 2 ∷ 3 ∷ 4 ∷ 5 ∷ 6 ∷ [])

pub set_day : List WorkingDay → ℤ → HoursRow → List WorkingDay
set_day days (negsuc n) row = days
set_day days (pos n) row =
    if ltb n 7
    then set days n (record {
      weekday = pos n;
      working = true;
      start = to_char row.start_time;
      end = to_char row.end_time;
    })
    else days

-- The loop over the rows.
pub fill_days : List WorkingDay → List HoursRow → List WorkingDay
unfolding set_day
fill_days days [] = days
fill_days days (row ∷ rows) = fill_days (set_day days row.weekday row) rows

pub get_weekly_schedule : ℤ → Exec Schedule (List WorkingDay)
unfolding fill_days
get_weekly_schedule resource_id = do
  rows ← statement (select_week resource_id)
  pure (fill_days days_off rows)

module _ (casts : Casts) where
  unfoldable pub insert_days : ℤ → List WorkingDay → Exec Schedule Done
  insert_days resource_id [] = pure tt
  insert_days resource_id (d ∷ days) =
      if d.working
      then (do
        statement (insert_day_text casts resource_id d.weekday d.start d.end)
        insert_days resource_id days)
      else insert_days resource_id days

  unfoldable pub set_weekly_schedule : ℤ → List WorkingDay → Exec Schedule Done
  unfolding insert_days
  set_weekly_schedule resource_id days = do
    statement (delete_week resource_id)
    insert_days resource_id days

  -- COALESCE(to_char(time,'HH24:MI'),'')
  abbrev pub time_or_empty : Option ℕ → Text
  time_or_empty none = []
  time_or_empty (some t) = to_char t

  abbrev pub override_of : OverrideRow → ScheduleOverride
  override_of o = record {
    date = casts.date_text o.date;
    working = o.working;
    start = time_or_empty o.start_time;
    end = time_or_empty o.end_time;
    note = Option.get_or o.note [];
  }

  pub get_month_overrides : ℤ → ℤ → ℤ → Exec Schedule (List ScheduleOverride)
  get_month_overrides resource_id year month = do
    rows ← statement (
        select_overrides (
          if ltb_ℤ (pos 0) year && ltb_ℤ (pos 0) month
          then (λ o.
              int_eq o.resource_id resource_id
              && int_eq (pos (casts.year o.date)) year
              && int_eq (pos (casts.month o.date)) month)
          else (λ o. int_eq o.resource_id resource_id)))
    pure (map override_of rows)

  unfoldable pub set_override : ℤ → Text → Bool → Text → Text → Text → Exec Schedule Done
  set_override resource_id date working start end note =
      statement (upsert_override_text casts resource_id date working start end note)

  pub delete_override : ℤ → Text → Exec Schedule Done
  delete_override resource_id date = statement (delete_override_row casts resource_id date)

  weekly_hours : Option HoursRow → Bool × Text × Text
  weekly_hours none = (false, bytes "09:00", bytes "18:00")
  weekly_hours (some row) = (true, to_char row.start_time, to_char row.end_time)

  effective : ℤ → ℤ → Option OverrideRow → Exec Schedule (Bool × Text × Text)
  unfolding weekly_hours
  effective resource_id weekday (some o) =
      pure (o.working, time_or_empty o.start_time, time_or_empty o.end_time)
  effective resource_id weekday none = do
    row ← statement (select_day resource_id weekday)
    pure (weekly_hours row)

  pub get_effective_hours : ℤ → Text → ℤ → Exec Schedule (Bool × Text × Text)
  unfolding effective
  get_effective_hours resource_id date weekday = do
    o ← statement (select_override casts resource_id date)
    effective resource_id weekday o
