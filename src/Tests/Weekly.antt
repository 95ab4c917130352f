-- ===== src/Tests/Weekly.antt =====
-- A run of the theorem on the weekly schedule.
use lisa_lashes_demo.Base.{true, false, List, [], ◌∷◌, arith, refl, ◌≡◌}
use lisa_lashes_demo.Base.Int.{pos}
use lisa_lashes_demo.Base.Text.{bytes}
use lisa_lashes_demo.Db.Exec.{World, statement, ◌>>◌}
use lisa_lashes_demo.Db.Exec.Triple.{Outcome}
use lisa_lashes_demo.Schedule.{WorkingDay, get_weekly_schedule, set_weekly_schedule, insert_days}
use lisa_lashes_demo.Schedule.Tables.{Schedule, delete_week, insert_day_text, insert_day, find_row}
use lisa_lashes_demo.Schedule.Weekly.{Shows, set_weekly_schedule-get_weekly_schedule}
use lisa_lashes_demo.Tests.Data.{world, casts}

-- A resource that works on Wednesdays, and what it is to work on.
abbrev week : World Schedule
week = world (record {
  resources = pos 2 ∷ [];
  hours = record { resource_id = pos 2; weekday = pos 3; start_time = 50; end_time = 55 } ∷ [];
  overrides = [];
})

abbrev mondays : List WorkingDay
mondays =
    record { weekday = pos 1; working = true; start = bytes "9"; end = bytes "A" }
    ∷ record { weekday = pos 2; working = false; start = bytes "9"; end = bytes "A" }
    ∷ []

abbrev new_week : World Schedule
new_week = record week {
  tables = record {
    resources = pos 2 ∷ [];
    hours = record { resource_id = pos 2; weekday = pos 1; start_time = 57; end_time = 65 } ∷ [];
    overrides = [];
  };
  clock = 2;
}

set_weekly_schedule-get_weekly_schedule_example :
    Outcome
      (λ shown v. Shows casts (pos 2) mondays 1 shown × (v.tables ≡ new_week.tables))
      (λ v. v.tables ≡ new_week.tables)
      (get_weekly_schedule (pos 2) new_week)
unfolding set_weekly_schedule insert_days statement ◌>>◌ delete_week insert_day_text insert_day
    find_row
set_weekly_schedule-get_weekly_schedule_example =
    set_weekly_schedule-get_weekly_schedule casts (pos 2) mondays 1 tt week new_week new_week
      (ground arith) refl refl
