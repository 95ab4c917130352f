-- ===== src/Schedule/Weekly.antt =====
-- The round trip of the weekly schedule: what getWeeklySchedule shows of what setWeeklySchedule
-- was given. Days: the days that rows are shown as; Rows: the rows that the statements leave;
-- Insertion: those of a whole call.
pub mod Days
pub mod Rows
pub mod Insertion
use lisa_lashes_demo.Base.{
  ℕ, zero, suc, ◌<◌, ◌≡◌, refl, sym, ap, subst, ◌∙◌, Bool, true, false, ◌&&◌, Option, none, some,
  List, [], ◌∷◌, ◌++◌, arith, length, get_elem?, Bool-cases, inl, inr, Done, if◌then◌else◌, All,
}
use lisa_lashes_demo.Base.Int.{ℤ, pos, int_eq, leb_ℤ}
use lisa_lashes_demo.Db.Casts.{Casts}
use lisa_lashes_demo.Db.Exec.{ok, World, statement, ◌>>◌}
use lisa_lashes_demo.Db.Exec.Triple.{Outcome, Triple, Triple-pure, Triple-if, Triple-weaken}
use lisa_lashes_demo.Db.Exec.Query.{At, Triple-ask}
use lisa_lashes_demo.Schedule.{
  WorkingDay, day_off, days_off, fill_days, get_weekly_schedule, insert_days, set_weekly_schedule,
}
use lisa_lashes_demo.Schedule.Tables.{
  HoursRow, Schedule, sort_rows, select_week, delete_week, insert_day_text,
}
use Days.{
  or_else, or_else-none, this_day, last_row, DaysDistinct, last_row-sort_rows, overlaid,
  get_elem?-fill_days, length-fill_days,
}
use Rows.{week, row_of, insert_day_text_lem, delete_week_lem, last_row-append, DaysDistinct-append}
use Insertion.{first_for, Readable, row_for, Set, set_weekly_schedule_lem}

module _ (casts : Casts) (id : ℤ) where
  -- What getWeeklySchedule shows for a week.
  abbrev pub Shows : List WorkingDay → ℕ → List WorkingDay → Type 0
  Shows days i shown =
      All (Readable casts id) days
      × (length shown ≡ 7)
      × (get_elem? shown i
          ≡ overlaid (some (day_off (pos i))) (row_for casts id (first_for (pos i) days)))

  Set-hours :
      (days : List WorkingDay) (s t : Schedule)
      → t.hours ≡ s.hours
      → Set casts id days s
      → Set casts id days t
  unfolding Set
  Set-hours days s t e h = rw e h

  get_elem?-days_off : (i : ℕ) → i < 7 → get_elem? days_off i ≡ some (day_off (pos i))
  get_elem?-days_off zero h = refl
  get_elem?-days_off (suc zero) h = refl
  get_elem?-days_off (suc (suc zero)) h = refl
  get_elem?-days_off (suc (suc (suc zero))) h = refl
  get_elem?-days_off (suc (suc (suc (suc zero)))) h = refl
  get_elem?-days_off (suc (suc (suc (suc (suc zero))))) h = refl
  get_elem?-days_off (suc (suc (suc (suc (suc (suc zero)))))) h = refl
  get_elem?-days_off (suc (suc (suc (suc (suc (suc (suc i))))))) h = absurd (omega arith)

  select_week_lem :
      (s s' : Schedule) (rows : List HoursRow)
      → select_week id s ≡ some (rows, s')
      → (rows ≡ sort_rows (λ a b. leb_ℤ a.weekday b.weekday) (week id s)) × (s' ≡ s)
  unfolding select_week
  select_week_lem s s' rows e = (ground arith, ground arith)

  get_weekly_schedule_lem :
      (days : List WorkingDay) (i n : ℕ) (s : Schedule)
      → i < 7
      → Set casts id days s
      → Triple
          (At n s)
          (get_weekly_schedule id)
          (λ r w. Shows days i r × (w.tables ≡ s))
          (λ w. w.tables ≡ s)
  unfolding get_weekly_schedule Set
  get_weekly_schedule_lem days i n s small (distinct, readable, rows) =
      Triple-ask n s (λ w p. p.1) (select_week id) _
        λ found s' e.
          let parts = select_week_lem s s' found e in
          Triple-pure _ (λ w p. (
            (
              readable,
              length-fill_days days_off found,
              get_elem?-fill_days days_off found i refl small
                  ∙ ap (λ (d : Option WorkingDay). overlaid d (last_row (pos i) found))
                      (get_elem?-days_off i small)
                  ∙ ap (overlaid (some (day_off (pos i)))) (
                      ap (last_row (pos i)) parts.0
                      ∙ last_row-sort_rows (λ a b. leb_ℤ a.weekday b.weekday) (pos i) (week id s)
                          distinct
                      ∙ rows (pos i)),
            ),
            p.1 ∙ parts.1,
          ))

-- After a call of setWeeklySchedule that returned, getWeeklySchedule for the same resource, on tables
-- with the same working hours, returns seven days or throws if a statement is refused. The day i is
-- the first working day of the call with the weekday i, with its times as HH:MM, and if there is
-- none, a day off from 09:00 to 18:00. The texts of all working days of the call are times. It
-- changes no table.
pub set_weekly_schedule-get_weekly_schedule :
    (casts : Casts) (id : ℤ) (days : List WorkingDay) (i : ℕ) (u : Done) (w w' w'' : World Schedule)
    → i < 7
    → set_weekly_schedule casts id days w ≡ (ok u, w')
    → w''.tables.hours ≡ w'.tables.hours
    → Outcome
        (λ shown v. Shows casts id days i shown × (v.tables ≡ w''.tables))
        (λ v. v.tables ≡ w''.tables)
        (get_weekly_schedule id w'')
set_weekly_schedule-get_weekly_schedule casts id days i u w w' w'' small e same =
    let left =
      subst (Outcome (λ (x : Done) (v : World Schedule). Set casts id days v.tables) (λ v. Unit)) e
        ((set_weekly_schedule_lem casts id days w.now w.tables).at w (refl, refl)) in
    (get_weekly_schedule_lem casts id days i w''.now w''.tables small
        (Set-hours casts id days w'.tables w''.tables same left)).at
      w'' (refl, refl)
