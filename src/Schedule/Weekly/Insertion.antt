-- ===== src/Schedule/Weekly/Insertion.antt =====
-- What setWeeklySchedule leaves in the table, day by day.
use lisa_lashes_demo.Base.{
  ℕ, ◌≡◌, refl, sym, ap, subst, ◌∙◌, Bool, true, false, ◌&&◌, Option, none, some, List, [], ◌∷◌,
  ◌++◌, arith, Done, if◌then◌else◌, All,
}
use lisa_lashes_demo.Base.Int.{ℤ, int_eq}
use lisa_lashes_demo.Db.Casts.{Casts}
use lisa_lashes_demo.Db.Exec.{◌>>◌}
use lisa_lashes_demo.Db.Exec.Triple.{Triple, Triple-pure, Triple-if, Triple-weaken}
use lisa_lashes_demo.Db.Exec.Query.{At, Triple-ask}
use lisa_lashes_demo.Schedule.{WorkingDay, insert_days, set_weekly_schedule}
use lisa_lashes_demo.Schedule.Tables.{HoursRow, Schedule, delete_week, insert_day_text}
use lisa_lashes_demo.Schedule.Weekly.Days.{or_else, or_else-none, this_day, last_row, DaysDistinct}
use lisa_lashes_demo.Schedule.Weekly.Rows.{
  week, row_of, insert_day_text_lem, delete_week_lem, last_row-append, DaysDistinct-append,
}

-- The first working day of the call with this weekday.
unfoldable pub first_for : ℤ → List WorkingDay → Option WorkingDay
first_for weekday [] = none
first_for weekday (d ∷ days) =
    let rest = first_for weekday days in
    if d.working && int_eq d.weekday weekday then some d else rest

or_else_assoc : {A : Type 0} (a b c : Option A) → or_else (or_else a b) c ≡ or_else a (or_else b c)
or_else_assoc none b c = refl
or_else_assoc (some x) b c = refl

module _ (casts : Casts) (id : ℤ) where
  -- The row of a day, if its texts are times.
  abbrev pub day_row : WorkingDay → Option HoursRow
  day_row d = row_of casts id d.weekday d.start d.end

  abbrev pub row_for : Option WorkingDay → Option HoursRow
  row_for none = none
  row_for (some d) = day_row d

  -- The texts of a working day are times.
  abbrev pub Readable : WorkingDay → Type 0
  Readable d = d.working ≡ true → (row : HoursRow) × (day_row d ≡ some row)

  -- What the statements of insert_days make of the rows of `s`.
  Inserted : Schedule → List WorkingDay → Schedule → Type 0
  unfolding first_for
  Inserted s days t =
      DaysDistinct (week id t)
      × All Readable days
      × ((weekday : ℤ)
          → last_row weekday (week id t)
            ≡ or_else (last_row weekday (week id s)) (row_for (first_for weekday days)))

  one_more :
      (d : WorkingDay) (days : List WorkingDay) (s s' t : Schedule) (row : HoursRow)
      → d.working ≡ true
      → day_row d ≡ some row
      → row.weekday ≡ d.weekday
      → week id s' ≡ week id s ++ row ∷ []
      → last_row row.weekday (week id s) ≡ none
      → Inserted s' days t
      → Inserted s (d ∷ days) t
  unfolding Inserted first_for
  one_more d days s s' t row works r same added new (distinct, readable, rows) = (
    distinct,
    (λ h. (row, r), readable),
    λ weekday.
        rows weekday
        ∙ ap (λ (o : Option HoursRow). or_else o (row_for (first_for weekday days)))
            (ap (last_row weekday) added ∙ last_row-append weekday (week id s) row new)
        ∙ or_else_assoc (last_row weekday (week id s)) (this_day weekday row)
            (row_for (first_for weekday days))
        ∙ ap (or_else (last_row weekday (week id s))) (now weekday),
  )
    where
      now :
          (weekday : ℤ)
          → or_else (this_day weekday row) (row_for (first_for weekday days))
            ≡ row_for (first_for weekday (d ∷ days))
      now weekday =
          ap
            (λ k.
              or_else (if int_eq k weekday then some row else none)
                (row_for (first_for weekday days)))
            same
          ∙ by_weekday d.working (int_eq d.weekday weekday) (first_for weekday days) works
        where
          by_weekday :
              (b c : Bool) (rest : Option WorkingDay)
              → b ≡ true
              → or_else (if c then some row else none) (row_for rest)
                ≡ row_for (if b && c then some d else rest)
          by_weekday true true rest h = sym r
          by_weekday true false rest h = refl
          by_weekday false c rest h = absurd (ground arith)

  one_day_off :
      (d : WorkingDay) (days : List WorkingDay) (s t : Schedule)
      → d.working ≡ false
      → Inserted s days t
      → Inserted s (d ∷ days) t
  unfolding Inserted first_for
  one_day_off d days s t off (distinct, readable, rows) = (
    distinct,
    (λ h. absurd (ground arith), readable),
    λ weekday.
        rows weekday
        ∙ ap (λ (o : Option WorkingDay). or_else (last_row weekday (week id s)) (row_for o))
            (skipped d.working (int_eq d.weekday weekday) (first_for weekday days) off),
  )
    where
      skipped :
          (b c : Bool) (rest : Option WorkingDay)
          → b ≡ false
          → rest ≡ (if b && c then some d else rest)
      skipped true c rest h = absurd (ground arith)
      skipped false c rest h = refl

  no_days : (s : Schedule) → DaysDistinct (week id s) → Inserted s [] s
  unfolding Inserted first_for
  no_days s h = (h, tt, λ weekday. sym (or_else-none (last_row weekday (week id s))))

  one_statement :
      (d : WorkingDay) (days : List WorkingDay) (s s' t : Schedule) (u : Done)
      → d.working ≡ true
      → insert_day_text casts id d.weekday d.start d.end s ≡ some (u, s')
      → (DaysDistinct (week id s) → DaysDistinct (week id s'))
        × (Inserted s' days t → Inserted s (d ∷ days) t)
  one_statement d days s s' t u works e =
      let row = insert_day_text_lem casts id d.weekday d.start d.end u s s' e in
      (
        (λ h. subst DaysDistinct (sym row.3) (DaysDistinct-append (week id s) row.0 h row.4)),
        one_more d days s s' t row.0 works row.1 row.2 row.3 row.4,
      )

  insert_days_lem :
      (days : List WorkingDay) (n : ℕ) (s : Schedule)
      → DaysDistinct (week id s)
      → Triple (At n s) (insert_days casts id days) (λ u w. Inserted s days w.tables) (λ w. Unit)
  unfolding insert_days ◌>>◌
  insert_days_lem [] n s h = Triple-pure _ (λ w p. subst (Inserted s []) (sym p.1) (no_days s h))
  insert_days_lem (d ∷ days) n s h =
      Triple-if d.working _ (insert_days casts id days)
        (λ works.
          Triple-ask n s (λ w p. tt) (insert_day_text casts id d.weekday d.start d.end) _
            λ u s' e.
              Triple-weaken (insert_days casts id days) (λ w p. p)
                (λ v w p. (one_statement d days s s' w.tables u works e).1 p) (λ w p. p)
                (insert_days_lem days n s' ((one_statement d days s s' s u works e).0 h)))
        (λ off.
          Triple-weaken (insert_days casts id days) (λ w p. p)
            (λ u w p. one_day_off d days s w.tables off p) (λ w p. p) (insert_days_lem days n s h))

  -- The rows that the resource has after setWeeklySchedule.
  unfoldable pub Set : List WorkingDay → Schedule → Type 0
  Set days t =
      DaysDistinct (week id t)
      × All Readable days
      × ((weekday : ℤ) → last_row weekday (week id t) ≡ row_for (first_for weekday days))

  whole_week :
      (days : List WorkingDay) (s t : Schedule) → week id s ≡ [] → Inserted s days t → Set days t
  unfolding Inserted Set last_row
  whole_week days s t empty (distinct, readable, rows) = (
    distinct,
    readable,
    λ weekday.
        rows weekday
        ∙ ap (λ r. or_else (last_row weekday r) (row_for (first_for weekday days))) empty,
  )

  pub set_weekly_schedule_lem :
      (days : List WorkingDay) (n : ℕ) (s : Schedule)
      → Triple (At n s) (set_weekly_schedule casts id days) (λ u w. Set days w.tables) (λ w. Unit)
  unfolding set_weekly_schedule ◌>>◌
  set_weekly_schedule_lem days n s =
      Triple-ask n s (λ w p. tt) (delete_week id) _
        λ u s' e.
          let empty = delete_week_lem id u s s' e in
          Triple-weaken (insert_days casts id days) (λ w p. p)
            (λ v w p. whole_week days s' w.tables empty p) (λ w p. p)
            (insert_days_lem days n s' (subst DaysDistinct (sym empty) tt))
