-- ===== src/Schedule/Precedence.antt =====
-- A date's override comes before the weekly schedule.
use lisa_lashes_demo.Base.{
  ℕ, ◌≡◌, refl, sym, ◌∙◌, ap, subst, Bool, true, Option, none, some, List, [], ◌∷◌, arith, Done,
  inl, inr, Bool-cases,
}
use lisa_lashes_demo.Base.Int.{ℤ, int_eq_refl}
use lisa_lashes_demo.Base.Text.{Text}
use lisa_lashes_demo.Db.Casts.{Casts}
use lisa_lashes_demo.Db.Exec.{ok, World, statement}
use lisa_lashes_demo.Db.Exec.Triple.{Outcome, Triple, Triple-pure, Triple-weaken}
use lisa_lashes_demo.Db.Exec.Query.{At, Triple-query, Triple-ask}
use lisa_lashes_demo.Schedule.{time_or_empty, set_override, get_effective_hours, effective}
use lisa_lashes_demo.Schedule.Tables.{
  Schedule, OverrideRow, find_row, is_date, replace_override, upsert_override, upsert_override_text,
  upsert_at, optional_time, select_override,
}

is_date_self : (row : OverrideRow) → is_date row.resource_id row.date row ≡ true
is_date_self row = rw (int_eq_refl row.resource_id) (ground arith)

find_row-replace_override :
    (row : OverrideRow) (os : List OverrideRow)
    → find_row (is_date row.resource_id row.date) (replace_override row os) ≡ some row
unfolding find_row replace_override
find_row-replace_override row [] = rw (is_date_self row) refl
find_row-replace_override row (o ∷ os) = elim (Bool-cases (is_date row.resource_id row.date o)) [
  | inl same ↦ rw (same, is_date_self row) refl
  | inr other ↦ rw (other, other) (find_row-replace_override row os)
]

upsert_override_lem :
    (row : OverrideRow) (s s' : Schedule) (u : Done)
    → upsert_override row s ≡ some (u, s')
    → s'.overrides ≡ replace_override row s.overrides
unfolding upsert_override
upsert_override_lem row s s' u h = ground arith

-- What the upsert stores: the row of the request, in place of an old one of that date.
abbrev Stored :
    ℤ → Bool → Option ℕ → Option (Option ℕ) → Option (Option ℕ) → Schedule → Schedule → Type 0
Stored id working date start end s s' =
    (row : OverrideRow) × (date ≡ some row.date)
    × (row.resource_id ≡ id)
    × (row.working ≡ working)
    × (start ≡ some row.start_time)
    × (end ≡ some row.end_time)
    × (s'.overrides ≡ replace_override row s.overrides)

upsert_at_lem :
    (id : ℤ) (working : Bool) (note : Text) (date : Option ℕ) (start end : Option (Option ℕ))
    (s s' : Schedule) (u : Done)
    → upsert_at id working note date start end s ≡ some (u, s')
    → Stored id working date start end s s'
unfolding upsert_at
upsert_at_lem id working note (some d) (some a) (some b) s s' u h =
    (_, refl, refl, refl, refl, refl, upsert_override_lem _ s s' u h)
upsert_at_lem id working note none start end s s' u h = absurd (ground arith)
upsert_at_lem id working note (some d) none end s s' u h = absurd (ground arith)
upsert_at_lem id working note (some d) (some a) none s s' u h = absurd (ground arith)

module _ (casts : Casts) (id : ℤ) (date : Text) where
  set_override_lem :
      (working : Bool) (start end note : Text) (n : ℕ) (s : Schedule)
      → Triple
          (At n s)
          (set_override casts id date working start end note)
          (λ u w.
            Stored id working
              (casts.to_date date)
              (optional_time casts start)
              (optional_time casts end)
              s
              w.tables)
          (λ w. w.tables ≡ s)
  unfolding set_override upsert_override_text
  set_override_lem working start end note n s =
      Triple-weaken (statement (upsert_override_text casts id date working start end note))
        (λ w h. h)
        (λ u w h.
          subst
            (λ t.
              Stored id working (casts.to_date date) (optional_time casts start)
                (optional_time casts end) s t)
            (sym h.2.1) (upsert_at_lem id working note _ _ _ s h.0 u h.1))
        (λ w h. h.1) (Triple-query n s (upsert_override_text casts id date working start end note))

  select_override_lem :
      (s s' : Schedule) (d : ℕ) (found : Option OverrideRow)
      → casts.to_date date ≡ some d
      → select_override casts id date s ≡ some (found, s')
      → (found ≡ find_row (is_date id d) s.overrides) × (s' ≡ s)
  unfolding select_override
  select_override_lem s s' d found is_d e = ground arith

  -- The hours of an override.
  abbrev pub hours_of : OverrideRow → Bool × Text × Text
  hours_of o = (o.working, time_or_empty casts o.start_time, time_or_empty casts o.end_time)

  effective_lem :
      (weekday : ℤ) (row : OverrideRow) (found : Option OverrideRow) (n : ℕ) (s : Schedule)
      → found ≡ some row
      → Triple
          (At n s)
          (effective casts id weekday found)
          (λ r w. (r ≡ hours_of row) × (w.tables ≡ s))
          (λ w. w.tables ≡ s)
  unfolding effective
  effective_lem weekday row none n s e = absurd (ground arith)
  effective_lem weekday row (some o) n s e =
      let same : o ≡ row = ground arith in Triple-pure _ (λ w h. (ap hours_of same, h.1))

  get_effective_hours_lem :
      (weekday : ℤ) (row : OverrideRow) (n : ℕ) (s : Schedule)
      → casts.to_date date ≡ some row.date
      → find_row (is_date id row.date) s.overrides ≡ some row
      → Triple
          (At n s)
          (get_effective_hours casts id date weekday)
          (λ r w. (r ≡ hours_of row) × (w.tables ≡ s))
          (λ w. w.tables ≡ s)
  unfolding get_effective_hours
  get_effective_hours_lem weekday row n s is_d found =
      Triple-ask n s (λ w h. h.1) (select_override casts id date) _
        λ o s' e.
          let parts = select_override_lem s s' row.date o is_d e in
          subst
            (λ t.
              Triple (At n t) (effective casts id weekday o)
                (λ r w. (r ≡ hours_of row) × (w.tables ≡ s)) (λ w. w.tables ≡ s))
            (sym parts.1) (effective_lem weekday row o n s (parts.0 ∙ found))

-- After a call of setOverride that returned, getEffectiveHours for the same resource and date, on
-- tables with the same overrides and whatever the weekly schedule, gives the values of that call:
-- `working`, and each time as HH:MM, or empty if the call's text was empty. If a statement is
-- refused it throws. It changes no table.
pub set_override-get_effective_hours :
    (casts : Casts) (id weekday : ℤ) (date : Text) (working : Bool) (start end note : Text)
    (u : Done) (w w' w'' : World Schedule)
    → set_override casts id date working start end note w ≡ (ok u, w')
    → w''.tables.overrides ≡ w'.tables.overrides
    → Outcome
        (λ r v.
          (a : Option ℕ) × (b : Option ℕ) × (optional_time casts start ≡ some a)
          × (optional_time casts end ≡ some b)
          × (r ≡ (working, time_or_empty casts a, time_or_empty casts b))
          × (v.tables ≡ w''.tables))
        (λ v. v.tables ≡ w''.tables)
        (get_effective_hours casts id date weekday w'')
set_override-get_effective_hours casts id weekday date working start end note u w w' w'' e same =
    let set =
      subst
        (Outcome
          (λ (x : Done) (v : World Schedule).
            Stored id working (casts.to_date date) (optional_time casts start)
              (optional_time casts end) w.tables v.tables)
          (λ v. v.tables ≡ w.tables))
        e
        ((set_override_lem casts id date working start end note w.now w.tables).at w
          (refl, refl)) in
    let row = set.0 in
    let found : find_row (is_date id row.date) w''.tables.overrides ≡ some row =
      rw (same, set.6, sym set.2) (find_row-replace_override row w.tables.overrides) in
    (Triple-weaken (get_effective_hours casts id date weekday) (λ v h. h)
        (λ r v h. (
          row.start_time,
          row.end_time,
          set.4,
          set.5,
          h.0
              ∙ ap (λ b. (b, time_or_empty casts row.start_time, time_or_empty casts row.end_time))
                  set.3,
          h.1,
        ))
        (λ v h. h)
        (get_effective_hours_lem casts id date weekday row w''.now w''.tables set.1 found)).at
      w'' (refl, refl)
