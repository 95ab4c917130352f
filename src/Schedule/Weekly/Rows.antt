-- ===== src/Schedule/Weekly/Rows.antt =====
-- What the statements of setWeeklySchedule make of the rows of a resource.
use lisa_lashes_demo.Base.{
  ℕ, ◌≡◌, refl, ap, ◌∙◌, Bool, true, not, Option, none, some, List, [], ◌∷◌, ◌++◌, arith, select,
  Bool-cases, inl, inr, Done,
}
use lisa_lashes_demo.Base.Int.{ℤ, int_eq, int_eq_refl}
use lisa_lashes_demo.Base.Text.{Text}
use lisa_lashes_demo.Db.Casts.{Casts}
use lisa_lashes_demo.Schedule.Tables.{
  HoursRow, Schedule, find_row, is_day, insert_day, insert_day_text, delete_week,
}
use lisa_lashes_demo.Schedule.Weekly.Days.{
  or_else, this_day, last_row, DaysDistinct, swapped, apart, free_rest,
}

-- The rows of a resource.
abbrev pub week : ℤ → Schedule → List HoursRow
week id s = select (λ h. int_eq h.resource_id id) s.hours

-- The row that a working day becomes, if its texts are times.
unfoldable pub row_of : Casts → ℤ → ℤ → Text → Text → Option HoursRow
row_of casts id weekday start end = elim (casts.to_time start) [
  | none ↦ none
  | some t ↦ elim (casts.to_time end) [
    | none ↦ none
    | some u ↦ some (record { resource_id = id; weekday = weekday; start_time = t; end_time = u })
  ]
]

pub last_row-append :
    (weekday : ℤ) (rows : List HoursRow) (row : HoursRow)
    → last_row row.weekday rows ≡ none
    → last_row weekday (rows ++ row ∷ []) ≡ or_else (last_row weekday rows) (this_day weekday row)
unfolding last_row
last_row-append weekday [] row h = refl
last_row-append weekday (y ∷ ys) row h =
    let parts = free_rest row.weekday y ys h in
    rw (last_row-append weekday ys row parts.0) (
      swapped (last_row weekday ys) (this_day weekday row) (this_day weekday y)
        (apart row y weekday parts.1))

int_eq_sym : (a b : ℤ) → int_eq a b ≡ int_eq b a
int_eq_sym a b = ground arith

pub DaysDistinct-append :
    (rows : List HoursRow) (row : HoursRow)
    → DaysDistinct rows
    → last_row row.weekday rows ≡ none
    → DaysDistinct (rows ++ row ∷ [])
unfolding last_row
DaysDistinct-append [] row d h = (refl, tt)
DaysDistinct-append (y ∷ ys) row (new, d) h =
    let parts = free_rest row.weekday y ys h in
    (
      last_row-append y.weekday ys row parts.0
          ∙ rw (new, int_eq_sym row.weekday y.weekday, parts.1) refl,
      DaysDistinct-append ys row d parts.0,
    )

select-append :
    {A : Type 0} (p : A → Bool) (xs : List A) (x : A)
    → p x ≡ true
    → select p (xs ++ x ∷ []) ≡ select p xs ++ x ∷ []
select-append p [] x h = rw h refl
select-append p (y ∷ ys) x h = elim (Bool-cases (p y)) [
  | inl kept ↦ rw (kept, select-append p ys x h) refl
  | inr left ↦ rw (left, select-append p ys x h) refl
]

last_row-week :
    (id weekday : ℤ) (rows : List HoursRow)
    → find_row (is_day id weekday) rows ≡ none
    → last_row weekday (select (λ h. int_eq h.resource_id id) rows) ≡ none
unfolding find_row last_row
last_row-week id weekday [] h = refl
last_row-week id weekday (y ∷ ys) h = elim (Bool-cases (int_eq y.resource_id id)) [
  | inl mine ↦ elim (Bool-cases (int_eq y.weekday weekday)) [
    | inl same ↦ absurd (ground arith)
    | inr other ↦
        let rest : find_row (is_day id weekday) ys ≡ none = ground arith in
        rw (mine, other, last_row-week id weekday ys rest) refl
  ]
  | inr another ↦
      let rest : find_row (is_day id weekday) ys ≡ none = ground arith in
      rw another (last_row-week id weekday ys rest)
]

insert_day_lem :
    (row : HoursRow) (u : Done) (s s' : Schedule)
    → insert_day row s ≡ some (u, s')
    → (s'.hours ≡ s.hours ++ row ∷ [])
      × (find_row (is_day row.resource_id row.weekday) s.hours ≡ none)
unfolding insert_day
insert_day_lem row u s s' h = (ground arith, ground arith)

-- What an accepted INSERT adds to the rows of the resource.
pub insert_day_text_lem :
    (casts : Casts) (id weekday : ℤ) (start end : Text) (u : Done) (s s' : Schedule)
    → insert_day_text casts id weekday start end s ≡ some (u, s')
    → (row : HoursRow) × (row_of casts id weekday start end ≡ some row)
      × (row.weekday ≡ weekday)
      × (week id s' ≡ week id s ++ row ∷ [])
      × (last_row row.weekday (week id s) ≡ none)
unfolding insert_day_text insert_day row_of
insert_day_text_lem casts id weekday start end u s s' h =
    by_times (casts.to_time start) (casts.to_time end) h
  where
    row_at : ℕ → ℕ → HoursRow
    row_at t v = record { resource_id = id; weekday = weekday; start_time = t; end_time = v }

    by_times :
        (o p : Option ℕ)
        → elim o [
          | none ↦ none
          | some t ↦ elim p [ none ↦ none | some v ↦ insert_day (row_at t v) s ]
        ]
          ≡ some (u, s')
        → (row : HoursRow) × (elim o [
          | none ↦ none
          | some t ↦ elim p [ none ↦ none | some v ↦ some (row_at t v) ]
        ]
            ≡ some row)
          × (row.weekday ≡ weekday)
          × (week id s' ≡ week id s ++ row ∷ [])
          × (last_row row.weekday (week id s) ≡ none)
    by_times none p e = absurd (ground arith)
    by_times (some t) none e = absurd (ground arith)
    by_times (some t) (some v) e =
        let added = insert_day_lem (row_at t v) u s s' e in
        (
          row_at t v,
          refl,
          refl,
          ap (λ (rows : List HoursRow). select (λ h. int_eq h.resource_id id) rows) added.0
              ∙ select-append (λ h. int_eq h.resource_id id) s.hours (row_at t v) (int_eq_refl id),
          last_row-week id weekday s.hours added.1,
        )

select-not : {A : Type 0} (p : A → Bool) (xs : List A) → select p (select (λ x. not (p x)) xs) ≡ []
select-not p [] = refl
select-not p (x ∷ xs) = elim (Bool-cases (p x)) [
  | inl kept ↦ rw kept (select-not p xs)
  | inr left ↦ rw (left, left) (select-not p xs)
]

-- After the DELETE the resource has no rows.
pub delete_week_lem :
    (id : ℤ) (u : Done) (s s' : Schedule) → delete_week id s ≡ some (u, s') → week id s' ≡ []
unfolding delete_week
delete_week_lem id u s s' h =
    let kept : s'.hours ≡ select (λ r. not (int_eq r.resource_id id)) s.hours = ground arith in
    ap (λ (rows : List HoursRow). select (λ r. int_eq r.resource_id id) rows) kept
    ∙ select-not (λ r. int_eq r.resource_id id) s.hours
