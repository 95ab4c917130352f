-- ===== src/Schedule/Tables.antt =====
-- The tables working_hours and schedule_overrides of docker/init.sql, with the ids of the table
-- resources, and the SQL of back/services/schedule_service.cpp.
use mathlib.Core.Option
use lisa_lashes_demo.Base.{
  ℕ, Bool, not, ◌&&◌, Option, none, some, List, [], ◌∷◌, ◌++◌, ◌==◌, leb, if◌then◌else◌, select,
  Done,
}
use lisa_lashes_demo.Base.Int.{ℤ, pos, int_eq, leb_ℤ}
use lisa_lashes_demo.Base.Text.{Text, is_empty}
use lisa_lashes_demo.Db.Casts.{Casts}

pub record HoursRow : Type 0 where
  pub resource_id : ℤ
  pub weekday : ℤ
  pub start_time : ℕ
  pub end_time : ℕ

pub record OverrideRow : Type 0 where
  pub resource_id : ℤ
  pub date : ℕ
  pub working : Bool
  pub start_time : Option ℕ
  pub end_time : Option ℕ
  pub note : Option Text

pub record Schedule : Type 0 where
  pub resources : List ℤ
  pub hours : List HoursRow
  pub overrides : List OverrideRow

module _ {A : Type 0} where
  unfoldable pub find_row : (A → Bool) → List A → Option A
  find_row p [] = none
  find_row p (x ∷ xs) = if p x then some x else find_row p xs

  abbrev answer : A → Schedule → Option (A × Schedule)
  answer a s = some (a, s)

  -- ORDER BY, for an order of the rows.
  unfoldable pub insert_row : (A → A → Bool) → A → List A → List A
  insert_row before x [] = x ∷ []
  insert_row before x (y ∷ ys) =
      let rest = insert_row before x ys in if before x y then x ∷ y ∷ ys else y ∷ rest

  unfoldable pub sort_rows : (A → A → Bool) → List A → List A
  unfolding insert_row
  sort_rows before [] = []
  sort_rows before (x ∷ xs) = insert_row before x (sort_rows before xs)

-- SELECT ... FROM working_hours WHERE resource_id = $1 ORDER BY weekday
unfoldable pub select_week : ℤ → Schedule → Option (List HoursRow × Schedule)
unfolding sort_rows
select_week id s =
    answer
      (sort_rows (λ a b. leb_ℤ a.weekday b.weekday) (select (λ h. int_eq h.resource_id id) s.hours))
      s

-- DELETE FROM working_hours WHERE resource_id = $1
unfoldable pub delete_week : ℤ → Schedule → Option (Done × Schedule)
delete_week id s =
    answer tt (record s { hours = select (λ h. not (int_eq h.resource_id id)) s.hours })

abbrev pub is_day : ℤ → ℤ → HoursRow → Bool
is_day id weekday h = int_eq h.resource_id id && int_eq h.weekday weekday

abbrev is_weekday : ℤ → Bool
is_weekday weekday = leb_ℤ (pos 0) weekday && leb_ℤ weekday (pos 6)

-- INSERT INTO working_hours: the resource must exist, the weekday is checked and is new.
unfoldable pub insert_day : HoursRow → Schedule → Option (Done × Schedule)
unfolding find_row
insert_day row s =
    if is_weekday row.weekday
    then elim (find_row (λ r. int_eq r row.resource_id) s.resources) [
      | none ↦ none
      | some r ↦ elim (find_row (is_day row.resource_id row.weekday) s.hours) [
        | some old ↦ none
        | none ↦ answer tt (record s { hours = s.hours ++ row ∷ [] })
      ]
    ]
    else none

-- The same, with $3::time and $4::time.
unfoldable pub insert_day_text : Casts → ℤ → ℤ → Text → Text → Schedule → Option (Done × Schedule)
unfolding insert_day
insert_day_text casts id weekday start end s = elim (casts.to_time start) [
  | none ↦ none
  | some t ↦ elim (casts.to_time end) [
    | none ↦ none
    | some u ↦
        insert_day (record { resource_id = id; weekday = weekday; start_time = t; end_time = u }) s
  ]
]

abbrev pub is_date : ℤ → ℕ → OverrideRow → Bool
is_date id date o = int_eq o.resource_id id && o.date == date

unfoldable pub replace_override : OverrideRow → List OverrideRow → List OverrideRow
replace_override row [] = row ∷ []
replace_override row (o ∷ os) =
    let rest = replace_override row os in
    if is_date row.resource_id row.date o then row ∷ os else o ∷ rest

-- INSERT INTO schedule_overrides ... ON CONFLICT (resource_id, date) DO UPDATE SET ...
unfoldable pub upsert_override : OverrideRow → Schedule → Option (Done × Schedule)
unfolding find_row replace_override
upsert_override row s = elim (find_row (λ r. int_eq r row.resource_id) s.resources) [
  | none ↦ none
  | some r ↦ answer tt (record s { overrides = replace_override row s.overrides })
]

-- NULLIF($4,'')::time
unfoldable pub optional_time : Casts → Text → Option (Option ℕ)
optional_time casts t = if is_empty t then some none else Option.map some (casts.to_time t)

abbrev optional_note : Text → Option Text
optional_note t = if is_empty t then none else some t

unfoldable pub upsert_at :
    ℤ
    → Bool
    → Text
    → Option ℕ
    → Option (Option ℕ)
    → Option (Option ℕ)
    → Schedule
    → Option (Done × Schedule)
unfolding upsert_override
upsert_at id working note (some date) (some start) (some end) = upsert_override (record {
  resource_id = id;
  date = date;
  working = working;
  start_time = start;
  end_time = end;
  note = optional_note note;
})
upsert_at id working note none _ _ = λ s. none
upsert_at id working note (some date) none _ = λ s. none
upsert_at id working note (some date) (some start) none = λ s. none

-- The same, with $2::date and the texts of the other columns.
unfoldable pub upsert_override_text :
    Casts → ℤ → Text → Bool → Text → Text → Text → Schedule → Option (Done × Schedule)
unfolding upsert_at optional_time
upsert_override_text casts id date working start end note =
    upsert_at id working note (casts.to_date date) (optional_time casts start)
      (optional_time casts end)

-- DELETE FROM schedule_overrides WHERE resource_id = $1 AND date = $2::date
unfoldable pub delete_override_row : Casts → ℤ → Text → Schedule → Option (Done × Schedule)
delete_override_row casts id date s = elim (casts.to_date date) [
  | none ↦ none
  | some d ↦ answer tt (record s { overrides = select (λ o. not (is_date id d o)) s.overrides })
]

-- SELECT ... FROM schedule_overrides WHERE resource_id=$1 AND date=$2::date
unfoldable pub select_override :
    Casts → ℤ → Text → Schedule → Option (Option OverrideRow × Schedule)
unfolding find_row
select_override casts id date s = elim (casts.to_date date) [
  | none ↦ none
  | some d ↦ answer (find_row (is_date id d) s.overrides) s
]

-- SELECT ... FROM working_hours WHERE resource_id=$1 AND weekday=$2
unfoldable pub select_day : ℤ → ℤ → Schedule → Option (Option HoursRow × Schedule)
unfolding find_row
select_day id weekday s = answer (find_row (is_day id weekday) s.hours) s

-- The two queries of getMonthOverrides, ORDER BY date.
unfoldable pub select_overrides :
    (OverrideRow → Bool) → Schedule → Option (List OverrideRow × Schedule)
unfolding sort_rows
select_overrides p s = answer (sort_rows (λ a b. leb a.date b.date) (select p s.overrides)) s
