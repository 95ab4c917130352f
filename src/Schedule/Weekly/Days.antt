-- ===== src/Schedule/Weekly/Days.antt =====
-- What getWeeklySchedule reads of the rows of a week.
use lisa_lashes_demo.Base.{
  ℕ, zero, suc, ◌<◌, ◌≡◌, refl, sym, ap, ◌∙◌, Bool, true, false, Option, none, some, List, [], ◌∷◌,
  arith, if◌then◌else◌, ◌==◌, ltb, length, get_elem?, set, length-set, Bool-cases, inl, inr, ◌⊎◌,
}
use lisa_lashes_demo.Base.Int.{ℤ, pos, negsuc, int_eq, int_eq_sound}
use lisa_lashes_demo.Schedule.Clock.{to_char}
use lisa_lashes_demo.Schedule.Tables.{HoursRow, insert_row, sort_rows}
use lisa_lashes_demo.Schedule.{WorkingDay, set_day, fill_days}

abbrev pub or_else : {A : Type 0} → Option A → Option A → Option A
or_else none b = b
or_else (some a) b = some a

abbrev pub this_day : ℤ → HoursRow → Option HoursRow
this_day weekday row = if int_eq row.weekday weekday then some row else none

-- The last row of a day.
unfoldable pub last_row : ℤ → List HoursRow → Option HoursRow
last_row weekday [] = none
last_row weekday (row ∷ rows) = or_else (last_row weekday rows) (this_day weekday row)

abbrev pub DaysDistinct : List HoursRow → Type 0
DaysDistinct [] = Unit
DaysDistinct (row ∷ rows) = (last_row row.weekday rows ≡ none) × DaysDistinct rows

pub or_else-none : {A : Type 0} (b : Option A) → or_else b none ≡ b
or_else-none none = refl
or_else-none (some x) = refl

pub swapped :
    {A : Type 0} (l a b : Option A)
    → ((a ≡ none) ⊎ (b ≡ none))
    → or_else (or_else l a) b ≡ or_else (or_else l b) a
swapped none a b (inl h) = rw h (sym (or_else-none b))
swapped none a b (inr h) = rw h (or_else-none a)
swapped (some x) a b h = refl

pub apart :
    (x y : HoursRow) (weekday : ℤ)
    → int_eq y.weekday x.weekday ≡ false
    → ((this_day weekday x ≡ none) ⊎ (this_day weekday y ≡ none))
apart x y weekday h = elim (Bool-cases (int_eq x.weekday weekday)) [
  | inr other ↦ inl (rw other refl)
  | inl same ↦ inr (rw (sym (int_eq_sound x.weekday weekday same), h) refl)
]

pub free_rest :
    (weekday : ℤ) (y : HoursRow) (ys : List HoursRow)
    → last_row weekday (y ∷ ys) ≡ none
    → (last_row weekday ys ≡ none) × (int_eq y.weekday weekday ≡ false)
unfolding last_row
free_rest weekday y ys h = parts (last_row weekday ys) (int_eq y.weekday weekday) h
  where
    parts :
        (o : Option HoursRow) (b : Bool)
        → or_else o (if b then some y else none) ≡ none
        → (o ≡ none) × (b ≡ false)
    parts none false h = (refl, refl)
    parts none true h = absurd (ground arith)
    parts (some r) b h = absurd (ground arith)

-- The order of the rows does not matter.
last_row-insert_row :
    (before : HoursRow → HoursRow → Bool) (weekday : ℤ) (x : HoursRow) (rows : List HoursRow)
    → last_row x.weekday rows ≡ none
    → last_row weekday (insert_row before x rows) ≡ last_row weekday (x ∷ rows)
unfolding last_row insert_row
last_row-insert_row before weekday x [] h = refl
last_row-insert_row before weekday x (y ∷ ys) h =
    let parts = free_rest x.weekday y ys h in
    elim (Bool-cases (before x y)) [
      | inl first ↦ rw first refl
      | inr later ↦
          rw (later, last_row-insert_row before weekday x ys parts.0)
            (swapped (last_row weekday ys) (this_day weekday x) (this_day weekday y)
              (apart x y weekday parts.1))
    ]

pub last_row-sort_rows :
    (before : HoursRow → HoursRow → Bool) (weekday : ℤ) (rows : List HoursRow)
    → DaysDistinct rows
    → last_row weekday (sort_rows before rows) ≡ last_row weekday rows
unfolding last_row sort_rows
last_row-sort_rows before weekday [] h = refl
last_row-sort_rows before weekday (x ∷ xs) (new, h) =
    last_row-insert_row before weekday x (sort_rows before xs)
      (last_row-sort_rows before x.weekday xs h ∙ new)
    ∙ ap (λ (o : Option HoursRow). or_else o (this_day weekday x))
        (last_row-sort_rows before weekday xs h)

abbrev pub shown : HoursRow → WorkingDay
shown row = record {
  weekday = row.weekday;
  working = true;
  start = to_char row.start_time;
  end = to_char row.end_time;
}

abbrev pub overlaid : Option WorkingDay → Option HoursRow → Option WorkingDay
overlaid day none = day
overlaid day (some row) = some (shown row)

get_elem?-set :
    {A : Type 0} (xs : List A) (i j : ℕ) (v : A)
    → j < length xs
    → get_elem? (set xs j v) i ≡ (if j == i then some v else get_elem? xs i)
get_elem?-set [] i j v h = absurd (omega arith)
get_elem?-set (x ∷ xs) zero zero v h = ground arith
get_elem?-set (x ∷ xs) zero (suc j) v h = ground arith
get_elem?-set (x ∷ xs) (suc i) zero v h = ground arith
get_elem?-set (x ∷ xs) (suc i) (suc j) v h =
    let ih = get_elem?-set xs i j v (omega arith) in ground arith

pub length-set_day :
    (days : List WorkingDay) (k : ℤ) (row : HoursRow) → length (set_day days k row) ≡ length days
unfolding set_day
length-set_day days (negsuc n) row = refl
length-set_day days (pos n) row = elim (Bool-cases (ltb n 7)) [
  | inl small ↦ rw small (length-set days n _)
  | inr large ↦ rw large refl
]

set_day_lem :
    (days : List WorkingDay) (row : HoursRow) (i : ℕ)
    → length days ≡ 7
    → i < 7
    → get_elem? (set_day days row.weekday row) i
      ≡ overlaid (get_elem? days i) (this_day (pos i) row)
unfolding set_day
set_day_lem days row i l h = by_weekday row.weekday refl
  where
    by_weekday :
        (k : ℤ)
        → row.weekday ≡ k
        → get_elem? (set_day days k row) i
          ≡ overlaid (get_elem? days i) (if int_eq k (pos i) then some row else none)
    by_weekday (negsuc n) e = refl
    by_weekday (pos n) e = elim (Bool-cases (ltb n 7)) [
      | inl small ↦ rw small (get_elem?-set days i n _ (ground arith) ∙ choice (n == i) n e)
      | inr large ↦ let other : (n == i) ≡ false = ground arith in rw (large, other) refl
    ]
      where
        choice :
            (b : Bool) (n : ℕ)
            → row.weekday ≡ pos n
            → (if b then some (record (shown row) { weekday = pos n }) else get_elem? days i)
              ≡ overlaid (get_elem? days i) (if b then some row else none)
        choice true n e = ap (λ k. some (record (shown row) { weekday = k })) (sym e)
        choice false n e = refl

overlaid_twice :
    (day : Option WorkingDay) (early late : Option HoursRow)
    → overlaid (overlaid day early) late ≡ overlaid day (or_else late early)
overlaid_twice day early none = refl
overlaid_twice day early (some row) = refl

-- Each day of the result is the last row of that day, or what it was.
pub get_elem?-fill_days :
    (days : List WorkingDay) (rows : List HoursRow) (i : ℕ)
    → length days ≡ 7
    → i < 7
    → get_elem? (fill_days days rows) i ≡ overlaid (get_elem? days i) (last_row (pos i) rows)
unfolding fill_days last_row
get_elem?-fill_days days [] i l h = refl
get_elem?-fill_days days (row ∷ rows) i l h =
    get_elem?-fill_days (set_day days row.weekday row) rows i
      (length-set_day days row.weekday row ∙ l) h
    ∙ ap (λ (day : Option WorkingDay). overlaid day (last_row (pos i) rows))
        (set_day_lem days row i l h)
    ∙ overlaid_twice (get_elem? days i) (this_day (pos i) row) (last_row (pos i) rows)

pub length-fill_days :
    (days : List WorkingDay) (rows : List HoursRow) → length (fill_days days rows) ≡ length days
unfolding fill_days
length-fill_days days [] = refl
length-fill_days days (row ∷ rows) =
    length-fill_days (set_day days row.weekday row) rows ∙ length-set_day days row.weekday row
