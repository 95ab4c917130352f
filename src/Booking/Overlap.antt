-- ===== src/Booking/Overlap.antt =====
-- No two confirmed bookings of a resource overlap, as long as the requests run one by one.
use lisa_lashes_demo.Base.{
  ℕ, ◌≡◌, refl, Bool, true, false, not, ◌&&◌, ◌||◌, Option, none, some, List, [], ◌∷◌, ◌++◌, arith,
  select, keep, Done, ◌∙◌, sym,
}
use lisa_lashes_demo.Base.Int.{ℤ, int_eq}
use lisa_lashes_demo.Base.Text.{Text}
use lisa_lashes_demo.Db.Casts.{Casts}
use lisa_lashes_demo.Db.Exec.{Result, ok, throw, World, statement}
use lisa_lashes_demo.Db.Exec.Triple.{
  Triple, Triple-pure, Triple-raise, Triple-if, Triple-bind, Triple-then, Triple-given,
  Triple-weaken, Triple-statement-Idle, Outcome, Idle,
}
use lisa_lashes_demo.Booking.{matches_date, is_valid_date_time, is_free, add_booking, check_and_add}
use lisa_lashes_demo.Booking.Tables.{
  BookingRow, Diary, Status, is_confirmed, ranges_overlap, taken_by, any_overlap, instant_of,
  select_overlap, insert_booking, insert_row, insert_at, overlap_in, new_row, select_before,
}

abbrev pub conflicts : BookingRow → BookingRow → Bool
conflicts a b =
    int_eq a.resource_id b.resource_id
    && (is_confirmed a.status
        && (is_confirmed b.status
            && ranges_overlap a.start_time a.end_time b.start_time b.end_time))

abbrev pub any_conflict : BookingRow → List BookingRow → Bool
any_conflict a [] = false
any_conflict a (b ∷ bs) = conflicts a b || any_conflict a bs

-- Each booking agrees with those listed after it.
abbrev pub no_conflicts : List BookingRow → Bool
no_conflicts [] = true
no_conflicts (b ∷ bs) = not (any_conflict b bs) && no_conflicts bs

any_conflict-append :
    (a row : BookingRow) (bs : List BookingRow)
    → any_conflict a bs ≡ false
    → conflicts a row ≡ false
    → any_conflict a (bs ++ row ∷ []) ≡ false
any_conflict-append a row [] h e = ground arith
any_conflict-append a row (b ∷ bs) h e = let rest = any_conflict-append a row bs in ground arith

not-true : (b : Bool) → not b ≡ true → b ≡ false
not-true b h = ground arith

pub not-false : (b : Bool) → not b ≡ false → b ≡ true
not-false b h = ground arith

or_false : (a b : Bool) → a || b ≡ false → (a ≡ false) × (b ≡ false)
or_false true b h = ground arith
or_false false b h = (refl, h)

any_overlap-keep :
    (s e : ℕ) (b : BookingRow) (bs : List BookingRow) (mine : Bool)
    → any_overlap s e (keep mine b bs) ≡ false
    → (mine && ranges_overlap b.start_time b.end_time s e ≡ false) × (any_overlap s e bs ≡ false)
unfolding any_overlap
any_overlap-keep s e b bs true h = or_false _ _ h
any_overlap-keep s e b bs false h = (refl, h)

regroup :
    (same c c' over : Bool) → (same && c) && over ≡ false → same && (c && (c' && over)) ≡ false
regroup same c c' over h = ground arith

and_true : (a b : Bool) → not a && b ≡ true → (a ≡ false) × (b ≡ true)
and_true true b h = ground arith
and_true false b h = (refl, h)

no_conflicts-append :
    (row : BookingRow) (bs : List BookingRow)
    → no_conflicts bs ≡ true
    → any_overlap row.start_time row.end_time (select (taken_by row.resource_id) bs) ≡ false
    → no_conflicts (bs ++ row ∷ []) ≡ true
no_conflicts-append row [] h free = ground arith
no_conflicts-append row (b ∷ bs) h free =
    let parts = and_true (any_conflict b bs) (no_conflicts bs) h in
    let mine =
      any_overlap-keep row.start_time row.end_time b (select (taken_by row.resource_id) bs)
        (taken_by row.resource_id b) free in
    let apart =
      any_conflict-append b row bs parts.0 (regroup _ _ (is_confirmed row.status) _ mine.0) in
    let rest = no_conflicts-append row bs parts.1 mine.1 in rw (apart, rest) refl

-- No confirmed booking of the resource overlaps the wanted time.
abbrev pub FreeAt : ℤ → Diary → Option ℕ → Option ℕ → Type 0
FreeAt resource_id d o o' =
    (s : ℕ) × (e : ℕ) × (o ≡ some s)
    × (o' ≡ some e)
    × (any_overlap s e (select (taken_by resource_id) d.bookings) ≡ false)

overlap_in_lem :
    (resource_id : ℤ) (d d' : Diary) (o o' : Option ℕ) (overlap : Bool)
    → overlap_in o o' (select (taken_by resource_id) d.bookings) d ≡ some (overlap, d')
    → (d' ≡ d) × (not overlap ≡ true → FreeAt resource_id d o o')
unfolding overlap_in
overlap_in_lem resource_id d d' (some s) (some e) overlap h =
    let parts : (d' ≡ d) × (any_overlap s e (select (taken_by resource_id) d.bookings) ≡ overlap) =
      ground arith in
    (parts.0, λ free. (s, e, refl, refl, parts.1 ∙ not-true overlap free))
overlap_in_lem resource_id d d' none o' overlap h = ground arith
overlap_in_lem resource_id d d' (some s) none overlap h = ground arith

insert_row_lem :
    (row : BookingRow) (u : Done) (d d' : Diary)
    → insert_row row d ≡ some (u, d')
    → d'.bookings ≡ d.bookings ++ record row { id = d.next_booking } ∷ []
unfolding insert_row
insert_row_lem row u d d' h = ground arith

insert_at_lem :
    (resource_id : ℤ) (name : Text) (service_id : Option ℤ) (o o' : Option ℕ) (st : Option Status)
    (u : Done) (d d' : Diary)
    → FreeAt resource_id d o o'
    → no_conflicts d.bookings ≡ true
    → insert_at resource_id name service_id o o' st d ≡ some (u, d')
    → no_conflicts d'.bookings ≡ true
unfolding insert_at
insert_at_lem resource_id name service_id (some s) (some e) (some st) u d d' free clean h =
    let row : BookingRow = record (new_row resource_id name service_id s e st) {
      id = d.next_booking;
    } in
    let is_s : free.0 ≡ s = ground arith in
    let is_e : free.1 ≡ e = ground arith in
    let apart : any_overlap s e (select (taken_by resource_id) d.bookings) ≡ false =
      rw (sym is_s, sym is_e) free.4 in
    rw (insert_row_lem (new_row resource_id name service_id s e st) u d d' h)
      (no_conflicts-append row d.bookings clean apart)
insert_at_lem resource_id name service_id none o' st u d d' free clean h = absurd (ground arith)
insert_at_lem resource_id name service_id (some s) none st u d d' free clean h =
    absurd (ground arith)
insert_at_lem resource_id name service_id (some s) (some e) none u d d' free clean h =
    absurd (ground arith)

abbrev pub Clean : World Diary → Type 0
Clean w = (w.saved ≡ none) × (no_conflicts w.tables.bookings ≡ true)

outcome_lem :
    {A : Type 0} (r : Result A × World Diary)
    → Outcome (λ _. Clean) Clean r
    → no_conflicts r.1.tables.bookings ≡ true
outcome_lem (ok a, w) h = h.1
outcome_lem (throw e, w) h = h.1

module _ (casts : Casts) (resource_id : ℤ) (date start end : Text) (d : Diary)
    (clean : no_conflicts d.bookings ≡ true) where
  Idle-Clean : (w : World Diary) → Idle d w → Clean w
  Idle-Clean w h = (h.0, rw h.1 clean)

  select_before_lem :
      (b : Bool) (d' : Diary) → select_before casts date start end d ≡ some (b, d') → d' ≡ d
  unfolding select_before
  select_before_lem b d' h = ground arith

  valid_lem : Triple (Idle d) (is_valid_date_time casts date start end) (λ _. Idle d) (Idle d)
  unfolding is_valid_date_time select_before
  valid_lem =
      Triple-if (not (matches_date date)) _ _ (λ e. Triple-pure false (λ w h. h))
        (λ e.
          Triple-weaken (statement (select_before casts date start end)) (λ w h. h)
            (λ a w h. (h.2.0, h.2.1 ∙ select_before_lem a h.0 h.1)) (λ w h. h)
            (Triple-statement-Idle d (select_before casts date start end)))

  abbrev pub Wanted : Type 0
  Wanted = FreeAt resource_id d (instant_of casts date start) (instant_of casts date end)

  pub is_free_lem :
      Triple
        (Idle d)
        (is_free casts resource_id date start end)
        (λ free w. (free ≡ true → Wanted) × Idle d w)
        (Idle d)
  unfolding is_free select_overlap
  is_free_lem = Triple-bind (is_valid_date_time casts date start end) _ valid_lem λ valid.
      Triple-if (not valid) _ _ (λ e. Triple-raise _ (λ w h. h))
        λ e.
          Triple-bind (statement (select_overlap casts resource_id date start end)) _
            (Triple-statement-Idle d (select_overlap casts resource_id date start end))
            λ overlap. Triple-pure (not overlap) (λ w h.
              let parts = overlap_in_lem resource_id d h.0 _ _ overlap h.1 in
              (parts.1, (h.2.0, h.2.1 ∙ parts.0)))

  pub add_booking_lem :
      (name status : Text) (service_id : ℤ)
      → Wanted
      → Triple
          (Idle d)
          (add_booking casts resource_id name date start end status service_id)
          (λ _. Clean)
          (Idle d)
  unfolding add_booking insert_booking
  add_booking_lem name status service_id free =
      Triple-bind (is_valid_date_time casts date start end) _ valid_lem λ valid.
        Triple-if (not valid) _ _ (λ e. Triple-raise _ (λ w h. h))
          λ e.
            Triple-weaken (statement _) (λ w h. h)
              (λ a w h.
                (h.2.0, rw h.2.1 (insert_at_lem resource_id name _ _ _ _ a d h.0 free clean h.1)))
              (λ w h. h) (Triple-statement-Idle d _)

  check_and_add_lem :
      (name status : Text) (service_id : ℤ)
      → Triple
          (Idle d)
          (check_and_add casts resource_id name date start end status service_id)
          (λ _. Clean)
          Clean
  unfolding check_and_add
  check_and_add_lem name status service_id =
      Triple-bind (is_free casts resource_id date start end) _
        (Triple-weaken (is_free casts resource_id date start end) (λ w h. h) (λ a w h. h) Idle-Clean
          is_free_lem)
        λ free. Triple-given _ λ wanted.
          Triple-if (not free) _ _ (λ e. Triple-pure false Idle-Clean)
            λ e.
              Triple-then (add_booking casts resource_id name date start end status service_id) _
                (Triple-weaken (add_booking casts resource_id name date start end status service_id)
                  (λ w h. h) (λ a w h. h) Idle-Clean
                  (add_booking_lem name status service_id (wanted (not-false free e))))
                λ _. Triple-pure true (λ w h. h)

-- When no two confirmed bookings of one resource overlap and a request to book runs outside a
-- transaction, with no other request between its check and its insertion, then none overlap
-- afterwards, whether the booking was created or refused, whether a statement failed, and whatever
-- the texts of the request and the conversions of the server are.
pub check_and_add-no_conflicts :
    (casts : Casts) (resource_id : ℤ) (customer_name date start end status : Text) (service_id : ℤ)
    (w : World Diary)
    → w.saved ≡ none
    → no_conflicts w.tables.bookings ≡ true
    → no_conflicts
        (check_and_add casts resource_id customer_name date start end status service_id
          w).1.tables.bookings
      ≡ true
check_and_add-no_conflicts casts resource_id customer_name date start end status service_id w idle
      clean =
    outcome_lem (check_and_add casts resource_id customer_name date start end status service_id w) (
      (check_and_add_lem casts resource_id date start end w.tables clean customer_name status
          service_id).at
        w (idle, refl))
