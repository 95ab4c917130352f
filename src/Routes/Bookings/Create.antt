-- ===== src/Routes/Bookings/Create.antt =====
-- What PostBookingRoutes does to the tables, whoever asks.
use mathlib.Core.Option
use lisa_lashes_demo.Base.{
  ℕ, ◌≡◌, ◌≢◌, refl, subst, ap, true, not, Option, none, some, List, ◌⊎◌, inl, inr, arith,
}
use lisa_lashes_demo.Base.Int.{ℤ}
use lisa_lashes_demo.Base.Text.{Text, is_empty}
use lisa_lashes_demo.Crypt.Sha256.{sha256}
use lisa_lashes_demo.Db.Casts.{Casts}
use lisa_lashes_demo.Db.Exec.{World, Result, from_result}
use lisa_lashes_demo.Db.Exec.Triple.{
  Outcome, Triple, Triple-pure, Triple-if, Triple-bind, Triple-then, Triple-given, Triple-weaken,
  Triple-from_result, Triple-try_catch, Idle,
}
use lisa_lashes_demo.Db.Exec.Query.{Triple-query-Idle}
use lisa_lashes_demo.Db.Exec.Zoom.{Triple-zoom, zoom, focus}
use lisa_lashes_demo.Http.{Request, JsonLibrary, session_token, has_fields, created}
use lisa_lashes_demo.Accounts.{get_user_id_from_token}
use lisa_lashes_demo.Accounts.Tables.{Accounts, Session, find_session, live, select_session}
use lisa_lashes_demo.Middleware.Access.{session_of_request, Authenticated}
use lisa_lashes_demo.Booking.{is_free, add_booking}
use lisa_lashes_demo.Booking.Tables.{Diary}
use lisa_lashes_demo.Booking.Overlap.{Clean, no_conflicts, is_free_lem, add_booking_lem, not-false}
use lisa_lashes_demo.Routes.Bookings.{
  Site, the_accounts, the_diary, Reply, required, create_booking, for_user, with_session,
  post_booking_routes,
}

module _ {Json : Type 0} (json : JsonLibrary Json) (casts : Casts) (body : List (Text × Json))
    (d : Diary) (clean : no_conflicts d.bookings ≡ true) where
  -- A booking was made and none overlap, or nothing was done.
  abbrev Created : Reply Json → World Diary → Type 0
  Created r w = ((r.status ≡ created) × Clean w) ⊎ ((r.status ≢ created) × Idle d w)

  from_result_lem :
      {A : Type 0} (r : Result A) → Triple (Idle d) (from_result r) (λ _. Idle d) (Idle d)
  from_result_lem r = Triple-from_result r (λ a w e h. h) (λ w h. h)

  create_booking-Created : Triple (Idle d) (create_booking json casts body) Created (Idle d)
  unfolding create_booking
  create_booking-Created =
      Triple-if (not (has_fields body required)) _ _
        (λ e. Triple-pure _ (λ w h. inr (omega arith, h)))
        (λ e. Triple-bind _ _ (from_result_lem _) λ resource_id.
          Triple-bind _ _ (from_result_lem _) λ date. Triple-bind _ _ (from_result_lem _) λ start.
            Triple-bind _ _ (from_result_lem _) λ end.
              Triple-bind _ _ (from_result_lem _) λ customer_name.
                Triple-bind _ _ (from_result_lem _) λ status.
                  Triple-bind _ _ (from_result_lem _) λ service_id.
                    Triple-bind (is_free casts resource_id date start end) _
                      (is_free_lem casts resource_id date start end d clean)
                      λ free. Triple-given _ λ wanted.
                        Triple-if (not free) _ _ (λ e'. Triple-pure _ (λ w h. inr (omega arith, h)))
                          (λ e'.
                            Triple-then
                              (add_booking casts resource_id customer_name date start end status
                                service_id)
                              _
                              (add_booking_lem casts resource_id date start end d clean
                                customer_name status service_id (wanted (not-false free e')))
                              λ u. Triple-pure _ (λ w h. inl (refl, h))))

module _ {Json : Type 0} (junk : List ℕ) (req : Request Json) (n : ℕ) (s : Site) where
  -- The answer says that a booking was made, for a request with an unexpired session, and then only
  -- the diary has changed and none of its confirmed bookings overlap; or nothing has changed.
  abbrev pub Booked : Reply Json → World Site → Type 0
  Booked r w =
      ((r.status ≡ created)
        × ((id : ℤ) × Authenticated junk req.cookies n s.accounts id)
        × (no_conflicts w.tables.diary.bookings ≡ true)
        × (w.tables.accounts ≡ s.accounts))
      ⊎ ((r.status ≢ created) × (w.tables ≡ s))

not_saved : {S T : Type 0} (f : T → S) (o : Option T) → Option.map f o ≡ none → o ≡ none
not_saved f none e = refl
not_saved f (some t) e = absurd (ground arith)

module _ {Json : Type 0} (json : JsonLibrary Json) (casts : Casts) (junk : List ℕ)
    (req : Request Json) (n : ℕ) (s : Site) (clean : no_conflicts s.diary.bookings ≡ true) where
  -- The whole tables from the two parts.
  Whole : World Site → Type 0
  Whole w = (w.saved ≡ none) × (w.tables ≡ s)

  Whole-accounts :
      (w : World Site)
      → Whole w
      → Idle s.accounts (focus the_accounts w) × (w.tables.diary ≡ s.diary)
  unfolding Whole
  Whole-accounts w h =
      ((rw h.0 refl, ap (λ (t : Site). t.accounts) h.1), ap (λ (t : Site). t.diary) h.1)

  Whole-diary :
      (w : World Site)
      → Whole w
      → Idle s.diary (focus the_diary w) × (w.tables.accounts ≡ s.accounts)
  unfolding Whole
  Whole-diary w h =
      ((rw h.0 refl, ap (λ (t : Site). t.diary) h.1), ap (λ (t : Site). t.accounts) h.1)

  accounts-Whole :
      (w : World Site) → Idle s.accounts (focus the_accounts w) → w.tables.diary ≡ s.diary → Whole w
  unfolding Whole
  accounts-Whole w h e =
      let parts = h.1 in (not_saved (λ (t : Site). t.accounts) w.saved h.0, ground arith)

  diary-Whole :
      (w : World Site) → Idle s.diary (focus the_diary w) → w.tables.accounts ≡ s.accounts → Whole w
  unfolding Whole
  diary-Whole w h e =
      let parts = h.1 in (not_saved (λ (t : Site). t.diary) w.saved h.0, ground arith)

  user_of : Text → Option ℤ
  user_of token =
      Option.map (λ (x : Session). x.user_id)
        (find_session (live (sha256 junk token) n) s.accounts.sessions)

  select_session_lem :
      (token : Text) (user_id : Option ℤ) (a : Accounts)
      → select_session (sha256 junk token) n s.accounts ≡ some (user_id, a)
      → (user_id ≡ user_of token) × (a ≡ s.accounts)
  unfolding select_session user_of
  select_session_lem token user_id a e = ground arith

  session_lem :
      (token : Text)
      → Triple
          (λ w. (w.now ≡ n) × Whole w)
          (zoom the_accounts (get_user_id_from_token junk token))
          (λ user_id w. (user_id ≡ user_of token) × Whole w)
          Whole
  unfolding get_user_id_from_token
  session_lem token =
      Triple-weaken _ (λ w h. let parts = Whole-accounts w h.1 in ((h.0, parts.0), parts.1))
        (λ a w h.
          let parts = select_session_lem token a h.0.0 h.0.1 in
          (
            parts.0,
            accounts-Whole w (subst (λ (x : Accounts). Idle x (focus the_accounts w)) parts.1 h.0.2)
                h.1,
          ))
        (λ w h. accounts-Whole w h.0 h.1)
        (Triple-zoom the_accounts (get_user_id_from_token junk token) s.diary
          (Triple-query-Idle n s.accounts (select_session (sha256 junk token))))

  user_session :
      (o : Option Session) (id : ℤ)
      → some id ≡ Option.map (λ (x : Session). x.user_id) o
      → (x : Session) × (o ≡ some x) × (x.user_id ≡ id)
  user_session none id e = absurd (ground arith)
  user_session (some x) id e = (x, refl, ground arith)

  booked_lem :
      (id : ℤ)
      → Authenticated junk req.cookies n s.accounts id
      → (r : Reply Json) (w : World Site)
      → Created json casts req.body s.diary clean r (focus the_diary w)
      → w.tables.accounts ≡ s.accounts
      → Booked junk req n s r w
  unfolding Whole
  booked_lem id known r w (inl (made, tidy)) same = inl (made, (id, known), tidy.1, same)
  booked_lem id known r w (inr (other, idle)) same = inr (other, (diary-Whole w idle same).1)

  -- What is left to show of the answer when the session is known.
  booking_lem :
      (user_id : Option ℤ)
      → user_id
        ≡ Option.map (λ (x : Session). x.user_id) (session_of_request junk req.cookies n s.accounts)
      → Triple Whole (for_user json casts req.body user_id) (Booked junk req n s) Whole
  unfolding for_user Whole
  booking_lem none e = Triple-pure _ (λ w h. inr (omega arith, h.1))
  booking_lem (some id) e =
      Triple-weaken _ (λ w h. Whole-diary w h)
        (λ r w h. booked_lem id (user_session _ id e) r w h.0 h.1) (λ w h. diary-Whole w h.0 h.1)
        (Triple-zoom the_diary (create_booking json casts req.body) s.accounts
          (create_booking-Created json casts req.body s.diary clean))

  with_session-Booked :
      Triple
        (λ w. (w.now ≡ n) × Whole w)
        (with_session json casts junk req)
        (Booked junk req n s)
        Whole
  unfolding with_session user_of Whole
  with_session-Booked =
      Triple-if (is_empty (session_token req.cookies)) _ _
        (λ e. Triple-pure _ (λ w h. inr (omega arith, h.1.1)))
        (λ e.
          Triple-bind (zoom the_accounts (get_user_id_from_token junk (session_token req.cookies)))
            _ (session_lem (session_token req.cookies))
            λ user_id. Triple-given _ λ known. booking_lem user_id (rw e known))

  post_booking_lem :
      Triple
        (λ w. (w.now ≡ n) × Whole w)
        (post_booking_routes json casts junk req)
        (Booked junk req n s)
        (λ w. ⊥)
  unfolding post_booking_routes Whole
  post_booking_lem =
      Triple-try_catch _ _ with_session-Booked (λ e. Triple-pure _ (λ w h. inr (omega arith, h.1)))

-- PostBookingRoutes always answers. Outside a transaction, when no two confirmed bookings of one
-- resource overlap and no other request comes between its statements, either it answers 201 to a
-- request whose cookie names an unexpired session, and has changed only the diary, whose confirmed
-- bookings still do not overlap, or it answers with another status and has changed nothing.
pub post_booking_routes-Booked :
    (Json : Type 0) (json : JsonLibrary Json) (casts : Casts) (junk : List ℕ) (req : Request Json)
    (w : World Site)
    → w.saved ≡ none
    → no_conflicts w.tables.diary.bookings ≡ true
    → Outcome
        (λ r w'. Booked junk req w.now w.tables r w')
        (λ w'. ⊥)
        (post_booking_routes json casts junk req w)
unfolding Whole
post_booking_routes-Booked Json json casts junk req w idle clean =
    (post_booking_lem json casts junk req w.now w.tables clean).at w (refl, (idle, refl))
