-- ===== src/Routes/Bookings.antt =====
-- back/routes/booking_routes.cpp. PostBookingRoutes works on the accounts and on the diary, the
-- others on the diary. The day of the week that the slots are asked for is an argument.
pub mod Create
use lisa_lashes_demo.Base.{
  ℕ, Bool, not, ◌||◌, ◌≡◌, refl, Option, none, some, String, List, [], ◌∷◌, if◌then◌else◌,
}
use lisa_lashes_demo.Base.Int.{ℤ, pos}
use lisa_lashes_demo.Base.Text.{Text, is_empty}
use lisa_lashes_demo.Db.Casts.{Casts}
use lisa_lashes_demo.Db.Exec.{
  Result, ok, Exec, pure, Exception, from_result, ◌>>=◌, ◌>>◌, try_catch,
}
use lisa_lashes_demo.Db.Exec.Zoom.{Lens, zoom}
use lisa_lashes_demo.Http.{
  Request, Response, Body, no_body, message, payload, JsonLibrary, query, int_of, int_or,
  text_or_empty, has_fields, session_token, status_ok, created, bad_request, unauthorized, conflict,
  internal_server_error, respond, reply, fail_silently, with_id,
}
use lisa_lashes_demo.Accounts.{get_user_id_from_token}
use lisa_lashes_demo.Accounts.Tables.{Accounts}
use lisa_lashes_demo.Booking.{
  Booking, get_available_time_slots, is_free, add_booking, get_all_bookings, update_booking,
  delete_booking,
}
use lisa_lashes_demo.Booking.Slots.{TimeSlot}
use lisa_lashes_demo.Booking.Tables.{Diary}

pub record Site : Type 0 where
  pub accounts : Accounts
  pub diary : Diary

abbrev pub the_accounts : Lens Site Accounts Diary
the_accounts = record {
  get = λ s. s.accounts;
  set = λ a s. record s { accounts = a };
  other = λ s. s.diary;
  get_set = λ a s. refl;
  other_set = λ a s. refl;
}

abbrev pub the_diary : Lens Site Diary Accounts
the_diary = record {
  get = λ s. s.diary;
  set = λ d s. record s { diary = d };
  other = λ s. s.accounts;
  get_set = λ d s. refl;
  other_set = λ d s. refl;
}

-- {"date": ..., "slots": [...]}, {"bookings": [...]}, the body of the request, and an empty object.
pub data Payload (Json : Type 0) : Type 0 where
  slots_of : Text → List TimeSlot → Payload Json
  bookings : List Booking → Payload Json
  echo : List (Text × Json) → Payload Json
  empty_object : Payload Json

abbrev pub Reply : Type 0 → Type 0
Reply Json = Response (Payload Json)

-- `durationStr.empty() ? 60 : std::stoi(durationStr)`
slot_minutes_of : Text → Result ℤ
unfolding int_of
slot_minutes_of t = if is_empty t then ok (pos 60) else int_of t

abbrev pub required : List String
required = "date" ∷ "start" ∷ "end" ∷ "customer_name" ∷ "resource_id" ∷ "status" ∷ []

module _ {Json : Type 0} (json : JsonLibrary Json) (casts : Casts) where
  -- The answer with the slots, or none where they are undefined.
  slots_reply : Text → Option (List TimeSlot) → Exec Diary (Option (Reply Json))
  slots_reply date none = pure none
  slots_reply date (some slots) = pure (some (respond status_ok (payload (slots_of date slots))))

  unfoldable pub get_booking_routes : ℤ → Request Json → Exec Diary (Option (Reply Json))
  unfolding slot_minutes_of query int_of slots_reply
  get_booking_routes weekday req =
      try_catch
        (if is_empty (query req "date") || is_empty (query req "resource_id")
          then pure (some (respond bad_request no_body))
          else do
            resource_id ← from_result (int_of (query req "resource_id"))
            slot_minutes ← from_result (slot_minutes_of (query req "duration"))
            slots ←
                get_available_time_slots casts weekday resource_id (query req "date") slot_minutes
            slots_reply (query req "date") slots)
        (λ e. pure (some (respond internal_server_error no_body)))

  -- The part of PostBookingRoutes behind the check of the session.
  create_booking : List (Text × Json) → Exec Diary (Reply Json)
  unfolding has_fields int_or text_or_empty
  create_booking body =
      if not (has_fields body required) then reply bad_request (payload (echo body)) else do
        resource_id ← from_result (int_or json (pos 0) body "resource_id")
        date ← from_result (text_or_empty json body "date")
        start ← from_result (text_or_empty json body "start")
        end ← from_result (text_or_empty json body "end")
        customer_name ← from_result (text_or_empty json body "customer_name")
        status ← from_result (text_or_empty json body "status")
        service_id ← from_result (int_or json (pos 0) body "service_id")
        free ← is_free casts resource_id date start end
        if not free then reply conflict (payload (echo body)) else (do
          add_booking casts resource_id customer_name date start end status service_id
          reply created (message "Booking created"))

  for_user : List (Text × Json) → Option ℤ → Exec Site (Reply Json)
  unfolding create_booking
  for_user body none = reply unauthorized (message "Invalid or expired session")
  for_user body (some user_id) = zoom the_diary (create_booking body)

  with_session : List ℕ → Request Json → Exec Site (Reply Json)
  unfolding session_token for_user
  with_session junk req =
      if is_empty (session_token req.cookies)
      then reply unauthorized (message "Not authenticated")
      else do
        user_id ← zoom the_accounts (get_user_id_from_token junk (session_token req.cookies))
        for_user req.body user_id

  -- The catch clause of PostBookingRoutes answers with a new json::object.
  abbrev fail_with_object : Exception → Exec Site (Reply Json)
  fail_with_object e = reply internal_server_error (payload empty_object)

  pub post_booking_routes : List ℕ → Request Json → Exec Site (Reply Json)
  unfolding with_session
  post_booking_routes junk req = try_catch (with_session junk req) fail_with_object

  unfoldable pub get_all_bookings_route : Exec Diary (Reply Json)
  get_all_bookings_route =
      try_catch (do rows ← get_all_bookings casts; reply status_ok (payload (bookings rows)))
        fail_silently

  unfoldable pub put_booking_routes : Request Json → Exec Diary (Reply Json)
  put_booking_routes req =
      try_catch
        (with_id req "id" λ id. do
          update_booking casts json id req.body
          reply status_ok (message "Booking updated"))
        fail_silently

  unfoldable pub delete_booking_routes : Request Json → Exec Diary (Reply Json)
  delete_booking_routes req =
      try_catch
        (with_id req "id" λ id. do delete_booking id; reply status_ok (message "Booking deleted"))
        fail_silently
