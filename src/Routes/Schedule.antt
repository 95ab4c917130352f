-- ===== src/Routes/Schedule.antt =====
-- back/routes/schedule_routes.cpp.
use lisa_lashes_demo.Base.{Option, none, some, List, [], ◌∷◌, ◌||◌, if◌then◌else◌}
use lisa_lashes_demo.Base.Int.{ℤ, pos}
use lisa_lashes_demo.Base.Text.{Text, is_empty}
use lisa_lashes_demo.Db.Casts.{Casts}
use lisa_lashes_demo.Db.Exec.{Result, ok, throw, Exec, from_result, ◌>>=◌, ◌>>◌, try_catch}
use lisa_lashes_demo.Http.{
  Request, Response, no_body, message, payload, JsonLibrary, query, field, int_of, text_or_empty,
  bool_or_false, status_ok, bad_request, reply, fail_silently, with_id,
}
use lisa_lashes_demo.Schedule.{
  WorkingDay, ScheduleOverride, get_weekly_schedule, set_weekly_schedule, get_month_overrides,
  set_override, delete_override,
}
use lisa_lashes_demo.Schedule.Tables.{Schedule}

-- {"days": [...]} and {"overrides": [...]}
pub data Payload : Type 0 where
  week : List WorkingDay → Payload
  overrides : List ScheduleOverride → Payload

abbrev pub Reply : Type 0
Reply = Response Payload

module _ {Json : Type 0} (json : JsonLibrary Json) (casts : Casts) where
  unfoldable pub get_schedule_route : Request Json → Exec Schedule Reply
  get_schedule_route req =
      try_catch
        (with_id req "resource_id" λ resource_id. do
          days ← get_weekly_schedule resource_id
          reply status_ok (payload (week days)))
        fail_silently

  abbrev with_member : {A : Type 0} → Result Json → (Json → Result A) → Result A
  with_member (ok value) convert = convert value
  with_member (throw e) convert = throw e

  abbrev then_day : {A B : Type 0} → Result A → (A → Result B) → Result B
  then_day (ok a) f = f a
  then_day (throw e) f = throw e

  -- arr[i]["weekday"], ..., arr[i]["end"]
  day_of : Json → Result WorkingDay
  day_of item = then_day (with_member (json.member item "weekday") json.as_int) (λ weekday.
      then_day (with_member (json.member item "working") json.as_bool) (λ working.
        then_day (with_member (json.member item "start") json.as_text) (λ start.
          then_day (with_member (json.member item "end") json.as_text) (λ end.
            ok (record { weekday = weekday; working = working; start = start; end = end })))))

  days_of : List Json → Result (List WorkingDay)
  unfolding day_of
  days_of [] = ok []
  days_of (item ∷ items) =
      then_day (day_of item) (λ day. then_day (days_of items) (λ days. ok (day ∷ days)))

  save_days : ℤ → Option Json → Exec Schedule Reply
  unfolding days_of
  save_days resource_id none = reply bad_request no_body
  save_days resource_id (some arr) = do
    items ← from_result (json.as_items arr)
    days ← from_result (days_of items)
    set_weekly_schedule casts resource_id days
    reply status_ok (message "Schedule saved")

  unfoldable pub put_schedule_route : Request Json → Exec Schedule Reply
  unfolding field save_days
  put_schedule_route req =
      try_catch (with_id req "resource_id" λ resource_id. save_days resource_id (field req "days"))
        fail_silently

  -- `yearStr.empty() ? 0 : std::stoi(yearStr)`
  int_or_zero : Text → Result ℤ
  unfolding int_of
  int_or_zero t = if is_empty t then ok (pos 0) else int_of t

  unfoldable pub get_schedule_overrides_route : Request Json → Exec Schedule Reply
  unfolding int_or_zero query
  get_schedule_overrides_route req =
      try_catch
        (with_id req "resource_id" λ resource_id. do
          year ← from_result (int_or_zero (query req "year"))
          month ← from_result (int_or_zero (query req "month"))
          rows ← get_month_overrides casts resource_id year month
          reply status_ok (payload (overrides rows)))
        fail_silently

  unfoldable pub put_schedule_override_route : Request Json → Exec Schedule Reply
  put_schedule_override_route req =
      try_catch
        (with_id req "resource_id" λ resource_id. do
          date ← from_result (text_or_empty json req.body "date")
          working ← from_result (bool_or_false json req.body "working")
          start ← from_result (text_or_empty json req.body "start")
          end ← from_result (text_or_empty json req.body "end")
          note ← from_result (text_or_empty json req.body "note")
          if is_empty date then reply bad_request no_body else (do
            set_override casts resource_id date working start end note
            reply status_ok (message "Override saved")))
        fail_silently

  unfoldable pub delete_schedule_override_route : Request Json → Exec Schedule Reply
  unfolding query int_of
  delete_schedule_override_route req =
      try_catch
        (if is_empty (query req "resource_id") || is_empty (query req "date")
          then reply bad_request no_body
          else do
            resource_id ← from_result (int_of (query req "resource_id"))
            delete_override casts resource_id (query req "date")
            reply status_ok (message "Override deleted"))
        fail_silently
