-- ===== src/Routes/Auth/Logout.antt =====
-- What is left of a session after PostLogoutRoute.
use mathlib.Core.Option
use lisa_lashes_demo.Base.{
  ℕ, ◌≡◌, refl, sym, subst, Bool, not, Option, none, some, List, ◌⊎◌, inl, inr, arith,
  if◌then◌else◌, select, Bool-cases,
}
use lisa_lashes_demo.Base.Int.{int_eq}
use lisa_lashes_demo.Base.Text.{Text, is_empty, text_eq}
use lisa_lashes_demo.Crypt.Sha256.{sha256}
use lisa_lashes_demo.Db.Exec.{World, statement}
use lisa_lashes_demo.Db.Exec.Triple.{
  Outcome, Triple, Triple-pure, Triple-if, Triple-then, Triple-try_catch, Triple-weaken,
}
use lisa_lashes_demo.Db.Exec.Query.{At, Triple-query, Triple-ask-At}
use lisa_lashes_demo.Http.{
  Cookie, Request, JsonLibrary, session_token, status_ok, internal_server_error,
}
use lisa_lashes_demo.Accounts.{
  PasswordLibrary, get_user_id_from_token, delete_session, delete_all_sessions_for_user,
}
use lisa_lashes_demo.Accounts.Tables.{
  Accounts, Session, find_session, live, select_session, delete_session_row, delete_user_sessions,
}
use lisa_lashes_demo.Accounts.Uniqueness.{
  HashesDistinct, find_session-of_user, find_session-of_hash,
}
use lisa_lashes_demo.Middleware.Access.{session_of_request}
use lisa_lashes_demo.Routes.Auth.{post_logout_route, log_out, end_sessions, reply}

module _ (junk : List ℕ) (cookies : List Cookie) (n : ℕ) (s : Accounts) where
  abbrev hash : Text
  hash = sha256 junk (session_token cookies)

  -- Which sessions a log out keeps: those of other users than the session's, or, if the cookie names
  -- no unexpired session, those of other tokens.
  abbrev kept : Option Session → Session → Bool
  kept (some x) y = not (int_eq y.user_id x.user_id)
  kept none y = not (text_eq y.token_hash hash)

  abbrev remaining : List Session
  remaining =
      if is_empty (session_token cookies)
      then s.sessions
      else select (kept (find_session (live hash n) s.sessions)) s.sessions

  -- The cookie names no session any more, now or at any other time, and all else is as it was.
  abbrev pub LoggedOut : Accounts → Type 0
  LoggedOut s' =
      ((m : ℕ) → session_of_request junk cookies m s' ≡ none)
      × (s' ≡ record s { sessions = remaining })

  gone :
      (o : Option Session)
      → HashesDistinct s.sessions
      → find_session (live hash n) s.sessions ≡ o
      → (m : ℕ) → find_session (live hash m) (select (kept o) s.sessions) ≡ none
  gone none d e m = find_session-of_hash hash m s.sessions
  gone (some x) d e m = find_session-of_user hash n m s.sessions x d e

  remaining_lem : HashesDistinct s.sessions → LoggedOut (record s { sessions = remaining })
  remaining_lem d = (
    λ m. elim (Bool-cases (is_empty (session_token cookies))) [
      | inl e ↦ rw e refl
      | inr e ↦ rw e (gone _ d refl m)
    ],
    refl,
  )

  ended :
      (o : Option Session)
      → Triple
          (At n s)
          (end_sessions junk (session_token cookies) (Option.map (λ (x : Session). x.user_id) o))
          (λ _ w. w.tables ≡ record s { sessions = select (kept o) s.sessions })
          (λ w. w.tables ≡ s)
  unfolding end_sessions delete_session delete_all_sessions_for_user delete_session_row
      delete_user_sessions
  ended none =
      Triple-weaken (statement (delete_session_row hash)) (λ w h. h) (λ _ w h. ground arith)
        (λ w h. h.1) (Triple-query n s (delete_session_row hash))
  ended (some x) =
      Triple-weaken (statement (delete_user_sessions x.user_id)) (λ w h. h) (λ _ w h. ground arith)
        (λ w h. h.1) (Triple-query n s (delete_user_sessions x.user_id))

  log_out_lem :
      Triple
        (At n s)
        (log_out junk (session_token cookies))
        (λ _ w. w.tables ≡ record s { sessions = remaining })
        (λ w. w.tables ≡ s)
  unfolding log_out get_user_id_from_token select_session
  log_out_lem =
      Triple-if (is_empty (session_token cookies)) _ _ (λ e. Triple-pure tt (λ w h. rw e h.1))
        (λ e.
          Triple-ask-At n s (λ w h. h.1) (select_session hash)
            (end_sessions junk (session_token cookies))
            λ o s' found.
              let parts : (o
                    ≡ Option.map (λ (x : Session). x.user_id)
                        (find_session (live hash n) s.sessions))
                  × (s' ≡ s) =
                ground arith in
              rw (parts.1, parts.0, e) (ended (find_session (live hash n) s.sessions)))

-- PostLogoutRoute always answers. With 200 the request's session cookie names no session any more,
-- at any time, which AuthMiddleware and the other handlers look for: what the sessions have lost are
-- those of the cookie's user, or, if the cookie named no unexpired session, those of the same token;
-- nothing else has changed. With any other status it is 500, and nothing has changed. No two sessions
-- of the table may have the same hash, which the statements on sessions keep.
pub post_logout_route-LoggedOut :
    (Json : Type 0) (json : JsonLibrary Json) (crypto : PasswordLibrary) (junk : List ℕ)
    (req : Request Json) (w : World Accounts)
    → HashesDistinct w.tables.sessions
    → Outcome
        (λ r w'.
          ((r.status ≡ status_ok) × LoggedOut junk req.cookies w.now w.tables w'.tables)
          ⊎ ((r.status ≡ internal_server_error) × (w'.tables ≡ w.tables)))
        (λ w'. ⊥)
        (post_logout_route json crypto junk req w)
unfolding post_logout_route reply
post_logout_route-LoggedOut Json json crypto junk req w distinct =
    (Triple-try_catch {F = λ w'. w'.tables ≡ w.tables} _ _
        (Triple-then (log_out junk (session_token req.cookies)) _
          (log_out_lem junk req.cookies w.now w.tables)
          (λ done. Triple-pure _ (λ w' h. inl (
            refl,
            subst (LoggedOut junk req.cookies w.now w.tables) (sym h)
                (remaining_lem junk req.cookies w.now w.tables distinct),
          ))))
        (λ x. Triple-pure _ (λ w' h. inr (refl, h)))).at
      w (refl, refl)
