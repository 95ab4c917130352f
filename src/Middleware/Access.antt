-- ===== src/Middleware/Access.antt =====
-- Which requests the middlewares let through.
use mathlib.Core.Option
use lisa_lashes_demo.Base.{
  ℕ, ◌≡◌, refl, ◌∙◌, sym, ap, Bool, true, false, Option, none, some, List, ◌⊎◌, inl, inr, arith,
  if◌then◌else◌,
}
use lisa_lashes_demo.Base.Int.{ℤ, int_eq}
use lisa_lashes_demo.Base.Text.{Text, is_empty}
use lisa_lashes_demo.Crypt.Sha256.{sha256}
use lisa_lashes_demo.Db.Exec.{World, statement, statement_at}
use lisa_lashes_demo.Db.Exec.Triple.{
  Outcome, Triple, Triple-pure, Triple-if, Triple-bind, Triple-given, Triple-weaken,
}
use lisa_lashes_demo.Db.Exec.Query.{At, Triple-query, Triple-query-At}
use lisa_lashes_demo.Http.{Cookie, Response, session_token, unauthorized, forbidden}
use lisa_lashes_demo.Accounts.{get_user_id_from_token, is_admin, granted}
use lisa_lashes_demo.Accounts.Tables.{
  Accounts, Session, UserRow, find_session, find_user, live, select_session, select_is_admin,
}
use lisa_lashes_demo.Middleware.{Passage, next, stop, auth, admin, check_admin, to_user}

module _ (junk : List ℕ) (cookies : List Cookie) (n : ℕ) (s : Accounts) where
  -- The session that the request's cookie names, if it has not expired.
  abbrev pub session_of_request : Option Session
  session_of_request =
      if is_empty (session_token cookies)
      then none
      else find_session (live (sha256 junk (session_token cookies)) n) s.sessions

  abbrev pub Authenticated : ℤ → Type 0
  Authenticated id = (x : Session) × (session_of_request ≡ some x) × (x.user_id ≡ id)

  -- The column is_admin of the user's row.
  abbrev pub has_admin_row : ℤ → Bool
  has_admin_row id =
      granted (Option.map (λ (u : UserRow). u.is_admin) (find_user (λ u. int_eq u.id id) s.users))

  abbrev pub AdminAdmitted : {P : Type 0} → Passage P → Type 0
  AdminAdmitted (next id) = Authenticated id × (has_admin_row id ≡ true)
  AdminAdmitted (stop r) =
      ((session_of_request ≡ none) × (r.status ≡ unauthorized))
      ⊎ ((id : ℤ) × Authenticated id × (has_admin_row id ≡ false) × (r.status ≡ forbidden))

  abbrev pub Admitted : {P : Type 0} → Passage P → Type 0
  Admitted (next id) = Authenticated id
  Admitted (stop r) = (session_of_request ≡ none) × (r.status ≡ unauthorized)

  to_user_lem :
      {P : Type 0} (refusal : Response P) (o : Option Session)
      → session_of_request ≡ o
      → refusal.status ≡ unauthorized
      → Admitted (to_user junk refusal (Option.map (λ (x : Session). x.user_id) o))
  to_user_lem refusal none e h = (e, h)
  to_user_lem refusal (some x) e h = (x, e, refl)

  select_session_lem :
      (hash : Text) (user_id : Option ℤ) (s' : Accounts)
      → select_session hash n s ≡ some (user_id, s')
      → (user_id ≡ Option.map (λ (x : Session). x.user_id) (find_session (live hash n) s.sessions))
        × (s' ≡ s)
  unfolding select_session
  select_session_lem hash user_id s' e = ground arith

  auth_lem :
      (P : Type 0)
      → Triple
          (At n s)
          (auth {P = P} junk cookies)
          (λ passage w. Admitted passage × At n s w)
          (At n s)
  unfolding auth get_user_id_from_token
  auth_lem P =
      Triple-if (is_empty (session_token cookies)) _ _
        (λ e. Triple-pure _ (λ w h. ((rw e refl, refl), h)))
        (λ e.
          Triple-bind (statement_at (select_session (sha256 junk (session_token cookies)))) _
            (Triple-query-At n s (select_session (sha256 junk (session_token cookies))))
            λ user_id. Triple-pure _ (λ w h.
              let parts = select_session_lem _ user_id h.0 h.1 in
              (rw parts.0 (to_user_lem _ _ (rw e refl) refl), (h.2.0, h.2.1 ∙ parts.1))))

  select_is_admin_lem :
      (id : ℤ) (o : Option Bool) (s' : Accounts)
      → select_is_admin id s ≡ some (o, s')
      → (granted o ≡ has_admin_row id) × (s' ≡ s)
  unfolding select_is_admin
  select_is_admin_lem id o s' e =
      let parts : (o
            ≡ Option.map (λ (u : UserRow). u.is_admin) (find_user (λ u. int_eq u.id id) s.users))
          × (s' ≡ s) =
        ground arith in
      (ap granted parts.0, parts.1)

  is_admin_lem :
      (id : ℤ) → Triple (At n s) (is_admin id) (λ b w. (b ≡ has_admin_row id) × At n s w) (At n s)
  unfolding is_admin
  is_admin_lem id =
      Triple-bind (statement (select_is_admin id)) _ (Triple-query n s (select_is_admin id)) λ o.
        Triple-pure _ (λ w h.
          let parts = select_is_admin_lem id o h.0 h.1 in (parts.0, (h.2.0, h.2.1 ∙ parts.1)))

  grant_lem :
      {P : Type 0} (id : ℤ) (b : Bool) (refusal : Response P)
      → Authenticated id
      → b ≡ has_admin_row id
      → refusal.status ≡ forbidden
      → AdminAdmitted (if b then next id else stop refusal)
  grant_lem id true refusal known e h = (known, sym e)
  grant_lem id false refusal known e h = inr (id, known, sym e, h)

  check_admin_lem :
      {P : Type 0} (passage : Passage P)
      → Admitted passage
      → Triple
          (At n s)
          (check_admin junk passage)
          (λ passage w. AdminAdmitted passage × At n s w)
          (At n s)
  unfolding check_admin
  check_admin_lem (stop r) admitted = Triple-pure (stop r) (λ w h. (inl admitted, h))
  check_admin_lem (next id) admitted =
      Triple-bind (is_admin id) _ (is_admin_lem id)
        λ b. Triple-pure _ (λ w h. (grant_lem id b _ admitted h.0 refl, h.1))

  admin_lem :
      (P : Type 0)
      → Triple
          (At n s)
          (admin {P = P} junk cookies)
          (λ passage w. AdminAdmitted passage × At n s w)
          (At n s)
  unfolding admin
  admin_lem P =
      Triple-bind (auth {P = P} junk cookies) _ (auth_lem P)
        λ passage. Triple-given _ λ admitted. check_admin_lem passage admitted

-- AdminMiddleware::use never changes the tables that the connection sees. If it throws nothing, it
-- lets the request through as the user `id` only if the request's session cookie names an
-- unexpired session of `id` whose row in users has is_admin set; it answers 401 only if there is
-- no such session, and 403 only if the session's user has no such row.
pub admin-AdminAdmitted :
    (P : Type 0) (junk : List ℕ) (cookies : List Cookie) (w : World Accounts)
    → Outcome
        (λ passage w'. AdminAdmitted junk cookies w.now w.tables passage × (w'.tables ≡ w.tables))
        (λ w'. w'.tables ≡ w.tables)
        (admin {P = P} junk cookies w)
admin-AdminAdmitted P junk cookies w =
    (Triple-weaken (admin {P = P} junk cookies) (λ w' h. h) (λ a w' h. (h.0, h.1.1)) (λ w' h. h.1)
        (admin_lem junk cookies w.now w.tables P)).at
      w (refl, refl)

-- The same of AuthMiddleware::use, without the test of is_admin.
pub auth-Admitted :
    (P : Type 0) (junk : List ℕ) (cookies : List Cookie) (w : World Accounts)
    → Outcome
        (λ passage w'. Admitted junk cookies w.now w.tables passage × (w'.tables ≡ w.tables))
        (λ w'. w'.tables ≡ w.tables)
        (auth {P = P} junk cookies w)
auth-Admitted P junk cookies w =
    (Triple-weaken (auth {P = P} junk cookies) (λ w' h. h) (λ a w' h. (h.0, h.1.1)) (λ w' h. h.1)
        (auth_lem junk cookies w.now w.tables P)).at
      w (refl, refl)
