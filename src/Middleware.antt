-- ===== src/Middleware.antt =====
-- src/middleware/auth.cpp, auth_protected.cpp and admin_auth.cpp: what `use` returns. `next` is
-- true with req.userId set, `stop` is false with the response that was ended.
pub mod Access
use lisa_lashes_demo.Base.{ℕ, Bool, Option, none, some, List, if◌then◌else◌}
use lisa_lashes_demo.Base.Int.{ℤ}
use lisa_lashes_demo.Base.Text.{Text, is_empty}
use lisa_lashes_demo.Db.Exec.{Exec, pure, ◌>>=◌}
use lisa_lashes_demo.Http.{
  Cookie, Response, Body, no_body, message, respond, session_token, found, unauthorized, forbidden,
}
use lisa_lashes_demo.Accounts.{get_user_id_from_token, is_admin}
use lisa_lashes_demo.Accounts.Tables.{Accounts}

pub data Passage (P : Type 0) : Type 0 where
  next : ℤ → Passage P
  stop : Response P → Passage P

module _ {P : Type 0} (junk : List ℕ) where
  abbrev to_user : Response P → Option ℤ → Passage P
  to_user refusal none = stop refusal
  to_user refusal (some id) = next id

  abbrev redirect : Response P
  redirect = record { status = found; body = no_body; set_cookie = none; location = some "/login" }

  -- AuthMiddleware::use
  pub auth : List Cookie → Exec Accounts (Passage P)
  unfolding session_token
  auth cookies =
      let token = session_token cookies in
      if is_empty token
      then pure (stop (respond unauthorized (message "Not authenticated")))
      else do
        user_id ← get_user_id_from_token junk token
        pure (to_user (respond unauthorized (message "Invalid session")) user_id)

  -- ProtectedMiddleware::use
  pub protected : List Cookie → Exec Accounts (Passage P)
  unfolding session_token
  protected cookies =
      let token = session_token cookies in
      if is_empty token
      then pure (stop redirect)
      else do user_id ← get_user_id_from_token junk token; pure (to_user redirect user_id)

  -- What AdminMiddleware::use does after AuthMiddleware::use.
  check_admin : Passage P → Exec Accounts (Passage P)
  check_admin (stop response) = pure (stop response)
  check_admin (next user_id) = do
    granted ← is_admin user_id
    pure (if granted then next user_id else stop (respond forbidden no_body))

  -- AdminMiddleware::use
  pub admin : List Cookie → Exec Accounts (Passage P)
  unfolding auth check_admin
  admin cookies = do passage ← auth cookies; check_admin passage
