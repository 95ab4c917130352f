-- ===== src/Routes/Auth.antt =====
-- back/routes/auth_routes.cpp. The token of a new session, the salt of a password's hash and the
-- bytes that SHA256 finds in its block are arguments.
pub mod Login
pub mod Logout
use lisa_lashes_demo.Base.{
  ℕ, Bool, Option, none, some, List, [], ◌∷◌, ◌++◌, if◌then◌else◌, not, Done,
}
use lisa_lashes_demo.Base.Int.{ℤ, int_eq}
use lisa_lashes_demo.Base.Text.{Text, bytes, is_empty}
use lisa_lashes_demo.Db.Exec.{Exec, pure, from_result, ◌>>=◌, ◌>>◌, try_catch}
use lisa_lashes_demo.Http.{
  Request, Response, Body, message, payload, respond, JsonLibrary, query, session_token, int_of,
  text_or_empty, has_fields, status_ok, created, bad_request, unauthorized, not_found, conflict,
  internal_server_error,
}
use lisa_lashes_demo.Accounts.{
  PasswordLibrary, create_session, get_user_id_from_token, delete_session,
  delete_all_sessions_for_user, delete_expired_sessions, remove_user, register_user, login_user,
  get_all_users, update_user,
}
use lisa_lashes_demo.Accounts.Tables.{Accounts, UserRow, find_user}

-- GET /api/auth/me answers with one user, GET /api/users with all of them.
pub data Payload : Type 0 where
  me : UserRow → Payload
  users : List UserRow → Payload

abbrev pub Reply : Type 0
Reply = Response Payload

reply : ℕ → Body Payload → Exec Accounts Reply
reply status body = pure (respond status body)

abbrev server_failure : Exec Accounts Reply
server_failure = pure (respond internal_server_error (message "Internal server error"))

pub session_cookie : Text → Text
session_cookie token =
    bytes "session=" ++ token ++ bytes "; Path=/; HttpOnly; SameSite=Strict; Max-Age=86400"

abbrev pub cleared_cookie : Text
cleared_cookie = bytes "session=; Path=/; HttpOnly; SameSite=Strict; Secure; Max-Age=0"

abbrev with_cookie : Text → Reply → Reply
with_cookie cookie response = record response { set_cookie = some cookie }

registered : Option ℤ → Exec Accounts Reply
unfolding reply
registered none =
    reply conflict (message "Registration failed (phone or email may already be in use)")
registered (some id) = reply created (message "User registered successfully")

removed : Bool → Exec Accounts Reply
unfolding reply
removed ok =
    if ok
    then reply status_ok (message "User deleted successfully")
    else reply not_found (message "User not found or could not be deleted")

me_reply : Option UserRow → Exec Accounts Reply
unfolding reply
me_reply none = reply not_found (message "User not found")
me_reply (some u) = reply status_ok (payload (me u))

module _ (junk : List ℕ) where
  logged_in : Text → Option ℤ → Exec Accounts Reply
  unfolding reply session_cookie
  logged_in token none = reply unauthorized (message "Invalid credentials")
  logged_in token (some id) = do
    delete_expired_sessions
    token' ← create_session junk token id
    pure (with_cookie (session_cookie token') (respond status_ok (message "Login successful")))

  -- The sessions that PostLogoutRoute deletes.
  end_sessions : Text → Option ℤ → Exec Accounts Done
  end_sessions token (some id) = delete_all_sessions_for_user id
  end_sessions token none = delete_session junk token

  log_out : Text → Exec Accounts Done
  unfolding end_sessions
  log_out token =
      if is_empty token
      then pure tt
      else do user_id ← get_user_id_from_token junk token; end_sessions token user_id

  current_user : Option ℤ → Exec Accounts Reply
  unfolding reply me_reply
  current_user none = reply unauthorized (message "Invalid or expired session")
  current_user (some id) = do rows ← get_all_users; me_reply (find_user (λ u. int_eq u.id id) rows)

module _ {Json : Type 0} (json : JsonLibrary Json) (crypto : PasswordLibrary) (junk : List ℕ) where
  pub post_register_route : Text → Request Json → Exec Accounts Reply
  unfolding reply registered
  post_register_route salt req =
      try_catch
        (if not (has_fields req.body ("first_name" ∷ "last_name" ∷ "phone" ∷ "password" ∷ []))
          then reply bad_request (message "Missing required fields")
          else do
            first ← from_result (text_or_empty json req.body "first_name")
            last ← from_result (text_or_empty json req.body "last_name")
            phone ← from_result (text_or_empty json req.body "phone")
            password ← from_result (text_or_empty json req.body "password")
            email ← from_result (text_or_empty json req.body "email")
            id ← register_user crypto salt (record {
              first = first;
              last = last;
              email = email;
              phone = phone;
              password = password;
            })
            registered id)
        (λ e. server_failure)

  pub delete_user_route : Request Json → Exec Accounts Reply
  unfolding reply removed
  delete_user_route req =
      try_catch
        (if is_empty (query req "id")
          then reply bad_request (message "Missing user id")
          else do id ← from_result (int_of (query req "id")); ok ← remove_user id; removed ok)
        (λ e. server_failure)

  pub post_login_route : Text → Request Json → Exec Accounts Reply
  unfolding reply logged_in
  post_login_route token req =
      try_catch
        (if not (has_fields req.body ("identifier" ∷ "password" ∷ []))
          then reply bad_request (message "Missing identifier or password")
          else do
            identifier ← from_result (text_or_empty json req.body "identifier")
            password ← from_result (text_or_empty json req.body "password")
            id ← login_user crypto identifier password
            logged_in junk token id)
        (λ e. server_failure)

  pub post_logout_route : Request Json → Exec Accounts Reply
  unfolding log_out
  post_logout_route req =
      try_catch
        (do
          log_out junk (session_token req.cookies)
          pure (with_cookie cleared_cookie (respond status_ok (message "Logged out"))))
        (λ e. server_failure)

  pub get_me_route : Request Json → Exec Accounts Reply
  unfolding reply current_user
  get_me_route req =
      try_catch
        (if is_empty (session_token req.cookies)
          then reply unauthorized (message "Not authenticated")
          else do
            id ← get_user_id_from_token junk (session_token req.cookies)
            current_user junk id)
        (λ e. server_failure)

  pub get_users_route : Exec Accounts Reply
  get_users_route =
      try_catch (do rows ← get_all_users; pure (respond status_ok (payload (users rows))))
        (λ e. server_failure)

  pub put_user_route : Request Json → Exec Accounts Reply
  unfolding reply
  put_user_route req =
      try_catch
        (if is_empty (query req "id") then reply bad_request (message "Missing user id") else do
          id ← from_result (int_of (query req "id"))
          update_user json id req.body
          reply status_ok (message "User updated successfully"))
        (λ e. server_failure)
