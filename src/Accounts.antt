-- ===== src/Accounts.antt =====
-- back/services/user_repository.cpp and session_repository.cpp: the methods of UserRepository and
-- SessionRepository. The functions of back/crypt/password.cpp, for which Password has an
-- implementation, and brewtils::uuid::v4 are parameters.
pub mod Tables
pub mod Password
pub mod Login
pub mod Sessions
pub mod Uniqueness
use lisa_lashes_demo.Base.{
  ℕ, Bool, true, false, Option, none, some, List, [], ◌∷◌, if◌then◌else◌, Done,
}
use lisa_lashes_demo.Base.Int.{ℤ, pos}
use lisa_lashes_demo.Base.Text.{Text, is_empty}
use lisa_lashes_demo.Crypt.Sha256.{sha256}
use lisa_lashes_demo.Db.Exec.{
  Result, Exec, pure, statement, statement_at, from_result, ◌>>=◌, ◌>>◌, try_catch,
}
use lisa_lashes_demo.Http.{JsonLibrary, text_or_empty}
use Tables.{
  UserRow, Accounts, insert_session, select_session, delete_session_row, delete_user_sessions,
  delete_expired, delete_user, insert_user, select_login, select_users, select_is_admin,
  update_user_row,
}

-- struct User
pub record User : Type 0 where
  pub first : Text
  pub last : Text
  pub email : Text
  pub phone : Text
  pub password : Text

-- crypto::hash_password, which draws a salt and may throw, and crypto::verify_password.
pub record PasswordLibrary : Type 0 where
  pub hash_password : Text → Text → Result Text
  pub verify_password : Text → Text → Bool

-- SHA256 leaves bytes of its block unwritten at first; `junk` is what they hold.
module _ (junk : List ℕ) where
  -- The token is what generateToken() returned.
  unfoldable pub create_session : Text → ℤ → Exec Accounts Text
  create_session token user_id = do
    statement_at (insert_session user_id (sha256 junk token))
    pure token

  unfoldable pub get_user_id_from_token : Text → Exec Accounts (Option ℤ)
  get_user_id_from_token token = statement_at (select_session (sha256 junk token))

  unfoldable pub delete_session : Text → Exec Accounts Done
  delete_session token = statement (delete_session_row (sha256 junk token))

unfoldable pub delete_all_sessions_for_user : ℤ → Exec Accounts Done
delete_all_sessions_for_user user_id = statement (delete_user_sessions user_id)

unfoldable pub delete_expired_sessions : Exec Accounts Done
delete_expired_sessions = statement_at delete_expired

unfoldable pub remove_user : ℤ → Exec Accounts Bool
remove_user id = try_catch (statement (delete_user id) >> pure true) (λ e. pure false)

abbrev pub user_row : User → Text → UserRow
user_row user hash = record {
  id = pos 0;
  first_name = user.first;
  last_name = user.last;
  phone = user.phone;
  address = if is_empty user.email then [] else user.email;
  password_hash = hash;
  is_admin = false;
}

unfoldable pub some_id : ℤ → Exec Accounts (Option ℤ)
some_id id = pure (some id)

module _ (crypto : PasswordLibrary) where
  unfoldable pub register_user : Text → User → Exec Accounts (Option ℤ)
  unfolding some_id
  register_user salt user =
      try_catch
        (do
          hash ← from_result (crypto.hash_password salt user.password)
          id ← statement (insert_user (user_row user hash))
          some_id id)
        (λ e. pure none)

  abbrev pub verified : Text → Option UserRow → Option ℤ
  verified password none = none
  verified password (some u) =
      if crypto.verify_password password u.password_hash then some u.id else none

  unfoldable pub login_user : Text → Text → Exec Accounts (Option ℤ)
  login_user identifier password = do
    row ← statement (select_login identifier)
    pure (verified password row)

unfoldable pub get_all_users : Exec Accounts (List UserRow)
get_all_users = statement select_users

abbrev pub granted : Option Bool → Bool
granted none = false
granted (some b) = b

unfoldable pub is_admin : ℤ → Exec Accounts Bool
is_admin id = do row ← statement (select_is_admin id); pure (granted row)

pub update_user : {Json : Type 0} → JsonLibrary Json → ℤ → List (Text × Json) → Exec Accounts Done
update_user json id object = do
  first_name ← from_result (text_or_empty json object "first_name")
  last_name ← from_result (text_or_empty json object "last_name")
  phone ← from_result (text_or_empty json object "phone")
  email ← from_result (text_or_empty json object "email")
  statement (update_user_row id first_name last_name phone email)
