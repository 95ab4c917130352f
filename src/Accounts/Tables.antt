-- ===== src/Accounts/Tables.antt =====
-- The tables users and sessions of docker/init.sql, and the SQL of back/services/
-- user_repository.cpp and session_repository.cpp. The rows of users are in the order of their ids.
-- `buyers` holds the users that rows of orders refer to, which have no ON DELETE action. Times are
-- in seconds. A key of the sequence that a refused INSERT uses up is not counted.
use mathlib.Core.Option
use lisa_lashes_demo.Base.{
  ℕ, ◌+◌, ◌*◌, Bool, false, not, ◌&&◌, ◌||◌, Option, none, some, List, [], ◌∷◌, ◌++◌, ltb, leb,
  if◌then◌else◌, select, Done,
}
use lisa_lashes_demo.Base.Int.{ℤ, pos, int_eq}
use lisa_lashes_demo.Base.Text.{Text, text_eq, is_empty}

pub record UserRow : Type 0 where
  pub id : ℤ
  pub first_name : Text
  pub last_name : Text
  pub phone : Text
  pub address : Text
  pub password_hash : Text
  pub is_admin : Bool

pub record Session : Type 0 where
  pub user_id : ℤ
  pub token_hash : Text
  pub expires_at : ℕ

pub record Accounts : Type 0 where
  pub users : List UserRow
  pub sessions : List Session
  pub buyers : List ℤ
  pub next_user : ℕ

unfoldable pub find_user : (UserRow → Bool) → List UserRow → Option UserRow
find_user p [] = none
find_user p (u ∷ us) = if p u then some u else find_user p us

unfoldable pub find_session : (Session → Bool) → List Session → Option Session
find_session p [] = none
find_session p (x ∷ xs) = if p x then some x else find_session p xs

unfoldable pub mentions : ℤ → List ℤ → Bool
mentions id [] = false
mentions id (x ∷ xs) = int_eq x id || mentions id xs

abbrev answer : {A : Type 0} → A → Accounts → Option (A × Accounts)
answer a s = some (a, s)

-- interval '24 hours'
abbrev pub session_seconds : ℕ
session_seconds = 24 * 60 * 60

abbrev pub new_session : ℤ → Text → ℕ → Session
new_session user_id token_hash now = record {
  user_id = user_id;
  token_hash = token_hash;
  expires_at = now + session_seconds;
}

-- INSERT INTO sessions: the user must exist, and token_hash is UNIQUE.
unfoldable pub insert_session : ℤ → Text → ℕ → Accounts → Option (Done × Accounts)
unfolding find_user find_session
insert_session user_id token_hash now s = elim (find_user (λ u. int_eq u.id user_id) s.users) [
  | none ↦ none
  | some u ↦ elim (find_session (λ x. text_eq x.token_hash token_hash) s.sessions) [
    | some old ↦ none
    | none ↦
        answer tt (record s { sessions = s.sessions ++ new_session user_id token_hash now ∷ [] })
  ]
]

abbrev pub live : Text → ℕ → Session → Bool
live token_hash now x = text_eq x.token_hash token_hash && ltb now x.expires_at

-- SELECT user_id FROM sessions WHERE token_hash=$1 AND expires_at>NOW()
unfoldable pub select_session : Text → ℕ → Accounts → Option (Option ℤ × Accounts)
unfolding find_session
select_session token_hash now s =
    answer (Option.map (λ (x : Session). x.user_id) (find_session (live token_hash now) s.sessions))
      s

-- DELETE FROM sessions WHERE token_hash=$1
unfoldable pub delete_session_row : Text → Accounts → Option (Done × Accounts)
delete_session_row token_hash s =
    answer tt
      (record s { sessions = select (λ x. not (text_eq x.token_hash token_hash)) s.sessions })

-- DELETE FROM sessions WHERE user_id=$1
unfoldable pub delete_user_sessions : ℤ → Accounts → Option (Done × Accounts)
delete_user_sessions user_id s =
    answer tt (record s { sessions = select (λ x. not (int_eq x.user_id user_id)) s.sessions })

-- DELETE FROM sessions WHERE expires_at <= NOW()
unfoldable pub delete_expired : ℕ → Accounts → Option (Done × Accounts)
delete_expired now s =
    answer tt (record s { sessions = select (λ x. not (leb x.expires_at now)) s.sessions })

-- DELETE FROM users WHERE id = $1; the user's sessions go with it, an order of the user forbids it.
unfoldable pub delete_user : ℤ → Accounts → Option (Done × Accounts)
unfolding mentions
delete_user id s =
    if mentions id s.buyers
    then none
    else answer tt (record s {
      users = select (λ u. not (int_eq u.id id)) s.users;
      sessions = select (λ x. not (int_eq x.user_id id)) s.sessions;
    })

-- INSERT INTO users ... RETURNING id; phone is UNIQUE.
unfoldable pub insert_user : UserRow → Accounts → Option (ℤ × Accounts)
unfolding find_user
insert_user row s = elim (find_user (λ u. text_eq u.phone row.phone) s.users) [
  | some u ↦ none
  | none ↦ answer (pos s.next_user) (record s {
    users = s.users ++ record row { id = pos s.next_user } ∷ [];
    next_user = s.next_user + 1;
  })
]

-- SELECT id, password_hash FROM users WHERE phone = $1 OR address = $1: its first row.
unfoldable pub select_login : Text → Accounts → Option (Option UserRow × Accounts)
unfolding find_user
select_login identifier s =
    answer (find_user (λ u. text_eq u.phone identifier || text_eq u.address identifier) s.users) s

-- SELECT ... FROM users ORDER BY id ASC
unfoldable pub select_users : Accounts → Option (List UserRow × Accounts)
select_users s = answer s.users s

-- SELECT is_admin FROM users WHERE id=$1
unfoldable pub select_is_admin : ℤ → Accounts → Option (Option Bool × Accounts)
unfolding find_user
select_is_admin id s =
    answer (Option.map (λ (u : UserRow). u.is_admin) (find_user (λ u. int_eq u.id id) s.users)) s

-- COALESCE(NULLIF(new, ''), old)
abbrev pub keep_if_empty : Text → Text → Text
keep_if_empty new old = if is_empty new then old else new

unfoldable pub changed : Text → Text → Text → Text → UserRow → UserRow
changed first last phone email u = record u {
  first_name = keep_if_empty first u.first_name;
  last_name = keep_if_empty last u.last_name;
  phone = keep_if_empty phone u.phone;
  address = keep_if_empty email u.address;
}

unfoldable pub change_user : ℤ → (UserRow → UserRow) → List UserRow → List UserRow
change_user id f [] = []
change_user id f (u ∷ us) = (if int_eq u.id id then f u else u) ∷ change_user id f us

-- UPDATE users SET ... WHERE id = $1; the phone of another user breaks the UNIQUE constraint.
unfoldable pub update_user_row : ℤ → Text → Text → Text → Text → Accounts → Option (Done × Accounts)
unfolding find_user change_user changed
update_user_row id first last phone email s =
    let updated = record s { users = change_user id (changed first last phone email) s.users } in
    elim (find_user (λ u. int_eq u.id id) s.users) [
      | none ↦ answer tt s
      | some old ↦
          elim (find_user
            (λ u. not (int_eq u.id id) && text_eq u.phone (keep_if_empty phone old.phone))
            s.users) [ some other ↦ none | none ↦ answer tt updated ]
    ]
