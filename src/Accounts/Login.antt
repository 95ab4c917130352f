-- ===== src/Accounts/Login.antt =====
-- Who has registered can log in.
use lisa_lashes_demo.Base.{
  length, ℕ, ◌≡◌, refl, ap, subst, ◌∙◌, true, false, ◌||◌, Option, none, some, List, [], ◌∷◌, ◌++◌,
  arith, All, Bool-cases, inl, inr,
}
use lisa_lashes_demo.Base.Int.{ℤ}
use lisa_lashes_demo.Base.Text.{Text, text_eq, text_eq_refl}
use lisa_lashes_demo.Db.Exec.{World, ok, from_result, statement, ◌>>=◌}
use lisa_lashes_demo.Db.Exec.Triple.{
  Outcome, Triple, Triple-pure, Triple-bind, Triple-from_result, Triple-try_catch,
}
use lisa_lashes_demo.Db.Exec.Query.{At, Triple-ask}
use lisa_lashes_demo.Accounts.{
  PasswordLibrary, User, user_row, some_id, register_user, login_user, verified,
}
use lisa_lashes_demo.Accounts.Tables.{UserRow, Accounts, find_user, insert_user, select_login}
use lisa_lashes_demo.Accounts.Password.{
  Argon2, Verifies, password_library, verify_password-hash_password,
}

insert_user_lem :
    (row : UserRow) (id : ℤ) (s s' : Accounts)
    → insert_user row s ≡ some (id, s')
    → (s'.users ≡ s.users ++ record row { id = id } ∷ [])
      × (find_user (λ u. text_eq u.phone row.phone) s.users ≡ none)
unfolding insert_user
insert_user_lem row id s s' h = (ground arith, ground arith)

find_user-append :
    (identifier : Text) (users : List UserRow) (row : UserRow)
    → find_user (λ u. text_eq u.phone identifier) users ≡ none
    → All (λ u. text_eq u.address identifier ≡ false) users
    → text_eq row.phone identifier ≡ true
    → find_user
        (λ u. text_eq u.phone identifier || text_eq u.address identifier)
        (users ++ row ∷ [])
      ≡ some row
unfolding find_user
find_user-append identifier [] row h a e = rw e refl
find_user-append identifier (u ∷ us) row h (first, a) e =
    elim (Bool-cases (text_eq u.phone identifier)) [
      | inl same ↦ absurd (ground arith)
      | inr other ↦
          let rest : find_user (λ v. text_eq v.phone identifier) us ≡ none = ground arith in
          rw (other, first) (find_user-append identifier us row rest a e)
    ]

module _ (crypto : PasswordLibrary) (salt : Text) (user : User) where
  -- The row of the user, with the hash of the password.
  abbrev Registered : ℤ → Accounts → Accounts → Type 0
  Registered id s t =
      (hash : Text) × (crypto.hash_password salt user.password ≡ ok hash)
      × (t.users ≡ s.users ++ record (user_row user hash) { id = id } ∷ [])
      × (find_user (λ u. text_eq u.phone user.phone) s.users ≡ none)

  Answered : Accounts → Option ℤ → World Accounts → Type 0
  Answered s r w = (id : ℤ) → r ≡ some id → Registered id s w.tables

  nobody : (s : Accounts) (w : World Accounts) → Answered s none w
  unfolding Answered
  nobody s w id e = absurd (ground arith)

  somebody :
      (s : Accounts) (id : ℤ) (w : World Accounts)
      → Registered id s w.tables
      → Answered s (some id) w
  unfolding Answered
  somebody s id w h id' e =
      let same : id ≡ id' = ground arith in subst (λ i. Registered i s w.tables) same h

  register_user_lem :
      (n : ℕ) (s : Accounts)
      → Triple (At n s) (register_user crypto salt user) (Answered s) (λ w. Unit)
  unfolding register_user some_id
  register_user_lem n s =
      Triple-try_catch {F = λ w. Unit} _ _
        (Triple-bind {Q = λ hash w. (crypto.hash_password salt user.password ≡ ok hash) × At n s w}
          (from_result (crypto.hash_password salt user.password)) _
          (Triple-from_result (crypto.hash_password salt user.password) (λ hash w e p. (e, p))
            (λ w p. tt))
          (λ hash. record { at = λ w p. (inserted hash p.0).at w p.1 }))
        (λ e. Triple-pure none (λ w p. nobody s w))
    where
      inserted :
          (hash : Text)
          → crypto.hash_password salt user.password ≡ ok hash
          → Triple
              (At n s)
              (statement (insert_user (user_row user hash)) >>= λ id. some_id id)
              (Answered s)
              (λ w. Unit)
      inserted hash e =
          Triple-ask n s (λ w p. tt) (insert_user (user_row user hash)) _
            λ id s' f.
              let new = insert_user_lem (user_row user hash) id s s' f in
              Triple-pure (some id) (λ w p.
                somebody s id w (hash, e, ap (λ (t : Accounts). t.users) p.1 ∙ new.0, new.1))

  login_user_lem :
      (password : Text) (row : UserRow) (n : ℕ) (s : Accounts)
      → find_user (λ u. text_eq u.phone user.phone || text_eq u.address user.phone) s.users
        ≡ some row
      → crypto.verify_password password row.password_hash ≡ true
      → Triple
          (At n s)
          (login_user crypto user.phone password)
          (λ r w. (r ≡ some row.id) × (w.tables ≡ s))
          (λ w. w.tables ≡ s)
  unfolding login_user select_login
  login_user_lem password row n s found e =
      Triple-ask n s (λ w p. p.1) (select_login user.phone) _
        λ o s' f.
          let there : o ≡ some row = ground arith in
          let same : s' ≡ s = ground arith in
          Triple-pure _ (λ w p. (ap (verified crypto password) there ∙ rw e refl, p.1 ∙ same))

-- A user whom registerUser gave an id, with a salt of 16 bytes, logs in by the phone number and the
-- password and gets that id, or loginUser throws if its statement is refused, on tables with the
-- same users. No user before has the phone number as an email address. Neither changes a table on
-- log in.
pub register_user-login_user :
    (argon2 : Argon2) (salt : Text) (user : User) (id : ℤ) (w w' w'' : World Accounts)
    → Verifies argon2
    → length salt ≡ 16
    → All (λ u. text_eq u.address user.phone ≡ false) w.tables.users
    → register_user (password_library argon2) salt user w ≡ (ok (some id), w')
    → w''.tables.users ≡ w'.tables.users
    → Outcome
        (λ r v. (r ≡ some id) × (v.tables ≡ w''.tables))
        (λ v. v.tables ≡ w''.tables)
        (login_user (password_library argon2) user.phone user.password w'')
unfolding Answered
register_user-login_user argon2 salt user id w w' w'' v l others e same =
    let crypto = password_library argon2 in
    let answered =
      subst (Outcome (Answered crypto salt user w.tables) (λ x. Unit)) e
        ((register_user_lem crypto salt user w.now w.tables).at w (refl, refl)) in
    let registered = answered id refl in
    let row = record (user_row user registered.0) { id = id } in
    let found =
      ap (find_user (λ u. text_eq u.phone user.phone || text_eq u.address user.phone))
        (same ∙ registered.2)
      ∙ find_user-append user.phone w.tables.users row registered.3 others
          (text_eq_refl user.phone) in
    (login_user_lem crypto salt user user.password row w''.now w''.tables found
        (verify_password-hash_password argon2 salt user.password registered.0 v l registered.1)).at
      w'' (refl, refl)
