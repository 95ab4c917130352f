-- ===== src/Routes/Auth/Login.antt =====
-- PostLoginRoute opens a session only for the right password.
use lisa_lashes_demo.Base.{
  ℕ, ◌≡◌, refl, sym, ◌∙◌, ap, true, not, ◌||◌, Option, none, some, List, [], ◌∷◌, ◌⊎◌, inl, inr,
  arith, Done,
}
use lisa_lashes_demo.Base.Int.{ℤ}
use lisa_lashes_demo.Base.Text.{Text, text_eq}
use lisa_lashes_demo.Db.Exec.{ok, World, from_result, statement}
use lisa_lashes_demo.Db.Exec.Triple.{
  Outcome, Triple, Triple-pure, Triple-if, Triple-bind, Triple-given, Triple-weaken,
  Triple-try_catch, Triple-always, Triple-from_result,
}
use lisa_lashes_demo.Db.Exec.Query.{At, Triple-query}
use lisa_lashes_demo.Http.{Request, JsonLibrary, text_or_empty, has_fields}
use lisa_lashes_demo.Accounts.{PasswordLibrary, login_user, verified}
use lisa_lashes_demo.Accounts.Tables.{Accounts, UserRow, find_user, select_login}
use lisa_lashes_demo.Routes.Auth.{Reply, post_login_route, logged_in, reply}

-- The row that the query of loginUser gives first.
abbrev pub login_row : Text → Accounts → Option UserRow
login_row identifier s =
    find_user (λ u. text_eq u.phone identifier || text_eq u.address identifier) s.users

module _ {Json : Type 0} (json : JsonLibrary Json) (crypto : PasswordLibrary) (junk : List ℕ)
    (req : Request Json) (s : Accounts) where
  abbrev pub RightPassword : Type 0
  RightPassword =
      (identifier : Text) × (password : Text) × (u : UserRow) × (text_or_empty json req.body
          "identifier"
        ≡ ok identifier)
      × (text_or_empty json req.body "password" ≡ ok password)
      × (login_row identifier s ≡ some u)
      × (crypto.verify_password password u.password_hash ≡ true)

  -- The answer sets a cookie only after the right password.
  abbrev pub Guarded : Reply → Type 0
  Guarded r = (r.set_cookie ≡ none) ⊎ RightPassword

  verified_lem :
      (password : Text) (o : Option UserRow) (id : ℤ)
      → verified crypto password o ≡ some id
      → (u : UserRow) × (o ≡ some u) × (crypto.verify_password password u.password_hash ≡ true)
  verified_lem password none id h = absurd (ground arith)
  verified_lem password (some u) id h = (u, refl, ground arith)

  logged_in_lem :
      (token : Text) (id : Option ℤ)
      → ((z : ℤ) → id ≡ some z → RightPassword)
      → Triple (λ w. Done) (logged_in junk token id) (λ r w. Guarded r) (λ w. Done)
  unfolding logged_in reply
  logged_in_lem token none h = Triple-pure _ (λ w p. inl refl)
  logged_in_lem token (some z) h = Triple-always _ (λ r w. inr (h z refl)) (λ w. tt)

  select_login_lem :
      (identifier : Text) (o : Option UserRow) (s' : Accounts)
      → select_login identifier s ≡ some (o, s')
      → o ≡ login_row identifier s
  unfolding select_login
  select_login_lem identifier o s' e = ground arith

  login_user_lem :
      (n : ℕ) (identifier password : Text)
      → Triple
          (At n s)
          (login_user crypto identifier password)
          (λ id w. (id ≡ verified crypto password (login_row identifier s)) × Done)
          (λ w. Done)
  unfolding login_user
  login_user_lem n identifier password =
      Triple-bind (statement (select_login identifier)) _
        (Triple-weaken (statement (select_login identifier)) (λ w h. h)
          (λ o w h. select_login_lem identifier o h.0 h.1) (λ w h. tt)
          (Triple-query n s (select_login identifier)))
        λ o. Triple-pure _ (λ w e. (ap (verified crypto password) e, tt))

  post_login_lem :
      (n : ℕ) (token : Text)
      → Triple (At n s) (post_login_route json crypto junk token req) (λ r w. Guarded r) (λ w. ⊥)
  unfolding post_login_route reply
  post_login_lem n token =
      Triple-try_catch {F = λ w. Done} _ _
        (Triple-if (not (has_fields req.body ("identifier" ∷ "password" ∷ []))) _ _
          (λ e. Triple-pure _ (λ w h. inl refl))
          (λ e.
            Triple-bind (from_result (text_or_empty json req.body "identifier")) _
              (Triple-from_result
                {Q = λ i w. (text_or_empty json req.body "identifier" ≡ ok i) × At n s w} _
                (λ a w is h. (is, h)) (λ w h. tt))
              λ identifier. Triple-given _ λ is_identifier.
                Triple-bind (from_result (text_or_empty json req.body "password")) _
                  (Triple-from_result
                    {Q = λ i w. (text_or_empty json req.body "password" ≡ ok i) × At n s w} _
                    (λ a w is h. (is, h)) (λ w h. tt))
                  λ password. Triple-given _ λ is_password.
                    Triple-bind (login_user crypto identifier password) _
                      (login_user_lem n identifier password)
                      λ id. Triple-given _ λ found. logged_in_lem token id (λ z is.
                        let right =
                          verified_lem password (login_row identifier s) z (sym found ∙ is) in
                        (
                          identifier, password, right.0, is_identifier, is_password, right.1,
                          right.2,
                        ))))
        (λ e. Triple-pure _ (λ w h. inl refl))

-- PostLoginRoute always answers, whatever the statements, the conversions and the hashing do. The
-- answer sets no cookie, unless the request's body has an identifier that is
-- the phone or the address of a user and verify_password accepts the request's password for the
-- hash of the first such user.
pub post_login_route-Guarded :
    (Json : Type 0) (json : JsonLibrary Json) (crypto : PasswordLibrary) (junk : List ℕ)
    (token : Text) (req : Request Json) (w : World Accounts)
    → Outcome
        (λ r w'. Guarded json crypto junk req w.tables r)
        (λ w'. ⊥)
        (post_login_route json crypto junk token req w)
post_login_route-Guarded Json json crypto junk token req w =
    (post_login_lem json crypto junk req w.tables w.now token).at w (refl, refl)
