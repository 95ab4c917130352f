-- ===== src/Accounts/Password.antt =====
-- back/crypt/password.cpp, for the functions of Argon2 that it calls.
use lisa_lashes_demo.Base.{
  length, ℕ, ◌≡◌, refl, ap, sym, ◌∙◌, Bool, true, false, [], ◌∷◌, ◌++◌, ◌==◌, if◌then◌else◌, All,
  arith, Bool-cases, inl, inr,
}
use lisa_lashes_demo.Base.Int.{ℤ, pos, int_eq, int_eq_sound}
use lisa_lashes_demo.Base.Text.{Text}
use lisa_lashes_demo.Db.Exec.{Result, ok, throw, runtime_error, hashing_failed}
use lisa_lashes_demo.Accounts.{PasswordLibrary}

-- argon2id_hash_encoded gives a code and the bytes that it leaves in a buffer of the length that
-- argon2_encodedlen gives; argon2id_verify gives a code.
pub record Argon2 : Type 0 where
  pub encoded_length : ℕ → ℕ → ℕ → ℕ → ℕ → ℕ
  pub hash_encoded : ℕ → ℕ → ℕ → Text → Text → ℕ → ℕ → ℤ × Text
  pub verify : Text → Text → ℤ

abbrev t_cost : ℕ
t_cost = 3

abbrev m_cost : ℕ
m_cost = 65536

abbrev parallelism : ℕ
parallelism = 1

abbrev hash_len : ℕ
hash_len = 32

abbrev salt_len : ℕ
salt_len = 16

-- The text without a null byte at its end.
unfoldable pub stripped : Text → Text
stripped [] = []
stripped (c ∷ []) = if c == 0 then [] else c ∷ []
stripped (c ∷ d ∷ t) = c ∷ stripped (d ∷ t)

-- `c_str()` as a C function reads it.
c_string : Text → Text
c_string [] = []
c_string (c ∷ t) = let rest = c_string t in if c == 0 then [] else c ∷ rest

unfoldable pub hashed : ℤ × Text → Result Text
unfolding stripped
hashed (code, encoded) =
    if int_eq code (pos 0)
    then ok (stripped encoded)
    else throw (runtime_error (hashing_failed code))

module _ (argon2 : Argon2) where
  -- `salt` is what arc4random_buf gives, salt_len bytes.
  unfoldable pub hash_password : Text → Text → Result Text
  unfolding hashed
  hash_password salt password = hashed (
      argon2.hash_encoded t_cost m_cost parallelism password salt hash_len
        (argon2.encoded_length t_cost m_cost parallelism salt_len hash_len))

  verify_password : Text → Text → Bool
  unfolding c_string
  verify_password password stored_hash =
      int_eq (argon2.verify (c_string stored_hash) password) (pos 0)

  unfoldable pub password_library : PasswordLibrary
  unfolding hash_password verify_password
  password_library = record { hash_password = hash_password; verify_password = verify_password }

abbrev NoNull : Text → Type 0
NoNull = All (λ c. (c == 0) ≡ false)

-- argon2id_hash_encoded with a buffer of the length that argon2_encodedlen gives for the same lengths
-- leaves a C string that fills it, which argon2id_verify accepts for the password.
pub record Verifies (argon2 : Argon2) : Type 0 where
  pub accepts :
      (t m p : ℕ) (password salt : Text) (hash_length : ℕ) (buffer : Text)
      → argon2.hash_encoded t m p password salt hash_length
          (argon2.encoded_length t m p (length salt) hash_length)
        ≡ (pos 0, buffer)
      → (encoded : Text) × (buffer ≡ encoded ++ 0 ∷ [])
        × All (λ c. (c == 0) ≡ false) encoded
        × (argon2.verify encoded password ≡ pos 0)

stripped-append : (t : Text) → stripped (t ++ 0 ∷ []) ≡ t
unfolding stripped
stripped-append [] = refl
stripped-append (c ∷ []) = refl
stripped-append (c ∷ d ∷ t) = ap (◌∷◌ c) (stripped-append (d ∷ t))

c_string_lem : (t : Text) → NoNull t → c_string t ≡ t
unfolding c_string
c_string_lem [] h = refl
c_string_lem (c ∷ t) (first, h) = rw (first, c_string_lem t h) refl

hashed_lem :
    (code : ℤ) (buffer hash : Text)
    → hashed (code, buffer) ≡ ok hash
    → (code ≡ pos 0) × (stripped buffer ≡ hash)
unfolding hashed
hashed_lem code buffer hash h = elim (Bool-cases (int_eq code (pos 0))) [
  | inl e ↦ (int_eq_sound code (pos 0) e, ground arith)
  | inr e ↦ absurd (ground arith)
]

-- A password is accepted for its hash.
pub verify_password-hash_password :
    (argon2 : Argon2) (salt password hash : Text)
    → Verifies argon2
    → length salt ≡ 16
    → (password_library argon2).hash_password salt password ≡ ok hash
    → (password_library argon2).verify_password password hash ≡ true
unfolding password_library hash_password verify_password
verify_password-hash_password argon2 salt password hash v l h =
    let answer =
      argon2.hash_encoded 3 65536 1 password salt 32 (argon2.encoded_length 3 65536 1 16 32) in
    let parts = hashed_lem answer.0 answer.1 hash h in
    let made = v.accepts 3 65536 1 password salt 32 answer.1 (
      ap
        (λ (n : ℕ).
          argon2.hash_encoded 3 65536 1 password salt 32 (argon2.encoded_length 3 65536 1 n 32))
        l
      ∙ ap (λ (code : ℤ). (code, answer.1)) parts.0) in
    let same : hash ≡ made.0 = sym parts.1 ∙ ap stripped made.1 ∙ stripped-append made.0 in
    ap (λ (t : Text). int_eq (argon2.verify t password) (pos 0))
      (ap c_string same ∙ c_string_lem made.0 made.2)
    ∙ ap (λ (code : ℤ). int_eq code (pos 0)) made.3
