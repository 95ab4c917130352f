-- ===== src/Tests/Register.antt =====
-- A run of the theorem on registration and login.
use lisa_lashes_demo.Base.{
  suc, ◌≡◌, ◌==◌, refl, ap, sym, true, false, some, [], ◌∷◌, ◌++◌, map, replicate, if◌then◌else◌,
  All, arith,
}
use lisa_lashes_demo.Base.Int.{ℤ, pos, negsuc}
use lisa_lashes_demo.Base.Text.{Text, bytes, text_eq, text_eq_refl}
use lisa_lashes_demo.Db.Exec.{World, statement, try_catch, ◌>>=◌}
use lisa_lashes_demo.Db.Exec.Triple.{Outcome}
use lisa_lashes_demo.Accounts.{User, register_user, some_id, login_user}
use lisa_lashes_demo.Accounts.Tables.{UserRow, Accounts, insert_user, find_user}
use lisa_lashes_demo.Accounts.Password.{
  Argon2, Verifies, password_library, hash_password, hashed, stripped,
}
use lisa_lashes_demo.Accounts.Login.{register_user-login_user}
use lisa_lashes_demo.Tests.Data.{world}

-- A hash that has no null byte.
abbrev shifted : Argon2
shifted = record {
  encoded_length = λ t m p salt_length hash_length. 100;
  hash_encoded = λ t m p password salt hash_length length. (pos 0, map suc password ++ 0 ∷ []);
  verify = λ encoded password. if text_eq encoded (map suc password) then pos 0 else negsuc 34;
}

shifted_no_null : (t : Text) → All (λ c. (c == 0) ≡ false) (map suc t)
shifted_no_null [] = tt
shifted_no_null (c ∷ t) = (ground arith, shifted_no_null t)

shifted-Verifies : Verifies shifted
shifted-Verifies = record {
  accepts = λ t m p password salt hash_length buffer h. (
    map suc password,
    sym (ap (λ (x : ℤ × Text). x.1) h),
    shifted_no_null password,
    rw (text_eq_refl (map suc password)) refl,
  );
}

abbrev other : UserRow
other = record {
  id = pos 1;
  first_name = bytes "Ann";
  last_name = bytes "Lee";
  phone = bytes "1";
  address = bytes "ann@b";
  password_hash = [];
  is_admin = true;
}

abbrev eve : User
eve = record {
  first = bytes "Eve";
  last = bytes "Fox";
  email = [];
  phone = bytes "2";
  password = bytes "key";
}

abbrev before : World Accounts
before = world (record { users = other ∷ []; sessions = []; buyers = []; next_user = 2 })

abbrev after : World Accounts
after = record before {
  tables = record {
    users =
        other
        ∷ record {
          id = pos 2;
          first_name = bytes "Eve";
          last_name = bytes "Fox";
          phone = bytes "2";
          address = [];
          password_hash = map suc (bytes "key");
          is_admin = false;
        }
        ∷ [];
    sessions = [];
    buyers = [];
    next_user = 3;
  };
  clock = 1;
}

register_user-login_user_example :
    Outcome
      (λ r v. (r ≡ some (pos 2)) × (v.tables ≡ after.tables))
      (λ v. v.tables ≡ after.tables)
      (login_user (password_library shifted) (bytes "2") (bytes "key") after)
unfolding register_user some_id try_catch ◌>>=◌ statement insert_user find_user password_library
    hash_password hashed stripped text_eq
register_user-login_user_example =
    register_user-login_user shifted (replicate 16 7) eve (pos 2) before after after
      shifted-Verifies refl (refl, tt) refl refl
