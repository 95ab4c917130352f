-- ===== src/Accounts/Uniqueness.antt =====
-- Sessions with different token_hashes, as the UNIQUE of the schema keeps them: what a deletion
-- leaves of a token.
use lisa_lashes_demo.Base.{
  ℕ, ◌≡◌, refl, subst, ap, ◌∙◌, Bool, true, false, not, Option, none, some, List, [], ◌∷◌, arith,
  ltb, select, keep, Bool-cases, inl, inr,
}
use lisa_lashes_demo.Base.Int.{int_eq, int_eq_refl}
use lisa_lashes_demo.Base.Text.{Text, text_eq, text_eq_sound}
use lisa_lashes_demo.Accounts.Tables.{Session, find_session, live}

abbrev pub has_hash : Text → Session → Bool
has_hash hash x = text_eq x.token_hash hash

abbrev pub HashesDistinct : List Session → Type 0
HashesDistinct [] = Unit
HashesDistinct (x ∷ xs) = (find_session (has_hash x.token_hash) xs ≡ none) × HashesDistinct xs

-- A row that is not found is not found among fewer rows.
find_session-select :
    (p q : Session → Bool) (xs : List Session)
    → find_session p xs ≡ none
    → find_session p (select q xs) ≡ none
unfolding find_session
find_session-select p q [] h = refl
find_session-select p q (x ∷ xs) h = let ih = find_session-select p q xs in ground arith

-- A row that the hash does not find is not found by the hash and the time.
find_session-live :
    (hash : Text) (n : ℕ) (xs : List Session)
    → find_session (has_hash hash) xs ≡ none
    → find_session (live hash n) xs ≡ none
unfolding find_session
find_session-live hash n [] h = refl
find_session-live hash n (x ∷ xs) h = let ih = find_session-live hash n xs in ground arith

skip_keep :
    (p : Session → Bool) (b : Bool) (x : Session) (xs : List Session)
    → p x ≡ false
    → find_session p (keep b x xs) ≡ find_session p xs
unfolding find_session
skip_keep p true x xs h = rw h refl
skip_keep p false x xs h = refl

not_both : {A : Type 0} {o : Option A} (a : A) → o ≡ none → o ≡ some a → ⊥
not_both a h k = cc

some_is : {A : Type 0} (a b : A) → some a ≡ some b → a ≡ b
some_is a b e = cc

-- The row that the hash finds is the only one with that hash: without the rows of its user, no row
-- has it.
pub find_session-of_user :
    (hash : Text) (n m : ℕ) (xs : List Session) (x : Session)
    → HashesDistinct xs
    → find_session (live hash n) xs ≡ some x
    → find_session (live hash m) (select (λ y. not (int_eq y.user_id x.user_id)) xs) ≡ none
unfolding find_session
find_session-of_user hash n m [] x d e = refl
find_session-of_user hash n m (y ∷ ys) x (new, d) e =
    let user = λ (z : Session). not (int_eq z.user_id x.user_id) in
    elim (Bool-cases (has_hash hash y)) [
      | inr other ↦
          skip_keep (live hash m) (user y) y (select user ys) (rw other refl)
          ∙ find_session-of_user hash n m ys x d (ground arith)
      | inl same ↦
          let alone : find_session (has_hash hash) ys ≡ none =
            subst (λ (t : Text). find_session (has_hash t) ys ≡ none)
              (text_eq_sound y.token_hash hash same) new in
          elim (Bool-cases (ltb n y.expires_at)) [
            | inr past ↦ absurd (not_both x (find_session-live hash n ys alone) (ground arith))
            | inl alive ↦
                let first : y ≡ x = some_is y x (ground arith) in
                ap (λ (b : Bool). find_session (live hash m) (keep (not b) y (select user ys)))
                  (ap (λ (z : Session). int_eq z.user_id x.user_id) first ∙ int_eq_refl x.user_id)
                ∙ find_session-live hash m (select user ys)
                    (find_session-select (has_hash hash) user ys alone)
          ]
    ]

pub find_session-of_hash :
    (hash : Text) (m : ℕ) (xs : List Session)
    → find_session (live hash m) (select (λ y. not (text_eq y.token_hash hash)) xs) ≡ none
unfolding find_session
find_session-of_hash hash m [] = refl
find_session-of_hash hash m (y ∷ ys) = let ih = find_session-of_hash hash m ys in ground arith
