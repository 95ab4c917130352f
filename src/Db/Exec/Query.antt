-- ===== src/Db/Exec/Query.antt =====
-- The rules of a statement for what does not depend on the transaction: the tables that this
-- connection sees, and the time.
use lisa_lashes_demo.Base.{ℕ, ◌+◌, ◌≡◌, refl, subst, Option, none, some, inl, inr, Bool-cases}
use lisa_lashes_demo.Db.Exec.{World, Exec, statement, statement_at, ◌>>=◌, answered}
use lisa_lashes_demo.Db.Exec.Triple.{
  Outcome, Triple, Triple-bind, Triple-weaken, Triple-statement-Idle, Idle,
}

module _ {S : Type 0} where
  abbrev pub At : ℕ → S → World S → Type 0
  At n t w = (w.now ≡ n) × (w.tables ≡ t)

  -- What a statement does to these tables.
  abbrev pub Answered : {A : Type 0} → ℕ → S → (S → Option (A × S)) → A → World S → Type 0
  Answered n t f a w = (t' : S) × (f t ≡ some (a, t')) × At n t' w

  answered-Outcome :
      {A : Type 0} (n : ℕ) (t : S) (w : World S) (o : Option (A × S))
      → At n t w
      → Outcome (λ a w'. (t' : S) × (o ≡ some (a, t')) × At n t' w') (At n t) (answered o w)
  unfolding answered
  answered-Outcome n t w none p = p
  answered-Outcome n t w (some (a, t')) p = (t', refl, (p.0, refl))

  statement-Outcome :
      {A : Type 0} (n : ℕ) (t : S) (f : S → Option (A × S)) (w : World S)
      → At n t w
      → Outcome (Answered n t f) (At n t) (statement f w)
  unfolding statement
  statement-Outcome n t f w p = elim (Bool-cases (w.fails w.clock)) [
    | inl down ↦ rw (down, statement) p
    | inr up ↦
        rw (up, statement, p.1)
          (answered-Outcome n t (record w { tables = t; clock = w.clock + 1 }) (f t) (p.0, refl))
  ]

  pub Triple-query :
      {A : Type 0} (n : ℕ) (t : S) (f : S → Option (A × S))
      → Triple (At n t) (statement f) (Answered n t f) (At n t)
  Triple-query n t f = record { at = statement-Outcome n t f }

  pub Triple-query-At :
      {A : Type 0} (n : ℕ) (t : S) (f : ℕ → S → Option (A × S))
      → Triple (At n t) (statement_at f) (Answered n t (f n)) (At n t)
  unfolding statement_at
  Triple-query-At n t f = record {
    at = λ w p.
        subst (λ m. Outcome (Answered n t (f m)) (At n t) (statement (f w.now) w)) p.0
          (statement-Outcome n t (f w.now) w p);
  }

  -- The same outside a transaction.
  pub Triple-query-Idle :
      {A : Type 0} (n : ℕ) (t : S) (f : ℕ → S → Option (A × S))
      → Triple
          (λ w. (w.now ≡ n) × Idle t w)
          (statement_at f)
          (λ a w. (t' : S) × (f n t ≡ some (a, t')) × Idle t' w)
          (Idle t)
  unfolding statement_at
  Triple-query-Idle n t f = record {
    at = λ w p.
        subst
          (λ m.
            Outcome (λ a w'. (t' : S) × (f m t ≡ some (a, t')) × Idle t' w') (Idle t)
              (statement (f w.now) w))
          p.0 ((Triple-statement-Idle t (f w.now)).at w p.1);
  }

module _ {S A B : Type 0} (n : ℕ) (t : S) {Q : B → World S → Type 0} {E : World S → Type 0}
    (idle : (w : World S) → At n t w → E w) where
  weakened :
      (m : Exec S A) (f : S → Option (A × S)) (k : A → Exec S B)
      → Triple (At n t) m (Answered n t f) (At n t)
      → ((a : A) (t' : S) → f t ≡ some (a, t') → Triple (At n t') (k a) Q E)
      → Triple (At n t) (m >>= k) Q E
  weakened m f k h next =
      Triple-bind m k (Triple-weaken m (λ w p. p) (λ a w q. q) idle h)
        λ a. record { at = λ w p. (next a p.0 p.1).at w p.2 }

  -- A statement and what follows it.
  pub Triple-ask :
      (f : S → Option (A × S)) (k : A → Exec S B)
      → ((a : A) (t' : S) → f t ≡ some (a, t') → Triple (At n t') (k a) Q E)
      → Triple (At n t) (statement f >>= k) Q E
  Triple-ask f k next = weakened (statement f) f k (Triple-query n t f) next

  pub Triple-ask-At :
      (f : ℕ → S → Option (A × S)) (k : A → Exec S B)
      → ((a : A) (t' : S) → f n t ≡ some (a, t') → Triple (At n t') (k a) Q E)
      → Triple (At n t) (statement_at f >>= k) Q E
  Triple-ask-At f k next = weakened (statement_at f) (f n) k (Triple-query-At n t f) next
