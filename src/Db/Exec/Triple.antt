-- ===== src/Db/Exec/Triple.antt =====
-- What holds after an action, by how it ended, and the rules for each way to build an action. In a
-- transaction, `t₀` is what the other connections see and `t` what this one has made of it.
use lisa_lashes_demo.Base.{
  ◌+◌, ◌≡◌, refl, subst, Bool, true, false, Option, none, some, arith, if◌then◌else◌, inl, inr,
  Bool-cases, Done,
}
use lisa_lashes_demo.Db.Exec.{
  Exception, Result, ok, throw, World, Exec, pure, raise, or_raise, statement, ◌>>=◌, ◌>>◌,
  try_rethrow, try_catch, from_result, begin, commit, rollback, committed, send, answered,
}

module _ {S A : Type 0} where
  abbrev pub Outcome : (A → World S → Type 0) → (World S → Type 0) → Result A × World S → Type 0
  Outcome Q E (ok a, w) = Q a w
  Outcome Q E (throw e, w) = E w

  pub record Triple (P : World S → Type 0) (m : Exec S A) (Q : A → World S → Type 0)
      (E : World S → Type 0) : Type 0 where
    pub at : (w : World S) → P w → Outcome Q E (m w)

module _ {S A : Type 0} (Q : A → World S → Type 0) (E : World S → Type 0) where
  rethrow_Outcome :
      (handler : Exec S Done)
      → ((w : World S) → E w → E (handler w).1)
      → (body : Exec S A) (w : World S) (r : Result A × World S) → body w ≡ r
      → Outcome Q E r
      → Outcome Q E (try_rethrow body handler w)
  unfolding try_rethrow
  rethrow_Outcome handler h body w (ok a, w') e o = rw (e, try_rethrow) o
  rethrow_Outcome handler h body w (throw x, w') e o = rw (e, try_rethrow) (h w' o)

  bind_Outcome :
      {B : Type 0} (R : B → World S → Type 0) (m : Exec S A) (f : A → Exec S B)
      → ((a : A) → Triple (Q a) (f a) R E)
      → (w : World S) (r : Result A × World S) → m w ≡ r
      → Outcome Q E r
      → Outcome R E ((m >>= f) w)
  unfolding ◌>>=◌
  bind_Outcome R m f h w (ok a, w') e o = rw (e, ◌>>=◌) ((h a).at w' o)
  bind_Outcome R m f h w (throw x, w') e o = rw (e, ◌>>=◌) o

module _ {S A : Type 0} {P E : World S → Type 0} where
  pub Triple-pure :
      {Q : A → World S → Type 0} (a : A) → ((w : World S) → P w → Q a w) → Triple P (pure a) Q E
  Triple-pure a h = record { at = h }

  pub Triple-raise :
      {Q : A → World S → Type 0} (e : Exception)
      → ((w : World S) → P w → E w)
      → Triple P (raise e) Q E
  Triple-raise e h = record { at = h }

  pub Triple-or_raise :
      {Q : A → World S → Type 0} (o : Option A) (e : Exception)
      → ((a : A) (w : World S) → o ≡ some a → P w → Q a w)
      → ((w : World S) → P w → E w)
      → Triple P (or_raise o e) Q E
  Triple-or_raise none e h k = record { at = k }
  Triple-or_raise (some a) e h k = record { at = λ w p. h a w refl p }

  pub Triple-if :
      {Q : A → World S → Type 0} (b : Bool) (m n : Exec S A)
      → (b ≡ true → Triple P m Q E)
      → (b ≡ false → Triple P n Q E)
      → Triple P (if b then m else n) Q E
  Triple-if true m n hm hn = hm refl
  Triple-if false m n hm hn = hn refl

  pub Triple-try_rethrow :
      {Q : A → World S → Type 0} (body : Exec S A) (handler : Exec S Done)
      → Triple P body Q E
      → ((w : World S) → E w → E (handler w).1)
      → Triple P (try_rethrow body handler) Q E
  Triple-try_rethrow {Q} body handler t h = record {
    at = λ w p. rethrow_Outcome Q E handler h body w (body w) refl (t.at w p);
  }

module _ {S A : Type 0} (Q : A → World S → Type 0) (E F : World S → Type 0) where
  handled-Outcome :
      (handler : Exception → Exec S A)
      → ((e : Exception) → Triple F (handler e) Q E)
      → (body : Exec S A) (w : World S) (r : Result A × World S) → body w ≡ r
      → Outcome Q F r
      → Outcome Q E (try_catch body handler w)
  unfolding try_catch
  handled-Outcome handler h body w (ok a, w') e o = rw (e, try_catch) o
  handled-Outcome handler h body w (throw x, w') e o = rw (e, try_catch) ((h x).at w' o)

  always-Outcome :
      ((a : A) (w : World S) → Q a w)
      → ((w : World S) → E w)
      → (r : Result A × World S) → Outcome Q E r
  always-Outcome hq he (ok a, w) = hq a w
  always-Outcome hq he (throw e, w) = he w

module _ {S A : Type 0} {P E : World S → Type 0} where
  -- `F` holds where the body throws.
  pub Triple-try_catch :
      {Q : A → World S → Type 0} {F : World S → Type 0} (body : Exec S A)
      (handler : Exception → Exec S A)
      → Triple P body Q F
      → ((e : Exception) → Triple F (handler e) Q E)
      → Triple P (try_catch body handler) Q E
  Triple-try_catch {Q} {F} body handler t h = record {
    at = λ w p. handled-Outcome Q E F handler h body w (body w) refl (t.at w p);
  }

  -- What holds in every world holds after every action.
  pub Triple-always :
      {Q : A → World S → Type 0} (m : Exec S A)
      → ((a : A) (w : World S) → Q a w)
      → ((w : World S) → E w)
      → Triple P m Q E
  Triple-always {Q} m hq he = record { at = λ w p. always-Outcome Q E E hq he (m w) }

  pub Triple-from_result :
      {Q : A → World S → Type 0} (r : Result A)
      → ((a : A) (w : World S) → r ≡ ok a → P w → Q a w)
      → ((w : World S) → P w → E w)
      → Triple P (from_result r) Q E
  Triple-from_result (ok a) h k = record { at = λ w p. h a w refl p }
  Triple-from_result (throw e) h k = record { at = k }

module _ {S A B : Type 0} {P E : World S → Type 0} where
  pub Triple-bind :
      {Q : A → World S → Type 0} {R : B → World S → Type 0} (m : Exec S A) (f : A → Exec S B)
      → Triple P m Q E
      → ((a : A) → Triple (Q a) (f a) R E)
      → Triple P (m >>= f) R E
  Triple-bind {Q} {R} m f hm hf = record {
    at = λ w p. bind_Outcome Q E R m f hf w (m w) refl (hm.at w p);
  }

  pub Triple-then :
      {Q : A → World S → Type 0} {R : B → World S → Type 0} (m : Exec S A) (k : Exec S B)
      → Triple P m Q E
      → ((a : A) → Triple (Q a) k R E)
      → Triple P (m >> k) R E
  unfolding ◌>>◌
  Triple-then m k hm hk = Triple-bind m (λ _. k) hm hk

module _ {S : Type 0} where
  -- Outside and inside a transaction.
  abbrev pub Idle : S → World S → Type 0
  Idle t w = (w.saved ≡ none) × (w.tables ≡ t)

  abbrev pub InTransaction : S → S → World S → Type 0
  InTransaction t₀ t w = (w.saved ≡ some t₀) × (w.tables ≡ t)

  -- The other connections still see `t₀`.
  abbrev pub Unchanged : S → World S → Type 0
  Unchanged t₀ w = committed w ≡ t₀

  pub Triple-begin : (t₀ : S) → Triple (Idle t₀) begin (λ _. InTransaction t₀ t₀) (Unchanged t₀)
  unfolding begin send
  Triple-begin t₀ = record { at = λ w p. ground arith }

  pub Triple-commit : (t₀ t : S) → Triple (InTransaction t₀ t) commit (λ _. Idle t) (Unchanged t₀)
  unfolding commit send
  Triple-commit t₀ t = record { at = λ w p. ground arith }

  pub rollback-Unchanged : (t₀ : S) (w : World S) → Unchanged t₀ w → Unchanged t₀ (rollback w).1
  unfolding rollback send
  rollback-Unchanged t₀ w h = ground arith

  answered-Outcome :
      {A : Type 0} (t₀ t : S) (w : World S) (o : Option (A × S))
      → InTransaction t₀ t w
      → Outcome
          (λ a w'. (t' : S) × (o ≡ some (a, t')) × InTransaction t₀ t' w')
          (Unchanged t₀)
          (answered o w)
  unfolding answered
  answered-Outcome t₀ t w none p = ground arith
  answered-Outcome t₀ t w (some (a, t')) p = (t', refl, (p.0, refl))

  pub Triple-statement :
      {A : Type 0} (t₀ t : S) (f : S → Option (A × S))
      → Triple
          (InTransaction t₀ t)
          (statement f)
          (λ a w. (t' : S) × (f t ≡ some (a, t')) × InTransaction t₀ t' w)
          (Unchanged t₀)
  unfolding statement
  Triple-statement t₀ t f = record {
    at = λ w p. elim (Bool-cases (w.fails w.clock)) [
      | inl down ↦ rw (down, statement) (ground arith)
      | inr up ↦
          rw (up, statement, p.1)
            (answered-Outcome t₀ t (record w { tables = t; clock = w.clock + 1 }) (f t) (p.0, refl))
    ];
  }

  Idle-Outcome :
      {A : Type 0} (t : S) (w : World S) (o : Option (A × S))
      → Idle t w
      → Outcome (λ a w'. (t' : S) × (o ≡ some (a, t')) × Idle t' w') (Idle t) (answered o w)
  unfolding answered
  Idle-Outcome t w none p = p
  Idle-Outcome t w (some (a, t')) p = (t', refl, (p.0, refl))

  -- Outside a transaction a statement takes effect at once, or not at all.
  pub Triple-statement-Idle :
      {A : Type 0} (t : S) (f : S → Option (A × S))
      → Triple (Idle t) (statement f) (λ a w. (t' : S) × (f t ≡ some (a, t')) × Idle t' w) (Idle t)
  unfolding statement
  Triple-statement-Idle t f = record {
    at = λ w p. elim (Bool-cases (w.fails w.clock)) [
      | inl down ↦ rw (down, statement) (ground arith)
      | inr up ↦
          rw (up, statement, p.1)
            (Idle-Outcome t (record w { tables = t; clock = w.clock + 1 }) (f t) (p.0, refl))
    ];
  }

  pub Unchanged-Idle : (t : S) (w : World S) → Idle t w → Unchanged t w
  Unchanged-Idle t w p = ground arith

  pub Unchanged-InTransaction : (t₀ t : S) (w : World S) → InTransaction t₀ t w → Unchanged t₀ w
  Unchanged-InTransaction t₀ t w p = ground arith

module _ {S A : Type 0} where
  -- A weaker or stronger description of the same action.
  weaken_Outcome :
      (Q Q' : A → World S → Type 0) (E E' : World S → Type 0)
      → ((a : A) (w : World S) → Q a w → Q' a w)
      → ((w : World S) → E w → E' w)
      → (r : Result A × World S) → Outcome Q E r
      → Outcome Q' E' r
  weaken_Outcome Q Q' E E' hq he (ok a, w) o = hq a w o
  weaken_Outcome Q Q' E E' hq he (throw e, w) o = he w o

  pub Triple-weaken :
      {P P' E E' : World S → Type 0} {Q Q' : A → World S → Type 0} (m : Exec S A)
      → ((w : World S) → P' w → P w)
      → ((a : A) (w : World S) → Q a w → Q' a w)
      → ((w : World S) → E w → E' w)
      → Triple P m Q E
      → Triple P' m Q' E'
  Triple-weaken {E} {E'} {Q} {Q'} m hp hq he t = record {
    at = λ w p. weaken_Outcome Q Q' E E' hq he (m w) (t.at w (hp w p));
  }

  -- A fact in the precondition may be used to prove the rest.
  pub Triple-given :
      {F : Type 0} {P E : World S → Type 0} {Q : A → World S → Type 0} (m : Exec S A)
      → (F → Triple P m Q E)
      → Triple (λ w. F × P w) m Q E
  Triple-given m h = record { at = λ w p. (h p.0).at w p.1 }

  -- What the action starts from may be a fact beside the state.
  pub Triple-exists :
      {B : Type 0} {P : B → World S → Type 0} {E : World S → Type 0} {Q : A → World S → Type 0}
      (m : Exec S A)
      → ((b : B) → Triple (P b) m Q E)
      → Triple (λ w. (b : B) × P b w) m Q E
  Triple-exists m h = record { at = λ w p. (h p.0).at w p.1 }

module _ {S A B : Type 0} (t₀ t : S) {Q : B → World S → Type 0} (f : S → Option (A × S)) where
  -- A statement in a transaction, and what follows it.
  pub Triple-step_any :
      (k : A → Exec S B)
      → ((a : A) (t' : S)
          → f t ≡ some (a, t')
          → Triple (InTransaction t₀ t') (k a) Q (Unchanged t₀))
      → Triple (InTransaction t₀ t) (statement f >>= k) Q (Unchanged t₀)
  Triple-step_any k h =
      Triple-bind (statement f) k (Triple-statement t₀ t f)
        λ a. record { at = λ w p. (h a p.0 p.1).at w p.2 }

  -- The same for a statement whose answer is known.
  pub Triple-step :
      (a : A) (t' : S) (k : A → Exec S B)
      → f t ≡ some (a, t')
      → Triple (InTransaction t₀ t') (k a) Q (Unchanged t₀)
      → Triple (InTransaction t₀ t) (statement f >>= k) Q (Unchanged t₀)
  Triple-step a t' k e h = Triple-step_any k λ b t'' e'.
      let eq : a ≡ b = cc in
      let eq' : t' ≡ t'' = cc in
      subst (λ x. Triple (InTransaction t₀ t'') (k x) Q (Unchanged t₀)) eq
        (subst (λ x. Triple (InTransaction t₀ x) (k a) Q (Unchanged t₀)) eq' h)

  pub Triple-step_then :
      (a : A) (t' : S) (k : Exec S B)
      → f t ≡ some (a, t')
      → Triple (InTransaction t₀ t') k Q (Unchanged t₀)
      → Triple (InTransaction t₀ t) (statement f >> k) Q (Unchanged t₀)
  unfolding ◌>>◌
  Triple-step_then a t' k e h = Triple-step a t' (λ _. k) e h

module _ {S : Type 0} (t₀ : S) where
  pub Triple-rollback : Triple (Unchanged t₀) rollback (λ _. Unchanged t₀) (Unchanged t₀)
  unfolding rollback send
  Triple-rollback = record { at = λ w p. ground arith }

  -- `conn->rollback(); throw e;`
  pub Triple-rollback-raise :
      {A : Type 0} (t : S) (e : Exception) {Q : A → World S → Type 0}
      → Triple (InTransaction t₀ t) (rollback >> raise e) Q (Unchanged t₀)
  Triple-rollback-raise t e =
      Triple-then rollback (raise e)
        (record { at = λ w p. Triple-rollback.at w (Unchanged-InTransaction t₀ t w p) })
        (λ _. Triple-raise e (λ w h. h))
