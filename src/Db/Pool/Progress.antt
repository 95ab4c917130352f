-- ===== src/Db/Pool/Progress.antt =====
-- Guards that are not nested: some thread can always go on.
use mathlib.Core.List.{Perm}
use mathlib.Core.List.Perm
use mathlib.Core.Option
use lisa_lashes_demo.Base.{
  ℕ, zero, suc, ◌≡◌, ◌≢◌, refl, subst, ◌⊎◌, inl, inr, List, [], ◌∷◌, ◌++◌, Option, none, some, All,
}
use lisa_lashes_demo.Db.Pool.{
  PgPool, Thread, GuardAction, enter, leave, System, acquire, perform, step_thread, run,
}
use lisa_lashes_demo.Db.Pool.Sharing.{held, owned, owned-run-perm}

-- Each guard is gone before the next one comes.
abbrev pub Flat : List GuardAction → Type 0
Flat [] = Unit
Flat (enter ∷ leave ∷ code) = Flat code
Flat _ = ⊥

abbrev pub FlatCode : List ℕ → List GuardAction → Type 0
FlatCode [] code = Flat code
FlatCode (c ∷ []) (leave ∷ code) = Flat code
FlatCode _ _ = ⊥

abbrev pub IsFlat : Thread → Type 0
IsFlat t = FlatCode t.guards t.code

abbrev AllFlat : Option System → Type 0
AllFlat none = Unit
AllFlat (some s) = All IsFlat s.1

abbrev OneFlat : Option (PgPool × Thread) → Type 0
OneFlat none = Unit
OneFlat (some s) = IsFlat s.1

acquire-OneFlat :
    (available : List ℕ) (code : List GuardAction)
    → Flat code
    → OneFlat (perform (record { available = available }) [] (enter ∷ leave ∷ code))
unfolding perform acquire
acquire-OneFlat [] code h = tt
acquire-OneFlat (c ∷ available) code h = h

perform-OneFlat :
    (p : PgPool) (guards : List ℕ) (code : List GuardAction)
    → FlatCode guards code
    → OneFlat (perform p guards code)
unfolding perform
perform-OneFlat p [] [] h = tt
perform-OneFlat p [] (enter ∷ []) h = absurd h
perform-OneFlat p [] (enter ∷ enter ∷ code) h = absurd h
perform-OneFlat p [] (enter ∷ leave ∷ code) h = acquire-OneFlat p.available code h
perform-OneFlat p [] (leave ∷ code) h = absurd h
perform-OneFlat p (c ∷ []) [] h = absurd h
perform-OneFlat p (c ∷ []) (enter ∷ code) h = absurd h
perform-OneFlat p (c ∷ []) (leave ∷ code) h = h
perform-OneFlat p (c ∷ d ∷ guards) code h = absurd h

first-AllFlat :
    (ts : List Thread) (o : Option (PgPool × Thread))
    → OneFlat o
    → All IsFlat ts
    → AllFlat (Option.map (λ r. (r.0, r.1 ∷ ts)) o)
first-AllFlat ts none h hs = tt
first-AllFlat ts (some r) h hs = (h, hs)

later-AllFlat :
    (t : Thread) (o : Option System)
    → IsFlat t
    → AllFlat o
    → AllFlat (Option.map (λ r. (r.0, t ∷ r.1)) o)
later-AllFlat t none h hs = tt
later-AllFlat t (some r) h hs = (h, hs)

step_thread-AllFlat :
    (i : ℕ) (p : PgPool) (ts : List Thread) → All IsFlat ts → AllFlat (step_thread i p ts)
unfolding step_thread
step_thread-AllFlat i p [] h = tt
step_thread-AllFlat zero p (t ∷ ts) h =
    first-AllFlat ts _ (perform-OneFlat p t.guards t.code h.0) h.1
step_thread-AllFlat (suc i) p (t ∷ ts) h = later-AllFlat t _ h.0 (step_thread-AllFlat i p ts h.1)

chosen-AllFlat :
    (s : System) (o : Option System) → All IsFlat s.1 → AllFlat o → All IsFlat (Option.get_or o s).1
chosen-AllFlat s none h k = h
chosen-AllFlat s (some s') h k = k

run-AllFlat : (is : List ℕ) (s : System) → All IsFlat s.1 → All IsFlat (run is s).1
unfolding run
run-AllFlat [] s h = h
run-AllFlat (i ∷ is) s h = run-AllFlat is _ (chosen-AllFlat s _ h (step_thread-AllFlat i s.0 s.1 h))

-- Some thread can make its next step.
abbrev pub CanStep : System → Type 0
CanStep s = (i : ℕ) × (s' : System) × (step_thread i s.0 s.1 ≡ some s')

abbrev pub Finished : System → Type 0
Finished s = All (λ t. t.code ≡ []) s.1

later_CanStep : (p : PgPool) (t : Thread) (ts : List Thread) → CanStep (p, ts) → CanStep (p, t ∷ ts)
unfolding step_thread
later_CanStep p t ts (i, s', e) = (suc i, (s'.0, t ∷ s'.1), rw e)

first_CanStep :
    (p : PgPool) (t : Thread) (ts : List Thread) (r : PgPool × Thread)
    → perform p t.guards t.code ≡ some r
    → CanStep (p, t ∷ ts)
unfolding step_thread
first_CanStep p t ts r e = (0, (r.0, r.1 ∷ ts), rw e)

perform_free :
    (c : ℕ) (cs : List ℕ) (guards : List ℕ) (code : List GuardAction)
    → FlatCode guards code
    → (code ≡ [])
      ⊎ ((r : PgPool × Thread) × (perform (record { available = c ∷ cs }) guards code ≡ some r))
unfolding perform acquire
perform_free c cs [] [] h = inl refl
perform_free c cs [] (enter ∷ code) h = inr (_, refl)
perform_free c cs [] (leave ∷ code) h = absurd h
perform_free c cs (d ∷ []) [] h = absurd h
perform_free c cs (d ∷ []) (enter ∷ code) h = absurd h
perform_free c cs (d ∷ []) (leave ∷ code) h = inr (_, refl)
perform_free c cs (d ∷ e ∷ guards) code h = absurd h

-- With a free connection, the first thread that is not done goes on.
free_CanStep :
    (c : ℕ) (cs : List ℕ) (ts : List Thread)
    → All IsFlat ts
    → Finished (record { available = c ∷ cs }, ts) ⊎ CanStep (record { available = c ∷ cs }, ts)
free_CanStep c cs [] h = inl tt
free_CanStep c cs (t ∷ ts) h = elim (perform_free c cs t.guards t.code h.0) [
  | inr (r, e) ↦ inr (first_CanStep _ t ts r e)
  | inl done ↦ elim (free_CanStep c cs ts h.1) [
    | inl finished ↦ inl (done, finished)
    | inr can ↦ inr (later_CanStep _ t ts can)
  ]
]

-- Without one, a thread that holds a connection gives it back.
perform_held :
    (p : PgPool) (c : ℕ) (guards : List ℕ) (code : List GuardAction)
    → FlatCode (c ∷ guards) code
    → (r : PgPool × Thread) × (perform p (c ∷ guards) code ≡ some r)
unfolding perform
perform_held p c [] [] h = absurd h
perform_held p c [] (enter ∷ code) h = absurd h
perform_held p c [] (leave ∷ code) h = (_, refl)
perform_held p c (d ∷ guards) code h = absurd h

held_head :
    (p : PgPool) (guards : List ℕ) (code : List GuardAction) (ts : List Thread)
    → FlatCode guards code
    → guards ++ held ts ≢ []
    → (held ts ≢ [] → CanStep (p, ts))
    → CanStep (p, record { guards = guards; code = code } ∷ ts)
held_head p [] code ts h some_held later = later_CanStep p _ ts (later some_held)
held_head p (c ∷ guards) code ts h some_held later =
    let (r, e) = perform_held p c guards code h in first_CanStep p _ ts r e

held-CanStep : (p : PgPool) (ts : List Thread) → All IsFlat ts → held ts ≢ [] → CanStep (p, ts)
unfolding held
held-CanStep p [] h some_held = absurd (some_held refl)
held-CanStep p (t ∷ ts) h some_held =
    held_head p t.guards t.code ts h.0 some_held (held-CanStep p ts h.1)

progress :
    (available : List ℕ) (ts : List Thread)
    → All IsFlat ts
    → available ++ held ts ≢ []
    → Finished (record { available = available }, ts)
      ⊎ CanStep (record { available = available }, ts)
progress [] ts h some_owned = inr (held-CanStep _ ts h some_owned)
progress (c ∷ cs) ts h some_owned = free_CanStep c cs ts h

-- Where no thread nests its guards and the pool has a connection, no schedule leads to a
-- deadlock: all threads are done, or one of them can step.
pub run-progress :
    (is : List ℕ) (s : System)
    → All IsFlat s.1
    → owned s ≢ []
    → Finished (run is s) ⊎ CanStep (run is s)
run-progress is s h some_owned =
    progress (run is s).0.available (run is s).1 (run-AllFlat is s h) (λ e.
      some_owned (Perm.eq-nil (subst (λ l. Perm (owned s) l) e (Perm.symm (owned-run-perm is s)))))
