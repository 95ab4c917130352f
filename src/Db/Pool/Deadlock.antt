-- ===== src/Db/Pool/Deadlock.antt =====
-- A guard inside a guard: as many threads as connections can wait for one another for ever.
use mathlib.Core.List.{append_assoc}
use mathlib.Core.Option
use lisa_lashes_demo.Base.{
  ℕ, zero, suc, ◌+◌, ◌≡◌, refl, sym, ap, ◌∙◌, List, [], ◌∷◌, ◌++◌, Option, none, some, arith,
  length, replicate, length-append,
}
use lisa_lashes_demo.Db.Pool.{
  PgPool, Thread, GuardAction, enter, leave, System, connections, new_pool, acquire, perform,
  step_thread, run, add_to_cart_guards,
}

abbrev pub fresh : List GuardAction → Thread
fresh code = record { guards = []; code = code }

-- Threads that hold the connections from `i` on, one each, and want a second one.
abbrev pub waiting : ℕ → ℕ → List Thread
waiting zero i = []
waiting (suc n) i =
    record { guards = i ∷ []; code = enter ∷ leave ∷ leave ∷ [] } ∷ waiting n (i + 1)

step_thread_at :
    (done : List Thread) (i : ℕ) (p : PgPool) (t : Thread) (ts : List Thread) (r : PgPool × Thread)
    → length done ≡ i
    → perform p t.guards t.code ≡ some r
    → step_thread i p (done ++ t ∷ ts) ≡ some (r.0, done ++ r.1 ∷ ts)
unfolding step_thread
step_thread_at [] zero p t ts r e h = rw h
step_thread_at [] (suc i) p t ts r e h = absurd (omega arith)
step_thread_at (d ∷ done) zero p t ts r e h = absurd (omega arith)
step_thread_at (d ∷ done) (suc i) p t ts r e h = rw (step_thread_at done i p t ts r (omega arith) h)

take_all_connections :
    (n i : ℕ) (done : List Thread)
    → length done ≡ i
    → run
        (connections n i)
        (record { available = connections n i }, done ++ replicate n (fresh add_to_cart_guards))
      ≡ (record { available = [] }, done ++ waiting n i)
unfolding run connections
take_all_connections zero i done e = refl
take_all_connections (suc n) i done e =
    let pool : PgPool = record { available = i ∷ connections n (i + 1) } in
    let next : PgPool = record { available = connections n (i + 1) } in
    let w : Thread = record { guards = i ∷ []; code = enter ∷ leave ∷ leave ∷ [] } in
    let rest = replicate n (fresh add_to_cart_guards) in
    let start = done ++ fresh add_to_cart_guards ∷ rest in
    let step =
      step_thread_at done i pool (fresh add_to_cart_guards) rest (next, w) e
        (unfold perform acquire add_to_cart_guards in refl) in
    ap (λ (o : Option System). run (connections n (i + 1)) (Option.get_or o (pool, start))) step
    ∙ ap (λ (ts : List Thread). run (connections n (i + 1)) (next, ts))
        (sym (append_assoc done (w ∷ []) rest))
    ∙ take_all_connections n (i + 1) (done ++ w ∷ [])
        (omega (arith, length-append {0} done (w ∷ [])))
    ∙ ap (λ (ts : List Thread). let s : System = (record { available = [] }, ts) in s)
        (append_assoc done (w ∷ []) (waiting n (i + 1)))

none_can_step : (n i j : ℕ) → step_thread i (record { available = [] }) (waiting n j) ≡ none
unfolding step_thread perform acquire
none_can_step zero i j = refl
none_can_step (suc n) zero j = refl
none_can_step (suc n) (suc i) j = rw (none_can_step n i (j + 1))

-- With a pool of n connections and n threads in addToCart, the schedule in which each thread
-- comes first to its own guard leads to a state in which no thread can step, though every thread
-- has still to take and return a connection.
pub add_to_cart_deadlock :
    (n : ℕ)
    → let s = run (connections n 0) (new_pool n, replicate n (fresh add_to_cart_guards)) in
      (s ≡ (record { available = [] }, waiting n 0)) × ((i : ℕ) → step_thread i s.0 s.1 ≡ none)
unfolding new_pool
add_to_cart_deadlock n =
    let reached = take_all_connections n 0 [] refl in
    (reached, λ i. ap (λ (s : System). step_thread i s.0 s.1) reached ∙ none_can_step n i 0)
