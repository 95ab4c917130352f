-- ===== src/Db/Pool/Sharing.antt =====
-- No connection is lost, made up or held by two guards.
use mathlib.Core.List.{Perm, Nodup, perm_middle, perm_append_comm, append_assoc}
use mathlib.Core.List.Perm
use mathlib.Core.Option
use lisa_lashes_demo.Base.{ℕ, zero, suc, ◌≡◌, refl, List, [], ◌∷◌, ◌++◌, Option, none, some}
use lisa_lashes_demo.Db.Pool.{
  PgPool, Thread, GuardAction, enter, leave, System, acquire, release, perform, step_thread, run,
}

unfoldable pub held : List Thread → List ℕ
held [] = []
held (t ∷ ts) = t.guards ++ held ts

-- Every connection, where it is now.
abbrev pub owned : System → List ℕ
owned s = s.0.available ++ held s.1

-- What a step that happened has kept.
abbrev Kept : System → Option System → Type 0
Kept s none = Unit
Kept s (some s') = Perm (owned s') (owned s)

abbrev Moved : List ℕ → List ℕ → Option (PgPool × Thread) → Type 0
Moved before rest none = Unit
Moved before rest (some s) = Perm (s.0.available ++ (s.1.guards ++ rest)) before

-- The connection that `acquire` takes goes from the front of the queue to the guard.
acquire-Moved :
    (available guards rest : List ℕ) (code : List GuardAction)
    → Moved
        (available ++ (guards ++ rest))
        rest
        (perform (record { available = available }) guards (enter ∷ code))
unfolding perform acquire
acquire-Moved [] guards rest code = tt
acquire-Moved (c ∷ available) guards rest code = perm_middle available (guards ++ rest)

perform-Moved :
    (p : PgPool) (guards rest : List ℕ) (code : List GuardAction)
    → Moved (p.available ++ (guards ++ rest)) rest (perform p guards code)
unfolding perform release
perform-Moved p guards rest [] = tt
perform-Moved p guards rest (enter ∷ code) = acquire-Moved p.available guards rest code
perform-Moved p [] rest (leave ∷ code) = tt
perform-Moved p (c ∷ guards) rest (leave ∷ code) = rw append_assoc (Perm.refl _)

first_Kept :
    (before : List ℕ) (ts : List Thread) (o : Option (PgPool × Thread)) (s : System)
    → owned s ≡ before
    → Moved before (held ts) o
    → Kept s (Option.map (λ r. (r.0, r.1 ∷ ts)) o)
unfolding held
first_Kept before ts none s e m = tt
first_Kept before ts (some r) s e m = rw e m

move_front : (a g h : List ℕ) → Perm (a ++ (g ++ h)) (g ++ (a ++ h))
move_front a g h =
    rw (← append_assoc a g h, ← append_assoc g a h)
      (Perm.append (perm_append_comm a g) (Perm.refl h))

later_Kept :
    (t : Thread) (p : PgPool) (ts : List Thread) (o : Option System)
    → Kept (p, ts) o
    → Kept (p, t ∷ ts) (Option.map (λ r. (r.0, t ∷ r.1)) o)
unfolding held
later_Kept t p ts none k = tt
later_Kept t p ts (some r) k = Perm.trans (move_front r.0.available t.guards (held r.1)) (
    Perm.trans (Perm.append (Perm.refl t.guards) k)
      (Perm.symm (move_front p.available t.guards (held ts))))

step_thread-Kept : (i : ℕ) (p : PgPool) (ts : List Thread) → Kept (p, ts) (step_thread i p ts)
unfolding step_thread
step_thread-Kept i p [] = tt
step_thread-Kept zero p (t ∷ ts) =
    first_Kept (p.available ++ (t.guards ++ held ts)) ts (perform p t.guards t.code) (p, t ∷ ts)
      (unfold held in refl) (perform-Moved p t.guards (held ts) t.code)
step_thread-Kept (suc i) p (t ∷ ts) =
    later_Kept t p ts (step_thread i p ts) (step_thread-Kept i p ts)

chosen_perm :
    (s : System) (o : Option System) → Kept s o → Perm (owned (Option.get_or o s)) (owned s)
chosen_perm s none k = Perm.refl _
chosen_perm s (some s') k = k

-- Whatever the schedule, the connections that are free or held are those of the start, each as
-- often.
pub owned-run-perm : (is : List ℕ) (s : System) → Perm (owned (run is s)) (owned s)
unfolding run
owned-run-perm [] s = Perm.refl _
owned-run-perm (i ∷ is) s =
    Perm.trans (owned-run-perm is _)
      (chosen_perm s (step_thread i s.0 s.1) (step_thread-Kept i s.0 s.1))

-- So no connection is ever held by two guards, or held while it is free.
pub owned-run-Nodup : (is : List ℕ) (s : System) → Nodup (owned s) → Nodup (owned (run is s))
owned-run-Nodup is s = Perm.nodup (Perm.symm (owned-run-perm is s))
