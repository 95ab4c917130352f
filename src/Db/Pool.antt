-- ===== src/Db/Pool.antt =====
-- back/db/pg_pool.h and pg_pool.cpp: PgPool and PgConnGuard, under threads that interleave at
-- `acquire` and `release`. A connection is its number. The mutex makes each of the two calls one
-- step; a thread that waits on the condition variable is one whose `acquire` cannot run yet.
pub mod Sharing
pub mod Deadlock
pub mod Progress
use mathlib.Core.Option
use lisa_lashes_demo.Base.{ℕ, zero, suc, ◌+◌, List, [], ◌∷◌, ◌++◌, Option, none, some}

-- The queue `available_`, front first.
pub record PgPool : Type 0 where
  pub available : List ℕ

pub connections : ℕ → ℕ → List ℕ
connections zero i = []
connections (suc n) i = i ∷ connections n (i + 1)

-- PgPool::PgPool
pub new_pool : ℕ → PgPool
unfolding connections
new_pool size = record { available = connections size 0 }

-- `none`: the wait goes on.
pub acquire : PgPool → Option (ℕ × PgPool)
acquire p = elim p.available [ [] ↦ none | conn ∷ rest ↦ some (conn, record { available = rest }) ]

pub release : PgPool → ℕ → PgPool
release p conn = record { available = p.available ++ conn ∷ [] }

-- A PgConnGuard comes into scope, or the innermost one goes out of scope.
pub data GuardAction : Type 0 where
  enter leave : GuardAction

-- A thread: the connections of its live guards, innermost first, and what it has still to do.
pub record Thread : Type 0 where
  pub guards : List ℕ
  pub code : List GuardAction

perform : PgPool → List ℕ → List GuardAction → Option (PgPool × Thread)
unfolding acquire release
perform p guards [] = none
perform p guards (enter ∷ code) = elim (acquire p) [
  | none ↦ none
  | some (conn, p') ↦ some (p', record { guards = conn ∷ guards; code = code })
]
perform p [] (leave ∷ code) = none
perform p (conn ∷ guards) (leave ∷ code) =
    some (release p conn, record { guards = guards; code = code })

abbrev pub System : Type 0
System = PgPool × List Thread

-- The i-th thread makes its next step, if it can.
pub step_thread : ℕ → PgPool → List Thread → Option System
unfolding perform
step_thread i p [] = none
step_thread zero p (t ∷ ts) = Option.map (λ s. (s.0, s.1 ∷ ts)) (perform p t.guards t.code)
step_thread (suc i) p (t ∷ ts) = Option.map (λ s. (s.0, t ∷ s.1)) (step_thread i p ts)

-- A schedule names the thread that goes next; one that waits is passed over.
pub run : List ℕ → System → System
unfolding step_thread
run [] s = s
run (i ∷ is) s = run is (Option.get_or (step_thread i s.0 s.1) s)

-- What the services do with guards. CartService::addToCart calls getOrCreateCart, and
-- updateQuantity calls getCartIdIfExists, while their own guard is alive.
pub add_to_cart_guards : List GuardAction
add_to_cart_guards = enter ∷ enter ∷ leave ∷ leave ∷ []

pub update_quantity_guards : List GuardAction
update_quantity_guards = enter ∷ enter ∷ leave ∷ leave ∷ []

-- BookingRepository::isFree, addBooking and getAvailableTimeSlots and CartService::checkout take
-- their own guard when the callee's is gone.
pub is_free_guards : List GuardAction
is_free_guards = enter ∷ leave ∷ enter ∷ leave ∷ []

pub add_booking_guards : List GuardAction
add_booking_guards = enter ∷ leave ∷ enter ∷ leave ∷ []

pub available_slots_guards : List GuardAction
available_slots_guards = enter ∷ leave ∷ enter ∷ leave ∷ []

pub checkout_guards : List GuardAction
checkout_guards = enter ∷ leave ∷ enter ∷ leave ∷ []
