-- ===== src/Tests/Library.antt =====
-- SHA-256, the connection pool and the clock on concrete data.
use mathlib.Core.List.{Perm}
use lisa_lashes_demo.Base.{ℕ, ◌≡◌, ◌⊎◌, none, refl, [], ◌∷◌, replicate, arith}
use lisa_lashes_demo.Base.Int.{pos}
use lisa_lashes_demo.Base.Text.{bytes}
use lisa_lashes_demo.Crypt.Sha256.{sha256, to_string, revert_words}
use lisa_lashes_demo.Crypt.Sha256.Words.{state_words}
use lisa_lashes_demo.Crypt.Sha256.Padding.{hash_message}
use lisa_lashes_demo.Crypt.Sha256.Digest.{sha256-hash_message}
use lisa_lashes_demo.Db.Exec.{ok}
use lisa_lashes_demo.Db.Pool.{
  System, enter, leave, step_thread, run, new_pool, connections, add_to_cart_guards,
}
use lisa_lashes_demo.Db.Pool.Sharing.{owned, owned-run-perm}
use lisa_lashes_demo.Db.Pool.Deadlock.{fresh, waiting, add_to_cart_deadlock}
use lisa_lashes_demo.Db.Pool.Progress.{Finished, CanStep, run-progress}
use lisa_lashes_demo.Schedule.Clock.{to_mins, to_hhmm, to_char, to_mins-to_char}

sha256-hash_message_example :
    sha256 (replicate 64 7) (bytes "abc")
    ≡ to_string (revert_words (state_words (hash_message (bytes "abc"))))
sha256-hash_message_example = sha256-hash_message (replicate 64 7) (bytes "abc") refl

-- Two connections, and three threads in isFree.
abbrev three_threads : System
three_threads = (
  record { available = 0 ∷ 1 ∷ [] },
  fresh (enter ∷ leave ∷ enter ∷ leave ∷ [])
      ∷ fresh (enter ∷ leave ∷ enter ∷ leave ∷ [])
      ∷ fresh (enter ∷ leave ∷ [])
      ∷ [],
)

owned-run-perm_example :
    Perm (owned (run (0 ∷ 1 ∷ 2 ∷ 0 ∷ 2 ∷ []) three_threads)) (owned three_threads)
owned-run-perm_example = owned-run-perm (0 ∷ 1 ∷ 2 ∷ 0 ∷ 2 ∷ []) three_threads

run-progress_example :
    Finished (run (0 ∷ 1 ∷ 2 ∷ 0 ∷ []) three_threads)
    ⊎ CanStep (run (0 ∷ 1 ∷ 2 ∷ 0 ∷ []) three_threads)
run-progress_example =
    run-progress (0 ∷ 1 ∷ 2 ∷ 0 ∷ []) three_threads (tt, (tt, (tt, tt))) (λ e. ground arith)

add_to_cart_deadlock_example :
    (run (connections 2 0) (new_pool 2, fresh add_to_cart_guards ∷ fresh add_to_cart_guards ∷ [])
      ≡ (record { available = [] }, waiting 2 0))
    × ((i : ℕ)
        → step_thread i
            (run
              (connections 2 0)
              (new_pool 2, fresh add_to_cart_guards ∷ fresh add_to_cart_guards ∷ [])).0
            (run
              (connections 2 0)
              (new_pool 2, fresh add_to_cart_guards ∷ fresh add_to_cart_guards ∷ [])).1
          ≡ none)
add_to_cart_deadlock_example = add_to_cart_deadlock 2

to_mins-to_char_example :
    (to_mins (to_char 34259) ≡ ok (pos 570)) × (to_mins (to_hhmm (pos 570)) ≡ ok (pos 570))
to_mins-to_char_example = to_mins-to_char 34259 (omega arith)
