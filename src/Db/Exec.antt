-- ===== src/Db/Exec.antt =====
-- back/db/pgconnect.cpp: `exec` and `exec_params` as a service sees them, with C++ exceptions and
-- one transaction on the connection. `S` is the part of the database that the service works on,
-- as its SQL statements describe it. The server is a parameter: the field `fails` says which of
-- the statements that are sent it answers with an error, and such a statement changes nothing.
pub mod Triple
pub mod Query
pub mod Zoom
use mathlib.Core.Option
use lisa_lashes_demo.Base.{ℕ, ◌+◌, String, Bool, Option, none, some, if◌then◌else◌, Done}
use lisa_lashes_demo.Base.Int.{ℤ}

-- The texts that `what()` of an exception holds; numbers in a text are arguments.
pub data Message : Type 0 where
  server_error : Message
  text : String → Message
  not_enough_stock : ℤ → ℤ → Message
  no_longer_exists : ℤ → Message
  insufficient_stock : ℤ → ℤ → ℤ → Message
  hashing_failed : ℤ → Message

pub data Exception : Type 0 where
  invalid_argument out_of_range runtime_error : Message → Exception

pub data Result (A : Type 0) : Type 0 where
  ok : A → Result A
  throw : Exception → Result A

pub record World (S : Type 0) : Type 0 where
  pub tables : S
  pub saved : Option S
  pub clock : ℕ
  pub fails : ℕ → Bool
  pub now : ℕ

abbrev pub Exec : Type 0 → Type 0 → Type 0
Exec S A = World S → Result A × World S

module _ {S A : Type 0} where
  abbrev pub pure : A → Exec S A
  pure a w = (ok a, w)

  abbrev pub raise : Exception → Exec S A
  raise e w = (throw e, w)

  abbrev pub from_result : Result A → Exec S A
  from_result r w = (r, w)

  abbrev pub or_raise : Option A → Exception → Exec S A
  or_raise none e = raise e
  or_raise (some a) e = pure a

  answered : Option (A × S) → World S → Result A × World S
  answered none w = (throw (runtime_error server_error), w)
  answered (some (a, t)) w = (ok a, record w { tables = t })

  -- One SQL statement; it may refuse by a constraint (`none`).
  unfoldable pub statement : (S → Option (A × S)) → Exec S A
  unfolding answered
  statement f w =
      let w' = record w { clock = w.clock + 1 } in
      if w.fails w.clock then (throw (runtime_error server_error), w') else answered (f w.tables) w'

  -- The statements read the time of the transaction.
  unfoldable pub statement_at : (ℕ → S → Option (A × S)) → Exec S A
  unfolding statement
  statement_at f w = statement (f w.now) w

module _ {S A B : Type 0} where
  abbrev pub continue : Result A × World S → (A → Exec S B) → Result B × World S
  continue (ok a, w) f = f a w
  continue (throw e, w) f = (throw e, w)

  infixl 5 ◌>>=◌ ◌>>◌
  unfoldable pub ◌>>=◌ : Exec S A → (A → Exec S B) → Exec S B
  ◌>>=◌ m f w = continue (m w) f

  unfoldable pub ◌>>◌ : Exec S A → Exec S B → Exec S B
  unfolding ◌>>=◌
  m >> k = m >>= λ _. k

module _ {S A : Type 0} where
  abbrev rethrow : Exec S Done → Result A × World S → Result A × World S
  rethrow handler (ok a, w) = (ok a, w)
  rethrow handler (throw e, w) = (throw e, (handler w).1)

  -- `try { body } catch (e) { try { handler } catch (...) {} throw; }`
  unfoldable pub try_rethrow : Exec S A → Exec S Done → Exec S A
  try_rethrow body handler w = rethrow handler (body w)

module _ {S A : Type 0} where
  abbrev handled : (Exception → Exec S A) → Result A × World S → Result A × World S
  handled handler (ok a, w) = (ok a, w)
  handled handler (throw e, w) = handler e w

  -- `try { body } catch (const std::exception &e) { handler }`
  unfoldable pub try_catch : Exec S A → (Exception → Exec S A) → Exec S A
  try_catch body handler w = handled handler (body w)

module _ {S : Type 0} where
  send : World S → World S → Result Done × World S
  send sent done =
      if sent.fails sent.clock
      then (throw (runtime_error server_error), record sent { clock = sent.clock + 1 })
      else (ok tt, record done { clock = sent.clock + 1 })

  -- PgConnection::begin, commit and rollback. A ROLLBACK outside a transaction is a warning.
  unfoldable pub begin : Exec S Done
  unfolding send
  begin w = send w (record w { saved = some (Option.get_or w.saved w.tables) })

  unfoldable pub commit : Exec S Done
  unfolding send
  commit w = send w (record w { saved = none })

  unfoldable pub rollback : Exec S Done
  unfolding send
  rollback w = send w (record w { tables = Option.get_or w.saved w.tables; saved = none })

  -- What the other connections see.
  abbrev pub committed : World S → S
  committed w = Option.get_or w.saved w.tables
