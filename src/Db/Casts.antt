-- ===== src/Db/Casts.antt =====
-- The conversions that PostgreSQL makes for the SQL of back/services, which are parameters of the
-- model. Dates are days and times of day are seconds from a fixed origin, instants (TIMESTAMPTZ) are
-- seconds; `none` is an input that the server refuses.
use lisa_lashes_demo.Base.{ℕ, Option}
use lisa_lashes_demo.Base.Text.{Text}
use lisa_lashes_demo.Base.Int.{ℤ}

pub record Casts : Type 0 where
  -- ::date, ::time and ::timestamp
  pub to_date : Text → Option ℕ
  pub to_time : Text → Option ℕ
  pub to_timestamp : Text → Option ℕ
  -- to_char(date, 'YYYY-MM-DD'), EXTRACT(YEAR ...) and EXTRACT(MONTH ...)
  pub date_text : ℕ → Text
  pub year : ℕ → ℕ
  pub month : ℕ → ℕ
  -- (date + time) AT TIME ZONE 'Europe/Dublin', and the date and the time of an instant there
  pub instant : ℕ → ℕ → ℕ
  pub local_date : ℕ → ℕ
  pub local_time : ℕ → ℕ
  -- An instant as the server prints it.
  pub instant_text : ℕ → Text
  -- start_time::date in the time zone of the session
  pub session_date : ℕ → ℕ
  -- ::numeric into a column NUMERIC(10,2), in cents, and ::text of such a column
  pub to_numeric : Text → Option ℤ
  pub numeric_text : ℤ → Text
