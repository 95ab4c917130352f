-- ===== src/Tests/Services.antt =====
-- The services and the middlewares on concrete data.
use lisa_lashes_demo.Base.{
  arith, ◌*◌, ℕ, ◌+◌, ◌≡◌, refl, true, Option, none, some, List, [], ◌∷◌, replicate, get_elem?, ltb,
  if◌then◌else◌,
}
use lisa_lashes_demo.Base.Int.{pos, ◌+ℤ◌}
use lisa_lashes_demo.Base.Text.{bytes}
use lisa_lashes_demo.Crypt.Sha256.{sha256}
use lisa_lashes_demo.Db.Exec.{World, statement, statement_at, ◌>>◌}
use lisa_lashes_demo.Db.Exec.Triple.{Outcome, Unchanged}
use lisa_lashes_demo.Tests.Data.{world, casts}
use lisa_lashes_demo.Cart.{checkout, add_to_cart}
use lisa_lashes_demo.Cart.Tables.{Shop}
use lisa_lashes_demo.Cart.Atomicity.{IsCart, CheckedOut, checkout_atomic}
use lisa_lashes_demo.Cart.Stock.{Added, Refused, add_to_cart-Added}
use lisa_lashes_demo.Booking.{check_and_add}
use lisa_lashes_demo.Booking.Tables.{Diary, confirmed}
use lisa_lashes_demo.Booking.Overlap.{no_conflicts, check_and_add-no_conflicts}
use lisa_lashes_demo.Booking.Slots.{TimeSlot, make_slots}
use lisa_lashes_demo.Booking.Slots.Turns.{IsSlot, make_slots-IsSlot}
use lisa_lashes_demo.Http.{Cookie}
use lisa_lashes_demo.Accounts.{create_session, get_user_id_from_token}
use lisa_lashes_demo.Accounts.Sessions.{create_session-get_user_id_from_token}
use lisa_lashes_demo.Accounts.Tables.{Accounts, session_seconds, insert_session}
use lisa_lashes_demo.Schedule.{time_or_empty, set_override, get_effective_hours}
use lisa_lashes_demo.Schedule.Tables.{Schedule, optional_time, upsert_override_text}
use lisa_lashes_demo.Schedule.Precedence.{set_override-get_effective_hours}
use lisa_lashes_demo.Middleware.{admin, auth}
use lisa_lashes_demo.Middleware.Access.{Admitted, AdminAdmitted, admin-AdminAdmitted, auth-Admitted}

-- User 1 has two of product 7 in cart 3.
abbrev shop : Shop
shop = record {
  users = pos 1 ∷ [];
  products =
      record {
        id = pos 7;
        name = bytes "Glue";
        description = [];
        price = pos 1250;
        stock = pos 5;
        category = [];
      }
      ∷ [];
  carts = record { id = 3; user_id = pos 1; updated_at = 0 } ∷ [];
  cart_items = record { cart_id = 3; product_id = pos 7; quantity = pos 2 } ∷ [];
  orders = [];
  order_items = [];
  next_cart = 4;
  next_order = 1;
  next_product = 8;
}

checkout_atomic_example :
    Outcome
      (λ receipt w'.
        (cart_id : ℕ) × IsCart shop (pos 1) cart_id × CheckedOut shop (pos 1) cart_id receipt w')
      (Unchanged shop)
      (checkout (pos 1) (world shop))
checkout_atomic_example = checkout_atomic (pos 1) (world shop) refl

add_to_cart-Added_example :
    Outcome
      (λ _ w'. Added (pos 1) (pos 7) (pos 3) shop w'.tables)
      (λ w'. Refused (pos 1) (pos 7) (pos 3) shop w'.tables)
      (add_to_cart (pos 1) (pos 7) (pos 3) (world shop))
add_to_cart-Added_example = add_to_cart-Added (pos 1) (pos 7) (pos 3) (world shop) refl

abbrev diary : Diary
diary = record {
  schedule = record { resources = pos 2 ∷ []; hours = []; overrides = [] };
  services = [];
  bookings =
      record {
        id = 1;
        resource_id = pos 2;
        customer_name = bytes "Ann";
        customer_phone = [];
        customer_email = [];
        start_time = 10;
        end_time = 20;
        status = confirmed;
        service_id = none;
      }
      ∷ [];
  next_booking = 2;
}

check_and_add-no_conflicts_example :
    no_conflicts
      (check_and_add casts
        (pos 2)
        (bytes "Eve")
        (bytes "2025-01-31")
        (20 ∷ [])
        (30 ∷ [])
        (bytes "confirmed")
        (pos 0)
        (world diary)).1.tables.bookings
    ≡ true
check_and_add-no_conflicts_example =
    check_and_add-no_conflicts casts (pos 2) (bytes "Eve") (bytes "2025-01-31") (20 ∷ []) (30 ∷ [])
      (bytes "confirmed") (pos 0) (world diary) refl refl

make_slots-IsSlot_example :
    (slots : List TimeSlot) × (make_slots ((pos 600, pos 660) ∷ []) (pos 60) (pos 540) (pos 720)
      ≡ some slots)
    × ((k : ℕ)
        → IsSlot
            ((pos 600, pos 660) ∷ [])
            (pos 60)
            (pos 720)
            (pos 540 +ℤ pos (30 * k))
            (get_elem? slots k))
make_slots-IsSlot_example =
    make_slots-IsSlot ((pos 600, pos 660) ∷ []) (pos 60) (pos 540) (pos 720) (omega arith)
      (omega arith) (omega arith) (omega arith) (omega arith)

abbrev accounts : Accounts
accounts = record {
  users =
      record {
        id = pos 1;
        first_name = [];
        last_name = [];
        phone = bytes "1";
        address = [];
        password_hash = [];
        is_admin = true;
      }
      ∷ [];
  sessions =
      record {
        user_id = pos 1;
        token_hash = sha256 (replicate 64 0) (bytes "t");
        expires_at = 2000;
      }
      ∷ [];
  buyers = [];
  next_user = 2;
}

abbrev session_cookies : List Cookie
session_cookies = record { name = bytes "session"; value = bytes "t" } ∷ []

admin-AdminAdmitted_example :
    Outcome
      (λ passage w'.
        AdminAdmitted (replicate 64 0) session_cookies 1000 accounts passage
        × (w'.tables ≡ accounts))
      (λ w'. w'.tables ≡ accounts)
      (admin {P = ℕ} (replicate 64 0) session_cookies (world accounts))
admin-AdminAdmitted_example =
    admin-AdminAdmitted ℕ (replicate 64 0) session_cookies (world accounts)

auth-Admitted_example :
    Outcome
      (λ passage w'.
        Admitted (replicate 64 0) session_cookies 1000 accounts passage × (w'.tables ≡ accounts))
      (λ w'. w'.tables ≡ accounts)
      (auth {P = ℕ} (replicate 64 0) session_cookies (world accounts))
auth-Admitted_example = auth-Admitted ℕ (replicate 64 0) session_cookies (world accounts)

abbrev no_sessions : Accounts
no_sessions = record accounts { sessions = [] }

abbrev opened : World Accounts
opened = record (world no_sessions) {
  tables = record no_sessions {
    sessions =
        record {
          user_id = pos 1;
          token_hash = sha256 (replicate 64 0) (bytes "u");
          expires_at = 87400;
        }
        ∷ [];
  };
  clock = 1;
}

create_session-get_user_id_from_token_example :
    Outcome
      (λ o v.
        (o ≡ (if ltb 1000 (1000 + session_seconds) then some (pos 1) else none))
        × (v.tables ≡ opened.tables))
      (λ v. v.tables ≡ opened.tables)
      (get_user_id_from_token (replicate 64 0) (bytes "u") opened)
unfolding create_session statement_at insert_session ◌>>◌
create_session-get_user_id_from_token_example =
    create_session-get_user_id_from_token (replicate 64 0) (bytes "u") (bytes "u") (pos 1)
      (world no_sessions) opened opened refl refl

abbrev schedule : Schedule
schedule = record { resources = pos 2 ∷ []; hours = []; overrides = [] }

abbrev overridden : World Schedule
overridden = record (world schedule) {
  tables = record schedule {
    overrides =
        record {
          resource_id = pos 2;
          date = 50;
          working = true;
          start_time = some 57;
          end_time = none;
          note = none;
        }
        ∷ [];
  };
  clock = 1;
}

set_override-get_effective_hours_example :
    Outcome
      (λ r v.
        (a : Option ℕ) × (b : Option ℕ) × (optional_time casts (bytes "9") ≡ some a)
        × (optional_time casts [] ≡ some b)
        × (r ≡ (true, time_or_empty casts a, time_or_empty casts b))
        × (v.tables ≡ overridden.tables))
      (λ v. v.tables ≡ overridden.tables)
      (get_effective_hours casts (pos 2) (bytes "2025-01-31") (pos 5) overridden)
unfolding set_override statement upsert_override_text
set_override-get_effective_hours_example =
    set_override-get_effective_hours casts (pos 2) (pos 5) (bytes "2025-01-31") true (bytes "9") []
      [] tt (world schedule) overridden overridden refl refl
