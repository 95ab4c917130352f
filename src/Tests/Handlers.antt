-- ===== src/Tests/Handlers.antt =====
-- Handlers and a service on concrete data.
use lisa_lashes_demo.Base.{
  ◌≡◌, refl, true, false, not, ◌&&◌, none, some, [], ◌∷◌, replicate, if◌then◌else◌,
}
use lisa_lashes_demo.Base.Int.{pos, int_eq}
use lisa_lashes_demo.Base.Text.{Text, bytes, text_eq}
use lisa_lashes_demo.Db.Exec.{World, ok}
use lisa_lashes_demo.Db.Exec.Triple.{Outcome}
use lisa_lashes_demo.Http.{Request, JsonLibrary}
use lisa_lashes_demo.Accounts.{PasswordLibrary}
use lisa_lashes_demo.Accounts.Tables.{Accounts}
use lisa_lashes_demo.Db.Casts.{Casts}
use lisa_lashes_demo.Routes.Bookings.{Site, post_booking_routes}
use lisa_lashes_demo.Routes.Bookings.Create.{Booked, post_booking_routes-Booked}
use lisa_lashes_demo.Salon.{set_services_for_resource}
use lisa_lashes_demo.Salon.Tables.{Catalog, offers}
use lisa_lashes_demo.Salon.Offers.{lists, set_services_for_resource-offers}
use lisa_lashes_demo.Routes.Auth.{post_login_route}
use lisa_lashes_demo.Routes.Auth.Login.{Guarded, post_login_route-Guarded}

-- JSON values that are texts, and passwords that are their own hashes.
abbrev pub texts : JsonLibrary Text
texts = record {
  as_text = λ t. ok t;
  as_int = λ t. ok (pos 0);
  as_bool = λ t. ok false;
  as_items = λ t. ok [];
  member = λ t key. ok t;
}

abbrev pub plain : PasswordLibrary
plain = record { hash_password = λ salt t. ok t; verify_password = λ t hash. text_eq t hash }

abbrev login_request : Request Text
login_request = record {
  cookies = [];
  queries = [];
  body = (bytes "identifier", bytes "1") ∷ (bytes "password", bytes "pw") ∷ [];
  user_id = none;
}

abbrev one_user : World Accounts
one_user = record {
  tables = record {
    users =
        record {
          id = pos 1;
          first_name = [];
          last_name = [];
          phone = bytes "1";
          address = [];
          password_hash = bytes "pw";
          is_admin = false;
        }
        ∷ [];
    sessions = [];
    buyers = [];
    next_user = 2;
  };
  saved = none;
  clock = 0;
  fails = λ n. false;
  now = 1000;
}

post_login_route-Guarded_example :
    Outcome
      (λ r w'. Guarded texts plain (replicate 64 0) login_request one_user.tables r)
      (λ w'. ⊥)
      (post_login_route texts plain (replicate 64 0) (bytes "token") login_request one_user)
post_login_route-Guarded_example =
    post_login_route-Guarded Text texts plain (replicate 64 0) (bytes "token") login_request
      one_user

-- A request to book without a cookie.
abbrev booking_request : Request Text
booking_request = record { cookies = []; queries = []; body = []; user_id = none }

abbrev site : World Site
site = record {
  tables = record {
    accounts = one_user.tables;
    diary = record {
      schedule = record { resources = pos 2 ∷ []; hours = []; overrides = [] };
      services = [];
      bookings = [];
      next_booking = 1;
    };
  };
  saved = none;
  clock = 0;
  fails = λ n. false;
  now = 1000;
}

abbrev casts : Casts
casts = record {
  to_date = λ t. some 0;
  to_time = λ t. some 0;
  to_timestamp = λ t. some 0;
  date_text = λ d. [];
  year = λ d. 2025;
  month = λ d. 1;
  instant = λ d t. t;
  local_date = λ t. 0;
  local_time = λ t. t;
  instant_text = λ t. [];
  session_date = λ t. 0;
  to_numeric = λ t. none;
  numeric_text = λ z. [];
}

post_booking_routes-Booked_example :
    Outcome
      (λ r w'. Booked (replicate 64 0) booking_request 1000 site.tables r w')
      (λ w'. ⊥)
      (post_booking_routes texts casts (replicate 64 0) booking_request site)
post_booking_routes-Booked_example =
    post_booking_routes-Booked Text texts casts (replicate 64 0) booking_request site refl refl

-- Resource 2 does service 5 and is to do service 6.
abbrev catalog : World Catalog
catalog = record {
  tables = record {
    resources = record { id = pos 2; name = bytes "Ann"; active = true } ∷ [];
    services =
        record {
          id = pos 6;
          name = bytes "Lashes";
          duration = 3600;
          price = pos 5000;
          active = true;
        }
        ∷ [];
    offered = (pos 2, pos 5) ∷ [];
    booked = [];
    next_resource = 3;
    next_service = 7;
  };
  saved = none;
  clock = 0;
  fails = λ n. false;
  now = 1000;
}

set_services_for_resource-offers_example :
    Outcome
      (λ u w'. offers (pos 2) (pos 6) w'.tables.offered ≡ (
        if int_eq (pos 2) (pos 2)
        then lists (pos 6 ∷ []) (pos 6)
        else offers (pos 2) (pos 6) catalog.tables.offered))
      (λ w'.
        (not (int_eq (pos 2) (pos 2)) && offers (pos 2) (pos 6) w'.tables.offered)
        ≡ (not (int_eq (pos 2) (pos 2)) && offers (pos 2) (pos 6) catalog.tables.offered))
      (set_services_for_resource (pos 2) (pos 6 ∷ []) catalog)
set_services_for_resource-offers_example =
    set_services_for_resource-offers (pos 2) (pos 6 ∷ []) (pos 2) (pos 6) catalog refl
