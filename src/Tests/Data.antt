-- ===== src/Tests/Data.antt =====
-- Data that the runs share.
use lisa_lashes_demo.Base.{
  ℕ, ◌≡◌, ◌==◌, arith, refl, true, false, Option, none, some, List, [], ◌∷◌, ◌++◌, if◌then◌else◌,
  Bool, Done,
}
use lisa_lashes_demo.Base.Text.{Text, bytes, text_eq}
use lisa_lashes_demo.Base.Int.{pos}
use lisa_lashes_demo.Db.Casts.{Casts}
use lisa_lashes_demo.Db.Exec.{ok, World}
use lisa_lashes_demo.Expresso.Libraries.{Brewtils, Files}
use lisa_lashes_demo.Expresso.Response.{Response, Socket, new_response, set}
use lisa_lashes_demo.Expresso.Response.Wire.{IsOpen}
use lisa_lashes_demo.Expresso.Router.{Action}
use lisa_lashes_demo.Expresso.Server.{Free}
use lisa_lashes_demo.Expresso.Server.Reading.{Splits}
use lisa_lashes_demo.StartServer.{Handlers, Middlewares}

abbrev pub world : {S : Type 0} → S → World S
world s = record { tables = s; saved = none; clock = 0; fails = λ n. n == 9; now = 1000 }

abbrev last_byte : Text → Option ℕ
last_byte [] = none
last_byte (c ∷ []) = some c
last_byte (c ∷ d ∷ t) = last_byte (d ∷ t)

-- Days and times that are read from one byte each.
abbrev first_byte : Text → Option ℕ
first_byte [] = none
first_byte (c ∷ t) = some c

abbrev pub casts : Casts
casts = record {
  to_date = first_byte;
  to_time = first_byte;
  to_timestamp = last_byte;
  date_text = λ d. d ∷ [];
  year = λ d. 2025;
  month = λ d. 1;
  instant = λ d t. t;
  local_date = λ t. 0;
  local_time = λ t. t;
  instant_text = λ t. t ∷ [];
  session_date = λ t. 0;
  to_numeric = λ t. some (pos 0);
  numeric_text = λ z. [];
}

-- Words between single characters, and the identity for the rest.
abbrev put_letter : Bool → ℕ → List Text → List Text
put_letter true d ws = [] ∷ ws
put_letter false d [] = (d ∷ []) ∷ []
put_letter false d (w ∷ ws) = (d ∷ w) ∷ ws

abbrev words : ℕ → Text → List Text
words c [] = [] ∷ []
words c (d ∷ t) = put_letter (d == c) d (words c t)

abbrev first_or_space : Text → ℕ
first_or_space [] = 32
first_or_space (c ∷ t) = c

abbrev pub lib : Brewtils
lib = record {
  lower = λ t. t;
  upper = λ t. t;
  trim = λ t. t;
  replace = λ t from to. t;
  split = λ t delimiter. words (first_or_space delimiter) t;
  join = λ ts delimiter. delimiter;
  decode = λ t. t;
  join_path = λ a b. a ++ b'/' ∷ b;
  mime_type = λ t. bytes "text/css";
}

one_word : (c : ℕ) (t : Text) → Free c t → words c t ≡ t ∷ []
one_word c [] h = refl
one_word c (d ∷ t) (first, h) = rw (first, one_word c t h) refl

two_words : (c : ℕ) (s t : Text) → Free c s → words c (s ++ c ∷ t) ≡ s ∷ words c t
two_words c [] t h = let e : (c == c) ≡ true = ground arith in rw e refl
two_words c (d ∷ s) t (first, h) = rw (first, two_words c s t h) refl

pub lib-Splits : Splits lib
lib-Splits = record { last = one_word; first = two_words }

abbrev pub plain_text : Text → Text
plain_text t = t

abbrev pub wire : Socket
wire = record { sent = []; calls = 0; breaks = λ n. false }

abbrev pub fresh : Response Text
fresh = new_response lib plain_text wire

pub fresh-IsOpen : IsOpen fresh
unfolding new_response set
fresh-IsOpen = record { not_ended = refl; steady = λ n. refl }

-- One file.
abbrev pub files : Files
files = record {
  file = λ p. if text_eq p (bytes "a.css") then some (bytes "body") else none;
  directory = λ p. none;
  crc = λ t. t;
}

module _ {S : Type 0} where
  -- One handler for every route.
  abbrev pub all_handlers : Action S Done → Handlers S
  all_handlers h = record {
    get_product_routes = h;
    post_product_routes = h;
    put_product_routes = h;
    delete_product_routes = h;
    get_booking_routes = h;
    post_booking_routes = h;
    post_register_route = h;
    post_login_route = h;
    delete_user_route = h;
    get_me_route = h;
    post_logout_route = h;
    get_resources_route = h;
    get_salon_services_route = h;
    get_all_bookings_route = h;
    put_booking_routes = h;
    delete_booking_routes = h;
    get_users_route = h;
    put_user_route = h;
    post_resource_route = h;
    put_resource_route = h;
    delete_resource_route = h;
    post_salon_service_route = h;
    put_salon_service_route = h;
    delete_salon_service_route = h;
    put_resource_services_route = h;
    get_schedule_route = h;
    put_schedule_route = h;
    get_schedule_overrides_route = h;
    put_schedule_override_route = h;
    delete_schedule_override_route = h;
    opt_handler = h;
  }

  abbrev pass : Action S Bool
  pass ex = (ok true, ex)

  -- Middlewares that let everything through.
  abbrev pub open_gates : Middlewares S
  open_gates = record {
    version = pass;
    date = pass;
    cors = pass;
    cookie_parser = pass;
    cacher = pass;
    front_static = pass;
    admin_middleware = pass;
    admin_static = pass;
    front_router_static = pass;
  }
