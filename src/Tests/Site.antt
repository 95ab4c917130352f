-- ===== src/Tests/Site.antt =====
-- The routers with the handlers, the accounts and the zip files on concrete data.
use lisa_lashes_demo.Base.{
  ℕ, ◌+◌, ◌≡◌, refl, false, none, List, [], ◌∷◌, ◌⊎◌, replicate, Done, arith,
}
use lisa_lashes_demo.Base.Int.{pos}
use lisa_lashes_demo.Base.Text.{Text, bytes, text_eq}
use lisa_lashes_demo.Crypt.Sha256.{sha256}
use lisa_lashes_demo.Db.Exec.{Result, World, ok}
use lisa_lashes_demo.Db.Exec.Triple.{Outcome}
use lisa_lashes_demo.Db.Exec.Zoom.{Lens}
use lisa_lashes_demo.Http
use lisa_lashes_demo.Http.{Body, status_ok, internal_server_error}
use lisa_lashes_demo.Accounts.Tables.{Accounts, find_session, find_user}
use lisa_lashes_demo.Expresso.Response.Archive.{Archive, send_files}
use lisa_lashes_demo.Expresso.Response.Archive.Contents.{Zipped, send_files-decode_chunked}
use lisa_lashes_demo.Expresso.Router.{
  Exchange, Action, segment, get_method, options_method, handle_middlewares,
}
use lisa_lashes_demo.Routes.Auth.{post_logout_route}
use lisa_lashes_demo.Routes.Auth.Logout.{LoggedOut, post_logout_route-LoggedOut}
use lisa_lashes_demo.StartServer.{serve}
use lisa_lashes_demo.StartServer.Dispatch.{serve-api_steps, serve-admin_steps, serve_preflight}
use lisa_lashes_demo.StartServer.Site.{Site}
use lisa_lashes_demo.StartServer.Site.Guarded.{Refusal, serve_site, serve_site-Refusal}
use lisa_lashes_demo.Tests.Data.{
  lib, plain_text, fresh, fresh-IsOpen, files, all_handlers, open_gates,
}
use lisa_lashes_demo.Tests.Handlers.{texts, plain}

-- One file and a footer.
abbrev archive : Archive
archive = record { entries = (bytes "PK1", bytes "a.css") ∷ []; footer = bytes "PK2" }

abbrev zip : List Text → Result Archive
zip paths = ok archive

send_files-decode_chunked_example :
    Zipped lib plain_text files
      (bytes "a.zip")
      fresh
      (ok archive)
      (send_files lib plain_text files zip (bytes "a.css" ∷ []) (bytes "a.zip") fresh)
send_files-decode_chunked_example =
    send_files-decode_chunked lib plain_text files zip (bytes "a.css" ∷ []) (bytes "a.zip") fresh
      fresh-IsOpen (((refl, omega arith), tt), (refl, omega arith))

-- The state counts the handlers' calls.
abbrev exchange : Text → Exchange ℕ
exchange path = record { method = get_method; temp_path = path; params = []; state = 0 }

abbrev preflight : Exchange ℕ
preflight = record (exchange (bytes "api/products")) { method = options_method }

abbrev ended : ℕ → ℕ
ended n = n + 10

abbrev missing : ℕ → ℕ
missing n = n + 100

abbrev count : Action ℕ Done
count ex = (ok tt, record ex { state = ex.state + 1 })

serve-api_steps_example :
    serve (all_handlers count) open_gates lib ended missing (exchange (bytes "api/availability"))
    ≡ (ok tt, record (exchange (bytes "availability")) { state = 1 })
unfolding handle_middlewares
serve-api_steps_example =
    serve-api_steps (all_handlers count) open_gates lib ended missing 1 get_method "/availability"
      count (exchange (bytes "api/availability")) (exchange (bytes "api/availability")) refl refl
      refl refl

serve-admin_steps_example :
    serve (all_handlers count) open_gates lib ended missing (exchange (bytes "api/admin/users"))
    ≡ (ok tt, record (exchange (bytes "users")) { state = 1 })
unfolding handle_middlewares
serve-admin_steps_example =
    serve-admin_steps (all_handlers count) open_gates lib ended missing 6 get_method "/users" count
      (exchange (bytes "api/admin/users")) (exchange (bytes "api/admin/users"))
      (exchange (bytes "users")) refl refl (λ e. ground arith) refl refl refl refl

serve_preflight_example :
    serve (all_handlers count) open_gates lib ended missing preflight
    ≡ (ok tt, record preflight { temp_path = bytes "products"; state = 100 })
unfolding handle_middlewares text_eq segment
serve_preflight_example =
    serve_preflight (all_handlers count) open_gates lib ended missing preflight preflight
      (bytes "products") refl refl refl refl refl refl

-- A user without the rights of an administrator, with a session.
abbrev junk : List ℕ
junk = replicate 64 0

abbrev customer : World Accounts
customer = record {
  tables = record {
    users =
        record {
          id = pos 1;
          first_name = [];
          last_name = [];
          phone = bytes "1";
          address = [];
          password_hash = [];
          is_admin = false;
        }
        ∷ [];
    sessions =
        record { user_id = pos 1; token_hash = sha256 junk (bytes "t"); expires_at = 2000 } ∷ [];
    buyers = [];
    next_user = 2;
  };
  saved = none;
  clock = 0;
  fails = λ n. false;
  now = 1000;
}

abbrev request : Http.Request Text
request = record {
  cookies = record { name = bytes "session"; value = bytes "t" } ∷ [];
  queries = [];
  body = [];
  user_id = none;
}

post_logout_route-LoggedOut_example :
    Outcome
      (λ r w'.
        ((r.status ≡ status_ok) × LoggedOut junk request.cookies 1000 customer.tables w'.tables)
        ⊎ ((r.status ≡ internal_server_error) × (w'.tables ≡ customer.tables)))
      (λ w'. ⊥)
      (post_logout_route texts plain junk request customer)
unfolding find_session
post_logout_route-LoggedOut_example =
    post_logout_route-LoggedOut Text texts plain junk request customer (refl, tt)

-- The accounts are the whole database.
abbrev whole : Lens Accounts Accounts Done
whole = record {
  get = λ s. s;
  set = λ s t. s;
  other = λ s. tt;
  get_set = λ s t. refl;
  other_set = λ s t. refl;
}

abbrev dumped : Body ℕ → Text
dumped body = bytes "{}"

abbrev handler : Action (Site Text Text Accounts) Done
handler ex = (ok tt, ex)

abbrev visit : Exchange (Site Text Text Accounts)
visit = record {
  method = get_method;
  temp_path = bytes "api/admin/users";
  params = [];
  state = record { request = request; response = fresh; world = customer };
}

serve_site-Refusal_example :
    Refusal whole junk request.cookies customer (
      serve_site lib plain_text plain_text dumped whole junk open_gates
        (all_handlers handler)
        visit)
unfolding handle_middlewares find_user
serve_site-Refusal_example =
    serve_site-Refusal lib plain_text plain_text dumped whole junk open_gates (all_handlers handler)
      visit visit (bytes "users") refl (λ e. ground arith) refl (λ id known. ground arith)
