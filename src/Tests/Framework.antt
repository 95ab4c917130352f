-- ===== src/Tests/Framework.antt =====
-- The framework on concrete data.
use mathlib.Core.List.{append_assoc, append-nil}
use lisa_lashes_demo.Base.{
  ◌⊎◌, List, ap, sym, ◌∙◌, ℕ, ◌+◌, ◌≡◌, refl, Bool, true, false, none, [], ◌∷◌, ◌++◌, drop, inl,
  Done, arith,
}
use lisa_lashes_demo.Base.Int.{pos, negsuc}
use lisa_lashes_demo.Base.Text.{Text, bytes, text_eq, decimal}
use lisa_lashes_demo.Db.Exec.{Result, ok}
use lisa_lashes_demo.Expresso.Response.{
  Response, new_response, set, get, end, head, send_file, get_available_file,
}
use lisa_lashes_demo.Expresso.Response.Wire.{measured}
use lisa_lashes_demo.Expresso.Response.Delivery.{
  whole_file, part_of_file, send_file-end, send_file_range,
}
use lisa_lashes_demo.Expresso.Router.{
  node, Routes, Children, no_child, child, no_param, Exchange, Action, get_method, new_router,
  find_child, find_param, handle_middlewares, add_route, without_last_slash,
}
use lisa_lashes_demo.Expresso.Router.Prefix.{by_segment, find_child-by_segment}
use lisa_lashes_demo.Expresso.Router.Registration.{Registered, add_route-handle_request}
use lisa_lashes_demo.Expresso.Server.{
  Request, JsonParser, parsed, endless, parse_queries, queries_of, make_request,
  get_method_from_string,
}
use lisa_lashes_demo.Expresso.Server.Queries.{
  query_text, query_before, put_all, queries_of-query_text, queries_of-query_before,
}
use lisa_lashes_demo.Expresso.Server.Reading.{
  request_text, path_text, started, make_request-request_text,
}
use lisa_lashes_demo.Expresso.Server.Reading.Headers.{with_headers}
use lisa_lashes_demo.Expresso.Server.Connection.{
  Chunk, received, has_headers, handle_connection, served, left_open, connection_error,
}
use lisa_lashes_demo.Expresso.Server.Connection.Arrival.{
  Arrives, clash, complete_lem, handle_connection-Arrives, handle_connection-refused,
  handle_connection-served,
}
use lisa_lashes_demo.Expresso.Middlewares.Cors.{Cors, new_cors, cors_use}
use lisa_lashes_demo.Expresso.Middlewares.Origins.{Allowed, cors_use-Allowed}
use lisa_lashes_demo.StartServer.{Handlers, Middlewares, serve}
use lisa_lashes_demo.StartServer.Admin.{serve_refused}
use lisa_lashes_demo.Tests.Data.{
  lib-Splits, lib, plain_text, wire, fresh, fresh-IsOpen, files, all_handlers, open_gates,
}

send_file-end_example :
    (end lib plain_text
      (send_file lib plain_text files (bytes "a.css") (negsuc 0) (negsuc 0) fresh)).socket.sent
    ≡ (fresh.socket.sent
        ++ (head lib plain_text
              (whole_file lib plain_text files (bytes "a.css") (bytes "body") fresh)
            ++ bytes "body"))
      ++ (head lib plain_text (
            measured lib plain_text
              (whole_file lib plain_text files (bytes "a.css") (bytes "body") fresh))
          ++ fresh.message)
unfolding get_available_file text_eq
send_file-end_example =
    send_file-end lib plain_text files (bytes "a.css") (bytes "a.css") (bytes "body") fresh
      fresh-IsOpen refl refl refl

send_file_range_example :
    ((send_file lib plain_text files (bytes "a.css") (pos 1) (pos 2) fresh).socket.sent
      ≡ fresh.socket.sent
        ++ (head lib plain_text
              (part_of_file lib plain_text files (bytes "a.css") (bytes "body") 1 2 fresh)
            ++ drop 1 (bytes "body")))
    × ((part_of_file lib plain_text files (bytes "a.css") (bytes "body") 1 2 fresh).status_code
        ≡ 206)
    × (get lib plain_text "content-length"
          (part_of_file lib plain_text files (bytes "a.css") (bytes "body") 1 2 fresh)
        ≡ decimal 2)
unfolding get_available_file text_eq
send_file_range_example =
    send_file_range lib plain_text files (bytes "a.css") (bytes "a.css") (bytes "body") 1 2 fresh
      fresh-IsOpen refl refl refl (omega arith) (omega arith) refl

-- The state counts.
abbrev plus_one : ℕ → ℕ
plus_one n = n + 1

abbrev plus_ten : ℕ → ℕ
plus_ten n = n + 10

abbrev at_path : Text → Exchange ℕ
at_path path = record { method = get_method; temp_path = path; params = []; state = 0 }

abbrev api_only : Children ℕ
api_only = child (bytes "api") new_router no_child

find_child-by_segment_example :
    find_child lib plus_one plus_ten api_only
      (find_param lib plus_one plus_ten no_param)
      (at_path (bytes "api/users"))
    ≡ by_segment lib plus_one plus_ten api_only
        (find_param lib plus_one plus_ten no_param)
        (at_path (bytes "api/users"))
find_child-by_segment_example =
    find_child-by_segment lib plus_one plus_ten api_only (find_param lib plus_one plus_ten no_param)
      (at_path (bytes "api/users")) ((refl, (refl, (refl, tt))), tt)

abbrev no_routes : Routes ℕ
no_routes = record {
  get_map = [];
  post_map = [];
  put_map = [];
  patch_map = [];
  delete_map = [];
  options_map = [];
}

abbrev count : Action ℕ Done
count ex = (ok tt, record ex { state = ex.state + 1 })

add_route-handle_request_example :
    Registered lib plus_one plus_ten get_method
      (bytes "/users")
      count
      (at_path (bytes "users"))
      (at_path (bytes "users"))
      (add_route get_method (bytes "/users") count (node [] no_routes no_child no_param))
unfolding handle_middlewares
add_route-handle_request_example =
    add_route-handle_request lib plus_one plus_ten [] no_routes no_child no_param get_method
      (bytes "/users") count (at_path (bytes "users")) (at_path (bytes "users")) refl refl refl refl

abbrev refuse : Action ℕ Bool
refuse ex = (ok false, record ex { state = 401 })

abbrev handlers : Handlers ℕ
handlers = all_handlers count

abbrev middlewares : Middlewares ℕ
middlewares = record open_gates { admin_middleware = refuse }

serve_refused_example :
    serve handlers middlewares lib plus_one plus_ten (at_path (bytes "api/admin/users"))
    ≡ (ok tt, record (at_path (bytes "users")) { state = 402 })
unfolding handle_middlewares
serve_refused_example =
    serve_refused handlers middlewares lib plus_one plus_ten (at_path (bytes "api/admin/users"))
      (at_path (bytes "api/admin/users")) (record (at_path (bytes "users")) { state = 401 })
      (bytes "users") refl (λ e. ground arith) refl refl

abbrev text_parser : JsonParser Text
text_parser = record { loads = λ t. ok t; of_text = λ t. t; of_members = λ m. []; empty = [] }

make_request-request_text_example :
    make_request lib text_parser
      (request_text (bytes "GET") (bytes "/a/?id=1") (bytes "1.1") ((bytes "host", bytes "b") ∷ []))
    ≡ parsed
        (record (with_headers lib
          ((bytes "host", bytes "b") ∷ [])
          (started lib text_parser (bytes "HTTP/1.1" ++ 13 ∷ []) (bytes "a/?id=1"))) {
            queries = put_all lib ((bytes "id", bytes "1") ∷ []) [];
            temp_path = bytes "a";
          })
unfolding text_eq get_method_from_string path_text query_text without_last_slash
make_request-request_text_example =
    make_request-request_text lib text_parser (bytes "GET") (bytes "a/") (bytes "1.1")
      ((bytes "id", bytes "1") ∷ []) ((bytes "host", bytes "b") ∷ []) lib-Splits refl (ground arith)
      (ground arith) (ground arith) (ground arith) refl ((ground arith, ground arith), tt)
      ((ground arith, ground arith, ground arith, inl refl), tt)

queries_of-query_text_example :
    queries_of lib (bytes "slots" ++ b'?' ∷ query_text ((bytes "id", bytes "1") ∷ []))
    ≡ parsed (put_all lib ((bytes "id", bytes "1") ∷ []) [])
queries_of-query_text_example =
    queries_of-query_text lib (bytes "slots") ((bytes "id", bytes "1") ∷ [])
      (refl, (refl, (refl, (refl, (refl, tt))))) (((refl, (refl, tt)), (refl, tt)), tt)

queries_of-query_before_example :
    (parse_queries lib 1000 (query_before ((bytes "id", bytes "1") ∷ []) (bytes "x")) [] ≡ none)
    × (queries_of lib
          (bytes "slots" ++ b'?' ∷ query_before ((bytes "id", bytes "1") ∷ []) (bytes "x"))
        ≡ endless)
queries_of-query_before_example =
    queries_of-query_before lib (bytes "slots") ((bytes "id", bytes "1") ∷ []) (bytes "x") 1000
      (refl, (refl, (refl, (refl, (refl, tt))))) (((refl, (refl, tt)), (refl, tt)), tt) refl
      (refl, tt)

abbrev handle_nothing : Request Text → Response Text → Result Done × Response Text
handle_nothing req r = (ok tt, r)

abbrev line_end : Text
line_end = 13 ∷ 10 ∷ 13 ∷ 10 ∷ []

-- A request in two pieces, and a later one.
abbrev pieces_of : Text → Text → List Chunk
pieces_of line later =
    received (line ++ 13 ∷ 10 ∷ []) ∷ received (13 ∷ 10 ∷ []) ∷ received later ∷ []

in_pieces :
    (line later : Text)
    → has_headers ((line ++ 13 ∷ 10 ∷ []) ++ []) ≡ false
    → Arrives (line ++ line_end) (pieces_of line later)
in_pieces line later h = record {
  first = (line ++ 13 ∷ 10 ∷ []) ∷ [];
  last = 13 ∷ 10 ∷ [];
  more = received later ∷ [];
  pieces = refl;
  incomplete = λ o. clash (sym (complete_lem _ o) ∙ h);
  total = sym (
      ap (λ (t : Text). t ++ 13 ∷ 10 ∷ []) (append-nil (line ++ 13 ∷ 10 ∷ []))
      ∙ append_assoc line (13 ∷ 10 ∷ []) (13 ∷ 10 ∷ []));
  complete = (line, [], refl);
}

handle_connection-refused_example :
    handle_connection lib plain_text text_parser handle_nothing wire
      (pieces_of (bytes "BREW /a HTTP/1.1") [])
    ≡ left_open connection_error (new_response lib plain_text wire)
unfolding make_request text_eq get_method_from_string has_headers
handle_connection-refused_example =
    handle_connection-refused lib plain_text text_parser handle_nothing wire
      (pieces_of (bytes "BREW /a HTTP/1.1") []) (bytes "BREW /a HTTP/1.1" ++ line_end)
      (in_pieces (bytes "BREW /a HTTP/1.1") [] refl) _ (new_response lib plain_text wire)
      (inl (refl, refl))

handle_connection-served_example :
    (r : Response Text) × (handle_connection lib plain_text text_parser handle_nothing wire
        (pieces_of (bytes "GET /a HTTP/1.1") [])
      ≡ served r)
    × (r.has_ended ≡ true)
    × (r.socket.sent ≡ head lib plain_text (measured lib plain_text fresh) ++ fresh.message)
unfolding make_request text_eq get_method_from_string new_response set has_headers
handle_connection-served_example =
    handle_connection-served lib plain_text text_parser handle_nothing wire
      (pieces_of (bytes "GET /a HTTP/1.1") []) (bytes "GET /a HTTP/1.1" ++ line_end)
      (in_pieces (bytes "GET /a HTTP/1.1") [] refl) _ fresh refl refl (λ n. refl)

handle_connection-Arrives_example :
    handle_connection lib plain_text text_parser handle_nothing wire
      (pieces_of (bytes "POST /a HTTP/1.1") (bytes "{}"))
    ≡ handle_connection lib plain_text text_parser handle_nothing wire
        (received (bytes "POST /a HTTP/1.1" ++ line_end) ∷ [])
unfolding has_headers
handle_connection-Arrives_example =
    handle_connection-Arrives lib plain_text text_parser handle_nothing wire
      (pieces_of (bytes "POST /a HTTP/1.1") (bytes "{}")) (bytes "POST /a HTTP/1.1" ++ line_end)
      (in_pieces (bytes "POST /a HTTP/1.1") (bytes "{}") refl)

-- The origin that main allows.
abbrev cors : Cors
cors = record new_cors { origins = bytes ".http://localhost:8000" ∷ [] }

abbrev no_match : Text → Text → Bool
no_match pattern t = false

cors_use-Allowed_example :
    let answer = cors_use lib plain_text no_match cors (bytes "http://a") fresh in
    let named = get lib plain_text "access-control-allow-origin" answer.1 in
    (Allowed no_match (bytes "http://a") cors.origins
      × (answer.0 ≡ true)
      × (named ≡ bytes "http://a")
      × (answer.1.status_code ≡ fresh.status_code))
    ⊎ ((Allowed no_match (bytes "http://a") cors.origins → ⊥)
        × (answer.0 ≡ false)
        × (named ≡ bytes "null")
        × (answer.1.status_code ≡ 403))
unfolding new_cors
cors_use-Allowed_example =
    cors_use-Allowed lib plain_text (refl, (refl, (refl, (refl, tt)))) no_match cors
      (bytes "http://a") fresh refl refl
