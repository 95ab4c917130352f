-- ===== src/Lib.antt =====
-- Verification library of the Lisa Lashes server, the C++ program of back/ with the framework that
-- it adapts in src/ and include/expresso/.
--
-- The server answers HTTP requests of a beauty salon's shop and booking form. A router hands a
-- request to middlewares (src/middleware) and to a handler (back/routes), the handler calls a
-- service (back/services), and the service takes a connection from a pool (back/db) and sends SQL
-- to PostgreSQL, whose schema is docker/init.sql. Sessions are found by the SHA-256 hash of their
-- token (back/crypt).
--
-- The modules, and the source of each:
--   Base           lists, integers, texts and tests on native numbers; std::stoi, std::to_string
--   Crypt.Sha256   back/crypt/crypt.h and crypt.cpp. Words: rotr, choose, majority, sig0, sig1 and
--                  transform; the module itself: update, pad, revert, digest, toString, sha256;
--                  Padding: what a digest is, by the padding rule; Feed and Digest: the proof
--   Db.Pool        back/db/pg_pool.h and pg_pool.cpp: acquire, release and PgConnGuard as steps of
--                  threads under a schedule; Sharing, Deadlock and Progress: the theorems
--   Db.Exec        back/db/pgconnect.cpp: exec, exec_params, begin, commit and rollback as actions
--                  that return a value or throw; Triple and Query: the rules to reason about them
--   Db.Casts       what PostgreSQL converts between texts, dates and times
--   Cart           back/services/cart_service.cpp: one action for each method of CartService;
--                  Tables: its SQL; Atomicity, Quantities and Stock: the theorems
--   Accounts       back/services/user_repository.cpp and session_repository.cpp; Tables: their
--                  SQL; Password: back/crypt/password.cpp; Sessions: the theorem on a session's
--                  life; Uniqueness: lemmas on distinct hashes; Login: that on who has registered
--   Schedule       back/services/schedule_service.cpp; Tables: its SQL; Clock: toMins, toHHMM and
--                  to_char of a time; Precedence: the theorem on overrides; Weekly: that on the
--                  schedule of a week, with Days, Rows and Insertion
--   Booking        back/services/booking_service.cpp; Tables and Changes: its SQL; Slots: the
--                  loop of getAvailableTimeSlots, with Marks and Turns: the theorem on it;
--                  Overlap: that on double bookings
--   Products       back/services/product_services.cpp; Tables: its SQL
--   Salon          back/services/salon_service.cpp and resource_service.cpp; Tables: their SQL;
--                  Offers: the theorem on the services of a resource
--   Http           the part of a request and of a response that the handlers use
--   Middleware     src/middleware/auth.cpp, auth_protected.cpp and admin_auth.cpp; Access: the
--                  theorems
--   Routes         back/routes: one action for each handler. Auth.Login, Auth.Logout and
--                  Bookings.Create: the theorems on logins, log outs and requests to book
--   Expresso       the framework. Response: src/messages/response.cpp and src/helpers/response.cpp,
--                  with Wire and Delivery: what reaches the client of a response and of a file;
--                  Archive: sendFiles, with Chunked, Pieces and Contents: what its client reads.
--                  Router: src/core/router.cpp, with Prefix and Registration: where a request goes.
--                  Server: makeRequest of src/core/server.cpp, with Parsing: how it reads texts,
--                  Queries: its query loop, Reading: what it makes of a request for GET, with
--                  Headers, and Connection: handleConnection, with Arrival: a request that comes
--                  in pieces. Middlewares: the other files of src/middleware, with Cors, Origins:
--                  what it lets through, StaticServe and Absolute: a file outside of its directory.
--                  Libraries: what lib/ provides
--   StartServer    back/start_server.cpp: the routers that main builds; Admin: the theorem on the
--                  paths under api/admin; Dispatch: which handler a request reaches; Site: handlers
--                  and AdminMiddleware on the framework's response, with Guarded: the theorem
--   Tests          the theorems applied to concrete data
--
-- A service's state is the part of the database that it works on, a record of tables, each the list
-- of its rows. A method is a function from a World (these tables, those to go back to in a
-- transaction, the time, and which of the statements to come the server refuses) to a value or an
-- exception and a World. A statement that is refused changes nothing; one that breaks a constraint
-- is refused. Statements of one request are not interleaved with those of another; the pool is
-- modelled apart, where threads interleave at each acquire and release.
--
-- A response is a record with the bytes that its socket has taken and the calls of send that it
-- refuses. A router is a tree, a handler or a middleware an action on an exchange: the method, the
-- path and the parameters of a request, and a state that holds all else. StartServer.Site makes
-- such an action of a handler of Routes. A read out of bounds and a loop without an end are results
-- of makeRequest, and a read out of bounds of CookieParser and of StaticServe.
--
-- Bounds and fuel: the loop of getAvailableTimeSlots runs on the number of its turns plus one; a
-- sum of ints in it that overflows makes its result none, and the theorem on it shows that the
-- fuel is enough where no sum does; the query loop of makeRequest runs on one turn more than the
-- text has characters, and Expresso.Server.Queries shows that it has then ended or never does; the
-- loops of sendFile and of sendFileInChunks run on the length of the file plus one; decimal
-- numbers have ten digits, as an int has, which bounds the printed lengths of texts and files as
-- well; the sum in addToCart wraps at 32 bits, other sums of int are those of integers; the words
-- of SHA-256 and its bit count wrap at 32 and 64 bits.
--
-- Parameters: the bytes that SHA256 leaves unset, the functions of Argon2, the tokens of
-- brewtils::uuid, the JSON library, brewtils, the checksums of zippuccino, the files, the cookies'
-- serialize, std::regex_match, the collation and the conversions of PostgreSQL, and the day of the
-- week of a date. A row that a query gives first without ORDER BY is the first of the list.
--
-- Not modelled: what is written to the log, the sockets and the thread pool of the server (I/O),
-- the calls of libpq in back/db, the environment that start_server.cpp reads, the libraries under
-- lib/ and the front ends.
pub mod Base
pub mod Crypt
pub mod Db
pub mod Cart
pub mod Http
pub mod Accounts
pub mod Middleware
pub mod Schedule
pub mod Booking
pub mod Products
pub mod Expresso
pub mod StartServer
pub mod Salon
pub mod Routes
pub mod Tests
