-- ===== src/Expresso/Server/Connection.antt =====
-- Server::handleConnection of src/core/server.cpp. What recv returns is a list: bytes, the end of the
-- stream, or an error. logger::error throws when it is given a second text, which it is in both
-- places here.
pub mod Arrival
use lisa_lashes_demo.Base.{Bool, true, false, none, some, List, [], ◌∷◌, ◌++◌, if◌then◌else◌, Done}
use lisa_lashes_demo.Base.Text.{Text, is_empty}
use lisa_lashes_demo.Db.Exec.{Exception, runtime_error, text, Result, ok, throw}
use lisa_lashes_demo.Expresso.Libraries.{Brewtils}
use lisa_lashes_demo.Expresso.Response.{Response, Socket, crlf, new_response, destroy}
use lisa_lashes_demo.Expresso.Server.{
  Parse, parsed, failed, undefined, endless, Request, JsonParser, behind, make_request,
}

pub data Chunk : Type 0 where
  received : Text → Chunk
  closed recv_error : Chunk

-- The request that was read, or an error; `waiting` while the stream goes on without one.
pub data Reading : Type 0 where
  request : Text → Reading
  broken waiting : Reading

-- `find("\r\n\r\n") != npos`
unfoldable pub has_headers : Text → Bool
unfolding behind
has_headers t = elim (behind (crlf ++ crlf) t) [ none ↦ false | some body ↦ true ]

-- The loop over recv, which stops at the end of the headers.
unfoldable pub read_request : List Chunk → Text → Reading
unfolding has_headers
read_request [] got = waiting
read_request (recv_error ∷ rest) got = broken
read_request (closed ∷ rest) got = request got
read_request (received chunk ∷ rest) got =
    let later = read_request rest (got ++ chunk) in
    if has_headers (got ++ chunk) then request (got ++ chunk) else later

-- What becomes of the connection: closed without a Response; closed, and an exception leaves the
-- function; closed after the Response was destroyed; left open with its Response while an exception
-- leaves the function; or nothing that the language defines, a loop, or a wait.
pub data Connection (Cookie : Type 0) : Type 0 where
  dropped : Connection Cookie
  receive_failed : Exception → Connection Cookie
  served : Response Cookie → Connection Cookie
  left_open : Exception → Response Cookie → Connection Cookie
  unserved : Connection Cookie

abbrev receive_error : Exception
receive_error =
    runtime_error
      (text "void expresso::core::Server::handleConnection(int clientSocket) noexcept(false)")

abbrev pub connection_error : Exception
connection_error =
    runtime_error (text "void expresso::core::Server::handleConnection(int clientSocket)")

module _ {Cookie Json : Type 0} (lib : Brewtils) (serialize : Cookie → Text)
    (json : JsonParser Json) where
  -- The end of the try block, or the catch clause, whose first call throws: what stands behind it is
  -- not run.
  close_response : Result Done × Response Cookie → Connection Cookie
  close_response (ok done, r) = served (destroy lib serialize r)
  close_response (throw e, r) = left_open connection_error r

  -- `handle` is Router::handleRequest of the server.
  answer :
      (Request Json → Response Cookie → Result Done × Response Cookie)
      → Response Cookie
      → Parse (Request Json)
      → Connection Cookie
  unfolding close_response
  answer handle res (parsed req) = close_response (handle req res)
  answer handle res (failed e) = close_response (throw e, res)
  answer handle res undefined = unserved
  answer handle res endless = unserved

  serve_reading :
      (Request Json → Response Cookie → Result Done × Response Cookie)
      → Socket
      → Reading
      → Connection Cookie
  unfolding answer
  serve_reading handle socket broken = receive_failed receive_error
  serve_reading handle socket waiting = unserved
  serve_reading handle socket (request t) =
      if is_empty t
      then dropped
      else answer handle (new_response lib serialize socket) (make_request lib json t)

  pub handle_connection :
      (Request Json → Response Cookie → Result Done × Response Cookie)
      → Socket
      → List Chunk
      → Connection Cookie
  unfolding read_request serve_reading
  handle_connection handle socket chunks = serve_reading handle socket (read_request chunks [])
