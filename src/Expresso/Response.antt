-- ===== src/Expresso/Response.antt =====
-- src/messages/response.cpp, with getAvailableFile and generateETag of src/helpers/response.cpp. The
-- socket is the bytes that it has taken and the calls of brewtils::sys::send that it refuses.
pub mod Wire
pub mod Delivery
pub mod Archive
use mathlib.Core.Option
use lisa_lashes_demo.Base.{
  ℕ, zero, suc, ◌+◌, ◌-◌, ◌^◌, ◌%◌, Bool, true, false, ◌&&◌, ◌||◌, not, Option, none, some, List,
  [], ◌∷◌, ◌++◌, if◌then◌else◌, ◌==◌, leb, length, take, drop, String,
}
use lisa_lashes_demo.Base.Int.{ℤ, pos, negsuc, ltb_ℤ, leb_ℤ, ◌+ℤ◌, ◌-ℤ◌}
use lisa_lashes_demo.Base.Text.{Text, bytes, is_empty, decimal, decimal_int}
use lisa_lashes_demo.Http.{lookup}
use lisa_lashes_demo.Expresso.Libraries.{Brewtils, Files, put}

pub record Socket : Type 0 where
  pub sent : Text
  pub calls : ℕ
  pub breaks : ℕ → Bool

-- `Cookie` is mochios::messages::Cookie, whose `serialize` is a parameter.
pub record Response (Cookie : Type 0) : Type 0 where
  pub status_code : ℕ
  pub headers : List (Text × Text)
  pub message : Text
  pub cookies : List Cookie
  pub has_ended : Bool
  pub socket : Socket

abbrev pub crlf : Text
crlf = 13 ∷ 10 ∷ []

-- The bytes between the quotes of a C++ text, and two quotes around them.
abbrev pub quoted : Text → Text
quoted t = 34 ∷ (t ++ 34 ∷ [])

-- What send(2) does with the bytes.
abbrev pub taken : Text → Socket → Socket
taken text s =
    if s.breaks s.calls
    then record s { calls = s.calls + 1 }
    else record s { calls = s.calls + 1; sent = s.sent ++ text }

-- brewtils::os::file::exists
abbrev exists : Files → Text → Bool
exists files path = elim (files.file path) [ none ↦ false | some contents ↦ true ]

-- expresso::helpers::getAvailableFile; joinPath(path, "index.htm") and the same with an l.
unfoldable pub get_available_file : Brewtils → Files → Text → Text
get_available_file lib files path =
    let index = lib.join_path path (bytes "index.htm") in
    if exists files path
    then path
    else if exists files index
    then index
    else if exists files (index ++ b'l' ∷ [])
    then index ++ b'l' ∷ []
    else []

-- expresso::helpers::generateETag
pub generate_etag : Brewtils → Files → Text → Text
unfolding get_available_file
generate_etag lib files path = quoted (files.crc (get_available_file lib files path))

-- `availableFile.substr(availableFile.find_last_of('/') + 1)`
has_slash : Text → Bool
has_slash [] = false
has_slash (c ∷ t) = c == b'/' || has_slash t

pub file_name_of : Text → Text
unfolding has_slash
file_name_of [] = []
file_name_of (c ∷ t) = let rest = file_name_of t in if has_slash (c ∷ t) then rest else c ∷ t

module _ {Cookie : Type 0} where
  -- send(2), whose failure sets hasEnded.
  pub transmit : Text → Response Cookie → Response Cookie
  transmit text r = record r {
    socket = taken text r.socket;
    has_ended = r.has_ended || r.socket.breaks r.socket.calls;
  }

  unfoldable pub status : ℕ → Response Cookie → Response Cookie
  status code r = record r { status_code = code }

  unfoldable pub set_cookie : Cookie → Response Cookie → Response Cookie
  set_cookie cookie r = record r { cookies = r.cookies ++ cookie ∷ [] }

  -- The loop that reads chunks of 1024 bytes and sends each. A chunk that is refused stops it, and
  -- file.gcount() is still that chunk's length; otherwise it is the length of the last, short one.
  pub send_chunks : ℕ → Text → Response Cookie → Response Cookie
  unfolding transmit
  send_chunks zero rest r = r
  send_chunks (suc fuel) rest r =
      let chunk = take 1024 rest in
      let later = send_chunks fuel (drop 1024 rest) (transmit chunk r) in
      if leb 1024 (length rest)
      then (if r.socket.breaks r.socket.calls then transmit chunk (transmit chunk r) else later)
      else if is_empty rest
      then r
      else transmit rest r

  module _ (lib : Brewtils) (serialize : Cookie → Text) where
    unfoldable pub set : String → Text → Response Cookie → Response Cookie
    unfolding put
    set name value r = record r { headers = put (lib.lower (bytes name)) value r.headers }

    unfoldable pub get : String → Response Cookie → Text
    unfolding lookup
    get name r = Option.get_or (lookup (lib.lower (bytes name)) r.headers) []

    -- The constructor; `socket` is the client's.
    unfoldable pub new_response : Socket → Response Cookie
    unfolding set
    new_response socket = set "connection" (bytes "close") (record {
      status_code = 200;
      headers = [];
      message = [];
      cookies = [];
      has_ended = false;
      socket = socket;
    })

    pub header_lines : List (Text × Text) → Text
    header_lines [] = []
    header_lines ((name, value) ∷ rest) =
        name ++ (bytes ": " ++ (value ++ (crlf ++ header_lines rest)))

    pub cookie_lines : List Cookie → Text
    cookie_lines [] = []
    cookie_lines (c ∷ rest) = bytes "set-cookie: " ++ (serialize c ++ (crlf ++ cookie_lines rest))

    -- The text that sendHeaders builds.
    pub head : Response Cookie → Text
    unfolding header_lines cookie_lines decimal
    head r =
        bytes "HTTP/1.1 "
        ++ (decimal r.status_code
            ++ (crlf ++ (header_lines r.headers ++ (cookie_lines r.cookies ++ crlf))))

    pub send_headers : Response Cookie → Response Cookie
    unfolding head transmit
    send_headers r = transmit (head r) r

    finish : Response Cookie → Response Cookie
    finish r =
        if r.has_ended then r else record r { socket = taken r.message r.socket; has_ended = true }

    pub send_to_client : Response Cookie → Response Cookie
    unfolding set send_headers finish decimal
    send_to_client r = finish (send_headers (set "content-length" (decimal (length r.message)) r))

    unfoldable pub end : Response Cookie → Response Cookie
    unfolding send_to_client
    end r = if r.has_ended then r else send_to_client r

    -- The destructor does the same, and frees the cookies.
    unfoldable pub destroy : Response Cookie → Response Cookie
    unfolding send_to_client
    destroy r = if r.has_ended then r else send_to_client r

    unfoldable pub send : Text → Response Cookie → Response Cookie
    unfolding set
    send text r =
        set "content-type" (bytes "text/plain")
          (record r { message = lib.replace text (10 ∷ []) crlf ++ crlf })

    -- json(std::string); json(json::object) calls it with `dumps(0)` of the object.
    unfoldable pub json : Text → Response Cookie → Response Cookie
    unfolding set
    json text r = set "content-type" (bytes "application/json") (record r { message = text })

    unfoldable pub send_not_found : Response Cookie → Response Cookie
    unfolding status send end
    send_not_found r = end (send (bytes "Not Found") (status 404 r))

    pub send_invalid_range : Response Cookie → Response Cookie
    unfolding set status send end
    send_invalid_range r =
        end (send (bytes "Invalid Range") (status 416 (set "content-range" (bytes "bytes */") r)))

    -- The headers of a whole file, and those of a part.
    file_headers : Files → Text → Response Cookie → Response Cookie
    unfolding set generate_etag file_name_of
    file_headers files path r =
        let name = file_name_of path in
        set "etag" (generate_etag lib files path) (
          set "accept-ranges" (bytes "bytes") (
            set "content-disposition" (bytes "inline; filename=" ++ quoted name)
              (set "content-type" (lib.mime_type name) r)))

    range_headers : ℕ → ℤ → ℤ → Response Cookie → Response Cookie
    unfolding set status decimal decimal_int ◌+ℤ◌ ◌-ℤ◌
    range_headers size start last r =
        set "content-range"
          (bytes "bytes "
            ++ (decimal_int start
                ++ (bytes "-" ++ (decimal_int last ++ (bytes "/" ++ decimal size)))))
          (set "content-length" (decimal_int (last -ℤ start +ℤ pos 1)) (status 206 r))

    -- The bytes from `start`, as seekg and the loop read them.
    abbrev from_start : ℤ → Text → Text
    from_start (pos n) contents = drop n contents
    from_start (negsuc n) contents = contents

    -- A negative bound is one that is not given.
    abbrev bound : ℤ → ℤ → ℤ
    bound (pos n) default = pos n
    bound (negsuc n) default = default

    send_part : Files → Text → Text → ℤ → ℤ → Response Cookie → Response Cookie
    unfolding send_headers send_chunks set decimal file_headers range_headers
    send_part files path contents start last r =
        let size = length contents in
        let first = bound start (pos 0) in
        let whole = set "content-length" (decimal size) (file_headers files path r) in
        let part =
          range_headers size first (bound last (pos size -ℤ pos 1)) (file_headers files path r) in
        send_chunks (suc size) (from_start first contents)
          (send_headers (if leb_ℤ (pos 0) start || leb_ℤ (pos 0) last then part else whole))

    send_found : Files → Text → ℤ → ℤ → Option Text → Response Cookie → Response Cookie
    unfolding send_not_found send_invalid_range send_part
    send_found files path start last none r = send_not_found r
    send_found files path start last (some contents) r =
        let size = pos (length contents) in
        if leb_ℤ size start || leb_ℤ size last
        then send_invalid_range r
        else send_part files path contents start last r

    pub send_file : Files → Text → ℤ → ℤ → Response Cookie → Response Cookie
    unfolding get_available_file send_found send_not_found
    send_file files path start last r =
        let available = get_available_file lib files path in
        if is_empty available
        then send_not_found r
        else send_found files available start last (files.file available) r
