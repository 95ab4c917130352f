-- ===== src/Expresso/Response/Archive.antt =====
-- sendFiles of src/messages/response.cpp, with sendChunkedData and sendFileInChunks of
-- src/helpers/response.cpp.
pub mod Chunked
pub mod Pieces
pub mod Contents
use lisa_lashes_demo.Base.{
  ℕ, zero, suc, ◌+◌, ◌/◌, ◌%◌, Bool, true, false, ◌||◌, not, Option, none, some, List, [], ◌∷◌,
  ◌++◌, if◌then◌else◌, ltb, length, take, drop, Done,
}
use lisa_lashes_demo.Base.Text.{Text, bytes, is_empty, text_eq}
use lisa_lashes_demo.Db.Exec.{Result, ok, throw}
use lisa_lashes_demo.Expresso.Libraries.{Brewtils, Files}
use lisa_lashes_demo.Expresso.Response.{Response, Socket, crlf, quoted, taken, set, send_headers}

-- What a zippuccino::Zipper gives after `zip`: the results of getHeader and getCurrentFile until it
-- is finished, and that of getFooter.
pub record Archive : Type 0 where
  pub entries : List (Text × Text)
  pub footer : Text

-- std::hex of a size_t, which has at most sixteen digits.
abbrev pub hex_digit : ℕ → ℕ
hex_digit d = if ltb d 10 then b'0' + d else 87 + d

unfoldable pub hex_fuel : ℕ → ℕ → Text
hex_fuel zero n = []
hex_fuel (suc fuel) n =
    let rest = hex_fuel fuel (n / 16) ++ hex_digit (n % 16) ∷ [] in
    if ltb n 16 then hex_digit n ∷ [] else rest

pub hexadecimal : ℕ → Text
unfolding hex_fuel
hexadecimal n = hex_fuel 16 n

-- `map.erase(key)`
unfoldable pub erase : Text → List (Text × Text) → List (Text × Text)
erase key [] = []
erase key ((k, v) ∷ rest) = if text_eq k key then rest else (k, v) ∷ erase key rest

-- `brewtils::sys::send(...) != -1`
pub send_data : Text → Socket → Bool × Socket
send_data text s = (not (s.breaks s.calls), taken text s)

-- A failure ends the function.
abbrev pub and_then : Bool × Socket → (Socket → Bool × Socket) → Bool × Socket
and_then (true, s) f = f s
and_then (false, s) f = (false, s)

pub send_chunked_data : Text → Socket → Bool × Socket
unfolding send_data hexadecimal
send_chunked_data text s =
    and_then (send_data (hexadecimal (length text) ++ crlf) s)
      (λ s'. and_then (send_data text s') (send_data crlf))

-- The loop of sendFileInChunks over what is left of the file.
pub send_file_in_chunks : ℕ → Text → Socket → Bool × Socket
unfolding send_chunked_data
send_file_in_chunks zero rest s = (true, s)
send_file_in_chunks (suc fuel) rest s =
    let later =
      and_then (send_chunked_data (take 1024 rest) s) (send_file_in_chunks fuel (drop 1024 rest)) in
    if is_empty rest then (true, s) else later

-- Of a file that cannot be opened nothing is read.
abbrev pub stored : Option Text → Text
stored none = []
stored (some contents) = contents

module _ (files : Files) where
  -- The loop until isFinished.
  pub send_entries : List (Text × Text) → Socket → Bool × Socket
  unfolding send_chunked_data send_file_in_chunks
  send_entries [] s = (true, s)
  send_entries ((header, path) ∷ rest) s =
      let contents = stored (files.file path) in
      and_then
        (and_then (send_chunked_data header s)
          (send_file_in_chunks (suc (length contents)) contents))
        (send_entries rest)

  pub send_archive : Archive → Socket → Bool × Socket
  unfolding send_entries send_chunked_data send_data
  send_archive archive s =
      and_then (and_then (send_entries archive.entries s) (send_chunked_data archive.footer))
        (send_data (bytes "0" ++ (crlf ++ crlf)))

module _ {Cookie : Type 0} (lib : Brewtils) (serialize : Cookie → Text) where
  -- The headers that a zip file is announced with.
  pub archive_headers : Text → Response Cookie → Response Cookie
  unfolding set erase
  archive_headers zip_file_name r = set lib serialize "accept-ranges" (bytes "bytes") (
      set lib serialize "content-disposition" (bytes "inline; filename=" ++ quoted zip_file_name) (
        set lib serialize "content-type" (lib.mime_type zip_file_name) (
          set lib serialize "transfer-encoding" (bytes "chunked")
            (record r { headers = erase (bytes "content-length") r.headers }))))

  abbrev after_sending : Response Cookie → Bool × Socket → Response Cookie
  after_sending r (sent, s) = record r { socket = s; has_ended = r.has_ended || not sent }

  -- The sending to a response that was announced; Zipper::add throws before anything of the archive
  -- is sent, and outside of the try block.
  send_zipped : Files → Result Archive → Response Cookie → Result Done × Response Cookie
  unfolding send_archive
  send_zipped files (ok archive) announced =
      (ok tt, after_sending announced (send_archive files archive announced.socket))
  send_zipped files (throw e) announced = (throw e, announced)

  -- `zip paths` is a zipper to which the paths were added, or the exception of one that is neither a
  -- file nor a directory.
  pub send_files :
      Files
      → (List Text → Result Archive)
      → List Text
      → Text
      → Response Cookie
      → Result Done × Response Cookie
  unfolding archive_headers send_headers send_zipped
  send_files files zip paths zip_file_name r =
      send_zipped files (zip paths) (send_headers lib serialize (archive_headers zip_file_name r))
