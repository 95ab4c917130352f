-- ===== src/Expresso/Response/Archive/Contents.antt =====
-- What reaches the client of sendFiles, on a connection that takes every byte.
use mathlib.Core.List.{append_assoc, append-nil}
use lisa_lashes_demo.Base.{
  Done, suc, ◌≡◌, refl, sym, ap, ◌∙◌, subst, false, some, List, [], ◌∷◌, ◌++◌, arith, length, All,
  All-append,
}
use lisa_lashes_demo.Base.Text.{Text, bytes}
use lisa_lashes_demo.Db.Exec.{Result, ok, throw}
use lisa_lashes_demo.Expresso.Libraries.{Brewtils, Files}
use lisa_lashes_demo.Expresso.Response.{Response, Socket, crlf, head, send_headers, set}
use lisa_lashes_demo.Expresso.Response.Wire.{IsOpen, Sent-IsOpen, send_headers-Sent}
use lisa_lashes_demo.Expresso.Response.Archive.{
  Archive, send_data, send_chunked_data, send_file_in_chunks, stored, send_entries, send_archive,
  archive_headers, send_zipped, send_files,
}
use lisa_lashes_demo.Expresso.Response.Archive.Chunked.{
  IsChunk, chunked, concat, decode_chunked, decode_chunked-chunked,
}
use lisa_lashes_demo.Expresso.Response.Archive.Pieces.{
  Steady, Delivered, Delivered-Steady, send_data-Delivered, nothing-Delivered, and_then-Delivered,
  chunk, send_chunked_data-Delivered, pieces, chunks, send_file_in_chunks-Delivered, concat-pieces,
  pieces-IsChunk, chunks-append, concat-append, chunks-chunked,
}

module _ (files : Files) where
  -- The headers and the files' contents, one behind the other.
  abbrev pub stored_entries : List (Text × Text) → Text
  stored_entries [] = []
  stored_entries ((header, path) ∷ rest) =
      header ++ (stored (files.file path) ++ stored_entries rest)

  -- The zip file.
  abbrev pub archive_bytes : Archive → Text
  archive_bytes archive = stored_entries archive.entries ++ archive.footer

  parts : List (Text × Text) → List Text
  parts [] = []
  parts ((header, path) ∷ rest) =
      let contents = stored (files.file path) in
      header ∷ (pieces (suc (length contents)) contents ++ parts rest)

  concat-parts : (entries : List (Text × Text)) → concat (parts entries) ≡ stored_entries entries
  unfolding parts
  concat-parts [] = refl
  concat-parts ((header, path) ∷ rest) =
      let contents = stored (files.file path) in
      ap (λ (t : Text). header ++ t)
        (concat-append (pieces (suc (length contents)) contents) (parts rest)
          ∙ ap (λ (t : Text). t ++ concat (parts rest))
              (concat-pieces (suc (length contents)) contents (omega arith))
          ∙ ap (λ (t : Text). contents ++ t) (concat-parts rest))

  abbrev pub HeadersAreChunks : List (Text × Text) → Type 0
  HeadersAreChunks [] = Unit
  HeadersAreChunks ((header, path) ∷ rest) = IsChunk header × HeadersAreChunks rest

  parts-IsChunk :
      (entries : List (Text × Text)) → HeadersAreChunks entries → All IsChunk (parts entries)
  unfolding parts
  parts-IsChunk [] h = tt
  parts-IsChunk ((header, path) ∷ rest) (chunk', h) =
      (chunk', All-append IsChunk _ _ (pieces-IsChunk _ _) (parts-IsChunk rest h))

  send_entries-Delivered :
      (entries : List (Text × Text)) (s : Socket)
      → Steady s
      → Delivered (chunks (parts entries)) s (send_entries files entries s)
  unfolding send_entries parts
  send_entries-Delivered [] s h = nothing-Delivered s
  send_entries-Delivered ((header, path) ∷ rest) s h =
      let contents = stored (files.file path) in
      let file_parts = pieces (suc (length contents)) contents in
      let first = send_chunked_data-Delivered header s h in
      let s' = (send_chunked_data header s).1 in
      let steady = Delivered-Steady first h in
      let second = send_file_in_chunks-Delivered (suc (length contents)) contents s' steady in
      let both =
        and_then-Delivered _ _ s _ (send_file_in_chunks (suc (length contents)) contents) first
          second in
      subst (λ (x : Text). Delivered x s (send_entries files ((header, path) ∷ rest) s))
        (append_assoc (chunk header) (chunks file_parts) (chunks (parts rest))
          ∙ ap (λ (t : Text). chunk header ++ t) (sym (chunks-append file_parts (parts rest))))
        (and_then-Delivered _ _ s _ (send_entries files rest) both
          (send_entries-Delivered rest _ (Delivered-Steady both h)))

  all_parts : Archive → List Text
  all_parts archive = parts archive.entries ++ archive.footer ∷ []

  send_archive-Delivered :
      (archive : Archive) (s : Socket)
      → Steady s
      → Delivered (chunked (all_parts archive)) s (send_archive files archive s)
  unfolding send_archive all_parts
  send_archive-Delivered archive s h =
      let entries = parts archive.entries in
      let first = send_entries-Delivered archive.entries s h in
      let s' = (send_entries files archive.entries s).1 in
      let second =
        and_then-Delivered _ _ s _ (send_chunked_data archive.footer) first
          (send_chunked_data-Delivered archive.footer s' (Delivered-Steady first h)) in
      subst (λ (x : Text). Delivered x s (send_archive files archive s))
        (ap (λ (t : Text). (chunks entries ++ t) ++ (bytes "0" ++ (crlf ++ crlf)))
            (sym (append-nil (chunk archive.footer)))
          ∙ ap (λ (t : Text). t ++ (bytes "0" ++ (crlf ++ crlf)))
              (sym (chunks-append entries (archive.footer ∷ [])))
          ∙ chunks-chunked (entries ++ archive.footer ∷ []))
        (and_then-Delivered _ _ s _ (send_data (bytes "0" ++ (crlf ++ crlf))) second
          (send_data-Delivered _ _ (Delivered-Steady second h)))

  concat-all_parts : (archive : Archive) → concat (all_parts archive) ≡ archive_bytes archive
  unfolding all_parts
  concat-all_parts archive =
      concat-append (parts archive.entries) (archive.footer ∷ [])
      ∙ ap (λ (t : Text). concat (parts archive.entries) ++ t) (append-nil archive.footer)
      ∙ ap (λ (t : Text). t ++ archive.footer) (concat-parts archive.entries)

  decode-all_parts :
      (archive : Archive)
      → HeadersAreChunks archive.entries
      → IsChunk archive.footer
      → decode_chunked (length (chunked (all_parts archive))) (chunked (all_parts archive))
        ≡ some (archive_bytes archive)
  unfolding all_parts
  decode-all_parts archive headers footer =
      decode_chunked-chunked (all_parts archive) (
        All-append IsChunk (parts archive.entries) (archive.footer ∷ [])
          (parts-IsChunk archive.entries headers) (footer, tt))
      ∙ ap some (concat-all_parts archive)

module _ {Cookie : Type 0} (lib : Brewtils) (serialize : Cookie → Text) (files : Files) where
  archive_headers-IsOpen :
      (name : Text) (r : Response Cookie) → IsOpen r → IsOpen (archive_headers lib serialize name r)
  unfolding archive_headers set
  archive_headers-IsOpen name r o = record { not_ended = o.not_ended; steady = o.steady }

  archive_headers-socket :
      (name : Text) (r : Response Cookie) → (archive_headers lib serialize name r).socket ≡ r.socket
  unfolding archive_headers set
  archive_headers-socket name r = refl

  -- What the client has been sent, by what became of the zipper.
  abbrev pub Zipped :
      Text → Response Cookie → Result Archive → Result Done × Response Cookie → Type 0
  Zipped name r (ok archive) sent =
      (body : Text) × (sent.0 ≡ ok tt)
      × (sent.1.socket.sent
          ≡ r.socket.sent ++ (head lib serialize (archive_headers lib serialize name r) ++ body))
      × (decode_chunked (length body) body ≡ some (archive_bytes files archive))
      × (sent.1.has_ended ≡ false)
  Zipped name r (throw e) sent =
      (sent.0 ≡ throw e)
      × (sent.1.socket.sent
          ≡ r.socket.sent ++ head lib serialize (archive_headers lib serialize name r))
      × (sent.1.has_ended ≡ false)

  -- The headers of the files and the footer are chunks.
  abbrev pub AreChunks : Result Archive → Type 0
  AreChunks (ok archive) = HeadersAreChunks files archive.entries × IsChunk archive.footer
  AreChunks (throw e) = Unit

  send_zipped-Zipped :
      (name : Text) (r : Response Cookie) (zipped : Result Archive)
      → IsOpen r
      → AreChunks zipped
      → Zipped name r zipped (
          send_zipped lib serialize files zipped
            (send_headers lib serialize (archive_headers lib serialize name r)))
  unfolding send_zipped
  send_zipped-Zipped name r (throw e) o c =
      let h = archive_headers lib serialize name r in
      let ready = archive_headers-IsOpen name r o in
      let announced = send_headers-Sent lib serialize h ready in
      (
        refl,
        announced.sent
            ∙ ap (λ (s : Socket). s.sent ++ head lib serialize h) (archive_headers-socket name r),
        (Sent-IsOpen announced ready).not_ended,
      )
  send_zipped-Zipped name r (ok archive) o (headers, footer) =
      let h = archive_headers lib serialize name r in
      let ready = archive_headers-IsOpen name r o in
      let announced = send_headers-Sent lib serialize h ready in
      let a = send_headers lib serialize h in
      let open' = Sent-IsOpen announced ready in
      let d = send_archive-Delivered files archive a.socket open'.steady in
      let body = chunked (all_parts files archive) in
      (
        body,
        refl,
        d.sent
            ∙ ap (λ (t : Text). t ++ body) announced.sent
            ∙ ap (λ (s : Socket). (s.sent ++ head lib serialize h) ++ body)
                (archive_headers-socket name r)
            ∙ append_assoc r.socket.sent (head lib serialize h) body,
        decode-all_parts files archive headers footer,
        rw (open'.not_ended, d.done) refl,
      )

  -- The client of sendFiles is sent the headers and a body in chunks that it decodes, in as many
  -- turns as the body has bytes, to the zip file: the headers and the contents of the files one
  -- behind the other, and the footer. No header and not the footer may be empty, since an empty chunk
  -- ends the body. When a path cannot be added to the zip file, the client is sent the headers only and
  -- the exception leaves sendFiles. The response is not ended in either case.
  pub send_files-decode_chunked :
      (zip : List Text → Result Archive) (paths : List Text) (name : Text) (r : Response Cookie)
      → IsOpen r
      → AreChunks (zip paths)
      → Zipped name r (zip paths) (send_files lib serialize files zip paths name r)
  unfolding send_files
  send_files-decode_chunked zip paths name r o c = send_zipped-Zipped name r (zip paths) o c
