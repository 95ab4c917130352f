-- ===== src/Expresso/Response/Delivery.antt =====
-- What reaches the client of a file, on a connection that takes every byte.
use lisa_lashes_demo.Base.{
  ℕ, suc, ◌+◌, ◌-◌, ◌≤◌, ◌<◌, ◌≡◌, refl, ap, ◌∙◌, true, false, some, ◌++◌, arith, length, drop, leb,
  length-drop,
}
use lisa_lashes_demo.Base.Int.{pos, negsuc, ◌-ℤ◌, ◌+ℤ◌}
use lisa_lashes_demo.Base.Text.{Text, bytes, is_empty, text_eq, decimal, decimal_int}
use lisa_lashes_demo.Expresso.Libraries.{Brewtils, Files}
use lisa_lashes_demo.Expresso.Response.{
  Response, get_available_file, send_chunks, set, get, status, head, send_headers, end,
  file_headers, range_headers, send_part, send_found, send_file,
}
use lisa_lashes_demo.Expresso.Response.Wire.{
  IsOpen, Sent, Sent-IsOpen, Sent-then, send_chunks-Sent, send_headers-Sent, measured, sent-end,
  get-set, get-set_of_ne,
}

module _ {Cookie : Type 0} (lib : Brewtils) (serialize : Cookie → Text) (files : Files) where
  -- The response that a whole file is announced with.
  pub whole_file : Text → Text → Response Cookie → Response Cookie
  whole_file path contents r =
      set lib serialize "content-length" (decimal (length contents))
        (file_headers lib serialize files path r)

  whole_file-IsOpen :
      (path contents : Text) (r : Response Cookie) → IsOpen r → IsOpen (whole_file path contents r)
  unfolding whole_file set file_headers
  whole_file-IsOpen path contents r o = record { not_ended = o.not_ended; steady = o.steady }

  send_file_whole :
      (path file contents : Text) (r : Response Cookie)
      → get_available_file lib files path ≡ file
      → is_empty file ≡ false
      → files.file file ≡ some contents
      → send_file lib serialize files path (negsuc 0) (negsuc 0) r
        ≡ send_chunks
            (suc (length contents))
            contents
            (send_headers lib serialize (whole_file file contents r))
  unfolding send_file send_found send_part whole_file
  send_file_whole path file contents r e n c =
      let small : leb (length contents + 1) 0 ≡ false = ground arith in rw (e, n, c, small) refl

  -- The headers, then the text, with fuel for its length.
  announced-Sent :
      (fuel : ℕ) (text : Text) (r : Response Cookie)
      → IsOpen r
      → length text < fuel
      → Sent (head lib serialize r ++ text) r (send_chunks fuel text (send_headers lib serialize r))
  announced-Sent fuel text r o enough =
      let h = send_headers-Sent lib serialize r o in
      Sent-then h
        (send_chunks-Sent fuel text (send_headers lib serialize r) enough (Sent-IsOpen h o))

  -- The bytes that a whole file is sent with.
  pub sent-send_file :
      (path file contents : Text) (r : Response Cookie)
      → IsOpen r
      → get_available_file lib files path ≡ file
      → is_empty file ≡ false
      → files.file file ≡ some contents
      → (send_file lib serialize files path (negsuc 0) (negsuc 0) r).socket.sent
        ≡ r.socket.sent ++ (head lib serialize (whole_file file contents r) ++ contents)
  unfolding whole_file file_headers set
  sent-send_file path file contents r o e n c =
      let h = whole_file file contents r in
      ap (λ (x : Response Cookie). x.socket.sent) (send_file_whole path file contents r e n c)
      ∙ (announced-Sent (suc (length contents)) contents h (whole_file-IsOpen file contents r o)
          (omega arith)).sent

  -- `end` after a response that was announced by hand.
  end_announced :
      (contents : Text) (h x : Response Cookie)
      → IsOpen h
      → Sent (head lib serialize h ++ contents) h x
      → (end lib serialize x).socket.sent
        ≡ (h.socket.sent ++ (head lib serialize h ++ contents))
          ++ (head lib serialize (measured lib serialize h) ++ h.message)
  unfolding head measured set
  end_announced contents h x o s =
      sent-end lib serialize x (Sent-IsOpen s o)
      ∙ ap (λ (t : Text). t ++ (head lib serialize (measured lib serialize x) ++ x.message)) s.sent
      ∙ ap
          (λ (y : Response Cookie).
            (h.socket.sent ++ (head lib serialize h ++ contents))
            ++ (head lib serialize (measured lib serialize y) ++ y.message))
          s.same

  -- A whole file is sent behind its headers, and does not end the response: the `end` with which the
  -- router stops after StaticServe sends a second status line, second headers and the empty text
  -- behind the file.
  pub send_file-end :
      (path file contents : Text) (r : Response Cookie)
      → IsOpen r
      → get_available_file lib files path ≡ file
      → is_empty file ≡ false
      → files.file file ≡ some contents
      → (end lib serialize (send_file lib serialize files path (negsuc 0) (negsuc 0) r)).socket.sent
        ≡ (r.socket.sent ++ (head lib serialize (whole_file file contents r) ++ contents))
          ++ (head lib serialize (measured lib serialize (whole_file file contents r)) ++ r.message)
  unfolding whole_file file_headers set
  send_file-end path file contents r o e n c =
      let h = whole_file file contents r in
      let ready = whole_file-IsOpen file contents r o in
      ap (λ (x : Response Cookie). (end lib serialize x).socket.sent)
        (send_file_whole path file contents r e n c)
      ∙ end_announced contents h _ ready (announced-Sent _ contents h ready (omega arith))

  -- The response that a part of a file is announced with.
  pub part_of_file : Text → Text → ℕ → ℕ → Response Cookie → Response Cookie
  part_of_file path contents start last r =
      range_headers lib serialize (length contents) (pos start) (pos last)
        (file_headers lib serialize files path r)

  part_of_file-IsOpen :
      (path contents : Text) (start last : ℕ) (r : Response Cookie)
      → IsOpen r
      → IsOpen (part_of_file path contents start last r)
  unfolding part_of_file set file_headers range_headers status
  part_of_file-IsOpen path contents start last r o = record {
    not_ended = o.not_ended;
    steady = o.steady;
  }

  send_file_part :
      (path file contents : Text) (start last : ℕ) (r : Response Cookie)
      → get_available_file lib files path ≡ file
      → is_empty file ≡ false
      → files.file file ≡ some contents
      → start < length contents
      → last < length contents
      → send_file lib serialize files path (pos start) (pos last) r
        ≡ send_chunks
            (suc (length contents))
            (drop start contents)
            (send_headers lib serialize (part_of_file file contents start last r))
  unfolding send_file send_found send_part part_of_file
  send_file_part path file contents start last r e n c s l =
      let first : leb (length contents + 0) (start + 0) ≡ false = ground arith in
      let second : leb (length contents + 0) (last + 0) ≡ false = ground arith in
      let given : leb 0 (start + 0) ≡ true = ground arith in rw (e, n, c, first, second, given) refl

  gap : (start last : ℕ) → start ≤ last → pos last -ℤ pos start +ℤ pos 1 ≡ pos (last - start + 1)
  unfolding ◌-ℤ◌ ◌+ℤ◌
  gap start last h = ground arith

  get-range_headers :
      (size start last : ℕ) (r : Response Cookie)
      → start ≤ last
      → text_eq (lib.lower (bytes "content-range")) (lib.lower (bytes "content-length")) ≡ false
      → get lib serialize "content-length"
          (range_headers lib serialize size (pos start) (pos last) r)
        ≡ decimal (last - start + 1)
  unfolding range_headers decimal_int
  get-range_headers size start last r h ne =
      get-set_of_ne lib serialize "content-range" "content-length" _ _ ne
      ∙ get-set lib serialize "content-length" _ _
      ∙ ap decimal_int (gap start last h)

  -- For a range of a file, the status is 206 and content-length counts the bytes from the first to
  -- the last one asked for, but the bytes sent go to the end of the file.
  pub send_file_range :
      (path file contents : Text) (start last : ℕ) (r : Response Cookie)
      → IsOpen r
      → get_available_file lib files path ≡ file
      → is_empty file ≡ false
      → files.file file ≡ some contents
      → start ≤ last
      → last < length contents
      → text_eq (lib.lower (bytes "content-range")) (lib.lower (bytes "content-length")) ≡ false
      → ((send_file lib serialize files path (pos start) (pos last) r).socket.sent
          ≡ r.socket.sent
            ++ (head lib serialize (part_of_file file contents start last r)
                ++ drop start contents))
        × ((part_of_file file contents start last r).status_code ≡ 206)
        × (get lib serialize "content-length" (part_of_file file contents start last r)
            ≡ decimal (last - start + 1))
  unfolding part_of_file file_headers range_headers set status
  send_file_range path file contents start last r o e n c s l ne =
      let h = part_of_file file contents start last r in
      let ready = part_of_file-IsOpen file contents start last r o in
      let shorter = length-drop start contents in
      let sent =
        announced-Sent (suc (length contents)) (drop start contents) h ready (omega arith) in
      (
        ap (λ (x : Response Cookie). x.socket.sent)
              (send_file_part path file contents start last r e n c (omega arith) l)
            ∙ sent.sent,
        refl,
        get-range_headers (length contents) start last (file_headers lib serialize files file r) s
            ne,
      )
