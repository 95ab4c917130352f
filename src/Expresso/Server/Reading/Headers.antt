-- ===== src/Expresso/Server/Reading/Headers.antt =====
-- The lines of headers that a client writes, and what setHeader and the loop of
-- makeRequest make of them.
use mathlib.Core.List.{append_assoc}
use lisa_lashes_demo.Base.{
  ℕ, suc, ◌-◌, ◌≡◌, refl, sym, ap, subst, ◌∙◌, Bool, true, false, ◌&&◌, List, [], ◌∷◌, ◌++◌, arith,
  if◌then◌else◌, length, take-append, length-append, ◌⊎◌, inl, inr, Bool-cases,
}
use lisa_lashes_demo.Base.Int.{ℤ}
use lisa_lashes_demo.Base.Text.{Text, bytes, text_eq, text_eq_sound}
use lisa_lashes_demo.Db.Exec.{Result, ok, throw}
use lisa_lashes_demo.Http.{int_of}
use lisa_lashes_demo.Expresso.Libraries.{Brewtils, put}
use lisa_lashes_demo.Expresso.Response.{crlf}
use lisa_lashes_demo.Expresso.Server.{
  Free, lines-line, Parse, parsed, ◌>>=◌, cut, lines, Request, JsonParser, set_header, set_line,
  parse_headers,
}
use lisa_lashes_demo.Expresso.Server.Queries.{cut-append}

-- "name: value" and the end of the line, for each header.
unfoldable pub header_text : List (Text × Text) → Text
header_text [] = []
header_text ((name, value) ∷ rest) =
    (name ++ (b':' ∷ 32 ∷ (value ++ 13 ∷ []))) ++ (10 ∷ header_text rest)

abbrev number_or : Result ℤ → ℤ → ℤ
number_or (ok n) old = n
number_or (throw e) old = old

not_both : (b : Bool) → b ≡ true → b ≡ false → ⊥
not_both true h k = cc
not_both false h k = cc

pub Free-append : (c : ℕ) (s t : Text) → Free c s → Free c t → Free c (s ++ t)
Free-append c [] t h k = k
Free-append c (d ∷ s) t (first, h) k = (first, Free-append c s t h k)

Free-header :
    (name value : Text)
    → Free 10 name
    → Free 10 value
    → Free 10 (name ++ (b':' ∷ 32 ∷ (value ++ 13 ∷ [])))
Free-header name value h k =
    Free-append 10 name (b':' ∷ 32 ∷ (value ++ 13 ∷ [])) h
      (refl, (refl, Free-append 10 value (13 ∷ []) k (refl, tt)))

-- The line of a header is not the last one.
not_last : (name value : Text) → text_eq (name ++ b':' ∷ 32 ∷ value) (13 ∷ []) ≡ false
unfolding text_eq
not_last [] value = refl
not_last (c ∷ []) value = ground arith
not_last (c ∷ d ∷ name) value = ground arith

module _ (lib : Brewtils) where
  -- No ':' in the name, no end of line in either, and for content-length a number.
  abbrev pub IsHeader : Text → Text → Type 0
  IsHeader name value =
      Free b':' name
      × Free 10 name
      × Free 10 value
      × ((text_eq (lib.lower name) (bytes "content-length") ≡ false)
          ⊎ ((n : ℤ) × (int_of value ≡ ok n)))

  abbrev pub AreHeaders : List (Text × Text) → Type 0
  AreHeaders [] = Unit
  AreHeaders ((name, value) ∷ rest) = IsHeader name value × AreHeaders rest

  module _ {Json : Type 0} where
    -- The request with one more header.
    pub with_header : Text → Text → Request Json → Request Json
    with_header key value req = record req {
      headers = put key value req.headers;
      content_length =
          if text_eq key (bytes "content-length")
          then number_or (int_of value) req.content_length
          else req.content_length;
      host = if text_eq key (bytes "host") then value else req.host;
      xhr =
          if text_eq key (bytes "x-requested-with") && text_eq value (bytes "XMLHttpRequest")
          then true
          else req.xhr;
    }

    unfoldable pub with_headers : List (Text × Text) → Request Json → Request Json
    with_headers [] req = req
    with_headers ((name, value) ∷ rest) req =
        with_headers rest (with_header (lib.lower name) value req)

    module _ (json : JsonParser Json) where
      content_length_lem :
          (value : Text) (req : Request Json) (n : ℤ)
          → int_of value ≡ ok n
          → set_header lib json (bytes "content-length") value req
            ≡ parsed (with_header (bytes "content-length") value req)
      unfolding set_header with_header text_eq
      content_length_lem value req n e = rw e refl

      host_lem :
          (value : Text) (req : Request Json)
          → set_header lib json (bytes "host") value req
            ≡ parsed (with_header (bytes "host") value req)
      unfolding set_header with_header text_eq
      host_lem value req = refl

      other_lem :
          (key value : Text) (req : Request Json)
          → text_eq key (bytes "content-length") ≡ false
          → text_eq key (bytes "host") ≡ false
          → set_header lib json key value req ≡ parsed (with_header key value req)
      unfolding set_header with_header
      other_lem key value req c h =
          elim (Bool-cases
            (text_eq key (bytes "x-requested-with") && text_eq value (bytes "XMLHttpRequest"))) [
              | inl x ↦ rw (c, h, x) refl
              | inr x ↦ rw (c, h, x) refl
            ]

      set_header-with_header :
          (key value : Text) (req : Request Json)
          → ((text_eq key (bytes "content-length") ≡ false) ⊎ ((n : ℤ) × (int_of value ≡ ok n)))
          → set_header lib json key value req ≡ parsed (with_header key value req)
      set_header-with_header key value req number =
          elim (Bool-cases (text_eq key (bytes "content-length"))) [
            | inl c ↦
                subst
                  (λ (k : Text). set_header lib json k value req ≡ parsed (with_header k value req))
                  (sym (text_eq_sound key _ c)) (by_number c number)
            | inr c ↦ elim (Bool-cases (text_eq key (bytes "host"))) [
              | inl h ↦
                  subst
                    (λ (k : Text).
                      set_header lib json k value req ≡ parsed (with_header k value req))
                    (sym (text_eq_sound key _ h)) (host_lem value req)
              | inr h ↦ other_lem key value req c h
            ]
          ]
        where
          by_number :
              text_eq key (bytes "content-length") ≡ true
              → ((text_eq key (bytes "content-length") ≡ false) ⊎ ((n : ℤ) × (int_of value ≡ ok n)))
              → set_header lib json (bytes "content-length") value req
                ≡ parsed (with_header (bytes "content-length") value req)
          by_number c (inl other) = absurd (not_both _ c other)
          by_number c (inr (n, e)) = content_length_lem value req n e

      -- One line of a header.
      set_line-with_header :
          (name value : Text) (req : Request Json)
          → IsHeader name value
          → set_line lib json (cut b':' (name ++ (b':' ∷ 32 ∷ (value ++ 13 ∷ [])))) req
            ≡ parsed (with_header (lib.lower name) value req)
      unfolding set_line
      set_line-with_header name value req h =
          let n : suc (length (value ++ 13 ∷ [])) - 2 ≡ length value =
            omega (arith, length-append value (13 ∷ [])) in
          rw (cut-append b':' name (32 ∷ (value ++ 13 ∷ [])) h.0, n, take-append value (13 ∷ []))
            (set_header-with_header (lib.lower name) value req h.3)

      pub parse_headers-header_text :
          (headers : List (Text × Text)) (req : Request Json)
          → AreHeaders headers
          → parse_headers lib json (lines (header_text headers ++ crlf)) req
            ≡ parsed (with_headers headers req)
      unfolding header_text with_headers parse_headers lines text_eq
      parse_headers-header_text [] req h = refl
      parse_headers-header_text ((name, value) ∷ rest) req (header, headers) =
          let line = name ++ (b':' ∷ 32 ∷ (value ++ 13 ∷ [])) in
          ap (λ (t : Text). parse_headers lib json (lines t) req)
            (append_assoc line (10 ∷ header_text rest) crlf)
          ∙ ap (λ (ls : List Text). parse_headers lib json ls req)
              (lines-line line (header_text rest ++ crlf)
                (Free-header name value header.1 header.2))
          ∙ rw (not_last name (value ++ 13 ∷ [])) (
              ap
                (λ (r : Parse (Request Json)).
                  r >>= parse_headers lib json (lines (header_text rest ++ crlf)))
                (set_line-with_header name value req header)
              ∙ parse_headers-header_text rest (with_header (lib.lower name) value req) headers)
