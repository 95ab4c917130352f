-- ===== src/Expresso/Response/Archive/Chunked.antt =====
-- What a client reads of the chunks of sendFiles.
use mathlib.Core.Option
use mathlib.Core.List.{append_assoc}
use lisa_lashes_demo.Base.{
  ℕ, zero, suc, ◌+◌, ◌-◌, ◌*◌, ◌/◌, ◌%◌, ◌^◌, ◌<◌, ◌≡◌, refl, ap, ◌∙◌, false, ◌&&◌, Option, none,
  some, List, [], ◌∷◌, ◌++◌, arith, if◌then◌else◌, ltb, leb, ◌==◌, length, take, drop, All,
  length-append, take-append, drop-append, Bool-cases, inl, inr,
}
use lisa_lashes_demo.Base.Text.{Text, bytes, is_empty}
use lisa_lashes_demo.Expresso.Response.{crlf}
use lisa_lashes_demo.Expresso.Response.Archive.{hex_digit, hex_fuel, hexadecimal}

-- The chunked coding of RFC 9112, section 7.1, without extensions and trailers: the value of the
-- hexadecimal digits at the start, and the text behind them.
abbrev hex_value : ℕ → Option ℕ
hex_value c =
    if leb b'0' c && leb c b'9'
    then some (c - b'0')
    else if leb b'a' c && leb c b'f'
    then some (c - 87)
    else none

pub read_hex : ℕ → Text → ℕ × Text
read_hex n [] = (n, [])
read_hex n (c ∷ t) = elim (hex_value c) [ none ↦ (n, c ∷ t) | some d ↦ read_hex (n * 16 + d) t ]

abbrev after_crlf : Text → Option Text
after_crlf [] = none
after_crlf (c ∷ []) = none
after_crlf (c ∷ d ∷ t) = if c == 13 && d == 10 then some t else none

abbrev at_end : Option Text → Option Text
at_end (some []) = some []
at_end _ = none

joined : Text → Option Text → (Text → Option Text) → Option Text
joined t none again = none
joined t (some later) again = Option.map (λ t'. t ++ t') (again later)

sized : ℕ → Option Text → (Text → Option Text) → Option Text
unfolding joined
sized n none again = none
sized n (some rest) again =
    if n == 0
    then at_end (after_crlf rest)
    else joined (take n rest) (after_crlf (drop n rest)) again

chunk_at : ℕ × Text → (Text → Option Text) → Option Text
unfolding sized
chunk_at (n, line_end) again = sized n (after_crlf line_end) again

pub decode_chunked : ℕ → Text → Option Text
unfolding read_hex chunk_at
decode_chunked zero t = none
decode_chunked (suc fuel) t = chunk_at (read_hex 0 t) (decode_chunked fuel)

hex_value_digit : (d : ℕ) → d < 16 → hex_value (hex_digit d) ≡ some d
hex_value_digit d h = ground arith

read_hex-digit :
    (n d : ℕ) (t : Text) → d < 16 → read_hex n (hex_digit d ∷ t) ≡ read_hex (n * 16 + d) t
unfolding read_hex
read_hex-digit n d t h = rw (hex_value_digit d h, read_hex) refl

power_lem : (fuel n : ℕ) → n < 16 ^ suc fuel → n / 16 < 16 ^ fuel
power_lem fuel n h = omega arith

read_hex-hex_fuel :
    (fuel n : ℕ) (t : Text) → n < 16 ^ fuel → read_hex 0 (hex_fuel fuel n ++ t) ≡ read_hex n t
unfolding hex_fuel
read_hex-hex_fuel zero n t h = ap (λ (k : ℕ). read_hex k t) (omega arith)
read_hex-hex_fuel (suc fuel) n t h = elim (Bool-cases (ltb n 16)) [
  | inl small ↦
      rw small (read_hex-digit 0 n t (ground arith) ∙ ap (λ (k : ℕ). read_hex k t) (omega arith))
  | inr large ↦
      rw (large, append_assoc (hex_fuel fuel (n / 16)) (hex_digit (n % 16) ∷ []) t)
        (read_hex-hex_fuel fuel (n / 16) (hex_digit (n % 16) ∷ t) (power_lem fuel n h)
          ∙ read_hex-digit (n / 16) (n % 16) t (omega arith)
          ∙ ap (λ (k : ℕ). read_hex k t) (omega arith))
]

read_hex-hexadecimal :
    (n : ℕ) (t : Text) → n < 16 ^ 16 → read_hex 0 (hexadecimal n ++ (crlf ++ t)) ≡ (n, crlf ++ t)
unfolding hexadecimal read_hex
read_hex-hexadecimal n t h = read_hex-hex_fuel 16 n (crlf ++ t) h

-- A chunk that does not end the body, and whose length a size_t holds.
abbrev pub IsChunk : Text → Type 0
IsChunk t = (is_empty t ≡ false) × (length t < 16 ^ 16)

-- The chunks as they are sent, with the one that ends the body.
unfoldable pub chunked : List Text → Text
chunked [] = bytes "0" ++ (crlf ++ crlf)
chunked (t ∷ ts) = hexadecimal (length t) ++ (crlf ++ (t ++ (crlf ++ chunked ts)))

abbrev pub concat : List Text → Text
concat [] = []
concat (t ∷ ts) = t ++ concat ts

not_zero : (t : Text) → is_empty t ≡ false → (length t == 0) ≡ false
not_zero t h = ground arith

sized_lem :
    (fuel : ℕ) (t later : Text)
    → is_empty t ≡ false
    → sized (length t) (some (t ++ (crlf ++ later))) (decode_chunked fuel)
      ≡ Option.map (λ t'. t ++ t') (decode_chunked fuel later)
unfolding sized joined
sized_lem fuel t later h =
    rw (not_zero t h, drop-append t (crlf ++ later), take-append t (crlf ++ later)) refl

decode_chunk :
    (fuel : ℕ) (t later : Text)
    → IsChunk t
    → decode_chunked (suc fuel) (hexadecimal (length t) ++ (crlf ++ (t ++ (crlf ++ later))))
      ≡ Option.map (λ t'. t ++ t') (decode_chunked fuel later)
unfolding decode_chunked
decode_chunk fuel t later h =
    ap (λ p. chunk_at p (decode_chunked fuel))
      (read_hex-hexadecimal (length t) (t ++ (crlf ++ later)) h.1)
    ∙ sized_lem fuel t later h.0

decode_last : (fuel : ℕ) → decode_chunked (suc fuel) (bytes "0" ++ (crlf ++ crlf)) ≡ some []
unfolding decode_chunked read_hex
decode_last fuel = refl

decode-chunked :
    (fuel : ℕ) (ts : List Text)
    → length ts < fuel
    → All IsChunk ts
    → decode_chunked fuel (chunked ts) ≡ some (concat ts)
unfolding chunked
decode-chunked zero ts h all = absurd (omega arith)
decode-chunked (suc fuel) [] h all = decode_last fuel
decode-chunked (suc fuel) (t ∷ ts) h (chunk, all) =
    decode_chunk fuel t (chunked ts) chunk
    ∙ ap (Option.map (λ t'. t ++ t')) (decode-chunked fuel ts (omega arith) all)

length-chunked : (ts : List Text) → length ts < length (chunked ts)
unfolding chunked
length-chunked [] = omega arith
length-chunked (t ∷ ts) = omega (
  arith,
  length-chunked ts,
  length-append (hexadecimal (length t)) (crlf ++ (t ++ (crlf ++ chunked ts))),
  length-append t (crlf ++ chunked ts),
)

-- The client reads back what was sent in chunks, in as many turns as the body has bytes.
pub decode_chunked-chunked :
    (ts : List Text)
    → All IsChunk ts
    → decode_chunked (length (chunked ts)) (chunked ts) ≡ some (concat ts)
decode_chunked-chunked ts all = decode-chunked (length (chunked ts)) ts (length-chunked ts) all
