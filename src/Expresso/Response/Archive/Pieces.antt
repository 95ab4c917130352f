-- ===== src/Expresso/Response/Archive/Pieces.antt =====
-- What reaches the client of the chunks of a text.
use mathlib.Core.List.{append_assoc, append-nil}
use lisa_lashes_demo.Base.{
  ℕ, zero, suc, ◌<◌, ◌≡◌, refl, sym, ap, ◌∙◌, subst, Bool, true, false, List, [], ◌∷◌, ◌++◌, arith,
  if◌then◌else◌, length, take, drop, All, length-drop, length-take-le, take-append-drop, Bool-cases,
  inl, inr,
}
use lisa_lashes_demo.Base.Text.{Text, bytes, is_empty}
use lisa_lashes_demo.Expresso.Response.{Socket, crlf}
use lisa_lashes_demo.Expresso.Response.Archive.{
  hexadecimal, send_data, and_then, send_chunked_data, send_file_in_chunks,
}
use lisa_lashes_demo.Expresso.Response.Archive.Chunked.{IsChunk, chunked, concat}

abbrev pub Steady : Socket → Type 0
Steady s = (n : ℕ) → s.breaks n ≡ false

-- The sending of `text` from `s` has succeeded.
pub record Delivered (text : Text) (s : Socket) (r : Bool × Socket) : Type 0 where
  pub done : r.0 ≡ true
  pub sent : r.1.sent ≡ s.sent ++ text
  pub breaks : r.1.breaks ≡ s.breaks

pub Delivered-Steady :
    {text : Text} {s : Socket} {r : Bool × Socket} → Delivered text s r → Steady s → Steady r.1
Delivered-Steady d h n = ap (λ (f : ℕ → Bool). f n) d.breaks ∙ h n

pub send_data-Delivered :
    (text : Text) (s : Socket) → Steady s → Delivered text s (send_data text s)
unfolding send_data
send_data-Delivered text s h =
    let b = h s.calls in record { done = ground arith; sent = ground arith; breaks = ground arith }

pub nothing-Delivered : (s : Socket) → Delivered [] s (true, s)
nothing-Delivered s = record { done = refl; sent = sym (append-nil s.sent); breaks = refl }

pub and_then-Delivered :
    (a b : Text) (s : Socket) (r : Bool × Socket) (f : Socket → Bool × Socket)
    → Delivered a s r
    → Delivered b r.1 (f r.1)
    → Delivered (a ++ b) s (and_then r f)
and_then-Delivered a b s (true, s') f d e = record {
  done = e.done;
  sent = e.sent ∙ ap (λ (t : Text). t ++ b) d.sent ∙ append_assoc s.sent a b;
  breaks = e.breaks ∙ d.breaks;
}
and_then-Delivered a b s (false, s') f d e = absurd (ground (arith, d.done))

-- One chunk as it is sent.
abbrev pub chunk : Text → Text
chunk t = hexadecimal (length t) ++ (crlf ++ (t ++ crlf))

pub send_chunked_data-Delivered :
    (t : Text) (s : Socket) → Steady s → Delivered (chunk t) s (send_chunked_data t s)
unfolding send_chunked_data
send_chunked_data-Delivered t s h =
    let first = send_data-Delivered (hexadecimal (length t) ++ crlf) s h in
    let s' = (send_data (hexadecimal (length t) ++ crlf) s).1 in
    let steady = Delivered-Steady first h in
    let second = send_data-Delivered t s' steady in
    subst (λ (x : Text). Delivered x s (send_chunked_data t s))
      (append_assoc (hexadecimal (length t)) crlf (t ++ crlf))
      (and_then-Delivered _ _ s _ _ first (
        and_then-Delivered _ _ s' _ _ second
          (send_data-Delivered crlf (send_data t s').1 (Delivered-Steady second steady))))

-- The pieces that a file is read in.
pub pieces : ℕ → Text → List Text
pieces zero rest = []
pieces (suc fuel) rest =
    let later = take 1024 rest ∷ pieces fuel (drop 1024 rest) in if is_empty rest then [] else later

abbrev pub chunks : List Text → Text
chunks [] = []
chunks (t ∷ ts) = chunk t ++ chunks ts

pub send_file_in_chunks-Delivered :
    (fuel : ℕ) (rest : Text) (s : Socket)
    → Steady s
    → Delivered (chunks (pieces fuel rest)) s (send_file_in_chunks fuel rest s)
unfolding send_file_in_chunks pieces
send_file_in_chunks-Delivered zero rest s h = nothing-Delivered s
send_file_in_chunks-Delivered (suc fuel) rest s h = elim (Bool-cases (is_empty rest)) [
  | inl e ↦ rw e (nothing-Delivered s)
  | inr e ↦
      let first = send_chunked_data-Delivered (take 1024 rest) s h in
      rw e (
        and_then-Delivered _ _ s _ _ first (
          send_file_in_chunks-Delivered fuel (drop 1024 rest)
            (send_chunked_data (take 1024 rest) s).1 (Delivered-Steady first h)))
]

pub concat-pieces : (fuel : ℕ) (rest : Text) → length rest < fuel → concat (pieces fuel rest) ≡ rest
unfolding pieces
concat-pieces zero rest h = absurd (omega arith)
concat-pieces (suc fuel) [] h = refl
concat-pieces (suc fuel) (c ∷ rest) h =
    ap (λ (t : Text). take 1024 (c ∷ rest) ++ t)
      (concat-pieces fuel (drop 1024 (c ∷ rest)) (omega (arith, length-drop 1024 (c ∷ rest))))
    ∙ take-append-drop 1024 (c ∷ rest)

piece-IsChunk : (c : ℕ) (rest : Text) → IsChunk (take 1024 (c ∷ rest))
piece-IsChunk c rest = (refl, omega (arith, length-take-le 1023 rest))

pub pieces-IsChunk : (fuel : ℕ) (rest : Text) → All IsChunk (pieces fuel rest)
unfolding pieces
pieces-IsChunk zero rest = tt
pieces-IsChunk (suc fuel) [] = tt
pieces-IsChunk (suc fuel) (c ∷ rest) =
    (piece-IsChunk c rest, pieces-IsChunk fuel (drop 1024 (c ∷ rest)))

pub chunks-append : (xs ys : List Text) → chunks (xs ++ ys) ≡ chunks xs ++ chunks ys
chunks-append [] ys = refl
chunks-append (x ∷ xs) ys =
    ap (λ (t : Text). chunk x ++ t) (chunks-append xs ys)
    ∙ sym (append_assoc (chunk x) (chunks xs) (chunks ys))

pub concat-append : (xs ys : List Text) → concat (xs ++ ys) ≡ concat xs ++ concat ys
concat-append [] ys = refl
concat-append (x ∷ xs) ys =
    ap (λ (t : Text). x ++ t) (concat-append xs ys) ∙ sym (append_assoc x (concat xs) (concat ys))

pub chunks-chunked : (ts : List Text) → chunks ts ++ (bytes "0" ++ (crlf ++ crlf)) ≡ chunked ts
unfolding chunked
chunks-chunked [] = refl
chunks-chunked (t ∷ ts) =
    let h = hexadecimal (length t) in
    let last = bytes "0" ++ (crlf ++ crlf) in
    append_assoc (chunk t) (chunks ts) last
    ∙ append_assoc h (crlf ++ (t ++ crlf)) (chunks ts ++ last)
    ∙ ap (λ (x : Text). h ++ (crlf ++ x))
        (append_assoc t crlf (chunks ts ++ last)
          ∙ ap (λ (x : Text). t ++ (crlf ++ x)) (chunks-chunked ts))
