-- ===== src/Expresso/Server/Connection/Arrival.antt =====
-- What handleConnection does with a request whose bytes arrive in pieces.
use mathlib.Core.List.{append_assoc}
use lisa_lashes_demo.Base.{
  ℕ, ◌≡◌, ◌⊎◌, refl, sym, ap, subst, ◌∙◌, true, false, List, [], ◌∷◌, ◌++◌, arith, map,
  if◌then◌else◌, inl, inr, Bool-cases, Done, drop, length,
}
use lisa_lashes_demo.Base.Text.{Text, is_empty}
use lisa_lashes_demo.Db.Exec.{Exception, Result, ok, throw}
use lisa_lashes_demo.Expresso.Libraries.{Brewtils}
use lisa_lashes_demo.Expresso.Response.{Response, Socket, crlf, head, new_response, destroy}
use lisa_lashes_demo.Expresso.Response.Wire.{
  measured, destroy-has_ended, sent-destroy, destroy_ended,
}
use lisa_lashes_demo.Expresso.Server.{parsed, failed, Request, JsonParser, behind, make_request}
use lisa_lashes_demo.Expresso.Server.Parsing.{starts_with}
use lisa_lashes_demo.Expresso.Server.Connection.{
  Chunk, received, request, has_headers, read_request, served, left_open, connection_error,
  close_response, answer, serve_reading, handle_connection,
}

-- An empty line ends the headers.
abbrev pub Occurs : Text → Type 0
Occurs t = (before : Text) × (rest : Text) × (t ≡ before ++ ((crlf ++ crlf) ++ rest))

abbrev pub joined : List Text → Text
joined [] = []
joined (t ∷ ts) = t ++ joined ts

-- `t` is what has come when the headers are complete: the pieces before the last one do not hold
-- the empty line, and with the last one they do. `more` comes later.
pub record Arrives (t : Text) (chunks : List Chunk) : Type 0 where
  pub first : List Text
  pub last : Text
  pub more : List Chunk
  pub pieces : chunks ≡ map received first ++ received last ∷ more
  pub incomplete : Occurs (joined first) → ⊥
  pub total : t ≡ joined first ++ last
  pub complete : Occurs t

starts_with_sound : (s t : Text) → starts_with s t ≡ true → t ≡ s ++ drop (length s) t
unfolding starts_with
starts_with_sound [] t h = refl
starts_with_sound (c ∷ s) [] h = absurd (ground arith)
starts_with_sound (c ∷ s) (d ∷ t) h =
    let rest : starts_with s t ≡ true = ground arith in
    let same : d ≡ c = ground arith in rw⁻¹ (starts_with_sound s t rest) (ap (λ x. x ∷ t) same)

has_headers-now :
    (c : ℕ) (t : Text) → starts_with (crlf ++ crlf) (c ∷ t) ≡ true → has_headers (c ∷ t) ≡ true
unfolding has_headers behind
has_headers-now c t h = rw (has_headers, h) refl

has_headers-later :
    (c : ℕ) (t : Text)
    → starts_with (crlf ++ crlf) (c ∷ t) ≡ false
    → has_headers (c ∷ t) ≡ has_headers t
unfolding has_headers behind
has_headers-later c t h = rw (has_headers, h) refl

has_headers-Occurs : (t : Text) → has_headers t ≡ true → Occurs t
unfolding has_headers behind
has_headers-Occurs [] h = absurd (ground arith)
has_headers-Occurs (c ∷ t) h = elim (Bool-cases (starts_with (crlf ++ crlf) (c ∷ t))) [
  | inl now ↦ ([], drop 4 (c ∷ t), starts_with_sound (crlf ++ crlf) (c ∷ t) now)
  | inr later ↦
      let rest = has_headers-Occurs t (sym (has_headers-later c t later) ∙ h) in
      (c ∷ rest.0, rest.1, ap (◌∷◌ c) rest.2)
]

Occurs-has_headers : (before rest : Text) → has_headers (before ++ ((crlf ++ crlf) ++ rest)) ≡ true
unfolding starts_with
Occurs-has_headers [] rest = has_headers-now 13 (10 ∷ 13 ∷ 10 ∷ rest) refl
Occurs-has_headers (c ∷ before) rest =
    let t = before ++ ((crlf ++ crlf) ++ rest) in
    elim (Bool-cases (starts_with (crlf ++ crlf) (c ∷ t))) [
      | inl now ↦ has_headers-now c t now
      | inr later ↦ has_headers-later c t later ∙ Occurs-has_headers before rest
    ]

pub complete_lem : (t : Text) → Occurs t → has_headers t ≡ true
complete_lem t o = ap has_headers o.2 ∙ Occurs-has_headers o.0 o.1

incomplete_lem : (t : Text) → (Occurs t → ⊥) → has_headers t ≡ false
incomplete_lem t h = elim (Bool-cases (has_headers t)) [
  | inl e ↦ absurd (h (has_headers-Occurs t e))
  | inr e ↦ e
]

Occurs-append : (s t : Text) → Occurs s → Occurs (s ++ t)
Occurs-append s t o =
    (o.0, o.1 ++ t, ap (λ (x : Text). x ++ t) o.2 ∙ append_assoc o.0 ((crlf ++ crlf) ++ o.1) t)

read_request_lem :
    (first : List Text) (last : Text) (more : List Chunk) (got : Text)
    → (Occurs (got ++ joined first) → ⊥)
    → Occurs (got ++ (joined first ++ last))
    → read_request (map received first ++ received last ∷ more) got
      ≡ request (got ++ (joined first ++ last))
unfolding read_request
read_request_lem [] last more got h o = rw (complete_lem (got ++ last) o) refl
read_request_lem (t ∷ ts) last more got h o =
    let whole = append_assoc got t (joined ts) in
    let total = append_assoc got t (joined ts ++ last) in
    let inner = append_assoc t (joined ts) last in
    let same : (got ++ t) ++ (joined ts ++ last) ≡ got ++ ((t ++ joined ts) ++ last) =
      total ∙ ap (λ (x : Text). got ++ x) (sym inner) in
    let none_yet : has_headers (got ++ t) ≡ false =
      incomplete_lem (got ++ t)
        (λ e. h (subst Occurs whole (Occurs-append (got ++ t) (joined ts) e))) in
    rw none_yet (
      read_request_lem ts last more (got ++ t) (λ e. h (subst Occurs whole e))
        (subst Occurs (sym same) o)
      ∙ ap request same)

arrived : (t : Text) (chunks : List Chunk) → Arrives t chunks → read_request chunks [] ≡ request t
arrived t chunks a =
    ap (λ (cs : List Chunk). read_request cs []) a.pieces
    ∙ read_request_lem a.first a.last a.more [] a.incomplete (subst Occurs a.total a.complete)
    ∙ ap request (sym a.total)

not_empty : (t : Text) → Occurs t → is_empty t ≡ false
not_empty t o = rw o.2 (by_start o.0)
  where
    by_start : (before : Text) → is_empty (before ++ ((crlf ++ crlf) ++ o.1)) ≡ false
    by_start [] = refl
    by_start (c ∷ before) = refl

pub clash : true ≡ false → ⊥
clash h = ground arith

at_once : (t : Text) → Occurs t → Arrives t (received t ∷ [])
at_once t o = record {
  first = [];
  last = t;
  more = [];
  pieces = refl;
  incomplete = λ e. clash (not_empty [] e);
  total = refl;
  complete = o;
}

module _ {Cookie Json : Type 0} (lib : Brewtils) (serialize : Cookie → Text)
    (json : JsonParser Json)
    (handle : Request Json → Response Cookie → Result Done × Response Cookie) (socket : Socket)
    (chunks : List Chunk) (t : Text) (arrives : Arrives t chunks) where
  abbrev fresh : Response Cookie
  fresh = new_response lib serialize socket

  -- The request is what has come with the empty line, in whatever pieces, and what comes later is
  -- not read: a body behind the headers that is in a later packet is lost.
  pub handle_connection-Arrives :
      handle_connection lib serialize json handle socket chunks
      ≡ handle_connection lib serialize json handle socket (received t ∷ [])
  unfolding handle_connection
  handle_connection-Arrives =
      ap (serve_reading lib serialize json handle socket)
        (arrived t chunks arrives ∙ sym (arrived t _ (at_once t arrives.complete)))

  answered :
      handle_connection lib serialize json handle socket chunks
      ≡ answer lib serialize json handle fresh (make_request lib json t)
  unfolding handle_connection serve_reading
  answered = rw (arrived t chunks arrives, not_empty t arrives.complete) refl

  -- When a request cannot be parsed, or its handling throws, the connection is left open and the
  -- response is not destroyed: no "Bad Request" is sent, and an exception leaves handleConnection. The
  -- response is the one that was there when the exception was thrown.
  pub handle_connection-refused :
      (e : Exception) (r : Response Cookie)
      → ((make_request lib json t ≡ failed e) × (r ≡ fresh))
        ⊎ ((req : Request Json) × (make_request lib json t ≡ parsed req)
            × (handle req fresh ≡ (throw e, r)))
      → handle_connection lib serialize json handle socket chunks ≡ left_open connection_error r
  unfolding answer close_response
  handle_connection-refused e r (inl (bad, same)) = answered ∙ rw (bad, same) refl
  handle_connection-refused e r (inr (req, good, thrown)) = answered ∙ rw (good, thrown) refl

  -- A request whose handling returns is answered and the connection closed: what the handling left
  -- unsent, the headers with the length of the message and the message, is sent in full if the
  -- response was not ended, and nothing more if it was.
  pub handle_connection-served :
      (req : Request Json) (r : Response Cookie)
      → make_request lib json t ≡ parsed req
      → handle req fresh ≡ (ok tt, r)
      → ((n : ℕ) → r.socket.breaks n ≡ false)
      → (r' : Response Cookie) × (handle_connection lib serialize json handle socket chunks
          ≡ served r')
        × (r'.has_ended ≡ true)
        × (r'.socket.sent ≡ (
            if r.has_ended
            then r.socket.sent
            else r.socket.sent ++ (head lib serialize (measured lib serialize r) ++ r.message)))
  unfolding answer close_response
  handle_connection-served req r good returned steady = (
    destroy lib serialize r,
    answered ∙ rw (good, returned) refl,
    destroy-has_ended lib serialize r,
    elim (Bool-cases r.has_ended) [
      | inl e ↦
          ap (λ (x : Response Cookie). x.socket.sent) (destroy_ended lib serialize r e)
          ∙ sym (
              ap
                (λ b.
                  if b
                  then r.socket.sent
                  else r.socket.sent
                    ++ (head lib serialize (measured lib serialize r) ++ r.message))
                e)
      | inr e ↦
          sent-destroy lib serialize r (record { not_ended = e; steady = steady })
          ∙ sym (
              ap
                (λ b.
                  if b
                  then r.socket.sent
                  else r.socket.sent
                    ++ (head lib serialize (measured lib serialize r) ++ r.message))
                e)
    ],
  )
