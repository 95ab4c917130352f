-- ===== src/Expresso/Response/Wire.antt =====
-- What reaches the client of a response, on a connection that takes every byte.
use mathlib.Core.List.{append_assoc, append-nil}
use lisa_lashes_demo.Base.{
  ℕ, zero, suc, ◌<◌, ◌≡◌, refl, sym, ap, ◌∙◌, Bool, true, false, [], ◌∷◌, ◌++◌, subst, String,
  arith, length, take, drop, leb, if◌then◌else◌, length-drop, take-append-drop,
}
use lisa_lashes_demo.Base.Text.{Text, bytes, is_empty, text_eq, decimal}
use lisa_lashes_demo.Expresso.Libraries.{Brewtils, lookup-put, lookup-put_of_ne}
use lisa_lashes_demo.Expresso.Response.{
  Response, transmit, send_chunks, set, get, head, send_headers, finish, send_to_client, end,
  destroy,
}

-- A response that nothing was sent of, on a connection that is not closed.
pub record IsOpen {Cookie : Type 0} (r : Response Cookie) : Type 0 where
  pub not_ended : r.has_ended ≡ false
  pub steady : (n : ℕ) → r.socket.breaks n ≡ false

-- `r'` is `r` after its client was sent `text`.
pub record Sent {Cookie : Type 0} (text : Text) (r r' : Response Cookie) : Type 0 where
  pub same : r' ≡ record r { socket = r'.socket }
  pub sent : r'.socket.sent ≡ r.socket.sent ++ text
  pub breaks : r'.socket.breaks ≡ r.socket.breaks

module _ {Cookie : Type 0} where
  transmit-Sent : (text : Text) (r : Response Cookie) → IsOpen r → Sent text r (transmit text r)
  unfolding transmit
  transmit-Sent text r o =
      let b = o.steady r.socket.calls in
      let e = o.not_ended in
      record { same = ground arith; sent = ground arith; breaks = ground arith }

  pub Sent-IsOpen : {text : Text} {r r' : Response Cookie} → Sent text r r' → IsOpen r → IsOpen r'
  Sent-IsOpen {r' = r'} s o = record {
    not_ended = ap (λ (x : Response Cookie). x.has_ended) s.same ∙ o.not_ended;
    steady = λ n. ap (λ (f : ℕ → Bool). f n) s.breaks ∙ o.steady n;
  }

  pub Sent-then :
      {a b : Text} {r r' r'' : Response Cookie} → Sent a r r' → Sent b r' r'' → Sent (a ++ b) r r''
  Sent-then {a} {b} {r} {r'} {r''} s t = record {
    same = t.same ∙ ap (λ (x : Response Cookie). record x { socket = r''.socket }) s.same;
    sent = t.sent ∙ ap (λ (x : Text). x ++ b) s.sent ∙ append_assoc r.socket.sent a b;
    breaks = t.breaks ∙ s.breaks;
  }

  nothing-Sent : (r : Response Cookie) → Sent [] r r
  nothing-Sent r = record { same = refl; sent = sym (append-nil r.socket.sent); breaks = refl }

  last_chunk-Sent :
      (rest : Text) (r : Response Cookie)
      → IsOpen r
      → Sent rest r (if is_empty rest then r else transmit rest r)
  last_chunk-Sent [] r o = nothing-Sent r
  last_chunk-Sent (c ∷ rest) r o = transmit-Sent (c ∷ rest) r o

  choice-Sent :
      {text : Text} {r : Response Cookie} (full broken : Bool) (again later short : Response Cookie)
      → broken ≡ false
      → (full ≡ true → Sent text r later)
      → Sent text r short
      → Sent text r (if full then (if broken then again else later) else short)
  choice-Sent true true again later short h f s = absurd (ground arith)
  choice-Sent true false again later short h f s = f refl
  choice-Sent false broken again later short h f s = s

  -- The chunks are the text, when the fuel is more than its length.
  pub send_chunks-Sent :
      (fuel : ℕ) (rest : Text) (r : Response Cookie)
      → length rest < fuel
      → IsOpen r
      → Sent rest r (send_chunks fuel rest r)
  unfolding send_chunks
  send_chunks-Sent zero rest r h o = absurd (omega arith)
  send_chunks-Sent (suc fuel) rest r h o =
      let first = transmit-Sent (take 1024 rest) r o in
      let h' = length-drop 1024 rest in
      choice-Sent (leb 1024 (length rest)) (r.socket.breaks r.socket.calls) _ _ _
        (o.steady r.socket.calls)
        (λ full.
          subst
            (λ (t : Text).
              Sent t r (send_chunks fuel (drop 1024 rest) (transmit (take 1024 rest) r)))
            (take-append-drop 1024 rest)
            (Sent-then first (
              send_chunks-Sent fuel (drop 1024 rest) (transmit (take 1024 rest) r) (ground arith)
                (Sent-IsOpen first o))))
        (last_chunk-Sent rest r o)

  module _ (lib : Brewtils) (serialize : Cookie → Text) where
    -- The headers of `end`.
    unfoldable pub measured : Response Cookie → Response Cookie
    measured r = set lib serialize "content-length" (decimal (length r.message)) r

    measured-IsOpen : (r : Response Cookie) → IsOpen r → IsOpen (measured r)
    unfolding measured set
    measured-IsOpen r o = record { not_ended = o.not_ended; steady = o.steady }

    status_code-finish :
        (r : Response Cookie) → (finish lib serialize r).status_code ≡ r.status_code
    unfolding finish
    status_code-finish r = ground arith

    status_code-send_to_client :
        (r : Response Cookie) → (send_to_client lib serialize r).status_code ≡ r.status_code
    unfolding send_to_client send_headers transmit set measured
    status_code-send_to_client r = status_code-finish (send_headers lib serialize (measured r))

    pub status_code-end : (r : Response Cookie) → (end lib serialize r).status_code ≡ r.status_code
    unfolding end
    status_code-end r =
        unchanged r.has_ended (send_to_client lib serialize r) (status_code-send_to_client r)
      where
        unchanged :
            (b : Bool) (x : Response Cookie)
            → x.status_code ≡ r.status_code
            → (if b then r else x).status_code ≡ r.status_code
        unchanged true x e = refl
        unchanged false x e = e

    pub end-has_ended : (r : Response Cookie) → (end lib serialize r).has_ended ≡ true
    unfolding end send_to_client finish
    end-has_ended r = ground arith

    pub destroy-has_ended : (r : Response Cookie) → (destroy lib serialize r).has_ended ≡ true
    unfolding destroy send_to_client finish
    destroy-has_ended r = ground arith

    pub end_ended : (r : Response Cookie) → r.has_ended ≡ true → end lib serialize r ≡ r
    unfolding end
    end_ended r h = rw h refl

    pub destroy_ended : (r : Response Cookie) → r.has_ended ≡ true → destroy lib serialize r ≡ r
    unfolding destroy
    destroy_ended r h = rw h refl

    end_open :
        (r : Response Cookie)
        → IsOpen r
        → end lib serialize r ≡ finish lib serialize (send_headers lib serialize (measured r))
    unfolding end send_to_client measured
    end_open r o = rw o.not_ended refl

    finish_open :
        (r : Response Cookie)
        → IsOpen r
        → (finish lib serialize r).socket.sent ≡ r.socket.sent ++ r.message
    unfolding finish
    finish_open r o = rw (o.not_ended, o.steady r.socket.calls) refl

    pub send_headers-Sent :
        (r : Response Cookie)
        → IsOpen r
        → Sent (head lib serialize r) r (send_headers lib serialize r)
    unfolding send_headers
    send_headers-Sent r o = transmit-Sent (head lib serialize r) r o

    pub sent-end :
        (r : Response Cookie)
        → IsOpen r
        → (end lib serialize r).socket.sent
          ≡ r.socket.sent ++ (head lib serialize (measured r) ++ r.message)
    unfolding measured set
    sent-end r o =
        let m = measured-IsOpen r o in
        let s = send_headers-Sent (measured r) m in
        ap (λ (x : Response Cookie). x.socket.sent) (end_open r o)
        ∙ finish_open (send_headers lib serialize (measured r)) (Sent-IsOpen s m)
        ∙ ap
            (λ (x : Response Cookie).
              (send_headers lib serialize (measured r)).socket.sent ++ x.message)
            s.same
        ∙ ap (λ (x : Text). x ++ r.message) s.sent
        ∙ append_assoc r.socket.sent (head lib serialize (measured r)) r.message

    pub sent-destroy :
        (r : Response Cookie)
        → IsOpen r
        → (destroy lib serialize r).socket.sent
          ≡ r.socket.sent ++ (head lib serialize (measured r) ++ r.message)
    unfolding destroy end
    sent-destroy r o = sent-end r o

    pub get-set :
        (name : String) (value : Text) (r : Response Cookie)
        → get lib serialize name (set lib serialize name value r) ≡ value
    unfolding get set
    get-set name value r = rw (lookup-put (lib.lower (bytes name)) value r.headers) refl

    pub get-set_of_ne :
        (name other : String) (value : Text) (r : Response Cookie)
        → text_eq (lib.lower (bytes name)) (lib.lower (bytes other)) ≡ false
        → get lib serialize other (set lib serialize name value r) ≡ get lib serialize other r
    unfolding get set
    get-set_of_ne name other value r h =
        rw (lookup-put_of_ne (lib.lower (bytes name)) (lib.lower (bytes other)) value r.headers h)
          refl
