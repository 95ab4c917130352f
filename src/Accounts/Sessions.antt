-- ===== src/Accounts/Sessions.antt =====
-- The life of a session: from createSession to its end 24 hours later.
use mathlib.Core.Option
use lisa_lashes_demo.Base.{
  ℕ, ◌+◌, ◌≡◌, refl, ◌∙◌, ap, subst, Bool, true, false, ◌&&◌, Option, none, some, List, [], ◌∷◌,
  ◌++◌, arith, if◌then◌else◌, ltb, Done,
}
use lisa_lashes_demo.Base.Int.{ℤ}
use lisa_lashes_demo.Base.Text.{Text, text_eq, text_eq_refl}
use lisa_lashes_demo.Crypt.Sha256.{sha256}
use lisa_lashes_demo.Db.Exec.{ok, World, statement_at, ◌>>◌}
use lisa_lashes_demo.Db.Exec.Triple.{Outcome, Triple, Triple-pure, Triple-weaken}
use lisa_lashes_demo.Db.Exec.Query.{At, Triple-ask-At, Triple-query-At}
use lisa_lashes_demo.Accounts.{create_session, get_user_id_from_token}
use lisa_lashes_demo.Accounts.Tables.{
  Accounts, Session, find_session, live, new_session, session_seconds, insert_session,
  select_session,
}

none_lem :
    (b c : Bool) (x : Session) (rest : Option Session)
    → (if b then some x else rest) ≡ none
    → ((b && c) ≡ false) × (rest ≡ none)
none_lem true c x rest h = absurd (ground arith)
none_lem false c x rest h = (refl, h)

module _ (hash : Text) (user_id : ℤ) (now n : ℕ) where
  abbrev row : Session
  row = new_session user_id hash now

  find_session-append :
      (xs : List Session)
      → find_session (λ x. text_eq x.token_hash hash) xs ≡ none
      → find_session (live hash n) (xs ++ row ∷ [])
        ≡ (if ltb n (now + session_seconds) then some row else none)
  unfolding find_session
  find_session-append [] h = rw (text_eq_refl hash) refl
  find_session-append (x ∷ xs) h =
      let parts = none_lem (text_eq x.token_hash hash) (ltb n x.expires_at) x _ h in
      rw parts.0 (find_session-append xs parts.1)

  pub insert_session_lem :
      (s s' : Accounts) (u : Done)
      → insert_session user_id hash now s ≡ some (u, s')
      → (find_session (λ x. text_eq x.token_hash hash) s.sessions ≡ none)
        × (s'.sessions ≡ s.sessions ++ row ∷ [])
  unfolding insert_session
  insert_session_lem s s' u h = ground arith

module _ (junk : List ℕ) (token : Text) (id : ℤ) where
  abbrev hash : Text
  hash = sha256 junk token

  -- What createSession leaves when it returns.
  abbrev Opened : Accounts → ℕ → Text → World Accounts → Type 0
  Opened s now t w =
      (t ≡ token)
      × (find_session (λ x. text_eq x.token_hash hash) s.sessions ≡ none)
      × (w.tables.sessions ≡ s.sessions ++ new_session id hash now ∷ [])

  create_session_lem :
      (s : Accounts) (now : ℕ)
      → Triple (At now s) (create_session junk token id) (Opened s now) (λ w. Done)
  unfolding create_session ◌>>◌
  create_session_lem s now =
      Triple-ask-At now s (λ w h. tt) (insert_session id hash) _
        λ u s' e.
          let parts = insert_session_lem hash id now now s s' u e in
          Triple-pure token
            (λ w h. (refl, parts.0, ap (λ (a : Accounts). a.sessions) h.1 ∙ parts.1))

  lookup_lem :
      (s : Accounts) (n : ℕ)
      → Triple
          (At n s)
          (get_user_id_from_token junk token)
          (λ o w.
            (o ≡ Option.map (λ (x : Session). x.user_id) (find_session (live hash n) s.sessions))
            × (w.tables ≡ s))
          (λ w. w.tables ≡ s)
  unfolding get_user_id_from_token select_session
  lookup_lem s n =
      Triple-weaken (statement_at (select_session hash)) (λ w h. h) (λ o w h. ground arith)
        (λ w h. h.1) (Triple-query-At n s (select_session hash))

  found_lem :
      (b : Bool) (x : Session)
      → Option.map (λ (y : Session). y.user_id) (if b then some x else none)
        ≡ (if b then some x.user_id else none)
  found_lem true x = refl
  found_lem false x = refl

-- After a call of createSession that returned, getUserIdFromToken of the same token, asked at any
-- later or earlier time of tables with the same sessions, gives the session's user exactly when
-- that time is before 24 hours after the creation, and nobody otherwise; if a statement is refused
-- it throws. It changes no table.
pub create_session-get_user_id_from_token :
    (junk : List ℕ) (token t : Text) (id : ℤ) (w w' w'' : World Accounts)
    → create_session junk token id w ≡ (ok t, w')
    → w''.tables.sessions ≡ w'.tables.sessions
    → Outcome
        (λ o v.
          (o ≡ (if ltb w''.now (w.now + session_seconds) then some id else none))
          × (v.tables ≡ w''.tables))
        (λ v. v.tables ≡ w''.tables)
        (get_user_id_from_token junk t w'')
create_session-get_user_id_from_token junk token t id w w' w'' e same =
    let opened : Opened junk token id w.tables w.now t w' =
      subst (Outcome (Opened junk token id w.tables w.now) (λ v. Done)) e
        ((create_session_lem junk token id w.tables w.now).at w (refl, refl)) in
    let sessions = same ∙ opened.2 in
    let row : Session = new_session id (sha256 junk token) w.now in
    rw opened.0 (
      (Triple-weaken (get_user_id_from_token junk token) (λ v h. h)
          (λ o v h. (
            h.0
                ∙ ap
                    (λ xs.
                      Option.map (λ (x : Session). x.user_id)
                        (find_session (live (sha256 junk token) w''.now) xs))
                    sessions
                ∙ ap (Option.map (λ (x : Session). x.user_id)) (
                    find_session-append (sha256 junk token) id w.now w''.now w.tables.sessions
                      opened.1)
                ∙ found_lem junk token id (ltb w''.now (w.now + session_seconds)) row,
            h.1,
          ))
          (λ v h. h) (lookup_lem junk token id w''.tables w''.now)).at
        w'' (refl, refl))
