-- ===== src/StartServer/Site/Guarded.antt =====
-- What a request under api/admin/ can do without the rights of an administrator.
use lisa_lashes_demo.Base.{
  ℕ, ◌≡◌, ◌≢◌, refl, sym, subst, ap, ◌∙◌, Bool, true, false, none, List, ◌++◌, ◌⊎◌, inl, inr, Done,
}
use lisa_lashes_demo.Base.Int.{ℤ}
use lisa_lashes_demo.Base.Text.{Text, bytes}
use lisa_lashes_demo.Db.Exec.{Result, ok, throw, World}
use lisa_lashes_demo.Db.Exec.Triple.{Outcome}
use lisa_lashes_demo.Db.Exec.Zoom.{Lens, zoom, focus, zoomed-Outcome}
use lisa_lashes_demo.Http
use lisa_lashes_demo.Http.{Body, no_body, message, what, payload, unauthorized, forbidden}
use lisa_lashes_demo.Expresso.Libraries.{Brewtils}
use lisa_lashes_demo.Expresso.Response
use lisa_lashes_demo.Expresso.Response.Wire.{status_code-end, end-has_ended}
use lisa_lashes_demo.Expresso.Router.{Exchange, Action, head_method, handle_middlewares}
use lisa_lashes_demo.Accounts.Tables.{Accounts}
use lisa_lashes_demo.Middleware
use lisa_lashes_demo.Middleware.{Passage, next, stop}
use lisa_lashes_demo.Middleware.Access.{
  Authenticated, session_of_request, AdminAdmitted, has_admin_row, admin-AdminAdmitted,
}
use lisa_lashes_demo.StartServer.{Handlers, Middlewares, app_middlewares, serve}
use lisa_lashes_demo.StartServer.Admin.{serve_refused, serve_thrown}
use lisa_lashes_demo.StartServer.Site.{
  Site, admin_use, passed_on, render, put_body, end_site, site_not_found,
}

module _ {Cookie P : Type 0} (lib : Brewtils) (serialize : Cookie → Text)
    (make_cookie : Text → Cookie) (dumps : Body P → Text) where
  put_body-status_code :
      (body : Body P) (r : Response.Response Cookie)
      → (put_body lib serialize make_cookie dumps body r).status_code ≡ r.status_code
  unfolding put_body Response.json Response.set
  put_body-status_code no_body r = refl
  put_body-status_code (message t) r = refl
  put_body-status_code (what t) r = refl
  put_body-status_code (payload p) r = refl

  render-status_code :
      (reply : Http.Response P) (r : Response.Response Cookie)
      → (render lib serialize make_cookie dumps reply r).status_code ≡ reply.status
  unfolding render Response.status
  render-status_code reply r = status_code-end lib serialize _ ∙ put_body-status_code reply.body _

  render-has_ended :
      (reply : Http.Response P) (r : Response.Response Cookie)
      → (render lib serialize make_cookie dumps reply r).has_ended ≡ true
  unfolding render
  render-has_ended reply r = end-has_ended lib serialize _

-- Neither the accounts nor the rest of the database differ.
abbrev pub Unchanged : {T U : Type 0} → Lens T Accounts U → World T → World T → Type 0
Unchanged accounts w w' =
    (accounts.get w'.tables ≡ accounts.get w.tables)
    × (accounts.other w'.tables ≡ accounts.other w.tables)

-- Whoever the cookies authenticate is no administrator.
abbrev pub NoAdmin :
    {T U : Type 0} → Lens T Accounts U → List ℕ → List Http.Cookie → World T → Type 0
NoAdmin accounts junk cookies w =
    (id : ℤ)
    → Authenticated junk cookies w.now (accounts.get w.tables) id
    → has_admin_row junk cookies w.now (accounts.get w.tables) id ≡ false

clash : (b : Bool) → b ≡ true → b ≡ false → ⊥
clash true h k = cc
clash false h k = cc

module _ {Cookie Json T U : Type 0} (accounts : Lens T Accounts U) (junk : List ℕ)
    (cookies : List Http.Cookie) (w : World T) where
  -- The answer to a request of someone who is no administrator, with the database as it was.
  abbrev pub Refusal : Result Done × Exchange (Site Cookie Json T) → Type 0
  Refusal (ok done, ex) =
      Unchanged accounts w ex.state.world
      × (ex.state.response.has_ended ≡ true)
      × (((session_of_request junk cookies w.now (accounts.get w.tables) ≡ none)
            × (ex.state.response.status_code ≡ unauthorized))
          ⊎ ((id : ℤ) × Authenticated junk cookies w.now (accounts.get w.tables) id
              × (ex.state.response.status_code ≡ forbidden)))
  Refusal (throw e, ex) = Unchanged accounts w ex.state.world

module _ {Cookie Json T U P : Type 0} (lib : Brewtils) (serialize : Cookie → Text)
    (make_cookie : Text → Cookie) (dumps : Body P → Text) (accounts : Lens T Accounts U)
    (junk : List ℕ) (m : Middlewares (Site Cookie Json T)) where
  -- The middlewares with AdminMiddleware.
  abbrev pub guarded : Middlewares (Site Cookie Json T)
  guarded = record m { admin_middleware = admin_use lib serialize make_cookie dumps accounts junk }

  module _ (h : Handlers (Site Cookie Json T)) where
    abbrev pub serve_site : Action (Site Cookie Json T) Done
    serve_site = serve h guarded lib (end_site lib serialize) (site_not_found lib serialize)

    module _ (ex ex' : Exchange (Site Cookie Json T)) (rest : Text)
        (passed : handle_middlewares lib
            (end_site lib serialize)
            (site_not_found lib serialize)
            (app_middlewares h guarded)
            ex
          ≡ (ok true, ex'))
        (method : ex'.method ≢ head_method) (path : ex'.temp_path ≡ bytes "api/admin/" ++ rest)
        (no_admin : NoAdmin accounts junk ex'.state.request.cookies ex'.state.world) where
      abbrev inner : Exchange (Site Cookie Json T)
      inner = record ex' { temp_path = rest }

      abbrev rendered : Http.Response P → Response.Response Cookie
      rendered reply = render lib serialize make_cookie dumps reply ex'.state.response

      reason :
          (reply : Http.Response P) {status : ℕ}
          → status ≡ reply.status
          → AdminAdmitted junk ex'.state.request.cookies ex'.state.world.now
              (accounts.get ex'.state.world.tables)
              (stop reply)
          → ((session_of_request junk ex'.state.request.cookies ex'.state.world.now
                  (accounts.get ex'.state.world.tables)
                ≡ none)
              × (status ≡ unauthorized))
            ⊎ ((id : ℤ) × Authenticated junk ex'.state.request.cookies ex'.state.world.now
                  (accounts.get ex'.state.world.tables)
                  id
                × (status ≡ forbidden))
      reason reply e (inl (nobody, refusal)) = inl (nobody, e ∙ refusal)
      reason reply e (inr (id, known, right, refusal)) = inr (id, known, e ∙ refusal)

      by_answer :
          (r : Result (Passage P) × World T)
          → zoom accounts (Middleware.admin {P = P} junk ex'.state.request.cookies) ex'.state.world
            ≡ r
          → Outcome
              (λ passage w.
                (AdminAdmitted junk ex'.state.request.cookies ex'.state.world.now
                    (accounts.get ex'.state.world.tables)
                    passage
                  × (accounts.get w.tables ≡ accounts.get ex'.state.world.tables))
                × (accounts.other w.tables ≡ accounts.other ex'.state.world.tables))
              (λ w. Unchanged accounts ex'.state.world w)
              r
          → Refusal accounts junk ex'.state.request.cookies ex'.state.world (serve_site ex)
      unfolding admin_use passed_on
      by_answer (ok (next id), w) e o = absurd (clash _ o.0.0.1 (no_admin id o.0.0.0))
      by_answer (ok (stop reply), w) e o =
          subst (Refusal accounts junk ex'.state.request.cookies ex'.state.world)
            (sym (
              serve_refused h guarded lib (end_site lib serialize) (site_not_found lib serialize) ex
                ex' _ rest passed method path
                (ap (passed_on lib serialize make_cookie dumps inner) e)))
            (
              (o.0.1, o.1),
              end-has_ended lib serialize (rendered reply),
              reason reply
                  (status_code-end lib serialize (rendered reply)
                    ∙ render-status_code lib serialize make_cookie dumps reply ex'.state.response)
                  o.0.0,
            )
      by_answer (throw x, w) e o =
          subst (Refusal accounts junk ex'.state.request.cookies ex'.state.world)
            (sym (
              serve_thrown h guarded lib (end_site lib serialize) (site_not_found lib serialize) ex
                ex' _ x rest passed method path
                (ap (passed_on lib serialize make_cookie dumps inner) e)))
            o

    -- A request other than HEAD for a path under api/admin/ that the middlewares of the server let
    -- through, and whose session cookie does not name an unexpired session of an administrator,
    -- changes nothing in the database. Its handling throws, or it is answered: with 401 if there is
    -- no unexpired session, and with 403 only if there is one.
    pub serve_site-Refusal :
        (ex ex' : Exchange (Site Cookie Json T)) (rest : Text)
        → handle_middlewares lib
            (end_site lib serialize)
            (site_not_found lib serialize)
            (app_middlewares h guarded)
            ex
          ≡ (ok true, ex')
        → ex'.method ≢ head_method
        → ex'.temp_path ≡ bytes "api/admin/" ++ rest
        → NoAdmin accounts junk ex'.state.request.cookies ex'.state.world
        → Refusal accounts junk ex'.state.request.cookies ex'.state.world (serve_site ex)
    unfolding zoom
    serve_site-Refusal ex ex' rest passed method path no_admin =
        let w = ex'.state.world in
        let cookies = ex'.state.request.cookies in
        by_answer ex ex' rest passed method path no_admin _ refl (
          zoomed-Outcome accounts _ _ w (Middleware.admin {P = P} junk cookies (focus accounts w))
            (admin-AdminAdmitted P junk cookies (focus accounts w)))
