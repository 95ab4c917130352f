-- ===== src/StartServer/Site.antt =====
-- The handlers of back/routes and AdminMiddleware as the routers call them: the state of an exchange
-- is the request, the response of the framework and the world of the database. The accounts are a
-- part of the database.
pub mod Guarded
use lisa_lashes_demo.Base.{ℕ, Bool, true, false, Option, none, some, List, String, Done}
use lisa_lashes_demo.Base.Int.{ℤ}
use lisa_lashes_demo.Base.Text.{Text, bytes}
use lisa_lashes_demo.Db.Exec.{Exec, Result, ok, throw, World}
use lisa_lashes_demo.Db.Exec.Zoom.{Lens, zoom}
use lisa_lashes_demo.Http
use lisa_lashes_demo.Http.{Body, no_body, message, what, payload}
use lisa_lashes_demo.Expresso.Libraries.{Brewtils}
use lisa_lashes_demo.Expresso.Response
use lisa_lashes_demo.Expresso.Router.{Exchange, Action}
use lisa_lashes_demo.Accounts.Tables.{Accounts}
use lisa_lashes_demo.Middleware
use lisa_lashes_demo.Middleware.{Passage, next, stop}

pub record Site (Cookie Json T : Type 0) : Type 0 where
  pub request : Http.Request Json
  pub response : Response.Response Cookie
  pub world : World T

-- What the server takes from its libraries: `make_cookie` is the constructor of Cookie that reads a
-- text, `dumps` that of json::object on what a handler answers with.
module _ {Cookie : Type 0} (lib : Brewtils) (serialize : Cookie → Text) where
  module _ {P : Type 0} (make_cookie : Text → Cookie) (dumps : Body P → Text) where
    put_cookie : Option Text → Response.Response Cookie → Response.Response Cookie
    unfolding Response.set_cookie
    put_cookie none r = r
    put_cookie (some t) r = Response.set_cookie (make_cookie t) r

    put_location : Option String → Response.Response Cookie → Response.Response Cookie
    unfolding Response.set
    put_location none r = r
    put_location (some path) r = Response.set lib serialize "location" (bytes path) r

    put_body : Body P → Response.Response Cookie → Response.Response Cookie
    unfolding Response.json
    put_body no_body r = r
    put_body (message t) r = Response.json lib serialize (dumps (message t)) r
    put_body (what t) r = Response.json lib serialize (dumps (what t)) r
    put_body (payload p) r = Response.json lib serialize (dumps (payload p)) r

    -- `res.status(...).json(...).end()`
    pub render : Http.Response P → Response.Response Cookie → Response.Response Cookie
    render reply r = Response.end lib serialize (
        put_body reply.body (
          Response.status reply.status
            (put_location reply.location (put_cookie reply.set_cookie r))))

    module _ {Json T : Type 0} where
      answered :
          Exchange (Site Cookie Json T)
          → Result (Http.Response P) × World T
          → Result Done × Exchange (Site Cookie Json T)
      answered ex (ok reply, w) = (
        ok tt,
        record ex {
          state = record ex.state { response = render reply ex.state.response; world = w };
        },
      )
      answered ex (throw e, w) = (throw e, record ex { state = record ex.state { world = w } })

      -- A handler on the request and the response.
      unfoldable pub handle :
          (Http.Request Json → Exec T (Http.Response P)) → Action (Site Cookie Json T) Done
      unfolding answered
      handle route ex = answered ex (route ex.state.request ex.state.world)

      passed_on :
          Exchange (Site Cookie Json T)
          → Result (Passage P) × World T
          → Result Bool × Exchange (Site Cookie Json T)
      passed_on ex (ok (next id), w) = (
        ok true,
        record ex {
          state = record ex.state {
            request = record ex.state.request { user_id = some id };
            world = w;
          };
        },
      )
      passed_on ex (ok (stop reply), w) = (
        ok false,
        record ex {
          state = record ex.state { response = render reply ex.state.response; world = w };
        },
      )
      passed_on ex (throw e, w) = (throw e, record ex { state = record ex.state { world = w } })

      -- AdminMiddleware::use on the request and the response. Of a request that it stops, nothing is read
      -- any more.
      unfoldable pub admin_use :
          {U : Type 0} → Lens T Accounts U → List ℕ → Action (Site Cookie Json T) Bool
      unfolding passed_on
      admin_use accounts junk ex =
          passed_on ex
            (zoom accounts (Middleware.admin {P = P} junk ex.state.request.cookies) ex.state.world)

  module _ {Json T : Type 0} where
    -- Response::end and Response::sendNotFound
    abbrev pub end_site : Site Cookie Json T → Site Cookie Json T
    end_site s = record s { response = Response.end lib serialize s.response }

    abbrev pub site_not_found : Site Cookie Json T → Site Cookie Json T
    site_not_found s = record s { response = Response.send_not_found lib serialize s.response }
