-- ===== src/System.antt =====
-- The whole deployment: gateway processes (main of pkg/app/coap-interface/main.go, with the CoAP server
-- of NewCoapServer) at the addresses of their pods, the northbound process (main of
-- cmd/northbound-interface/handlers.go), and the databases that they share.
pub mod Conserved
pub mod Sane
pub mod Lasting
pub mod Owned
pub mod Steps
pub mod Commands
pub mod Stale
pub mod Expiry
use coap_gateway.Prelude.{
  ℕ, ◌+◌, Bool, true, false, Option, none, some, List, [], ◌∷◌, if◌then◌else◌,
}
use coap_gateway.Prelude.Text.{Text}
use coap_gateway.Go.{Go, Outcome, ret, panics, exits, blocks}
use coap_gateway.Map.{Map, lookup, insert, delete}
use coap_gateway.Routes.{Verb, Mux, route}
use coap_gateway.Registry.World.{Engine, World}
use coap_gateway.Registry.Interface.{mysql_redis_registry}
use coap_gateway.Sessions.{Client, ClientContainer, Event, opened, closed, notify, no_sessions}
use coap_gateway.Http.{Exchange, begin, status_of}
use coap_gateway.Http as Http
use coap_gateway.Coap.Gateway.{Codec, Gateway, Request, Response}
use coap_gateway.Coap.Bridge.{Connections, CoapPost, Bridge}
use coap_gateway.Coap.Routes.{coap_routes, serve, Resource}
use coap_gateway.Coap.Routes as Coap
use coap_gateway.Northbound.{Json, Post, Site}
use coap_gateway.Northbound.Routing.{Network}
use coap_gateway.Northbound.Routes as Northbound

-- What the processes run on. Whether go-coap recovers the panic of a handler is open: if it does
-- not, the panic ends the process.
pub record Platform : Type 0 where
  pub engine : Engine
  pub codec : Codec
  pub connections : Connections
  pub json : Json
  pub network : Network
  pub serve_mux : Mux Text Text
  pub router : Mux (Verb × Text) (Verb × Text)
  pub recovers : Bool

-- A gateway process: the device container, the CoAP responses and requests that went out, the number
-- of writes, and the container of sessions.
pub record Pod : Type 0 where
  pub devices : Map ℕ
  pub sent : List Response
  pub writes : ℕ
  pub exchanges : List CoapPost
  pub container : ClientContainer

abbrev pub new_pod : Pod
new_pod = record { devices = []; sent = []; writes = 0; exchanges = []; container = no_sessions }

-- The requests of the northbound process to pods, and what its clients got, a status and a body
-- each, the last ones first.
pub record System : Type 0 where
  pub world : World
  pub pods : Map Pod
  pub posts : List Post
  pub answers : List (ℕ × Text)

-- What happens to it, one after another: a gateway process starts at an address, a connection to one
-- opens or closes, a CoAP request for a path comes over a connection, an HTTP request comes to a
-- gateway process or to the northbound process, or seconds pass.
pub data Happening : Type 0 where
  starts : Text → Happening
  notifies : Text → Event → Happening
  asks_coap : Text → Text → Request → Happening
  asks_pod : Text → Verb → Text → Http.Request → Happening
  asks_northbound : Verb → Text → Http.Request → Happening
  passes : ℕ → Happening

-- The gateway processes after one of them has run a handler: a log.Fatal ends it, with all that it
-- keeps in memory, and so does a panic that nothing recovers.
unfoldable pub survivors {ℓ} : {A : Type ℓ} → Bool → Text → Outcome A → Pod → Map Pod → Map Pod
survivors recovers addr (ret a) p pods = insert addr p pods
survivors recovers addr panics p pods = if recovers then insert addr p pods else delete addr pods
survivors recovers addr exits p pods = delete addr pods
survivors recovers addr blocks p pods = insert addr p pods

-- The answers to the clients of the northbound process; after a panic there is none.
unfoldable pub answered {ℓ} :
    {A : Type ℓ} → Outcome A → ℕ × Text → List (ℕ × Text) → List (ℕ × Text)
answered (ret a) answer answers = answer ∷ answers
answered panics answer answers = answers
answered exits answer answers = answers
answered blocks answer answers = answers

module _ (t : Platform) where
  -- NotifySessionNewFunc and NotifySessionEndFunc
  unfoldable pub notified : Text → Event → Pod → System → System
  notified addr ev p s =
      let (o, c) = notify ev p.container in
      record s { pods = survivors t.recovers addr o (record p { container = c }) s.pods }

  unfoldable pub served : Text → Option Resource → Request → Pod → System → System
  served addr none r p s = s
  served addr (some h) r p s =
      let (o, g) =
        serve t.codec (mysql_redis_registry t.engine) addr h r
          (record { store = s.world; devices = p.devices; sent = p.sent; writes = p.writes }) in
      record s {
        world = g.store;
        pods =
            survivors t.recovers addr o
              (record p { devices = g.devices; sent = g.sent; writes = g.writes }) s.pods;
      }

  -- net/http recovers the panic of a handler.
  unfoldable pub served_page : Text → Option Coap.Page → Http.Request → Pod → System → System
  served_page addr none r p s = s
  served_page addr (some h) r p s =
      let (o, x) =
        Coap.serve_page t.connections h r
          (begin (record { devices = p.devices; exchanges = p.exchanges })) in
      record s {
        pods =
            survivors true addr o
              (record p { devices = x.state.devices; exchanges = x.state.exchanges }) s.pods;
      }

  unfoldable pub served_northbound : Option Northbound.Page → Http.Request → System → System
  served_northbound none r s = s
  served_northbound (some h) r s =
      let (o, x) =
        Northbound.serve_page t.json t.network (mysql_redis_registry t.engine) h r
          (begin (record { store = s.world; posts = s.posts })) in
      record s {
        world = x.state.store;
        posts = x.state.posts;
        answers = answered o (status_of x, x.body) s.answers;
      }

  -- What comes to an address at which no process runs is lost.
  unfoldable pub at_pod : Option Pod → (Pod → System → System) → System → System
  at_pod none f s = s
  at_pod (some p) f s = f p s

  unfoldable pub happen : Happening → System → System
  unfolding at_pod notified served served_page served_northbound survivors answered
  happen (starts addr) s = record s { pods = insert addr new_pod s.pods }
  happen (notifies addr ev) s = at_pod (lookup addr s.pods) (notified addr ev) s
  happen (asks_coap addr path r) s =
      at_pod (lookup addr s.pods) (served addr (route t.serve_mux coap_routes path) r) s
  happen (asks_pod addr verb path r) s =
      at_pod (lookup addr s.pods) (served_page addr (route t.router Coap.pages (verb, path)) r) s
  happen (asks_northbound verb path r) s =
      served_northbound (route t.router Northbound.pages (verb, path)) r s
  happen (passes n) s = record s { world = record s.world { now = s.world.now + n } }

  unfoldable pub happen_all : List Happening → System → System
  happen_all [] s = s
  happen_all (h ∷ hs) s = happen_all hs (happen h s)
