-- ===== src/System/Steps.antt =====
-- What each step on the way of a client's command does to the deployment.
use coap_gateway.Prelude.{ℕ, ◌≡◌, refl, false, none, some, [], ◌∷◌, length, arith}
use coap_gateway.Prelude.Text.{Text}
use coap_gateway.Go.{ret, ◌>>=◌}
use coap_gateway.Map.{lookup, insert}
use coap_gateway.Routes.{Verb, route}
use coap_gateway.Registry.World.{World}
use coap_gateway.Registry.Interface.{mysql_redis_registry}
use coap_gateway.Registry.Presence.{lookup_private_ip}
use coap_gateway.Http.{Exchange, begin, status_of, write_header, write, header_if}
use coap_gateway.Http as Http
use coap_gateway.Coap.Gateway.{Gateway, Request}
use coap_gateway.Coap.Session.{handle_session_update}
use coap_gateway.Coap.Bridge.{CoapPost, Bridge, Connections}
use coap_gateway.Coap.Bridge as Bridge
use coap_gateway.Coap.Routes.{coap_routes, account, session, serve}
use coap_gateway.Coap.Account.{handle_account_update_or_delete}
use coap_gateway.Coap.Routes as Coap
use coap_gateway.Northbound.{with_registry}
use coap_gateway.Northbound.Routing as Routing
use coap_gateway.Northbound.Routing.{responded}
use coap_gateway.Northbound.Routing.Answers.{post_to}
use coap_gateway.Northbound.Routes as Northbound
use coap_gateway.Sessions.{Client, Session, closed, notify, remove_session}
use coap_gateway.Sessions.Sound.{Sound, finished, finish_session-ok}
use coap_gateway.System.{
  Platform, notifies, notified, Pod, System, asks_coap, asks_pod, asks_northbound, survivors,
  served, served_page, served_northbound, at_pod, answered, happen,
}

-- The request that the northbound process sends on to a gateway process.
abbrev pub forwarded : Http.Request → Http.Request
forwarded r = record r { authorization = []; unreadable = false; malformed = false }

-- The CoAP request that the device gets.
abbrev pub command : ℕ → Http.Request → CoapPost
command client r = record { client = client; href = r.href; payload = r.body }

-- A pod with what a CoAP handler has left in memory.
abbrev pub after_coap : Pod → Gateway World → Pod
after_coap p g = record p { devices = g.devices; sent = g.sent; writes = g.writes }

abbrev pub as_gateway : World → Pod → Gateway World
as_gateway w p = record { store = w; devices = p.devices; sent = p.sent; writes = p.writes }

-- The body of the answer of a gateway process to a client's request.
abbrev pub response_body : Connections → Bridge → Http.Request → Text
response_body l b r = (Bridge.handle_client_request l r (begin b)).1.body

abbrev pub as_bridge : Pod → Bridge
as_bridge p = record { devices = p.devices; exchanges = p.exchanges }

module _ (t : Platform) (pod : Text) where
  pub account_step :
      (path : Text) (req : Request) (s : System) (p : Pod)
      → lookup pod s.pods ≡ some p
      → route t.serve_mux coap_routes path ≡ some account
      → let (o, g) =
          handle_account_update_or_delete t.codec
            (mysql_redis_registry t.engine)
            req
            (as_gateway s.world p) in
        o ≡ ret tt
        → happen t (asks_coap pod path req) s
          ≡ record s { world = g.store; pods = insert pod (after_coap p g) s.pods }
  unfolding happen at_pod served survivors serve
  account_step path req s p q m o = rw (q, m, o) refl

  pub coap_step :
      (path : Text) (req : Request) (s : System) (p : Pod)
      → lookup pod s.pods ≡ some p
      → route t.serve_mux coap_routes path ≡ some session
      → let (o, g) =
          handle_session_update t.codec
            (mysql_redis_registry t.engine)
            pod
            req
            (as_gateway s.world p) in
        o ≡ ret tt
        → happen t (asks_coap pod path req) s
          ≡ record s { world = g.store; pods = insert pod (after_coap p g) s.pods }
  unfolding happen at_pod served survivors serve
  coap_step path req s p q m o = rw (q, m, o) refl

  -- The northbound process has found the pod and has the pod's answer.
  pub northbound_step :
      (verb : Verb) (url response : Text) (r : Http.Request) (s : System) (w : World)
      → route t.router Northbound.pages (verb, url) ≡ some Northbound.client_request_page
      → r.unreadable ≡ false
      → lookup_private_ip t.engine r.device_uuid s.world ≡ (ret (pod, none), w)
      → t.network (length s.posts) (post_to pod r) ≡ responded response false
      → happen t (asks_northbound verb url r) s ≡ record s {
        world = w;
        posts = post_to pod r ∷ s.posts;
        answers = (200, response) ∷ s.answers;
      }
  unfolding happen served_northbound answered Northbound.serve_page Routing.handle_client_request
      with_registry header_if write write_header ◌>>=◌
  northbound_step verb url response r s w m u l n = rw (m, u, l, n) refl

  sends_command :
      (r : Http.Request) (b : Bridge) (client : ℕ)
      → lookup r.device_uuid b.devices ≡ some client
      → t.connections.refused (command client r) ≡ false
      → let (o, x) = Bridge.handle_client_request t.connections (forwarded r) (begin b) in
        (o ≡ ret tt) × (x.state ≡ record b { exchanges = command client r ∷ b.exchanges })
  unfolding Bridge.handle_client_request write_header write ◌>>=◌
  sends_command r b client d n = ground (arith, d, n)

  -- The device answers, and so does the gateway process.
  pub answers_with :
      (r : Http.Request) (b : Bridge) (client : ℕ) (response : Text)
      → lookup r.device_uuid b.devices ≡ some client
      → t.connections.refused (command client r) ≡ false
      → t.connections.answer (length b.exchanges) (command client r) ≡ some response
      → response_body t.connections b (forwarded r) ≡ response
  unfolding Bridge.handle_client_request Bridge.send_to Bridge.exchange Bridge.answer_client
      Bridge.unread Bridge.device_of write ◌>>=◌ lookup
  answers_with r b client response d n a = rw (d, n, a) refl

  pub pod_step :
      (verb : Verb) (url : Text) (r : Http.Request) (s : System) (p : Pod) (client : ℕ)
      → lookup pod s.pods ≡ some p
      → route t.router Coap.pages (verb, url) ≡ some Coap.client_request
      → lookup r.device_uuid p.devices ≡ some client
      → t.connections.refused (command client r) ≡ false
      → happen t (asks_pod pod verb url (forwarded r)) s ≡ record s {
        pods = insert pod (record p { exchanges = command client r ∷ p.exchanges }) s.pods;
      }
  unfolding happen at_pod served_page survivors Coap.serve_page
  pod_step verb url r s p client q m d n =
      let (o, x) =
        sends_command r (record { devices = p.devices; exchanges = p.exchanges }) client d n in
      rw (q, m, o, x) refl

  -- A connection with a session closes.
  pub close_step :
      (s : System) (p : Pod) (cl : Client) (old : Session)
      → lookup pod s.pods ≡ some p
      → (sound : Sound p.container) → lookup cl.local_addr p.container.sessions ≡ some old
      → happen t (notifies pod (closed cl)) s ≡ record s {
        pods =
            insert pod
              (record p { container = finished p.container cl.local_addr old sound })
              s.pods;
      }
  unfolding happen at_pod notified notify remove_session survivors
  close_step s p cl old q sound found =
      rw (q, finish_session-ok p.container cl.local_addr old sound found) refl
