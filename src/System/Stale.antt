-- ===== src/System/Stale.antt =====
-- What the end of a connection leaves of a device's login.
use coap_gateway.Prelude.{ℕ, ◌≡◌, refl, false, none, some, [], ◌∷◌, arith}
use coap_gateway.Prelude.Text.{Text, text_eq_refl}
use coap_gateway.Map.{lookup, insert, lookup-insert, lookup-delete}
use coap_gateway.Routes.{Verb, route}
use coap_gateway.Http.{Exchange, begin, status_of, write_header, write, header_if}
use coap_gateway.Http as Http
use coap_gateway.Coap.Routes.{coap_routes, session, serve}
use coap_gateway.Coap.Routes as Coap
use coap_gateway.Sessions.{Client, Session, closed}
use coap_gateway.Sessions.Sound.{Sound, finished}
use coap_gateway.System.{Platform, notifies, Pod, System, asks_pod, happen_all}
use coap_gateway.System.Steps.{forwarded, command, pod_step, close_step}

module _ (t : Platform) (pod : Text) (s : System) (p : Pod) (cl : Client) (old : Session)
    (client : ℕ) (verb : Verb) (url : Text) (r : Http.Request) where
  -- The end of a connection does not take its device out of the device container: while the sessions
  -- of the gateway process are sound, after a connection with a session has been closed, a client's
  -- request for a device that had logged in over any connection is still sent over that connection.
  pub closed_device_stays :
      lookup pod s.pods ≡ some p
      → Sound p.container
      → lookup cl.local_addr p.container.sessions ≡ some old
      → lookup r.device_uuid p.devices ≡ some client
      → route t.router Coap.pages (verb, url) ≡ some Coap.client_request
      → t.connections.refused (command client r) ≡ false
      → let s' =
          happen_all t (notifies pod (closed cl) ∷ asks_pod pod verb url (forwarded r) ∷ []) s in
        (p' : Pod) × (lookup pod s'.pods ≡ some p')
        × (p'.exchanges ≡ command client r ∷ p.exchanges)
        × (lookup r.device_uuid p'.devices ≡ some client)
        × (lookup cl.local_addr p'.container.sessions ≡ none)
  unfolding happen_all
  closed_device_stays q sound found d m ok =
      let c = finished p.container cl.local_addr old sound in
      let p₁ : Pod = record p { container = c } in
      let p₂ : Pod = record p₁ { exchanges = command client r ∷ p.exchanges } in
      let s₁ = record s { pods = insert pod p₁ s.pods } in
      let here : lookup pod s₁.pods ≡ some p₁ =
        ground (arith, lookup-insert pod pod p₁ s.pods, text_eq_refl pod) in
      rw
        (
          close_step t pod s p cl old q sound found,
          pod_step t pod verb url r s₁ p₁ client here m d ok,
        )
        (
          p₂,
          ground (arith, lookup-insert pod pod p₂ s₁.pods, text_eq_refl pod),
          refl,
          d,
          ground (
            arith,
            lookup-delete cl.local_addr cl.local_addr p.container.sessions,
            text_eq_refl cl.local_addr,
          ),
        )
