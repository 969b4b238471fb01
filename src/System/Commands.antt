-- ===== src/System/Commands.antt =====
-- The way of a client's command: a device logs in at a gateway process, the northbound interface takes
-- the client's request, and the gateway process sends it to the device.
use coap_gateway.Prelude.{
  ℕ, ◌≡◌, ◌<◌, refl, true, false, none, some, [], ◌∷◌, length, arith, ap, ◌++◌,
}
use coap_gateway.Prelude.Int.{ℤ}
use coap_gateway.Prelude.Text.{Text, codes, text_eq_refl}
use coap_gateway.Go.{ret}
use coap_gateway.Map.{lookup, lookup-insert}
use coap_gateway.Routes.{Verb, route}
use coap_gateway.Routes as Routes
use coap_gateway.Registry.World.{IsCache}
use coap_gateway.Registry.Statements.{select_time_left}
use coap_gateway.Registry.Interface.{mysql_redis_registry}
use coap_gateway.Registry.Presence.{lookup_private_ip}
use coap_gateway.Http.{Exchange, begin, status_of, write_header, write, header_if}
use coap_gateway.Http as Http
use coap_gateway.Coap.Gateway.{Account, post, Request}
use coap_gateway.Coap.Session.{handle_session_update}
use coap_gateway.Coap.Session.Routing.{session_login_routes}
use coap_gateway.Coap.Routes.{coap_routes, session, serve}
use coap_gateway.Coap.Routes as Coap
use coap_gateway.Northbound.Routing.{responded}
use coap_gateway.Northbound.{Post}
use coap_gateway.Northbound.Routing.Answers.{post_to}
use coap_gateway.Northbound.Routes as Northbound
use coap_gateway.System.{
  Platform, Pod, System, Happening, asks_coap, asks_pod, asks_northbound, passes, happen,
  happen_all,
}
use coap_gateway.System.Steps.{
  forwarded, command, response_body, as_bridge, answers_with, after_coap, as_gateway, coap_step,
  northbound_step, pod_step,
}

-- The path of a client's request.
abbrev pub path_of : Http.Request → Text
path_of r = codes "/" ++ r.device_uuid ++ codes "/" ++ r.href

module _ (t : Platform) (pod : Text) where
  -- The way from the northbound process on.
  forward_steps :
      (verb : Verb) (url response : Text) (r : Http.Request) (s : System) (p : Pod) (client : ℕ)
      → route t.router Northbound.pages (verb, url) ≡ some Northbound.client_request_page
      → route t.router Coap.pages (Routes.post, path_of r) ≡ some Coap.client_request
      → r.unreadable ≡ false
      → (lookup_private_ip t.engine r.device_uuid s.world).0 ≡ ret (pod, none)
      → t.network (length s.posts) (post_to pod r)
        ≡ responded (response_body t.connections (as_bridge p) (forwarded r)) false
      → lookup pod s.pods ≡ some p
      → lookup r.device_uuid p.devices ≡ some client
      → t.connections.refused (command client r) ≡ false
      → t.connections.answer (length p.exchanges) (command client r) ≡ some response
      → let s' =
          happen_all t
            (asks_northbound verb url r ∷ asks_pod pod Routes.post (path_of r) (forwarded r) ∷ [])
            s in
        (s'.posts ≡ post_to pod r ∷ s.posts)
        × (s'.answers ≡ (200, response) ∷ s.answers)
        × ((p' : Pod) × (lookup pod s'.pods ≡ some p')
            × (p'.exchanges ≡ command client r ∷ p.exchanges))
  unfolding happen_all
  forward_steps verb url response r s p client m m' u l net q d ok answers =
      let w = (lookup_private_ip t.engine r.device_uuid s.world).1 in
      let e =
        northbound_step t pod verb url response r s w m u (ap (λ o. (o, w)) l)
          (rw (← answers_with t pod r (as_bridge p) client response d ok answers) net) in
      let s₁ = record s {
        world = w;
        posts = post_to pod r ∷ s.posts;
        answers = (200, response) ∷ s.answers;
      } in
      let p₁ : Pod = record p { exchanges = command client r ∷ p.exchanges } in
      rw (e, pod_step t pod Routes.post (path_of r) r s₁ p client q m' d ok)
        (refl, refl, (p₁, ground (arith, lookup-insert pod pod p₁ s.pods, text_eq_refl pod), refl))

module _ (t : Platform) (cache : IsCache t.engine) (pod path : Text) (req : Request) (s : System)
    (p : Pod) (a : Account) (left : ℤ) (n : ℕ) (verb : Verb) (url : Text) (r : Http.Request)
    (response : Text) (arrives : Post → Happening) where
  -- The gateway process after the login.
  abbrev pub logged_in : Pod
  logged_in =
      after_coap p
        (handle_session_update t.codec (mysql_redis_registry t.engine) pod req
          (as_gateway s.world p)).1

  -- In a deployment where nothing fails: after a device has logged in at a gateway process, and
  -- within the hour, a client's request to the northbound interface for that device goes out as one
  -- POST, to the host of the pod of that process, and the process, when this POST arrives, sends
  -- the href and the body of the client's request over the connection that the login came over; and
  -- if the device answers, the client gets 200 with the answer of the device. It is asked of the
  -- network that a POST to the host of a pod arrives at the process of that pod with its path and
  -- its body, and that its sender gets the body that this process writes.
  pub command_delivered :
      ((i : ℕ) → t.engine.fault i ≡ false)
      → ((i : ℕ) → t.codec.write_fails i ≡ false)
      → ((b : Account) → (t.codec.encode_account b).1 ≡ false)
      → lookup pod s.pods ≡ some p
      → route t.serve_mux coap_routes path ≡ some session
      → req.code ≡ post
      → t.codec.decode_account req.payload ≡ (a, false)
      → a.logged_in ≡ true
      → select_time_left t.engine a.device_id s.world.now s.world.db ≡ some (some left)
      → n < 3600
      → route t.router Northbound.pages (verb, url) ≡ some Northbound.client_request_page
      → route t.router Coap.pages (Routes.post, path_of r) ≡ some Coap.client_request
      → r.device_uuid ≡ a.device_id
      → r.unreadable ≡ false
      → arrives (post_to pod r) ≡ asks_pod pod Routes.post (path_of r) (forwarded r)
      → t.network (length s.posts) (post_to pod r)
        ≡ responded (response_body t.connections (as_bridge logged_in) (forwarded r)) false
      → t.connections.refused (command req.client r) ≡ false
      → t.connections.answer (length p.exchanges) (command req.client r) ≡ some response
      → let s' =
          happen_all t
            (asks_coap pod path req
              ∷ passes n
              ∷ asks_northbound verb url r
              ∷ arrives (post_to pod r)
              ∷ [])
            s in
        (s'.posts ≡ post_to pod r ∷ s.posts)
        × (s'.answers ≡ (200, response) ∷ s.answers)
        × ((p' : Pod) × (lookup pod s'.pods ≡ some p')
            × (p'.exchanges
                ≡ record { client = req.client; href = r.href; payload = r.body } ∷ p.exchanges))
  unfolding happen_all happen
  command_delivered quiet nf ne q m c d i l h m' m'' u b hop net ok answers =
      let (o, sent, routed, found) =
        session_login_routes t.codec t.engine cache pod req (as_gateway s.world p) a left quiet nf
          ne c d i l in
      rw (hop, coap_step t pod path req s p q m o)
        (forward_steps t pod verb url response r _ logged_in req.client m' m'' b
          (rw u (ground (arith, found n, h))) net
          (ground (arith, lookup-insert pod pod logged_in s.pods, text_eq_refl pod)) (rw u routed)
          ok answers)
