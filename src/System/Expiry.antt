-- ===== src/System/Expiry.antt =====
-- What becomes of a login that is not renewed.
use coap_gateway.Prelude.{ℕ, ◌≡◌, ◌≤◌, refl, true, false, some, [], ◌∷◌, length, arith, ap}
use coap_gateway.Prelude.Int.{ℤ}
use coap_gateway.Prelude.Text.{Text}
use coap_gateway.Go.{ret}
use coap_gateway.Map.{lookup}
use coap_gateway.Routes.{Verb, route}
use coap_gateway.Registry.World.{World, IsCache, cache_nil}
use coap_gateway.Registry.Statements.{select_time_left}
use coap_gateway.Registry.Interface.{mysql_redis_registry}
use coap_gateway.Registry.Presence.{lookup_private_ip}
use coap_gateway.Http.{Exchange, begin, status_of, write_header, write, header_if}
use coap_gateway.Http as Http
use coap_gateway.Coap.Gateway.{Account, post, Request}
use coap_gateway.Coap.Session.{handle_session_update}
use coap_gateway.Coap.Session.Routing.{session_login_routes}
use coap_gateway.Coap.Routes.{coap_routes, session}
use coap_gateway.Northbound.{Site}
use coap_gateway.Northbound.Routing as Routing
use coap_gateway.Northbound.Routing.{refused}
use coap_gateway.Northbound.Routing.Answers.{post_to, client_request_answers}
use coap_gateway.Northbound.Routes as Northbound
use coap_gateway.System.{
  Platform, Pod, System, asks_coap, asks_northbound, passes, served_northbound, answered, happen,
  happen_all,
}
use coap_gateway.System.Steps.{as_gateway, coap_step}

module _ (t : Platform) where
  -- Redis does not know the device.
  expired_step :
      (verb : Verb) (url : Text) (r : Http.Request) (s : System)
      → route t.router Northbound.pages (verb, url) ≡ some Northbound.client_request_page
      → r.unreadable ≡ false
      → (lookup_private_ip t.engine r.device_uuid s.world).0 ≡ ret ([], some cache_nil)
      → t.network (length s.posts) (post_to [] r) ≡ refused
      → let s' = happen t (asks_northbound verb url r) s in
        (s'.posts ≡ post_to [] r ∷ s.posts)
        × ((body : Text) × (s'.answers ≡ (404, body) ∷ s.answers))
  unfolding happen served_northbound answered Northbound.serve_page
  expired_step verb url r s m u l n =
      let w = (lookup_private_ip t.engine r.device_uuid s.world).1 in
      let b : Site World = record { store = s.world; posts = s.posts } in
      let (o, state, code) =
        client_request_answers t.network (mysql_redis_registry t.engine) r b [] (some cache_nil) w
          (ap (λ o. (o, w)) l) in
      let x =
        (Routing.handle_client_request t.network (mysql_redis_registry t.engine) r (begin b)).1 in
      let status : status_of x ≡ 404 = ground (arith, code, n, u) in
      rw (m, o, n) (ap (λ (y : Site World). y.posts) state, (x.body, rw status refl))

module _ (t : Platform) (cache : IsCache t.engine) (pod path : Text) (req : Request) (s : System)
    (p : Pod) (a : Account) (left : ℤ) (n : ℕ) (verb : Verb) (url : Text) (r : Http.Request) where
  -- In a deployment where nothing fails: where nothing happens for an hour or longer after a device's
  -- login, a client's request for it goes out as one POST to a host name that starts with a dot, since
  -- the address in it is empty, and where that POST fails it is answered by 404.
  pub login_expires :
      ((i : ℕ) → t.engine.fault i ≡ false)
      → ((i : ℕ) → t.codec.write_fails i ≡ false)
      → ((b : Account) → (t.codec.encode_account b).1 ≡ false)
      → lookup pod s.pods ≡ some p
      → route t.serve_mux coap_routes path ≡ some session
      → req.code ≡ post
      → t.codec.decode_account req.payload ≡ (a, false)
      → a.logged_in ≡ true
      → select_time_left t.engine a.device_id s.world.now s.world.db ≡ some (some left)
      → 3600 ≤ n
      → route t.router Northbound.pages (verb, url) ≡ some Northbound.client_request_page
      → r.device_uuid ≡ a.device_id
      → r.unreadable ≡ false
      → t.network (length s.posts) (post_to [] r) ≡ refused
      → let s' =
          happen_all t (asks_coap pod path req ∷ passes n ∷ asks_northbound verb url r ∷ []) s in
        (s'.posts ≡ post_to [] r ∷ s.posts)
        × ((body : Text) × (s'.answers ≡ (404, body) ∷ s.answers))
  unfolding happen_all happen
  login_expires quiet nf ne q m c d i l h m' u b net =
      let (o, sent, routed, found) =
        session_login_routes t.codec t.engine cache pod req (as_gateway s.world p) a left quiet nf
          ne c d i l in
      let g =
        (handle_session_update t.codec (mysql_redis_registry t.engine) pod req
          (as_gateway s.world p)).1 in
      rw (coap_step t pod path req s p q m o)
        (expired_step t verb url r _ m' b (rw u (ground (arith, found n, h))) net)
