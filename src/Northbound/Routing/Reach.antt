-- ===== src/Northbound/Routing/Reach.antt =====
-- From a device's login at a pod to a client's request.
use coap_gateway.Prelude.{ℕ, ap, ◌<◌, ◌≡◌, true, false, none, some, List, ◌∷◌, length, arith}
use coap_gateway.Prelude.Int.{ℤ}
use coap_gateway.Prelude.Text.{Text}
use coap_gateway.Go.{ret}
use coap_gateway.Registry.World.{Engine, World, IsCache}
use coap_gateway.Registry.Statements.{select_time_left}
use coap_gateway.Registry.Interface.{mysql_redis_registry}
use coap_gateway.Registry.Presence.{update_session, lookup_private_ip}
use coap_gateway.Registry.Presence.Routing.{later, login-lookup}
use coap_gateway.Http.{Request, begin, status_of}
use coap_gateway.Northbound.{Post, Site}
use coap_gateway.Northbound.Routing.{Network, responded, handle_client_request}
use coap_gateway.Northbound.Routing.Answers.{post_to, client_request_answers}

-- With the MySQL registry, while nothing fails, a client's request within the hour after a device's
-- login at a pod goes out as one POST to that pod, and is answered by 200 if the pod answers and
-- the client's body could be read.
pub login_reaches :
    (e : Engine) (c : IsCache e) (net : Network) (w : World) (user_id access pod : Text) (left : ℤ)
    (r : Request) (posts : List Post) (s : ℕ) (response : Text)
    → ((n : ℕ) → e.fault n ≡ false)
    → select_time_left e r.device_uuid w.now w.db ≡ some (some left)
    → s < 3600
    → r.unreadable ≡ false
    → net (length posts) (post_to pod r) ≡ responded response false
    → (w' : World) × (update_session e r.device_uuid user_id access pod true w
        ≡ (ret (left, none), w'))
      × (let (o, y) =
            handle_client_request net
              (mysql_redis_registry e)
              r
              (begin (record { store = later s w'; posts = posts })) in
          (o ≡ ret tt) × (y.state.posts ≡ post_to pod r ∷ posts) × (status_of y ≡ 200))
login_reaches e c net w user_id access pod left r posts s response quiet t h u n =
    let (w', login, found) = login-lookup e c quiet w r.device_uuid user_id access pod left t in
    let ok : (lookup_private_ip e r.device_uuid (later s w')).0 ≡ ret (pod, none) =
      ground (arith, found s) in
    let (o, st, code) =
      client_request_answers net (mysql_redis_registry e) r
        (record { store = later s w'; posts = posts }) pod none
        (lookup_private_ip e r.device_uuid (later s w')).1
        (ap (λ o. (o, (lookup_private_ip e r.device_uuid (later s w')).1)) ok) in
    (
      w',
      login,
      (ground (arith, o, n), ap (λ (x : Site World). x.posts) st, ground (arith, code, u, n)),
    )
