-- ===== src/Coap/Session/Routing.antt =====
-- What a session update does to the two maps that requests to a device go by: Redis and the device
-- container.
use coap_gateway.Prelude.{ℕ, suc, ◌≡◌, true, false, none, some, [], ◌∷◌, arith, if◌then◌else◌, ltb}
use coap_gateway.Prelude.Int.{ℤ}
use coap_gateway.Prelude.Text.{Text, text_eq, text_eq_refl}
use coap_gateway.Go.{ret, ◌>>=◌}
use coap_gateway.Map.{lookup, lookup-insert, lookup-delete}
use coap_gateway.Registry.World.{Engine, World, IsCache, cache_nil}
use coap_gateway.Registry.Statements.{select_time_left}
use coap_gateway.Registry.Interface.{Registry, mysql_redis_registry}
use coap_gateway.Registry.Presence.{hour, lookup_private_ip}
use coap_gateway.Registry.Presence.Routing.{later, login-lookup}
use coap_gateway.Coap.Account.{reply}
use coap_gateway.Coap.Session.{handle_session_update, ttl_account}
use coap_gateway.Coap.Gateway.{
  Account, post, app_ocf_cbor, created, changed, bad_request, plain, Request, Codec, Gateway,
  with_store, write_msg, add_device, remove_device,
}

-- The account with which a login is answered: the seconds left and no more.
abbrev pub seconds_left_only : ℤ → Account
seconds_left_only left = record {
  device_id = [];
  auth_provider = [];
  access_token = [];
  refresh_token = [];
  token_ttl = left;
  user_id = [];
  logged_in = false;
}

-- With the MySQL registry, while nothing fails, a login that names a device with a registered token
-- is answered by one Created response with the seconds left, and routes the device to the
-- connection and for an hour to the pod that it came to: whatever user, access token and
-- connection the request has.
pub session_login_routes :
    (k : Codec) (e : Engine) (c : IsCache e) (pod : Text) (req : Request) (g : Gateway World)
    (a : Account) (left : ℤ)
    → ((n : ℕ) → e.fault n ≡ false)
    → ((n : ℕ) → k.write_fails n ≡ false)
    → ((b : Account) → (k.encode_account b).1 ≡ false)
    → req.code ≡ post
    → k.decode_account req.payload ≡ (a, false)
    → a.logged_in ≡ true
    → select_time_left e a.device_id g.store.now g.store.db ≡ some (some left)
    → let g' = (handle_session_update k (mysql_redis_registry e) pod req g).1 in
      ((handle_session_update k (mysql_redis_registry e) pod req g).0 ≡ ret tt)
      × (g'.sent
          ≡ record {
            code = created;
            format = some app_ocf_cbor;
            payload = (k.encode_account (seconds_left_only left)).0;
          }
            ∷ g.sent)
      × (lookup a.device_id g'.devices ≡ some req.client)
      × ((s : ℕ)
          → (lookup_private_ip e a.device_id (later s g'.store)).0
            ≡ (if ltb s hour then ret (pod, none) else ret ([], some cache_nil)))
unfolding handle_session_update with_store write_msg add_device ◌>>=◌
session_login_routes k e c pod req g a left quiet nf ne p d l t =
    let (w', login, found) =
      login-lookup e c quiet g.store a.device_id a.user_id a.access_token pod left t in
    (
      ground (arith, p, d, l, login, nf g.writes, ne (ttl_account left)),
      ground (arith, p, d, l, login, nf g.writes, ne (ttl_account left)),
      ground (
        arith,
        p,
        d,
        l,
        login,
        nf g.writes,
        ne (ttl_account left),
        lookup-insert a.device_id a.device_id req.client g.devices,
        text_eq_refl a.device_id,
      ),
      λ s. ground (arith, p, d, l, login, nf g.writes, ne (ttl_account left), found s),
    )

module _ {S : Type 0} (k : Codec) (db : Registry S) (pod : Text) (req : Request)
    (g : Gateway S) where
  -- Over any registry, whatever fails, a session update leaves the connections of all devices but
  -- the one that its payload names.
  pub session_frame :
      (j : Text)
      → text_eq (k.decode_account req.payload).0.device_id j ≡ false
      → lookup j (handle_session_update k db pod req g).1.devices ≡ lookup j g.devices
  unfolding handle_session_update with_store write_msg add_device remove_device reply ◌>>=◌
  session_frame j ne = ground (
    arith,
    lookup-insert (k.decode_account req.payload).0.device_id j req.client g.devices,
    lookup-delete (k.decode_account req.payload).0.device_id j g.devices,
  )

  -- A payload that cannot be decoded is answered by BadRequest and, if what has been filled in
  -- asks for no login and the registry takes the update, acted upon all the same: the named device
  -- is logged out and a second response says Changed.
  pub session_undecodable :
      (a : Account) (n : ℤ) (s : S)
      → ((n : ℕ) → k.write_fails n ≡ false)
      → req.code ≡ post
      → k.decode_account req.payload ≡ (a, true)
      → a.logged_in ≡ false
      → db.update_session a.device_id a.user_id a.access_token pod false g.store
        ≡ (ret (n, none), s)
      → ((handle_session_update k db pod req g).0 ≡ ret tt)
        × ((handle_session_update k db pod req g).1.sent
            ≡ plain changed ∷ plain bad_request ∷ g.sent)
        × (lookup a.device_id (handle_session_update k db pod req g).1.devices ≡ none)
  unfolding handle_session_update with_store write_msg remove_device reply ◌>>=◌
  session_undecodable a n s nf p d l u = ground (
    arith,
    p,
    d,
    l,
    u,
    nf g.writes,
    nf (suc g.writes),
    lookup-delete a.device_id a.device_id g.devices,
    text_eq_refl a.device_id,
  )
