-- ===== src/Registry/Presence/Routing.antt =====
-- Where the northbound interface finds a device after a session update.
use coap_gateway.Prelude.{
  ℕ, suc, ◌+◌, ◌≡◌, Bool, true, false, none, some, [], ◌∷◌, arith, ltb, if◌then◌else◌,
}
use coap_gateway.Prelude.Int.{ℤ, pos}
use coap_gateway.Prelude.Text.{Text, text_eq, text_eq_refl}
use coap_gateway.Go.{ret, ◌>>=◌}
use coap_gateway.Registry.World.{Engine, World, IsCache, cache_nil, query_row, cache_set, cache_get}
use coap_gateway.Registry.Statements.{select_time_left}
use coap_gateway.Registry.Presence.{update_session, lookup_private_ip, hour, unspecified_address}

-- The world some seconds later.
abbrev pub later : ℕ → World → World
later s w = record w { now = w.now + s }

module _ (e : Engine) (c : IsCache e) (quiet : (n : ℕ) → e.fault n ≡ false) (w : World) where
  -- While nothing fails, a login of a device with a registered token, whatever user and access token
  -- it names, answers the seconds that the token has left, negative ones too; for less than an
  -- hour the device is then found at the pod, and from an hour on it is not found, unless its
  -- session is updated in between.
  pub login-lookup :
      (device_id user_id access pod : Text) (left : ℤ)
      → select_time_left e device_id w.now w.db ≡ some (some left)
      → (w' : World) × (update_session e device_id user_id access pod true w
          ≡ (ret (left, none), w'))
        × ((s : ℕ)
            → (lookup_private_ip e device_id (later s w')).0
              ≡ (if ltb s hour then ret (pod, none) else ret ([], some cache_nil)))
  unfolding update_session lookup_private_ip query_row cache_set cache_get ◌>>=◌
  login-lookup device_id user_id access pod left t = (
    record w {
      cache = record { key = device_id; value = pod; ttl = hour; at = w.now } ∷ w.cache;
      calls = suc (suc w.calls);
    },
    ground (arith, t, quiet w.calls, quiet (suc w.calls)),
    λ s. ground (
      arith,
      quiet (suc (suc w.calls)),
      text_eq_refl device_id,
      c.cached-cons (record { key = device_id; value = pod; ttl = hour; at = w.now }) w.cache
          (w.now + s) device_id,
    ),
  )

  -- While nothing fails, a logout answers 0, and the device is then found at the address "::/128",
  -- with no error, however long ago that was and whatever the time its last login had left.
  pub logout-lookup :
      (device_id user_id access pod : Text)
      → (w' : World) × (update_session e device_id user_id access pod false w
          ≡ (ret (pos 0, none), w'))
        × ((s : ℕ)
            → (lookup_private_ip e device_id (later s w')).0 ≡ ret (unspecified_address, none))
  unfolding update_session lookup_private_ip cache_set cache_get ◌>>=◌
  logout-lookup device_id user_id access pod = (
    record w {
      cache =
          record { key = device_id; value = unspecified_address; ttl = 0; at = w.now } ∷ w.cache;
      calls = suc w.calls;
    },
    ground (arith, quiet w.calls),
    λ s. ground (
      arith,
      quiet (suc w.calls),
      text_eq_refl device_id,
      c.cached-cons (record { key = device_id; value = unspecified_address; ttl = 0; at = w.now })
          w.cache (w.now + s) device_id,
    ),
  )

  -- While nothing fails, a session update of one device changes nothing in where another device is found.
  pub update-lookup_ne :
      (device_id other user_id access pod : Text) (logged_in : Bool)
      → text_eq device_id other ≡ false
      → (lookup_private_ip e other (update_session e device_id user_id access pod logged_in w).1).0
        ≡ (lookup_private_ip e other w).0
  unfolding update_session lookup_private_ip query_row cache_set cache_get ◌>>=◌
  update-lookup_ne device_id other user_id access pod true ne = ground (
    arith,
    ne,
    quiet w.calls,
    quiet (suc w.calls),
    quiet (suc (suc w.calls)),
    c.cached-cons (record { key = device_id; value = pod; ttl = hour; at = w.now }) w.cache w.now
        other,
  )
  update-lookup_ne device_id other user_id access pod false ne = ground (
    arith,
    ne,
    quiet w.calls,
    quiet (suc w.calls),
    c.cached-cons (record { key = device_id; value = unspecified_address; ttl = 0; at = w.now })
        w.cache w.now other,
  )
