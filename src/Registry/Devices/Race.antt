-- ===== src/Registry/Devices/Race.antt =====
-- Two calls of RegisterDevice at one time, in two gateway processes.
use coap_gateway.Prelude.{ℕ, suc, ◌+◌, ◌≡◌, refl, none, some, arith, ==_refl}
use coap_gateway.Prelude.Text.{Text, text_eq_refl}
use coap_gateway.Go.{Go, ret, ◌>>=◌}
use coap_gateway.Registry.Schema.{Database}
use coap_gateway.Registry.World.{
  Engine, World, IsEngine, Quiet, Result, ok, tick, query_row, exec, new_token,
}
use coap_gateway.Registry.Statements.{
  DeviceToken, select_device_token, renew_token, update_tokens, renewed, id_is,
}
use coap_gateway.Registry.Lookup.{select-renewed}
use coap_gateway.Registry.Devices.{
  register_device, register_found, register_admitted, draw_registered, renew_registered,
  Registration, access_token_ttl,
}
use coap_gateway.Registry.Devices.Onboarding.{
  drawn, length-drawn, fit-drawn, renewed_world, granted_now, register_device-ok,
}
use coap_gateway.Registry.Devices.Lifecycle.{Granted, drawn-Granted, select-registered}

-- The SELECT of RegisterDevice, before register_found.
abbrev pub ask : Engine → Text → Go World (Result DeviceToken)
ask e uuid = query_row e (λ v. select_device_token e uuid v.db)

module _ (e : Engine) (ok_engine : IsEngine e) (q : Quiet e) (v : World) where
  -- What is left of a registration after its SELECT, in a world of its own.
  abbrev late_grant : Text → Registration
  late_grant name = record {
    access_token = drawn e ok_engine q v.calls;
    user_id = name;
    refresh_token = drawn e ok_engine q (suc v.calls);
    expires_in = access_token_ttl;
    error = none;
  }

  abbrev late_db : ℕ → Database
  late_db i =
      (update_tokens (λ t. id_is (some i) t.token_id)
        (renewed (drawn e ok_engine q (suc v.calls)) (drawn e ok_engine q v.calls)
          (v.now + access_token_ttl))
        v.db).0

  register_found-ok :
      (mediated name : Text) (i : ℕ)
      → register_found e mediated
          (ok (record { token_id = some i; username = some name; token = some mediated }))
          v
        ≡ (ret (late_grant name), record v { db = late_db i; calls = suc (suc (suc v.calls)) })
  unfolding register_found register_admitted draw_registered renew_registered exec new_token
      renew_token ◌>>=◌
  register_found-ok mediated name i = ground (
    arith,
    text_eq_refl mediated,
    q.no_fault (suc (suc v.calls)),
    q.random_bytes v.calls,
    q.random_bytes (suc v.calls),
    fit-drawn e ok_engine q v.calls,
    fit-drawn e ok_engine q (suc v.calls),
  )

  late_grant-Granted : (name : Text) → Granted name (late_grant name)
  late_grant-Granted name = record {
    access = length-drawn e ok_engine q v.calls;
    refresh = length-drawn e ok_engine q (suc v.calls);
    user = refl;
    ttl = refl;
    no_error = refl;
  }

module _ (e : Engine) (ok_engine : IsEngine e) (q : Quiet e) (w : World) where
  select-late :
      (uuid name access : Text) (i : ℕ) (v : World)
      → select_device_token e uuid v.db
        ≡ some (record { token_id = some i; username = some name; token = some access })
      → select_device_token e uuid (late_db e ok_engine q v i)
        ≡ some (record {
          token_id = some i;
          username = some name;
          token = some (drawn e ok_engine q v.calls);
        })
  select-late uuid name access i v s = ground (
    arith,
    s,
    ==_refl i,
    select-renewed e v.db i (drawn e ok_engine q (suc v.calls)) (drawn e ok_engine q v.calls)
        (v.now + access_token_ttl) uuid,
  )

  -- The SELECT and the UPDATE of RegisterDevice are two statements: while nothing fails, where a
  -- whole registration with the token stored for a device comes in between the two of another with the
  -- same token, both are granted tokens, and in the end the access token that is stored is that of
  -- the one that asked first and wrote last.
  pub register_device_races :
      (uuid mediated name : Text) (i : ℕ)
      → select_device_token e uuid w.db
        ≡ some (record { token_id = some i; username = some name; token = some mediated })
      → (found : Result DeviceToken) × (r r' : Registration) × (w₁ w₂ w₃ : World) × (ask e uuid w
          ≡ (ret found, w₁))
        × (register_device e uuid mediated w₁ ≡ (ret r', w₂))
        × (register_found e mediated found w₂ ≡ (ret r, w₃))
        × Granted name r'
        × Granted name r
        × (select_device_token e uuid w₃.db
            ≡ some
                (record { token_id = some i; username = some name; token = some r.access_token }))
  unfolding query_row
  register_device_races uuid mediated name i s =
      let w₁ = tick w in
      let w₂ = renewed_world e ok_engine q w₁ (some i) in
      (
        ok (record { token_id = some i; username = some name; token = some mediated }),
        late_grant e ok_engine q w₂ name,
        granted_now e ok_engine q w₁ name,
        w₁,
        w₂,
        record w₂ { db = late_db e ok_engine q w₂ i; calls = suc (suc (suc w₂.calls)) },
        ground (arith, s, q.no_fault w.calls),
        register_device-ok e ok_engine q w₁ uuid mediated name (some i) s,
        register_found-ok e ok_engine q w₂ mediated name i,
        drawn-Granted e ok_engine q w₁ name,
        late_grant-Granted e ok_engine q w₂ name,
        select-late uuid name (drawn e ok_engine q (suc w₁.calls)) i w₂
            (select-registered e ok_engine q w₁ uuid mediated name i s),
      )
