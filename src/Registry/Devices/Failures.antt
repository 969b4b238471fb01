-- ===== src/Registry/Devices/Failures.antt =====
-- How the operations on devices fail.
use coap_gateway.Prelude.{ℕ, suc, ◌≡◌, true, false, none, some, List, [], arith, ◌⊎◌}
use coap_gateway.Prelude.Text.{Text}
use coap_gateway.Go.{ret, panics, ◌>>=◌}
use coap_gateway.Registry.World.{
  Engine, World, no_rows, driver, exec, query_row, new_token, last_insert_id,
}
use coap_gateway.Registry.Statements.{select_mediator}
use coap_gateway.Registry.Devices.{provision_device}

-- With a mediator token that is known and random bytes at hand, a failure of the insertion of the
-- token that the server has not carried out is a panic, since the nil result is used before the
-- error is looked at, and the database stays as it was.
pub provision_device_panics :
    (e : Engine) (w : World) (uuid mediator_token : Text) (m u : ℕ) (bytes : List ℕ)
    → select_mediator e mediator_token w.db ≡ some (some m, some u)
    → e.fault w.calls ≡ false
    → e.random (suc w.calls) ≡ some bytes
    → e.fault (suc (suc w.calls)) ≡ true
    → e.lost (suc (suc w.calls)) ≡ false
    → ((provision_device e uuid mediator_token w).0 ≡ panics)
      × ((provision_device e uuid mediator_token w).1.db ≡ w.db)
unfolding provision_device query_row new_token exec last_insert_id ◌>>=◌
provision_device_panics e w uuid mediator_token m u bytes s f r g l = ground (arith, s, r)

-- For a mediator token that no mediator has, nothing is inserted, and the error is sql.ErrNoRows or
-- that of a failing query, never errorMediatorTokenNotfound.
pub provision_device_unknown :
    (e : Engine) (w : World) (uuid mediator_token : Text)
    → select_mediator e mediator_token w.db ≡ none
    → (((provision_device e uuid mediator_token w).0 ≡ ret ([], some no_rows))
        ⊎ ((provision_device e uuid mediator_token w).0 ≡ ret ([], some driver)))
      × ((provision_device e uuid mediator_token w).1.db ≡ w.db)
unfolding provision_device query_row ◌>>=◌
provision_device_unknown e w uuid mediator_token s = ground (arith, s)
