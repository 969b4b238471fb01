-- ===== src/Registry/Presence.antt =====
-- UpdateSession and LookupPrivateIP of pkg/registry/mysqlredisregistry.go: where a device is.
pub mod Routing
pub mod Board
pub mod Refinement
use coap_gateway.Prelude.{
  ℕ, zero, suc, ◌+◌, ◌-◌, ◌≡◌, Bool, true, false, not, ◌&&◌, Option, none, some, List, [], ◌∷◌,
  ◌++◌, if◌then◌else◌, length, ltb, ◌==◌,
}
use coap_gateway.Prelude.Int.{ℤ, pos}
use coap_gateway.Prelude.Text.{Text, codes, text_eq}
use coap_gateway.Go.{Go, Outcome, ret, panics, pure, panic, gets, ◌>>=◌, ◌>>◌}
use coap_gateway.Registry.World.{
  Engine, World, Err, no_rows, cache_nil, mediator_token_not_found, random_failed, driver, Result,
  ok, err, error_of, exec, query_row, new_token, cache_set, cache_get, last_insert_id,
  rows_affected, ExecResult,
}
use coap_gateway.Registry.Statements.{select_time_left}

-- unspecifiedAddress
abbrev pub unspecified_address : Text
unspecified_address = codes "::/128"

-- time.Hour, in seconds
abbrev pub hour : ℕ
hour = 3600

module _ (e : Engine) where
  unfoldable pub log_out : Text → Go World (ℤ × Option Err)
  log_out device_id = do failed ← cache_set e device_id unspecified_address 0; pure (pos 0, failed)

  unfoldable pub logged_in_at : ℤ → Option Err → Go World (ℤ × Option Err)
  logged_in_at left none = pure (left, none)
  logged_in_at left (some x) = pure (pos 0, some x)

  -- A NULL expiry answers 0 and no error, and writes nothing.
  unfoldable pub log_in_found : Text → Text → Result (Option ℤ) → Go World (ℤ × Option Err)
  log_in_found device_id pod (err x) = pure (pos 0, some x)
  log_in_found device_id pod (ok none) = pure (pos 0, none)
  log_in_found device_id pod (ok (some left)) = do
    failed ← cache_set e device_id pod hour
    logged_in_at left failed

  unfoldable pub log_in : Text → Text → Go World (ℤ × Option Err)
  log_in device_id pod = query_row e (λ w. select_time_left e device_id w.now w.db) >>= λ found.
      log_in_found device_id pod found

  -- userID and accessToken are parameters that the body does not read.
  unfoldable pub update_session : Text → Text → Text → Text → Bool → Go World (ℤ × Option Err)
  unfolding log_in log_in_found logged_in_at log_out
  update_session device_id user_id access pod logged_in =
      if not logged_in then log_out device_id else log_in device_id pod

  unfoldable pub looked_up : Result Text → Go World (Text × Option Err)
  looked_up (ok ip) = pure (ip, none)
  looked_up (err x) = pure ([], some x)

  unfoldable pub lookup_private_ip : Text → Go World (Text × Option Err)
  unfolding looked_up
  lookup_private_ip device_id = cache_get e device_id >>= λ found. looked_up found
