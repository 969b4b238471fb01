-- ===== src/Registry/Refresh.antt =====
-- RefreshToken of pkg/registry/mysqlredisregistry.go.
pub mod Reissue
use coap_gateway.Prelude.{
  ℕ, zero, suc, ◌+◌, ◌-◌, ◌≡◌, Bool, true, false, not, ◌&&◌, Option, none, some, List, [], ◌∷◌,
  ◌++◌, if◌then◌else◌, length, ltb, ◌==◌,
}
use coap_gateway.Prelude.Int.{ℤ, pos}
use coap_gateway.Prelude.Text.{Text, codes, text_eq}
use coap_gateway.Go.{Go, Outcome, ret, panics, pure, panic, gets, ◌>>=◌, ◌>>◌}
use coap_gateway.Registry.World.{
  Engine, World, Err, no_rows, cache_nil, mediator_token_not_found, random_failed, driver, Result,
  ok, err, error_of, exec, query_row, new_token, cache_set, cache_get, last_insert_id,
  rows_affected, ExecResult,
}
use coap_gateway.Registry.Statements.{reissue_token}
use coap_gateway.Registry.Devices.{access_token_ttl}

-- The results of RefreshToken.
pub record Refreshed : Type 0 where
  pub access_token : Text
  pub refresh_token : Text
  pub ttl : ℕ
  pub error : Option Err

abbrev pub not_refreshed : Option Err → Refreshed
not_refreshed x = record { access_token = []; refresh_token = []; ttl = 0; error = x }

abbrev pub refreshed_rows : Text → Text → ℕ → Refreshed
refreshed_rows access refresh rows = if rows == 0 then not_refreshed none else record {
  access_token = access;
  refresh_token = refresh;
  ttl = access_token_ttl;
  error = none;
}

module _ (e : Engine) where
  unfoldable pub reissue : Text → Result Text → Go World Refreshed
  reissue refresh (err x) = pure (not_refreshed (some x))
  reissue refresh (ok access) = do
    now ← gets (λ w. w.now)
    result ← exec e (reissue_token e access now access_token_ttl refresh)
    rows ← rows_affected result
    pure (refreshed_rows access refresh rows)

  -- deviceID and userID are parameters that the body does not read.
  unfoldable pub refresh_token : Text → Text → Text → Go World Refreshed
  unfolding reissue
  refresh_token device_id user_id refresh = new_token e >>= λ access. reissue refresh access
