-- ===== src/Registry/Devices.antt =====
-- ProvisionDevice, RegisterDevice and DeleteDevice of pkg/registry/mysqlredisregistry.go.
pub mod Onboarding
pub mod Lifecycle
pub mod Failures
pub mod Partial
pub mod Race
use coap_gateway.Prelude.{
  ℕ, zero, suc, ◌+◌, ◌-◌, ◌≡◌, Bool, true, false, not, ◌&&◌, Option, none, some, List, [], ◌∷◌,
  ◌++◌, if◌then◌else◌, length, ltb, ◌==◌,
}
use coap_gateway.Prelude.Int.{ℤ, pos}
use coap_gateway.Prelude.Text.{Text, codes, text_eq}
use coap_gateway.Go.{Go, Outcome, ret, panics, pure, panic, gets, ◌>>=◌, ◌>>◌}
use coap_gateway.Registry.World.{
  Engine, World, Err, no_rows, cache_nil, mediator_token_not_found, random_failed, driver, Result,
  ok, err, error_of, exec, query_row, new_token, cache_set, cache_get, last_insert_id,
  rows_affected, ExecResult,
}
use coap_gateway.Registry.Statements.{
  select_mediator, insert_token, insert_device, DeviceToken, select_device_token, renew_token,
  delete_device,
}

-- accessTokenTTL, in seconds
abbrev pub access_token_ttl : ℕ
access_token_ttl = 6000

module _ (e : Engine) where
  -- The two insertions are two statements with no transaction round them.
  unfoldable pub insert_provisioned :
      Text → Option ℕ → Option ℕ → Result Text → Go World (Text × Option Err)
  insert_provisioned uuid mediator_id user_id (err x) = pure ([], some x)
  insert_provisioned uuid mediator_id user_id (ok token) = do
    result ← exec e (insert_token e token)
    token_id ← last_insert_id result
    result' ← exec e (insert_device e user_id mediator_id token_id uuid)
    pure (token, error_of result')

  unfoldable pub provision_for : Text → Result (Option ℕ × Option ℕ) → Go World (Text × Option Err)
  provision_for uuid (err x) = pure ([], some x)
  provision_for uuid (ok (none, user_id)) = pure ([], some mediator_token_not_found)
  provision_for uuid (ok (some m, user_id)) =
      new_token e >>= λ token. insert_provisioned uuid (some m) user_id token

  unfoldable pub provision_device : Text → Text → Go World (Text × Option Err)
  unfolding insert_provisioned provision_for
  provision_device uuid mediator_token =
      query_row e (λ w. select_mediator e mediator_token w.db) >>= λ found. provision_for uuid found

-- The results of RegisterDevice.
pub record Registration : Type 0 where
  pub access_token : Text
  pub user_id : Text
  pub refresh_token : Text
  pub expires_in : ℕ
  pub error : Option Err

-- `return "", "", "", 0, err`
abbrev pub no_registration : Option Err → Registration
no_registration x = record {
  access_token = [];
  user_id = [];
  refresh_token = [];
  expires_in = 0;
  error = x;
}

-- `token.String == mediatedToken && token.Valid && username.Valid`, and the username
abbrev pub admitted : Text → DeviceToken → Option Text
admitted mediated r = elim r.token [
  | none ↦ none
  | some t ↦ if text_eq t mediated then r.username else none
]

module _ (e : Engine) where
  unfoldable pub renew_registered :
      Option ℕ → Text → Result Text → Result Text → Go World Registration
  renew_registered token_id username (err x) refresh = pure (no_registration (some x))
  renew_registered token_id username (ok access) (err x) = pure (no_registration (some x))
  renew_registered token_id username (ok access) (ok refresh) = do
    now ← gets (λ w. w.now)
    result ← exec e (renew_token e refresh access now access_token_ttl token_id)
    pure (record {
      access_token = access;
      user_id = username;
      refresh_token = refresh;
      expires_in = access_token_ttl;
      error = error_of result;
    })

  -- After an error of the first GenerateRandomString there is no second one.
  unfoldable pub draw_registered : Option ℕ → Text → Result Text → Go World Registration
  draw_registered token_id username (err x) = pure (no_registration (some x))
  draw_registered token_id username (ok access) =
      new_token e >>= λ refresh. renew_registered token_id username (ok access) refresh

  -- A wrong token, or one that is not there, is no error.
  unfoldable pub register_admitted : Option ℕ → Option Text → Go World Registration
  register_admitted token_id none = pure (no_registration none)
  register_admitted token_id (some username) =
      new_token e >>= λ access. draw_registered token_id username access

  unfoldable pub register_found : Text → Result DeviceToken → Go World Registration
  register_found mediated (err x) = pure (no_registration (some x))
  register_found mediated (ok r) = register_admitted r.token_id (admitted mediated r)

  unfoldable pub register_device : Text → Text → Go World Registration
  unfolding register_found register_admitted draw_registered renew_registered
  register_device uuid mediated =
      query_row e (λ w. select_device_token e uuid w.db) >>= λ found. register_found mediated found

  -- Both branches on the number of rows return the same nil error.
  unfoldable pub delete_device_row : Text → Text → Go World (Option Err)
  delete_device_row id access = do
    result ← exec e (delete_device e id access)
    rows ← rows_affected result
    pure none
