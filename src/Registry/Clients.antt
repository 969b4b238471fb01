-- ===== src/Registry/Clients.antt =====
-- ProvisionClient, RegisterClient and DeleteClient of pkg/registry/mysqlredisregistry.go.
pub mod Lifecycle
use coap_gateway.Prelude.{ℕ, Option, none, some, []}
use coap_gateway.Prelude.Text.{Text}
use coap_gateway.Go.{Go, pure, gets, ◌>>=◌}
use coap_gateway.Registry.World.{
  Engine, World, Err, mediator_token_not_found, Result, ok, err, error_of, exec, query_row,
  new_token, last_insert_id, rows_affected,
}
use coap_gateway.Registry.Statements.{
  select_mediator, insert_token, insert_client, select_client_token, renew_token, delete_client,
}
use coap_gateway.Registry.Devices.{access_token_ttl}

module _ (e : Engine) where
  unfoldable pub insert_provisioned_client :
      Text → Option ℕ → Option ℕ → Result Text → Go World (Text × Option Err)
  insert_provisioned_client uuid mediator_id user_id (err x) = pure ([], some x)
  insert_provisioned_client uuid mediator_id user_id (ok token) = do
    result ← exec e (insert_token e token)
    token_id ← last_insert_id result
    result' ← exec e (insert_client e user_id mediator_id token_id uuid)
    pure (token, error_of result')

  unfoldable pub provision_client_for :
      Text → Result (Option ℕ × Option ℕ) → Go World (Text × Option Err)
  provision_client_for uuid (err x) = pure ([], some x)
  provision_client_for uuid (ok (none, user_id)) = pure ([], some mediator_token_not_found)
  provision_client_for uuid (ok (some m, user_id)) =
      new_token e >>= λ token. insert_provisioned_client uuid (some m) user_id token

  unfoldable pub provision_client : Text → Text → Go World (Text × Option Err)
  unfolding insert_provisioned_client provision_client_for
  provision_client uuid mediator_token =
      query_row e (λ w. select_mediator e mediator_token w.db) >>= λ found.
      provision_client_for uuid found

-- The results of RegisterClient; the redirect URI is always "".
pub record ClientRegistration : Type 0 where
  pub access_token : Text
  pub refresh_token : Text
  pub redirect_uri : Text
  pub expires_in : ℕ
  pub error : Option Err

abbrev pub no_client_registration : Option Err → ClientRegistration
no_client_registration x = record {
  access_token = [];
  refresh_token = [];
  redirect_uri = [];
  expires_in = 0;
  error = x;
}

module _ (e : Engine) where
  unfoldable pub renew_client : Option ℕ → Result Text → Result Text → Go World ClientRegistration
  renew_client token_id (err x) refresh = pure (no_client_registration (some x))
  renew_client token_id (ok access) (err x) = pure (no_client_registration (some x))
  renew_client token_id (ok access) (ok refresh) = do
    now ← gets (λ w. w.now)
    result ← exec e (renew_token e refresh access now access_token_ttl token_id)
    pure (record {
      access_token = access;
      refresh_token = refresh;
      redirect_uri = [];
      expires_in = access_token_ttl;
      error = error_of result;
    })

  unfoldable pub draw_client : Option ℕ → Result Text → Go World ClientRegistration
  draw_client token_id (err x) = pure (no_client_registration (some x))
  draw_client token_id (ok access) =
      new_token e >>= λ refresh. renew_client token_id (ok access) refresh

  unfoldable pub register_client_found : Result (Option ℕ × Option ℕ) → Go World ClientRegistration
  register_client_found (err x) = pure (no_client_registration (some x))
  register_client_found (ok (token_id, user_number)) =
      new_token e >>= λ access. draw_client token_id access

  -- userID and authProvider are parameters that the body does not read.
  unfoldable pub register_client : Text → Text → Text → Text → Go World ClientRegistration
  unfolding register_client_found draw_client renew_client
  register_client user_id uuid mediated provider =
      query_row e (λ w. select_client_token e uuid mediated w.db) >>= λ found.
      register_client_found found

  unfoldable pub delete_client_row : Text → Text → Go World (Option Err)
  delete_client_row id access = do
    result ← exec e (delete_client e id access)
    rows ← rows_affected result
    pure none
