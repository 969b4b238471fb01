-- ===== src/Registry/Accounts.antt =====
-- RegisterUser and ProvisionMediator of pkg/registry/mysqlredisregistry.go.
use coap_gateway.Prelude.{ℕ, Option, none, some, []}
use coap_gateway.Prelude.Text.{Text}
use coap_gateway.Go.{Go, pure, ◌>>=◌}
use coap_gateway.Registry.World.{
  Engine, World, Err, Result, ok, err, error_of, exec, query_row, new_token, ExecResult,
}
use coap_gateway.Registry.Statements.{insert_user, select_user, insert_mediator}

-- The string of a call that returned one, or "".
abbrev pub text_of : Result Text → Text
text_of (ok t) = t
text_of (err x) = []

module _ (e : Engine) where
  -- The error of GenerateRandomString is overwritten by that of the statement.
  unfoldable pub registered : Result Text → Result ExecResult → Go World (Text × Option Err)
  registered token (err x) = pure ([], some x)
  registered token (ok r) = pure (text_of token, none)

  unfoldable pub register_user : Text → Text → Go World (Text × Option Err)
  unfolding registered
  register_user username provider = do
    token ← new_token e
    result ← exec e (insert_user e username provider (text_of token))
    registered token result

  -- The token comes back beside an error of the insertion.
  unfoldable pub store_mediator : Text → Result (Option ℕ) → Go World (Text × Option Err)
  store_mediator token (err x) = pure ([], some x)
  store_mediator token (ok user_id) = do
    result ← exec e (insert_mediator e user_id token)
    pure (token, error_of result)

  unfoldable pub provision_with : Text → Text → Result Text → Go World (Text × Option Err)
  provision_with username user_token (err x) = pure ([], some x)
  provision_with username user_token (ok t) =
      query_row e (λ w. select_user e username user_token w.db) >>= λ found. store_mediator t found

  unfoldable pub provision_mediator : Text → Text → Go World (Text × Option Err)
  unfolding store_mediator provision_with
  provision_mediator username user_token =
      new_token e >>= λ token. provision_with username user_token token
