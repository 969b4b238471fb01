-- ===== src/Registry/Statements/Queries.antt =====
-- The SELECT statements of pkg/registry/mysqlredisregistry.go.
use coap_gateway.Prelude.{ℕ, ◌&&◌, Option, none, some, List, [], ◌∷◌, ◌==◌, if◌then◌else◌}
use coap_gateway.Prelude.Int.{ℤ, sub_ℕ}
use coap_gateway.Prelude.Text.{Text}
use coap_gateway.Registry.Schema.{User, Mediator, Token, Client, Device, Database}
use coap_gateway.Registry.World.{Engine}
use coap_gateway.Registry.Statements.Tables.{◌>>=◌, oldest, only_if}

-- INNER JOIN token ON … = token.token_id, INNER JOIN user ON … = user.user_id
unfoldable pub token_of : Database → ℕ → Option Token
token_of d i = oldest (λ (t : Token). only_if (t.token_id == i) (some t)) d.tokens.rows

unfoldable pub user_of : Database → ℕ → Option User
user_of d i = oldest (λ (u : User). only_if (u.user_id == i) (some u)) d.users.rows

-- A row of the join in RegisterDevice: device.token_id, user.username, token.access_token.
pub record DeviceToken : Type 0 where
  pub token_id : Option ℕ
  pub username : Option Text
  pub token : Option Text

abbrev pub joined : Database → Device → Option DeviceToken
joined d r = do
  t ← token_of d r.token_id
  u ← user_of d r.user_id
  some (record {
    token_id = some r.token_id;
    username = some u.username;
    token = some t.access_token;
  })

module _ (e : Engine) where
  -- SELECT user_id FROM user WHERE username = ? AND token = ?
  unfoldable pub select_user : Text → Text → Database → Option (Option ℕ)
  select_user username token d =
      oldest
        (λ (r : User).
          only_if (e.collate r.username username && e.collate r.token token)
            (some (some r.user_id)))
        d.users.rows

  -- SELECT mediator_id, user_id FROM mediator WHERE mediator_token = ?
  unfoldable pub select_mediator : Text → Database → Option (Option ℕ × Option ℕ)
  select_mediator token d =
      oldest
        (λ (r : Mediator).
          only_if (e.collate r.mediator_token token) (some (some r.mediator_id, some r.user_id)))
        d.mediators.rows

  abbrev pub device_token : Text → Database → Device → Option DeviceToken
  device_token uuid d r = only_if (e.collate r.device_uuid uuid) (joined d r)

  -- SELECT device.token_id, user.username, token.access_token FROM device INNER JOIN token …
  -- INNER JOIN user … WHERE device.device_uuid = ?
  unfoldable pub select_device_token : Text → Database → Option DeviceToken
  select_device_token uuid d = oldest (device_token uuid d) d.devices.rows

  -- SELECT client.token_id, client.user_id FROM client INNER JOIN token … WHERE
  -- client.client_uuid = ? AND token.access_token = ?
  unfoldable pub select_client_token : Text → Text → Database → Option (Option ℕ × Option ℕ)
  select_client_token uuid access d =
      oldest
        (λ (r : Client). do
          t ← token_of d r.token_id
          only_if (e.collate r.client_uuid uuid && e.collate t.access_token access)
              (some (some r.token_id, some r.user_id)))
        d.clients.rows

  abbrev pub device_time_left : Text → ℕ → Database → Device → Option (Option ℤ)
  device_time_left uuid now d r =
      only_if (e.collate r.device_uuid uuid)
        (do t ← token_of d r.token_id; some (t.expires_in >>= λ at. some (sub_ℕ at now)))

  -- SELECT UNIX_TIMESTAMP(expires_in) - UNIX_TIMESTAMP(NOW()) FROM token INNER JOIN device …
  -- WHERE device.device_uuid = ?; NULL if expires_in is
  unfoldable pub select_time_left : Text → ℕ → Database → Option (Option ℤ)
  select_time_left uuid now d = oldest (device_time_left uuid now d) d.devices.rows

  -- select published_resources from device inner join user on user.user_id = device.user_id where
  -- user.username = ?
  unfoldable pub select_resources : Text → Database → List (Option Text)
  select_resources username d = resources d.devices.rows
    where
      resources : List Device → List (Option Text)
      resources [] = []
      resources (r ∷ rs) = elim (user_of d r.user_id) [
        | none ↦ resources rs
        | some u ↦
            if e.collate u.username username
            then r.published_resources ∷ resources rs
            else resources rs
      ]
