-- ===== src/Registry/Statements/Inserts.antt =====
-- The INSERT statements of pkg/registry/mysqlredisregistry.go.
use coap_gateway.Prelude.{ℕ, false, not, ◌&&◌, Option, none, some, any}
use coap_gateway.Prelude.Text.{Text}
use coap_gateway.Registry.Schema.{
  User, Mediator, Token, Client, Device, Database, has_user, device_refs, client_refs,
}
use coap_gateway.Registry.World.{Engine, Statement}
use coap_gateway.Registry.Statements.Tables.{◌>>=◌, push, only_if, inserted}

-- The rows that the insertions add.
abbrev pub user_row : Database → Text → Text → Text → User
user_row d provider username token = record {
  user_id = d.users.next;
  authz_provider = provider;
  username = username;
  token = token;
}

abbrev pub mediator_row : Database → ℕ → Text → Mediator
mediator_row d user_id token = record {
  mediator_id = d.mediators.next;
  user_id = user_id;
  mediator_token = token;
}

abbrev pub token_row : Database → Text → Token
token_row d access = record {
  token_id = d.tokens.next;
  refresh_token = none;
  access_token = access;
  expires_in = none;
}

abbrev pub device_row : Database → ℕ → ℕ → ℕ → Text → Device
device_row d user_id mediator_id token_id uuid = record {
  device_id = d.devices.next;
  user_id = user_id;
  published_resources = none;
  logged_in = false;
  mediator_id = mediator_id;
  token_id = token_id;
  device_uuid = uuid;
}

abbrev pub client_row : Database → ℕ → ℕ → ℕ → Text → Client
client_row d user_id mediator_id token_id uuid = record {
  client_id = d.clients.next;
  user_id = user_id;
  mediator_id = mediator_id;
  token_id = token_id;
  client_uuid = uuid;
}

module _ (e : Engine) where
  -- INSERT INTO user (username, authz_provider, token) VALUES(?,?,?)
  unfoldable pub insert_user : Text → Text → Text → Statement
  insert_user username provider token d = do
    u ← e.fit 45 username
    p ← e.fit 45 provider
    t ← e.fit 45 token
    only_if (not (any (λ (r : User). e.collate r.username u) d.users.rows))
        (some (record d { users = push (user_row d p u t) d.users }, inserted d.users.next))

  -- INSERT INTO mediator (user_id,mediator_token) VALUES(?,?)
  unfoldable pub insert_mediator : Option ℕ → Text → Statement
  insert_mediator user_id token d = do
    u ← user_id
    t ← e.fit 45 token
    only_if
        (has_user d u
          && not (any (λ (r : Mediator). e.collate r.mediator_token t) d.mediators.rows))
        (some (
          record d { mediators = push (mediator_row d u t) d.mediators },
          inserted d.mediators.next,
        ))

  -- INSERT INTO token (access_token) VALUES(?)
  unfoldable pub insert_token : Text → Statement
  insert_token access d = do
    t ← e.fit 45 access
    some (record d { tokens = push (token_row d t) d.tokens }, inserted d.tokens.next)

  -- INSERT INTO device (user_id, mediator_id, token_id, device_uuid, logged_in) VALUES(?,?,?,?,?),
  -- the last of them false
  unfoldable pub insert_device : Option ℕ → Option ℕ → ℕ → Text → Statement
  insert_device user_id mediator_id token_id uuid d = do
    u ← user_id
    m ← mediator_id
    i ← e.fit 36 uuid
    let row = device_row d u m token_id i
    only_if (device_refs d row)
        (some (record d { devices = push row d.devices }, inserted d.devices.next))

  -- INSERT INTO client (user_id, mediator_id, token_id, client_uuid) VALUES(?,?,?,?)
  unfoldable pub insert_client : Option ℕ → Option ℕ → ℕ → Text → Statement
  insert_client user_id mediator_id token_id uuid d = do
    u ← user_id
    m ← mediator_id
    i ← e.fit 36 uuid
    let row = client_row d u m token_id i
    only_if (client_refs d row)
        (some (record d { clients = push row d.clients }, inserted d.clients.next))
