-- ===== src/Registry/Statements/Deletes.antt =====
-- The DELETE statements of pkg/registry/mysqlredisregistry.go.
use coap_gateway.Prelude.{◌+◌, Bool, not, ◌&&◌, some, any, ◌==◌}
use coap_gateway.Prelude.Text.{Text}
use coap_gateway.Registry.Schema.{Token, Client, Device, Table, Database, has_token}
use coap_gateway.Registry.World.{Engine, Statement}
use coap_gateway.Registry.Statements.Tables.{only_if, count, keep, all_rows}

-- No row is left behind that refers to a deleted token.
abbrev pub tokens_referred : Database → Bool
tokens_referred d =
    all_rows (λ (r : Device). has_token d r.token_id) d.devices.rows
    && all_rows (λ (r : Client). has_token d r.token_id) d.clients.rows

abbrev pub without : {R : Type 0} → (R → Bool) → Table R → Table R
without p t = record t { rows = keep (λ r. not (p r)) t.rows }

module _ (e : Engine) where
  -- The tokens' side and the devices' side of `device JOIN token USING(token_id) WHERE
  -- device.device_id = ? AND token.access_token = ?`
  abbrev pub device_doomed : Text → Text → Database → Device → Bool
  device_doomed id access d r =
      e.id_matches r.device_id id
      && any (λ (t : Token). t.token_id == r.token_id && e.collate t.access_token access)
          d.tokens.rows

  abbrev pub device_token_doomed : Text → Text → Database → Token → Bool
  device_token_doomed id access d t =
      e.collate t.access_token access
      && any (λ (r : Device). r.token_id == t.token_id && e.id_matches r.device_id id)
          d.devices.rows

  abbrev pub client_doomed : Text → Text → Database → Client → Bool
  client_doomed id access d r =
      e.id_matches r.client_id id
      && any (λ (t : Token). t.token_id == r.token_id && e.collate t.access_token access)
          d.tokens.rows

  abbrev pub client_token_doomed : Text → Text → Database → Token → Bool
  client_token_doomed id access d t =
      e.collate t.access_token access
      && any (λ (r : Client). r.token_id == t.token_id && e.id_matches r.client_id id)
          d.clients.rows

  -- The foreign keys are checked for every row that is deleted, in the optimizer's order: a token that
  -- goes first still has the row that refers to it, so that the statement is refused; a row that
  -- goes first has no row that refers to it, and its token then has no other.
  abbrev pub allowed : Text → Text → Database → Bool → Database → Bool
  allowed id access d found d' = not (found && e.tokens_first id access d) && tokens_referred d'

  -- DELETE device, token FROM device JOIN token USING(token_id) WHERE …
  unfoldable pub delete_device : Text → Text → Statement
  delete_device id access d =
      let d' : Database = record d {
        devices = without (device_doomed id access d) d.devices;
        tokens = without (device_token_doomed id access d) d.tokens;
      } in
      only_if (allowed id access d (any (device_doomed id access d) d.devices.rows) d') (
        some (
          d',
          record {
            last_id = 0;
            affected =
                count (device_doomed id access d) d.devices.rows
                + count (device_token_doomed id access d) d.tokens.rows;
          },
        ))

  -- DELETE client, token FROM client JOIN token USING(token_id) WHERE …
  unfoldable pub delete_client : Text → Text → Statement
  delete_client id access d =
      let d' : Database = record d {
        clients = without (client_doomed id access d) d.clients;
        tokens = without (client_token_doomed id access d) d.tokens;
      } in
      only_if (allowed id access d (any (client_doomed id access d) d.clients.rows) d') (
        some (
          d',
          record {
            last_id = 0;
            affected =
                count (client_doomed id access d) d.clients.rows
                + count (client_token_doomed id access d) d.tokens.rows;
          },
        ))
