-- ===== src/Registry/Owned/Deletions.antt =====
-- DeleteDevice and DeleteClient of pkg/registry/mysqlredisregistry.go: when the foreign keys stand in
-- the way.
use coap_gateway.Prelude.{
  ◌≡◌, refl, Bool, true, false, not, ◌&&◌, Option, none, any, All, arith, Bool-cases, inl, inr,
  if◌then◌else◌,
}
use coap_gateway.Prelude.Text.{Text}
use coap_gateway.Go.{Outcome, ret, panics, pure, ◌>>=◌}
use coap_gateway.Registry.Schema.{Client, Device, Database, has_token}
use coap_gateway.Registry.World.{Engine, World, Err, tick, exec, rows_affected}
use coap_gateway.Registry.Rows.{All-mono}
use coap_gateway.Registry.Statements.{keep, tokens_referred, delete_device, delete_client}
use coap_gateway.Registry.Devices.{delete_device_row}
use coap_gateway.Registry.Clients.{delete_client_row}
use coap_gateway.Registry.Integrity.{WellFormed}
use coap_gateway.Registry.Owned.{Owned}
use coap_gateway.Registry.Owned.Joins.{all_rows-All, used_stays, others_stay, row_gone, tokens_left}

-- The rows of a device with an id, and of its token where this has the access token.
module _ (e : Engine) (id access : Text) (d : Database) where
  abbrev pub device_gone : Device → Bool
  device_gone =
      row_gone (λ (r : Device). r.token_id) (λ r. e.id_matches r.device_id id) d.devices.rows
        (λ t. e.collate t.access_token access) d.tokens.rows

  abbrev pub client_gone : Client → Bool
  client_gone =
      row_gone (λ (r : Client). r.token_id) (λ r. e.id_matches r.client_id id) d.clients.rows
        (λ t. e.collate t.access_token access) d.tokens.rows

  -- The tables without them, and with everything else.
  abbrev pub without_device : Database
  without_device = record d {
    devices = record d.devices { rows = keep (λ r. not (device_gone r)) d.devices.rows };
    tokens = record d.tokens {
      rows =
          tokens_left (λ (r : Device). r.token_id) (λ r. e.id_matches r.device_id id) d.devices.rows
            (λ t. e.collate t.access_token access) d.tokens.rows;
    };
  }

  abbrev pub without_client : Database
  without_client = record d {
    clients = record d.clients { rows = keep (λ r. not (client_gone r)) d.clients.rows };
    tokens = record d.tokens {
      rows =
          tokens_left (λ (r : Client). r.token_id) (λ r. e.id_matches r.client_id id) d.clients.rows
            (λ t. e.collate t.access_token access) d.tokens.rows;
    };
  }

module _ (e : Engine) (id access : Text) (d : Database) (wf : WellFormed e d) (o : Owned d) where
  device_tokens : All (λ (r : Device). has_token d r.token_id ≡ true) d.devices.rows
  device_tokens = All-mono _ _ d.devices.rows (λ r h. ground arith) wf.devices_refer

  client_tokens : All (λ (r : Client). has_token d r.token_id ≡ true) d.clients.rows
  client_tokens = All-mono _ _ d.clients.rows (λ r h. ground arith) wf.clients_refer

  without_device-referred : tokens_referred (without_device e id access d) ≡ true
  without_device-referred =
      let own = all_rows-All _ _ (
        used_stays (λ (r : Device). r.token_id) (λ r. e.id_matches r.device_id id) d.devices.rows
          (λ t. e.collate t.access_token access) d.tokens.rows (λ i. omega (arith, o.once i))
          device_tokens) in
      let others = all_rows-All _ _ (
        others_stay (λ (r : Device). r.token_id) (λ r. e.id_matches r.device_id id) d.devices.rows
          (λ t. e.collate t.access_token access) d.tokens.rows (λ (r : Client). r.token_id)
          d.clients.rows o.once client_tokens) in
      rw (own, others) refl

  without_client-referred : tokens_referred (without_client e id access d) ≡ true
  without_client-referred =
      let own = all_rows-All _ _ (
        used_stays (λ (r : Client). r.token_id) (λ r. e.id_matches r.client_id id) d.clients.rows
          (λ t. e.collate t.access_token access) d.tokens.rows (λ i. omega (arith, o.once i))
          client_tokens) in
      let others = all_rows-All _ _ (
        others_stay (λ (r : Client). r.token_id) (λ r. e.id_matches r.client_id id) d.clients.rows
          (λ t. e.collate t.access_token access) d.tokens.rows (λ (r : Device). r.token_id)
          d.devices.rows (λ i. omega (arith, o.once i)) device_tokens) in
      rw (own, others) refl

-- How a deletion ends, if it finds something or not, in the optimizer's order.
abbrev pub deleted : Engine → Text → Text → World → Bool → Database → Outcome (Option Err) × World
deleted e id access w found d =
    if found && e.tokens_first id access w.db
    then (panics, tick w)
    else (ret none, record (tick w) { db = d })

-- Where the tables satisfy the constraints of the schema and no two devices or clients share a token,
-- DeleteDevice and DeleteClient whose one call to the server does not fail, whatever id and access
-- token they bring, take effect unless there is something to delete and the optimizer has its tokens
-- deleted first: no other row is in the way, the method returns nil, the device or the client with
-- the id is gone with its token if this has the access token, and everything else is as before.
-- With the tokens first the foreign keys refuse the deletion, and the method panics and leaves the
-- tables as they were.
pub deletions_take_effect :
    (e : Engine) (id access : Text) (w : World)
    → WellFormed e w.db
    → Owned w.db
    → e.fault w.calls ≡ false
    → (delete_device_row e id access w
        ≡ deleted e id access w
            (any (device_gone e id access w.db) w.db.devices.rows)
            (without_device e id access w.db))
      × (delete_client_row e id access w
          ≡ deleted e id access w
              (any (client_gone e id access w.db) w.db.clients.rows)
              (without_client e id access w.db))
unfolding delete_device_row delete_client_row delete_device delete_client exec rows_affected pure
    ◌>>=◌
deletions_take_effect e id access w wf o f = (
  elim (Bool-cases
      (any (device_gone e id access w.db) w.db.devices.rows && e.tokens_first id access w.db)) [
        | inl refused ↦ rw (f, refused) refl
        | inr free ↦ rw (f, free, without_device-referred e id access w.db wf o) refl
      ],
  elim (Bool-cases
      (any (client_gone e id access w.db) w.db.clients.rows && e.tokens_first id access w.db)) [
        | inl refused ↦ rw (f, refused) refl
        | inr free ↦ rw (f, free, without_client-referred e id access w.db wf o) refl
      ],
)
