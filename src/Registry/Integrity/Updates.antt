-- ===== src/Registry/Integrity/Updates.antt =====
-- The updates and the deletions keep the constraints.
use coap_gateway.Prelude.{ℕ, ◌≡◌, refl, Bool, true, Option, All, arith, ◌==◌, if◌then◌else◌}
use coap_gateway.Prelude.Text.{Text}
use coap_gateway.Registry.Schema.{
  Token, Client, Device, Table, Database, has_token, device_refs, client_refs,
}
use coap_gateway.Registry.World.{Engine}
use coap_gateway.Registry.Rows.{
  Descending, Descending-keep, Descending-map, All-mono, All-keep, All-map, All-both, All-all_rows,
  any-map,
}
use coap_gateway.Registry.Statements.{
  update_tokens, renew_token, reissue_token, publish, without, device_doomed, device_token_doomed,
  client_doomed, client_token_doomed, tokens_referred, delete_device, delete_client,
}
use coap_gateway.Registry.Integrity.{
  WellFormed, Leaves, Leaves-bind, Grows, device_refs_mono, client_refs_mono,
}

module _ (e : Engine) (d : Database) (w : WellFormed e d) where
  -- An update that keeps the keys of the tokens.
  module _ (pick : Token → Bool) (f : Token → Token)
      (same : (t : Token) → (f t).token_id ≡ t.token_id) where
    picked_same : (t : Token) → (if pick t then f t else t).token_id ≡ t.token_id
    picked_same t = ground (arith, same t)

    update_grows : Grows d (update_tokens pick f d).0
    update_grows = record {
      users = λ i h. h;
      mediators = λ i h. h;
      tokens = λ i h.
          rw
            (any-map (λ (t : Token). t.token_id == i) (λ t. if pick t then f t else t) d.tokens.rows
              (λ t. rw (picked_same t)))
            h;
    }

    update_tokens-WellFormed : WellFormed e (update_tokens pick f d).0
    update_tokens-WellFormed = record {
      user_ids = w.user_ids;
      mediator_ids = w.mediator_ids;
      token_ids = Descending-map (λ t. if pick t then f t else t) _ _ _ picked_same w.token_ids;
      client_ids = w.client_ids;
      device_ids = w.device_ids;
      usernames = w.usernames;
      mediator_tokens = w.mediator_tokens;
      mediator_users = w.mediator_users;
      clients_refer =
          All-mono _ _ d.clients.rows (client_refs_mono _ _ update_grows) w.clients_refer;
      devices_refer =
          All-mono _ _ d.devices.rows (device_refs_mono _ _ update_grows) w.devices_refer;
    }

module _ (e : Engine) (d : Database) (w : WellFormed e d) where
  pub renew_token-WellFormed :
      (refresh access : Text) (now ttl : ℕ) (token_id : Option ℕ)
      → Leaves (WellFormed e) (renew_token e refresh access now ttl token_id d)
  unfolding renew_token
  renew_token-WellFormed refresh access now ttl token_id =
      Leaves-bind (WellFormed e) (e.fit 45 refresh) _ λ r _.
        Leaves-bind (WellFormed e) (e.fit 45 access) _
          λ a _. update_tokens-WellFormed e d w _ _ (λ t. refl)

  pub reissue_token-WellFormed :
      (access : Text) (now ttl : ℕ) (refresh : Text)
      → Leaves (WellFormed e) (reissue_token e access now ttl refresh d)
  unfolding reissue_token
  reissue_token-WellFormed access now ttl refresh =
      Leaves-bind (WellFormed e) (e.fit 45 access) _
        λ a _. update_tokens-WellFormed e d w _ _ (λ t. refl)

  pub publish-WellFormed : (json uuid : Text) → Leaves (WellFormed e) (publish e json uuid d)
  unfolding publish
  publish-WellFormed json uuid = Leaves-bind (WellFormed e) (e.fit_json json) _ λ j _. record {
    user_ids = w.user_ids;
    mediator_ids = w.mediator_ids;
    token_ids = w.token_ids;
    client_ids = w.client_ids;
    device_ids = Descending-map _ _ _ _ (λ r. ground arith) w.device_ids;
    usernames = w.usernames;
    mediator_tokens = w.mediator_tokens;
    mediator_users = w.mediator_users;
    clients_refer = w.clients_refer;
    devices_refer = All-map _ _ d.devices.rows (λ r h. ground arith) w.devices_refer;
  }

-- After a deletion of tokens that leaves no reference to one that is gone.
module _ (e : Engine) (d : Database) (w : WellFormed e d) where
  device_refs_left :
      (d' : Database) (r : Device)
      → d'.users ≡ d.users
      → d'.mediators ≡ d.mediators
      → device_refs d r ≡ true
      → has_token d' r.token_id ≡ true
      → device_refs d' r ≡ true
  device_refs_left d' r u m h t = rw (u, m) (ground arith)

  client_refs_left :
      (d' : Database) (r : Client)
      → d'.users ≡ d.users
      → d'.mediators ≡ d.mediators
      → client_refs d r ≡ true
      → has_token d' r.token_id ≡ true
      → client_refs d' r ≡ true
  client_refs_left d' r u m h t = rw (u, m) (ground arith)

  -- The rows that are left refer to what they referred to.
  pub record Left (devices : Table Device) (clients : Table Client) : Type 0 where
    device_ids : Descending (λ (r : Device). r.device_id) devices.next devices.rows
    client_ids : Descending (λ (r : Client). r.client_id) clients.next clients.rows
    devices_refer : All (λ (r : Device). device_refs d r ≡ true) devices.rows
    clients_refer : All (λ (r : Client). client_refs d r ≡ true) clients.rows

  module _ (devices : Table Device) (clients : Table Client) (token_gone : Token → Bool) where
    abbrev left : Database
    left = record d { devices = devices; clients = clients; tokens = without token_gone d.tokens }

    deleted-WellFormed : Left devices clients → tokens_referred left ≡ true → WellFormed e left
    deleted-WellFormed l h = record {
      user_ids = w.user_ids;
      mediator_ids = w.mediator_ids;
      token_ids = Descending-keep _ _ _ d.tokens.rows w.token_ids;
      client_ids = l.client_ids;
      device_ids = l.device_ids;
      usernames = w.usernames;
      mediator_tokens = w.mediator_tokens;
      mediator_users = w.mediator_users;
      clients_refer =
          All-mono _ _ clients.rows (λ r b. client_refs_left left r refl refl b.0 b.1)
            (All-both _ _ clients.rows l.clients_refer
              (All-all_rows _ clients.rows (ground arith)));
      devices_refer =
          All-mono _ _ devices.rows (λ r b. device_refs_left left r refl refl b.0 b.1)
            (All-both _ _ devices.rows l.devices_refer
              (All-all_rows _ devices.rows (ground arith)));
    }

  devices-Left : (gone : Device → Bool) → Left (without gone d.devices) d.clients
  devices-Left gone = record {
    device_ids = Descending-keep _ _ _ d.devices.rows w.device_ids;
    client_ids = w.client_ids;
    devices_refer = All-keep _ _ d.devices.rows w.devices_refer;
    clients_refer = w.clients_refer;
  }

  clients-Left : (gone : Client → Bool) → Left d.devices (without gone d.clients)
  clients-Left gone = record {
    device_ids = w.device_ids;
    client_ids = Descending-keep _ _ _ d.clients.rows w.client_ids;
    devices_refer = w.devices_refer;
    clients_refer = All-keep _ _ d.clients.rows w.clients_refer;
  }

  pub delete_device-WellFormed :
      (id access : Text) → Leaves (WellFormed e) (delete_device e id access d)
  unfolding delete_device
  delete_device-WellFormed id access = ground (
    arith,
    deleted-WellFormed (without (device_doomed e id access d) d.devices) d.clients
        (device_token_doomed e id access d) (devices-Left (device_doomed e id access d)),
  )

  pub delete_client-WellFormed :
      (id access : Text) → Leaves (WellFormed e) (delete_client e id access d)
  unfolding delete_client
  delete_client-WellFormed id access = ground (
    arith,
    deleted-WellFormed d.devices (without (client_doomed e id access d) d.clients)
        (client_token_doomed e id access d) (clients-Left (client_doomed e id access d)),
  )
