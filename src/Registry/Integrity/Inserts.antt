-- ===== src/Registry/Integrity/Inserts.antt =====
-- The insertions keep the constraints.
use coap_gateway.Prelude.{ℕ, ◌≡◌, refl, true, false, Option, any, arith}
use coap_gateway.Prelude.Text.{Text}
use coap_gateway.Registry.Schema.{
  User, Mediator, Token, Client, Device, Database, has_user, device_refs, client_refs,
}
use coap_gateway.Registry.World.{Engine}
use coap_gateway.Registry.Rows.{All-mono}
use coap_gateway.Registry.Statements.{
  push, user_row, mediator_row, token_row, device_row, client_row, insert_user, insert_mediator,
  insert_token, insert_device, insert_client,
}
use coap_gateway.Registry.Integrity.{
  WellFormed, Leaves, Leaves-bind, Grows, device_refs_mono, client_refs_mono,
}

-- A new row with the next key, where its references and its UNIQUE columns allow it.
module _ (e : Engine) (d : Database) (w : WellFormed e d) where
  user_grows : (u : User) → Grows d (record d { users = push u d.users })
  user_grows u = record { users = λ i h. ground arith; mediators = λ i h. h; tokens = λ i h. h }

  mediator_grows : (m : Mediator) → Grows d (record d { mediators = push m d.mediators })
  mediator_grows m = record { users = λ i h. h; mediators = λ i h. ground arith; tokens = λ i h. h }

  token_grows : (t : Token) → Grows d (record d { tokens = push t d.tokens })
  token_grows t = record { users = λ i h. h; mediators = λ i h. h; tokens = λ i h. ground arith }

  push_user-WellFormed :
      (u : User)
      → u.user_id ≡ d.users.next
      → any (λ (r : User). e.collate r.username u.username) d.users.rows ≡ false
      → WellFormed e (record d { users = push u d.users })
  push_user-WellFormed u q new = record {
    user_ids = rw q (omega arith, w.user_ids);
    usernames = (new, w.usernames);
    mediator_users =
        All-mono _ _ d.mediators.rows (λ m h. (user_grows u).users m.user_id h) w.mediator_users;
    clients_refer =
        All-mono _ _ d.clients.rows (client_refs_mono _ _ (user_grows u)) w.clients_refer;
    devices_refer =
        All-mono _ _ d.devices.rows (device_refs_mono _ _ (user_grows u)) w.devices_refer;
    mediator_ids = w.mediator_ids;
    token_ids = w.token_ids;
    client_ids = w.client_ids;
    device_ids = w.device_ids;
    mediator_tokens = w.mediator_tokens;
  }

  push_mediator-WellFormed :
      (m : Mediator)
      → m.mediator_id ≡ d.mediators.next
      → has_user d m.user_id ≡ true
      → any (λ (r : Mediator). e.collate r.mediator_token m.mediator_token) d.mediators.rows ≡ false
      → WellFormed e (record d { mediators = push m d.mediators })
  push_mediator-WellFormed m q owner new = record {
    mediator_ids = rw q (omega arith, w.mediator_ids);
    mediator_tokens = (new, w.mediator_tokens);
    mediator_users = (owner, w.mediator_users);
    clients_refer =
        All-mono _ _ d.clients.rows (client_refs_mono _ _ (mediator_grows m)) w.clients_refer;
    devices_refer =
        All-mono _ _ d.devices.rows (device_refs_mono _ _ (mediator_grows m)) w.devices_refer;
    user_ids = w.user_ids;
    token_ids = w.token_ids;
    client_ids = w.client_ids;
    device_ids = w.device_ids;
    usernames = w.usernames;
  }

  push_token-WellFormed :
      (t : Token)
      → t.token_id ≡ d.tokens.next
      → WellFormed e (record d { tokens = push t d.tokens })
  push_token-WellFormed t q = record {
    token_ids = rw q (omega arith, w.token_ids);
    clients_refer =
        All-mono _ _ d.clients.rows (client_refs_mono _ _ (token_grows t)) w.clients_refer;
    devices_refer =
        All-mono _ _ d.devices.rows (device_refs_mono _ _ (token_grows t)) w.devices_refer;
    user_ids = w.user_ids;
    mediator_ids = w.mediator_ids;
    client_ids = w.client_ids;
    device_ids = w.device_ids;
    usernames = w.usernames;
    mediator_tokens = w.mediator_tokens;
    mediator_users = w.mediator_users;
  }

  push_client-WellFormed :
      (r : Client)
      → r.client_id ≡ d.clients.next
      → client_refs d r ≡ true
      → WellFormed e (record d { clients = push r d.clients })
  push_client-WellFormed r q refs = record {
    client_ids = rw q (omega arith, w.client_ids);
    clients_refer = (refs, w.clients_refer);
    user_ids = w.user_ids;
    mediator_ids = w.mediator_ids;
    token_ids = w.token_ids;
    device_ids = w.device_ids;
    usernames = w.usernames;
    mediator_tokens = w.mediator_tokens;
    mediator_users = w.mediator_users;
    devices_refer = w.devices_refer;
  }

  push_device-WellFormed :
      (r : Device)
      → r.device_id ≡ d.devices.next
      → device_refs d r ≡ true
      → WellFormed e (record d { devices = push r d.devices })
  push_device-WellFormed r q refs = record {
    device_ids = rw q (omega arith, w.device_ids);
    devices_refer = (refs, w.devices_refer);
    user_ids = w.user_ids;
    mediator_ids = w.mediator_ids;
    token_ids = w.token_ids;
    client_ids = w.client_ids;
    usernames = w.usernames;
    mediator_tokens = w.mediator_tokens;
    mediator_users = w.mediator_users;
    clients_refer = w.clients_refer;
  }

module _ (e : Engine) (d : Database) (w : WellFormed e d) where
  pub insert_user-WellFormed :
      (username provider token : Text)
      → Leaves (WellFormed e) (insert_user e username provider token d)
  unfolding insert_user
  insert_user-WellFormed username provider token =
      Leaves-bind (WellFormed e) (e.fit 45 username) _ λ u _.
        Leaves-bind (WellFormed e) (e.fit 45 provider) _ λ p _.
          Leaves-bind (WellFormed e) (e.fit 45 token) _
            λ t _. ground (arith, push_user-WellFormed e d w (user_row d p u t) refl)

  pub insert_mediator-WellFormed :
      (user_id : Option ℕ) (token : Text)
      → Leaves (WellFormed e) (insert_mediator e user_id token d)
  unfolding insert_mediator
  insert_mediator-WellFormed user_id token = Leaves-bind (WellFormed e) user_id _ λ u _.
      Leaves-bind (WellFormed e) (e.fit 45 token) _
        λ t _. ground (arith, push_mediator-WellFormed e d w (mediator_row d u t) refl)

  pub insert_token-WellFormed : (token : Text) → Leaves (WellFormed e) (insert_token e token d)
  unfolding insert_token
  insert_token-WellFormed token =
      Leaves-bind (WellFormed e) (e.fit 45 token) _
        λ t _. push_token-WellFormed e d w (token_row d t) refl

  pub insert_device-WellFormed :
      (user_id mediator_id : Option ℕ) (token_id : ℕ) (uuid : Text)
      → Leaves (WellFormed e) (insert_device e user_id mediator_id token_id uuid d)
  unfolding insert_device
  insert_device-WellFormed user_id mediator_id token_id uuid =
      Leaves-bind (WellFormed e) user_id _ λ u _. Leaves-bind (WellFormed e) mediator_id _ λ m _.
        Leaves-bind (WellFormed e) (e.fit 36 uuid) _
          λ i _. ground (arith, push_device-WellFormed e d w (device_row d u m token_id i) refl)

  pub insert_client-WellFormed :
      (user_id mediator_id : Option ℕ) (token_id : ℕ) (uuid : Text)
      → Leaves (WellFormed e) (insert_client e user_id mediator_id token_id uuid d)
  unfolding insert_client
  insert_client-WellFormed user_id mediator_id token_id uuid =
      Leaves-bind (WellFormed e) user_id _ λ u _. Leaves-bind (WellFormed e) mediator_id _ λ m _.
        Leaves-bind (WellFormed e) (e.fit 36 uuid) _
          λ i _. ground (arith, push_client-WellFormed e d w (client_row d u m token_id i) refl)
