-- ===== src/Registry/Devices/Onboarding.antt =====
-- From a mediator's request to a registered device.
use coap_gateway.Prelude.{
  ℕ, suc, ◌+◌, ◌≤◌, ◌≡◌, true, false, Option, none, some, arith, length, any, ◌==◌,
}
use coap_gateway.Prelude.Text.{Text, text_eq_refl}
use coap_gateway.Go.{ret, ◌>>=◌}
use coap_gateway.Token.{encode_to_string}
use coap_gateway.Token.Shape.{length-encode_to_string}
use coap_gateway.Registry.Schema.{
  User, Mediator, Token, Device, Database, has_user, has_mediator, device_refs,
}
use coap_gateway.Registry.World.{
  Engine, World, IsEngine, Quiet, exec, query_row, new_token, last_insert_id,
}
use coap_gateway.Registry.Statements.{
  oldest, push, select_mediator, insert_token, insert_device, token_row, device_row, token_of,
  user_of, joined, select_device_token, renew_token, update_tokens, renewed, id_is,
}
use coap_gateway.Registry.Rows.{
  oldest-row, oldest-any, oldest-none, oldest-above, All-any, All-both,
}
use coap_gateway.Registry.Integrity.{WellFormed}
use coap_gateway.Registry.Devices.{
  provision_device, register_device, Registration, access_token_ttl,
}

module _ (e : Engine) (ok_engine : IsEngine e) (q : Quiet e) where
  -- The token that a draw at a call makes.
  abbrev pub drawn : ℕ → Text
  drawn n = encode_to_string (q.bytes n)

  pub length-drawn : (n : ℕ) → length (drawn n) ≡ 44
  length-drawn n = omega (
    arith,
    length-encode_to_string (q.bytes n),
    ok_engine.random_length n (q.bytes n) (q.random_bytes n),
  )

  pub fit-drawn : (n : ℕ) → e.fit 45 (drawn n) ≡ some (drawn n)
  fit-drawn n = ok_engine.fit_short 45 (drawn n) (omega (arith, length-drawn n))

  module _ (w : World) (uuid mediator_token : Text) (m u : ℕ) where
    -- The database after the two insertions.
    abbrev pub with_token : Database
    with_token = record w.db { tokens = push (token_row w.db (drawn (suc w.calls))) w.db.tokens }

    abbrev pub with_device : Database
    with_device = record with_token {
      devices = push (device_row with_token u m w.db.tokens.next uuid) w.db.devices;
    }

    pub provision_device-ok :
        select_mediator e mediator_token w.db ≡ some (some m, some u)
        → length uuid ≤ 36
        → device_refs with_token (device_row with_token u m w.db.tokens.next uuid) ≡ true
        → provision_device e uuid mediator_token w ≡ (
          ret (drawn (suc w.calls), none),
          record w { db = with_device; calls = suc (suc (suc (suc w.calls))) },
        )
    unfolding provision_device exec query_row new_token last_insert_id insert_token insert_device
        ◌>>=◌
    provision_device-ok s l refs = ground (
      arith,
      q.no_fault w.calls,
      q.no_fault (suc (suc w.calls)),
      q.no_fault (suc (suc (suc w.calls))),
      q.random_bytes (suc w.calls),
      fit-drawn (suc w.calls),
      ok_engine.fit_short 36 uuid l,
    )

-- The keys that a selected mediator brings exist.
pub mediator_refs :
    (e : Engine) (d : Database) (token : Text) (m u : ℕ)
    → WellFormed e d
    → select_mediator e token d ≡ some (some m, some u)
    → (has_mediator d m ≡ true) × (has_user d u ≡ true)
unfolding select_mediator
mediator_refs e d token m u wf s =
    let (r, p, q) =
      oldest-row _ _ d.mediators.rows _
        (All-both _ _ d.mediators.rows wf.mediator_users
          (All-any (λ (m : Mediator). m.mediator_id) d.mediators.rows))
        s in
    ground arith

module _ (e : Engine) (ok_engine : IsEngine e) (w : World) (wf : WellFormed e w.db) where
  module _ (uuid token : Text) (m u : ℕ) (owner : has_user w.db u ≡ true) where
    abbrev pub inserted_db : Database
    inserted_db = record w.db {
      tokens = push (token_row w.db token) w.db.tokens;
      devices = push (device_row w.db u m w.db.tokens.next uuid) w.db.devices;
    }

    token_of-inserted : token_of inserted_db w.db.tokens.next ≡ some (token_row w.db token)
    unfolding token_of oldest
    token_of-inserted = ground (
      arith,
      oldest-above (λ (t : Token). t.token_id) (λ t. some t) w.db.tokens.next w.db.tokens.next
          w.db.tokens.rows (omega arith) wf.token_ids,
    )

    pub user_of-inserted : (r : User) × (user_of inserted_db u ≡ some r)
    unfolding user_of
    user_of-inserted = oldest-any (λ (r : User). r.user_id == u) w.db.users.rows owner

    pub select-inserted :
        any (λ (r : Device). e.collate r.device_uuid uuid) w.db.devices.rows ≡ false
        → select_device_token e uuid inserted_db
          ≡ some (record {
            token_id = some w.db.tokens.next;
            username = some user_of-inserted.0.username;
            token = some token;
          })
    unfolding select_device_token oldest
    select-inserted fresh = ground (
      arith,
      token_of-inserted,
      user_of-inserted.1,
      ok_engine.collate_refl uuid,
      oldest-none (λ (r : Device). e.collate r.device_uuid uuid) (joined inserted_db)
          w.db.devices.rows fresh,
    )

module _ (e : Engine) (ok_engine : IsEngine e) (q : Quiet e) (w : World) where
  abbrev pub renewed_db : Option ℕ → Database
  renewed_db i =
      (update_tokens (λ t. id_is i t.token_id)
        (renewed (drawn e ok_engine q (suc (suc w.calls))) (drawn e ok_engine q (suc w.calls))
          (w.now + access_token_ttl))
        w.db).0

  abbrev pub renewed_world : Option ℕ → World
  renewed_world i = record w { db = renewed_db i; calls = suc (suc (suc (suc w.calls))) }

  -- What a registration grants now.
  abbrev pub granted_now : Text → Registration
  granted_now name = record {
    access_token = drawn e ok_engine q (suc w.calls);
    user_id = name;
    refresh_token = drawn e ok_engine q (suc (suc w.calls));
    expires_in = access_token_ttl;
    error = none;
  }

  -- A device that brings the token stored for it is given a new one.
  pub register_device-ok :
      (uuid mediated name : Text) (i : Option ℕ)
      → select_device_token e uuid w.db
        ≡ some (record { token_id = i; username = some name; token = some mediated })
      → register_device e uuid mediated w ≡ (ret (granted_now name), renewed_world i)
  unfolding register_device exec query_row new_token renew_token ◌>>=◌
  register_device-ok uuid mediated name i s = ground (
    arith,
    s,
    text_eq_refl mediated,
    q.no_fault w.calls,
    q.no_fault (suc (suc (suc w.calls))),
    q.random_bytes (suc w.calls),
    q.random_bytes (suc (suc w.calls)),
    fit-drawn e ok_engine q (suc w.calls),
    fit-drawn e ok_engine q (suc (suc w.calls)),
  )
