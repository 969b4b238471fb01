-- ===== src/Registry/Clients/Lifecycle.antt =====
-- From the provisioning of a client to its registration.
use coap_gateway.Prelude.{
  ℕ, suc, ◌+◌, ◌≤◌, ◌≡◌, refl, true, false, none, some, [], arith, length, any, ==_refl, ◌⊎◌, ◌&&◌,
  Option, Option-cases, inl, inr,
}
use coap_gateway.Prelude.Text.{Text}
use coap_gateway.Go.{ret, ◌>>=◌}
use coap_gateway.Registry.Schema.{Token, Client, Database, client_refs}
use coap_gateway.Registry.World.{
  Engine, World, IsEngine, Quiet, no_rows, driver, tick, exec, query_row, new_token, last_insert_id,
}
use coap_gateway.Registry.Statements.{
  oldest, push, inserted, only_if, select_mediator, insert_token, insert_client, token_row,
  client_row, token_of, select_client_token, renew_token, update_tokens, renewed, id_is,
}
use coap_gateway.Registry.Statements
use coap_gateway.Registry.Preserves.{exec-taken}
use coap_gateway.Registry.Rows.{oldest-quiet, oldest-above}
use coap_gateway.Registry.Integrity.{WellFormed}
use coap_gateway.Registry.Devices.{access_token_ttl}
use coap_gateway.Registry.Devices.Onboarding.{drawn, length-drawn, fit-drawn, mediator_refs}
use coap_gateway.Registry.Clients.{
  provision_client, register_client, ClientRegistration, no_client_registration,
}

-- The values of a client's registration that succeeds.
pub record ClientGranted (c : ClientRegistration) : Type 0 where
  pub access : length c.access_token ≡ 44
  pub refresh : length c.refresh_token ≡ 44
  pub ttl : c.expires_in ≡ access_token_ttl
  pub no_redirect : c.redirect_uri ≡ []
  pub no_error : c.error ≡ none

module _ (e : Engine) (ok_engine : IsEngine e) (q : Quiet e) where
  -- While nothing fails, a client that brings the token stored for it is granted two new tokens of
  -- 44 characters for 6000 seconds and no redirect URI, whatever user and provider it names.
  pub register_client_grants :
      (w : World) (user_id uuid mediated provider : Text) (i u : ℕ)
      → select_client_token e uuid mediated w.db ≡ some (some i, some u)
      → (c : ClientRegistration) × (w' : World) × (register_client e user_id uuid mediated provider
            w
          ≡ (ret c, w'))
        × ClientGranted c
  unfolding register_client exec query_row new_token renew_token ◌>>=◌
  register_client_grants w user_id uuid mediated provider i u s = (
    record {
      access_token = drawn e ok_engine q (suc w.calls);
      refresh_token = drawn e ok_engine q (suc (suc w.calls));
      redirect_uri = [];
      expires_in = access_token_ttl;
      error = none;
    },
    record w {
      db =
          (update_tokens (λ t. id_is (some i) t.token_id)
            (renewed (drawn e ok_engine q (suc (suc w.calls))) (drawn e ok_engine q (suc w.calls))
              (w.now + access_token_ttl))
            w.db).0;
      calls = suc (suc (suc (suc w.calls)));
    },
    ground (
      arith,
      s,
      q.no_fault w.calls,
      q.no_fault (suc (suc (suc w.calls))),
      q.random_bytes (suc w.calls),
      q.random_bytes (suc (suc w.calls)),
      fit-drawn e ok_engine q (suc w.calls),
      fit-drawn e ok_engine q (suc (suc w.calls)),
    ),
    record {
      access = length-drawn e ok_engine q (suc w.calls);
      refresh = length-drawn e ok_engine q (suc (suc w.calls));
      ttl = refl;
      no_redirect = refl;
      no_error = refl;
    },
  )

  module _ (w : World) (wf : WellFormed e w.db) (uuid token : Text) (m u : ℕ) where
    abbrev with_client : Database
    with_client = record w.db {
      tokens = push (token_row w.db token) w.db.tokens;
      clients = push (client_row w.db u m w.db.tokens.next uuid) w.db.clients;
    }

    token_of-pushed : token_of with_client w.db.tokens.next ≡ some (token_row w.db token)
    unfolding token_of oldest
    token_of-pushed = ground (
      arith,
      oldest-above (λ (t : Token). t.token_id) (λ t. some t) w.db.tokens.next w.db.tokens.next
          w.db.tokens.rows (omega arith) wf.token_ids,
    )

    abbrev picked : Database → Client → Option (Option ℕ × Option ℕ)
    picked d r = Statements.◌>>=◌ (token_of d r.token_id) (λ t.
        only_if (e.collate r.client_uuid uuid && e.collate t.access_token token)
          (some (some r.token_id, some r.user_id)))

    unpicked : (r : Client) → e.collate r.client_uuid uuid ≡ false → picked with_client r ≡ none
    unpicked r h = elim (Option-cases (token_of with_client r.token_id)) [
      | inl n ↦ ground (arith, n)
      | inr (t, f) ↦ ground (arith, f)
    ]

    select-pushed :
        any (λ (r : Client). e.collate r.client_uuid uuid) w.db.clients.rows ≡ false
        → select_client_token e uuid token with_client ≡ some (some w.db.tokens.next, some u)
    unfolding select_client_token oldest
    select-pushed fresh = ground (
      arith,
      token_of-pushed,
      ok_engine.collate_refl uuid,
      ok_engine.collate_refl token,
      oldest-quiet (λ (r : Client). e.collate r.client_uuid uuid) (picked with_client)
          w.db.clients.rows unpicked fresh,
    )

    token_taken :
        token ≡ drawn e ok_engine q (suc w.calls)
        → insert_token e token w.db
          ≡ some (
            record w.db { tokens = push (token_row w.db token) w.db.tokens },
            inserted w.db.tokens.next,
          )
    unfolding insert_token
    token_taken t =
        let fit : e.fit 45 token ≡ some token = rw t (fit-drawn e ok_engine q (suc w.calls)) in
        rw fit refl

    client_taken :
        length uuid ≤ 36
        → client_refs
            (record w.db { tokens = push (token_row w.db token) w.db.tokens })
            (client_row w.db u m w.db.tokens.next uuid)
          ≡ true
        → insert_client e
            (some u)
            (some m)
            w.db.tokens.next
            uuid
            (record w.db { tokens = push (token_row w.db token) w.db.tokens })
          ≡ some (with_client, inserted w.db.clients.next)
    unfolding insert_client
    client_taken l refs = rw (ok_engine.fit_short 36 uuid l, refs) refl

    -- The database after the provisioning of a client.
    provision_client-ok :
        (mediator_token : Text)
        → token ≡ drawn e ok_engine q (suc w.calls)
        → select_mediator e mediator_token w.db ≡ some (some m, some u)
        → length uuid ≤ 36
        → client_refs
            (record w.db { tokens = push (token_row w.db token) w.db.tokens })
            (client_row w.db u m w.db.tokens.next uuid)
          ≡ true
        → provision_client e uuid mediator_token w ≡ (
          ret (token, none),
          record w { db = with_client; calls = suc (suc (suc (suc w.calls))) },
        )
    unfolding provision_client query_row new_token last_insert_id ◌>>=◌
    provision_client-ok mediator_token t s l refs =
        let w₁ : World = record w { calls = suc (suc w.calls) } in
        let token_db : Database = record w.db {
          tokens = push (token_row w.db token) w.db.tokens;
        } in
        let w₂ : World = record (tick w₁) { db = token_db } in
        ground (
          arith,
          t,
          s,
          q.no_fault w.calls,
          q.random_bytes (suc w.calls),
          exec-taken e (insert_token e token) w₁ token_db (inserted w.db.tokens.next)
              (q.no_fault w₁.calls) (token_taken t),
          exec-taken e (insert_client e (some u) (some m) w.db.tokens.next uuid) w₂ with_client
              (inserted w.db.clients.next) (q.no_fault w₂.calls) (client_taken l refs),
        )

  -- From a well-formed database and while nothing fails, a mediator with a known token provisions a
  -- client whose uuid fits its column and is new, and the client that brings the provisioned
  -- token is then granted its tokens, whatever user and provider it names.
  pub provision-register_client :
      (w : World) (wf : WellFormed e w.db) (uuid mediator_token user_id provider : Text) (m u : ℕ)
      → select_mediator e mediator_token w.db ≡ some (some m, some u)
      → length uuid ≤ 36
      → any (λ (r : Client). e.collate r.client_uuid uuid) w.db.clients.rows ≡ false
      → (token : Text) × (w' w'' : World) × (c : ClientRegistration) × (provision_client e uuid
            mediator_token w
          ≡ (ret (token, none), w'))
        × (register_client e user_id uuid token provider w' ≡ (ret c, w''))
        × ClientGranted c
  provision-register_client w wf uuid mediator_token user_id provider m u s l fresh =
      let (known, owner) = mediator_refs e w.db mediator_token m u wf s in
      let token = drawn e ok_engine q (suc w.calls) in
      let w' : World = record w {
        db = with_client w wf uuid token m u;
        calls = suc (suc (suc (suc w.calls)));
      } in
      let (c, w'', grant, granted) =
        register_client_grants w' user_id uuid token provider w.db.tokens.next u
          (select-pushed w wf uuid token m u fresh) in
      (
        token,
        w',
        w'',
        c,
        provision_client-ok w wf uuid token m u mediator_token refl s l
            (ground (arith, known, owner, ==_refl w.db.tokens.next)),
        grant,
        granted,
      )

-- Whatever fails, a client whose uuid and token no row has is refused with sql.ErrNoRows, or with
-- the error of a failing query, and the database stays.
pub register_client_unknown :
    (e : Engine) (w : World) (user_id uuid mediated provider : Text)
    → select_client_token e uuid mediated w.db ≡ none
    → (((register_client e user_id uuid mediated provider w).0
          ≡ ret (no_client_registration (some no_rows)))
        ⊎ ((register_client e user_id uuid mediated provider w).0
            ≡ ret (no_client_registration (some driver))))
      × ((register_client e user_id uuid mediated provider w).1.db ≡ w.db)
unfolding register_client query_row ◌>>=◌
register_client_unknown e w user_id uuid mediated provider s = ground (arith, s)
