-- ===== src/Registry/Devices/Lifecycle.antt =====
-- The life of a device's tokens: provisioned once, registered once, renewed by the access token.
use coap_gateway.Prelude.{
  Bool, true, List, [], ◌∷◌, ◌&&◌, ◌==◌, ℕ, suc, ◌+◌, ◌≤◌, ◌≡◌, ◌≢◌, refl, false, Option, none,
  some, arith, length, any, ==_refl, ◌⊎◌,
}
use coap_gateway.Prelude.Text.{Text, text_eq, text_eq_refl, text_eq_iff}
use coap_gateway.Go.{Outcome, ret, ◌>>=◌}
use coap_gateway.Registry.Schema.{User, Device, Database}
use coap_gateway.Registry.World.{Engine, World, IsEngine, Quiet, driver, query_row}
use coap_gateway.Registry.Statements.{
  select_mediator, select_device_token, oldest, only_if, user_of,
}
use coap_gateway.Registry.Integrity.{WellFormed}
use coap_gateway.Registry.Lookup.{select-renewed}
use coap_gateway.Registry.Devices.{
  provision_device, register_device, Registration, no_registration, access_token_ttl,
}
use coap_gateway.Registry.Devices.Onboarding.{
  drawn, length-drawn, with_device, provision_device-ok, mediator_refs, user_of-inserted,
  select-inserted, renewed_db, renewed_world, granted_now, register_device-ok,
}

-- The values of a registration that succeeds for a user.
pub record Granted (name : Text) (r : Registration) : Type 0 where
  pub access : length r.access_token ≡ 44
  pub refresh : length r.refresh_token ≡ 44
  pub user : r.user_id ≡ name
  pub ttl : r.expires_in ≡ access_token_ttl
  pub no_error : r.error ≡ none

module _ (e : Engine) (ok_engine : IsEngine e) (q : Quiet e) (w : World) where
  -- The row of a device's token after its registration.
  pub select-registered :
      (uuid mediated name : Text) (i : ℕ)
      → select_device_token e uuid w.db
        ≡ some (record { token_id = some i; username = some name; token = some mediated })
      → select_device_token e uuid (renewed_db e ok_engine q w (some i))
        ≡ some (record {
          token_id = some i;
          username = some name;
          token = some (drawn e ok_engine q (suc w.calls));
        })
  select-registered uuid mediated name i s = ground (
    arith,
    s,
    ==_refl i,
    select-renewed e w.db i (drawn e ok_engine q (suc (suc w.calls)))
        (drawn e ok_engine q (suc w.calls)) (w.now + access_token_ttl) uuid,
  )

  pub drawn-Granted : (name : Text) → Granted name (granted_now e ok_engine q w name)
  drawn-Granted name = record {
    access = length-drawn e ok_engine q (suc w.calls);
    refresh = length-drawn e ok_engine q (suc (suc w.calls));
    user = refl;
    ttl = refl;
    no_error = refl;
  }

  -- While nothing fails, a device that brings the token stored for it (in the row that the lookup by
  -- its uuid finds) is granted two new tokens of 44 characters for 6000 seconds in the name of its
  -- user, and the access token among them takes the place of the token that it brought.
  pub register_device_grants :
      (uuid mediated name : Text) (i : ℕ)
      → select_device_token e uuid w.db
        ≡ some (record { token_id = some i; username = some name; token = some mediated })
      → (r : Registration) × (w' : World) × (register_device e uuid mediated w ≡ (ret r, w'))
        × Granted name r
        × (select_device_token e uuid w'.db
            ≡ some
                (record { token_id = some i; username = some name; token = some r.access_token }))
  register_device_grants uuid mediated name i s = (
    _,
    _,
    register_device-ok e ok_engine q w uuid mediated name (some i) s,
    drawn-Granted name,
    select-registered uuid mediated name i s,
  )

-- What a registration that ends with neither a grant nor a panic returns.
abbrev pub Refuses : Outcome Registration → Type 0
Refuses o = (o ≡ ret (no_registration none)) ⊎ (o ≡ ret (no_registration (some driver)))

-- Whatever fails, a device whose stored token is another than the one that it brings is refused:
-- it gets empty tokens, with no error or with that of a failing query, and the database stays.
pub register_device-Refuses :
    (e : Engine) (w : World) (uuid mediated stored : Text) (i : Option ℕ) (name : Option Text)
    → select_device_token e uuid w.db
      ≡ some (record { token_id = i; username = name; token = some stored })
    → stored ≢ mediated
    → Refuses (register_device e uuid mediated w).0
      × ((register_device e uuid mediated w).1.db ≡ w.db)
unfolding register_device query_row ◌>>=◌
register_device-Refuses e w uuid mediated stored i name s ne =
    ground (arith, s, text_eq_iff stored mediated)

module _ (e : Engine) (ok_engine : IsEngine e) (q : Quiet e) (w : World) where
  -- A mediated token registers its device once: while nothing fails, the registration that it
  -- opens makes a second one with the same token be refused, if the new access token is another;
  -- and the new access token is itself accepted as a mediated token.
  pub register_device_once :
      (uuid mediated name : Text) (i : ℕ)
      → select_device_token e uuid w.db
        ≡ some (record { token_id = some i; username = some name; token = some mediated })
      → drawn e ok_engine q (suc w.calls) ≢ mediated
      → (r : Registration) × (w' : World) × (register_device e uuid mediated w ≡ (ret r, w'))
        × Refuses (register_device e uuid mediated w').0
        × ((r' : Registration) × (w'' : World) × (register_device e uuid r.access_token w'
              ≡ (ret r', w''))
            × Granted name r')
  register_device_once uuid mediated name i s ne =
      let w' = renewed_world e ok_engine q w (some i) in
      let access = drawn e ok_engine q (suc w.calls) in
      let kept = select-registered e ok_engine q w uuid mediated name i s in
      let (r', w'', again, granted', kept') =
        register_device_grants e ok_engine q w' uuid access name i kept in
      (
        granted_now e ok_engine q w name,
        w',
        register_device-ok e ok_engine q w uuid mediated name (some i) s,
        (register_device-Refuses e w' uuid mediated access (some i) (some name) kept ne).0,
        (r', w'', again, granted'),
      )

-- Whether a user with an id has a name.
abbrev pub named : Database → ℕ → Text → Bool
named d u name = any (λ (x : User). x.user_id == u && text_eq x.username name) d.users.rows

oldest-named :
    (u : ℕ) (us : List User) (r : User)
    → oldest (λ (x : User). only_if (x.user_id == u) (some x)) us ≡ some r
    → any (λ (x : User). x.user_id == u && text_eq x.username r.username) us ≡ true
unfolding oldest
oldest-named u [] r h = absurd (cc)
oldest-named u (x ∷ us) r h =
    ground (arith, oldest-named u us r, text_eq_refl x.username, text_eq_refl r.username)

module _ (e : Engine) (ok_engine : IsEngine e) (q : Quiet e) (w : World)
    (wf : WellFormed e w.db) where
  -- From a well-formed database and while nothing fails, a mediator with a known token provisions a
  -- device whose uuid fits its column and is new, and the device that brings the provisioned
  -- token is then granted its tokens in the name of the mediator's user.
  pub provision-register :
      (uuid mediator_token : Text) (m u : ℕ)
      → select_mediator e mediator_token w.db ≡ some (some m, some u)
      → length uuid ≤ 36
      → any (λ (r : Device). e.collate r.device_uuid uuid) w.db.devices.rows ≡ false
      → (token name : Text) × (w' w'' : World) × (r : Registration) × (provision_device e uuid
            mediator_token w
          ≡ (ret (token, none), w'))
        × (register_device e uuid token w' ≡ (ret r, w''))
        × Granted name r
        × (named w.db u name ≡ true)
  provision-register uuid mediator_token m u s l fresh =
      let (known, owner) = mediator_refs e w.db mediator_token m u wf s in
      let token = drawn e ok_engine q (suc w.calls) in
      let w' : World = record w {
        db = with_device e ok_engine q w uuid mediator_token m u;
        calls = suc (suc (suc (suc w.calls)));
      } in
      let name = (user_of-inserted e ok_engine w wf uuid token m u owner).0.username in
      let (r, w'', grant, granted, kept) =
        register_device_grants e ok_engine q w' uuid token name w.db.tokens.next
          (select-inserted e ok_engine w wf uuid token m u owner fresh) in
      (
        token,
        name,
        w',
        w'',
        r,
        provision_device-ok e ok_engine q w uuid mediator_token m u s l
            (ground (arith, known, owner, ==_refl w.db.tokens.next)),
        grant,
        granted,
        oldest-named u w.db.users.rows (user_of-inserted e ok_engine w wf uuid token m u owner).0
            (unfold user_of in (user_of-inserted e ok_engine w wf uuid token m u owner).1),
      )
