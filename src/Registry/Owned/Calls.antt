-- ===== src/Registry/Owned/Calls.antt =====
-- No call of the registry makes two rows refer to one token.
use coap_gateway.Prelude.{ℕ, ◌≤◌, ◌≡◌, refl, some, if◌then◌else◌, arith, ◌==◌}
use coap_gateway.Registry.Schema.{Client, Device, Database}
use coap_gateway.Registry.World.{Engine}
use coap_gateway.Registry.Statements.{
  insert_user, insert_mediator, renew_token, reissue_token, publish, delete_device, delete_client,
}
use coap_gateway.Registry.Integrity.{Leaves, Leaves-bind, Leaves-only_if, Leaves-map}
use coap_gateway.Registry.Conserved.{Conserved}
use coap_gateway.Registry.Writes.{
  Write, statement, user_insertion, mediator_insertion, token_insertion, device_insertion,
  client_insertion, renewal, reissue, publication, device_deletion, client_deletion,
}
use coap_gateway.Registry.Owned.{Owned, uses, count-keep, count-map}
use coap_gateway.Registry.Owned.Provisions.{
  insert_provisioned-Owned, insert_provisioned_client-Owned,
}

-- The writes that are not part of a provision.
abbrev pub Ordinary : Write → Type 0
Ordinary (token_insertion t) = ⊥
Ordinary (device_insertion u m t i) = ⊥
Ordinary (client_insertion u m t i) = ⊥
Ordinary (user_insertion a b c) = Unit {0}
Ordinary (mediator_insertion u t) = Unit {0}
Ordinary (renewal r a now ttl i) = Unit {0}
Ordinary (reissue a now ttl r) = Unit {0}
Ordinary (publication json id) = Unit {0}
Ordinary (device_deletion id access) = Unit {0}
Ordinary (client_deletion id access) = Unit {0}

-- The tables afterwards use no token more than before, and give the same key next.
pub record NoMore (d d' : Database) : Type 0 where
  pub fewer :
      (i : ℕ) → uses i d'.devices.rows d'.clients.rows ≤ uses i d.devices.rows d.clients.rows
  pub next : d'.tokens.next ≡ d.tokens.next

pub NoMore-Owned : (d d' : Database) → Owned d → NoMore d d' → Owned d'
NoMore-Owned d d' h m = record {
  once = λ i. omega (arith, m.fewer i, h.once i);
  fresh = λ i q. omega (arith, m.fewer i, h.fresh i (omega (arith, m.next)));
}

module _ (e : Engine) (d : Database) where
  same : NoMore d d
  same = record { fewer = λ i. omega arith; next = refl }

  pub statement-NoMore : (x : Write) → Ordinary x → Leaves (NoMore d) (statement e x d)
  unfolding statement insert_user insert_mediator renew_token reissue_token publish delete_device
      delete_client
  statement-NoMore (user_insertion a b c) o = Leaves-bind _ (e.fit 45 a) _ λ u _.
      Leaves-bind _ (e.fit 45 b) _ λ v _.
        Leaves-bind _ (e.fit 45 c) _
          λ t _. Leaves-only_if (NoMore d) _ _ _ (record { fewer = same.fewer; next = refl })
  statement-NoMore (mediator_insertion u t) o = Leaves-bind _ u _ λ i _.
      Leaves-bind _ (e.fit 45 t) _
        λ m _. Leaves-only_if (NoMore d) _ _ _ (record { fewer = same.fewer; next = refl })
  statement-NoMore (renewal r a now ttl i) o =
      Leaves-bind _ (e.fit 45 r) _
        λ r' _. Leaves-bind _ (e.fit 45 a) _ λ a' _. record { fewer = same.fewer; next = refl }
  statement-NoMore (reissue a now ttl r) o =
      Leaves-bind _ (e.fit 45 a) _ λ a' _. record { fewer = same.fewer; next = refl }
  statement-NoMore (publication json id) o = Leaves-bind _ (e.fit_json json) _ λ j _. record {
    fewer = λ i. omega (
      arith,
      count-map (λ (r : Device). r.token_id == i)
          (λ r. if e.collate r.device_uuid id then record r { published_resources = some j } else r)
          d.devices.rows (λ r. ground arith),
    );
    next = refl;
  }
  statement-NoMore (device_deletion id access) o = Leaves-only_if (NoMore d) _ _ _ (record {
    fewer = λ i. omega (arith, count-keep (λ (r : Device). r.token_id == i) _ d.devices.rows);
    next = refl;
  })
  statement-NoMore (client_deletion id access) o = Leaves-only_if (NoMore d) _ _ _ (record {
    fewer = λ i. omega (arith, count-keep (λ (r : Client). r.token_id == i) _ d.clients.rows);
    next = refl;
  })
  statement-NoMore (token_insertion t) o = absurd o
  statement-NoMore (device_insertion u m t i) o = absurd o
  statement-NoMore (client_insertion u m t i) o = absurd o

  statement-Owned : (x : Write) → Ordinary x → Owned d → Leaves Owned (statement e x d)
  statement-Owned x o h =
      Leaves-map (NoMore d) Owned _ (λ d'. NoMore-Owned d d' h) (statement-NoMore x o)

module _ (e : Engine) where
  pub Owned-Conserved : Conserved e Owned
  unfolding statement
  Owned-Conserved = record {
    insert_user = λ a b c d. statement-Owned e d (user_insertion a b c) tt;
    insert_mediator = λ u t d. statement-Owned e d (mediator_insertion u t) tt;
    renew_token = λ r a now ttl i d. statement-Owned e d (renewal r a now ttl i) tt;
    reissue_token = λ a now ttl r d. statement-Owned e d (reissue a now ttl r) tt;
    publish = λ json id d. statement-Owned e d (publication json id) tt;
    delete_device = λ id access d. statement-Owned e d (device_deletion id access) tt;
    delete_client = λ id access d. statement-Owned e d (client_deletion id access) tt;
    provisioned_device = insert_provisioned-Owned e;
    provisioned_client = insert_provisioned_client-Owned e;
  }
