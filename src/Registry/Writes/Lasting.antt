-- ===== src/Registry/Writes/Lasting.antt =====
-- The rows that no statement of the code takes away or changes.
use coap_gateway.Prelude.{◌≡◌, Bool, true, any, arith}
use coap_gateway.Registry.Schema.{User, Mediator, Database}
use coap_gateway.Registry.World.{Engine}
use coap_gateway.Registry.Statements.{
  insert_user, insert_mediator, insert_token, insert_device, insert_client, renew_token,
  reissue_token, publish, delete_device, delete_client,
}
use coap_gateway.Registry.Integrity.{Leaves-bind, Leaves-only_if}
use coap_gateway.Registry.Writes.{Durable}

-- There is a user with a property, and a mediator with another.
abbrev pub Lasting : (User → Bool) → (Mediator → Bool) → Database → Type 0
Lasting p q d = (any p d.users.rows ≡ true) × (any q d.mediators.rows ≡ true)

module _ (e : Engine) (p : User → Bool) (q : Mediator → Bool) where
  pub Lasting-Durable : Durable e (Lasting p q)
  unfolding insert_user insert_mediator insert_token insert_device insert_client renew_token
      reissue_token publish delete_device delete_client
  Lasting-Durable = record {
    insert_user = λ a b c d h. Leaves-bind _ (e.fit 45 a) _ λ u _.
        Leaves-bind _ (e.fit 45 b) _ λ v _.
          Leaves-bind _ (e.fit 45 c) _
            λ t _. Leaves-only_if (Lasting p q) _ _ _ (ground (arith, h.0), h.1);
    insert_mediator = λ u t d h. Leaves-bind _ u _ λ i _.
        Leaves-bind _ (e.fit 45 t) _
          λ m _. Leaves-only_if (Lasting p q) _ _ _ (h.0, ground (arith, h.1));
    insert_token = λ t d h. Leaves-bind _ (e.fit 45 t) _ λ a _. h;
    insert_device = λ u m t i d h. Leaves-bind _ u _ λ j _.
        Leaves-bind _ m _
          λ k _. Leaves-bind _ (e.fit 36 i) _ λ v _. Leaves-only_if (Lasting p q) _ _ _ h;
    insert_client = λ u m t i d h. Leaves-bind _ u _ λ j _.
        Leaves-bind _ m _
          λ k _. Leaves-bind _ (e.fit 36 i) _ λ v _. Leaves-only_if (Lasting p q) _ _ _ h;
    renew_token = λ r a now ttl i d h.
        Leaves-bind _ (e.fit 45 r) _ λ r' _. Leaves-bind _ (e.fit 45 a) _ λ a' _. h;
    reissue_token = λ a now ttl r d h. Leaves-bind _ (e.fit 45 a) _ λ a' _. h;
    publish = λ json id d h. Leaves-bind _ (e.fit_json json) _ λ j _. h;
    delete_device = λ id access d h. Leaves-only_if (Lasting p q) _ _ _ h;
    delete_client = λ id access d h. Leaves-only_if (Lasting p q) _ _ _ h;
  }
