-- ===== src/Registry/Integrity/Statements.antt =====
-- Every statement that changes the tables keeps the constraints of the schema.
use coap_gateway.Registry.World.{Engine}
use coap_gateway.Registry.Integrity.{WellFormed}
use coap_gateway.Registry.Integrity.Inserts.{
  insert_user-WellFormed, insert_mediator-WellFormed, insert_token-WellFormed,
  insert_device-WellFormed, insert_client-WellFormed,
}
use coap_gateway.Registry.Integrity.Updates.{
  renew_token-WellFormed, reissue_token-WellFormed, publish-WellFormed, delete_device-WellFormed,
  delete_client-WellFormed,
}
use coap_gateway.Registry.Writes.{Durable}

module _ (e : Engine) where
  pub WellFormed-Durable : Durable e (WellFormed e)
  WellFormed-Durable = record {
    insert_user = λ a b c d h. insert_user-WellFormed e d h a b c;
    insert_mediator = λ u t d h. insert_mediator-WellFormed e d h u t;
    insert_token = λ t d h. insert_token-WellFormed e d h t;
    insert_device = λ u m t i d h. insert_device-WellFormed e d h u m t i;
    insert_client = λ u m t i d h. insert_client-WellFormed e d h u m t i;
    renew_token = λ r a now ttl i d h. renew_token-WellFormed e d h r a now ttl i;
    reissue_token = λ a now ttl r d h. reissue_token-WellFormed e d h a now ttl r;
    publish = λ json id d h. publish-WellFormed e d h json id;
    delete_device = λ id access d h. delete_device-WellFormed e d h id access;
    delete_client = λ id access d h. delete_client-WellFormed e d h id access;
  }
