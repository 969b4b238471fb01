-- ===== src/Coap/Kept/Registering.antt =====
-- What handleAccountUpdateOrDelete keeps, and how it ends.
use coap_gateway.Prelude.{ℕ, Bool, true, false, Option, none, some, List, Option-cases, inl, inr}
use coap_gateway.Go.Kept.{Keeps, Keeps-fatal}
use coap_gateway.Registry.Devices.{Registration}
use coap_gateway.Registry.Interface.{Registry}
use coap_gateway.Registry.Laws.{Lawful}
use coap_gateway.Coap.Gateway.{
  Account, Method, get, post, put, delete_method, other_method, MediaType, app_ocf_cbor, app_json,
  other_media, Request, Codec,
}
use coap_gateway.Coap.Account.{
  send_body, answer_registration, register, account_method, account_format,
  handle_account_update_or_delete,
}
use coap_gateway.Coap.Kept.{Stored, gateway_steps, reply-kept}

module _ {S : Type 0} (P : S → Type 0) (k : Codec) (db : Registry S) where
  module _ (law : Lawful P db) where
    send_body-kept : (p : List ℕ × Bool) → Keeps true (Stored P) (send_body k db p)
    unfolding send_body
    send_body-kept (bytes, false) = search (gateway_steps, reply-kept)
    send_body-kept (bytes, true) = search (gateway_steps, reply-kept)

    answer_registration-kept :
        (r : Registration) → Keeps true (Stored P) (answer_registration k db r)
    unfolding answer_registration
    answer_registration-kept r = elim (Option-cases r.error) [
      | inl q ↦ rw q (search (gateway_steps, reply-kept, send_body-kept))
      | inr (x, q) ↦ rw q (search (gateway_steps, reply-kept, Keeps-fatal))
    ]

    register-kept : (p : Account × Bool) → Keeps true (Stored P) (register k db p)
    unfolding register
    register-kept (a, true) = search (gateway_steps, reply-kept)
    register-kept (a, false) = search (gateway_steps, answer_registration-kept, law.register_device)

    account_method-kept :
        (m : Method) (payload : List ℕ) → Keeps true (Stored P) (account_method k db m payload)
    unfolding account_method
    account_method-kept put payload = register-kept (k.decode_account payload)
    account_method-kept post payload = register-kept (k.decode_account payload)
    account_method-kept delete_method payload = search gateway_steps
    account_method-kept get payload = search (gateway_steps, reply-kept)
    account_method-kept (other_method n) payload = search (gateway_steps, reply-kept)

    account_format-kept :
        (f : Option MediaType) (r : Request) → Keeps true (Stored P) (account_format k db f r)
    unfolding account_format
    account_format-kept none r = search gateway_steps
    account_format-kept (some app_ocf_cbor) r = account_method-kept r.code r.payload
    account_format-kept (some app_json) r = search (gateway_steps, reply-kept)
    account_format-kept (some (other_media n)) r = search (gateway_steps, reply-kept)

    pub handle_account-kept :
        (r : Request) → Keeps true (Stored P) (handle_account_update_or_delete k db r)
    unfolding handle_account_update_or_delete
    handle_account-kept r = account_format-kept r.content_format r
