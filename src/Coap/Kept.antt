-- ===== src/Coap/Kept.antt =====
-- What a step of a CoAP handler keeps of the registry's state, over any registry that keeps it.
pub mod Registering
pub mod Routing
pub mod Publishing
use coap_gateway.Prelude.{
  ℕ, suc, Bool, true, false, Option, none, some, List, [], ◌∷◌, if◌then◌else◌, arith, Option-cases,
  inl, inr, ◌==◌, length, refl,
}
use coap_gateway.Prelude.Int.{ℤ}
use coap_gateway.Prelude.Text.{Text}
use coap_gateway.Go.{Go, ◌>>=◌}
use coap_gateway.Go.Kept.{Keeps, Keeps-fatal, Ends-weaken, kept_steps}
use coap_gateway.Registry.World.{Err}
use coap_gateway.Registry.Devices.{Registration}
use coap_gateway.Registry.Refresh.{Refreshed}
use coap_gateway.Registry.Interface.{Registry}
use coap_gateway.Registry.Laws.{Lawful}
use coap_gateway.Coap.Gateway.{
  Account, Method, get, post, put, delete_method, other_method, MediaType, app_ocf_cbor, app_json,
  other_media, Request, Response, Code, Codec, Gateway, ResourcePublication, with_store, write_msg,
  add_device, remove_device,
}
use coap_gateway.Coap.Account.{
  reply, send_body, answer_registration, register, account_method, account_format,
  handle_account_update_or_delete,
}
use coap_gateway.Coap.Session.{
  confirm_login, log_in, log_out, answer_session, update, unless_failed, decoded, session_method,
  handle_session_update,
}
use coap_gateway.Coap.Publication.{
  answer_publication, store_links, unless_unwritten, decoded_links, rd_method, rd_format,
  handle_rd_update,
}
use coap_gateway.Coap.TokenRefresh.{reply_if, send_refreshed, handle_token_refresh}

module _ {S : Type 0} (P : S → Type 0) where
  abbrev pub Stored : Gateway S → Type 0
  Stored g = P g.store

module _ {S : Type 0} (P : S → Type 0) {b : Bool} where
  pub Keeps-with_store :
      {A : Type 0} (m : Go S A) → Keeps false P m → Keeps b (Stored P) (with_store m)
  unfolding with_store
  Keeps-with_store m k = record {
    after = λ g h. k.after g.store h;
    ends = λ g. Ends-weaken b (m g.store).0 (k.ends g.store);
  }

  pub Keeps-write_msg : (k : Codec) (r : Response) → Keeps b (Stored P) (write_msg k r)
  unfolding write_msg
  Keeps-write_msg k r = record { after = λ g h. ground arith; ends = λ g. ground arith }

  pub Keeps-add_device : (id : Text) (client : ℕ) → Keeps b (Stored P) (add_device id client)
  unfolding add_device
  Keeps-add_device id client = record { after = λ g h. h; ends = λ g. tt }

  pub Keeps-remove_device : (id : Text) → Keeps b (Stored P) (remove_device id)
  unfolding remove_device
  Keeps-remove_device id = record { after = λ g h. h; ends = λ g. tt }

pub ruleset gateway_steps =
    (kept_steps, Keeps-with_store, Keeps-write_msg, Keeps-add_device, Keeps-remove_device)

module _ {S : Type 0} (P : S → Type 0) (k : Codec) (db : Registry S) where
  pub reply-kept : {b : Bool} (r : Response) → Keeps b (Stored P) (reply k db r)
  unfolding reply
  reply-kept r = search gateway_steps
