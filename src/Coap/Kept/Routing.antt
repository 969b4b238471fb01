-- ===== src/Coap/Kept/Routing.antt =====
-- What handleSessionUpdate keeps, and how it ends.
use coap_gateway.Prelude.{ℕ, Bool, true, false, Option, none, some, List}
use coap_gateway.Prelude.Int.{ℤ}
use coap_gateway.Prelude.Text.{Text}
use coap_gateway.Go.Kept.{Keeps}
use coap_gateway.Registry.World.{Err}
use coap_gateway.Registry.Interface.{Registry}
use coap_gateway.Registry.Laws.{Lawful}
use coap_gateway.Coap.Gateway.{
  Account, Method, get, post, put, delete_method, other_method, Request, Codec,
}
use coap_gateway.Coap.Session.{
  confirm_login, log_in, log_out, answer_session, update, unless_failed, decoded, session_method,
  handle_session_update,
}
use coap_gateway.Coap.Kept.{Stored, gateway_steps, reply-kept}

module _ {S : Type 0} (P : S → Type 0) (k : Codec) (db : Registry S) where
  module _ (law : Lawful P db) where
    module _ (pod : Text) where
      confirm_login-kept : (f : Bool) → Keeps false (Stored P) (confirm_login k db pod f)
      unfolding confirm_login
      confirm_login-kept true = reply-kept P k db _
      confirm_login-kept false = search gateway_steps

      log_in-kept :
          (a : Account) (client : ℕ) (p : List ℕ × Bool)
          → Keeps false (Stored P) (log_in k db pod a client p)
      unfolding log_in
      log_in-kept a client (bytes, true) = search gateway_steps
      log_in-kept a client (bytes, false) = search (gateway_steps, confirm_login-kept)

      log_out-kept : (a : Account) → Keeps false (Stored P) (log_out k db pod a)
      unfolding log_out
      log_out-kept a = search (gateway_steps, reply-kept)

      answer_session-kept :
          (a : Account) (client : ℕ) (r : ℤ × Option Err)
          → Keeps false (Stored P) (answer_session k db pod a client r)
      unfolding answer_session
      answer_session-kept a client (n, some x) = search gateway_steps
      answer_session-kept a client (n, none) = search (gateway_steps, log_in-kept, log_out-kept)

      update-kept : (a : Account) (client : ℕ) → Keeps false (Stored P) (update k db pod a client)
      unfolding update
      update-kept a client = search (gateway_steps, answer_session-kept, law.update_session)

      unless_failed-kept :
          (a : Account) (client : ℕ) (f : Bool)
          → Keeps false (Stored P) (unless_failed k db pod a client f)
      unfolding unless_failed
      unless_failed-kept a client true = search gateway_steps
      unless_failed-kept a client false = update-kept a client

      decoded-kept :
          (p : Account × Bool) (client : ℕ) → Keeps false (Stored P) (decoded k db pod p client)
      unfolding decoded
      decoded-kept (a, false) client = update-kept a client
      decoded-kept (a, true) client = search (gateway_steps, unless_failed-kept)

      session_method-kept :
          (m : Method) (r : Request) → Keeps false (Stored P) (session_method k db pod m r)
      unfolding session_method
      session_method-kept post r = decoded-kept (k.decode_account r.payload) r.client
      session_method-kept get r = reply-kept P k db _
      session_method-kept put r = reply-kept P k db _
      session_method-kept delete_method r = reply-kept P k db _
      session_method-kept (other_method n) r = reply-kept P k db _

      pub handle_session-kept :
          (r : Request) → Keeps false (Stored P) (handle_session_update k db pod r)
      unfolding handle_session_update
      handle_session-kept r = session_method-kept r.code r
