-- ===== src/Coap/Account/Replies.antt =====
-- How the account handler answers.
use coap_gateway.Prelude.{
  ℕ, suc, ◌+◌, ◌≡◌, refl, Bool, true, false, Option, none, some, List, [], ◌∷◌, arith, length,
}
use coap_gateway.Prelude.Int.{pos}
use coap_gateway.Prelude.Text.{Text}
use coap_gateway.Go.{Outcome, ret, panics, exits, blocks, continue, ◌>>=◌}
use coap_gateway.Registry.World.{Engine, World, query_row}
use coap_gateway.Registry.Statements.{select_device_token}
use coap_gateway.Registry.Interface.{Registry, mysql_redis_registry}
use coap_gateway.Registry.Devices.{Registration, register_device}
use coap_gateway.Registry.Devices.Lifecycle.{Granted}
use coap_gateway.Coap.Account.{
  reply, send_body, answer_registration, register, account_method, account_format,
  handle_account_update_or_delete, body,
}
use coap_gateway.Coap.Gateway.{
  Account, Method, get, post, put, delete_method, other_method, MediaType, app_ocf_cbor, app_json,
  other_media, created, Request, Response, Codec, Gateway, with_store, write_msg,
}

-- The handler's responses to a request of a method, where nothing is wrong with the encoder.
abbrev pub replies_to : Option MediaType → Method → ℕ
replies_to (some app_ocf_cbor) delete_method = 0
replies_to (some app_ocf_cbor) get = 1
replies_to (some app_ocf_cbor) post = 1
replies_to (some app_ocf_cbor) put = 1
replies_to (some app_ocf_cbor) (other_method n) = 1
replies_to (some app_json) m = 1
replies_to (some (other_media n)) m = 1
replies_to none m = 1

module _ {S : Type 0} (k : Codec) (db : Registry S) where
  module _ (nf : (n : ℕ) → k.write_fails n ≡ false)
      (ne : (a : Account) → (k.encode_account a).1 ≡ false) where
    -- One more response than before, if the handling returns.
    abbrev OneMore : Gateway S → Outcome (Unit {0}) × Gateway S → Type 0
    OneMore g p = p.0 ≡ ret tt → length p.1.sent ≡ suc (length g.sent)

    reply-OneMore : (r : Response) (g : Gateway S) → OneMore g (reply k db r g)
    unfolding reply write_msg ◌>>=◌
    reply-OneMore r g h = ground (arith, nf g.writes)

    answer_registration-OneMore :
        (r : Registration) (g : Gateway S) → OneMore g (answer_registration k db r g)
    unfolding answer_registration send_body reply write_msg ◌>>=◌
    answer_registration-OneMore r g h = ground (arith, nf g.writes, ne (body k db r))

    continue-OneMore :
        (o : Outcome Registration) (g : Gateway S)
        → OneMore g (continue o (answer_registration k db) g)
    continue-OneMore (ret r) g h = answer_registration-OneMore r g h
    continue-OneMore panics g h = absurd (cc)
    continue-OneMore exits g h = absurd (cc)
    continue-OneMore blocks g h = absurd (cc)

    register-OneMore : (p : Account × Bool) (g : Gateway S) → OneMore g (register k db p g)
    unfolding register with_store ◌>>=◌
    register-OneMore (a, true) g h = reply-OneMore _ g h
    register-OneMore (a, false) g h =
        continue-OneMore (db.register_device a.device_id a.access_token g.store).0
          (record g { store = (db.register_device a.device_id a.access_token g.store).1 }) h

    account_method-replies :
        (m : Method) (payload : List ℕ) (g : Gateway S)
        → (account_method k db m payload g).0 ≡ ret tt
        → length (account_method k db m payload g).1.sent
          ≡ replies_to (some app_ocf_cbor) m + length g.sent
    unfolding account_method ◌>>=◌
    account_method-replies put payload g h =
        omega (arith, register-OneMore (k.decode_account payload) g h)
    account_method-replies post payload g h =
        omega (arith, register-OneMore (k.decode_account payload) g h)
    account_method-replies delete_method payload g h = omega arith
    account_method-replies get payload g h = omega (arith, reply-OneMore _ g h)
    account_method-replies (other_method n) payload g h = omega (arith, reply-OneMore _ g h)

    account_format-replies :
        (f : Option MediaType) (req : Request) (g : Gateway S)
        → (account_format k db f req g).0 ≡ ret tt
        → length (account_format k db f req g).1.sent ≡ replies_to f req.code + length g.sent
    unfolding account_format ◌>>=◌
    account_format-replies none req g h = absurd (cc)
    account_format-replies (some app_ocf_cbor) req g h =
        account_method-replies req.code req.payload g h
    account_format-replies (some app_json) req g h = omega (arith, reply-OneMore _ g h)
    account_format-replies (some (other_media n)) req g h = omega (arith, reply-OneMore _ g h)

  -- Over any registry, while no write fails and the encoder works, a request whose handling returns
  -- is answered by exactly one response, but a DELETE in the right format by none.
  pub account_one_reply :
      (req : Request) (g : Gateway S)
      → ((n : ℕ) → k.write_fails n ≡ false)
      → ((a : Account) → (k.encode_account a).1 ≡ false)
      → (handle_account_update_or_delete k db req g).0 ≡ ret tt
      → length (handle_account_update_or_delete k db req g).1.sent
        ≡ replies_to req.content_format req.code + length g.sent
  unfolding handle_account_update_or_delete
  account_one_reply req g nf ne h = account_format-replies nf ne req.content_format req g h

-- A request with no content format makes the handler panic, before it sends anything.
pub account_no_format :
    {S : Type 0} (k : Codec) (db : Registry S) (req : Request) (g : Gateway S)
    → req.content_format ≡ none
    → handle_account_update_or_delete k db req g ≡ (panics, g)
unfolding handle_account_update_or_delete ◌>>=◌
account_no_format k db req g h = rw h refl

-- With the MySQL registry, a well-formed registration for a device that the database does not know
-- ends the process of the gateway, whatever token it brings.
pub account_unknown_exits :
    (k : Codec) (e : Engine) (req : Request) (g : Gateway World) (a : Account)
    → req.content_format ≡ some app_ocf_cbor
    → req.code ≡ post
    → k.decode_account req.payload ≡ (a, false)
    → select_device_token e a.device_id g.store.db ≡ none
    → (handle_account_update_or_delete k (mysql_redis_registry e) req g).0 ≡ exits
unfolding handle_account_update_or_delete with_store write_msg register_device query_row ◌>>=◌
account_unknown_exits k e req g a f c d s = ground (arith, f, c, d, s)

-- The account that a granted registration is answered with: the four values and no more.
abbrev pub account_of_grant : Registration → Account
account_of_grant r = record {
  device_id = [];
  auth_provider = [];
  access_token = r.access_token;
  refresh_token = r.refresh_token;
  token_ttl = pos r.expires_in;
  user_id = r.user_id;
  logged_in = false;
}

-- The gateway's state after it has answered a registration that is granted.
abbrev pub with_grant : {S : Type 0} → Codec → Registry S → Registration → S → Gateway S → Gateway S
with_grant k db r s g = record g {
  store = s;
  sent =
      record {
        code = created;
        format = some app_ocf_cbor;
        payload = (k.encode_account (account_of_grant r)).0;
      }
      ∷ g.sent;
  writes = suc g.writes;
}

-- What a registry grants is answered by Created.
pub account_grants :
    {S : Type 0} (k : Codec) (db : Registry S) (req : Request) (g : Gateway S) (a : Account)
    (name : Text) (r : Registration) (s : S)
    → req.content_format ≡ some app_ocf_cbor
    → req.code ≡ post
    → k.decode_account req.payload ≡ (a, false)
    → db.register_device a.device_id a.access_token g.store ≡ (ret r, s)
    → Granted name r
    → ((n : ℕ) → k.write_fails n ≡ false)
    → ((b : Account) → (k.encode_account b).1 ≡ false)
    → handle_account_update_or_delete k db req g ≡ (ret tt, with_grant k db r s g)
unfolding handle_account_update_or_delete with_store write_msg ◌>>=◌
account_grants k db req g a name r s f c d grant granted nf ne =
    ground (arith, f, c, d, grant, nf g.writes, ne (body k db r), granted.access, granted.no_error)
