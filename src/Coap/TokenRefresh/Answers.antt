-- ===== src/Coap/TokenRefresh/Answers.antt =====
-- How a refresh is answered.
use coap_gateway.Prelude.{
  ℕ, suc, ◌≡◌, refl, Bool, true, false, none, some, [], ◌∷◌, any, length, ◌==◌, arith,
  if◌then◌else◌,
}
use coap_gateway.Prelude.Int.{pos}
use coap_gateway.Prelude.Text.{Text}
use coap_gateway.Go.{ret, ◌>>=◌}
use coap_gateway.Registry.Interface.{Registry}
use coap_gateway.Registry.Refresh.{Refreshed}
use coap_gateway.Coap.TokenRefresh.{handle_token_refresh, refreshed_account}
use coap_gateway.Coap.Gateway.{
  Account, app_ocf_cbor, created, unauthorized, plain, Request, Response, Codec, Gateway,
  with_store, write_msg,
}

module _ {S : Type 0} (k : Codec) (db : Registry S) (req : Request) (g : Gateway S) where
  abbrev pub blank : Text → Bool
  blank [] = true
  blank (c ∷ s) = false

  blank-length : (s : Text) → (length s == 0) ≡ blank s
  blank-length [] = refl
  blank-length (c ∷ s) = ground arith

  -- The response with the two tokens and their time to live.
  abbrev pub refreshed_response : Refreshed → Response
  refreshed_response r = record {
    code = created;
    format = some app_ocf_cbor;
    payload =
        (k.encode_account (record {
          device_id = [];
          auth_provider = [];
          access_token = r.access_token;
          refresh_token = r.refresh_token;
          token_ttl = pos r.ttl;
          user_id = [];
          logged_in = false;
        })).0;
  }

  -- While no write and no encoding fails, a request that lacks the device, the user or the refresh
  -- token is answered by Unauthorized, and is then carried out like any other: where the registry refreshes the token, a second
  -- response carries the new tokens. A request with all fields gets that response alone.
  pub token_refresh_answers :
      (a : Account) (r : Refreshed) (s : S)
      → ((n : ℕ) → k.write_fails n ≡ false)
      → ((b : Account) → (k.encode_account b).1 ≡ false)
      → k.decode_account req.payload ≡ (a, false)
      → db.refresh_token a.device_id a.user_id a.refresh_token g.store ≡ (ret r, s)
      → r.error ≡ none
      → ((handle_token_refresh k db req g).0 ≡ ret tt)
        × ((handle_token_refresh k db req g).1.sent ≡ (
            if any blank (a.device_id ∷ a.user_id ∷ a.refresh_token ∷ [])
            then refreshed_response r ∷ plain unauthorized ∷ g.sent
            else refreshed_response r ∷ g.sent))
  unfolding handle_token_refresh with_store write_msg ◌>>=◌
  token_refresh_answers a r s nf ne d t x = ground (
    arith,
    d,
    t,
    x,
    nf g.writes,
    nf (suc g.writes),
    ne (refreshed_account k db r),
    blank-length a.device_id,
    blank-length a.user_id,
    blank-length a.refresh_token,
  )
