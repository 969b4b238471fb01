-- ===== src/Examples/Gateways.antt =====
-- The theorems on the gateway's handlers at concrete inputs.
use coap_gateway.Prelude.{ℕ, ◌≡◌, refl, some, none, [], ◌∷◌, length, false, ltb, if◌then◌else◌}
use coap_gateway.Prelude.Int.{pos}
use coap_gateway.Prelude.Text.{Text, codes, text_eq}
use coap_gateway.Go.{ret, ◌>>=◌}
use coap_gateway.Token.{encode_to_string, generate_random_string}
use coap_gateway.Map.{lookup}
use coap_gateway.Registry.World.{World, cache_nil, exec, new_token, rows_affected}
use coap_gateway.Registry.Statements.{reissue_token}
use coap_gateway.Registry.Presence.{hour, lookup_private_ip}
use coap_gateway.Registry.Presence.Routing.{later}
use coap_gateway.Registry.Interface.{Registry, mysql_redis_registry}
use coap_gateway.Registry.Refresh.{refresh_token}
use coap_gateway.Coap.Gateway.{app_ocf_cbor, plain, created, unauthorized, write_msg}
use coap_gateway.Coap.Account.{handle_account_update_or_delete}
use coap_gateway.Coap.Account.Replies.{account_one_reply}
use coap_gateway.Coap.Session.{handle_session_update}
use coap_gateway.Coap.Session.Routing.{session_login_routes}
use coap_gateway.Coap.TokenRefresh.{handle_token_refresh}
use coap_gateway.Coap.TokenRefresh.Answers.{token_refresh_answers}
use coap_gateway.Examples.Sample.{
  calm, calm-IsCache, init_world, sample_codec, sample_account, post_request, gateway_at,
}
use coap_gateway.Examples.Scenario.{di}
use coap_gateway.Examples.Worlds.{token, device_world, registered_world, seconds_left}

abbrev pod : Text
pod = codes "10.168.42.1"

abbrev database : Registry World
database = mysql_redis_registry calm

account_one_reply_example :
    length
      (handle_account_update_or_delete sample_codec database
        (post_request [])
        (gateway_at device_world)).1.sent
    ≡ 1
unfolding handle_account_update_or_delete write_msg ◌>>=◌
account_one_reply_example =
    account_one_reply sample_codec database (post_request []) (gateway_at device_world) (λ n. refl)
      (λ a. refl) refl

session_login_routes_example :
    let r =
      handle_session_update sample_codec database pod
        (post_request (1 ∷ token 10))
        (gateway_at registered_world) in
    (r.0 ≡ ret tt)
    × (r.1.sent ≡ record { code = created; format = some app_ocf_cbor; payload = [] } ∷ [])
    × (lookup di r.1.devices ≡ some 7)
    × ((s : ℕ)
        → (lookup_private_ip calm di (later s r.1.store)).0
          ≡ (if ltb s hour then ret (pod, none) else ret ([], some cache_nil)))
session_login_routes_example =
    session_login_routes sample_codec calm calm-IsCache pod (post_request (1 ∷ token 10))
      (gateway_at registered_world) (sample_account 1 (token 10)) (pos 6000) (λ n. refl) (λ n. refl)
      (λ a. refl) refl refl refl seconds_left

other_device : text_eq di (codes "light") ≡ false
unfolding text_eq
other_device = refl

token_refresh_answers_example :
    let r =
      handle_token_refresh sample_codec database (post_request (1 ∷ [])) (gateway_at init_world) in
    (r.0 ≡ ret tt)
    × (r.1.sent
        ≡ record { code = created; format = some app_ocf_cbor; payload = [] }
          ∷ plain unauthorized
          ∷ [])
unfolding refresh_token exec new_token rows_affected reissue_token encode_to_string
    generate_random_string ◌>>=◌
token_refresh_answers_example =
    token_refresh_answers sample_codec database (post_request (1 ∷ [])) (gateway_at init_world)
      (sample_account 1 []) _ _ (λ n. refl) (λ a. refl) refl refl refl
