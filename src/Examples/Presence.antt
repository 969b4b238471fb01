-- ===== src/Examples/Presence.antt =====
-- The theorems on presence, refresh and resources at concrete inputs.
use coap_gateway.Prelude.{
  suc, not, none, some, any, ◌&&◌, ◌≡◌, refl, [], ◌+◌, List, ◌∷◌, if◌then◌else◌, map,
}
use coap_gateway.Prelude.Text.{Text, codes}
use coap_gateway.Go.{ret}
use coap_gateway.Token.{encode_to_string}
use coap_gateway.Registry.Schema.{Token}
use coap_gateway.Registry.Presence.{lookup_private_ip, hour, unspecified_address}
use coap_gateway.Registry.Refresh.{refresh_token}
use coap_gateway.Registry.Refresh.Reissue.{holds, up_to_date, refresh_token_reissues}
use coap_gateway.Registry.Resources.{find_device}
use coap_gateway.Registry.Resources.Silence.{Empty, find_device-Empty}
use coap_gateway.Registry.Presence.Board.{
  empty_board, Update, logs_in, logs_out, waits, updated_all, visible, shown,
}
use coap_gateway.Registry.Presence.Refinement.{registered, perform_updates, presence_refines_board}
use coap_gateway.Examples.Sample.{calm, calm-IsCache, repeat}
use coap_gateway.Examples.Scenario.{uid, di}
use coap_gateway.Examples.Worlds.{
  token, registered_world, registered_world_calls, registered_world_cache,
}

abbrev pod : Text
pod = codes "10.168.42.1"

abbrev day : List Update
day =
    logs_in di uid (token 10) pod
    ∷ waits 60
    ∷ logs_out (codes "light") uid [] pod
    ∷ logs_in (codes "light") uid [] pod
    ∷ []

presence_refines_board_example :
    let b =
      updated_all
        (registered calm registered_world.db)
        unspecified_address
        hour
        day
        (empty_board registered_world.now) in
    (lookup_private_ip calm di (perform_updates calm day registered_world)).0
    ≡ shown (visible (b.postings di) b.now)
presence_refines_board_example =
    presence_refines_board calm calm-IsCache (λ n. refl) day registered_world di
      registered_world_cache

refresh_token_reissues_example : refresh_token calm di uid (token 11) registered_world ≡ (
  ret (
      if any
        (λ t.
          holds calm (token 11) t && not (up_to_date (token 13) (registered_world.now + 6000) t))
        registered_world.db.tokens.rows
      then record { access_token = token 13; refresh_token = token 11; ttl = 6000; error = none }
      else record { access_token = []; refresh_token = []; ttl = 0; error = none }),
  record registered_world {
    db = record registered_world.db {
      tokens = record registered_world.db.tokens {
        rows =
            map
              (λ (t : Token).
                if holds calm (token 11) t
                then record {
                  token_id = t.token_id;
                  refresh_token = t.refresh_token;
                  access_token = token 13;
                  expires_in = some (registered_world.now + 6000);
                }
                else t)
              registered_world.db.tokens.rows;
      };
    };
    calls = suc (suc registered_world.calls);
  },
)
unfolding encode_to_string
refresh_token_reissues_example =
    refresh_token_reissues calm registered_world di uid (token 11) (repeat 32 13) (token 13)
      (rw registered_world_calls refl) refl refl

find_device-Empty_example : Empty (find_device calm uid registered_world).0
find_device-Empty_example = find_device-Empty calm uid registered_world
