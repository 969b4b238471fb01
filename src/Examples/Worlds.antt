-- ===== src/Examples/Worlds.antt =====
-- The README's user, mediator and device, as worlds that calls of the registry lead to.
use coap_gateway.Prelude.{ℕ, suc, ◌%◌, ◌≡◌, ◌≢◌, arith, any, Bool, false, refl, some, [], ◌∷◌}
use coap_gateway.Prelude.Text.{Text, codes, text_eq, text_eq_iff}
use coap_gateway.Prelude.Int.{pos}
use coap_gateway.Go.{◌>>=◌}
use coap_gateway.Token.{encode_to_string, generate_random_string}
use coap_gateway.Registry.Schema.{Client, Device}
use coap_gateway.Registry.World.{World, exec, query_row, new_token, last_insert_id}
use coap_gateway.Registry.Statements.{
  oldest, insert_user, select_user, insert_mediator, select_mediator, insert_token, insert_device,
  select_device_token, token_of, user_of, renew_token, select_time_left,
}
use coap_gateway.Registry.Owned.{Owned, init_db-Owned}
use coap_gateway.Registry.Owned.Calls.{Owned-Conserved}
use coap_gateway.Registry.Accounts.{register_user, provision_mediator}
use coap_gateway.Registry.Devices.{provision_device, register_device}
use coap_gateway.Registry.Integrity.{WellFormed, init_db-WellFormed}
use coap_gateway.Registry.Integrity.Histories.{
  registers_user, provisions_mediator, provisions_device, registers_device, perform, perform_all,
  perform_all-WellFormed, perform_all-Conserved,
}
use coap_gateway.Examples.Sample.{calm, sample_engine, init_world, repeat}
use coap_gateway.Examples.Scenario.{uid, di}

-- The token that the draw at a call makes.
abbrev pub token : ℕ → Text
token n = encode_to_string (repeat 32 n)

-- A user and a mediator, whose token is `token 2`.
abbrev pub mediated_world : World
mediated_world =
    perform_all calm (registers_user uid (codes "stub") ∷ provisions_mediator uid (token 0) ∷ [])
      init_world

-- And a device with the token `token 6`.
abbrev pub device_world : World
device_world =
    perform_all calm
      (registers_user uid (codes "stub")
        ∷ provisions_mediator uid (token 0)
        ∷ provisions_device di (token 2)
        ∷ [])
      init_world

-- And a registration of the device, with the access token `token 10` and the refresh token `token 11`.
abbrev pub registered_world : World
registered_world = perform calm (registers_device di (token 6)) device_world

pub mediated_world-WellFormed : WellFormed calm mediated_world.db
mediated_world-WellFormed = perform_all-WellFormed calm _ init_world (init_db-WellFormed calm)

pub mediated_world-Owned : Owned mediated_world.db
mediated_world-Owned =
    perform_all-Conserved calm Owned (Owned-Conserved calm) _ init_world init_db-Owned

pub device_world-WellFormed : WellFormed calm device_world.db
device_world-WellFormed = perform_all-WellFormed calm _ init_world (init_db-WellFormed calm)

pub device_world-Owned : Owned device_world.db
device_world-Owned =
    perform_all-Conserved calm Owned (Owned-Conserved calm) _ init_world init_db-Owned

pub mediator_known :
    (fault : ℕ → Bool)
    → select_mediator (sample_engine fault) (token 2) mediated_world.db ≡ some (some 1, some 1)
unfolding perform perform_all register_user provision_mediator exec query_row new_token
    last_insert_id insert_user select_user insert_mediator select_mediator encode_to_string
    generate_random_string oldest text_eq ◌>>=◌
mediator_known fault = refl

pub device_known :
    select_device_token calm di device_world.db
    ≡ some (record { token_id = some 1; username = some uid; token = some (token 6) })
unfolding perform perform_all register_user provision_mediator exec query_row new_token
    last_insert_id insert_user select_user insert_mediator select_mediator encode_to_string
    generate_random_string provision_device insert_token insert_device select_device_token token_of
    user_of oldest text_eq ◌>>=◌
device_known = refl

pub uuid_fresh :
    any (λ (r : Device). calm.collate r.device_uuid di) mediated_world.db.devices.rows ≡ false
unfolding perform perform_all register_user provision_mediator exec query_row new_token
    last_insert_id insert_user select_user insert_mediator select_mediator encode_to_string
    generate_random_string oldest text_eq ◌>>=◌
uuid_fresh = refl

-- Texts that the test tells apart.
pub text_ne : (s t : Text) → text_eq s t ≡ false → s ≢ t
text_ne s t h e = ground (arith, text_eq_iff s t)

pub access_fresh : encode_to_string (repeat 32 (suc device_world.calls % 256)) ≢ token 6
unfolding perform perform_all register_user provision_mediator exec query_row new_token
    last_insert_id insert_user select_user insert_mediator select_mediator encode_to_string
    generate_random_string provision_device insert_token insert_device select_device_token token_of
    user_of oldest text_eq ◌>>=◌
access_fresh = text_ne _ (token 6) refl

pub mediated_world_calls : mediated_world.calls ≡ 5
unfolding perform perform_all register_user provision_mediator exec query_row new_token
    last_insert_id insert_user select_user insert_mediator select_mediator encode_to_string
    generate_random_string oldest text_eq ◌>>=◌
mediated_world_calls = refl

pub seconds_left :
    select_time_left calm di registered_world.now registered_world.db ≡ some (some (pos 6000))
unfolding perform perform_all register_user provision_mediator exec query_row new_token
    last_insert_id insert_user select_user insert_mediator select_mediator encode_to_string
    generate_random_string provision_device register_device renew_token select_time_left
    insert_token insert_device select_device_token token_of user_of oldest text_eq ◌>>=◌
seconds_left = refl

pub registered_world_calls : registered_world.calls ≡ 13
unfolding perform perform_all register_user provision_mediator exec query_row new_token
    last_insert_id insert_user select_user insert_mediator select_mediator encode_to_string
    generate_random_string provision_device register_device renew_token select_time_left
    insert_token insert_device select_device_token token_of user_of oldest text_eq ◌>>=◌
registered_world_calls = refl

pub client_fresh :
    any (λ (r : Client). calm.collate r.client_uuid (codes "phone")) mediated_world.db.clients.rows
    ≡ false
unfolding perform perform_all register_user provision_mediator exec query_row new_token
    last_insert_id insert_user select_user insert_mediator select_mediator encode_to_string
    generate_random_string oldest text_eq ◌>>=◌
client_fresh = refl

pub registered_world_cache : registered_world.cache ≡ []
unfolding perform perform_all register_user provision_mediator exec query_row new_token
    last_insert_id insert_user select_user insert_mediator select_mediator encode_to_string
    generate_random_string provision_device register_device renew_token select_time_left
    insert_token insert_device select_device_token token_of user_of oldest text_eq ◌>>=◌
registered_world_cache = refl
