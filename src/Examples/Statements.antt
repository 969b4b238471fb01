-- ===== src/Examples/Statements.antt =====
-- The theorems on interleaved statements, on deletions and on histories at concrete inputs.
use coap_gateway.Prelude.{◌≡◌, refl, any, true, false, some, List, [], ◌∷◌, arith}
use coap_gateway.Prelude.Text.{Text, codes, text_eq}
use coap_gateway.Go.{ret, ◌>>=◌}
use coap_gateway.Token.{encode_to_string, generate_random_string}
use coap_gateway.Registry.Schema.{init_db}
use coap_gateway.Registry.World.{World, Result, ok, exec, query_row, new_token, last_insert_id}
use coap_gateway.Registry.Statements.{
  oldest, insert_user, select_user, select_mediator, DeviceToken, select_device_token,
  insert_mediator,
}
use coap_gateway.Registry.Accounts.{register_user, provision_mediator}
use coap_gateway.Registry.Writes.{
  Write, user_insertion, mediator_insertion, token_insertion, device_insertion, write_all,
  statement,
}
use coap_gateway.Registry.Writes.Lasting.{Lasting}
use coap_gateway.Registry.Integrity.Histories.{perform, perform_all}
use coap_gateway.Registry.Devices.{Registration, register_device, register_found}
use coap_gateway.Registry.Devices.Lifecycle.{Granted}
use coap_gateway.Registry.Devices.Race.{ask, register_device_races}
use coap_gateway.Map.{lookup}
use coap_gateway.Prelude.Int.{pos}
use coap_gateway.Routes.{post, route}
use coap_gateway.System.Expiry.{login_expires}
use coap_gateway.Northbound.Routing.{refused}
use coap_gateway.Northbound.Routing.Answers.{post_to}
use coap_gateway.System.{
  Platform, new_pod, passes, System, Happening, starts, asks_coap, asks_northbound, happen_all,
}
use coap_gateway.Registry.Devices.{delete_device_row, provision_device, insert_provisioned}
use coap_gateway.Registry.Clients.{delete_client_row, insert_provisioned_client}
use coap_gateway.Registry.Owned.Deletions.{
  device_gone, client_gone, deleted, without_device, without_client, deletions_take_effect,
}
use coap_gateway.Registry.Owned.{Owned, init_db-Owned}
use coap_gateway.Registry.Statements.{insert_token, insert_device}
use coap_gateway.Registry.Owned.Interleaved.{
  Reaches, starts, goes_on, inserts_token, inserts_device, writes,
}
use coap_gateway.Registry.Owned.Runs.{provisions_interleave}
use coap_gateway.System.Lasting.{happen_all-Lasting}
use coap_gateway.Examples.Sample.{
  calm, calm-IsCache, calm-Quiet, sample-IsEngine, sample_account, post_request,
}
use coap_gateway.Examples.Scenario.{uid, di}
use coap_gateway.Examples.Worlds.{
  token, mediated_world, device_world-Owned, device_world-WellFormed, device_world, device_known,
  seconds_left,
}
use coap_gateway.Examples.Northbound.{request}
use coap_gateway.Examples.Systems.{platform, running}

-- Two calls of ProvisionDevice, of which the second comes in between the statements of the first.
abbrev interleaved : List Write
interleaved =
    device_insertion (some 1) (some 1) 1 di
    ∷ device_insertion (some 1) (some 1) 2 di
    ∷ token_insertion (codes "second")
    ∷ token_insertion (codes "first")
    ∷ mediator_insertion (some 1) (codes "mediator")
    ∷ user_insertion uid (codes "stub") (codes "token")
    ∷ []

abbrev mediated_system : System
mediated_system = record { world = mediated_world; pods = []; posts = []; answers = [] }

abbrev requests : List Happening
requests =
    starts (codes "10.168.42.1")
    ∷ asks_northbound post (codes "/register/user") (request [] (codes "x"))
    ∷ asks_coap (codes "10.168.42.1") (codes "/oic/sec/account") (post_request (codes "y"))
    ∷ []

happen_all-Lasting_example :
    Lasting
      (λ u. text_eq u.username uid)
      (λ m. text_eq m.mediator_token (token 2))
      (happen_all platform requests mediated_system).world.db
unfolding perform perform_all register_user provision_mediator exec query_row new_token insert_user
    select_user insert_mediator encode_to_string generate_random_string oldest text_eq ◌>>=◌
happen_all-Lasting_example =
    happen_all-Lasting platform (λ u. text_eq u.username uid)
      (λ m. text_eq m.mediator_token (token 2)) requests mediated_system (refl, refl)

interleaved_run :
    Reaches calm
      (record { held = []; db = init_db })
      (record { held = []; db = write_all calm interleaved init_db })
unfolding write_all statement insert_user insert_mediator insert_token insert_device
interleaved_run =
    goes_on _ _
      (goes_on _ _
        (goes_on _ _
          (goes_on _ _
            (goes_on _ _
              (goes_on _ _ starts
                (writes (user_insertion uid (codes "stub") (codes "token")) _ _ tt refl))
              (writes (mediator_insertion (some 1) (codes "mediator")) _ _ tt refl))
            (inserts_token (codes "first") _ _ refl))
          (inserts_token (codes "second") _ _ refl))
        (inserts_device (some 1) (some 1) 2 di _ _ refl refl))
      (inserts_device (some 1) (some 1) 1 di _ _ refl refl)

provisions_interleave_example :
    Owned (write_all calm interleaved init_db)
    × Reaches calm
        (record { held = []; db = mediated_world.db })
        (record {
          held = [];
          db = (insert_provisioned calm di (some 1) (some 1) (ok (token 2)) mediated_world).1.db;
        })
    × Reaches calm
        (record { held = []; db = mediated_world.db })
        (record {
          held = [];
          db =
              (insert_provisioned_client calm di
                (some 1)
                (some 1)
                (ok (token 2))
                mediated_world).1.db;
        })
provisions_interleave_example =
    provisions_interleave calm init_db
      (record { held = []; db = write_all calm interleaved init_db }) init_db-Owned interleaved_run
      di (some 1) (some 1) (ok (token 2)) mediated_world

deletions_take_effect_example :
    (delete_device_row calm (codes "1") (token 6) device_world
      ≡ deleted calm
          (codes "1")
          (token 6)
          device_world
          (any
            (device_gone calm (codes "1") (token 6) device_world.db)
            device_world.db.devices.rows)
          (without_device calm (codes "1") (token 6) device_world.db))
    × (delete_client_row calm (codes "1") (token 6) device_world
        ≡ deleted calm
            (codes "1")
            (token 6)
            device_world
            (any
              (client_gone calm (codes "1") (token 6) device_world.db)
              device_world.db.clients.rows)
            (without_client calm (codes "1") (token 6) device_world.db))
deletions_take_effect_example =
    deletions_take_effect calm (codes "1") (token 6) device_world device_world-WellFormed
      device_world-Owned refl

-- This deletion finds the device and takes it away with its token.
device_deleted :
    (any (device_gone calm (codes "1") (token 6) device_world.db) device_world.db.devices.rows
      ≡ true)
    × ((without_device calm (codes "1") (token 6) device_world.db).devices.rows ≡ [])
    × ((without_device calm (codes "1") (token 6) device_world.db).tokens.rows ≡ [])
unfolding perform perform_all register_user provision_mediator exec query_row new_token
    last_insert_id insert_user select_user insert_mediator select_mediator encode_to_string
    generate_random_string provision_device insert_token insert_device oldest text_eq ◌>>=◌
device_deleted = (refl, refl, refl)

-- A time in which no request reaches a pod.
abbrev cut_off : Platform
cut_off = record platform { network = λ n p. refused }

abbrev pod : Text
pod = codes "10.168.42.1"

login_expires_example :
    let s' =
      happen_all cut_off
        (asks_coap pod (codes "oic/sec/session") (post_request (1 ∷ token 10))
          ∷ passes 3600
          ∷ asks_northbound post
              (codes "/OCF-cloud-device-test-uuid/light")
              (request [] (codes "on"))
          ∷ [])
        running in
    (s'.posts ≡ post_to [] (request [] (codes "on")) ∷ [])
    × ((body : Text) × (s'.answers ≡ (404, body) ∷ []))
unfolding lookup route text_eq
login_expires_example =
    login_expires cut_off calm-IsCache pod (codes "oic/sec/session") (post_request (1 ∷ token 10))
      running new_pod (sample_account 1 (token 10)) (pos 6000) 3600 post
      (codes "/OCF-cloud-device-test-uuid/light") (request [] (codes "on")) (λ n. refl) (λ n. refl)
      (λ a. refl) refl refl refl refl refl seconds_left (omega arith) refl refl refl refl

register_device_races_example :
    (found : Result DeviceToken) × (r r' : Registration) × (w₁ w₂ w₃ : World) × (ask calm di
        device_world
      ≡ (ret found, w₁))
    × (register_device calm di (token 6) w₁ ≡ (ret r', w₂))
    × (register_found calm (token 6) found w₂ ≡ (ret r, w₃))
    × Granted uid r'
    × Granted uid r
    × (select_device_token calm di w₃.db
        ≡ some (record { token_id = some 1; username = some uid; token = some r.access_token }))
register_device_races_example =
    register_device_races calm (sample-IsEngine (λ n. false)) calm-Quiet device_world di (token 6)
      uid 1 device_known
