-- ===== src/Examples/Devices.antt =====
-- The theorems on the registry's devices at concrete inputs.
use coap_gateway.Prelude.{true, ◌≡◌, refl, some, none, arith, false, ◌==◌}
use coap_gateway.Prelude.Text.{Text, text_eq}
use coap_gateway.Go.{ret}
use coap_gateway.Token.{encode_to_string}
use coap_gateway.Registry.World.{Engine, World}
use coap_gateway.Registry.Devices.{Registration, provision_device, register_device}
use coap_gateway.Registry.Devices.Lifecycle.{
  Granted, named, Refuses, register_device-Refuses, register_device_once, provision-register,
}
use coap_gateway.Registry.Devices.Partial.{Ends, provision_device-Ends}
use coap_gateway.Examples.Sample.{calm, sample_engine, sample-IsEngine, calm-Quiet}
use coap_gateway.Examples.Scenario.{uid, di}
use coap_gateway.Examples.Worlds.{
  token, mediated_world, mediated_world-WellFormed, mediator_known, device_world, device_known,
  uuid_fresh, access_fresh, text_ne,
}

provision-register_example :
    (t name : Text) × (w' w'' : World) × (r : Registration) × (provision_device calm di
        (token 2)
        mediated_world
      ≡ (ret (t, none), w'))
    × (register_device calm di t w' ≡ (ret r, w''))
    × Granted name r
    × (named mediated_world.db 1 name ≡ true)
provision-register_example =
    provision-register calm (sample-IsEngine (λ n. false)) calm-Quiet mediated_world
      mediated_world-WellFormed di (token 2) 1 1 (mediator_known (λ n. false)) (omega arith)
      uuid_fresh

token_ne : text_eq (token 6) (token 7) ≡ false
unfolding encode_to_string text_eq
token_ne = refl

register_device-Refuses_example :
    Refuses (register_device calm di (token 7) device_world).0
    × ((register_device calm di (token 7) device_world).1.db ≡ device_world.db)
register_device-Refuses_example =
    register_device-Refuses calm device_world di (token 7) (token 6) (some 1) (some uid)
      device_known (text_ne (token 6) (token 7) token_ne)

register_device_once_example :
    (r : Registration) × (w' : World) × (register_device calm di (token 6) device_world
      ≡ (ret r, w'))
    × Refuses (register_device calm di (token 6) w').0
    × ((r' : Registration) × (w'' : World) × (register_device calm di r.access_token w'
          ≡ (ret r', w''))
        × Granted uid r')
register_device_once_example =
    register_device_once calm (sample-IsEngine (λ n. false)) calm-Quiet device_world di (token 6)
      uid 1 device_known access_fresh

abbrev broken : Engine
broken = sample_engine (λ n. n == 7)

-- The insertion of the device fails.
abbrev half_broken : Engine
half_broken = sample_engine (λ n. n == 8)

provision_device-Ends_example :
    Ends half_broken mediated_world di
      (token 2)
      (provision_device half_broken di (token 2) mediated_world)
provision_device-Ends_example = provision_device-Ends half_broken mediated_world di (token 2)
