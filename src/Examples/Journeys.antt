-- ===== src/Examples/Journeys.antt =====
-- The theorems on ways through several parts, and on clients, at concrete inputs.
use coap_gateway.Prelude.{◌≡◌, some, none, [], arith, false}
use coap_gateway.Prelude.Text.{Text, codes}
use coap_gateway.Go.{ret}
use coap_gateway.Registry.World.{World}
use coap_gateway.Registry.Clients.{provision_client, register_client, ClientRegistration}
use coap_gateway.Registry.Clients.Lifecycle.{ClientGranted, provision-register_client}
use coap_gateway.Coap.Bridge as Bridge
use coap_gateway.Examples.Sample.{calm, calm-Quiet, sample-IsEngine}
use coap_gateway.Examples.Scenario.{uid}
use coap_gateway.Examples.Worlds.{
  token, mediated_world, mediated_world-WellFormed, mediator_known, client_fresh,
}

abbrev pod : Text
pod = codes "10.168.42.1"

abbrev pub answering : Bridge.Connections
answering = record { refused = λ p. false; answer = λ n p. some p.payload }

abbrev to_device : Bridge.CoapPost
to_device = record { client = 7; href = codes "light"; payload = codes "on" }

provision-register_client_example :
    (t : Text) × (w' w'' : World) × (c : ClientRegistration) × (provision_client calm
        (codes "phone")
        (token 2)
        mediated_world
      ≡ (ret (t, none), w'))
    × (register_client calm uid (codes "phone") t [] w' ≡ (ret c, w''))
    × ClientGranted c
provision-register_client_example =
    provision-register_client calm (sample-IsEngine (λ n. false)) calm-Quiet mediated_world
      mediated_world-WellFormed (codes "phone") (token 2) uid [] 1 1 (mediator_known (λ n. false))
      (omega arith) client_fresh
