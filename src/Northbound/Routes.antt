-- ===== src/Northbound/Routes.antt =====
-- The router of main in cmd/northbound-interface/handlers.go: which handler serves which path.
use coap_gateway.Prelude.{ℕ, ◌≢◌, List, [], ◌∷◌, false}
use coap_gateway.Prelude.Text.{Text, codes}
use coap_gateway.Go.{Go}
use coap_gateway.Go.Kept.{Keeps, Stays, Keeps-Stays}
use coap_gateway.Routes.{Verb, get, post, delete}
use coap_gateway.Registry.Interface.{Registry}
use coap_gateway.Registry.Laws.{Lawful}
use coap_gateway.Http.{Request, Exchange}
use coap_gateway.Northbound.{Json, Post, Site}
use coap_gateway.Northbound.Accounts.{handle_register_user, provision_mediator, token_refresh}
use coap_gateway.Northbound.Provisioning.{handle_provision_client, handle_provision_device}
use coap_gateway.Northbound.Clients.{handle_register_client}
use coap_gateway.Northbound.Routing.{
  Network, silent, handle_client_request, handle_delete, handle_resource_discovery,
}
use coap_gateway.Northbound.Kept.{
  Sited, handle_register_user-kept, provision_mediator-kept, token_refresh-kept,
  handle_provision_client-kept, handle_provision_device-kept, handle_register_client-kept,
  handle_client_request-Stays, handle_client_request-kept, handle_delete-kept,
  handle_resource_discovery-kept,
}

pub data Page : Type 0 where
  register_user_page provision_mediator_page token_refresh_page provision_client_page : Page
  provision_device_page client_request_page delete_page register_client_page : Page
  resource_discovery_page : Page

-- The calls of router.Post, router.Delete and router.Get, in their order.
abbrev pub pages : List ((Verb × Text) × Page)
pages =
    ((post, codes "/register/user"), register_user_page)
    ∷ ((post, codes "/provision/mediator"), provision_mediator_page)
    ∷ ((post, codes "/oic/sec/tokenrefresh"), token_refresh_page)
    ∷ ((post, codes "/provision/client"), provision_client_page)
    ∷ ((post, codes "/provision/device"), provision_device_page)
    ∷ ((post, codes "/:deviceUUID/:href"), client_request_page)
    ∷ ((delete, codes "/oic/sec/account"), delete_page)
    ∷ ((post, codes "/oic/sec/account"), register_client_page)
    ∷ ((get, codes "/oic/res"), resource_discovery_page)
    ∷ []

module _ {S : Type 0} (k : Json) (net : Network) (db : Registry S) where
  unfoldable pub serve_page : Page → Request → Go (Exchange (Site S)) (Unit {0})
  serve_page register_user_page r = handle_register_user k db r
  serve_page provision_mediator_page r = provision_mediator k db r
  serve_page token_refresh_page r = token_refresh k db r
  serve_page provision_client_page r = handle_provision_client k db r
  serve_page provision_device_page r = handle_provision_device k db r
  serve_page client_request_page r = handle_client_request net db r
  serve_page delete_page r = handle_delete net db r
  serve_page register_client_page r = handle_register_client k db r
  serve_page resource_discovery_page r = handle_resource_discovery net db r

  module _ (P : S → Type 0) (law : Lawful P db) where
    -- Whatever the pods do, also where one never answers.
    pub serve_page-Stays : (h : Page) (r : Request) → Stays (Sited P) (serve_page h r)
    unfolding serve_page
    serve_page-Stays register_user_page r =
        Keeps-Stays false _ (handle_register_user-kept P k db law r)
    serve_page-Stays provision_mediator_page r =
        Keeps-Stays false _ (provision_mediator-kept P k db law r)
    serve_page-Stays token_refresh_page r = Keeps-Stays false _ (token_refresh-kept P k db law r)
    serve_page-Stays provision_client_page r =
        Keeps-Stays false _ (handle_provision_client-kept P k db law r)
    serve_page-Stays provision_device_page r =
        Keeps-Stays false _ (handle_provision_device-kept P k db law r)
    serve_page-Stays client_request_page r = handle_client_request-Stays P net db law r
    serve_page-Stays delete_page r = Keeps-Stays false _ (handle_delete-kept P net db law r)
    serve_page-Stays register_client_page r =
        Keeps-Stays false _ (handle_register_client-kept P k db law r)
    serve_page-Stays resource_discovery_page r =
        Keeps-Stays false _ (handle_resource_discovery-kept P net db law r)

    -- Over any registry whose methods come to an end and keep a property of its state, and where every
    -- http.Post to a pod comes to an end, by an error or a response, every request to the northbound
    -- interface, whatever its header and its body and whatever the pods answer, comes to an end by a
    -- return or a panic, never ends the process, and keeps the property.
    pub serve_page-Keeps :
        ((n : ℕ) (p : Post) → net n p ≢ silent)
        → (h : Page) (r : Request) → Keeps false (Sited P) (serve_page h r)
    unfolding serve_page
    serve_page-Keeps answers register_user_page r = handle_register_user-kept P k db law r
    serve_page-Keeps answers provision_mediator_page r = provision_mediator-kept P k db law r
    serve_page-Keeps answers token_refresh_page r = token_refresh-kept P k db law r
    serve_page-Keeps answers provision_client_page r = handle_provision_client-kept P k db law r
    serve_page-Keeps answers provision_device_page r = handle_provision_device-kept P k db law r
    serve_page-Keeps answers client_request_page r =
        handle_client_request-kept P net db law answers r
    serve_page-Keeps answers delete_page r = handle_delete-kept P net db law r
    serve_page-Keeps answers register_client_page r = handle_register_client-kept P k db law r
    serve_page-Keeps answers resource_discovery_page r =
        handle_resource_discovery-kept P net db law r
