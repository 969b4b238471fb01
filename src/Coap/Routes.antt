-- ===== src/Coap/Routes.antt =====
-- NewCoapServer of pkg/app/coap-interface/server.go and the router of main in
-- pkg/app/coap-interface/main.go: which handler of a gateway process serves which path.
use coap_gateway.Prelude.{Bool, List, [], ◌∷◌, true, false}
use coap_gateway.Prelude.Text.{Text, codes}
use coap_gateway.Go.{Go}
use coap_gateway.Go.Kept.{Keeps}
use coap_gateway.Routes.{Verb, get, post}
use coap_gateway.Registry.Interface.{Registry}
use coap_gateway.Registry.Laws.{Lawful}
use coap_gateway.Http.{Exchange}
use coap_gateway.Http as Http
use coap_gateway.Coap.Gateway.{Codec, Gateway, Request}
use coap_gateway.Coap.Account.{handle_account_update_or_delete}
use coap_gateway.Coap.Session.{handle_session_update}
use coap_gateway.Coap.Publication.{handle_rd_update}
use coap_gateway.Coap.TokenRefresh.{handle_token_refresh}
use coap_gateway.Coap.Bridge.{Connections, Bridge, handle_client_request, handle_health_check}
use coap_gateway.Coap.Kept.{Stored}
use coap_gateway.Coap.Kept.Registering.{handle_account-kept}
use coap_gateway.Coap.Kept.Routing.{handle_session-kept}
use coap_gateway.Coap.Kept.Publishing.{handle_rd-kept, handle_token_refresh-kept}

pub data Resource : Type 0 where
  account session rd token_refresh : Resource

-- The calls of mux.Handle, in their order; only the first path starts with a slash.
abbrev pub coap_routes : List (Text × Resource)
coap_routes =
    (codes "/oic/sec/account", account)
    ∷ (codes "oic/sec/session", session)
    ∷ (codes "oic/rd", rd)
    ∷ (codes "oic/sec/tokenrefresh", token_refresh)
    ∷ []

pub data Page : Type 0 where
  health_check client_request : Page

-- The calls of router.Get and router.Post, in their order.
abbrev pub pages : List ((Verb × Text) × Page)
pages =
    ((get, codes "/"), health_check)
    ∷ ((get, codes "/healthz"), health_check)
    ∷ ((post, codes "/:deviceUUID/:href"), client_request)
    ∷ []

unfoldable pub serve_page : Connections → Page → Http.Request → Go (Exchange Bridge) (Unit {0})
serve_page l health_check r = handle_health_check l r
serve_page l client_request r = handle_client_request l r

module _ {S : Type 0} (k : Codec) (db : Registry S) (pod_addr : Text) where
  unfoldable pub serve : Resource → Request → Go (Gateway S) (Unit {0})
  serve account r = handle_account_update_or_delete k db r
  serve session r = handle_session_update k db pod_addr r
  serve rd r = handle_rd_update k db r
  serve token_refresh r = handle_token_refresh k db r

  -- Whether a handler of a resource contains a log.Fatal.
  abbrev pub may_exit : Resource → Bool
  may_exit account = true
  may_exit session = false
  may_exit rd = false
  may_exit token_refresh = false

  module _ (P : S → Type 0) (law : Lawful P db) where
    -- Over any registry whose methods come to an end and keep a property of its state, every CoAP
    -- request comes to an end and keeps the property, whatever its method, its format and its
    -- payload, and whatever the codecs and the writes do: the handler returns or panics, and only
    -- the account's can end the process.
    pub serve-Keeps : (h : Resource) (r : Request) → Keeps (may_exit h) (Stored P) (serve h r)
    unfolding serve
    serve-Keeps account r = handle_account-kept P k db law r
    serve-Keeps session r = handle_session-kept P k db law pod_addr r
    serve-Keeps rd r = handle_rd-kept P k db law r
    serve-Keeps token_refresh r = handle_token_refresh-kept P k db law r
