-- ===== src/Coap/Bridge.antt =====
-- handleClientRequest and handleHealthCheck of pkg/app/coap-interface/main.go: HTTP requests of the
-- northbound interface become CoAP requests over the connection of a device.
pub mod Delivery
use coap_gateway.Prelude.{
  ℕ, Bool, true, false, Option, none, some, List, [], ◌∷◌, length, if◌then◌else◌,
}
use coap_gateway.Prelude.Text.{Text, codes}
use coap_gateway.Go.{Go, Outcome, ret, pure, ◌>>=◌, ◌>>◌}
use coap_gateway.Map.{Map, lookup}
use coap_gateway.Http.{Request, Exchange, write_header, write, internal_server_error, not_found}

-- A POST request of CoAP with the content format application/json, and the connection it goes to.
pub record CoapPost : Type 0 where
  pub client : ℕ
  pub href : Text
  pub payload : Text

-- go-coap: whether NewPostRequest returns an error, and the payload of the response to the n-th
-- Exchange, or its error.
pub record Connections : Type 0 where
  pub refused : CoapPost → Bool
  pub answer : ℕ → CoapPost → Option Text

-- The map of deviceContainer, and the exchanges so far, the last one first.
pub record Bridge : Type 0 where
  pub devices : Map ℕ
  pub exchanges : List CoapPost

module _ (l : Connections) where
  unfoldable pub exchange : CoapPost → Go (Exchange Bridge) (Option Text)
  exchange p x = (
    ret (l.answer (length x.state.exchanges) p),
    record x { state = record x.state { exchanges = p ∷ x.state.exchanges } },
  )

  unfoldable pub answer_client : Option Text → Go (Exchange Bridge) (Unit {0})
  answer_client none = write_header internal_server_error
  answer_client (some payload) = write payload

  unfoldable pub send_to : Text → Text → Option ℕ → Go (Exchange Bridge) (Unit {0})
  unfolding exchange answer_client
  send_to href body none = write_header not_found
  send_to href body (some client) =
      let p : CoapPost = record { client = client; href = href; payload = body } in
      if l.refused p
      then write_header internal_server_error
      else exchange p >>= λ res. answer_client res

  unfoldable pub unread : Bool → Go (Exchange Bridge) (Unit {0})
  unread false = pure tt
  unread true = do
    write_header internal_server_error
    write (codes "STATUS CODE 500:\ncouldn't read body")

  unfoldable pub device_of : Text → Go (Exchange Bridge) (Option ℕ)
  device_of id x = (ret (lookup id x.state.devices), x)

  unfoldable pub handle_client_request : Request → Go (Exchange Bridge) (Unit {0})
  unfolding send_to unread device_of
  handle_client_request r = do
    unread r.unreadable
    device ← device_of r.device_uuid
    send_to r.href r.body device

  unfoldable pub handle_health_check : Request → Go (Exchange Bridge) (Unit {0})
  handle_health_check r = write_header 200
