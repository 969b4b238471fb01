-- ===== src/Coap/Publication.antt =====
-- handleRDUpdate of pkg/app/coap-interface/handlers.go.
pub mod Answers
use coap_gateway.Prelude.{Bool, true, false, Option, none, some, List, [], ◌∷◌, ℕ}
use coap_gateway.Prelude.Text.{Text}
use coap_gateway.Go.{Go, Outcome, ret, pure, panic, ◌>>=◌, ◌>>◌}
use coap_gateway.Registry.World.{Err}
use coap_gateway.Registry.Interface.{Registry}
use coap_gateway.Coap.Account.{reply}
use coap_gateway.Coap.Gateway.{
  ResourcePublication, Method, get, post, put, delete_method, other_method, MediaType, app_ocf_cbor,
  app_json, other_media, created, bad_request, unsupported_media_type, internal_server_error,
  Request, plain, Codec, Gateway, with_store, write_msg,
}

module _ {S : Type 0} (k : Codec) (db : Registry S) where
  unfoldable pub answer_publication : Option Err → Go (Gateway S) (Unit {0})
  answer_publication none = reply k db (plain created)
  answer_publication (some x) = reply k db (plain internal_server_error)

  -- An error of json.Marshal is answered, and the publication goes on.
  unfoldable pub store_links : ResourcePublication → Text × Bool → Go (Gateway S) (Unit {0})
  store_links rp (out, false) =
      with_store (db.publish_resource out rp.device_id) >>= λ x. answer_publication x
  store_links rp (out, true) = do
    reply k db (plain internal_server_error)
    failed ← with_store (db.publish_resource out rp.device_id)
    answer_publication failed

  unfoldable pub unless_unwritten : ResourcePublication → Bool → Go (Gateway S) (Unit {0})
  unless_unwritten rp true = pure tt
  unless_unwritten rp false = store_links rp (k.marshal_json rp)

  -- After a payload that cannot be decoded the handler goes on, unless the error response cannot
  -- be written.
  unfoldable pub decoded_links : ResourcePublication × Bool → Go (Gateway S) (Unit {0})
  decoded_links (rp, false) = store_links rp (k.marshal_json rp)
  decoded_links (rp, true) =
      write_msg k (plain bad_request) >>= λ failed. unless_unwritten rp failed

  -- Other methods than POST are not answered.
  unfoldable pub rd_method : Method → List ℕ → Go (Gateway S) (Unit {0})
  rd_method post payload = decoded_links (k.decode_publication payload)
  rd_method get payload = pure tt
  rd_method put payload = pure tt
  rd_method delete_method payload = pure tt
  rd_method (other_method n) payload = pure tt

  unfoldable pub rd_format : Option MediaType → Request → Go (Gateway S) (Unit {0})
  rd_format none req = panic
  rd_format (some app_ocf_cbor) req = rd_method req.code req.payload
  rd_format (some app_json) req = reply k db (plain unsupported_media_type)
  rd_format (some (other_media n)) req = reply k db (plain unsupported_media_type)

  unfoldable pub handle_rd_update : Request → Go (Gateway S) (Unit {0})
  unfolding answer_publication store_links unless_unwritten decoded_links rd_method rd_format reply
  handle_rd_update req = rd_format req.content_format req
