-- ===== src/Coap/Kept/Publishing.antt =====
-- What handleRDUpdate and handleTokenRefresh keep, and how they end.
use coap_gateway.Prelude.{ℕ, Bool, true, false, Option, none, some, List}
use coap_gateway.Prelude.Text.{Text}
use coap_gateway.Go.Kept.{Keeps}
use coap_gateway.Registry.World.{Err}
use coap_gateway.Registry.Refresh.{Refreshed}
use coap_gateway.Registry.Interface.{Registry}
use coap_gateway.Registry.Laws.{Lawful}
use coap_gateway.Coap.Gateway.{
  Method, get, post, put, delete_method, other_method, MediaType, app_ocf_cbor, app_json,
  other_media, Request, Code, Codec, ResourcePublication,
}
use coap_gateway.Coap.Publication.{
  answer_publication, store_links, unless_unwritten, decoded_links, rd_method, rd_format,
  handle_rd_update,
}
use coap_gateway.Coap.TokenRefresh.{reply_if, send_refreshed, handle_token_refresh}
use coap_gateway.Coap.Kept.{Stored, gateway_steps, reply-kept}

module _ {S : Type 0} (P : S → Type 0) (k : Codec) (db : Registry S) where
  module _ (law : Lawful P db) where
    answer_publication-kept : (x : Option Err) → Keeps false (Stored P) (answer_publication k db x)
    unfolding answer_publication
    answer_publication-kept none = reply-kept P k db _
    answer_publication-kept (some x) = reply-kept P k db _

    store_links-kept :
        (rp : ResourcePublication) (p : Text × Bool)
        → Keeps false (Stored P) (store_links k db rp p)
    unfolding store_links
    store_links-kept rp (out, false) =
        search (gateway_steps, answer_publication-kept, law.publish_resource)
    store_links-kept rp (out, true) =
        search (gateway_steps, reply-kept, answer_publication-kept, law.publish_resource)

    unless_unwritten-kept :
        (rp : ResourcePublication) (f : Bool) → Keeps false (Stored P) (unless_unwritten k db rp f)
    unfolding unless_unwritten
    unless_unwritten-kept rp true = search gateway_steps
    unless_unwritten-kept rp false = store_links-kept rp (k.marshal_json rp)

    decoded_links-kept :
        (p : ResourcePublication × Bool) → Keeps false (Stored P) (decoded_links k db p)
    unfolding decoded_links
    decoded_links-kept (rp, false) = store_links-kept rp (k.marshal_json rp)
    decoded_links-kept (rp, true) = search (gateway_steps, unless_unwritten-kept)

    rd_method-kept :
        (m : Method) (payload : List ℕ) → Keeps false (Stored P) (rd_method k db m payload)
    unfolding rd_method
    rd_method-kept post payload = decoded_links-kept (k.decode_publication payload)
    rd_method-kept get payload = search gateway_steps
    rd_method-kept put payload = search gateway_steps
    rd_method-kept delete_method payload = search gateway_steps
    rd_method-kept (other_method n) payload = search gateway_steps

    rd_format-kept :
        (f : Option MediaType) (r : Request) → Keeps false (Stored P) (rd_format k db f r)
    unfolding rd_format
    rd_format-kept none r = search gateway_steps
    rd_format-kept (some app_ocf_cbor) r = rd_method-kept r.code r.payload
    rd_format-kept (some app_json) r = reply-kept P k db _
    rd_format-kept (some (other_media n)) r = reply-kept P k db _

    pub handle_rd-kept : (r : Request) → Keeps false (Stored P) (handle_rd_update k db r)
    unfolding handle_rd_update
    handle_rd-kept r = rd_format-kept r.content_format r

    reply_if-kept : (f : Bool) (c : Code) → Keeps false (Stored P) (reply_if k db f c)
    unfolding reply_if
    reply_if-kept true c = reply-kept P k db _
    reply_if-kept false c = search gateway_steps

    send_refreshed-kept : (r : Refreshed) → Keeps false (Stored P) (send_refreshed k db r)
    unfolding send_refreshed
    send_refreshed-kept r = search (gateway_steps, reply-kept, reply_if-kept)

    pub handle_token_refresh-kept :
        (r : Request) → Keeps false (Stored P) (handle_token_refresh k db r)
    unfolding handle_token_refresh
    handle_token_refresh-kept r =
        search (gateway_steps, reply_if-kept, send_refreshed-kept, law.refresh_token)
