-- ===== src/Coap/Publication/Answers.antt =====
-- How a publication is answered.
use coap_gateway.Prelude.{ℕ, ◌≡◌, false, some, ◌∷◌, arith, ◌⊎◌}
use coap_gateway.Go.{ret, panics, ◌>>=◌}
use coap_gateway.Registry.World.{Engine, World}
use coap_gateway.Registry.Interface.{mysql_redis_registry}
use coap_gateway.Registry.Resources.Silence.{publish_resource_silent}
use coap_gateway.Coap.Publication.{handle_rd_update}
use coap_gateway.Coap.Gateway.{
  ResourcePublication, post, app_ocf_cbor, created, plain, Request, Codec, Gateway, with_store,
  write_msg,
}

-- With the MySQL registry, while no write fails, a well-formed publication is answered by Created,
-- also for a device that does not exist, or the handler panics with no response: it never answers
-- by an error.
pub rd_created_or_panics :
    (k : Codec) (e : Engine) (req : Request) (g : Gateway World) (rp : ResourcePublication)
    → ((n : ℕ) → k.write_fails n ≡ false)
    → req.content_format ≡ some app_ocf_cbor
    → req.code ≡ post
    → k.decode_publication req.payload ≡ (rp, false)
    → (k.marshal_json rp).1 ≡ false
    → let (o, g') = handle_rd_update k (mysql_redis_registry e) req g in
      ((o ≡ ret tt) × (g'.sent ≡ plain created ∷ g.sent)) ⊎ ((o ≡ panics) × (g'.sent ≡ g.sent))
unfolding handle_rd_update with_store write_msg ◌>>=◌
rd_created_or_panics k e req g rp nf f c d j = ground (
  arith,
  f,
  c,
  d,
  j,
  nf g.writes,
  publish_resource_silent e (k.marshal_json rp).0 rp.device_id g.store,
)
