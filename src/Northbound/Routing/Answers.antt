-- ===== src/Northbound/Routing/Answers.antt =====
-- What a client's request for a device leads to.
use coap_gateway.Prelude.{
  ℕ, ◌≡◌, refl, Bool, true, false, ◌&&◌, ◌==◌, Option, none, some, [], ◌∷◌, ◌++◌, length, arith,
  if◌then◌else◌,
}
use coap_gateway.Prelude.Text.{Text, codes}
use coap_gateway.Go.{Outcome, ret, blocks, ◌>>=◌}
use coap_gateway.Registry.World.{
  Err, cache_nil, no_rows, mediator_token_not_found, random_failed, driver,
}
use coap_gateway.Registry.Interface.{Registry}
use coap_gateway.Http.{Request, begin, status_of, write_header, write, header_if}
use coap_gateway.Http.Strings.{replace_byte}
use coap_gateway.Northbound.{Post, Site, with_registry}
use coap_gateway.Northbound.Routing.{
  Network, Posted, responded, refused, silent, handle_client_request,
}

-- An address with dashes for dots.
abbrev pub dashed : Text → Text
dashed [] = []
dashed (c ∷ s) = (if c == b'.' then b'-' else c) ∷ dashed s

pub replace_byte-dashed : (s : Text) → replace_byte s b'.' b'-' ≡ dashed s
replace_byte-dashed [] = refl
replace_byte-dashed (c ∷ s) = rw (replace_byte-dashed s) refl

-- The request that goes to port 8081 of the pod at an address, in the default namespace, for the
-- device and the href of a client's request.
abbrev pub post_to : Text → Request → Post
post_to ip r = record {
  endpoint =
      codes "http://"
      ++ dashed ip
      ++ codes ".default.pod.cluster.local:8081/"
      ++ r.device_uuid
      ++ codes "/"
      ++ r.href;
  body = r.body;
}

abbrev pub is_nil : Option Err → Bool
is_nil (some cache_nil) = true
is_nil none = false
is_nil (some no_rows) = false
is_nil (some mediator_token_not_found) = false
is_nil (some random_failed) = false
is_nil (some driver) = false

-- The status that the header has when the request goes out.
abbrev pub status_before : Request → Option Err → ℕ
status_before r x = if r.unreadable then 500 else (if is_nil x then 404 else 200)

-- The status in the end: an error of the pod is a 500 if no status has been set before.
abbrev pub client_status : Request → Option Err → Posted → ℕ
client_status r x refused = if status_before r x == 200 then 500 else status_before r x
client_status r x (responded t failed) =
    if (status_before r x == 200) && failed then 500 else status_before r x
client_status r x silent = status_before r x

abbrev pub ends_as : Posted → Outcome (Unit {0})
ends_as (responded t failed) = ret tt
ends_as refused = ret tt
ends_as silent = blocks

-- Over any registry, whatever the lookup of the device returns, exactly one request goes out, to the
-- pod at the address with dashes for dots, also where the device was not found and the address is
-- empty. Unless the pod never answers, when the handler never ends, the status is 500 if the body
-- could not be read, 404 if redis knows no such device, 500 if the pod's response cannot be had, and
-- 200 otherwise.
pub client_request_answers :
    {S : Type 0} (net : Network) (db : Registry S) (r : Request) (b : Site S) (ip : Text)
    (x : Option Err) (s : S)
    → db.lookup_private_ip r.device_uuid b.store ≡ (ret (ip, x), s)
    → let (o, y) = handle_client_request net db r (begin b) in
      (o ≡ ends_as (net (length b.posts) (post_to ip r)))
      × (y.state ≡ record { store = s; posts = post_to ip r ∷ b.posts })
      × (status_of y ≡ client_status r x (net (length b.posts) (post_to ip r)))
unfolding handle_client_request with_registry header_if write write_header ◌>>=◌
client_request_answers net db r b ip x s u = ground (arith, u, replace_byte-dashed ip)
