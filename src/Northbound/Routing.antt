-- ===== src/Northbound/Routing.antt =====
-- handleClientRequest, handleDelete and handleResourceDiscovery of
-- cmd/northbound-interface/handlers.go.
pub mod Answers
pub mod Reach
use coap_gateway.Prelude.{ℕ, Bool, true, false, Option, none, some, List, [], ◌∷◌, ◌++◌, length}
use coap_gateway.Prelude.Text.{Text, codes}
use coap_gateway.Go.{Go, Outcome, ret, blocks, pure, ◌>>=◌, ◌>>◌}
use coap_gateway.Registry.World.{
  Err, cache_nil, no_rows, mediator_token_not_found, random_failed, driver,
}
use coap_gateway.Registry.Interface.{Registry}
use coap_gateway.Http.{
  Request, Exchange, write_header, write, header_if, internal_server_error, not_found,
}
use coap_gateway.Http.Strings.{replace_byte}
use coap_gateway.Northbound.{Post, Site, with_registry}

-- How http.Post ends: with a response, as what ReadAll reads of its body and whether that fails; with
-- an error; or never, since the default client has no timeout and a pod may accept a connection and
-- not answer.
pub data Posted : Type 0 where
  responded : Text → Bool → Posted
  refused silent : Posted

-- For the n-th request.
abbrev pub Network : Type 0
Network = ℕ → Post → Posted

abbrev pub returned : Posted → Outcome (Option (Text × Bool))
returned (responded response failed) = ret (some (response, failed))
returned refused = ret none
returned silent = blocks

-- "http://%s.default.pod.cluster.local:8081/%s/%s"
abbrev pub endpoint_of : Text → Text → Text → Text
endpoint_of ip device_uuid href =
    codes "http://"
    ++ ip
    ++ codes ".default.pod.cluster.local:8081/"
    ++ device_uuid
    ++ codes "/"
    ++ href

module _ {S : Type 0} (net : Network) (db : Registry S) where
  unfoldable pub http_post : Post → Go (Exchange (Site S)) (Option (Text × Bool))
  http_post p x = (
    returned (net (length x.state.posts) p),
    record x { state = record x.state { posts = p ∷ x.state.posts } },
  )

  unfoldable pub unread_body : Bool → Go (Exchange (Site S)) (Unit {0})
  unread_body false = pure tt
  unread_body true = do
    write_header internal_server_error
    write (codes "STATUS CODE 500:\ncouldn't read body")

  -- Other errors than redis.Nil are not answered.
  unfoldable pub device_missing : Option Err → Go (Exchange (Site S)) (Unit {0})
  device_missing (some cache_nil) = do
    write_header not_found
    write (
        codes
          "that deviceUUID was not found. it may not be connected or it may have never been registered")
  device_missing none = pure tt
  device_missing (some no_rows) = pure tt
  device_missing (some mediator_token_not_found) = pure tt
  device_missing (some random_failed) = pure tt
  device_missing (some driver) = pure tt

  unfoldable pub forward : Option (Text × Bool) → Go (Exchange (Site S)) (Unit {0})
  forward none = write_header internal_server_error
  forward (some (response, failed)) = do header_if failed internal_server_error; write response

  unfoldable pub handle_client_request : Request → Go (Exchange (Site S)) (Unit {0})
  unfolding http_post unread_body device_missing forward
  handle_client_request r = do
    unread_body r.unreadable
    (ip, x) ← with_registry (db.lookup_private_ip r.device_uuid)
    device_missing x
    response ← http_post (record {
      endpoint = endpoint_of (replace_byte ip b'.' b'-') r.device_uuid r.href;
      body = r.body;
    })
    forward response

  -- The body is empty.
  unfoldable pub handle_delete : Request → Go (Exchange (Site S)) (Unit {0})
  handle_delete r = pure tt

  unfoldable pub handle_resource_discovery : Request → Go (Exchange (Site S)) (Unit {0})
  handle_resource_discovery r = header_if r.malformed internal_server_error
