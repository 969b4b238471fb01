-- ===== src/Coap/Gateway.antt =====
-- pkg/app/coap-interface/handlers.go: the messages, the device container, and what a handler runs
-- in. go-coap and the CBOR codec are parameters.
use coap_gateway.Prelude.{ℕ, suc, Bool, true, false, Option, none, List, [], ◌∷◌, if◌then◌else◌}
use coap_gateway.Prelude.Int.{ℤ, pos}
use coap_gateway.Prelude.Text.{Text}
use coap_gateway.Go.{Go, ret}
use coap_gateway.Map.{Map, insert, delete}

-- type Account
pub record Account : Type 0 where
  pub device_id : Text
  pub auth_provider : Text
  pub access_token : Text
  pub refresh_token : Text
  pub token_ttl : ℤ
  pub user_id : Text
  pub logged_in : Bool

-- Account{}
abbrev pub empty_account : Account
empty_account = record {
  device_id = [];
  auth_provider = [];
  access_token = [];
  refresh_token = [];
  token_ttl = pos 0;
  user_id = [];
  logged_in = false;
}

-- type Link, with its Bitmask and its Endpoints
pub record Link : Type 0 where
  pub anchor : Text
  pub href : Text
  pub resource_type : List Text
  pub interface : List Text
  pub policy : ℕ  -- uint8
  pub endpoints : List Text

-- type ResourcePublication
pub record ResourcePublication : Type 0 where
  pub device_id : Text
  pub links : List Link

pub data Method : Type 0 where
  get post put delete_method : Method
  other_method : ℕ → Method

pub data MediaType : Type 0 where
  app_ocf_cbor app_json : MediaType
  other_media : ℕ → MediaType

pub data Code : Type 0 where
  created changed bad_request unauthorized not_found method_not_allowed : Code
  unsupported_media_type internal_server_error : Code

-- coap.Request, with the connection that it came over. The content format is nil where the
-- message has no such option.
pub record Request : Type 0 where
  pub code : Method
  pub content_format : Option MediaType
  pub payload : List ℕ
  pub client : ℕ

pub record Response : Type 0 where
  pub code : Code
  pub format : Option MediaType
  pub payload : List ℕ

-- w.NewResponse(code)
abbrev pub plain : Code → Response
plain c = record { code = c; format = none; payload = [] }

-- The codecs, and whether a write to the connection fails. A decoder hands back what it has filled
-- in, and whether there was an error; so does an encoder.
pub record Codec : Type 0 where
  pub decode_account : List ℕ → Account × Bool
  pub encode_account : Account → List ℕ × Bool
  pub decode_publication : List ℕ → ResourcePublication × Bool
  pub marshal_json : ResourcePublication → Text × Bool
  pub write_fails : ℕ → Bool

-- The registry's state, the map of deviceContainer, the responses that went out (the last one
-- first), and the number of writes so far.
pub record Gateway (S : Type 0) : Type 0 where
  pub store : S
  pub devices : Map ℕ
  pub sent : List Response
  pub writes : ℕ

module _ {S : Type 0} where
  unfoldable pub with_store : {A : Type 0} → Go S A → Go (Gateway S) A
  with_store m g = ((m g.store).0, record g { store = (m g.store).1 })

  -- w.WriteMsg(res): whether it returns an error.
  unfoldable pub write_msg : Codec → Response → Go (Gateway S) Bool
  write_msg k r g =
      if k.write_fails g.writes
      then (ret true, record g { writes = suc g.writes })
      else (ret false, record g { sent = r ∷ g.sent; writes = suc g.writes })

  -- deviceContainer.addDevice
  unfoldable pub add_device : Text → ℕ → Go (Gateway S) (Unit {0})
  add_device id client g = (ret tt, record g { devices = insert id client g.devices })

  -- deviceContainer.removeDevice
  unfoldable pub remove_device : Text → Go (Gateway S) (Unit {0})
  remove_device id g = (ret tt, record g { devices = delete id g.devices })
