-- ===== src/TestClient.antt =====
-- examples/coapClientForTesting.go: a program that plays a device for someone at a terminal, who has
-- it register, log in or publish. go-coap and the codecs are parameters.
pub mod Prompts
pub mod Online
use coap_gateway.Prelude.{
  ℕ, suc, Bool, true, false, Option, none, some, List, [], ◌∷◌, ◌++◌, if◌then◌else◌,
}
use coap_gateway.Prelude.Int.{ℤ, pos}
use coap_gateway.Prelude.Text.{Text, codes, text_eq}
use coap_gateway.Go.{Go, Outcome, ret, panics, blocks, pure, panic, fatal, ◌>>=◌, ◌>>◌}
use coap_gateway.Http.Strings.{contains}

-- type Account
pub record Account : Type 0 where
  pub device_id : Text
  pub auth_provider : Text
  pub access_token : Text
  pub refresh_token : Text
  pub token_ttl : ℤ
  pub user_id : Text
  pub logged_in : Bool

-- type Link, with its Bitmask and its Endpoints
pub record Link : Type 0 where
  pub anchor : Text
  pub href : Text
  pub resource_type : List Text
  pub interface : List Text
  pub policy : ℕ  -- uint8
  pub endpoints : List Text

-- type ResourcePublication
pub record ResourcePublication : Type 0 where
  pub device_id : Text
  pub links : List Link

abbrev pub my_link : Link
my_link = record {
  anchor = codes "ocf://test-this-uuid-dddd-eeee-1234567890ab";
  href = codes "myHref";
  resource_type = codes "oic.r.switch.binary" ∷ [];
  interface = codes "oic.if.a" ∷ codes "oic.if.baseline" ∷ [];
  policy = 3;
  endpoints = codes "coaps://[fe80::b1d6]:22222" ∷ [];
}

-- A POST with the content format of CBOR.
pub record Message : Type 0 where
  pub path : Text
  pub payload : Text

-- How an exchange ends: with a response, with an error and a nil response, or in a panic.
pub data Exchanged : Type 0 where
  answered : Text → Exchanged
  failed crashed : Exchanged

pub record Cloud : Type 0 where
  -- MarshalCBOR and Encode: what is in the buffer, and whether there was an error.
  pub encode_account : Account → Text × Bool
  pub encode_publication : ResourcePublication → Text × Bool
  -- NewPostRequest(path, coap.AppOcfCbor, body); `none` is a nil message beside an error.
  pub new_post_request : Text → Text → Option Message
  -- Exchange, at a call with a number; the message may be nil.
  pub exchange : ℕ → Option Message → Exchanged
  -- Whether a payload cannot be decoded as CBOR, and whether what it holds has no JSON.
  pub undecodable : Text → Bool
  pub unprintable : Text → Bool
  -- Whether the address cannot be dialed.
  pub dial_fails : Text → Bool
  -- Whether the write of a response fails, at a call with a number.
  pub write_fails : ℕ → Bool

-- What went into Exchange and the payloads of the responses that went out, the last ones first, and
-- the number of calls.
pub record Terminal : Type 0 where
  pub exchanges : List (Option Message)
  pub responses : List Text
  pub calls : ℕ

module _ (c : Cloud) where
  -- conn.Exchange(msg): the response, or nil beside an error that is only printed.
  unfoldable pub exchange : Option Message → Go Terminal (Option Text)
  exchange msg d =
      let d' : Terminal = record d { exchanges = msg ∷ d.exchanges; calls = suc d.calls } in
      elim (c.exchange d.calls msg) [
        | answered p ↦ (ret (some p), d')
        | failed ↦ (ret none, d')
        | crashed ↦ (panics, d')
      ]

  -- A method of a nil response panics.
  unfoldable pub payload : Option Text → Go Terminal Text
  payload none = panic
  payload (some p) = pure p

  unfoldable pub decode_msg : Text → Go Terminal (Unit {0})
  decode_msg p = if c.undecodable p then pure tt else (if c.unprintable p then panic else pure tt)

  abbrev account_of : Text → Text → Text → Bool → Account
  account_of device_id access_token user_id logged_in = record {
    device_id = device_id;
    auth_provider = [];
    access_token = access_token;
    refresh_token = [];
    token_ttl = pos 0;
    user_id = user_id;
    logged_in = logged_in;
  }

  -- Each of the three ends in a call of promptUser, `again`.
  module _ (device_id access_token user_id : Text) (again : Go Terminal (Unit {0})) where
    -- The flag is set whatever `loggedIn` is.
    unfoldable pub register_device : Bool → Go Terminal (Unit {0})
    register_device logged_in =
        let (body, err) = c.encode_account (account_of device_id access_token user_id true) in
        elim (c.new_post_request (codes "oic/sec/account") body) [
          | none ↦ pure tt
          | some msg ↦ (do m ← exchange (some msg); p ← payload m; decode_msg p; again)
        ]

    -- The error of NewPostRequest is overwritten.
    unfoldable pub start_session : Bool → Go Terminal (Unit {0})
    start_session logged_in = do
      let (body, err) = c.encode_account (account_of device_id access_token user_id logged_in)
      m ← exchange (c.new_post_request (codes "oic/sec/session") body)
      p ← payload m
      decode_msg p
      again

    unfoldable pub publish_resource : Go Terminal (Unit {0})
    publish_resource = do
      let (body, err) =
          c.encode_publication (record { device_id = device_id; links = my_link ∷ [] })
      m ← exchange (c.new_post_request (codes "oic/rd") body)
      payload m
      again

  -- promptUser, over what the calls of Scanln read; after the end of the input that is "".
  unfoldable pub prompt_user : Text → Text → Text → List Text → Go Terminal (Unit {0})
  unfolding register_device start_session publish_resource
  prompt_user device_id access_token user_id [] = pure tt
  prompt_user device_id access_token user_id (input ∷ inputs) =
      let again = prompt_user device_id access_token user_id inputs in
      if text_eq input (codes "register")
      then register_device device_id access_token user_id again true
      else (if text_eq input (codes "session")
          then start_session device_id access_token user_id again true
          else (if text_eq input (codes "publish")
              then publish_resource device_id access_token user_id again
              else pure tt))

  -- The device's side of an exchange.
  unfoldable pub log_handler : Text → Go Terminal (Unit {0})
  log_handler [] d = (panics, d)
  log_handler (a ∷ p) d =
      if c.write_fails d.calls then (ret tt, record d { calls = suc d.calls }) else (
        ret tt,
        record d {
          responses = codes "test response payload from device" ∷ d.responses;
          calls = suc d.calls;
        },
      )

  -- One call of Scanln.
  abbrev scan : List Text → Text × List Text
  scan [] = ([], [])
  scan (input ∷ inputs) = (input, inputs)

  abbrev pub with_port : Text → Text
  with_port address = if contains address (codes ":") then address else address ++ codes ":5684"

  -- `select {}`
  unfoldable pub wait : Go Terminal (Unit {0})
  wait d = (blocks, d)

  -- The mediated token and the refresh token are read and not used.
  unfoldable pub client_main : List Text → Go Terminal (Unit {0})
  unfolding wait
  client_main inputs =
      let (address, inputs) = scan inputs in
      let (user_id, inputs) = scan inputs in
      let (device_id, inputs) = scan inputs in
      let (access_token, inputs) = scan inputs in
      let (mediated_token, inputs) = scan inputs in
      let (refresh_token, inputs) = scan inputs in
      if c.dial_fails (with_port address)
      then fatal
      else (prompt_user device_id access_token user_id inputs >> wait)
