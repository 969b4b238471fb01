-- ===== src/Coap/Default.antt =====
-- decodeMsg, sendReply and DefaultHandler of pkg/app/coap-interface/handlers.go: the handler for other
-- paths, which NewCoapServer has in a comment.
use coap_gateway.Prelude.{Bool, true, false, Option, none, some, List, ℕ}
use coap_gateway.Go.{Go, pure, panic, ◌>>◌}
use coap_gateway.Coap.Gateway.{not_found, plain, Request, Codec, Gateway, write_msg}

-- What decoding a payload as CBOR and encoding it as JSON comes to: the error of the first, or
-- whether the second has one.
abbrev pub Shown : Type 0
Shown = List ℕ → Option Bool

module _ {S : Type 0} (shown : Shown) (k : Codec) where
  -- The message is only logged; an error of the JSON encoder panics.
  unfoldable pub log_shown : Option Bool → Go (Gateway S) (Unit {0})
  log_shown none = pure tt
  log_shown (some false) = pure tt
  log_shown (some true) = panic

  unfoldable pub decode_msg : Request → Go (Gateway S) (Unit {0})
  unfolding log_shown
  decode_msg req = log_shown (shown req.payload)

  unfoldable pub send_reply : Go (Gateway S) (Unit {0})
  send_reply = do write_msg k (plain not_found); pure tt

  unfoldable pub default_handler : Request → Go (Gateway S) (Unit {0})
  unfolding decode_msg send_reply
  default_handler req = do decode_msg req; send_reply
