-- ===== src/Server/Startup.antt =====
-- NewServer, and the keepalive that NewKeepalive makes of a server.
use coap_gateway.Prelude.{Option, none, some, List, if◌then◌else◌}
use coap_gateway.Prelude.Int.{ℤ, pos}
use coap_gateway.Prelude.Text.{Text, codes}
use coap_gateway.Go.{Outcome, ret, panics, exits, blocks, ◌>>=◌}
use coap_gateway.Http.Strings.{contains}
use coap_gateway.Keepalive.{Keepalive}
use coap_gateway.Server.Tls.{Crypto, Certificate, TlsError, Setup, refused, configured, setup_tls}
use coap_gateway.Server.Variables.{Settings, no_settings, read_all}

-- type Server, with the root and the intermediate certificates of its TLSConfig
pub record Server : Type 0 where
  pub addr : Text
  pub net : Text
  pub tls_config : Option (List Certificate × List Certificate)
  pub keepalive_time : ℤ
  pub keepalive_interval : ℤ
  pub keepalive_retry : ℤ

-- What NewServer returns: a server, or the error of setupTLS.
pub data Start : Type 0 where
  started : Server → Start
  not_started : TlsError → Start

abbrev pub or_else {ℓ} : {A : Type ℓ} → Option A → A → A
or_else none a = a
or_else (some b) a = b

-- time.Hour, time.Second * 5 and 5, and what the settings say
abbrev pub server_of : Settings → Server
server_of s = record {
  addr = or_else s.listen_address (codes "0.0.0.0:5684");
  net = or_else s.listen_network (codes "tcp");
  tls_config = none;
  keepalive_time = or_else s.keepalive_time (pos 3600000000000);
  keepalive_interval = or_else s.keepalive_interval (pos 5000000000);
  keepalive_retry = or_else s.keepalive_retry (pos 5);
}

abbrev pub with_tls : Server → Outcome Setup → Outcome Start
with_tls s (ret (refused x)) = ret (not_started x)
with_tls s (ret (configured roots intermediates)) =
    ret (started (record s { tls_config = some (roots, intermediates) }))
with_tls s panics = panics
with_tls s exits = exits
with_tls s blocks = blocks

module _ (k : Crypto) (environ : List Text) where
  abbrev pub start : Server → Outcome Start
  start s =
      if contains s.net (codes "tls") then with_tls s (setup_tls k environ) else ret (started s)

  unfoldable pub new_server : Outcome Start
  unfolding read_all
  new_server = ((read_all environ >>= (λ _ s. (start (server_of s), s))) no_settings).0

abbrev pub new_keepalive : Server → Keepalive
new_keepalive s = record {
  time = s.keepalive_time;
  interval = s.keepalive_interval;
  retry = s.keepalive_retry;
}
