-- ===== src/Examples/Servers.antt =====
-- The theorems on the server's configuration at concrete inputs.
use coap_gateway.Prelude.{
  ◌≡◌, refl, true, false, some, List, [], ◌∷◌, arith, leb, length, ◌==◌, if◌then◌else◌, none,
}
use coap_gateway.Prelude.Int.{pos}
use coap_gateway.Prelude.Text.{Text, codes, text_eq}
use coap_gateway.Go.{ret, pure, modify, ◌>>=◌}
use coap_gateway.Http.Strings.{split_from, contains}
use coap_gateway.Keepalive.{wait_time}
use coap_gateway.Server.Numbers.{atoi}
use coap_gateway.Server.Tls.{
  Certificate, not_regular, file, unreadable, Crypto, setup_tls, read_tls_all, walk_all,
}
use coap_gateway.Server.Variables.{no_settings, read_all}
use coap_gateway.Server.Startup.{Server, started, new_server, new_keepalive}
use coap_gateway.Server.Defaults.{new_server_configured_wait}
use coap_gateway.Server.Trust.{Trusts, setup_tls-Trusts}

abbrev authority : Certificate
authority = record {
  raw_issuer = codes "root";
  raw_subject = codes "root";
  is_ca = true;
  serial = 1;
}

abbrev between : Certificate
between = record { raw_issuer = codes "root"; raw_subject = codes "ca"; is_ca = true; serial = 2 }

abbrev pub crypto : Crypto
crypto = record {
  load_key_pair = λ a b. true;
  walk = λ p. not_regular ∷ file (codes "b") ∷ unreadable ∷ file (codes "a") ∷ file [] ∷ [];
  pem = λ t. if length t == 0 then none else some (codes "CERTIFICATE", t);
  parse_certificate = λ t. some (if text_eq t (codes "a") then authority else between);
  parse = λ raw. some (authority ∷ []);
  verify = λ roots is c. leb c.serial 2;
}

abbrev environment : List Text
environment =
    codes "TLS_CERTIFICATE=/tls/cert"
    ∷ codes "TLS_CERTIFICATE_KEY=/tls/key"
    ∷ codes "TLS_CA_POOL=/tls/ca"
    ∷ []

new_server_configured_wait_example :
    (s : Server) × (new_server crypto (codes "KEEPALIVE_TIME=3600" ∷ []) ≡ ret (started s))
    × (wait_time (new_keepalive s) 0 ≡ pos 3600000000000)
unfolding read_all split_from contains atoi pure
new_server_configured_wait_example =
    new_server_configured_wait crypto [] (codes "KEEPALIVE_TIME=3600") (codes "3600") [] no_settings
      3600 false refl refl refl refl (omega arith)

setup_tls-Trusts_example : Trusts crypto (authority ∷ []) (between ∷ [])
unfolding setup_tls read_tls_all walk_all split_from text_eq modify pure ◌>>=◌
setup_tls-Trusts_example = setup_tls-Trusts crypto (authority ∷ []) (between ∷ []) environment refl
