-- ===== src/Server/Variables.antt =====
-- The loop of NewServer over the environment.
use coap_gateway.Prelude.{Bool, ◌||◌, Option, none, some, List, [], ◌∷◌, if◌then◌else◌}
use coap_gateway.Prelude.Int.{ℤ}
use coap_gateway.Prelude.Text.{Text, codes, text_eq}
use coap_gateway.Go.{Go, pure, panic, modify, ◌>>=◌}
use coap_gateway.Http.Strings.{split}
use coap_gateway.Server.Numbers.{atoi}
use coap_gateway.Server.Tls.{value_of}

-- The pointers that the loop sets.
pub record Settings : Type 0 where
  pub keepalive_time : Option ℤ
  pub keepalive_interval : Option ℤ
  pub keepalive_retry : Option ℤ
  pub listen_network : Option Text
  pub listen_address : Option Text

abbrev pub no_settings : Settings
no_settings = record {
  keepalive_time = none;
  keepalive_interval = none;
  keepalive_retry = none;
  listen_network = none;
  listen_address = none;
}

abbrev pub env_keepalive_time : Text
env_keepalive_time = codes "KEEPALIVE_TIME"

abbrev pub env_keepalive_interval : Text
env_keepalive_interval = codes "KEEPALIVE_INTERVAL"

abbrev pub env_keepalive_retry : Text
env_keepalive_retry = codes "KEEPALIVE_RETRY"

abbrev pub env_listen_address : Text
env_listen_address = codes "ADDRESS"

abbrev pub env_listen_net : Text
env_listen_net = codes "NETWORK"

-- The value is stored beside an error too.
abbrev pub set_number : Text → ℤ → Settings → Settings
set_number key val s =
    if text_eq key env_keepalive_time
    then record s { keepalive_time = some val }
    else (if text_eq key env_keepalive_interval
        then record s { keepalive_interval = some val }
        else record s { keepalive_retry = some val })

abbrev pub is_number : Text → Bool
is_number key =
    text_eq key env_keepalive_time
    || (text_eq key env_keepalive_interval || text_eq key env_keepalive_retry)

unfoldable pub read : Text → List Text → Go Settings (Unit {0})
unfolding atoi
read key fields =
    if is_number key
    then value_of fields >>= (λ v. modify (set_number key (atoi v).0))
    else (if text_eq key env_listen_address
        then value_of fields
          >>= (λ v. modify (λ (s : Settings). record s { listen_address = some v }))
        else (if text_eq key env_listen_net
            then value_of fields
              >>= (λ v. modify (λ (s : Settings). record s { listen_network = some v }))
            else pure tt))

unfoldable pub read_pair : List Text → Go Settings (Unit {0})
unfolding read
read_pair [] = panic
read_pair (key ∷ fields) = read key fields

unfoldable pub read_all : List Text → Go Settings (Unit {0})
unfolding read_pair
read_all [] = pure tt
read_all (e ∷ es) = read_pair (split e (codes "=")) >>= λ _. read_all es
