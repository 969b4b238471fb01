-- ===== src/Boot/GatewayMain.antt =====
-- main of pkg/app/coap-interface/main.go.
pub mod Serving
use coap_gateway.Prelude.{Bool, true, false, ◌||◌, Option, none, some, List, [], ◌∷◌}
use coap_gateway.Prelude.Int.{ℤ, pos}
use coap_gateway.Prelude.Text.{Text, codes}
use coap_gateway.Go.{Go, Outcome, ret, panics, exits, blocks, pure, panic, fatal, ◌>>=◌, ◌>>◌}
use coap_gateway.Server.Tls.{Crypto}
use coap_gateway.Server.Startup.{Server, Start, started, not_started, new_server}
use coap_gateway.Boot.{
  Dbconfig, no_config, db_uri, getenv, Outside, Act, opens, pings, connects_redis, serves_http,
  serves_coap, Boot, act, fatal_if, forever,
}

-- The variables of the process that are set from the environment.
abbrev pub gateway_uri : List Text → Text
gateway_uri environ =
    db_uri (getenv environ (codes "DB_USERNAME")) (getenv environ (codes "DB_PASSWORD"))
      (getenv environ (codes "DB_URI")) (getenv environ (codes "DB_NAME"))

-- podAddr after main has set it
abbrev pub or_localhost : Text → Text
or_localhost [] = codes "localhost"
or_localhost (c ∷ ip) = c ∷ ip

abbrev pub pod_addr : List Text → Text
pod_addr environ = or_localhost (getenv environ (codes "MY_POD_IP"))

module _ (k : Crypto) (o : Outside) (environ : List Text) where
  -- NewServer, and the log.Fatal that follows its error
  unfoldable pub server_or_fatal : Outcome Start → Go Boot Server
  server_or_fatal (ret (started s)) = pure s
  server_or_fatal (ret (not_started x)) = fatal
  server_or_fatal panics = panic
  server_or_fatal exits = fatal
  server_or_fatal blocks = λ b. (blocks, b)

  -- The error of the first envconfig.Process is overwritten, and what the two have filled in is
  -- only logged. The two servers run in goroutines, and log.Fatal follows the end of each.
  unfoldable pub gateway_main : Go Boot (Unit {0})
  unfolding server_or_fatal new_server getenv
  gateway_main = do
    let dbc = (o.process (codes "db") no_config).0
    let (dbc', failed) = o.process (codes "cache") dbc
    fatal_if failed
    let uri = gateway_uri environ
    act (opens uri)
    fatal_if (o.open_fails uri)
    act (pings uri)
    fatal_if (o.ping_fails uri)
    act (
        connects_redis (getenv environ (codes "CACHE_URI"))
          (getenv environ (codes "CACHE_PASSWORD")) (pos 0))
    server ← server_or_fatal (new_server k environ)
    act (serves_http (codes ":8081"))
    act (serves_coap server (pod_addr environ))
    fatal_if (o.serving_ends (codes ":8081") || o.serving_ends server.addr)
    forever
