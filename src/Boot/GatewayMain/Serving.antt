-- ===== src/Boot/GatewayMain/Serving.antt =====
-- When a gateway process serves, and with which configuration.
use coap_gateway.Prelude.{◌≡◌, ◌↔◌, refl, sym, ap, ◌∙◌, false, List, [], ◌∷◌, ◌++◌, arith}
use coap_gateway.Prelude.Int.{pos}
use coap_gateway.Prelude.Text.{Text, codes}
use coap_gateway.Go.{Outcome, ret, panics, exits, blocks, ◌>>=◌}
use coap_gateway.Go.Kept.{Ends}
use coap_gateway.Server.Tls.{Crypto}
use coap_gateway.Server.Startup.{Server, Start, started, not_started, new_server}
use coap_gateway.Server.Ending.{new_server-Ends}
use coap_gateway.Boot.{
  no_config, getenv, Outside, Act, opens, pings, connects_redis, serves_http, serves_coap, Boot,
  act, fatal_if, forever,
}
use coap_gateway.Boot.GatewayMain.{server_or_fatal, gateway_main}

-- "username:password", the address, the name and "?parseTime=true", of the environment.
abbrev pub data_source : List Text → Text
data_source environ =
    getenv environ (codes "DB_USERNAME")
    ++ codes ":"
    ++ getenv environ (codes "DB_PASSWORD")
    ++ getenv environ (codes "DB_URI")
    ++ getenv environ (codes "DB_NAME")
    ++ codes "?parseTime=true"

abbrev pub own_address : Text → Text
own_address [] = codes "localhost"
own_address (c ∷ ip) = c ∷ ip

module _ (k : Crypto) (o : Outside) (environ : List Text) (b : Boot) where
  -- The last call of envconfig.Process has no error, the database can be opened and reached, the
  -- server's settings are good, and no listener ends.
  abbrev pub Serves : Server → Type 0
  Serves server =
      ((o.process (codes "cache") (o.process (codes "db") no_config).0).1 ≡ false)
      × (o.open_fails (data_source environ) ≡ false)
      × (o.ping_fails (data_source environ) ≡ false)
      × (new_server k environ ≡ ret (started server))
      × (o.serving_ends (codes ":8081") ≡ false)
      × (o.serving_ends server.addr ≡ false)

  -- The calls of the process, the last one first.
  abbrev pub serving_acts : Server → List Act
  serving_acts server =
      serves_coap server (own_address (getenv environ (codes "MY_POD_IP")))
      ∷ serves_http (codes ":8081")
      ∷ connects_redis (getenv environ (codes "CACHE_URI"))
          (getenv environ (codes "CACHE_PASSWORD")) (pos 0)
      ∷ pings (data_source environ)
      ∷ opens (data_source environ)
      ∷ b.acts

  Serves-gateway_main :
      (server : Server)
      → Serves server
      → gateway_main k o environ b ≡ (blocks, record b { acts = serving_acts server })
  unfolding gateway_main act fatal_if forever server_or_fatal ◌>>=◌
  Serves-gateway_main server (p, q, r, s, u, v) = rw (p, q, r, s, u, v) refl

  serving_server :
      (out : Outcome Start)
      → new_server k environ ≡ out
      → Ends false out
      → (gateway_main k o environ b).0 ≡ blocks
      → (server : Server) × Serves server
  unfolding gateway_main act fatal_if forever server_or_fatal ◌>>=◌
  serving_server (ret (started server)) e n h = (server, ground (arith, e, h))
  serving_server (ret (not_started x)) e n h = absurd (ground (arith, e, h))
  serving_server panics e n h = absurd (ground (arith, e, h))
  serving_server exits e n h = absurd (cc)
  serving_server blocks e n h = absurd n

  -- A last call names the server.
  same_server : (s t : Server) → serving_acts s ≡ serving_acts t → s ≡ t
  same_server s t e = ground (arith, e)

  -- main of the gateway serves for ever with a server exactly if the last envconfig.Process has no
  -- error, the database at DB_URI with the user DB_USERNAME, the password DB_PASSWORD and the name
  -- DB_NAME can be opened and pinged, NewServer returns
  -- that server, and no listener ends. It has then opened and pinged that database, connected to the
  -- Redis at CACHE_URI with CACHE_PASSWORD, and serves HTTP at :8081 and CoAP with the server, for the
  -- pod of MY_POD_IP, or localhost where this is empty.
  pub gateway_main-Serves :
      (server : Server)
      → (gateway_main k o environ b ≡ (blocks, record b { acts = serving_acts server }))
        ↔ Serves server
  gateway_main-Serves server = (
    λ e.
        let (t, h) =
          serving_server (new_server k environ) refl (new_server-Ends k environ)
            (ap (λ r. r.0) e) in
        let same : t ≡ server =
          same_server t server (
            ap (λ (r : Outcome (Unit {0}) × Boot). r.1.acts) (sym (Serves-gateway_main t h) ∙ e)) in
        rw (← same) h,
    Serves-gateway_main server,
  )
