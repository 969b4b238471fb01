-- ===== src/Boot/NorthboundMain.antt =====
-- main of cmd/northbound-interface/handlers.go.
pub mod Refusal
use coap_gateway.Prelude.{ℕ, Bool, true, false, List, [], ◌∷◌}
use coap_gateway.Prelude.Text.{Text, codes}
use coap_gateway.Go.{Go, Outcome, ret, pure, ◌>>=◌, ◌>>◌}
use coap_gateway.Registry.Catalog.{Catalog, init_tables}
use coap_gateway.Boot.{
  Dbconfig, no_config, db_uri, Outside, Act, opens, pings, connects_redis, serves_http, Boot, act,
  fatal_if, forever,
}

unfoldable pub with_catalog {ℓ} : {A : Type ℓ} → Go Catalog A → Go Boot A
with_catalog m b = ((m b.catalog).0, record b { catalog = (m b.catalog).1 })

-- The data source of a configuration.
abbrev pub uri_of : Dbconfig → Text
uri_of c = db_uri c.db_username c.db_password c.db_address c.db_name

-- The configuration after the two calls of envconfig.Process, and the error of the second one.
abbrev pub processed : Outside → Dbconfig × Bool
processed o = o.process (codes "cache") (o.process (codes "db") no_config).0

module _ (o : Outside) (fault : ℕ → Bool) where
  -- InitDB returns nil where it returns.
  unfoldable pub main_with : Dbconfig × Bool → Go Boot (Unit {0})
  unfolding with_catalog init_tables
  main_with (dbc, failed) = do
    fatal_if failed
    act (opens (uri_of dbc))
    fatal_if (o.open_fails (uri_of dbc))
    act (connects_redis dbc.redis_address dbc.redis_password dbc.redis_number)
    act (pings (uri_of dbc))
    fatal_if (o.ping_fails (uri_of dbc))
    with_catalog (init_tables fault)
    act (serves_http (codes ":8080"))
    fatal_if (o.serving_ends (codes ":8080"))
    forever

  unfoldable pub northbound_main : Go Boot (Unit {0})
  unfolding main_with
  northbound_main = main_with (processed o)
