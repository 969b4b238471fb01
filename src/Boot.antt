-- ===== src/Boot.antt =====
-- What the main functions of pkg/app/coap-interface/main.go and cmd/northbound-interface/handlers.go
-- have in common: the configuration, and the calls that they make while they start. envconfig, the
-- MySQL driver and the listeners are parameters.
pub mod GatewayMain
pub mod NorthboundMain
use coap_gateway.Prelude.{ℕ, Bool, true, false, Option, none, some, List, [], ◌∷◌, ◌++◌, ◌==◌}
use coap_gateway.Prelude.Int.{ℤ, pos}
use coap_gateway.Prelude.Text.{Text, codes}
use coap_gateway.Go.{Go, ret, pure, fatal, blocks}
use coap_gateway.Registry.Catalog.{TableName, Catalog}
use coap_gateway.Server.Startup.{Server}

-- type dbconfig; none of its fields is exported
pub record Dbconfig : Type 0 where
  pub db_name : Text
  pub db_username : Text
  pub db_password : Text
  pub db_address : Text
  pub redis_password : Text
  pub redis_address : Text
  pub redis_number : ℤ

-- var dbc dbconfig
abbrev pub no_config : Dbconfig
no_config = record {
  db_name = [];
  db_username = [];
  db_password = [];
  db_address = [];
  redis_password = [];
  redis_address = [];
  redis_number = pos 0;
}

-- Sprintf("%s:%s%s%s?parseTime=true", username, password, address, name)
abbrev pub db_uri : Text → Text → Text → Text → Text
db_uri username password address name =
    username ++ codes ":" ++ password ++ address ++ name ++ codes "?parseTime=true"

-- The entry without the key and the equals sign, if it starts with them.
unfoldable pub value_for : Text → Text → Option Text
value_for [] [] = none
value_for [] (c ∷ entry) = elim (c == b'=') [ true ↦ some entry | false ↦ none ]
value_for (k ∷ key) [] = none
value_for (k ∷ key) (c ∷ entry) = elim (k == c) [ true ↦ value_for key entry | false ↦ none ]

-- os.Getenv: the first entry counts, and the value of a missing key is empty.
unfoldable pub getenv : List Text → Text → Text
getenv [] key = []
getenv (e ∷ es) key = elim (value_for key e) [ none ↦ getenv es key | some v ↦ v ]

-- What envconfig.Process fills in for a prefix, and whether there is an error; whether sql.Open and
-- Ping fail for a data source, and whether ListenAndServe of an address ever returns.
pub record Outside : Type 0 where
  pub process : Text → Dbconfig → Dbconfig × Bool
  pub open_fails : Text → Bool
  pub ping_fails : Text → Bool
  pub serving_ends : Text → Bool

-- A call of a main function: sql.Open, Ping, redis.NewClient, http.ListenAndServe, and
-- coap.Server.ListenAndServe with the address of the pod.
pub data Act : Type 0 where
  opens pings : Text → Act
  connects_redis : Text → Text → ℤ → Act
  serves_http : Text → Act
  serves_coap : Server → Text → Act

-- The calls so far, the last one first, and the catalog of the database.
pub record Boot : Type 0 where
  pub acts : List Act
  pub catalog : Catalog

unfoldable pub act : Act → Go Boot (Unit {0})
act a b = (ret tt, record b { acts = a ∷ b.acts })

-- `if err != nil { log.Fatal(…) }`
unfoldable pub fatal_if : Bool → Go Boot (Unit {0})
fatal_if true = fatal
fatal_if false = pure tt

-- select {}, and a ListenAndServe that never returns
unfoldable pub forever : Go Boot (Unit {0})
forever b = (blocks, b)
