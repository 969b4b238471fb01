-- ===== src/Examples/Boots.antt =====
-- The theorems on the start of the processes at concrete inputs.
use coap_gateway.Prelude.{
  ℕ, ◌≡◌, refl, Bool, true, false, not, List, [], ◌∷◌, any, ◌==◌, inr, ◌⊎◌, arith, ◌↔◌,
}
use coap_gateway.Prelude.Text.{Text, codes, text_eq}
use coap_gateway.Go.{ret, exits, blocks, ◌>>=◌}
use coap_gateway.Registry.Catalog.{
  Catalog, user_table, mediator_table, token_table, client_table, device_table, exists_in,
  init_tables,
}
use coap_gateway.Registry.Catalog.Closed.{Closed, init_tables-Closed}
use coap_gateway.Registry.Catalog.Complete.{init_tables-quiet}
use coap_gateway.Boot.{Outside, Boot, getenv, value_for}
use coap_gateway.Boot.NorthboundMain.{northbound_main}
use coap_gateway.Boot.NorthboundMain.Refusal.{IsOutside, Refused, northbound_exits}
use coap_gateway.Boot.GatewayMain.{gateway_uri, gateway_main}
use coap_gateway.Boot.GatewayMain.Serving.{Serves, serving_acts, gateway_main-Serves}
use coap_gateway.Server.Startup.{Server, server_of, new_server}
use coap_gateway.Server.Variables.{no_settings}
use coap_gateway.Http.Strings.{contains, split_from}
use coap_gateway.Examples.Servers.{crypto}

abbrev no_tables : Catalog
no_tables = record { tables = []; calls = 0 }

-- The third call of InitDB fails, in which the mediator table is created.
abbrev third_fails : ℕ → Bool
third_fails i = i == 2

init_tables-Closed_example :
    Closed (init_tables third_fails no_tables).1
    × ((((init_tables third_fails no_tables).0 ≡ ret tt)
          × (exists_in (init_tables third_fails no_tables).1.tables user_table ≡ true)
          × (exists_in (init_tables third_fails no_tables).1.tables mediator_table ≡ true))
        ⊎ ((init_tables third_fails no_tables).0 ≡ exits))
init_tables-Closed_example = init_tables-Closed third_fails no_tables (λ n h. absurd (cc))

all_tables : init_tables (λ i. false) (record { tables = user_table ∷ []; calls = 0 }) ≡ (
  ret tt,
  record {
    tables = device_table ∷ client_table ∷ token_table ∷ mediator_table ∷ user_table ∷ [];
    calls = 6;
  },
)
all_tables = init_tables-quiet (record { tables = user_table ∷ []; calls = 0 })

-- envconfig fills in nothing, and a data source needs a slash.
abbrev outside : Outside
outside = record {
  process = λ prefix c. (c, false);
  open_fails = λ uri. false;
  ping_fails = λ uri. not (any (λ c. c == b'/') uri);
  serving_ends = λ addr. false;
}

outside-IsOutside : IsOutside outside
outside-IsOutside = record {
  unexported = λ prefix c. refl;
  dsn_slash = λ uri h. inr (ground (arith, h));
}

abbrev boot : Boot
boot = record { acts = []; catalog = no_tables }

northbound_exits_example :
    ((northbound_main outside third_fails boot).0 ≡ exits)
    × Refused boot (northbound_main outside third_fails boot).1
northbound_exits_example = northbound_exits outside outside-IsOutside third_fails boot

abbrev environ : List Text
environ = codes "DB_USERNAME=ocf" ∷ codes "DB_URI=@tcp(db4free.net)/" ∷ codes "DB_NAME=dev" ∷ []

uri_of_environ : gateway_uri environ ≡ codes "ocf:@tcp(db4free.net)/dev?parseTime=true"
unfolding getenv value_for
uri_of_environ = refl

abbrev server : Server
server = server_of no_settings

gateway_main-Serves_example :
    (gateway_main crypto outside environ boot
      ≡ (blocks, record boot { acts = serving_acts crypto outside environ boot server }))
    ↔ Serves crypto outside environ boot server
gateway_main-Serves_example = gateway_main-Serves crypto outside environ boot server

starts_serving : Serves crypto outside environ boot server
unfolding new_server getenv value_for contains split_from text_eq ◌>>=◌
starts_serving = (refl, refl, refl, refl, refl, refl)
