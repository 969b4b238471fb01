-- ===== src/System/Conserved.antt =====
-- What the deployment makes of the tables, whatever happens to it.
use coap_gateway.Prelude.{Option, none, some, List, [], ◌∷◌}
use coap_gateway.Prelude.Text.{Text}
use coap_gateway.Map.{lookup}
use coap_gateway.Registry.Interface.{mysql_redis_registry}
use coap_gateway.Registry.Schema.{Database}
use coap_gateway.Registry.Conserved.{Conserved}
use coap_gateway.Registry.Preserves.{InTables}
use coap_gateway.Registry.Laws.{mysql_redis_registry-Lawful}
use coap_gateway.Http as Http
use coap_gateway.Coap.Gateway.{Request}
use coap_gateway.Coap.Routes.{Resource, serve-Keeps}
use coap_gateway.Coap.Routes as Coap
use coap_gateway.Northbound.Routes as Northbound
use coap_gateway.System.{
  Platform, Pod, System, Happening, starts, notifies, asks_coap, asks_pod, asks_northbound, passes,
  notified, served, served_page, served_northbound, at_pod, happen, happen_all,
}

-- A property of the tables that every call of the registry keeps.
module _ (t : Platform) (P : Database → Type 0) (law : Conserved t.engine P) where
  at_pod-Conserved :
      (o : Option Pod) (f : Pod → System → System) (s : System)
      → ((p : Pod) → P (f p s).world.db)
      → P s.world.db
      → P (at_pod t o f s).world.db
  unfolding at_pod
  at_pod-Conserved none f s k h = h
  at_pod-Conserved (some p) f s k h = k p

  served-Conserved :
      (a : Text) (o : Option Resource) (r : Request) (p : Pod) (s : System)
      → P s.world.db
      → P (served t a o r p s).world.db
  unfolding served
  served-Conserved a none r p s h = h
  served-Conserved a (some res) r p s h =
      (serve-Keeps t.codec (mysql_redis_registry t.engine) a (InTables P)
          (mysql_redis_registry-Lawful t.engine P law) res r).after
        _ h

  served_page-Conserved :
      (a : Text) (o : Option Coap.Page) (r : Http.Request) (p : Pod) (s : System)
      → P s.world.db
      → P (served_page t a o r p s).world.db
  unfolding served_page
  served_page-Conserved a none r p s h = h
  served_page-Conserved a (some page) r p s h = h

  served_northbound-Conserved :
      (o : Option Northbound.Page) (r : Http.Request) (s : System)
      → P s.world.db
      → P (served_northbound t o r s).world.db
  unfolding served_northbound
  served_northbound-Conserved none r s h = h
  served_northbound-Conserved (some page) r s h =
      (Northbound.serve_page-Stays t.json t.network (mysql_redis_registry t.engine) (InTables P)
          (mysql_redis_registry-Lawful t.engine P law) page r).after
        _ h

  pub happen-Conserved : (x : Happening) (s : System) → P s.world.db → P (happen t x s).world.db
  unfolding happen notified
  happen-Conserved (starts a) s h = h
  happen-Conserved (notifies a ev) s h =
      at_pod-Conserved (lookup a s.pods) (notified t a ev) s (λ p. h) h
  happen-Conserved (asks_coap a path r) s h =
      at_pod-Conserved (lookup a s.pods) (served t a _ r) s (λ p. served-Conserved a _ r p s h) h
  happen-Conserved (asks_pod a verb path r) s h =
      at_pod-Conserved (lookup a s.pods) (served_page t a _ r) s
        (λ p. served_page-Conserved a _ r p s h) h
  happen-Conserved (asks_northbound verb path r) s h = served_northbound-Conserved _ r s h
  happen-Conserved (passes n) s h = h

  -- Whatever happens to the deployment, a property of the tables that every call of the registry
  -- keeps holds in the end if it held in the beginning.
  pub happen_all-Conserved :
      (xs : List Happening) (s : System) → P s.world.db → P (happen_all t xs s).world.db
  unfolding happen_all
  happen_all-Conserved [] s h = h
  happen_all-Conserved (x ∷ xs) s h =
      happen_all-Conserved xs (happen t x s) (happen-Conserved x s h)
