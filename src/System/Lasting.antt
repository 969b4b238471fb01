-- ===== src/System/Lasting.antt =====
-- What no request takes away.
use coap_gateway.Prelude.{Bool, List}
use coap_gateway.Registry.Schema.{User, Mediator}
use coap_gateway.Registry.Writes.Lasting.{Lasting, Lasting-Durable}
use coap_gateway.System.{Platform, System, Happening, happen_all}
use coap_gateway.Registry.Conserved.{Durable-Conserved}
use coap_gateway.System.Conserved.{happen_all-Conserved}

-- Whatever happens to the deployment, whatever requests come to it and whatever fails, a user that
-- there is, whatever its columns are, and a mediator that there is stay as they are: no request
-- changes or removes one.
pub happen_all-Lasting :
    (t : Platform) (p : User → Bool) (q : Mediator → Bool) (xs : List Happening) (s : System)
    → Lasting p q s.world.db
    → Lasting p q (happen_all t xs s).world.db
happen_all-Lasting t p q xs s h =
    happen_all-Conserved t (Lasting p q) (Durable-Conserved t.engine (Lasting-Durable t.engine p q))
      xs s h
