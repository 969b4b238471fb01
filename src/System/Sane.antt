-- ===== src/System/Sane.antt =====
-- What holds in the deployment whatever happens to it.
use coap_gateway.Prelude.{
  ◌≡◌, refl, Bool, true, false, Option, none, some, List, [], ◌∷◌, Bool-cases, inl, inr, arith,
}
use coap_gateway.Prelude.Text.{Text, text_eq}
use coap_gateway.Go.{Outcome, ret, panics, exits, blocks}
use coap_gateway.Map.{Map, lookup, insert, delete, lookup-insert, lookup-delete}
use coap_gateway.Registry.Integrity.{WellFormed}
use coap_gateway.Registry.Owned.{Owned}
use coap_gateway.Registry.Owned.Calls.{Owned-Conserved}
use coap_gateway.Registry.Integrity.Statements.{WellFormed-Durable}
use coap_gateway.Registry.Conserved.{Durable-Conserved}
use coap_gateway.System.Conserved.{happen_all-Conserved}
use coap_gateway.Sessions.{Event, notify}
use coap_gateway.Sessions.Sound.{Sound, no_sessions-Sound, notify-Sound}
use coap_gateway.Http as Http
use coap_gateway.Coap.Gateway.{Request}
use coap_gateway.Coap.Routes.{Resource, serve-Keeps}
use coap_gateway.Coap.Routes as Coap
use coap_gateway.Northbound.Routes as Northbound
use coap_gateway.System.{
  Platform, Pod, new_pod, System, Happening, starts, notifies, asks_coap, asks_pod, asks_northbound,
  passes, survivors, notified, served, served_page, served_northbound, at_pod, happen, happen_all,
}

-- The pods' containers of sessions.
abbrev pub AllSound : Map Pod → Type 0
AllSound pods = (a : Text) (p : Pod) → lookup a pods ≡ some p → Sound p.container

insert-AllSound :
    (a : Text) (p : Pod) (pods : Map Pod)
    → Sound p.container
    → AllSound pods
    → AllSound (insert a p pods)
insert-AllSound a p pods s h b q e = elim (Bool-cases (text_eq a b)) [
  | inl same ↦ let eq : q ≡ p = ground (arith, e, same, lookup-insert a b p pods) in rw eq s
  | inr other ↦ h b q (ground (arith, e, other, lookup-insert a b p pods))
]

delete-AllSound : (a : Text) (pods : Map Pod) → AllSound pods → AllSound (delete a pods)
delete-AllSound a pods h b q e = h b q (ground (arith, e, lookup-delete a b pods))

survivors-AllSound {ℓ} :
    {A : Type ℓ} (recovers : Bool) (a : Text) (o : Outcome A) (p : Pod) (pods : Map Pod)
    → Sound p.container
    → AllSound pods
    → AllSound (survivors recovers a o p pods)
unfolding survivors
survivors-AllSound recovers a (ret x) p pods s h = insert-AllSound a p pods s h
survivors-AllSound true a panics p pods s h = insert-AllSound a p pods s h
survivors-AllSound false a panics p pods s h = delete-AllSound a pods h
survivors-AllSound recovers a exits p pods s h = delete-AllSound a pods h
survivors-AllSound recovers a blocks p pods s h = insert-AllSound a p pods s h

module _ (t : Platform) where
  pub record Sane (s : System) : Type 0 where
    pub schema : WellFormed t.engine s.world.db
    pub tokens : Owned s.world.db
    pub sessions : AllSound s.pods

  -- What is done at an address is done to a pod with a sound container.
  at_pod-AllSound :
      (o : Option Pod) (f : Pod → System → System) (s : System)
      → ((p : Pod) → o ≡ some p → AllSound (f p s).pods)
      → AllSound s.pods
      → AllSound (at_pod t o f s).pods
  unfolding at_pod
  at_pod-AllSound none f s k h = h
  at_pod-AllSound (some p) f s k h = k p refl

  notified-AllSound :
      (a : Text) (ev : Event) (p : Pod) (s : System)
      → Sound p.container
      → AllSound s.pods
      → AllSound (notified t a ev p s).pods
  unfolding notified
  notified-AllSound a ev p s k h =
      let (done, c) = notify-Sound ev p.container k in
      survivors-AllSound t.recovers a (notify ev p.container).0 _ s.pods c h

  served-AllSound :
      (a : Text) (o : Option Resource) (r : Request) (p : Pod) (s : System)
      → Sound p.container
      → AllSound s.pods
      → AllSound (served t a o r p s).pods
  unfolding served
  served-AllSound a none r p s k h = h
  served-AllSound a (some res) r p s k h = survivors-AllSound t.recovers a _ _ s.pods k h

  served_page-AllSound :
      (a : Text) (o : Option Coap.Page) (r : Http.Request) (p : Pod) (s : System)
      → Sound p.container
      → AllSound s.pods
      → AllSound (served_page t a o r p s).pods
  unfolding served_page
  served_page-AllSound a none r p s k h = h
  served_page-AllSound a (some page) r p s k h = survivors-AllSound true a _ _ s.pods k h

  served_northbound-pods :
      (o : Option Northbound.Page) (r : Http.Request) (s : System)
      → (served_northbound t o r s).pods ≡ s.pods
  unfolding served_northbound
  served_northbound-pods none r s = refl
  served_northbound-pods (some page) r s = refl

  happen-AllSound : (x : Happening) (s : System) → AllSound s.pods → AllSound (happen t x s).pods
  unfolding happen
  happen-AllSound (starts a) s h = insert-AllSound a new_pod s.pods no_sessions-Sound h
  happen-AllSound (notifies a ev) s h =
      at_pod-AllSound (lookup a s.pods) (notified t a ev) s
        (λ p e. notified-AllSound a ev p s (h a p e) h) h
  happen-AllSound (asks_coap a path r) s h =
      at_pod-AllSound (lookup a s.pods) (served t a _ r) s
        (λ p e. served-AllSound a _ r p s (h a p e) h) h
  happen-AllSound (asks_pod a verb path r) s h =
      at_pod-AllSound (lookup a s.pods) (served_page t a _ r) s
        (λ p e. served_page-AllSound a _ r p s (h a p e) h) h
  happen-AllSound (asks_northbound verb path r) s h = rw (served_northbound-pods _ r s) h
  happen-AllSound (passes n) s h = h

  happen_all-AllSound :
      (xs : List Happening) (s : System) → AllSound s.pods → AllSound (happen_all t xs s).pods
  unfolding happen_all
  happen_all-AllSound [] s h = h
  happen_all-AllSound (x ∷ xs) s h = happen_all-AllSound xs (happen t x s) (happen-AllSound x s h)

  -- Whatever happens to the deployment, in whatever order: gateway processes start, die of a log.Fatal
  -- or of a panic and start again, connections open and close at any addresses, requests of any
  -- kind come to any process, the servers fail at any call: if it was so in the beginning, the tables
  -- satisfy the constraints of the schema, each token is referred to by one device or client at
  -- most and a key that is still to be given by none, and in every gateway process each session has
  -- a keepalive of its own, which has been started and has not been told to stop, and only started
  -- keepalives have been told to.
  pub happen_all-Sane : (xs : List Happening) (s : System) → Sane s → Sane (happen_all t xs s)
  happen_all-Sane xs s h = record {
    schema =
        happen_all-Conserved t (WellFormed t.engine)
          (Durable-Conserved t.engine (WellFormed-Durable t.engine)) xs s h.schema;
    tokens = happen_all-Conserved t Owned (Owned-Conserved t.engine) xs s h.tokens;
    sessions = happen_all-AllSound xs s h.sessions;
  }
