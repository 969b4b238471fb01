-- ===== src/Examples/Systems.antt =====
-- The theorems on the whole deployment, on the processes' start and on their requests at concrete inputs.
use coap_gateway.Prelude.{
  ℕ, zero, suc, ◌≡◌, refl, Bool, true, false, ◌&&◌, Option, some, none, List, [], ◌∷◌, arith,
  if◌then◌else◌, ◌++◌, ap, sym,
}
use coap_gateway.Prelude.Int.{pos}
use coap_gateway.Prelude.Text.{Text, codes, text_eq}
use coap_gateway.Go.Kept.{Keeps, Ends}
use coap_gateway.Map.{lookup, insert}
use coap_gateway.Keepalive as Keepalive
use coap_gateway.Keepalive.{run}
use coap_gateway.Keepalive.Stopping.{Stopped}
use coap_gateway.Registry.Preserves.{InTables}
use coap_gateway.Registry.Conserved.{Durable-Conserved}
use coap_gateway.Registry.Laws.{mysql_redis_registry-Lawful}
use coap_gateway.Registry.Owned.{init_db-Owned}
use coap_gateway.Registry.Integrity.{WellFormed, init_db-WellFormed}
use coap_gateway.Registry.Integrity.Statements.{WellFormed-Durable}
use coap_gateway.Routes.{Verb, get, post, delete, Mux, route}
use coap_gateway.Sessions.{
  opened, closed, notify, notify_all, no_sessions, add_session, remove_session,
}
use coap_gateway.Sessions.Sound.{Sound, no_sessions-Sound, add_session-Sound, notify_all-Sound}
use coap_gateway.Sessions.Goroutines.{is_signalled, goroutines_end}
use coap_gateway.Coap.Kept.{Stored}
use coap_gateway.Coap.Routes.{session, serve, serve-Keeps}
use coap_gateway.Northbound.{Post}
use coap_gateway.Northbound.Kept.{Sited}
use coap_gateway.Northbound.Routes.{provision_device_page, serve_page, serve_page-Keeps}
use coap_gateway.System.{
  Platform, Pod, new_pod, System, Happening, starts, notifies, asks_coap, asks_pod, asks_northbound,
  passes, happen_all,
}
use coap_gateway.System.Sane.{Sane, happen_all-Sane}
use coap_gateway.System.Steps.{
  forwarded, command, response_body, as_bridge, as_gateway, answers_with,
}
use coap_gateway.Coap.Session.Routing.{session_login_routes}
use coap_gateway.Coap.Gateway.{Request}
use coap_gateway.Northbound.Routing.{responded}
use coap_gateway.System.Commands.{logged_in, command_delivered}
use coap_gateway.System.Stale.{closed_device_stays}
use coap_gateway.Northbound.Routing.Answers.{post_to}
use coap_gateway.Examples.Sample.{
  calm, calm-IsCache, init_world, sample_codec, sample_account, post_request,
}
use coap_gateway.Examples.Scenario.{di}
use coap_gateway.Examples.Worlds.{token, registered_world, seconds_left}
use coap_gateway.Examples.Northbound.{database, json, request, pods}
use coap_gateway.Examples.Journeys.{answering}
use coap_gateway.Examples.Connections.{at_5683, at_5684}

-- The first key that passes a test.
abbrev pub position : {K : Type 0} → (K → Bool) → List K → Option ℕ
position p [] = none
position p (k ∷ ks) =
    if p k then some zero else (elim (position p ks) [ none ↦ none | some n ↦ some (suc n) ])

abbrev same_verb : Verb → Verb → Bool
same_verb get get = true
same_verb post post = true
same_verb delete delete = true
same_verb _ _ = false

abbrev or_position : Option ℕ → Option ℕ → Option ℕ
or_position none n = n
or_position (some m) n = some m

-- The path itself, and otherwise the pattern of a device.
abbrev sample_router : Mux (Verb × Text) (Verb × Text)
sample_router keys (verb, path) =
    or_position (position (λ k. same_verb k.0 verb && text_eq k.1 path) keys)
      (position (λ k. same_verb k.0 verb && text_eq k.1 (codes "/:deviceUUID/:href")) keys)

abbrev pub platform : Platform
platform = record {
  engine = calm;
  codec = sample_codec;
  connections = answering;
  json = json;
  network = pods;
  serve_mux = λ keys path. position (λ k. text_eq k path) keys;
  router = sample_router;
  recovers = false;
}

abbrev pod : Text
pod = codes "10.168.42.1"

abbrev first_system : System
first_system = record { world = init_world; pods = []; posts = []; answers = [] }

abbrev light : Text
light = codes "/OCF-cloud-device-test-uuid/light"

abbrev day : List Happening
day =
    starts pod
    ∷ notifies pod (opened at_5684)
    ∷ asks_coap pod (codes "oic/rd") (post_request (codes "x"))
    ∷ asks_northbound post light (request [] (codes "on"))
    ∷ notifies pod (closed at_5684)
    ∷ notifies pod (closed at_5684)
    ∷ starts pod
    ∷ []

happen_all-Sane_example : Sane platform (happen_all platform day first_system)
unfolding lookup
happen_all-Sane_example = happen_all-Sane platform day first_system (record {
  schema = init_db-WellFormed calm;
  tokens = init_db-Owned;
  sessions = λ a p e. absurd (cc);
})

abbrev pub running : System
running = record { world = registered_world; pods = (pod, new_pod) ∷ []; posts = []; answers = [] }

-- All requests in this run are for the light.
abbrev arrival : Post → Happening
arrival p = asks_pod pod post light (request [] p.body)

abbrev login : Request
login = post_request (1 ∷ token 10)

-- What this network gives back is what the process writes: the answer of the device.
answer_comes_back :
    pods 0 (post_to pod (request [] (codes "on")))
    ≡ responded
        (response_body answering
          (as_bridge (
            logged_in platform calm-IsCache pod
              (codes "oic/sec/session")
              login
              running
              new_pod
              (sample_account 1 (token 10))
              (pos 6000)
              60
              post
              light
              (request [] (codes "on"))
              (codes "on")
              arrival))
          (forwarded (request [] (codes "on"))))
        false
answer_comes_back =
    let (o, sent, routed, found) =
      session_login_routes sample_codec calm calm-IsCache pod login
        (as_gateway registered_world new_pod) (sample_account 1 (token 10)) (pos 6000) (λ n. refl)
        (λ n. refl) (λ a. refl) refl refl refl seconds_left in
    ap (λ b. responded b false)
      (sym (answers_with platform pod (request [] (codes "on")) _ 7 (codes "on") routed refl refl))

command_delivered_example :
    let s' =
      happen_all platform
        (asks_coap pod (codes "oic/sec/session") (post_request (1 ∷ token 10))
          ∷ passes 60
          ∷ asks_northbound post light (request [] (codes "on"))
          ∷ arrival (post_to pod (request [] (codes "on")))
          ∷ [])
        running in
    (s'.posts ≡ post_to pod (request [] (codes "on")) ∷ [])
    × (s'.answers ≡ (200, codes "on") ∷ [])
    × ((p' : Pod) × (lookup pod s'.pods ≡ some p')
        × (p'.exchanges ≡ command 7 (request [] (codes "on")) ∷ []))
unfolding lookup route text_eq
command_delivered_example =
    command_delivered platform calm-IsCache pod (codes "oic/sec/session")
      (post_request (1 ∷ token 10)) running new_pod (sample_account 1 (token 10)) (pos 6000) 60 post
      light (request [] (codes "on")) (codes "on") arrival (λ n. refl) (λ n. refl) (λ a. refl) refl
      refl refl refl refl seconds_left (omega arith) refl refl refl refl refl answer_comes_back refl
      refl

-- A gateway process with one connection, over which the device has logged in.
abbrev connected : Pod
connected = record new_pod { devices = (di, 2) ∷ []; container = add_session at_5684 no_sessions }

closed_device_stays_example :
    let s' =
      happen_all platform
        (notifies pod (closed at_5684)
          ∷ asks_pod pod post light (forwarded (request [] (codes "on")))
          ∷ [])
        (record running { pods = (pod, connected) ∷ [] }) in
    (p' : Pod) × (lookup pod s'.pods ≡ some p')
    × (p'.exchanges ≡ command 2 (request [] (codes "on")) ∷ [])
    × (lookup di p'.devices ≡ some 2)
    × (lookup at_5684.local_addr p'.container.sessions ≡ none)
unfolding lookup route text_eq add_session insert
closed_device_stays_example =
    closed_device_stays platform pod (record running { pods = (pod, connected) ∷ [] }) connected
      at_5684 (record { client = at_5684; keepalive = 0 }) 2 post light (request [] (codes "on"))
      refl (add_session-Sound at_5684 no_sessions no_sessions-Sound) refl refl refl refl

serve-Keeps_example :
    Keeps false
      (Stored (InTables (WellFormed calm)))
      (serve sample_codec database pod session (post_request (1 ∷ token 10)))
serve-Keeps_example =
    serve-Keeps sample_codec database pod (InTables (WellFormed calm))
      (mysql_redis_registry-Lawful calm (WellFormed calm)
        (Durable-Conserved calm (WellFormed-Durable calm)))
      session (post_request (1 ∷ token 10))

serve_page-Keeps_example :
    Keeps false
      (Sited (InTables (WellFormed calm)))
      (serve_page json pods database provision_device_page (request (token 2) (codes "x")))
serve_page-Keeps_example =
    serve_page-Keeps json pods database (InTables (WellFormed calm))
      (mysql_redis_registry-Lawful calm (WellFormed calm)
        (Durable-Conserved calm (WellFormed-Durable calm)))
      (λ n p e. absurd (cc)) provision_device_page (request (token 2) (codes "x"))

notify_all-Sound_example :
    Ends false (notify_all (opened at_5683 ∷ closed at_5683 ∷ closed at_5683 ∷ []) no_sessions).0
    × Sound (notify_all (opened at_5683 ∷ closed at_5683 ∷ closed at_5683 ∷ []) no_sessions).1
notify_all-Sound_example =
    notify_all-Sound (opened at_5683 ∷ closed at_5683 ∷ closed at_5683 ∷ []) no_sessions
      no_sessions-Sound

goroutines_end_example :
    (is_signalled
        (notify_all
          (opened at_5683 ∷ opened at_5684 ∷ closed at_5684 ∷ closed at_5683 ∷ [])
          no_sessions).1
        1
      ≡ true)
    × ((k : Keepalive.Keepalive) (before after : List Keepalive.Event)
        → Stopped (run k (before ++ Keepalive.done ∷ after)))
unfolding text_eq notify_all notify remove_session lookup add_session insert
goroutines_end_example =
    goroutines_end (opened at_5683 ∷ opened at_5684 ∷ closed at_5684 ∷ closed at_5683 ∷ [])
      (refl, (refl, (refl, (refl, tt)))) refl 1 (omega arith)
