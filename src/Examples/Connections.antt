-- ===== src/Examples/Connections.antt =====
-- The theorems on the sessions' container at concrete inputs.
use coap_gateway.Prelude.{◌≡◌, refl, none, [], ◌∷◌}
use coap_gateway.Prelude.Text.{codes, text_eq}
use coap_gateway.Go.{ret, panics}
use coap_gateway.Map.{lookup}
use coap_gateway.Sessions.{Client, opened, closed, notify_all, no_sessions}
use coap_gateway.Sessions.Tracking.{Tracks, notify_all-Tracks, no_sessions-Tracks}
use coap_gateway.Sessions.Clashes.{notify_all-clash}

abbrev pub at_5683 : Client
at_5683 = record { name = 1; local_addr = codes "[::]:5683" }

abbrev pub at_5684 : Client
at_5684 = record { name = 2; local_addr = codes "[::]:5684" }

abbrev neighbour : Client
neighbour = record { name = 3; local_addr = codes "[::]:5684" }

notify_all-Tracks_example :
    ((notify_all (opened at_5683 ∷ opened at_5684 ∷ closed at_5683 ∷ []) no_sessions).0 ≡ ret tt)
    × Tracks
        (codes "[::]:5684" ∷ [])
        (notify_all (opened at_5683 ∷ opened at_5684 ∷ closed at_5683 ∷ []) no_sessions).1
unfolding text_eq
notify_all-Tracks_example =
    notify_all-Tracks (opened at_5683 ∷ opened at_5684 ∷ closed at_5683 ∷ []) [] no_sessions
      no_sessions-Tracks (refl, (refl, (refl, tt)))

notify_all-clash_example :
    ((notify_all (opened at_5684 ∷ opened neighbour ∷ closed at_5684 ∷ []) no_sessions).1.signalled
      ≡ 1 ∷ [])
    × (lookup
          (codes "[::]:5684")
          (notify_all
            (opened at_5684 ∷ opened neighbour ∷ closed at_5684 ∷ [])
            no_sessions).1.sessions
        ≡ none)
    × ((notify_all
          (opened at_5684 ∷ opened neighbour ∷ closed at_5684 ∷ closed neighbour ∷ [])
          no_sessions).0
        ≡ panics)
notify_all-clash_example = notify_all-clash no_sessions at_5684 neighbour refl refl
