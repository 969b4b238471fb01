-- ===== src/Keepalive/Timeouts.antt =====
-- When the keepalive loop closes its client.
use coap_gateway.Prelude.{◌≡◌, refl, ◌⊎◌, inl, inr, List, [], ◌∷◌, arith}
use coap_gateway.Prelude.Int.{pos, ◌≤ℤ◌}
use coap_gateway.Keepalive.{Keepalive, Event, running, returned, round, run_from, run}

round_patient :
    (k : Keepalive) (ev : Event)
    → pos 2 ≤ℤ k.retry
    → (round k 0 ev ≡ running 0) ⊎ (round k 0 ev ≡ returned)
unfolding round
round_patient k ev h = ground arith

pub run_from-returned : (k : Keepalive) (evs : List Event) → run_from k returned evs ≡ returned
unfolding run_from
run_from-returned k [] = refl
run_from-returned k (ev ∷ evs) = refl

-- If at least two retries are configured, then whatever the pings answer and however long it
-- goes on, the loop either still runs with its count of timeouts at zero or has returned on the
-- done signal or a broken connection: it never closes the client.
pub run_never_terminates :
    (k : Keepalive) (evs : List Event)
    → pos 2 ≤ℤ k.retry
    → (run k evs ≡ running 0) ⊎ (run k evs ≡ returned)
unfolding run run_from
run_never_terminates k [] h = inl refl
run_never_terminates k (ev ∷ evs) h = elim (round_patient k ev h) [
  | inl e ↦ rw (e, run_from) (run_never_terminates k evs h)
  | inr e ↦ rw (e, run_from) (inr (run_from-returned k evs))
]
