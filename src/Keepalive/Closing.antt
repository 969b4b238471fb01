-- ===== src/Keepalive/Closing.antt =====
-- Which events make the keepalive loop close its client, and how long it waits between them.
use coap_gateway.Prelude.{
  ◌≡◌, ◌↔◌, refl, Bool, true, false, List, [], ◌∷◌, All, arith, Bool-cases, inl, inr,
}
use coap_gateway.Prelude.Int.{pos, ◌≤ℤ◌, leb_ℤ}
use coap_gateway.Keepalive.{
  Keepalive, Event, done, elapsed, pong, timed_out, broken, running, returned, terminated, round,
  run_from, run, wait_time, waits_from,
}
use coap_gateway.Keepalive.Timeouts.{run_from-returned, run_never_terminates}

-- Whether a ping is not answered in time before a ping fails otherwise or the loop is told to stop.
abbrev pub times_out : List Event → Bool
times_out [] = false
times_out (done ∷ evs) = false
times_out (elapsed pong ∷ evs) = times_out evs
times_out (elapsed timed_out ∷ evs) = true
times_out (elapsed broken ∷ evs) = false

pub run_from-terminated :
    (k : Keepalive) (evs : List Event) → run_from k terminated evs ≡ terminated
unfolding run_from
run_from-terminated k [] = refl
run_from-terminated k (ev ∷ evs) = refl

run-impatient :
    (k : Keepalive) (evs : List Event)
    → k.retry ≤ℤ pos 1
    → (run k evs ≡ terminated) ↔ (times_out evs ≡ true)
unfolding run run_from round
run-impatient k [] h = (λ e. absurd (cc), λ e. absurd (cc))
run-impatient k (done ∷ evs) h =
    (λ e. absurd (ground (arith, run_from-returned k evs)), λ e. absurd (cc))
run-impatient k (elapsed pong ∷ evs) h = run-impatient k evs h
run-impatient k (elapsed timed_out ∷ evs) h =
    (λ e. refl, λ e. ground (arith, run_from-terminated k evs))
run-impatient k (elapsed broken ∷ evs) h =
    (λ e. absurd (ground (arith, run_from-returned k evs)), λ e. absurd (cc))

-- The loop closes its client exactly if at most one retry is configured and a ping times out before
-- the loop returns: then the first timeout closes it, and with two retries or more nothing does.
pub run_closes_iff :
    (k : Keepalive) (evs : List Event)
    → (run k evs ≡ terminated) ↔ ((k.retry ≤ℤ pos 1) × (times_out evs ≡ true))
run_closes_iff k evs = elim (Bool-cases (leb_ℤ k.retry (pos 1))) [
  | inl few ↦
      let le : k.retry ≤ℤ pos 1 = ground (arith, few) in
      let (f, g) = run-impatient k evs le in (λ e. (le, f e), λ h. g h.1)
  | inr many ↦
      let ge : pos 2 ≤ℤ k.retry = ground (arith, many) in
      (
        λ e. absurd (ground (arith, run_never_terminates k evs ge)),
        λ h. absurd (omega (arith, ge, h.0)),
      )
]

waits_from-stopped :
    (k : Keepalive) (evs : List Event)
    → (waits_from k returned evs ≡ []) × (waits_from k terminated evs ≡ [])
unfolding waits_from
waits_from-stopped k [] = (refl, refl)
waits_from-stopped k (ev ∷ evs) = (refl, refl)

-- Every wait is that of the keepalive's time: the interval between retries is never waited for.
pub waits_uniform :
    (k : Keepalive) (evs : List Event) → All (λ t. t ≡ wait_time k 0) (waits_from k (running 0) evs)
unfolding waits_from round
waits_uniform k [] = tt
waits_uniform k (done ∷ evs) = (refl, rw ((waits_from-stopped k evs).0) tt)
waits_uniform k (elapsed pong ∷ evs) = (refl, waits_uniform k evs)
waits_uniform k (elapsed broken ∷ evs) = (refl, rw ((waits_from-stopped k evs).0) tt)
waits_uniform k (elapsed timed_out ∷ evs) = elim (Bool-cases (leb_ℤ k.retry (pos 1))) [
  | inl few ↦ (refl, rw (few, (waits_from-stopped k evs).1) tt)
  | inr many ↦ (refl, rw many (waits_uniform k evs))
]
