-- ===== src/Keepalive/Stopping.antt =====
-- The end of the keepalive goroutine.
use coap_gateway.Prelude.{ℕ, ◌+◌, ◌≡◌, ◌≢◌, List, [], ◌∷◌, ◌++◌, Bool-cases, inl, inr, arith}
use coap_gateway.Prelude.Int.{pos, leb_ℤ}
use coap_gateway.Keepalive.{
  Keepalive, Event, Phase, done, elapsed, pong, timed_out, broken, running, terminated, round,
  run_from, run,
}
use coap_gateway.Keepalive.Timeouts.{run_from-returned}
use coap_gateway.Keepalive.Closing.{run_from-terminated}

-- The loop has been left.
abbrev pub Stopped : Phase → Type 0
Stopped p = (n : ℕ) → p ≢ running n

run_from-Stopped :
    (k : Keepalive) (n : ℕ) (before after : List Event)
    → Stopped (run_from k (running n) (before ++ done ∷ after))
unfolding run_from round
run_from-Stopped k n [] after = λ m. rw (run_from-returned k after) (λ e. absurd (cc))
run_from-Stopped k n (done ∷ evs) after =
    λ m. rw (run_from-returned k (evs ++ done ∷ after)) (λ e. absurd (cc))
run_from-Stopped k n (elapsed pong ∷ evs) after = run_from-Stopped k 0 evs after
run_from-Stopped k n (elapsed timed_out ∷ evs) after =
    elim (Bool-cases (leb_ℤ k.retry (pos (n + 1)))) [
      | inl few ↦
          let e : run_from k (round k n (elapsed timed_out)) (evs ++ done ∷ after) ≡ terminated =
            ground (arith, few, run_from-terminated k (evs ++ done ∷ after)) in
          λ m. rw e (λ q. absurd (cc))
      | inr many ↦
          let e : round k n (elapsed timed_out) ≡ running 0 = ground (arith, many) in
          rw (e, run_from) (run_from-Stopped k 0 evs after)
    ]
run_from-Stopped k n (elapsed broken ∷ evs) after =
    λ m. rw (run_from-returned k (evs ++ done ∷ after)) (λ e. absurd (cc))

pub run-Stopped :
    (k : Keepalive) (before after : List Event) → Stopped (run k (before ++ done ∷ after))
unfolding run
run-Stopped k before after = run_from-Stopped k 0 before after
