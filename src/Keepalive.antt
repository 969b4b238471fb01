-- ===== src/Keepalive.antt =====
-- pkg/app/coap-interface/keepalive.go: the goroutine that pings one client. What the outside does
-- (the done signal, the timer with the answer to the ping) is a list of events.
pub mod Timeouts
pub mod Waits
pub mod Closing
pub mod Stopping
use coap_gateway.Prelude.{ℕ, ◌+◌, List, [], ◌∷◌, ltb, if◌then◌else◌}
use coap_gateway.Prelude.Int.{ℤ, pos, leb_ℤ, ◌*ℤ◌, wrap_64}

-- `time` and `interval` are the fields of type time.Duration as they are stored.
pub record Keepalive : Type 0 where
  pub time : ℤ
  pub interval : ℤ
  pub retry : ℤ

-- What `k.client.Ping(time.Second)` returns: nil, coap.ErrTimeout, or another error.
pub data Ping : Type 0 where
  pong timed_out broken : Ping

-- What the `select` receives.
pub data Event : Type 0 where
  done : Event
  elapsed : Ping → Event

-- The loop at its head with `timeoutCount`, or after one of its returns; `terminated` is the
-- return that has closed the client.
pub data Phase : Type 0 where
  running : ℕ → Phase
  returned terminated : Phase

-- time.Second, in nanoseconds
abbrev pub second : ℤ
second = pos 1000000000

-- The duration that one round waits: `time.Second * waitTime`, an int64 product.
unfoldable pub wait_time : Keepalive → ℕ → ℤ
wait_time k timeout_count = wrap_64 (second *ℤ (if ltb 0 timeout_count then k.interval else k.time))

-- One round of the loop. The reset at the end of the round is reached after a timeout too.
round : Keepalive → ℕ → Event → Phase
round k timeout_count done = returned
round k timeout_count (elapsed pong) = running 0
round k timeout_count (elapsed timed_out) =
    if leb_ℤ k.retry (pos (timeout_count + 1)) then terminated else running 0
round k timeout_count (elapsed broken) = returned

-- The goroutine over the events that it meets; events after a return are not received.
pub run_from : Keepalive → Phase → List Event → Phase
run_from k p [] = p
run_from k (running n) (ev ∷ evs) = run_from k (round k n ev) evs
run_from k returned (ev ∷ evs) = returned
run_from k terminated (ev ∷ evs) = terminated

unfoldable pub run : Keepalive → List Event → Phase
unfolding run_from round
run k = run_from k (running 0)

-- The waits that the goroutine makes, one before each event that it receives.
pub waits_from : Keepalive → Phase → List Event → List ℤ
waits_from k p [] = []
waits_from k (running n) (ev ∷ evs) = wait_time k n ∷ waits_from k (round k n ev) evs
waits_from k returned (ev ∷ evs) = []
waits_from k terminated (ev ∷ evs) = []
