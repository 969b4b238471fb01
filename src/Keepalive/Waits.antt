-- ===== src/Keepalive/Waits.antt =====
-- How long the keepalive loop waits.
use coap_gateway.Prelude.{ℕ, ◌≤◌, ◌*◌, ◌≡◌, arith}
use coap_gateway.Prelude.Int.{pos, ◌*ℤ◌, wrap_64}
use coap_gateway.Keepalive.{Keepalive, wait_time}

-- A configured number of seconds up to 9223372036 is waited for exactly.
pub wait_time_exact :
    (k : Keepalive) (n : ℕ) → k.time ≡ pos n → n ≤ 9223372036 → wait_time k 0 ≡ pos (1000000000 * n)
unfolding wait_time ◌*ℤ◌ wrap_64
wait_time_exact k n e h = rw e (ground arith)
