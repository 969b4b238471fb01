-- ===== src/Sessions.antt =====
-- pkg/app/coap-interface/server.go: the container of the connections' sessions. The methods run
-- under a mutex, one after another; a connection is known by the local address of its end.
pub mod Sound
pub mod Tracking
pub mod Clashes
pub mod Goroutines
use coap_gateway.Prelude.{ℕ, suc, Bool, Option, none, some, List, [], ◌∷◌, any, ◌==◌, if◌then◌else◌}
use coap_gateway.Prelude.Text.{Text}
use coap_gateway.Go.{Go, Outcome, ret, panics, blocks, continue}
use coap_gateway.Map.{Map, lookup, insert, delete}

-- coap.ClientCommander, with what LocalAddr().String() returns
pub record Client : Type 0 where
  pub name : ℕ
  pub local_addr : Text

-- A session, with the number of the keepalive goroutine that NewKeepalive has started for it.
pub record Session : Type 0 where
  pub client : Client
  pub keepalive : ℕ

-- ClientContainer; `started` counts the keepalives, and `signalled` has those whose channel, of
-- capacity one, holds the value of a Done.
pub record ClientContainer : Type 0 where
  pub sessions : Map Session
  pub started : ℕ
  pub signalled : List ℕ

-- addSession, with NewSession
unfoldable pub add_session : Client → ClientContainer → ClientContainer
add_session cl c = record c {
  sessions = insert cl.local_addr (record { client = cl; keepalive = c.started }) c.sessions;
  started = suc c.started;
}

-- A send on a full channel never returns, and keeps the mutex.
unfoldable pub finish_session : Text → Option Session → Go ClientContainer (Unit {0})
finish_session addr none c = (panics, c)
finish_session addr (some s) c = if any (λ k. k == s.keepalive) c.signalled then (blocks, c) else (
  ret tt,
  record c { sessions = delete addr c.sessions; signalled = s.keepalive ∷ c.signalled },
)

-- removeSession: `c.sessions[addr].keepalive` is a nil pointer where there is no session.
unfoldable pub remove_session : Client → Go ClientContainer (Unit {0})
unfolding finish_session
remove_session cl c = finish_session cl.local_addr (lookup cl.local_addr c.sessions) c

-- NotifySessionNewFunc and NotifySessionEndFunc of NewCoapServer
pub data Event : Type 0 where
  opened closed : Client → Event

unfoldable pub notify : Event → Go ClientContainer (Unit {0})
notify (opened cl) c = (ret tt, add_session cl c)
notify (closed cl) c = remove_session cl c

unfoldable pub notify_all : List Event → Go ClientContainer (Unit {0})
notify_all [] c = (ret tt, c)
notify_all (ev ∷ evs) c = continue (notify ev c).0 (λ _. notify_all evs) (notify ev c).1

abbrev pub no_sessions : ClientContainer
no_sessions = record { sessions = []; started = 0; signalled = [] }
