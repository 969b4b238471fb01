-- ===== src/Sessions/Sound.antt =====
-- Which keepalives the container's sessions have, and why the send on a keepalive's channel of
-- capacity one does not block.
use coap_gateway.Prelude.{
  ℕ, ◌<◌, ◌≡◌, true, false, some, List, [], ◌∷◌, any, ◌==◌, ==_iff, arith, Option-cases, inl, inr,
}
use coap_gateway.Prelude.Text.{Text, text_eq_iff}
use coap_gateway.Go.{ret}
use coap_gateway.Go.Kept.{Ends, Ends-continue_with}
use coap_gateway.Map.{lookup, delete, lookup-insert, lookup-delete}
use coap_gateway.Sessions.{
  Client, Session, ClientContainer, add_session, finish_session, remove_session, Event, opened,
  closed, notify, notify_all, no_sessions,
}

-- Each session has a started keepalive of its own that has not been told to stop, and only started
-- keepalives have been told to.
pub record Sound (c : ClientContainer) : Type 0 where
  pub fresh :
      (k : Text) (s : Session)
      → lookup k c.sessions ≡ some s
      → (s.keepalive < c.started) × (any (λ i. i == s.keepalive) c.signalled ≡ false)
  pub own :
      (k j : Text) (s t : Session)
      → lookup k c.sessions ≡ some s
      → lookup j c.sessions ≡ some t
      → s.keepalive ≡ t.keepalive
      → k ≡ j
  pub old : (i : ℕ) → any (λ j. j == i) c.signalled ≡ true → i < c.started

pub no_sessions-Sound : Sound no_sessions
unfolding lookup
no_sessions-Sound = record {
  fresh = λ k s e. absurd (cc);
  own = λ k j s u e f g. absurd (cc);
  old = λ i e. absurd (cc);
}

pub add_session-Sound : (cl : Client) (c : ClientContainer) → Sound c → Sound (add_session cl c)
unfolding add_session
add_session-Sound cl c t =
    let new : Session = record { client = cl; keepalive = c.started } in
    let found = λ (k : Text). lookup-insert cl.local_addr k new c.sessions in
    record {
      fresh = λ k s e. ground (arith, found k, t.fresh k s, t.old c.started);
      own = λ k j s u e f g. ground (
        arith,
        found k,
        found j,
        t.own k j s u,
        t.fresh k s,
        t.fresh j u,
        text_eq_iff cl.local_addr k,
        text_eq_iff cl.local_addr j,
      );
      old = λ i e. omega (arith, t.old i e);
    }

-- The session of an open address is closed, and its keepalive is told to stop.
module _ (c : ClientContainer) (addr : Text) (r : Session) (t : Sound c) where
  abbrev pub finished : ClientContainer
  finished = record c { sessions = delete addr c.sessions; signalled = r.keepalive ∷ c.signalled }

  pub finished-Sound : lookup addr c.sessions ≡ some r → Sound finished
  finished-Sound q =
      let found = λ (k : Text). lookup-delete addr k c.sessions in
      record {
        fresh = λ k s e. ground (
          arith,
          found k,
          t.fresh k s,
          t.own addr k r s q,
          text_eq_iff addr k,
          ==_iff r.keepalive s.keepalive,
        );
        own = λ k j s u e f g. ground (arith, found k, found j, t.own k j s u);
        old = λ i e. ground (arith, t.old i, t.fresh addr r q);
      }

  pub finish_session-ok :
      lookup addr c.sessions ≡ some r
      → finish_session addr (lookup addr c.sessions) c ≡ (ret tt, finished)
  unfolding finish_session
  finish_session-ok q = ground (arith, q, t.fresh addr r q)

-- A session's end at an address with no session panics and changes nothing.
pub notify-Sound :
    (ev : Event) (c : ClientContainer)
    → Sound c
    → Ends false (notify ev c).0 × Sound (notify ev c).1
unfolding notify
notify-Sound (opened cl) c t = (tt, add_session-Sound cl c t)
notify-Sound (closed cl) c t = elim (Option-cases (lookup cl.local_addr c.sessions)) [
  | inl q ↦ unfold remove_session finish_session in rw q (tt, t)
  | inr (r, q) ↦
      let done = finish_session-ok c cl.local_addr r t q in
      unfold remove_session in rw done (tt, finished-Sound c cl.local_addr r t q)
]

-- Whatever connections open and close, at whatever local addresses and in whatever order, starting
-- with a sound container such as the empty one: no notification ever waits for a channel, so that
-- each one returns or panics, and every session left has a keepalive of its own, which has been
-- started and has not been told to stop.
pub notify_all-Sound :
    (evs : List Event) (c : ClientContainer)
    → Sound c
    → Ends false (notify_all evs c).0 × Sound (notify_all evs c).1
unfolding notify_all
notify_all-Sound [] c t = (tt, t)
notify_all-Sound (ev ∷ evs) c t =
    let (done, t') = notify-Sound ev c t in
    Ends-continue_with Sound false (notify ev c).0 (λ _. notify_all evs) (notify ev c).1 done t'
      (λ _ d. notify_all-Sound evs d)
