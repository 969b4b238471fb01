-- ===== src/Sessions/Goroutines.antt =====
-- What becomes of the keepalive goroutines that the container starts.
use coap_gateway.Prelude.{
  ℕ, ◌<◌, ◌≡◌, Bool, true, none, some, List, [], ◌∷◌, ◌++◌, any, ◌==◌, ◌⊎◌, inl, inr, arith,
  Option-cases, Bool-cases,
}
use coap_gateway.Prelude.Text.{Text, text_eq, text_eq_iff}
use coap_gateway.Map.{lookup, lookup-insert, lookup-delete}
use coap_gateway.Keepalive as Keepalive
use coap_gateway.Keepalive.{run}
use coap_gateway.Keepalive.Stopping.{Stopped, run-Stopped}
use coap_gateway.Sessions.{
  Client, Session, ClientContainer, add_session, remove_session, Event, opened, closed, notify,
  notify_all, no_sessions,
}
use coap_gateway.Sessions.Sound.{finished, finish_session-ok}
use coap_gateway.Sessions.Tracking.{
  live_after, live_at_end, Fits, AllFit, Tracks, notify-Tracks, no_sessions-Tracks,
}

-- Whether the channel of a keepalive holds the signal to stop.
abbrev pub is_signalled : ClientContainer → ℕ → Bool
is_signalled c i = any (λ j. j == i) c.signalled

-- Each keepalive that was started has been told to stop, or a session holds it.
abbrev pub Accounted : ClientContainer → Type 0
Accounted c =
    (i : ℕ)
    → i < c.started
    → (is_signalled c i ≡ true)
      ⊎ ((k : Text) × (s : Session) × (lookup k c.sessions ≡ some s) × (s.keepalive ≡ i))

add_session-Accounted :
    (cl : Client) (c : ClientContainer)
    → lookup cl.local_addr c.sessions ≡ none
    → Accounted c
    → Accounted (add_session cl c)
unfolding add_session
add_session-Accounted cl c free h i le = elim (Bool-cases (i == c.started)) [
  | inl new ↦ inr (
    cl.local_addr,
    record { client = cl; keepalive = c.started },
    ground (
      arith,
      lookup-insert cl.local_addr cl.local_addr (record { client = cl; keepalive = c.started })
          c.sessions,
      text_eq_iff cl.local_addr cl.local_addr,
    ),
    ground (arith, new),
  )
  | inr other ↦ elim (h i (ground (arith, other, le))) [
    | inl s ↦ inl s
    | inr (k, s, e, q) ↦ inr (
      k,
      s,
      ground (
        arith,
        e,
        free,
        lookup-insert cl.local_addr k (record { client = cl; keepalive = c.started }) c.sessions,
        text_eq_iff cl.local_addr k,
      ),
      q,
    )
  ]
]

module _ (live : List Text) (c : ClientContainer) (t : Tracks live c) where
  finished-Accounted :
      (addr : Text) (r : Session)
      → lookup addr c.sessions ≡ some r
      → Accounted c
      → Accounted (finished c addr r t.sound)
  finished-Accounted addr r q h i le = elim (h i le) [
    | inl s ↦ inl (ground (arith, s))
    | inr (k, s, e, own) ↦ elim (Bool-cases (text_eq addr k)) [
      | inl same ↦ inl (ground (arith, e, q, own, same, text_eq_iff addr k))
      | inr other ↦ inr (k, s, ground (arith, e, other, lookup-delete addr k c.sessions), own)
    ]
  ]

  notify-Accounted : (ev : Event) → Fits ev live → Accounted c → Accounted (notify ev c).1
  unfolding notify
  notify-Accounted (opened cl) f h = elim (Option-cases (lookup cl.local_addr c.sessions)) [
    | inl q ↦ add_session-Accounted cl c q h
    | inr (r, q) ↦ absurd (ground (arith, q, f, t.present cl.local_addr))
  ]
  notify-Accounted (closed cl) f h = elim (Option-cases (lookup cl.local_addr c.sessions)) [
    | inl q ↦ absurd (ground (arith, q, f, t.present cl.local_addr))
    | inr (r, q) ↦
        let done = finish_session-ok c cl.local_addr r t.sound q in
        unfold remove_session in rw done (finished-Accounted cl.local_addr r q h)
  ]

notify_all-Accounted :
    (evs : List Event) (live : List Text) (c : ClientContainer)
    → Tracks live c
    → AllFit evs live
    → Accounted c
    → Accounted (notify_all evs c).1 × Tracks (live_at_end evs live) (notify_all evs c).1
unfolding notify_all
notify_all-Accounted [] live c t f h = (h, t)
notify_all-Accounted (ev ∷ evs) live c t f h =
    let (done, t') = notify-Tracks ev live c t f.0 in
    rw done (
      notify_all-Accounted evs (live_after ev live) (notify ev c).1 t' f.1
        (notify-Accounted live c t ev f.0 h))

-- If each connection opens at a local address at which none is open, closes at one at which one is,
-- and all are closed in the end, then every keepalive goroutine that was started has the signal to
-- stop in its channel, and a loop that receives the signal, whatever the pings before it were
-- answered, has stopped.
pub goroutines_end :
    (evs : List Event)
    → AllFit evs []
    → live_at_end evs [] ≡ []
    → (i : ℕ) → i < (notify_all evs no_sessions).1.started
    → (is_signalled (notify_all evs no_sessions).1 i ≡ true)
      × ((k : Keepalive.Keepalive) (before after : List Keepalive.Event)
          → Stopped (run k (before ++ Keepalive.done ∷ after)))
goroutines_end evs f e i le =
    let (h, t) =
      notify_all-Accounted evs [] no_sessions no_sessions-Tracks f
        (λ j l. absurd (omega (arith, l))) in
    (
      elim (h i le) [ inl s ↦ s | inr (k, s, q, own) ↦ absurd (ground (arith, q, e, t.present k)) ],
      run-Stopped,
    )
