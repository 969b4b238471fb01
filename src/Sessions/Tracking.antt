-- ===== src/Sessions/Tracking.antt =====
-- What the container does while the open connections have distinct local addresses.
use coap_gateway.Prelude.{
  ◌≡◌, refl, Bool, true, false, Option, none, some, List, [], ◌∷◌, any, arith, if◌then◌else◌,
  Option-cases, inl, inr,
}
use coap_gateway.Prelude.Text.{Text, text_eq, text_eq_iff}
use coap_gateway.Go.{ret}
use coap_gateway.Map.{lookup, lookup-insert, lookup-delete}
use coap_gateway.Sessions.Sound.{
  Sound, no_sessions-Sound, add_session-Sound, finished, finished-Sound, finish_session-ok,
}
use coap_gateway.Sessions.{
  Client, Session, ClientContainer, add_session, remove_session, Event, opened, closed, notify,
  notify_all, no_sessions,
}

abbrev pub holds : Text → List Text → Bool
holds addr live = any (λ k. text_eq k addr) live

abbrev pub drop_addr : Text → List Text → List Text
drop_addr addr [] = []
drop_addr addr (k ∷ live) = if text_eq k addr then drop_addr addr live else k ∷ drop_addr addr live

-- The open addresses after an event.
abbrev pub live_after : Event → List Text → List Text
live_after (opened cl) live = cl.local_addr ∷ live
live_after (closed cl) live = drop_addr cl.local_addr live

-- A connection opens at an address that is not open, and closes at one that is.
abbrev pub Fits : Event → List Text → Type 0
Fits (opened cl) live = holds cl.local_addr live ≡ false
Fits (closed cl) live = holds cl.local_addr live ≡ true

abbrev pub AllFit : List Event → List Text → Type 0
AllFit [] live = Unit {0}
AllFit (ev ∷ evs) live = Fits ev live × AllFit evs (live_after ev live)

abbrev pub live_at_end : List Event → List Text → List Text
live_at_end [] live = live
live_at_end (ev ∷ evs) live = live_at_end evs (live_after ev live)

abbrev pub is_some {ℓ} : {A : Type ℓ} → Option A → Bool
is_some none = false
is_some (some a) = true

-- The sessions are those of the open addresses, each with a keepalive of its own that runs.
pub record Tracks (live : List Text) (c : ClientContainer) : Type 0 where
  pub present : (k : Text) → is_some (lookup k c.sessions) ≡ holds k live
  pub sound : Sound c

holds-drop_addr :
    (addr k : Text) (live : List Text)
    → holds k (drop_addr addr live) ≡ (if text_eq addr k then false else holds k live)
holds-drop_addr addr k [] = ground arith
holds-drop_addr addr k (j ∷ live) =
    ground
      (arith, holds-drop_addr addr k live, text_eq_iff j addr, text_eq_iff j k, text_eq_iff addr k)

add_session-Tracks :
    (live : List Text) (c : ClientContainer) (cl : Client)
    → Tracks live c
    → Tracks (cl.local_addr ∷ live) (add_session cl c)
unfolding add_session
add_session-Tracks live c cl t =
    let new : Session = record { client = cl; keepalive = c.started } in
    record {
      present = λ k. ground (arith, t.present k, lookup-insert cl.local_addr k new c.sessions);
      sound = add_session-Sound cl c t.sound;
    }

finished-Tracks :
    (live : List Text) (c : ClientContainer) (addr : Text) (r : Session) (t : Tracks live c)
    → lookup addr c.sessions ≡ some r
    → Tracks (drop_addr addr live) (finished c addr r t.sound)
finished-Tracks live c addr r t q = record {
  present = λ k.
      ground (arith, t.present k, lookup-delete addr k c.sessions, holds-drop_addr addr k live);
  sound = finished-Sound c addr r t.sound q;
}

-- An event that fits returns, and the container tracks the open addresses after it.
pub notify-Tracks :
    (ev : Event) (live : List Text) (c : ClientContainer)
    → Tracks live c
    → Fits ev live
    → ((notify ev c).0 ≡ ret tt) × Tracks (live_after ev live) (notify ev c).1
unfolding notify
notify-Tracks (opened cl) live c t h = (refl, add_session-Tracks live c cl t)
notify-Tracks (closed cl) live c t h = elim (Option-cases (lookup cl.local_addr c.sessions)) [
  | inl q ↦ absurd (ground (arith, q, t.present cl.local_addr))
  | inr (r, q) ↦
      let done = finish_session-ok c cl.local_addr r t.sound q in
      unfold remove_session in rw done (refl, finished-Tracks live c cl.local_addr r t q)
]

-- If each connection opens at a local address at which none is open, and closes at one at which one
-- is, then every notification returns: no nil session is used, no send on a channel blocks, and in
-- the end the container holds exactly the sessions of the addresses that are open.
pub notify_all-Tracks :
    (evs : List Event) (live : List Text) (c : ClientContainer)
    → Tracks live c
    → AllFit evs live
    → ((notify_all evs c).0 ≡ ret tt) × Tracks (live_at_end evs live) (notify_all evs c).1
unfolding notify_all
notify_all-Tracks [] live c t h = (refl, t)
notify_all-Tracks (ev ∷ evs) live c t h =
    let (done, t') = notify-Tracks ev live c t h.0 in
    rw done (notify_all-Tracks evs (live_after ev live) (notify ev c).1 t' h.1)

pub no_sessions-Tracks : Tracks [] no_sessions
unfolding lookup
no_sessions-Tracks = record { present = λ k. refl; sound = no_sessions-Sound }
