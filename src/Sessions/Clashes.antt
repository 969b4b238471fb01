-- ===== src/Sessions/Clashes.antt =====
-- Two connections at one local address, as all connections to one listening address have it.
use coap_gateway.Prelude.{suc, ◌≡◌, refl, false, none, some, [], ◌∷◌, any, ◌==◌, arith}
use coap_gateway.Prelude.Text.{text_eq_iff, text_eq_refl}
use coap_gateway.Go.{ret, panics}
use coap_gateway.Map.{lookup, lookup-insert, lookup-delete, delete}
use coap_gateway.Sessions.{
  Client, ClientContainer, Session, add_session, remove_session, opened, closed, notify, notify_all,
}

module _ (c : ClientContainer) (a b : Client) (same : a.local_addr ≡ b.local_addr) where
  abbrev both_open : ClientContainer
  both_open = add_session b (add_session a c)

  abbrev second : Session
  second = record { client = b; keepalive = suc c.started }

  lookup-both_open : lookup a.local_addr both_open.sessions ≡ some second
  unfolding add_session
  lookup-both_open = ground (
    arith,
    text_eq_iff b.local_addr a.local_addr,
    lookup-insert b.local_addr a.local_addr second (add_session a c).sessions,
  )

  abbrev first_closed : ClientContainer
  first_closed = record both_open {
    sessions = delete a.local_addr both_open.sessions;
    signalled = suc c.started ∷ both_open.signalled;
  }

  remove-first :
      any (λ k. k == suc c.started) c.signalled ≡ false
      → remove_session a both_open ≡ (ret tt, first_closed)
  unfolding remove_session add_session
  remove-first fresh = ground (arith, lookup-both_open, fresh)

  remove-second : (remove_session b first_closed).0 ≡ panics
  unfolding remove_session
  remove-second = ground (
    arith,
    text_eq_iff a.local_addr b.local_addr,
    lookup-delete a.local_addr b.local_addr both_open.sessions,
  )

  -- Of two connections with one local address the second takes the place of the first: when the
  -- first closes, the keepalive of the second is told to stop and no session is left at the
  -- address, and when the second closes, the handler panics. It is asked of the container that
  -- the keepalive of the second connection has not been signalled before.
  pub notify_all-clash :
      any (λ k. k == suc c.started) c.signalled ≡ false
      → ((notify_all (opened a ∷ opened b ∷ closed a ∷ []) c).1.signalled
          ≡ suc c.started ∷ c.signalled)
        × (lookup a.local_addr (notify_all (opened a ∷ opened b ∷ closed a ∷ []) c).1.sessions
            ≡ none)
        × ((notify_all (opened a ∷ opened b ∷ closed a ∷ closed b ∷ []) c).0 ≡ panics)
  unfolding notify_all notify
  notify_all-clash fresh = rw (remove-first fresh) (
    unfold add_session in refl,
    rw (lookup-delete a.local_addr a.local_addr both_open.sessions, text_eq_refl a.local_addr) refl,
    rw remove-second refl,
  )
