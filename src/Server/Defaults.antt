-- ===== src/Server/Defaults.antt =====
-- How long the keepalive of a configured server waits.
use coap_gateway.Prelude.{
  ℕ, ◌*◌, ◌≤◌, ◌≡◌, refl, Bool, false, true, ◌||◌, List, [], ◌∷◌, ◌++◌, All, arith, some,
}
use coap_gateway.Prelude.Int.{pos, ◌*ℤ◌, wrap_64}
use coap_gateway.Prelude.Text.{Text, codes, text_eq, text_eq_refl}
use coap_gateway.Go.{Go, continue, Outcome, ret, panics, exits, blocks, pure, modify, ◌>>=◌}
use coap_gateway.Http.Strings.{split, contains}
use coap_gateway.Keepalive.{wait_time}
use coap_gateway.Keepalive.Waits.{wait_time_exact}
use coap_gateway.Server.Numbers.{atoi}
use coap_gateway.Server.Tls.{Crypto}
use coap_gateway.Server.Variables.{
  Settings, no_settings, is_number, env_keepalive_time, env_listen_address, env_listen_net,
  read_pair, read_all,
}
use coap_gateway.Server.Startup.{Server, started, server_of, new_server, new_keepalive}

-- Whether NewServer reads a variable, by the fields of its entry.
abbrev pub is_read : List Text → Bool
is_read [] = true
is_read (key ∷ fields) =
    is_number key || (text_eq key env_listen_address || text_eq key env_listen_net)

read_pair-unread :
    (fields : List Text) (s : Settings) → is_read fields ≡ false → read_pair fields s ≡ (ret tt, s)
unfolding read_pair pure
read_pair-unread [] s h = absurd (cc)
read_pair-unread (key ∷ fields) s h = ground arith

read_all-unread :
    (environ : List Text) (s : Settings)
    → All (λ e. is_read (split e (codes "=")) ≡ false) environ
    → read_all environ s ≡ (ret tt, s)
unfolding read_all ◌>>=◌
read_all-unread [] s h = refl
read_all-unread (e ∷ es) s h =
    ground (arith, read_pair-unread (split e (codes "=")) s h.0, read_all-unread es s h.1)

-- In an environment with none of the variables that NewServer reads, the server listens with TCP at
-- 0.0.0.0:5684, and the keepalive of a connection waits 2884905626637434880 nanoseconds, which is
-- more than 91 years, before its first ping: the hour of the default, times a second, is more
-- than 64 bits hold.
pub new_server_default_wait :
    (k : Crypto) (environ : List Text)
    → All (λ e. is_read (split e (codes "=")) ≡ false) environ
    → (s : Server) × (new_server k environ ≡ ret (started s))
      × (s.addr ≡ codes "0.0.0.0:5684")
      × (wait_time (new_keepalive s) 0 ≡ pos 2884905626637434880)
unfolding new_server contains wait_time ◌*ℤ◌ wrap_64 ◌>>=◌
new_server_default_wait k environ h =
    (server_of no_settings, ground (arith, read_all-unread environ no_settings h), refl, refl)

continue-pure : (o : Outcome (Unit {0})) (s : Settings) → continue o (λ _. pure tt) s ≡ (o, s)
unfolding pure
continue-pure (ret u) s = refl
continue-pure panics s = refl
continue-pure exits s = refl
continue-pure blocks s = refl

-- A sequence that returns has returned from its first part.
continue-inv :
    (o : Outcome (Unit {0})) (f g : Go Settings (Unit {0})) (s s' : Settings)
    (t : Outcome (Unit {0}) × Settings)
    → ((r : Settings) → f r ≡ (ret tt, s') → g r ≡ t)
    → continue o (λ _. f) s ≡ (ret tt, s')
    → continue o (λ _. g) s ≡ t
continue-inv (ret u) f g s s' t k h = k s h
continue-inv panics f g s s' t k h = absurd (cc)
continue-inv exits f g s s' t k h = absurd (cc)
continue-inv blocks f g s s' t k h = absurd (cc)

read_all-append :
    (es : List Text) (e : Text) (s s' : Settings)
    → read_all es s ≡ (ret tt, s')
    → read_all (es ++ e ∷ []) s ≡ read_pair (split e (codes "=")) s'
unfolding read_all pure ◌>>=◌
read_all-append [] e s s' h =
    let q : s ≡ s' = ground arith in
    rw (← q)
      (continue-pure (read_pair (split e (codes "=")) s).0 (read_pair (split e (codes "=")) s).1)
read_all-append (d ∷ es) e s s' h =
    continue-inv (read_pair (split d (codes "=")) s).0 (read_all es) (read_all (es ++ e ∷ []))
      (read_pair (split d (codes "=")) s).1 s' _ (λ r k. read_all-append es e r s' k) h

-- If the last entry of the environment sets KEEPALIVE_TIME to a value that Atoi reads as a number of
-- seconds up to 9223372036, with or without an error, and the entries before it can be read and ask
-- for no TLS, then the keepalive waits exactly that long before a ping; for a value that is no
-- number that is 0.
pub new_server_configured_wait :
    (k : Crypto) (es : List Text) (e v : Text) (rest : List Text) (s : Settings) (n : ℕ)
    (err : Bool)
    → read_all es no_settings ≡ (ret tt, s)
    → contains (server_of s).net (codes "tls") ≡ false
    → split e (codes "=") ≡ env_keepalive_time ∷ v ∷ rest
    → atoi v ≡ (pos n, err)
    → n ≤ 9223372036
    → (srv : Server) × (new_server k (es ++ e ∷ []) ≡ ret (started srv))
      × (wait_time (new_keepalive srv) 0 ≡ pos (1000000000 * n))
unfolding new_server read_pair modify pure ◌>>=◌
new_server_configured_wait k es e v rest s n err r t f a l =
    let srv = server_of (record s { keepalive_time = some (pos n) }) in
    (
      srv,
      ground
          (arith, read_all-append es e no_settings s r, f, a, t, text_eq_refl env_keepalive_time),
      wait_time_exact (new_keepalive srv) n refl l,
    )
