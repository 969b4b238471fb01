-- ===== src/Server/Ending.antt =====
-- NewServer comes to an end, whatever the environment holds.
use coap_gateway.Prelude.{Bool, true, false, List, [], ◌∷◌, if◌then◌else◌}
use coap_gateway.Prelude.Text.{Text, codes}
use coap_gateway.Go.{Outcome, ret, panics, exits, blocks, modify, ◌>>=◌}
use coap_gateway.Go.Kept.{Ends, Ends-continue, Keeps, Keeps-bind, kept_steps}
use coap_gateway.Http.Strings.{split, contains}
use coap_gateway.Server.Tls.{
  Crypto, Setup, refused, configured, value_of, read_tls, read_tls_pair, read_tls_all, no_variables,
  setup_tls,
}
use coap_gateway.Server.Variables.{no_settings, read, read_pair, read_all}
use coap_gateway.Server.Startup.{Server, Start, server_of, with_tls, start, new_server}

-- Nothing is asked of the state.
abbrev Any : {S : Type 0} → S → Type 0
Any s = Unit {0}

module _ {S : Type 0} where
  value_of-Keeps : (fields : List Text) → Keeps false (Any {S = S}) (value_of fields)
  value_of-Keeps [] = search kept_steps
  value_of-Keeps (v ∷ fields) = search kept_steps

  modify-Keeps : (f : S → S) → Keeps false (Any {S = S}) (modify f)
  unfolding modify
  modify-Keeps f = record { after = λ s h. tt; ends = λ s. tt }

read-Keeps : (key : Text) (fields : List Text) → Keeps false Any (read key fields)
unfolding read
read-Keeps key fields = search (kept_steps, value_of-Keeps, modify-Keeps)

read_pair-Keeps : (fields : List Text) → Keeps false Any (read_pair fields)
unfolding read_pair
read_pair-Keeps [] = search kept_steps
read_pair-Keeps (key ∷ fields) = read-Keeps key fields

read_all-Keeps : (environ : List Text) → Keeps false Any (read_all environ)
unfolding read_all
read_all-Keeps [] = search kept_steps
read_all-Keeps (e ∷ es) =
    Keeps-bind (read_pair (split e (codes "="))) (λ _. read_all es)
      (read_pair-Keeps (split e (codes "="))) (λ _. read_all-Keeps es)

read_tls-Keeps : (key : Text) (fields : List Text) → Keeps false Any (read_tls key fields)
unfolding read_tls
read_tls-Keeps key fields = search (kept_steps, value_of-Keeps, modify-Keeps)

read_tls_pair-Keeps : (fields : List Text) → Keeps false Any (read_tls_pair fields)
unfolding read_tls_pair
read_tls_pair-Keeps [] = search kept_steps
read_tls_pair-Keeps (key ∷ fields) = read_tls-Keeps key fields

read_tls_all-Keeps : (environ : List Text) → Keeps false Any (read_tls_all environ)
unfolding read_tls_all
read_tls_all-Keeps [] = search kept_steps
read_tls_all-Keeps (e ∷ es) =
    Keeps-bind (read_tls_pair (split e (codes "="))) (λ _. read_tls_all es)
      (read_tls_pair-Keeps (split e (codes "="))) (λ _. read_tls_all-Keeps es)

module _ (k : Crypto) (environ : List Text) where
  setup_tls-Ends : Ends false (setup_tls k environ)
  unfolding setup_tls ◌>>=◌
  setup_tls-Ends =
      Ends-continue false (read_tls_all environ no_variables).0 _ _
        ((read_tls_all-Keeps environ).ends no_variables) (λ u. tt)

  with_tls-Ends : (s : Server) (o : Outcome Setup) → Ends false o → Ends false (with_tls s o)
  with_tls-Ends s (ret (refused x)) h = tt
  with_tls-Ends s (ret (configured roots intermediates)) h = tt
  with_tls-Ends s panics h = tt
  with_tls-Ends s exits h = h
  with_tls-Ends s blocks h = h

  Ends-if :
      (b : Bool) (o p : Outcome Start)
      → Ends false o
      → Ends false p
      → Ends false (if b then o else p)
  Ends-if true o p h i = h
  Ends-if false o p h i = i

  start-Ends : (s : Server) → Ends false (start k environ s)
  start-Ends s =
      Ends-if (contains s.net (codes "tls")) _ _
        (with_tls-Ends s (setup_tls k environ) setup_tls-Ends) tt

  -- NewServer returns or panics.
  pub new_server-Ends : Ends false (new_server k environ)
  unfolding new_server ◌>>=◌
  new_server-Ends =
      Ends-continue false (read_all environ no_settings).0 _ _
        ((read_all-Keeps environ).ends no_settings)
        (λ u. start-Ends (server_of (read_all environ no_settings).1))
