-- ===== src/TestClient/Prompts.antt =====
-- What the test client does with the commands that are typed.
use coap_gateway.Prelude.{
  ℕ, zero, suc, ◌+◌, ◌<◌, ◌≡◌, refl, true, false, Option, none, some, List, [], ◌∷◌, if◌then◌else◌,
  length, take, arith, inl, inr, Option-cases, ap,
}
use coap_gateway.Prelude.Text.{Text, codes, text_eq}
use coap_gateway.Go.{Go, ret, panics, pure, ◌>>=◌}
use coap_gateway.TestClient.{
  Cloud, Message, Exchanged, answered, failed, Terminal, my_link, account_of, exchange, payload,
  decode_msg, register_device, start_session, publish_resource, prompt_user,
}

pub data Command : Type 0 where
  registering session publishing : Command

-- The three words of the prompt.
abbrev pub command_of : Text → Option Command
command_of input =
    if text_eq input (codes "register")
    then some registering
    else (if text_eq input (codes "session")
        then some session
        else (if text_eq input (codes "publish") then some publishing else none))

abbrev cons_command : Option Command → List Command → List Command
cons_command none xs = []
cons_command (some x) xs = x ∷ xs

-- The commands before the first other input.
abbrev pub commands : List Text → List Command
commands [] = []
commands (input ∷ inputs) = cons_command (command_of input) (commands inputs)

-- What go-coap and the codecs do in the good case: a message has the path and the body that it is
-- made of, and what can be decoded has a JSON.
pub record Encodes (c : Cloud) : Type 0 where
  pub posts :
      (path body : Text)
      → c.new_post_request path body ≡ some (record { path = path; payload = body })
  pub prints : (p : Text) → c.unprintable p ≡ false

module _ (c : Cloud) (device_id access_token user_id : Text) where
  -- The message of a command.
  abbrev pub message_of : Command → Message
  message_of registering = record {
    path = codes "oic/sec/account";
    payload = (c.encode_account (account_of c device_id access_token user_id true)).0;
  }
  message_of session = record {
    path = codes "oic/sec/session";
    payload = (c.encode_account (account_of c device_id access_token user_id true)).0;
  }
  message_of publishing = record {
    path = codes "oic/rd";
    payload = (c.encode_publication (record { device_id = device_id; links = my_link ∷ [] })).0;
  }

  -- One message for each command, the last one first, on top of what was sent before.
  abbrev pub posted : List Command → List (Option Message) → List (Option Message)
  posted [] before = before
  posted (x ∷ xs) before = posted xs (some (message_of x) ∷ before)

  abbrev pub spent : List Command → Terminal → Terminal
  spent xs d = record d { exchanges = posted xs d.exchanges; calls = length xs + d.calls }

  spent-nil : (d : Terminal) → spent [] d ≡ d
  spent-nil d = ap (λ n. record d { calls = n }) (omega arith)

  spent-spent :
      (x : Command) (xs : List Command) (d : Terminal)
      → spent xs (spent (x ∷ []) d) ≡ spent (x ∷ xs) d
  spent-spent x xs d =
      ap (λ n. record d { exchanges = posted (x ∷ xs) d.exchanges; calls = n }) (omega arith)

  -- The function of a command.
  abbrev run : Command → Go Terminal (Unit {0}) → Go Terminal (Unit {0})
  run registering again = register_device c device_id access_token user_id again true
  run session again = start_session c device_id access_token user_id again true
  run publishing again = publish_resource c device_id access_token user_id again

  -- The answer to a call, whatever its number is written as.
  moved :
      {a b : ℕ} {m : Option Message} {o : Exchanged}
      → a ≡ b
      → c.exchange a m ≡ o
      → c.exchange b m ≡ o
  moved q h = rw (← q) h

  module _ (e : Encodes c) where
    sends :
        (x : Command)
        → c.new_post_request (message_of x).path (message_of x).payload ≡ some (message_of x)
    sends x = e.posts (message_of x).path (message_of x).payload

    run-answered :
        (x : Command) (again : Go Terminal (Unit {0})) (d : Terminal) (p : Text)
        → c.exchange d.calls (some (message_of x)) ≡ answered p
        → run x again d ≡ again (spent (x ∷ []) d)
    unfolding register_device start_session publish_resource exchange payload decode_msg ◌>>=◌
    run-answered registering again d p h = ground (arith, sends registering, h, e.prints p)
    run-answered session again d p h = ground (arith, sends session, h, e.prints p)
    run-answered publishing again d p h = ground (arith, sends publishing, h)

    run-failed :
        (x : Command) (again : Go Terminal (Unit {0})) (d : Terminal)
        → c.exchange d.calls (some (message_of x)) ≡ failed
        → run x again d ≡ (panics, spent (x ∷ []) d)
    unfolding register_device start_session publish_resource exchange payload decode_msg ◌>>=◌
    run-failed registering again d h = ground (arith, sends registering, h)
    run-failed session again d h = ground (arith, sends session, h)
    run-failed publishing again d h = ground (arith, sends publishing, h)

    prompt_user-command :
        (input : Text) (inputs : List Text) (x : Command)
        → command_of input ≡ some x
        → prompt_user c device_id access_token user_id (input ∷ inputs)
          ≡ run x (prompt_user c device_id access_token user_id inputs)
    unfolding prompt_user
    prompt_user-command input inputs registering h = ground arith
    prompt_user-command input inputs session h = ground arith
    prompt_user-command input inputs publishing h = ground arith

    prompt_user-other :
        (input : Text) (inputs : List Text) (d : Terminal)
        → command_of input ≡ none
        → prompt_user c device_id access_token user_id (input ∷ inputs) d ≡ (ret tt, d)
    unfolding prompt_user pure
    prompt_user-other input inputs d h = ground arith

    -- While go-coap makes the messages and answers every one, the client returns from its prompt at
    -- the first input that is no command, or at the end of the input, and has sent exactly one
    -- message for each command before it, in their order.
    pub prompt_user_posts :
        (inputs : List Text) (d : Terminal)
        → ((n : ℕ) (m : Message) → (p : Text) × (c.exchange n (some m) ≡ answered p))
        → prompt_user c device_id access_token user_id inputs d
          ≡ (ret tt, spent (commands inputs) d)
    unfolding prompt_user pure
    prompt_user_posts [] d answers = rw (spent-nil d) refl
    prompt_user_posts (input ∷ inputs) d answers = elim (Option-cases (command_of input)) [
      | inl h ↦ rw (h, spent-nil d, prompt_user-other input inputs d h) refl
      | inr (x, h) ↦
          let (p, q) = answers d.calls (message_of x) in
          let rest = prompt_user_posts inputs (spent (x ∷ []) d) answers in
          rw
            (
              h,
              prompt_user-command input inputs x h,
              run-answered x _ d p q,
              rest,
              spent-spent x _ d,
            )
            refl
    ]

    -- The error of an exchange is printed and the nil response used: where the exchanges before the
    -- one with a number are answered and that one fails, the client panics, having sent the messages
    -- of the commands up to that one, and the commands after it are not read.
    pub failed_exchange_panics :
        (inputs : List Text) (n : ℕ) (d : Terminal)
        → n < length (commands inputs)
        → ((i : ℕ) (m : Message)
            → i < n
            → (p : Text) × (c.exchange (i + d.calls) (some m) ≡ answered p))
        → ((m : Message) → c.exchange (n + d.calls) (some m) ≡ failed)
        → prompt_user c device_id access_token user_id inputs d
          ≡ (panics, spent (take (suc n) (commands inputs)) d)
    failed_exchange_panics [] n d l answers fails = absurd (omega arith)
    failed_exchange_panics (input ∷ inputs) zero d l answers fails =
        elim (Option-cases (command_of input)) [
          | inl h ↦ absurd (ground arith)
          | inr (x, h) ↦
              rw
                (
                  h,
                  prompt_user-command input inputs x h,
                  run-failed x _ d (moved (omega arith) (fails (message_of x))),
                )
                refl
        ]
    failed_exchange_panics (input ∷ inputs) (suc n) d l answers fails =
        elim (Option-cases (command_of input)) [
          | inl h ↦ absurd (ground arith)
          | inr (x, h) ↦
              let (p, q) = answers 0 (message_of x) (omega arith) in
              let rest =
                failed_exchange_panics inputs n (spent (x ∷ []) d) (ground arith)
                  (λ i m k.
                    let (r, s) = answers (suc i) m (omega arith) in (r, moved (omega arith) s))
                  (λ m. moved (omega arith) (fails m)) in
              rw
                (
                  h,
                  prompt_user-command input inputs x h,
                  run-answered x _ d p (moved (omega arith) q),
                  rest,
                  spent-spent x _ d,
                )
                refl
        ]
