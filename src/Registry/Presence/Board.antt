-- ===== src/Registry/Presence/Board.antt =====
-- What the session updates and the lookups of pods promise: a board that shows for each device where
-- it is connected, until its posting ends.
use coap_gateway.Prelude.{ℕ, ◌+◌, Bool, Option, none, some, List, [], ◌∷◌, ltb, if◌then◌else◌}
use coap_gateway.Prelude.Text.{Text, text_eq}
use coap_gateway.Go.{Outcome, ret}
use coap_gateway.Registry.World.{Err, cache_nil}

-- An address, and when it stops being shown, if ever.
pub record Posting : Type 0 where
  pub address : Text
  pub until : Option ℕ

pub record Board : Type 0 where
  pub postings : Text → Option Posting
  pub now : ℕ

abbrev pub empty_board : ℕ → Board
empty_board now = record { postings = λ k. none; now = now }

-- A session update with its device, user, access token and pod, or seconds that pass.
pub data Update : Type 0 where
  logs_in logs_out : Text → Text → Text → Text → Update
  waits : ℕ → Update

abbrev pub put_up : Text → Posting → Board → Board
put_up k p b = record b { postings = λ j. if text_eq k j then some p else b.postings j }

-- A login counts only for a device whose token has an expiry; a logout is a posting of its own.
abbrev pub updated : (Text → ℕ → Bool) → Text → ℕ → Update → Board → Board
updated registered nowhere stay (logs_in device user access pod) b =
    if registered device b.now
    then put_up device (record { address = pod; until = some (b.now + stay) }) b
    else b
updated registered nowhere stay (logs_out device user access pod) b =
    put_up device (record { address = nowhere; until = none }) b
updated registered nowhere stay (waits n) b = record b { now = b.now + n }

abbrev pub updated_all : (Text → ℕ → Bool) → Text → ℕ → List Update → Board → Board
updated_all registered nowhere stay [] b = b
updated_all registered nowhere stay (u ∷ us) b =
    updated_all registered nowhere stay us (updated registered nowhere stay u b)

abbrev pub visible : Option Posting → ℕ → Option Text
visible none now = none
visible (some p) now = elim p.until [
  | none ↦ some p.address
  | some t ↦ if ltb now t then some p.address else none
]

-- What a lookup returns.
abbrev pub shown : Option Text → Outcome (Text × Option Err)
shown none = ret ([], some cache_nil)
shown (some address) = ret (address, none)
