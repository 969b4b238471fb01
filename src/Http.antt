-- ===== src/Http.antt =====
-- What the HTTP handlers use of net/http: the request, and the ResponseWriter of one request.
pub mod Strings
use coap_gateway.Prelude.{ℕ, Bool, true, false, Option, none, some, [], ◌++◌}
use coap_gateway.Prelude.Text.{Text}
use coap_gateway.Go.{Go, ret, pure}

-- A request with its Authorization header, the values of the router's two variables, what
-- ioutil.ReadAll reads of the body, and whether ReadAll and ParseForm return an error.
pub record Request : Type 0 where
  pub authorization : Text
  pub device_uuid : Text
  pub href : Text
  pub body : Text
  pub unreadable : Bool
  pub malformed : Bool

-- What a handler runs in: a state of the program, the status line, if there is one by now, and the
-- body of the response.
pub record Exchange (S : Type 0) : Type 0 where
  pub state : S
  pub status : Option ℕ
  pub body : Text

abbrev pub begin : {S : Type 0} → S → Exchange S
begin s = record { state = s; status = none; body = [] }

abbrev pub or_status : Option ℕ → ℕ → ℕ
or_status none code = code
or_status (some s) code = s

-- The status that the client gets: 200 where a handler returns and has written nothing.
abbrev pub status_of : {S : Type 0} → Exchange S → ℕ
status_of x = or_status x.status 200

abbrev pub internal_server_error : ℕ
internal_server_error = 500

abbrev pub unauthorized : ℕ
unauthorized = 401

abbrev pub not_found : ℕ
not_found = 404

abbrev pub created : ℕ
created = 201

module _ {S : Type 0} where
  -- w.WriteHeader(code): only the first one counts.
  unfoldable pub write_header : ℕ → Go (Exchange S) (Unit {0})
  write_header code x = (ret tt, record x { status = some (or_status x.status code) })

  -- w.Write(b), whose error no handler looks at
  unfoldable pub write : Text → Go (Exchange S) (Unit {0})
  write b x = (ret tt, record x { status = some (or_status x.status 200); body = x.body ++ b })

  -- `if failed { w.WriteHeader(code) }`
  unfoldable pub header_if : Bool → ℕ → Go (Exchange S) (Unit {0})
  unfolding write_header
  header_if true code = write_header code
  header_if false code = pure tt

  -- A call that changes the state of the program alone.
  unfoldable pub with_state : {A : Type 0} → Go S A → Go (Exchange S) A
  with_state m x = ((m x.state).0, record x { state = (m x.state).1 })
