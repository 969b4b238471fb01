-- ===== src/Northbound.antt =====
-- cmd/northbound-interface/handlers.go: the HTTP interface for users, mediators and clients. JSON and
-- the HTTP client are parameters.
pub mod Accounts
pub mod Provisioning
pub mod Clients
pub mod Routing
pub mod Bearer
pub mod Kept
pub mod Routes
use coap_gateway.Prelude.{ℕ, Bool, true, false, Option, none, some, List, [], ◌∷◌}
use coap_gateway.Prelude.Int.{ℤ, pos}
use coap_gateway.Prelude.Text.{Text, codes}
use coap_gateway.Go.{Go, Outcome, ret, pure, panic}
use coap_gateway.Http.{Exchange, with_state}
use coap_gateway.Http.Strings.{contains, split}

-- type Account
pub record Account : Type 0 where
  pub device_id : Text
  pub auth_provider : Text
  pub access_token : Text
  pub refresh_token : Text
  pub token_ttl : ℤ
  pub user_id : Text
  pub logged_in : Bool

-- Account{}
abbrev pub no_account : Account
no_account = record {
  device_id = [];
  auth_provider = [];
  access_token = [];
  refresh_token = [];
  token_ttl = pos 0;
  user_id = [];
  logged_in = false;
}

-- Account{AccessToken: token}
abbrev pub token_account : Text → Account
token_account token = record no_account { access_token = token }

-- encoding/json: Unmarshal hands back what it has filled in, and whether there was an error; the
-- error of Marshal is `none`.
pub record Json : Type 0 where
  pub decode : Text → Account × Bool
  pub encode : Account → Option Text

-- The bytes that Marshal returns, nil beside an error.
abbrev pub bytes_of : Option Text → Text
bytes_of none = []
bytes_of (some b) = b

-- A POST of http.Post with the content type application/json.
pub record Post : Type 0 where
  pub endpoint : Text
  pub body : Text

-- The registry's state, and the requests that went out, the last one first.
pub record Site (S : Type 0) : Type 0 where
  pub store : S
  pub posts : List Post

module _ {S : Type 0} where
  unfoldable pub with_registry : {A : Type 0} → Go S A → Go (Exchange (Site S)) A
  with_registry m x =
      ((m x.state.store).0, record x { state = record x.state { store = (m x.state.store).1 } })

  -- `…[1]` of a slice
  unfoldable pub second_of : List Text → Go (Exchange (Site S)) Text
  second_of [] = panic
  second_of (a ∷ []) = panic
  second_of (a ∷ b ∷ fields) = pure b

  -- The mediator token of an Authorization header.
  unfoldable pub mediator_token : Text → Go (Exchange (Site S)) Text
  unfolding second_of
  mediator_token header = elim (contains header (codes "Bearer")) [
    | true ↦ second_of (split header (codes "Bearer "))
    | false ↦ pure header
  ]
