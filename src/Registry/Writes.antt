-- ===== src/Registry/Writes.antt =====
-- The statements of pkg/registry/mysqlredisregistry.go that change the tables, as one type, and what
-- they may be relied on to keep.
pub mod Lasting
use coap_gateway.Prelude.{ℕ, ◌≡◌, refl, Option, none, some, List, [], ◌∷◌, inl, inr, Option-cases}
use coap_gateway.Prelude.Text.{Text}
use coap_gateway.Registry.Schema.{Database}
use coap_gateway.Registry.World.{Engine, Statement, ExecResult}
use coap_gateway.Registry.Statements.{
  insert_user, insert_mediator, insert_token, insert_device, insert_client, renew_token,
  reissue_token, publish, delete_device, delete_client,
}
use coap_gateway.Registry.Integrity.{Leaves}

-- A statement with its arguments.
pub data Write : Type 0 where
  user_insertion : Text → Text → Text → Write
  mediator_insertion : Option ℕ → Text → Write
  token_insertion : Text → Write
  device_insertion client_insertion : Option ℕ → Option ℕ → ℕ → Text → Write
  renewal : Text → Text → ℕ → ℕ → Option ℕ → Write
  reissue : Text → ℕ → ℕ → Text → Write
  publication device_deletion client_deletion : Text → Text → Write

module _ (e : Engine) where
  unfoldable pub statement : Write → Statement
  statement (user_insertion a b c) = insert_user e a b c
  statement (mediator_insertion u t) = insert_mediator e u t
  statement (token_insertion t) = insert_token e t
  statement (device_insertion u m t i) = insert_device e u m t i
  statement (client_insertion u m t i) = insert_client e u m t i
  statement (renewal r a now ttl i) = renew_token e r a now ttl i
  statement (reissue a now ttl r) = reissue_token e a now ttl r
  statement (publication json id) = publish e json id
  statement (device_deletion id access) = delete_device e id access
  statement (client_deletion id access) = delete_client e id access

  -- A refused statement changes nothing.
  abbrev pub outcome_of : Database → Option (Database × ExecResult) → Database
  outcome_of d none = d
  outcome_of d (some (d', r)) = d'

  -- The tables after these statements, the last one first.
  unfoldable pub write_all : List Write → Database → Database
  write_all [] d = d
  write_all (x ∷ xs) d = let rest = write_all xs d in outcome_of rest (statement x rest)

  -- A property of the tables that every statement keeps.
  pub record Durable (P : Database → Type 0) : Type 0 where
    pub insert_user : (a b c : Text) (d : Database) → P d → Leaves P (insert_user e a b c d)
    pub insert_mediator :
        (u : Option ℕ) (t : Text) (d : Database) → P d → Leaves P (insert_mediator e u t d)
    pub insert_token : (t : Text) (d : Database) → P d → Leaves P (insert_token e t d)
    pub insert_device :
        (u m : Option ℕ) (t : ℕ) (i : Text) (d : Database)
        → P d
        → Leaves P (insert_device e u m t i d)
    pub insert_client :
        (u m : Option ℕ) (t : ℕ) (i : Text) (d : Database)
        → P d
        → Leaves P (insert_client e u m t i d)
    pub renew_token :
        (r a : Text) (now ttl : ℕ) (i : Option ℕ) (d : Database)
        → P d
        → Leaves P (renew_token e r a now ttl i d)
    pub reissue_token :
        (a : Text) (now ttl : ℕ) (r : Text) (d : Database)
        → P d
        → Leaves P (reissue_token e a now ttl r d)
    pub publish : (json id : Text) (d : Database) → P d → Leaves P (publish e json id d)
    pub delete_device :
        (id access : Text) (d : Database) → P d → Leaves P (delete_device e id access d)
    pub delete_client :
        (id access : Text) (d : Database) → P d → Leaves P (delete_client e id access d)
