-- ===== src/Registry/Catalog.antt =====
-- InitDB of pkg/registry/mysqlredisregistry.go and the five functions that create the tables, on the
-- catalog of the database.
pub mod Closed
pub mod Complete
use coap_gateway.Prelude.{ℕ, suc, Bool, true, false, ◌||◌, List, [], ◌∷◌, any, if◌then◌else◌, not}
use coap_gateway.Go.{Go, Outcome, ret, pure, fatal, ◌>>=◌, ◌>>◌}

pub data TableName : Type 0 where
  user_table mediator_table token_table client_table device_table : TableName

abbrev pub same_table : TableName → TableName → Bool
same_table user_table user_table = true
same_table mediator_table mediator_table = true
same_table token_table token_table = true
same_table client_table client_table = true
same_table device_table device_table = true
same_table _ _ = false

-- The tables that the FOREIGN KEY clauses of a CREATE TABLE refer to.
abbrev pub references : TableName → List TableName
references user_table = []
references mediator_table = user_table ∷ []
references token_table = []
references client_table = user_table ∷ mediator_table ∷ token_table ∷ []
references device_table = user_table ∷ mediator_table ∷ token_table ∷ []

-- The tables that exist, and the number of calls to the server so far.
pub record Catalog : Type 0 where
  pub tables : List TableName
  pub calls : ℕ

abbrev pub exists_in : List TableName → TableName → Bool
exists_in tables n = any (same_table n) tables

abbrev pub all_exist : List TableName → List TableName → Bool
all_exist tables [] = true
all_exist tables (n ∷ ns) = if exists_in tables n then all_exist tables ns else false

-- Which calls fail in the driver or in the server.
module _ (fault : ℕ → Bool) where
  -- CREATE TABLE IF NOT EXISTS: whether there is an error. A table that exists is left as it is,
  -- and a reference to a table that does not exist is refused.
  unfoldable pub create : TableName → Go Catalog Bool
  create n c =
      if fault c.calls
      then (ret true, record c { calls = suc c.calls })
      else (if exists_in c.tables n
          then (ret false, record c { calls = suc c.calls })
          else (if all_exist c.tables (references n)
              then (ret false, record { tables = n ∷ c.tables; calls = suc c.calls })
              else (ret true, record c { calls = suc c.calls })))

  -- db.Prepare
  unfoldable pub prepare : Go Catalog Bool
  prepare c = (ret (fault c.calls), record c { calls = suc c.calls })

  unfoldable pub unless_unprepared : Bool → Go Catalog Bool
  unless_unprepared true = pure true
  unless_unprepared false = create user_table

  unfoldable pub create_user_table : Go Catalog Bool
  unfolding unless_unprepared prepare
  create_user_table = prepare >>= λ failed. unless_unprepared failed

  -- log.Fatal
  unfoldable pub fatal_if : Bool → Go Catalog (Unit {0})
  fatal_if true = fatal
  fatal_if false = pure tt

  unfoldable pub create_mediator_table : Go Catalog Bool
  unfolding fatal_if
  create_mediator_table = do failed ← create mediator_table; fatal_if failed; pure failed

  unfoldable pub create_token_table : Go Catalog Bool
  create_token_table = create token_table

  unfoldable pub create_client_table : Go Catalog Bool
  create_client_table = create client_table

  unfoldable pub create_device_table : Go Catalog Bool
  create_device_table = create device_table

  -- The errors are only logged, and nil is returned.
  unfoldable pub init_tables : Go Catalog (Unit {0})
  init_tables = do
    create_user_table
    create_mediator_table
    create_token_table
    create_client_table
    create_device_table
    pure tt
