-- ===== src/Registry/Schema.antt =====
-- The MySQL tables of pkg/registry/mysqlredisregistry.go: a record for a row of each CREATE TABLE,
-- with the columns that some statement of the program writes or reads, and the database.
use coap_gateway.Prelude.{ℕ, Bool, ◌&&◌, Option, List, [], any, ◌==◌}
use coap_gateway.Prelude.Text.{Text}

-- createUserTable
pub record User : Type 0 where
  pub user_id : ℕ
  pub authz_provider : Text
  pub username : Text
  pub token : Text

-- createMediatorTable
pub record Mediator : Type 0 where
  pub mediator_id : ℕ
  pub user_id : ℕ
  pub mediator_token : Text

-- createTokenTable; `expires_in` is a datetime, kept as seconds of the server's clock
pub record Token : Type 0 where
  pub token_id : ℕ
  pub refresh_token : Option Text
  pub access_token : Text
  pub expires_in : Option ℕ

-- createClientTable
pub record Client : Type 0 where
  pub client_id : ℕ
  pub user_id : ℕ
  pub mediator_id : ℕ
  pub token_id : ℕ
  pub client_uuid : Text

-- createDeviceTable
pub record Device : Type 0 where
  pub device_id : ℕ
  pub user_id : ℕ
  pub published_resources : Option Text
  pub logged_in : Bool
  pub mediator_id : ℕ
  pub token_id : ℕ
  pub device_uuid : Text

-- Each table with its rows, the newest first, and the next value of its AUTO_INCREMENT key.
pub record Table (R : Type 0) : Type 0 where
  pub rows : List R
  pub next : ℕ

pub record Database : Type 0 where
  pub users : Table User
  pub mediators : Table Mediator
  pub tokens : Table Token
  pub clients : Table Client
  pub devices : Table Device

-- The tables that InitDB creates.
abbrev pub empty_table : {R : Type 0} → Table R
empty_table = record { rows = []; next = 1 }

abbrev pub init_db : Database
init_db = record {
  users = empty_table;
  mediators = empty_table;
  tokens = empty_table;
  clients = empty_table;
  devices = empty_table;
}

-- The keys that the FOREIGN KEY constraints refer to.
abbrev pub has_user : Database → ℕ → Bool
has_user d i = any (λ u. u.user_id == i) d.users.rows

abbrev pub has_mediator : Database → ℕ → Bool
has_mediator d i = any (λ m. m.mediator_id == i) d.mediators.rows

abbrev pub has_token : Database → ℕ → Bool
has_token d i = any (λ t. t.token_id == i) d.tokens.rows

-- FK_26, FK_53 and FK_66 of a device
abbrev pub device_refs : Database → Device → Bool
device_refs d r = has_user d r.user_id && (has_mediator d r.mediator_id && has_token d r.token_id)

-- FK_18, FK_50 and FK_69 of a client
abbrev pub client_refs : Database → Client → Bool
client_refs d r = has_user d r.user_id && (has_mediator d r.mediator_id && has_token d r.token_id)
