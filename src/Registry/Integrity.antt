-- ===== src/Registry/Integrity.antt =====
-- The constraints of the schema that the database keeps: distinct AUTO_INCREMENT keys below the
-- next one, UNIQUE columns under their collation, and FOREIGN KEY references that exist.
mod Inserts
mod Updates
pub mod Statements
pub mod Operations
pub mod Services
pub mod Histories
use coap_gateway.Prelude.{
  ℕ, ◌≡◌, refl, Bool, true, false, Option, none, some, List, [], ◌∷◌, any, All, arith, ◌&&◌, ◌||◌,
}
use coap_gateway.Prelude.Text.{Text}
use coap_gateway.Registry.Schema.{
  User, Mediator, Token, Client, Device, Database, has_user, has_mediator, has_token, device_refs,
  client_refs, init_db,
}
use coap_gateway.Registry.World.{Engine, ExecResult}
use coap_gateway.Registry.Rows.{Descending}
use coap_gateway.Registry.Statements.{only_if, ◌>>=◌}

module _ (e : Engine) where
  -- A UNIQUE KEY on a column.
  abbrev pub Unique : {R : Type 0} → (R → Text) → List R → Type 0
  Unique column [] = Unit {0}
  Unique column (r ∷ rs) =
      (any (λ s. e.collate (column s) (column r)) rs ≡ false) × Unique column rs

  pub record WellFormed (d : Database) : Type 0 where
    pub user_ids : Descending (λ (u : User). u.user_id) d.users.next d.users.rows
    pub mediator_ids :
        Descending (λ (m : Mediator). m.mediator_id) d.mediators.next d.mediators.rows
    pub token_ids : Descending (λ (t : Token). t.token_id) d.tokens.next d.tokens.rows
    pub client_ids : Descending (λ (r : Client). r.client_id) d.clients.next d.clients.rows
    pub device_ids : Descending (λ (r : Device). r.device_id) d.devices.next d.devices.rows
    pub usernames : Unique (λ (u : User). u.username) d.users.rows
    pub mediator_tokens : Unique (λ (m : Mediator). m.mediator_token) d.mediators.rows
    pub mediator_users : All (λ (m : Mediator). has_user d m.user_id ≡ true) d.mediators.rows
    pub clients_refer : All (λ (r : Client). client_refs d r ≡ true) d.clients.rows
    pub devices_refer : All (λ (r : Device). device_refs d r ≡ true) d.devices.rows

  pub init_db-WellFormed : WellFormed init_db
  init_db-WellFormed = omega arith

-- The database that a statement leaves behind, if it is not refused.
abbrev pub Leaves : (Database → Type 0) → Option (Database × ExecResult) → Type 0
Leaves P none = Unit {0}
Leaves P (some (d, r)) = P d

-- One rule for each way to build a statement.
module _ (P : Database → Type 0) where
  pub Leaves-bind {ℓ} :
      {A : Type ℓ} (o : Option A) (f : A → Option (Database × ExecResult))
      → ((a : A) → o ≡ some a → Leaves P (f a))
      → Leaves P (o >>= f)
  Leaves-bind none f h = tt
  Leaves-bind (some a) f h = h a refl

  pub Leaves-only_if :
      (b : Bool) (d : Database) (r : ExecResult) → P d → Leaves P (only_if b (some (d, r)))
  Leaves-only_if true d r h = h
  Leaves-only_if false d r h = tt

  pub Leaves-some :
      (o : Option (Database × ExecResult)) (d : Database) (r : ExecResult)
      → Leaves P o
      → o ≡ some (d, r)
      → P d
  Leaves-some o d r h q = rw q at h

pub Leaves-each :
    (P : Database → Type 0) (o : Option (Database × ExecResult))
    → ((d : Database) (r : ExecResult) → o ≡ some (d, r) → P d)
    → Leaves P o
Leaves-each P none h = tt
Leaves-each P (some (d, r)) h = h d r refl

pub Leaves-map :
    (P Q : Database → Type 0) (o : Option (Database × ExecResult))
    → ((d : Database) → P d → Q d)
    → Leaves P o
    → Leaves Q o
Leaves-map P Q none k h = tt
Leaves-map P Q (some (d, r)) k h = k d h

-- A reference stays good while no key goes away.
module _ (d d' : Database) where
  pub record Grows : Type 0 where
    pub users : (i : ℕ) → has_user d i ≡ true → has_user d' i ≡ true
    pub mediators : (i : ℕ) → has_mediator d i ≡ true → has_mediator d' i ≡ true
    pub tokens : (i : ℕ) → has_token d i ≡ true → has_token d' i ≡ true

  pub device_refs_mono : Grows → (r : Device) → device_refs d r ≡ true → device_refs d' r ≡ true
  device_refs_mono g r h =
      ground (arith, g.users r.user_id, g.mediators r.mediator_id, g.tokens r.token_id)

  pub client_refs_mono : Grows → (r : Client) → client_refs d r ≡ true → client_refs d' r ≡ true
  client_refs_mono g r h =
      ground (arith, g.users r.user_id, g.mediators r.mediator_id, g.tokens r.token_id)
