-- ===== src/Registry/Owned.antt =====
-- Which rows refer to a token: no two devices or clients share one.
pub mod Provisions
pub mod Calls
pub mod Joins
pub mod Deletions
pub mod Interleaved
pub mod Runs
use coap_gateway.Prelude.{ℕ, suc, ◌+◌, ◌≤◌, ◌<◌, ◌≡◌, refl, Bool, List, [], ◌∷◌, map, arith, ◌==◌}
use coap_gateway.Registry.Schema.{Client, Device, Database, init_db}
use coap_gateway.Registry.Statements.{count, keep}

-- The rows that refer to the token with an id.
abbrev pub uses : ℕ → List Device → List Client → ℕ
uses i devices clients =
    count (λ (r : Device). r.token_id == i) devices
    + count (λ (r : Client). r.token_id == i) clients

-- A token has at most one row, and one whose id is still to be given has none.
pub record OwnedRows (devices : List Device) (clients : List Client) (next : ℕ) : Type 0 where
  pub once : (i : ℕ) → uses i devices clients ≤ 1
  pub fresh : (i : ℕ) → next ≤ i → uses i devices clients ≡ 0

abbrev pub Owned : Database → Type 0
Owned d = OwnedRows d.devices.rows d.clients.rows d.tokens.next

pub init_db-Owned : Owned init_db
init_db-Owned = record { once = λ i. omega arith; fresh = λ i h. refl }

-- An id that has been given and that no row refers to.
pub record Reserved (i : ℕ) (d : Database) : Type 0 where
  pub owned : Owned d
  pub given : i < d.tokens.next
  pub unused : uses i d.devices.rows d.clients.rows ≡ 0

module _ {R : Type 0} (p : R → Bool) where
  pub count-keep : (q : R → Bool) (rs : List R) → count p (keep q rs) ≤ count p rs
  count-keep q [] = omega arith
  count-keep q (r ∷ rs) = ground (arith, count-keep q rs)

  pub count-map :
      (f : R → R) (rs : List R) → ((r : R) → p (f r) ≡ p r) → count p (map f rs) ≡ count p rs
  count-map f [] h = refl
  count-map f (r ∷ rs) h = rw (h r, count-map f rs h) refl

-- A new row with an unused id.
module _ (i : ℕ) (d : Database) (v : Reserved i d) where
  pub push_device-Owned :
      (r : Device) → r.token_id ≡ i → OwnedRows (r ∷ d.devices.rows) d.clients.rows d.tokens.next
  push_device-Owned r q = record {
    once = λ j. ground (arith, v.owned.once j, v.unused);
    fresh = λ j h. ground (arith, v.owned.fresh j, v.given);
  }

  pub push_client-Owned :
      (r : Client) → r.token_id ≡ i → OwnedRows d.devices.rows (r ∷ d.clients.rows) d.tokens.next
  push_client-Owned r q = record {
    once = λ j. ground (arith, v.owned.once j, v.unused);
    fresh = λ j h. ground (arith, v.owned.fresh j, v.given);
  }
