-- ===== src/Registry/Preserves.antt =====
-- What a piece of the registry's code keeps of the database, and that it returns or panics.
use coap_gateway.Prelude.{ℕ, ◌≡◌, refl, false, some, Option, inl, inr, Option-cases, arith}
use coap_gateway.Prelude.Text.{Text}
use coap_gateway.Go.{Go, ret, gets}
use coap_gateway.Go.Kept.{Keeps, Keeps-pure, Keeps-panic, kept_steps}
use coap_gateway.Registry.Schema.{Database}
use coap_gateway.Registry.World.{
  Engine, World, Result, ok, err, ExecResult, Statement, tick, exec, query_row, new_token,
  cache_set, cache_get, last_insert_id, rows_affected,
}
use coap_gateway.Registry.Integrity.{Leaves}

-- A property of the tables, as one of the world.
abbrev pub InTables : (Database → Type 0) → World → Type 0
InTables P w = P w.db

abbrev pub Preserves {ℓ} : {A : Type ℓ} → (Database → Type 0) → Go World A → Type ℓ
Preserves P m = Keeps false (InTables P) m

-- A statement that the server takes, in a call that does not fail.
pub exec-taken :
    (e : Engine) (s : Statement) (w : World) (d : Database) (r : ExecResult)
    → e.fault w.calls ≡ false
    → s w.db ≡ some (d, r)
    → exec e s w ≡ (ret (ok r), record (tick w) { db = d })
unfolding exec
exec-taken e s w d r f q = rw (f, q) refl

-- An execution that gives a result is the statement's.
pub exec-ok :
    (e : Engine) (s : Statement) (w : World) (r : ExecResult)
    → (exec e s w).0 ≡ ret (ok r)
    → s w.db ≡ some ((exec e s w).1.db, r)
unfolding exec
exec-ok e s w r q = elim (Option-cases (s w.db)) [
  | inl n ↦ absurd (ground (arith, n))
  | inr (p, n) ↦ ground (arith, n)
]

module _ (P : Database → Type 0) where
  pub Preserves-gets {ℓ} : {A : Type ℓ} (f : World → A) → Preserves P (gets f)
  unfolding gets
  Preserves-gets f = record { after = λ w h. h; ends = λ w. tt }

  pub Preserves-last_insert_id : (r : Result ExecResult) → Preserves P (last_insert_id r)
  unfolding last_insert_id
  Preserves-last_insert_id (ok r) = Keeps-pure r.last_id
  Preserves-last_insert_id (err x) = Keeps-panic

  pub Preserves-rows_affected : (r : Result ExecResult) → Preserves P (rows_affected r)
  unfolding rows_affected
  Preserves-rows_affected (ok r) = Keeps-pure r.affected
  Preserves-rows_affected (err x) = Keeps-panic

  module _ (e : Engine) where
    pub exec-after : (s : Statement) (w : World) → P w.db → Leaves P (s w.db) → P (exec e s w).1.db
    unfolding exec
    exec-after s w h k = elim (Option-cases (s w.db)) [
      | inl q ↦ rw (q, exec) (ground arith)
      | inr (r, q) ↦ let left : P r.0 = (rw q at k) in rw (q, exec) (ground (arith, left))
    ]

    pub Preserves-exec :
        (s : Statement) → ((d : Database) → P d → Leaves P (s d)) → Preserves P (exec e s)
    unfolding exec
    Preserves-exec s k = record {
      after = λ w h. exec-after s w h (k w.db h);
      ends = λ w. ground arith;
    }

    pub Preserves-query_row {ℓ} :
        {A : Type ℓ} (select : World → Option A) → Preserves P (query_row e select)
    unfolding query_row
    Preserves-query_row select = record { after = λ w h. ground arith; ends = λ w. ground arith }

    pub Preserves-new_token : Preserves P (new_token e)
    unfolding new_token
    Preserves-new_token = record { after = λ w h. h; ends = λ w. tt }

    pub Preserves-cache_set : (k v : Text) (ttl : ℕ) → Preserves P (cache_set e k v ttl)
    unfolding cache_set
    Preserves-cache_set k v ttl = record { after = λ w h. ground arith; ends = λ w. ground arith }

    pub Preserves-cache_get : (k : Text) → Preserves P (cache_get e k)
    unfolding cache_get
    Preserves-cache_get k = record { after = λ w h. ground arith; ends = λ w. ground arith }

pub ruleset steps = (
  kept_steps, Preserves-gets, Preserves-query_row, Preserves-new_token, Preserves-cache_set,
  Preserves-cache_get, Preserves-last_insert_id, Preserves-rows_affected,
)
