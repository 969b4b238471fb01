-- ===== src/Registry/Statements/Tables.antt =====
-- What the statements do with the rows of a table.
use coap_gateway.Prelude.{
  ℕ, suc, Bool, true, false, ◌&&◌, Option, none, some, List, [], ◌∷◌, if◌then◌else◌,
}
use coap_gateway.Registry.Schema.{Table}
use coap_gateway.Registry.World.{ExecResult}

infixl 5 ◌>>=◌
abbrev pub ◌>>=◌ {ℓ κ} : {A : Type ℓ} {B : Type κ} → Option A → (A → Option B) → Option B
none >>= f = none
some a >>= f = f a

-- The first value that `f` gives for a row, the oldest row first.
unfoldable pub oldest {ℓ} : {R : Type 0} {A : Type ℓ} → (R → Option A) → List R → Option A
oldest f [] = none
oldest f (r ∷ rs) = elim (oldest f rs) [ some a ↦ some a | none ↦ f r ]

abbrev pub push : {R : Type 0} → R → Table R → Table R
push r t = record { rows = r ∷ t.rows; next = suc t.next }

abbrev pub only_if {ℓ} : {A : Type ℓ} → Bool → Option A → Option A
only_if b o = if b then o else none

abbrev pub inserted : ℕ → ExecResult
inserted i = record { last_id = i; affected = 1 }

abbrev pub count : {R : Type 0} → (R → Bool) → List R → ℕ
count p [] = 0
count p (r ∷ rs) = if p r then suc (count p rs) else count p rs

abbrev pub keep : {R : Type 0} → (R → Bool) → List R → List R
keep p [] = []
keep p (r ∷ rs) = if p r then r ∷ keep p rs else keep p rs

abbrev pub all_rows : {R : Type 0} → (R → Bool) → List R → Bool
all_rows p [] = true
all_rows p (r ∷ rs) = p r && all_rows p rs

abbrev pub option_eq {ℓ} : {A : Type ℓ} → (A → A → Bool) → Option A → Option A → Bool
option_eq eq none none = true
option_eq eq (some a) (some b) = eq a b
option_eq eq none (some b) = false
option_eq eq (some a) none = false
