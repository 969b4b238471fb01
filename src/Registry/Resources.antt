-- ===== src/Registry/Resources.antt =====
-- PublishResource and FindDevice of pkg/registry/mysqlredisregistry.go.
pub mod Silence
use coap_gateway.Prelude.{
  ℕ, zero, suc, ◌+◌, ◌-◌, ◌≡◌, Bool, true, false, not, ◌&&◌, Option, none, some, List, [], ◌∷◌,
  ◌++◌, if◌then◌else◌, length, ltb, ◌==◌,
}
use coap_gateway.Prelude.Int.{ℤ, pos}
use coap_gateway.Prelude.Text.{Text, codes, text_eq}
use coap_gateway.Go.{Go, Outcome, ret, panics, pure, panic, gets, ◌>>=◌, ◌>>◌}
use coap_gateway.Registry.World.{
  Engine, World, Err, no_rows, cache_nil, mediator_token_not_found, random_failed, driver, Result,
  ok, err, error_of, exec, query_row, new_token, cache_set, cache_get, last_insert_id,
  rows_affected, ExecResult,
}
use coap_gateway.Prelude.{take, drop}
use coap_gateway.Registry.Statements.{publish, select_resources}

module _ (e : Engine) where
  -- The number of rows is only logged.
  unfoldable pub publish_resource : Text → Text → Go World (Option Err)
  publish_resource json device_id = do
    result ← exec e (publish e json device_id)
    rows ← rows_affected result
    pure none

-- s[:len(s)-k] and s[len(s)-k:] panic if the bound is negative.
abbrev pub slice_to_end_minus : ℕ → Text → Outcome Text
slice_to_end_minus k s = if ltb (length s) k then panics else ret (take (length s - k) s)

abbrev pub slice_from_end_minus : ℕ → Text → Outcome Text
slice_from_end_minus k s = if ltb (length s) k then panics else ret (drop (length s - k) s)

-- links[:len(links)-2] + "," + tempStr + links[len(links)-1:]
unfoldable pub splice : Text → Text → Outcome Text
splice links temp = elim (slice_to_end_minus 2 links) [
  | ret front ↦ elim (slice_from_end_minus 1 links) [
    | ret back ↦ ret (front ++ codes "," ++ temp ++ back)
    | _ ↦ panics
  ]
  | _ ↦ panics
]

module _ (e : Engine) where
  -- A slice out of bounds ends the loop by a panic.
  abbrev pub next_row :
      Outcome Text → (Text → Go World (Text × Option Err)) → Go World (Text × Option Err)
  next_row (ret links) k = k links
  next_row _ k = λ w. (panics, w)

  -- One round for each row; `rows.Scan` into a string fails on NULL and leaves it as it was.
  unfoldable pub join_rows : List (Option Text) → Text → Text → Go World (Text × Option Err)
  unfolding splice pure
  join_rows [] links temp = pure ([], none)
  join_rows (none ∷ rows) links temp = next_row (splice links temp) (λ l. pure ([], some driver))
  join_rows (some row ∷ rows) links temp =
      next_row (splice links row) (λ links'. join_rows rows links' row)

  unfoldable pub find_rows : Result (List (Option Text)) → Go World (Text × Option Err)
  find_rows (err x) = pure ([], some x)
  find_rows (ok rows) = join_rows rows (codes "[]") []

  unfoldable pub find_device : Text → Go World (Text × Option Err)
  unfolding join_rows find_rows
  find_device user_id =
      query_row e (λ w. some (select_resources e user_id w.db)) >>= λ found. find_rows found
