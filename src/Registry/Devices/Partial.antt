-- ===== src/Registry/Devices/Partial.antt =====
-- What a provisioning that fails in its middle leaves behind.
use coap_gateway.Prelude.{
  ℕ, suc, ◌≡◌, refl, Bool, true, false, Option, none, some, List, [], arith, Bool-cases,
  Option-cases, ◌⊎◌, inl, inr,
}
use coap_gateway.Prelude.Text.{Text}
use coap_gateway.Go.{Outcome, ret, panics, ◌>>=◌}
use coap_gateway.Token.{encode_to_string, generate_random_string}
use coap_gateway.Registry.Schema.{Database}
use coap_gateway.Registry.World.{
  Engine, World, Err, no_rows, driver, mediator_token_not_found, random_failed, ExecResult, exec,
  query_row, new_token, last_insert_id,
}
use coap_gateway.Registry.Statements.{select_mediator, insert_token, insert_device}
use coap_gateway.Registry.Devices.{provision_device}

module _ (e : Engine) (w : World) (uuid mediator_token : Text) where
  -- Nothing is inserted, and the call panics or returns an error with no token.
  abbrev pub Untouched : Outcome (Text × Option Err) × World → Type 0
  Untouched p = (p.1.db ≡ w.db) × ((p.0 ≡ panics) ⊎ ((x : Err) × (p.0 ≡ ret ([], some x))))

  -- A token is inserted and no device: the token comes back beside an error, or the answer to the
  -- insertion was lost and the call panics.
  abbrev pub Orphaned : Outcome (Text × Option Err) × World → Type 0
  Orphaned p =
      (t : Text) × (r : ExecResult) × (insert_token e t w.db ≡ some (p.1.db, r))
      × ((p.0 ≡ ret (t, some driver)) ⊎ ((p.0 ≡ panics) × (e.lost (suc (suc w.calls)) ≡ true)))

  -- A token is inserted for the token that comes back, and the device with the token's key; beside an
  -- error only if the answer to the second insertion was lost.
  abbrev pub Complete : Outcome (Text × Option Err) × World → Type 0
  Complete p =
      (t : Text) × (m : ℕ) × (u : Option ℕ) × (d : Database) × (r s : ExecResult) × (select_mediator
          e mediator_token w.db
        ≡ some (some m, u))
      × (insert_token e t w.db ≡ some (d, r))
      × (insert_device e u (some m) r.last_id uuid d ≡ some (p.1.db, s))
      × ((p.0 ≡ ret (t, none))
          ⊎ ((p.0 ≡ ret (t, some driver)) × (e.lost (suc (suc (suc w.calls))) ≡ true)))

  abbrev pub Ends : Outcome (Text × Option Err) × World → Type 0
  Ends p = Untouched p ⊎ (Orphaned p ⊎ Complete p)

  module _ (m : ℕ) (u : Option ℕ) (bytes : List ℕ)
      (found : select_mediator e mediator_token w.db ≡ some (some m, u))
      (f0 : e.fault w.calls ≡ false) (drawn : e.random (suc w.calls) ≡ some bytes) where
    abbrev fresh : Text
    fresh = encode_to_string bytes

    -- After the insertion of the token has given a result.
    filling-Ends :
        (d : Database) (r : ExecResult)
        → e.fault (suc (suc w.calls)) ≡ false
        → insert_token e fresh w.db ≡ some (d, r)
        → (o : Option (Database × ExecResult)) → insert_device e u (some m) r.last_id uuid d ≡ o
        → (bad lost : Bool) → e.fault (suc (suc (suc w.calls))) ≡ bad
        → e.lost (suc (suc (suc w.calls))) ≡ lost
        → Ends (provision_device e uuid mediator_token w)
    unfolding provision_device query_row new_token exec last_insert_id generate_random_string ◌>>=◌
    filling-Ends d r f q none i bad lost b l = inr (
        inl (
          fresh,
          r,
          ground (arith, found, f0, drawn, f, q, b, i, l),
          inl (ground (arith, found, f0, drawn, f, q, b, i)),
        ))
    filling-Ends d r f q (some (d', s)) i false lost b l = inr (
        inr (
          fresh,
          m,
          u,
          d,
          r,
          s,
          found,
          q,
          ground (arith, found, f0, drawn, f, q, b, i),
          inl (ground (arith, found, f0, drawn, f, q, b, i)),
        ))
    filling-Ends d r f q (some (d', s)) i true true b l = inr (
        inr (
          fresh,
          m,
          u,
          d,
          r,
          s,
          found,
          q,
          ground (arith, found, f0, drawn, f, q, b, i, l),
          inr (ground (arith, found, f0, drawn, f, q, b, i), l),
        ))
    filling-Ends d r f q (some (d', s)) i true false b l = inr (
        inl (
          fresh,
          r,
          ground (arith, found, f0, drawn, f, q, b, i, l),
          inl (ground (arith, found, f0, drawn, f, q, b, i)),
        ))

    inserting-Ends :
        (o : Option (Database × ExecResult))
        → insert_token e fresh w.db ≡ o
        → (bad lost : Bool) → e.fault (suc (suc w.calls)) ≡ bad
        → e.lost (suc (suc w.calls)) ≡ lost
        → Ends (provision_device e uuid mediator_token w)
    unfolding provision_device query_row new_token exec last_insert_id generate_random_string ◌>>=◌
    inserting-Ends none q bad lost f l =
        inl
          (ground (arith, found, f0, drawn, f, q, l), inl (ground (arith, found, f0, drawn, f, q)))
    inserting-Ends (some (d, r)) q true false f l =
        inl
          (ground (arith, found, f0, drawn, f, q, l), inl (ground (arith, found, f0, drawn, f, q)))
    inserting-Ends (some (d, r)) q true true f l = inr (
        inl (
          fresh,
          r,
          ground (arith, found, f0, drawn, f, q, l),
          inr (ground (arith, found, f0, drawn, f, q), l),
        ))
    inserting-Ends (some (d, r)) q false lost f l =
        filling-Ends d r f q (insert_device e u (some m) r.last_id uuid d) refl
          (e.fault (suc (suc (suc w.calls)))) (e.lost (suc (suc (suc w.calls)))) refl refl

    known-Ends : Ends (provision_device e uuid mediator_token w)
    known-Ends =
        inserting-Ends (insert_token e fresh w.db) refl (e.fault (suc (suc w.calls)))
          (e.lost (suc (suc w.calls))) refl refl

  selected-Ends :
      (p : Option ℕ × Option ℕ)
      → e.fault w.calls ≡ false
      → select_mediator e mediator_token w.db ≡ some p
      → Ends (provision_device e uuid mediator_token w)
  unfolding provision_device query_row new_token exec last_insert_id generate_random_string ◌>>=◌
  selected-Ends (none, u) good q =
      inl (ground (arith, good, q), inr (mediator_token_not_found, ground (arith, good, q)))
  selected-Ends (some m, u) good q = elim (Option-cases (e.random (suc w.calls))) [
    | inl n ↦ inl (ground (arith, good, q, n), inr (random_failed, ground (arith, good, q, n)))
    | inr (bytes, d) ↦ known-Ends m u bytes q good d
  ]

  -- Whatever fails, also where a server carries a statement out and its answer is lost, a provisioning
  -- ends in one of three ways. The database stays, and the call panics or returns an error and no
  -- token. Or a token is inserted but no device, and the token comes back beside an error, or the call
  -- panics if the answer to this insertion was lost. Or both are inserted, and the token comes back,
  -- with no error or, if the answer to the second insertion was lost, with one.
  pub provision_device-Ends : Ends (provision_device e uuid mediator_token w)
  unfolding provision_device query_row new_token exec last_insert_id ◌>>=◌
  provision_device-Ends = elim (Bool-cases (e.fault w.calls)) [
    | inl bad ↦ inl (ground (arith, bad), inr (driver, ground (arith, bad)))
    | inr good ↦ elim (Option-cases (select_mediator e mediator_token w.db)) [
      | inl n ↦ inl (ground (arith, good, n), inr (no_rows, ground (arith, good, n)))
      | inr (p, q) ↦ selected-Ends p good q
    ]
  ]
