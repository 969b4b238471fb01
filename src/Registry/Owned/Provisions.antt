-- ===== src/Registry/Owned/Provisions.antt =====
-- ProvisionDevice and ProvisionClient: the token that the first insertion makes is free for the second.
use coap_gateway.Prelude.{ℕ, ◌≡◌, ◌∙◌, ap, refl, Option, none, some, inl, inr, Option-cases, arith}
use coap_gateway.Prelude.Text.{Text}
use coap_gateway.Go.{Go, Outcome, ret, pure, ◌>>=◌}
use coap_gateway.Go.Kept.{bind-after}
use coap_gateway.Registry.Schema.{Database}
use coap_gateway.Registry.World.{
  Engine, World, Result, ok, err, ExecResult, Err, Statement, error_of, exec, last_insert_id,
}
use coap_gateway.Registry.Statements.{
  insert_token, insert_device, insert_client, inserted, push, token_row,
}
use coap_gateway.Registry.Devices.{insert_provisioned}
use coap_gateway.Registry.Clients.{insert_provisioned_client}
use coap_gateway.Registry.Integrity.{Leaves, Leaves-bind, Leaves-only_if, Leaves-each}
use coap_gateway.Registry.Preserves.{
  Preserves, InTables, Preserves-exec, exec-after, exec-ok, steps,
}
use coap_gateway.Registry.Owned.{Owned, Reserved, push_device-Owned, push_client-Owned}

module _ (e : Engine) where
  insert_device-Owned :
      (u m : Option ℕ) (uuid : Text) (i : ℕ) (d : Database)
      → Reserved i d
      → Leaves Owned (insert_device e u m i uuid d)
  unfolding insert_device
  insert_device-Owned u m uuid i d v = Leaves-bind _ u _ λ j _. Leaves-bind _ m _ λ k _.
      Leaves-bind _ (e.fit 36 uuid) _
        λ t _. Leaves-only_if Owned _ _ _ (push_device-Owned i d v _ refl)

  insert_client-Owned :
      (u m : Option ℕ) (uuid : Text) (i : ℕ) (d : Database)
      → Reserved i d
      → Leaves Owned (insert_client e u m i uuid d)
  unfolding insert_client
  insert_client-Owned u m uuid i d v = Leaves-bind _ u _ λ j _. Leaves-bind _ m _ λ k _.
      Leaves-bind _ (e.fit 36 uuid) _
        λ t _. Leaves-only_if Owned _ _ _ (push_client-Owned i d v _ refl)

  Leaves-any : (o : Option (Database × ExecResult)) → Leaves (λ d. Unit {0}) o
  Leaves-any none = tt
  Leaves-any (some r) = tt

  -- What the first insertion makes of the tables, whatever comes of it.
  abbrev AfterToken : Outcome (Result ExecResult) → Database → Type 0
  AfterToken o d = Owned d × ((r : ExecResult) → o ≡ ret (ok r) → Reserved r.last_id d)

  insert_token-made :
      (t : Text) (d d' : Database) (r : ExecResult)
      → Owned d
      → insert_token e t d ≡ some (d', r)
      → Reserved r.last_id d'
  unfolding insert_token
  insert_token-made t d d' r h q = elim (Option-cases (e.fit 45 t)) [
    | inl n ↦ absurd (ground arith)
    | inr (a, n) ↦
        let pushed : Database = record d { tokens = push (token_row d a) d.tokens } in
        let same_db : pushed ≡ d' = (let q' = rw n at q in cc) in
        let same_row : inserted d.tokens.next ≡ r = (let q' = rw n at q in cc) in
        rw (← same_db, ← same_row)
          (record {
            owned = record { once = h.once; fresh = λ i k. h.fresh i (omega arith) };
            given = omega arith;
            unused = h.fresh d.tokens.next (omega arith);
          })
  ]

  insert_token-Reserved :
      (t : Text) (w : World)
      → Owned w.db
      → AfterToken (exec e (insert_token e t) w).0 (exec e (insert_token e t) w).1.db
  insert_token-Reserved t w h = (
    exec-after Owned e (insert_token e t) w h
        (Leaves-each Owned _ (λ d r q. (insert_token-made t w.db d r h q).owned)),
    λ r q. insert_token-made t w.db _ r h (exec-ok e (insert_token e t) w r q),
  )

  -- A token, and a row that refers to it.
  module _ (token : Text) (insert : ℕ → Statement)
      (law : (i : ℕ) (d : Database) → Reserved i d → Leaves Owned (insert i d)) where
    abbrev insert_row : Result ExecResult → Go World (Text × Option Err)
    insert_row result =
        last_insert_id result >>= λ i. exec e (insert i) >>= λ r. pure (token, error_of r)

    insert_row-after :
        (o : Result ExecResult) (w : World)
        → Owned w.db
        → ((r : ExecResult) → o ≡ ok r → Reserved r.last_id w.db)
        → Owned (insert_row o w).1.db
    unfolding last_insert_id pure ◌>>=◌
    insert_row-after (err x) w h k = h
    insert_row-after (ok r) w h k =
        let kept = exec-after Owned e (insert r.last_id) w h (law r.last_id w.db (k r refl)) in
        bind-after (exec e (insert r.last_id)) (λ s. pure (token, error_of s)) w (InTables Owned)
          kept (λ a q. kept)

    insert_both-Ends : Preserves (λ d. Unit {0}) (exec e (insert_token e token) >>= insert_row)
    insert_both-Ends = search (steps, Preserves-exec, Leaves-any) depth 8

    pub insert_both-Preserves : Preserves Owned (exec e (insert_token e token) >>= insert_row)
    insert_both-Preserves = record {
      after = λ w h.
          let made = insert_token-Reserved token w h in
          bind-after (exec e (insert_token e token)) insert_row w (InTables Owned) made.0
            (λ o q. insert_row-after o _ made.0 (λ r s. made.1 r (q ∙ ap ret s)));
      ends = λ w. insert_both-Ends.ends w;
    }

  pub insert_provisioned-Owned :
      (uuid : Text) (m u : Option ℕ) (token : Result Text)
      → Preserves Owned (insert_provisioned e uuid m u token)
  unfolding insert_provisioned
  insert_provisioned-Owned uuid m u (ok token) =
      insert_both-Preserves token (λ i. insert_device e u m i uuid) (insert_device-Owned u m uuid)
  insert_provisioned-Owned uuid m u (err x) = search steps

  pub insert_provisioned_client-Owned :
      (uuid : Text) (m u : Option ℕ) (token : Result Text)
      → Preserves Owned (insert_provisioned_client e uuid m u token)
  unfolding insert_provisioned_client
  insert_provisioned_client-Owned uuid m u (ok token) =
      insert_both-Preserves token (λ i. insert_client e u m i uuid) (insert_client-Owned u m uuid)
  insert_provisioned_client-Owned uuid m u (err x) = search steps
