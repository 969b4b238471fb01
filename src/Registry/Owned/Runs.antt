-- ===== src/Registry/Owned/Runs.antt =====
-- The insertions of provisionDevice and provisionClient as steps of the interleaved ones.
use coap_gateway.Prelude.{ℕ, ◌≡◌, ◌∙◌, ap, refl, Option, some, [], ◌∷◌, ==_refl}
use coap_gateway.Prelude.Text.{Text}
use coap_gateway.Go.{Go, ret, pure, ◌>>=◌}
use coap_gateway.Go.Kept.{bind-after}
use coap_gateway.Registry.Schema.{Database}
use coap_gateway.Registry.World.{
  Engine, World, Result, ok, err, ExecResult, Err, Statement, error_of, exec, last_insert_id,
}
use coap_gateway.Registry.Statements.{insert_token, insert_device, insert_client}
use coap_gateway.Registry.Devices.{insert_provisioned}
use coap_gateway.Registry.Clients.{insert_provisioned_client}
use coap_gateway.Registry.Integrity.{Leaves-each}
use coap_gateway.Registry.Preserves.{InTables, exec-after, exec-ok}
use coap_gateway.Registry.Owned.{Owned}
use coap_gateway.Registry.Owned.Interleaved.{
  without_key, Step, inserts_token, inserts_device, inserts_client, abandons, Reaches, starts,
  goes_on, Shared, Reaches-Owned,
}

module _ (e : Engine) (d₀ : Database) where
  -- With no key held, and with one.
  abbrev Free : Database → Type 0
  Free d = Reaches e (record { held = []; db = d₀ }) (record { held = []; db = d })

  abbrev Holding : ℕ → Database → Type 0
  Holding i d = Reaches e (record { held = []; db = d₀ }) (record { held = i ∷ []; db = d })

  abandoned : (i : ℕ) (d : Database) → Holding i d → Free d
  abandoned i d h =
      let end : Step e (record { held = i ∷ []; db = d })
          (record { held = without_key i (i ∷ []); db = d }) =
        abandons i in
      goes_on _ _ h (rw (==_refl i) at end)

  insert_token-Free : (t : Text) (w : World) → Free w.db → Free (exec e (insert_token e t) w).1.db
  insert_token-Free t w h =
      exec-after Free e (insert_token e t) w h
        (Leaves-each Free _ λ d r q. abandoned r.last_id d (goes_on _ _ h (inserts_token t d r q)))

  -- A token, and a row that refers to it.
  module _ (token : Text) (insert : ℕ → Statement)
      (fill : (i : ℕ) (d d' : Database) (r : ExecResult)
        → insert i d ≡ some (d', r)
        → Step e
            (record { held = i ∷ []; db = d })
            (record { held = without_key i (i ∷ []); db = d' })) where
    abbrev insert_row : Result ExecResult → Go World (Text × Option Err)
    insert_row result =
        last_insert_id result >>= λ i. exec e (insert i) >>= λ r. pure (token, error_of r)

    insert_row-Free :
        (o : Result ExecResult) (w : World)
        → Free w.db
        → ((r : ExecResult) → o ≡ ok r → Holding r.last_id w.db)
        → Free (insert_row o w).1.db
    unfolding last_insert_id pure ◌>>=◌
    insert_row-Free (err x) w h k = h
    insert_row-Free (ok r) w h k =
        let i = r.last_id in
        let kept : Free (exec e (insert i) w).1.db = exec-after Free e (insert i) w h (
          Leaves-each Free _
            λ d s q. goes_on _ _ (k r refl) (rw (==_refl i) at (fill i w.db d s q))) in
        bind-after (exec e (insert i)) (λ s. pure (token, error_of s)) w (InTables Free) kept
          (λ a q. kept)

    insert_both-Free :
        (w : World) → Free w.db → Free ((exec e (insert_token e token) >>= insert_row) w).1.db
    insert_both-Free w h =
        let made = insert_token-Free token w h in
        bind-after (exec e (insert_token e token)) insert_row w (InTables Free) made (λ o q.
          insert_row-Free o _ made
            (λ r s. goes_on _ _ h (inserts_token token _ r (exec-ok e _ w r (q ∙ ap ret s)))))

  pub insert_provisioned-Free :
      (uuid : Text) (m u : Option ℕ) (token : Result Text) (w : World)
      → Free w.db
      → Free (insert_provisioned e uuid m u token w).1.db
  unfolding insert_provisioned pure
  insert_provisioned-Free uuid m u (err x) w h = h
  insert_provisioned-Free uuid m u (ok token) w h =
      insert_both-Free token (λ i. insert_device e u m i uuid)
        (λ i d d' r q. inserts_device u m i uuid d' r (rw (==_refl i) refl) q) w h

  pub insert_provisioned_client-Free :
      (uuid : Text) (m u : Option ℕ) (token : Result Text) (w : World)
      → Free w.db
      → Free (insert_provisioned_client e uuid m u token w).1.db
  unfolding insert_provisioned_client pure
  insert_provisioned_client-Free uuid m u (err x) w h = h
  insert_provisioned_client-Free uuid m u (ok token) w h =
      insert_both-Free token (λ i. insert_client e u m i uuid)
        (λ i d d' r q. inserts_client u m i uuid d' r (rw (==_refl i) refl) q) w h

-- Provisions of devices and clients by any number of processes, whose statements come in any order
-- with each other and with those of all other calls, and each of which may fail or end between its
-- two insertions, make no two devices or clients refer to one token, if before none did and none
-- referred to a key that is still to be given. The steps of such a run ask of a second insertion
-- only that it uses, once, a key that a first one has been given; and that the two insertions of a
-- provision, as the code makes them, are such steps is shown with it: in any world, whatever fails,
-- what they make of the tables is a run that ends with no key held.
pub provisions_interleave :
    (e : Engine) (d : Database) (s : Shared)
    → Owned d
    → Reaches e (record { held = []; db = d }) s
    → (uuid : Text) (m u : Option ℕ) (token : Result Text) (w : World)
    → Owned s.db
      × Reaches e
          (record { held = []; db = w.db })
          (record { held = []; db = (insert_provisioned e uuid m u token w).1.db })
      × Reaches e
          (record { held = []; db = w.db })
          (record { held = []; db = (insert_provisioned_client e uuid m u token w).1.db })
provisions_interleave e d s h p uuid m u token w = (
  Reaches-Owned e d s h p,
  insert_provisioned-Free e w.db uuid m u token w starts,
  insert_provisioned_client-Free e w.db uuid m u token w starts,
)
