-- ===== src/Registry/Owned/Interleaved.antt =====
-- ProvisionDevice and ProvisionClient of several processes, whose statements interleave with each
-- other and with those of the other calls.
use coap_gateway.Prelude.{
  ℕ, ◌<◌, ◌≡◌, refl, true, false, not, Option, some, List, [], ◌∷◌, any, All, arith, ◌==◌, ==_iff,
  inl, inr, Bool-cases, Option-cases,
}
use coap_gateway.Prelude.Text.{Text}
use coap_gateway.Registry.Schema.{Database}
use coap_gateway.Registry.World.{Engine, ExecResult}
use coap_gateway.Registry.Rows.{Descending, Descending-keep, All-mono}
use coap_gateway.Registry.Statements.{
  push, token_row, inserted, keep, insert_token, insert_device, insert_client,
}
use coap_gateway.Registry.Integrity.{Leaves, Leaves-bind, Leaves-only_if, Leaves-some}
use coap_gateway.Registry.Writes.{Write, statement}
use coap_gateway.Registry.Owned.{Owned, Reserved, uses, push_device-Owned, push_client-Owned}
use coap_gateway.Registry.Owned.Calls.{Ordinary, NoMore, NoMore-Owned, statement-NoMore}
use coap_gateway.Registry.Owned.Joins.{keep-All}

-- The keys that calls have got for their token and not yet used, the newest first, and the tables.
pub record Shared : Type 0 where
  pub held : List ℕ
  pub db : Database

abbrev pub without_key : ℕ → List ℕ → List ℕ
without_key i held = keep (λ j. not (j == i)) held

-- One statement that takes effect, or the end of a provision that has inserted a token and goes no
-- further, since a call fails, the server refuses the second insertion or the process ends.
pub data Step (e : Engine) (s : Shared) : Shared → Type 0 where
  inserts_token :
      (t : Text) (d : Database) (r : ExecResult)
      → insert_token e t s.db ≡ some (d, r)
      → Step e s (record { held = r.last_id ∷ s.held; db = d })
  inserts_device :
      (u m : Option ℕ) (i : ℕ) (uuid : Text) (d : Database) (r : ExecResult)
      → any (λ j. j == i) s.held ≡ true
      → insert_device e u m i uuid s.db ≡ some (d, r)
      → Step e s (record { held = without_key i s.held; db = d })
  inserts_client :
      (u m : Option ℕ) (i : ℕ) (uuid : Text) (d : Database) (r : ExecResult)
      → any (λ j. j == i) s.held ≡ true
      → insert_client e u m i uuid s.db ≡ some (d, r)
      → Step e s (record { held = without_key i s.held; db = d })
  abandons : (i : ℕ) → Step e s (record { held = without_key i s.held; db = s.db })
  writes :
      (x : Write) (d : Database) (r : ExecResult)
      → Ordinary x
      → statement e x s.db ≡ some (d, r)
      → Step e s (record { held = s.held; db = d })

pub data Reaches (e : Engine) (s : Shared) : Shared → Type 0 where
  starts : Reaches e s s
  goes_on : (t u : Shared) → Reaches e s t → Step e t u → Reaches e s u

-- The keys that are held are different, have been given, and no row uses them.
pub record Apart (s : Shared) : Type 0 where
  pub owned : Owned s.db
  pub keys : Descending (λ (i : ℕ). i) s.db.tokens.next s.held
  pub unused : All (λ i. uses i s.db.devices.rows s.db.clients.rows ≡ 0) s.held

held_below :
    (n i : ℕ) (held : List ℕ)
    → Descending (λ (j : ℕ). j) n held
    → any (λ j. j == i) held ≡ true
    → i < n
held_below n i [] h k = absurd (cc)
held_below n i (j ∷ held) h k = elim (Bool-cases (j == i)) [
  | inl q ↦ omega (arith, (==_iff j i).0 q)
  | inr q ↦ omega (arith, held_below j i held h.1 (ground arith))
]

held_All :
    (P : ℕ → Type 0) (i : ℕ) (held : List ℕ) → All P held → any (λ j. j == i) held ≡ true → P i
held_All P i [] h k = absurd (cc)
held_All P i (j ∷ held) h k = elim (Bool-cases (j == i)) [
  | inl q ↦ rw (← (==_iff j i).0 q) h.0
  | inr q ↦ held_All P i held h.1 (ground arith)
]

-- The tables after a row that uses one key more.
record Uses (i : ℕ) (d d' : Database) : Type 0 where
  owned : Owned d'
  others :
      (j : ℕ)
      → (j == i) ≡ false
      → uses j d'.devices.rows d'.clients.rows ≡ uses j d.devices.rows d.clients.rows
  next : d'.tokens.next ≡ d.tokens.next

module _ (s : Shared) (a : Apart s) where
  reserved : (i : ℕ) → any (λ j. j == i) s.held ≡ true → Reserved i s.db
  reserved i h = record {
    owned = a.owned;
    given = held_below _ i s.held a.keys h;
    unused = held_All _ i s.held a.unused h;
  }

  fewer_held :
      (i : ℕ) (d : Database)
      → Uses i s.db d
      → Apart (record { held = without_key i s.held; db = d })
  fewer_held i d u = record {
    owned = u.owned;
    keys = rw u.next (Descending-keep _ _ _ s.held a.keys);
    unused =
        keep-All _ _ s.held
          (All-mono _ _ s.held (λ j h k. omega (arith, h, u.others j (ground arith))) a.unused);
  }

  same_held : (d : Database) → NoMore s.db d → Apart (record { held = s.held; db = d })
  same_held d m = record {
    owned = NoMore-Owned s.db d a.owned m;
    keys = rw m.next a.keys;
    unused = All-mono _ _ s.held (λ j h. omega (arith, h, m.fewer j)) a.unused;
  }

  module _ (e : Engine) where
    insert_device-Uses :
        (u m : Option ℕ) (i : ℕ) (uuid : Text)
        → Reserved i s.db
        → Leaves (Uses i s.db) (insert_device e u m i uuid s.db)
    unfolding insert_device
    insert_device-Uses u m i uuid v = Leaves-bind _ u _ λ j _. Leaves-bind _ m _ λ k _.
        Leaves-bind _ (e.fit 36 uuid) _ λ t _. Leaves-only_if (Uses i s.db) _ _ _ (record {
          owned = push_device-Owned i s.db v _ refl;
          others = λ j q. ground arith;
          next = refl;
        })

    insert_client-Uses :
        (u m : Option ℕ) (i : ℕ) (uuid : Text)
        → Reserved i s.db
        → Leaves (Uses i s.db) (insert_client e u m i uuid s.db)
    unfolding insert_client
    insert_client-Uses u m i uuid v = Leaves-bind _ u _ λ j _. Leaves-bind _ m _ λ k _.
        Leaves-bind _ (e.fit 36 uuid) _ λ t _. Leaves-only_if (Uses i s.db) _ _ _ (record {
          owned = push_client-Owned i s.db v _ refl;
          others = λ j q. ground arith;
          next = refl;
        })

    token_held :
        (t : Text) (d : Database) (r : ExecResult)
        → insert_token e t s.db ≡ some (d, r)
        → Apart (record { held = r.last_id ∷ s.held; db = d })
    unfolding insert_token
    token_held t d r q = elim (Option-cases (e.fit 45 t)) [
      | inl f ↦ absurd (ground arith)
      | inr (b, f) ↦
          let pushed : Database = record s.db { tokens = push (token_row s.db b) s.db.tokens } in
          let same_db : pushed ≡ d = (let q' = rw f at q in cc) in
          let same_row : inserted s.db.tokens.next ≡ r = (let q' = rw f at q in cc) in
          rw (← same_db, ← same_row)
            (record {
              owned = record { once = a.owned.once; fresh = λ i k. a.owned.fresh i (omega arith) };
              keys = (omega arith, a.keys);
              unused = (a.owned.fresh s.db.tokens.next (omega arith), a.unused);
            })
    ]

    Step-Apart : (s' : Shared) → Step e s s' → Apart s'
    Step-Apart s' (inserts_token t d r q) = token_held t d r q
    Step-Apart s' (inserts_device u m i uuid d r h q) =
        fewer_held i d (Leaves-some _ _ d r (insert_device-Uses u m i uuid (reserved i h)) q)
    Step-Apart s' (inserts_client u m i uuid d r h q) =
        fewer_held i d (Leaves-some _ _ d r (insert_client-Uses u m i uuid (reserved i h)) q)
    Step-Apart s' (abandons i) =
        fewer_held i s.db (record { owned = a.owned; others = λ j q. refl; next = refl })
    Step-Apart s' (writes x d r o q) =
        same_held d (Leaves-some _ _ d r (statement-NoMore e s.db x o) q)

module _ (e : Engine) (s : Shared) (a : Apart s) where
  Reaches-Apart : (t : Shared) → Reaches e s t → Apart t
  Reaches-Apart t starts = a
  Reaches-Apart t (goes_on u v p h) = Step-Apart u (Reaches-Apart u p) e v h

-- The tables of a run that starts with no key held.
pub Reaches-Owned :
    (e : Engine) (d : Database) (s : Shared)
    → Owned d
    → Reaches e (record { held = []; db = d }) s
    → Owned s.db
Reaches-Owned e d s h p =
    (Reaches-Apart e (record { held = []; db = d }) (record { owned = h; keys = tt; unused = tt }) s
      p).owned
