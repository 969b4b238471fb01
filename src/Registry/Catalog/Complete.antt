-- ===== src/Registry/Catalog/Complete.antt =====
-- What InitDB does while no call fails.
use coap_gateway.Prelude.{
  ℕ, suc, ◌≡◌, refl, Bool, true, false, List, ◌∷◌, if◌then◌else◌, arith, ◌⊎◌, inl, inr,
}
use coap_gateway.Go.{ret, ◌>>=◌}
use coap_gateway.Registry.Catalog.Closed.{same_table_refl}
use coap_gateway.Registry.Catalog.{
  TableName, user_table, mediator_table, token_table, client_table, device_table, references,
  Catalog, exists_in, all_exist, create, prepare, unless_unprepared, create_user_table, fatal_if,
  create_mediator_table, create_token_table, create_client_table, create_device_table, init_tables,
}

-- A catalog's tables with one more, if it is new.
abbrev pub added : TableName → List TableName → List TableName
added n ts = if exists_in ts n then ts else n ∷ ts

exists_in-added :
    (n m : TableName) (ts : List TableName)
    → (exists_in ts m ≡ true) ⊎ (n ≡ m)
    → exists_in (added n ts) m ≡ true
exists_in-added n m ts (inl h) = ground (arith, h)
exists_in-added n m ts (inr e) = rw e (ground (arith, same_table_refl m))

abbrev quiet : ℕ → Bool
quiet i = false

create-quiet :
    (n : TableName) (ts : List TableName) (i : ℕ)
    → all_exist ts (references n) ≡ true
    → create quiet n (record { tables = ts; calls = i })
      ≡ (ret false, record { tables = added n ts; calls = suc i })
unfolding create
create-quiet n ts i h = ground (arith, h)

create_user_table-quiet :
    (ts : List TableName) (i : ℕ)
    → create_user_table quiet (record { tables = ts; calls = i })
      ≡ (ret false, record { tables = added user_table ts; calls = suc (suc i) })
unfolding create_user_table unless_unprepared prepare ◌>>=◌
create_user_table-quiet ts i = create-quiet user_table ts (suc i) refl

create_mediator_table-quiet :
    (ts : List TableName) (i : ℕ)
    → exists_in ts user_table ≡ true
    → create_mediator_table quiet (record { tables = ts; calls = i })
      ≡ (ret false, record { tables = added mediator_table ts; calls = suc i })
unfolding create_mediator_table fatal_if ◌>>=◌
create_mediator_table-quiet ts i h = rw (create-quiet mediator_table ts i (ground (arith, h))) refl

-- While no call fails, InitDB returns, and the tables are those that there were and the five of the
-- registry, each in the place where it was created.
pub init_tables-quiet :
    (c : Catalog)
    → init_tables (λ i. false) c ≡ (
      ret tt,
      record {
        tables = added device_table (
            added client_table
              (added token_table (added mediator_table (added user_table c.tables))));
        calls = suc (suc (suc (suc (suc (suc c.calls)))));
      },
    )
unfolding init_tables create_token_table create_client_table create_device_table ◌>>=◌
init_tables-quiet c =
    let t₁ = added user_table c.tables in
    let t₂ = added mediator_table t₁ in
    let t₃ = added token_table t₂ in
    let t₄ = added client_table t₃ in
    let u₁ : exists_in t₁ user_table ≡ true =
      exists_in-added user_table user_table c.tables (inr refl) in
    let u₂ : exists_in t₂ user_table ≡ true =
      exists_in-added mediator_table user_table t₁ (inl u₁) in
    let u₃ : exists_in t₃ user_table ≡ true = exists_in-added token_table user_table t₂ (inl u₂) in
    let u₄ : exists_in t₄ user_table ≡ true = exists_in-added client_table user_table t₃ (inl u₃) in
    let m₂ : exists_in t₂ mediator_table ≡ true =
      exists_in-added mediator_table mediator_table t₁ (inr refl) in
    let m₃ : exists_in t₃ mediator_table ≡ true =
      exists_in-added token_table mediator_table t₂ (inl m₂) in
    let m₄ : exists_in t₄ mediator_table ≡ true =
      exists_in-added client_table mediator_table t₃ (inl m₃) in
    let k₃ : exists_in t₃ token_table ≡ true =
      exists_in-added token_table token_table t₂ (inr refl) in
    let k₄ : exists_in t₄ token_table ≡ true =
      exists_in-added client_table token_table t₃ (inl k₃) in
    let n = c.calls in
    rw
      (
        create_user_table-quiet c.tables n,
        create_mediator_table-quiet t₁ (suc (suc n)) u₁,
        create-quiet token_table t₂ (suc (suc (suc n))) refl,
        create-quiet client_table t₃ (suc (suc (suc (suc n)))) (ground (arith, u₃, m₃, k₃)),
        create-quiet device_table t₄ (suc (suc (suc (suc (suc n))))) (ground (arith, u₄, m₄, k₄)),
      )
      refl
