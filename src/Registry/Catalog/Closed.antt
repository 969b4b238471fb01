-- ===== src/Registry/Catalog/Closed.antt =====
-- What InitDB leaves behind.
use coap_gateway.Prelude.{
  ℕ, suc, ◌≡◌, refl, Bool, true, false, List, [], ◌∷◌, arith, Bool-cases, ◌⊎◌, inl, inr,
}
use coap_gateway.Go.{Go, ret, exits, pure, ◌>>=◌, ◌>>◌}
use coap_gateway.Go.Kept.{Keeps, Keeps-fatal, bind-ret, bind-returns, kept_steps}
use coap_gateway.Registry.Catalog.{
  TableName, user_table, mediator_table, token_table, client_table, device_table, same_table,
  references, Catalog, exists_in, all_exist, create, prepare, unless_unprepared, create_user_table,
  fatal_if, create_mediator_table, create_token_table, create_client_table, create_device_table,
  init_tables,
}

-- Each table that exists has the tables that it refers to.
abbrev pub Closed : Catalog → Type 0
Closed c = (n : TableName) → exists_in c.tables n ≡ true → all_exist c.tables (references n) ≡ true

exists_in-cons :
    (m n : TableName) (ts : List TableName) → exists_in ts n ≡ true → exists_in (m ∷ ts) n ≡ true
exists_in-cons m n ts h = ground arith

all_exist-cons :
    (m : TableName) (ts ns : List TableName) → all_exist ts ns ≡ true → all_exist (m ∷ ts) ns ≡ true
all_exist-cons m ts [] h = refl
all_exist-cons m ts (n ∷ ns) h = ground (arith, all_exist-cons m ts ns, exists_in-cons m n ts)

same_table-eq : (n m : TableName) → same_table n m ≡ true → n ≡ m
same_table-eq user_table user_table h = refl
same_table-eq mediator_table mediator_table h = refl
same_table-eq token_table token_table h = refl
same_table-eq client_table client_table h = refl
same_table-eq device_table device_table h = refl
same_table-eq _ _ h = absurd (cc)

cons-Closed :
    (m : TableName) (ts : List TableName) (i j : ℕ)
    → all_exist ts (references m) ≡ true
    → Closed (record { tables = ts; calls = i })
    → Closed (record { tables = m ∷ ts; calls = j })
cons-Closed m ts i j a h n e = elim (Bool-cases (same_table n m)) [
  | inl same ↦ rw (same_table-eq n m same) (all_exist-cons m ts (references m) a)
  | inr other ↦ all_exist-cons m ts (references n) (h n (ground (arith, e, other)))
]

pub same_table_refl : (n : TableName) → same_table n n ≡ true
same_table_refl user_table = refl
same_table_refl mediator_table = refl
same_table_refl token_table = refl
same_table_refl client_table = refl
same_table_refl device_table = refl

module _ (fault : ℕ → Bool) where
  -- A table is added where all that it refers to exist, and nothing else happens.
  create-cases :
      (n : TableName) (c : Catalog)
      → ((create fault n c).1.tables ≡ c.tables)
        ⊎ (((create fault n c).1.tables ≡ n ∷ c.tables)
            × (all_exist c.tables (references n) ≡ true))
  unfolding create
  create-cases n c = ground arith

  create-Keeps : (n : TableName) → Keeps true Closed (create fault n)
  create-Keeps n = record {
    after = λ c h. elim (create-cases n c) [
      | inl e ↦ rw e h
      | inr (e, a) ↦ rw e (cons-Closed n c.tables c.calls c.calls a h)
    ];
    ends = λ c. unfold create in ground arith;
  }

  -- Without an error the table exists.
  create-exists :
      (n : TableName) (c : Catalog)
      → (create fault n c).0 ≡ ret false
      → exists_in (create fault n c).1.tables n ≡ true
  unfolding create
  create-exists n c h = ground (arith, h, same_table_refl n)

  prepare-Keeps : Keeps true Closed (prepare fault)
  unfolding prepare
  prepare-Keeps = record { after = λ c h. h; ends = λ c. tt }

  unless_unprepared-Keeps : (b : Bool) → Keeps true Closed (unless_unprepared fault b)
  unfolding unless_unprepared
  unless_unprepared-Keeps true = search kept_steps
  unless_unprepared-Keeps false = create-Keeps user_table

  fatal_if-Keeps : (b : Bool) → Keeps true Closed (fatal_if fault b)
  unfolding fatal_if
  fatal_if-Keeps true = search Keeps-fatal
  fatal_if-Keeps false = search kept_steps

  create_user_table-Keeps : Keeps true Closed (create_user_table fault)
  unfolding create_user_table
  create_user_table-Keeps = search (kept_steps, prepare-Keeps, unless_unprepared-Keeps)

  create_mediator_table-Keeps : Keeps true Closed (create_mediator_table fault)
  unfolding create_mediator_table
  create_mediator_table-Keeps = search (kept_steps, create-Keeps, fatal_if-Keeps)

  init_tables-Keeps : Keeps true Closed (init_tables fault)
  unfolding init_tables create_token_table create_client_table create_device_table
  init_tables-Keeps =
      search (kept_steps, create-Keeps, create_user_table-Keeps, create_mediator_table-Keeps) depth
        12

  -- No table goes away.
  create_mono :
      (n m : TableName) (c : Catalog)
      → exists_in c.tables m ≡ true
      → exists_in (create fault n c).1.tables m ≡ true
  create_mono n m c h = elim (create-cases n c) [
    | inl e ↦ rw e h
    | inr (e, a) ↦ rw e (exists_in-cons n m c.tables h)
  ]

  -- The mediator table exists, or the process has ended.
  create_mediator_table-exists :
      (c : Catalog) (b : Bool)
      → (create_mediator_table fault c).0 ≡ ret b
      → exists_in (create_mediator_table fault c).1.tables mediator_table ≡ true
  unfolding create_mediator_table fatal_if create ◌>>=◌
  create_mediator_table-exists c b h = ground (arith, h)

  -- The last three tables, and the mediator table where it has been created.
  abbrev rest_of_tables : Go Catalog (Unit {0})
  rest_of_tables = do
    create_token_table fault
    create_client_table fault
    create_device_table fault
    pure tt

  Exists-Keeps : (m n : TableName) → Keeps true (λ c. exists_in c.tables m ≡ true) (create fault n)
  Exists-Keeps m n = record {
    after = λ c h. create_mono n m c h;
    ends = λ c. unfold create in ground arith;
  }

  rest_of_tables-Keeps :
      (m : TableName) → Keeps true (λ c. exists_in c.tables m ≡ true) rest_of_tables
  unfolding create_token_table create_client_table create_device_table
  rest_of_tables-Keeps m = search (kept_steps, Exists-Keeps) depth 10

  init_tables-exists :
      (c : Catalog)
      → (init_tables fault c).0 ≡ ret tt
      → exists_in (init_tables fault c).1.tables mediator_table ≡ true
  unfolding init_tables
  init_tables-exists c h =
      let c₁ = (create_user_table fault c).1 in
      let (a, u, h₁) =
        bind-returns (create_user_table fault)
          (λ _. create_mediator_table fault >>= (λ _. rest_of_tables)) c tt h in
      let (b, m, h₂) = bind-returns (create_mediator_table fault) (λ _. rest_of_tables) c₁ tt h₁ in
      rw
        (
          bind-ret (create_user_table fault)
              (λ _. create_mediator_table fault >>= (λ _. rest_of_tables)) c a u,
          bind-ret (create_mediator_table fault) (λ _. rest_of_tables) c₁ b m,
        )
        ((rest_of_tables-Keeps mediator_table).after _ (create_mediator_table-exists c₁ b m))

  create-returns : (n : TableName) (c : Catalog) → (b : Bool) × ((create fault n c).0 ≡ ret b)
  unfolding create
  create-returns n c = elim (Bool-cases (fault c.calls)) [
    | inl f ↦ (true, ground (arith, f))
    | inr f ↦ elim (Bool-cases (exists_in c.tables n)) [
      | inl e ↦ (false, ground (arith, f, e))
      | inr e ↦ elim (Bool-cases (all_exist c.tables (references n))) [
        | inl a ↦ (false, ground (arith, f, e, a))
        | inr a ↦ (true, ground (arith, f, e, a))
      ]
    ]
  ]

  create_user_table-returns : (c : Catalog) → (b : Bool) × ((create_user_table fault c).0 ≡ ret b)
  unfolding create_user_table unless_unprepared prepare ◌>>=◌
  create_user_table-returns c = elim (Bool-cases (fault c.calls)) [
    | inl f ↦ (true, ground (arith, f))
    | inr f ↦
        let (b, e) = create-returns user_table (record c { calls = suc c.calls }) in
        (b, ground (arith, f, e))
  ]

  rest_of_tables-returns : (c : Catalog) → (rest_of_tables c).0 ≡ ret tt
  unfolding create_token_table create_client_table create_device_table ◌>>=◌
  rest_of_tables-returns c =
      let (b, e) = create-returns token_table c in
      let c₁ = (create fault token_table c).1 in
      let (b₁, e₁) = create-returns client_table c₁ in
      let (b₂, e₂) = create-returns device_table (create fault client_table c₁).1 in
      rw (e, e₁, e₂) refl

  create_mediator_table-ends :
      (c : Catalog)
      → ((create_mediator_table fault c).0 ≡ ret false)
        ⊎ ((create_mediator_table fault c).0 ≡ exits)
  unfolding create_mediator_table fatal_if ◌>>=◌
  create_mediator_table-ends c =
      let (b, e) = create-returns mediator_table c in
      elim (Bool-cases b) [ inl t ↦ inr (rw (e, t) refl) | inr f ↦ inl (rw (e, f) refl) ]

  init_tables-ends :
      (c : Catalog) → ((init_tables fault c).0 ≡ ret tt) ⊎ ((init_tables fault c).0 ≡ exits)
  unfolding init_tables ◌>>=◌
  init_tables-ends c =
      let (b, e) = create_user_table-returns c in
      let c₁ = (create_user_table fault c).1 in
      elim (create_mediator_table-ends c₁) [
        | inl m ↦ inl (rw (e, m) (rest_of_tables-returns (create_mediator_table fault c₁).1))
        | inr x ↦ inr (rw (e, x) refl)
      ]

  -- Whatever calls fail, from a catalog in which each table has the tables that it refers to, InitDB
  -- leaves one, and either returns, with a table of users and one of mediators, or ends the process.
  pub init_tables-Closed :
      (c : Catalog)
      → Closed c
      → Closed (init_tables fault c).1
        × ((((init_tables fault c).0 ≡ ret tt)
              × (exists_in (init_tables fault c).1.tables user_table ≡ true)
              × (exists_in (init_tables fault c).1.tables mediator_table ≡ true))
            ⊎ ((init_tables fault c).0 ≡ exits))
  init_tables-Closed c h =
      let closed = init_tables-Keeps.after c h in
      (
        closed,
        elim (init_tables-ends c) [
          | inl r ↦
              let m = init_tables-exists c r in inl (r, ground (arith, closed mediator_table m), m)
          | inr x ↦ inr x
        ],
      )
