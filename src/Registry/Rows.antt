-- ===== src/Registry/Rows.antt =====
-- Facts on lists of rows that the proofs about the statements share.
use coap_gateway.Prelude.{
  ℕ, ◌≤◌, ◌<◌, ◌≡◌, refl, Bool, true, false, Option, none, some, List, [], ◌∷◌, map, any, All,
  arith, ◌==◌, inl, inr, Bool-cases, Option-cases, ==_refl,
}
use coap_gateway.Registry.Statements.{oldest, keep, only_if, all_rows}

module _ {R : Type 0} where
  -- The keys fall along the list and stay under the bound: they are distinct.
  abbrev pub Descending : (R → ℕ) → ℕ → List R → Type 0
  Descending key bound [] = Unit {0}
  Descending key bound (r ∷ rs) = (key r < bound) × Descending key (key r) rs

  pub Descending-mono :
      (key : R → ℕ) (m n : ℕ) (rs : List R) → m ≤ n → Descending key m rs → Descending key n rs
  Descending-mono key m n [] h d = tt
  Descending-mono key m n (r ∷ rs) h d = (omega arith, d.1)

  pub Descending-keep :
      (p : R → Bool) (key : R → ℕ) (n : ℕ) (rs : List R)
      → Descending key n rs
      → Descending key n (keep p rs)
  Descending-keep p key n [] d = tt
  Descending-keep p key n (r ∷ rs) d = elim (Bool-cases (p r)) [
    | inl e ↦ rw e (d.0, Descending-keep p key (key r) rs d.1)
    | inr e ↦ rw e (
        Descending-mono key (key r) n (keep p rs) (omega arith)
          (Descending-keep p key (key r) rs d.1))
  ]

  pub Descending-map :
      (f : R → R) (key : R → ℕ) (n : ℕ) (rs : List R)
      → ((r : R) → key (f r) ≡ key r)
      → Descending key n rs
      → Descending key n (map f rs)
  Descending-map f key n [] same d = tt
  Descending-map f key n (r ∷ rs) same d =
      (omega (arith, same r), rw (same r) (Descending-map f key (key r) rs same d.1))

  -- A key at the bound or above is not there.
  pub oldest-above {ℓ} :
      {A : Type ℓ} (key : R → ℕ) (f : R → Option A) (n i : ℕ) (rs : List R)
      → n ≤ i
      → Descending key n rs
      → oldest (λ r. only_if (key r == i) (f r)) rs ≡ none
  unfolding oldest
  oldest-above key f n i [] h d = refl
  oldest-above key f n i (r ∷ rs) h d =
      ground (arith, oldest-above key f (key r) i rs (omega arith) d.1)

  pub All-mono : (P Q : R → Type 0) (rs : List R) → ((r : R) → P r → Q r) → All P rs → All Q rs
  All-mono P Q [] h a = tt
  All-mono P Q (r ∷ rs) h a = (h r a.0, All-mono P Q rs h a.1)

  pub All-keep : (P : R → Type 0) (p : R → Bool) (rs : List R) → All P rs → All P (keep p rs)
  All-keep P p [] a = tt
  All-keep P p (r ∷ rs) a = elim (Bool-cases (p r)) [
    | inl e ↦ rw e (a.0, All-keep P p rs a.1)
    | inr e ↦ rw e (All-keep P p rs a.1)
  ]

  pub All-map :
      (P : R → Type 0) (f : R → R) (rs : List R)
      → ((r : R) → P r → P (f r))
      → All P rs
      → All P (map f rs)
  All-map P f [] h a = tt
  All-map P f (r ∷ rs) h a = (h r a.0, All-map P f rs h a.1)

  pub any-map :
      (p : R → Bool) (f : R → R) (rs : List R)
      → ((r : R) → p (f r) ≡ p r)
      → any p (map f rs) ≡ any p rs
  any-map p f [] h = refl
  any-map p f (r ∷ rs) h = rw (h r, any-map p f rs h)

  pub All-all_rows : (p : R → Bool) (rs : List R) → all_rows p rs ≡ true → All (λ r. p r ≡ true) rs
  All-all_rows p [] h = tt
  All-all_rows p (r ∷ rs) h = ground (arith, All-all_rows p rs)

  -- Both of two predicates.
  pub All-both : (P Q : R → Type 0) (rs : List R) → All P rs → All Q rs → All (λ r. P r × Q r) rs
  All-both P Q [] a b = tt
  All-both P Q (r ∷ rs) a b = ((a.0, b.0), All-both P Q rs a.1 b.1)

  -- The oldest value after an update that keeps what is selected by.
  pub oldest-map :
      (p : R → Bool) (f : R → R) (rs : List R)
      → ((r : R) → p (f r) ≡ p r)
      → oldest (λ r. only_if (p r) (some r)) (map f rs)
        ≡ elim (oldest (λ r. only_if (p r) (some r)) rs) [ none ↦ none | some r ↦ some (f r) ]
  unfolding oldest
  oldest-map p f [] h = refl
  oldest-map p f (r ∷ rs) h = ground (arith, h r, oldest-map p f rs h)

  pub oldest-none {ℓ} :
      {A : Type ℓ} (p : R → Bool) (f : R → Option A) (rs : List R)
      → any p rs ≡ false
      → oldest (λ r. only_if (p r) (f r)) rs ≡ none
  unfolding oldest
  oldest-none p f [] h = refl
  oldest-none p f (r ∷ rs) h = ground (arith, oldest-none p f rs)

  pub oldest-quiet {ℓ} :
      {A : Type ℓ} (p : R → Bool) (f : R → Option A) (rs : List R)
      → ((r : R) → p r ≡ false → f r ≡ none)
      → any p rs ≡ false
      → oldest f rs ≡ none
  unfolding oldest
  oldest-quiet p f [] q h = refl
  oldest-quiet p f (r ∷ rs) q h = ground (arith, q r, oldest-quiet p f rs q)

  pub oldest-any :
      (p : R → Bool) (rs : List R)
      → any p rs ≡ true
      → (r : R) × (oldest (λ r. only_if (p r) (some r)) rs ≡ some r)
  unfolding oldest
  oldest-any p [] h = cc
  oldest-any p (r ∷ rs) h = elim (Bool-cases (any p rs)) [
    | inl e ↦ let (s, q) = oldest-any p rs e in (s, rw q refl)
    | inr e ↦ (r, ground (arith, oldest-none p (λ s. some s) rs e))
  ]

  -- The oldest value is that of a row.
  pub oldest-row {ℓ} :
      {A : Type ℓ} (P : R → Type 0) (f : R → Option A) (rs : List R) (a : A)
      → All P rs
      → oldest f rs ≡ some a
      → (r : R) × P r × (f r ≡ some a)
  unfolding oldest
  oldest-row P f [] a h q = absurd (cc)
  oldest-row P f (r ∷ rs) a h q = elim (Option-cases (oldest f rs)) [
    | inl e ↦ (r, h.0, ground arith)
    | inr (b, e) ↦ oldest-row P f rs a h.1 (ground arith)
  ]

  -- Every key of a table is found in it.
  pub All-any : (key : R → ℕ) (rs : List R) → All (λ r. any (λ s. key s == key r) rs ≡ true) rs
  All-any key [] = tt
  All-any key (r ∷ rs) =
      (rw (==_refl (key r)) refl, All-mono _ _ rs (λ s h. ground arith) (All-any key rs))
