-- ===== src/Registry/Owned/Joins.antt =====
-- `DELETE x, token FROM x JOIN token USING(token_id)`, where no two rows share a token: what is left
-- refers to what is left.
use coap_gateway.Prelude.{
  ℕ, ◌+◌, ◌≤◌, ◌≡◌, refl, Bool, true, false, not, ◌&&◌, List, [], ◌∷◌, any, All, arith, ◌==◌, inl,
  inr, Bool-cases,
}
use coap_gateway.Registry.Schema.{Token}
use coap_gateway.Registry.Rows.{All-mono, All-any, All-both}
use coap_gateway.Registry.Statements.{count, keep, all_rows}

module _ {R : Type 0} where
  pub count-none :
      (p q : R → Bool) (rs : List R) → count p rs ≡ 0 → any (λ r. p r && q r) rs ≡ false
  count-none p q [] h = refl
  count-none p q (r ∷ rs) h = ground (arith, count-none p q rs)

  pub count-any : (p : R → Bool) (rs : List R) → any p rs ≡ true → 1 ≤ count p rs
  count-any p [] h = absurd (cc)
  count-any p (r ∷ rs) h = ground (arith, count-any p rs)

  none_there :
      (p : R → Bool) (P : R → Type 0) (rs : List R)
      → count p rs ≡ 0
      → All (λ r. p r ≡ true → P r) rs
  none_there p P [] h = tt
  none_there p P (r ∷ rs) h = (λ q. absurd (ground arith), none_there p P rs (ground arith))

  -- Where one row at most passes a test, what some such row has it has.
  only_one :
      (p q : R → Bool) (rs : List R)
      → count p rs ≤ 1
      → any (λ r. p r && q r) rs ≡ true
      → All (λ r. p r ≡ true → q r ≡ true) rs
  only_one p q [] h k = tt
  only_one p q (r ∷ rs) h k = elim (Bool-cases (p r)) [
    | inl t ↦
        let zero : count p rs ≡ 0 = (ground arith) in
        (λ u. ground (arith, count-none p q rs zero), none_there p (λ r. q r ≡ true) rs zero)
    | inr f ↦ (λ u. absurd (cc), only_one p q rs (ground arith) (ground arith))
  ]

  pub any-All : (p : R → Bool) (rs : List R) → any p rs ≡ false → All (λ r. p r ≡ false) rs
  any-All p [] h = tt
  any-All p (r ∷ rs) h = (ground arith, any-All p rs (ground arith))

  pub any-keep :
      (p q : R → Bool) (rs : List R)
      → All (λ r. p r ≡ true → q r ≡ true) rs
      → any p rs ≡ true
      → any p (keep q rs) ≡ true
  any-keep p q [] h k = k
  any-keep p q (r ∷ rs) h k = ground (arith, h.0, any-keep p q rs h.1)

  pub keep-All :
      (P : R → Type 0) (q : R → Bool) (rs : List R)
      → All (λ r. q r ≡ true → P r) rs
      → All P (keep q rs)
  keep-All P q [] h = tt
  keep-All P q (r ∷ rs) h = elim (Bool-cases (q r)) [
    | inl t ↦ rw t (h.0 t, keep-All P q rs h.1)
    | inr f ↦ rw f (keep-All P q rs h.1)
  ]

  pub all_rows-All : (p : R → Bool) (rs : List R) → All (λ r. p r ≡ true) rs → all_rows p rs ≡ true
  all_rows-All p [] h = refl
  all_rows-All p (r ∷ rs) h = ground (arith, h.0, all_rows-All p rs h.1)

  pub All-every : (P : R → Type 0) (rs : List R) → ((r : R) → P r) → All P rs
  All-every P [] h = tt
  All-every P (r ∷ rs) h = (h r, All-every P rs h)

  All-each :
      {I : Type 0} (P : I → R → Type 0) (rs : List R)
      → ((i : I) → All (P i) rs)
      → All (λ r. (i : I) → P i r) rs
  All-each P [] h = tt
  All-each P (r ∷ rs) h = (λ i. (h i).0, All-each P rs (λ i. (h i).1))

-- The rows that the join selects on both sides.
module _ {R : Type 0} (key : R → ℕ) (hit : R → Bool) (rows : List R) (grants : Token → Bool)
    (tokens : List Token) where
  abbrev pub row_gone : R → Bool
  row_gone r = hit r && any (λ (t : Token). t.token_id == key r && grants t) tokens

  abbrev pub token_gone : Token → Bool
  token_gone t = grants t && any (λ r. key r == t.token_id && hit r) rows

  abbrev pub tokens_left : List Token
  tokens_left = keep (λ t. not (token_gone t)) tokens

  -- A token that no row refers to stays.
  pub unused_stays :
      (i : ℕ)
      → count (λ r. key r == i) rows ≡ 0
      → any (λ (t : Token). t.token_id == i) tokens ≡ true
      → any (λ (t : Token). t.token_id == i) tokens_left ≡ true
  unused_stays i h k =
      any-keep (λ t. t.token_id == i) _ tokens
        (All-every _ tokens (λ t q.
          let same : t.token_id ≡ i = (ground arith) in
          let free : any (λ r. key r == i && hit r) rows ≡ false = count-none _ hit rows h in
          rw (same, free) (ground arith)))
        k

  -- If any row of a token is hit, then so is this one.
  abbrev SharesHit : R → Type 0
  SharesHit r =
      (x : (i : ℕ) × (any (λ s. key s == i && hit s) rows ≡ true))
      → (key r == x.0) ≡ true
      → hit r ≡ true

  token_stays :
      (r : R)
      → SharesHit r
      → row_gone r ≡ false
      → All (λ t. (t.token_id == key r) ≡ true → not (token_gone t) ≡ true) tokens
  token_stays r share stay = elim (Bool-cases (hit r)) [
    | inl y ↦
        All-mono _ _ tokens (λ t k q. ground arith)
          (any-All (λ t. t.token_id == key r && grants t) tokens (ground arith))
    | inr n ↦ All-every _ tokens (λ t q. elim (Bool-cases (token_gone t)) [
      | inl gone ↦ absurd (ground (arith, share (t.token_id, ground arith)))
      | inr left ↦ rw left refl
    ])
  ]

  -- That of a row that stays does, too.
  pub used_stays :
      ((i : ℕ) → count (λ r. key r == i) rows ≤ 1)
      → All (λ r. any (λ (t : Token). t.token_id == key r) tokens ≡ true) rows
      → All
          (λ r. any (λ (t : Token). t.token_id == key r) tokens_left ≡ true)
          (keep (λ r. not (row_gone r)) rows)
  used_stays once h = keep-All _ _ rows (
      All-mono _ _ rows (λ r b stay. any-keep _ _ tokens (token_stays r b.0 (ground arith)) b.1)
        (All-both _ _ rows
          (All-each _ rows (λ x. only_one (λ s. key s == x.0) hit rows (once x.0) x.1)) h))

  -- And that of a row of another table.
  pub others_stay :
      {S : Type 0} (key' : S → ℕ) (others : List S)
      → ((i : ℕ) → count (λ r. key r == i) rows + count (λ s. key' s == i) others ≤ 1)
      → All (λ s. any (λ (t : Token). t.token_id == key' s) tokens ≡ true) others
      → All (λ s. any (λ (t : Token). t.token_id == key' s) tokens_left ≡ true) others
  others_stay key' others once h =
      All-mono _ _ others
        (λ s b.
          unused_stays (key' s)
            (omega (arith, once (key' s), count-any (λ u. key' u == key' s) others b.0)) b.1)
        (All-both _ _ others (All-any key' others) h)
