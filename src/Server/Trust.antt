-- ===== src/Server/Trust.antt =====
-- Which certificates the gateway trusts, and which peers it accepts.
use coap_gateway.Prelude.{
  ◌≡◌, ◌≢◌, ◌↔◌, refl, Bool, true, not, ◌&&◌, Option, none, some, List, [], ◌∷◌, ◌++◌, All, arith,
  if◌then◌else◌, Option-cases, inl, inr,
}
use mathlib.Core.List.{append-nil, append_assoc}
use coap_gateway.Prelude.Text.{Text, text_eq}
use coap_gateway.Go.{Outcome, ret, panics, exits, blocks, continue, ◌>>=◌}
use coap_gateway.Server.Tls.{
  Certificate, Visit, failed, not_regular, unreadable, file, file_certificate, Crypto, TlsVariables,
  no_variables, configured, walk_all, with_pools, set_up, setup_tls, read_tls_all, verified,
  verified_raw, verify_peer,
}

-- The certificates among the files of a directory, in the order of the walk.
abbrev pub certificates : Crypto → List Visit → List Certificate
certificates k [] = []
certificates k (failed ∷ vs) = certificates k vs
certificates k (not_regular ∷ vs) = certificates k vs
certificates k (unreadable ∷ vs) = certificates k vs
certificates k (file content ∷ vs) = elim (file_certificate k content) [
  | none ↦ certificates k vs
  | some c ↦ c ∷ certificates k vs
]

abbrev pub pick {ℓ} : {A : Type ℓ} → (A → Bool) → List A → List A
pick p [] = []
pick p (x ∷ xs) = if p x then x ∷ pick p xs else pick p xs

-- A certificate authority that has issued its own certificate, or another one.
abbrev pub is_root : Certificate → Bool
is_root c = c.is_ca && text_eq c.raw_issuer c.raw_subject

abbrev pub is_intermediate : Certificate → Bool
is_intermediate c = c.is_ca && not (text_eq c.raw_issuer c.raw_subject)

walk_all-pools :
    (k : Crypto) (roots intermediates : List Certificate) (vs : List Visit)
    (p : List Certificate × List Certificate)
    → walk_all k (roots, intermediates) vs ≡ some p
    → (p.0 ≡ roots ++ pick is_root (certificates k vs))
      × (p.1 ≡ intermediates ++ pick is_intermediate (certificates k vs))
unfolding walk_all
walk_all-pools k roots intermediates [] p h =
    rw (append-nil roots, append-nil intermediates) (ground arith)
walk_all-pools k roots intermediates (failed ∷ vs) p h = absurd (cc)
walk_all-pools k roots intermediates (not_regular ∷ vs) p h =
    walk_all-pools k roots intermediates vs p h
walk_all-pools k roots intermediates (unreadable ∷ vs) p h =
    walk_all-pools k roots intermediates vs p h
walk_all-pools k roots intermediates (file content ∷ vs) p h =
    elim (Option-cases (file_certificate k content)) [
      | inl n ↦ ground (arith, n, h, walk_all-pools k roots intermediates vs p)
      | inr (c, q) ↦ ground (
        arith,
        q,
        h,
        walk_all-pools k (roots ++ c ∷ []) intermediates vs p,
        walk_all-pools k roots (intermediates ++ c ∷ []) vs p,
        walk_all-pools k roots intermediates vs p,
        append_assoc roots (c ∷ []) (pick is_root (certificates k vs)),
        append_assoc intermediates (c ∷ []) (pick is_intermediate (certificates k vs)),
      )
    ]

-- The parsed certificates of a peer are each verified.
verified-All :
    (k : Crypto) (roots intermediates cs : List Certificate)
    → (verified k roots intermediates cs ≡ true)
      ↔ All (λ c. k.verify roots intermediates c ≡ true) cs
verified-All k roots intermediates [] = (λ h. tt, λ h. refl)
verified-All k roots intermediates (c ∷ cs) =
    let (f, g) = verified-All k roots intermediates cs in
    (λ h. (ground arith, f (ground arith)), λ h. ground (arith, h.0, g h.1))

accepted-All :
    (k : Crypto) (roots intermediates : List Certificate) (o : Option (List Certificate))
    → (verified_raw k roots intermediates o ≡ true) ↔ (
        (cs : List Certificate) × (o ≡ some cs)
        × All (λ c. k.verify roots intermediates c ≡ true) cs)
accepted-All k roots intermediates none = (λ h. absurd (cc), λ (cs, e, a). absurd (ground arith))
accepted-All k roots intermediates (some cs) =
    let (f, g) = verified-All k roots intermediates cs in
    (λ h. (cs, refl, f h), λ (ds, e, a). let q : ds ≡ cs = ground arith in g (rw (← q) a))

-- A peer is accepted exactly if each message of its chain can be parsed and every certificate in it
-- is verified against the pools.
pub verify_peer-All :
    (k : Crypto) (roots intermediates : List Certificate) (raws : List Text)
    → (verify_peer k roots intermediates raws ≡ true)
      ↔ All
          (λ raw.
            (cs : List Certificate) × (k.parse raw ≡ some cs)
            × All (λ c. k.verify roots intermediates c ≡ true) cs)
          raws
unfolding verify_peer
verify_peer-All k roots intermediates [] = (λ h. tt, λ h. refl)
verify_peer-All k roots intermediates (raw ∷ raws) =
    let (f, g) = accepted-All k roots intermediates (k.parse raw) in
    let (f', g') = verify_peer-All k roots intermediates raws in
    (λ h. (f (ground arith), f' (ground arith)), λ h. ground (arith, g h.0, g' h.1))

module _ (k : Crypto) (roots intermediates : List Certificate) where
  abbrev pub Trusts : Type 0
  Trusts =
      (pool : Text) × (roots ≡ pick is_root (certificates k (k.walk pool)))
      × (intermediates ≡ pick is_intermediate (certificates k (k.walk pool)))
      × (roots ≢ [])

  with_pools-inv :
      (o : Option (List Certificate × List Certificate))
      → with_pools o ≡ configured roots intermediates
      → (o ≡ some (roots, intermediates)) × (roots ≢ [])
  with_pools-inv none h = absurd (cc)
  with_pools-inv (some ([], is)) h = absurd (cc)
  with_pools-inv (some (c ∷ rs, is)) h = (cc, λ e. absurd (cc))

  set_up-Trusts : (v : TlsVariables) → set_up k v ≡ configured roots intermediates → Trusts
  set_up-Trusts v h = elim (Option-cases v.tls_certificate) [
    | inl n ↦ absurd (ground (arith, n))
    | inr (cert, e) ↦ elim (Option-cases v.tls_certificate_key) [
      | inl n ↦ absurd (ground (arith, e, n))
      | inr (key, e') ↦ elim (Option-cases v.tls_ca_pool) [
        | inl n ↦ absurd (ground (arith, e, e', n))
        | inr (pool, e'') ↦
            let found : with_pools (walk_all k ([], []) (k.walk pool))
                ≡ configured roots intermediates =
              ground (arith, e, e', e'') in
            let (w, ne) = with_pools-inv (walk_all k ([], []) (k.walk pool)) found in
            let (r, i) = walk_all-pools k [] [] (k.walk pool) (roots, intermediates) w in
            (pool, r, i, ne)
      ]
    ]
  ]

  read-Trusts :
      (o : Outcome (Unit {0})) (v : TlsVariables)
      → (continue o (λ _ v. (ret (set_up k v), v)) v).0 ≡ ret (configured roots intermediates)
      → Trusts
  read-Trusts (ret u) v h = set_up-Trusts v (ground arith)
  read-Trusts panics v h = absurd (cc)
  read-Trusts exits v h = absurd (cc)
  read-Trusts blocks v h = absurd (cc)

  -- Where setupTLS configures TLS, the roots are exactly the self-issued authorities among the
  -- certificates of a directory, of which there is one at least, and the intermediates are exactly
  -- the other authorities in it.
  pub setup_tls-Trusts :
      (environ : List Text) → setup_tls k environ ≡ ret (configured roots intermediates) → Trusts
  unfolding setup_tls ◌>>=◌
  setup_tls-Trusts environ h =
      read-Trusts (read_tls_all environ no_variables).0 (read_tls_all environ no_variables).1 h
