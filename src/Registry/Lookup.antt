-- ===== src/Registry/Lookup.antt =====
-- What the joins find after an update of the tokens.
use coap_gateway.Prelude.{
  ℕ, ◌≡◌, refl, true, Option, none, some, List, [], ◌∷◌, arith, ◌==◌, ==_iff, if◌then◌else◌, All,
  inl, inr, Option-cases,
}
use mathlib.Core.Option
use coap_gateway.Prelude.Text.{Text}
use coap_gateway.Prelude.Int.{sub_ℕ}
use coap_gateway.Registry.Schema.{User, Token, Device, Database, device_refs}
use coap_gateway.Registry.World.{Engine}
use coap_gateway.Registry.Statements.{
  oldest, token_of, user_of, joined, DeviceToken, select_device_token, update_tokens, renewed,
  id_is, device_token, device_time_left, select_time_left,
}
use coap_gateway.Registry.Rows.{oldest-row, oldest-map, oldest-any, All-mono}

oldest-relabel :
    {R A : Type 0} (f g : R → Option A) (h : A → A) (rs : List R)
    → ((r : R) → g r ≡ Option.map h (f r))
    → oldest g rs ≡ Option.map h (oldest f rs)
unfolding oldest
oldest-relabel f g h [] e = refl
oldest-relabel f g h (r ∷ rs) e = ground (arith, e r, oldest-relabel f g h rs e)

every {ℓ} : {A : Type ℓ} (xs : List A) → All (λ x. Unit {0}) xs
every [] = tt
every (x ∷ xs) = (tt, every xs)

token_of-id : (d : Database) (j : ℕ) (t : Token) → token_of d j ≡ some t → t.token_id ≡ j
unfolding token_of
token_of-id d j t q =
    let (r, u, s) = oldest-row (λ t. Unit {0}) _ d.tokens.rows t (every d.tokens.rows) q in
    ground (arith, ==_iff r.token_id j)

module _ (d : Database) (i : ℕ) (f : Token → Token)
    (same : (t : Token) → (f t).token_id ≡ t.token_id) where
  abbrev updated : Database
  updated = (update_tokens (λ t. id_is (some i) t.token_id) f d).0

  updated_id :
      (j : ℕ) (t : Token) → ((if t.token_id == i then f t else t).token_id == j) ≡ (t.token_id == j)
  updated_id j t = ground (arith, same t)

  pub token_of-updated :
      (j : ℕ) → token_of updated j ≡ Option.map (λ t. if j == i then f t else t) (token_of d j)
  unfolding token_of
  token_of-updated j = elim (Option-cases (token_of d j)) [
    | inl e ↦ ground (
      arith,
      e,
      oldest-map (λ (t : Token). t.token_id == j) (λ t. if t.token_id == i then f t else t)
          d.tokens.rows (updated_id j),
    )
    | inr (t, e) ↦ ground (
      arith,
      e,
      token_of-id d j t e,
      oldest-map (λ (t : Token). t.token_id == j) (λ t. if t.token_id == i then f t else t)
          d.tokens.rows (updated_id j),
    )
  ]

module _ (e : Engine) (d : Database) (i : ℕ) (refresh access : Text) (at : ℕ) where
  abbrev pub renewed_at : Database
  renewed_at = (update_tokens (λ t. id_is (some i) t.token_id) (renewed refresh access at) d).0

  -- What the renewal of a token changes in the rows that the devices are looked up in.
  abbrev relabel : DeviceToken → DeviceToken
  relabel r = record r {
    token = elim r.token_id [ none ↦ r.token | some j ↦ if j == i then some access else r.token ];
  }

  user_of-renewed : (j : ℕ) → user_of renewed_at j ≡ user_of d j
  unfolding user_of
  user_of-renewed j = refl

  joined-renewed : (r : Device) → joined renewed_at r ≡ Option.map relabel (joined d r)
  joined-renewed r =
      rw (token_of-updated d i (renewed refresh access at) (λ t. refl) r.token_id)
        (ground (arith, user_of-renewed r.user_id))

  pub select-renewed :
      (uuid : Text)
      → select_device_token e uuid renewed_at ≡ Option.map relabel (select_device_token e uuid d)
  unfolding select_device_token
  select-renewed uuid =
      oldest-relabel _ _ relabel d.devices.rows (λ r. ground (arith, joined-renewed r))

-- Two lookups in one list, of which the second finds where the first does.
module _ {R A B : Type 0} (f : R → Option A) (g : R → Option B) (a : A) (b : B) where
  abbrev Follows : R → Type 0
  Follows r = (f r ≡ none → g r ≡ none) × (f r ≡ some a → g r ≡ some b)

  oldest-silent : (rs : List R) → All Follows rs → oldest f rs ≡ none → oldest g rs ≡ none
  unfolding oldest
  oldest-silent [] h q = refl
  oldest-silent (r ∷ rs) h q = ground (arith, h.0.0, oldest-silent rs h.1)

  oldest-found : (rs : List R) → All Follows rs → oldest f rs ≡ some a → oldest g rs ≡ some b
  unfolding oldest
  oldest-found [] h q = absurd (cc)
  oldest-found (r ∷ rs) h q = elim (Option-cases (oldest f rs)) [
    | inl n ↦ ground (arith, h.0.1, n, oldest-silent rs h.1 n)
    | inr (x, s) ↦ ground (arith, s, oldest-found rs h.1)
  ]

module _ (e : Engine) (d : Database) (i : ℕ) (refresh access : Text) (at : ℕ) where
  -- In a row whose references are good.
  time_left-Follows :
      (uuid name token : Text) (now : ℕ) (r : Device)
      → device_refs d r ≡ true
      → Follows
          (device_token e uuid d)
          (device_time_left e uuid now (renewed_at e d i refresh access at))
          (record { token_id = some i; username = some name; token = some token })
          (some (sub_ℕ at now))
          r
  unfolding token_of user_of
  time_left-Follows uuid name token now r h =
      let (t, qt) =
        oldest-any (λ (t : Token). t.token_id == r.token_id) d.tokens.rows (ground arith) in
      let (u, qu) = oldest-any (λ (u : User). u.user_id == r.user_id) d.users.rows (ground arith) in
      let there = token_of-updated d i (renewed refresh access at) (λ t. refl) r.token_id in
      (ground (arith, qt, qu), ground (arith, qt, qu, there, ==_iff r.token_id i))

  -- The seconds left of a device whose token has been renewed.
  pub time_left-renewed :
      (uuid name token : Text) (now : ℕ)
      → All (λ (r : Device). device_refs d r ≡ true) d.devices.rows
      → select_device_token e uuid d
        ≡ some (record { token_id = some i; username = some name; token = some token })
      → select_time_left e uuid now (renewed_at e d i refresh access at)
        ≡ some (some (sub_ℕ at now))
  unfolding select_device_token select_time_left
  time_left-renewed uuid name token now h s =
      oldest-found _ _ _ _ d.devices.rows
        (All-mono _ _ d.devices.rows (time_left-Follows uuid name token now) h) s
