-- ===== src/Routes.antt =====
-- The tables of handlers that the two main functions and NewCoapServer register. The muxes of go-coap
-- and of bone are parameters: of the keys registered, in their order, they give the position of the
-- one that serves a request.
use coap_gateway.Prelude.{ℕ, zero, suc, Option, none, some, List, [], ◌∷◌, map}

-- The HTTP methods that handlers are registered for, and any other one.
pub data Verb : Type 0 where
  get post delete : Verb
  other_verb : ℕ → Verb

abbrev pub Mux : Type 0 → Type 0 → Type 0
Mux K R = List K → R → Option ℕ

module _ {K H : Type 0} where
  abbrev entry : ℕ → List (K × H) → Option H
  entry n [] = none
  entry zero ((k, h) ∷ table) = some h
  entry (suc n) ((k, h) ∷ table) = entry n table

  abbrev entry_at : List (K × H) → Option ℕ → Option H
  entry_at table none = none
  entry_at table (some n) = entry n table

  -- The handler that serves a request; where there is none, the mux answers by itself.
  unfoldable pub route : {R : Type 0} → Mux K R → List (K × H) → R → Option H
  route mux table r = entry_at table (mux (map (λ p. p.0) table) r)
