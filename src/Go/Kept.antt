-- ===== src/Go/Kept.antt =====
-- What a piece of the Go code keeps of its state, and how it can end: it never blocks, and it ends
-- the process only where that is allowed.
use coap_gateway.Prelude.{◌≡◌, refl, Bool, true, false, if◌then◌else◌, arith}
use coap_gateway.Go.{Go, Outcome, ret, panics, exits, blocks, continue, pure, panic, fatal, ◌>>=◌}

-- An outcome with no blocked goroutine, and with a log.Fatal only where it may exit.
abbrev pub Ends {ℓ} : {A : Type ℓ} → Bool → Outcome A → Type 0
Ends may_exit (ret a) = Unit {0}
Ends may_exit panics = Unit {0}
Ends may_exit exits = may_exit ≡ true
Ends may_exit blocks = ⊥

pub Ends-continue {ℓ κ ι} :
    {S : Type ℓ} {A : Type κ} {B : Type ι} (b : Bool) (o : Outcome A) (f : A → Go S B) (s : S)
    → Ends b o
    → ((a : A) → Ends b (f a s).0)
    → Ends b (continue o f s).0
Ends-continue b (ret a) f s h k = k a
Ends-continue b panics f s h k = tt
Ends-continue b exits f s h k = h
Ends-continue b blocks f s h k = h

pub Ends-weaken {ℓ} : {A : Type ℓ} (b : Bool) (o : Outcome A) → Ends false o → Ends b o
Ends-weaken b (ret a) h = tt
Ends-weaken b panics h = tt
Ends-weaken b exits h = absurd (ground arith)
Ends-weaken b blocks h = h

-- The same of a state that has a property, where the rest depends on the property.
pub Ends-continue_with {ℓ κ ι} :
    {S : Type ℓ} {A : Type κ} {B : Type ι} (P : S → Type 0) (b : Bool) (o : Outcome A)
    (f : A → Go S B) (s : S)
    → Ends b o
    → P s
    → ((a : A) (t : S) → P t → Ends b (f a t).0 × P (f a t).1)
    → Ends b (continue o f s).0 × P (continue o f s).1
Ends-continue_with P b (ret a) f s e h k = k a s h
Ends-continue_with P b panics f s e h k = (tt, h)
Ends-continue_with P b exits f s e h k = (e, h)
Ends-continue_with P b blocks f s e h k = absurd e

pub record Keeps {ℓ κ} {S : Type ℓ} {A : Type κ} (may_exit : Bool) (P : S → Type 0) (m : Go S A)
    : Type (ℓ ⊔ κ) where
  pub after : (s : S) → P s → P (m s).1
  pub ends : (s : S) → Ends may_exit (m s).0

module _ {ℓ} {S : Type ℓ} {P : S → Type 0} where
  pub Keeps-fatal {κ} : {A : Type κ} → Keeps true P (fatal {A = A})
  unfolding fatal
  Keeps-fatal = record { after = λ s h. h; ends = λ s. refl }

module _ {ℓ} {S : Type ℓ} {b : Bool} {P : S → Type 0} where
  pub Keeps-pure {κ} : {A : Type κ} (a : A) → Keeps b P (pure a)
  unfolding pure
  Keeps-pure a = record { after = λ s h. h; ends = λ s. tt }

  pub Keeps-panic {κ} : {A : Type κ} → Keeps b P (panic {A = A})
  unfolding panic
  Keeps-panic = record { after = λ s h. h; ends = λ s. tt }

  Keeps-continue {κ ι} :
      {A : Type κ} {B : Type ι} (o : Outcome A) (f : A → Go S B) (s : S)
      → ((a : A) → Keeps b P (f a))
      → P s
      → P (continue o f s).1
  Keeps-continue (ret a) f s k h = (k a).after s h
  Keeps-continue panics f s k h = h
  Keeps-continue exits f s k h = h
  Keeps-continue blocks f s k h = h

  pub Keeps-bind {κ ι} :
      {A : Type κ} {B : Type ι} (m : Go S A) (f : A → Go S B)
      → Keeps b P m
      → ((a : A) → Keeps b P (f a))
      → Keeps b P (m >>= f)
  unfolding ◌>>=◌
  Keeps-bind m f k kf = record {
    after = λ s h. Keeps-continue (m s).0 f (m s).1 kf (k.after s h);
    ends = λ s. Ends-continue b (m s).0 f (m s).1 (k.ends s) (λ a. (kf a).ends (m s).1);
  }

  pub Keeps-if {κ} :
      {A : Type κ} (c : Bool) (m n : Go S A)
      → Keeps b P m
      → Keeps b P n
      → Keeps b P (if c then m else n)
  Keeps-if true m n km kn = km
  Keeps-if false m n km kn = kn

-- How a sequence goes on after a return, and what it has gone through if it returns.
module _ {ℓ κ ι} {S : Type ℓ} {A : Type κ} {B : Type ι} (m : Go S A) (f : A → Go S B) (s : S) where
  pub bind-ret : (a : A) → (m s).0 ≡ ret a → (m >>= f) s ≡ f a (m s).1
  unfolding ◌>>=◌
  bind-ret a h = rw h refl

  -- What holds half-way holds in the end if the rest keeps it.
  pub bind-after :
      (R : S → Type 0)
      → R (m s).1
      → ((a : A) → (m s).0 ≡ ret a → R (f a (m s).1).1)
      → R ((m >>= f) s).1
  unfolding ◌>>=◌
  bind-after R h k = through (m s).0 k
    where
      through :
          (o : Outcome A) → ((a : A) → o ≡ ret a → R (f a (m s).1).1) → R (continue o f (m s).1).1
      through (ret a) k = k a refl
      through panics k = h
      through exits k = h
      through blocks k = h

  pub bind-returns :
      (b : B) → ((m >>= f) s).0 ≡ ret b → (a : A) × ((m s).0 ≡ ret a) × ((f a (m s).1).0 ≡ ret b)
  unfolding ◌>>=◌
  bind-returns b h = through (m s).0 h
    where
      through :
          (o : Outcome A)
          → (continue o f (m s).1).0 ≡ ret b
          → (a : A) × (o ≡ ret a) × ((f a (m s).1).0 ≡ ret b)
      through (ret a) h = (a, refl, h)
      through panics h = absurd (cc)
      through exits h = absurd (cc)
      through blocks h = absurd (cc)

pub ruleset kept_steps = (Keeps-pure, Keeps-panic, Keeps-bind, Keeps-if)

-- The same of the state alone, for code that may never end.
pub record Stays {ℓ κ} {S : Type ℓ} {A : Type κ} (P : S → Type 0) (m : Go S A) : Type ℓ where
  pub after : (s : S) → P s → P (m s).1

module _ {ℓ κ} {S : Type ℓ} {A : Type κ} {P : S → Type 0} where
  pub Keeps-Stays : (b : Bool) (m : Go S A) → Keeps b P m → Stays P m
  Keeps-Stays b m k = record { after = k.after }

  pub Stays-bind {ι} :
      {B : Type ι} (m : Go S A) (f : A → Go S B)
      → Stays P m
      → ((a : A) → Stays P (f a))
      → Stays P (m >>= f)
  Stays-bind m f k kf = record {
    after = λ s h. bind-after m f s P (k.after s h) (λ a q. (kf a).after (m s).1 (k.after s h));
  }
