-- ===== src/Go.antt =====
-- How the Go code runs: a statement changes a state and returns a value, panics, ends the process
-- (log.Fatal), or blocks for ever on a channel. What was written before stays written.

pub mod Kept

pub data Outcome {ℓ} (A : Type ℓ) : Type ℓ where
  ret : A → Outcome A
  panics exits blocks : Outcome A

abbrev pub Go {ℓ κ} : Type ℓ → Type κ → Type (ℓ ⊔ κ)
Go S A = S → Outcome A × S

module _ {ℓ κ} {S : Type ℓ} {A : Type κ} where
  unfoldable pub pure : A → Go S A
  pure a s = (ret a, s)

  unfoldable pub panic : Go S A
  panic s = (panics, s)

  -- log.Fatal
  unfoldable pub fatal : Go S A
  fatal s = (exits, s)

  unfoldable pub gets : (S → A) → Go S A
  gets f s = (ret (f s), s)

unfoldable pub modify {ℓ} : {S : Type ℓ} → (S → S) → Go S (Unit {0})
modify f s = (ret tt, f s)

module _ {ℓ κ ι} {S : Type ℓ} {A : Type κ} {B : Type ι} where
  abbrev pub continue : Outcome A → (A → Go S B) → Go S B
  continue (ret a) f s = f a s
  continue panics f s = (panics, s)
  continue exits f s = (exits, s)
  continue blocks f s = (blocks, s)

  -- To open this is to open every step of this file.
  infixl 5 ◌>>=◌ ◌>>◌
  unfoldable pub ◌>>=◌ : Go S A → (A → Go S B) → Go S B
  unfolding pure panic fatal gets modify
  ◌>>=◌ m f s = continue (m s).0 f (m s).1

  abbrev pub ◌>>◌ : Go S A → Go S B → Go S B
  m >> n = m >>= λ _. n
