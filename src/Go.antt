-- ===== src/Go.antt =====
-- How a Go function ends, and methods that change a state `S`. What a method wrote before it
-- exits or panics stays written, so the state comes back on every path.

-- `exited` is `log.Fatal`; `hung` says that a loop had not ended when its fuel was used up.
pub data Outcome {ℓ} (A : Type ℓ) : Type ℓ where
  returned : A → Outcome A
  exited : Outcome A
  panicked : Outcome A
  hung : Outcome A

abbrev pub Go : Type 0 → Type 0 → Type 0
Go S A = S → Outcome A × S

infixl 5 ◌>>=◌ ◌>>◌
abbrev pub ◌>>=◌ : {S A B : Type 0} → Go S A → (A → Go S B) → Go S B
◌>>=◌ m k s =
    let (r, s') = m s in
    elim r [
      | returned a ↦ k a s'
      | exited ↦ (exited, s')
      | panicked ↦ (panicked, s')
      | hung ↦ (hung, s')
    ]

abbrev pub ◌>>◌ : {S B : Type 0} → Go S (Unit {0}) → Go S B → Go S B
m >> k = m >>= λ _. k

abbrev pub give : {S A : Type 0} → A → Go S A
give a s = (returned a, s)

abbrev pub done : {S : Type 0} → Go S (Unit {0})
done = give tt

-- `log.Fatal`
abbrev pub exit : {S A : Type 0} → Go S A
exit s = (exited, s)

-- `log.Panic` and run-time panics
abbrev pub panic : {S A : Type 0} → Go S A
panic s = (panicked, s)
