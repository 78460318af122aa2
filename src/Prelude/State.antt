-- ===== src/Prelude/State.antt =====
-- Stateful code: an action takes the state of the world and gives its result and the next state.
-- An error is a value, as in the program, and does not undo what was done before it.
use auth_middleware.Errors.{Error}

-- Go's `(value, error)`.
pub data Result {ℓ} (A : Type ℓ) : Type ℓ where
  ok : A → Result A
  err : Error → Result A

abbrev pub M : Type 0 → Type 0 → Type 0
M W A = W → A × W

module _ {W A : Type 0} where
  abbrev pub pure : A → M W A
  pure a w = (a, w)

module _ {W A B : Type 0} where
  infixl 5 ◌>>=◌ ◌>>◌
  abbrev pub ◌>>=◌ : M W A → (A → M W B) → M W B
  ◌>>=◌ m f w = let (a, w') = m w in f a w'

  abbrev pub ◌>>◌ : M W A → M W B → M W B
  ◌>>◌ m n w = n (m w).1
