-- ===== src/Prelude/Try.antt =====
-- Functions that may throw and change no state: `Result` as a monad.
use mathlib.Core.Option.{Option, none, some}
use copilot_cpp.Prelude.Exec.{Result, ok, err}

module _ {ℓ κ μ} {E : Type ℓ} {A : Type κ} {B : Type μ} where
  infixl 5 ◌>>=◌
  abbrev pub ◌>>=◌ : Result E A → (A → Result E B) → Result E B
  ok a >>= f = f a
  err e >>= f = err e

module _ {ℓ κ} {E : Type ℓ} {A : Type κ} where
  abbrev pub or_throw : Option A → E → Result E A
  or_throw none e = err e
  or_throw (some a) e = ok a

module _ {ℓ κ μ} {E : Type ℓ} {A : Type κ} {B : Type μ} where
  infixl 5 ◌>>◌
  abbrev pub ◌>>◌ : Result E A → Result E B → Result E B
  m >> n = m >>= λ _. n
