-- ===== src/Prelude/Asserts.antt =====
-- What a kernel function returns when it may fail an `assert` or call `panic`
-- (ucore_os/kern/debug/assert.h).
use mathlib.Core.Bool.{Bool, true, false}

-- `panic` stops the machine: nothing after it runs.
pub data Outcome {ℓ} (A : Type ℓ) : Type ℓ where
  ok : A → Outcome A
  panic : Outcome A

infixl 5 ◌>>=◌ ◌>>◌
abbrev pub ◌>>=◌ {ℓ κ} : {A : Type ℓ} {B : Type κ} → Outcome A → (A → Outcome B) → Outcome B
ok a >>= f = f a
panic >>= f = panic

abbrev pub ◌>>◌ {ℓ} : {B : Type ℓ} → Outcome (Unit {0}) → Outcome B → Outcome B
m >> k = m >>= λ _. k

-- `assert(b)`
abbrev pub assert : Bool → Outcome (Unit {0})
assert true = ok tt
assert false = panic
