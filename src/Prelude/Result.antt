-- ===== src/Prelude/Result.antt =====
-- How a call of kernel code ends. `BUG_ON` and `kerror` print and then spin for ever
-- (include/common/macro.h, include/common/kprint.h), so no code after them runs.
use mathlib.Core.Bool.{Bool, true, false}
use kingdo_micro_kernel.Prelude.Tests.{if◌then◌else◌}

pub data Stop : Type 0 where
  -- the processor spins in `BUG_ON`, `BUG` or `kerror`
  hang : Stop
  -- an access through a pointer that is no object of the model
  fault : Stop
  -- the model's bound on the rounds was too small
  out_of_fuel : Stop

pub data Run {ℓ} (A : Type ℓ) : Type ℓ where
  done : A → Run A
  stop : Stop → Run A

infixl 5 ◌>>=◌ ◌>>◌
abbrev pub ◌>>=◌ {ℓ κ} : {A : Type ℓ} {B : Type κ} → Run A → (A → Run B) → Run B
done a >>= f = f a
stop e >>= f = stop e

abbrev pub ◌>>◌ {ℓ} : {B : Type ℓ} → Run (Unit {0}) → Run B → Run B
m >> k = m >>= λ _. k

-- What a run returns has the property, where it returns.
pub data OnDone {ℓ} {A : Type ℓ} (P : A → Type 0) : Run A → Type ℓ where
  holds : {a : A} → P a → OnDone P (done a)
  stops : {e : Stop} → OnDone P (stop e)

pub OnDone-bind {ℓ κ} :
    {A : Type ℓ} {B : Type κ} {P : A → Type 0} {Q : B → Type 0} {m : Run A} (f : A → Run B)
    → OnDone P m
    → ((a : A) → P a → OnDone Q (f a))
    → OnDone Q (m >>= f)
OnDone-bind f (holds p) q = q _ p
OnDone-bind f stops q = stops

pub OnDone-if {ℓ} :
    {A : Type ℓ} {P : A → Type 0} (b : Bool) {m k : Run A}
    → OnDone P m
    → OnDone P k
    → OnDone P (if b then m else k)
OnDone-if true p q = p
OnDone-if false p q = q

pub OnDone-done {ℓ} : {A : Type ℓ} {P : A → Type 0} {a : A} → OnDone P (done a) → P a
OnDone-done (holds p) = p
