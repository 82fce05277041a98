-- ===== src/Base/Outcome.antt =====
-- Results of code that may read outside its memory, overflow a signed number or loop for ever.
use mathlib.Core.Path.{◌≡◌}
use mathlib.Core.Option.{none, some}
use Prim.Native.Nat.{ℕ}
use mathlib.Core.List.{List}
use native.Mathlib.Omega.{arith}
use darktide_mods.Base.Lists.{get_elem?}

pub data Fault : Type 0 where
  out_of_bounds : Fault
  out_of_fuel : Fault
  overflow : Fault

pub data Run {ℓ} (A : Type ℓ) : Type ℓ where
  ok : A → Run A
  fault : Fault → Run A

infixl 5 ◌>>=◌ ◌>>◌
abbrev pub ◌>>=◌ {ℓ κ} : {A : Type ℓ} {B : Type κ} → Run A → (A → Run B) → Run B
ok a >>= f = f a
fault e >>= f = fault e

abbrev pub ◌>>◌ {ℓ κ} : {A : Type ℓ} {B : Type κ} → Run A → Run B → Run B
m >> k = m >>= λ _. k

-- A read of an array.
abbrev pub load {ℓ} : {A : Type ℓ} → List A → ℕ → Run A
load xs i = elim (get_elem? xs i) [ none ↦ fault out_of_bounds | some a ↦ ok a ]

pub load-eq_ok {ℓ} :
    {A : Type ℓ} (xs : List A) (i : ℕ) {a : A} → get_elem? xs i ≡ some a → load xs i ≡ ok a
load-eq_ok xs i e = ground arith
