-- ===== src/Base/Arrays.antt =====
-- Lists read by position, and lists made position by position.
use Prim.Native.Nat.{ℕ, zero, suc, ◌+◌, ◌-◌, ◌<◌}
use mathlib.Core.Path.{◌≡◌, refl, ap, ◌∙◌}
use mathlib.Core.Logic.{◌≢◌}
use mathlib.Core.List.{List, [], ◌∷◌, ◌++◌}
use native.Mathlib.Omega.{arith}
use darktide_mods.Base.Lists.{length, get_or, set, take, drop}
use darktide_mods.Base.Tests.{ltb, if◌then◌else◌}

-- The list of `f i`, `f (i + 1)`, …
abbrev pub tabulate : ℕ → (ℕ → ℕ) → ℕ → List ℕ
tabulate zero f i = []
tabulate (suc n) f i = f i ∷ tabulate n f (i + 1)

pub length-tabulate : (n : ℕ) (f : ℕ → ℕ) (i : ℕ) → length (tabulate n f i) ≡ n
length-tabulate zero f i = refl
length-tabulate (suc n) f i = omega (arith, length-tabulate n f (i + 1))

pub get_or-tabulate :
    (n : ℕ) (f : ℕ → ℕ) (i k : ℕ) → k < n → get_or (tabulate n f i) k 0 ≡ f (i + k)
get_or-tabulate zero f i k h = omega arith
get_or-tabulate (suc n) f i zero h = ap f (omega arith)
get_or-tabulate (suc n) f i (suc k) h =
    get_or-tabulate n f (i + 1) k (omega arith) ∙ ap f (omega arith)

pub get_or-append :
    (xs ys : List ℕ) (k : ℕ)
    → get_or (xs ++ ys) k 0
      ≡ (if ltb k (length xs) then get_or xs k 0 else get_or ys (k - length xs) 0)
get_or-append [] ys k = ground arith
get_or-append (x ∷ xs) ys zero = ground arith
get_or-append (x ∷ xs) ys (suc k) = ground (arith, get_or-append xs ys k)

pub get_or-take : (n : ℕ) (xs : List ℕ) (k : ℕ) → k < n → get_or (take n xs) k 0 ≡ get_or xs k 0
get_or-take zero xs k h = omega arith
get_or-take (suc n) [] k h = refl
get_or-take (suc n) (x ∷ xs) zero h = refl
get_or-take (suc n) (x ∷ xs) (suc k) h = get_or-take n xs k (omega arith)

pub get_or-drop : (n : ℕ) (xs : List ℕ) (k : ℕ) → get_or (drop n xs) k 0 ≡ get_or xs (n + k) 0
get_or-drop zero xs k = ap (λ i. get_or xs i 0) (omega arith)
get_or-drop (suc n) [] k = refl
get_or-drop (suc n) (x ∷ xs) k =
    let e : suc (n + k) ≡ suc n + k = omega arith in
    get_or-drop n xs k ∙ ap (λ i. get_or (x ∷ xs) i 0) e

-- Lists of one length with the same elements are equal.
pub list_ext :
    (xs ys : List ℕ)
    → length xs ≡ length ys
    → ((k : ℕ) → k < length xs → get_or xs k 0 ≡ get_or ys k 0)
    → xs ≡ ys
list_ext [] [] e same = refl
list_ext [] (y ∷ ys) e same = absurd (omega (arith, e))
list_ext (x ∷ xs) [] e same = absurd (omega (arith, e))
list_ext (x ∷ xs) (y ∷ ys) e same =
    cc (same 0 (omega arith), list_ext xs ys (omega (arith, e)) (λ k h. same (suc k) (omega arith)))

-- An element that is written.
pub get_or-set_self : (xs : List ℕ) (i v : ℕ) → i < length xs → get_or (set xs i v) i 0 ≡ v
get_or-set_self [] i v h = absurd (omega arith)
get_or-set_self (x ∷ xs) zero v h = refl
get_or-set_self (x ∷ xs) (suc i) v h = get_or-set_self xs i v (omega arith)

pub get_or-set_other : (xs : List ℕ) (i j v : ℕ) → i ≢ j → get_or (set xs i v) j 0 ≡ get_or xs j 0
get_or-set_other [] i j v h = refl
get_or-set_other (x ∷ xs) zero zero v h = absurd (h refl)
get_or-set_other (x ∷ xs) zero (suc j) v h = refl
get_or-set_other (x ∷ xs) (suc i) zero v h = refl
get_or-set_other (x ∷ xs) (suc i) (suc j) v h = get_or-set_other xs i j v (λ e. h (ap suc e))
