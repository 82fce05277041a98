-- ===== src/Mapping/State/Write.antt =====
-- The write of an error, byte by byte.
use darktide_mods.Base.{
  ℕ, zero, suc, ◌≡◌, ◌≤◌, refl, ap, arith, List, [], ◌∷◌, none, some, length, take, get_elem?,
}
use darktide_mods.Mapping.State.{put_byte}

-- One byte more agrees with the text.
pub take-put_byte :
    (text e : List ℕ) (k b : ℕ)
    → take k e ≡ take k text
    → get_elem? text k ≡ some b
    → take (suc k) (put_byte e k b) ≡ take (suc k) text
unfolding put_byte
take-put_byte [] e k b same at = absurd cc
take-put_byte (x ∷ xs) [] zero b same at = cc at
take-put_byte (x ∷ xs) (y ∷ ys) zero b same at = cc at
take-put_byte (x ∷ xs) [] (suc k) b same at = absurd cc
take-put_byte (x ∷ xs) (y ∷ ys) (suc k) b same at =
    let head : y ≡ x = cc same in
    let tail : take k ys ≡ take k xs = cc same in cc (head, take-put_byte xs ys k b tail at)

pub get_elem?-of_le : (text : List ℕ) (k : ℕ) → length text ≤ k → get_elem? text k ≡ none
get_elem?-of_le [] k h = refl
get_elem?-of_le (x ∷ xs) zero h = absurd (omega (arith, h))
get_elem?-of_le (x ∷ xs) (suc k) h = get_elem?-of_le xs k (omega (arith, h))

-- A text without a byte at a place ends there.
pub take-of_none : (text : List ℕ) (k : ℕ) → get_elem? text k ≡ none → take k text ≡ text
take-of_none [] zero e = refl
take-of_none [] (suc k) e = refl
take-of_none (x ∷ xs) zero e = absurd cc
take-of_none (x ∷ xs) (suc k) e = ap (λ ys. x ∷ ys) (take-of_none xs k e)
