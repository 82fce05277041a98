-- ===== src/LogCapture/Ring.antt =====
-- The ring as a list of its waiting bytes.
use darktide_mods.Base.{
  ℕ, zero, suc, ◌+◌, ◌-◌, ◌%◌, ◌≤◌, ◌<◌, ◌≡◌, refl, ap, arith, List, [], ◌∷◌, if◌then◌else◌, ltb,
  length, get_or,
}
use darktide_mods.Base.Arrays.{tabulate}
use darktide_mods.LogCapture.{Queue, raw_queue_bytes, blit}

abbrev pub slot : Queue → ℕ → ℕ
slot q i = get_or q.raw ((q.read + i) % raw_queue_bytes) 0

-- The bytes that wait in the ring, the oldest first.
abbrev pub content : Queue → List ℕ
content q = tabulate q.used (slot q) 0

pub record IsQueue (q : Queue) : Type 0 where
  pub size : length q.raw ≡ raw_queue_bytes
  pub read : q.read < raw_queue_bytes
  pub used : q.used ≤ raw_queue_bytes
  pub write : q.write ≡ (q.read + q.used) % raw_queue_bytes

pub length-blit :
    (xs : List ℕ) (start : ℕ) (source : List ℕ) → length (blit xs start source) ≡ length xs
length-blit [] start source = refl
length-blit (x ∷ xs) (suc start) source = ap suc (length-blit xs start source)
length-blit (x ∷ xs) zero [] = refl
length-blit (x ∷ xs) zero (b ∷ source) = ap suc (length-blit xs zero source)

pub get_or-blit :
    (xs : List ℕ) (start : ℕ) (source : List ℕ) (k : ℕ)
    → start + length source ≤ length xs
    → get_or (blit xs start source) k 0 ≡ (
        if ltb k start
        then get_or xs k 0
        else if ltb k (start + length source)
        then get_or source (k - start) 0
        else get_or xs k 0)
get_or-blit [] start source k h = ground arith
get_or-blit (x ∷ xs) (suc start) source zero h = ground arith
get_or-blit (x ∷ xs) (suc start) source (suc k) h =
    ground (arith, get_or-blit xs start source k (omega arith))
get_or-blit (x ∷ xs) zero [] k h = ground arith
get_or-blit (x ∷ xs) zero (b ∷ source) zero h = ground arith
get_or-blit (x ∷ xs) zero (b ∷ source) (suc k) h =
    ground (arith, get_or-blit xs zero source k (omega arith))
