-- ===== src/Mapping/Probe.antt =====
-- The open-addressing loops of mapping/index.c, shared by its three tables: an array of slots, each
-- NULL or a pointer to an entry, walked from the hash with wrap-around by the mask `capacity - 1`.
pub mod Walk
pub mod Find
pub mod Place
pub mod Table
pub mod Lookup
pub mod Rehash
use darktide_mods.Base.{
  ℕ, zero, suc, ◌+◌, ◌-◌, ◌%◌, ◌^◌, bit_and, Bool, List, Option, none, some, if◌then◌else◌, Run, ok,
  fault, out_of_fuel, ◌>>=◌, load, set,
}

-- `hash & (capacity - 1)`
unfoldable pub home : ℕ → ℕ → ℕ
home capacity hash = bit_and hash (capacity - 1)

-- `(index + 1) & (capacity - 1)` on size_t
unfoldable pub next_index : ℕ → ℕ → ℕ
next_index capacity index = bit_and ((index + 1) % 2 ^ 64) (capacity - 1)

module _ {ℓ} {A : Type ℓ} where
  -- `while (slots[index] != NULL) { if (matches) return entry; index = next; } return NULL;`
  unfoldable pub probe : (A → Bool) → List (Option A) → ℕ → ℕ → ℕ → Run (Option A)
  probe matches slots capacity zero index = fault out_of_fuel
  probe matches slots capacity (suc fuel) index = load slots index >>= λ slot. elim slot [
    | none ↦ ok none
    | some entry ↦
        let rest = probe matches slots capacity fuel (next_index capacity index) in
        if matches entry then ok (some entry) else rest
  ]

  -- `while (slots[index] != NULL) index = next; slots[index] = entry;`
  unfoldable pub place : A → List (Option A) → ℕ → ℕ → ℕ → Run (List (Option A))
  place entry slots capacity zero index = fault out_of_fuel
  place entry slots capacity (suc fuel) index = load slots index >>= λ slot. elim slot [
    | none ↦ ok (set slots index (some entry))
    | some other ↦ place entry slots capacity fuel (next_index capacity index)
  ]

  -- `for (index = 0; index < capacity; ++index) if (old[index] != NULL) insert(fresh, old[index]);`
  -- with the rounds left and the next index.
  unfoldable pub rehash :
      (A → ℕ) → List (Option A) → ℕ → ℕ → ℕ → List (Option A) → Run (List (Option A))
  rehash hash old required zero index fresh = ok fresh
  rehash hash old required (suc rounds) index fresh = load old index >>= λ slot. elim slot [
    | none ↦ rehash hash old required rounds (index + 1) fresh
    | some entry ↦
        place entry fresh required required (home required (hash entry))
        >>= rehash hash old required rounds (index + 1)
  ]
