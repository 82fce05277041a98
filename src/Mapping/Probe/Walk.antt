-- ===== src/Mapping/Probe/Walk.antt =====
-- The order in which the loops of `Mapping.Probe` visit the slots.
use native.Mathlib.Nat.{mod-eq_of_lt, mod_self, mod-lt, pow-le-pow_right, zero-add}
use darktide_mods.Base.{
  ℕ, zero, suc, ◌+◌, ◌-◌, ◌%◌, ◌^◌, ◌≤◌, ◌<◌, ◌≡◌, ap, ◌∙◌, arith, dec_lt, bit_and,
}
use darktide_mods.Base.Bits.{bit_and-mask, pow_pos}
use darktide_mods.Mapping.Probe.{home, next_index}

-- The capacities that the tables use.
pub record IsCapacity (capacity : ℕ) : Type 0 where
  pub width : ℕ
  pub narrow : width ≤ 63
  pub power : capacity ≡ 2 ^ width

pub IsCapacity-pos : {capacity : ℕ} → IsCapacity capacity → 0 < capacity
IsCapacity-pos c = omega (arith, c.power, pow_pos c.width)

pub IsCapacity-le : {capacity : ℕ} → IsCapacity capacity → capacity ≤ 2 ^ 63
IsCapacity-le c = omega (arith, c.power, pow-le-pow_right {n = 2} (omega arith) c.narrow)

module _ {capacity : ℕ} (c : IsCapacity capacity) where
  mask : (h : ℕ) → bit_and h (capacity - 1) ≡ h % capacity
  mask h = rw c.power (bit_and-mask c.width h)

  pub home-lt : (hash : ℕ) → home capacity hash < capacity
  unfolding home
  home-lt hash = rw (mask hash) (mod-lt hash (IsCapacity-pos c))

  pub next_index_inner : (i : ℕ) → i + 1 < capacity → next_index capacity i ≡ i + 1
  unfolding next_index
  next_index_inner i h =
      mask ((i + 1) % 2 ^ 64)
      ∙ ap (λ t. t % capacity) (mod-eq_of_lt (omega (arith, IsCapacity-le c)))
      ∙ mod-eq_of_lt h

  pub next_index_last : (i : ℕ) → i + 1 ≡ capacity → next_index capacity i ≡ 0
  unfolding next_index
  next_index_last i h =
      mask ((i + 1) % 2 ^ 64)
      ∙ ap (λ t. t % capacity) (mod-eq_of_lt (omega (arith, IsCapacity-le c)))
      ∙ ap (λ t. t % capacity) h
      ∙ mod_self capacity

  pub next_index-lt : (i : ℕ) → i < capacity → next_index capacity i < capacity
  next_index-lt i h = elim (dec_lt (i + 1) capacity) [
    | yes p ↦ omega (arith, next_index_inner i p)
    | no p ↦ omega (arith, next_index_last i (omega arith))
  ]

-- The index after `d` steps.
unfoldable pub walk : ℕ → ℕ → ℕ → ℕ
walk capacity zero i = i
walk capacity (suc d) i = walk capacity d (next_index capacity i)

module _ {capacity : ℕ} (c : IsCapacity capacity) where
  pub walk-lt : (d i : ℕ) → i < capacity → walk capacity d i < capacity
  unfolding walk
  walk-lt zero i h = h
  walk-lt (suc d) i h = walk-lt d (next_index capacity i) (next_index-lt c i h)

  walk_inner : (d i : ℕ) → i + d < capacity → walk capacity d i ≡ i + d
  unfolding walk
  walk_inner zero i h = omega arith
  walk_inner (suc d) i h =
      walk_inner d (next_index capacity i) (omega (arith, next)) ∙ omega (arith, next)
    where
      next : next_index capacity i ≡ i + 1
      next = next_index_inner c i (omega arith)

  walk_round : (d i : ℕ) → i + suc d ≡ capacity → walk capacity (suc d) i ≡ 0
  unfolding walk
  walk_round zero i h = next_index_last c i (omega arith)
  walk_round (suc d) i h =
      rw (next_index_inner c i (omega arith)) (walk_round d (i + 1) (omega arith))

  walk-add : (d e i : ℕ) → walk capacity (d + e) i ≡ walk capacity e (walk capacity d i)
  unfolding walk
  walk-add zero e i = rw zero-add
  walk-add (suc d) e i =
      ap (λ t. walk capacity t i) {x = suc d + e} {y = suc (d + e)} (omega arith)
      ∙ walk-add d e (next_index capacity i)

  -- Every slot is visited in fewer than `capacity` steps.
  pub walk-reaches :
      (i j : ℕ) → i < capacity → j < capacity → (d : ℕ) × (d < capacity) × (walk capacity d i ≡ j)
  walk-reaches i j hi hj = elim (dec_lt j i) [
    | no forward ↦ (j - i, omega arith, walk_inner (j - i) i (omega arith) ∙ omega arith)
    | yes back ↦ (
      suc (capacity - i - 1) + j,
      omega arith,
      walk-add (suc (capacity - i - 1)) j i
          ∙ ap (walk capacity j) (walk_round (capacity - i - 1) i (omega arith))
          ∙ walk_inner j 0 (omega arith)
          ∙ omega arith,
    )
  ]
