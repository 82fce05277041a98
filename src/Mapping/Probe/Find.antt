-- ===== src/Mapping/Probe/Find.antt =====
-- What the search loop returns on a table whose entries are reachable from their hash.
use darktide_mods.Base.{
  ℕ, zero, suc, ◌<◌, ◌≡◌, ◌⊎◌, inl, inr, arith, Bool, true, false, List, Option, none, some, length,
  get_elem?, get_elem?-of_lt, Bool-cases, ok,
}
use darktide_mods.Mapping.Probe.{next_index, probe}
use darktide_mods.Mapping.Probe.Walk.{IsCapacity, next_index-lt, walk}

module _ {ℓ} {A : Type ℓ} where
  -- The slot at `i` holds `a`.
  abbrev pub Stored : List (Option A) → A → ℕ → Type ℓ
  Stored slots a i = get_elem? slots i ≡ some (some a)

  abbrev pub Contains : List (Option A) → A → Type ℓ
  Contains slots a = (i : ℕ) × Stored slots a i

  abbrev pub Occupied : List (Option A) → ℕ → Type ℓ
  Occupied slots i = (a : A) × Stored slots a i

  pub slot-cases :
      (slots : List (Option A)) (i : ℕ)
      → i < length slots
      → (get_elem? slots i ≡ some none) ⊎ Occupied slots i
  slot-cases slots i h = let (slot, e) = get_elem?-of_lt slots i h in go slot e
    where
      go :
          (slot : Option A)
          → get_elem? slots i ≡ some slot
          → (get_elem? slots i ≡ some none) ⊎ Occupied slots i
      go none e = inl e
      go (some a) e = inr (a, e)

  module _ (slots : List (Option A)) (capacity : ℕ) (matches : A → Bool) where
    probe_empty :
        (fuel i : ℕ)
        → get_elem? slots i ≡ some none
        → probe matches slots capacity (suc fuel) i ≡ ok none
    unfolding probe
    probe_empty fuel i e = ground arith

    probe_hit :
        (fuel i : ℕ) (a : A)
        → Stored slots a i
        → matches a ≡ true
        → probe matches slots capacity (suc fuel) i ≡ ok (some a)
    unfolding probe
    probe_hit fuel i a e m = ground arith

    probe_miss :
        (fuel i : ℕ) (a : A)
        → Stored slots a i
        → matches a ≡ false
        → probe matches slots capacity (suc fuel) i
          ≡ probe matches slots capacity fuel (next_index capacity i)
    unfolding probe
    probe_miss fuel i a e m = ground arith

    -- The loop ends at an empty slot.
    pub probe_ends :
        (d fuel i : ℕ)
        → IsCapacity capacity
        → length slots ≡ capacity
        → d < fuel
        → i < capacity
        → get_elem? slots (walk capacity d i) ≡ some none
        → (r : Option A) × (probe matches slots capacity fuel i ≡ ok r)
    unfolding walk
    probe_ends d zero i c size h lt e = absurd (omega arith)
    probe_ends zero (suc fuel) i c size h lt e = (none, probe_empty fuel i e)
    probe_ends (suc d) (suc fuel) i c size h lt e = elim (slot-cases slots i (omega arith)) [
      | inl hole ↦ (none, probe_empty fuel i hole)
      | inr (a, at) ↦ elim (Bool-cases (matches a)) [
        | inl hit ↦ (some a, probe_hit fuel i a at hit)
        | inr miss ↦ rw (probe_miss fuel i a at miss) (
            probe_ends d fuel (next_index capacity i) c size (omega arith) (next_index-lt c i lt) e)
      ]
    ]

    -- What it returns matches, and is in the table.
    pub probe_sound :
        (fuel i : ℕ) (a : A)
        → IsCapacity capacity
        → length slots ≡ capacity
        → i < capacity
        → probe matches slots capacity fuel i ≡ ok (some a)
        → (matches a ≡ true) × Contains slots a
    probe_sound zero i a c size lt h = unfold probe in cc
    probe_sound (suc fuel) i a c size lt h = elim (slot-cases slots i (omega arith)) [
      | inl hole ↦ cc (probe_empty fuel i hole)
      | inr (b, at) ↦ elim (Bool-cases (matches b)) [
        | inl hit ↦ (cc (probe_hit fuel i b at hit), (i, cc (probe_hit fuel i b at hit)))
        | inr miss ↦
            probe_sound fuel (next_index capacity i) a c size (next_index-lt c i lt)
              (rw (probe_miss fuel i b at miss) at h)
      ]
    ]

    -- An entry at the end of a run of occupied slots makes it return some entry.
    pub probe_complete :
        (d fuel i : ℕ) (a : A)
        → IsCapacity capacity
        → d < fuel
        → i < capacity
        → Stored slots a (walk capacity d i)
        → matches a ≡ true
        → ((e : ℕ) → e < d → Occupied slots (walk capacity e i))
        → (b : A) × (probe matches slots capacity fuel i ≡ ok (some b))
    unfolding walk
    probe_complete d zero i a c h lt at m run = absurd (omega arith)
    probe_complete zero (suc fuel) i a c h lt at m run = (a, probe_hit fuel i a at m)
    probe_complete (suc d) (suc fuel) i a c h lt at m run =
        let (b, here) = run 0 (omega arith) in
        elim (Bool-cases (matches b)) [
          | inl hit ↦ (b, probe_hit fuel i b here hit)
          | inr miss ↦ rw (probe_miss fuel i b here miss) (
              probe_complete d fuel (next_index capacity i) a c (omega arith) (next_index-lt c i lt)
                at m (λ e p. run (suc e) (omega arith)))
        ]
