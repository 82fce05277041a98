-- ===== src/Mapping/Probe/Place.antt =====
-- Where the insertion loop writes.
use darktide_mods.Base.{
  ℕ, zero, suc, ◌≤◌, ◌<◌, ◌≡◌, ◌≢◌, sym, ◌∙◌, ◌⊎◌, inl, inr, arith, List, Option, none, some,
  length, get_elem?, set, ok, get_elem?-set_self, get_elem?-set_ne, lt-of_get_elem?, ℕ_discrete,
}
use darktide_mods.Mapping.Probe.{next_index, place}
use darktide_mods.Mapping.Probe.Walk.{IsCapacity, next_index-lt, walk}
use darktide_mods.Mapping.Probe.Find.{Stored, Occupied, slot-cases}

module _ {ℓ} {A : Type ℓ} where
  -- A write to a hole keeps every entry, and adds one.
  module _ (slots : List (Option A)) (j : ℕ) (a : A) (hole : get_elem? slots j ≡ some none) where
    pub Stored-set_new : Stored (set slots j (some a)) a j
    Stored-set_new = get_elem?-set_self slots j (some a) (lt-of_get_elem? slots j none hole)

    pub Stored-set_old : (b : A) (i : ℕ) → Stored slots b i → Stored (set slots j (some a)) b i
    Stored-set_old b i at = get_elem?-set_ne slots j i (some a) differ ∙ at
      where
        differ : j ≢ i
        differ e = cc (hole, at)

    pub Stored-of_set :
        (b : A) (i : ℕ) → Stored (set slots j (some a)) b i → Stored slots b i ⊎ ((b ≡ a) × (i ≡ j))
    Stored-of_set b i at = elim (ℕ_discrete j i) [
      | yes same ↦ inr (cc (Stored-set_new), sym same)
      | no other ↦ inl (sym (get_elem?-set_ne slots j i (some a) other) ∙ at)
    ]

  module _ (capacity : ℕ) (entry : A) where
    place_here :
        (slots : List (Option A)) (fuel i : ℕ)
        → get_elem? slots i ≡ some none
        → place entry slots capacity (suc fuel) i ≡ ok (set slots i (some entry))
    unfolding place
    place_here slots fuel i e = ground arith

    place_next :
        (slots : List (Option A)) (fuel i : ℕ) (a : A)
        → Stored slots a i
        → place entry slots capacity (suc fuel) i
          ≡ place entry slots capacity fuel (next_index capacity i)
    unfolding place
    place_next slots fuel i a e = ground arith

    -- The slot that the loop writes: the first hole of the walk.
    pub record FirstHole (slots : List (Option A)) (fuel i d : ℕ) : Type ℓ where
      pub steps : ℕ
      pub within : steps ≤ d
      pub hole : get_elem? slots (walk capacity steps i) ≡ some none
      pub run : (e : ℕ) → e < steps → Occupied slots (walk capacity e i)
      pub written :
          place entry slots capacity fuel i ≡ ok (set slots (walk capacity steps i) (some entry))

    pub place_lem :
        (slots : List (Option A)) (d fuel i : ℕ)
        → IsCapacity capacity
        → length slots ≡ capacity
        → d < fuel
        → i < capacity
        → get_elem? slots (walk capacity d i) ≡ some none
        → FirstHole slots fuel i d
    unfolding walk
    place_lem slots d zero i c size h lt e = absurd (omega arith)
    place_lem slots zero (suc fuel) i c size h lt e = record {
      steps = 0;
      within = omega arith;
      hole = e;
      run = λ k p. absurd (omega arith);
      written = place_here slots fuel i e;
    }
    place_lem slots (suc d) (suc fuel) i c size h lt e = elim (slot-cases slots i (omega arith)) [
      | inl hole ↦ record {
        steps = 0;
        within = omega arith;
        hole = hole;
        run = λ k p. absurd (omega arith);
        written = place_here slots fuel i hole;
      }
      | inr (a, at) ↦
          let later =
            place_lem slots d fuel (next_index capacity i) c size (omega arith)
              (next_index-lt c i lt) e in
          record {
            steps = suc later.steps;
            within = omega (arith, later.within);
            hole = later.hole;
            run = elim [ zero ↦ λ p. (a, at) | suc k ↦ λ p. later.run k (omega arith) ];
            written = rw (place_next slots fuel i a at) later.written;
          }
    ]
