-- ===== src/Mapping/Probe/Table.antt =====
-- Tables whose entries are reachable from their hash, and how insertion and growth keep them so.
use darktide_mods.Base.{
  ℕ, zero, suc, ◌+◌, ◌<◌, ◌≡◌, refl, sym, ◌∙◌, ◌⊎◌, inl, inr, arith, List, [], ◌∷◌, Option, none,
  some, length, get_elem?, set, ok, replicate, length-replicate, get_elem?-replicate, length-set,
  lt-of_get_elem?,
}
use darktide_mods.Mapping.Probe.{home, place}
use darktide_mods.Mapping.Probe.Walk.{IsCapacity, home-lt, walk, walk-reaches}
use darktide_mods.Mapping.Probe.Find.{Stored, Contains, Occupied}
use darktide_mods.Mapping.Probe.Place.{Stored-set_new, Stored-set_old, Stored-of_set, place_lem}

module _ {ℓ} {A : Type ℓ} where
  -- The number of slots in use.
  unfoldable pub used : List (Option A) → ℕ
  used [] = 0
  used (none ∷ slots) = used slots
  used (some a ∷ slots) = suc (used slots)

  pub used-hole :
      (slots : List (Option A))
      → used slots < length slots
      → (i : ℕ) × (i < length slots) × (get_elem? slots i ≡ some none)
  unfolding used
  used-hole [] h = elim h [ ]
  used-hole (none ∷ slots) h = (0, omega arith, refl)
  used-hole (some a ∷ slots) h =
      let (i, lt, e) = used-hole slots (omega arith) in (suc i, omega arith, e)

  pub used-set :
      (slots : List (Option A)) (i : ℕ) (a : A)
      → get_elem? slots i ≡ some none
      → used (set slots i (some a)) ≡ used slots + 1
  unfolding used
  used-set [] i a e = cc
  used-set (none ∷ slots) zero a e = omega arith
  used-set (some b ∷ slots) zero a e = cc
  used-set (none ∷ slots) (suc i) a e = used-set slots i a e
  used-set (some b ∷ slots) (suc i) a e = omega (arith, used-set slots i a e)

pub used-replicate {ℓ} : (A : Type ℓ) (n : ℕ) → used (replicate {A = Option A} n none) ≡ 0
unfolding used
used-replicate A zero = refl
used-replicate A (suc n) = used-replicate A n

pub not-Stored-replicate {ℓ} : {A : Type ℓ} (n i : ℕ) (a : A) → ¬ Stored (replicate n none) a i
not-Stored-replicate {A = A} n i a at =
    let lt = lt-of_get_elem? (replicate n none) i (some a) at in
    cc (at, get_elem?-replicate {A = Option A} n i none (rw length-replicate at lt))

module _ {ℓ} {A : Type ℓ} (hash : A → ℕ) where
  -- An entry at `i`: every slot that the walk from its hash passes before `i` is in use.
  pub record IsPlaced (capacity : ℕ) (slots : List (Option A)) (a : A) (i : ℕ) : Type ℓ where
    pub steps : ℕ
    pub few : steps < capacity
    pub ends : walk capacity steps (home capacity (hash a)) ≡ i
    pub run : (e : ℕ) → e < steps → Occupied slots (walk capacity e (home capacity (hash a)))

  pub record IsTable (capacity : ℕ) (slots : List (Option A)) : Type ℓ where
    pub shape : IsCapacity capacity
    pub size : length slots ≡ capacity
    pub placed : (a : A) (i : ℕ) → Stored slots a i → IsPlaced capacity slots a i

  -- An all-zero allocation is an empty table.
  pub replicate-IsTable : (n : ℕ) → IsCapacity n → IsTable n (replicate n none)
  replicate-IsTable n c = record {
    shape = c;
    size = length-replicate n none;
    placed = λ a i at. absurd (not-Stored-replicate n i a at);
  }

  -- What one insertion does.
  pub record Inserted (capacity : ℕ) (slots : List (Option A)) (a : A) (after : List (Option A))
      : Type ℓ where
    pub table : IsTable capacity after
    pub counted : used after ≡ used slots + 1
    pub added : Contains after a
    pub kept : (b : A) → Contains slots b → Contains after b
    pub only : (b : A) → Contains after b → Contains slots b ⊎ (b ≡ a)

  write-Inserted :
      (capacity : ℕ) (slots : List (Option A)) (a : A)
      → IsTable capacity slots
      → (steps : ℕ) → steps < capacity
      → get_elem? slots (walk capacity steps (home capacity (hash a))) ≡ some none
      → ((e : ℕ) → e < steps → Occupied slots (walk capacity e (home capacity (hash a))))
      → Inserted capacity slots a
          (set slots (walk capacity steps (home capacity (hash a))) (some a))
  write-Inserted capacity slots a t steps few hole run = record {
    table = record {
      shape = t.shape;
      size = length-set slots j (some a) ∙ t.size;
      placed = λ b i at. elim (Stored-of_set slots j a hole b i at) [
        | inl old ↦
            let p = t.placed b i old in
            record { steps = p.steps; few = p.few; ends = p.ends; run = λ e q. keep _ (p.run e q) }
        | inr (same, here) ↦ record {
          steps = steps;
          few = few;
          ends = rw same (sym here);
          run = λ e q. rw same (keep _ (run e q));
        }
      ];
    };
    counted = used-set slots j a hole;
    added = (j, Stored-set_new slots j a hole);
    kept = λ b at. (at.0, Stored-set_old slots j a hole b at.0 at.1);
    only = λ b at. elim (Stored-of_set slots j a hole b at.0 at.1) [
      | inl old ↦ inl (at.0, old)
      | inr (same, here) ↦ inr same
    ];
  }
    where
      j : ℕ
      j = walk capacity steps (home capacity (hash a))

      keep : (i : ℕ) → Occupied slots i → Occupied (set slots j (some a)) i
      keep i (b, at) = (b, Stored-set_old slots j a hole b i at)

  pub place-Inserted :
      (capacity : ℕ) (slots : List (Option A)) (a : A)
      → IsTable capacity slots
      → used slots < capacity
      → (after : List (Option A)) × (place a slots capacity capacity (home capacity (hash a))
          ≡ ok after)
        × Inserted capacity slots a after
  place-Inserted capacity slots a t room =
      let start = home capacity (hash a) in
      let start_in = home-lt t.shape (hash a) in
      let (h, h_in, e) = used-hole slots (omega (arith, t.size)) in
      let (d, few, reached) = walk-reaches t.shape start h start_in (omega (arith, t.size)) in
      let f =
        place_lem capacity a slots d capacity start t.shape t.size few start_in (rw reached e) in
      (
        set slots (walk capacity f.steps start) (some a),
        f.written,
        write-Inserted capacity slots a t f.steps (omega (arith, f.within)) f.hole f.run,
      )
