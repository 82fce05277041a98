-- ===== src/InternalUtils/Image/Address.antt =====
-- The section of an address, in a module that is loaded.
use darktide_mods.Base.{
  ℕ, zero, suc, ◌+◌, ◌^◌, ◌≤◌, ◌<◌, ◌≡◌, ◌≢◌, ◌⊎◌, ◌↔◌, refl, ◌∙◌, inl, inr, arith, Bool, true,
  false, Bool-cases, none, some, List, [], ◌∷◌, ℕ_discrete, get_elem?,
}
use darktide_mods.InternalUtils.Memory.{Section}
use darktide_mods.InternalUtils.Image.{
  Module, find_section, holds_address, section_for_address, is_executable_address,
}
use darktide_mods.InternalUtils.Image.Load.{IsModule}

-- The first section of a list that passes a test.
abbrev pub IsFirst : (Section → Bool) → List Section → Section → Type 0
IsFirst p ss s =
    (i : ℕ) × (get_elem? ss i ≡ some s)
    × (p s ≡ true)
    × ((j : ℕ) (t : Section) → get_elem? ss j ≡ some t → p t ≡ true → i ≤ j)

abbrev pub NoSection : (Section → Bool) → List Section → Type 0
NoSection p ss = (i : ℕ) (s : Section) → get_elem? ss i ≡ some s → p s ≡ false

find_section_lem :
    (p : Section → Bool) (ss : List Section)
    → ((find_section p ss ≡ none) × NoSection p ss)
      ⊎ ((s : Section) × (find_section p ss ≡ some s) × IsFirst p ss s)
find_section_lem p [] = inl (refl, λ i s f. absurd cc)
find_section_lem p (s ∷ ss) = go (Bool-cases (p s)) (find_section_lem p ss)
  where
    go :
        (p s ≡ true) ⊎ (p s ≡ false)
        → ((find_section p ss ≡ none) × NoSection p ss)
          ⊎ ((s : Section) × (find_section p ss ≡ some s) × IsFirst p ss s)
        → ((find_section p (s ∷ ss) ≡ none) × NoSection p (s ∷ ss))
          ⊎ ((t : Section) × (find_section p (s ∷ ss) ≡ some t) × IsFirst p (s ∷ ss) t)
    go (inl e) rest = inr (s, rw e refl, (0, refl, e, λ j t f g. omega arith))
    go (inr e) (inl (f, free)) = inl (rw e f, none_here)
      where
        none_here : NoSection p (s ∷ ss)
        none_here zero t g = let same : s ≡ t = cc in cc
        none_here (suc i) t g = free i t g
    go (inr e) (inr (t, f, (i, g, h, least))) = inr (t, rw e f, (suc i, g, h, later))
      where
        later : (j : ℕ) (u : Section) → get_elem? (s ∷ ss) j ≡ some u → p u ≡ true → suc i ≤ j
        later zero u k l = let same : s ≡ u = cc in absurd cc
        later (suc j) u k l = omega (arith, least j u k l)

-- A section that holds an address, when it does not reach past the address space.
abbrev pub Holds : ℕ → Section → Type 0
Holds a s = (s.start ≤ a) × (a < s.start + s.size)

module _ (m : Module) (v : IsModule m) (fits : m.base + m.image_size < 2 ^ 64) where
  holds_address-Holds :
      (i : ℕ) (s : Section)
      → get_elem? m.sections i ≡ some s
      → (a : ℕ) → (holds_address a s ≡ true) ↔ Holds a s
  unfolding holds_address
  holds_address-Holds i s e a = ground (arith, v.inside i s e, fits)

  -- In a module with those properties, for an address that is not 0, `section_for_address` gives
  -- the first section that holds the address, and none exactly where no section does.
  pub section_for_address-first :
      (a : ℕ)
      → a ≢ 0
      → ((section_for_address m a ≡ none)
          × ((i : ℕ) (s : Section) → get_elem? m.sections i ≡ some s → ¬ Holds a s))
        ⊎ ((s : Section) × (i : ℕ) × (section_for_address m a ≡ some s)
            × (get_elem? m.sections i ≡ some s)
            × Holds a s
            × ((j : ℕ) (t : Section) → get_elem? m.sections j ≡ some t → Holds a t → i ≤ j))
  unfolding section_for_address
  section_for_address-first a nonzero = go (find_section_lem (holds_address a) m.sections)
    where
      opened : section_for_address m a ≡ find_section (holds_address a) m.sections
      opened = ground (arith, nonzero)

      go :
          ((find_section (holds_address a) m.sections ≡ none)
              × NoSection (holds_address a) m.sections)
            ⊎ ((s : Section) × (find_section (holds_address a) m.sections ≡ some s)
                × IsFirst (holds_address a) m.sections s)
          → ((section_for_address m a ≡ none)
              × ((i : ℕ) (s : Section) → get_elem? m.sections i ≡ some s → ¬ Holds a s))
            ⊎ ((s : Section) × (i : ℕ) × (section_for_address m a ≡ some s)
                × (get_elem? m.sections i ≡ some s)
                × Holds a s
                × ((j : ℕ) (t : Section) → get_elem? m.sections j ≡ some t → Holds a t → i ≤ j))
      go (inl (e, free)) = inl (
        opened ∙ e,
        λ i s f h. let g = (holds_address-Holds i s f a).1 h in let k = free i s f in absurd cc,
      )
      go (inr (s, e, (i, f, g, least))) = inr (
        s,
        i,
        opened ∙ e,
        f,
        (holds_address-Holds i s f a).0 g,
        λ j t k h. least j t k ((holds_address-Holds j t k a).1 h),
      )

  null_address : (a : ℕ) → a ≡ 0 → section_for_address m a ≡ none
  unfolding section_for_address
  null_address a e = ground (arith, e)

  pub is_executable_address-inside :
      (a : ℕ) → is_executable_address m a ≡ true → (m.base ≤ a) × (a < m.base + m.image_size)
  unfolding is_executable_address
  is_executable_address-inside a h = elim (ℕ_discrete a 0) [
    | yes e ↦
        let f : section_for_address m a ≡ none = null_address a e in absurd (ground (arith, f, h))
    | no nonzero ↦ elim (section_for_address-first a nonzero) [
      | inl (e, free) ↦ absurd (ground (arith, e, h))
      | inr (s, i, e, f, holds, least) ↦ ground (arith, holds, v.inside i s f)
    ]
  ]
