-- ===== src/InternalUtils/Image/Load.antt =====
-- What the headers of a module that is loaded give: its sections, its code and its function table.
use darktide_mods.Base.{
  ℕ, zero, suc, ◌+◌, ◌*◌, ◌^◌, ◌≤◌, ◌<◌, ◌≡◌, ◌≢◌, ◌⊎◌, refl, sym, ap, subst, inl, inr, arith, true,
  false, Bool-cases, Option, Option-cases, none, some, List, [], ◌∷◌, length, get_elem?, bytes_eq,
}
use darktide_mods.InternalUtils.Memory.{Section, mem_execute, mem_read, has_flag}
use darktide_mods.InternalUtils.Image.{
  SectionHeader, ImageHeaders, Module, Loaded, loaded, not_loaded, max_sections, text_name,
  runtime_function_bytes, section_size, load_section, next_text, prepend, made_module,
  load_sections, is_text, has_exceptions, finish_module, module_init_current,
}

-- A section is empty or inside the image.
abbrev pub IsInside : ℕ → ℕ → Section → Type 0
IsInside base image_size s =
    (s.size ≡ 0) ⊎ ((base ≤ s.start) × (s.start + s.size ≤ base + image_size))

abbrev pub AreInside : ℕ → ℕ → List Section → Type 0
AreInside base image_size ss =
    (i : ℕ) (s : Section) → get_elem? ss i ≡ some s → IsInside base image_size s

abbrev NoText : List Section → Type 0
NoText ss = (i : ℕ) (s : Section) → get_elem? ss i ≡ some s → bytes_eq s.name text_name ≡ false

-- The section is the only one of the list with the name .text.
abbrev pub IsOnlyText : List Section → Section → Type 0
IsOnlyText ss s =
    (i : ℕ) × (get_elem? ss i ≡ some s)
    × (bytes_eq s.name text_name ≡ true)
    × ((j : ℕ) (t : Section) → get_elem? ss j ≡ some t → bytes_eq t.name text_name ≡ true → j ≡ i)

-- `module->text` after the sections of a list, from what it was before.
abbrev IsLast : Option Section → List Section → Option Section → Type 0
IsLast (some t) ss last = (last ≡ some t) × NoText ss
IsLast none ss last =
    ((last ≡ none) × NoText ss) ⊎ ((s : Section) × (last ≡ some s) × IsOnlyText ss s)

load_section-Inside :
    (base image_size : ℕ) (header : SectionHeader)
    → base + image_size < 2 ^ 64
    → IsInside base image_size (load_section base image_size header)
unfolding load_section section_size
load_section-Inside base image_size header fits = ground (arith, fits)

-- A section before others.
inside-cons :
    (base image_size : ℕ) (s : Section) (ss : List Section)
    → IsInside base image_size s
    → AreInside base image_size ss
    → AreInside base image_size (s ∷ ss)
inside-cons base image_size s ss h all zero t e = let same : s ≡ t = cc in rw (sym same) h
inside-cons base image_size s ss h all (suc i) t e = all i t e

NoText-cons :
    (s : Section) (ss : List Section)
    → bytes_eq s.name text_name ≡ false
    → NoText ss
    → NoText (s ∷ ss)
NoText-cons s ss h all zero t e = let same : s ≡ t = cc in rw (sym same) h
NoText-cons s ss h all (suc i) t e = all i t e

IsOnlyText-first :
    (s : Section) (ss : List Section)
    → bytes_eq s.name text_name ≡ true
    → NoText ss
    → IsOnlyText (s ∷ ss) s
IsOnlyText-first s ss h none_after = (0, refl, h, unique)
  where
    unique :
        (j : ℕ) (t : Section)
        → get_elem? (s ∷ ss) j ≡ some t
        → bytes_eq t.name text_name ≡ true
        → j ≡ 0
    unique zero t e f = refl
    unique (suc j) t e f = let g = none_after j t e in absurd cc

IsOnlyText-later :
    (s t : Section) (ss : List Section)
    → bytes_eq s.name text_name ≡ false
    → IsOnlyText ss t
    → IsOnlyText (s ∷ ss) t
IsOnlyText-later s t ss h (i, e, named, only) = (suc i, e, named, unique)
  where
    unique :
        (j : ℕ) (u : Section)
        → get_elem? (s ∷ ss) j ≡ some u
        → bytes_eq u.name text_name ≡ true
        → j ≡ suc i
    unique zero u e f = let same : s ≡ u = cc in absurd cc
    unique (suc j) u e f = ap suc (only j u e f)

IsLast-nil : (text : Option Section) → IsLast text [] text
IsLast-nil none = inl (refl, λ i t f. absurd cc)
IsLast-nil (some t) = (refl, λ i t f. absurd cc)

IsLast-cons :
    (text next : Option Section) (s : Section) (ss : List Section) (last : Option Section)
    → (bytes_eq s.name text_name ≡ true) ⊎ (bytes_eq s.name text_name ≡ false)
    → next_text text s ≡ some next
    → IsLast next ss last
    → IsLast text (s ∷ ss) last
unfolding next_text
IsLast-cons none next s ss last (inl named) e h =
    let f : next ≡ some s = ground (arith, e, named) in
    let (g, free) = subst (λ n. IsLast n ss last) f h in
    inr (s, g, IsOnlyText-first s ss named free)
IsLast-cons (some t) next s ss last (inl named) e h = absurd (ground (arith, e, named))
IsLast-cons none next s ss last (inr other) e h =
    let f : next ≡ none = ground (arith, e, other) in later (subst (λ n. IsLast n ss last) f h)
  where
    later : IsLast none ss last → IsLast none (s ∷ ss) last
    later (inl (g, free)) = inl (g, NoText-cons s ss other free)
    later (inr (t, g, only)) = inr (t, g, IsOnlyText-later s t ss other only)
IsLast-cons (some t) next s ss last (inr other) e h =
    let f : next ≡ some t = ground (arith, e, other) in
    let (g, free) = subst (λ n. IsLast n ss last) f h in (g, NoText-cons s ss other free)

prepend-loaded :
    (s : Section) (r : Loaded (List Section × Option Section)) (ss : List Section)
    (last : Option Section)
    → prepend s r ≡ loaded (ss, last)
    → (tail : List Section) × (r ≡ loaded (tail, last)) × (ss ≡ s ∷ tail)
unfolding prepend
prepend-loaded s (not_loaded e) ss last h = absurd cc
prepend-loaded s (loaded (tail, l)) ss last h =
    let lasts : l ≡ last = cc in (tail, ap (λ (x : Option Section). loaded (tail, x)) lasts, cc)

load_sections-suc :
    (base image_size : ℕ) (headers : ℕ → SectionHeader) (count index : ℕ)
    (text last : Option Section) (ss : List Section)
    → load_sections base image_size headers (suc count) index text ≡ loaded (ss, last)
    → (next : Option Section) × (tail : List Section) × (next_text text
          (load_section base image_size (headers index))
        ≡ some next)
      × (load_sections base image_size headers count (index + 1) next ≡ loaded (tail, last))
      × (ss ≡ load_section base image_size (headers index) ∷ tail)
unfolding load_sections
load_sections-suc base image_size headers count index text last ss e =
    let s = load_section base image_size (headers index) in
    elim (Option-cases (next_text text s)) [
      | inl f ↦ let g = (rw (f, load_sections) at e) in absurd cc
      | inr (next, f) ↦
          let (tail, run, same) =
            prepend-loaded s (load_sections base image_size headers count (index + 1) next) ss last
              (rw (f, load_sections) at e) in
          (next, tail, f, run, same)
    ]

-- The sections that are read.
load_sections_lem :
    (base image_size : ℕ) (headers : ℕ → SectionHeader)
    → base + image_size < 2 ^ 64
    → (count index : ℕ) (text last : Option Section) (ss : List Section)
    → load_sections base image_size headers count index text ≡ loaded (ss, last)
    → (length ss ≡ count) × AreInside base image_size ss × IsLast text ss last
unfolding load_sections
load_sections_lem base image_size headers fits zero index text last ss e =
    let empty : ss ≡ [] = cc in
    let same : last ≡ text = cc in rw (empty, same) (refl, (λ i t f. absurd cc), IsLast-nil text)
load_sections_lem base image_size headers fits (suc count) index text last ss e =
    let (next, tail, f, run, same) =
      load_sections-suc base image_size headers count index text last ss e in
    let s = load_section base image_size (headers index) in
    let (long, inside, ends) =
      load_sections_lem base image_size headers fits count (index + 1) next last tail run in
    rw same (
      ap suc long,
      inside-cons base image_size s tail (load_section-Inside base image_size (headers index) fits)
          inside,
      IsLast-cons text next s tail last (Bool-cases (bytes_eq s.name text_name)) f ends,
    )

-- What holds of a module that is loaded.
pub record IsModule (m : Module) : Type 0 where
  pub some_sections : (0 < length m.sections) × (length m.sections ≤ max_sections)
  pub inside : AreInside m.base m.image_size m.sections
  pub text_section :
      (s : Section) × (m.text ≡ some s)
      × IsOnlyText m.sections s
      × (0 < s.size)
      × (has_flag s.characteristics mem_execute ≡ true)
      × (has_flag s.characteristics mem_read ≡ true)
  pub functions :
      (0 < m.runtime_function_count)
      × (m.base < m.runtime_functions)
      × (m.runtime_functions + m.runtime_function_count * runtime_function_bytes
          ≤ m.base + m.image_size)

module _ (base : ℕ) (h : ImageHeaders) (ss : List Section) (s : Section) where
  made_module-IsModule :
      base + h.size_of_image < 2 ^ 64
      → length ss ≡ h.number_of_sections
      → h.number_of_sections ≢ 0
      → h.number_of_sections ≤ max_sections
      → AreInside base h.size_of_image ss
      → IsOnlyText ss s
      → is_text s ≡ true
      → has_exceptions h ≡ true
      → IsModule (made_module base h ss s)
  unfolding made_module is_text has_exceptions
  made_module-IsModule fits long some_s few inside only code table = record {
    some_sections = (omega (arith, long, some_s), omega (arith, long, few));
    inside = inside;
    text_section =
        (s, refl, only, ground (arith, code), ground (arith, code), ground (arith, code));
    functions = (ground (arith, table), ground (arith, table, fits), ground (arith, table, fits));
  }

module _ (base : ℕ) (h : ImageHeaders) (fits : base + h.size_of_image < 2 ^ 64) where
  finish_module-IsModule :
      (r : Loaded (List Section × Option Section)) (m : Module)
      → ((ss : List Section) (last : Option Section)
          → r ≡ loaded (ss, last)
          → (length ss ≡ h.number_of_sections)
            × AreInside base h.size_of_image ss
            × IsLast none ss last)
      → h.number_of_sections ≢ 0
      → h.number_of_sections ≤ max_sections
      → finish_module base h r ≡ loaded m
      → IsModule m
  unfolding finish_module
  finish_module-IsModule (not_loaded e) m read some_s few e2 = absurd cc
  finish_module-IsModule (loaded (ss, none)) m read some_s few e2 = absurd cc
  finish_module-IsModule (loaded (ss, some s)) m read some_s few e2 =
      let (long, inside, ends) = read ss (some s) refl in
      let code : is_text s ≡ true = ground (arith, e2) in
      let table : has_exceptions h ≡ true = ground (arith, e2, code) in
      let same : made_module base h ss s ≡ m = ground (arith, e2, code, table) in
      subst (λ n. IsModule n) same
        (made_module-IsModule base h ss s fits long some_s few inside (only ends) code table)
    where
      only : IsLast none ss (some s) → IsOnlyText ss s
      only (inl (g, free)) = absurd cc
      only (inr (t, g, only_t)) = let same : t ≡ s = cc in subst (λ u. IsOnlyText ss u) same only_t

-- On an image of which the last address fits 64 bits, a module that `module_init_current` loads
-- has 1 to 96 sections, each of them empty or inside the image; exactly one of them is named
-- .text, which is not empty, readable and executable and is the module's text; and its function
-- table has at least one entry and lies inside the image.
pub module_init_current-IsModule :
    (base : ℕ) (h : ImageHeaders) (m : Module)
    → base + h.size_of_image < 2 ^ 64
    → module_init_current (some base) h ≡ loaded m
    → IsModule m
unfolding module_init_current
module_init_current-IsModule base h m fits e =
    finish_module-IsModule base h fits
      (load_sections base h.size_of_image h.section_header h.number_of_sections 0 none) m
      (λ ss last f.
        load_sections_lem base h.size_of_image h.section_header fits h.number_of_sections 0 none
          last ss f)
      (ground (arith, e)) (ground (arith, e)) (ground (arith, e))
