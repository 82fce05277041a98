-- ===== src/InternalUtils/Scan/Exact.antt =====
-- The searches as a whole.
use darktide_mods.Base.{
  ℕ, ◌+◌, ◌-◌, ◌/◌, ◌^◌, ◌≤◌, ◌<◌, ◌≡◌, refl, sym, ap, ◌∙◌, arith, inl, inr, Bool, false, ◌||◌,
  Bool-cases, List, [], ◌∷◌, ◌++◌, none, some, if◌then◌else◌, ltb, ◌==◌, length, length-append, Run,
  ok,
}
use darktide_mods.InternalUtils.Memory.{Memory, Section, memory_eq, load_pointer}
use darktide_mods.InternalUtils.Scan.{
  Output, Hits, no_hits, scan, scan_sections, skips_for_strings, find_exact_strings, find_prefix,
  skips_for_pointers, find_pointer_slots,
}
use darktide_mods.InternalUtils.Scan.Select.{
  selected, gather, gather-append, report, gather-report, Rounds, scan-gather, take-nil,
}

pub no_hits-report : (out : Output) → report out [] ≡ no_hits
no_hits-report none = refl
no_hits-report (some capacity) = ap (λ t. record { stored = t; count = 0 }) (take-nil capacity)

-- The rounds of the searches that go byte by byte.
pub byte-Rounds : (last : ℕ) → Rounds 1 last 0 (last + 1)
byte-Rounds last = record { past = omega arith; needed = λ m e. omega (arith, e) }

pointer-Rounds : (last : ℕ) → Rounds 8 last 0 (last / 8 + 1)
pointer-Rounds last = record { past = omega arith; needed = λ m e. omega (arith, e) }

-- The hits of all sections that are not passed over, in the order of the sections.
abbrev pub section_hits : (Section → Bool) → (Section → List ℕ) → List Section → List ℕ
section_hits skips found [] = []
section_hits skips found (section ∷ sections) =
    let others = section_hits skips found sections in
    if skips section then others else found section ++ others

-- Every section is far smaller than the address space.
abbrev pub AreSmall : List Section → Type 0
AreSmall [] = Unit {0}
AreSmall (section ∷ sections) = (section.size < 2 ^ 63) × AreSmall sections

scan_sections-gather :
    (out : Output) (skips : Section → Bool) (scan_one : Section → Hits → Run Hits)
    (found : Section → List ℕ) (sections : List Section)
    → AreSmall sections
    → ((section : Section) (h : Hits)
        → section.size < 2 ^ 63
        → skips section ≡ false
        → scan_one section h ≡ ok (gather out (found section) h))
    → (h : Hits)
    → scan_sections skips scan_one sections h
      ≡ ok (gather out (section_hits skips found sections) h)
unfolding scan_sections
scan_sections-gather out skips scan_one found [] small one h = refl
scan_sections-gather out skips scan_one found (section ∷ sections) small one h =
    elim (Bool-cases (skips section)) [
      | inl passed ↦
          rw passed (scan_sections-gather out skips scan_one found sections small.1 one h)
      | inr searched ↦
          rw (searched, one section h small.0 searched)
            (scan_sections-gather out skips scan_one found sections small.1 one
                (gather out (found section) h)
              ∙ ap ok
                  (sym (gather-append out (found section) (section_hits skips found sections) h)))
    ]

-- The addresses of a section at which a string with its terminator stands whole.
abbrev pub string_hits : Memory → List ℕ → Section → List ℕ
string_hits memory text section =
    selected (λ address. memory_eq memory address text) 1 (section.size - length text + 1)
      section.start

abbrev pub pointer_hits : Memory → ℕ → Section → List ℕ
pointer_hits memory target section =
    selected (λ address. load_pointer memory address == target) 8 ((section.size - 8) / 8 + 1)
      section.start

-- What a search over the sections reports.
pub gathered :
    (out : Output) (found : List ℕ)
    → length found < 2 ^ 64
    → gather out found no_hits ≡ report out found
gathered out found small =
    ap (gather out found) (sym (no_hits-report out)) ∙ gather-report out [] found (omega arith)

-- A search of one section from its start.
pub scan_section :
    (out : Output) (passes : ℕ → Bool) (step start last fuel n : ℕ) (h : Hits)
    → last + step < 2 ^ 64
    → n ≤ fuel
    → Rounds step last 0 n
    → scan out passes step start last fuel 0 h ≡ ok (gather out (selected passes step n start) h)
scan_section out passes step start last fuel n h small enough r =
    let e : start + 0 ≡ start = omega arith in
    scan-gather out passes step start last fuel 0 n h small enough r
    ∙ ap (λ a. ok (gather out (selected passes step n a) h)) e

strings_fit :
    (size : ℕ) (section : Section) → skips_for_strings size section ≡ false → size ≤ section.size
unfolding skips_for_strings
strings_fit size section searched = ground arith

pointers_fit : (section : Section) → skips_for_pointers section ≡ false → 8 ≤ section.size
unfolding skips_for_pointers
pointers_fit section searched = ground arith

-- The addresses at which `value` stands with its terminator, whole in a readable section without
-- code.
abbrev pub strings_of : Memory → List Section → List ℕ → List ℕ
strings_of memory sections value =
    section_hits (skips_for_strings (length (value ++ 0 ∷ [])))
      (string_hits memory (value ++ 0 ∷ [])) sections

-- The aligned addresses of the sections of constants and variables that hold `target`.
abbrev pub pointers_of : Memory → List Section → ℕ → List ℕ
pointers_of memory sections target =
    section_hits skips_for_pointers (pointer_hits memory target) sections

-- The addresses at which `prefix` stands whole in a section.
abbrev pub prefixes_of : Memory → Section → List ℕ → List ℕ
prefixes_of memory section prefix =
    if length prefix == 0 || ltb section.size (length prefix)
    then []
    else string_hits memory prefix section

module _ (memory : Memory) (sections : List Section) (small : AreSmall sections)
    (out : Output) where
  -- On sections smaller than 2 ^ 63 bytes, with fewer than 2 ^ 64 hits, `find_exact_strings`
  -- ends; its count is that of the addresses, in the sections that are not passed over, at which
  -- the string stands with its terminator, and it stores the first of them in order, as many as
  -- the output holds.
  pub find_exact_strings-report :
      (value : List ℕ)
      → length (strings_of memory sections value) < 2 ^ 64
      → find_exact_strings memory (some sections) (some value) out
        ≡ ok (report out (strings_of memory sections value))
  unfolding find_exact_strings
  find_exact_strings-report value few =
      let text : List ℕ = value ++ 0 ∷ [] in
      let size : length text ≡ length value + 1 = length-append value (0 ∷ []) in
      scan_sections-gather out (skips_for_strings (length text)) _ (string_hits memory text)
        sections small
        (λ section h narrow searched.
          scan_section out (λ address. memory_eq memory address text) 1 section.start
            (section.size - length text) section.size (section.size - length text + 1) h
            (omega (arith, narrow))
            (omega (arith, strings_fit (length text) section searched, size)) (byte-Rounds _))
        no_hits
      ∙ ap ok (gathered out _ few)

  -- On sections smaller than 2 ^ 63 bytes, with fewer than 2 ^ 64 hits, `find_pointer_slots`
  -- ends; its count is that of the addresses at every eighth byte of the sections that are not
  -- passed over at which the target stands as a pointer, and it stores the first of them in
  -- order, as many as the output holds.
  pub find_pointer_slots-report :
      (target : ℕ)
      → length (pointers_of memory sections target) < 2 ^ 64
      → find_pointer_slots memory (some sections) target out
        ≡ ok (report out (pointers_of memory sections target))
  unfolding find_pointer_slots
  find_pointer_slots-report target few =
      scan_sections-gather out skips_for_pointers _ (pointer_hits memory target) sections small
        (λ section h narrow searched.
          scan_section out (λ address. load_pointer memory address == target) 8 section.start
            (section.size - 8) section.size ((section.size - 8) / 8 + 1) h (omega (arith, narrow))
            (omega (arith, pointers_fit section searched)) (pointer-Rounds _))
        no_hits
      ∙ ap ok (gathered out _ few)

pub find_prefix-report :
    (memory : Memory) (section : Section) (prefix : List ℕ) (out : Output)
    → section.size < 2 ^ 63
    → length (prefixes_of memory section prefix) < 2 ^ 64
    → find_prefix memory (some section) (some prefix) out
      ≡ ok (report out (prefixes_of memory section prefix))
unfolding find_prefix
find_prefix-report memory section prefix out narrow few =
    elim (Bool-cases (length prefix == 0 || ltb section.size (length prefix))) [
      | inl nothing ↦ rw nothing (ap ok (sym (no_hits-report out)))
      | inr searched ↦ rw searched (
          scan_section out (λ address. memory_eq memory address prefix) 1 section.start
            (section.size - length prefix) section.size (section.size - length prefix + 1) no_hits
            (omega (arith, narrow)) (ground (arith, searched)) (byte-Rounds _)
          ∙ ap ok (gathered out _ (rw searched at few)))
    ]
