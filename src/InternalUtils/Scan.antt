-- ===== src/InternalUtils/Scan.antt =====
-- scan.c: the searches for strings, pointers and patterns. Each counts all its hits and stores the
-- first ones, as many as the output holds.
pub mod Select
pub mod Exact
use darktide_mods.Base.{
  ℕ, zero, suc, ◌+◌, ◌-◌, ◌%◌, ◌^◌, Bool, true, false, not, ◌&&◌, ◌||◌, List, [], ◌∷◌, ◌++◌, Option,
  none, some, if◌then◌else◌, ltb, leb, ◌==◌, bytes_eq, codes, length, Run, ok, fault, out_of_fuel,
  ◌>>=◌,
}
use darktide_mods.InternalUtils.Memory.{
  Memory, Section, has_flag, mem_read, mem_execute, memory_eq, load_pointer,
}

-- `results`: its capacity, or `none` for NULL.
abbrev pub Output : Type 0
Output = Option ℕ

-- What `results` holds, and `result_count`.
pub record Hits : Type 0 where
  pub stored : List ℕ
  pub count : ℕ

abbrev pub no_hits : Hits
no_hits = record { stored = []; count = 0 }

unfoldable pub hit : Output → ℕ → Hits → Hits
hit none address h = record h { count = (h.count + 1) % 2 ^ 64 }
hit (some capacity) address h = record {
  stored = if ltb h.count capacity then h.stored ++ address ∷ [] else h.stored;
  count = (h.count + 1) % 2 ^ 64;
}

-- `for (offset = …; offset <= last; offset += step)`, with the test of the address. The fuel is the
-- size of the section, which is more than the rounds.
unfoldable pub scan : Output → (ℕ → Bool) → ℕ → ℕ → ℕ → ℕ → ℕ → Hits → Run Hits
scan out matches step start last zero offset h = if leb offset last then fault out_of_fuel else ok h
scan out matches step start last (suc fuel) offset h =
    let address = start + offset in
    let rest =
      scan out matches step start last fuel ((offset + step) % 2 ^ 64)
        (if matches address then hit out address h else h) in
    if leb offset last then rest else ok h

-- The loop over the sections of a module, with the guard that passes over one.
unfoldable pub scan_sections :
    (Section → Bool) → (Section → Hits → Run Hits) → List Section → Hits → Run Hits
scan_sections skips scan_one [] h = ok h
scan_sections skips scan_one (section ∷ sections) h =
    let rest = scan_one section h >>= scan_sections skips scan_one sections in
    let passed = scan_sections skips scan_one sections h in if skips section then passed else rest

unfoldable pub skips_for_strings : ℕ → Section → Bool
skips_for_strings value_size section =
    not (has_flag section.characteristics mem_read)
    || has_flag section.characteristics mem_execute
    || ltb section.size value_size

-- `value` without its terminator; the module is the list of its sections.
unfoldable pub find_exact_strings :
    Memory → Option (List Section) → Option (List ℕ) → Output → Run Hits
find_exact_strings memory none value out = ok no_hits
find_exact_strings memory (some sections) none out = ok no_hits
find_exact_strings memory (some sections) (some value) out =
    let text = value ++ 0 ∷ [] in
    scan_sections (skips_for_strings (length text))
      (λ section.
        scan out (λ address. memory_eq memory address text) 1 section.start
          (section.size - length text) section.size 0)
      sections no_hits

unfoldable pub find_prefix : Memory → Option Section → Option (List ℕ) → Output → Run Hits
find_prefix memory none prefix out = ok no_hits
find_prefix memory (some section) none out = ok no_hits
find_prefix memory (some section) (some prefix) out =
    let found =
      scan out (λ address. memory_eq memory address prefix) 1 section.start
        (section.size - length prefix) section.size 0 no_hits in
    if length prefix == 0 || ltb section.size (length prefix) then ok no_hits else found

unfoldable pub skips_for_pointers : Section → Bool
skips_for_pointers section =
    not (bytes_eq section.name (codes ".rdata")) && not (bytes_eq section.name (codes ".data"))
    || not (has_flag section.characteristics mem_read)
    || has_flag section.characteristics mem_execute
    || ltb section.size 8

unfoldable pub find_pointer_slots : Memory → Option (List Section) → ℕ → Output → Run Hits
find_pointer_slots memory none target out = ok no_hits
find_pointer_slots memory (some sections) target out =
    scan_sections skips_for_pointers
      (λ section.
        scan out (λ address. load_pointer memory address == target) 8 section.start
          (section.size - 8) section.size 0)
      sections no_hits
