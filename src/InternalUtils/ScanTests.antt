-- ===== src/InternalUtils/ScanTests.antt =====
-- Runs of the searches on a small section.
use darktide_mods.Base.{
  bytes_eq, ◌-◌, ◌<◌, ◌≡◌, ◌↔◌, refl, arith, Bool, true, false, List, [], ◌∷◌, some, get_or, length,
  codes, ok,
}
use darktide_mods.InternalUtils.Memory.{Memory, Section, mem_read, memory_eq, load_pointer}
use darktide_mods.InternalUtils.Scan.{
  find_exact_strings, find_pointer_slots, find_prefix, skips_for_strings, skips_for_pointers,
}
use darktide_mods.InternalUtils.Scan.Select.{report}
use darktide_mods.InternalUtils.Scan.Exact.{
  find_exact_strings-report, find_pointer_slots-report, find_prefix-report, strings_of, pointers_of,
  prefixes_of,
}
use darktide_mods.InternalUtils.Pattern.{
  PatternByte, match_pattern, match_from, find_pattern, contains_bytes, ParseResult, parsed,
  parse_ida_pattern,
}
use darktide_mods.InternalUtils.Pattern.Match.{
  match_pattern_iff, Matches, find_pattern-report, patterns_of, contains_bytes_iff, Occurs,
}
use darktide_mods.InternalUtils.Pattern.Parse.{IsPattern, parse_ida_pattern-IsPattern}
use darktide_mods.InternalUtils.Pattern.Print.{pattern_text, parse_ida_pattern-pattern_text}

-- "ab", a string terminator, "xab", a terminator, and the address 4096 as a pointer.
abbrev sample : Memory
sample address =
    get_or (97 ∷ 98 ∷ 0 ∷ 120 ∷ 97 ∷ 98 ∷ 0 ∷ 0 ∷ 0 ∷ 16 ∷ 0 ∷ 0 ∷ 0 ∷ 0 ∷ 0 ∷ 0 ∷ [])
      (address - 4096) 0

abbrev rdata : Section
rdata = record { start = 4096; size = 16; characteristics = mem_read; name = codes ".rdata" }

abbrev ab_then_any : List PatternByte
ab_then_any =
    record { value = 97; wildcard = false }
    ∷ record { value = 98; wildcard = false }
    ∷ record { value = 0; wildcard = true }
    ∷ []

find_exact_strings_example :
    find_exact_strings sample (some (rdata ∷ [])) (some (codes "ab")) (some 1)
    ≡ ok (report (some 1) (strings_of sample (rdata ∷ []) (codes "ab")))
unfolding skips_for_strings memory_eq
find_exact_strings_example =
    find_exact_strings-report sample (rdata ∷ []) (omega arith, tt) (some 1) (codes "ab")
      (omega arith)

find_pointer_slots_example :
    find_pointer_slots sample (some (rdata ∷ [])) 4096 (some 4)
    ≡ ok (report (some 4) (pointers_of sample (rdata ∷ []) 4096))
unfolding skips_for_pointers bytes_eq load_pointer
find_pointer_slots_example =
    find_pointer_slots-report sample (rdata ∷ []) (omega arith, tt) (some 4) 4096 (omega arith)

find_prefix_example :
    find_prefix sample (some rdata) (some (codes "a")) (some 4)
    ≡ ok (report (some 4) (prefixes_of sample rdata (codes "a")))
unfolding memory_eq
find_prefix_example =
    find_prefix-report sample rdata (codes "a") (some 4) (omega arith) (omega arith)

match_pattern_example :
    (match_pattern sample (some 4096) (some ab_then_any) ≡ true)
    ↔ ((0 < length ab_then_any) × Matches sample 4096 ab_then_any)
match_pattern_example = match_pattern_iff sample 4096 ab_then_any

find_pattern_example :
    find_pattern sample (some 4096) 16 (some ab_then_any) (some 4)
    ≡ ok (report (some 4) (patterns_of sample 4096 16 ab_then_any))
unfolding match_pattern match_from
find_pattern_example =
    find_pattern-report sample 4096 16 ab_then_any (some 4) (omega arith) (omega arith)

contains_bytes_example :
    (b : Bool) × (contains_bytes sample (some 4096) 16 (some (codes "xab")) ≡ ok b)
    × ((b ≡ true) ↔ ((0 < length (codes "xab")) × Occurs sample 4096 16 (codes "xab")))
contains_bytes_example = contains_bytes_iff sample 4096 16 (codes "xab") (omega arith)

parse_ida_pattern-IsPattern_example :
    (r : ParseResult) × (parse_ida_pattern (some (codes " 48 8b ? ?? C3")) true ≡ ok r)
    × ((pattern : List PatternByte) → r ≡ parsed pattern → IsPattern pattern)
parse_ida_pattern-IsPattern_example =
    parse_ida_pattern-IsPattern (some (codes " 48 8b ? ?? C3")) true

parse_ida_pattern-pattern_text_example :
    parse_ida_pattern (some (pattern_text ab_then_any)) true ≡ ok (parsed ab_then_any)
parse_ida_pattern-pattern_text_example = parse_ida_pattern-pattern_text ab_then_any (
  omega arith,
  omega arith,
  ((omega arith, λ h. cc), ((omega arith, λ h. cc), ((omega arith, λ h. refl), tt))),
)
