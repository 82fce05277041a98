-- ===== src/InternalUtils/Pattern.antt =====
-- scan.c: patterns of bytes with wildcards, the search for them, and their text form.
pub mod Match
pub mod Print
pub mod Parse
use darktide_mods.Base.{
  ℕ, zero, suc, ◌+◌, ◌-◌, ◌*◌, ◌%◌, ◌^◌, Bool, true, false, not, ◌&&◌, ◌||◌, List, [], ◌∷◌, ◌++◌,
  Option, none, some, if◌then◌else◌, ltb, leb, ◌==◌, length, drop, Run, ok, fault, out_of_fuel,
}
use darktide_mods.InternalUtils.Memory.{Memory, memory_eq}
use darktide_mods.InternalUtils.Scan.{Output, Hits, no_hits, scan}

pub record PatternByte : Type 0 where
  pub value : ℕ
  pub wildcard : Bool

-- The loop of the comparison.
unfoldable pub match_from : Memory → ℕ → List PatternByte → Bool
match_from memory address [] = true
match_from memory address (p ∷ pattern) =
    if not p.wildcard && not (memory address == p.value)
    then false
    else match_from memory (address + 1) pattern

-- `pattern_size` is the length of the pattern.
unfoldable pub match_pattern : Memory → Option ℕ → Option (List PatternByte) → Bool
match_pattern memory none pattern = false
match_pattern memory (some address) none = false
match_pattern memory (some address) (some pattern) =
    if length pattern == 0 then false else match_from memory address pattern

unfoldable pub find_pattern : Memory → Option ℕ → ℕ → Option (List PatternByte) → Output → Run Hits
find_pattern memory none size pattern out = ok no_hits
find_pattern memory (some start) size none out = ok no_hits
find_pattern memory (some start) size (some pattern) out =
    let found =
      scan out (λ address. match_pattern memory (some address) (some pattern)) 1 start
        (size - length pattern) size 0 no_hits in
    if length pattern == 0 || ltb size (length pattern) then ok no_hits else found

-- `for (offset = …; offset <= last; ++offset)` with the return from inside.
unfoldable pub contains_from : Memory → List ℕ → ℕ → ℕ → ℕ → ℕ → Run Bool
contains_from memory needle start last zero offset =
    if leb offset last then fault out_of_fuel else ok false
contains_from memory needle start last (suc fuel) offset =
    let rest = contains_from memory needle start last fuel ((offset + 1) % 2 ^ 64) in
    if leb offset last
    then (if memory_eq memory (start + offset) needle then ok true else rest)
    else ok false

unfoldable pub contains_bytes : Memory → Option ℕ → ℕ → Option (List ℕ) → Run Bool
contains_bytes memory none size needle = ok false
contains_bytes memory (some bytes) size none = ok false
contains_bytes memory (some bytes) size (some needle) =
    let found = contains_from memory needle bytes (size - length needle) size 0 in
    if length needle == 0 || ltb size (length needle) then ok false else found

-- `none` for -1.
unfoldable pub hex_value : ℕ → Option ℕ
hex_value c =
    if leb b'0' c && leb c b'9'
    then some (c - b'0')
    else if leb b'a' c && leb c b'f'
    then some (c - b'a' + 10)
    else if leb b'A' c && leb c b'F'
    then some (c - b'A' + 10)
    else none

-- `isspace` in the C locale.
unfoldable pub is_space : ℕ → Bool
is_space c = c == 32 || leb 9 c && leb c 13

unfoldable pub skip_spaces : List ℕ → List ℕ
skip_spaces [] = []
skip_spaces (c ∷ cursor) = if is_space c then skip_spaces cursor else c ∷ cursor

-- The error messages, in the order of the code.
pub data PatternError : Type 0 where
  null_argument : PatternError
  too_many_bytes : PatternError
  invalid_byte : List ℕ → PatternError
  not_separated : PatternError
  empty_pattern : PatternError

pub data ParseResult : Type 0 where
  rejected : PatternError → ParseResult
  parsed : List PatternByte → ParseResult

abbrev pub max_ida_pattern_bytes : ℕ
max_ida_pattern_bytes = 512

abbrev pub any_byte : PatternByte
any_byte = record { value = 0; wildcard = true }

-- A second `?` belongs to the first.
unfoldable pub skip_mark : List ℕ → List ℕ
skip_mark [] = []
skip_mark (c ∷ cursor) = if c == b'?' then cursor else c ∷ cursor

-- Two digits; after the first one may stand the terminator.
unfoldable pub read_byte : ℕ → List ℕ → Option (PatternByte × List ℕ)
read_byte c [] = none
read_byte c (d ∷ cursor) = elim (hex_value c) [
  | none ↦ none
  | some high ↦ elim (hex_value d) [
    | none ↦ none
    | some low ↦ some (record { value = (high * 16 + low) % 256; wildcard = false }, cursor)
  ]
]

unfoldable pub read_token : ℕ → List ℕ → Option (PatternByte × List ℕ)
read_token c cursor = if c == b'?' then some (any_byte, skip_mark cursor) else read_byte c cursor

unfoldable pub is_separated : List ℕ → Bool
is_separated [] = true
is_separated (c ∷ cursor) = is_space c

unfoldable pub end_pattern : List PatternByte → ParseResult
end_pattern pattern = if length pattern == 0 then rejected empty_pattern else parsed pattern

-- `while (*cursor != '\0')`: at the end of the text the loop ends by its test or, after spaces, by
-- the break. A round takes a character at least, so the length of the text and one more are enough.
unfoldable pub parse_from : ℕ → List ℕ → List PatternByte → Run ParseResult
parse_from zero cursor pattern = fault out_of_fuel
parse_from (suc fuel) cursor pattern = elim (skip_spaces cursor) [
  | [] ↦ ok (end_pattern pattern)
  | ◌∷◌ c rest ↦
      if length pattern == max_ida_pattern_bytes
      then ok (rejected too_many_bytes)
      else elim (read_token c rest) [
        | none ↦ ok (rejected (invalid_byte (c ∷ rest)))
        | some token ↦
            let more = parse_from fuel token.1 (pattern ++ token.0 ∷ []) in
            if is_separated token.1 then more else ok (rejected not_separated)
      ]
]

-- `outputs` says whether neither output pointer is NULL.
unfoldable pub parse_ida_pattern : Option (List ℕ) → Bool → Run ParseResult
parse_ida_pattern none outputs = ok (rejected null_argument)
parse_ida_pattern (some text) outputs =
    let result = parse_from (length text + 1) text [] in
    if outputs then result else ok (rejected null_argument)
