-- ===== src/InternalUtils/Pattern/Parse.antt =====
-- The parser of pattern texts: it returns for every text, and what it accepts is a pattern.
use darktide_mods.Base.{
  ℕ, zero, suc, ◌+◌, ◌*◌, ◌%◌, ◌≤◌, ◌<◌, ◌≡◌, refl, sym, ap, subst, arith, inl, inr, Bool, true,
  false, Bool-cases, List, [], ◌∷◌, ◌++◌, Option, Option-cases, none, some, ◌==◌, length,
  length-append, Run, ok, ℕ_discrete,
}
use darktide_mods.InternalUtils.Pattern.{
  PatternByte, any_byte, hex_value, skip_spaces, skip_mark, read_byte, read_token, is_separated,
  end_pattern, parse_from, parse_ida_pattern, ParseResult, rejected, parsed, PatternError,
  max_ida_pattern_bytes, too_many_bytes, invalid_byte, not_separated, null_argument, empty_pattern,
}

-- A byte, and 0 under a wildcard.
abbrev pub IsPatternByte : PatternByte → Type 0
IsPatternByte p = (p.value < 256) × (p.wildcard ≡ true → p.value ≡ 0)

abbrev pub ArePatternBytes : List PatternByte → Type 0
ArePatternBytes [] = Unit {0}
ArePatternBytes (p ∷ pattern) = IsPatternByte p × ArePatternBytes pattern

-- What a successful parse gives.
abbrev pub IsPattern : List PatternByte → Type 0
IsPattern pattern =
    (0 < length pattern) × (length pattern ≤ max_ida_pattern_bytes) × ArePatternBytes pattern

ArePatternBytes-snoc :
    (pattern : List PatternByte) (p : PatternByte)
    → ArePatternBytes pattern
    → IsPatternByte p
    → ArePatternBytes (pattern ++ p ∷ [])
ArePatternBytes-snoc [] p v h = (h, tt)
ArePatternBytes-snoc (b ∷ pattern) p v h = (v.0, ArePatternBytes-snoc pattern p v.1 h)

skip_spaces-le : (cursor : List ℕ) → length (skip_spaces cursor) ≤ length cursor
unfolding skip_spaces
skip_spaces-le [] = omega arith
skip_spaces-le (c ∷ cursor) = ground (arith, skip_spaces-le cursor)

skip_mark-le : (cursor : List ℕ) → length (skip_mark cursor) ≤ length cursor
unfolding skip_mark
skip_mark-le [] = omega arith
skip_mark-le (c ∷ cursor) = ground arith

read_byte_lem :
    (c : ℕ) (cursor : List ℕ) (p : PatternByte) (rest : List ℕ)
    → read_byte c cursor ≡ some (p, rest)
    → IsPatternByte p × (length rest ≤ length cursor)
unfolding read_byte
read_byte_lem c [] p rest e = absurd (cc e)
read_byte_lem c (d ∷ cursor) p rest e = elim (Option-cases (hex_value c)) [
  | inl no_high ↦ absurd (ground (arith, e, no_high))
  | inr (high, h) ↦ elim (Option-cases (hex_value d)) [
    | inl no_low ↦ absurd (ground (arith, e, h, no_low))
    | inr (low, l) ↦
        let b : PatternByte = record { value = (high * 16 + low) % 256; wildcard = false } in
        let read : ◌≡◌ {A = Option (PatternByte × List ℕ)} (some (b, cursor)) (some (p, rest)) =
          ground (arith, e, h, l) in
        let same : b ≡ p = cc read in
        let left : cursor ≡ rest = cc read in
        (subst IsPatternByte same (omega arith, λ w. absurd (cc w)), omega (arith, ap length left))
  ]
]

read_token_lem :
    (c : ℕ) (cursor : List ℕ) (p : PatternByte) (rest : List ℕ)
    → read_token c cursor ≡ some (p, rest)
    → IsPatternByte p × (length rest ≤ length cursor)
unfolding read_token
read_token_lem c cursor p rest e = elim (ℕ_discrete c b'?') [
  | yes mark ↦
      let read : ◌≡◌ {A = Option (PatternByte × List ℕ)} (some (any_byte, skip_mark cursor))
          (some (p, rest)) =
        ground (arith, e, mark) in
      let same : any_byte ≡ p = cc read in
      let left : skip_mark cursor ≡ rest = cc read in
      (
        subst IsPatternByte same (omega arith, λ w. refl),
        omega (arith, ap length left, skip_mark-le cursor),
      )
  | no digit ↦ read_byte_lem c cursor p rest (ground (arith, e, digit))
]

abbrev Returns : Run ParseResult → Type 0
Returns run =
    (r : ParseResult) × (run ≡ ok r)
    × ((pattern : List PatternByte) → r ≡ parsed pattern → IsPattern pattern)

refused : (e : PatternError) → Returns (ok (rejected e))
refused e = (rejected e, refl, λ pattern h. absurd (cc h))

ended :
    (pattern : List PatternByte)
    → ArePatternBytes pattern
    → length pattern ≤ max_ida_pattern_bytes
    → Returns (ok (end_pattern pattern))
unfolding end_pattern
ended pattern v short = elim (ℕ_discrete (length pattern) 0) [
  | yes nothing ↦ (rejected empty_pattern, ground (arith, nothing), λ p h. absurd (cc h))
  | no some_bytes ↦ (
    parsed pattern,
    ground (arith, some_bytes),
    λ p h.
        let same : pattern ≡ p = cc h in subst IsPattern same (omega (arith, some_bytes), short, v),
  )
]

pub parse_end :
    (fuel : ℕ) (cursor : List ℕ) (pattern : List PatternByte)
    → skip_spaces cursor ≡ []
    → parse_from (suc fuel) cursor pattern ≡ ok (end_pattern pattern)
unfolding parse_from
parse_end fuel cursor pattern e = rw (e, parse_from) refl

pub parse_round :
    (fuel : ℕ) (cursor : List ℕ) (pattern : List PatternByte) (c : ℕ) (rest : List ℕ)
    → skip_spaces cursor ≡ c ∷ rest
    → (p : PatternByte) (left : List ℕ) → (length pattern == max_ida_pattern_bytes) ≡ false
    → read_token c rest ≡ some (p, left)
    → is_separated left ≡ true
    → parse_from (suc fuel) cursor pattern ≡ parse_from fuel left (pattern ++ p ∷ [])
unfolding parse_from
parse_round fuel cursor pattern c rest e p left room read apart =
    rw (e, room, read, apart, parse_from) refl

parse_from-Returns :
    (fuel : ℕ) (cursor : List ℕ) (pattern : List PatternByte)
    → length cursor < fuel
    → ArePatternBytes pattern
    → length pattern ≤ max_ida_pattern_bytes
    → Returns (parse_from fuel cursor pattern)
unfolding parse_from
parse_from-Returns zero cursor pattern enough v short = absurd (omega (arith, enough))
parse_from-Returns (suc fuel) cursor pattern enough v short =
    go (λ left p. parse_from-Returns fuel left (pattern ++ p ∷ [])) (skip_spaces cursor) refl
  where
    go :
        ((left : List ℕ) (p : PatternByte)
          → length left < fuel
          → ArePatternBytes (pattern ++ p ∷ [])
          → length (pattern ++ p ∷ []) ≤ max_ida_pattern_bytes
          → Returns (parse_from fuel left (pattern ++ p ∷ [])))
        → (left : List ℕ) → skip_spaces cursor ≡ left
        → Returns (parse_from (suc fuel) cursor pattern)
    go rest_of [] e = subst Returns (sym (parse_end fuel cursor pattern e)) (ended pattern v short)
    go rest_of (c ∷ rest) e = elim (Bool-cases (length pattern == max_ida_pattern_bytes)) [
      | inl full ↦ subst Returns (sym (rw (e, full, parse_from) refl)) (refused too_many_bytes)
      | inr room ↦ elim (Option-cases (read_token c rest)) [
        | inl bad ↦
            subst Returns (sym (rw (e, room, bad, parse_from) refl))
              (refused (invalid_byte (c ∷ rest)))
        | inr ((p, left), read) ↦ elim (Bool-cases (is_separated left)) [
          | inr together ↦
              subst Returns (sym (rw (e, room, read, together, parse_from) refl))
                (refused not_separated)
          | inl apart ↦
              let (vp, shorter) = read_token_lem c rest p left read in
              subst Returns (sym (parse_round fuel cursor pattern c rest e p left room read apart))
                (rest_of left p (omega (arith, enough, shorter, skip_spaces-le cursor, ap length e))
                  (ArePatternBytes-snoc pattern p v vp)
                  (ground (arith, room, short, length-append pattern (p ∷ []))))
        ]
      ]
    ]

-- On every text, and on a null pointer, `parse_ida_pattern` ends with a result; a pattern that
-- it accepts has 1 to the maximal number of bytes, each below 256 and 0 where it is a wildcard.
pub parse_ida_pattern-IsPattern :
    (text : Option (List ℕ)) (outputs : Bool)
    → (r : ParseResult) × (parse_ida_pattern text outputs ≡ ok r)
      × ((pattern : List PatternByte) → r ≡ parsed pattern → IsPattern pattern)
unfolding parse_ida_pattern
parse_ida_pattern-IsPattern none outputs = refused null_argument
parse_ida_pattern-IsPattern (some text) false = refused null_argument
parse_ida_pattern-IsPattern (some text) true =
    parse_from-Returns (length text + 1) text [] (omega arith) tt (omega arith)
