-- ===== src/InternalUtils/Pattern/Print.antt =====
-- The text of a pattern, and reading it back.
use darktide_mods.Base.{
  ℕ, zero, suc, ◌+◌, ◌-◌, ◌*◌, ◌/◌, ◌%◌, ◌≤◌, ◌<◌, ◌≡◌, ◌≢◌, refl, sym, ap, ◌∙◌, arith, inl, inr,
  Bool, true, false, Bool-cases, List, [], ◌∷◌, ◌++◌, append-nil, append_assoc, some, if◌then◌else◌,
  ltb, ◌==◌, length, length-append, ok, dec_lt,
}
use darktide_mods.InternalUtils.Pattern.{
  PatternByte, hex_value, is_space, skip_spaces, skip_mark, read_byte, read_token, is_separated,
  end_pattern, parse_from, parse_ida_pattern, parsed, max_ida_pattern_bytes,
}
use darktide_mods.InternalUtils.Pattern.Parse.{
  IsPatternByte, ArePatternBytes, IsPattern, parse_end, parse_round,
}

abbrev pub hex_digit : ℕ → ℕ
hex_digit d = if ltb d 10 then b'0' + d else b'A' + (d - 10)

-- `??`, or two digits.
abbrev pub byte_text : PatternByte → List ℕ
byte_text p =
    if p.wildcard
    then b'?' ∷ b'?' ∷ []
    else hex_digit (p.value / 16) ∷ hex_digit (p.value % 16) ∷ []

-- The bytes with a space between any two.
abbrev pub pattern_text : List PatternByte → List ℕ
pattern_text [] = []
pattern_text (p ∷ []) = byte_text p
pattern_text (p ∷ q ∷ pattern) = byte_text p ++ 32 ∷ pattern_text (q ∷ pattern)

hex_value-hex_digit : (d : ℕ) → d < 16 → hex_value (hex_digit d) ≡ some d
unfolding hex_value
hex_value-hex_digit d h = elim (dec_lt d 10) [
  | yes digit ↦ let e : hex_digit d ≡ b'0' + d = ground arith in rw e (ground arith)
  | no letter ↦
      let e : hex_digit d ≡ b'A' + (d - 10) = ground (arith, letter) in
      rw e (ground (arith, letter))
]

hex_digit-range : (d : ℕ) → d < 16 → (b'0' ≤ hex_digit d) × (hex_digit d ≢ b'?')
hex_digit-range d h = (ground arith, ground arith)

-- The text of a byte is read whole when the text ends or a space comes after it.
ReadsBack : PatternByte → List ℕ → Type 0
ReadsBack p left =
    (c : ℕ) × (rest : List ℕ) × (byte_text p ++ left ≡ c ∷ rest)
    × (is_space c ≡ false)
    × (is_separated left ≡ true → read_token c rest ≡ some (p, left))

read-byte_text :
    (value : ℕ) (wildcard : Bool) (left : List ℕ)
    → IsPatternByte (record { value = value; wildcard = wildcard })
    → ReadsBack (record { value = value; wildcard = wildcard }) left
unfolding ReadsBack is_space read_token skip_mark read_byte
read-byte_text value true left v = (
  b'?',
  b'?' ∷ left,
  refl,
  refl,
  λ apart. ap (λ n. some (record { value = n; wildcard = true }, left)) (sym (v.1 refl)),
)
read-byte_text value false left v =
    let high = hex_digit-range (value / 16) (omega (arith, v.0)) in
    let h = hex_value-hex_digit (value / 16) (omega (arith, v.0)) in
    let l = hex_value-hex_digit (value % 16) (omega arith) in
    let mark : (hex_digit (value / 16) == b'?') ≡ false = ground (arith, high.1) in
    let whole : (value / 16 * 16 + value % 16) % 256 ≡ value = omega (arith, v.0) in
    (
      hex_digit (value / 16),
      hex_digit (value % 16) ∷ left,
      refl,
      ground (arith, high.0),
      λ apart. rw (mark, h, l, whole, read_byte) refl,
    )

skip_spaces-space : (cursor : List ℕ) → skip_spaces (32 ∷ cursor) ≡ skip_spaces cursor
unfolding skip_spaces is_space
skip_spaces-space cursor = refl

skip_spaces-other :
    (c : ℕ) (cursor : List ℕ) → is_space c ≡ false → skip_spaces (c ∷ cursor) ≡ c ∷ cursor
unfolding skip_spaces
skip_spaces-other c cursor e = rw e refl

-- A text that the loop reaches: the rest of a pattern text, perhaps after a space.
abbrev spaced : Bool → List ℕ → List ℕ
spaced after cursor = if after then 32 ∷ cursor else cursor

skip_spaces-spaced :
    (after : Bool) (c : ℕ) (cursor : List ℕ)
    → is_space c ≡ false
    → skip_spaces (spaced after (c ∷ cursor)) ≡ c ∷ cursor
skip_spaces-spaced true c cursor e = skip_spaces-space (c ∷ cursor) ∙ skip_spaces-other c cursor e
skip_spaces-spaced false c cursor e = skip_spaces-other c cursor e

is_separated-space : (cursor : List ℕ) → is_separated (32 ∷ cursor) ≡ true
unfolding is_separated is_space
is_separated-space cursor = refl

is_separated-end : is_separated [] ≡ true
unfolding is_separated
is_separated-end = refl

-- A round of the parser on the text of a byte.
parse-byte_text :
    (fuel : ℕ) (after : Bool) (p : PatternByte) (left : List ℕ) (pattern : List PatternByte)
    → IsPatternByte p
    → length pattern < max_ida_pattern_bytes
    → is_separated left ≡ true
    → parse_from (suc fuel) (spaced after (byte_text p ++ left)) pattern
      ≡ parse_from fuel left (pattern ++ p ∷ [])
unfolding ReadsBack
parse-byte_text fuel after p left pattern v short apart =
    let (c, rest, text, mark, read) = read-byte_text p.value p.wildcard left v in
    parse_round fuel (spaced after (byte_text p ++ left)) pattern c rest
      (ap (λ t. skip_spaces (spaced after t)) text ∙ skip_spaces-spaced after c rest mark) p left
      (ground (arith, short)) (read apart) apart

end-parsed :
    (fuel : ℕ) (pattern : List PatternByte)
    → 0 < length pattern
    → parse_from (suc fuel) [] pattern ≡ ok (parsed pattern)
unfolding end_pattern skip_spaces
end-parsed fuel pattern h =
    let nonzero : (length pattern == 0) ≡ false = ground (arith, h) in
    parse_end fuel [] pattern refl ∙ rw nonzero refl

parse-pattern_text :
    (fuel : ℕ) (after : Bool) (p : PatternByte) (others before : List PatternByte)
    → ArePatternBytes (p ∷ others)
    → length before + length others < max_ida_pattern_bytes
    → length others + 1 < fuel
    → parse_from fuel (spaced after (pattern_text (p ∷ others))) before
      ≡ ok (parsed (before ++ p ∷ others))
parse-pattern_text zero after p others before v short enough = absurd (omega (arith, enough))
parse-pattern_text (suc zero) after p others before v short enough = absurd (omega (arith, enough))
parse-pattern_text (suc (suc fuel)) after p [] before v short enough =
    ap (λ t. parse_from (suc (suc fuel)) (spaced after t) before) (sym (append-nil (byte_text p)))
    ∙ parse-byte_text (suc fuel) after p [] before v.0 (omega (arith, short)) is_separated-end
    ∙ end-parsed fuel (before ++ p ∷ []) (omega (arith, length-append before (p ∷ [])))
parse-pattern_text (suc (suc fuel)) after p (q ∷ others) before v short enough =
    parse-byte_text (suc fuel) after p (32 ∷ pattern_text (q ∷ others)) before v.0
      (omega (arith, short)) (is_separated-space (pattern_text (q ∷ others)))
    ∙ parse-pattern_text (suc fuel) true q others (before ++ p ∷ []) v.1
        (omega (arith, short, length-append before (p ∷ []))) (omega (arith, enough))
    ∙ ap (λ t. ok (parsed t)) (append_assoc before (p ∷ []) (q ∷ others))

length-byte_text : (p : PatternByte) → length (byte_text p) ≡ 2
length-byte_text p = elim (Bool-cases p.wildcard) [ inl w ↦ rw w refl | inr w ↦ rw w refl ]

length-pattern_text : (pattern : List PatternByte) → length pattern ≤ length (pattern_text pattern)
length-pattern_text [] = omega arith
length-pattern_text (p ∷ []) = omega (arith, length-byte_text p)
length-pattern_text (p ∷ q ∷ pattern) = omega (
  arith,
  length-append (byte_text p) (32 ∷ pattern_text (q ∷ pattern)),
  length-byte_text p,
  length-pattern_text (q ∷ pattern),
)

-- A pattern of 1 to the maximal number of bytes, each below 256 and 0 where it is a wildcard, is
-- what `parse_ida_pattern` reads from its text, in hexadecimal with question marks for the
-- wildcards.
pub parse_ida_pattern-pattern_text :
    (pattern : List PatternByte)
    → IsPattern pattern
    → parse_ida_pattern (some (pattern_text pattern)) true ≡ ok (parsed pattern)
unfolding parse_ida_pattern
parse_ida_pattern-pattern_text [] v = absurd (omega (arith, v.0))
parse_ida_pattern-pattern_text (p ∷ others) v =
    parse-pattern_text (length (pattern_text (p ∷ others)) + 1) false p others [] v.2
      (omega (arith, v.1)) (omega (arith, length-pattern_text (p ∷ others)))
