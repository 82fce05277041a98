-- ===== src/InternalUtils/Pattern/Match.antt =====
-- What matches a pattern, and where a search finds it.
use darktide_mods.Base.{
  ℕ, zero, suc, ◌+◌, ◌-◌, ◌%◌, ◌^◌, ◌≤◌, ◌<◌, ◌≡◌, ◌↔◌, ◌⊎◌, refl, sym, ap, ◌∙◌, arith, inl, inr,
  Bool, true, false, ◌||◌, Bool-cases, List, [], ◌∷◌, some, if◌then◌else◌, ltb, ◌==◌, length,
  get_elem?, ok, dec_lt, ℕ_discrete,
}
use darktide_mods.InternalUtils.Memory.{Memory, memory_eq}
use darktide_mods.InternalUtils.Scan.{Output, no_hits}
use darktide_mods.InternalUtils.Scan.Exact.{scan_section, byte-Rounds, gathered, no_hits-report}
use darktide_mods.InternalUtils.Scan.Select.{selected, report}
use darktide_mods.InternalUtils.Pattern.{
  PatternByte, match_from, match_pattern, find_pattern, contains_from, contains_bytes,
}

-- Every byte of the pattern is a wildcard or stands at its place.
abbrev pub Matches : Memory → ℕ → List PatternByte → Type 0
Matches memory address pattern =
    (i : ℕ) (p : PatternByte)
    → get_elem? pattern i ≡ some p
    → (p.wildcard ≡ true) ⊎ (memory (address + i) ≡ p.value)

match_head :
    (memory : Memory) (address : ℕ) (b : PatternByte) (pattern : List PatternByte)
    → (match_from memory address (b ∷ pattern) ≡ true) ↔ (
        ((b.wildcard ≡ true) ⊎ (memory address ≡ b.value))
        × (match_from memory (address + 1) pattern ≡ true))
unfolding match_from
match_head memory address b pattern = (λ h. (wild h, ground (arith, h)), λ h. ground (arith, h))
  where
    wild :
        match_from memory address (b ∷ pattern) ≡ true
        → (b.wildcard ≡ true) ⊎ (memory address ≡ b.value)
    wild h = elim (Bool-cases b.wildcard) [
      | inl any_value ↦ inl any_value
      | inr fixed ↦ inr (ground (arith, h, fixed))
    ]

match_from-Matches :
    (memory : Memory) (address : ℕ) (pattern : List PatternByte)
    → match_from memory address pattern ≡ true
    → Matches memory address pattern
unfolding match_from
match_from-Matches memory address [] h i p at = absurd (cc at)
match_from-Matches memory address (b ∷ pattern) h zero p at =
    let same : b ≡ p = cc at in
    let first = ((match_head memory address b pattern).0 h).0 in
    let e : address + 0 ≡ address = omega arith in
    elim first [
      | inl w ↦ inl (ap (λ (x : PatternByte). x.wildcard) (sym same) ∙ w)
      | inr m ↦ inr (ap memory e ∙ m ∙ ap (λ (x : PatternByte). x.value) same)
    ]
match_from-Matches memory address (b ∷ pattern) h (suc i) p at =
    let e : address + 1 + i ≡ address + suc i = omega arith in
    elim (match_from-Matches memory (address + 1) pattern
      ((match_head memory address b pattern).0 h).1 i p at) [
        | inl w ↦ inl w
        | inr m ↦ inr (ap memory (sym e) ∙ m)
      ]

Matches-match_from :
    (memory : Memory) (address : ℕ) (pattern : List PatternByte)
    → Matches memory address pattern
    → match_from memory address pattern ≡ true
unfolding match_from
Matches-match_from memory address [] h = refl
Matches-match_from memory address (b ∷ pattern) h =
    let e : address + 0 ≡ address = omega arith in
    (match_head memory address b pattern).1 (
      elim (h 0 b refl) [ inl w ↦ inl w | inr m ↦ inr (ap memory (sym e) ∙ m) ],
      Matches-match_from memory (address + 1) pattern (λ i p at.
          let e' : address + 1 + i ≡ address + suc i = omega arith in
          elim (h (suc i) p at) [ inl w ↦ inl w | inr m ↦ inr (ap memory e' ∙ m) ]),
    )

pub match_pattern_iff :
    (memory : Memory) (address : ℕ) (pattern : List PatternByte)
    → (match_pattern memory (some address) (some pattern) ≡ true)
      ↔ ((0 < length pattern) × Matches memory address pattern)
unfolding match_pattern
match_pattern_iff memory address [] = (λ h. cc, λ h. absurd (omega (arith, h.0)))
match_pattern_iff memory address (b ∷ pattern) = (
  λ h. (omega arith, match_from-Matches memory address (b ∷ pattern) (ground (arith, h))),
  λ h. ground (arith, Matches-match_from memory address (b ∷ pattern) h.1),
)

-- The addresses in a range at which a pattern stands whole.
abbrev pub patterns_of : Memory → ℕ → ℕ → List PatternByte → List ℕ
patterns_of memory start size pattern =
    if length pattern == 0 || ltb size (length pattern)
    then []
    else selected (λ address. match_pattern memory (some address) (some pattern)) 1
        (size - length pattern + 1) start

pub find_pattern-report :
    (memory : Memory) (start size : ℕ) (pattern : List PatternByte) (out : Output)
    → size < 2 ^ 63
    → length (patterns_of memory start size pattern) < 2 ^ 64
    → find_pattern memory (some start) size (some pattern) out
      ≡ ok (report out (patterns_of memory start size pattern))
unfolding find_pattern
find_pattern-report memory start size pattern out narrow few =
    elim (Bool-cases (length pattern == 0 || ltb size (length pattern))) [
      | inl nothing ↦ rw nothing (ap ok (sym (no_hits-report out)))
      | inr searched ↦ rw searched (
          scan_section out (λ address. match_pattern memory (some address) (some pattern)) 1 start
            (size - length pattern) size (size - length pattern + 1) no_hits (omega (arith, narrow))
            (ground (arith, searched)) (byte-Rounds _)
          ∙ ap ok (gathered out _ (rw searched at few)))
    ]

-- `needle` stands whole in the range.
abbrev pub Occurs : Memory → ℕ → ℕ → List ℕ → Type 0
Occurs memory start size needle =
    (offset : ℕ) × (offset + length needle ≤ size)
    × (memory_eq memory (start + offset) needle ≡ true)

-- The search from an offset on: it says whether there is an occurrence at one of them.
abbrev OccursFrom : Memory → List ℕ → ℕ → ℕ → ℕ → Type 0
OccursFrom memory needle start last offset =
    (k : ℕ) × (offset ≤ k) × (k ≤ last) × (memory_eq memory (start + k) needle ≡ true)

contains_from-Occurs :
    (memory : Memory) (needle : List ℕ) (start last fuel offset : ℕ)
    → last < 2 ^ 63
    → last < fuel + offset
    → offset ≤ last + 1
    → (b : Bool) × (contains_from memory needle start last fuel offset ≡ ok b)
      × ((b ≡ true) ↔ OccursFrom memory needle start last offset)
unfolding contains_from
contains_from-Occurs memory needle start last zero offset small enough near =
    (false, ground (arith, enough), (λ h. cc, λ o. absurd (omega (arith, o.1, o.2, enough))))
contains_from-Occurs memory needle start last (suc fuel) offset small enough near =
    elim (dec_lt last offset) [
      | yes past ↦ (false, ground (arith, past), (λ h. cc, λ o. absurd (omega (arith, o.1, o.2))))
      | no inside ↦ elim (Bool-cases (memory_eq memory (start + offset) needle)) [
        | inl here ↦ (
          true,
          ground (arith, inside, here),
          (λ h. (offset, omega arith, omega arith, here), λ o. refl),
        )
        | inr elsewhere ↦
            let next : (offset + 1) % 2 ^ 64 ≡ offset + 1 = omega arith in
            let (b, run, both) =
              contains_from-Occurs memory needle start last fuel (offset + 1) small
                (omega (arith, enough)) (omega arith) in
            (
              b,
              ground (arith, inside, elsewhere, next, run),
              (
                λ h. let (k, low, high, m) = both.0 h in (k, omega arith, high, m),
                λ o. both.1 (later elsewhere o),
              ),
            )
      ]
    ]
  where
    later :
        memory_eq memory (start + offset) needle ≡ false
        → OccursFrom memory needle start last offset
        → OccursFrom memory needle start last (offset + 1)
    later elsewhere (k, low, high, m) = elim (ℕ_discrete k offset) [
      | yes same ↦ absurd (cc (same, elsewhere, m))
      | no other ↦ (k, omega (arith, low, other), high, m)
    ]

-- The search of a range ends, with the answer whether the bytes stand in it.
pub contains_bytes_iff :
    (memory : Memory) (start size : ℕ) (needle : List ℕ)
    → size < 2 ^ 63
    → (b : Bool) × (contains_bytes memory (some start) size (some needle) ≡ ok b)
      × ((b ≡ true) ↔ ((0 < length needle) × Occurs memory start size needle))
unfolding contains_bytes
contains_bytes_iff memory start size needle small =
    elim (Bool-cases (length needle == 0 || ltb size (length needle))) [
      | inl nothing ↦
          (false, rw nothing refl, (λ h. cc, λ o. absurd (ground (arith, nothing, o.0, o.1.1))))
      | inr searched ↦
          let fits : (0 < length needle) × (length needle ≤ size) =
            (ground (arith, searched), ground (arith, searched)) in
          let (b, run, both) =
            contains_from-Occurs memory needle start (size - length needle) size 0
              (omega (arith, small)) (omega (arith, fits)) (omega arith) in
          (
            b,
            rw searched run,
            (
              λ h. let (k, low, high, m) = both.0 h in (fits.0, (k, omega (arith, fits, high), m)),
              λ o. both.1 (o.1.0, omega arith, omega (arith, o.1.1), o.1.2),
            ),
          )
    ]
