-- ===== src/Realms/Packet/Append.antt =====
-- Bits that are appended are read back, and those before them are kept.
use darktide_mods.Base.{
  ℕ, zero, suc, ◌+◌, ◌*◌, ◌/◌, ◌%◌, ◌^◌, ◌≤◌, ◌<◌, ◌≡◌, ◌≢◌, ◌⊎◌, refl, sym, ap, subst, ◌∙◌, inl,
  inr, arith, true, false, Bool-cases, none, some, List, if◌then◌else◌, ◌==◌, bit_and, bit_or, max,
  length, length-set, get_or, set, ℕ_discrete, dec_lt,
}
use darktide_mods.Base.Arrays.{get_or-set_self, get_or-set_other}
use darktide_mods.Base.Bits.{pow_pos, mod-double}
use darktide_mods.Base.BitAt.{bit, bit-half, bit-bit_or, bit_pow_self, bit_pow_other, bit_and_pow}
use native.Mathlib.Nat.{pow-suc}
use darktide_mods.Realms.Packet.{or_bits, append_bits}

-- The bit of a position in an array of bytes, and a number read from it, lowest bit first.
abbrev pub bit_at : List ℕ → ℕ → ℕ
bit_at buffer j = bit (get_or buffer (j / 8) 0) (j % 8)

abbrev pub bits_at : List ℕ → ℕ → ℕ → ℕ
bits_at buffer offset zero = 0
bits_at buffer offset (suc n) = bit_at buffer offset + 2 * bits_at buffer (offset + 1) n

-- One bit is set.
abbrev set_bit : List ℕ → ℕ → List ℕ
set_bit buffer d = set buffer (d / 8) (bit_or (get_or buffer (d / 8) 0) (2 ^ (d % 8)))

set_bit_self : (buffer : List ℕ) (d : ℕ) → d < length buffer * 8 → bit_at (set_bit buffer d) d ≡ 1
set_bit_self buffer d h =
    ap (λ t. bit t (d % 8)) (get_or-set_self buffer (d / 8) _ (omega arith))
    ∙ bit-bit_or (get_or buffer (d / 8) 0) (2 ^ (d % 8)) (d % 8)
    ∙ omega (arith, bit_pow_self (d % 8))

set_bit_other :
    (buffer : List ℕ) (d j : ℕ)
    → d < length buffer * 8
    → j ≢ d
    → bit_at (set_bit buffer d) j ≡ bit_at buffer j
set_bit_other buffer d j h other = elim (ℕ_discrete (d / 8) (j / 8)) [
  | no apart ↦ ap (λ t. bit t (j % 8)) (get_or-set_other buffer (d / 8) (j / 8) _ apart)
  | yes same ↦
      ap (λ t. bit (get_or (set_bit buffer d) t 0) (j % 8)) (sym same)
      ∙ ap (λ t. bit t (j % 8)) (get_or-set_self buffer (d / 8) _ (omega arith))
      ∙ bit-bit_or (get_or buffer (d / 8) 0) (2 ^ (d % 8)) (j % 8)
      ∙ omega (arith, bit_pow_other (d % 8) (j % 8) (λ e. other (omega (arith, e, same))))
      ∙ ap (λ t. bit (get_or buffer t 0) (j % 8)) same
]

-- A round of the loop.
abbrev round : List ℕ → ℕ → ℕ → ℕ → List ℕ
round buffer offset value index =
    if bit_and value (2 ^ index) == 0 then buffer else set_bit buffer (offset + index)

length-round :
    (buffer : List ℕ) (offset value index : ℕ)
    → length (round buffer offset value index) ≡ length buffer
length-round buffer offset value index = elim (Bool-cases (bit_and value (2 ^ index) == 0)) [
  | inl e ↦ rw e refl
  | inr e ↦ rw e (length-set buffer _ _)
]

zero_factor : (b p : ℕ) → b * p ≡ 0 → 0 < p → b ≡ 0
zero_factor zero p e h = refl
zero_factor (suc b) zero e h = absurd (omega (arith, h))
zero_factor (suc b) (suc p) e h = absurd (omega (arith, e))

-- The test of the loop is the bit.
test_clear : (value index : ℕ) → (bit_and value (2 ^ index) == 0) ≡ true → bit value index ≡ 0
test_clear value index e =
    zero_factor (bit value index) (2 ^ index) (ground (arith, bit_and_pow value index, e))
      (pow_pos index)

test_set : (value index : ℕ) → (bit_and value (2 ^ index) == 0) ≡ false → bit value index ≡ 1
test_set value index e = elim (ℕ_discrete (bit value index) 0) [
  | yes z ↦
      let none_of : bit value index * 2 ^ index ≡ 0 = ap (λ t. t * 2 ^ index) z ∙ omega arith in
      absurd (ground (arith, none_of, bit_and_pow value index, e))
  | no nonzero ↦ omega (arith, nonzero)
]

round_self :
    (buffer : List ℕ) (offset value index : ℕ)
    → offset + index < length buffer * 8
    → bit_at (round buffer offset value index) (offset + index)
      ≡ max (bit_at buffer (offset + index)) (bit value index)
round_self buffer offset value index h = elim (Bool-cases (bit_and value (2 ^ index) == 0)) [
  | inl e ↦ rw e (omega (arith, test_clear value index e))
  | inr e ↦ rw e (set_bit_self buffer (offset + index) h ∙ omega (arith, test_set value index e))
]

round_other :
    (buffer : List ℕ) (offset value index j : ℕ)
    → offset + index < length buffer * 8
    → j ≢ offset + index
    → bit_at (round buffer offset value index) j ≡ bit_at buffer j
round_other buffer offset value index j h other =
    elim (Bool-cases (bit_and value (2 ^ index) == 0)) [
      | inl e ↦ rw e refl
      | inr e ↦ rw e (set_bit_other buffer (offset + index) j h other)
    ]

-- The loop, on the bits that are written and on the others.
length-or_bits :
    (rounds : ℕ) (buffer : List ℕ) (offset value index : ℕ)
    → length (or_bits buffer offset value index rounds) ≡ length buffer
unfolding or_bits
length-or_bits zero buffer offset value index = refl
length-or_bits (suc rounds) buffer offset value index =
    length-or_bits rounds (round buffer offset value index) offset value (index + 1)
    ∙ length-round buffer offset value index

or_bits_other :
    (rounds : ℕ) (buffer : List ℕ) (offset value index j : ℕ)
    → offset + index + rounds ≤ length buffer * 8
    → (j < offset + index) ⊎ (offset + index + rounds ≤ j)
    → bit_at (or_bits buffer offset value index rounds) j ≡ bit_at buffer j
unfolding or_bits
or_bits_other zero buffer offset value index j h out = refl
or_bits_other (suc rounds) buffer offset value index j h out =
    or_bits_other rounds (round buffer offset value index) offset value (index + 1) j
      (omega (arith, h, length-round buffer offset value index)) (ground (arith, out))
    ∙ round_other buffer offset value index j (omega (arith, h)) (omega (arith, out))

or_bits_self :
    (rounds : ℕ) (buffer : List ℕ) (offset value index k : ℕ)
    → offset + index + rounds ≤ length buffer * 8
    → index ≤ k
    → k < index + rounds
    → bit_at (or_bits buffer offset value index rounds) (offset + k)
      ≡ max (bit_at buffer (offset + k)) (bit value k)
unfolding or_bits
or_bits_self zero buffer offset value index k h low high = absurd (omega (arith, low, high))
or_bits_self (suc rounds) buffer offset value index k h low high = elim (ℕ_discrete k index) [
  | yes same ↦
      or_bits_other rounds (round buffer offset value index) offset value (index + 1) (offset + k)
        (omega (arith, h, length-round buffer offset value index)) (inl (omega (arith, same)))
      ∙ subst
          (λ n.
            bit_at (round buffer offset value index) (offset + n)
            ≡ max (bit_at buffer (offset + n)) (bit value n))
          (sym same) (round_self buffer offset value index (omega (arith, h)))
  | no other ↦
      or_bits_self rounds (round buffer offset value index) offset value (index + 1) k
        (omega (arith, h, length-round buffer offset value index)) (omega (arith, low, other))
        (omega (arith, high))
      ∙ ap (λ t. max t (bit value k))
          (round_other buffer offset value index (offset + k) (omega (arith, h, high))
            (omega (arith, other)))
]

-- A number read from bits that are its own.
pub bits_at-eq :
    (n : ℕ) (buffer : List ℕ) (offset value : ℕ)
    → ((k : ℕ) → k < n → bit_at buffer (offset + k) ≡ bit value k)
    → bits_at buffer offset n ≡ value % 2 ^ n
bits_at-eq zero buffer offset value same = omega arith
bits_at-eq (suc n) buffer offset value same =
    let first : bit_at buffer offset ≡ value % 2 =
      ap (λ t. bit_at buffer t) {x = offset} {y = offset + 0} (omega arith)
      ∙ same 0 (omega arith)
      ∙ omega arith in
    let rest : bits_at buffer (offset + 1) n ≡ value / 2 % 2 ^ n =
      bits_at-eq n buffer (offset + 1) (value / 2) (λ k h.
        ap (λ t. bit_at buffer t) {x = offset + 1 + k} {y = offset + suc k} (omega arith)
        ∙ same (suc k) (omega (arith, h))
        ∙ bit-half value k) in
    omega
      (arith, first, rest, mod-double value (2 ^ n) (pow_pos n), ap (λ t. value % t) (pow-suc 2 n))

pub bits_at-same :
    (n : ℕ) (buffer other : List ℕ) (offset : ℕ)
    → ((j : ℕ) → offset ≤ j → j < offset + n → bit_at other j ≡ bit_at buffer j)
    → bits_at other offset n ≡ bits_at buffer offset n
bits_at-same zero buffer other offset same = refl
bits_at-same (suc n) buffer other offset same = omega (
  arith,
  same offset (omega arith) (omega arith),
  bits_at-same n buffer other (offset + 1)
      (λ j low high. same j (omega (arith, low)) (omega (arith, high))),
)

-- The bits from an offset on are clear.
abbrev pub IsClear : List ℕ → ℕ → Type 0
IsClear buffer offset = (j : ℕ) → offset ≤ j → bit_at buffer j ≡ 0

-- What a buffer has after bits that are appended.
pub record IsAppended (buffer : List ℕ) (offset value count : ℕ) (after : List ℕ) : Type 0 where
  pub same_length : length after ≡ length buffer
  pub read_back : bits_at after offset count ≡ value % 2 ^ count
  pub kept : (at n : ℕ) → at + n ≤ offset → bits_at after at n ≡ bits_at buffer at n
  pub clear_after : IsClear after (offset + count)

or_bits-Appended :
    (buffer : List ℕ) (offset value count : ℕ)
    → IsClear buffer offset
    → offset + count ≤ length buffer * 8
    → IsAppended buffer offset value count (or_bits buffer offset value 0 count)
or_bits-Appended buffer offset value count clear room = record {
  same_length = length-or_bits count buffer offset value 0;
  read_back = bits_at-eq count _ offset value (λ k h.
      or_bits_self count buffer offset value 0 k (omega (arith, room)) (omega arith)
        (omega (arith, h))
      ∙ omega (arith, clear (offset + k) (omega arith)));
  kept = λ at n h. bits_at-same n buffer _ at (λ j low high.
      or_bits_other count buffer offset value 0 j (omega (arith, room))
        (inl (omega (arith, high, h))));
  clear_after = λ j h.
      or_bits_other count buffer offset value 0 j (omega (arith, room)) (inr (omega (arith, h)))
      ∙ clear j (omega (arith, h));
}

pub append_bits-Appended :
    (buffer : List ℕ) (offset value count : ℕ)
    → IsClear buffer offset
    → ((count ≤ 64)
        × (offset + count ≤ length buffer * 8)
        × (after : List ℕ) × (append_bits buffer offset value count ≡ some (after, offset + count))
        × IsAppended buffer offset value count after)
      ⊎ (((64 < count) ⊎ (length buffer * 8 < offset + count))
          × (append_bits buffer offset value count ≡ none))
unfolding append_bits
append_bits-Appended buffer offset value count clear = elim (dec_lt 64 count) [
  | yes wide ↦ inr (inl wide, ground (arith, wide))
  | no narrow ↦ elim (dec_lt (length buffer * 8) (offset + count)) [
    | yes full ↦ inr (inr full, ground (arith, full))
    | no room ↦ inl (
      omega (arith, narrow),
      omega (arith, room),
      or_bits buffer offset value 0 count,
      ground (arith, narrow, room),
      or_bits-Appended buffer offset value count clear (omega (arith, room)),
    )
  ]
]
