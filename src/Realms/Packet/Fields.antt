-- ===== src/Realms/Packet/Fields.antt =====
-- Fields that are appended one after the other.
use darktide_mods.Base.{
  ℕ, suc, ◌+◌, ◌*◌, ◌%◌, ◌^◌, ◌≤◌, ◌<◌, ◌≡◌, refl, ap, subst, ◌∙◌, inl, inr, arith, some, List, [],
  ◌∷◌, length, get_or, ◌/◌,
}
use darktide_mods.Base.BitAt.{bit}
use darktide_mods.Realms.Packet.{append_bits, append_all}
use darktide_mods.Realms.Packet.Append.{bits_at, bits_at-eq, IsClear, append_bits-Appended}

-- The bits of all fields, and that none is wider than append_bits takes.
abbrev pub field_bits : List (ℕ × ℕ) → ℕ
field_bits [] = 0
field_bits ((value, count) ∷ fields) = count + field_bits fields

abbrev pub AreNarrow : List (ℕ × ℕ) → Type 0
AreNarrow [] = Unit {0}
AreNarrow ((value, count) ∷ fields) = (count ≤ 64) × AreNarrow fields

-- The fields are read back from an offset on.
abbrev pub AreRead : List ℕ → ℕ → List (ℕ × ℕ) → Type 0
AreRead buffer offset [] = Unit {0}
AreRead buffer offset ((value, count) ∷ fields) =
    (bits_at buffer offset count ≡ value % 2 ^ count) × AreRead buffer (offset + count) fields

pub record IsWritten (buffer : List ℕ) (offset : ℕ) (fields : List (ℕ × ℕ)) (after : List ℕ)
    : Type 0 where
  pub same_length : length after ≡ length buffer
  pub read_back : AreRead after offset fields
  pub kept : (at n : ℕ) → at + n ≤ offset → bits_at after at n ≡ bits_at buffer at n
  pub clear_after : IsClear after (offset + field_bits fields)

append_all-cons :
    (value count : ℕ) (fields : List (ℕ × ℕ)) (buffer : List ℕ) (offset : ℕ) (next : List ℕ)
    (after : ℕ)
    → append_bits buffer offset value count ≡ some (next, after)
    → append_all ((value, count) ∷ fields) buffer offset ≡ append_all fields next after
unfolding append_all
append_all-cons value count fields buffer offset next after e = rw (e, append_all) refl

pub append_all-Written :
    (fields : List (ℕ × ℕ)) (buffer : List ℕ) (offset : ℕ)
    → AreNarrow fields
    → IsClear buffer offset
    → offset + field_bits fields ≤ length buffer * 8
    → (after : List ℕ) × (append_all fields buffer offset
        ≡ some (after, offset + field_bits fields))
      × IsWritten buffer offset fields after
unfolding append_all
append_all-Written [] buffer offset narrow clear room = (
  buffer,
  ap (λ t. some (buffer, t)) (omega arith),
  record {
    same_length = refl;
    read_back = tt;
    kept = λ at n h. refl;
    clear_after = λ j h. clear j (omega (arith, h));
  },
)
append_all-Written ((value, count) ∷ fields) buffer offset narrow clear room =
    elim (append_bits-Appended buffer offset value count clear) [
      | inr (why, e) ↦ absurd (omega (arith, why, room, narrow.0))
      | inl (_, _, next, run, a) ↦
          let (after, rest, w) =
            append_all-Written fields next (offset + count) narrow.1 a.clear_after
              (omega (arith, room, a.same_length)) in
          (
            after,
            append_all-cons value count fields buffer offset next _ run
                ∙ (rest ∙ ap (λ t. some (after, t)) (omega arith)),
            record {
              same_length = w.same_length ∙ a.same_length;
              read_back = (w.kept offset count (omega arith) ∙ a.read_back, w.read_back);
              kept = λ at n h. w.kept at n (omega (arith, h)) ∙ a.kept at n h;
              clear_after = λ j h. w.clear_after j (omega (arith, h));
            },
          )
    ]

-- Fields in another buffer with the same bits, at the same place or at another.
pub AreRead-same :
    (fields : List (ℕ × ℕ)) (buffer other : List ℕ) (offset : ℕ)
    → ((at n : ℕ) → at + n ≤ offset + field_bits fields → bits_at other at n ≡ bits_at buffer at n)
    → AreRead buffer offset fields
    → AreRead other offset fields
AreRead-same [] buffer other offset same h = tt
AreRead-same ((value, count) ∷ fields) buffer other offset same h = (
  same offset count (omega arith) ∙ h.0,
  AreRead-same fields buffer other (offset + count) (λ at n low. same at n (omega (arith, low)))
      h.1,
)

pub AreRead-move :
    (fields : List (ℕ × ℕ)) (buffer other : List ℕ) (base offset : ℕ)
    → ((at n : ℕ)
        → at + n ≤ offset + field_bits fields
        → bits_at other (base + at) n ≡ bits_at buffer at n)
    → AreRead buffer offset fields
    → AreRead other (base + offset) fields
AreRead-move [] buffer other base offset same h = tt
AreRead-move ((value, count) ∷ fields) buffer other base offset same h =
    let e : base + (offset + count) ≡ base + offset + count = omega arith in
    (
      same offset count (omega arith) ∙ h.0,
      subst (λ o. AreRead other o fields) e
          (AreRead-move fields buffer other base (offset + count)
            (λ at n low. same at n (omega (arith, low))) h.1),
    )

-- Bytes as fields of eight bits.
abbrev pub byte_fields : List ℕ → List (ℕ × ℕ)
byte_fields [] = []
byte_fields (b ∷ bytes) = (b, 8) ∷ byte_fields bytes

pub field_bits-byte_fields : (bytes : List ℕ) → field_bits (byte_fields bytes) ≡ length bytes * 8
field_bits-byte_fields [] = omega arith
field_bits-byte_fields (b ∷ bytes) = omega (arith, field_bits-byte_fields bytes)

pub AreRead-bytes :
    (bytes buffer : List ℕ) (at : ℕ)
    → ((k : ℕ) → k < length bytes → get_or buffer (at + k) 0 ≡ get_or bytes k 0)
    → AreRead buffer (at * 8) (byte_fields bytes)
AreRead-bytes [] buffer at same = tt
AreRead-bytes (b ∷ bytes) buffer at same =
    let here : get_or buffer at 0 ≡ b =
      ap (λ t. get_or buffer t 0) {x = at} {y = at + 0} (omega arith) ∙ same 0 (omega arith) in
    let next : (at + 1) * 8 ≡ at * 8 + 8 = omega arith in
    (
      bits_at-eq 8 buffer (at * 8) b (λ k h.
          ap (λ t. bit (get_or buffer t 0) ((at * 8 + k) % 8)) {x = (at * 8 + k) / 8} {y = at}
            (omega (arith, h))
          ∙ ap (λ t. bit t ((at * 8 + k) % 8)) here
          ∙ ap (λ t. bit b t) {x = (at * 8 + k) % 8} {y = k} (omega (arith, h))),
      subst (λ o. AreRead buffer o (byte_fields bytes)) next
          (AreRead-bytes bytes buffer (at + 1) (λ k h.
            ap (λ t. get_or buffer t 0) {x = at + 1 + k} {y = at + suc k} (omega arith)
            ∙ same (suc k) (omega (arith, h)))),
    )
