-- ===== src/Mapping/Stream/Identity.antt =====
-- The loop of the identity encoder: the numbers that its input and its output stand for.
use darktide_mods.Base.{
  ℕ, ◌+◌, ◌-◌, ◌*◌, ◌/◌, ◌%◌, ◌^◌, ◌<◌, ◌≡◌, refl, sym, ap, subst, ◌∙◌, ◌⊎◌, inl, inr, arith,
  bit_and, bit_or, true, List, [], ◌∷◌, ◌++◌, if◌then◌else◌, leb, ◌==◌, ==_iff, get_or, length,
  length-append,
}
use darktide_mods.Base.Bits.{bit_and-mask, bit_or-byte, all_below, all_below_lem}
use darktide_mods.Mapping.Stream.{alphabet, Encoder, put_sextet, drain, feed, valid_character}

-- RFC 4648, section 5: the value of a base64url character.
unfoldable pub sextet_of : ℕ → ℕ
sextet_of c =
    if leb b'a' c
    then c - b'a' + 26
    else if c == b'_'
    then 63
    else if leb b'A' c
    then c - b'A'
    else if leb b'0' c
    then c - b'0' + 52
    else 62

unfoldable pub base64_value : ℕ → List ℕ → ℕ
base64_value v [] = v
base64_value v (c ∷ text) = base64_value (v * 64 + sextet_of c) text

unfoldable pub base256_value : ℕ → List ℕ → ℕ
base256_value v [] = v
base256_value v (b ∷ bytes) = base256_value (v * 256 + b) bytes

alphabet_values : all_below 64 (λ i. sextet_of (get_or alphabet i 0) == i) ≡ true
unfolding all_below sextet_of
alphabet_values = refl

pub alphabet_characters : all_below 64 (λ i. valid_character (get_or alphabet i 0)) ≡ true
unfolding all_below valid_character
alphabet_characters = refl

sextet_of-alphabet : (i : ℕ) → i < 64 → sextet_of (get_or alphabet i 0) ≡ i
sextet_of-alphabet i h =
    (==_iff _ i).0
      (all_below_lem 64 (λ i. sextet_of (get_or alphabet i 0) == i) i alphabet_values h)

base64_value-append :
    (v : ℕ) (a b : List ℕ) → base64_value v (a ++ b) ≡ base64_value (base64_value v a) b
unfolding base64_value
base64_value-append v [] b = refl
base64_value-append v (c ∷ a) b = base64_value-append (v * 64 + sextet_of c) a b

-- The number written so far, and that of the input read so far.
abbrev pub written : Encoder → ℕ
written e = base64_value 0 e.output

pub written-put_sextet :
    (shifted : ℕ) (e : Encoder) → written (put_sextet shifted e) ≡ written e * 64 + shifted % 64
unfolding put_sextet base64_value
written-put_sextet shifted e =
    base64_value-append 0 e.output _
    ∙ ap (λ t. written e * 64 + t)
        (sextet_of-alphabet (bit_and shifted 63) (omega (arith, bit_and-mask 6 shifted))
          ∙ bit_and-mask 6 shifted)

pub length-put_sextet :
    (shifted : ℕ) (e : Encoder) → length (put_sextet shifted e).output ≡ length e.output + 1
unfolding put_sextet
length-put_sextet shifted e = length-append e.output _

-- Between bytes 0, 2 or 4 bits wait in the accumulator.
abbrev pub Waiting : ℕ → Type 0
Waiting bits = (bits ≡ 0) ⊎ (bits ≡ 2) ⊎ (bits ≡ 4)

pub record Encodes (e : Encoder) (n value : ℕ) : Type 0 where
  pub waiting : Waiting e.bits
  pub size : length e.output * 6 + e.bits ≡ n * 8
  pub number : written e * 2 ^ e.bits + e.accumulator % 2 ^ e.bits ≡ value

-- A sextet written keeps the bits that wait.
put_sextet-Encodes :
    (shifted n value : ℕ) (e : Encoder)
    → Waiting e.bits
    → (length e.output + 1) * 6 + e.bits ≡ n * 8
    → (written e * 64 + shifted % 64) * 2 ^ e.bits + e.accumulator % 2 ^ e.bits ≡ value
    → Encodes (put_sextet shifted e) n value
unfolding put_sextet
put_sextet-Encodes shifted n value e w size number = record {
  waiting = w;
  size = ap (λ t. t * 6 + e.bits) (length-put_sextet shifted e) ∙ size;
  number =
      ap (λ t. t * 2 ^ e.bits + e.accumulator % 2 ^ e.bits) (written-put_sextet shifted e) ∙ number;
}

-- One more byte, in each of the three cases.
module _ (acc : ℕ) (output : List ℕ) (n value byte : ℕ) (small : byte < 256) where
  abbrev at : ℕ → Encoder
  at bits = record { accumulator = acc; bits = bits; output = output }

  abbrev next : ℕ
  next = bit_or (acc * 2 ^ 8 % 2 ^ 32) byte

  abbrev then_at : ℕ → Encoder
  then_at bits = record { accumulator = next; bits = bits; output = output }

  next_lem : next ≡ acc % 2 ^ 24 * 2 ^ 8 + byte
  next_lem = bit_or-byte acc byte small

  feed_empty : feed (at 0) byte ≡ put_sextet (next / 2 ^ 2) (then_at 2)
  unfolding feed drain put_sextet
  feed_empty = refl

  feed_two : feed (at 2) byte ≡ put_sextet (next / 2 ^ 4) (then_at 4)
  unfolding feed drain put_sextet
  feed_two = refl

  feed_four :
      feed (at 4) byte
      ≡ put_sextet (next / 2 ^ 0) (record (put_sextet (next / 2 ^ 6) (then_at 6)) { bits = 0 })
  unfolding feed drain put_sextet
  feed_four = refl

  Encodes-empty : Encodes (at 0) n value → Encodes (feed (at 0) byte) (n + 1) (value * 256 + byte)
  Encodes-empty p = rw feed_empty (
      put_sextet-Encodes (next / 2 ^ 2) (n + 1) (value * 256 + byte) (then_at 2) (inr (inl refl))
        (omega (arith, p.size)) (omega (arith, p.number, next_lem)))

  Encodes-two : Encodes (at 2) n value → Encodes (feed (at 2) byte) (n + 1) (value * 256 + byte)
  Encodes-two p = rw feed_two (
      put_sextet-Encodes (next / 2 ^ 4) (n + 1) (value * 256 + byte) (then_at 4) (inr (inr refl))
        (omega (arith, p.size)) (omega (arith, p.number, next_lem)))

  Encodes-four : Encodes (at 4) n value → Encodes (feed (at 4) byte) (n + 1) (value * 256 + byte)
  unfolding put_sextet
  Encodes-four p = rw feed_four (
      put_sextet-Encodes (next / 2 ^ 0) (n + 1) (value * 256 + byte) _ (inl refl)
        (omega (arith, p.size, length-put_sextet (next / 2 ^ 6) (then_at 6)))
        (omega (arith, p.number, next_lem, written-put_sextet (next / 2 ^ 6) (then_at 6))))

pub feed-Encodes :
    (e : Encoder) (n value byte : ℕ)
    → byte < 256
    → Encodes e n value
    → Encodes (feed e byte) (n + 1) (value * 256 + byte)
feed-Encodes e n value byte small p = elim p.waiting [
  | inl w ↦ step 0 w (Encodes-empty e.accumulator e.output n value byte small)
  | inr (inl w) ↦ step 2 w (Encodes-two e.accumulator e.output n value byte small)
  | inr (inr w) ↦ step 4 w (Encodes-four e.accumulator e.output n value byte small)
]
  where
    step :
        (bits : ℕ)
        → e.bits ≡ bits
        → (Encodes (record e { bits = bits }) n value
            → Encodes (feed (record e { bits = bits }) byte) (n + 1) (value * 256 + byte))
        → Encodes (feed e byte) (n + 1) (value * 256 + byte)
    step bits w f =
        subst
          (λ b.
            Encodes (record e { bits = b }) n value
            → Encodes (feed (record e { bits = b }) byte) (n + 1) (value * 256 + byte))
          (sym w) f p
