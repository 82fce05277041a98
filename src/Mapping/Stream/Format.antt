-- ===== src/Mapping/Stream/Format.antt =====
-- `sa_format_resource_stream_identity` as a whole, from the encoder's loop.
use darktide_mods.Base.{
  ℕ, zero, suc, ◌+◌, ◌-◌, ◌*◌, ◌/◌, ◌%◌, ◌^◌, ◌≤◌, ◌<◌, ◌≡◌, refl, sym, ap, subst, ◌∙◌, inl, inr,
  arith, true, false, List, [], ◌∷◌, ◌++◌, some, ltb, get_or, length, bit_and, Bool-cases,
}
use darktide_mods.Base.Bits.{bit_and-mask, all_below_lem}
use darktide_mods.Mapping.Stream.{
  alphabet, Encoder, input_bytes, put_sextet, drain, feed, feed_all, finish,
  format_resource_stream_identity, valid_character, valid_prefix,
}
use darktide_mods.Mapping.Stream.Identity.{
  base64_value, base256_value, Encodes, written, feed-Encodes, length-put_sextet,
  written-put_sextet, alphabet_characters,
}
use darktide_mods.Mapping.Types.{stream_identity_size}

abbrev AreBytes : List ℕ → Type 0
AreBytes [] = Unit {0}
AreBytes (b ∷ bytes) = (b < 256) × AreBytes bytes

feed_all-Encodes :
    (bytes : List ℕ) (e : Encoder) (n value : ℕ)
    → AreBytes bytes
    → Encodes e n value
    → Encodes (feed_all e bytes) (n + length bytes) (base256_value value bytes)
unfolding feed_all base256_value
feed_all-Encodes [] e n value small p = record {
  waiting = p.waiting;
  size = omega (arith, p.size);
  number = p.number;
}
feed_all-Encodes (b ∷ bytes) e n value small p =
    let q =
      feed_all-Encodes bytes (feed e b) (n + 1) (value * 256 + b) small.1
        (feed-Encodes e n value b small.0 p) in
    record { waiting = q.waiting; size = omega (arith, q.size); number = q.number }

AreBytes-input : (t r : ℕ) → AreBytes (input_bytes t 8 0 ++ input_bytes r 8 0)
unfolding input_bytes
AreBytes-input t r = omega arith

base256_value-append :
    (v : ℕ) (a b : List ℕ) → base256_value v (a ++ b) ≡ base256_value (base256_value v a) b
unfolding base256_value
base256_value-append v [] b = refl
base256_value-append v (c ∷ a) b = base256_value-append (v * 256 + c) a b

hash_value : (v h : ℕ) → h < 2 ^ 64 → base256_value v (input_bytes h 8 0) ≡ v * 2 ^ 64 + h
unfolding input_bytes base256_value
hash_value v h small = omega arith

-- The sixteen bytes are the two hashes, high byte first.
input_value :
    (t r : ℕ)
    → t < 2 ^ 64
    → r < 2 ^ 64
    → base256_value 0 (input_bytes t 8 0 ++ input_bytes r 8 0) ≡ t * 2 ^ 64 + r
input_value t r ht hr =
    base256_value-append 0 (input_bytes t 8 0) (input_bytes r 8 0)
    ∙ hash_value _ r hr
    ∙ ap (λ u. u * 2 ^ 64 + r) (hash_value 0 t ht)
    ∙ omega arith

-- Every character comes from the alphabet.
abbrev AreValid : List ℕ → Type 0
AreValid [] = Unit {0}
AreValid (c ∷ text) = (valid_character c ≡ true) × AreValid text

AreValid-snoc :
    (text : List ℕ) (c : ℕ) → AreValid text → valid_character c ≡ true → AreValid (text ++ c ∷ [])
AreValid-snoc [] c v h = (h, tt)
AreValid-snoc (d ∷ text) c v h = (v.0, AreValid-snoc text c v.1 h)

put_sextet-AreValid :
    (shifted : ℕ) (e : Encoder) → AreValid e.output → AreValid (put_sextet shifted e).output
unfolding put_sextet
put_sextet-AreValid shifted e v = AreValid-snoc e.output _ v (
    all_below_lem 64 (λ i. valid_character (get_or alphabet i 0)) (bit_and shifted 63)
      alphabet_characters (omega (arith, bit_and-mask 6 shifted)))

drain-AreValid : (fuel : ℕ) (e : Encoder) → AreValid e.output → AreValid (drain fuel e).output
unfolding drain
drain-AreValid zero e v = v
drain-AreValid (suc fuel) e v = elim (Bool-cases (ltb e.bits 6)) [
  | inl done ↦ rw done v
  | inr more ↦ rw more (
      drain-AreValid fuel _
        (put_sextet-AreValid (e.accumulator / 2 ^ (e.bits - 6)) (record e { bits = e.bits - 6 }) v))
]

feed_all-AreValid :
    (bytes : List ℕ) (e : Encoder) → AreValid e.output → AreValid (feed_all e bytes).output
unfolding feed_all feed
feed_all-AreValid [] e v = v
feed_all-AreValid (b ∷ bytes) e v =
    feed_all-AreValid bytes (feed e b) (drain-AreValid (e.bits + 8) _ v)

AreValid-get :
    (text : List ℕ) (i : ℕ)
    → AreValid text
    → i < length text
    → valid_character (get_or text i 0) ≡ true
AreValid-get [] i v h = elim h [ ]
AreValid-get (c ∷ text) zero v h = v.0
AreValid-get (c ∷ text) (suc i) v h = AreValid-get text i v.1 (omega arith)

AreValid-prefix :
    (text : List ℕ) (rounds index : ℕ)
    → AreValid text
    → index + rounds ≤ length text
    → valid_prefix text rounds index ≡ true
unfolding valid_prefix
AreValid-prefix text zero index v h = refl
AreValid-prefix text (suc rounds) index v h = rw (
  AreValid-get text index v (omega arith),
  AreValid-prefix text rounds (index + 1) v (omega arith),
)

-- What the encoder holds once all sixteen bytes are in.
abbrev last_state : ℕ → ℕ → Encoder
last_state t r =
    feed_all (record { accumulator = 0; bits = 0; output = [] })
      (input_bytes t 8 0 ++ input_bytes r 8 0)

-- A text of 22 characters that the validation accepts, and that spells the 128-bit number of the
-- two hashes followed by four zero bits.
pub record Spells (t r : ℕ) (text : List ℕ) : Type 0 where
  pub size : length text ≡ 22
  pub valid : valid_prefix text 22 0 ≡ true
  pub number : base64_value 0 text ≡ (t * 2 ^ 64 + r) * 16

length-input : (t r : ℕ) → length (input_bytes t 8 0 ++ input_bytes r 8 0) ≡ 16
unfolding input_bytes
length-input t r = refl

last_state-Encodes :
    (t r : ℕ) → t < 2 ^ 64 → r < 2 ^ 64 → Encodes (last_state t r) 16 (t * 2 ^ 64 + r)
unfolding base64_value
last_state-Encodes t r ht hr =
    let p =
      feed_all-Encodes (input_bytes t 8 0 ++ input_bytes r 8 0) _ 0 0 (AreBytes-input t r)
        (record { waiting = inl refl; size = refl; number = refl }) in
    record {
      waiting = p.waiting;
      size = p.size ∙ ap (λ n. (0 + n) * 8) (length-input t r);
      number = p.number ∙ input_value t r ht hr;
    }

finish_two : (e : Encoder) → e.bits ≡ 2 → finish e ≡ put_sextet (e.accumulator * 2 ^ 4 % 2 ^ 32) e
unfolding finish
finish_two e two = rw two refl

module _ (t r : ℕ) (ht : t < 2 ^ 64) (hr : r < 2 ^ 64) where
  abbrev last : Encoder
  last = last_state t r

  abbrev tail : ℕ
  tail = last.accumulator * 2 ^ 4 % 2 ^ 32

  last_lem : Encodes last 16 (t * 2 ^ 64 + r)
  last_lem = last_state-Encodes t r ht hr

  last_bits : last.bits ≡ 2
  last_bits = omega (arith, last_lem.waiting, last_lem.size)

  last_number : written last * 4 + last.accumulator % 4 ≡ t * 2 ^ 64 + r
  last_number =
      subst (λ b. written last * 2 ^ b + last.accumulator % 2 ^ b ≡ t * 2 ^ 64 + r) last_bits
        last_lem.number

  text_lem : Spells t r (put_sextet tail last).output
  text_lem = record {
    size = size;
    valid =
        AreValid-prefix _ 22 0 (put_sextet-AreValid tail last (feed_all-AreValid _ _ tt))
          (omega (arith, size));
    number = omega (arith, written-put_sextet tail last, last_number);
  }
    where
      size : length (put_sextet tail last).output ≡ 22
      size = omega (arith, length-put_sextet tail last, last_lem.size, last_bits)

  -- For hashes below 2 ^ 64 and a buffer of at least 23 bytes, `format_resource_stream_identity`
  -- writes 22 characters that the validation of the resolver accepts and whose value as
  -- base64url digits is the 128-bit number of the two hashes followed by four zero bits.
  pub format-Spells :
      (size : ℕ)
      → stream_identity_size ≤ size
      → (text : List ℕ) × (format_resource_stream_identity t r size ≡ some text) × Spells t r text
  unfolding format_resource_stream_identity
  format-Spells size enough = ((put_sextet tail last).output, run, text_lem)
    where
      long : ltb size stream_identity_size ≡ false
      long = ground arith

      run : format_resource_stream_identity t r size ≡ some (put_sextet tail last).output
      run = rw long (ap (λ e. some e.output) (finish_two last last_bits))

-- For hashes below 2 ^ 64 and a buffer of at least 23 bytes, two pairs of hashes for which
-- `format_resource_stream_identity` writes the same are the same pair.
pub format_injective :
    (t r t' r' size : ℕ)
    → t < 2 ^ 64
    → r < 2 ^ 64
    → t' < 2 ^ 64
    → r' < 2 ^ 64
    → stream_identity_size ≤ size
    → format_resource_stream_identity t r size ≡ format_resource_stream_identity t' r' size
    → (t ≡ t') × (r ≡ r')
format_injective t r t' r' size ht hr ht' hr' enough e =
    let (a, run_a, sa) = format-Spells t r ht hr size enough in
    let (b, run_b, sb) = format-Spells t' r' ht' hr' size enough in
    let same : a ≡ b = cc (e, run_a, run_b) in
    let equal : (t * 2 ^ 64 + r) * 16 ≡ (t' * 2 ^ 64 + r') * 16 =
      sym sa.number ∙ ap (base64_value 0) same ∙ sb.number in
    omega arith
