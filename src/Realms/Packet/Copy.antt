-- ===== src/Realms/Packet/Copy.antt =====
-- Bytes that are copied into a buffer, bit by bit.
use darktide_mods.Base.{
  ℕ, zero, suc, ◌+◌, ◌-◌, ◌*◌, ◌/◌, ◌%◌, ◌≤◌, ◌<◌, ◌≡◌, ◌⊎◌, refl, ap, ◌∙◌, inl, inr, arith, List,
  ◌++◌, length, length-append, length-take, length-drop, get_or, take, drop, ok, replicate,
}
use darktide_mods.Base.Arrays.{get_or-append, get_or-take, get_or-drop, list_ext}
use darktide_mods.Base.BitAt.{bit, bit_zero}
use darktide_mods.Realms.Packet.{copy_bytes}
use darktide_mods.Realms.Packet.Append.{bit_at, bits_at, bits_at-same, IsClear}

get_or-append_left :
    (xs ys : List ℕ) (k : ℕ) → k < length xs → get_or (xs ++ ys) k 0 ≡ get_or xs k 0
get_or-append_left xs ys k h = ground (arith, get_or-append xs ys k, h)

get_or-append_right :
    (xs ys : List ℕ) (i k : ℕ) → i ≡ length xs + k → get_or (xs ++ ys) i 0 ≡ get_or ys k 0
get_or-append_right xs ys i k h =
    ground (arith, get_or-append xs ys i, h)
    ∙ ap (λ t. get_or ys t 0) {x = i - length xs} {y = k} (omega (arith, h))

module _ (buffer bytes : List ℕ) (at : ℕ) (room : at + length bytes ≤ length buffer) where
  abbrev pub copied : List ℕ
  copied = take at buffer ++ bytes ++ drop (at + length bytes) buffer

  pub copy_bytes-copied : copy_bytes buffer at bytes ≡ ok copied
  unfolding copy_bytes
  copy_bytes-copied = ground (arith, room)

  pub length-copied : length copied ≡ length buffer
  length-copied = omega (
    arith,
    room,
    length-append (take at buffer ++ bytes) (drop (at + length bytes) buffer),
    length-append (take at buffer) bytes,
    length-take at buffer,
    length-drop (at + length bytes) buffer,
  )

  prefix_length : length (take at buffer) ≡ at
  prefix_length = omega (arith, room, length-take at buffer)

  middle_length : length (take at buffer ++ bytes) ≡ at + length bytes
  middle_length = omega (arith, prefix_length, length-append (take at buffer) bytes)

  pub get_or-copied_inside :
      (k : ℕ) → k < length bytes → get_or copied (at + k) 0 ≡ get_or bytes k 0
  get_or-copied_inside k h =
      get_or-append_left (take at buffer ++ bytes) (drop (at + length bytes) buffer) (at + k)
        (omega (arith, h, middle_length))
      ∙ get_or-append_right (take at buffer) bytes (at + k) k (omega (arith, prefix_length))

  get_or-copied_outside :
      (k : ℕ) → (k < at) ⊎ (at + length bytes ≤ k) → get_or copied k 0 ≡ get_or buffer k 0
  get_or-copied_outside k (inl low) =
      get_or-append_left (take at buffer ++ bytes) (drop (at + length bytes) buffer) k
        (omega (arith, low, middle_length))
      ∙ get_or-append_left (take at buffer) bytes k (omega (arith, low, prefix_length))
      ∙ get_or-take at buffer k low
  get_or-copied_outside k (inr high) =
      get_or-append_right (take at buffer ++ bytes) (drop (at + length bytes) buffer) k
        (k - (at + length bytes)) (omega (arith, high, middle_length))
      ∙ get_or-drop (at + length bytes) buffer (k - (at + length bytes))
      ∙ ap (λ t. get_or buffer t 0) {x = at + length bytes + (k - (at + length bytes))} {y = k}
          (omega (arith, high))

  bit_at-outside :
      (j : ℕ) → (j < at * 8) ⊎ ((at + length bytes) * 8 ≤ j) → bit_at copied j ≡ bit_at buffer j
  bit_at-outside j out =
      ap (λ t. bit t (j % 8)) (get_or-copied_outside (j / 8) (ground (arith, out)))

  bit_at-inside : (j : ℕ) → j < length bytes * 8 → bit_at copied (at * 8 + j) ≡ bit_at bytes j
  bit_at-inside j h =
      ap (λ t. bit (get_or copied t 0) ((at * 8 + j) % 8)) {x = (at * 8 + j) / 8} {y = at + j / 8}
        (omega arith)
      ∙ ap (λ t. bit t ((at * 8 + j) % 8)) (get_or-copied_inside (j / 8) (omega (arith, h)))
      ∙ ap (λ t. bit (get_or bytes (j / 8) 0) t) {x = (at * 8 + j) % 8} {y = j % 8} (omega arith)

  -- What is read before the bytes, from them, and that the rest stays clear.
  pub bits_at-before :
      (offset n : ℕ) → offset + n ≤ at * 8 → bits_at copied offset n ≡ bits_at buffer offset n
  bits_at-before offset n h =
      bits_at-same n buffer copied offset
        (λ j low high. bit_at-outside j (inl (omega (arith, high, h))))

  pub bits_at-inside :
      (n offset : ℕ)
      → offset + n ≤ length bytes * 8
      → bits_at copied (at * 8 + offset) n ≡ bits_at bytes offset n
  bits_at-inside zero offset h = refl
  bits_at-inside (suc n) offset h = omega (
    arith,
    bit_at-inside offset (omega (arith, h)),
    bits_at-inside n (offset + 1) (omega (arith, h)),
    ap (λ t. bits_at copied t n) {x = at * 8 + offset + 1} {y = at * 8 + (offset + 1)}
        (omega arith),
  )

  pub copied-Clear :
      (offset : ℕ)
      → (at + length bytes) * 8 ≤ offset
      → IsClear buffer offset
      → IsClear copied offset
  copied-Clear offset h clear j low = bit_at-outside j (inr (omega (arith, h, low))) ∙ clear j low

  pub take-copied : (n : ℕ) → n ≡ length bytes → take n (drop at copied) ≡ bytes
  take-copied n e =
      list_ext (take n (drop at copied)) bytes
        (omega
          (arith, e, length-take n (drop at copied), length-drop at copied, length-copied, room))
        (λ k h.
          get_or-take n (drop at copied) k (omega (arith, h, length-take n (drop at copied)))
          ∙ get_or-drop at copied k
          ∙ get_or-copied_inside k (omega (arith, e, h, length-take n (drop at copied))))

-- A buffer of zeros.
pub replicate-Clear : (n : ℕ) → IsClear (replicate n 0) 0
replicate-Clear n j h = ap (λ t. bit t (j % 8)) (zeros n (j / 8)) ∙ bit_zero (j % 8)
  where
    zeros : (m k : ℕ) → get_or {A = ℕ} (replicate m 0) k 0 ≡ 0
    zeros zero k = refl
    zeros (suc m) zero = refl
    zeros (suc m) (suc k) = zeros m k
