-- ===== src/Mapping/Stream.antt =====
-- mapping/stream.c: the identity of a stream is the base64url text of its two hashes, 22 characters.
pub mod Identity
pub mod Format
use darktide_mods.Base.{
  codes, ℕ, zero, suc, ◌+◌, ◌-◌, ◌*◌, ◌/◌, ◌%◌, ◌^◌, bit_and, bit_or, Bool, true, false, not, ◌&&◌,
  ◌||◌, List, [], ◌∷◌, ◌++◌, Option, none, some, if◌then◌else◌, ltb, leb, ◌==◌, get_or, length, Run,
  ok, ◌>>=◌,
}
use darktide_mods.Mapping.Index.{
  Index, find_mapping_by_stream_identity, find_mapping_by_stream_path,
}
use darktide_mods.Mapping.Types.{Mapping, stream_identity_size}

abbrev pub alphabet : List ℕ
alphabet = codes "ABCDEFGHIJKLMNOPQRSTUVWXYZabcdefghijklmnopqrstuvwxyz0123456789-_"

-- `(uint8_t)(hash >> ((7 - index) * 8))` for the rounds from `index` on.
unfoldable pub input_bytes : ℕ → ℕ → ℕ → List ℕ
input_bytes hash zero index = []
input_bytes hash (suc rounds) index =
    hash / 2 ^ ((7 - index) * 8) % 2 ^ 8 ∷ input_bytes hash rounds (index + 1)

-- The locals of the encoding loop; `output` is what `identity` holds so far.
pub record Encoder : Type 0 where
  pub accumulator : ℕ
  pub bits : ℕ
  pub output : List ℕ

unfoldable pub put_sextet : ℕ → Encoder → Encoder
put_sextet shifted e = record e {
  output = e.output ++ (get_or alphabet (bit_and shifted 0x3f) 0 ∷ []);
}

-- `while (bits >= 6)`: a round takes 6 off, so `bits` rounds are enough.
unfoldable pub drain : ℕ → Encoder → Encoder
drain zero e = e
drain (suc fuel) e =
    let rest =
      drain fuel (put_sextet (e.accumulator / 2 ^ (e.bits - 6)) (record e { bits = e.bits - 6 })) in
    if ltb e.bits 6 then e else rest

unfoldable pub feed : Encoder → ℕ → Encoder
feed e byte =
    drain (e.bits + 8)
      (record e { accumulator = bit_or (e.accumulator * 2 ^ 8 % 2 ^ 32) byte; bits = e.bits + 8 })

unfoldable pub feed_all : Encoder → List ℕ → Encoder
feed_all e [] = e
feed_all e (byte ∷ input) = feed_all (feed e byte) input

unfoldable pub finish : Encoder → Encoder
finish e = if e.bits == 0 then e else put_sextet (e.accumulator * 2 ^ (6 - e.bits) % 2 ^ 32) e

-- The buffer has `identity_size` bytes, and is never NULL, since the callers pass an array; `none` is
-- the return of 0.
unfoldable pub format_resource_stream_identity : ℕ → ℕ → ℕ → Option (List ℕ)
format_resource_stream_identity type_hash resource_hash identity_size =
    if ltb identity_size stream_identity_size
    then none
    else some
        (finish (
          feed_all (record { accumulator = 0; bits = 0; output = [] })
            (input_bytes type_hash 8 0 ++ input_bytes resource_hash 8 0))).output

unfoldable pub valid_character : ℕ → Bool
valid_character c =
    leb b'A' c && leb c b'Z'
    || leb b'a' c && leb c b'z'
    || leb b'0' c && leb c b'9'
    || c == b'-'
    || c == b'_'

-- The loop over the first characters of the identity; one past its end is the terminator 0.
unfoldable pub valid_prefix : List ℕ → ℕ → ℕ → Bool
valid_prefix identity zero index = true
valid_prefix identity (suc rounds) index =
    valid_character (get_or identity index 0) && valid_prefix identity rounds (index + 1)

-- The path is copied, with its terminator, into a buffer of `path_size` bytes if it fits.
unfoldable pub copy_stream_path : ℕ → Option Mapping → Option (List ℕ)
copy_stream_path path_size none = none
copy_stream_path path_size (some mapping) =
    if ltb path_size (length mapping.stream_path + 1) then none else some mapping.stream_path

-- `path` says whether the pointer to the buffer is not NULL.
unfoldable pub resolve_resource_stream_identity :
    Index → Option (List ℕ) → Bool → ℕ → Run (Option (List ℕ))
resolve_resource_stream_identity index none path path_size = ok none
resolve_resource_stream_identity index (some identity) path path_size =
    let found =
      find_mapping_by_stream_identity index identity
      >>= (λ mapping. ok (copy_stream_path path_size mapping)) in
    if not path
    then ok none
    else if not (valid_prefix identity (stream_identity_size - 1) 0)
    then ok none
    else if get_or identity (stream_identity_size - 1) 0 == 0
    then found
    else ok none

unfoldable pub is_resource_stream_path : Index → Option (List ℕ) → Run Bool
is_resource_stream_path index none = ok false
is_resource_stream_path index (some path) = find_mapping_by_stream_path index path >>= λ found.
    elim found [ none ↦ ok false | some mapping ↦ ok true ]
