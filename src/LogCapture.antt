-- ===== src/LogCapture.antt =====
-- native/dt-cli/runtime/log_capture_windows.c: the ring of captured console output. A hook of the
-- game's writes puts records into it, each its length in four bytes and then its bytes; the reader
-- takes one record at a time.
pub mod Ring
pub mod Copy
pub mod Records
pub mod Refine
mod Tests
use darktide_mods.Base.{
  ℕ, zero, suc, ◌+◌, ◌-◌, ◌*◌, ◌/◌, ◌%◌, ◌^◌, Bool, true, false, not, ◌&&◌, ◌||◌, List, [], ◌∷◌,
  ◌++◌, Option, none, some, if◌then◌else◌, ltb, leb, ◌==◌, length, take, drop, Run, ok, fault,
  out_of_bounds, out_of_fuel, ◌>>=◌,
}

abbrev pub raw_queue_bytes : ℕ
raw_queue_bytes = 512 * 1024

abbrev pub raw_record_bytes : ℕ
raw_record_bytes = 64 * 1024

-- `raw_queue`, `queue_read`, `queue_write` and `queue_used`.
pub record Queue : Type 0 where
  pub raw : List ℕ
  pub read : ℕ
  pub write : ℕ
  pub used : ℕ

-- The queue with `dropped_bytes` and `capture_enabled`.
pub record Capture : Type 0 where
  pub queue : Queue
  pub dropped : ℕ
  pub enabled : Bool

-- Arithmetic of uint32_t.
abbrev pub add32 : ℕ → ℕ → ℕ
add32 a b = (a + b) % 2 ^ 32

abbrev pub sub32 : ℕ → ℕ → ℕ
sub32 a b = (a + (2 ^ 32 - b)) % 2 ^ 32

-- The bytes of `xs` from `start` on replaced by those of `source`.
abbrev pub blit : List ℕ → ℕ → List ℕ → List ℕ
blit [] start source = []
blit (x ∷ xs) (suc start) source = x ∷ blit xs start source
blit (x ∷ xs) zero [] = x ∷ xs
blit (x ∷ xs) zero (b ∷ source) = b ∷ blit xs zero source

-- `memcpy` into and out of an array.
unfoldable pub store_bytes : List ℕ → ℕ → List ℕ → Run (List ℕ)
store_bytes xs start source =
    if ltb (length xs) (start + length source)
    then fault out_of_bounds
    else ok (blit xs start source)

unfoldable pub load_bytes : List ℕ → ℕ → ℕ → Run (List ℕ)
load_bytes xs start count =
    if ltb (length xs) (start + count) then fault out_of_bounds else ok (take count (drop start xs))

-- The part before the end of the array.
unfoldable pub first_part : ℕ → ℕ → ℕ
first_part position length =
    let first = sub32 raw_queue_bytes position in if ltb length first then length else first

unfoldable pub queue_copy_in : List ℕ → ℕ → Queue → Run Queue
queue_copy_in source length q =
    let first = first_part q.write length in
    store_bytes q.raw q.write (take first source) >>= λ head.
    store_bytes head 0 (take (sub32 length first) (drop first source)) >>= λ raw. ok (record q {
      raw = raw;
      write = add32 q.write length % raw_queue_bytes;
      used = add32 q.used length;
    })

unfoldable pub queue_copy_out : ℕ → Queue → Run (List ℕ × Queue)
queue_copy_out length q =
    let first = first_part q.read length in
    load_bytes q.raw q.read first >>= λ head. load_bytes q.raw 0 (sub32 length first) >>= λ tail.
    ok (
      head ++ tail,
      record q { read = add32 q.read length % raw_queue_bytes; used = sub32 q.used length },
    )

-- The bytes of a uint32_t on a little-endian machine, and back.
unfoldable pub length_bytes : ℕ → List ℕ
length_bytes n = n % 256 ∷ n / 2 ^ 8 % 256 ∷ n / 2 ^ 16 % 256 ∷ n / 2 ^ 24 % 256 ∷ []

unfoldable pub bytes_length : List ℕ → ℕ
bytes_length [] = 0
bytes_length (b ∷ bytes) = b + 256 * bytes_length bytes

unfoldable pub record_size : ℕ → ℕ
record_size remaining = if ltb raw_record_bytes remaining then raw_record_bytes else remaining

-- `while (remaining > 0)`: a round takes a record off, so `record_count` rounds are enough.
unfoldable pub capture_records : ℕ → List ℕ → ℕ → Queue → Run Queue
capture_records zero cursor remaining q = if remaining == 0 then ok q else fault out_of_fuel
capture_records (suc fuel) cursor remaining q =
    let record_length = record_size remaining in
    let rest =
      queue_copy_in (length_bytes record_length) 4 q
      >>= queue_copy_in cursor record_length
      >>= capture_records fuel (drop record_length cursor) (sub32 remaining record_length) in
    if remaining == 0 then ok q else rest

-- `(length - 1) / RAW_RECORD_BYTES + 1`
unfoldable pub record_count : ℕ → ℕ
record_count length = (length - 1) / raw_record_bytes + 1

unfoldable pub required_size : ℕ → ℕ
required_size length = length + record_count length * 4

abbrev pub drop_capture : ℕ → Capture → Capture
drop_capture length s = record s { dropped = (s.dropped + length) % 2 ^ 64 }

-- `lock` says whether the lock is free at the moment of the call; `source` has `length` bytes.
unfoldable pub capture_bytes : Bool → Option (List ℕ) → ℕ → Capture → Run Capture
capture_bytes lock none length s = ok s
capture_bytes lock (some source) length s =
    let captured = capture_records (record_count length) source length s.queue >>= λ queue.
    ok (record s { queue = queue }) in
    if length == 0 || not s.enabled
    then ok s
    else if ltb raw_queue_bytes (required_size length)
    then ok (drop_capture length s)
    else if not lock
    then ok (drop_capture length s)
    else if ltb (sub32 raw_queue_bytes s.queue.used) (required_size length)
    then ok (drop_capture length s)
    else captured

-- The returns of -1, 0 and 1; each of the last three with `*dropped`.
pub data PopResult : Type 0 where
  null_pointer : PopResult
  too_small : ℕ → PopResult
  empty : ℕ → PopResult
  popped : List ℕ → ℕ → PopResult

unfoldable pub pop_record : ℕ → ℕ → List ℕ × Queue → Run (PopResult × Queue)
pop_record buffer_size dropped (header, q) =
    let record_length = bytes_length header in
    if ltb buffer_size record_length || ltb q.used record_length
    then ok (too_small dropped, q)
    else queue_copy_out record_length q >>= λ out. ok (popped out.0 dropped, out.1)

-- `pointers` says whether none of the three pointers is NULL.
unfoldable pub pop : Bool → ℕ → Capture → Run (PopResult × Capture)
pop pointers buffer_size s =
    let taken = queue_copy_out 4 s.queue >>= pop_record buffer_size s.dropped >>= λ r.
    ok (r.0, record s { queue = r.1; dropped = 0 }) in
    if not pointers
    then ok (null_pointer, s)
    else if ltb s.queue.used 4
    then ok (empty s.dropped, record s { dropped = 0 })
    else taken
