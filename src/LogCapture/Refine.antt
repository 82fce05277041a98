-- ===== src/LogCapture/Refine.antt =====
-- The ring as a queue of records: what a capture and a pop do to it.
use darktide_mods.Base.{
  ℕ, ◌+◌, ◌-◌, ◌^◌, ◌≤◌, ◌<◌, ◌≡◌, refl, sym, ap, ◌∙◌, ◌⊎◌, inl, inr, arith, Bool, true, false,
  ◌||◌, Bool-cases, List, [], ◌∷◌, ◌++◌, some, ltb, length, length-append, take, drop, ok, dec_lt,
}
use darktide_mods.Base.Arrays.{length-tabulate}
use darktide_mods.LogCapture.{
  Queue, Capture, too_small, empty, popped, raw_queue_bytes, sub32, length_bytes, bytes_length,
  queue_copy_out, record_count, required_size, drop_capture, capture_bytes, pop_record, pop,
}
use darktide_mods.LogCapture.Copy.{queue_copy_out-Removed}
use darktide_mods.LogCapture.Records.{
  encode, concat, AreRecords, AreRecords-append, capture_records-Captured,
  bytes_length-length_bytes,
}
use darktide_mods.LogCapture.Ring.{content, IsQueue, slot}

-- The ring holds these records.
pub record Holds (s : Capture) (records : List (List ℕ)) : Type 0 where
  pub valid : IsQueue s.queue
  pub are_records : AreRecords records
  pub content_eq : content s.queue ≡ encode records

-- A capture adds records that make up the source; or it counts the bytes as dropped, since the
-- lock is taken or the ring has no room.
abbrev pub AddsOrDrops : Bool → Capture → List (List ℕ) → List ℕ → Capture → Type 0
AddsOrDrops lock s records source s' =
    ((added : List (List ℕ)) × Holds s' (records ++ added)
      × (concat added ≡ source)
      × (s'.dropped ≡ s.dropped))
    ⊎ ((s' ≡ drop_capture (length source) s)
        × ((lock ≡ false) ⊎ (raw_queue_bytes - s.queue.used < required_size (length source))))

-- With capture enabled, on a ring that holds a list of records, `capture_bytes` of a source of 1
-- to 2 ^ 32 - 1 bytes ends without a fault; the ring then holds the same records followed by new
-- ones that together are the source, or the source is counted as dropped and the ring is as it
-- was, which happens only if the lock is taken or the ring has no room for the source with its
-- headers.
pub capture_bytes-Adds :
    (lock : Bool) (source : List ℕ) (s : Capture) (records : List (List ℕ))
    → Holds s records
    → s.enabled ≡ true
    → 0 < length source
    → length source < 2 ^ 32
    → (r : Capture) × (capture_bytes lock (some source) (length source) s ≡ ok r)
      × AddsOrDrops lock s records source r
unfolding capture_bytes required_size record_count
capture_bytes-Adds lock source s records h on some_bytes narrow =
    let count = record_count (length source) in
    let space : sub32 raw_queue_bytes s.queue.used ≡ raw_queue_bytes - s.queue.used =
      omega (arith, h.valid.used) in
    elim (dec_lt raw_queue_bytes (required_size (length source))) [
      | yes large ↦ (
        drop_capture (length source) s,
        ground (arith, on, some_bytes, large),
        inr (refl, inr (omega (arith, large))),
      )
      | no fits ↦ elim (Bool-cases lock) [
        | inr busy ↦ (
          drop_capture (length source) s,
          ground (arith, on, some_bytes, fits, busy),
          inr (refl, inl busy),
        )
        | inl free ↦
            elim (dec_lt (raw_queue_bytes - s.queue.used) (required_size (length source))) [
              | yes full ↦ (
                drop_capture (length source) s,
                ground (arith, on, some_bytes, fits, free, full, space),
                inr (refl, inr full),
              )
              | no room ↦
                  let (q, run, c) =
                    capture_records-Captured count source (length source) s.queue records h.valid
                      h.content_eq refl (omega arith) (omega arith) in
                  let kept : Holds (record s { queue = q }) (records ++ c.added) = record {
                    valid = c.valid;
                    are_records = AreRecords-append records c.added h.are_records c.are_records;
                    content_eq = c.content_eq;
                  } in
                  (
                    record s { queue = q },
                    ground (arith, on, some_bytes, fits, free, room, space, run),
                    inl (c.added, kept, c.source_eq, refl),
                  )
            ]
      ]
    ]

-- The number of bytes of the first record.
header_lem :
    (s : Capture) (r : List ℕ) (records : List (List ℕ))
    → Holds s (r ∷ records)
    → (take 4 (content s.queue) ≡ length_bytes (length r))
      × (drop 4 (content s.queue) ≡ r ++ encode records)
      × (s.queue.used ≡ 4 + (length r + length (encode records)))
unfolding length_bytes
header_lem s r records h = (
  ap (take 4) h.content_eq,
  ap (drop 4) h.content_eq,
  omega (
    arith,
    length-tabulate s.queue.used (slot s.queue) 0,
    ap length h.content_eq,
    length-append r (encode records),
  ),
)

take-append : (xs ys : List ℕ) → take (length xs) (xs ++ ys) ≡ xs
take-append [] ys = refl
take-append (x ∷ xs) ys = ap (λ t. x ∷ t) (take-append xs ys)

drop-append : (xs ys : List ℕ) → drop (length xs) (xs ++ ys) ≡ ys
drop-append [] ys = refl
drop-append (x ∷ xs) ys = drop-append xs ys

-- The header of the first record, taken off.
pop_header :
    (s : Capture) (r : List ℕ) (records : List (List ℕ))
    → Holds s (r ∷ records)
    → (q : Queue) × (queue_copy_out 4 s.queue ≡ ok (length_bytes (length r), q))
      × IsQueue q
      × (content q ≡ r ++ encode records)
      × (q.used ≡ length r + length (encode records))
pop_header s r records h =
    let (header, body, size) = header_lem s r records h in
    let (q, run, out) = queue_copy_out-Removed s.queue 4 h.valid (omega (arith, size)) in
    (
      q,
      run ∙ ap (λ b. ok (b, q)) header,
      out.valid,
      out.content_eq ∙ body,
      omega (arith, out.used_eq, size),
    )

-- The steps of a pop that finds a record and has room for it.
pop_runs :
    (s : Capture) (buffer_size : ℕ) (header bytes : List ℕ) (q q' : Queue)
    → ltb s.queue.used 4 ≡ false
    → queue_copy_out 4 s.queue ≡ ok (header, q)
    → (ltb buffer_size (bytes_length header) || ltb q.used (bytes_length header)) ≡ false
    → queue_copy_out (bytes_length header) q ≡ ok (bytes, q')
    → pop true buffer_size s ≡ ok (popped bytes s.dropped, record s { queue = q'; dropped = 0 })
unfolding pop pop_record
pop_runs s buffer_size header bytes q q' full run test run' = rw (full, run, test, run') refl

-- On a ring that holds a record followed by others, a pop with a buffer that the record fits in
-- ends without a fault, gives that record and the count of dropped bytes, sets the count to 0,
-- and leaves a ring that holds the others.
pub pop-first :
    (s : Capture) (r : List ℕ) (records : List (List ℕ)) (buffer_size : ℕ)
    → Holds s (r ∷ records)
    → length r ≤ buffer_size
    → (s' : Capture) × (pop true buffer_size s ≡ ok (popped r s.dropped, s'))
      × Holds s' records
      × (s'.dropped ≡ 0)
unfolding pop pop_record
pop-first s r records buffer_size h fits =
    let (header, body, size) = header_lem s r records h in
    let (q, run, v, e, used) = pop_header s r records h in
    let full : ltb s.queue.used 4 ≡ false = ground (arith, size) in
    let n : bytes_length (length_bytes (length r)) ≡ length r =
      bytes_length-length_bytes (length r) (omega (arith, h.are_records.1)) in
    let (q', run', out) = queue_copy_out-Removed q (length r) v (omega (arith, used)) in
    let test : (ltb buffer_size (length r) || ltb q.used (length r)) ≡ false =
      ground (arith, used, fits) in
    let bytes : take (length r) (content q) ≡ r =
      ap (take (length r)) e ∙ take-append r (encode records) in
    let kept : Holds (record s { queue = q'; dropped = 0 }) records = record {
      valid = out.valid;
      are_records = h.are_records.2;
      content_eq = out.content_eq ∙ ap (drop (length r)) e ∙ drop-append r (encode records);
    } in
    (
      record s { queue = q'; dropped = 0 },
      pop_runs s buffer_size (length_bytes (length r)) r q q' full run
          (ap (λ m. ltb buffer_size m || ltb q.used m) n ∙ test)
          (ap (λ m. queue_copy_out m q) n ∙ run' ∙ ap (λ b. ok (b, q')) bytes),
      kept,
      refl,
    )

pub pop-empty :
    (s : Capture) (buffer_size : ℕ)
    → Holds s []
    → pop true buffer_size s ≡ ok (empty s.dropped, record s { dropped = 0 })
unfolding pop
pop-empty s buffer_size h =
    let none_used : s.queue.used ≡ 0 =
      sym (length-tabulate s.queue.used (slot s.queue) 0) ∙ ap length h.content_eq in
    ground (arith, none_used)

-- On a ring that holds a record followed by others, a pop with a buffer smaller than the record
-- returns -1 and leaves a ring without the header of the record, which begins with the bytes of
-- the record themselves.
pub pop-too_small :
    (s : Capture) (r : List ℕ) (records : List (List ℕ)) (buffer_size : ℕ)
    → Holds s (r ∷ records)
    → buffer_size < length r
    → (s' : Capture) × (pop true buffer_size s ≡ ok (too_small s.dropped, s'))
      × (content s'.queue ≡ r ++ encode records)
unfolding pop pop_record
pop-too_small s r records buffer_size h large =
    let (header, body, size) = header_lem s r records h in
    let (q, run, v, e, used) = pop_header s r records h in
    let full : ltb s.queue.used 4 ≡ false = ground (arith, size) in
    let n : bytes_length (length_bytes (length r)) ≡ length r =
      bytes_length-length_bytes (length r) (omega (arith, h.are_records.1)) in
    let test : (ltb buffer_size (length r) || ltb q.used (length r)) ≡ true =
      ground (arith, large) in
    (record s { queue = q; dropped = 0 }, rw (full, run, n, test) refl, e)
