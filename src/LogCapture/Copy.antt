-- ===== src/LogCapture/Copy.antt =====
-- `queue_copy_in` and `queue_copy_out` on the ring as a list.
use darktide_mods.Base.{
  ℕ, ◌+◌, ◌-◌, ◌%◌, ◌≤◌, ◌<◌, ◌≡◌, refl, sym, ap, ◌∙◌, ◌⊎◌, inl, inr, arith, false, List, ◌++◌,
  if◌then◌else◌, ltb, length, length-append, length-take, length-drop, take, drop, get_or, ok,
  dec_lt,
}
use darktide_mods.Base.Arrays.{
  length-tabulate, get_or-tabulate, get_or-append, get_or-take, get_or-drop, list_ext,
}
use darktide_mods.LogCapture.{
  Queue, raw_queue_bytes, add32, sub32, blit, store_bytes, load_bytes, first_part, queue_copy_in,
  queue_copy_out,
}
use darktide_mods.LogCapture.Ring.{slot, content, IsQueue, length-blit, get_or-blit}

-- Where the two parts of a copy end.
first_part_lem :
    (position n : ℕ)
    → position < raw_queue_bytes
    → n ≤ raw_queue_bytes
    → (first_part position n ≤ n)
      × (position + first_part position n ≤ raw_queue_bytes)
      × ((first_part position n ≡ n) ⊎ (position + first_part position n ≡ raw_queue_bytes))
unfolding first_part
first_part_lem position n small fits = elim (dec_lt n (raw_queue_bytes - position)) [
  | yes inside ↦
      let e : first_part position n ≡ n = ground arith in
      (omega (arith, e), omega (arith, e), inl e)
  | no over ↦
      let e : first_part position n ≡ raw_queue_bytes - position = ground arith in
      (omega (arith, e), omega (arith, e), inr (omega (arith, e)))
]

module _ (q : Queue) (v : IsQueue q) (source : List ℕ) (n : ℕ) (given : n ≤ length source)
    (room : q.used + n ≤ raw_queue_bytes) where
  abbrev first : ℕ
  first = first_part q.write n

  abbrev head : List ℕ
  head = blit q.raw q.write (take first source)

  abbrev written : List ℕ
  written = blit head 0 (take (n - first) (drop first source))

  abbrev after : Queue
  after = record {
    raw = written;
    read = q.read;
    write = (q.write + n) % raw_queue_bytes;
    used = q.used + n;
  }

  parts :
      (first ≤ n)
      × (q.write + first ≤ raw_queue_bytes)
      × ((first ≡ n) ⊎ (q.write + first ≡ raw_queue_bytes))
  parts = first_part_lem q.write n (omega (arith, v.write)) (omega (arith, room))

  length-first : length (take first source) ≡ first
  length-first = omega (arith, length-take first source, parts.0, given)

  length_second : length (take (n - first) (drop first source)) ≡ n - first
  length_second =
      omega (arith, length-take (n - first) (drop first source), length-drop first source, given)

  copied : queue_copy_in source n q ≡ ok after
  unfolding queue_copy_in store_bytes
  copied =
      let rest : sub32 n first ≡ n - first = omega (arith, parts, room) in
      let fits : ltb (length q.raw) (q.write + length (take first source)) ≡ false =
        ground (arith, length-first, parts, v.size) in
      let fits_too : ltb (length head) (0 + length (take (n - first) (drop first source))) ≡ false =
        ground
          (arith, length_second, length-blit q.raw q.write (take first source), room, v.size) in
      let w : add32 q.write n % raw_queue_bytes ≡ (q.write + n) % raw_queue_bytes =
        omega (arith, room, v.write) in
      let u : add32 q.used n ≡ q.used + n = omega (arith, room) in
      rw (rest, fits, fits_too, w, u) refl

  abbrev place : ℕ → ℕ
  place k = (q.read + (0 + k)) % raw_queue_bytes

  old_place :
      (k : ℕ)
      → k < q.used
      → (n - first ≤ place k) × ((place k < q.write) ⊎ (q.write + first ≤ place k))
  old_place k h = (
    omega (arith, parts, v.write, v.read, room),
    elim (dec_lt (place k) q.write) [
      | yes low ↦ inl low
      | no high ↦ inr (omega (arith, parts, v.write, v.read, room))
    ],
  )

  new_place :
      (k : ℕ)
      → q.used ≤ k
      → k < q.used + n
      → ((place k < n - first) × (first + place k ≡ k - q.used))
        ⊎ ((n - first ≤ place k)
            × (q.write ≤ place k)
            × (place k < q.write + first)
            × (place k - q.write ≡ k - q.used))
  new_place k low high = elim (dec_lt (place k) (n - first)) [
    | yes wrapped ↦ inl (wrapped, omega (arith, parts, v.write, v.read, room))
    | no straight ↦ inr (
      omega (arith, straight),
      omega (arith, parts, v.write, v.read, room),
      omega (arith, parts, v.write, v.read, room),
      omega (arith, parts, v.write, v.read, room),
    )
  ]

  -- The new ring, position by position.
  get_or-written :
      (j : ℕ)
      → get_or written j 0 ≡ (
          if ltb j (n - first)
          then get_or source (first + j) 0
          else if ltb j q.write
          then get_or q.raw j 0
          else if ltb j (q.write + first)
          then get_or source (j - q.write) 0
          else get_or q.raw j 0)
  get_or-written j =
      get_or-blit head 0 (take (n - first) (drop first source)) j
        (omega (arith, length_second, length-blit q.raw q.write (take first source), room, v.size))
      ∙ ground (
        arith,
        length-first,
        length_second,
        get_or-blit q.raw q.write (take first source) j
            (omega (arith, length-first, parts, v.size)),
        get_or-take first source (j - q.write),
        get_or-take (n - first) (drop first source) j,
        get_or-drop first source j,
      )

  after-IsQueue : IsQueue after
  after-IsQueue = record {
    size = length-blit head 0 _ ∙ length-blit q.raw q.write (take first source) ∙ v.size;
    read = v.read;
    used = room;
    write = omega (arith, v.write);
  }

  content-after : content after ≡ content q ++ take n source
  content-after =
      list_ext (content after) (content q ++ take n source) sizes
        (λ k h. at k (omega (arith, h, length-tabulate (q.used + n) (slot after) 0)))
    where
      sizes : length (content after) ≡ length (content q ++ take n source)
      sizes = omega (
        arith,
        length-tabulate (q.used + n) (slot after) 0,
        length-append (content q) (take n source),
        length-tabulate q.used (slot q) 0,
        length-take n source,
        given,
      )

      at :
          (k : ℕ)
          → k < q.used + n
          → get_or (content after) k 0 ≡ get_or (content q ++ take n source) k 0
      at k h =
          get_or-tabulate (q.used + n) (slot after) 0 k h
          ∙ get_or-written ((q.read + (0 + k)) % raw_queue_bytes)
          ∙ elim (dec_lt k q.used) [
            | yes old ↦ ground (
              arith,
              old_place k old,
              length-tabulate q.used (slot q) 0,
              get_or-tabulate q.used (slot q) 0 k old,
            )
            | no new ↦ ground (
              arith,
              new_place k (omega (arith, new)) h,
              length-tabulate q.used (slot q) 0,
              get_or-take n source (k - q.used) (omega (arith, h, new)),
            )
          ]
          ∙ sym (get_or-append (content q) (take n source) k)

-- What a copy into the ring leaves.
pub record Appended (q : Queue) (bytes : List ℕ) (after : Queue) : Type 0 where
  pub valid : IsQueue after
  pub content_eq : content after ≡ content q ++ bytes
  pub used_eq : after.used ≡ q.used + length bytes

pub queue_copy_in-Appended :
    (q : Queue) (source : List ℕ) (n : ℕ)
    → IsQueue q
    → n ≤ length source
    → q.used + n ≤ raw_queue_bytes
    → (r : Queue) × (queue_copy_in source n q ≡ ok r) × Appended q (take n source) r
queue_copy_in-Appended q source n v given room = (
  after q v source n given room,
  copied q v source n given room,
  record {
    valid = after-IsQueue q v source n given room;
    content_eq = content-after q v source n given room;
    used_eq = omega (arith, length-take n source, given);
  },
)

-- What a copy out of the ring leaves.
pub record Removed (q : Queue) (n : ℕ) (after : Queue) : Type 0 where
  pub valid : IsQueue after
  pub content_eq : content after ≡ drop n (content q)
  pub used_eq : after.used + n ≡ q.used

module _ (q : Queue) (v : IsQueue q) (n : ℕ) (enough : n ≤ q.used) where
  abbrev part : ℕ
  part = first_part q.read n

  abbrev rest : Queue
  rest = record q { read = (q.read + n) % raw_queue_bytes; used = q.used - n }

  abbrev bytes : List ℕ
  bytes = take part (drop q.read q.raw) ++ take (n - part) (drop 0 q.raw)

  out_parts :
      (part ≤ n)
      × (q.read + part ≤ raw_queue_bytes)
      × ((part ≡ n) ⊎ (q.read + part ≡ raw_queue_bytes))
  out_parts = first_part_lem q.read n v.read (omega (arith, v.used))

  removed : queue_copy_out n q ≡ ok (bytes, rest)
  unfolding queue_copy_out load_bytes
  removed =
      let left : sub32 n part ≡ n - part = omega (arith, out_parts, v.used) in
      let fits : ltb (length q.raw) (q.read + part) ≡ false = ground (arith, out_parts, v.size) in
      let fits_too : ltb (length q.raw) (0 + (n - part)) ≡ false = ground (arith, v.used, v.size) in
      let r : add32 q.read n % raw_queue_bytes ≡ (q.read + n) % raw_queue_bytes =
        omega (arith, v.read, v.used) in
      let u : sub32 q.used n ≡ q.used - n = omega (arith, v.used) in
      rw (left, fits, fits_too, r, u) refl

  length_head : length (take part (drop q.read q.raw)) ≡ part
  length_head =
      omega
        (arith, length-take part (drop q.read q.raw), length-drop q.read q.raw, out_parts, v.size)

  length-bytes_out : length bytes ≡ n
  length-bytes_out = omega (
    arith,
    length-append (take part (drop q.read q.raw)) (take (n - part) (drop 0 q.raw)),
    length_head,
    length-take (n - part) q.raw,
    out_parts,
    v.size,
    v.used,
  )

  bytes_lem : bytes ≡ take n (content q)
  bytes_lem =
      list_ext bytes (take n (content q))
        (omega
          (arith, length-bytes_out, length-take n (content q), length-tabulate q.used (slot q) 0))
        (λ k h. at k (omega (arith, h, length-bytes_out)))
    where
      at : (k : ℕ) → k < n → get_or bytes k 0 ≡ get_or (take n (content q)) k 0
      at k h =
          get_or-append (take part (drop q.read q.raw)) (take (n - part) (drop 0 q.raw)) k
          ∙ elim (dec_lt k part) [
            | yes before ↦
                let place : (q.read + (0 + k)) % raw_queue_bytes ≡ q.read + k =
                  omega (arith, out_parts) in
                ground (
                  arith,
                  length_head,
                  get_or-take part (drop q.read q.raw) k before,
                  get_or-drop q.read q.raw k,
                  ap (λ i. get_or q.raw i 0) place,
                  get_or-tabulate q.used (slot q) 0 k (omega arith),
                  get_or-take n (content q) k h,
                )
            | no past ↦
                let place : (q.read + (0 + k)) % raw_queue_bytes ≡ k - part =
                  omega (arith, out_parts, v.read, v.used) in
                ground (
                  arith,
                  length_head,
                  get_or-take (n - part) q.raw (k - part) (omega arith),
                  ap (λ i. get_or q.raw i 0) place,
                  get_or-tabulate q.used (slot q) 0 k (omega arith),
                  get_or-take n (content q) k h,
                )
          ]

  rest-IsQueue : IsQueue rest
  rest-IsQueue = record {
    size = v.size;
    read = omega arith;
    used = omega (arith, v.used);
    write = omega (arith, v.write);
  }

  content-rest : content rest ≡ drop n (content q)
  content-rest =
      list_ext (content rest) (drop n (content q))
        (omega (
          arith,
          length-tabulate (q.used - n) (slot rest) 0,
          length-drop n (content q),
          length-tabulate q.used (slot q) 0,
        ))
        (λ k h. at k (omega (arith, h, length-tabulate (q.used - n) (slot rest) 0)))
    where
      at : (k : ℕ) → k < q.used - n → get_or (content rest) k 0 ≡ get_or (drop n (content q)) k 0
      at k h =
          let place : ((q.read + n) % raw_queue_bytes + (0 + k)) % raw_queue_bytes
              ≡ (q.read + (0 + (n + k))) % raw_queue_bytes =
            omega arith in
          get_or-tabulate (q.used - n) (slot rest) 0 k h
          ∙ ap (λ i. get_or q.raw i 0) place
          ∙ sym (get_or-tabulate q.used (slot q) 0 (n + k) (omega arith))
          ∙ sym (get_or-drop n (content q) k)

pub queue_copy_out-Removed :
    (q : Queue) (n : ℕ)
    → IsQueue q
    → n ≤ q.used
    → (r : Queue) × (queue_copy_out n q ≡ ok (take n (content q), r)) × Removed q n r
queue_copy_out-Removed q n v enough = (
  rest q v n enough,
  removed q v n enough ∙ ap (λ out. ok (out, rest q v n enough)) (bytes_lem q v n enough),
  record {
    valid = rest-IsQueue q v n enough;
    content_eq = content-rest q v n enough;
    used_eq = omega arith;
  },
)
