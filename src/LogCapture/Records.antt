-- ===== src/LogCapture/Records.antt =====
-- Records in the ring: a length of four bytes, then the bytes. The loop of a capture.
use darktide_mods.Base.{
  ℕ, zero, suc, ◌+◌, ◌-◌, ◌*◌, ◌^◌, ◌≤◌, ◌<◌, ◌≡◌, ◌≢◌, refl, sym, ap, ◌∙◌, ◌⊎◌, inl, inr, arith,
  false, List, [], ◌∷◌, ◌++◌, append_assoc, append-nil, ◌==◌, length, length-take, length-drop,
  take-append-drop, take, drop, ok, ◌>>=◌, dec_lt, ℕ_discrete,
}
use darktide_mods.LogCapture.{
  Queue, raw_queue_bytes, raw_record_bytes, sub32, length_bytes, bytes_length, queue_copy_in,
  record_size, capture_records,
}
use darktide_mods.LogCapture.Copy.{queue_copy_in-Appended}
use darktide_mods.LogCapture.Ring.{content, IsQueue}

-- The bytes of the records, the oldest first.
abbrev pub encode : List (List ℕ) → List ℕ
encode [] = []
encode (r ∷ records) = length_bytes (length r) ++ (r ++ encode records)

abbrev pub concat : List (List ℕ) → List ℕ
concat [] = []
concat (r ∷ records) = r ++ concat records

-- Every record has a byte, and at most 64 KiB.
abbrev pub AreRecords : List (List ℕ) → Type 0
AreRecords [] = Unit {0}
AreRecords (r ∷ records) = (0 < length r) × (length r ≤ raw_record_bytes) × AreRecords records

pub encode-append : (xs ys : List (List ℕ)) → encode (xs ++ ys) ≡ encode xs ++ encode ys
encode-append [] ys = refl
encode-append (x ∷ xs) ys =
    rw (encode-append xs ys)
      (sym (append_assoc_twice (length_bytes (length x)) x (encode xs) (encode ys)))
  where
    append_assoc_twice : (a b c d : List ℕ) → (a ++ (b ++ c)) ++ d ≡ a ++ (b ++ (c ++ d))
    append_assoc_twice a b c d = append_assoc a (b ++ c) d ∙ ap (λ t. a ++ t) (append_assoc b c d)

pub AreRecords-append :
    (xs ys : List (List ℕ)) → AreRecords xs → AreRecords ys → AreRecords (xs ++ ys)
AreRecords-append [] ys vx vy = vy
AreRecords-append (x ∷ xs) ys vx vy = (vx.0, vx.1, AreRecords-append xs ys vx.2 vy)

pub bytes_length-length_bytes : (n : ℕ) → n < 2 ^ 32 → bytes_length (length_bytes n) ≡ n
unfolding bytes_length length_bytes
bytes_length-length_bytes n h = omega arith

pub length-length_bytes : (n : ℕ) → length (length_bytes n) ≡ 4
unfolding length_bytes
length-length_bytes n = refl

take-length_bytes : (n : ℕ) → take 4 (length_bytes n) ≡ length_bytes n
unfolding length_bytes
take-length_bytes n = refl

-- What a capture leaves in the ring.
pub record Captured (q : Queue) (records : List (List ℕ)) (source : List ℕ) (after : Queue)
    : Type 0 where
  pub valid : IsQueue after
  pub added : List (List ℕ)
  pub are_records : AreRecords added
  pub content_eq : content after ≡ encode (records ++ added)
  pub source_eq : concat added ≡ source

-- One record more.
one_record :
    (q : Queue) (records : List (List ℕ)) (cursor : List ℕ) (n : ℕ)
    → IsQueue q
    → content q ≡ encode records
    → n ≤ length cursor
    → n ≤ raw_record_bytes
    → q.used + 4 + n ≤ raw_queue_bytes
    → (r : Queue) × ((queue_copy_in (length_bytes n) 4 q >>= queue_copy_in cursor n) ≡ ok r)
      × IsQueue r
      × (content r ≡ encode (records ++ take n cursor ∷ []))
      × (r.used ≡ q.used + 4 + n)
one_record q records cursor n v e given small room =
    let (q1, run1, a1) =
      queue_copy_in-Appended q (length_bytes n) 4 v (omega (arith, length-length_bytes n))
        (omega arith) in
    let u1 : q1.used ≡ q.used + 4 =
      omega (arith, a1.used_eq, ap length (take-length_bytes n), length-length_bytes n) in
    let (q2, run2, a2) = queue_copy_in-Appended q1 cursor n a1.valid given (omega arith) in
    let size : length (take n cursor) ≡ n = omega (arith, length-take n cursor) in
    let before : content q1 ≡ encode records ++ length_bytes n =
      a1.content_eq
      ∙ ap (λ b. content q ++ b) (take-length_bytes n)
      ∙ ap (λ c. c ++ length_bytes n) e in
    let text : content q2 ≡ encode (records ++ take n cursor ∷ []) =
      a2.content_eq
      ∙ ap (λ c. c ++ take n cursor) before
      ∙ append_assoc (encode records) (length_bytes n) (take n cursor)
      ∙ ap (λ m. encode records ++ (length_bytes m ++ take n cursor)) (sym size)
      ∙ ap (λ u. encode records ++ (length_bytes (length (take n cursor)) ++ u))
          (sym (append-nil (take n cursor)))
      ∙ sym (encode-append records (take n cursor ∷ [])) in
    (q2, rw run1 run2, a2.valid, text, omega (arith, a2.used_eq, u1, size))

nil_of_length : (xs : List ℕ) → length xs ≡ 0 → xs ≡ []
nil_of_length [] e = refl
nil_of_length (x ∷ xs) e = absurd (omega (arith, e))

record_size_lem :
    (remaining : ℕ)
    → 0 < remaining
    → (0 < record_size remaining)
      × (record_size remaining ≤ remaining)
      × (record_size remaining ≤ raw_record_bytes)
      × ((record_size remaining ≡ remaining) ⊎ (record_size remaining ≡ raw_record_bytes))
unfolding record_size
record_size_lem remaining h = elim (dec_lt raw_record_bytes remaining) [
  | yes long ↦
      let e : record_size remaining ≡ raw_record_bytes = ground arith in
      (omega (arith, e), omega (arith, e), omega (arith, e), inr e)
  | no short ↦
      let e : record_size remaining ≡ remaining = ground arith in
      (omega (arith, e), omega (arith, e), omega (arith, e), inl e)
]

-- The end of the loop.
none_left :
    (q : Queue) (records : List (List ℕ)) (cursor : List ℕ)
    → IsQueue q
    → content q ≡ encode records
    → length cursor ≡ 0
    → Captured q records cursor q
none_left q records cursor v e zero_left = record {
  valid = v;
  added = [];
  are_records = tt;
  content_eq = e ∙ ap encode (sym (append-nil records));
  source_eq = sym (nil_of_length cursor zero_left);
}

-- A round of the loop.
one_round :
    (fuel : ℕ) (cursor : List ℕ) (remaining : ℕ) (q q1 q2 : Queue)
    → remaining ≢ 0
    → remaining < 2 ^ 32
    → record_size remaining ≤ remaining
    → (queue_copy_in (length_bytes (record_size remaining)) 4 q
        >>= queue_copy_in cursor (record_size remaining))
      ≡ ok q1
    → capture_records fuel
        (drop (record_size remaining) cursor)
        (remaining - record_size remaining)
        q1
      ≡ ok q2
    → capture_records (suc fuel) cursor remaining q ≡ ok q2
unfolding capture_records
one_round fuel cursor remaining q q1 q2 more narrow small run1 run2 =
    let nonzero : (remaining == 0) ≡ false = ground (arith, more) in
    let left : sub32 remaining (record_size remaining) ≡ remaining - record_size remaining =
      omega (arith, small, narrow) in
    rw (nonzero, run1, left) run2

one_more :
    (q q1 q2 : Queue) (records : List (List ℕ)) (cursor : List ℕ) (n : ℕ)
    → 0 < n
    → n ≤ length cursor
    → n ≤ raw_record_bytes
    → Captured q1 (records ++ take n cursor ∷ []) (drop n cursor) q2
    → Captured q records cursor q2
one_more q q1 q2 records cursor n some_left enough small c = record {
  valid = c.valid;
  added = take n cursor ∷ c.added;
  are_records =
      (omega (arith, length-take n cursor), omega (arith, length-take n cursor), c.are_records);
  content_eq = c.content_eq ∙ ap encode (append_assoc records (take n cursor ∷ []) c.added);
  source_eq = ap (λ t. take n cursor ++ t) c.source_eq ∙ take-append-drop n cursor;
}

pub capture_records-Captured :
    (fuel : ℕ) (cursor : List ℕ) (remaining : ℕ) (q : Queue) (records : List (List ℕ))
    → IsQueue q
    → content q ≡ encode records
    → remaining ≡ length cursor
    → remaining ≤ fuel * raw_record_bytes
    → q.used + remaining + fuel * 4 ≤ raw_queue_bytes
    → (r : Queue) × (capture_records fuel cursor remaining q ≡ ok r) × Captured q records cursor r
unfolding capture_records
capture_records-Captured zero cursor remaining q records v e full enough room =
    (q, ground (arith, enough), none_left q records cursor v e (omega (arith, full, enough)))
capture_records-Captured (suc fuel) cursor remaining q records v e full enough room =
    elim (ℕ_discrete remaining 0) [
      | yes finished ↦ (
        q,
        ground (arith, finished),
        none_left q records cursor v e (omega (arith, full, finished)),
      )
      | no more ↦
          let n = record_size remaining in
          let size = record_size_lem remaining (omega (arith, more)) in
          let (q1, run1, v1, e1, u1) =
            one_record q records cursor n v e (omega (arith, size, full)) (omega (arith, size))
              (omega (arith, size, room)) in
          let (q2, run2, c) =
            capture_records-Captured fuel (drop n cursor) (remaining - n) q1
              (records ++ take n cursor ∷ []) v1 e1 (omega (arith, length-drop n cursor, full))
              (omega (arith, size, enough)) (omega (arith, u1, room, size)) in
          (
            q2,
            one_round fuel cursor remaining q q1 q2 more (omega (arith, room)) (omega (arith, size))
                run1 run2,
            one_more q q1 q2 records cursor n (omega (arith, size)) (omega (arith, size, full))
                (omega (arith, size)) c,
          )
    ]
