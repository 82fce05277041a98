-- ===== src/LogCapture/Tests.antt =====
-- Rings with and without a record, and the inputs at which the theorems are applied.
use darktide_mods.Base.{
  ℕ, ◌+◌, ◌≡◌, ◌∙◌, refl, arith, true, List, [], ◌∷◌, ◌++◌, some, replicate, length-replicate, ok,
}
use darktide_mods.LogCapture.{
  Capture, too_small, popped, raw_queue_bytes, length_bytes, capture_bytes, pop,
}
use darktide_mods.LogCapture.Records.{encode}
use darktide_mods.LogCapture.Refine.{
  Holds, AddsOrDrops, capture_bytes-Adds, pop-first, pop-too_small,
}
use darktide_mods.LogCapture.Ring.{content}

abbrev ring_of : List ℕ → ℕ → Capture
ring_of raw used = record {
  queue = record { raw = raw; read = 0; write = used; used = used };
  dropped = 5;
  enabled = true;
}

no_records-Holds : (n : ℕ) → n ≡ raw_queue_bytes → Holds (ring_of (replicate {A = ℕ} n 0) 0) []
no_records-Holds n e = record {
  valid = record {
    size = length-replicate {A = ℕ} n 0 ∙ e;
    read = omega arith;
    used = omega arith;
    write = refl;
  };
  are_records = tt;
  content_eq = refl;
}

abbrev no_records : Capture
no_records = ring_of (replicate {A = ℕ} raw_queue_bytes 0) 0

capture_bytes-Adds_example :
    (r : Capture) × (capture_bytes true (some (7 ∷ 8 ∷ [])) 2 no_records ≡ ok r)
    × AddsOrDrops true no_records [] (7 ∷ 8 ∷ []) r
capture_bytes-Adds_example =
    capture_bytes-Adds true (7 ∷ 8 ∷ []) no_records [] (no_records-Holds raw_queue_bytes refl) refl
      (omega arith) (omega arith)

-- One record of three bytes.
one_record-Holds :
    (n : ℕ)
    → n + 7 ≡ raw_queue_bytes
    → Holds (ring_of (3 ∷ 0 ∷ 0 ∷ 0 ∷ 7 ∷ 8 ∷ 9 ∷ replicate {A = ℕ} n 0) 7) ((7 ∷ 8 ∷ 9 ∷ []) ∷ [])
unfolding length_bytes
one_record-Holds n e = record {
  valid = record {
    size = omega (arith, length-replicate {A = ℕ} n 0, e);
    read = omega arith;
    used = omega arith;
    write = refl;
  };
  are_records = (omega arith, omega arith, tt);
  content_eq = refl;
}

abbrev one_record : Capture
one_record = ring_of (3 ∷ 0 ∷ 0 ∷ 0 ∷ 7 ∷ 8 ∷ 9 ∷ replicate {A = ℕ} 524281 0) 7

pop-first_example :
    (s' : Capture) × (pop true 64 one_record ≡ ok (popped (7 ∷ 8 ∷ 9 ∷ []) 5, s'))
    × Holds s' []
    × (s'.dropped ≡ 0)
pop-first_example =
    pop-first one_record (7 ∷ 8 ∷ 9 ∷ []) [] 64 (one_record-Holds 524281 refl) (omega arith)

pop-too_small_example :
    (s' : Capture) × (pop true 2 one_record ≡ ok (too_small 5, s'))
    × (content s'.queue ≡ (7 ∷ 8 ∷ 9 ∷ []) ++ encode [])
pop-too_small_example =
    pop-too_small one_record (7 ∷ 8 ∷ 9 ∷ []) [] 2 (one_record-Holds 524281 refl) (omega arith)
