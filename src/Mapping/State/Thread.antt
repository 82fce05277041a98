-- ===== src/Mapping/State/Thread.antt =====
-- The calls of one thread on a cell that nobody else changes.
use darktide_mods.Base.{
  ℕ, zero, suc, ◌+◌, ◌-◌, ◌≡◌, refl, ap, ◌∙◌, inl, inr, arith, Bool-cases, ◌||◌, List,
  if◌then◌else◌, ◌==◌, length, take, get_elem?-of_lt, ok,
}
use darktide_mods.Mapping.State.{
  fail_step, fail_alone, fail_steps, write_step, put_byte, error_text, is_returned, FailStage,
  reading, claiming, writing, returned, compare_exchange, read_state,
}
use darktide_mods.Mapping.State.Write.{take-put_byte, take-of_none, get_elem?-of_le}
use darktide_mods.Mapping.Types.{
  MappingCell, pending, finalizing, ready, failed, failing, mapping_error_size,
}

-- The cell after a failure: only PENDING, FINALIZING and READY become FAILED.
abbrev pub failed_cell : List ℕ → MappingCell → MappingCell
failed_cell message c =
    if c.state == pending || c.state == finalizing || c.state == ready
    then record { state = failed; error = take (mapping_error_size - 1) message }
    else c

returned-ends :
    (n : ℕ) (message : List ℕ) (c : MappingCell) → fail_alone n message returned c ≡ ok c
unfolding fail_alone fail_step is_returned
returned-ends zero message c = refl
returned-ends (suc n) message c = returned-ends n message c

-- The bytes that are left, the NUL and the last exchange.
writing-ends :
    (n k : ℕ) (message : List ℕ) (c : MappingCell)
    → length (error_text message) ≡ k + n
    → take k c.error ≡ take k (error_text message)
    → fail_alone (suc (suc n)) message (writing k) c
      ≡ ok (record { state = failed; error = error_text message })
unfolding fail_alone fail_step write_step is_returned
writing-ends zero k message c long same =
    let e = get_elem?-of_le (error_text message) k (omega (arith, long)) in
    let text : take k c.error ≡ error_text message = same ∙ take-of_none (error_text message) k e in
    rw e (ap (λ error. ok (record { state = failed; error = error })) text)
writing-ends (suc n) k message c long same =
    let (b, e) = get_elem?-of_lt (error_text message) k (omega (arith, long)) in
    rw e (
      writing-ends n (suc k) message (record c { error = put_byte c.error k b })
        (omega (arith, long)) (take-put_byte (error_text message) c.error k b same e))

-- A step of the whole call.
steps-on :
    (n : ℕ) (message : List ℕ) (stage next : FailStage) (c after : MappingCell)
    → fail_step message stage c ≡ (next, after)
    → fail_alone (suc n) message stage c ≡ fail_alone n message next after
unfolding fail_alone
steps-on n message stage next c after e =
    ap (λ (p : FailStage × MappingCell). fail_alone n message p.0 p.1) e

-- A call of `sa_fail_resource` that nothing interrupts ends within four steps and one for each
-- byte that it writes: PENDING, FINALIZING and READY become FAILED with the first 511 bytes of
-- the message as the error, and any other cell stays as it is.
pub fail_alone-ends :
    (message : List ℕ) (c : MappingCell)
    → fail_alone (fail_steps message) message reading c ≡ ok (failed_cell message c)
unfolding fail_step compare_exchange read_state
fail_alone-ends message c =
    elim (Bool-cases (c.state == pending || c.state == finalizing || c.state == ready)) [
      | inl open_state ↦ rw open_state (
          steps-on (suc (suc (suc n))) message reading (claiming c.state) c c
            (ground (arith, open_state))
          ∙ steps-on (suc (suc n)) message (claiming c.state) (writing 0) c
              (record c { state = failing }) (ground arith)
          ∙ writing-ends n 0 message (record c { state = failing }) (omega arith) refl)
      | inr closed ↦ rw closed (
          steps-on (suc (suc (suc n))) message reading returned c c (ground (arith, closed))
          ∙ returned-ends (suc (suc (suc n))) message c)
    ]
  where
    n : ℕ
    n = length (error_text message)
