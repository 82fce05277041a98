-- ===== src/Mapping/State.antt =====
-- mapping/state.c: the life of a mapping, PENDING, FINALIZING, READY and, from each of these,
-- FAILING and FAILED. Threads share the cell of a mapping and change it by interlocked operations.
-- `sa_fail_resource` is cut at its interlocked operations and at each byte that it writes into the
-- error, the other calls have one interlocked operation each.
pub mod Write
pub mod Thread
pub mod World
pub mod Coherent
pub mod Preserve
pub mod Safety
use darktide_mods.Base.{
  ℕ, zero, suc, ◌-◌, Bool, true, false, not, ◌&&◌, ◌||◌, List, [], ◌∷◌, Option, none, some,
  if◌then◌else◌, ◌==◌, bytes_eq, length, take, set, get_elem?, get_or, Run, ok, fault, out_of_fuel,
  ◌>>=◌, load,
}
use darktide_mods.Mapping.Index.{find_mapping}
use darktide_mods.Mapping.Registry.{Registry}
use darktide_mods.Mapping.Types.{
  Mapping, MappingCell, pending, finalizing, ready, failed, failing, mapping_error_size,
}

-- The error messages, in the order of the code. `loading_failed` is the message of the resource, or
-- the general one where that is empty.
pub data StateError : Type 0 where
  null_pointer : StateError
  not_mapped : StateError
  loading_failed : List ℕ → StateError
  invalid_state : StateError

-- A return of 0 with its message, or of 1 with the value behind the result pointer.
pub data StateResult : Type 0 where
  refused : StateError → StateResult
  answered : Bool → StateResult

-- `InterlockedCompareExchange`: the state before, and the cell after.
unfoldable pub compare_exchange : ℕ → ℕ → MappingCell → ℕ × MappingCell
compare_exchange exchange comparand c =
    (c.state, (if c.state == comparand then record c { state = exchange } else c))

-- A load: both numbers are 0.
unfoldable pub read_state : MappingCell → ℕ
unfolding compare_exchange
read_state c = (compare_exchange 0 0 c).0

unfoldable pub state_of_cell : MappingCell → StateResult
unfolding read_state
state_of_cell c =
    if read_state c == failed
    then refused (loading_failed c.error)
    else answered (read_state c == ready)

-- `pointer` says whether the result pointer is not NULL.
unfoldable pub resource_mapping_state : Registry → ℕ → ℕ → List ℕ → List ℕ → Bool → Run StateResult
resource_mapping_state s type_hash resource_hash type_name resource_name pointer =
    find_mapping s.index type_hash resource_hash >>= λ found.
    if not pointer then ok (refused null_pointer) else elim found [
      | none ↦ ok (refused not_mapped)
      | some m ↦
          if not (bytes_eq m.type_name type_name) || not (bytes_eq m.resource_name resource_name)
          then ok (refused not_mapped)
          else load s.cells m.cell >>= (λ c. ok (state_of_cell c))
    ]

unfoldable pub begin_on_cell : MappingCell → StateResult × MappingCell
unfolding compare_exchange
begin_on_cell c =
    let (previous_state, after) = compare_exchange finalizing pending c in
    if previous_state == pending
    then (answered true, after)
    else if previous_state == finalizing || previous_state == ready || previous_state == failing
    then (answered false, after)
    else if previous_state == failed
    then (refused (loading_failed after.error), after)
    else (refused invalid_state, after)

unfoldable pub begin_resource_finalization : Registry → ℕ → ℕ → Bool → Run (StateResult × Registry)
begin_resource_finalization s type_hash resource_hash pointer =
    find_mapping s.index type_hash resource_hash >>= λ found.
    if not pointer then ok (refused null_pointer, s) else elim found [
      | none ↦ ok (refused not_mapped, s)
      | some m ↦ load s.cells m.cell >>= λ c.
          let (answer, after) = begin_on_cell c in
          ok (answer, record s { cells = set s.cells m.cell after })
    ]

unfoldable pub ready_on_cell : MappingCell → MappingCell
unfolding compare_exchange
ready_on_cell c = (compare_exchange ready finalizing c).1

unfoldable pub mark_resource_ready : Registry → ℕ → ℕ → Run Registry
mark_resource_ready s type_hash resource_hash =
    find_mapping s.index type_hash resource_hash >>= λ found. elim found [
      | none ↦ ok s
      | some m ↦ load s.cells m.cell >>= λ c.
          ok (record s { cells = set s.cells m.cell (ready_on_cell c) })
    ]

-- Where a thread stands in `sa_fail_resource`: before the load, before the exchange with the state
-- it has read, before the write of a byte of the error, before the last exchange, and after the
-- return.
pub data FailStage : Type 0 where
  reading : FailStage
  claiming : ℕ → FailStage
  writing : ℕ → FailStage
  finishing : FailStage
  returned : FailStage

-- A byte goes to a place in the error, seen as the string in its buffer, which is zeroed when it is
-- allocated: a byte after the NUL is not seen, and one on the NUL makes the string longer.
unfoldable pub put_byte : List ℕ → ℕ → ℕ → List ℕ
put_byte [] zero b = b ∷ []
put_byte [] (suc k) b = []
put_byte (x ∷ xs) zero b = b ∷ xs
put_byte (x ∷ xs) (suc k) b = x ∷ put_byte xs k b

-- What of a message fits the error with its NUL.
abbrev pub error_text : List ℕ → List ℕ
error_text message = take (mapping_error_size - 1) message

-- A step of `vsnprintf`: the byte at a place, or the NUL after the last one.
unfoldable pub write_step : List ℕ → ℕ → MappingCell → FailStage × MappingCell
unfolding put_byte
write_step message k c = elim (get_elem? (error_text message) k) [
  | some b ↦ (writing (suc k), record c { error = put_byte c.error k b })
  | none ↦ (finishing, record c { error = take k c.error })
]

-- `message` is what the format and its arguments make.
unfoldable pub fail_step : List ℕ → FailStage → MappingCell → FailStage × MappingCell
unfolding compare_exchange read_state write_step
fail_step message reading c =
    let state = read_state c in
    if state == failed || state == failing
    then (returned, c)
    else if not (state == pending) && not (state == finalizing) && not (state == ready)
    then (returned, c)
    else (claiming state, c)
fail_step message (claiming state) c =
    let (previous_state, after) = compare_exchange failing state c in
    if previous_state == state then (writing 0, after) else (reading, after)
fail_step message (writing k) c = write_step message k c
fail_step message finishing c = (returned, record c { state = failed })
fail_step message returned c = (returned, c)

unfoldable pub is_returned : FailStage → Bool
is_returned reading = false
is_returned (claiming state) = false
is_returned (writing k) = false
is_returned finishing = false
is_returned returned = true

-- The whole call of one thread that nothing interrupts.
unfoldable pub fail_alone : ℕ → List ℕ → FailStage → MappingCell → Run MappingCell
fail_alone zero message stage c = if is_returned stage then ok c else fault out_of_fuel
fail_alone (suc fuel) message stage c =
    fail_alone fuel message (fail_step message stage c).0 (fail_step message stage c).1

-- Enough steps for a thread that nothing interrupts: four, and one for each byte of the error.
abbrev pub fail_steps : List ℕ → ℕ
fail_steps message = suc (suc (suc (suc (length (error_text message)))))

unfoldable pub fail_resource : Registry → ℕ → ℕ → List ℕ → Run Registry
fail_resource s type_hash resource_hash message =
    find_mapping s.index type_hash resource_hash >>= λ found. elim found [
      | none ↦ ok s
      | some m ↦ load s.cells m.cell >>= λ c.
          fail_alone (fail_steps message) message reading c >>= λ after.
          ok (record s { cells = set s.cells m.cell after })
    ]
