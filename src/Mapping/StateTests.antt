-- ===== src/Mapping/StateTests.antt =====
-- Threads on one mapping, and the inputs at which the theorems on its life are applied.
use darktide_mods.Base.{ℕ, ◌-◌, ◌≤◌, ◌≡◌, refl, List, [], ◌∷◌, some, ok, get_elem?, take}
use darktide_mods.Mapping.State.{
  begin_on_cell, fail_step, fail_alone, fail_steps, write_step, put_byte, compare_exchange,
  read_state, reading, writing,
}
use darktide_mods.Mapping.State.Safety.{
  fresh_world, acquired_once, failed_final, failed_explained, one_writer,
}
use darktide_mods.Mapping.State.Thread.{failed_cell, fail_alone-ends}
use darktide_mods.Mapping.State.World.{
  World, FailThread, Steps, stay, step, begin, call_fail, move, after_begin, after_call, after_move,
}
use darktide_mods.Mapping.Types.{failed, mapping_error_size}

abbrev message : List ℕ
message = 110 ∷ 111 ∷ []

-- One finalization begins, and one thread fails the resource.
abbrev begun : World
begun = after_begin fresh_world

abbrev called : World
called = after_call message begun

abbrev moved : World → World
moved w = elim w.threads [ [] ↦ w | ◌∷◌ t ts ↦ after_move 0 t w ]

abbrev claimed : World
claimed = moved (moved called)

abbrev written : World
written = moved (moved claimed)

abbrev ended : World
ended = moved (moved written)

to_called : Steps fresh_world called
to_called =
    step fresh_world begun called
      (step fresh_world fresh_world begun (stay fresh_world) (begin fresh_world))
      (call_fail begun message)

to_claimed : Steps fresh_world claimed
to_claimed =
    step fresh_world (moved called) claimed
      (step fresh_world called (moved called) to_called (move called 0 _ refl))
      (move (moved called) 0 _ refl)

to_written : Steps fresh_world written
to_written =
    step fresh_world (moved claimed) written
      (step fresh_world claimed (moved claimed) to_claimed (move claimed 0 _ refl))
      (move (moved claimed) 0 _ refl)

to_ended : Steps fresh_world ended
to_ended =
    step fresh_world (moved written) ended
      (step fresh_world written (moved written) to_written (move written 0 _ refl))
      (move (moved written) 0 _ refl)

ended_state : ended.cell.state ≡ failed
unfolding begin_on_cell fail_step compare_exchange read_state write_step put_byte
ended_state = refl

acquired_once_example : ended.acquired ≤ 1
acquired_once_example = acquired_once ended to_ended

failed_final_example : (after_begin ended).cell ≡ ended.cell
failed_final_example =
    failed_final ended (after_begin ended) to_ended
      (step ended ended (after_begin ended) (stay ended) (begin ended)) ended_state

failed_explained_example :
    (i : ℕ) × (t : FailThread) × (get_elem? ended.threads i ≡ some t)
    × (ended.cell.error ≡ take (mapping_error_size - 1) t.message)
failed_explained_example = failed_explained ended to_ended ended_state

one_writer_example : ◌≡◌ {A = ℕ} 0 0
unfolding begin_on_cell fail_step compare_exchange read_state write_step put_byte
one_writer_example =
    one_writer claimed 0 0 (record { message = message; stage = writing 0 })
      (record { message = message; stage = writing 0 }) to_claimed refl refl refl refl

fail_alone-ends_example :
    fail_alone (fail_steps message) message reading ended.cell ≡ ok (failed_cell message ended.cell)
fail_alone-ends_example = fail_alone-ends message ended.cell
