-- ===== src/Mapping/State/Safety.antt =====
-- What holds of one cell whatever the threads do and in whatever order.
use darktide_mods.Base.{
  ℕ, ◌-◌, ◌≤◌, ◌≡◌, refl, ap, ◌∙◌, inl, inr, arith, [], some, take, get_elem?, ℕ_discrete,
}
use darktide_mods.Mapping.State.Coherent.{IsCoherent, fail_step-Moved}
use darktide_mods.Mapping.State.World.{
  FailThread, World, Step, begin, mark_ready, call_fail, move, Steps, stay, step, own, owners_one,
  owners_two,
}
use darktide_mods.Mapping.Types.{MappingCell, pending, failed, mapping_error_size}
use darktide_mods.Mapping.State.Preserve.{Steps-IsCoherent, begin_cases, ready_cases}

-- A fresh cell, which nobody has touched.
abbrev pub fresh_world : World
fresh_world = record { cell = record { state = pending; error = [] }; threads = []; acquired = 0 }

fresh-IsCoherent : IsCoherent fresh_world
fresh-IsCoherent = record {
  state = omega arith;
  owned = refl;
  known = λ i t e. absurd (cc e);
  explained = λ e. absurd (omega (arith, e));
  once = omega arith;
  unacquired = λ e. refl;
}

-- After any sequence of steps of any threads on a fresh cell, at most one call of
-- `sa_begin_resource_finalization` has set `*acquired`.
pub acquired_once : (w : World) → Steps fresh_world w → w.acquired ≤ 1
acquired_once w path = (Steps-IsCoherent path fresh-IsCoherent).once

-- Whenever the state of a cell that was fresh is FAILED, after any sequence of steps of any
-- threads, in which each byte of an error is written by a step of its own, its error is the
-- first 511 bytes of the message of one of the calls of `sa_fail_resource`, complete and
-- unmixed.
pub failed_explained :
    (w : World)
    → Steps fresh_world w
    → w.cell.state ≡ failed
    → (i : ℕ) × (t : FailThread) × (get_elem? w.threads i ≡ some t)
      × (w.cell.error ≡ take (mapping_error_size - 1) t.message)
failed_explained w path e = (Steps-IsCoherent path fresh-IsCoherent).explained e

-- After any sequence of steps on a fresh cell, two calls of `sa_fail_resource` that are both
-- between the winning exchange and the last exchange are the same call: the error has one
-- writer.
pub one_writer :
    (w : World) (i j : ℕ) (t u : FailThread)
    → Steps fresh_world w
    → get_elem? w.threads i ≡ some t
    → get_elem? w.threads j ≡ some u
    → own t.stage ≡ 1
    → own u.stage ≡ 1
    → i ≡ j
one_writer w i j t u path at_i at_j ti uj = elim (ℕ_discrete i j) [
  | yes same ↦ same
  | no other ↦
      let v = Steps-IsCoherent path fresh-IsCoherent in
      absurd (ground (arith, owners_two w.threads i j t u at_i at_j other, v.owned))
]

Step-failed : {w w' : World} → Step w w' → IsCoherent w → w.cell.state ≡ failed → w'.cell ≡ w.cell
Step-failed (begin w) v e = elim (begin_cases w.cell) [
  | inl (other, h) ↦ absurd (omega (arith, e, other))
  | inr (other, none_more, same) ↦ same
]
Step-failed (mark_ready w) v e = elim (ready_cases w.cell) [
  | inl (other, h) ↦ absurd (omega (arith, e, other))
  | inr same ↦ same
]
Step-failed (call_fail w message) v e = refl
Step-failed (move w i t at) v e =
    (fail_step-Moved t.message t.stage w.cell v.state (v.known i t at)
        (λ own_it. ground (arith, owners_one w.threads i t at, v.owned, own_it))).final
      e

Steps-failed : {w w' : World} → Steps w w' → IsCoherent w → w.cell.state ≡ failed → w'.cell ≡ w.cell
Steps-failed (stay w) v e = refl
Steps-failed (step u x w before last) v e =
    let same = Steps-failed before v e in
    Step-failed last (Steps-IsCoherent before v) (ap (λ (c : MappingCell). c.state) same ∙ e) ∙ same

-- A cell that has reached the state FAILED from a fresh one keeps its state and its error
-- through any further steps of any threads.
pub failed_final :
    (w w' : World) → Steps fresh_world w → Steps w w' → w.cell.state ≡ failed → w'.cell ≡ w.cell
failed_final w w' path later e = Steps-failed later (Steps-IsCoherent path fresh-IsCoherent) e
