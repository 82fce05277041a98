-- ===== src/Mapping/State/Preserve.antt =====
-- The invariant of the cell under each kind of step.
use darktide_mods.Base.{
  ℕ, zero, suc, ◌+◌, ◌-◌, ◌≤◌, ◌≡◌, ◌≢◌, refl, sym, ap, subst, ◌∙◌, ◌⊎◌, inl, inr, arith, true,
  List, some, take, get_elem?, get_elem?-set_self, get_elem?-set_ne, lt-of_get_elem?, ℕ_discrete,
}
use darktide_mods.Mapping.State.{
  answered, begin_on_cell, ready_on_cell, fail_step, compare_exchange, FailStage, reading, claiming,
  writing, finishing, returned,
}
use darktide_mods.Mapping.State.Coherent.{Knows, IsCoherent, Moved, fail_step-Moved}
use darktide_mods.Mapping.State.World.{
  FailThread, World, Step, begin, mark_ready, call_fail, move, Steps, stay, step, after_begin,
  after_ready, after_call, after_move, acquisitions, held_by, own, owners-set, owners_one,
  owners_two,
}
use darktide_mods.Mapping.Types.{
  MappingCell, pending, finalizing, ready, failed, failing, mapping_error_size,
}

-- A change of the cell that leaves the error alone leaves what the threads know alone.
Knows-error : (t : FailThread) (c c' : MappingCell) → c'.error ≡ c.error → Knows t c → Knows t c'
Knows-error t c c' e k = go t.stage k
  where
    go :
        (stage : FailStage)
        → Knows (record t { stage = stage }) c
        → Knows (record t { stage = stage }) c'
    go reading k = tt
    go (claiming x) k = k
    go (writing n) k = ap (take n) e ∙ k
    go finishing k = e ∙ k
    go returned k = tt

Knows-unowned : (t : FailThread) (c c' : MappingCell) → own t.stage ≡ 0 → Knows t c → Knows t c'
Knows-unowned t c c' e k = go t.stage e k
  where
    go :
        (stage : FailStage)
        → own stage ≡ 0
        → Knows (record t { stage = stage }) c
        → Knows (record t { stage = stage }) c'
    go reading e k = tt
    go (claiming x) e k = k
    go (writing n) e k = absurd (omega (arith, e))
    go finishing e k = absurd (omega (arith, e))
    go returned e k = tt

-- Another state, with the same error.
recell :
    (w : World) (c : MappingCell) (n : ℕ)
    → IsCoherent w
    → c.error ≡ w.cell.error
    → c.state ≤ 4
    → held_by c ≡ held_by w.cell
    → (c.state ≡ failed → w.cell.state ≡ failed)
    → n ≤ 1
    → (c.state ≡ pending → n ≡ 0)
    → IsCoherent (record w { cell = c; acquired = n })
recell w c n v same small held was once un = record {
  state = small;
  owned = v.owned ∙ sym held;
  known = λ i t e. Knows-error t w.cell c same (v.known i t e);
  explained = λ e. let (i, t, at, text) = v.explained (was e) in (i, t, at, same ∙ text);
  once = once;
  unacquired = un;
}

-- The two things that an exchange of a state can do.
pub begin_cases :
    (c : MappingCell)
    → ((c.state ≡ pending) × (begin_on_cell c ≡ (answered true, record c { state = finalizing })))
      ⊎ ((c.state ≢ pending) × (acquisitions (begin_on_cell c).0 ≡ 0) × ((begin_on_cell c).1 ≡ c))
unfolding begin_on_cell compare_exchange
begin_cases c = elim (ℕ_discrete c.state pending) [
  | yes same ↦ inl (same, ground arith)
  | no other ↦ inr (other, ground arith, ground arith)
]

pub ready_cases :
    (c : MappingCell)
    → ((c.state ≡ finalizing) × (ready_on_cell c ≡ record c { state = ready }))
      ⊎ (ready_on_cell c ≡ c)
unfolding ready_on_cell compare_exchange
ready_cases c = elim (ℕ_discrete c.state finalizing) [
  | yes same ↦ inl (same, ground arith)
  | no other ↦ inr (ground arith)
]

begin-IsCoherent : (w : World) → IsCoherent w → IsCoherent (after_begin w)
begin-IsCoherent w v = elim (begin_cases w.cell) [
  | inl (same, e) ↦
      subst (λ p. IsCoherent (record w { cell = p.1; acquired = w.acquired + acquisitions p.0 }))
        (sym e)
        (recell w (record w.cell { state = finalizing }) (w.acquired + 1) v refl (omega arith)
          (ground (arith, same)) (λ h. absurd (omega (arith, h))) (omega (arith, v.unacquired same))
          (λ h. absurd (omega (arith, h))))
  | inr (other, none_more, e) ↦
      recell w (begin_on_cell w.cell).1 _ v (ap (λ (c : MappingCell). c.error) e) (rw e v.state)
        (rw e refl) (λ h. sym (ap (λ (c : MappingCell). c.state) e) ∙ h)
        (omega (arith, none_more, v.once))
        (λ h. absurd (other (sym (ap (λ (c : MappingCell). c.state) e) ∙ h)))
]

ready-IsCoherent : (w : World) → IsCoherent w → IsCoherent (after_ready w)
ready-IsCoherent w v = elim (ready_cases w.cell) [
  | inl (same, e) ↦
      subst (λ c. IsCoherent (record w { cell = c })) (sym e)
        (recell w (record w.cell { state = ready }) w.acquired v refl (omega arith)
          (ground (arith, same)) (λ h. absurd (omega (arith, h))) v.once
          (λ h. absurd (omega (arith, h))))
  | inr e ↦ subst (λ c. IsCoherent (record w { cell = c })) (sym e) v
]

call-IsCoherent : (w : World) (message : List ℕ) → IsCoherent w → IsCoherent (after_call message w)
call-IsCoherent w message v = record {
  state = v.state;
  owned = omega (arith, v.owned);
  known = known;
  explained = λ e. let (i, t, at, same) = v.explained e in (suc i, t, at, same);
  once = v.once;
  unacquired = v.unacquired;
}
  where
    known :
        (i : ℕ) (t : FailThread)
        → get_elem? (after_call message w).threads i ≡ some t
        → Knows t w.cell
    known zero t e =
        let same : record { message = message; stage = reading } ≡ t = cc e in
        subst (λ u. Knows u w.cell) same tt
    known (suc i) t e = v.known i t e

move-IsCoherent :
    (w : World) (i : ℕ) (t : FailThread)
    → get_elem? w.threads i ≡ some t
    → IsCoherent w
    → IsCoherent (after_move i t w)
move-IsCoherent w i t at v = record {
  state = m.small;
  owned = omega (arith, m.balance, owners-set w.threads i t t' at, v.owned);
  known = known;
  explained = explained;
  once = v.once;
  unacquired = λ e. v.unacquired (m.pending_kept e);
}
  where
    stage : FailStage
    stage = (fail_step t.message t.stage w.cell).0

    cell : MappingCell
    cell = (fail_step t.message t.stage w.cell).1

    t' : FailThread
    t' = record t { stage = stage }

    held : own t.stage ≡ 1 → w.cell.state ≡ failing
    held e = ground (arith, owners_one w.threads i t at, v.owned, e)

    m : Moved t w.cell stage cell
    m = fail_step-Moved t.message t.stage w.cell v.state (v.known i t at) held

    known :
        (j : ℕ) (u : FailThread) → get_elem? (after_move i t w).threads j ≡ some u → Knows u cell
    known j u e = elim (ℕ_discrete i j) [
      | yes same ↦
          let new : u ≡ t' =
            cc (e, same, get_elem?-set_self w.threads i t' (lt-of_get_elem? w.threads i t at)) in
          subst (λ x. Knows x cell) (sym new) m.knows
      | no other ↦
          let old : get_elem? w.threads j ≡ some u =
            cc (e, get_elem?-set_ne w.threads i j t' other) in
          elim (ℕ_discrete (own t.stage) 0) [
            | yes idle ↦ Knows-error u w.cell cell (m.error_kept idle) (v.known j u old)
            | no busy ↦
                Knows-unowned u w.cell cell
                  (ground (arith, owners_two w.threads i j t u at old other, v.owned))
                  (v.known j u old)
          ]
    ]

    explained :
        cell.state ≡ failed
        → (j : ℕ) × (u : FailThread) × (get_elem? (after_move i t w).threads j ≡ some u)
          × (cell.error ≡ take (mapping_error_size - 1) u.message)
    explained e = elim (m.explained e) [
      | inr text ↦
          (i, t', get_elem?-set_self w.threads i t' (lt-of_get_elem? w.threads i t at), text)
      | inl (was, kept) ↦
          let (j, u, at_j, text) = v.explained was in
          elim (ℕ_discrete i j) [
            | yes same ↦
                let new : u ≡ t = cc (at, at_j, same) in
                (
                  i,
                  t',
                  get_elem?-set_self w.threads i t' (lt-of_get_elem? w.threads i t at),
                  kept
                      ∙ text
                      ∙ ap (λ (x : FailThread). take (mapping_error_size - 1) x.message) new,
                )
            | no other ↦ (j, u, get_elem?-set_ne w.threads i j t' other ∙ at_j, kept ∙ text)
          ]
    ]

Step-IsCoherent : {w w' : World} → Step w w' → IsCoherent w → IsCoherent w'
Step-IsCoherent (begin w) v = begin-IsCoherent w v
Step-IsCoherent (mark_ready w) v = ready-IsCoherent w v
Step-IsCoherent (call_fail w message) v = call-IsCoherent w message v
Step-IsCoherent (move w i t at) v = move-IsCoherent w i t at v

pub Steps-IsCoherent : {w w' : World} → Steps w w' → IsCoherent w → IsCoherent w'
Steps-IsCoherent (stay w) v = v
Steps-IsCoherent (step u x w before last) v = Step-IsCoherent last (Steps-IsCoherent before v)
