-- ===== src/Mapping/State/Coherent.antt =====
-- The invariant of the threads on one cell, and what one step of a thread does to it.
use darktide_mods.Base.{
  ℕ, suc, ◌+◌, ◌-◌, ◌≤◌, ◌≡◌, refl, sym, subst, ◌∙◌, ◌⊎◌, inl, inr, arith, List, none, some,
  if◌then◌else◌, ◌==◌, take, get_elem?, Option-cases, ℕ_discrete, dec_lt,
}
use darktide_mods.Mapping.State.{
  fail_step, write_step, put_byte, error_text, compare_exchange, read_state, FailStage, reading,
  claiming, writing, finishing, returned,
}
use darktide_mods.Mapping.Types.{MappingCell, pending, failed, failing, mapping_error_size}
use darktide_mods.Mapping.State.Write.{take-put_byte, take-of_none}
use darktide_mods.Mapping.State.World.{FailThread, World, own, owners}

-- What a thread knows about the cell.
abbrev pub Knows : FailThread → MappingCell → Type 0
Knows t c = elim t.stage [
  | reading ↦ Unit
  | claiming x ↦ x ≤ 2
  | writing k ↦ take k c.error ≡ take k (error_text t.message)
  | finishing ↦ c.error ≡ take (mapping_error_size - 1) t.message
  | returned ↦ Unit
]

pub record IsCoherent (w : World) : Type 0 where
  pub state : w.cell.state ≤ 4
  pub owned : owners w.threads ≡ (if w.cell.state == failing then 1 else 0)
  pub known : (i : ℕ) (t : FailThread) → get_elem? w.threads i ≡ some t → Knows t w.cell
  pub explained :
      w.cell.state ≡ failed
      → (i : ℕ) × (t : FailThread) × (get_elem? w.threads i ≡ some t)
        × (w.cell.error ≡ take (mapping_error_size - 1) t.message)
  pub once : w.acquired ≤ 1
  pub unacquired : w.cell.state ≡ pending → w.acquired ≡ 0

-- What a step of a thread does, as the other threads see it.
pub record Moved (t : FailThread) (c : MappingCell) (stage : FailStage) (c' : MappingCell)
    : Type 0 where
  pub small : c'.state ≤ 4
  pub balance :
      (if c.state == failing then 1 else 0) + own stage
      ≡ (if c'.state == failing then 1 else 0) + own t.stage
  pub error_kept : own t.stage ≡ 0 → c'.error ≡ c.error
  pub knows : Knows (record t { stage = stage }) c'
  pub explained :
      c'.state ≡ failed
      → ((c.state ≡ failed) × (c'.error ≡ c.error))
        ⊎ (c'.error ≡ take (mapping_error_size - 1) t.message)
  pub pending_kept : c'.state ≡ pending → c.state ≡ pending
  pub final : c.state ≡ failed → c' ≡ c

fail_step_reading :
    (message : List ℕ) (c : MappingCell)
    → ((c.state ≤ 2) × (fail_step message reading c ≡ (claiming c.state, c)))
      ⊎ (fail_step message reading c ≡ (returned, c))
unfolding fail_step compare_exchange read_state
fail_step_reading message c = elim (dec_lt c.state 3) [
  | yes low ↦ inl (omega arith, ground arith)
  | no high ↦ inr (ground arith)
]

fail_step_claiming :
    (message : List ℕ) (x : ℕ) (c : MappingCell)
    → ((c.state ≡ x)
        × (fail_step message (claiming x) c ≡ (writing 0, record c { state = failing })))
      ⊎ (fail_step message (claiming x) c ≡ (reading, c))
unfolding fail_step compare_exchange
fail_step_claiming message x c = elim (ℕ_discrete c.state x) [
  | yes same ↦ inl (same, ground arith)
  | no other ↦ inr (ground arith)
]

fail_step_writing :
    (message : List ℕ) (k : ℕ) (c : MappingCell)
    → ((get_elem? (error_text message) k ≡ none)
        × (fail_step message (writing k) c ≡ (finishing, record c { error = take k c.error })))
      ⊎ ((b : ℕ) × (get_elem? (error_text message) k ≡ some b)
          × (fail_step message (writing k) c
              ≡ (writing (suc k), record c { error = put_byte c.error k b })))
unfolding fail_step write_step
fail_step_writing message k c = elim (Option-cases (get_elem? (error_text message) k)) [
  | inl e ↦ inl (e, rw e refl)
  | inr (b, e) ↦ inr (b, e, rw e refl)
]

-- A step that leaves the cell alone.
still :
    (t : FailThread) (c : MappingCell) (stage : FailStage)
    → c.state ≤ 4
    → own t.stage ≡ own stage
    → Knows (record t { stage = stage }) c
    → Moved t c stage c
still t c stage small same knows = record {
  small = small;
  balance = omega (arith, same);
  error_kept = λ e. refl;
  knows = knows;
  explained = λ e. inl (e, refl);
  pending_kept = λ e. e;
  final = λ e. refl;
}

-- A step of the owner that changes the error.
written :
    (t : FailThread) (c : MappingCell) (stage : FailStage) (error : List ℕ)
    → c.state ≡ failing
    → own stage ≡ own t.stage
    → own t.stage ≡ 1
    → Knows (record t { stage = stage }) (record c { error = error })
    → Moved t c stage (record c { error = error })
written t c stage error h same owner knows = record {
  small = omega (arith, h);
  balance = omega (arith, same);
  error_kept = λ e. absurd (omega (arith, e, owner));
  knows = knows;
  explained = λ e. absurd (omega (arith, e, h));
  pending_kept = λ e. e;
  final = λ e. absurd (omega (arith, e, h));
}

pub fail_step-Moved :
    (message : List ℕ) (stage : FailStage) (c : MappingCell)
    → c.state ≤ 4
    → Knows (record { message = message; stage = stage }) c
    → (own stage ≡ 1 → c.state ≡ failing)
    → Moved
        (record { message = message; stage = stage })
        c
        (fail_step message stage c).0
        (fail_step message stage c).1
unfolding fail_step compare_exchange read_state
fail_step-Moved message reading c small knows holds =
    let t : FailThread = record { message = message; stage = reading } in
    elim (fail_step_reading message c) [
      | inl (low, e) ↦
          subst (λ p. Moved t c p.0 p.1) (sym e) (still t c (claiming c.state) small refl low)
      | inr e ↦ subst (λ p. Moved t c p.0 p.1) (sym e) (still t c returned small refl tt)
    ]
fail_step-Moved message (claiming x) c small knows holds =
    let t : FailThread = record { message = message; stage = claiming x } in
    elim (fail_step_claiming message x c) [
      | inl (same, e) ↦
          subst (λ p. Moved t c p.0 p.1) (sym e)
            (record {
              small = omega arith;
              balance = ground (arith, same, knows);
              error_kept = λ h. refl;
              knows = refl;
              explained = λ h. absurd (omega (arith, h));
              pending_kept = λ h. absurd (omega (arith, h));
              final = λ h. absurd (omega (arith, h, same, knows));
            })
      | inr e ↦ subst (λ p. Moved t c p.0 p.1) (sym e) (still t c reading small refl tt)
    ]
fail_step-Moved message (writing k) c small knows holds =
    let t : FailThread = record { message = message; stage = writing k } in
    let h = holds refl in
    elim (fail_step_writing message k c) [
      | inl (at_end, e) ↦
          subst (λ p. Moved t c p.0 p.1) (sym e)
            (written t c finishing (take k c.error) h refl refl
              (knows ∙ take-of_none (error_text message) k at_end))
      | inr (b, at, e) ↦
          subst (λ p. Moved t c p.0 p.1) (sym e)
            (written t c (writing (suc k)) (put_byte c.error k b) h refl refl
              (take-put_byte (error_text message) c.error k b knows at))
    ]
fail_step-Moved message finishing c small knows holds =
    let h = holds refl in
    record {
      small = omega arith;
      balance = ground arith;
      error_kept = λ e. refl;
      knows = tt;
      explained = λ e. inr knows;
      pending_kept = λ e. omega arith;
      final = λ e. absurd (omega (arith, e, h));
    }
fail_step-Moved message returned c small knows holds = record {
  small = small;
  balance = refl;
  error_kept = λ e. refl;
  knows = tt;
  explained = λ e. inl (e, refl);
  pending_kept = λ e. e;
  final = λ e. refl;
}
