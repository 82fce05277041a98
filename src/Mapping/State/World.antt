-- ===== src/Mapping/State/World.antt =====
-- Any number of threads on the cell of one mapping, one interlocked operation or one byte of
-- an error at a time.
use darktide_mods.Base.{
  ℕ, zero, suc, ◌+◌, ◌≤◌, ◌≡◌, ◌≢◌, refl, ap, arith, true, false, List, [], ◌∷◌, some,
  if◌then◌else◌, ◌==◌, set, get_elem?,
}
use darktide_mods.Mapping.State.{
  StateResult, answered, refused, begin_on_cell, ready_on_cell, fail_step, FailStage, reading,
  claiming, writing, finishing, returned,
}
use darktide_mods.Mapping.Types.{MappingCell, failing}

pub record FailThread : Type 0 where
  pub message : List ℕ
  pub stage : FailStage

-- The cell, the calls of `sa_fail_resource` so far, and how many calls of
-- `sa_begin_resource_finalization` have set `*acquired`.
pub record World : Type 0 where
  pub cell : MappingCell
  pub threads : List FailThread
  pub acquired : ℕ

abbrev pub acquisitions : StateResult → ℕ
acquisitions (refused e) = 0
acquisitions (answered false) = 0
acquisitions (answered true) = 1

abbrev pub after_begin : World → World
after_begin w = record w {
  cell = (begin_on_cell w.cell).1;
  acquired = w.acquired + acquisitions (begin_on_cell w.cell).0;
}

abbrev pub after_ready : World → World
after_ready w = record w { cell = ready_on_cell w.cell }

abbrev pub after_call : List ℕ → World → World
after_call message w = record w {
  threads = record { message = message; stage = reading } ∷ w.threads;
}

abbrev pub after_move : ℕ → FailThread → World → World
after_move i t w = record w {
  cell = (fail_step t.message t.stage w.cell).1;
  threads = set w.threads i (record t { stage = (fail_step t.message t.stage w.cell).0 });
}

pub data Step : World → World → Type 0 where
  begin : (w : World) → Step w (after_begin w)
  mark_ready : (w : World) → Step w (after_ready w)
  call_fail : (w : World) (message : List ℕ) → Step w (after_call message w)
  move :
      (w : World) (i : ℕ) (t : FailThread)
      → get_elem? w.threads i ≡ some t
      → Step w (after_move i t w)

pub data Steps : World → World → Type 0 where
  stay : (w : World) → Steps w w
  step : (u v w : World) → Steps u v → Step v w → Steps u w

abbrev pub own : FailStage → ℕ
own reading = 0
own (claiming x) = 0
own (writing k) = 1
own finishing = 1
own returned = 0

-- The state FAILING has one owner.
abbrev pub held_by : MappingCell → ℕ
held_by c = if c.state == failing then 1 else 0

-- How many threads hold the state FAILING.
abbrev pub owners : List FailThread → ℕ
owners [] = 0
owners (t ∷ ts) = own t.stage + owners ts

pub owners-set :
    (ts : List FailThread) (i : ℕ) (t u : FailThread)
    → get_elem? ts i ≡ some t
    → owners (set ts i u) + own t.stage ≡ owners ts + own u.stage
owners-set [] i t u e = cc
owners-set (x ∷ ts) zero t u e = let same : own x.stage ≡ own t.stage = cc e in omega arith
owners-set (x ∷ ts) (suc i) t u e = omega (arith, owners-set ts i t u e)

pub owners_one :
    (ts : List FailThread) (i : ℕ) (t : FailThread)
    → get_elem? ts i ≡ some t
    → own t.stage ≤ owners ts
owners_one [] i t e = cc
owners_one (x ∷ ts) zero t e = let same : own x.stage ≡ own t.stage = cc e in omega arith
owners_one (x ∷ ts) (suc i) t e = omega (arith, owners_one ts i t e)

pub owners_two :
    (ts : List FailThread) (i j : ℕ) (t u : FailThread)
    → get_elem? ts i ≡ some t
    → get_elem? ts j ≡ some u
    → i ≢ j
    → own t.stage + own u.stage ≤ owners ts
owners_two [] i j t u e f d = cc
owners_two (x ∷ ts) zero zero t u e f d = absurd (d refl)
owners_two (x ∷ ts) zero (suc j) t u e f d =
    let same : own x.stage ≡ own t.stage = cc e in omega (arith, owners_one ts j u f)
owners_two (x ∷ ts) (suc i) zero t u e f d =
    let same : own x.stage ≡ own u.stage = cc f in omega (arith, owners_one ts i t e)
owners_two (x ∷ ts) (suc i) (suc j) t u e f d =
    omega (arith, owners_two ts i j t u e f (λ same. d (ap suc same)))
