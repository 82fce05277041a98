-- ===== src/Mapping/Capacity.antt =====
-- `sa_capacity_for_insert` of mapping/index.c: the capacity that a table needs for one entry more.
use native.Mathlib.Nat.{pow-suc, pow-le-pow_right}
use darktide_mods.Base.{
  ℕ, zero, suc, ◌+◌, ◌-◌, ◌*◌, ◌/◌, ◌^◌, ◌≤◌, ◌<◌, ◌≡◌, refl, ◌⊎◌, inl, inr, arith, Option, none,
  some, if◌then◌else◌, ltb, ◌==◌, Run, ok, fault, out_of_fuel, dec_lt, false,
}
use darktide_mods.Mapping.Probe.Walk.{IsCapacity, IsCapacity-pos}
use darktide_mods.Mapping.Types.{size_max}

abbrev pub initial_capacity : ℕ
initial_capacity = 64

-- `while (count + 1 > next - next / 4) { if (next > SIZE_MAX / 2) return 0; next *= 2; }`
unfoldable pub capacity_loop : ℕ → ℕ → ℕ → Run (Option ℕ)
capacity_loop zero count next = fault out_of_fuel
capacity_loop (suc fuel) count next =
    let doubled =
      if ltb (size_max / 2) next then ok none else capacity_loop fuel count (next * 2) in
    if ltb (next - next / 4) (count + 1) then doubled else ok (some next)

unfoldable pub capacity_for_insert : ℕ → ℕ → Run (Option ℕ)
unfolding capacity_loop
capacity_for_insert count capacity =
    let next = if capacity == 0 then initial_capacity else capacity in
    if count == size_max then ok none else capacity_loop 64 count next

-- `r` is `next` doubled as often as one more entry needs, and not once more.
pub record Fits (count next r : ℕ) : Type 0 where
  pub shape : IsCapacity r
  pub grown : next ≤ r
  pub room : count + 1 ≤ r - r / 4
  pub least : (r ≡ next) ⊎ (r / 2 - r / 2 / 4 < count + 1)

doubled-IsCapacity : {n : ℕ} → IsCapacity n → n ≤ size_max / 2 → IsCapacity (n * 2)
doubled-IsCapacity c h = record {
  width = suc c.width;
  narrow = elim (dec_lt c.width 63) [
    | yes p ↦ p
    | no p ↦ absurd (
        omega (
          arith,
          c.power,
          pow-le-pow_right {n = 2} (omega arith) {i = 63} {j = c.width} (omega arith),
        ))
  ];
  power = omega (arith, c.power, pow-suc 2 c.width);
}

module _ (count : ℕ) where
  Fits-double :
      (next r : ℕ) → next - next / 4 < count + 1 → Fits count (next * 2) r → Fits count next r
  Fits-double next r short f = record {
    shape = f.shape;
    grown = omega (arith, f.grown);
    room = f.room;
    least = elim f.least [ inl same ↦ inr (omega (arith, same)) | inr needed ↦ inr needed ];
  }

  -- The loop ends with a capacity that fits.
  pub capacity_loop-Fits :
      (fuel next : ℕ) (c : IsCapacity next)
      → 64 ≤ fuel + c.width
      → count < 2 ^ 60
      → (r : ℕ) × (capacity_loop fuel count next ≡ ok (some r)) × Fits count next r
  unfolding capacity_loop doubled-IsCapacity
  capacity_loop-Fits zero next c h small = absurd (omega (arith, c.narrow))
  capacity_loop-Fits (suc fuel) next c h small = elim (dec_lt (next - next / 4) (count + 1)) [
    | no enough ↦ (
      next,
      ground arith,
      record { shape = c; grown = omega arith; room = omega arith; least = inl refl },
    )
    | yes short ↦
        let (r, run, f) =
          capacity_loop-Fits fuel (next * 2) (doubled-IsCapacity c (omega arith)) (omega arith)
            small in
        (r, ground (arith, run), Fits-double next r short f)
  ]

  -- For fewer than 2 ^ 60 entries and a capacity that is 0 or a power of two,
  -- `capacity_for_insert` ends with a power of two, at least the old capacity or 64, at which
  -- one more entry leaves a quarter of the slots free, and no larger one than that takes.
  pub capacity_for_insert-Fits :
      (capacity : ℕ)
      → (capacity ≡ 0) ⊎ IsCapacity capacity
      → count < 2 ^ 60
      → (r : ℕ) × (capacity_for_insert count capacity ≡ ok (some r))
        × Fits count (if capacity == 0 then initial_capacity else capacity) r
  capacity_for_insert-Fits capacity (inl e) small =
      let (r, run, f) =
        capacity_loop-Fits 64 initial_capacity
          (record { width = 6; narrow = omega arith; power = refl }) (omega arith) small in
      rw e (r, unfold capacity_for_insert in ground (arith, run), f)
  capacity_for_insert-Fits capacity (inr c) small =
      let (r, run, f) = capacity_loop-Fits 64 capacity c (omega arith) small in
      let nonzero : (capacity == 0) ≡ false = ground (arith, IsCapacity-pos c) in
      rw nonzero (r, unfold capacity_for_insert in ground (arith, run), f)
