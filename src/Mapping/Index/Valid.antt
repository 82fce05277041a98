-- ===== src/Mapping/Index/Valid.antt =====
-- When one table of the index is sound, and what a reservation in it does.
use darktide_mods.Base.{
  ℕ, ◌+◌, ◌-◌, ◌*◌, ◌/◌, ◌%◌, ◌^◌, ◌≤◌, ◌<◌, ◌≡◌, ◌≢◌, refl, sym, ◌∙◌, ◌⊎◌, inl, inr, arith, Bool,
  true, false, List, [], Option, none, some, if◌then◌else◌, ◌==◌, ok, length, replicate, Bool-cases,
  ℕ_discrete, lt-of_get_elem?,
}
use darktide_mods.Mapping.Capacity.{Fits, capacity_for_insert-Fits, initial_capacity}
use darktide_mods.Mapping.Index.{SlotTable, resize_slots, reserve_table}
use darktide_mods.Mapping.Probe.Find.{Contains}
use darktide_mods.Mapping.Probe.Rehash.{Moved, rehash-Moved, used-take_all}
use darktide_mods.Mapping.Probe.Table.{
  used, used-replicate, not-Stored-replicate, IsTable, replicate-IsTable,
}
use darktide_mods.Mapping.Probe.Walk.{IsCapacity}
use darktide_mods.Mapping.Types.{Mapping, HeapAlloc, AllocSite}

module _ (hash : Mapping → ℕ) where
  abbrev pub IsShaped : SlotTable → Type 0
  IsShaped t = ((t.slots ≡ []) × (t.capacity ≡ 0)) ⊎ IsTable hash t.capacity t.slots

  -- Not allocated yet, or a table at most three quarters full.
  pub record IsValid (t : SlotTable) : Type 0 where
    pub shape : IsShaped t
    pub counted : used t.slots ≡ t.count
    pub loaded : t.count ≤ t.capacity - t.capacity / 4
    pub wide : 0 < t.capacity → initial_capacity ≤ t.capacity

  -- A table that takes one entry more.
  pub record HasRoom (t : SlotTable) : Type 0 where
    pub table : IsTable hash t.capacity t.slots
    pub room : t.count + 1 ≤ t.capacity - t.capacity / 4

  -- What a reservation in `t` leaves, and what it grants.
  pub record Reserved (t : SlotTable) (granted : Bool) (after : SlotTable) : Type 0 where
    pub valid : IsValid after
    pub count : after.count ≡ t.count
    pub kept : (m : Mapping) → Contains t.slots m → Contains after.slots m
    pub only : (m : Mapping) → Contains after.slots m → Contains t.slots m
    pub roomy : granted ≡ true → HasRoom after

  IsShaped-capacity : (t : SlotTable) → IsShaped t → (t.capacity ≡ 0) ⊎ IsCapacity t.capacity
  IsShaped-capacity t (inl e) = inl e.1
  IsShaped-capacity t (inr s) = inr s.shape

  IsShaped-length : (t : SlotTable) → IsShaped t → length t.slots ≡ t.capacity
  IsShaped-length t (inl e) = rw e.0 (sym e.1)
  IsShaped-length t (inr s) = s.size

  pub unchanged : (t : SlotTable) → IsValid t → Reserved t false t
  unchanged t v = record {
    valid = v;
    count = refl;
    kept = λ m c. c;
    only = λ m c. c;
    roomy = λ e. cc;
  }

  module _ (t : SlotTable) (v : IsValid t) {required : ℕ}
      (f : Fits t.count (if t.capacity == 0 then initial_capacity else t.capacity) required) where
    same_size : required ≡ t.capacity → Reserved t true t
    same_size e = elim v.shape [
      | inl none_yet ↦ absurd (ground (arith, none_yet.1, f.grown))
      | inr table ↦ record {
        valid = v;
        count = refl;
        kept = λ m c. c;
        only = λ m c. c;
        roomy = λ _. record { table = table; room = rw (← e) f.room };
      }
    ]

    Moved-start : Moved hash t.slots required 0 (replicate required none)
    unfolding used
    Moved-start = record {
      table = replicate-IsTable hash required f.shape;
      counted = used-replicate Mapping required;
      kept = λ m i lt at. absurd (omega arith);
      only = λ m c. absurd (not-Stored-replicate required c.0 m c.1);
    }

    resized :
        (slots : List (Option Mapping))
        → Moved hash t.slots required (length t.slots) slots
        → Reserved t true (record t { slots = slots; capacity = required })
    resized slots m = record {
      valid = record {
        shape = inr m.table;
        counted = m.counted ∙ used-take_all t.slots ∙ v.counted;
        loaded = omega (arith, f.room);
        wide = λ pos. ground (arith, v.wide, f.grown);
      };
      count = refl;
      kept = λ b c. m.kept b c.0 (lt-of_get_elem? t.slots c.0 (some b) c.1) c.1;
      only = m.only;
      roomy = λ _. record { table = m.table; room = f.room };
    }

    no_wrap : t.count < 2 ^ 58 → required ≢ t.capacity → required * 8 % 2 ^ 64 / 8 ≡ required
    no_wrap small e =
        let bound : required < 2 ^ 61 = elim f.least [
          | inl same ↦ ground (arith, same)
          | inr needed ↦ omega (arith, needed)
        ] in
        omega arith

    in_room : used t.slots < required
    in_room = omega (arith, v.counted, f.room)

  module _ (site : AllocSite) (heap_alloc : HeapAlloc) (t : SlotTable) (v : IsValid t)
      (small : t.count < 2 ^ 58) where
    after_capacity :
        (required : ℕ)
        → Fits t.count (if t.capacity == 0 then initial_capacity else t.capacity) required
        → (r : Bool × SlotTable) × (resize_slots hash site heap_alloc t required ≡ ok r)
          × Reserved t r.0 r.1
    unfolding resize_slots
    after_capacity required f = elim (ℕ_discrete required t.capacity) [
      | yes e ↦ ((true, t), ground arith, same_size t v f e)
      | no e ↦ elim (Bool-cases (heap_alloc site (required * 8 % 2 ^ 64))) [
        | inr denied ↦ ((false, t), ground arith, unchanged t v)
        | inl granted ↦
            let (slots, run, m) =
              rehash-Moved hash t.slots required t.capacity 0 (replicate required none)
                (omega (arith, IsShaped-length t v.shape)) (in_room t v f) (Moved-start t v f) in
            (
              (true, record t { slots = slots; capacity = required }),
              rw (no_wrap t v f small e) (ground (arith, run)),
              resized t v f slots m,
            )
      ]
    ]

    -- A reservation in a sound table ends without a fault, keeps its entries, and leaves room for
    -- one more where it is granted.
    pub reserve_table-Reserved :
        (r : Bool × SlotTable) × (reserve_table (resize_slots hash site heap_alloc) t ≡ ok r)
        × Reserved t r.0 r.1
    unfolding reserve_table
    reserve_table-Reserved =
        let (required, run, f) =
          capacity_for_insert-Fits t.count t.capacity (IsShaped-capacity t v.shape) (omega arith) in
        rw run (after_capacity required f)
