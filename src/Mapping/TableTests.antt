-- ===== src/Mapping/TableTests.antt =====
-- The inputs at which the theorems on the tables and the identity are applied.
use darktide_mods.Base.{
  ℕ, ◌+◌, ◌*◌, ◌≡◌, refl, arith, Bool, true, List, [], ◌∷◌, none, some, Run, ok, fault, subst, inl,
}
use darktide_mods.Mapping.Capacity.{
  Fits, capacity_for_insert, capacity_for_insert-Fits, capacity_loop,
}
use darktide_mods.Mapping.Index.{
  Index, reserve_mapping_indexes, insert_mapping_indexes, empty_index, reserve_streams,
  reserve_table, resize_mapping_slots, resize_string_slots, resize_slots,
}
use darktide_mods.Mapping.Index.Invariant.{Keyed}
use darktide_mods.Mapping.Probe.{rehash}
use darktide_mods.Mapping.Index.Insert.{AddedTo, insert_mapping_indexes-AddedTo}
use darktide_mods.Mapping.Index.Reserve.{IsSmall, ReservedIndex, reserve_mapping_indexes-Reserved}
use darktide_mods.Mapping.Registry.Invariant.{empty-IsRegistry}
use darktide_mods.Mapping.Stream.{format_resource_stream_identity}
use darktide_mods.Mapping.Stream.Format.{Spells, format-Spells, format_injective}
use darktide_mods.Mapping.Types.{Mapping, HeapAlloc}

capacity_for_insert-Fits_example : (r : ℕ) × (capacity_for_insert 48 0 ≡ ok (some r)) × Fits 48 64 r
capacity_for_insert-Fits_example = capacity_for_insert-Fits 48 0 (inl refl) (omega arith)

abbrev granted : HeapAlloc
granted site size = true

small : IsSmall empty_index
small = record { mappings = omega arith; identities = omega arith; paths = omega arith }

reserve_mapping_indexes-Reserved_example :
    (r : Bool × Index) × (reserve_mapping_indexes granted true empty_index ≡ ok r)
    × ReservedIndex empty_index true r.0 r.1
reserve_mapping_indexes-Reserved_example =
    reserve_mapping_indexes-Reserved granted empty_index empty-IsRegistry.index small true

format-Spells_example :
    (text : List ℕ) × (format_resource_stream_identity 17 4 23 ≡ some text) × Spells 17 4 text
format-Spells_example = format-Spells 17 4 (omega arith) (omega arith) 23 (omega arith)

format_injective_example : (17 ≡ 8 + 9) × (4 ≡ 2 * 2)
format_injective_example =
    format_injective 17 4 (8 + 9) (2 * 2) 23 (omega arith) (omega arith) (omega arith) (omega arith)
      (omega arith) refl

abbrev reservation :
    (r : Bool × Index) × (reserve_mapping_indexes granted true empty_index ≡ ok r)
    × ReservedIndex empty_index true r.0 r.1
reservation = reserve_mapping_indexes-Reserved granted empty_index empty-IsRegistry.index small true

abbrev index_of : Run (Bool × Index) → Index
index_of (ok r) = r.1
index_of (fault e) = empty_index

-- The tables after the first reservation.
abbrev reserved : Index
reserved = index_of (reserve_mapping_indexes granted true empty_index)

reserved_lem : reserve_mapping_indexes granted true empty_index ≡ ok (true, reserved)
unfolding reserve_mapping_indexes reserve_streams reserve_table resize_mapping_slots
    resize_string_slots resize_slots capacity_for_insert capacity_loop rehash
reserved_lem = refl

reserved_room : ReservedIndex empty_index true true reserved
reserved_room =
    let same : reservation.0 ≡ (true, reserved) = cc (reservation.1, reserved_lem) in
    subst (λ (r : Bool × Index). ReservedIndex empty_index true r.0 r.1) same reservation.2

abbrev entry : Mapping
entry = record {
  type_hash = 17;
  resource_hash = 4;
  type_name = [];
  resource_name = [];
  file_path = [];
  io_path = [];
  stream_path = 47 ∷ [];
  stream_identity = 65 ∷ [];
  stream_range = 0;
  resource_data = none;
  resource_data_size = 0;
  cell = 0;
}

none-Keyed : (b : Mapping) → Keyed reserved b → Keyed empty_index b
none-Keyed = reserved_room.same.mapping.only

insert_mapping_indexes-AddedTo_example :
    (j : Index) × (insert_mapping_indexes entry true reserved ≡ ok j)
    × AddedTo reserved entry true j
insert_mapping_indexes-AddedTo_example =
    insert_mapping_indexes-AddedTo reserved reserved_room.index entry
      (λ b c. absurd (cc ((none-Keyed b c).1))) true (reserved_room.room refl)
      (reserved_room.stream_room refl)
      (λ h b c. absurd (cc ((reserved_room.same.identity.only b c).1)))
