-- ===== src/Mapping/Index.antt =====
-- mapping/index.c: three open-addressing tables over the published mappings, keyed by the pair of
-- hashes, by the stream identity and by the stream path. Every entry point runs under the SRW lock
-- of the file, so each is one step on the `Index`.
pub mod Valid
pub mod Lookup
pub mod Invariant
pub mod Reserve
pub mod Insert
use darktide_mods.Base.{
  ℕ, ◌+◌, ◌*◌, ◌/◌, ◌%◌, ◌^◌, bit_xor, Bool, true, false, ◌&&◌, List, [], ◌∷◌, Option, none, some,
  if◌then◌else◌, ◌==◌, bytes_eq, Run, ok, ◌>>=◌, replicate,
}
use darktide_mods.Mapping.Capacity.{capacity_for_insert}
use darktide_mods.Mapping.Probe.{home, probe, place, rehash}
use darktide_mods.Mapping.Types.{
  Mapping, HeapAlloc, AllocSite, mapping_slots, identity_slots, path_slots,
}

-- `g_…_slots`, `g_…_capacity` and `g_…_count` of one table.
pub record SlotTable : Type 0 where
  pub slots : List (Option Mapping)
  pub capacity : ℕ
  pub count : ℕ

pub record Index : Type 0 where
  pub mapping : SlotTable
  pub stream_identity : SlotTable
  pub stream_path : SlotTable

abbrev pub empty_table : SlotTable
empty_table = record { slots = []; capacity = 0; count = 0 }

abbrev pub empty_index : Index
empty_index = record {
  mapping = empty_table;
  stream_identity = empty_table;
  stream_path = empty_table;
}

unfoldable pub mix_hash : ℕ → ℕ
mix_hash value =
    let a = bit_xor value (value / 2 ^ 30) in
    let b = a * 0xbf58476d1ce4e5b9 % 2 ^ 64 in
    let c = bit_xor b (b / 2 ^ 27) in
    let d = c * 0x94d049bb133111eb % 2 ^ 64 in bit_xor d (d / 2 ^ 31)

unfoldable pub mapping_hash : ℕ → ℕ → ℕ
mapping_hash type_hash resource_hash = mix_hash (bit_xor type_hash (mix_hash resource_hash))

unfoldable pub string_hash_from : ℕ → List ℕ → ℕ
string_hash_from hash [] = hash
string_hash_from hash (c ∷ cursor) =
    string_hash_from (bit_xor hash c * 1099511628211 % 2 ^ 64) cursor

unfoldable pub string_hash : List ℕ → ℕ
string_hash value = string_hash_from 14695981039346656037 value

-- The hashes by which the insertions place an entry, and the tests by which the searches know it.
abbrev pub entry_hash : Mapping → ℕ
entry_hash m = mapping_hash m.type_hash m.resource_hash

abbrev pub entry_matches : ℕ → ℕ → Mapping → Bool
entry_matches type_hash resource_hash m =
    m.type_hash == type_hash && m.resource_hash == resource_hash

abbrev pub string_key : Bool → Mapping → List ℕ
string_key stream_identity m = if stream_identity then m.stream_identity else m.stream_path

abbrev pub string_entry_hash : Bool → Mapping → ℕ
string_entry_hash stream_identity m = string_hash (string_key stream_identity m)

abbrev pub string_matches : List ℕ → Bool → Mapping → Bool
string_matches value stream_identity m = bytes_eq (string_key stream_identity m) value

unfoldable pub find_mapping_in_slots : List (Option Mapping) → ℕ → ℕ → ℕ → Run (Option Mapping)
find_mapping_in_slots slots capacity type_hash resource_hash =
    if capacity == 0
    then ok none
    else probe (entry_matches type_hash resource_hash) slots capacity capacity
        (home capacity (mapping_hash type_hash resource_hash))

unfoldable pub find_string_in_slots :
    List (Option Mapping) → ℕ → List ℕ → Bool → Run (Option Mapping)
find_string_in_slots slots capacity value stream_identity =
    if capacity == 0
    then ok none
    else probe (string_matches value stream_identity) slots capacity capacity
        (home capacity (string_hash value))

-- Called only where the capacity is not 0.
unfoldable pub insert_mapping_slot :
    List (Option Mapping) → ℕ → Mapping → Run (List (Option Mapping))
insert_mapping_slot slots capacity mapping =
    place mapping slots capacity capacity (home capacity (entry_hash mapping))

unfoldable pub insert_string_slot :
    List (Option Mapping) → ℕ → Mapping → Bool → Run (List (Option Mapping))
insert_string_slot slots capacity mapping stream_identity =
    place mapping slots capacity capacity
      (home capacity (string_entry_hash stream_identity mapping))

-- The resize of one table. The allocation is zeroed, and its size in bytes may wrap.
unfoldable pub resize_slots :
    (Mapping → ℕ) → AllocSite → HeapAlloc → SlotTable → ℕ → Run (Bool × SlotTable)
resize_slots hash site heap_alloc t required =
    let bytes = required * 8 % 2 ^ 64 in
    let moved = rehash hash t.slots required t.capacity 0 (replicate (bytes / 8) none) in
    if required == t.capacity
    then ok (true, t)
    else if heap_alloc site bytes
    then moved >>= (λ slots. ok (true, record t { slots = slots; capacity = required }))
    else ok (false, t)

unfoldable pub resize_mapping_slots : HeapAlloc → SlotTable → ℕ → Run (Bool × SlotTable)
unfolding resize_slots
resize_mapping_slots = resize_slots entry_hash mapping_slots

unfoldable pub resize_string_slots : Bool → HeapAlloc → SlotTable → ℕ → Run (Bool × SlotTable)
unfolding resize_slots
resize_string_slots stream_identity =
    resize_slots (string_entry_hash stream_identity)
      (if stream_identity then identity_slots else path_slots)

-- `sa_capacity_for_insert(…) && resize(…)` for one table.
unfoldable pub reserve_table :
    (SlotTable → ℕ → Run (Bool × SlotTable)) → SlotTable → Run (Bool × SlotTable)
reserve_table resize t = do
  required ← capacity_for_insert t.count t.capacity
  elim required [ none ↦ ok (false, t) | some r ↦ resize t r ]

unfoldable pub reserve_streams : HeapAlloc → Index → Run (Bool × Index)
reserve_streams heap_alloc index = do
  (identities, identity_table) ←
      reserve_table (resize_string_slots true heap_alloc) index.stream_identity
  let with_identity = record index { stream_identity = identity_table }
  let paths = reserve_table (resize_string_slots false heap_alloc) index.stream_path
  if identities
      then paths >>= (λ p. ok (p.0, record with_identity { stream_path = p.1 }))
      else ok (false, with_identity)

unfoldable pub reserve_mapping_indexes : HeapAlloc → Bool → Index → Run (Bool × Index)
reserve_mapping_indexes heap_alloc has_stream index = do
  (mappings, mapping_table) ← reserve_table (resize_mapping_slots heap_alloc) index.mapping
  let with_mapping = record index { mapping = mapping_table }
  if mappings
      then (if has_stream then reserve_streams heap_alloc with_mapping else ok (true, with_mapping))
      else ok (false, with_mapping)

unfoldable pub insert_streams : Mapping → Index → Run Index
insert_streams mapping index = do
  identities ←
      insert_string_slot index.stream_identity.slots index.stream_identity.capacity mapping true
  let identity_table = record index.stream_identity {
    slots = identities;
    count = index.stream_identity.count + 1;
  }
  let with_identity = record index { stream_identity = identity_table }
  known ←
      find_string_in_slots index.stream_path.slots index.stream_path.capacity mapping.stream_path
        false
  let inserted = insert_string_slot index.stream_path.slots index.stream_path.capacity mapping false
  elim known [
    | some other ↦ ok with_identity
    | none ↦ inserted >>= λ slots. ok (record with_identity {
      stream_path = record index.stream_path { slots = slots; count = index.stream_path.count + 1 };
    })
  ]

unfoldable pub insert_mapping_indexes : Mapping → Bool → Index → Run Index
insert_mapping_indexes mapping has_stream index = do
  slots ← insert_mapping_slot index.mapping.slots index.mapping.capacity mapping
  let with_mapping = record index {
    mapping = record index.mapping { slots = slots; count = index.mapping.count + 1 };
  }
  if has_stream then insert_streams mapping with_mapping else ok with_mapping

-- The lookups, under the lock.
unfoldable pub find_mapping : Index → ℕ → ℕ → Run (Option Mapping)
unfolding find_mapping_in_slots
find_mapping index type_hash resource_hash =
    find_mapping_in_slots index.mapping.slots index.mapping.capacity type_hash resource_hash

unfoldable pub find_mapping_by_stream_identity : Index → List ℕ → Run (Option Mapping)
unfolding find_string_in_slots
find_mapping_by_stream_identity index identity =
    find_string_in_slots index.stream_identity.slots index.stream_identity.capacity identity true

unfoldable pub find_mapping_by_stream_path : Index → List ℕ → Run (Option Mapping)
unfolding find_string_in_slots
find_mapping_by_stream_path index path =
    find_string_in_slots index.stream_path.slots index.stream_path.capacity path false
