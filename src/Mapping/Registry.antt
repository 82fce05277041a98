-- ===== src/Mapping/Registry.antt =====
-- mapping/registry.c: publication of mappings and the reads of their data. Registration holds the
-- exclusive lock from the lookup to the insertion, so it is one step on the `Registry`.
pub mod Invariant
pub mod Copies
pub mod Outcome
pub mod Effect
pub mod Reads
use darktide_mods.Base.{
  ℕ, ◌+◌, ◌-◌, ◌^◌, Bool, true, false, not, ◌&&◌, ◌||◌, List, [], ◌∷◌, ◌++◌, Option, none, some,
  if◌then◌else◌, ltb, leb, ◌==◌, bytes_eq, length, take, Run, ok, fault, out_of_bounds, ◌>>=◌,
}
use darktide_mods.Mapping.Index.{
  Index, find_mapping, reserve_mapping_indexes, insert_mapping_indexes,
}
use darktide_mods.Mapping.Stream.{format_resource_stream_identity}
use darktide_mods.Mapping.Types.{
  Mapping, MappingCell, HeapAlloc, mapping_object, mapping_strings, mapping_data, size_max,
  max_stream_path, stream_identity_size, pending,
}

-- The arguments of a registration. A NULL pointer is `none`; `resource_data` are the bytes from the
-- pointer on.
pub record Request : Type 0 where
  pub type_hash : ℕ
  pub resource_hash : ℕ
  pub type_name : Option (List ℕ)
  pub resource_name : Option (List ℕ)
  pub file_path : Option (List ℕ)
  pub io_path : Option (List ℕ)
  pub resource_data : Option (List ℕ)
  pub resource_data_size : ℕ
  pub stream_path : Option (List ℕ)
  pub stream_range : ℕ

pub record Names : Type 0 where
  pub type_name : List ℕ
  pub resource_name : List ℕ
  pub file_path : List ℕ
  pub io_path : List ℕ

-- The error messages, in the order of the code.
pub data RegisterError : Type 0 where
  null_result : RegisterError
  invalid_data : RegisterError
  path_too_long : RegisterError
  hash_collision : RegisterError
  different_data : RegisterError
  index_growth : RegisterError
  allocation : RegisterError
  identity_format : RegisterError

-- A return of 0 with its message, or of 1 with `*already_registered`.
pub data RegisterResult : Type 0 where
  rejected : RegisterError → RegisterResult
  registered : Bool → RegisterResult

-- The tables, and the mutable parts of the mappings by their number.
pub record Registry : Type 0 where
  pub index : Index
  pub cells : List MappingCell

-- `sa_size_add`: `none` where the sum would overflow.
unfoldable pub size_add : ℕ → ℕ → Option ℕ
size_add total value = if ltb (size_max - value) total then none else some (total + value)

unfoldable pub sum_sizes : ℕ → List (List ℕ) → Option ℕ
sum_sizes total [] = some total
sum_sizes total (value ∷ values) = elim (size_add total (length value + 1)) [
  | none ↦ none
  | some next ↦ sum_sizes next values
]

-- `sizeof(SaResourceMapping)`
abbrev pub mapping_object_size : ℕ
mapping_object_size = 632

abbrev pub has_stream : Request → Bool
has_stream q = elim q.stream_path [ none ↦ false | some path ↦ true ]

-- `stream_path == NULL ? "" : stream_path`
abbrev pub stored_stream_path : Request → List ℕ
stored_stream_path q = elim q.stream_path [ none ↦ [] | some path ↦ path ]

-- The first `size` bytes behind a pointer; nothing where `size` is 0.
abbrev pub read_bytes : ℕ → Option (List ℕ) → Option (List ℕ)
read_bytes size source =
    if size == 0 then none else elim source [ none ↦ none | some bytes ↦ some (take size bytes) ]

-- `memcpy` of `size` bytes into an allocation, which may have failed. A NULL pointer on either side
-- and a source of fewer bytes are faults.
unfoldable pub copy_data : Bool → ℕ → Option (List ℕ) → Run (List ℕ)
copy_data allocated size none = fault out_of_bounds
copy_data allocated size (some bytes) =
    if not allocated || ltb (length bytes) size then fault out_of_bounds else ok (take size bytes)

-- `sa_copy_string`: the cursor is the room that is left behind it, `none` where it is NULL.
unfoldable pub copy_string : Option ℕ → List ℕ → Run (List ℕ × Option ℕ)
copy_string none value = fault out_of_bounds
copy_string (some room) value =
    if ltb room (length value + 1)
    then fault out_of_bounds
    else ok (value, some (room - (length value + 1)))

-- The zeroed object is filled in; `cell` is the number of the new object.
unfoldable pub fill_mapping : Request → Names → ℕ → Option ℕ → Bool → Run (Option Mapping)
unfolding copy_data copy_string
fill_mapping q n cell strings data_allocated = copy_string strings n.type_name >>= λ type_name.
    copy_string type_name.1 n.resource_name >>= λ resource_name.
    copy_string resource_name.1 n.file_path >>= λ file_path.
    copy_string file_path.1 n.io_path >>= λ io_path.
    copy_string io_path.1 (stored_stream_path q) >>= λ stream_path.
    (if q.resource_data_size == 0
      then ok none
      else copy_data data_allocated q.resource_data_size q.resource_data >>= λ copied.
          ok (some copied))
    >>= λ resource_data. ok (
        some (record {
          type_hash = q.type_hash;
          resource_hash = q.resource_hash;
          type_name = type_name.0;
          resource_name = resource_name.0;
          file_path = file_path.0;
          io_path = io_path.0;
          stream_path = stream_path.0;
          stream_identity = [];
          stream_range = q.stream_range;
          resource_data = resource_data;
          resource_data_size = q.resource_data_size;
          cell = cell;
        }))

-- A store into the object, which is NULL where it was not allocated.
unfoldable pub store_object : Bool → Run (Unit {0})
store_object true = ok tt
store_object false = fault out_of_bounds

unfoldable pub create_mapping : HeapAlloc → Request → Names → ℕ → Run (Option Mapping)
unfolding fill_mapping store_object
create_mapping heap_alloc q n cell =
    elim (sum_sizes 0
      (n.type_name ∷ n.resource_name ∷ n.file_path ∷ n.io_path ∷ stored_stream_path q ∷ [])) [
        | none ↦ ok none
        | some strings_size ↦
            let object = heap_alloc mapping_object mapping_object_size in
            let strings =
              if heap_alloc mapping_strings strings_size then some strings_size else none in
            let data_allocated =
              not (q.resource_data_size == 0) && heap_alloc mapping_data q.resource_data_size in
            if not object
            then ok none
            else store_object object >>= λ stored.
                if not (heap_alloc mapping_strings strings_size)
                  || not (q.resource_data_size == 0) && not data_allocated
                then ok none
                else fill_mapping q n cell strings data_allocated
      ]

-- `memcmp` over `size` bytes of two pointers, both of which must have as many.
unfoldable pub data_eq : ℕ → Option (List ℕ) → Option (List ℕ) → Run Bool
data_eq size none b = fault out_of_bounds
data_eq size (some a) none = fault out_of_bounds
data_eq size (some a) (some b) =
    if ltb (length a) size || ltb (length b) size
    then fault out_of_bounds
    else ok (bytes_eq (take size a) (take size b))

unfoldable pub stream_matches : Mapping → Option (List ℕ) → ℕ → Bool
stream_matches m none range = length m.stream_path == 0
stream_matches m (some path) range = bytes_eq m.stream_path path && m.stream_range == range

unfoldable pub mapping_data_matches : Mapping → Names → Request → Run Bool
unfolding data_eq
mapping_data_matches m n q =
    if not (bytes_eq m.file_path n.file_path)
      || not (bytes_eq m.io_path n.io_path)
      || not (m.resource_data_size == q.resource_data_size)
    then ok false
    else (if q.resource_data_size == 0
        then ok true
        else data_eq q.resource_data_size m.resource_data q.resource_data)
      >>= λ same. ok (if same then stream_matches m q.stream_path q.stream_range else false)

unfoldable pub same_names : Mapping → Names → Bool
same_names m n = bytes_eq m.type_name n.type_name && bytes_eq m.resource_name n.resource_name

-- The answer for a pair of hashes that is mapped already.
unfoldable pub existing : Mapping → Names → Request → Run RegisterResult
unfolding mapping_data_matches
existing m n q =
    if not (same_names m n)
    then ok (rejected hash_collision)
    else mapping_data_matches m n q >>= λ same.
        ok (if same then registered true else rejected different_data)

-- The insertion puts the new object, in the state PENDING with no error, into the tables.
unfoldable pub insert_new : Mapping → Bool → Registry → Run (RegisterResult × Registry)
insert_new m stream s = insert_mapping_indexes m stream s.index >>= λ index. ok (
  registered false,
  record { index = index; cells = s.cells ++ record { state = pending; error = [] } ∷ [] },
)

unfoldable pub publish : Mapping → Bool → Registry → Run (RegisterResult × Registry)
publish m false s = insert_new m false s
publish m true s =
    elim (format_resource_stream_identity m.type_hash m.resource_hash stream_identity_size) [
      | none ↦ ok (rejected identity_format, s)
      | some text ↦ insert_new (record m { stream_identity = text }) true s
    ]

unfoldable pub create_and_publish :
    HeapAlloc → Request → Names → Registry → Run (RegisterResult × Registry)
create_and_publish heap_alloc q n s = create_mapping heap_alloc q n (length s.cells) >>= λ made.
    elim made [ none ↦ ok (rejected allocation, s) | some m ↦ publish m (has_stream q) s ]

unfoldable pub register_new :
    HeapAlloc → Request → Names → Registry → Run (RegisterResult × Registry)
register_new heap_alloc q n s = reserve_mapping_indexes heap_alloc (has_stream q) s.index >>= λ r.
    let grown = record s { index = r.1 } in
    if r.0 then create_and_publish heap_alloc q n grown else ok (rejected index_growth, grown)

-- From the lock to the unlock.
unfoldable pub register_locked :
    HeapAlloc → Request → Names → Registry → Run (RegisterResult × Registry)
register_locked heap_alloc q n s = find_mapping s.index q.type_hash q.resource_hash >>= λ found.
    elim found [
      | some m ↦ existing m n q >>= (λ answer. ok (answer, s))
      | none ↦ register_new heap_alloc q n s
    ]

unfoldable pub names_of : Request → Option Names
names_of q = elim q.type_name [
  | none ↦ none
  | some type_name ↦ elim q.resource_name [
    | none ↦ none
    | some resource_name ↦ elim q.file_path [
      | none ↦ none
      | some file_path ↦ elim q.io_path [
        | none ↦ none
        | some io_path ↦ some (record {
          type_name = type_name;
          resource_name = resource_name;
          file_path = file_path;
          io_path = io_path;
        })
      ]
    ]
  ]
]

-- The resource data is missing, or there is neither data nor a stream.
unfoldable pub data_missing : Request → Bool
data_missing q =
    not (q.resource_data_size == 0)
      && elim q.resource_data [ none ↦ true | some data_bytes ↦ false ]
    || q.resource_data_size == 0 && not (has_stream q)

unfoldable pub any_path_too_long : Request → Names → Bool
any_path_too_long q n =
    leb max_stream_path (length n.file_path)
    || leb max_stream_path (length n.io_path)
    || has_stream q && leb max_stream_path (length (stored_stream_path q))

-- `result` says whether the pointer `already_registered` is not NULL.
unfoldable pub register_resource_mapping :
    HeapAlloc → Bool → Request → Registry → Run (RegisterResult × Registry)
register_resource_mapping heap_alloc result q s =
    if not result then ok (rejected null_result, s) else elim (names_of q) [
      | none ↦ ok (rejected invalid_data, s)
      | some n ↦
          if data_missing q
          then ok (rejected invalid_data, s)
          else if any_path_too_long q n
          then ok (rejected path_too_long, s)
          else register_locked heap_alloc q n s
    ]

-- The question whether a mapping is there, with the same two errors.
unfoldable pub check_resource_mapping : Bool → Request → Names → Registry → Run RegisterResult
check_resource_mapping result q n s = find_mapping s.index q.type_hash q.resource_hash >>= λ found.
    if not result
    then ok (rejected null_result)
    else elim found [ none ↦ ok (registered false) | some m ↦ existing m n q ]

-- The path goes into a buffer of `path_size` bytes. `pointers` says whether none of the output
-- pointers is NULL.
unfoldable pub find_resource_data :
    Registry → ℕ → ℕ → Bool → ℕ → Run (Option (List ℕ × Option (List ℕ) × ℕ))
find_resource_data s type_hash resource_hash pointers io_path_size =
    if not pointers
    then ok none
    else find_mapping s.index type_hash resource_hash >>= λ found. elim found [
      | none ↦ ok none
      | some m ↦
          if ltb io_path_size (length m.io_path + 1)
          then ok none
          else ok (some (m.io_path, m.resource_data, m.resource_data_size))
    ]

unfoldable pub find_resource_stream : Registry → ℕ → ℕ → Bool → ℕ → Run (Option (List ℕ × ℕ))
find_resource_stream s type_hash resource_hash pointers path_size =
    if not pointers
    then ok none
    else find_mapping s.index type_hash resource_hash >>= λ found. elim found [
      | none ↦ ok none
      | some m ↦
          if length m.stream_path == 0 || ltb path_size (length m.stream_path + 1)
          then ok none
          else ok (some (m.stream_path, m.stream_range))
    ]
