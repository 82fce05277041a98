-- ===== src/Mapping/Registry/Copies.antt =====
-- The copies of `sa_create_mapping` and the comparison with a stored mapping: they fault only if the
-- data of the request is shorter than its size.
use darktide_mods.Base.{
  ℕ, ◌+◌, ◌-◌, ◌≤◌, ◌<◌, ◌≡◌, ◌≢◌, ◌⊎◌, refl, inl, inr, arith, Bool, true, false, not, ◌&&◌, ◌||◌,
  List, [], ◌∷◌, Option, none, some, Option-cases, Bool-cases, length, take, ltb, ◌==◌, bytes_eq,
  if◌then◌else◌, Run, ok, fault, out_of_bounds, ◌>>=◌,
}
use darktide_mods.Mapping.Registry.{
  Request, Names, RegisterResult, rejected, registered, hash_collision, different_data, size_add,
  sum_sizes, stored_stream_path, read_bytes, copy_data, copy_string, fill_mapping, store_object,
  create_mapping, data_eq, stream_matches, mapping_data_matches, same_names, existing, data_missing,
  mapping_object_size,
}
use darktide_mods.Mapping.Registry.Invariant.{Holds, described}
use darktide_mods.Mapping.Types.{Mapping, HeapAlloc, mapping_object, mapping_strings, mapping_data}

-- A buffer that is passed has as many bytes as its size says.
abbrev pub HasData : Request → Type 0
HasData q = (bytes : List ℕ) → q.resource_data ≡ some bytes → q.resource_data_size ≤ length bytes

-- A run faults, since the buffer is too short.
abbrev pub IsShort {ℓ} : {A : Type ℓ} → Request → Run A → Type ℓ
IsShort q run = (run ≡ fault out_of_bounds) × (¬ HasData q)

-- The data of a request is there, or is too short.
pub data_cases :
    (q : Request)
    → data_missing q ≡ false
    → Holds q.resource_data_size q.resource_data
      ⊎ ((bytes : List ℕ) × (q.resource_data ≡ some bytes) × (length bytes < q.resource_data_size))
unfolding data_missing
data_cases q given = elim (Option-cases q.resource_data) [
  | inl missing ↦ inl (λ other. absurd (ground (arith, given, missing, other)))
  | inr (bytes, e) ↦ elim (Bool-cases (ltb (length bytes) q.resource_data_size)) [
    | inl short ↦ inr (bytes, e, ground (arith, short))
    | inr long ↦ inl (λ other. (bytes, e, ground (arith, long)))
  ]
]

too_short :
    (q : Request) (bytes : List ℕ)
    → q.resource_data ≡ some bytes
    → length bytes < q.resource_data_size
    → ¬ HasData q
too_short q bytes e short h = omega (arith, h bytes e, short)

-- What the strings of a mapping take.
abbrev strings_length : List (List ℕ) → ℕ
strings_length [] = 0
strings_length (value ∷ values) = length value + 1 + strings_length values

size_add-lem : (total value next : ℕ) → size_add total value ≡ some next → next ≡ total + value
unfolding size_add
size_add-lem total value next e = ground arith

sum_sizes-lem :
    (values : List (List ℕ)) (total size : ℕ)
    → sum_sizes total values ≡ some size
    → size ≡ total + strings_length values
unfolding sum_sizes
sum_sizes-lem [] total size e = let same : total ≡ size = cc in omega (arith, same)
sum_sizes-lem (value ∷ values) total size e =
    elim (Option-cases (size_add total (length value + 1))) [
      | inl full ↦ let f = (rw (full, sum_sizes) at e) in absurd cc
      | inr (next, added) ↦
          let rest = sum_sizes-lem values next size (rw (added, sum_sizes) at e) in
          omega (arith, rest, size_add-lem total (length value + 1) next added)
    ]

copy_string-ok :
    (room : ℕ) (value : List ℕ)
    → length value + 1 ≤ room
    → copy_string (some room) value ≡ ok (value, some (room - (length value + 1)))
unfolding copy_string
copy_string-ok room value fits = ground (arith, fits)

-- The copy of the data, where there is any.
abbrev data_copy : Request → Bool → Run (Option (List ℕ))
data_copy q allocated =
    if q.resource_data_size == 0
    then ok none
    else copy_data allocated q.resource_data_size q.resource_data >>= λ copied. ok (some copied)

-- Once the strings are allocated, their copies fit.
fill_mapping-data :
    (q : Request) (n : Names) (cell room : ℕ) (allocated : Bool)
    → strings_length
        (n.type_name ∷ n.resource_name ∷ n.file_path ∷ n.io_path ∷ stored_stream_path q ∷ [])
      ≤ room
    → fill_mapping q n cell (some room) allocated ≡ (
        data_copy q allocated >>= λ resource_data.
        ok (some (record (described q n cell []) { resource_data = resource_data })))
unfolding fill_mapping
fill_mapping-data q n cell room allocated fits =
    let a = length n.type_name + 1 in
    let b = length n.resource_name + 1 in
    let c = length n.file_path + 1 in
    let d = length n.io_path + 1 in
    rw
      (
        copy_string-ok room n.type_name (omega (arith, fits)),
        copy_string-ok (room - a) n.resource_name (omega (arith, fits)),
        copy_string-ok (room - a - b) n.file_path (omega (arith, fits)),
        copy_string-ok (room - a - b - c) n.io_path (omega (arith, fits)),
        copy_string-ok (room - a - b - c - d) (stored_stream_path q) (omega (arith, fits)),
      )
      refl

data_copy-cases :
    (q : Request) (allocated : Bool)
    → data_missing q ≡ false
    → not (q.resource_data_size == 0) && not allocated ≡ false
    → (Holds q.resource_data_size q.resource_data
        × (data_copy q allocated ≡ ok (read_bytes q.resource_data_size q.resource_data)))
      ⊎ IsShort q (data_copy q allocated)
unfolding copy_data
data_copy-cases q allocated given there = elim (data_cases q given) [
  | inr (bytes, e, short) ↦
      let nonzero : (q.resource_data_size == 0) ≡ false = ground (arith, short) in
      let less : ltb (length bytes) q.resource_data_size ≡ true = ground (arith, short) in
      inr (rw (nonzero, e) (ground (arith, less)), too_short q bytes e short)
  | inl held ↦ elim (Bool-cases (q.resource_data_size == 0)) [
    | inl empty ↦ inl (held, rw empty refl)
    | inr nonzero ↦
        let (bytes, e, long) = held (ground (arith, nonzero)) in
        let more : ltb (length bytes) q.resource_data_size ≡ false = ground (arith, long) in
        let granted : allocated ≡ true = ground (arith, nonzero, there) in
        inl (held, rw (nonzero, e, granted, more) refl)
  ]
]

-- How the creation of a mapping ends.
pub create_mapping-cases :
    (heap_alloc : HeapAlloc) (q : Request) (n : Names) (cell : ℕ)
    → data_missing q ≡ false
    → (create_mapping heap_alloc q n cell ≡ ok none)
      ⊎ ((Holds q.resource_data_size q.resource_data
            × (create_mapping heap_alloc q n cell ≡ ok (some (described q n cell []))))
          ⊎ IsShort q (create_mapping heap_alloc q n cell))
unfolding create_mapping store_object
create_mapping-cases heap_alloc q n cell given =
    let values =
      n.type_name ∷ n.resource_name ∷ n.file_path ∷ n.io_path ∷ stored_stream_path q ∷ [] in
    elim (Option-cases (sum_sizes 0 values)) [
      | inl full ↦ inl (rw (full, create_mapping) refl)
      | inr (room, e) ↦ elim (Bool-cases (heap_alloc mapping_object mapping_object_size)) [
        | inr refused ↦ inl (rw (e, create_mapping, refused) refl)
        | inl object ↦ elim (Bool-cases (heap_alloc mapping_strings room)) [
          | inr refused ↦ inl (rw (e, create_mapping, object, refused) refl)
          | inl strings ↦
              let allocated =
                not (q.resource_data_size == 0) && heap_alloc mapping_data q.resource_data_size in
              elim (Bool-cases (not (q.resource_data_size == 0) && not allocated)) [
                | inl refused ↦ inl (rw (e, create_mapping, object, strings, refused) refl)
                | inr there ↦
                    let filled =
                      fill_mapping-data q n cell room allocated
                        (omega (arith, sum_sizes-lem values 0 room e)) in
                    elim (data_copy-cases q allocated given there) [
                      | inl (held, copied) ↦ inr (
                          inl (
                            held,
                            rw (e, create_mapping, object, strings, there, filled, copied) refl,
                          ))
                      | inr (short, missing) ↦ inr (
                          inr (
                            rw (e, create_mapping, object, strings, there, filled, short) refl,
                            missing,
                          ))
                    ]
              ]
        ]
      ]
    ]

-- The comparison of the data of a stored mapping.
data_eq-cases :
    (m : Mapping) (q : Request)
    → Holds m.resource_data_size m.resource_data
    → data_missing q ≡ false
    → m.resource_data_size ≡ q.resource_data_size
    → (q.resource_data_size == 0) ≡ false
    → ((same : Bool) × (data_eq q.resource_data_size m.resource_data q.resource_data ≡ ok same))
      ⊎ IsShort q (data_eq q.resource_data_size m.resource_data q.resource_data)
unfolding data_eq
data_eq-cases m q stored given sizes nonzero =
    let (a, e, long) = stored (ground (arith, sizes, nonzero)) in
    let enough : ltb (length a) q.resource_data_size ≡ false = ground (arith, long, sizes) in
    elim (data_cases q given) [
      | inr (b, f, short) ↦
          let less : ltb (length b) q.resource_data_size ≡ true = ground (arith, short) in
          inr (rw (e, f, enough, less) refl, too_short q b f short)
      | inl held ↦
          let (b, f, more) = held (ground (arith, nonzero)) in
          let fits : ltb (length b) q.resource_data_size ≡ false = ground (arith, more) in
          inl (
            bytes_eq (take q.resource_data_size a) (take q.resource_data_size b),
            rw (e, f, enough, fits) refl,
          )
    ]

matched : (b : Bool) → (if b then registered true else rejected different_data) ≢ registered false
matched true e = cc
matched false e = cc

-- The answer for a stored mapping, which is never that it is new.
pub existing-cases :
    (m : Mapping) (n : Names) (q : Request)
    → Holds m.resource_data_size m.resource_data
    → data_missing q ≡ false
    → ((answer : RegisterResult) × (existing m n q ≡ ok answer) × (answer ≢ registered false))
      ⊎ IsShort q (existing m n q)
unfolding existing mapping_data_matches
existing-cases m n q stored given = elim (Bool-cases (same_names m n)) [
  | inr other ↦ inl (rejected hash_collision, rw other refl, λ e. cc)
  | inl same ↦
      elim (Bool-cases (
        not (bytes_eq m.file_path n.file_path)
        || not (bytes_eq m.io_path n.io_path)
        || not (m.resource_data_size == q.resource_data_size))) [
          | inl differs ↦ inl (rejected different_data, rw (same, differs) refl, λ e. cc)
          | inr alike ↦ elim (Bool-cases (q.resource_data_size == 0)) [
            | inl empty ↦
                let b = stream_matches m q.stream_path q.stream_range in
                inl (
                  (if b then registered true else rejected different_data),
                  rw (same, alike, empty) refl,
                  (λ e. matched b e),
                )
            | inr nonzero ↦ elim (data_eq-cases m q stored given (ground (arith, alike)) nonzero) [
              | inl (equal, run) ↦
                  let b = if equal then stream_matches m q.stream_path q.stream_range else false in
                  inl (
                    (if b then registered true else rejected different_data),
                    rw (same, alike, nonzero, run) refl,
                    (λ e. matched b e),
                  )
              | inr (short, missing) ↦ inr (rw (same, alike, nonzero, short) refl, missing)
            ]
          ]
        ]
]
