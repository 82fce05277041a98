-- ===== src/Mapping/Registry/Reads.antt =====
-- What a registration makes of the stream lookups, of the reads of the data and of a second
-- registration with the same arguments.
use darktide_mods.Base.{
  ℕ, zero, suc, ◌+◌, ◌^◌, ◌≤◌, ◌<◌, ◌≡◌, ◌≢◌, refl, sym, ap, subst, ◌∙◌, inl, inr, arith, Bool,
  true, false, ◌||◌, List, [], ◌∷◌, Option, none, some, Option-cases, Bool-cases, length, ok,
  if◌then◌else◌, ltb, bytes_eq, bytes_eq_refl, take, ◌==◌, ◌>>=◌, get_or,
}
use darktide_mods.Mapping.Index.{
  Index, find_mapping_by_stream_identity, find_mapping_by_stream_path,
}
use darktide_mods.Mapping.Index.Invariant.{IsIndex, Identified, Streamed}
use darktide_mods.Mapping.Index.Lookup.{find_string_sound, find_string-found}
use darktide_mods.Mapping.Index.Reserve.{IsSmall}
use darktide_mods.Mapping.Registry.{
  Registry, Request, Names, registered, has_stream, stored_stream_path, read_bytes, names_of,
  data_missing, existing, same_names, mapping_data_matches, data_eq, stream_matches,
  any_path_too_long, register_locked, register_resource_mapping, check_resource_mapping,
  find_resource_data, find_resource_stream,
}
use darktide_mods.Mapping.Registry.Effect.{registration_lem, publication, register-find_mapping}
use darktide_mods.Mapping.Registry.Invariant.{
  IsRegistry, Holds, Publishes, described, length-take_of_le,
}
use darktide_mods.Mapping.Stream.{
  format_resource_stream_identity, resolve_resource_stream_identity, is_resource_stream_path,
  valid_prefix, copy_stream_path,
}
use darktide_mods.Mapping.Stream.Format.{format-Spells}
use darktide_mods.Mapping.Types.{Mapping, HeapAlloc, stream_identity_size}

identity_found :
    (i : Index)
    → IsIndex i
    → (m : Mapping) → Identified i m
    → find_mapping_by_stream_identity i m.stream_identity ≡ ok (some m)
unfolding find_mapping_by_stream_identity
identity_found i v m c =
    find_string-found true i.stream_identity v.identities m c (λ b cb e. v.one_identity b m cb c e)

path_found :
    (i : Index)
    → IsIndex i
    → (m : Mapping) → Streamed i m
    → find_mapping_by_stream_path i m.stream_path ≡ ok (some m)
unfolding find_mapping_by_stream_path
path_found i v m c =
    find_string-found false i.stream_path v.paths m c (λ b cb e. v.one_path b m cb c e)

path_sound :
    (i : Index)
    → IsIndex i
    → (path : List ℕ) (m : Mapping) → find_mapping_by_stream_path i path ≡ ok (some m)
    → (m.stream_path ≡ path) × Streamed i m
unfolding find_mapping_by_stream_path
path_sound i v path m e =
    let (found, run, s) = find_string_sound false i.stream_path v.paths path in s m (cc (e, run))

-- The terminator.
get_or_past : (xs : List ℕ) (i d : ℕ) → length xs ≤ i → get_or xs i d ≡ d
get_or_past [] i d h = refl
get_or_past (x ∷ xs) zero d h = omega arith
get_or_past (x ∷ xs) (suc i) d h = get_or_past xs i d (omega arith)

-- A text of 22 characters of the alphabet is resolved by the lookup.
resolve_valid :
    (i : Index) (text : List ℕ) (m : Mapping) (size : ℕ)
    → length text ≡ 22
    → valid_prefix text 22 0 ≡ true
    → find_mapping_by_stream_identity i text ≡ ok (some m)
    → length m.stream_path < size
    → resolve_resource_stream_identity i (some text) true size ≡ ok (some m.stream_path)
unfolding resolve_resource_stream_identity copy_stream_path
resolve_valid i text m size full valid found fits =
    let ends : get_or text 22 0 ≡ 0 = get_or_past text 22 0 (omega arith) in
    ground (arith, valid, found, ends)

take-take : (n : ℕ) (xs : List ℕ) → take n (take n xs) ≡ take n xs
take-take zero xs = refl
take-take (suc n) [] = refl
take-take (suc n) (x ∷ xs) = ap (λ t. x ∷ t) (take-take n xs)

-- A mapping matches the request that describes it.
read_bytes_eq :
    (size : ℕ) (source : Option (List ℕ))
    → (size == 0) ≡ false
    → Holds size source
    → data_eq size (read_bytes size source) source ≡ ok true
unfolding data_eq
read_bytes_eq size source nonzero held =
    let (bytes, e, long) = held (ground (arith, nonzero)) in
    let enough : ltb (length bytes) size ≡ false = ground (arith, long) in
    let taken : ltb (length (take size bytes)) size ≡ false =
      ground (arith, length-take_of_le size bytes long) in
    rw (e, nonzero, taken, enough, take-take size bytes) (ap ok (bytes_eq_refl (take size bytes)))

described_stream :
    (q : Request) (n : Names) (cell : ℕ) (text : List ℕ)
    → stream_matches (described q n cell text) q.stream_path q.stream_range ≡ true
unfolding stream_matches
described_stream q n cell text = elim (Option-cases q.stream_path) [
  | inl no_stream ↦ rw no_stream refl
  | inr (path, e) ↦ rw e (ground (arith, bytes_eq_refl path))
]

-- A mapping that agrees with a request in every respect.
agreeing-existing :
    (m : Mapping) (n : Names) (q : Request)
    → same_names m n ≡ true
    → bytes_eq m.file_path n.file_path ≡ true
    → bytes_eq m.io_path n.io_path ≡ true
    → (m.resource_data_size == q.resource_data_size) ≡ true
    → ((q.resource_data_size == 0) ≡ false
        → data_eq q.resource_data_size m.resource_data q.resource_data ≡ ok true)
    → stream_matches m q.stream_path q.stream_range ≡ true
    → existing m n q ≡ ok (registered true)
unfolding existing mapping_data_matches
agreeing-existing m n q names file io sizes bytes stream =
    elim (Bool-cases (q.resource_data_size == 0)) [
      | inl empty ↦ rw (names, file, io, sizes, empty, stream) refl
      | inr nonzero ↦ rw (names, file, io, sizes, nonzero, bytes nonzero, stream) refl
    ]

described-existing :
    (q : Request) (n : Names) (cell : ℕ) (text : List ℕ)
    → Holds q.resource_data_size q.resource_data
    → existing (described q n cell text) n q ≡ ok (registered true)
unfolding same_names
described-existing q n cell text held =
    agreeing-existing (described q n cell text) n q
      (rw (bytes_eq_refl n.type_name, bytes_eq_refl n.resource_name) refl)
      (bytes_eq_refl n.file_path) (bytes_eq_refl n.io_path) (ground arith)
      (λ nonzero. read_bytes_eq q.resource_data_size q.resource_data nonzero held)
      (described_stream q n cell text)

-- A path that is too long does not get as far as the tables.
long_refused :
    (heap_alloc : HeapAlloc) (result : Bool) (q : Request) (n : Names) (s s' : Registry)
    → names_of q ≡ some n
    → any_path_too_long q n ≡ true
    → register_resource_mapping heap_alloc result q s ≢ ok (registered false, s')
unfolding register_resource_mapping
long_refused heap_alloc false q n s s' named long run = cc
long_refused heap_alloc true q n s s' named long run = elim (Bool-cases (data_missing q)) [
  | inl bad ↦ ground (arith, run, named, long, bad)
  | inr good ↦ ground (arith, run, named, long, good)
]

module _ (heap_alloc : HeapAlloc) (result : Bool) (q : Request) (s : Registry) (v : IsRegistry s)
    (small : IsSmall s.index) (ht : q.type_hash < 2 ^ 64) (hr : q.resource_hash < 2 ^ 64)
    (s' : Registry)
    (run : register_resource_mapping heap_alloc result q s ≡ ok (registered false, s')) where
  after : IsRegistry s'
  after = (registration_lem heap_alloc result q s v small ht hr (registered false) s' run).0

  published : (n : Names) × (names_of q ≡ some n) × (data_missing q ≡ false) × Publishes q n s s'
  published = publication heap_alloc result q s v small ht hr (registered false) s' run refl

  -- In a registry that satisfies its invariant and holds fewer than 2 ^ 58 entries in each
  -- table, with hashes below 2 ^ 64, after a registration that answers `registered false` for a
  -- request with a stream path, formatting the identity of its hashes gives a text that
  -- `resolve_resource_stream_identity` turns back into that path, for any buffer larger than the
  -- path.
  pub register-resolve :
      has_stream q ≡ true
      → (text : List ℕ) × (format_resource_stream_identity q.type_hash q.resource_hash
            stream_identity_size
          ≡ some text)
        × ((path_size : ℕ)
            → length (stored_stream_path q) < path_size
            → resolve_resource_stream_identity s'.index (some text) true path_size
              ≡ ok (some (stored_stream_path q)))
  register-resolve h =
      let (n, named, given, p) = published in
      let (text, e, spells) =
        format-Spells q.type_hash q.resource_hash ht hr stream_identity_size (omega arith) in
      let same : p.text ≡ text = cc (p.spelled h, e) in
      (
        p.text,
        p.spelled h,
        λ path_size fits.
            resolve_valid s'.index p.text _ path_size (ap length same ∙ spells.size)
              (ap (λ t. valid_prefix t 22 0) same ∙ spells.valid)
              (identity_found s'.index after.index _ (p.added.identified h)) fits,
      )

  -- In a registry that satisfies its invariant and holds fewer than 2 ^ 58 entries in each
  -- table, with hashes below 2 ^ 64, after a registration that answers `registered false` for a
  -- request with a stream path, `is_resource_stream_path` is true of that path, also where
  -- another mapping had the path before.
  pub register-is_resource_stream_path :
      has_stream q ≡ true → is_resource_stream_path s'.index (some (stored_stream_path q)) ≡ ok true
  unfolding is_resource_stream_path
  register-is_resource_stream_path h =
      let (n, named, given, p) = published in
      let (m, c, e) = after.index.reachable _ (p.added.identified h) in
      rw (sym e, path_found s'.index after.index m c) refl

  -- In a registry that satisfies its invariant and holds fewer than 2 ^ 58 entries in each
  -- table, with hashes below 2 ^ 64, a path that `find_mapping_by_stream_path` finds before a
  -- registration that answers `registered false` belongs to the same mapping after it.
  pub register-find_mapping_by_stream_path :
      (path : List ℕ) (m : Mapping)
      → find_mapping_by_stream_path s.index path ≡ ok (some m)
      → find_mapping_by_stream_path s'.index path ≡ ok (some m)
  register-find_mapping_by_stream_path path m e =
      let (n, named, given, p) = published in
      let (same, c) = path_sound s.index v.index path m e in
      subst (λ x. find_mapping_by_stream_path s'.index x ≡ ok (some m)) same
        (path_found s'.index after.index m (p.added.streamed_kept m c))

  -- In a registry that satisfies its invariant and holds fewer than 2 ^ 58 entries in each
  -- table, with hashes below 2 ^ 64, registering a request that a registration has just
  -- published answers `registered true` and changes nothing, whatever the allocator does.
  pub register-register :
      (heap_alloc' : HeapAlloc)
      → register_resource_mapping heap_alloc' true q s' ≡ ok (registered true, s')
  unfolding register_resource_mapping register_locked
  register-register heap_alloc' =
      let (n, text, named, found) =
        register-find_mapping heap_alloc result q s v small ht hr (registered false) s' run refl in
      let (m, named', given, p) = published in
      elim (Bool-cases (any_path_too_long q n)) [
        | inl long ↦ absurd (long_refused heap_alloc result q n s s' named long run)
        | inr short ↦
            rw (named, given, short, found)
              (ap (λ r. r >>= (λ a. ok (a, s'))) (described-existing q n _ text p.held))
      ]

  -- In a registry that satisfies its invariant and holds fewer than 2 ^ 58 entries in each
  -- table, with hashes below 2 ^ 64, after a registration that answers `registered false`,
  -- `check_resource_mapping` with the same arguments answers `registered true`.
  pub register-check_resource_mapping :
      (n : Names) → names_of q ≡ some n → check_resource_mapping true q n s' ≡ ok (registered true)
  unfolding check_resource_mapping
  register-check_resource_mapping n named =
      let (n', text, named', found) =
        register-find_mapping heap_alloc result q s v small ht hr (registered false) s' run refl in
      let (m, named'', given, p) = published in
      let same : n' ≡ n = cc (named, named') in
      rw (found, same) (described-existing q n _ text p.held)

  -- In a registry that satisfies its invariant and holds fewer than 2 ^ 58 entries in each
  -- table, with hashes below 2 ^ 64, after a registration that answers `registered false`,
  -- `find_resource_data` returns the I/O path, the copied data and the size of the request, and
  -- nothing if the path with its terminator is larger than the buffer.
  pub register-find_resource_data :
      (size : ℕ)
      → (n : Names) × (names_of q ≡ some n)
        × (find_resource_data s' q.type_hash q.resource_hash true size ≡ (
            if ltb size (length n.io_path + 1)
            then ok none
            else ok (
                some (
                  n.io_path,
                  read_bytes q.resource_data_size q.resource_data,
                  q.resource_data_size,
                ))))
  unfolding find_resource_data
  register-find_resource_data size =
      let (n, text, named, found) =
        register-find_mapping heap_alloc result q s v small ht hr (registered false) s' run refl in
      (n, named, rw found refl)

  -- In a registry that satisfies its invariant and holds fewer than 2 ^ 58 entries in each
  -- table, with hashes below 2 ^ 64, after a registration that answers `registered false`,
  -- `find_resource_stream` returns the stream path and the range of the request, and nothing if
  -- the path is absent, empty or with its terminator larger than the buffer.
  pub register-find_resource_stream :
      (size : ℕ)
      → find_resource_stream s' q.type_hash q.resource_hash true size ≡ (
          if length (stored_stream_path q) == 0 || ltb size (length (stored_stream_path q) + 1)
          then ok none
          else ok (some (stored_stream_path q, q.stream_range)))
  unfolding find_resource_stream
  register-find_resource_stream size =
      let (n, text, named, found) =
        register-find_mapping heap_alloc result q s v small ht hr (registered false) s' run refl in
      rw found refl
