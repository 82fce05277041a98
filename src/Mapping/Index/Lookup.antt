-- ===== src/Mapping/Index/Lookup.antt =====
-- What the three lookups return, in terms of the entries that the tables hold.
use darktide_mods.Base.{
  ℕ, ◌<◌, ◌≡◌, ◌≢◌, refl, inl, inr, arith, Bool, true, false, Option, none, some, if◌then◌else◌,
  ◌==◌, Run, ok, List, bytes_eq_iff, bytes_eq_refl, Bool-cases,
}
use darktide_mods.Mapping.Index.{
  SlotTable, Index, entry_hash, mapping_hash, string_hash, entry_matches, string_key,
  string_entry_hash, string_matches, find_mapping, find_string_in_slots,
}
use darktide_mods.Mapping.Index.Valid.{IsValid}
use darktide_mods.Mapping.Probe.{home, probe}
use darktide_mods.Mapping.Probe.Find.{Contains, probe_sound}
use darktide_mods.Mapping.Probe.Lookup.{search_ends, search_found, search_absent}
use darktide_mods.Mapping.Probe.Table.{used}
use darktide_mods.Mapping.Probe.Walk.{IsCapacity-pos, home-lt}
use darktide_mods.Mapping.Types.{Mapping}

-- The form that all three lookups have.
abbrev lookup_in : SlotTable → (Mapping → Bool) → ℕ → Run (Option Mapping)
lookup_in t matches h =
    if t.capacity == 0
    then ok none
    else probe matches t.slots t.capacity t.capacity (home t.capacity h)

module _ (hash : Mapping → ℕ) (t : SlotTable) (v : IsValid hash t) (matches : Mapping → Bool)
    (h : ℕ) where
  -- Every lookup ends, and what it finds is in the table and matches.
  lookup_sound :
      (r : Option Mapping) × (lookup_in t matches h ≡ ok r)
      × ((m : Mapping) → r ≡ some m → (matches m ≡ true) × Contains t.slots m)
  lookup_sound = elim v.shape [
    | inl fresh ↦ (none, ground (arith, fresh.1), λ m e. cc)
    | inr table ↦
        let (r, run) =
          search_ends hash table matches h
            (omega (arith, v.counted, v.loaded, v.wide, IsCapacity-pos table.shape)) in
        (
          r,
          ground (arith, run, IsCapacity-pos table.shape),
          λ m e.
              probe_sound t.slots t.capacity matches t.capacity _ m table.shape table.size
                (home-lt table.shape h) (rw e at run),
        )
  ]

  lookup-found :
      (m : Mapping)
      → Contains t.slots m
      → hash m ≡ h
      → matches m ≡ true
      → ((b : Mapping) → Contains t.slots b → matches b ≡ true → b ≡ m)
      → lookup_in t matches h ≡ ok (some m)
  lookup-found m c e mm only = elim v.shape [
    | inl fresh ↦ let nothing = rw fresh.0 at c.1 in cc
    | inr table ↦
        ground (arith, search_found hash table matches h m c e mm only, IsCapacity-pos table.shape)
  ]

  lookup-absent :
      ((b : Mapping) → Contains t.slots b → matches b ≡ false) → lookup_in t matches h ≡ ok none
  lookup-absent none_match = elim v.shape [
    | inl fresh ↦ ground (arith, fresh.1)
    | inr table ↦
        let room : used t.slots < t.capacity =
          omega (arith, v.counted, v.loaded, v.wide, IsCapacity-pos table.shape) in
        ground
          (arith, search_absent hash table matches h room none_match, IsCapacity-pos table.shape)
  ]

module _ (index : Index) (v : IsValid entry_hash index.mapping) where
  pub find_mapping_sound :
      (t r : ℕ)
      → (found : Option Mapping) × (find_mapping index t r ≡ ok found)
        × ((m : Mapping)
            → found ≡ some m
            → (m.type_hash ≡ t) × (m.resource_hash ≡ r) × Contains index.mapping.slots m)
  unfolding find_mapping
  find_mapping_sound t r =
      let (found, run, s) =
        lookup_sound entry_hash index.mapping v (entry_matches t r) (mapping_hash t r) in
      (found, run, λ m e. let both = (s m e).0 in (ground arith, ground arith, (s m e).1))

  -- A published mapping is found by its two hashes, if it alone has them.
  pub find_mapping-found :
      (m : Mapping)
      → Contains index.mapping.slots m
      → ((b : Mapping)
          → Contains index.mapping.slots b
          → b.type_hash ≡ m.type_hash
          → b.resource_hash ≡ m.resource_hash
          → b ≡ m)
      → find_mapping index m.type_hash m.resource_hash ≡ ok (some m)
  unfolding find_mapping
  find_mapping-found m c only =
      lookup-found entry_hash index.mapping v (entry_matches m.type_hash m.resource_hash) _ m c refl
        (ground arith) (λ b cb e. only b cb (ground arith) (ground arith))

  pub find_mapping-absent :
      (t r : ℕ)
      → ((b : Mapping) → Contains index.mapping.slots b → b.type_hash ≡ t → b.resource_hash ≢ r)
      → find_mapping index t r ≡ ok none
  unfolding find_mapping
  find_mapping-absent t r none_has =
      lookup-absent entry_hash index.mapping v (entry_matches t r) (mapping_hash t r)
        (λ b cb. ground (arith, none_has b cb))

module _ (identity : Bool) (t : SlotTable) (v : IsValid (string_entry_hash identity) t) where
  -- The two string tables: a search in one of them.
  abbrev find_string : List ℕ → Run (Option Mapping)
  find_string value = find_string_in_slots t.slots t.capacity value identity

  pub find_string_sound :
      (value : List ℕ)
      → (found : Option Mapping) × (find_string value ≡ ok found)
        × ((m : Mapping) → found ≡ some m → (string_key identity m ≡ value) × Contains t.slots m)
  unfolding find_string_in_slots
  find_string_sound value =
      let (found, run, s) =
        lookup_sound (string_entry_hash identity) t v (string_matches value identity)
          (string_hash value) in
      (found, run, λ m e. ((bytes_eq_iff _ value).0 (s m e).0, (s m e).1))

  pub find_string-found :
      (m : Mapping)
      → Contains t.slots m
      → ((b : Mapping) → Contains t.slots b → string_key identity b ≡ string_key identity m → b ≡ m)
      → find_string (string_key identity m) ≡ ok (some m)
  unfolding find_string_in_slots
  find_string-found m c only =
      lookup-found (string_entry_hash identity) t v (string_matches _ identity) _ m c refl
        (bytes_eq_refl (string_key identity m)) (λ b cb e. only b cb ((bytes_eq_iff _ _).0 e))

  pub find_string-absent :
      (value : List ℕ)
      → ((b : Mapping) → Contains t.slots b → string_key identity b ≢ value)
      → find_string value ≡ ok none
  unfolding find_string_in_slots
  find_string-absent value none_has =
      lookup-absent (string_entry_hash identity) t v (string_matches value identity)
        (string_hash value)
        (λ b cb. elim (Bool-cases (string_matches value identity b)) [
          | inl yes_it ↦ absurd (none_has b cb ((bytes_eq_iff _ value).0 yes_it))
          | inr no_it ↦ no_it
        ])
