-- ===== src/Mapping/Index/Invariant.antt =====
-- The invariant of the three tables together, and when two indexes answer a lookup alike.
use darktide_mods.Base.{ℕ, ◌≡◌, refl, sym, ◌∙◌, Bool, true, false, List, Option, none, some, ok}
use darktide_mods.Mapping.Index.{
  SlotTable, Index, entry_hash, string_key, string_entry_hash, find_mapping, find_string_in_slots,
}
use darktide_mods.Mapping.Index.Lookup.{
  find_mapping_sound, find_mapping-found, find_mapping-absent, find_string_sound, find_string-found,
  find_string-absent,
}
use darktide_mods.Mapping.Index.Valid.{IsValid}
use darktide_mods.Mapping.Probe.Find.{Contains}
use darktide_mods.Mapping.Types.{Mapping}

abbrev pub Keyed : Index → Mapping → Type 0
Keyed index m = Contains index.mapping.slots m

abbrev pub Identified : Index → Mapping → Type 0
Identified index m = Contains index.stream_identity.slots m

abbrev pub Streamed : Index → Mapping → Type 0
Streamed index m = Contains index.stream_path.slots m

pub record IsIndex (index : Index) : Type 0 where
  pub mappings : IsValid entry_hash index.mapping
  pub identities : IsValid (string_entry_hash true) index.stream_identity
  pub paths : IsValid (string_entry_hash false) index.stream_path
  pub one_mapping :
      (a b : Mapping)
      → Keyed index a
      → Keyed index b
      → a.type_hash ≡ b.type_hash
      → a.resource_hash ≡ b.resource_hash
      → a ≡ b
  pub one_identity :
      (a b : Mapping)
      → Identified index a
      → Identified index b
      → a.stream_identity ≡ b.stream_identity
      → a ≡ b
  pub one_path :
      (a b : Mapping) → Streamed index a → Streamed index b → a.stream_path ≡ b.stream_path → a ≡ b
  pub published : (m : Mapping) → Identified index m → Keyed index m
  pub reachable :
      (m : Mapping)
      → Identified index m
      → (p : Mapping) × Streamed index p × (p.stream_path ≡ m.stream_path)

-- The entries of `t` are those of `u`.
pub record SameEntries (t u : SlotTable) : Type 0 where
  pub count : u.count ≡ t.count
  pub kept : (m : Mapping) → Contains t.slots m → Contains u.slots m
  pub only : (m : Mapping) → Contains u.slots m → Contains t.slots m

pub SameEntries-refl : (t : SlotTable) → SameEntries t t
SameEntries-refl t = record { count = refl; kept = λ m c. c; only = λ m c. c }

-- Two indexes with the same mappings under a key answer the same for it.
pub find_mapping-agree :
    (i j : Index) (t r : ℕ)
    → IsIndex i
    → IsIndex j
    → ((m : Mapping) → m.type_hash ≡ t → m.resource_hash ≡ r → Keyed i m → Keyed j m)
    → ((m : Mapping) → m.type_hash ≡ t → m.resource_hash ≡ r → Keyed j m → Keyed i m)
    → find_mapping j t r ≡ find_mapping i t r
find_mapping-agree i j t r vi vj there back =
    let (found, run, s) = find_mapping_sound i vi.mappings t r in go found run s
  where
    go :
        (found : Option Mapping)
        → find_mapping i t r ≡ ok found
        → ((m : Mapping) → found ≡ some m → (m.type_hash ≡ t) × (m.resource_hash ≡ r) × Keyed i m)
        → find_mapping j t r ≡ find_mapping i t r
    go none run s =
        find_mapping-absent j vj.mappings t r (λ b cb et er. cc (
          run,
          et,
          er,
          find_mapping-found i vi.mappings b (back b et er cb)
              (λ d cd dt dr. vi.one_mapping d b cd (back b et er cb) dt dr),
        ))
        ∙ sym run
    go (some m) run s =
        let (et, er, c) = s m refl in
        let cj = there m et er c in
        cc (
          run,
          et,
          er,
          find_mapping-found j vj.mappings m cj (λ d cd dt dr. vj.one_mapping d m cd cj dt dr),
        )

pub find_string-agree :
    (identity : Bool) (t u : SlotTable)
    → IsValid (string_entry_hash identity) t
    → IsValid (string_entry_hash identity) u
    → (value : List ℕ)
    → ((a b : Mapping)
        → Contains t.slots a
        → Contains t.slots b
        → string_key identity a ≡ string_key identity b
        → a ≡ b)
    → ((a b : Mapping)
        → Contains u.slots a
        → Contains u.slots b
        → string_key identity a ≡ string_key identity b
        → a ≡ b)
    → ((m : Mapping) → string_key identity m ≡ value → Contains t.slots m → Contains u.slots m)
    → ((m : Mapping) → string_key identity m ≡ value → Contains u.slots m → Contains t.slots m)
    → find_string_in_slots u.slots u.capacity value identity
      ≡ find_string_in_slots t.slots t.capacity value identity
find_string-agree identity t u vt vu value one_t one_u there back =
    let (found, run, s) = find_string_sound identity t vt value in go found run s
  where
    go :
        (found : Option Mapping)
        → find_string_in_slots t.slots t.capacity value identity ≡ ok found
        → ((m : Mapping) → found ≡ some m → (string_key identity m ≡ value) × Contains t.slots m)
        → find_string_in_slots u.slots u.capacity value identity
          ≡ find_string_in_slots t.slots t.capacity value identity
    go none run s =
        find_string-absent identity u vu value (λ b cb e. cc (
          run,
          e,
          find_string-found identity t vt b (back b e cb)
              (λ d cd dv. one_t d b cd (back b e cb) dv),
        ))
        ∙ sym run
    go (some m) run s =
        let (e, c) = s m refl in
        let cu = there m e c in
        cc (run, e, find_string-found identity u vu m cu (λ d cd dv. one_u d m cd cu dv))
