-- ===== src/Mapping/Registry/Invariant.antt =====
-- The invariant of the registry, and the two ways in which a registration leaves it.
use darktide_mods.Base.{
  ℕ, zero, suc, ◌+◌, ◌^◌, ◌≤◌, ◌<◌, ◌≡◌, ◌≢◌, refl, sym, ap, ◌∙◌, ◌⊎◌, inl, inr, arith, true, false,
  List, [], ◌∷◌, ◌++◌, Option, some, take, ◌==◌, length, length-append,
}
use darktide_mods.Mapping.Index.Insert.{AddedTo}
use darktide_mods.Mapping.Index.Invariant.{IsIndex, Keyed, Identified}
use darktide_mods.Mapping.Index.Reserve.{SameIndex}
use darktide_mods.Mapping.Index.{empty_table, empty_index, entry_hash, string_entry_hash}
use darktide_mods.Mapping.Index.Valid.{IsValid}
use darktide_mods.Mapping.Probe.Find.{Contains}
use darktide_mods.Mapping.Probe.Table.{used-replicate}
use darktide_mods.Mapping.Registry.{
  Registry, Request, Names, has_stream, stored_stream_path, read_bytes,
}
use darktide_mods.Mapping.Stream.{format_resource_stream_identity}
use darktide_mods.Mapping.Stream.Format.{format_injective}
use darktide_mods.Mapping.Types.{Mapping, MappingCell, pending, stream_identity_size}

-- The bytes that a size promises are there.
abbrev pub Holds : ℕ → Option (List ℕ) → Type 0
Holds size source = size ≢ 0 → (bytes : List ℕ) × (source ≡ some bytes) × (size ≤ length bytes)

pub record IsRegistry (s : Registry) : Type 0 where
  pub index : IsIndex s.index
  pub hashes : (m : Mapping) → Keyed s.index m → (m.type_hash < 2 ^ 64) × (m.resource_hash < 2 ^ 64)
  pub identity :
      (m : Mapping)
      → Identified s.index m
      → format_resource_stream_identity m.type_hash m.resource_hash stream_identity_size
        ≡ some m.stream_identity
  pub cell : (m : Mapping) → Keyed s.index m → m.cell < length s.cells
  pub stored : (m : Mapping) → Keyed s.index m → Holds m.resource_data_size m.resource_data
  pub own_cell : (a b : Mapping) → Keyed s.index a → Keyed s.index b → a.cell ≡ b.cell → a ≡ b

abbrev pub fresh_cell : MappingCell
fresh_cell = record { state = pending; error = [] }

-- The mapping that a request describes.
abbrev pub described : Request → Names → ℕ → List ℕ → Mapping
described q n cell text = record {
  type_hash = q.type_hash;
  resource_hash = q.resource_hash;
  type_name = n.type_name;
  resource_name = n.resource_name;
  file_path = n.file_path;
  io_path = n.io_path;
  stream_path = stored_stream_path q;
  stream_identity = text;
  stream_range = q.stream_range;
  resource_data = read_bytes q.resource_data_size q.resource_data;
  resource_data_size = q.resource_data_size;
  cell = cell;
}

-- A registration that publishes.
pub record Publishes (q : Request) (n : Names) (s s' : Registry) : Type 0 where
  pub text : List ℕ
  pub spelled :
      has_stream q ≡ true
      → format_resource_stream_identity q.type_hash q.resource_hash stream_identity_size ≡ some text
  pub added : AddedTo s.index (described q n (length s.cells) text) (has_stream q) s'.index
  pub held : Holds q.resource_data_size q.resource_data
  pub cells : s'.cells ≡ s.cells ++ fresh_cell ∷ []

-- A registration that changes no entry and no state, whatever it did to the capacities.
pub record Leaves (s s' : Registry) : Type 0 where
  pub same : SameIndex s.index s'.index
  pub cells : s'.cells ≡ s.cells

pub Leaves-IsRegistry :
    (s s' : Registry) → IsRegistry s → IsIndex s'.index → Leaves s s' → IsRegistry s'
Leaves-IsRegistry s s' v vi l = record {
  index = vi;
  hashes = λ m c. v.hashes m (l.same.mapping.only m c);
  identity = λ m c. v.identity m (l.same.identity.only m c);
  cell = λ m c. omega (arith, v.cell m (l.same.mapping.only m c), ap length l.cells);
  stored = λ m c. v.stored m (l.same.mapping.only m c);
  own_cell = λ a b ca cb. v.own_cell a b (l.same.mapping.only a ca) (l.same.mapping.only b cb);
}

-- A new key has a new identity, since the identity spells the key.
pub new_identity :
    (s : Registry) (v : IsRegistry s) (t r : ℕ) (text : List ℕ)
    → t < 2 ^ 64
    → r < 2 ^ 64
    → format_resource_stream_identity t r stream_identity_size ≡ some text
    → ((b : Mapping) → Keyed s.index b → b.type_hash ≡ t → b.resource_hash ≢ r)
    → (b : Mapping) → Identified s.index b
    → b.stream_identity ≢ text
new_identity s v t r text ht hr spelled new_key b c e =
    let cb = v.index.published b c in
    let small = v.hashes b cb in
    let same =
      format_injective b.type_hash b.resource_hash t r stream_identity_size small.0 small.1 ht hr
        (omega arith) (v.identity b c ∙ ap some e ∙ sym spelled) in
    new_key b cb same.0 same.1

pub length-take_of_le : (n : ℕ) (xs : List ℕ) → n ≤ length xs → length (take n xs) ≡ n
length-take_of_le zero xs h = refl
length-take_of_le (suc n) [] h = absurd (omega (arith, h))
length-take_of_le (suc n) (x ∷ xs) h = ap suc (length-take_of_le n xs (omega (arith, h)))

pub read_bytes-Holds :
    (size : ℕ) (source : Option (List ℕ)) → Holds size source → Holds size (read_bytes size source)
read_bytes-Holds size source h other =
    let (bytes, e, long) = h other in
    let nonzero : (size == 0) ≡ false = ground (arith, other) in
    (take size bytes, rw (nonzero, e) refl, omega (arith, length-take_of_le size bytes long))

pub Publishes-IsRegistry :
    (q : Request) (n : Names) (s s' : Registry)
    → IsRegistry s
    → q.type_hash < 2 ^ 64
    → q.resource_hash < 2 ^ 64
    → Publishes q n s s'
    → IsRegistry s'
Publishes-IsRegistry q n s s' v ht hr p = record {
  index = p.added.index;
  hashes = λ m c. elim (p.added.keyed_only m c) [
    | inl old ↦ v.hashes m old
    | inr same ↦ rw same (ht, hr)
  ];
  identity = λ m c. elim (p.added.identified_only m c) [
    | inl old ↦ v.identity m old
    | inr new ↦ rw new.1 (p.spelled new.0)
  ];
  cell = λ m c. elim (p.added.keyed_only m c) [
    | inl old ↦ omega (arith, v.cell m old, longer)
    | inr same ↦ rw same (omega (arith, longer))
  ];
  stored = λ m c. elim (p.added.keyed_only m c) [
    | inl old ↦ v.stored m old
    | inr same ↦ rw same (read_bytes-Holds q.resource_data_size q.resource_data p.held)
  ];
  own_cell = λ a b ca cb e. own a b (p.added.keyed_only a ca) (p.added.keyed_only b cb) e;
}
  where
    longer : length s'.cells ≡ length s.cells + 1
    longer = ap length p.cells ∙ length-append s.cells _

    entry : Mapping
    entry = described q n (length s.cells) p.text

    own :
        (a b : Mapping)
        → Keyed s.index a ⊎ (a ≡ entry)
        → Keyed s.index b ⊎ (b ≡ entry)
        → a.cell ≡ b.cell
        → a ≡ b
    own a b (inl ca) (inl cb) e = v.own_cell a b ca cb e
    own a b (inl ca) (inr eb) e =
        absurd (omega (arith, v.cell a ca, e, ap (λ (m : Mapping). m.cell) eb))
    own a b (inr ea) (inl cb) e =
        absurd (omega (arith, v.cell b cb, e, ap (λ (m : Mapping). m.cell) ea))
    own a b (inr ea) (inr eb) e = ea ∙ sym eb

-- The registry at the start of the process.
abbrev pub empty_registry : Registry
empty_registry = record { index = empty_index; cells = [] }

nothing : {m : Mapping} {A : Type 0} → Contains [] m → A
nothing c = absurd (cc (c.1))

empty-IsValid : (hash : Mapping → ℕ) → IsValid hash empty_table
empty-IsValid hash = record {
  shape = inl (refl, refl);
  counted = used-replicate Mapping 0;
  loaded = omega arith;
  wide = λ h. omega (arith, h);
}

pub empty-IsRegistry : IsRegistry empty_registry
empty-IsRegistry = record {
  index = record {
    mappings = empty-IsValid entry_hash;
    identities = empty-IsValid (string_entry_hash true);
    paths = empty-IsValid (string_entry_hash false);
    one_mapping = λ a b ca cb et er. nothing ca;
    one_identity = λ a b ca cb e. nothing ca;
    one_path = λ a b ca cb e. nothing ca;
    published = λ m c. nothing c;
    reachable = λ m c. nothing c;
  };
  hashes = λ m c. nothing c;
  identity = λ m c. nothing c;
  cell = λ m c. nothing c;
  stored = λ m c. nothing c;
  own_cell = λ a b ca cb e. nothing ca;
}
