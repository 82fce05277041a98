-- ===== src/Mapping/Index/Reserve.antt =====
-- `sa_reserve_mapping_indexes`: the growth of the tables, which may stop half way.
use darktide_mods.Base.{
  ℕ, ◌^◌, ◌<◌, ◌≡◌, refl, ◌⊎◌, subst, arith, Bool, true, false, Bool-cases, inl, inr, ok,
}
use darktide_mods.Mapping.Index.{
  SlotTable, Index, entry_hash, string_entry_hash, reserve_table, resize_slots, reserve_streams,
  reserve_mapping_indexes, resize_mapping_slots, resize_string_slots,
}
use darktide_mods.Mapping.Index.Invariant.{IsIndex, SameEntries}
use darktide_mods.Mapping.Index.Valid.{
  IsValid, HasRoom, Reserved, unchanged, reserve_table-Reserved,
}
use darktide_mods.Mapping.Types.{Mapping, HeapAlloc, mapping_slots, identity_slots, path_slots}

-- The memory of the process holds far fewer mappings.
pub record IsSmall (i : Index) : Type 0 where
  pub mappings : i.mapping.count < 2 ^ 58
  pub identities : i.stream_identity.count < 2 ^ 58
  pub paths : i.stream_path.count < 2 ^ 58

pub record SameIndex (i j : Index) : Type 0 where
  pub mapping : SameEntries i.mapping j.mapping
  pub identity : SameEntries i.stream_identity j.stream_identity
  pub path : SameEntries i.stream_path j.stream_path

-- What a reservation leaves, whether it is granted or not.
pub record ReservedIndex (i : Index) (has_stream granted : Bool) (j : Index) : Type 0 where
  pub index : IsIndex j
  pub same : SameIndex i j
  pub room : granted ≡ true → HasRoom entry_hash j.mapping
  pub stream_room :
      granted ≡ true
      → has_stream ≡ true
      → HasRoom (string_entry_hash true) j.stream_identity
        × HasRoom (string_entry_hash false) j.stream_path

Reserved-same :
    {hash : Mapping → ℕ} {t u : SlotTable} {g : Bool} → Reserved hash t g u → SameEntries t u
Reserved-same r = record { count = r.count; kept = r.kept; only = r.only }

SameIndex-IsIndex :
    (i j : Index)
    → IsIndex i
    → SameIndex i j
    → IsValid entry_hash j.mapping
    → IsValid (string_entry_hash true) j.stream_identity
    → IsValid (string_entry_hash false) j.stream_path
    → IsIndex j
SameIndex-IsIndex i j v s vm vi vp = record {
  mappings = vm;
  identities = vi;
  paths = vp;
  one_mapping = λ a b ca cb. v.one_mapping a b (s.mapping.only a ca) (s.mapping.only b cb);
  one_identity = λ a b ca cb. v.one_identity a b (s.identity.only a ca) (s.identity.only b cb);
  one_path = λ a b ca cb. v.one_path a b (s.path.only a ca) (s.path.only b cb);
  published = λ m c. s.mapping.kept m (v.published m (s.identity.only m c));
  reachable =
      λ m c. let (p, cp, e) = v.reachable m (s.identity.only m c) in (p, s.path.kept p cp, e);
}

-- The parts put together: what the code grants implies what each table grants.
reserved_parts :
    {i : Index} {gm gi gp : Bool} {tm ti tp : SlotTable}
    → IsIndex i
    → Reserved entry_hash i.mapping gm tm
    → Reserved (string_entry_hash true) i.stream_identity gi ti
    → Reserved (string_entry_hash false) i.stream_path gp tp
    → (has_stream granted : Bool) → (granted ≡ true → gm ≡ true)
    → (granted ≡ true → has_stream ≡ true → (gi ≡ true) × (gp ≡ true))
    → ReservedIndex i has_stream granted
        (record { mapping = tm; stream_identity = ti; stream_path = tp })
reserved_parts {i} {tm = tm} {ti = ti} {tp = tp} v rm ri rp has_stream granted hm hs = record {
  index = SameIndex-IsIndex i _ v same rm.valid ri.valid rp.valid;
  same = same;
  room = λ e. rm.roomy (hm e);
  stream_room = λ e h. let both = hs e h in (ri.roomy both.0, rp.roomy both.1);
}
  where
    same : SameIndex i (record { mapping = tm; stream_identity = ti; stream_path = tp })
    same = record {
      mapping = Reserved-same rm;
      identity = Reserved-same ri;
      path = Reserved-same rp;
    }

module _ (heap_alloc : HeapAlloc) (i : Index) (v : IsIndex i) (small : IsSmall i) where
  untouched_identity : Reserved (string_entry_hash true) i.stream_identity false i.stream_identity
  untouched_identity = unchanged (string_entry_hash true) i.stream_identity v.identities

  untouched_path : Reserved (string_entry_hash false) i.stream_path false i.stream_path
  untouched_path = unchanged (string_entry_hash false) i.stream_path v.paths

  with_streams :
      (t : SlotTable)
      → Reserved entry_hash i.mapping true t
      → (s : Bool × Index) × (reserve_streams heap_alloc (record i { mapping = t }) ≡ ok s)
        × ReservedIndex i true s.0 s.1
  unfolding reserve_streams resize_string_slots
  with_streams t r =
      let (a, run_a, ra) =
        reserve_table-Reserved (string_entry_hash true) identity_slots heap_alloc i.stream_identity
          v.identities small.identities in
      let (b, run_b, rb) =
        reserve_table-Reserved (string_entry_hash false) path_slots heap_alloc i.stream_path v.paths
          small.paths in
      elim (Bool-cases a.0) [
        | inr no_more ↦ (
          (false, record i { mapping = t; stream_identity = a.1 }),
          ground (arith, run_a, no_more),
          reserved_parts v r ra untouched_path true false (λ e. cc) (λ e. cc),
        )
        | inl more ↦ (
          (b.0, record i { mapping = t; stream_identity = a.1; stream_path = b.1 }),
          ground (arith, run_a, more, run_b),
          reserved_parts v r ra rb true b.0 (λ e. refl) (λ e h. (more, e)),
        )
      ]

  -- For valid tables of fewer than 2 ^ 58 entries each and every behaviour of the allocator,
  -- `reserve_mapping_indexes` ends without a fault, keeps the invariant and every entry, also
  -- where it stops half way, and where it is granted the tables that the insertion writes have
  -- room for one more entry.
  pub reserve_mapping_indexes-Reserved :
      (has_stream : Bool)
      → (r : Bool × Index) × (reserve_mapping_indexes heap_alloc has_stream i ≡ ok r)
        × ReservedIndex i has_stream r.0 r.1
  unfolding reserve_mapping_indexes resize_mapping_slots
  reserve_mapping_indexes-Reserved has_stream =
      let (a, run, r) =
        reserve_table-Reserved entry_hash mapping_slots heap_alloc i.mapping v.mappings
          small.mappings in
      go a run r (Bool-cases a.0) has_stream
    where
      go :
          (a : Bool × SlotTable)
          → reserve_table (resize_slots entry_hash mapping_slots heap_alloc) i.mapping ≡ ok a
          → Reserved entry_hash i.mapping a.0 a.1
          → (a.0 ≡ true) ⊎ (a.0 ≡ false)
          → (hs : Bool)
          → (s : Bool × Index) × (reserve_mapping_indexes heap_alloc hs i ≡ ok s)
            × ReservedIndex i hs s.0 s.1
      go (g, t) run r (inr e) hs = (
        (false, record i { mapping = t }),
        ground (arith, run, e),
        reserved_parts v r untouched_identity untouched_path hs false (λ h. cc) (λ h. cc),
      )
      go (g, t) run r (inl e) false = (
        (true, record i { mapping = t }),
        ground (arith, run, e),
        reserved_parts v r untouched_identity untouched_path false true (λ h. e) (λ h k. cc),
      )
      go (g, t) run r (inl e) true =
          let (s, run_s, rs) =
            with_streams t (subst (λ b. Reserved entry_hash i.mapping b t) e r) in
          (s, ground (arith, run, e, run_s), rs)
