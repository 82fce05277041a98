-- ===== src/Mapping/Index/Insert.antt =====
-- `sa_insert_mapping_indexes`: a mapping with a new key goes into the tables it belongs to.
use darktide_mods.Base.{
  ℕ, ◌+◌, ◌≡◌, ◌≢◌, refl, sym, subst, ◌∙◌, ◌⊎◌, inl, inr, arith, Bool, true, false, List, Option,
  Option-cases, ok,
}
use darktide_mods.Mapping.Index.{
  SlotTable, Index, entry_hash, string_entry_hash, insert_mapping_slot, insert_string_slot,
  insert_streams, insert_mapping_indexes,
}
use darktide_mods.Mapping.Index.Invariant.{IsIndex, Keyed, Identified, Streamed}
use darktide_mods.Mapping.Index.Lookup.{find_string_sound, find_string-found}
use darktide_mods.Mapping.Index.Valid.{IsValid, HasRoom}
use darktide_mods.Mapping.Probe.{home, place}
use darktide_mods.Mapping.Probe.Find.{Contains}
use darktide_mods.Mapping.Probe.Table.{place-Inserted}
use darktide_mods.Mapping.Types.{Mapping}

-- `after` is `t` with the entry `m` more.
pub record Extends (hash : Mapping → ℕ) (t : SlotTable) (m : Mapping) (after : SlotTable)
    : Type 0 where
  pub valid : IsValid hash after
  pub added : Contains after.slots m
  pub kept : (b : Mapping) → Contains t.slots b → Contains after.slots b
  pub only : (b : Mapping) → Contains after.slots b → Contains t.slots b ⊎ (b ≡ m)

abbrev extended : SlotTable → List (Option Mapping) → SlotTable
extended t slots = record t { slots = slots; count = t.count + 1 }

place-Extends :
    (hash : Mapping → ℕ) (t : SlotTable) (m : Mapping)
    → IsValid hash t
    → HasRoom hash t
    → (slots : List (Option Mapping)) × (place m t.slots t.capacity t.capacity
          (home t.capacity (hash m))
        ≡ ok slots)
      × Extends hash t m (extended t slots)
place-Extends hash t m v r =
    let (slots, run, w) =
      place-Inserted hash t.capacity t.slots m r.table (omega (arith, v.counted, r.room)) in
    (
      slots,
      run,
      record {
        valid = record {
          shape = inr w.table;
          counted = omega (arith, w.counted, v.counted);
          loaded = r.room;
          wide = v.wide;
        };
        added = w.added;
        kept = w.kept;
        only = w.only;
      },
    )

-- What the insertion of `m` leaves.
pub record AddedTo (i : Index) (m : Mapping) (has_stream : Bool) (j : Index) : Type 0 where
  pub index : IsIndex j
  pub keyed : Keyed j m
  pub keyed_kept : (b : Mapping) → Keyed i b → Keyed j b
  pub keyed_only : (b : Mapping) → Keyed j b → Keyed i b ⊎ (b ≡ m)
  pub identified : has_stream ≡ true → Identified j m
  pub identified_kept : (b : Mapping) → Identified i b → Identified j b
  pub identified_only :
      (b : Mapping) → Identified j b → Identified i b ⊎ ((has_stream ≡ true) × (b ≡ m))
  pub streamed_kept : (b : Mapping) → Streamed i b → Streamed j b
  pub streamed_only :
      (b : Mapping)
      → Streamed j b
      → Streamed i b
        ⊎ (((has_stream ≡ true) × (b ≡ m))
            × ((p : Mapping) → Streamed i p → p.stream_path ≢ m.stream_path))

-- Entries that a relation tells apart are still told apart with a new one that it relates to none.
extended_unique :
    (R : Mapping → Mapping → Type 0) (C D : Mapping → Type 0) (m : Mapping)
    → ((a b : Mapping) → R a b → R b a)
    → ((a b : Mapping) → C a → C b → R a b → a ≡ b)
    → ((b : Mapping) → C b → ¬ R b m)
    → ((b : Mapping) → D b → C b ⊎ (b ≡ m))
    → (a b : Mapping) → D a
    → D b
    → R a b
    → a ≡ b
extended_unique R C D m symm one new only a b da db r = go (only a da) (only b db)
  where
    go : C a ⊎ (a ≡ m) → C b ⊎ (b ≡ m) → a ≡ b
    go (inl ca) (inl cb) = one a b ca cb r
    go (inl ca) (inr eb) = absurd (new a ca (subst (R a) eb r))
    go (inr ea) (inl cb) = absurd (new b cb (subst (R b) ea (symm a b r)))
    go (inr ea) (inr eb) = ea ∙ sym eb

-- The tables of the code, and the conditions under which the registry inserts.
module _ (i : Index) (v : IsIndex i) (m : Mapping)
    (new_key : (b : Mapping)
      → Keyed i b
      → b.type_hash ≡ m.type_hash
      → b.resource_hash ≢ m.resource_hash) where
  one_mapping_extended :
      (t : SlotTable)
      → Extends entry_hash i.mapping m t
      → (a b : Mapping) → Contains t.slots a
      → Contains t.slots b
      → a.type_hash ≡ b.type_hash
      → a.resource_hash ≡ b.resource_hash
      → a ≡ b
  one_mapping_extended t x a b ca cb et er =
      extended_unique (λ a b. (a.type_hash ≡ b.type_hash) × (a.resource_hash ≡ b.resource_hash))
        (Keyed i) (Contains t.slots) m (λ a b e. (sym e.0, sym e.1))
        (λ a b ca cb e. v.one_mapping a b ca cb e.0 e.1) (λ b cb e. new_key b cb e.0 e.1) x.only a b
        ca cb (et, er)

  plain_AddedTo :
      (t : SlotTable)
      → Extends entry_hash i.mapping m t
      → AddedTo i m false (record i { mapping = t })
  plain_AddedTo t x = record {
    index = record {
      mappings = x.valid;
      identities = v.identities;
      paths = v.paths;
      one_mapping = one_mapping_extended t x;
      one_identity = v.one_identity;
      one_path = v.one_path;
      published = λ b c. x.kept b (v.published b c);
      reachable = v.reachable;
    };
    keyed = x.added;
    keyed_kept = x.kept;
    keyed_only = x.only;
    identified = λ e. cc;
    identified_kept = λ b c. c;
    identified_only = λ b c. inl c;
    streamed_kept = λ b c. c;
    streamed_only = λ b c. inl c;
  }

  module _ (new_identity : (b : Mapping) → Identified i b → b.stream_identity ≢ m.stream_identity)
      (tm ti : SlotTable) (xm : Extends entry_hash i.mapping m tm)
      (xi : Extends (string_entry_hash true) i.stream_identity m ti) where
    one_identity_extended :
        (a b : Mapping)
        → Contains ti.slots a
        → Contains ti.slots b
        → a.stream_identity ≡ b.stream_identity
        → a ≡ b
    one_identity_extended =
        extended_unique (λ a b. a.stream_identity ≡ b.stream_identity) (Identified i)
          (Contains ti.slots) m (λ a b e. sym e) v.one_identity new_identity xi.only

    published_extended : (b : Mapping) → Contains ti.slots b → Contains tm.slots b
    published_extended b c = elim (xi.only b c) [
      | inl old ↦ xm.kept b (v.published b old)
      | inr same ↦ rw same xm.added
    ]

    -- The stream path is known: the first mapping with it stays the one that the path finds.
    known_AddedTo :
        (other : Mapping)
        → Streamed i other
        → other.stream_path ≡ m.stream_path
        → AddedTo i m true (record i { mapping = tm; stream_identity = ti })
    known_AddedTo other co e = record {
      index = record {
        mappings = xm.valid;
        identities = xi.valid;
        paths = v.paths;
        one_mapping = one_mapping_extended tm xm;
        one_identity = one_identity_extended;
        one_path = v.one_path;
        published = published_extended;
        reachable = λ b c. elim (xi.only b c) [
          | inl old ↦ v.reachable b old
          | inr same ↦ rw same (other, co, e)
        ];
      };
      keyed = xm.added;
      keyed_kept = xm.kept;
      keyed_only = xm.only;
      identified = λ _. xi.added;
      identified_kept = xi.kept;
      identified_only =
          λ b c. elim (xi.only b c) [ inl old ↦ inl old | inr same ↦ inr (refl, same) ];
      streamed_kept = λ b c. c;
      streamed_only = λ b c. inl c;
    }

    new_AddedTo :
        (tp : SlotTable)
        → Extends (string_entry_hash false) i.stream_path m tp
        → ((p : Mapping) → Streamed i p → p.stream_path ≢ m.stream_path)
        → AddedTo i m true (record { mapping = tm; stream_identity = ti; stream_path = tp })
    new_AddedTo tp xp new_path = record {
      index = record {
        mappings = xm.valid;
        identities = xi.valid;
        paths = xp.valid;
        one_mapping = one_mapping_extended tm xm;
        one_identity = one_identity_extended;
        one_path =
            extended_unique (λ a b. a.stream_path ≡ b.stream_path) (Streamed i) (Contains tp.slots)
              m (λ a b e. sym e) v.one_path new_path xp.only;
        published = published_extended;
        reachable = λ b c. elim (xi.only b c) [
          | inl old ↦ let (p, cp, e) = v.reachable b old in (p, xp.kept p cp, e)
          | inr same ↦ rw same (m, xp.added, refl)
        ];
      };
      keyed = xm.added;
      keyed_kept = xm.kept;
      keyed_only = xm.only;
      identified = λ _. xi.added;
      identified_kept = xi.kept;
      identified_only =
          λ b c. elim (xi.only b c) [ inl old ↦ inl old | inr same ↦ inr (refl, same) ];
      streamed_kept = xp.kept;
      streamed_only =
          λ b c. elim (xp.only b c) [ inl old ↦ inl old | inr same ↦ inr ((refl, same), new_path) ];
    }

  streams_AddedTo :
      (new_identity : (b : Mapping) → Identified i b → b.stream_identity ≢ m.stream_identity)
      (tm : SlotTable)
      → Extends entry_hash i.mapping m tm
      → HasRoom (string_entry_hash true) i.stream_identity
      → HasRoom (string_entry_hash false) i.stream_path
      → (j : Index) × (insert_streams m (record i { mapping = tm }) ≡ ok j) × AddedTo i m true j
  unfolding insert_streams insert_string_slot
  streams_AddedTo new_identity tm xm room_i room_p =
      let (ids, run_i, xi) =
        place-Extends (string_entry_hash true) i.stream_identity m v.identities room_i in
      let ti = extended i.stream_identity ids in
      let (paths, run_p, xp) =
        place-Extends (string_entry_hash false) i.stream_path m v.paths room_p in
      let (found, run, s) = find_string_sound false i.stream_path v.paths m.stream_path in
      elim (Option-cases found) [
        | inr (p, e) ↦
            let (same, cp) = s p e in
            (
              record i { mapping = tm; stream_identity = ti },
              rw run_i (rw run (rw e)),
              known_AddedTo new_identity tm ti xm xi p cp same,
            )
        | inl e ↦ (
          record { mapping = tm; stream_identity = ti; stream_path = extended i.stream_path paths },
          rw run_i (rw run (rw e (rw run_p))),
          new_AddedTo new_identity tm ti xm xi (extended i.stream_path paths) xp (λ p cp same. cc (
            run,
            e,
            same,
            find_string-found false i.stream_path v.paths p cp (λ q cq d. v.one_path q p cq cp d),
          )),
        )
      ]

  -- In valid tables with room, for a mapping whose hashes no entry has and whose stream
  -- identity, if it has a stream, no entry has, `insert_mapping_indexes` ends, keeps the
  -- invariant of the tables, and adds exactly that mapping to the table of hashes, to that of
  -- identities if it has a stream, and to that of paths if it has a stream and no entry has its
  -- path.
  pub insert_mapping_indexes-AddedTo :
      (has_stream : Bool)
      → HasRoom entry_hash i.mapping
      → (has_stream ≡ true
          → HasRoom (string_entry_hash true) i.stream_identity
            × HasRoom (string_entry_hash false) i.stream_path)
      → (has_stream ≡ true → (b : Mapping) → Identified i b → b.stream_identity ≢ m.stream_identity)
      → (j : Index) × (insert_mapping_indexes m has_stream i ≡ ok j) × AddedTo i m has_stream j
  unfolding insert_mapping_indexes insert_mapping_slot
  insert_mapping_indexes-AddedTo false room stream_room new_identity =
      let (slots, run, x) = place-Extends entry_hash i.mapping m v.mappings room in
      (
        record i { mapping = extended i.mapping slots },
        rw run,
        plain_AddedTo (extended i.mapping slots) x,
      )
  insert_mapping_indexes-AddedTo true room stream_room new_identity =
      let (slots, run, x) = place-Extends entry_hash i.mapping m v.mappings room in
      let both = stream_room refl in
      rw run (streams_AddedTo (new_identity refl) (extended i.mapping slots) x both.0 both.1)
