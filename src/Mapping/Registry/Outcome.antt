-- ===== src/Mapping/Registry/Outcome.antt =====
-- How `sa_register_resource_mapping` ends, from the insertion up to the guards on its arguments.
use darktide_mods.Base.{
  ℕ, ◌^◌, ◌<◌, ◌≡◌, ◌≢◌, refl, sym, subst, ◌⊎◌, inl, inr, arith, Bool, true, false, List, [], ◌∷◌,
  ◌++◌, Option, none, some, Option-cases, Bool-cases, length, Run, ok,
}
use darktide_mods.Mapping.Index.{Index, find_mapping}
use darktide_mods.Mapping.Index.Insert.{AddedTo, insert_mapping_indexes-AddedTo}
use darktide_mods.Mapping.Index.Invariant.{IsIndex, Keyed, SameEntries-refl}
use darktide_mods.Mapping.Index.Lookup.{find_mapping_sound, find_mapping-found}
use darktide_mods.Mapping.Index.Reserve.{
  IsSmall, SameIndex, ReservedIndex, reserve_mapping_indexes-Reserved,
}
use darktide_mods.Mapping.Registry.{
  Registry, Request, Names, RegisterResult, RegisterError, rejected, registered, allocation,
  index_growth, has_stream, insert_new, publish, create_and_publish, register_new, register_locked,
  register_resource_mapping, names_of, data_missing, any_path_too_long, null_result, invalid_data,
  path_too_long,
}
use darktide_mods.Mapping.Registry.Copies.{HasData, IsShort, create_mapping-cases, existing-cases}
use darktide_mods.Mapping.Registry.Invariant.{
  IsRegistry, Publishes, Leaves, Leaves-IsRegistry, Publishes-IsRegistry, Holds, described,
  fresh_cell, new_identity,
}
use darktide_mods.Mapping.Stream.{format_resource_stream_identity}
use darktide_mods.Mapping.Stream.Format.{format-Spells}
use darktide_mods.Mapping.Types.{Mapping, HeapAlloc, stream_identity_size}

SameIndex-refl : (i : Index) → SameIndex i i
SameIndex-refl i = record {
  mapping = SameEntries-refl i.mapping;
  identity = SameEntries-refl i.stream_identity;
  path = SameEntries-refl i.stream_path;
}

-- An insertion after a reservation, seen from before the reservation.
SameIndex-AddedTo :
    (i j k : Index) (m : Mapping) (hs : Bool) → SameIndex i j → AddedTo j m hs k → AddedTo i m hs k
SameIndex-AddedTo i j k m hs s a = record {
  index = a.index;
  keyed = a.keyed;
  keyed_kept = λ b c. a.keyed_kept b (s.mapping.kept b c);
  keyed_only =
      λ b c. elim (a.keyed_only b c) [ inl old ↦ inl (s.mapping.only b old) | inr new ↦ inr new ];
  identified = a.identified;
  identified_kept = λ b c. a.identified_kept b (s.identity.kept b c);
  identified_only = λ b c. elim (a.identified_only b c) [
    | inl old ↦ inl (s.identity.only b old)
    | inr new ↦ inr new
  ];
  streamed_kept = λ b c. a.streamed_kept b (s.path.kept b c);
  streamed_only = λ b c. elim (a.streamed_only b c) [
    | inl old ↦ inl (s.path.only b old)
    | inr new ↦ inr (new.0, λ p cp. new.1 p (s.path.kept p cp))
  ];
}

-- The state after a registration: published, or left alone with another answer.
abbrev pub Registered : Request → Names → Registry → RegisterResult × Registry → Type 0
Registered q n s r =
    (Publishes q n s r.1 × (r.0 ≡ registered false)) ⊎ (Leaves s r.1 × (r.0 ≢ registered false))

abbrev pub Ends : Request → Names → Registry → Run (RegisterResult × Registry) → Type 0
Ends q n s run =
    IsShort q run
    ⊎ ((r : RegisterResult × Registry) × (run ≡ ok r) × IsRegistry r.1 × Registered q n s r)

module _ (q : Request) (n : Names) (s : Registry) (v : IsRegistry s) (ht : q.type_hash < 2 ^ 64)
    (hr : q.resource_hash < 2 ^ 64) (given : data_missing q ≡ false) where
  leaves :
      (answer : RegisterResult) (i : Index)
      → answer ≢ registered false
      → IsIndex i
      → SameIndex s.index i
      → Ends q n s (ok (answer, record s { index = i }))
  leaves answer i other vi same =
      let l : Leaves s (record s { index = i }) = record { same = same; cells = refl } in
      inr ((answer, record s { index = i }), refl, Leaves-IsRegistry s _ v vi l, inr (l, other))

  module _
      (new_key : (b : Mapping)
        → Keyed s.index b
        → b.type_hash ≡ q.type_hash
        → b.resource_hash ≢ q.resource_hash)
      (i : Index) (granted : ReservedIndex s.index (has_stream q) true i) where
    -- The insertion of an entry with its identity.
    inserts :
        Holds q.resource_data_size q.resource_data
        → (text : List ℕ)
        → (has_stream q ≡ true
            → format_resource_stream_identity q.type_hash q.resource_hash stream_identity_size
              ≡ some text)
        → Ends q n s (
            insert_new
              (described q n (length s.cells) text)
              (has_stream q)
              (record s { index = i }))
    unfolding insert_new
    inserts held text spelled =
        let (j, run, added) =
          insert_mapping_indexes-AddedTo i granted.index (described q n (length s.cells) text)
            (λ b c. new_key b (granted.same.mapping.only b c)) (has_stream q) (granted.room refl)
            (granted.stream_room refl)
            (λ h b c.
              new_identity s v q.type_hash q.resource_hash text ht hr (spelled h) new_key b
                (granted.same.identity.only b c)) in
        let p : Publishes q n s (record { index = j; cells = s.cells ++ fresh_cell ∷ [] }) =
          record {
            text = text;
            spelled = spelled;
            added = SameIndex-AddedTo s.index i j _ (has_stream q) granted.same added;
            held = held;
            cells = refl;
          } in
        inr (
          (registered false, record { index = j; cells = s.cells ++ fresh_cell ∷ [] }),
          rw run refl,
          Publishes-IsRegistry q n s _ v ht hr p,
          inl (p, refl),
        )

    publishes :
        Holds q.resource_data_size q.resource_data
        → (stream : Bool) → has_stream q ≡ stream
        → Ends q n s (publish (described q n (length s.cells) []) stream (record s { index = i }))
    unfolding publish
    publishes held false e =
        subst
          (λ b.
            Ends q n s (insert_new (described q n (length s.cells) []) b (record s { index = i })))
          e (inserts held [] (λ h. cc))
    publishes held true e =
        let (text, run, spells) =
          format-Spells q.type_hash q.resource_hash ht hr stream_identity_size (omega arith) in
        subst (Ends q n s) (sym (rw (run, publish) refl)) (
          subst
            (λ b.
              Ends q n s
                (insert_new (described q n (length s.cells) text) b (record s { index = i })))
            e (inserts held text (λ h. run)))

    creates :
        (heap_alloc : HeapAlloc)
        → Ends q n s (create_and_publish heap_alloc q n (record s { index = i }))
    unfolding create_and_publish
    creates heap_alloc = elim (create_mapping-cases heap_alloc q n (length s.cells) given) [
      | inl none_made ↦
          subst (Ends q n s) (sym (rw (none_made, create_and_publish) refl))
            (leaves (rejected allocation) i (λ e. cc) granted.index granted.same)
      | inr (inl (held, made)) ↦
          subst (Ends q n s) (sym (rw (made, create_and_publish) refl))
            (publishes held (has_stream q) refl)
      | inr (inr (short, missing)) ↦ inl (rw (short, create_and_publish) refl, missing)
    ]

  register_new-Ends :
      (heap_alloc : HeapAlloc)
      → IsSmall s.index
      → ((b : Mapping)
          → Keyed s.index b
          → b.type_hash ≡ q.type_hash
          → b.resource_hash ≢ q.resource_hash)
      → Ends q n s (register_new heap_alloc q n s)
  unfolding register_new
  register_new-Ends heap_alloc small new_key =
      let (r, run, granted) =
        reserve_mapping_indexes-Reserved heap_alloc s.index v.index small (has_stream q) in
      elim (Bool-cases r.0) [
        | inl more ↦ subst (Ends q n s) (sym (rw (run, more) refl)) (
            creates new_key r.1
              (subst (λ b. ReservedIndex s.index (has_stream q) b r.1) more granted) heap_alloc)
        | inr no_more ↦
            subst (Ends q n s) (sym (rw (run, no_more) refl))
              (leaves (rejected index_growth) r.1 (λ e. cc) granted.index granted.same)
      ]

  register_locked-Ends :
      (heap_alloc : HeapAlloc) → IsSmall s.index → Ends q n s (register_locked heap_alloc q n s)
  unfolding register_locked
  register_locked-Ends heap_alloc small =
      let (found, run, sound) =
        find_mapping_sound s.index v.index.mappings q.type_hash q.resource_hash in
      go found run sound
    where
      go :
          (found : Option Mapping)
          → find_mapping s.index q.type_hash q.resource_hash ≡ ok found
          → ((m : Mapping)
              → found ≡ some m
              → (m.type_hash ≡ q.type_hash) × (m.resource_hash ≡ q.resource_hash) × Keyed s.index m)
          → Ends q n s (register_locked heap_alloc q n s)
      go none run sound = subst (Ends q n s) (sym (rw run refl)) (
          register_new-Ends heap_alloc small (λ b cb et er. cc (
            run,
            et,
            er,
            find_mapping-found s.index v.index.mappings b cb
                (λ d cd dt dr. v.index.one_mapping d b cd cb dt dr),
          )))
      go (some m) run sound =
          let (_, _, keyed) = sound m refl in
          elim (existing-cases m n q (v.stored m keyed) given) [
            | inl (answer, e, other) ↦
                subst (Ends q n s) (sym (rw (run, e) refl))
                  (leaves answer s.index other v.index (SameIndex-refl s.index))
            | inr (short, missing) ↦ inl (rw (run, short) refl, missing)
          ]

-- The state after a registration with pointers that may be NULL.
abbrev pub Answers : Request → Registry → RegisterResult × Registry → Type 0
Answers q s r =
    ((n : Names) × (names_of q ≡ some n)
      × (data_missing q ≡ false)
      × Publishes q n s r.1
      × (r.0 ≡ registered false))
    ⊎ (Leaves s r.1 × (r.0 ≢ registered false))

-- What an operation promises that ends in one of the two ways.
abbrev pub Completes : Request → Registry → Run (RegisterResult × Registry) → Type 0
Completes q s run = (r : RegisterResult × Registry) × (run ≡ ok r) × IsRegistry r.1 × Answers q s r

-- What an operation promises whose request may be too short.
abbrev pub Concludes : Request → Registry → Run (RegisterResult × Registry) → Type 0
Concludes q s run = IsShort q run ⊎ Completes q s run

module _ (q : Request) (s : Registry) (v : IsRegistry s) where
  turned_away : (answer : RegisterError) → Concludes q s (ok (rejected answer, s))
  turned_away answer =
      let l : Leaves s s = record { same = SameIndex-refl s.index; cells = refl } in
      inr ((rejected answer, s), refl, v, inr (l, λ e. cc))

  from_Ends :
      (n : Names) (run : Run (RegisterResult × Registry))
      → names_of q ≡ some n
      → data_missing q ≡ false
      → Ends q n s run
      → Concludes q s run
  from_Ends n run named given (inl short) = inl short
  from_Ends n run named given (inr (r, e, vr, w)) =
      inr (r, e, vr, elim w [ inl (p, a) ↦ inl (n, named, given, p, a) | inr stays ↦ inr stays ])

  pub register_resource_mapping-Concludes :
      (heap_alloc : HeapAlloc) (result : Bool)
      → IsSmall s.index
      → q.type_hash < 2 ^ 64
      → q.resource_hash < 2 ^ 64
      → Concludes q s (register_resource_mapping heap_alloc result q s)
  unfolding register_resource_mapping
  register_resource_mapping-Concludes heap_alloc false small ht hr = turned_away null_result
  register_resource_mapping-Concludes heap_alloc true small ht hr =
      elim (Option-cases (names_of q)) [
        | inl missing ↦ subst (Concludes q s) (sym (rw missing refl)) (turned_away invalid_data)
        | inr (n, named) ↦ elim (Bool-cases (data_missing q)) [
          | inl bad ↦ subst (Concludes q s) (sym (rw (named, bad) refl)) (turned_away invalid_data)
          | inr good ↦ elim (Bool-cases (any_path_too_long q n)) [
            | inl long ↦
                subst (Concludes q s) (sym (rw (named, good, long) refl))
                  (turned_away path_too_long)
            | inr short ↦ subst (Concludes q s) (sym (rw (named, good, short) refl)) (
                from_Ends n _ named good (register_locked-Ends q n s v ht hr good heap_alloc small))
          ]
        ]
      ]

  -- In a registry that satisfies its invariant and holds fewer than 2 ^ 58 entries in each
  -- table, with hashes below 2 ^ 64, `register_resource_mapping` ends without a fault for every
  -- request of which the data, where its pointer is not NULL, has at least the bytes that the
  -- size says, and for every behaviour of the allocator: it keeps the invariant, and either
  -- publishes the mapping that the request describes and answers `registered false`, or leaves
  -- every entry and every state as it was and answers something else.
  pub register_resource_mapping-Completes :
      (heap_alloc : HeapAlloc) (result : Bool)
      → IsSmall s.index
      → q.type_hash < 2 ^ 64
      → q.resource_hash < 2 ^ 64
      → HasData q
      → Completes q s (register_resource_mapping heap_alloc result q s)
  register_resource_mapping-Completes heap_alloc result small ht hr enough =
      elim (register_resource_mapping-Concludes heap_alloc result small ht hr) [
        | inl (run, missing) ↦ absurd (missing enough)
        | inr completes ↦ completes
      ]
