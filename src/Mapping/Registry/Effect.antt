-- ===== src/Mapping/Registry/Effect.antt =====
-- What the lookups of the library see of a registration.
use darktide_mods.Base.{
  ℕ, ◌^◌, ◌<◌, ◌≡◌, ◌≢◌, sym, ap, subst, ◌∙◌, inl, inr, Bool, true, false, List, some, length, ok,
}
use darktide_mods.Mapping.Index.{
  Index, find_mapping, find_mapping_by_stream_identity, find_mapping_by_stream_path,
}
use darktide_mods.Mapping.Index.Invariant.{IsIndex, find_mapping-agree, find_string-agree}
use darktide_mods.Mapping.Index.Lookup.{find_mapping-found}
use darktide_mods.Mapping.Index.Reserve.{IsSmall}
use darktide_mods.Mapping.Registry.{
  Registry, Request, Names, RegisterResult, registered, names_of, data_missing,
  register_resource_mapping,
}
use darktide_mods.Mapping.Registry.Invariant.{IsRegistry, Publishes, Leaves, described}
use darktide_mods.Mapping.Registry.Outcome.{Answers, register_resource_mapping-Concludes}
use darktide_mods.Mapping.Types.{Mapping, HeapAlloc}

-- Two indexes that answer every lookup alike.
abbrev pub SameLookups : Index → Index → Type 0
SameLookups i j =
    ((t r : ℕ) → find_mapping j t r ≡ find_mapping i t r)
    × ((identity : List ℕ)
        → find_mapping_by_stream_identity j identity ≡ find_mapping_by_stream_identity i identity)
    × ((path : List ℕ) → find_mapping_by_stream_path j path ≡ find_mapping_by_stream_path i path)

Leaves-SameLookups :
    (s s' : Registry)
    → IsIndex s.index
    → IsIndex s'.index
    → Leaves s s'
    → SameLookups s.index s'.index
unfolding find_mapping_by_stream_identity find_mapping_by_stream_path
Leaves-SameLookups s s' v v' l = (
  (λ t r.
      find_mapping-agree s.index s'.index t r v v' (λ m et er c. l.same.mapping.kept m c)
        (λ m et er c. l.same.mapping.only m c)),
  (λ identity.
      find_string-agree true s.index.stream_identity s'.index.stream_identity v.identities
        v'.identities identity v.one_identity v'.one_identity (λ m e c. l.same.identity.kept m c)
        (λ m e c. l.same.identity.only m c)),
  (λ path.
      find_string-agree false s.index.stream_path s'.index.stream_path v.paths v'.paths path
        v.one_path v'.one_path (λ m e c. l.same.path.kept m c) (λ m e c. l.same.path.only m c)),
)

module _ (heap_alloc : HeapAlloc) (result : Bool) (q : Request) (s : Registry) (v : IsRegistry s)
    (small : IsSmall s.index) (ht : q.type_hash < 2 ^ 64) (hr : q.resource_hash < 2 ^ 64)
    (answer : RegisterResult) (s' : Registry)
    (run : register_resource_mapping heap_alloc result q s ≡ ok (answer, s')) where
  pub registration_lem : IsRegistry s' × Answers q s (answer, s')
  registration_lem =
      elim (register_resource_mapping-Concludes q s v heap_alloc result small ht hr) [
        | inl (faulted, short) ↦ absurd cc
        | inr (r, run', v', w) ↦
            let same : r ≡ (answer, s') = cc (run, run') in
            (
              subst (λ (x : RegisterResult × Registry). IsRegistry x.1) same v',
              subst (Answers q s) same w,
            )
      ]

  pub publication :
      answer ≡ registered false
      → (n : Names) × (names_of q ≡ some n) × (data_missing q ≡ false) × Publishes q n s s'
  publication e = elim registration_lem.1 [
    | inl (n, named, given, p, a) ↦ (n, named, given, p)
    | inr (l, other) ↦ absurd (other e)
  ]

  -- In a registry that satisfies its invariant and holds fewer than 2 ^ 58 entries in each
  -- table, with hashes below 2 ^ 64, a registration that does not answer `registered false`
  -- leaves the result of every lookup, by hashes, by stream identity and by stream path, as it
  -- was.
  pub register-SameLookups : answer ≢ registered false → SameLookups s.index s'.index
  register-SameLookups other = elim registration_lem.1 [
    | inl (n, named, given, p, a) ↦ absurd (other a)
    | inr (l, o) ↦ Leaves-SameLookups s s' v.index registration_lem.0.index l
  ]

  -- In a registry that satisfies its invariant and holds fewer than 2 ^ 58 entries in each
  -- table, with hashes below 2 ^ 64, a registration that answers `registered false` makes
  -- `find_mapping` return, for the two hashes of the request, the mapping that the request
  -- describes.
  pub register-find_mapping :
      answer ≡ registered false
      → (n : Names) × (text : List ℕ) × (names_of q ≡ some n)
        × (find_mapping s'.index q.type_hash q.resource_hash
            ≡ ok (some (described q n (length s.cells) text)))
  register-find_mapping e =
      let (n, named, given, p) = publication e in
      let v' = registration_lem.0.index in
      (
        n,
        p.text,
        named,
        find_mapping-found s'.index v'.mappings _ p.added.keyed
            (λ b c et er. v'.one_mapping b _ c p.added.keyed et er),
      )

  -- In a registry that satisfies its invariant and holds fewer than 2 ^ 58 entries in each
  -- table, with hashes below 2 ^ 64, a registration, whatever it answers, leaves the result of
  -- `find_mapping` for every other pair of hashes as it was, also where the tables grow.
  pub register-other_keys :
      (t r : ℕ)
      → (t ≡ q.type_hash → r ≢ q.resource_hash)
      → find_mapping s'.index t r ≡ find_mapping s.index t r
  register-other_keys t r other = elim registration_lem.1 [
    | inr (l, o) ↦ (Leaves-SameLookups s s' v.index registration_lem.0.index l).0 t r
    | inl (n, named, given, p, a) ↦
        find_mapping-agree s.index s'.index t r v.index registration_lem.0.index
          (λ m et er c. p.added.keyed_kept m c)
          (λ m et er c. elim (p.added.keyed_only m c) [
            | inl old ↦ old
            | inr new ↦ absurd (
                other (sym et ∙ ap (λ (b : Mapping). b.type_hash) new)
                  (sym er ∙ ap (λ (b : Mapping). b.resource_hash) new))
          ])
  ]
