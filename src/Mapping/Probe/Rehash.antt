-- ===== src/Mapping/Probe/Rehash.antt =====
-- Moving every entry into a larger table.
use native.Mathlib.Numerals.{add-one}
use darktide_mods.Base.{
  ℕ, zero, suc, ◌+◌, ◌≤◌, ◌<◌, ◌≡◌, refl, sym, ◌∙◌, ap, inl, inr, arith, List, [], ◌∷◌, Option,
  none, some, length, get_elem?, take, ok, dec_lt, subst,
}
use darktide_mods.Mapping.Probe.{home, place, rehash}
use darktide_mods.Mapping.Probe.Find.{Stored, Contains, slot-cases}
use darktide_mods.Mapping.Probe.Table.{used, IsTable, Inserted, place-Inserted}

module _ {ℓ} {A : Type ℓ} where
  used-take_hole :
      (slots : List (Option A)) (i : ℕ)
      → get_elem? slots i ≡ some none
      → used (take (suc i) slots) ≡ used (take i slots)
  unfolding used
  used-take_hole [] i e = cc
  used-take_hole (none ∷ slots) zero e = refl
  used-take_hole (some a ∷ slots) zero e = cc
  used-take_hole (none ∷ slots) (suc i) e = used-take_hole slots i e
  used-take_hole (some a ∷ slots) (suc i) e = ap suc (used-take_hole slots i e)

  used-take_entry :
      (slots : List (Option A)) (i : ℕ) (a : A)
      → Stored slots a i
      → used (take (suc i) slots) ≡ used (take i slots) + 1
  unfolding used
  used-take_entry [] i a e = cc
  used-take_entry (none ∷ slots) zero a e = cc
  used-take_entry (some b ∷ slots) zero a e = refl
  used-take_entry (none ∷ slots) (suc i) a e = used-take_entry slots i a e
  used-take_entry (some b ∷ slots) (suc i) a e = omega (arith, used-take_entry slots i a e)

  used-take-le : (slots : List (Option A)) (i : ℕ) → used (take i slots) ≤ used slots
  unfolding used
  used-take-le slots zero = omega arith
  used-take-le [] (suc i) = omega arith
  used-take-le (none ∷ slots) (suc i) = used-take-le slots i
  used-take-le (some a ∷ slots) (suc i) = omega (arith, used-take-le slots i)

  pub used-take_all : (slots : List (Option A)) → used (take (length slots) slots) ≡ used slots
  unfolding used
  used-take_all [] = refl
  used-take_all (none ∷ slots) = used-take_all slots
  used-take_all (some a ∷ slots) = ap suc (used-take_all slots)

module _ {ℓ} {A : Type ℓ} (hash : A → ℕ) (old : List (Option A)) (required : ℕ) where
  -- `fresh` holds the entries of the first `index` slots of `old`, and no other.
  pub record Moved (index : ℕ) (fresh : List (Option A)) : Type ℓ where
    pub table : IsTable hash required fresh
    pub counted : used fresh ≡ used (take index old)
    pub kept : (b : A) (i : ℕ) → i < index → Stored old b i → Contains fresh b
    pub only : (b : A) → Contains fresh b → Contains old b

  Moved-hole :
      (index : ℕ) (fresh : List (Option A))
      → get_elem? old index ≡ some none
      → Moved index fresh
      → Moved (suc index) fresh
  Moved-hole index fresh e m = record {
    table = m.table;
    counted = m.counted ∙ sym (used-take_hole old index e);
    kept = λ b i lt at. elim (dec_lt i index) [
      | yes p ↦ m.kept b i p at
      | no p ↦ let same : i ≡ index = omega arith in cc
    ];
    only = m.only;
  }

  Moved-entry :
      (index : ℕ) (fresh after : List (Option A)) (a : A)
      → Stored old a index
      → Moved index fresh
      → Inserted hash required fresh a after
      → Moved (suc index) after
  Moved-entry index fresh after a at m w = record {
    table = w.table;
    counted = omega (arith, w.counted, m.counted, used-take_entry old index a at);
    kept = λ b i lt at'. elim (dec_lt i index) [
      | yes p ↦ w.kept b (m.kept b i p at')
      | no p ↦ let same : i ≡ index = omega arith in let it : b ≡ a = cc in rw it w.added
    ];
    only =
        λ b c. elim (w.only b c) [ inl before ↦ m.only b before | inr same ↦ rw same (index, at) ];
  }

  rehash_hole :
      (rounds index : ℕ) (fresh : List (Option A))
      → get_elem? old index ≡ some none
      → rehash hash old required (suc rounds) index fresh
        ≡ rehash hash old required rounds (suc index) fresh
  unfolding rehash
  rehash_hole rounds index fresh e = rw (← add-one) (ground arith)

  rehash_entry :
      (rounds index : ℕ) (fresh after : List (Option A)) (a : A)
      → Stored old a index
      → place a fresh required required (home required (hash a)) ≡ ok after
      → rehash hash old required (suc rounds) index fresh
        ≡ rehash hash old required rounds (suc index) after
  unfolding rehash
  rehash_entry rounds index fresh after a at p = rw (← add-one) (ground arith)

  pub rehash-Moved :
      (rounds index : ℕ) (fresh : List (Option A))
      → index + rounds ≡ length old
      → used old < required
      → Moved index fresh
      → (after : List (Option A)) × (rehash hash old required rounds index fresh ≡ ok after)
        × Moved (length old) after
  rehash-Moved zero index fresh e room m =
      let same : index ≡ length old = omega arith in
      (fresh, unfold rehash in refl, subst (λ k. Moved k fresh) same m)
  rehash-Moved (suc rounds) index fresh e room m = elim (slot-cases old index (omega arith)) [
    | inl hole ↦
        rw (rehash_hole rounds index fresh hole)
          (rehash-Moved rounds (suc index) fresh (omega arith) room (Moved-hole index fresh hole m))
    | inr (a, at) ↦
        let (after, run, w) =
          place-Inserted hash required fresh a m.table
            (omega (arith, m.counted, used-take-le old index)) in
        rw (rehash_entry rounds index fresh after a at run) (
          rehash-Moved rounds (suc index) after (omega arith) room
            (Moved-entry index fresh after a at m w))
  ]
