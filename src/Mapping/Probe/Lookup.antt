-- ===== src/Mapping/Probe/Lookup.antt =====
-- The search loop on a table with a free slot.
use darktide_mods.Base.{ℕ, ◌<◌, ◌≡◌, arith, Bool, true, false, List, Option, none, some, ok, Run}
use darktide_mods.Mapping.Probe.{home, probe}
use darktide_mods.Mapping.Probe.Walk.{home-lt, walk-reaches}
use darktide_mods.Mapping.Probe.Find.{Contains, probe_ends, probe_sound, probe_complete}
use darktide_mods.Mapping.Probe.Table.{used, used-hole, IsTable}

module _ {ℓ} {A : Type ℓ} (hash : A → ℕ) {capacity : ℕ} {slots : List (Option A)}
    (t : IsTable hash capacity slots) (matches : A → Bool) (h : ℕ) where
  abbrev search_result : Run (Option A)
  search_result = probe matches slots capacity capacity (home capacity h)

  pub search_ends : used slots < capacity → (r : Option A) × (search_result ≡ ok r)
  search_ends room =
      let start = home capacity h in
      let start_in = home-lt t.shape h in
      let (i, i_in, e) = used-hole slots (omega (arith, t.size)) in
      let (d, few, reached) = walk-reaches t.shape start i start_in (omega (arith, t.size)) in
      probe_ends slots capacity matches d capacity start t.shape t.size few start_in (rw reached e)

  -- An entry that matches, and with which every match agrees, is found.
  pub search_found :
      (a : A)
      → Contains slots a
      → hash a ≡ h
      → matches a ≡ true
      → ((b : A) → Contains slots b → matches b ≡ true → b ≡ a)
      → search_result ≡ ok (some a)
  search_found a at same m only =
      let start_in = home-lt t.shape h in
      let p = t.placed a at.0 at.1 in
      let (b, e) =
        probe_complete slots capacity matches p.steps capacity (home capacity h) a t.shape p.few
          start_in (rw (← same, p.ends) at.1) m (λ k q. rw (← same) (p.run k q)) in
      let (mb, cb) = probe_sound slots capacity matches capacity _ b t.shape t.size start_in e in
      rw (← only b cb mb) e

  -- Where no entry matches, nothing is found.
  pub search_absent :
      used slots < capacity
      → ((b : A) → Contains slots b → matches b ≡ false)
      → search_result ≡ ok none
  search_absent room none_match = go (search_ends room)
    where
      go : (r : Option A) × (search_result ≡ ok r) → search_result ≡ ok none
      go (none, e) = e
      go (some b, e) =
          let (mb, cb) =
            probe_sound slots capacity matches capacity _ b t.shape t.size (home-lt t.shape h) e in
          cc (none_match b cb)
