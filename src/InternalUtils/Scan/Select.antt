-- ===== src/InternalUtils/Scan/Select.antt =====
-- The loop of a search against the list of the addresses that pass its test.
use darktide_mods.Base.{
  ℕ, zero, suc, ◌+◌, ◌*◌, ◌%◌, ◌^◌, ◌≤◌, ◌<◌, ◌≡◌, refl, sym, ap, ◌∙◌, arith, inl, inr, Bool, true,
  false, Bool-cases, List, [], ◌∷◌, ◌++◌, append-nil, append_assoc, none, some, if◌then◌else◌, ltb,
  leb, length, length-append, take, ok,
}
use darktide_mods.InternalUtils.Scan.{Output, Hits, hit, scan}

-- The first `n` of the addresses `address`, `address + step`, … that pass.
abbrev pub selected : (ℕ → Bool) → ℕ → ℕ → ℕ → List ℕ
selected passes step zero address = []
selected passes step (suc n) address =
    let others = selected passes step n (address + step) in
    if passes address then address ∷ others else others

abbrev pub gather : Output → List ℕ → Hits → Hits
gather out [] h = h
gather out (a ∷ addresses) h = gather out addresses (hit out a h)

pub gather-append :
    (out : Output) (xs ys : List ℕ) (h : Hits)
    → gather out (xs ++ ys) h ≡ gather out ys (gather out xs h)
gather-append out [] ys h = refl
gather-append out (x ∷ xs) ys h = gather-append out xs ys (hit out x h)

-- What a search reports that has these hits.
abbrev pub report : Output → List ℕ → Hits
report none found = record { stored = []; count = length found }
report (some capacity) found = record { stored = take capacity found; count = length found }

pub take-nil : (n : ℕ) → take {A = ℕ} n [] ≡ []
take-nil zero = refl
take-nil (suc n) = refl

take-snoc :
    (n : ℕ) (xs : List ℕ) (a : ℕ)
    → take n (xs ++ a ∷ []) ≡ (if ltb (length xs) n then take n xs ++ a ∷ [] else take n xs)
take-snoc zero xs a = ground arith
take-snoc (suc n) [] a = ap (λ t. a ∷ t) (take-nil n) ∙ ground arith
take-snoc (suc n) (x ∷ xs) a = ground (arith, take-snoc n xs a)

hit-report :
    (out : Output) (found : List ℕ) (a : ℕ)
    → length found + 1 < 2 ^ 64
    → hit out a (report out found) ≡ report out (found ++ a ∷ [])
unfolding hit
hit-report none found a small =
    ap (λ n. record { stored = []; count = n }) (omega (arith, length-append found (a ∷ [])))
hit-report (some capacity) found a small =
    ap (λ t. record { stored = t; count = (length found + 1) % 2 ^ 64 })
      (sym (take-snoc capacity found a))
    ∙ ap (λ n. record { stored = take capacity (found ++ a ∷ []); count = n })
        (omega (arith, length-append found (a ∷ [])))

-- Storing one hit after the other keeps the first ones.
pub gather-report :
    (out : Output) (before found : List ℕ)
    → length before + length found < 2 ^ 64
    → gather out found (report out before) ≡ report out (before ++ found)
gather-report out before [] small = ap (report out) (sym (append-nil before))
gather-report out before (a ∷ found) small =
    ap (gather out found) (hit-report out before a (omega arith))
    ∙ gather-report out (before ++ a ∷ []) found (omega (arith, length-append before (a ∷ [])))
    ∙ ap (report out) (append_assoc before (a ∷ []) found)

-- `n` rounds from `offset` on, with `step` between them, go past `last`, and no fewer do.
pub record Rounds (step last offset n : ℕ) : Type 0 where
  pub past : last < offset + n * step
  pub needed : (m : ℕ) → n ≡ suc m → offset + m * step ≤ last

mul_suc : (m n : ℕ) → suc m * n ≡ n + m * n
mul_suc m n = grind arith

module _ (out : Output) (passes : ℕ → Bool) (step start last : ℕ) where
  pub scan-gather :
      (fuel offset n : ℕ) (h : Hits)
      → last + step < 2 ^ 64
      → n ≤ fuel
      → Rounds step last offset n
      → scan out passes step start last fuel offset h
        ≡ ok (gather out (selected passes step n (start + offset)) h)
  unfolding scan
  scan-gather zero offset zero h small enough r =
      let past : leb offset last ≡ false = ground (arith, r.past) in rw past refl
  scan-gather (suc fuel) offset zero h small enough r =
      let past : leb offset last ≡ false = ground (arith, r.past) in rw past refl
  scan-gather zero offset (suc n) h small enough r = absurd (omega (arith, enough))
  scan-gather (suc fuel) offset (suc n) h small enough r =
      let first : offset + n * step ≤ last = r.needed n refl in
      let inside : leb offset last ≡ true = ground (arith, first) in
      let next : (offset + step) % 2 ^ 64 ≡ offset + step = omega (arith, first, small) in
      let here : start + (offset + step) ≡ start + offset + step = omega arith in
      let others : Rounds step last (offset + step) n = record {
        past = omega (arith, r.past, mul_suc n step);
        needed = λ m e. omega (arith, first, ap (λ k. k * step) e, mul_suc m step);
      } in
      rw (inside, next)
        (elim (Bool-cases (passes (start + offset))) [
          | inl yes_it ↦
              rw
                (
                  yes_it,
                  scan-gather fuel (offset + step) n (hit out (start + offset) h) small
                      (omega (arith, enough)) others,
                  here,
                )
                refl
          | inr no_it ↦
              rw
                (
                  no_it,
                  scan-gather fuel (offset + step) n h small (omega (arith, enough)) others,
                  here,
                )
                refl
        ])
