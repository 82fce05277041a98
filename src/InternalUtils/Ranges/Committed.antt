-- ===== src/InternalUtils/Ranges/Committed.antt =====
-- The check of a range against the pages of the range.
use darktide_mods.Base.{
  ℕ, zero, suc, ◌+◌, ◌%◌, ◌^◌, ◌≤◌, ◌<◌, ◌≡◌, ◌≢◌, ◌↔◌, ◌⊎◌, refl, sym, ap, ◌∙◌, arith, inl, inr,
  Bool, true, false, Bool-cases, Option-cases, none, some, if◌then◌else◌, ltb, Run, ok, dec_lt,
  ℕ_discrete,
}
use darktide_mods.InternalUtils.Ranges.{
  Region, Query, mem_commit, is_readable_protection, is_writable_protection, check_from,
  check_memory_range, is_readable_range, is_writable_range,
}

-- The documentation of `VirtualQuery`: the region holds the address, and the pages from there to
-- its end have its state and protection.
pub record IsQuery (query : Query) : Type 0 where
  pub holds :
      (a : ℕ) (r : Region)
      → query a ≡ some r
      → (r.base ≤ a) × (a < r.base + r.size) × (r.base + r.size < 2 ^ 64)
  pub alike :
      (a b : ℕ) (r : Region)
      → query a ≡ some r
      → a ≤ b
      → b < r.base + r.size
      → (s : Region) × (query b ≡ some s) × (s.state ≡ r.state) × (s.protect ≡ r.protect)

-- The page of an address is committed with a protection that is accepted.
abbrev pub IsCommitted : Query → (ℕ → Bool) → ℕ → Type 0
IsCommitted query accept a =
    (r : Region) × (query a ≡ some r) × (r.state ≡ mem_commit) × (accept r.protect ≡ true)

abbrev pub AreCommitted : Query → (ℕ → Bool) → ℕ → ℕ → Type 0
AreCommitted query accept cursor end = (a : ℕ) → cursor ≤ a → a < end → IsCommitted query accept a

-- Two regions for one address are one.
one_region :
    (query : Query) (accept : ℕ → Bool) (a : ℕ) (r : Region)
    → query a ≡ some r
    → IsCommitted query accept a
    → (r.state ≡ mem_commit) × (accept r.protect ≡ true)
one_region query accept a r e (s, f, state, protect) =
    let same : s ≡ r = cc (e, f) in
    (
      ap (λ (x : Region). x.state) (sym same) ∙ state,
      ap (λ (x : Region). accept x.protect) (sym same) ∙ protect,
    )

module _ (query : Query) (v : IsQuery query) (accept : ℕ → Bool) (end : ℕ)
    (wide : end < 2 ^ 64) where
  -- The rounds after the first region.
  rest_committed :
      (cursor : ℕ) (r : Region)
      → query cursor ≡ some r
      → r.state ≡ mem_commit
      → accept r.protect ≡ true
      → AreCommitted query accept (if ltb (r.base + r.size) end then r.base + r.size else end) end
      → AreCommitted query accept cursor end
  rest_committed cursor r e state protect later a low high = elim (dec_lt a (r.base + r.size)) [
    | yes inside ↦
        let (s, f, ss, sp) = v.alike cursor a r e low inside in
        (s, f, ss ∙ state, ap accept sp ∙ protect)
    | no outside ↦ later a (ground (arith, high, outside)) high
  ]

  -- One round of the loop, branch by branch.
  round_done : (fuel cursor : ℕ) → cursor ≡ end → check_from query accept fuel cursor end ≡ ok true
  unfolding check_from
  round_done zero cursor e = ground (arith, e)
  round_done (suc fuel) cursor e = elim (Option-cases (query cursor)) [
    | inl f ↦ rw (f, check_from) (ground (arith, e))
    | inr (r, f) ↦ rw (f, check_from) (ground (arith, e))
  ]

  round_none :
      (fuel cursor : ℕ)
      → query cursor ≡ none
      → cursor < end
      → check_from query accept (suc fuel) cursor end ≡ ok false
  unfolding check_from
  round_none fuel cursor e high = rw (e, check_from) (ground (arith, high))

  round_rejected :
      (fuel cursor : ℕ) (r : Region)
      → query cursor ≡ some r
      → cursor < end
      → (r.state ≢ mem_commit) ⊎ (accept r.protect ≡ false)
      → check_from query accept (suc fuel) cursor end ≡ ok false
  unfolding check_from
  round_rejected fuel cursor r e high bad = rw (e, check_from) (ground (arith, high, bad))

  round_next :
      (fuel cursor : ℕ) (r : Region)
      → query cursor ≡ some r
      → cursor < end
      → r.state ≡ mem_commit
      → accept r.protect ≡ true
      → check_from query accept (suc fuel) cursor end
        ≡ check_from query accept fuel
            (if ltb (r.base + r.size) end then r.base + r.size else end)
            end
  unfolding check_from
  round_next fuel cursor r e high state protect =
      let (below, above, fits) = v.holds cursor r e in
      let narrow : (r.base + r.size) % 2 ^ 64 ≡ r.base + r.size = omega (arith, fits) in
      rw (e, check_from) (rw narrow (ground (arith, high, state, protect, above)))

  refused :
      (cursor : ℕ) (run : Run Bool)
      → run ≡ ok false
      → ¬ AreCommitted query accept cursor end
      → (b : Bool) × (run ≡ ok b) × ((b ≡ true) ↔ AreCommitted query accept cursor end)
  refused cursor run e bad = (false, e, (λ h. cc, λ h. absurd (bad h)))

  check_from-Committed :
      (fuel cursor : ℕ)
      → end ≤ fuel + cursor
      → cursor ≤ end
      → (b : Bool) × (check_from query accept fuel cursor end ≡ ok b)
        × ((b ≡ true) ↔ AreCommitted query accept cursor end)
  check_from-Committed zero cursor enough low = (
    true,
    round_done zero cursor (omega arith),
    (λ _ a p q. absurd (omega (arith, p, q)), λ _. refl),
  )
  check_from-Committed (suc fuel) cursor enough low = elim (dec_lt cursor end) [
    | no done ↦ (
      true,
      round_done (suc fuel) cursor (omega arith),
      (λ _ a p q. absurd (omega (arith, p, q)), λ _. refl),
    )
    | yes high ↦ elim (Option-cases (query cursor)) [
      | inl e ↦
          refused cursor _ (round_none fuel cursor e high)
            (λ all. let (r, f, _, _) = all cursor (omega arith) high in absurd cc)
      | inr (r, e) ↦ elim (ℕ_discrete r.state mem_commit) [
        | no state ↦
            refused cursor _ (round_rejected fuel cursor r e high (inl state))
              (λ all. state (one_region query accept cursor r e (all cursor (omega arith) high)).0)
        | yes state ↦ elim (Bool-cases (accept r.protect)) [
          | inr bad ↦ refused cursor _ (round_rejected fuel cursor r e high (inr bad)) (λ all.
              let (_, good) = one_region query accept cursor r e (all cursor (omega arith) high) in
              cc)
          | inl good ↦
              let (b, run, same) =
                check_from-Committed fuel
                  (if ltb (r.base + r.size) end then r.base + r.size else end)
                  (ground (arith, enough, v.holds cursor r e)) (ground (arith, low)) in
              (
                b,
                round_next fuel cursor r e high state good ∙ run,
                (
                  λ h. rest_committed cursor r e state good (same.0 h),
                  λ all. same.1 (λ a p. all a (ground (arith, p, v.holds cursor r e))),
                ),
              )
        ]
      ]
    ]
  ]

-- The range is in the address space without the null page's first byte, is not empty, and each of
-- its pages is committed with a protection that is accepted.
abbrev pub IsRange : Query → (ℕ → Bool) → ℕ → ℕ → Type 0
IsRange query accept address size =
    (0 < address)
    × (0 < size)
    × (address + size < 2 ^ 64)
    × AreCommitted query accept address (address + size)

pub check_memory_range-Range :
    (query : Query)
    → IsQuery query
    → (accept : ℕ → Bool) (address size : ℕ) → address < 2 ^ 64
    → size < 2 ^ 64
    → (b : Bool) × (check_memory_range query address size accept ≡ ok b)
      × ((b ≡ true) ↔ IsRange query accept address size)
unfolding check_memory_range
check_memory_range-Range query v accept address size p q = elim (ℕ_discrete address 0) [
  | yes e ↦ (false, ground (arith, e), (λ h. cc, λ h. absurd (omega (arith, h.0, e))))
  | no a ↦ elim (ℕ_discrete size 0) [
    | yes e ↦ (false, ground (arith, e), (λ h. cc, λ h. absurd (omega (arith, h.1, e))))
    | no s ↦ elim (dec_lt (address + size) (2 ^ 64)) [
      | no wide ↦ (false, ground (arith, wide, q), (λ h. cc, λ h. absurd (wide h.2)))
      | yes fits ↦
          let (b, run, same) =
            check_from-Committed query v accept (address + size) fits size address (omega arith)
              (omega arith) in
          let e : check_memory_range query address size accept
              ≡ check_from query accept size address (address + size) =
            ground (arith, a, s, fits) in
          (b, e ∙ run, (λ h. (omega (arith, a), omega (arith, s), fits, same.0 h), λ h. same.1 h.3))
    ]
  ]
]

-- Where the query behaves as documented, and for an address and a size of 64 bits,
-- `is_readable_range` ends without running out of fuel; its answer is true exactly if the
-- address and the size are not 0, the range ends inside 64 bits, and each address in it is of a
-- committed region with a readable protection.
pub is_readable_range_iff :
    (query : Query)
    → IsQuery query
    → (address size : ℕ) → address < 2 ^ 64
    → size < 2 ^ 64
    → (b : Bool) × (is_readable_range query address size ≡ ok b)
      × ((b ≡ true) ↔ IsRange query is_readable_protection address size)
unfolding is_readable_range
is_readable_range_iff query v address size p q =
    check_memory_range-Range query v is_readable_protection address size p q

writable-readable : (p : ℕ) → is_writable_protection p ≡ true → is_readable_protection p ≡ true
unfolding is_writable_protection is_readable_protection
writable-readable p h = ground (arith, h)

pub is_writable_range-readable :
    (query : Query)
    → IsQuery query
    → (address size : ℕ) → address < 2 ^ 64
    → size < 2 ^ 64
    → is_writable_range query address size ≡ ok true
    → is_readable_range query address size ≡ ok true
unfolding is_writable_range
is_writable_range-readable query v address size p q h =
    let (b, run, same) = check_memory_range-Range query v is_writable_protection address size p q in
    let (c, read, iff) = is_readable_range_iff query v address size p q in
    let b_true : b ≡ true = cc in
    let (pa, ps, fits, pages) = same.0 b_true in
    let c_true : c ≡ true = iff.1 (
      pa,
      ps,
      fits,
      λ a low high.
          let (r, f, state, protect) = pages a low high in
          (r, f, state, writable-readable r.protect protect),
    ) in
    cc
