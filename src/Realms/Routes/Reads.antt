-- ===== src/Realms/Routes/Reads.antt =====
-- Reads inside a range that was checked end without a fault.
use darktide_mods.Base.{
  ℕ, zero, suc, ◌+◌, ◌*◌, ◌^◌, ◌≤◌, ◌<◌, ◌≡◌, refl, ap, ◌∙◌, arith, Bool, true, false, not,
  if◌then◌else◌, Run, ok, ◌>>=◌,
}
use darktide_mods.InternalUtils.Memory.{Memory}
use darktide_mods.InternalUtils.Ranges.{Query, is_readable_range, is_readable_protection}
use darktide_mods.InternalUtils.Ranges.Committed.{
  IsQuery, IsCommitted, AreCommitted, is_readable_range_iff,
}
use darktide_mods.Realms.Routes.{is_readable_byte, load_bytes}

-- The run ends with a result that has a property.
abbrev pub Ends {ℓ} : {A : Type ℓ} → (A → Type 0) → Run A → Type ℓ
Ends P run = (r : _) × (run ≡ ok r) × P r

pub bind-Ends {ℓ κ} :
    {A : Type κ} {B : Type ℓ} (P : B → Type 0) (m : Run A) (f : A → Run B) (a : A)
    → m ≡ ok a
    → Ends P (f a)
    → Ends P (m >>= f)
bind-Ends P m f a e (r, g, h) = (r, ap (λ n. n >>= f) e ∙ g, h)

pub if-Ends {ℓ} :
    {A : Type ℓ} (P : A → Type 0) (b : Bool) (x y : Run A)
    → (b ≡ true → Ends P x)
    → (b ≡ false → Ends P y)
    → Ends P (if b then x else y)
if-Ends P true x y h g = h refl
if-Ends P false x y h g = g refl

module _ (query : Query) (memory : Memory) where
  committed-readable :
      (a : ℕ) → IsCommitted query is_readable_protection a → is_readable_byte query a ≡ true
  committed-readable a (r, e, state, protect) =
      rw (e, is_readable_byte) (ground (arith, state, protect))

  load_bytes-ok :
      (size address : ℕ)
      → AreCommitted query is_readable_protection address (address + size)
      → (v : ℕ) × (load_bytes query memory size address ≡ ok v)
  unfolding load_bytes
  load_bytes-ok zero address pages = (0, refl)
  load_bytes-ok (suc size) address pages =
      let (high, run) =
        load_bytes-ok size (address + 1)
          (λ a low up. pages a (omega (arith, low)) (omega (arith, up))) in
      (
        memory address + 256 * high,
        rw (committed-readable address (pages address (omega arith) (omega arith)), run) refl,
      )

  module _ (v : IsQuery query) where
    -- What is left to show after a check of a range: the code after a refusal, and the code after
    -- success, which may read inside the range.
    pub checked-Ends {ℓ} :
        {B : Type ℓ} (P : B → Type 0) (address size : ℕ) (refused f : Run B)
        → address < 2 ^ 64
        → size < 2 ^ 64
        → Ends P refused
        → (address + size < 2 ^ 64
            → AreCommitted query is_readable_protection address (address + size)
            → Ends P f)
        → Ends P (
            is_readable_range query address size >>= λ readable.
            if not readable then refused else f)
    checked-Ends P address size refused f fits small refusal success =
        let (b, run, same) = is_readable_range_iff query v address size fits small in
        bind-Ends P (is_readable_range query address size)
          (λ readable. if not readable then refused else f) b run
          (if-Ends P (not b) refused f (λ e. refusal)
            (λ e. let (_, _, inside, pages) = same.0 (ground (arith, e)) in success inside pages))

    pub load-Ends {ℓ} :
        {B : Type ℓ} (P : B → Type 0) (address size target n : ℕ) (f : ℕ → Run B)
        → AreCommitted query is_readable_protection address (address + size)
        → address ≤ target
        → target + n ≤ address + size
        → ((value : ℕ) → load_bytes query memory n target ≡ ok value → Ends P (f value))
        → Ends P (load_bytes query memory n target >>= f)
    load-Ends P address size target n f pages low inside next =
        let (value, run) =
          load_bytes-ok n target
            (λ a from up. pages a (omega (arith, low, from)) (omega (arith, up, inside))) in
        bind-Ends P (load_bytes query memory n target) f value run (next value run)
