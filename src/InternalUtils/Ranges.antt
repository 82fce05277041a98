-- ===== src/InternalUtils/Ranges.antt =====
-- memory.c: whether a range of addresses can be read or written. `VirtualQuery` is an argument.
pub mod Committed
use darktide_mods.Base.{
  ℕ, zero, suc, ◌+◌, ◌-◌, ◌%◌, ◌^◌, Bool, true, false, not, ◌&&◌, ◌||◌, Option, none, some,
  if◌then◌else◌, ltb, leb, ◌==◌, bit_and, Run, ok, fault, out_of_fuel,
}
use darktide_mods.InternalUtils.Memory.{has_flag}

-- MEMORY_BASIC_INFORMATION, as far as it is read.
pub record Region : Type 0 where
  pub base : ℕ
  pub size : ℕ
  pub state : ℕ
  pub protect : ℕ

-- `VirtualQuery`: `none` where it does not fill the structure.
abbrev pub Query : Type 0
Query = ℕ → Option Region

-- The constants of the Windows headers.
abbrev pub mem_commit : ℕ
mem_commit = 0x1000

abbrev pub page_noaccess : ℕ
page_noaccess = 0x01

abbrev pub page_guard : ℕ
page_guard = 0x100

unfoldable pub is_readable_protection : ℕ → Bool
is_readable_protection protection =
    let access = bit_and protection 0xff in
    if has_flag protection page_guard || has_flag protection page_noaccess
    then false
    else access == 0x02
      || access == 0x04
      || access == 0x08
      || access == 0x20
      || access == 0x40
      || access == 0x80

unfoldable pub is_writable_protection : ℕ → Bool
is_writable_protection protection =
    let access = bit_and protection 0xff in
    if has_flag protection page_guard || has_flag protection page_noaccess
    then false
    else access == 0x04 || access == 0x08 || access == 0x40 || access == 0x80

-- `while (cursor < end)`: a round passes a byte at least, so the size is enough fuel.
unfoldable pub check_from : Query → (ℕ → Bool) → ℕ → ℕ → ℕ → Run Bool
check_from query accept zero cursor end = if ltb cursor end then fault out_of_fuel else ok true
check_from query accept (suc fuel) cursor end = elim (query cursor) [
  | none ↦ if ltb cursor end then ok false else ok true
  | some information ↦
      let region_end = (information.base + information.size) % 2 ^ 64 in
      let rest =
        check_from query accept fuel (if ltb region_end end then region_end else end) end in
      if not (ltb cursor end)
      then ok true
      else if not (information.state == mem_commit) || not (accept information.protect)
      then ok false
      else if leb region_end cursor
      then ok false
      else rest
]

unfoldable pub check_memory_range : Query → ℕ → ℕ → (ℕ → Bool) → Run Bool
check_memory_range query address size accept =
    let checked = check_from query accept size address (address + size) in
    if address == 0 || size == 0 || ltb (2 ^ 64 - 1 - size) address then ok false else checked

unfoldable pub is_readable_range : Query → ℕ → ℕ → Run Bool
unfolding check_memory_range
is_readable_range query address size = check_memory_range query address size is_readable_protection

unfoldable pub is_writable_range : Query → ℕ → ℕ → Run Bool
unfolding check_memory_range
is_writable_range query address size = check_memory_range query address size is_writable_protection
