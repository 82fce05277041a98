-- ===== src/InternalUtils/ImageTests.antt =====
-- A module of two sections, and a memory map of two regions.
use darktide_mods.Base.{
  bytes_eq, ℕ, ◌+◌, ◌<◌, ◌≤◌, ◌≡◌, ◌⊎◌, ◌↔◌, refl, arith, Bool, true, [], ◌∷◌, none, some,
  if◌then◌else◌, ltb, get_elem?, codes, ok,
}
use darktide_mods.InternalUtils.Memory.{Section}
use darktide_mods.InternalUtils.Ranges.{
  Query, is_readable_protection, is_readable_range, is_writable_range, check_from,
  is_writable_protection,
}
use darktide_mods.InternalUtils.Ranges.Committed.{
  IsQuery, IsRange, is_readable_range_iff, is_writable_range-readable,
}
use darktide_mods.InternalUtils.Image.{
  SectionHeader, ImageHeaders, Module, loaded, module_init_current, section_for_address,
  is_executable_address,
}
use darktide_mods.InternalUtils.Image.Load.{IsModule, module_init_current-IsModule}
use darktide_mods.InternalUtils.Image.Address.{
  Holds, section_for_address-first, is_executable_address-inside,
}

-- Pages from 4096 to 8191 can be written, those up to 12287 only read.
abbrev two_regions : Query
two_regions a =
    if ltb a 4096
    then none
    else if ltb a 8192
    then some record { base = 4096; size = 4096; state = 4096; protect = 4 }
    else if ltb a 12288
    then some record { base = 8192; size = 4096; state = 4096; protect = 2 }
    else none

two_regions-IsQuery : IsQuery two_regions
two_regions-IsQuery = record {
  holds = λ a r e. ground (arith, e);
  alike = λ a b r e low high. (r, ground (arith, e, low, high), refl, refl);
}

is_readable_range_example :
    (b : Bool) × (is_readable_range two_regions 8190 4 ≡ ok b)
    × ((b ≡ true) ↔ IsRange two_regions is_readable_protection 8190 4)
is_readable_range_example =
    is_readable_range_iff two_regions two_regions-IsQuery 8190 4 (omega arith) (omega arith)

is_writable_range_example : is_readable_range two_regions 8000 100 ≡ ok true
unfolding is_writable_range check_from is_writable_protection
is_writable_range_example =
    is_writable_range-readable two_regions two_regions-IsQuery 8000 100 (omega arith) (omega arith)
      refl

abbrev code_header : SectionHeader
code_header = record {
  header_name = 46 ∷ 116 ∷ 101 ∷ 120 ∷ 116 ∷ 0 ∷ 0 ∷ 0 ∷ [];
  virtual_size = 4096;
  raw_size = 4096;
  virtual_address = 4096;
  header_flags = 0x60000020;
}

-- Its size reaches past the image.
abbrev data_header : SectionHeader
data_header = record {
  header_name = 46 ∷ 100 ∷ 97 ∷ 116 ∷ 97 ∷ 0 ∷ 0 ∷ 0 ∷ [];
  virtual_size = 9000;
  raw_size = 512;
  virtual_address = 8192;
  header_flags = 0xc0000040;
}

abbrev two_headers : ℕ → SectionHeader
two_headers i = if ltb i 1 then code_header else data_header

abbrev headers : ImageHeaders
headers = record {
  dos_magic = 0x5a4d;
  lfanew = 128;
  signature = 0x4550;
  machine = 0x8664;
  optional_magic = 0x20b;
  number_of_sections = 2;
  size_of_image = 16384;
  section_header = two_headers;
  exception_address = 12288;
  exception_size = 24;
}

abbrev example_module : Module
example_module = record {
  base = 65536;
  image_size = 16384;
  sections =
      record { start = 69632; size = 4096; characteristics = 0x60000020; name = codes ".text" }
      ∷ record { start = 73728; size = 8192; characteristics = 0xc0000040; name = codes ".data" }
      ∷ [];
  text =
      some
        record { start = 69632; size = 4096; characteristics = 0x60000020; name = codes ".text" };
  runtime_functions = 77824;
  runtime_function_count = 2;
}

headers-loaded : module_init_current (some 65536) headers ≡ loaded example_module
unfolding module_init_current bytes_eq
headers-loaded = refl

module_init_current_example : IsModule example_module
module_init_current_example =
    module_init_current-IsModule 65536 headers example_module (omega arith) headers-loaded

section_for_address_example :
    ((section_for_address example_module 70000 ≡ none)
      × ((i : ℕ) (s : Section) → get_elem? example_module.sections i ≡ some s → ¬ Holds 70000 s))
    ⊎ ((s : Section) × (i : ℕ) × (section_for_address example_module 70000 ≡ some s)
        × (get_elem? example_module.sections i ≡ some s)
        × Holds 70000 s
        × ((j : ℕ) (t : Section)
            → get_elem? example_module.sections j ≡ some t
            → Holds 70000 t
            → i ≤ j))
section_for_address_example =
    section_for_address-first example_module module_init_current_example (omega arith) 70000
      (omega arith)

is_executable_address_example : (65536 ≤ 70000) × (70000 < 65536 + 16384)
unfolding is_executable_address
is_executable_address_example =
    is_executable_address-inside example_module module_init_current_example (omega arith) 70000 refl
