-- ===== src/InternalUtils/Image.antt =====
-- memory.c: the sections of the main module, read from its headers, and the section of an address.
pub mod Load
pub mod Address
use darktide_mods.Base.{
  ℕ, zero, suc, ◌+◌, ◌-◌, ◌/◌, ◌%◌, ◌^◌, Bool, true, false, not, ◌&&◌, ◌||◌, Option, none, some,
  List, [], ◌∷◌, if◌then◌else◌, ltb, leb, ◌==◌, take, codes, bytes_eq,
}
use darktide_mods.InternalUtils.Memory.{Section, mem_execute, mem_read, mem_write, has_flag}

-- IMAGE_SECTION_HEADER.
pub record SectionHeader : Type 0 where
  pub header_name : List ℕ
  pub virtual_size : ℕ
  pub raw_size : ℕ
  pub virtual_address : ℕ
  pub header_flags : ℕ

-- The fields that are read of IMAGE_DOS_HEADER, IMAGE_NT_HEADERS64 and the section table.
pub record ImageHeaders : Type 0 where
  pub dos_magic : ℕ
  pub lfanew : ℕ
  pub signature : ℕ
  pub machine : ℕ
  pub optional_magic : ℕ
  pub number_of_sections : ℕ
  pub size_of_image : ℕ
  pub section_header : ℕ → SectionHeader
  pub exception_address : ℕ
  pub exception_size : ℕ

pub record Module : Type 0 where
  pub base : ℕ
  pub image_size : ℕ
  pub sections : List Section
  pub text : Option Section
  pub runtime_functions : ℕ
  pub runtime_function_count : ℕ

pub data ModuleError : Type 0 where
  no_module : ModuleError
  bad_dos_header : ModuleError
  not_amd64_image : ModuleError
  unsupported_section_count : ModuleError
  multiple_text_sections : ModuleError
  no_text_section : ModuleError
  no_exception_directory : ModuleError

pub data Loaded {ℓ} (A : Type ℓ) : Type ℓ where
  loaded : A → Loaded A
  not_loaded : ModuleError → Loaded A

abbrev pub max_sections : ℕ
max_sections = 96

abbrev pub text_name : List ℕ
text_name = codes ".text"

-- `sizeof(RUNTIME_FUNCTION)`.
abbrev pub runtime_function_bytes : ℕ
runtime_function_bytes = 12

abbrev pub until_nul : List ℕ → List ℕ
until_nul [] = []
until_nul (c ∷ cs) = if c == 0 then [] else c ∷ until_nul cs

unfoldable pub section_size : ℕ → SectionHeader → ℕ
section_size image_size header =
    let size = if header.virtual_size == 0 then header.raw_size else header.virtual_size in
    let rva = header.virtual_address in
    if leb image_size rva then 0 else if ltb (image_size - rva) size then image_size - rva else size

unfoldable pub load_section : ℕ → ℕ → SectionHeader → Section
unfolding section_size
load_section base image_size header = record {
  start = (base + header.virtual_address) % 2 ^ 64;
  size = section_size image_size header;
  characteristics = header.header_flags;
  name = until_nul (take 8 header.header_name);
}

-- `module->text` after a section; `none` where a second section has the name.
unfoldable pub next_text : Option Section → Section → Option (Option Section)
next_text text s =
    if not (bytes_eq s.name text_name)
    then some text
    else elim text [ none ↦ some (some s) | some t ↦ none ]

-- A section and the result for those after it.
unfoldable pub prepend :
    Section → Loaded (List Section × Option Section) → Loaded (List Section × Option Section)
prepend s (not_loaded e) = not_loaded e
prepend s (loaded (ss, last)) = loaded (s ∷ ss, last)

-- The sections from `index` on, and `module->text` after them.
unfoldable pub load_sections :
    ℕ → ℕ → (ℕ → SectionHeader) → ℕ → ℕ → Option Section → Loaded (List Section × Option Section)
unfolding load_section next_text prepend
load_sections base image_size headers zero index text = loaded ([], text)
load_sections base image_size headers (suc count) index text =
    let s = load_section base image_size (headers index) in
    elim (next_text text s) [
      | none ↦ not_loaded multiple_text_sections
      | some next ↦ prepend s (load_sections base image_size headers count (index + 1) next)
    ]

unfoldable pub is_text : Section → Bool
is_text s =
    not (s.size == 0)
    && has_flag s.characteristics mem_execute
    && has_flag s.characteristics mem_read

unfoldable pub has_exceptions : ImageHeaders → Bool
has_exceptions h = not (
    h.exception_address == 0
    || ltb h.exception_size runtime_function_bytes
    || not (h.exception_size % runtime_function_bytes == 0)
    || leb h.size_of_image h.exception_address
    || ltb (h.size_of_image - h.exception_address) h.exception_size)

-- The fields of `*module` at the end.
unfoldable pub made_module : ℕ → ImageHeaders → List Section → Section → Module
made_module base h ss s = record {
  base = base;
  image_size = h.size_of_image;
  sections = ss;
  text = some s;
  runtime_functions = (base + h.exception_address) % 2 ^ 64;
  runtime_function_count = h.exception_size / runtime_function_bytes;
}

-- What is checked once the sections are read.
unfoldable pub finish_module :
    ℕ → ImageHeaders → Loaded (List Section × Option Section) → Loaded Module
unfolding is_text has_exceptions made_module
finish_module base h (not_loaded e) = not_loaded e
finish_module base h (loaded (ss, none)) = not_loaded no_text_section
finish_module base h (loaded (ss, some s)) =
    if not (is_text s)
    then not_loaded no_text_section
    else if not (has_exceptions h)
    then not_loaded no_exception_directory
    else loaded (made_module base h ss s)

-- The handle of the main module is an argument, `none` where the call fails.
unfoldable pub module_init_current : Option ℕ → ImageHeaders → Loaded Module
unfolding load_sections finish_module
module_init_current none h = not_loaded no_module
module_init_current (some base) h =
    if not (h.dos_magic == 0x5a4d) || h.lfanew == 0 || leb (2 ^ 31) h.lfanew
    then not_loaded bad_dos_header
    else if not (h.signature == 0x4550)
        || not (h.machine == 0x8664)
        || not (h.optional_magic == 0x20b)
    then not_loaded not_amd64_image
    else if h.number_of_sections == 0 || ltb max_sections h.number_of_sections
    then not_loaded unsupported_section_count
    else finish_module base h
        (load_sections base h.size_of_image h.section_header h.number_of_sections 0 none)

abbrev find_section : (Section → Bool) → List Section → Option Section
find_section p [] = none
find_section p (s ∷ ss) = if p s then some s else find_section p ss

unfoldable pub section : Module → List ℕ → Option Section
section m name = find_section (λ s. bytes_eq s.name name) m.sections

unfoldable pub holds_address : ℕ → Section → Bool
holds_address a s = not (s.size == 0) && leb s.start a && ltb a ((s.start + s.size) % 2 ^ 64)

unfoldable pub section_for_address : Module → ℕ → Option Section
unfolding holds_address
section_for_address m a = if a == 0 then none else find_section (holds_address a) m.sections

unfoldable pub is_executable_address : Module → ℕ → Bool
unfolding section_for_address
is_executable_address m a = elim (section_for_address m a) [
  | none ↦ false
  | some s ↦ has_flag s.characteristics mem_execute
]

unfoldable pub is_writable_address : Module → ℕ → Bool
unfolding section_for_address
is_writable_address m a = elim (section_for_address m a) [
  | none ↦ false
  | some s ↦ has_flag s.characteristics mem_write
]
