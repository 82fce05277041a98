-- ===== src/SimpleAssets/Validation.antt =====
-- loading/validation.c: whether data has the format of its resource type. A string is its bytes
-- without the terminator, data is its bytes, so that its size is their number.
pub mod Formats
use darktide_mods.Base.{
  ℕ, zero, suc, ◌+◌, ◌-◌, ◌*◌, Bool, true, false, not, ◌&&◌, ◌||◌, Option, none, some, List, [],
  ◌∷◌, if◌then◌else◌, ltb, leb, ◌==◌, length, get_or, take, drop, codes, bytes_eq,
}

-- The `uint32_t` at the start of some bytes, least byte first.
unfoldable pub read_u32 : List ℕ → ℕ
read_u32 bytes =
    get_or bytes 0 0 + 256 * (get_or bytes 1 0 + 256 * (get_or bytes 2 0 + 256 * get_or bytes 3 0))

-- What the calls of sa_set_error name.
pub data ValidationError : Type 0 where
  missing_data : ValidationError
  slug_mismatch : ValidationError
  version_mismatch : ValidationError
  no_envelope : ValidationError
  unsupported_compressor : ValidationError
  payload_too_long : ValidationError

-- `none` where the data is accepted.
abbrev pub Verdict : Type 0
Verdict = Option ValidationError

abbrev pub slug_mark : List ℕ
slug_mark = codes "guls"

abbrev pub font_block : List ℕ
font_block = 102 ∷ 110 ∷ 116 ∷ 0 ∷ []

abbrev pub album_block : List ℕ
album_block = 97 ∷ 108 ∷ 98 ∷ 0 ∷ []

unfoldable pub validate_slug_format : List ℕ → List ℕ → Verdict
validate_slug_format bytes block =
    if ltb (length bytes) 12
      || not (bytes_eq (take 4 bytes) slug_mark)
      || not (bytes_eq (take 4 (drop 8 bytes)) block)
    then some slug_mismatch
    else none

-- SaVersionedResourceFormat, and the table of the function.
pub record ResourceFormat : Type 0 where
  pub format_type : List ℕ
  pub version : ℕ

abbrev pub formats : List ResourceFormat
formats =
    record { format_type = codes "material"; version = 61 }
    ∷ record { format_type = codes "particles"; version = 102 }
    ∷ record { format_type = codes "unit"; version = 115 }
    ∷ []

-- The loop over the table.
unfoldable pub validate_version : List ResourceFormat → List ℕ → List ℕ → Verdict
unfolding read_u32
validate_version [] resource_type bytes = none
validate_version (format ∷ rest) resource_type bytes =
    let later = validate_version rest resource_type bytes in
    if not (bytes_eq format.format_type resource_type)
    then later
    else if ltb (length bytes) 4 || not (read_u32 bytes == format.version)
    then some version_mismatch
    else none

unfoldable pub validate_resource_format : List ℕ → List ℕ → Verdict
unfolding validate_slug_format validate_version
validate_resource_format resource_type bytes =
    if bytes_eq resource_type (codes "slug")
    then validate_slug_format bytes font_block
    else if bytes_eq resource_type (codes "slug_album")
    then validate_slug_format bytes album_block
    else validate_version formats resource_type bytes

unfoldable pub validate_resource_data : Option (List ℕ) → Option (List ℕ) → Verdict
unfolding validate_resource_format
validate_resource_data none bytes = some missing_data
validate_resource_data (some resource_type) none = some missing_data
validate_resource_data (some resource_type) (some bytes) =
    if length bytes == 0 then some missing_data else validate_resource_format resource_type bytes

unfoldable pub validate_texture_data : Option (List ℕ) → Verdict
unfolding read_u32
validate_texture_data none = some no_envelope
validate_texture_data (some bytes) =
    let compressor = read_u32 bytes in
    let compressed_size = read_u32 (drop 4 bytes) in
    if leb (length bytes) 12
    then some no_envelope
    else if compressed_size == 0
    then none
    else if not (compressor == 1) && not (compressor == 2)
    then some unsupported_compressor
    else if ltb (length bytes - 12) compressed_size
    then some payload_too_long
    else none
