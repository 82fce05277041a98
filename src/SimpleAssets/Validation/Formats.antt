-- ===== src/SimpleAssets/Validation/Formats.antt =====
-- What is accepted: exactly the data that the formats of the types allow.
use darktide_mods.Base.{
  ℕ, ◌+◌, ◌≤◌, ◌<◌, ◌≡◌, ◌⊎◌, ◌↔◌, refl, sym, inl, inr, arith, false, Bool-cases, none, some, List,
  length, take, drop, codes, bytes_eq, bytes_eq_iff, bytes_eq-eq,
}
use darktide_mods.SimpleAssets.Validation.{
  read_u32, slug_mark, font_block, album_block, validate_slug_format, validate_resource_format,
  validate_resource_data, validate_texture_data,
}

-- A slug: its mark, four bytes, the mark of its block, and more.
abbrev pub IsSlug : List ℕ → List ℕ → Type 0
IsSlug block bytes =
    (12 ≤ length bytes) × (take 4 bytes ≡ slug_mark) × (take 4 (drop 8 bytes) ≡ block)

abbrev pub HasVersion : ℕ → List ℕ → Type 0
HasVersion version bytes = (4 ≤ length bytes) × (read_u32 bytes ≡ version)

-- The format that a resource type asks for; the types that are not named allow any data.
pub record IsFormat (resource_type bytes : List ℕ) : Type 0 where
  pub some_data : 0 < length bytes
  pub slug : resource_type ≡ codes "slug" → IsSlug font_block bytes
  pub slug_album : resource_type ≡ codes "slug_album" → IsSlug album_block bytes
  pub material : resource_type ≡ codes "material" → HasVersion 61 bytes
  pub particles : resource_type ≡ codes "particles" → HasVersion 102 bytes
  pub unit : resource_type ≡ codes "unit" → HasVersion 115 bytes

validate_slug_format-Slug :
    (bytes block : List ℕ) → (validate_slug_format bytes block ≡ none) ↔ IsSlug block bytes
unfolding validate_slug_format
validate_slug_format-Slug bytes block =
    let mark = bytes_eq_iff (take 4 bytes) slug_mark in
    let blocks = bytes_eq_iff (take 4 (drop 8 bytes)) block in
    (
      λ h. (ground (arith, h), mark.0 (ground (arith, h)), blocks.0 (ground (arith, h))),
      λ (long, m, b). ground (arith, long, mark.1 m, blocks.1 b),
    )

-- The types that are named, one by one.
font_accepted :
    (bytes : List ℕ)
    → (validate_resource_format (codes "slug") bytes ≡ none) ↔ IsSlug font_block bytes
unfolding validate_resource_format bytes_eq
font_accepted bytes = validate_slug_format-Slug bytes font_block

album_accepted :
    (bytes : List ℕ)
    → (validate_resource_format (codes "slug_album") bytes ≡ none) ↔ IsSlug album_block bytes
unfolding validate_resource_format bytes_eq
album_accepted bytes = validate_slug_format-Slug bytes album_block

material_accepted :
    (bytes : List ℕ)
    → (validate_resource_format (codes "material") bytes ≡ none) ↔ HasVersion 61 bytes
unfolding validate_resource_format bytes_eq
material_accepted bytes = ground arith

particles_accepted :
    (bytes : List ℕ)
    → (validate_resource_format (codes "particles") bytes ≡ none) ↔ HasVersion 102 bytes
unfolding validate_resource_format bytes_eq
particles_accepted bytes = ground arith

unit_accepted :
    (bytes : List ℕ) → (validate_resource_format (codes "unit") bytes ≡ none) ↔ HasVersion 115 bytes
unfolding validate_resource_format bytes_eq
unit_accepted bytes = ground arith

-- Any other type.
other_accepted :
    (resource_type bytes : List ℕ)
    → bytes_eq resource_type (codes "slug") ≡ false
    → bytes_eq resource_type (codes "slug_album") ≡ false
    → bytes_eq (codes "material") resource_type ≡ false
    → bytes_eq (codes "particles") resource_type ≡ false
    → bytes_eq (codes "unit") resource_type ≡ false
    → validate_resource_format resource_type bytes ≡ none
unfolding validate_resource_format
other_accepted resource_type bytes a b c d e = rw (a, b, c, d, e) refl

-- One of the names, or none of them.
named_type :
    (resource_type bytes : List ℕ)
    → IsFormat resource_type bytes
    → validate_resource_format resource_type bytes ≡ none
named_type resource_type bytes v = elim (Bool-cases (bytes_eq resource_type (codes "slug"))) [
  | inl e ↦
      let same = bytes_eq-eq resource_type (codes "slug") e in
      rw same ((font_accepted bytes).1 (v.slug same))
  | inr a ↦ elim (Bool-cases (bytes_eq resource_type (codes "slug_album"))) [
    | inl e ↦
        let same = bytes_eq-eq resource_type (codes "slug_album") e in
        rw same ((album_accepted bytes).1 (v.slug_album same))
    | inr b ↦ elim (Bool-cases (bytes_eq (codes "material") resource_type)) [
      | inl e ↦
          let same = sym (bytes_eq-eq (codes "material") resource_type e) in
          rw same ((material_accepted bytes).1 (v.material same))
      | inr c ↦ elim (Bool-cases (bytes_eq (codes "particles") resource_type)) [
        | inl e ↦
            let same = sym (bytes_eq-eq (codes "particles") resource_type e) in
            rw same ((particles_accepted bytes).1 (v.particles same))
        | inr d ↦ elim (Bool-cases (bytes_eq (codes "unit") resource_type)) [
          | inl e ↦
              let same = sym (bytes_eq-eq (codes "unit") resource_type e) in
              rw same ((unit_accepted bytes).1 (v.unit same))
          | inr f ↦ other_accepted resource_type bytes a b c d f
        ]
      ]
    ]
  ]
]

-- `validate_resource_data` accepts exactly the data that is not empty and has the format of its
-- type: a slug its two marks, a material, particles or a unit its version, and any other type no
-- more.
pub validate_resource_data-Format :
    (resource_type bytes : List ℕ)
    → (validate_resource_data (some resource_type) (some bytes) ≡ none)
      ↔ IsFormat resource_type bytes
unfolding validate_resource_data
validate_resource_data-Format resource_type bytes = (
  λ h.
      let format : validate_resource_format resource_type bytes ≡ none = ground (arith, h) in
      record {
        some_data = ground (arith, h);
        slug = λ e. (font_accepted bytes).0 (rw e at format);
        slug_album = λ e. (album_accepted bytes).0 (rw e at format);
        material = λ e. (material_accepted bytes).0 (rw e at format);
        particles = λ e. (particles_accepted bytes).0 (rw e at format);
        unit = λ e. (unit_accepted bytes).0 (rw e at format);
      },
  λ v. ground (arith, v.some_data, named_type resource_type bytes v),
)

-- A texture: twelve bytes of an envelope and more; a payload that is compressed by one of the two
-- compressors of the engine is inside the data.
abbrev pub IsTexture : List ℕ → Type 0
IsTexture bytes =
    (12 < length bytes)
    × ((read_u32 (drop 4 bytes) ≡ 0)
        ⊎ (((read_u32 bytes ≡ 1) ⊎ (read_u32 bytes ≡ 2))
            × (12 + read_u32 (drop 4 bytes) ≤ length bytes)))

pub validate_texture_data-Texture :
    (bytes : List ℕ) → (validate_texture_data (some bytes) ≡ none) ↔ IsTexture bytes
unfolding validate_texture_data
validate_texture_data-Texture bytes = (λ h. ground (arith, h), λ h. ground (arith, h))
