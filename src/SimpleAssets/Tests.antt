-- ===== src/SimpleAssets/Tests.antt =====
-- A material of the version that is accepted.
use darktide_mods.Base.{◌≡◌, ◌↔◌, [], ◌∷◌, some, none, codes}
use darktide_mods.SimpleAssets.Validation.{validate_resource_data}
use darktide_mods.SimpleAssets.Validation.Formats.{IsFormat, validate_resource_data-Format}

validate_resource_data_example :
    (validate_resource_data (some (codes "material")) (some (61 ∷ 0 ∷ 0 ∷ 0 ∷ 7 ∷ [])) ≡ none)
    ↔ IsFormat (codes "material") (61 ∷ 0 ∷ 0 ∷ 0 ∷ 7 ∷ [])
validate_resource_data_example =
    validate_resource_data-Format (codes "material") (61 ∷ 0 ∷ 0 ∷ 0 ∷ 7 ∷ [])
