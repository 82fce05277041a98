-- ===== src/Mapping/RegistryTests.antt =====
-- Runs of the registration, and the inputs at which its theorems are applied.
use darktide_mods.Base.{
  ℕ, ◌+◌, ◌^◌, ◌<◌, ◌≡◌, refl, ap, arith, true, false, List, [], ◌∷◌, Option, none, some, Run, ok,
  fault, length, if◌then◌else◌, ltb, bytes_eq,
}
use darktide_mods.Mapping.Index.{
  find_mapping_by_stream_path, mix_hash, mapping_hash, string_hash_from, string_hash,
  find_mapping_in_slots, find_string_in_slots, insert_mapping_slot, insert_string_slot,
  resize_slots, resize_mapping_slots, resize_string_slots, reserve_table, reserve_streams,
  reserve_mapping_indexes, insert_streams, insert_mapping_indexes, find_mapping,
}
use darktide_mods.Mapping.Registry.{
  Names, rejected, invalid_data, check_resource_mapping, find_resource_data, find_resource_stream,
  Registry, Request, RegisterResult, registered, size_add, sum_sizes, copy_data, copy_string,
  fill_mapping, store_object, create_mapping, data_eq, stream_matches, mapping_data_matches,
  same_names, existing, insert_new, publish, create_and_publish, register_new, register_locked,
  names_of, data_missing, any_path_too_long, register_resource_mapping,
}
use darktide_mods.Mapping.Probe.{home, next_index, probe, place, rehash}
use darktide_mods.Mapping.Capacity.{capacity_loop, capacity_for_insert}
use darktide_mods.Mapping.Stream.{
  resolve_resource_stream_identity, is_resource_stream_path, input_bytes, put_sextet, drain, feed,
  feed_all, finish, format_resource_stream_identity,
}
use darktide_mods.Mapping.Registry.Invariant.{
  IsRegistry, empty_registry, empty-IsRegistry, described,
}
use darktide_mods.Mapping.Registry.Copies.{HasData}
use darktide_mods.Mapping.Registry.Outcome.{Completes, register_resource_mapping-Completes}
use darktide_mods.Mapping.Registry.Effect.{
  registration_lem, SameLookups, register-SameLookups, register-find_mapping, register-other_keys,
}
use darktide_mods.Mapping.Registry.Reads.{
  register-resolve, register-is_resource_stream_path, register-find_mapping_by_stream_path,
  register-register, register-check_resource_mapping, register-find_resource_data,
  register-find_resource_stream,
}
use darktide_mods.Mapping.Index.Reserve.{IsSmall}
use darktide_mods.Mapping.Types.{HeapAlloc, Mapping}

abbrev granted : HeapAlloc
granted site size = true

abbrev texture : Request
texture = record {
  type_hash = 17;
  resource_hash = 4 + 2 ^ 40;
  type_name = some (116 ∷ []);
  resource_name = some (114 ∷ []);
  file_path = some (102 ∷ 47 ∷ []);
  io_path = some (105 ∷ []);
  resource_data = some (1 ∷ 2 ∷ 3 ∷ []);
  resource_data_size = 2;
  stream_path = some (115 ∷ 47 ∷ 120 ∷ []);
  stream_range = 9;
}

abbrev state_of : Run (RegisterResult × Registry) → Registry
state_of (ok (a, s)) = s
state_of (fault e) = empty_registry

abbrev answer_of : Run (RegisterResult × Registry) → Option RegisterResult
answer_of (ok (a, s)) = some a
answer_of (fault e) = none

abbrev first_run : Run (RegisterResult × Registry)
first_run = register_resource_mapping granted true texture empty_registry

first_run_lem : first_run ≡ ok (registered false, state_of first_run)
unfolding size_add sum_sizes copy_data copy_string fill_mapping store_object create_mapping data_eq
    stream_matches mapping_data_matches same_names existing insert_new publish create_and_publish
    register_new register_locked names_of data_missing any_path_too_long register_resource_mapping
    mix_hash mapping_hash string_hash_from string_hash find_mapping_in_slots find_string_in_slots
    insert_mapping_slot insert_string_slot resize_slots resize_mapping_slots resize_string_slots
    reserve_table reserve_streams reserve_mapping_indexes insert_streams insert_mapping_indexes
    find_mapping home next_index probe place rehash capacity_loop capacity_for_insert input_bytes
    put_sextet drain feed feed_all finish format_resource_stream_identity bytes_eq
first_run_lem = refl

abbrev first : Registry
first = state_of first_run

small : IsSmall empty_registry.index
small = record { mappings = omega arith; identities = omega arith; paths = omega arith }

texture-HasData : HasData texture
texture-HasData bytes e = let same : 1 ∷ 2 ∷ 3 ∷ [] ≡ bytes = cc in omega (arith, ap length same)

register_resource_mapping-Completes_example : Completes texture empty_registry first_run
register_resource_mapping-Completes_example =
    register_resource_mapping-Completes texture empty_registry empty-IsRegistry granted true small
      (omega arith) (omega arith) texture-HasData

-- The second registration under the hashes of the first, with other data.
abbrev other_texture : Request
other_texture = record texture { resource_data = some (1 ∷ 7 ∷ []) }

abbrev texture_names : Names
texture_names = record {
  type_name = 116 ∷ [];
  resource_name = 114 ∷ [];
  file_path = 102 ∷ 47 ∷ [];
  io_path = 105 ∷ [];
}

names_lem : names_of texture ≡ some texture_names
unfolding names_of
names_lem = refl

bad_run_lem :
    register_resource_mapping granted true (record texture { file_path = none }) empty_registry
    ≡ ok (rejected invalid_data, empty_registry)
unfolding register_resource_mapping names_of
bad_run_lem = refl

register-SameLookups_example : SameLookups empty_registry.index empty_registry.index
register-SameLookups_example =
    register-SameLookups granted true (record texture { file_path = none }) empty_registry
      empty-IsRegistry small (omega arith) (omega arith) (rejected invalid_data) empty_registry
      bad_run_lem (λ e. cc)

register-find_mapping_example :
    (n : Names) × (text : List ℕ) × (names_of texture ≡ some n)
    × (find_mapping first.index 17 (4 + 2 ^ 40) ≡ ok (some (described texture n 0 text)))
register-find_mapping_example =
    register-find_mapping granted true texture empty_registry empty-IsRegistry small (omega arith)
      (omega arith) (registered false) first first_run_lem refl

register-other_keys_example : find_mapping first.index 17 5 ≡ find_mapping empty_registry.index 17 5
register-other_keys_example =
    register-other_keys granted true texture empty_registry empty-IsRegistry small (omega arith)
      (omega arith) (registered false) first first_run_lem 17 5 (λ e. omega arith)

register-resolve_example :
    (text : List ℕ) × (format_resource_stream_identity 17 (4 + 2 ^ 40) 23 ≡ some text)
    × ((path_size : ℕ)
        → 3 < path_size
        → resolve_resource_stream_identity first.index (some text) true path_size
          ≡ ok (some (115 ∷ 47 ∷ 120 ∷ [])))
register-resolve_example =
    register-resolve granted true texture empty_registry empty-IsRegistry small (omega arith)
      (omega arith) first first_run_lem refl

register-is_resource_stream_path_example :
    is_resource_stream_path first.index (some (115 ∷ 47 ∷ 120 ∷ [])) ≡ ok true
register-is_resource_stream_path_example =
    register-is_resource_stream_path granted true texture empty_registry empty-IsRegistry small
      (omega arith) (omega arith) first first_run_lem refl

register-register_example :
    register_resource_mapping granted true texture first ≡ ok (registered true, first)
register-register_example =
    register-register granted true texture empty_registry empty-IsRegistry small (omega arith)
      (omega arith) first first_run_lem granted

register-check_resource_mapping_example :
    check_resource_mapping true texture texture_names first ≡ ok (registered true)
register-check_resource_mapping_example =
    register-check_resource_mapping granted true texture empty_registry empty-IsRegistry small
      (omega arith) (omega arith) first first_run_lem texture_names names_lem

register-find_resource_data_example :
    (n : Names) × (names_of texture ≡ some n)
    × (find_resource_data first 17 (4 + 2 ^ 40) true 40 ≡ (
        if ltb 40 (length n.io_path + 1)
        then ok none
        else ok (some (n.io_path, some (1 ∷ 2 ∷ []), 2))))
register-find_resource_data_example =
    register-find_resource_data granted true texture empty_registry empty-IsRegistry small
      (omega arith) (omega arith) first first_run_lem 40

register-find_resource_stream_example :
    find_resource_stream first 17 (4 + 2 ^ 40) true 40 ≡ ok (some (115 ∷ 47 ∷ 120 ∷ [], 9))
register-find_resource_stream_example =
    register-find_resource_stream granted true texture empty_registry empty-IsRegistry small
      (omega arith) (omega arith) first first_run_lem 40

-- Another resource with the stream path of the first.
abbrev sharing : Request
sharing = record texture { type_hash = 18 }

abbrev second_run : Run (RegisterResult × Registry)
second_run = register_resource_mapping granted true sharing first

second_run_lem : second_run ≡ ok (registered false, state_of second_run)
unfolding size_add sum_sizes copy_data copy_string fill_mapping store_object create_mapping data_eq
    stream_matches mapping_data_matches same_names existing insert_new publish create_and_publish
    register_new register_locked names_of data_missing any_path_too_long register_resource_mapping
    mix_hash mapping_hash string_hash_from string_hash find_mapping_in_slots find_string_in_slots
    insert_mapping_slot insert_string_slot resize_slots resize_mapping_slots resize_string_slots
    reserve_table reserve_streams reserve_mapping_indexes insert_streams insert_mapping_indexes
    find_mapping home next_index probe place rehash capacity_loop capacity_for_insert input_bytes
    put_sextet drain feed feed_all finish format_resource_stream_identity bytes_eq
second_run_lem = refl

abbrev first_text : Option (List ℕ) → List ℕ
first_text none = []
first_text (some t) = t

first_counts :
    (first.index.mapping.count ≡ 1)
    × (first.index.stream_identity.count ≡ 1)
    × (first.index.stream_path.count ≡ 1)
unfolding size_add sum_sizes copy_data copy_string fill_mapping store_object create_mapping data_eq
    stream_matches mapping_data_matches same_names existing insert_new publish create_and_publish
    register_new register_locked names_of data_missing any_path_too_long register_resource_mapping
    mix_hash mapping_hash string_hash_from string_hash find_mapping_in_slots find_string_in_slots
    insert_mapping_slot insert_string_slot resize_slots resize_mapping_slots resize_string_slots
    reserve_table reserve_streams reserve_mapping_indexes insert_streams insert_mapping_indexes
    find_mapping home next_index probe place rehash capacity_loop capacity_for_insert input_bytes
    put_sextet drain feed feed_all finish format_resource_stream_identity bytes_eq
first_counts = (refl, refl, refl)

first-IsSmall : IsSmall first.index
first-IsSmall = record {
  mappings = omega (arith, first_counts);
  identities = omega (arith, first_counts);
  paths = omega (arith, first_counts);
}

first-IsRegistry : IsRegistry first
first-IsRegistry =
    (registration_lem granted true texture empty_registry empty-IsRegistry small (omega arith)
      (omega arith) (registered false) first first_run_lem).0

abbrev first_mapping : Mapping
first_mapping =
    described texture texture_names 0
      (first_text (format_resource_stream_identity 17 (4 + 2 ^ 40) 23))

first_path : find_mapping_by_stream_path first.index (115 ∷ 47 ∷ 120 ∷ []) ≡ ok (some first_mapping)
unfolding size_add sum_sizes copy_data copy_string fill_mapping store_object create_mapping data_eq
    stream_matches mapping_data_matches same_names existing insert_new publish create_and_publish
    register_new register_locked names_of data_missing any_path_too_long register_resource_mapping
    mix_hash mapping_hash string_hash_from string_hash find_mapping_in_slots find_string_in_slots
    insert_mapping_slot insert_string_slot resize_slots resize_mapping_slots resize_string_slots
    reserve_table reserve_streams reserve_mapping_indexes insert_streams insert_mapping_indexes
    find_mapping home next_index probe place rehash capacity_loop capacity_for_insert input_bytes
    put_sextet drain feed feed_all finish format_resource_stream_identity bytes_eq
    find_mapping_by_stream_path
first_path = refl

register-find_mapping_by_stream_path_example :
    find_mapping_by_stream_path (state_of second_run).index (115 ∷ 47 ∷ 120 ∷ [])
    ≡ ok (some first_mapping)
register-find_mapping_by_stream_path_example =
    register-find_mapping_by_stream_path granted true sharing first first-IsRegistry first-IsSmall
      (omega arith) (omega arith) (state_of second_run) second_run_lem (115 ∷ 47 ∷ 120 ∷ [])
      first_mapping first_path
