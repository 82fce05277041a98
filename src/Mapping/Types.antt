-- ===== src/Mapping/Types.antt =====
-- The data of mapping/internal.h. Strings are their bytes without the terminator. The fields that
-- never change once a mapping is published are the record `Mapping`; the two that do, `state` and
-- `error`, are a `MappingCell`, which the mapping names by its number.
use darktide_mods.Base.{ℕ, ◌-◌, ◌^◌, List, Option, Bool}

-- A cell is the mutable part of one heap object.
pub record MappingCell : Type 0 where
  pub state : ℕ
  pub error : List ℕ

pub record Mapping : Type 0 where
  pub type_hash : ℕ
  pub resource_hash : ℕ
  pub type_name : List ℕ
  pub resource_name : List ℕ
  pub file_path : List ℕ
  pub io_path : List ℕ
  pub stream_path : List ℕ
  pub stream_identity : List ℕ
  pub stream_range : ℕ
  pub resource_data : Option (List ℕ)
  pub resource_data_size : ℕ
  pub cell : ℕ

-- The places where the code asks the process heap for memory.
pub data AllocSite : Type 0 where
  mapping_slots : AllocSite
  identity_slots : AllocSite
  path_slots : AllocSite
  mapping_object : AllocSite
  mapping_strings : AllocSite
  mapping_data : AllocSite

-- `HeapAlloc` for one call of an operation: which requests of which size in bytes are granted.
abbrev pub HeapAlloc : Type 0
HeapAlloc = AllocSite → ℕ → Bool

abbrev pub size_max : ℕ
size_max = 2 ^ 64 - 1

abbrev pub max_stream_path : ℕ
max_stream_path = 4096

abbrev pub stream_identity_size : ℕ
stream_identity_size = 23

abbrev pub mapping_error_size : ℕ
mapping_error_size = 512

-- SA_MAPPING_PENDING and the states after it.
abbrev pub pending : ℕ
pending = 0

abbrev pub finalizing : ℕ
finalizing = 1

abbrev pub ready : ℕ
ready = 2

abbrev pub failed : ℕ
failed = 3

abbrev pub failing : ℕ
failing = 4
