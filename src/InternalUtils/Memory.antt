-- ===== src/InternalUtils/Memory.antt =====
-- The memory of the process as the searches read it, and the sections of include/dtintutils.h.
use darktide_mods.Base.{ℕ, ◌+◌, ◌*◌, Bool, true, not, ◌&&◌, List, [], ◌∷◌, ◌==◌, bit_and}

-- The byte at an address.
abbrev pub Memory : Type 0
Memory = ℕ → ℕ

pub record Section : Type 0 where
  pub start : ℕ
  pub size : ℕ
  pub characteristics : ℕ
  pub name : List ℕ

-- IMAGE_SCN_MEM_EXECUTE, IMAGE_SCN_MEM_READ and IMAGE_SCN_MEM_WRITE.
abbrev pub mem_execute : ℕ
mem_execute = 0x20000000

abbrev pub mem_read : ℕ
mem_read = 0x40000000

abbrev pub mem_write : ℕ
mem_write = 0x80000000

abbrev pub has_flag : ℕ → ℕ → Bool
has_flag flags flag = not (bit_and flags flag == 0)

-- `memcmp` of the bytes at an address with given ones.
unfoldable pub memory_eq : Memory → ℕ → List ℕ → Bool
memory_eq memory address [] = true
memory_eq memory address (b ∷ bytes) = memory address == b && memory_eq memory (address + 1) bytes

-- The `uintptr_t` at an address, least byte first.
unfoldable pub load_pointer : Memory → ℕ → ℕ
load_pointer memory address =
    memory address
    + 256
      * (memory (address + 1)
          + 256
            * (memory (address + 2)
                + 256
                  * (memory (address + 3)
                      + 256
                        * (memory (address + 4)
                            + 256
                              * (memory (address + 5)
                                  + 256 * (memory (address + 6) + 256 * memory (address + 7)))))))
