-- ===== src/Lib.antt =====
-- Verification of the native C code of the Darktide mods.
--
-- The repository holds mods for a game, in Lua, and the native runtimes that some of them load.
-- This library is about the C and C++ code. Its largest part is the one that the runtime of the mod
-- SimpleAssets stands on, the mapping of resources
-- (native/darktide-simple-assets-runtime/internal/resource/native/mapping). A mapping is published
-- by a registration under a pair of 64-bit hashes; hooks in the game look it up by the pair, by the
-- path of its stream or by the identity text that stands for the stream, and threads of the loader
-- move it from PENDING to FINALIZING and READY, or to FAILED.
--
-- Mapping/Types: the data of mapping/internal.h, SaResourceMapping and its constants.
-- Mapping/Probe: the loops of mapping/index.c over the slots of a table, which its three tables
--   share: sa_find_..._in_slots (`probe`), sa_insert_..._slot (`place`), sa_resize_..._slots
--   (`rehash`). Their fuel is the capacity: a table is never full, so a search ends before it has
--   gone round.
-- Mapping/Capacity: sa_capacity_for_insert. The fuel is 64, since the capacity doubles in each
--   round and has 64 bits.
-- Mapping/Index: the rest of mapping/index.c. `SlotTable` is a pointer to the slots with capacity
--   and count, `Index` the three tables.
-- Mapping/Stream: mapping/stream.c, the text of an identity and what is looked up by it. The loop
--   that takes six bits off has as fuel the number of bits.
-- Mapping/Registry: mapping/registry.c, sa_register_resource_mapping, sa_check_resource_mapping,
--   sa_find_resource_data and sa_find_resource_stream.
-- Mapping/State: mapping/state.c. State/World has the steps of any number of threads on one
--   mapping; sa_fail_resource takes one for each interlocked operation, one for each byte that it
--   writes into the error, and one for the NUL after them.
-- LogCapture: native/dt-cli/runtime/log_capture_windows.c, the ring of captured console output.
--   `queue_copy_in` and `queue_copy_out` move bytes; `capture_bytes` writes records, with as fuel
--   the number of records that the code computes; `pop` is LuaExecLogCapture_Pop. LogCapture/Ring
--   and LogCapture/Copy see the ring as a list, LogCapture/Records and LogCapture/Refine as a queue
--   of records. Whether the lock is free at the moment of a capture is an argument.
-- InternalUtils: native/darktide-internal-utils, which all the runtimes link to find what they need
--   in the image of the game. InternalUtils/Scan and InternalUtils/Pattern are src/scan.c (names
--   without `dtintutils_`): memory is a function from addresses to bytes, a search has as fuel the
--   size of the section, the parser of patterns the length of the text and one more.
--   InternalUtils/Ranges and InternalUtils/Image are src/memory.c: `check_from` is the loop over
--   regions, with the size as fuel, since a round passes a byte; VirtualQuery is an argument, and
--   Ranges/Committed says what its documentation promises (`IsQuery`); `module_init_current` reads
--   the headers of the image, which are an argument.
-- Realms: native/darktide-realms. Realms/Events is src/realms_events.cpp: a poll is made of the
--   sections that hold the lock, and what other threads push between them is an argument; one
--   thread polls. Realms/Slots and Realms/Packet are from src/realms_protocol.cpp: the slots of the
--   peers, named by their index, each operation one step; `append_bits`; and
--   build_connect_reply_packet, in which a copy past the end of the buffer is a fault. Realms/Routes
--   has `resolve_peer_reply_route` and `lobby_contains_peer`: the memory of the game and VirtualQuery
--   are arguments, and a read of a byte that is not readable is a fault. Realms/Datagram is
--   DatagramDecoder::read_route of src/realms_datagram.cpp, with the decoder of Oodle as an argument.
-- SimpleAssets/Validation: loading/validation.c of the runtime of SimpleAssets, which checks the data
--   of resources and textures before they are registered.
-- SimpleAudio/RawCache: sa_raw_audio_append_frame and sa_raw_audio_decode of
--   native/darktide-simple-audio-runtime/internal/ffmpeg/raw_cache.c. FFmpeg is a sequence of steps;
--   the loop has as fuel the limit divided by the 512 bytes that each frame accounts for, and one
--   more. A sum of two int that is not an int is the fault `overflow`.
-- LogCapture/Tests, InternalUtils/ScanTests, InternalUtils/ImageTests, Realms/Tests,
--   Realms/RouteTests, Realms/DatagramTests, SimpleAssets/Tests,
--   SimpleAudio/Tests, Mapping/RegistryTests, Mapping/TableTests,
--   Mapping/StateTests: runs on concrete data.
-- Base: shared names, tests on numbers and bytes, lists, results that may be faults, bits.
--
-- How the code corresponds: strings are their bytes without the terminator; a NULL pointer is
-- `none`; machine integers are natural numbers, reduced modulo 2 ^ 64 or 2 ^ 32 where the code may
-- wrap; a read outside an array is the fault `out_of_bounds` and a loop without end the fault
-- `out_of_fuel`, so that a theorem on a result `ok` excludes both. A copy or a comparison of the data
-- of a request that has fewer bytes than it says, and a copy to or from NULL, are faults too. The process heap is an argument
-- that says which requests it grants. The entry points of the tables run under an SRW lock, so each
-- is one step. A published mapping never moves and never changes, but for its state and error,
-- which are a cell of the registry; the registry counts fewer than 2 ^ 58 entries, far more than
-- fit in memory.
--
-- Not modelled: the release of memory on error paths and the places of the strings in their block;
-- the SRW locks themselves; the installation and start of the log capture; the formatting by
-- vsnprintf, whose text is an argument; the other parts of
-- the runtimes, which load resources through the engine, filter and play audio, analyse the functions of the
-- game and patch it; the sockets, the voice and the engine calls of Realms; and the code in Lua and
-- Go.
pub mod Base
pub mod InternalUtils
pub mod LogCapture
pub mod Mapping
pub mod Realms
pub mod SimpleAssets
pub mod SimpleAudio
