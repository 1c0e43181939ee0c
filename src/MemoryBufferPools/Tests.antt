-- ===== src/MemoryBufferPools/Tests.antt =====
-- reserveMemory from a pool with a memory of which 100 bytes are taken.
use vsg.Base.{ℕ, ◌≡◌, refl, Option, none, some, true, List, [], ◌∷◌}
use vsg.Base.Entries.{insert, assign, erase, insert_multi, erase_entry, from}
use vsg.Base.Word.{add64, sub64, mul64}
use vsg.MemorySlots.{
  init, aligned_start, maximum_available_space, find_slot, fits, take_slot, add_available,
  remove_slot, keep_front, keep_back, reserve, full,
}
use vsg.MemorySlots.History.{Call, reserves, run, step}
use vsg.MemoryBufferPools.{
  Requirements, DeviceMemory, Pools, Reserved, granted, suits, reserve_in, search_memories,
  find_or_create, after_search, reserve_memory,
}

abbrev image : Requirements
image = record { size = 1000; alignment = 256; memory_type_bits = 7 }

abbrev calls : List Call
calls = reserves 100 256 ∷ []

abbrev memory : DeviceMemory
memory = record {
  requirements = record { size = 65536; alignment = 256; memory_type_bits = 7 };
  slots = run (init 65536) calls;
}

abbrev pool : Pools
pool = record {
  preferences = record {
    minimum_buffer_size = 16777216;
    minimum_buffer_device_memory_size = 16777216;
    minimum_image_device_memory_size = 16777216;
  };
  memories = memory ∷ [];
  buffers = [];
}

-- The alignment of a range in a memory of the pool is the one of that memory: a request that asks
-- for 4096 gets the offset 256.
abbrev offset_of : Reserved → Option ℕ
offset_of (granted m offset) = some offset
offset_of r = none

coarse_request :
    offset_of (reserve_memory true (record image { alignment = 4096 }) pool).0 ≡ some 256
unfolding run step reserve init insert insert_multi assign erase erase_entry from find_slot fits
    take_slot keep_front keep_back full add_available remove_slot aligned_start add64 sub64 mul64
    suits reserve_in search_memories find_or_create after_search reserve_memory
    maximum_available_space
coarse_request = refl
