-- ===== src/MemorySlots/Tests.antt =====
-- Tests and the theorems at concrete memories.
use vsg.Base.{◌+◌, ◌≡◌, refl, some, List, [], ◌∷◌, arith}
use vsg.Base.Entries.{find, insert, assign, erase, insert_multi, erase_entry, from, above}
use vsg.Base.Word.{add64, sub64, mul64}
use vsg.MemorySlots.{
  MemorySlots, init, aligned_start, total_available_size, total_reserved_size, full, find_slot,
  fits, take_slot, add_available, remove_slot, keep_front, keep_back, reserve, release,
}
use vsg.MemorySlots.Tiling.{Valid}
use vsg.MemorySlots.Reserve.{Reserves, reserve-Reserves}
use vsg.MemorySlots.Release.{Returns, release-Returns, release_unjoined}
use vsg.MemorySlots.History.{run-Valid, Call, reserves, releases, run, step, run_tiles}

abbrev fresh : MemorySlots
fresh = init 100

-- 10 bytes at 0 and, aligned to 16, 20 bytes at 16.
abbrev calls : List Call
calls = reserves 10 4 ∷ reserves 20 16 ∷ []

two_ranges : run fresh calls ≡ record {
  available_memory = (6, 10) ∷ (64, 36) ∷ [];
  offset_sizes = (10, 6) ∷ (36, 64) ∷ [];
  reserved_offset_sizes = (0, 10) ∷ (16, 20) ∷ [];
  total_memory_size = 100;
}
unfolding run step reserve init insert insert_multi assign erase erase_entry from find_slot fits
    take_slot keep_front keep_back full add_available remove_slot aligned_start add64 sub64 mul64
two_ranges = refl

abbrev busy : MemorySlots
busy = run fresh calls

busy-Valid : Valid busy
busy-Valid = run-Valid 100 (omega arith) (omega arith) calls (omega arith)

reserve-Reserves_example : Reserves busy 8 32 (reserve busy 8 32)
reserve-Reserves_example =
    reserve-Reserves busy busy-Valid 8 32 (omega arith) (omega arith) (rw two_ranges (omega arith))

release-Returns_example : Returns busy 16 20 (release busy 16 0)
unfolding find
release-Returns_example =
    release-Returns busy busy-Valid 16 20 (rw two_ranges sixteen) (rw two_ranges (omega arith)) 0
  where
    sixteen : find 16 ((0, 10) ∷ (16, 20) ∷ []) ≡ some 20
    sixteen = refl

run_tiles_example : total_available_size busy + total_reserved_size busy ≡ 100
run_tiles_example = (run_tiles 100 (omega arith) (omega arith) calls (omega arith)).1

-- All of a memory of 30 in two ranges; the front one goes back first.
abbrev filled : MemorySlots
filled = run (init 30) (reserves 10 1 ∷ reserves 20 1 ∷ releases 0 10 ∷ [])

filled_ranges : filled ≡ record {
  available_memory = (10, 0) ∷ [];
  offset_sizes = (0, 10) ∷ [];
  reserved_offset_sizes = (10, 20) ∷ [];
  total_memory_size = 30;
}
unfolding run step reserve init insert insert_multi assign erase erase_entry from find_slot fits
    take_slot keep_front keep_back full add_available remove_slot aligned_start add64 sub64 mul64
    find release
filled_ranges = refl

release_unjoined_example :
    (find 0 (release filled 10 20).offset_sizes ≡ some 10)
    × (find 10 (release filled 10 20).offset_sizes ≡ some 20)
unfolding run step reserve init insert insert_multi assign erase erase_entry from find_slot fits
    take_slot keep_front keep_back full add_available remove_slot aligned_start add64 sub64 mul64
    find release above
release_unjoined_example =
    release_unjoined filled
      (run-Valid 30 (omega arith) (omega arith) (reserves 10 1 ∷ reserves 20 1 ∷ releases 0 10 ∷ [])
        (omega arith))
      10 20 0 10 refl refl refl refl 20
