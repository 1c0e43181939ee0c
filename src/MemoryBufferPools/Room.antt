-- ===== src/MemoryBufferPools/Room.antt =====
-- The range that reserveMemory returns, and the room in a memory that it creates.
use mathlib.Core.List.{Memᴰ}
use vsg.Base.{ℕ, ◌+◌, ◌%◌, ◌^◌, ◌<◌, ◌≡◌, Option, none, some, List, [], ◌∷◌}
use vsg.MemorySlots.{MemorySlots}
use vsg.MemorySlots.Tiling.{Valid}
use vsg.MemorySlots.Reserve.{Moves}
use vsg.MemoryBufferPools.{Requirements, DeviceMemory, Reserved, thrown, failed, granted}

-- A memory from which `size` bytes can be reserved without a wrap-around.
pub record Usable (size : ℕ) (m : DeviceMemory) : Type 0 where
  pub valid : Valid m.slots
  pub aligned : 0 < m.requirements.alignment
  pub word : m.slots.total_memory_size + m.requirements.alignment + size < 2 ^ 64

abbrev pub AllUsable : ℕ → List DeviceMemory → Type 0
AllUsable size [] = Unit
AllUsable size (m ∷ memories) = Usable size m × AllUsable size memories

-- A memory after the call, and the offset of a range in it that was free and is reserved now.
pub data Granted (memory_type_bits size : ℕ) : DeviceMemory → ℕ → Type 0 where
  range :
      {m : DeviceMemory} {slots : MemorySlots} {offset : ℕ}
      → m.requirements.memory_type_bits ≡ memory_type_bits
      → offset % m.requirements.alignment ≡ 0
      → Moves m.slots offset size slots
      → Granted memory_type_bits size (record m { slots = slots }) offset

-- Where the memory is from: the pool, as it was before the call, or it is new and has the
-- alignment.
pub data Origin (alignment : ℕ) (pool : List DeviceMemory) : DeviceMemory → Type 0 where
  pooled :
      {m : DeviceMemory} {slots : MemorySlots}
      → Memᴰ m pool
      → Origin alignment pool (record m { slots = slots })
  created : {m : DeviceMemory} → m.requirements.alignment ≡ alignment → Origin alignment pool m

-- What the loop over the memories of a pool stops with.
AllGranted : ℕ → ℕ → ℕ → List DeviceMemory → Option (DeviceMemory × ℕ) → Type 0
AllGranted bits size alignment pool none = Unit
AllGranted bits size alignment pool (some (m, offset)) =
    Granted bits size m offset × Origin alignment pool m

-- The outcome that is not a failure: a range of the size, in a memory of the type.
pub Grants : Requirements → List DeviceMemory → Reserved → Type 0
Grants r pool thrown = ⊥
Grants r pool failed = ⊥
Grants r pool (granted m offset) =
    Granted r.memory_type_bits r.size m offset × Origin r.alignment pool m
