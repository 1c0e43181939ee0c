-- ===== src/MemoryBufferPools.antt =====
-- MemoryBufferPools of include/vsg/vk/MemoryBufferPools.h and src/vsg/vk/MemoryBufferPools.cpp,
-- with what it uses of DeviceMemory and Buffer (include/vsg/vk/DeviceMemory.h and Buffer.h). What
-- a call returns is the object as it is after the call. What Vulkan decides, whether
-- an allocation succeeds and what a buffer requires, is an argument.
pub mod Room
mod Tests
use vsg.Base.{
  ℕ, zero, suc, ◌+◌, ◌/◌, Bool, true, false, not, ◌&&◌, Option, none, some, List, [], ◌∷◌, ◌++◌,
  ltb, leb, ◌==◌, if◌then◌else◌,
}
use vsg.Base.Word.{add64, sub64, mul64}
use vsg.MemorySlots.{
  MemorySlots, init, aligned_start, reserve, full, maximum_available_space, total_available_size,
  total_reserved_size,
}

pub record BufferPreferences : Type 0 where
  pub minimum_buffer_size : ℕ
  pub minimum_buffer_device_memory_size : ℕ
  pub minimum_image_device_memory_size : ℕ

-- VkMemoryRequirements.
pub record Requirements : Type 0 where
  pub size : ℕ
  pub alignment : ℕ
  pub memory_type_bits : ℕ

pub record DeviceMemory : Type 0 where
  pub requirements : Requirements
  pub slots : MemorySlots

pub record Buffer : Type 0 where
  pub usage : ℕ
  pub slots : MemorySlots

-- The two pools.
pub record Pools : Type 0 where
  pub preferences : BufferPreferences
  pub memories : List DeviceMemory
  pub buffers : List Buffer

-- DeviceMemory::create, when the allocation succeeds.
unfoldable pub create_memory : Requirements → DeviceMemory
create_memory requirements = record { requirements = requirements; slots = init requirements.size }

unfoldable pub create_buffer : ℕ → ℕ → Buffer
create_buffer size usage = record { usage = usage; slots = init size }

-- The sums over a pool, with the sum so far.
unfoldable pub memory_total_available : ℕ → List DeviceMemory → ℕ
memory_total_available total [] = total
memory_total_available total (m ∷ memories) =
    memory_total_available (add64 total (total_available_size m.slots)) memories

unfoldable pub memory_total_reserved : ℕ → List DeviceMemory → ℕ
memory_total_reserved total [] = total
memory_total_reserved total (m ∷ memories) =
    memory_total_reserved (add64 total (total_reserved_size m.slots)) memories

unfoldable pub buffer_total_available : ℕ → List Buffer → ℕ
buffer_total_available total [] = total
buffer_total_available total (b ∷ buffers) =
    buffer_total_available (add64 total (total_available_size b.slots)) buffers

unfoldable pub buffer_total_reserved : ℕ → List Buffer → ℕ
buffer_total_reserved total [] = total
buffer_total_reserved total (b ∷ buffers) =
    buffer_total_reserved (add64 total (total_reserved_size b.slots)) buffers

-- Whether the loop over the memories tries this one.
unfoldable pub suits : ℕ → ℕ → DeviceMemory → Bool
suits memory_type_bits size m =
    m.requirements.memory_type_bits == memory_type_bits
    && leb size (maximum_available_space m.slots)

unfoldable pub reserve_in : ℕ → DeviceMemory → (Bool × ℕ) × DeviceMemory
reserve_in size m =
    let (result, slots) = reserve m.slots size m.requirements.alignment in
    (result, record m { slots = slots })

-- The loop over the memories: the memory that it stops with, as it is then, the offset in it, and
-- the pool.
unfoldable pub search_memories :
    ℕ → ℕ → List DeviceMemory → Option (DeviceMemory × ℕ) × List DeviceMemory
search_memories memory_type_bits size [] = (none, [])
search_memories memory_type_bits size (m ∷ memories) =
    let ((done, offset), m') = reserve_in size m in
    let (found, rest) = search_memories memory_type_bits size memories in
    if suits memory_type_bits size m
    then if done then (some (m', offset), m' ∷ memories) else (found, m' ∷ rest)
    else (found, m ∷ rest)

-- What the pools return: DeviceMemory::create throws, no range was found, or a range.
pub data Reserved : Type 0 where
  thrown : Reserved
  failed : Reserved
  granted : DeviceMemory → ℕ → Reserved

-- At least the minimum, rounded up to the alignment.
unfoldable pub enlarge : ℕ → Requirements → Requirements
enlarge minimum requirements =
    let clamped = aligned_start minimum requirements.alignment in
    if ltb requirements.size clamped then record requirements { size = clamped } else requirements

unfoldable pub add_unless_full : DeviceMemory → Pools → Pools
add_unless_full m pools =
    if full m.slots then pools else record pools { memories = pools.memories ++ m ∷ [] }

-- The branch in which no memory of the pool has room, with whether the allocation succeeds.
unfoldable pub new_memory : Bool → ℕ → ℕ → Requirements → Pools → Reserved × Pools
new_memory false minimum size requirements pools = (thrown, pools)
new_memory true minimum size requirements pools =
    let ((done, offset), m) = reserve_in size (create_memory (enlarge minimum requirements)) in
    (if done then granted m offset else failed, add_unless_full m pools)

unfoldable pub after_search :
    Bool → ℕ → ℕ → Requirements → Option (DeviceMemory × ℕ) → Pools → Reserved × Pools
after_search allocates minimum size requirements (some (m, offset)) pools =
    (granted m offset, pools)
after_search allocates minimum size requirements none pools =
    new_memory allocates minimum size requirements pools

-- The search and the new memory, which reserveBufferData and reserveMemory both write out.
unfoldable pub find_or_create : Bool → ℕ → ℕ → Requirements → Pools → Reserved × Pools
find_or_create allocates minimum size requirements pools =
    let (found, memories) = search_memories requirements.memory_type_bits size pools.memories in
    after_search allocates minimum size requirements found (record pools { memories = memories })

unfoldable pub reserve_memory : Bool → Requirements → Pools → Reserved × Pools
reserve_memory allocates requirements pools =
    find_or_create allocates pools.preferences.minimum_image_device_memory_size requirements.size
      requirements pools

-- BufferData, with the memory that a new buffer is bound to.
pub data BufferData : Type 0 where
  exception : BufferData
  no_buffer : BufferData
  from_pool : Buffer → ℕ → ℕ → BufferData
  new_buffer : Buffer → ℕ → ℕ → DeviceMemory → ℕ → BufferData

-- The loop over the buffers.
unfoldable pub search_buffers : ℕ → ℕ → ℕ → List Buffer → Option (Buffer × ℕ) × List Buffer
search_buffers size alignment usage [] = (none, [])
search_buffers size alignment usage (b ∷ buffers) =
    let ((done, offset), slots) = reserve b.slots size alignment in
    let b' : Buffer = record b { slots = slots } in
    let (found, rest) = search_buffers size alignment usage buffers in
    if b.usage == usage && leb size (maximum_available_space b.slots)
    then if done then (some (b', offset), b' ∷ buffers) else (found, b' ∷ rest)
    else (found, b ∷ rest)

unfoldable pub bind : Buffer → ℕ → ℕ → Reserved → BufferData
bind b offset size thrown = exception
bind b offset size failed = no_buffer
bind b offset size (granted m memory_offset) = new_buffer b offset size m memory_offset

-- The branch in which no buffer has room, with vkGetBufferMemoryRequirements by the buffer's size.
unfoldable pub add_buffer : Bool → (ℕ → Requirements) → ℕ → ℕ → ℕ → Pools → BufferData × Pools
add_buffer allocates requires size alignment usage pools =
    let minimum = pools.preferences.minimum_buffer_size in
    let device_size = if ltb size minimum then minimum else size in
    let ((_, offset), slots) = reserve (init device_size) size alignment in
    let b : Buffer = record { usage = usage; slots = slots } in
    let buffers = if full slots then pools.buffers else pools.buffers ++ b ∷ [] in
    let (reserved, pools') =
      find_or_create allocates pools.preferences.minimum_buffer_device_memory_size device_size
        (requires device_size) (record pools { buffers = buffers }) in
    (bind b offset size reserved, pools')

unfoldable pub after_buffers :
    Bool → (ℕ → Requirements) → ℕ → ℕ → ℕ → Option (Buffer × ℕ) → Pools → BufferData × Pools
after_buffers allocates requires size alignment usage (some (b, offset)) pools =
    (from_pool b offset size, pools)
after_buffers allocates requires size alignment usage none pools =
    add_buffer allocates requires size alignment usage pools

unfoldable pub reserve_buffer_data :
    Bool → (ℕ → Requirements) → ℕ → ℕ → ℕ → Pools → BufferData × Pools
reserve_buffer_data allocates requires size alignment usage pools =
    let (found, buffers) = search_buffers size alignment usage pools.buffers in
    after_buffers allocates requires size alignment usage found (record pools { buffers = buffers })
