-- ===== src/Lib.antt =====
-- The VulkanSceneGraph: the parts of it that keep state of their own and decide something, and what
-- makes them correct.
--
-- Parts and files. MemorySlots.antt models the class of that name in
-- src/vsg/vk/DeviceMemory.cpp, which hands out ranges of a memory or a buffer; its children
-- Reserve, Release and History hold the proofs on reserve(), release() and on sequences of
-- calls, over the tiling of the memory in Tiling. MemoryBufferPools.antt models
-- src/vsg/vk/MemoryBufferPools.cpp, the pools of memories and buffers, each with its
-- MemorySlots. PagedLodContainer.antt models PagedLODContainer of src/vsg/nodes/PagedLOD.cpp:
-- three linked lists in one vector; Linked says which sequences of elements the links stand
-- for, Move, Resize and Remove prove what the operations do to them, and Check holds check().
-- DatabasePager.antt models src/vsg/io/DatabasePager.cpp: Queue the take of a request, Steps
-- the bodies of the read and compile threads, Update updateSceneGraph(), which uses the
-- container; Machine makes one step relation of them, and Owned, Numbers, Steady, Reach, Round
-- and Scene prove its invariant. FileSystem.antt models src/vsg/io/FileSystem.cpp, where
-- Search, Split and Directories are on the search, the parts of a path and makeDirectory();
-- Threading.antt models OperationQueue, Barrier and, in Latch, Latch of include/vsg/threading.
-- RecordTraversal.antt models the stacks of include/vsg/vk/State.h, and its Traverse the apply
-- methods of src/vsg/traversals/RecordTraversal.cpp over a scene graph; Device is what the
-- recorded commands do, Eager the specification without stacks and dirty flags, Sync, Slots,
-- Flush, Keeps, Commands, Transform and Equivalence the proof that they agree, and Frame a
-- whole view. BinaryStream.antt models the values and, in Graph, the objects of
-- src/vsg/io/BinaryInput.cpp and src/vsg/io/BinaryOutput.cpp, with read() and write() of Object
-- and Group; Values, Spec, Grows, Agree, Ready, Steps and Back lead to RoundTrip.
-- ObjectCache.antt models src/vsg/io/ObjectCache.cpp; View is the map it stands for, Refine its
-- operations on it, and Expiry the removal of what has expired. AsciiStream.antt models the
-- strings of src/vsg/io/AsciiInput.cpp and include/vsg/io/AsciiOutput.h. ScratchMemory.antt
-- models include/vsg/core/ScratchMemory.h. Visitor.antt has the classes that
-- src/vsg/core/Visitor.cpp and ConstVisitor.cpp distinguish; Next and ConstNext are their apply
-- methods, Bases the base classes of the headers, Dispatch what accept() leads to, and Types
-- is_compatible() and the casts. RefPtr.antt models include/vsg/core/ref_ptr.h with the counts
-- of Object; Unref, Places, Calls and History prove what unref(), the accesses, the operations
-- and programs of them do. Deletion.antt models the life of an object that threads share: its
-- count, _attemptDelete() of src/vsg/core/Object.cpp, the signal of src/vsg/core/Auxiliary.cpp
-- and include/vsg/core/observer_ptr.h; Safety is the invariant. UserObjects.antt models the
-- user objects in the Auxiliary of src/vsg/core/Object.cpp; Maps, Alone and Steps are on the
-- map, on an Auxiliary of an object's own and on the operations. CommandLine.antt models
-- include/vsg/utils/CommandLine.h; Removal, Reading and Matching are on remove(), on the
-- parameters and on read() of an option. Base holds what they share: tests on numbers, lists,
-- machine words and sorted association lists for std::map and std::multimap.
--
-- Names. A definition has the name of the function in snake case: _move is move, and
-- take_when_avilable is take_when_available; where a function is split, its parts are named for
-- what they do. VkDeviceSize and uint64_t are numbers with arithmetic modulo 2^64, uint32_t modulo
-- 2^32. A reference is an address, and what it refers to is in the state.
--
-- Threads. A step is what a thread does between two points at which another thread can write
-- what it reads; the steps of all threads come in any order. The exchanges of a status are atomic.
-- The priority of a PagedLOD may change at each reading.
--
-- Bounds. The loops of updateSceneGraph() along the container's lists run on as many rounds as the
-- vector has elements, which is more than a list without a cycle has. The other loops recurse on
-- their list. The reader of objects has fuel for their depth; as much as the number of their
-- occurrences is enough. The visitors cast at most four times, and have fuel 5. The deletes that
-- follow an unref() have fuel for the members on the heap, and makeDirectory() for the length of the
-- path. Counts of references are machine words, and no object has 2^32 - 1 references. What a
-- ScratchMemory hands out is 2^62 bytes at most, and its blocks lie in the lower half of the
-- addresses.
--
-- Not modelled: the calls of Vulkan and of the operating system, which are arguments here
-- (vkAllocateMemory's success, vkGetBufferMemoryRequirements, access(), getenv(), mkdir(), what
-- a stream reads from a text), read_cast, the compile traversal, the wait for the compile
-- context, warnings and statistics, and what is done with a pointer that
-- release() has given out after the last ref_ptr has gone. Of
-- mkdir() the errors for permissions, space, the length of a path and links to nothing are left out. The viewer, the windows, the commands, the state objects
-- and the floating-point maths are not modelled; the memory of the Allocator, the rest of the
-- text streams and the other classes and widths of the binary streams are not yet.
pub mod AsciiStream
pub mod Base
pub mod BinaryStream
pub mod CommandLine
pub mod DatabasePager
pub mod Deletion
pub mod FileSystem
pub mod MemoryBufferPools
pub mod MemorySlots
pub mod ObjectCache
pub mod PagedLodContainer
pub mod RecordTraversal
pub mod RefPtr
pub mod ScratchMemory
pub mod Threading
pub mod UserObjects
pub mod Visitor
