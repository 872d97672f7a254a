-- ===== src/Lib.antt =====
-- Hexahedron: a kernel and the libraries that it is built with, libpolyhedron (the C library) and
-- libkstructures (data structures). The model is of the 32-bit build: `uintptr_t`, `size_t`, `long`
-- and `int` have 32 bits, a `char` is signed, and arithmetic that leaves the range wraps.
--
-- Base: names, tests, lists, bits of words, counting and outcomes that every part uses. An operation
--   of the kernel takes the state and is `done` with a result and a state, stops in a `panic`, or
--   `hang`s on a lock that is never released (Base/Outcome).
-- Bitmap: the words of hexahedron/mem/pmm.c with the loops that look for a free frame and for a run of
--   free frames; each loop recurs on the rounds that it has left.
-- Pmm: hexahedron/mem/pmm.c, the physical memory manager, with one definition for each function:
--   pmm_init, pmm_initializeRegion, pmm_deinitializeRegion, pmm_allocateBlock, pmm_freeBlock,
--   pmm_allocateBlocks, pmm_freeBlocks and the tests of frames. Its well-formedness (Pmm/Invariant)
--   has at most 2 ^ 20 frames, which is all that 32-bit addresses reach.
-- Pool: hexahedron/misc/pool.c, pools of chunks of one size on the same bitmap, with one definition for
--   each function. `mem_allocateDMA` and `mem_sbrk` are arguments of `create`.
-- Semaphore: hexahedron/misc/semaphore.c. A sum that no `int` holds is a fault.
-- Args: hexahedron/misc/args.c, the parser of the kernel's arguments, which fills a table of Hashmap. Its
--   loop runs on fuel, one more than the bytes of the string, which is enough (Args/Fuel).
-- Libc/Strings: libpolyhedron/string, the functions that read strings. A string is the list of bytes
--   from the pointer to the end of its object; a read past that end gives `none`.
--   Libc/Strings/Tokens has strpbrk and strtok_r.
-- Libc/Memory: libpolyhedron/string, the functions that write memory, a byte for each address. The
--   loops that look for a NUL run on fuel, and a fuel larger than the lengths of the texts is enough.
-- Libc/Ctype: libpolyhedron/string/ctype.c.
-- Libc/Numbers: libpolyhedron/stdlib: strtol, strtoul, strtoll, strtoull and atoi. The first four
--   differ in the width and in the value for a base that is refused.
-- Libc/Time: libpolyhedron/time/localtime.c, the calendar, mktime, and fill_time on times that are not
--   negative. Its loops have the source's bounds; Libc/Time/Periods sums up what they pass.
-- Hashmap: libkstructures/hashmap/hashmap.c, a chained table with strings for keys, on `strcmp` of
--   Libc/Strings. A chain of nodes is a list, since a node is in one chain alone.
-- LinkedList: libkstructures/list/list.c, doubly linked lists over a heap of nodes, where NULL is 0 and an
--   access through it gives `none`. The loop of list_find runs on fuel. LinkedList/Linked says which
--   sequence a list stands for; Segments, Delete and Ends split, join and shorten it.
-- Spinlock: hexahedron/misc/spinlock.c, one lock and the processors that use it, as a step relation with
--   one atomic operation on the flag in each step. A step may be a release by any processor, as in the
--   source; where the laws assume that the callers keep to their own lock, they say so (IsProper). The
--   parts above model a lock that they take as a flag, since no other processor runs in between.
-- Vfs: hexahedron/fs/vfs.c. The loops over the tokens of a path are one definition on strtok_r
--   (for_tokens), which runs on fuel; a fuel above the path's length is enough (Vfs/Pieces, Tokens and
--   Loops). A parameter says whether address 0 can be read and holds a NUL byte. Canonical has
--   vfs_canonicalizePath, which counts the bytes written behind an allocation; Resolve and Absolute
--   have its laws. Tree has the tree of mountpoints with libkstructures/tree/tree.c, vfs_init, vfs_mount
--   and vfs_getMountpoint, over a heap of nodes; Growth, Mounts, Mounting, Mountpoints and Reachable
--   have theirs. Open has kopen and the calls through a node's functions, which are arguments
--   (Drivers); Opening has its laws. Filesystems has the registered file systems, on the table of
--   Hashmap, and Registered their law.
--
-- Paging: hexahedron/arch/i386/mem.c, the virtual memory of the 32-bit build, over the Pmm and Pool
--   above. A frame of physical memory is read as 1024 entries, and a `page_t *` is a frame and an
--   index. Tables has mem_getPage, mem_mapAddress, mem_remapPhys and mem_getPhysicalAddress;
--   mem_remapPhys and mem_mapAddress call each other, so remap_phys runs on fuel, of which one is
--   enough for a frame in the cache of physical memory (Paging/Cached). Regions has the regions of
--   devices, DMA and drivers and mem_sbrk, whose first loop runs on fuel for two rounds more than the
--   pages to take back; Spaces has the reference counts and mem_clone; Boot has mem_init. Walk says what a
--   directory maps and when its tables are in order. The laws, for tables in the cache, are in Creation,
--   Obtained, Writes and Mapping (one page), Unmapping, Mmio, Heap, Growth and Sbrk (the heap grows),
--   References, Clone and Cloning (one table).
--
-- Not modelled: the registers of the processor in mem.c, the 64-bit arch/x86_64/mem.c, allocation of
-- memory for the structures (kmalloc does not fail in this code), names kept for debugging, debug
-- output, the concurrent use of a structure behind its lock, and the parts of the system that are device
-- registers, assembly or copies of other libraries (the JSON library, liballoc, the allocator of ToaruOS,
-- ACPICA).
pub mod Base
pub mod Bitmap
pub mod Pmm
pub mod Pool
pub mod Semaphore
pub mod Libc
pub mod Hashmap
pub mod Args
pub mod LinkedList
pub mod Spinlock
pub mod Vfs
pub mod Paging
