-- ===== src/Lib.antt =====
-- A model of the operating-system assignments of gemOS: page tables, system calls for memory, page
-- faults, the scheduler with sleep, exit, signals and threads, and the object store's bitmaps, hash
-- table, cache of disk blocks, and objects in blocks.
--
-- The parts and how they interact:
-- * Assn1/context_mm.c sets up and clears the page tables of a process. `Context` has `struct
--   mm_segment` and the memory part of `struct exec_context` (Assn1/context.h), `Mem` physical memory
--   and the block of code that is repeated for every level of every walk, `Mm` the functions
--   `prepare_context_mm` and `cleanup_context_mm`.
-- * Assn2/entry.c uses the same tables: `Syscall` has the cases of `do_syscall`, of which `write`,
--   `expand` and `shrink` do the work, and `Fault` has `handle_page_fault`, which maps the pages that
--   `expand` has handed out when they are touched first.
-- * Assn3/schedule.c keeps the list of processes: `Process` has the process and the registers,
--   `Switch` the functions `switch_context_timer`, `switch_context_sleep`, `switch_context_exit` and
--   the assembler that restores registers, `Sched` has `pick_next_context`, `handle_timer_tick`,
--   `do_exit`, `do_sleep`, `invoke_sync_signal`, `do_signal` and `do_alarm`, and `Clone` has
--   `do_clone`.
-- * Assn4/objstore.c is a store of objects, apart from the kernel: `Objstore` has `hash` and
--   `insert_to_hash_table`, `Objstore/Bitmap` the functions that hand out and take back ids,
--   `Objstore/Cache` the cache's nodes, their list in the order of use and their hash chains, up to
--   `retrieve_block_from_cache`, and `Objstore/Blocks`, which uses both, `read_block_modified`,
--   `write_block_modified`, `insert_block_to_cache` and `obj_sync`. `Objstore/Objects` is above these:
--   `get_object_by_id` and `insert_to_disk`, with `struct object` as bytes. `Objstore/Names` has
--   `find_object_id`. `Objstore/World` makes calls of these one after the other, `Objstore/Files` has
--   `create_object`, `destroy_object` and the globals that they use, and `Objstore/Contents`
--   `objstore_write` and `objstore_read`; `Objstore/Files/Rename` has `rename_object`.
-- * Assn4/objfs.c has the handlers of the mounted file system, which call the store: `Objfs`.
-- * `Prelude` has the names and lemmas that all share, and `Tests` the results at small inputs.
-- The modules below each of these hold its proofs: `Mem/Walk` says what a walk of the tables is,
-- `Mem/Fill`, `Mem/Entry` and `Mem/Map` what writes to tables do to all walks, `Mem/Rights` which pages
-- may be written, by the entries of all levels, `Sched/Pick`,
-- `Sched/Account`, `Sched/Tick` and `Sched/Valid` take the timer's handler apart, `Sched/Leave` and
-- `Sched/Exit` are on sleep and exit, `Sched/Duration` is on rows of ticks, `Sched/Signal` on signals.
-- `Objstore/Cache/Lru` and the modules below it are on the list of the cache, `Chain`, `Hash` and
-- `Hashed` beside it on the chains, `Insert` and `Retrieve` on the functions that change both.
-- In `Objstore/Blocks`, `Run` is on single calls, `Sync` on `obj_sync`, and `Coherent` on calls one after
-- the other. In `Objstore/Objects`, `Layout` is on the bytes of objects, and `Stored` says where on the
-- disk they are. `Objstore/View` says when the cache stands for an array of blocks, and the modules below it what single calls do to that;
-- the results on `Objstore/Files` and `Objstore/Contents` are over it.
--
-- How code corresponds to definitions. A function on kernel state becomes a function from the state
-- to the new state and the result. Memory is a function of frame and index, `osmap(pfn)` being the
-- page of frame `pfn`; the stacks that the scheduler writes to are words at addresses. A register that
-- assembler reads is an argument. The repeated code of a walk is one definition, with the flags and
-- the region as arguments. `unsigned long` and `u32` keep their wrap-around, written out as
-- remainders. A pointer variable that is read before it is set is the result `none`. Messages on the
-- console are left out, but for the text of `SYSCALL_WRITE`.
--
-- Words used below. A page is known by the path of its four table indices. The tables are a tree
-- (`IsTree`) if no two paths of tables meet in one frame, and sound (`IsSound`) if besides all of
-- these frames are in use. A segment is well formed (`IsSegment`) if it starts at 4 GB or above, and
-- `next_free` lies between its start and its end, which is below 2 ^ 64. A page may be
-- written (`is_writable`) if the entries of all levels on the way to it have the bit `rw`. A process may
-- touch (`may_touch`) data and read-only data below `next_free`, the latter for reading, and its stack; the
-- code accepts (`accepts`) the address `next_free` too. A
-- schedule is valid (`IsValid`) if the current process, and no other, runs, and the list is indexed
-- by pid. The list of the cache is well formed (`IsLru`) if the links lead through different nodes in
-- both directions and `cache_size` is their number; its chains are (`IsHashed`) if they end, have
-- different nodes and no node in common. The cache stands for an array of blocks (`IsView`) if for every
-- block its page in the cache, or the disk where it has none, holds the bytes of the array. That is said
-- for blocks below 2 ^ 15, which have a chain each, and while the cache has room: a call takes at most
-- one block of it, so the results ask for room for the calls that they are about. The blocks of objects
-- are below 17696.
--
-- Parameters, since their code is not in the repository: the allocator of page frames (`Pfns`, with
-- what the code relies on in `PfnLaws`), the numbers of flags, signals and processes, `strlen`,
-- `strcmp`, `get_new_ctx` and `osmap` in `do_clone`, and the processor's flushing of the TLB, which is
-- left out. Those of the object store are the block device of lib.h (`Device`, with `DeviceLaws`), the
-- pointers that `calloc` returns, which does not fail, and whether `malloc_4k` got its page (`Supply`,
-- with `AllocLaws`), `strcmp` (`StrcmpLaws`), and what a buffer on the stack holds before it is filled.
-- `retrieve_block_from_cache` reads a node that it has freed: what is there is a parameter (`freed` of
-- `Device`), none if the read is undefined, as the C standard has it. That the node still holds what it
-- held is what `SupplyLaws` adds to `AllocLaws`: C does not promise it, and without it the second use
-- of a block is undefined. In the same way, what a chain of the hash table leads to behind a node that
-- `destroy_object` has freed is a parameter.
-- `do_exit` and `do_cleanup` are taken not to return to their caller.
--
-- Loops are recursion on the rounds that are left, which the callers give as the source's bounds
-- (`MAX_PROCESSES`, the number of pages, the number of characters), so that no fuel runs out.
-- The walks over the cache's chains have fuel, for which the length of the chain is enough; the loop of
-- `objstore_read`, which does not always end, has a number of rounds.
--
-- Not modelled: the user programs Assn2/init.c and Assn3/init.c, the handler of the division fault,
-- the setting-up in Assn4/objfs.c, and in Assn4/objstore.c the freeing of the blocks of an object,
-- which the code calls with its arguments swapped, `objstore_init` and `objstore_destroy`, its build
-- without CACHE, the process and thread exercises HW1, HW2 and pthreads.
mod Prelude
mod Tests
pub mod Clone
pub mod Context
pub mod Mem
pub mod Mm
pub mod Fault
pub mod Objfs
pub mod Objstore
pub mod Process
pub mod Sched
pub mod Switch
pub mod Syscall
