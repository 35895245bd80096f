-- ===== src/Lib.antt =====
-- Verification of Boruix, an operating system kernel in Rust.
--
-- Mm models the crate `mm`. Mm/Vma is the interval treap of the virtual memory areas,
-- mm/src/memory_set/vma_tree.rs: its nodes, `merge`, `split`, `insert_node` and `remove_node` stand
-- in Mm/Vma.antt, the searches and traversals in Mm/Vma/Lookup.antt, `VmaTree::insert_area` with the
-- counters of the module in Mm/Vma/Insert.antt, and `MemorySet::check_range` of
-- mm/src/memory_set/address_space.rs, which asks the tree, in Mm/Vma/Range.antt. The other files
-- below Mm/Vma are proofs. Mm/Paging.antt has the walks through the page tables that change nothing:
-- `MemorySet::translate`, `page_access_ok` and `check_range_mapped`, and `translate` of
-- mm/src/mapper.rs; `check_range_mapped` asks `check_range` first.
-- Mm/Mapping.antt is `map_page_inner` of mm/src/mapper.rs with the counts of mm/src/page_table.rs; it
-- adds to the reverse map. Mm/Mapping/Unmap.antt is its `unmap_page_inner`. The frames that the
-- allocator hands out and those given back are lists in the state.
-- Mm/Rmap.antt is the map from frames to the pages that map them, mm/src/rmap.rs.
-- Mm/Frame is the allocator of physical frames, mm/src/frame_allocator: its state, with the metadata
-- of the frames as a function, stands in Mm/Frame.antt, the free lists with `alloc_from_list` and
-- `free_and_merge` in Mm/Frame/Buddy.antt, `alloc_from_uninit` in Mm/Frame/Uninit.antt, the caches of
-- the CPUs, the reserve and `alloc_global` in Mm/Frame/Pools.antt, and `allocate`, `deallocate` and
-- `compact` in Mm/Frame/Calls.antt. A free block is a first frame and an order; the proofs read the
-- lists as a set of such blocks. The code takes one lock at a time; here a call is one step.
--
-- Words and addresses are natural numbers, and the range of a word is a hypothesis or a part of an
-- invariant. Boxes and moves leave no trace. A `VirtAddr` is its word, and `PageTableFlags` is its
-- bits; what the `bitflags` crate generates is a parameter. Counters that are atomics wrap at 2^64.
--
-- A loop that does not follow the structure of its data takes fuel, and `none` is the result only
-- where the fuel runs out. `insert_area` needs one unit more than the number of areas, since a round
-- that merges takes one area out; `check_range` needs two units more, and the traversals one unit
-- for each area.
--
-- Mm/Heap is the allocator of the heap, mm/src/heap_allocator.rs: the headers of the blocks stand in a
-- memory of bytes, Mm/Heap/Grow.antt has the growth, `alloc` and the start, and Mm/Heap/Stats.antt the
-- figures. The heaps of the crate buddy_system_allocator are the record `Buddy`; of them the theorems ask
-- that a block lies in memory and that a heap without a block for a layout stays as it is. Its lists of
-- free blocks are linked through the blocks, so its operations take the memory and give it back.
--
-- Mm/Space is the memory of a task, mm/src/memory_set/address_space.rs and fault.rs: the page fault
-- handler and the growth of the stack in Mm/Space.antt, `push`, `new_bare` and the drop of a set in
-- Mm/Space/Areas.antt, and `fork` in Mm/Space/Fork.antt. It puts the tree of Mm/Vma and the tables of
-- Mm/Mapping together. The bytes of a frame that is a table are those of its entries: where the tables
-- change, the bytes of the frames taken for them and of the entries written change with them.
--
-- Task models the crate `kernel_task`. Task/Fd is the descriptor table of a process,
-- kernel_task/src/fd.rs; the handles are numbers, and their reference counts stand in one store, which
-- the tables of several processes share. Task/WaitQueue is kernel_task/src/waitqueue.rs: the function
-- `block` is all that the other tasks do while the caller sleeps. Task/RunQueue is
-- kernel_task/src/task/runqueue.rs: the queues and ready counts of all CPUs, `fetch` by stride
-- scheduling, and the stealing in `fetch_next_task` and `fetch_next_task_try`; whether a lock is free
-- is an argument. Its task states are those of the wait queue.
--
-- Fs models the crate `kernel_fs`. Fs/Pipe is kernel_fs/src/fs/pipefs.rs. A pipe is changed under its
-- lock, so one round of a loop of `read` or `write` is one operation, and a sequence of such rounds
-- stands for any interleaving of readers and writers. The wait between two rounds is the one of
-- Task/WaitQueue. Fs/Vfs is kernel_fs/src/vfs: the tree of nodes with its registry of file systems
-- (Nodes), the normal form of paths, which are lists of bytes (Path), the lookup with its symbolic links
-- (Open), and the functions that make, delete, rename and mount (Create, Change). A node is its number;
-- `alive` says whether the weak link to a node can be followed, and the file systems are given by the
-- record `VfsOps`, of which a theorem asks that `mkdir` or `mkfile` keep the tree. Fs/Tmpfs is
-- kernel_fs/src/fs/tmpfs.rs, which fills that record. Lines for the serial port are left out.
--
-- Syscall models the crate `kernel_syscall`: Syscall/UserPtr is the check of the pointers that user
-- programs pass, kernel_syscall/src/syscall/user_ptr.rs, which asks `check_range_mapped` of Mm/Paging.
-- What `from_utf8` makes of the bytes is a parameter, and so is the memory that the program sees.
--
-- Drivers models the crate `kernel_driver_hub`: Drivers/Cmos is the clock,
-- kernel_driver_hub/src/driver_hub/cmos.rs, with the registers that the hardware gives as a parameter.
-- Drivers/Keyboard is the queue of scancodes and their decoding, keyboard.rs there.
--
-- `vfs_open` takes one unit of fuel for each symbolic link that is open at a time, and one more;
-- `vfs_get_fullpath` and `unmount` of the temporary file system have one for each node.
-- `alloc_fd` takes one unit of fuel for each slot from `min_fd` to the end of the table and one more;
-- `wait_while` one for each time that the task sleeps and one more; `check_range_mapped` two units more
-- than the pages of the range. A merge has a round for each order above that of the block, and the
-- gap before an aligned block takes one unit for each frame of the block, since it is shorter; the
-- walks of lists in `max_free_order` and `drain_percpu_all` take one for each frame of the memory, since
-- a list whose frames differ is no longer.
--
-- Not modelled: the hardware, the start-up of the frame allocator, which places its metadata and finds
-- the regions, its migration of pages and its statistics, the file systems on
-- devices, the rest of the system call layer, the other drivers, and the user programs.
pub mod Common
pub mod Drivers
pub mod Fs
pub mod Mm
pub mod Syscall
pub mod Task
