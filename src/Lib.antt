-- ===== src/Lib.antt =====
-- The core of the UCHos kernel: its tasks and the messages between them, its page allocators, its
-- timers, its descriptors and open files, the contents of FAT32 files, and the lists, the address cache and
-- the checksum that its other parts use.
-- The boot allocator's bitmap gives the pages from which the buddy system is set up; the tasks stand in the
-- run queue, wait for messages and doorbells, and ring the timer's; the file service keeps the descriptors of
-- its clients and the ledger of open files, and reads, writes, grows and cuts files by clusters through a
-- cache. The slab allocator takes its pages from the buddy system.
--
-- Parts and files (paths from the repository's root):
--   Prelude, Prelude/*: Boolean tests, lists and bit operations over the native numbers.
--   Common: libs/common (error codes, process ids, messages).
--   Task/State: the task structure and the globals of kernel/task/task.cpp. A task is named by its
--     slot of `tasks`; a null or out-of-range access is the result `none`.
--   Task/MessageQueue: the ring of kernel/task/message_queue.cpp; Fifo has the list it refines.
--   Task/Scheduler: create_task, schedule_task, pick_next_task, switch_task, record_child_exit.
--   Task/Ipc: kernel/task/ipc.cpp. Each definition is one section that runs with interrupts off; a
--     blocking loop is given by its rounds. Mailbox, Doorbell: what a send and a receive do.
--   Task/Children: exit_task and the loop of sys_wait (kernel/syscall/handler.cpp); Fifo has the
--     list of parked exits.
--   Task/Boot: initialize; Spawning has the tasks of the manifest one behind the other.
--   Task/System: any order of these sections as a step relation, with the invariant that every step
--     keeps (Invariant, Delivery, Rounds, Switching, Exit, Creation) and what it means (Safety).
--   Fs/Fat/Clusters: the cluster chains of kernel/fs/fat/utils.cpp, over the table as a list.
--   Fs/Fat/Growth: grow_file_if_needed of kernel/fs/fat/file.cpp (Extension, Empty).
--   Fs/FileInfo: the cache of file contents of kernel/fs/file_info.cpp (Lru, Ids, Invariant).
--   Fs/Fat/Content: load_file and the replies to reads of kernel/fs/fat/file.cpp. The block device is
--     a parameter. Loop has the loop over the clusters, Load the cached file, Window reads in a row.
--   Fs/Fat/Write: write_file_cluster, truncate_file and handle_fs_write of the same file (Truncate;
--     Start, Fresh: the first write to a file).
--   Fs/Descriptor: kernel/fs/file_descriptor.cpp, with what each operation does to every lookup
--     (Lookup, Changes, Exit, Start).
--   Fs/OpenFiles: the ledger of kernel/fs/fat/open_files.cpp (References, Creation).
--   Fs/Handlers: handle_fs_close and handle_fs_dup2 of kernel/fs/fat/file.cpp, which keep the
--     descriptors and the ledger in step (Accounting, Redirection).
--   IntrusiveList: kernel/list.cpp, over the links of every address. Segment has the chains of nodes,
--     Refine the list that they are; the run queue of Task is such a list of slots.
--   Memory/BitUtils: kernel/bit_utils.cpp, on 32 bits.
--   Memory/Page: kernel/memory/page.{hpp,cpp}. A page is its index, `pages` the list of its statuses.
--   Memory/Buddy: kernel/memory/buddy_system.cpp. A free block is its first page. Cover counts the
--     free blocks that a page lies in; Split, Allocate, Merge and Free follow the operations, and
--     Register the set-up of the lists from the free pages.
--   Memory/Bootstrap: kernel/memory/bootstrap_allocator.cpp, the bitmap as words of 64 bits
--     (Bitmap), the search (FirstFit) and the memory map (Descriptors).
--   Memory/Init: initialize_allocators, which puts the three together.
--   Memory/Slab: slabs and caches of kernel/memory/slab.cpp; Alloc has the
--     allocation from a cache, Kmalloc alloc and free over the caches.
--     Occupancy and Objects deal with one slab, Classes, Lists and Grow with an allocation from a
--     cache, Moves and Release with a free.
--   Timers/Timer: kernel/timers/timer.cpp. The priority queue is a parameter that gives an event of the
--     least timeout (EventQueue); Expiry deals with one event, Tick with a whole tick, Forever with a
--     period under a tick.
--   Net/Checksum: kernel/net/checksum.cpp. Net/Arp: the table of kernel/net/arp.cpp (Cache).
--   Examples: the theorems at concrete inputs.
--
-- Parameters: the storage that the allocator returns for a ring, if any, and whether there is memory for
-- a task; which event the timer's priority queue gives of those with the least timeout; what the block
-- device answers to reads and writes, and whether there is memory for a buffer. A free list of the buddy
-- system has the 4096 nodes of its pool, and a push without a node is a failure.
--
-- Fuel: freeing a chain may follow links in a cycle; a walk that ends visits each entry of the table once,
-- so one more than its length is enough to free a chain, and its length to find its end. Merging has a
-- round for each order up to MAX_ORDER. Registering a run of pages recurs on the pages before the first aligned one,
-- which are fewer, and loops over the others, at least one at a time; this is so as far as addresses
-- fit the 32 bits of align_up, and the results are stated for memory of at most 4 GiB. A tick
-- takes a round for each expired event and one more, when no period is shorter than a tick. A walk of
-- an intrusive list takes a round for each node and one more. Loading a file takes a round for each of
-- its bytes at most, and one more.
--
-- Not modelled: CPU contexts, stacks, page tables and the interrupt controller; out-of-line buffers and
-- descriptors, which exit_task releases; a change of tasks between the lookup of a destination and the
-- section of its delivery; logging; fork and exec; and the kernel's other parts
-- (heap debugging, paging, drivers, the packet handlers of the network, graphics, directories and
-- the handlers that look up names in them, the transfer of the FAT to the disk).
pub mod Prelude
pub mod Common
pub mod IntrusiveList
pub mod Memory
pub mod Fs
pub mod Task
pub mod Timers
pub mod Net
pub mod Examples
