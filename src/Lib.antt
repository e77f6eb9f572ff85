-- ===== src/Lib.antt =====
-- wey-OS: a model of parts of the kernel under src/, with what makes them correct.
--
-- The parts and how they interact. The boot loader reports memory in a map (e820), which is
-- sorted and merged; `memblock` keeps it in two tables until the page allocator takes over,
-- whose buddy lists `page_init` fills from them; slabs take single pages of it for small
-- objects, and `kmalloc` takes blocks for large ones. A process has a list of mapped regions
-- (`vma`), which the page fault handler looks addresses up in and `fork` copies. Processes are
-- named by identifiers (`pid`). The scheduler switches between tasks, which `kernel_thread` and
-- `fork` start and `exit` ends; `waitpid` reaps them, and wait queues wake those that sleep. The
-- timer interrupt drives the clock and calls the scheduler. A keyboard driver hands
-- bytes to the receive buffer of a terminal, which hands them to the line discipline, from which
-- processes read lines. A disk is read through bios, which become requests in a queue that the
-- driver empties; its first sector says which partitions there are. Path walks go from the root
-- mount over the inodes of file systems to the inode of a path. The initial file system is
-- unpacked from a cpio archive. All of these use the string routines and the 64-bit division of
-- src/lib/.
--
-- Which file models which code:
--   Memory/E820       src/arch/i386/kernel/e820.c: sort, merge, e820_end_ram_pfn
--   Memory/Memblock   src/memory/pmm/memblock.c: insertion, sorting, merging, the reservation test,
--                     `memblock_alloc` (alloc) and `memblock_alloc_range` (alloc_range)
--   Memory/Page       src/memory/heap/page.c: page_init, page_alloc, page_free; page_get and page_put
--                     of src/include/mm/page.h
--   Memory/Heap       src/memory/heap/slab.c, and kmalloc and kfree of src/memory/heap/kheap.c
--   Memory/Vma        src/memory/vmm/vma.c: add, lookup, remove, clean, destroy, dup
--   Memory/Mmu        src/memory/vmm/mmu.c: translation, flags, mmu_munmap; the entries of
--                     src/arch/i386/mm/paging.c
--   Core/Pid          src/core/pid.c: init, alloc, free
--   Core/Sched        src/core/sched/sched.c, src/arch/i386/kernel/sched/process.c (the switch), and
--                     task_sleep, task_wakeup and task_handle_prev_status of src/core/sched/task.c
--   Core/Task         the rest of src/core/sched/task.c; waitpid of src/core/pid.c
--   Core/Fork         src/core/fork.c: kernel_thread, copy_process, fork; task_create
--   Core/Wait         src/core/sched/wait.c: __wake_up, wait_queue_add
--   Core/Life         traces of what happens to tasks
--   Core/Worker       src/lib/list.c: list_add, list_remove; src/core/sched/worker.c: queue_work
--   Core/Clock        src/core/clock.c: init, tick, monotonic and real time, sources, events
--   Drivers/Tty/Buffer  src/drivers/tty/tty_buffer.c: tty_receive_buf, flush_to_ldisc
--   Drivers/Tty/Ldisc   src/drivers/tty/tty_ldisc.c: open, close, receive, read
--   Block/Request     src/block/blk_request.c, src/block/blk_elevator.c, and `block_read`
--   Block/Partitions  src/block/partitions.c: the boot record and the scan
--   Fs/Path           src/fs/path.c: path_iterate and both walks
--   Util/Cpio         src/lib/cpio.c
--   Util/Div64        src/lib/div64.c and src/arch/i386/include/asm/div64.h
--   Util/Text         src/lib/string.c: memset, memcpy, memmove, strlen, strnlen, strcpy, strcat,
--                     strcmp
--   Base              Boolean tests, lists with native indices, masks, status codes
-- A definition has the name of its function, without the prefix that the module stands for; a loop
-- of it is a definition of its own. State is passed explicitly. A module's Tests child runs the code
-- on concrete inputs.
--
-- Conventions. Numbers are natural, and a machine word keeps its wrap-around as a remainder. What an
-- allocation, a driver or another file system answers is an argument. A negative error code is `err`.
-- Locks are taken to work: a call is not interleaved with another one of the same object. Reference
-- counts of files and inodes are functions of the object, and what happens when one of these reaches
-- zero is left out; a page is freed with its last reference.
--
-- A task is a number, and the lists of tasks are lists; a function that may call `panic` or use a
-- NULL pointer returns a `Run`. A switch of tasks is the change of the current task, and an
-- operation of a trace ends before the next begins.
--
-- Bounds and fuel. The searches of memblock have a fuel of one more than the addresses up to the
-- end of the region, and move on by at least one. The loops of the page allocator over the
-- orders have a round for each order up to MAX_ORDER, and `page_init` one for each page of a
-- region. The loop of `e820_merge` over whole rounds has a fuel that its callers give; nothing
-- is proved of its end. The order of an allocation is found in at most 64 rounds, one for each
-- bit. The search for an identifier takes at most PROC_MAX turns. A queue run has one turn more
-- than there are requests. Filling the chunks of a terminal has one turn more than there are
-- bytes, of which every turn writes one at least. A path walk has one turn more than there are
-- characters, of which every component takes one at least. The loops over strings take a fuel
-- that their theorems bound by the length.
--
-- Not modelled: printing and the dumps, hardware (ports, interrupts, inline assembly), the boot code
-- and the boot loader, and of the kernel kcalloc, the making and copying of page tables, the
-- registers and stacks of tasks, the file systems themselves, the device registries and the virtual
-- terminal, which need models of memory or of the hardware that this development does not have.
pub mod Base
pub mod Block
pub mod Core
pub mod Drivers
pub mod Fs
pub mod Memory
pub mod Util
