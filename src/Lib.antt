-- ===== src/Lib.antt =====
-- COREMU runs the cores of an emulated machine in one thread each. This library models its own code in
-- C (main, incl and utils), with the memory map, the memory allocator, the keyboard, the drives and
-- their services, the clock, the boot order and the printing of the SeaBIOS that it carries, and proves
-- what makes it correct.
--
-- The parts and how they interact: main/core.c keeps the array of cores, starts a thread for each and
-- stops and restarts them. Every core has a queue of pending interrupts (incl/queue.h), which is
-- main/lock-queue.c in the default build and main/ms-queue.c in a build with LOCKFREE. Any thread
-- enqueues an interrupt for a core and may signal it (main/intr.c); the core's own thread dequeues and
-- handles it. main/hw.c knows the hardware thread, main/sched.c the load of the host and how an idle
-- core waits, main/malloc-helper.c and main/utils.c allocate and compute times. utils/monitor.c and
-- utils/kill.c look at the threads from outside. bios/seabios runs in the emulated machine and shares
-- no state with the rest.
--
-- Files and code:
--   Common, Common/* - shared names, Boolean tests, lists, signed integers
--   Memory           - the heap: cells at addresses, loads, stores and frees that can fail
--   Chain            - linked nodes in memory, for both queues
--   Malloc, Malloc/* - main/malloc-helper.c
--   SpinLock         - incl/coremu-spinlock.h
--   Atomic, Atomic/* - incl/atomic-template.h, incl/coremu-atomic.h
--   LockQueue, LockQueue/* - main/lock-queue.c, sequentially (Fifo, Impl) and interleaved (Threads/*)
--   MsQueue, MsQueue/* - main/ms-queue.c, sequentially (Fifo, Impl) and interleaved (Threads/*)
--   Queue, Queue/*   - incl/queue.h, as a record of operations and laws, and what its users see
--   Types            - incl/coremu-types.h
--   Sched, Sched/*   - main/sched.c
--   System           - the globals of main/core.c, main/intr.c and main/hw.c; main/core.h and main/hw.c
--   Intr, Intr/*     - main/intr.c
--   Lifecycle, Lifecycle/* - main/core.c: coremu_init, coremu_core_init, coremu_run_all_cores,
--     coremu_wait_init; main/sched.c: coremu_init_sched_core
--   Pause, Pause/*   - main/core.c: coremu_pause_core, coremu_wait_all_cores_pause,
--     coremu_restart_all_cores
--   Utils, Utils/*   - main/utils.c
--   Tools, Tools/*   - utils/monitor.c, utils/kill.c
--   MemMap, MemMap/* - bios/seabios/src/memmap.c: add_e820, find_high_area
--   Checksum         - bios/seabios/src/util.c: checksum
--   Kbd, Kbd/*       - bios/seabios/src/kbd.c: the keyboard buffer and its services, the scan codes
--   Pmm, Pmm/*       - bios/seabios/src/pmm.c: zones, allocations, the calls of the memory manager
--   Drives, Drives/* - bios/seabios/src/block.c: setup_translation, add_ordered_drive,
--     map_hd_drive
--   Disk, Disk/*     - bios/seabios/src/disk.c: the services of interrupt 13h and its entry points
--   Boot, Boot/*     - bios/seabios/src/boot.c: the boot menu, do_boot
--   Clock, Clock/*   - bios/seabios/src/clock.c: interrupts 08h, 1ah and 70h, the interval timer
--   Printf, Printf/* - bios/seabios/src/output.c: putuint, puthex, bvprintf, snprintf
--
-- State: a queue is a heap with the fields of `queue_t` beside it, the rest of COREMU the record
-- `System`; functions that can abort or access NULL return an option or a `Run`. Pointers are numbers
-- and NULL is 0. What malloc, memalign and pthread_create return, the time stamp counter and the
-- contents of /proc are arguments. The registered callbacks are functions on the state of the
-- emulator, `W`. Machine words are natural numbers below a power of two with the wrap-around written
-- out; signed fields that never come near their bounds are integers, and where they can an overflow is
-- `none`.
--
-- Threads: LockQueue/Threads.antt, MsQueue/Threads.antt and Pause.antt interleave single accesses to
-- shared memory, under sequential consistency, which the locked instructions give on x86. What a
-- producer does to its node before the lock or the loop is one step, since no other thread knows the
-- node. The allocator takes back freed blocks: in the interleaving of main/ms-queue.c at any time or,
-- by a parameter, only when no producer holds a pointer that it has read and the consumer is not about to
-- free a node. Elsewhere a function runs without interference.
--
-- Loops: the spin lock, the loops of main/ms-queue.c, of coremu_receive_intr and of coremu_wait_init
-- and the one of utils/monitor.c run on fuel. One round is enough for a free lock and for the
-- lock-free queue without interference; receiving needs one more than there are interrupts, waiting
-- one more than there are sleeps, counting processors one more than there are lines of them.
-- putuint runs on the places of its buffer, which are enough for 32 bits, and bvprintf on the length of
-- the format; seven rounds halve 16 bits of cylinders. A loop that waits for others takes the list of what they do while it waits.
--
-- Not modelled: output, the parsing of /proc, libtopology, the backtrace and the timer, which are calls
-- of other code; `bit_test`, `atomic_and` and `atomic_or`; and
-- the rest of bios/seabios, a copy of another project: drivers, tables and tests of hardware.
-- In SeaBIOS, what hardware and other threads answer is an argument, and so are the addresses that the
-- linker chooses; alignments are powers of two, and a mask of low bits is written as a remainder.
pub mod Atomic
pub mod Boot
pub mod Chain
pub mod Checksum
pub mod Clock
pub mod Common
pub mod Disk
pub mod Drives
pub mod Intr
pub mod Kbd
pub mod Lifecycle
pub mod LockQueue
pub mod Malloc
pub mod MemMap
pub mod Memory
pub mod MsQueue
pub mod Pause
pub mod Pmm
pub mod Printf
pub mod Queue
pub mod Sched
pub mod SpinLock
pub mod System
pub mod Tools
pub mod Types
pub mod Utils
