-- ===== src/Lib.antt =====
-- The kernel of Pintos: threads, their scheduling, and what they synchronise with.
--
-- KernelList models src/lib/kernel/list.c, its ordered insertion and its merge sort. The scheduler
-- keeps the ready threads, the sleepers and the donors of a lock's holder in such lists.
-- Kernel holds the state that the parts share: the threads, semaphores, locks and condition
-- variables under their addresses, and the static variables of src/threads/thread.c and
-- src/devices/timer.c. A call returns the state after it, or `panic` for a failed ASSERT, or
-- `undefined` for a read through a pointer to no structure.
-- Scheduler models the run queue and the switch of threads in src/threads/thread.c (`schedule`,
-- `thread_block`, `thread_unblock`, `thread_yield`, `thread_test_yield`, `thread_exit`,
-- `thread_tick`, `thread_create`). Interrupts are off in each of these functions, so each is one
-- step. A call that switches threads ends with the other thread as the current one.
-- Donation models priority donation in src/threads/thread.c (the list of the donors is in the
-- order of words that the model does not have, see `misread_compare` in Synch), and Mlfqs the numbers of the
-- multi-level feedback queue scheduler, on FixedPoint, src/threads/arithmetic.h, whose numbers are
-- 32-bit words that wrap around.
-- Synch models src/threads/synch.c. A function that may lose the processor, or that turns
-- interrupts on, is modelled up to there, and what is left for later is a frame of its thread,
-- which `resume` of Machine carries out.
-- Timer models `timer_sleep` and `timer_interrupt` of src/devices/timer.c, and `intr_handler` of
-- src/threads/interrupt.c for an external interrupt.
--
-- Bitmap models src/lib/kernel/bitmap.c on words of 32 bits, Vaddr the page arithmetic of
-- src/threads/vaddr.h and `memset`, Palloc the page allocator src/threads/palloc.c, which keeps the
-- used pages of its pools in bitmaps, and Swap src/vm/swap.c, which keeps its slots in one and
-- writes pages through src/devices/block.c. A driver of a device is a parameter there: a record of
-- operations, with the law that a sector keeps what was written to it.
--
-- Hash models src/lib/kernel/hash.c for the callbacks of a caller, as buckets that are lists.
-- Pagedir models the user entries of src/userprog/pagedir.c as a map from page numbers to records.
-- Vm holds the state of virtual memory: the entries of src/vm/spt.c for the pages of each process,
-- and the frames of src/vm/frame.c, which Vm.Frame models (`frame_allocate`, the clock, the
-- eviction of a page to swap or to its file, `frame_free`, pinning). Vm.Load models the page faults
-- of src/userprog/exception.c (`page_fault`, `vm_load_page`, `grow_stack`). Loading and eviction
-- use Swap, Pagedir and Palloc. Vm.Frame.Pages says what a page holds, wherever it is.
-- Vm.Spt models the table of these entries, src/vm/spt.c, on Hash.
-- Inode models src/filesys/inode.c, reading and writing the bytes of a file over its sectors,
-- and Files models src/filesys/file.c, the opening counts of inodes, and src/filesys/free-map.c.
-- Intq models the circular buffer of src/devices/intq.c, up to where a caller has to sleep.
--
-- Syscall models src/userprog/syscall.c on the state of the running process: a call returns, exits
-- with a status or waits. Syscall.Memory is the check and the copying of user memory
-- (`check_user_buffer`, `copy_in`), Syscall.Descriptors the file descriptors, Syscall.Calls
-- `sys_read`, `sys_write` and the pinning of their buffer, Syscall.Mmap the mapping of files. They
-- use Vm and Files. How many blocks `malloc` still finds is a number of the state.
-- Process models src/userprog/process.c: Process.Args is the part of `setup_stack` that passes the
-- arguments, on Text, which models src/lib/string.c, Process.Load the loading of an executable
-- (`load_segment`, `validate_segment`, `setup_stack`), and Process.Children the status that parent
-- and child share, as events of a family of threads.
--
-- Queues states that the run queue, the lists of the semaphores and the sleep list agree with the
-- states of the threads, and its children show which functions keep that. Examples holds concrete
-- kernels.
--
-- The merge sort runs on fuel: a pass over a list takes at least one entry a round, and leaves at
-- most half as many sorted runs, rounded up, so that the length of the list, and one more pass, are
-- enough; the theorem on `list_sort` rests on it. The number of buckets of a hash table is fuel
-- enough for rounding it to a power of 2, as each round makes it less. A round of `inode_read_at` or
-- `inode_write_at` moves a byte or more, so that the size is enough. The loop of a donation ends
-- after 8 holders, as it does in the source. `load_segment` takes a round for each page, and
-- reports it as undefined if bytes were left after them; `sys_read` and `sys_write` move a byte or
-- more in a round.
--
-- Not modelled are the stacks and the assembly of a switch, the drivers, the directories of the
-- file system with the system calls that name a file, and the dispatch of the calls. What is read from
-- a page's file and what a write leaves is a parameter of Vm, and so is whether `malloc` finds memory.
-- The locks of the page allocator, of the swap table, of the frame table, of the pages and of the
-- file system are left out: each call is one step, and a page that another thread loads or evicts
-- makes the call end in a wait. The events of a family run as if no other thread used a child's
-- status meanwhile, and Process.Children.Race shows what may happen else. Addresses are numbers, and
-- no two structures overlap. Numbers of ticks, thread identifiers, file descriptors and mappings do
-- not wrap around.
pub mod Prelude
pub mod KernelList
pub mod Kernel
pub mod Scheduler
pub mod Donation
pub mod Synch
pub mod FixedPoint
pub mod Mlfqs
pub mod Timer
pub mod Priorities
pub mod Queues
pub mod Bitmap
pub mod Vaddr
pub mod Swap
pub mod Palloc
pub mod Machine
pub mod Hash
pub mod Pagedir
pub mod Vm
pub mod Inode
pub mod Files
pub mod Intq
pub mod Syscall
pub mod Text
pub mod Process
pub mod Examples
