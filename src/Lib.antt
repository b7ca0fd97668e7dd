-- ===== src/Lib.antt =====
-- LeafOS: a verification of parts of the kernel under src/kernel/src.
--
-- The kernel boots from UEFI, takes the memory map and hands out frames, maps a heap, and runs tasks
-- on one processor. Tasks talk through file descriptors; the keyboard interrupt feeds an input queue
-- that a descriptor reads. The parts modelled, each a module that bears its name:
--
-- - Ring: the circular byte store that `InputBuffer` and `Pipe` both write out. Ring.Window gives its
--   contents as a list.
-- - Input, for src/kernel/src/drivers/input.rs: `InputBuffer` with `push` and `read`. The lock makes
--   the calls one sequence, so `enqueue` and `read_available` are the two kinds of a call of `run`.
-- - Pipe and Fd, for src/kernel/src/tasking/fd.rs. An `Arc<Mutex<T>>` is an index into a list of
--   `Store`, so clones share what they name. `clone`, `close` (which is `Drop`), `create_pipe`,
--   `create_file_write`, `create_file_read`, `read` and `write` take the store and give the store.
--   Calls of fs/ext2.rs and of `core::str::from_utf8` are the fields of `FileSystem`. An output slice
--   is its size, and what is stored in it is returned.
-- - Scheduler, for `Scheduler` in src/kernel/src/tasking/scheduler.rs. Task has the data, Ops the
--   methods that pick, stop, wake and end tasks, Lifecycle those that create, inspect and reap them.
--   A method gives its result and the scheduler left, also where it fails. `AddressSpace` is a
--   parameter, as is its `destroy` where a task is reaped. Switch has the functions of the module that
--   hold the lock and change tasks (`yield_now`, `preempt_from_timer`, `block_now`, `sleep_ticks`,
--   `exit_current_with_status_and_group`, `idle_task_entry`, `run_tasks`): each gives the scheduler left
--   and the two contexts between which the hardware switches.
-- - Kernel, for the functions of tasking/scheduler.rs that reach descriptors: the global scheduler with
--   the store of Fd. Table has the descriptor tables and what `create_user_task` makes of a child's,
--   Calls the calls on the current task's descriptors and `reap_terminated` with the drop of the table,
--   Spawn `spawn_user_with_arguments_and_fds`, Wait `wait_for_child`, History sequences of them all.
--   `UserContext::for_address_space_with_arguments` and `AddressSpace::destroy` are parameters there.
-- - Keyboard, for src/kernel/src/drivers/keyboard.rs. Tables lists the arms of the matches on
--   scancodes and characters, Decode has `to_ascii` and `process_scancode`. A `char` is its code point.
-- - Memory, for src/kernel/src/memory/mod.rs. Map has the check of the UEFI memory map, read from its
--   bytes, and the page ranges; Boot has `reserved_ranges` and `BootInfoFrameAllocator::new`; Frames has
--   the allocator (`next_usable_frame`, `reclaim_frame`, `is_allocatable_frame`, `deallocate_frame`). The
--   loop of `next_usable_frame` is two recursions, over regions and over the pages of one. A frame is
--   its start address. Space has the address range checks of `AddressSpace`, and those of `UserContext`
--   in src/kernel/src/arch/user.rs; its loop over pages has one round for each page of the range.
-- - Heap, for src/kernel/src/memory/heap.rs: how much the heap grows and where; Heap/Growth has `grow`
--   with its rollback, `initialize` and `alloc`. The memory manager, the crate linked_list_allocator
--   and `VirtAddr::try_new` of x86_64 are parameters: the fields of `Platform`. Of `try_new` theorems on
--   places assume that it accepts the lower half, and of the manager the theorem on growth assumes what
--   mapping and unmapping do to the set of mapped pages.
-- - Program, for src/kernel/src/user_program.rs: `parse_app_image`, and `load_app_image` and
--   `load_raw_image` up to the segments that they hand to `load_segments`; Program/Arguments has
--   `build_argument_vector`, with the success of `try_reserve_exact` as a parameter. A `&str` is the
--   list of its bytes.
-- - Archive, for src/kernel/src/fs/mod.rs: `entry_at`, which reads an entry of the USTAR archive, with
--   `octal`, `field` and `safe_path`, and `read_file`, whose loop runs on fuel.
-- - Timer, for `split_uptime` in src/kernel/src/time/timer.rs.
-- - Base holds what all share: native numbers with Boolean tests, lists, tables of slots, checked
--   arithmetic on 64-bit words, and results.
--
-- Machine words are 64 bits; an addition that the source checks is checked here, and one that it lets
-- wrap is taken modulo 2^64. The loop of `alloc` runs on fuel, one round more than
-- a slot has pages, and that of `read_file` with one round more than the archive has bytes; every other
-- loop runs over a list or a fixed number of slots or pages.
--
-- Not modelled: assembly and privileged instructions, the console and the framebuffer, the disk
-- driver and ext2, the shell, system call dispatch and the bootloader; of user_program.rs
-- `load_segments`, which maps and fills pages, and the calls that read files; of fs/mod.rs `validate`,
-- `directory_exists` and the calls that visit entries; of memory/mod.rs the page
-- tables, with the mapping and the destruction of an `AddressSpace`; and of tasking/scheduler.rs the
-- context switch, the trampoline and the activation of address spaces. These rest on hardware, or are
-- not done yet.
pub mod Base
pub mod Ring
pub mod Input
pub mod Keyboard
pub mod Memory
pub mod Kernel
pub mod Program
pub mod Archive
pub mod Pipe
pub mod Fd
pub mod Scheduler
pub mod Heap
pub mod Timer
