-- ===== src/Lib.antt =====
-- A small kernel for the PC: its processes and their scheduler, the intrusive priority queues under
-- them, the semaphores and message queues above them, and the parts that set up and use the machine: the
-- console, the clock, the page tables, the descriptor tables, the heap, a hash table, a 64-bit division,
-- the serial line, the keyboard, the debugger and the boot that puts them together.
--
-- The parts, and the files that model them:
--
-- * Base and its modules: shared names, Boolean tests, lists, integers and runs that may fail.
-- * Queue (shared/queue.h): a memory of links by address, and one function for each macro:
--   `queue_add` is the assertion, the loop `scan` and the writes `splice`; `queue_del`,
--   `queue_out`, `queue_top`, `queue_bottom`, `queue_empty`, and the loops `queue_for_each` and
--   `queue_for_each_prev` (`walk`). Queue/Segs says when a list head stands for a list of
--   addresses (`Ring`), Queue/Insert, Queue/Remove and Queue/Walk relate the macros to lists,
--   Queue/Order is about the order of priorities, Queue/Fresh about new lists. The offsets of
--   `queue_entry` are left out: an element is named by the address of its link.
-- * Process (kernel/process.c, kernel/process.h): State has the structures and the globals, with the
--   three lists as lists of addresses and the operations on them as Queue relates them to lists.
--   Schedule is `ordonnance` and what calls it from below the system calls; Calls has the system
--   calls that start and end processes, Others those about another one, Display `display_list`. Places counts where a process
--   is; Reap, Switch, Outcome, Taken and Choice are about `ordonnance`; Fair and Turns are about processes of one
--   priority; Keeps says what a call leaves as it is; Ending is about `exit` and `kill`, Blocking about blocking; Stack,
--   Register, Numbers and Starting about `start`; Relink, Priority and Chprio about `chprio`; Boot
--   about `init_process_stack`. Event lists the calls, Steps is about each of them, Reach and
--   Histories about histories of calls, Waiting about `exit` and then `waitpid`.
-- * Sem (kernel/sem.c, kernel/sem.h): State has the list of semaphores and the functions on it,
--   Calls the calls, which use `ordonnance`, `bloque_sur_semaphore` and `passe_activable` of
--   Process. Free and Reach are about histories of calls, Counting about the counter, Store about
--   reading what was written, Numbers and Deleted about the numbers of semaphores.
-- * Console (shared/console.c): the screen as words by address, and the cursor. Cells is about
--   writing cells, Scroll about `defilement`, Bounds about the cursor, Print about printable
--   characters, Bytes about `console_putbytes`. The branches of `traite_car` are `controle` and
--   `imprime`.
-- * Clock (shared/time.c): `count_tick` and `split_time` are the parts of `tic_PIT`, which uses
--   `ordonnance` of Process and `ecrit_car` of Console. Count is about the time and the corner of
--   the screen, Gate about `init_traitant_IT`, Mask about `masque_IRQ`.
-- * Paging (kernel/boot/early_mm.c): memory is words by address, the linker's symbols are a record.
--   Directory, Range and Layout are about the page directory, one region and several; Check about
--   `early_mm_check`, Boot about `early_mm_map_kernel`.
-- * Segments (kernel/boot/processor_structs.c, shared/segment.h, and `tss_sel_2_tss` of
--   kernel/debugger.c): descriptors and gates as 64-bit numbers. Fields is about their fields, Tasks
--   about the way from a gate to its task segment, Loaded about what the registers then stand for.
-- * HashTable (kernel/hash.c, kernel/hash.h): the table is a list of slots; `probe` is the loop of
--   `hash_lookup`. Period and Route are about the slots that a search visits, Probe and Search about
--   where it ends. Reference reads a table slot by slot, Valid says what holds between two calls, Lookup
--   compares the two ways to read. Write, Copy, Update and Updated are about a write of one slot, `hash_copy` and
--   `hash_update`; Contents, Roundtrip and Reach about the calls, one or many; Full about a table
--   without memory to grow, Strings about strings as keys.
-- * Message (kernel/message_queue.c, kernel/message_queue.h): State has the structures and blocks by
--   address, Calls and Transfers the calls, over `unblock`, `block_send` and `block_recv` of Process. Dormant is about
--   histories from the start of the program, in which no queue ever comes to be.
-- * Div64 (shared/div64.c, shared/div64.h): `do_div64`, its assembly macros written out. Shift is about
--   the shifts, Estimate about the quotient of the highest bits, Quotient about the loop, Divides and
--   Reference about the whole.
-- * GdbSupport (kernel/gdb_serial_support.c): memory is bytes by physical address. Lookup is about
--   `phys_addr_lookup`, Bytes and Copy about the loop that `gdb_copyin` and `gdb_copyout` share,
--   Identity about the page tables of Paging.
-- * Start (kernel/start.c, kernel/boot/boot.c, kernel/boot/multiboot.c): the machine is the states of the
--   other components; `boot` and `kernel_start` call them in their order. The table of interrupts is
--   part of the memory, at IDT_ADDR, where the linker puts `idt`. First is about the first two
--   processes, Boot about the whole.
-- * Serial (kernel/serial.c): the device is the statuses and the bytes that it gives; Transfer is about
--   what goes through it.
-- * Keyboard (kernel/keyboard-glue.c): the driver, which may call back into the glue and change its state, and what a
--   kernel does with what is typed, are parameters; Feed is about what reaches the driver.
-- * SystemHeap (kernel/mem.c, kernel/lib/sbrk.c, user/lib/sbrk.c): `sbrk`.
-- * Debugger (kernel/debugger.c): the registers that a debugger exchanges, and the numbers of the
--   dump on the screen (Registers, Hex). Dump is the whole screen and `trap_handler`: the keyboard is
--   the list of the bytes that it gives; Restore is about the screen when the handler returns.
--
-- How the state corresponds: a pointer is an address, 0 or `none` for NULL. `none` as the result of a
-- call is a failed assertion, a null dereference or a write out of bounds. A context switch ends
-- the run of the calling process: a call then answers `suspended`, and what it does later, when
-- the process has the processor again, is a function of its own (`start_resume`, `wait_end`).
-- Interrupts are masked during a call, so a call is one step. `mem_alloc` is not modelled: what it
-- answers is an argument of the calls (`Allocations`, or an option), but NULL for no bytes.
--
-- Bounds and fuel: the loops over a list take fuel, and more than the length of the list is
-- enough; `reap` takes one more than the length of `process_list`. Sizes of stacks and places in them wrap around at
-- 2^32 bytes, counters of semaphores have the range of `short`. The loop that maps a region has fuel for
-- 2^16 pages and the last test, all that the page tables hold; a region ends within them.
-- The loop of `do_div64` is given three tests, the copy of a debugger one round more than bytes.
-- `probe` takes fuel; 7 rounds more than the table has slots are enough, since the numbers that it goes
-- through then meet every slot. `console_putbytes` needs more fuel than bytes,
-- below 2^16 bytes. Cursor positions wrap around at 2^16, addresses of pages at 2^32. Pids and
-- priorities are written without a bound, since the code keeps them below 64 and 256.
--
-- Not modelled: `waitpid` with a negative pid, whose code does not fit the types of its data; the
-- assembly parts but for the registers that the tables are loaded into, and the functions of
-- kernel/keyboard-glue.c that are empty; `sprintf`, `printf`, `strcmp` and
-- `gdb_serial_converse`, which are parameters; and the components that are not named above, which are
-- copies of other projects' code: the keyboard driver, the debugger's stub, the allocator and the C
-- library, where `memcpy` is written out for places that do not overlap.
mod Base
pub mod Queue
pub mod Process
pub mod Sem
pub mod Console
pub mod Clock
pub mod Paging
pub mod Segments
pub mod SystemHeap
pub mod Debugger
pub mod HashTable
pub mod Message
pub mod Div64
pub mod GdbSupport
pub mod Start
pub mod Serial
pub mod Keyboard
