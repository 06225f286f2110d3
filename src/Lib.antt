-- ===== src/Lib.antt =====
-- Speedy OS, a 32-bit kernel with preemptive threads: a model of its core, and what holds of it.
--
-- The kernel hands out physical memory in pages of 4096 bytes, runs the threads of processes in
-- turn, and delivers events to the threads that listen to a process; the drivers turn interrupts
-- into such events. Threads call the kernel by system calls, which change the same state. The
-- queues of the kernel are linked arrays; the scheduler's model has lists in their place, which is
-- what LinkedArray shows that they represent.
--
-- - Common: tests on native numbers, lists, 32-bit words, and `Run`, the outcome of kernel code:
--   `ok`, `panic` (a call of the kernel's panic), `fault` (an access outside the memory that the
--   code owns) or `out_of_fuel`.
-- - Physical (kernel/src/cpp/heap/physical.cpp): `init`, `alloc_physical_page` and
--   `free_physical_page` on the table of pages. The search for free pages runs on fuel, one round
--   for each entry of the table and one more; it is shown to suffice.
-- - KernelHeap (kernel/src/cpp/heap/kernelalloc.cpp): `kmalloc`, `kfree`, `kallocated`, `krealloc` on
--   the chain of blocks, over the pages of Physical. Its invariant is in KernelHeap/Inv.antt.
-- - LinkedArray (shared/linked_array.h): the entries as memory, their links as maps from addresses.
--   `Represents` in LinkedArray/Represents.antt is the list that an array stands for. Allocated
--   memory and the floating-point products of a capacity are parameters: the record `Allocation`,
--   with what is asked of it in `IsSound`: that new storage is clear, and that a product is larger
--   than the capacity and within 32 bits. That new storage is clear is an assumption: `resize` takes
--   it from `kmalloc` without a reset, which does not clear it.
-- - Scheduler/State (kernel/src/cpp/scheduling/structures and the globals of scheduler.cpp): threads
--   and processes live in stores from addresses; queues are lists. The maps
--   are association lists, with a key that is set twice as a `panic`: the abstract view of
--   shared/map.h, whose buckets, growth and overflow only HashMap models. Fields that no modelled operation reads or writes are left out.
-- - Scheduler/Events (kernel/src/cpp/scheduling/events.cpp): `emit_event`.
-- - Scheduler/Switch (kernel/src/cpp/scheduling/scheduler.cpp): `handle_context_switch`, split into
--   the parts of its body: `reschedule_current`, `dispatch_events`, `select_loop` and `conclude`;
--   `handle_timer_tick` and `manual_context_switch_return`. The search for a thread runs on fuel,
--   one round for each thread of the queue and one more. The timer's count and the addition of
--   `float` numbers are the record `Machine`.
-- - Scheduler/Lifecycle and Scheduler/Processes (kernel/src/cpp/scheduling/scheduler.cpp):
--   `create_thread` and `kill_thread`, `create_process` and `kill_process`, over the memory of
--   Physical and Paging. The addresses that `new` answers, and what the memory there holds, are
--   arguments; the blocks of the page that a process shares with the kernel are a list of marks
--   beside the thread that has one. `find_free_virtual_pages` has its fuel as an argument.
-- - Scheduler/Syscalls (kernel/src/cpp/scheduling/syscalls.cpp): the calls on threads and events; in
--   Scheduler/Syscalls/Pages.antt the allocation of pages, in Scheduler/Syscalls/Lifecycle.antt the
--   calls on threads, processes and data of the kernel. What the hardware answers and the
--   resolution of the screen are arguments.
-- - Locks (software/include/mutex.cpp): the lock of user programs, a step relation on the accesses
--   of its threads to what they share, and on the delivery of events to them, which unparks a
--   thread.
-- - Keyboard (kernel/src/cpp/drivers/keyboard/keyboard.cpp): the tables of scan codes and the
--   interrupt handler; the bytes read from the port are arguments.
-- - Mouse (kernel/src/cpp/drivers/mouse/mouse.cpp): the interrupt handler, whose loop reads as many
--   bytes as the ports give; the list of them is its fuel.
-- - FlexArray (shared/flex_array.h): the array with empty entries. What new memory holds and the
--   floating-point product by which it grows are the record `Allocation`; `defragment` and `shift`
--   have their fuel as an argument.
-- - Loader (kernel/src/cpp/loader/elf.cpp): the loader of program files. The fields of the headers are
--   arguments; the data of the segments is read from memory.
-- - HashMap (shared/map.h, shared/algorithm.cpp): the map with displaced entries. A loop over the buckets runs on the
--   capacity as fuel; a search that uses it up would not end. Rehashing calls `set` again, which is
--   a fuel of its own in `set_key`.
-- - Paging (kernel/src/cpp/paging): the entries as words of the memory of Physical; the lookup and
--   the reservation of pages, the page fault handler up to the call of `kill_process`, and, in
--   Paging/Memory.antt, the reads and writes of a process's memory. `find_free_virtual_pages` has
--   its fuel as an argument; a read or write has a round for each page.
-- - DataSink (kernel/src/cpp/scheduling/datasink.cpp, structures/datasink.h beside it, and
--   shared/id_generator.cpp): sinks of bytes between processes, and the identifiers of sinks.
-- - Conversions (shared/conversions.cpp): the texts of integers and back. The loops that write end
--   with the places of the buffer, those that read with the text.
--
-- Interrupts are off in the modelled code of the kernel, so each operation of it is one step. Not modelled are the
-- user heap, strings, the set-up of the scheduler and of the
-- drivers, the system calls on data sinks and on the screen, and what only drives hardware. The ACPI interpreter under
-- kernel/src/cpp/acpi/lai is another project's.
pub mod Common
pub mod Conversions
pub mod DataSink
pub mod FlexArray
pub mod HashMap
pub mod Keyboard
pub mod KernelHeap
pub mod LinkedArray
pub mod Loader
pub mod Locks
pub mod Mouse
pub mod Paging
pub mod Physical
pub mod Scheduler
