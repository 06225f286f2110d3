-- ===== src/Scheduler/Lifecycle.antt =====
-- The creation and the end of threads: `create_thread` and `kill_thread` of
-- kernel/src/cpp/scheduling/scheduler.cpp. Page tables are those of Paging, in the memory of the
-- scheduler's state.
--
-- `new` answers the address of memory that is not cleared: the address, and what a thread's memory
-- holds before its fields are written, are arguments.
pub mod Without
pub mod Kill
pub mod Create
pub mod Stack
mod Tests
use speedy_os.Common.{
  ℕ, zero, suc, ◌+◌, ◌-◌, ◌*◌, ◌/◌, ◌%◌, Bool, true, false, List, [], ◌∷◌, ◌++◌, Option, none, some,
  ◌==◌, if◌then◌else◌, update, set, length, add32, sub32, Run, ok, panic, fault, out_of_fuel, ◌>>=◌,
}
use speedy_os.Physical.{Physical, alloc_physical_page}
use speedy_os.Paging.{
  address_to_pi, pi_to_address, fetch_page_index, find_free_virtual_pages, reset_virtual_pages,
  write_word,
}
use speedy_os.Paging.Fields.{set_present, set_read_write, set_user_supervisor, set_address}
use speedy_os.Scheduler.State.{
  Registers, Thread, ThreadEvent, Process, Scheduler, load_thread, load_process, store_thread,
  store_process, lookup, physical_of, store_physical,
}

-- The loops that remove a thread from a list.
unfoldable pub without : (thread : ℕ) → List ℕ → List ℕ
without t [] = []
without t (u ∷ threads) = if u == t then without t threads else u ∷ without t threads

unfoldable pub without_events : (thread : ℕ) → List ThreadEvent → List ThreadEvent
without_events t [] = []
without_events t (e ∷ events) =
    if e.thread == t then without_events t events else e ∷ without_events t events

-- The list of threads of a process after the first loop of `kill_thread`.
abbrev pub leave_process : (thread : ℕ) → (remove_from_process : Bool) → Process → Process
leave_process t remove_from_process process = record process {
  threads = if remove_from_process then without t process.threads else process.threads;
}

-- The object of the thread goes, and its entry in `thread_list` stays.
unfoldable pub kill_thread : Scheduler → (thread : ℕ) → (remove_from_process : Bool) → Run Scheduler
kill_thread s t remove_from_process = do
  thread ← load_thread s t
  process ← load_process s thread.process
  let process' = leave_process t remove_from_process process
  p ←
      reset_virtual_pages 2 process.directories (address_to_pi thread.virtual_stack) true
        (physical_of s)
  let s' =
      store_process (store_physical s p) thread.process
        (record process' { kernel_blocks = set process.kernel_blocks thread.kernel_block false })
  ok (record s' {
    thread_event_queue = without_events t s.thread_event_queue;
    thread_execution_queue = without t s.thread_execution_queue;
    threads = update s.threads t none;
  })

-- The registers of a block that has been cleared.
abbrev pub cleared : Registers
cleared = record {
  eax = 0;
  ecx = 0;
  edx = 0;
  ebx = 0;
  esp = 0;
  ebp = 0;
  esi = 0;
  edi = 0;
  eip = 0;
  eflags = 0;
  fpu_state = 0;
}

-- The loop over the blocks at round `i`: it allocates every free one, and the last is the thread's.
pub take_blocks : List Bool → (i : ℕ) → (block : Option ℕ) → Option ℕ × List Bool
take_blocks [] i block = (block, [])
take_blocks (allocated ∷ blocks) i block =
    let (last, taken) = take_blocks blocks (i + 1) (if allocated then block else some i) in
    (last, true ∷ taken)

-- `sizeof(ThreadKernelArea)` and the place of the registers in it.
abbrev pub area_size : ℕ
area_size = 152

abbrev pub registers_offset : ℕ
registers_offset = 4

-- The address of a block's registers that is stored in the thread.
abbrev pub virtual_registers_of : (block : ℕ) → ℕ
virtual_registers_of block = 104857600 + 4096 + 4 + (block * area_size + registers_offset)

-- The entry of a page of a stack.
abbrev pub stack_word : (word pi : ℕ) → ℕ
stack_word word pi = set_user_supervisor (set_address (set_read_write (set_present word)) pi)

-- The loop that maps the two pages of the stack at round `i`: each round is at the same page.
pub map_stack : ℕ → (i : ℕ) → (directories page stack : ℕ) → Physical → Run Physical
map_stack zero i directories page stack p = ok p
map_stack (suc k) i directories page stack p =
    fetch_page_index directories page true p >>= λ (entry, p'). elim entry [
      | none ↦ fault
      | some e ↦
          map_stack k (i + 1) directories page stack
            (write_word p' e (stack_word (p'.memory e) (address_to_pi stack + i)))
    ]

-- The map that `map::set` leaves, without its buckets: it panics on a key that is there. Its growth,
-- and the panic where it may not grow, are in HashMap.
unfoldable pub set_entry : (id thread : ℕ) → List (ℕ × ℕ) → Run (List (ℕ × ℕ))
set_entry id t list = elim (lookup id list) [ none ↦ ok ((id, t) ∷ list) | some other ↦ panic ]

-- `create_thread` from the end of the loop over the blocks on.
pub start_thread :
    (fuel : ℕ)
    → Scheduler
    → (process_address entry capture : ℕ) → (t : ℕ) → (raw : Thread) → Process
    → (block : Option ℕ) → List Bool
    → Run (ℕ × Scheduler)
start_thread fuel s process_address entry capture t raw process none blocks = panic
start_thread fuel s process_address entry capture t raw process (some index) blocks = do
  (stack, p1) ← alloc_physical_page 2 true (physical_of s)
  (page, p2) ← find_free_virtual_pages fuel process.directories 2 p1
  p3 ← map_stack 2 0 process.directories page stack p2
  let thread : Thread = record raw {
    id = s.next_thread_id;
    process = process_address;
    kernel_block = index;
    virtual_registers = virtual_registers_of index;
    physical_stack = stack;
    virtual_stack = pi_to_address page;
    registers = record cleared {
      eip = entry;
      fpu_state = s.fpu_boot_state;
      esp = sub32 (sub32 (add32 (pi_to_address page) 8192) 4) 8;
      eflags = 0x3202;
    };
  }
  list ← set_entry s.next_thread_id t s.thread_list
  let process' = record process { kernel_blocks = blocks; threads = process.threads ++ (t ∷ []) }
  let s' =
      store_process (store_physical s (write_word p3 (add32 stack 8188) capture)) process_address
        process'
  ok (
    s.next_thread_id,
    record (store_thread s' t thread) {
      next_thread_id = add32 s.next_thread_id 1;
      thread_list = list;
      thread_execution_queue = s.thread_execution_queue ++ (t ∷ []);
    },
  )

-- `t` is the address of the new thread, `raw` what its memory holds. The result is its identifier.
pub create_thread :
    (fuel : ℕ)
    → Scheduler
    → (process_address entry capture : ℕ) → (t : ℕ) → (raw : Thread) → Run (ℕ × Scheduler)
create_thread fuel s process_address entry capture t raw = do
  process ← load_process s process_address
  let (block, blocks) = take_blocks process.kernel_blocks 0 none
  start_thread fuel s process_address entry capture t raw process block blocks
