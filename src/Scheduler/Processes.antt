-- ===== src/Scheduler/Processes.antt =====
-- The creation and the end of processes: `create_process` and `kill_process` of
-- kernel/src/cpp/scheduling/scheduler.cpp.
--
-- As for threads, the addresses that `new` answers, and what the memory there holds, are arguments.
pub mod Table
pub mod Tables
pub mod Identity
pub mod Kill
pub mod Create
mod Tests
use speedy_os.Common.{
  ℕ, zero, suc, ◌+◌, ◌*◌, ◌/◌, ◌%◌, Bool, true, false, ◌&&◌, ◌||◌, not, List, [], ◌∷◌, ◌++◌, Option,
  none, some, ◌==◌, if◌then◌else◌, update, set, replicate, add32, sub32, Run, ok, fault, ◌>>=◌,
  from_option,
}
use speedy_os.HashMap.{hash_string_fnv1a}
use speedy_os.Physical.{Physical, alloc_physical_page, free_physical_page}
use speedy_os.Paging.{
  address_to_pi, pi_to_address, fetch_page_index, find_free_virtual_pages, write_word,
}
use speedy_os.Paging.Fields.{
  present, kernel_flags, entry_address, set_present, clear_present, clear_global, set_read_write,
  set_user_supervisor, put_user_supervisor, set_address,
}
use speedy_os.Scheduler.State.{
  Thread, Process, Scheduler, load_thread, load_process, store_thread, store_process, physical_of,
  store_physical,
}
use speedy_os.Scheduler.Events.{emit_event}
use speedy_os.Scheduler.Lifecycle.{cleared, kill_thread, set_entry, stack_word}

pub record ProcessFlags : Type 0 where
  pub kernel_process : Bool
  pub iopl_0 : Bool
  pub virtual_process : Bool

-- The first loop: the entries of the directory, from `i` on.
pub init_directories : ℕ → (i : ℕ) → (directories : ℕ) → Physical → Physical
init_directories zero i directories p = p
init_directories (suc k) i directories p =
    let slot = add32 directories (4 * i) in
    init_directories k (i + 1) directories
      (write_word p slot (set_read_write (clear_present (set_user_supervisor (p.memory slot)))))

-- An entry that maps the page `pi` to itself. The table is not cleared: the other bits stay.
abbrev pub identity_word : (word pi : ℕ) → (kernel_process : Bool) → ℕ
identity_word word pi kernel_process =
    put_user_supervisor (clear_global (set_read_write (set_present (set_address word pi))))
      kernel_process

-- The loop over the entries of the table `i`, from the entry `j` on.
pub map_entries : ℕ → (j : ℕ) → (i tables : ℕ) → (kernel_process : Bool) → Physical → Physical
map_entries zero j i tables kernel_process p = p
map_entries (suc k) j i tables kernel_process p =
    let slot = add32 tables (4 * j) in
    map_entries k (j + 1) i tables kernel_process
      (write_word p slot (identity_word (p.memory slot) (i * 1024 + j) kernel_process))

-- The loop over the directories of the first 100 MB.
pub map_tables : ℕ → (i : ℕ) → (directories : ℕ) → (kernel_process : Bool) → Physical → Run Physical
map_tables zero i directories kernel_process p = ok p
map_tables (suc k) i directories kernel_process p = do
  (tables, p1) ← alloc_physical_page 1 false p
  let slot = add32 directories (4 * i)
  let p2 = write_word p1 slot (set_address (set_present (p1.memory slot)) (address_to_pi tables))
  map_tables k (i + 1) directories kernel_process (map_entries 1024 0 i tables kernel_process p2)

-- The entry of the page of the registers, at the second page behind the first 100 MB.
pub map_shared_page : (directories shared_page : ℕ) → Physical → Run Physical
map_shared_page directories shared_page p =
    fetch_page_index directories (address_to_pi (104857600 + 4096)) true p >>= λ (entry, p').
    elim entry [
      | none ↦ fault
      | some e ↦ ok (
          write_word p' e
            (set_read_write (set_address (set_present (p'.memory e)) (address_to_pi shared_page))))
    ]

-- The loop that maps the two pages of the main stack, from round `i` on.
pub map_main_stack : ℕ → (i : ℕ) → (directories page stack : ℕ) → Physical → Run Physical
map_main_stack zero i directories page stack p = ok p
map_main_stack (suc k) i directories page stack p =
    fetch_page_index directories (add32 page i) true p >>= λ (entry, p'). elim entry [
      | none ↦ fault
      | some e ↦
          map_main_stack k (i + 1) directories page stack
            (write_word p' e (stack_word (p'.memory e) (address_to_pi stack + i)))
    ]

-- The main thread of a process that is not virtual, at the address `t`.
pub create_main_thread :
    (fuel : ℕ)
    → Scheduler
    → (flags : ProcessFlags) → (schedule_immediately : Bool) → (entry p : ℕ) → Process
    → (t : ℕ) → Thread
    → Run Scheduler
create_main_thread fuel s flags schedule_immediately entry p process t raw = do
  (shared_page, m1) ← alloc_physical_page 1 true (physical_of s)
  (directories, m2) ← alloc_physical_page 1 true m1
  m3 ←
      map_tables (104857600 / 4096 / 1024) 0 directories flags.kernel_process
        (init_directories 1024 0 directories m2)
  m4 ← map_shared_page directories shared_page m3
  (stack, m5) ← alloc_physical_page 2 true m4
  (page, m6) ← find_free_virtual_pages fuel directories 2 m5
  m7 ← map_main_stack 2 0 directories page stack m6
  let thread : Thread = record raw {
    id = s.next_thread_id;
    process = p;
    kernel_block = 0;
    virtual_registers = 104857600 + 4096 + 4;
    physical_stack = stack;
    virtual_stack = pi_to_address page;
    registers = record cleared {
      eip = entry;
      fpu_state = s.fpu_boot_state;
      esp = sub32 (add32 (pi_to_address page) 8192) 4;
      eflags = if flags.iopl_0 then 0x200202 else 0x203202;
    };
  }
  list ← set_entry s.next_thread_id t s.thread_list
  let process' = record process {
    directories = directories;
    kernel_thread_page = shared_page;
    kernel_blocks = set (replicate 26 false) 0 true;
    threads = process.threads ++ (t ∷ []);
  }
  let s' = store_process (store_physical s m7) p process'
  ok (record (store_thread s' t thread) {
    next_thread_id = add32 s.next_thread_id 1;
    thread_list = list;
    thread_execution_queue =
        if schedule_immediately
        then s.thread_execution_queue ++ (t ∷ [])
        else s.thread_execution_queue;
  })

-- The event for those that listen to the scheduler, once there is a process for that.
pub announce : Scheduler → (id event_data : ℕ) → Run Scheduler
announce s id event_data = elim s.scheduler_event_process [
  | none ↦ ok s
  | some q ↦ emit_event s q id event_data
]

-- The start of `create_process`: the process is known under its identifier and its name.
pub register_process :
    Scheduler → (name : List ℕ) → (p : ℕ) → (raw : Process) → Run (Process × Scheduler)
register_process s name p raw = do
  let process : Process = record raw {
    id = s.next_process_id;
    name = name;
    threads = [];
    hooked_threads = [];
    steady_sinks = [];
  }
  list ← set_entry process.id p s.process_list
  names ← set_entry (hash_string_fnv1a name) p s.process_name_list
  ok (
    process,
    record (store_process s p process) {
      next_process_id = add32 s.next_process_id 1;
      process_list = list;
      process_name_list = names;
    },
  )

pub create_process :
    (fuel : ℕ)
    → Scheduler
    → (name : List ℕ) → (entry : ℕ) → (flags : ProcessFlags) → (schedule_immediately : Bool)
    → (p : ℕ) → (raw : Process) → (t : ℕ) → (raw_thread : Thread) → Run Scheduler
create_process fuel s name entry flags schedule_immediately p raw t raw_thread = do
  (process, s1) ← register_process s name p raw
  s2 ←
      (if flags.virtual_process
        then ok s1
        else create_main_thread fuel s1 flags schedule_immediately entry p process t raw_thread)
  announce s2 1 process.id

-- The map that `map::remove` leaves, without its buckets: a key that is not there is passed over.
-- The move of the buckets behind it is in HashMap.
pub remove_key : (key : ℕ) → List (ℕ × ℕ) → List (ℕ × ℕ)
remove_key key [] = []
remove_key key ((k, v) ∷ m) = if k == key then m else (k, v) ∷ remove_key key m

-- The loops over the threads and over the sinks of the process.
pub kill_threads : Scheduler → List ℕ → Run Scheduler
kill_threads s [] = ok s
kill_threads s (t ∷ threads) = kill_thread s t false >>= λ s'. kill_threads s' threads

pub remove_sinks : (sinks : List ℕ) → List (ℕ × ℕ) → List (ℕ × ℕ)
remove_sinks [] active = active
remove_sinks (handle ∷ sinks) active = remove_sinks sinks (remove_key handle active)

-- The page of the entry goes with the process: PROCESS_OWNED or RELEASE_PHYSICAL_ON_EXIT.
abbrev pub is_released : (word : ℕ) → Bool
is_released word = present word && (kernel_flags word % 2 == 1 || kernel_flags word / 4 % 2 == 1)

-- The loop over the entries of a table, with `k` left.
pub free_entries : ℕ → (j : ℕ) → (entries : ℕ) → Physical → Run Physical
free_entries zero j entries p = ok p
free_entries (suc k) j entries p =
    let word = p.memory (add32 entries (4 * j)) in
    (if is_released word
      then free_physical_page (pi_to_address (entry_address word)) p
      else ok (false, p))
    >>= λ (was_allocated, p'). free_entries k (j + 1) entries p'

-- The loop over the directories, with `k` left.
pub free_directories : ℕ → (i : ℕ) → (directories : ℕ) → Physical → Run Physical
free_directories zero i directories p = ok p
free_directories (suc k) i directories p =
    let word = p.memory (add32 directories (4 * i)) in
    let entries = pi_to_address (entry_address word) in
    (if present word
      then (free_entries 1024 0 entries p >>= λ p1.
          free_physical_page entries p1 >>= λ (was_allocated, p2). ok p2)
      else ok p)
    >>= λ p'. free_directories k (i + 1) directories p'

-- The pages that go with the process.
pub free_pages : Process → Physical → Run Physical
free_pages process p = do
  p1 ← free_directories 1024 0 process.directories p
  (root_allocated, p2) ← free_physical_page process.directories p1
  (area_allocated, p3) ← free_physical_page process.kernel_thread_page p2
  ok p3

-- A thread of the process that is killed is no longer the current one.
pub leave_current : Scheduler → (p : ℕ) → Run Scheduler
leave_current s p = elim s.current_thread [
  | none ↦ ok s
  | some t ↦ load_thread s t >>= λ thread. ok (
      if thread.process == p
      then record s { current_thread = none; temporary_registers = none }
      else s)
]

-- Without a process for events the code would follow a null pointer.
pub kill_process : Scheduler → (p : ℕ) → Run Scheduler
kill_process s p = do
  s1 ← leave_current s p
  process ← load_process s1 p
  s2 ←
      kill_threads
        (record s1 {
          process_list = remove_key process.id s1.process_list;
          process_name_list = remove_key (hash_string_fnv1a process.name) s1.process_name_list;
        })
        process.threads
  q ← from_option s2.scheduler_event_process
  s3 ←
      emit_event (record s2 { active_sinks = remove_sinks process.steady_sinks s2.active_sinks }) q
        2 process.id
  m ← free_pages process (physical_of s3)
  let s4 = store_physical s3 m
  ok (record s4 { processes = update s4.processes p none })
