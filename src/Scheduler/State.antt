-- ===== src/Scheduler/State.antt =====
-- The data of the scheduler: kernel/src/cpp/scheduling/structures and the globals of
-- scheduler.cpp.
--
-- Threads and processes live in stores that map an address to the object there, or to `none` where
-- there is none (any more). The linked arrays are lists, first element first, and the maps are
-- association lists from 32-bit keys.
use speedy_os.Common.{
  update, ℕ, Bool, List, [], ◌∷◌, Option, none, some, ◌==◌, if◌then◌else◌, Run, from_option,
}
use speedy_os.Physical.{Physical}

-- The x87 state of 108 bytes is only copied: any number stands for it.
pub record Registers : Type 0 where
  pub eax : ℕ
  pub ecx : ℕ
  pub edx : ℕ
  pub ebx : ℕ
  pub esp : ℕ
  pub ebp : ℕ
  pub esi : ℕ
  pub edi : ℕ
  pub eip : ℕ
  pub eflags : ℕ
  pub fpu_state : ℕ

pub data ThreadExecutionPolicy : Type 0 where
  normal event_only busy : ThreadExecutionPolicy

-- `registers` is what the pointer of that name leads to; `virtual_registers` is the address of
-- the same registers in the address space of the process; `kernel_block` is the index of the block
-- that holds them in the page which the process shares with the kernel.
pub record Thread : Type 0 where
  pub id : ℕ
  pub registers : Registers
  pub virtual_registers : ℕ
  pub backup_registers : Registers
  pub execution_policy : ThreadExecutionPolicy
  pub suspended : Bool
  pub parked : Bool
  pub processing_event : Bool
  pub process : ℕ
  pub resume_time : ℕ
  pub virtual_stack : ℕ
  pub physical_stack : ℕ
  pub kernel_block : ℕ

pub record ThreadEventListener : Type 0 where
  pub thread_id : ℕ
  pub enabled_event_ids : ℕ
  pub handler : ℕ

pub record ThreadEvent : Type 0 where
  pub thread : ℕ
  pub event_id : ℕ
  pub event_data : ℕ
  pub handler : ℕ

-- `total_cpu_time` is the bit pattern of a `float`. `kernel_blocks` are the marks of the blocks in
-- the page that the process shares with the kernel, true for an allocated one. Sinks are known by
-- their handles.
pub record Process : Type 0 where
  pub id : ℕ
  pub suspended : Bool
  pub directories : ℕ
  pub hooked_threads : List ThreadEventListener
  pub total_cpu_time : ℕ
  pub name : List ℕ
  pub threads : List ℕ
  pub kernel_thread_page : ℕ
  pub kernel_blocks : List Bool
  pub steady_sinks : List ℕ

-- Which page directory is loaded.
pub data Directory : Type 0 where
  kernel_directory : Directory
  process_directory : ℕ → Directory

-- `memory`, `data_meta` and `reserved_blocks` are those of the allocator of pages. The names of
-- processes are kept by their hash. `temporary_registers` is `none` when it points to `placeholder_registers`.
pub record Scheduler : Type 0 where
  pub elapsed_ms : ℕ
  pub time_slice_ms : ℕ
  pub scheduler_idle_time_ms : ℕ
  pub scheduler_running_time_ms : ℕ
  pub timer_preempt : Bool
  pub current_thread : Option ℕ
  pub temporary_registers : Option ℕ
  pub virtual_temporary_registers : ℕ
  pub temporary_eip : ℕ
  pub directory : Directory
  pub thread_list : List (ℕ × ℕ)
  pub process_list : List (ℕ × ℕ)
  pub thread_event_queue : List ThreadEvent
  pub thread_execution_queue : List ℕ
  pub threads : ℕ → Option Thread
  pub processes : ℕ → Option Process
  pub memory : ℕ → ℕ
  pub data_meta : List Bool
  pub reserved_blocks : ℕ
  pub next_thread_id : ℕ
  pub next_process_id : ℕ
  pub process_name_list : List (ℕ × ℕ)
  pub scheduler_event_process : Option ℕ
  pub active_sinks : List (ℕ × ℕ)
  pub fpu_boot_state : ℕ

-- What the machine answers: the time left of the slice, in whole milliseconds, and the sum of a
-- `float` and an integer.
pub record Machine : Type 0 where
  pub remaining_countdown : ℕ
  pub add_float : ℕ → ℕ → ℕ

-- Following a pointer to a thread or to a process.
abbrev pub load_thread : Scheduler → ℕ → Run Thread
load_thread s t = from_option (s.threads t)

abbrev pub load_process : Scheduler → ℕ → Run Process
load_process s p = from_option (s.processes p)

abbrev pub store_thread : Scheduler → ℕ → Thread → Scheduler
store_thread s t th = record s { threads = update s.threads t (some th) }

abbrev pub store_process : Scheduler → ℕ → Process → Scheduler
store_process s p pr = record s { processes = update s.processes p (some pr) }

-- `map::exists` and `map::fetch` in one.
abbrev pub lookup : ℕ → List (ℕ × ℕ) → Option ℕ
lookup k [] = none
lookup k ((j, v) ∷ m) = if j == k then some v else lookup k m

-- The memory of the machine, as the allocator of pages has it.
abbrev pub physical_of : Scheduler → Physical
physical_of s = record {
  data_meta = s.data_meta;
  memory = s.memory;
  reserved_blocks = s.reserved_blocks;
}

abbrev pub store_physical : Scheduler → Physical → Scheduler
store_physical s p = record s {
  data_meta = p.data_meta;
  memory = p.memory;
  reserved_blocks = p.reserved_blocks;
}
