-- ===== src/Scheduler/Tests.antt =====
-- The scheduler at a small state: a process at address 8 with three threads, at 16, 32 and 48.
use speedy_os.Common.{
  update, ℕ, ◌+◌, ◌-◌, ◌≤◌, ◌<◌, ◌≡◌, ◌≢◌, refl, ◌⊎◌, true, false, [], ◌∷◌, ◌++◌, none, some, ◌==◌,
  ok, arith, Bool-cases, inl, inr,
}
use mathlib.Core.List.{Perm}
use speedy_os.Scheduler.State.{
  Registers, normal, busy, Thread, ThreadEventListener, ThreadEvent, Process, kernel_directory,
  Scheduler, Machine,
}
use speedy_os.Scheduler.Events.{emit_event}
use speedy_os.Scheduler.Events.Emit.{
  ListIsValid, listens, remaining, deliveries, emit_event-deliveries,
}
use speedy_os.Scheduler.Switch.{
  Action, scheduler_execute, scheduler_sleep, enter_event, deliver, consider, execute, select_loop,
  dispatch_events, handle_context_switch,
}
use speedy_os.Scheduler.Switch.Select.{with_queue, Loaded, Blocked, Ready, All, select_loop-first}
use speedy_os.Scheduler.Switch.Dispatch.{InEvent, Same, dispatch_events-total}
use speedy_os.Scheduler.Switch.Turns.{events_of, events_left, after_events}
use speedy_os.Scheduler.Switch.Frame.{deliver-write_frame}
use speedy_os.Scheduler.Switch.Total.{scheduled, WellFormed, handle_context_switch-total}
use speedy_os.Scheduler.Syscalls.{halt, suspend_thread, end_event}
use speedy_os.Scheduler.Syscalls.Threads.{suspend_thread-consider, end_event-enter_event}

abbrev registers : Registers
registers = record {
  eax = 1;
  ecx = 2;
  edx = 3;
  ebx = 4;
  esp = 0x0640_3000;
  ebp = 0;
  esi = 0;
  edi = 0;
  eip = 0x0800_0000;
  eflags = 2;
  fpu_state = 0;
}

-- A parked thread, one that runs and one that is busy.
abbrev parked_thread : Thread
parked_thread = record {
  id = 1;
  registers = registers;
  virtual_registers = 0x0640_1004;
  backup_registers = registers;
  execution_policy = normal;
  suspended = false;
  parked = true;
  processing_event = false;
  process = 8;
  resume_time = 0;
  virtual_stack = 0x0640_2000;
  physical_stack = 0x0130_0000;
  kernel_block = 0;
}

abbrev plain_thread : Thread
plain_thread = record parked_thread { id = 2; parked = false }

abbrev busy_thread : Thread
busy_thread = record plain_thread { id = 3; execution_policy = busy }

abbrev listener : ℕ → ThreadEventListener
listener id = record { thread_id = id; enabled_event_ids = 3; handler = 0x0800_4000 }

abbrev process : Process
process = record {
  id = 1;
  suspended = false;
  directories = 0x0121_0000;
  hooked_threads = listener 1 ∷ listener 3 ∷ listener 9 ∷ [];
  total_cpu_time = 0;
  name = [];
  threads = 16 ∷ 32 ∷ 48 ∷ [];
  kernel_thread_page = 0x0122_0000;
  kernel_blocks = true ∷ true ∷ true ∷ [];
  steady_sinks = [];
}

abbrev key_event : ℕ → ThreadEvent
key_event t = record { thread = t; event_id = 1; event_data = 97; handler = 0x0800_4000 }

abbrev start : Scheduler
start = record {
  elapsed_ms = 100;
  time_slice_ms = 5;
  scheduler_idle_time_ms = 0;
  scheduler_running_time_ms = 0;
  timer_preempt = true;
  current_thread = some 48;
  temporary_registers = some 48;
  virtual_temporary_registers = 0x0640_1004;
  temporary_eip = 0;
  directory = kernel_directory;
  thread_list = (1, 16) ∷ (2, 32) ∷ (3, 48) ∷ [];
  process_list = (1, 8) ∷ [];
  thread_event_queue = key_event 16 ∷ key_event 48 ∷ key_event 16 ∷ [];
  thread_execution_queue = 16 ∷ 32 ∷ [];
  threads =
      update (update (update (λ t. none) 16 (some parked_thread)) 32 (some plain_thread)) 48
        (some busy_thread);
  processes = update (λ p. none) 8 (some process);
  memory = λ a. 0;
  data_meta = [];
  reserved_blocks = 0;
  next_thread_id = 4;
  next_process_id = 2;
  process_name_list = [];
  scheduler_event_process = none;
  active_sinks = [];
  fpu_boot_state = 0;
}

abbrev machine : Machine
machine = record { remaining_countdown = 2; add_float = ◌+◌ }

loaded_16 : Loaded start 16
loaded_16 = record {
  thread = parked_thread;
  process = process;
  thread_there = refl;
  process_there = refl;
}

loaded_32 : Loaded start 32
loaded_32 = record {
  thread = plain_thread;
  process = process;
  thread_there = refl;
  process_there = refl;
}

loaded_48 : Loaded start 48
loaded_48 = record {
  thread = busy_thread;
  process = process;
  thread_there = refl;
  process_there = refl;
}

start-WellFormed : WellFormed start
start-WellFormed = record {
  current = (loaded_48, tt);
  queue = (loaded_16, (loaded_32, tt));
  events = (loaded_16, (loaded_48, (loaded_16, tt)));
}

handle_context_switch-total_example :
    (action : Action) × (s' : Scheduler) × (handle_context_switch machine start ≡ ok (action, s'))
    × Perm (scheduled s') (48 ∷ 16 ∷ 32 ∷ [])
    × (((action ≡ scheduler_execute) × ((t : ℕ) × (s'.current_thread ≡ some t)))
        ⊎ ((action ≡ scheduler_sleep) × (s'.current_thread ≡ none)))
handle_context_switch-total_example = handle_context_switch-total machine start start-WellFormed

dispatch_events-total_example :
    (s' : Scheduler) × (dispatch_events start ≡ ok s')
    × Same start s'
    × All (λ (e : ThreadEvent). InEvent s' e.thread) s'.thread_event_queue
    × ((t : ℕ) (thread : Thread)
        → start.threads t ≡ some thread
        → (events_of t s'.thread_event_queue
            ≡ events_left thread (events_of t start.thread_event_queue))
          × (s'.threads t ≡ some (after_events thread (events_of t start.thread_event_queue))))
dispatch_events-total_example = dispatch_events-total start start-WellFormed.events

ready_32 : Ready start 32
unfolding consider loaded_32
ready_32 = record { loaded = loaded_32; resumed = plain_thread; accepted = refl }

Blocked-16 : Blocked start 16
unfolding consider loaded_16
Blocked-16 = record { loaded = loaded_16; refused = refl }

select_loop-first_example :
    (left : Scheduler) × (select_loop 3 0 start
      ≡ ok (some (execute (with_queue start (16 ∷ [])) 32 plain_thread process), left))
unfolding ready_32 loaded_32
select_loop-first_example = select_loop-first start (16 ∷ []) [] 32 refl (Blocked-16, tt) ready_32

parked_alone : Blocked (with_queue start (16 ∷ [])) 16
unfolding consider
parked_alone = record {
  loaded = record {
    thread = parked_thread;
    process = process;
    thread_there = refl;
    process_there = refl;
  };
  refused = refl;
}

-- Of the three events, one is delivered, one is dropped and one stays.
events_left_test :
    (events_left parked_thread (events_of 16 start.thread_event_queue) ≡ key_event 16 ∷ [])
    × (events_left busy_thread (events_of 48 start.thread_event_queue) ≡ [])
events_left_test = (refl, refl)

deliver-write_frame_example :
    ((entered : Thread) × ((deliver start (key_event 16) parked_thread).threads 16 ≡ some entered)
      × (entered.registers.eip ≡ 0x0800_4000)
      × (entered.registers.esp ≡ 0x0640_3000 - 12)
      × (entered.backup_registers ≡ registers)
      × (entered.processing_event ≡ true)
      × (entered.parked ≡ false))
    × (0x0130_0ff4 + 12 ≤ 0x0130_0000 + 8192)
    × ((deliver start (key_event 16) parked_thread).memory 0x0130_0ff4 ≡ 0xd3ad_b33f)
    × ((deliver start (key_event 16) parked_thread).memory 0x0130_0ff8 ≡ 1)
    × ((deliver start (key_event 16) parked_thread).memory 0x0130_0ffc ≡ 97)
    × ((b : ℕ)
        → b ≢ 0x0130_0ff4
        → b ≢ 0x0130_0ff8
        → b ≢ 0x0130_0ffc
        → (deliver start (key_event 16) parked_thread).memory b ≡ 0)
deliver-write_frame_example =
    deliver-write_frame start (key_event 16) parked_thread (omega arith) (omega arith) (omega arith)
      (omega arith)

start-ListIsValid : ListIsValid start
start-ListIsValid id t h = elim (Bool-cases (1 == id)) [
  | inl a ↦ (parked_thread, ground arith)
  | inr a ↦ elim (Bool-cases (2 == id)) [
    | inl b ↦ (plain_thread, ground arith)
    | inr b ↦ (busy_thread, ground arith)
  ]
]

-- Only the listeners of threads that are gone are unhooked, and the busy thread hears nothing.
emit_event-deliveries_example :
    (s' : Scheduler) × (emit_event start 8 1 97 ≡ ok s')
    × (s'.thread_event_queue
        ≡ start.thread_event_queue ++ deliveries start 1 97 process.hooked_threads)
    × (s'.processes 8
        ≡ some (record process { hooked_threads = remaining start 1 process.hooked_threads }))
    × (s'.thread_execution_queue ≡ start.thread_execution_queue)
    × (s'.threads ≡ start.threads)
emit_event-deliveries_example = emit_event-deliveries start start-ListIsValid 1 97 8 process refl

deliveries_test :
    (deliveries start 1 97 process.hooked_threads ≡ key_event 16 ∷ [])
    × (remaining start 1 process.hooked_threads ≡ listener 1 ∷ listener 3 ∷ [])
unfolding deliveries remaining listens
deliveries_test = (refl, refl)

abbrev running : Scheduler
running = record start { current_thread = some 32; thread_execution_queue = 16 ∷ [] }

suspend_thread-consider_example :
    (s' : Scheduler) × (asleep : Thread) × (suspend_thread machine running 50 ≡ ok (halt, s'))
    × (s'.threads 32 ≡ some asleep)
    × (s'.thread_execution_queue ≡ 16 ∷ 32 ∷ [])
    × ((now : ℕ) (p : Process) → now < 150 → consider now p asleep ≡ none)
    × ((now : ℕ) (p : Process)
        → 150 ≤ now
        → p.suspended ≡ false
        → consider now p asleep ≡ some (record plain_thread { suspended = false; resume_time = 0 }))
suspend_thread-consider_example =
    suspend_thread-consider machine running 32 plain_thread process refl refl refl 50 (omega arith)
      (omega arith) refl refl

abbrev in_handler : Thread
in_handler = record parked_thread {
  parked = false;
  processing_event = true;
  registers = record registers { eax = 77; esp = 12 };
}

abbrev handling : Scheduler
handling = record start {
  current_thread = some 16;
  thread_execution_queue = 32 ∷ [];
  threads = update start.threads 16 (some in_handler);
}

end_event-enter_event_example :
    (s' : Scheduler) × (end_event machine handling ≡ ok (halt, s'))
    × (s'.threads 16
        ≡ some (record parked_thread {
          parked = false;
          processing_event = false;
          backup_registers = registers;
        }))
    × (s'.current_thread ≡ none)
    × (s'.thread_execution_queue ≡ 32 ∷ 16 ∷ [])
unfolding enter_event
end_event-enter_event_example =
    end_event-enter_event machine handling 16 in_handler process refl refl refl (key_event 16)
      parked_thread (record registers { eax = 77; esp = 12 }) refl
