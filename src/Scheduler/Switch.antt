-- ===== src/Scheduler/Switch.antt =====
-- The switch between threads: `handle_context_switch`, `handle_timer_tick` and
-- `manual_context_switch_return` of kernel/src/cpp/scheduling/scheduler.cpp.
pub mod Select
pub mod Turns
pub mod Frame
pub mod Dispatch
pub mod Total
use speedy_os.Common.{
  update, ℕ, zero, suc, ◌+◌, Bool, true, false, ◌&&◌, not, List, [], ◌∷◌, ◌++◌, Option, none, some,
  ltb, leb, ◌==◌, if◌then◌else◌, length, add32, sub32, Run, ok, panic, fault, out_of_fuel, ◌>>=◌,
}
use speedy_os.Scheduler.State.{
  ThreadExecutionPolicy, event_only, Thread, ThreadEvent, Process, kernel_directory,
  process_directory, Scheduler, Machine, load_thread, load_process, store_thread, store_process,
}
use speedy_os.Scheduler.Events.{is_busy}

-- The assembly routine with which a switch ends.
pub data Action : Type 0 where
  scheduler_execute scheduler_sleep : Action

-- The words that the handler of an event finds on its stack.
abbrev pub write_frame : (ℕ → ℕ) → ℕ → ThreadEvent → ℕ → ℕ
write_frame mem stack event =
    update (update (update mem stack 0xd3ad_b33f) (add32 stack 4) event.event_id) (add32 stack 8)
      event.event_data

-- The physical address of the stack pointer, as the event loop computes it.
pub physical_esp : Thread → ℕ → ℕ
physical_esp thread esp =
    sub32 (add32 thread.physical_stack 8191) (sub32 (add32 thread.virtual_stack 8191) esp)

-- A thread that has been made to run the handler of an event.
unfoldable pub enter_event : ThreadEvent → Thread → Thread
enter_event event thread = record thread {
  parked = false;
  backup_registers = thread.registers;
  processing_event = true;
  registers = record (thread.registers) {
    eip = event.handler;
    esp = sub32 thread.registers.esp 12;
  };
}

pub deliver : Scheduler → ThreadEvent → Thread → Scheduler
deliver s event thread =
    let thread' = enter_event event thread in
    let stack = physical_esp thread thread'.registers.esp in
    record (store_thread s event.thread thread') { memory = write_frame s.memory stack event }

-- One round of the event loop, and whether the event stays in the queue: it does while its thread
-- runs the handler of another event. A busy thread loses it.
pub dispatch_one : Scheduler → ThreadEvent → Thread → Scheduler × Bool
dispatch_one s event thread =
    if thread.processing_event
    then (s, true)
    else if is_busy thread.execution_policy
    then (s, false)
    else (deliver s event thread, false)

-- The loop over the events that are left, with those that stay. An event for a thread that is gone
-- fails an assertion.
pub dispatch_loop : Scheduler → List ThreadEvent → Run (Scheduler × List ThreadEvent)
dispatch_loop s [] = ok (s, [])
dispatch_loop s (event ∷ rest) = elim (s.threads event.thread) [
  | none ↦ panic
  | some thread ↦
      let (s', stays) = dispatch_one s event thread in
      dispatch_loop s' rest >>= λ (s'', kept). ok (s'', if stays then event ∷ kept else kept)
]

pub dispatch_events : Scheduler → Run Scheduler
dispatch_events s = do
  (s', kept) ← dispatch_loop s s.thread_event_queue
  ok (record s' { thread_event_queue = kept })

abbrev pub is_event_only : ThreadExecutionPolicy → Bool
is_event_only event_only = true
is_event_only _ = false

-- The tests that a thread of the execution queue has to pass. `none` puts it back; otherwise the
-- thread runs, its suspension lifted if the time for that has come.
unfoldable pub consider : (elapsed_ms : ℕ) → Process → Thread → Option Thread
consider elapsed_ms process thread =
    if is_event_only thread.execution_policy && not thread.processing_event
    then none
    else if process.suspended
    then none
    else if thread.parked
    then none
    else if thread.suspended
    then (if not (thread.resume_time == 0)
        then (if leb thread.resume_time elapsed_ms
            then some (record thread { suspended = false; resume_time = 0 })
            else none)
        else none)
    else some thread

-- `thread` becomes the current thread.
pub execute : Scheduler → ℕ → Thread → Process → Scheduler
execute s t thread process = record (store_thread s t thread) {
  current_thread = some t;
  virtual_temporary_registers = thread.virtual_registers;
  temporary_registers = some t;
  temporary_eip = thread.registers.eip;
  directory = process_directory process.directories;
}

-- The loop over the execution queue at round `i`. No round changes the length of the queue, so
-- `length queue + 1` rounds are enough; `none` stands for its end without a thread.
pub select_loop : ℕ → ℕ → Scheduler → Run (Option Scheduler × Scheduler)
select_loop zero i s = out_of_fuel
select_loop (suc k) i s =
    if ltb i (length s.thread_execution_queue)
    then elim s.thread_execution_queue [
      | [] ↦ fault
      | t ∷ queue ↦ load_thread s t >>= λ thread. load_process s thread.process >>= λ process.
          elim (consider s.elapsed_ms process thread) [
            | none ↦ select_loop k (i + 1) (record s { thread_execution_queue = queue ++ (t ∷ []) })
            | some thread' ↦
                ok (
                  some (execute (record s { thread_execution_queue = queue }) t thread' process),
                  s,
                )
          ]
    ]
    else ok (none, s)

module _ (machine : Machine) where
  -- The part of the time slice that the thread has used.
  pub cpu_time_used : Scheduler → ℕ
  cpu_time_used s =
      if s.timer_preempt then s.time_slice_ms else sub32 s.time_slice_ms machine.remaining_countdown

  abbrev pub charge : Process → ℕ → Process
  charge process used = record process {
    total_cpu_time = machine.add_float process.total_cpu_time used;
  }

  -- The thread that was running goes to the end of the execution queue.
  pub reschedule : Scheduler → (t : ℕ) → Thread → Process → Scheduler
  reschedule s t thread process =
      record (store_process s thread.process (charge process (cpu_time_used s))) {
        directory = kernel_directory;
        scheduler_running_time_ms = add32 s.scheduler_running_time_ms (cpu_time_used s);
        thread_execution_queue = s.thread_execution_queue ++ (t ∷ []);
        current_thread = none;
        temporary_registers = none;
      }

  -- The first part of a switch.
  pub reschedule_current : Scheduler → Run Scheduler
  reschedule_current s = elim s.current_thread [
    | none ↦ ok s
    | some t ↦ load_thread s t >>= λ thread.
        load_process s thread.process >>= λ process. ok (reschedule s t thread process)
  ]

  -- The end of a switch: a thread is executed, or the processor sleeps.
  pub conclude : Option Scheduler → Scheduler → Action × Scheduler
  conclude (some selected) s = (scheduler_execute, selected)
  conclude none s = (
    scheduler_sleep,
    record s {
      scheduler_idle_time_ms = add32 s.scheduler_idle_time_ms machine.remaining_countdown;
    },
  )

  pub handle_context_switch : Scheduler → Run (Action × Scheduler)
  handle_context_switch s = do
    s1 ← reschedule_current s
    s2 ← dispatch_events s1
    (selected, s3) ← select_loop (length s2.thread_execution_queue + 1) 0 s2
    ok (conclude selected s3)

  pub handle_timer_tick : Scheduler → Run (Action × Scheduler)
  handle_timer_tick s =
      handle_context_switch
        (record s { timer_preempt = true; elapsed_ms = add32 s.elapsed_ms s.time_slice_ms })

-- A thread gives up the processor in a system call. Without a current thread the code would queue
-- a null pointer, which the next switch follows: that is the `fault`.
unfoldable pub manual_context_switch_return : Scheduler → Run Scheduler
manual_context_switch_return s = elim s.current_thread [
  | none ↦ fault
  | some t ↦ ok (record s {
    thread_execution_queue = s.thread_execution_queue ++ (t ∷ []);
    current_thread = none;
    temporary_registers = none;
  })
]
