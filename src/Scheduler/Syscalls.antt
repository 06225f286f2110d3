-- ===== src/Scheduler/Syscalls.antt =====
-- System calls of kernel/src/cpp/scheduling/syscalls.cpp that act on threads and events. The number
-- of a system call is in `ecx`, its arguments in `edx`, `eax` and `ebx` of the calling thread.
pub mod Callers
pub mod Threads
pub mod Pages
pub mod Lifecycle
mod Tests
use speedy_os.Common.{
  ℕ, ◌+◌, Bool, true, false, ◌&&◌, ◌||◌, not, List, [], ◌∷◌, ◌++◌, Option, none, some, ltb, ◌==◌,
  if◌then◌else◌, add32, sub32, Run, ok, fault, ◌>>=◌, from_option,
}
use speedy_os.Scheduler.State.{
  Registers, ThreadExecutionPolicy, normal, event_only, busy, Thread, ThreadEventListener, Process,
  Scheduler, Machine, load_thread, load_process, store_thread, store_process, lookup,
}
use speedy_os.Scheduler.Events.{emit_event}
use speedy_os.Scheduler.Switch.{is_event_only, charge, manual_context_switch_return}

-- What the assembly does after the call: it goes on with the program, or waits for the next
-- interrupt.
pub data Reply : Type 0 where
  resume halt : Reply

-- A system call comes from a current thread, with its process.
pub record Caller : Type 0 where
  pub address : ℕ
  pub thread : Thread
  pub process : Process

pub caller : Scheduler → Run Caller
caller s = do
  t ← from_option s.current_thread
  thread ← load_thread s t
  process ← load_process s thread.process
  ok (record { address = t; thread = thread; process = process })

-- `temporary_registers` points to the registers of the current thread.
abbrev pub set_eax : Scheduler → Caller → ℕ → Scheduler
set_eax s c v =
    store_thread s c.address
      (record (c.thread) { registers = record (c.thread.registers) { eax = v } })

module _ (machine : Machine) where
  -- The time that the thread has used of its slice is added up.
  pub add_cpu_time : Scheduler → Caller → Scheduler
  add_cpu_time s c =
      let used = sub32 s.time_slice_ms machine.remaining_countdown in
      record (store_process s c.thread.process (charge machine c.process used)) {
        scheduler_running_time_ms = add32 s.scheduler_running_time_ms used;
      }

  -- ID 3: suspend the thread for `span` milliseconds.
  pub suspend_thread : Scheduler → (span : ℕ) → Run (Reply × Scheduler)
  suspend_thread s span = do
    c ← caller s
    let s1 = add_cpu_time s c
    s2 ← manual_context_switch_return (
        store_thread s1 c.address (record (c.thread) {
          suspended = true;
          resume_time = if span == 0 then 1 else add32 s.elapsed_ms span;
        }))
    ok (halt, s2)

  -- ID 6: the handler of an event is done.
  pub end_event : Scheduler → Run (Reply × Scheduler)
  end_event s = do
    c ← caller s
    if not c.thread.processing_event then ok (resume, s) else do
      let s1 = add_cpu_time s c
      let thread = record (c.thread) {
        processing_event = false;
        registers = c.thread.backup_registers;
      }
      ok (
        halt,
        record (store_thread s1 c.address thread) {
          thread_execution_queue = s1.thread_execution_queue ++ (c.address ∷ []);
          current_thread = none;
          temporary_registers = none;
        },
      )

-- ID 7: listen to the events of a process.
pub register_event : Scheduler → (process_id event_ids handler : ℕ) → Run (Reply × Scheduler)
register_event s process_id event_ids handler = do
  c ← caller s
  elim (lookup process_id s.process_list) [
    | none ↦ ok (resume, set_eax s c 0)
    | some p ↦ load_process s p >>= λ emitter.
        let listener : ThreadEventListener = record {
          thread_id = c.thread.id;
          enabled_event_ids = event_ids;
          handler = handler;
        } in
        let emitter' = record emitter {
          hooked_threads = emitter.hooked_threads ++ (listener ∷ []);
        } in
        ok (resume, set_eax (store_process s p emitter') c 1)
  ]

-- ID 8: emit an event of the calling process.
pub emit : Scheduler → (id event_data : ℕ) → Run (Reply × Scheduler)
emit s id event_data = do
  c ← caller s
  s' ← emit_event s c.thread.process id event_data
  ok (resume, s')

pub policy_of : ℕ → Option ThreadExecutionPolicy
policy_of policy =
    if policy == 0
    then some normal
    else if policy == 1
    then some event_only
    else if policy == 2
    then some busy
    else none

-- ID 9: change the execution policy of a thread, or of the caller.
pub change_policy : Scheduler → (policy thread_id : ℕ) → Run (Reply × Scheduler)
change_policy s policy thread_id = do
  c ← caller s
  elim (policy_of policy) [
    | none ↦ ok (resume, s)
    | some p ↦
        if not (thread_id == 0) && not (c.thread.id == thread_id)
        then elim (lookup thread_id s.thread_list) [
          | none ↦ ok (resume, s)
          | some t ↦ load_thread s t >>= λ thread.
              ok (resume, store_thread s t (record thread { execution_policy = p }))
        ]
        else let s' = store_thread s c.address (record (c.thread) { execution_policy = p }) in
          if is_event_only p && not c.thread.processing_event
          then (manual_context_switch_return s' >>= λ s''. ok (halt, s''))
          else ok (resume, s')
  ]

-- The end of a successful call on another thread.
store_and_reply : Scheduler → ℕ → Thread → Run (Reply × Scheduler)
store_and_reply s t thread = do
  let s' = store_thread s t thread
  c ← caller s'
  ok (resume, set_eax s' c 1)

-- ID 17: park a thread, or the caller.
pub park_thread : Scheduler → (thread_id : ℕ) → Run (Reply × Scheduler)
unfolding store_and_reply
park_thread s thread_id = do
  c ← caller s
  let parked_caller = store_thread s c.address (record (c.thread) { parked = true })
  if thread_id == 0 || thread_id == c.thread.id
      then (manual_context_switch_return parked_caller >>= λ s'. ok (halt, s'))
      else elim (lookup thread_id s.thread_list) [
        | none ↦ ok (resume, set_eax s c 0)
        | some t ↦
            load_thread s t >>= λ thread. store_and_reply s t (record thread { parked = true })
      ]

-- ID 18: unpark a thread.
pub unpark_thread : Scheduler → (thread_id : ℕ) → Run (Reply × Scheduler)
unfolding store_and_reply
unpark_thread s thread_id = do
  c ← caller s
  elim (lookup thread_id s.thread_list) [
    | none ↦ ok (resume, set_eax s c 0)
    | some t ↦ load_thread s t >>= λ thread. store_and_reply s t (record thread { parked = false })
  ]

-- ID 20: give up the rest of the time slice.
pub preempt : Scheduler → Run (Reply × Scheduler)
preempt s = do s' ← manual_context_switch_return s; ok (halt, s')
