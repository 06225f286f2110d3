-- ===== src/Scheduler/Syscalls/Threads.antt =====
-- What the system calls that end an event and that suspend a thread achieve.
use speedy_os.Common.{
  update, ℕ, ◌+◌, ◌≤◌, ◌<◌, ◌≡◌, refl, ap, ◌∙◌, true, false, [], ◌∷◌, ◌++◌, Option, none, some,
  ◌==◌, u32_mod, add32, if◌then◌else◌, ok, arith,
}
use speedy_os.Scheduler.State.{
  Registers, Thread, ThreadEvent, Process, Scheduler, Machine, store_thread,
}
use speedy_os.Scheduler.Switch.{enter_event, consider, is_event_only, manual_context_switch_return}
use speedy_os.Scheduler.Syscalls.Callers.{caller_lem}
use speedy_os.Scheduler.Syscalls.{halt, Caller, add_cpu_time, suspend_thread, end_event}

update_self : (f : ℕ → Option Thread) (t : ℕ) (x : Thread) → update f t (some x) t ≡ some x
update_self f t x = ground arith

module _ (machine : Machine) (s : Scheduler) (t : ℕ) (thread : Thread) (process : Process)
    (current : s.current_thread ≡ some t) (there : s.threads t ≡ some thread)
    (owner : s.processes thread.process ≡ some process) where
  -- A suspended thread is refused by the scheduler until its time has come, and then goes on as it
  -- was, given that nothing else keeps it from running.
  pub suspend_thread-consider :
      (span : ℕ)
      → 0 < span
      → s.elapsed_ms + span < u32_mod
      → thread.parked ≡ false
      → is_event_only thread.execution_policy ≡ false
      → (s' : Scheduler) × (asleep : Thread) × (suspend_thread machine s span ≡ ok (halt, s'))
        × (s'.threads t ≡ some asleep)
        × (s'.thread_execution_queue ≡ s.thread_execution_queue ++ (t ∷ []))
        × ((now : ℕ) (p : Process) → now < s.elapsed_ms + span → consider now p asleep ≡ none)
        × ((now : ℕ) (p : Process)
            → s.elapsed_ms + span ≤ now
            → p.suspended ≡ false
            → consider now p asleep ≡ some (record thread { suspended = false; resume_time = 0 }))
  unfolding suspend_thread add_cpu_time manual_context_switch_return consider
  suspend_thread-consider span pos small unparked free =
      let c : Caller = record { address = t; thread = thread; process = process } in
      let asleep : Thread = record thread { suspended = true; resume_time = s.elapsed_ms + span } in
      let wake : (if span == 0 then 1 else add32 s.elapsed_ms span) ≡ s.elapsed_ms + span =
        ground arith in
      (
        record (store_thread (add_cpu_time machine s c) t asleep) {
          thread_execution_queue = s.thread_execution_queue ++ (t ∷ []);
          current_thread = none;
          temporary_registers = none;
        },
        asleep,
        rw (caller_lem s t thread process current there owner, wake) (simp current),
        ground arith,
        refl,
        λ now p h. ground arith,
        λ now p h awake. ground arith,
      )

  -- The end of an event gives the thread the registers back that it had when the event came,
  -- whatever the handler did to them, and lets it run again behind the threads that wait.
  pub end_event-enter_event :
      (event : ThreadEvent) (before : Thread) (ran : Registers)
      → thread ≡ record (enter_event event before) { registers = ran }
      → (s' : Scheduler) × (end_event machine s ≡ ok (halt, s'))
        × (s'.threads t
            ≡ some (record before {
              parked = false;
              processing_event = false;
              backup_registers = before.registers;
            }))
        × (s'.current_thread ≡ none)
        × (s'.thread_execution_queue ≡ s.thread_execution_queue ++ (t ∷ []))
  unfolding end_event enter_event add_cpu_time
  end_event-enter_event event before ran e =
      let c : Caller = record { address = t; thread = thread; process = process } in
      let f : Thread → Thread =
        λ x. record x { processing_event = false; registers = x.backup_registers } in
      let busy : thread.processing_event ≡ true = ap (λ (x : Thread). x.processing_event) e in
      (
        record (store_thread (add_cpu_time machine s c) t (f thread)) {
          thread_execution_queue = s.thread_execution_queue ++ (t ∷ []);
          current_thread = none;
          temporary_registers = none;
        },
        rw (caller_lem s t thread process current there owner) (simp busy),
        update_self s.threads t (f thread) ∙ ap (λ x. some (f x)) e,
        refl,
        refl,
      )
