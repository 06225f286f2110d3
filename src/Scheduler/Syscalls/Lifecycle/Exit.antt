-- ===== src/Scheduler/Syscalls/Lifecycle/Exit.antt =====
-- A thread that ends itself.
use speedy_os.Common.{
  ℕ, ◌≡◌, refl, true, ◌||◌, none, some, ◌==◌, ok, Holds-intro, Holds-both, Holds-elim, arith,
}
use speedy_os.Scheduler.State.{Thread, Process, Scheduler}
use speedy_os.Scheduler.Lifecycle.{kill_thread}
use speedy_os.Scheduler.Processes.Kill.{IsDead, Ending, kill_thread-Ending}
use speedy_os.Scheduler.Syscalls.{Reply, halt}
use speedy_os.Scheduler.Syscalls.Callers.{caller_lem}
use speedy_os.Scheduler.Syscalls.Lifecycle.{end_thread}

abbrev Exited : ℕ → Reply × Scheduler → Type 0
Exited t (reply, s') = (reply ≡ halt) × IsDead t s'

-- System call 16 from the thread `t`, for the identifier 0 or its own: when it returns, the processor
-- does not go back to the thread, which is gone, and neither the execution queue nor the event queue
-- leads to it.
pub end_thread-IsDead :
    (s s' : Scheduler) (t thread_id : ℕ) (thread : Thread) (process : Process) (reply : Reply)
    → s.current_thread ≡ some t
    → s.threads t ≡ some thread
    → s.processes thread.process ≡ some process
    → (thread_id == 0 || thread_id == thread.id) ≡ true
    → end_thread s thread_id ≡ ok (reply, s')
    → (reply ≡ halt) × IsDead t s'
unfolding end_thread
end_thread-IsDead s s' t thread_id thread process reply current there owner own run =
    Holds-elim (Exited t) run (
      rw (caller_lem s t thread process current there owner) (
        rw own (
          Holds-both (Ending t) (Exited t) (kill_thread s t true) _ (kill_thread-Ending t s true)
            (λ e d.
              Holds-intro (Exited t)
                (halt, record e { current_thread = none; temporary_registers = none })
                (
                  refl,
                  record {
                    gone = d.gone;
                    stopped = λ same. ground arith;
                    unqueued = d.unqueued;
                    unheard = d.unheard;
                  },
                )))))
