-- ===== src/Scheduler/Syscalls/Callers.antt =====
-- The thread that makes a system call.
use speedy_os.Common.{ℕ, ◌≡◌, some, ok}
use speedy_os.Scheduler.State.{Thread, Process, Scheduler}
use speedy_os.Scheduler.Syscalls.{caller}

pub caller_lem :
    (s : Scheduler) (t : ℕ) (thread : Thread) (process : Process)
    → s.current_thread ≡ some t
    → s.threads t ≡ some thread
    → s.processes thread.process ≡ some process
    → caller s ≡ ok (record { address = t; thread = thread; process = process })
unfolding caller
caller_lem s t thread process current there owner = rw (current, there, owner)
