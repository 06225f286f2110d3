-- ===== src/Scheduler/Lifecycle/Kill.antt =====
-- What `kill_thread` leaves: the scheduler goes on without the thread, and `thread_list` still
-- leads to it.

use mathlib.Core.List.{Perm}
use speedy_os.Common.{
  update, ℕ, ◌≡◌, ◌≢◌, refl, sym, inl, inr, Bool, true, false, List, ◌∷◌, ◌++◌, Option, none, some,
  ◌==◌, Bool-cases, set, ok, fault, Holds, Holds-bind, Holds-intro, Holds-elim, arith,
}
use speedy_os.Physical.{Physical}
use speedy_os.Paging.{address_to_pi, reset_virtual_pages}
use speedy_os.Scheduler.State.{
  Thread, ThreadEventListener, Process, load_thread, load_process, Scheduler, Machine, physical_of,
  store_physical, store_process, lookup,
}
use speedy_os.Scheduler.Events.{emit_event}
use speedy_os.Scheduler.Events.Emit.{listens}
use speedy_os.Scheduler.Events.Stale.{emit_event-Stale}
use speedy_os.Scheduler.Switch.{Action, handle_context_switch}
use speedy_os.Scheduler.Switch.Select.{Loaded, All}
use speedy_os.Scheduler.Switch.Total.{
  current_list, scheduled, WellFormed, handle_context_switch-total,
}
use speedy_os.Scheduler.Lifecycle.{without, without_events, leave_process, kill_thread}
use speedy_os.Scheduler.Lifecycle.Without.{All-without, All-without_events}

-- The process of the killed thread, when it has left it.
abbrev pub orphaned : (t : ℕ) → Bool → Thread → Process → Process
orphaned t remove thread process =
    let process' = leave_process t remove process in
    record process' { kernel_blocks = set process'.kernel_blocks thread.kernel_block false }

abbrev pub killed : Scheduler → (t : ℕ) → Bool → Thread → Process → Physical → Scheduler
killed s t remove thread process p =
    let s' = store_process (store_physical s p) thread.process (orphaned t remove thread process) in
    record s' {
      thread_event_queue = without_events t s.thread_event_queue;
      thread_execution_queue = without t s.thread_execution_queue;
      threads = update s.threads t none;
    }

without-current :
    (t : ℕ) (c : Option ℕ) (queue : List ℕ)
    → c ≢ some t
    → current_list c ++ without t queue ≡ without t (current_list c ++ queue)
unfolding without
without-current t none queue idle = refl
without-current t (some c) queue idle = let other : (c == t) ≡ false = ground arith in rw other

module _ (s : Scheduler) (t : ℕ) (remove : Bool) (thread : Thread) (process : Process)
    (p : Physical) where
  abbrev pub end : Scheduler
  end = killed s t remove thread process p

  Loaded-killed : (u : ℕ) → (u == t) ≡ false → Loaded s u → Loaded end u
  Loaded-killed u other l = elim (Bool-cases (l.thread.process == thread.process)) [
    | inl same ↦ record {
      thread = l.thread;
      process = orphaned t remove thread process;
      thread_there = rw other l.thread_there;
      process_there = rw same;
    }
    | inr different ↦ record {
      thread = l.thread;
      process = l.process;
      thread_there = rw other l.thread_there;
      process_there = rw different l.process_there;
    }
  ]

  All-current :
      (c : Option ℕ)
      → c ≢ some t
      → All (Loaded s) (current_list c)
      → All (Loaded end) (current_list c)
  All-current none idle l = tt
  All-current (some c) idle l = (Loaded-killed c (ground arith) l.0, tt)

  WellFormed-killed : WellFormed s → s.current_thread ≢ some t → WellFormed end
  WellFormed-killed wf idle = record {
    current = All-current s.current_thread idle wf.current;
    queue = All-without (Loaded s) (Loaded end) t Loaded-killed s.thread_execution_queue wf.queue;
    events =
        All-without_events (Loaded s) (Loaded end) t Loaded-killed s.thread_event_queue wf.events;
  }

  -- `kill_thread` of a thread that is not the current one, with its process there and its stack
  -- pages reset: it returns, its thread is gone, every other thread that the scheduler refers to is
  -- still there, and the next switch returns, with the threads that run or wait for the processor
  -- those of before without the killed one.
  pub kill_thread-handle_context_switch :
      (machine : Machine)
      → WellFormed s
      → s.current_thread ≢ some t
      → s.threads t ≡ some thread
      → s.processes thread.process ≡ some process
      → reset_virtual_pages 2 process.directories
          (address_to_pi thread.virtual_stack)
          true
          (physical_of s)
        ≡ ok p
      → (s' : Scheduler) × (kill_thread s t remove ≡ ok s')
        × (s'.threads t ≡ none)
        × WellFormed s'
        × ((action : Action) × (s'' : Scheduler) × (handle_context_switch machine s'
              ≡ ok (action, s''))
            × Perm (scheduled s'') (without t (scheduled s)))
  unfolding kill_thread without
  kill_thread-handle_context_switch machine wf idle there owned reset =
      let wf' = WellFormed-killed wf idle in
      let (action, s'', switched, kept, how) = handle_context_switch-total machine end wf' in
      (
        end,
        rw (there, owned, reset),
        ground arith,
        wf',
        (
          action,
          s'',
          switched,
          rw (sym (without-current t s.current_thread s.thread_execution_queue idle)) kept,
        ),
      )

-- What holds of the state that `kill_thread` makes holds of its result.
pub kill_thread-Holds :
    (P : Scheduler → Type 0) (s : Scheduler) (t : ℕ) (remove : Bool)
    → ((thread : Thread) (process : Process) (p : Physical)
        → P (killed s t remove thread process p))
    → Holds P (kill_thread s t remove)
unfolding kill_thread
kill_thread-Holds P s t remove h = Holds-bind P (load_thread s t) _ (λ thread.
    Holds-bind P (load_process s thread.process) _ (λ process.
      Holds-bind P
        (reset_virtual_pages 2 process.directories (address_to_pi thread.virtual_stack) true
          (physical_of s))
        _ (λ p. Holds-intro P (killed s t remove thread process p) (h thread process p))))

-- What a killed thread leaves behind.
abbrev IsLeft : (s : Scheduler) → (t : ℕ) → Scheduler → Type 0
IsLeft s t e = (e.threads t ≡ none) × (e.thread_list ≡ s.thread_list)

kill_thread-thread_list :
    (s s' : Scheduler) (t : ℕ) (remove : Bool) → kill_thread s t remove ≡ ok s' → IsLeft s t s'
kill_thread-thread_list s s' t remove run =
    Holds-elim (IsLeft s t) run
      (kill_thread-Holds (IsLeft s t) s t remove (λ thread process p. (ground arith, refl)))

-- `kill_thread` leaves the thread in `thread_list`: when a process has, at any place, a listener
-- under an identifier that led to the killed thread, an event that this listener has asked for makes
-- `emit_event` follow the pointer to the thread that is gone.
pub kill_thread-emit_event :
    (s s' : Scheduler) (t : ℕ) (remove : Bool)
    → kill_thread s t remove ≡ ok s'
    → (q id event_data : ℕ) (sender : Process) → s'.processes q ≡ some sender
    → (earlier rest : List ThreadEventListener) (l : ThreadEventListener)
    → sender.hooked_threads ≡ earlier ++ (l ∷ rest)
    → listens id l ≡ true
    → lookup l.thread_id s.thread_list ≡ some t
    → emit_event s' q id event_data ≡ fault
kill_thread-emit_event s s' t remove run q id event_data sender there earlier rest l hooked asked
      listed =
    let (gone, same) = kill_thread-thread_list s s' t remove run in
    emit_event-Stale s' id event_data q sender earlier rest l there hooked
      (record { thread = t; asked = asked; listed = rw same listed; gone = gone })
