-- ===== src/Scheduler/Switch/Total.antt =====
-- A whole switch: it returns, and loses no thread.
use mathlib.Core.List.{Perm, perm_append_comm, append-nil}
use mathlib.Core.List.Perm
use speedy_os.Common.{
  ℕ, ◌+◌, ◌≡◌, refl, sym, ap, ◌∙◌, ◌⊎◌, inl, inr, List, [], ◌∷◌, ◌++◌, length, Option, none, some,
  ◌==◌, Bool-cases, Option-cases, Run, ok, arith,
}
use speedy_os.Scheduler.State.{Thread, ThreadEvent, Process, Scheduler, Machine}
use speedy_os.Scheduler.Switch.{
  Action, scheduler_execute, scheduler_sleep, consider, execute, select_loop, cpu_time_used, charge,
  conclude, reschedule, reschedule_current, handle_context_switch,
}
use speedy_os.Scheduler.Switch.Select.{
  with_queue, Loaded, Blocked, Ready, All, select_loop-first, select_loop-none,
}
use speedy_os.Scheduler.Switch.Dispatch.{dispatch_events-total}

-- The thread that runs, if any, and those that wait for the processor.
abbrev pub current_list : Option ℕ → List ℕ
current_list none = []
current_list (some t) = t ∷ []

abbrev pub scheduled : Scheduler → List ℕ
scheduled s = current_list s.current_thread ++ s.thread_execution_queue

-- Every thread that the scheduler refers to is there, with its process.
pub record WellFormed (s : Scheduler) : Type 0 where
  pub current : All (Loaded s) (current_list s.current_thread)
  pub queue : All (Loaded s) s.thread_execution_queue
  pub events : All (λ (e : ThreadEvent). Loaded s e.thread) s.thread_event_queue

-- The execution queue split at the first thread that can run.
pub data Search (s : Scheduler) (queue : List ℕ) : Type 0 where
  first :
      (skipped rest : List ℕ) (t : ℕ)
      → queue ≡ skipped ++ (t ∷ rest)
      → All (Blocked s) skipped
      → Ready s t
      → Search s queue
  nothing : All (Blocked s) queue → Search s queue

Search-queue : (s : Scheduler) (queue : List ℕ) → All (Loaded s) queue → Search s queue
Search-queue s [] l = nothing tt
Search-queue s (t ∷ queue) l = elim (Option-cases (consider s.elapsed_ms l.0.process l.0.thread)) [
  | inr (th, go) ↦ first [] queue t refl tt (record { loaded = l.0; resumed = th; accepted = go })
  | inl stay ↦ elim (Search-queue s queue l.1) [
    | first skipped rest u e b r ↦
        first (t ∷ skipped) rest u (ap (λ q. t ∷ q) e) (record { loaded = l.0; refused = stay }, b)
          r
    | nothing b ↦ nothing (record { loaded = l.0; refused = stay }, b)
  ]
]

pub All-append {ℓ κ} :
    {A : Type ℓ} (P : A → Type κ) (xs ys : List A) → All P xs → All P ys → All P (xs ++ ys)
All-append P [] ys a b = b
All-append P (x ∷ xs) ys a b = (a.0, All-append P xs ys a.1 b)

pub All-transfer :
    {s s' : Scheduler}
    → ((t : ℕ) → Loaded s t → Loaded s' t)
    → (ts : List ℕ) → All (Loaded s) ts
    → All (Loaded s') ts
All-transfer f [] a = tt
All-transfer f (t ∷ ts) a = (f t a.0, All-transfer f ts a.1)

pub All-transfer_events :
    {s s' : Scheduler}
    → ((t : ℕ) → Loaded s t → Loaded s' t)
    → (es : List ThreadEvent) → All (λ (e : ThreadEvent). Loaded s e.thread) es
    → All (λ (e : ThreadEvent). Loaded s' e.thread) es
All-transfer_events f [] a = tt
All-transfer_events f (e ∷ es) a = (f e.thread a.0, All-transfer_events f es a.1)

-- The first part of a switch: no thread is current any more.
record Rescheduled (s : Scheduler) (r : Run Scheduler) : Type 0 where
  next : Scheduler
  result : r ≡ ok next
  idle : next.current_thread ≡ none
  moved : next.thread_execution_queue ≡ s.thread_execution_queue ++ current_list s.current_thread
  events : next.thread_event_queue ≡ s.thread_event_queue
  loaded : (t : ℕ) → Loaded s t → Loaded next t

-- What the search of the execution queue leaves: a thread that runs, and all others in the queue, or
-- everything as it was.
data Selected (s : Scheduler) : Option Scheduler → Scheduler → Type 0 where
  runs :
      {u left : Scheduler} (t : ℕ)
      → u.current_thread ≡ some t
      → Perm (scheduled u) s.thread_execution_queue
      → Selected s (some u) left
  sleeps : Selected s none s

-- The last part of a switch, given what the execution queue holds.
select_loop-Selected :
    (s : Scheduler)
    → Search s s.thread_execution_queue
    → (selected : Option Scheduler) × (left : Scheduler) × (select_loop
          (length s.thread_execution_queue + 1)
          0
          s
        ≡ ok (selected, left))
      × Selected s selected left
unfolding execute
select_loop-Selected s (first skipped rest t e b r) =
    let (left, done) = select_loop-first s skipped rest t e b r in
    let moved : Perm (t ∷ (rest ++ skipped)) (skipped ++ (t ∷ rest)) =
      Perm.trans (perm_append_comm (t ∷ rest) skipped) (Perm.refl (skipped ++ (t ∷ rest))) in
    (
      some (execute (with_queue s (rest ++ skipped)) t r.resumed r.loaded.process),
      left,
      done,
      runs t refl (rw e moved),
    )
select_loop-Selected s (nothing b) = (none, s, select_loop-none s b, sleeps)

module _ (machine : Machine) where
  Loaded-reschedule :
      (s : Scheduler) (t : ℕ) (thread : Thread) (process : Process) (u : ℕ)
      → Loaded s u
      → Loaded (reschedule machine s t thread process) u
  unfolding reschedule
  Loaded-reschedule s t thread process u l =
      elim (Bool-cases (l.thread.process == thread.process)) [
        | inl same ↦ record {
          thread = l.thread;
          process = charge machine process (cpu_time_used machine s);
          thread_there = l.thread_there;
          process_there = rw same;
        }
        | inr other ↦ record {
          thread = l.thread;
          process = l.process;
          thread_there = l.thread_there;
          process_there = rw other l.process_there;
        }
      ]

  reschedule_current-Rescheduled :
      (s : Scheduler) (c : Option ℕ)
      → s.current_thread ≡ c
      → All (Loaded s) (current_list c)
      → Rescheduled s (reschedule_current machine s)
  unfolding reschedule_current reschedule cpu_time_used
  reschedule_current-Rescheduled s none e l = record {
    next = s;
    result = ground arith;
    idle = e;
    moved = sym (append-nil s.thread_execution_queue) ∙ rw e;
    events = refl;
    loaded = λ t l'. l';
  }
  reschedule_current-Rescheduled s (some t) e l = record {
    next = reschedule machine s t l.0.thread l.0.process;
    result = rw (e, reschedule_current, l.0.thread_there, l.0.process_there);
    idle = refl;
    moved = simp e;
    events = refl;
    loaded = Loaded-reschedule s t l.0.thread l.0.process;
  }

  conclude_lem :
      {s : Scheduler} (selected : Option Scheduler) (left : Scheduler)
      → Selected s selected left
      → s.current_thread ≡ none
      → (action : Action) × (s' : Scheduler) × (conclude machine selected left ≡ (action, s'))
        × Perm (scheduled s') s.thread_execution_queue
        × (((action ≡ scheduler_execute) × ((t : ℕ) × (s'.current_thread ≡ some t)))
            ⊎ ((action ≡ scheduler_sleep) × (s'.current_thread ≡ none)))
  unfolding conclude
  conclude_lem (some u) left (runs t e p) idle = (scheduler_execute, u, refl, p, inl (refl, (t, e)))
  conclude_lem {s} none left sleeps idle =
      let slept : Scheduler = (conclude machine none s).1 in
      (
        scheduler_sleep,
        slept,
        refl,
        simp idle (Perm.refl s.thread_execution_queue),
        inr (refl, idle),
      )

  -- When every thread that the scheduler refers to is there, a switch returns. It executes a
  -- thread, or sleeps with no current thread, and the threads that run or wait for the processor
  -- are the same as before.
  pub handle_context_switch-total :
      (s : Scheduler)
      → WellFormed s
      → (action : Action) × (s' : Scheduler) × (handle_context_switch machine s ≡ ok (action, s'))
        × Perm (scheduled s') (scheduled s)
        × (((action ≡ scheduler_execute) × ((t : ℕ) × (s'.current_thread ≡ some t)))
            ⊎ ((action ≡ scheduler_sleep) × (s'.current_thread ≡ none)))
  unfolding handle_context_switch
  handle_context_switch-total s wf =
      let a = reschedule_current-Rescheduled s s.current_thread refl wf.current in
      let (s2, dispatched, same, _, _) =
        dispatch_events-total a.next
          (rw a.events (All-transfer_events a.loaded s.thread_event_queue wf.events)) in
      let queue = same.queue ∙ a.moved in
      let there =
        All-append (Loaded s) s.thread_execution_queue (current_list s.current_thread) wf.queue
          wf.current in
      let there' : All (Loaded s2) s2.thread_execution_queue =
        rw queue (All-transfer (λ t l. same.loaded t (a.loaded t l)) _ there) in
      let (selected, left, found, outcome) =
        select_loop-Selected s2 (Search-queue s2 s2.thread_execution_queue there') in
      let (action, s', end, perm, how) =
        conclude_lem selected left outcome (same.current ∙ a.idle) in
      (
        action,
        s',
        rw (a.result, dispatched, found, end),
        Perm.trans perm
            (rw queue (perm_append_comm s.thread_execution_queue (current_list s.current_thread))),
        how,
      )
