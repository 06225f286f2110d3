-- ===== src/Scheduler/Switch/Dispatch.antt =====
-- What the event loop of a switch does to the threads and to the event queue.
use speedy_os.Common.{
  ℕ, ◌≡◌, refl, sym, ap, ◌∙◌, inl, inr, Bool, true, false, List, [], ◌∷◌, some, ◌==◌, Bool-cases,
  if◌then◌else◌, Run, ok, arith,
}
use speedy_os.Scheduler.State.{Thread, ThreadEvent, Scheduler}
use speedy_os.Scheduler.Switch.{dispatch_one, enter_event, deliver, dispatch_loop, dispatch_events}
use speedy_os.Scheduler.Events.{is_busy}
use speedy_os.Scheduler.Switch.Turns.{
  events_of, events_left, after_events, Turns, Turns-refl, Turns-dispatch_one,
}
use speedy_os.Scheduler.Switch.Select.{Loaded, All}

-- The thread `t` is there and runs the handler of an event.
pub record InEvent (s : Scheduler) (t : ℕ) : Type 0 where
  pub thread : Thread
  pub there : s.threads t ≡ some thread
  pub busy : thread.processing_event ≡ true

-- What `s'` has in common with `s`, of which it comes by delivering events.
pub record Same (s s' : Scheduler) : Type 0 where
  pub queue : s'.thread_execution_queue ≡ s.thread_execution_queue
  pub current : s'.current_thread ≡ s.current_thread
  pub processes : s'.processes ≡ s.processes
  pub elapsed : s'.elapsed_ms ≡ s.elapsed_ms
  pub loaded : (t : ℕ) → Loaded s t → Loaded s' t
  pub in_event : (t : ℕ) → InEvent s t → InEvent s' t

Same-refl : (s : Scheduler) → Same s s
Same-refl s = record {
  queue = refl;
  current = refl;
  processes = refl;
  elapsed = refl;
  loaded = λ t l. l;
  in_event = λ t e. e;
}

process-enter_event :
    (event : ThreadEvent) (thread : Thread)
    → ((enter_event event thread).process ≡ thread.process)
      × ((enter_event event thread).processing_event ≡ true)
unfolding enter_event
process-enter_event event thread = (refl, refl)

module _ (s : Scheduler) (event : ThreadEvent) (thread : Thread)
    (there : s.threads event.thread ≡ some thread) where
  threads-deliver :
      (t : ℕ)
      → (deliver s event thread).threads t
        ≡ (if t == event.thread then some (enter_event event thread) else s.threads t)
  unfolding deliver
  threads-deliver t = refl

  Loaded-deliver : (t : ℕ) → Loaded s t → Loaded (deliver s event thread) t
  unfolding deliver
  Loaded-deliver t l =
      let (same_process, _) = process-enter_event event thread in
      elim (Bool-cases (t == event.thread)) [
        | inl same ↦
            let e : t ≡ event.thread = ground arith in
            let old : some thread ≡ some l.thread =
              sym there ∙ ap s.threads (sym e) ∙ l.thread_there in
            record {
              thread = enter_event event thread;
              process = l.process;
              thread_there = rw same;
              process_there = ground arith;
            }
        | inr other ↦ record {
          thread = l.thread;
          process = l.process;
          thread_there = rw other l.thread_there;
          process_there = l.process_there;
        }
      ]

  InEvent-deliver : (t : ℕ) → InEvent s t → InEvent (deliver s event thread) t
  unfolding deliver
  InEvent-deliver t i =
      let (_, busy) = process-enter_event event thread in
      elim (Bool-cases (t == event.thread)) [
        | inl same ↦ record { thread = enter_event event thread; there = rw same; busy = busy }
        | inr other ↦ record { thread = i.thread; there = rw other i.there; busy = i.busy }
      ]

  Same-deliver : Same s (deliver s event thread)
  unfolding deliver
  Same-deliver = record {
    queue = refl;
    current = refl;
    processes = refl;
    elapsed = refl;
    loaded = Loaded-deliver;
    in_event = InEvent-deliver;
  }

Same-trans : {s t u : Scheduler} → Same s t → Same t u → Same s u
Same-trans a b = record {
  queue = b.queue ∙ a.queue;
  current = b.current ∙ a.current;
  processes = b.processes ∙ a.processes;
  elapsed = b.elapsed ∙ a.elapsed;
  loaded = λ t l. b.loaded t (a.loaded t l);
  in_event = λ t e. b.in_event t (a.in_event t e);
}

Same-dispatch_one :
    (s : Scheduler) (event : ThreadEvent) (thread : Thread)
    → s.threads event.thread ≡ some thread
    → Same s (dispatch_one s event thread).0
unfolding dispatch_one
Same-dispatch_one s event thread there = elim (Bool-cases thread.processing_event) [
  | inl stays ↦ simp stays (Same-refl s)
  | inr idle ↦ elim (Bool-cases (is_busy thread.execution_policy)) [
    | inl dropped ↦ simp (idle, dropped) (Same-refl s)
    | inr sent ↦ simp (idle, sent) (Same-deliver s event thread there)
  ]
]

-- An event stays in the queue only while its thread runs the handler of another one.
InEvent-dispatch_one :
    (s : Scheduler) (event : ThreadEvent) (thread : Thread)
    → s.threads event.thread ≡ some thread
    → (dispatch_one s event thread).1 ≡ true
    → InEvent s event.thread
unfolding dispatch_one
InEvent-dispatch_one s event thread there h = record {
  thread = thread;
  there = there;
  busy = ground arith;
}

All-map :
    {s s' : Scheduler}
    → ((t : ℕ) → Loaded s t → Loaded s' t)
    → (events : List ThreadEvent) → All (λ (e : ThreadEvent). Loaded s e.thread) events
    → All (λ (e : ThreadEvent). Loaded s' e.thread) events
All-map f [] a = tt
All-map f (e ∷ events) a = (f e.thread a.0, All-map f events a.1)

All-kept :
    (s : Scheduler) (b : Bool) (event : ThreadEvent) (kept : List ThreadEvent)
    → (b ≡ true → InEvent s event.thread)
    → All (λ (e : ThreadEvent). InEvent s e.thread) kept
    → All (λ (e : ThreadEvent). InEvent s e.thread) (if b then event ∷ kept else kept)
All-kept s true event kept h a = (h refl, a)
All-kept s false event kept h a = a

-- The outcome of the event loop.
pub record Dispatched (s : Scheduler) (events : List ThreadEvent)
    (r : Run (Scheduler × List ThreadEvent)) : Type 0 where
  pub left : Scheduler
  pub kept : List ThreadEvent
  pub result : r ≡ ok (left, kept)
  pub same : Same s left
  pub waiting : All (λ (e : ThreadEvent). InEvent left e.thread) kept
  pub turns : Turns s left events kept

-- With all threads of the events there, the loop over the events returns, each event that stays
-- in the queue waits for a thread that runs the handler of another event, and each thread has had
-- its turn.
pub dispatch_loop-Dispatched :
    (s : Scheduler) (events : List ThreadEvent)
    → All (λ (e : ThreadEvent). Loaded s e.thread) events
    → Dispatched s events (dispatch_loop s events)
unfolding dispatch_loop
dispatch_loop-Dispatched s [] l = record {
  left = s;
  kept = [];
  result = refl;
  same = Same-refl s;
  waiting = tt;
  turns = Turns-refl s;
}
dispatch_loop-Dispatched s (event ∷ rest) l =
    let thread = l.0.thread in
    let one = dispatch_one s event thread in
    let same = Same-dispatch_one s event thread l.0.thread_there in
    let ih = dispatch_loop-Dispatched one.0 rest (All-map same.loaded rest l.1) in
    record {
      left = ih.left;
      kept = if one.1 then event ∷ ih.kept else ih.kept;
      result = rw (l.0.thread_there, dispatch_loop, ih.result);
      same = Same-trans same ih.same;
      waiting =
          All-kept ih.left one.1 event ih.kept
            (λ h.
              ih.same.in_event event.thread (
                same.in_event event.thread
                  (InEvent-dispatch_one s event thread l.0.thread_there h)))
            ih.waiting;
      turns = Turns-dispatch_one s ih.left event thread rest ih.kept l.0.thread_there ih.turns;
    }

Same-events :
    (s left : Scheduler) (kept : List ThreadEvent)
    → Same s left
    → Same s (record left { thread_event_queue = kept })
Same-events s left kept same = record {
  queue = same.queue;
  current = same.current;
  processes = same.processes;
  elapsed = same.elapsed;
  loaded = λ t l.
      let l' = same.loaded t l in
      record {
        thread = l'.thread;
        process = l'.process;
        thread_there = l'.thread_there;
        process_there = l'.process_there;
      };
  in_event = λ t e.
      let e' = same.in_event t e in record { thread = e'.thread; there = e'.there; busy = e'.busy };
}

All-InEvent :
    (s : Scheduler) (queue : List ThreadEvent) (kept : List ThreadEvent)
    → All (λ (e : ThreadEvent). InEvent s e.thread) kept
    → All (λ (e : ThreadEvent). InEvent (record s { thread_event_queue = queue }) e.thread) kept
All-InEvent s queue [] a = tt
All-InEvent s queue (e ∷ kept) a = (
  record { thread = a.0.thread; there = a.0.there; busy = a.0.busy },
  All-InEvent s queue kept a.1,
)

-- When the threads of all queued events are there, the event loop of a switch returns. It leaves the
-- execution queue, the current thread and the processes alone, keeps every thread, and keeps in
-- the event queue only events whose threads run the handler of another event. Of the events for a
-- thread, in their order, it keeps all if the thread was running a handler before, none if the
-- thread is busy, and all but the first otherwise; in this last case the thread has entered the
-- handler of the first, and in the others, or without an event for it, it is as it was.
pub dispatch_events-total :
    (s : Scheduler)
    → All (λ (e : ThreadEvent). Loaded s e.thread) s.thread_event_queue
    → (s' : Scheduler) × (dispatch_events s ≡ ok s')
      × Same s s'
      × All (λ (e : ThreadEvent). InEvent s' e.thread) s'.thread_event_queue
      × ((t : ℕ) (thread : Thread)
          → s.threads t ≡ some thread
          → (events_of t s'.thread_event_queue
              ≡ events_left thread (events_of t s.thread_event_queue))
            × (s'.threads t ≡ some (after_events thread (events_of t s.thread_event_queue))))
unfolding dispatch_events
dispatch_events-total s l =
    let d = dispatch_loop-Dispatched s s.thread_event_queue l in
    (
      record (d.left) { thread_event_queue = d.kept },
      rw d.result,
      Same-events s d.left d.kept d.same,
      All-InEvent d.left d.kept d.kept d.waiting,
      d.turns,
    )
