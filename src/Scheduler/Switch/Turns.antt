-- ===== src/Scheduler/Switch/Turns.antt =====
-- Which events a pass of the event loop hands out and which it keeps, for one thread at a time.
use speedy_os.Common.{
  ℕ, ◌≡◌, refl, ◌⊎◌, sym, ap, subst, ◌∙◌, inl, inr, Bool, true, false, List, [], ◌∷◌, some, ◌==◌,
  Bool-cases, if◌then◌else◌, arith,
}
use speedy_os.Scheduler.State.{Thread, ThreadEvent, Scheduler}
use speedy_os.Scheduler.Switch.{dispatch_one, enter_event, deliver}
use speedy_os.Scheduler.Events.{is_busy}

-- The events for a thread, in order.
abbrev pub events_of : ℕ → List ThreadEvent → List ThreadEvent
events_of t [] = []
events_of t (event ∷ events) =
    if event.thread == t then event ∷ events_of t events else events_of t events

abbrev all_but_first : List ThreadEvent → List ThreadEvent
all_but_first [] = []
all_but_first (event ∷ events) = events

-- What stays of the events for a thread: all while it runs the handler of another event, none if it
-- is busy, all but the first otherwise.
abbrev pub events_left : Thread → List ThreadEvent → List ThreadEvent
events_left thread events =
    if thread.processing_event
    then events
    else if is_busy thread.execution_policy
    then []
    else all_but_first events

-- What becomes of the thread: the first event is delivered to it, if it can take one.
abbrev pub after_events : Thread → List ThreadEvent → Thread
after_events thread [] = thread
after_events thread (event ∷ events) =
    if thread.processing_event
    then thread
    else if is_busy thread.execution_policy
    then thread
    else enter_event event thread

-- Each thread gets its turn for its events.
abbrev pub Turns : (s left : Scheduler) → (events kept : List ThreadEvent) → Type 0
Turns s left events kept =
    (t : ℕ) (thread : Thread)
    → s.threads t ≡ some thread
    → (events_of t kept ≡ events_left thread (events_of t events))
      × (left.threads t ≡ some (after_events thread (events_of t events)))

-- A thread without events is as it was.
pub Turns-refl : (s : Scheduler) → Turns s s [] []
Turns-refl s t thread there = elim (Bool-cases thread.processing_event) [
  | inl e ↦ (rw e refl, there)
  | inr e ↦ elim (Bool-cases (is_busy thread.execution_policy)) [
    | inl e' ↦ (rw (e, e') refl, there)
    | inr e' ↦ (rw (e, e') refl, there)
  ]
]

-- What the thread `t`, then `after`, has got, when all events `events` have had their turn.
abbrev Turn : (left : Scheduler) → (events kept : List ThreadEvent) → (t : ℕ) → Thread → Type 0
Turn left events kept t thread =
    (events_of t kept ≡ events_left thread (events_of t events))
    × (left.threads t ≡ some (after_events thread (events_of t events)))

-- A thread that takes no event is as it was.
after_events-none :
    (thread : Thread) (events : List ThreadEvent)
    → (thread.processing_event ≡ true) ⊎ (is_busy thread.execution_policy ≡ true)
    → after_events thread events ≡ thread
after_events-none thread [] h = refl
after_events-none thread (event ∷ events) (inl runs) = rw runs refl
after_events-none thread (event ∷ events) (inr deaf) = elim (Bool-cases thread.processing_event) [
  | inl e ↦ rw e refl
  | inr e ↦ rw (e, deaf) refl
]

-- A round of the loop, for the thread of its event and for another one.
module _ (left : Scheduler) (event : ThreadEvent) (rest kept : List ThreadEvent) (t : ℕ)
    (thread : Thread) where
  skip :
      (stays : Bool)
      → (event.thread == t) ≡ false
      → Turn left rest kept t thread
      → Turn left (event ∷ rest) (if stays then event ∷ kept else kept) t thread
  skip true apart turn = rw apart turn
  skip false apart turn = rw apart turn

  stay :
      (event.thread == t) ≡ true
      → thread.processing_event ≡ true
      → Turn left rest kept t thread
      → Turn left (event ∷ rest) (event ∷ kept) t thread
  stay own runs (a, b) =
      let a' : events_of t kept ≡ events_of t rest = rw runs at a in
      let b' : left.threads t ≡ some thread =
        b ∙ ap some (after_events-none thread (events_of t rest) (inl runs)) in
      (rw (own, runs) (ap (λ es. event ∷ es) a'), simp (own, runs) b')

  drop :
      (event.thread == t) ≡ true
      → thread.processing_event ≡ false
      → is_busy thread.execution_policy ≡ true
      → Turn left rest kept t thread
      → Turn left (event ∷ rest) kept t thread
  drop own idle deaf (a, b) =
      let a' : events_of t kept ≡ [] = rw (idle, deaf) at a in
      let b' : left.threads t ≡ some thread =
        b ∙ ap some (after_events-none thread (events_of t rest) (inr deaf)) in
      (rw (own, idle, deaf) a', simp (own, idle, deaf) b')

  hand_out :
      (event.thread == t) ≡ true
      → thread.processing_event ≡ false
      → is_busy thread.execution_policy ≡ false
      → Turn left rest kept t (enter_event event thread)
      → Turn left (event ∷ rest) kept t thread
  unfolding enter_event
  hand_out own idle hears (a, b) =
      let b' : left.threads t ≡ some (enter_event event thread) =
        b ∙ ap some (after_events-none (enter_event event thread) (events_of t rest) (inl refl)) in
      (rw (own, idle, hears) a, simp (own, idle, hears) b')

module _ (s left : Scheduler) (event : ThreadEvent) (thread : Thread) (rest kept : List ThreadEvent)
    (there : s.threads event.thread ≡ some thread) (t : ℕ) (other : Thread)
    (at_t : s.threads t ≡ some other) where
  threads-deliver :
      (deliver s event thread).threads t
      ≡ (if t == event.thread then some (enter_event event thread) else s.threads t)
  unfolding deliver
  threads-deliver = refl

  same_thread : (event.thread == t) ≡ true → thread ≡ other
  same_thread own =
      let e : event.thread ≡ t = ground arith in
      let both : some thread ≡ some other = sym there ∙ ap s.threads e ∙ at_t in cc

  -- The outcome `r` of a round, by the state of the thread of the event.
  runs-Turn :
      thread.processing_event ≡ true
      → Turns s left rest kept
      → Turn left (event ∷ rest) (event ∷ kept) t other
  runs-Turn runs turns = elim (Bool-cases (event.thread == t)) [
    | inr apart ↦ skip left event rest kept t other true apart (turns t other at_t)
    | inl own ↦
        stay left event rest kept t other own
          (subst (λ (th : Thread). th.processing_event ≡ true) (same_thread own) runs)
          (turns t other at_t)
  ]

  deaf-Turn :
      thread.processing_event ≡ false
      → is_busy thread.execution_policy ≡ true
      → Turns s left rest kept
      → Turn left (event ∷ rest) kept t other
  deaf-Turn idle deaf turns = elim (Bool-cases (event.thread == t)) [
    | inr apart ↦ skip left event rest kept t other false apart (turns t other at_t)
    | inl own ↦
        drop left event rest kept t other own
          (subst (λ (th : Thread). th.processing_event ≡ false) (same_thread own) idle)
          (subst (λ (th : Thread). is_busy th.execution_policy ≡ true) (same_thread own) deaf)
          (turns t other at_t)
  ]

  hears-Turn :
      thread.processing_event ≡ false
      → is_busy thread.execution_policy ≡ false
      → Turns (deliver s event thread) left rest kept
      → Turn left (event ∷ rest) kept t other
  hears-Turn idle hears turns = elim (Bool-cases (event.thread == t)) [
    | inr apart ↦
        let back : (t == event.thread) ≡ false = ground arith in
        skip left event rest kept t other false apart
          (turns t other (threads-deliver ∙ simp back at_t))
    | inl own ↦
        let back : (t == event.thread) ≡ true = ground arith in
        hand_out left event rest kept t other own
          (subst (λ (th : Thread). th.processing_event ≡ false) (same_thread own) idle)
          (subst (λ (th : Thread). is_busy th.execution_policy ≡ false) (same_thread own) hears)
          (turns t (enter_event event other) (
            threads-deliver ∙ simp back (ap (λ th. some (enter_event event th)) (same_thread own))))
  ]

-- A round of the loop before rounds in which each thread gets its turn.
pub Turns-dispatch_one :
    (s left : Scheduler) (event : ThreadEvent) (thread : Thread) (rest kept : List ThreadEvent)
    → s.threads event.thread ≡ some thread
    → Turns (dispatch_one s event thread).0 left rest kept
    → Turns s left (event ∷ rest) (if (dispatch_one s event thread).1 then event ∷ kept else kept)
unfolding dispatch_one
Turns-dispatch_one s left event thread rest kept there turns t other at_t =
    elim (Bool-cases thread.processing_event) [
      | inl runs ↦
          let e : dispatch_one s event thread ≡ (s, true) = simp runs refl in
          subst
            (λ (r : Scheduler × Bool).
              Turn left (event ∷ rest) (if r.1 then event ∷ kept else kept) t other)
            (sym e)
            (runs-Turn s left event thread rest kept there t other at_t runs
              (subst (λ (r : Scheduler × Bool). Turns r.0 left rest kept) e turns))
      | inr idle ↦ elim (Bool-cases (is_busy thread.execution_policy)) [
        | inl deaf ↦
            let e : dispatch_one s event thread ≡ (s, false) = simp (idle, deaf) refl in
            subst
              (λ (r : Scheduler × Bool).
                Turn left (event ∷ rest) (if r.1 then event ∷ kept else kept) t other)
              (sym e)
              (deaf-Turn s left event thread rest kept there t other at_t idle deaf
                (subst (λ (r : Scheduler × Bool). Turns r.0 left rest kept) e turns))
        | inr hears ↦
            let e : dispatch_one s event thread ≡ (deliver s event thread, false) =
              simp (idle, hears) refl in
            subst
              (λ (r : Scheduler × Bool).
                Turn left (event ∷ rest) (if r.1 then event ∷ kept else kept) t other)
              (sym e)
              (hears-Turn s left event thread rest kept there t other at_t idle hears
                (subst (λ (r : Scheduler × Bool). Turns r.0 left rest kept) e turns))
      ]
    ]
