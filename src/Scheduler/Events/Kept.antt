-- ===== src/Scheduler/Events/Kept.antt =====
-- What an event leaves alone: the threads, and those that are gone stay out of the queue.
use Prim.Native.Nat.{bit_and}
use speedy_os.Common.{
  ℕ, ◌≡◌, refl, inl, inr, false, List, [], ◌∷◌, ◌++◌, none, ◌==◌, Bool-cases, Option-cases, length,
  Holds, Holds-bind, Holds-intro, Holds-fault, Holds-both, arith,
}
use speedy_os.Scheduler.State.{ThreadEventListener, ThreadEvent, Scheduler, lookup, load_process}
use speedy_os.Scheduler.Events.{is_busy, emit_one, emit_loop, emit_event}
use speedy_os.Scheduler.Switch.Select.{All}
use speedy_os.Scheduler.Switch.Total.{All-append}

-- No event is for the thread.
abbrev pub Unheard : (t : ℕ) → List ThreadEvent → Type 0
Unheard t events = All (λ (e : ThreadEvent). (e.thread == t) ≡ false) events

module _ (s : Scheduler) (t : ℕ) (gone : s.threads t ≡ none) (id event_data : ℕ) where
  abbrev Sent : List ThreadEventListener × List ThreadEvent → Type 0
  Sent r = Unheard t r.1

  abbrev to : (u : ℕ) → ThreadEventListener → ThreadEvent
  to u l = record { thread = u; event_id = id; event_data = event_data; handler = l.handler }

  emit_one-Unheard : (l : ThreadEventListener) → Holds Sent (emit_one s id event_data l)
  unfolding emit_one
  emit_one-Unheard l = elim (Bool-cases (bit_and l.enabled_event_ids id == 0)) [
    | inl unasked ↦ rw unasked (Holds-intro Sent (l ∷ [], []) tt)
    | inr asked ↦ elim (Option-cases (lookup l.thread_id s.thread_list)) [
      | inl unlisted ↦ rw (asked, unlisted) (Holds-intro Sent ([], []) tt)
      | inr (u, listed) ↦ elim (Option-cases (s.threads u)) [
        | inl missing ↦ rw (asked, listed, missing) (Holds-fault Sent)
        | inr (thread, there) ↦
            let apart : (u == t) ≡ false = ground arith in
            elim (Bool-cases (is_busy thread.execution_policy)) [
              | inl deaf ↦ rw (asked, listed, there, deaf) (Holds-intro Sent (l ∷ [], []) tt)
              | inr hears ↦
                  rw (asked, listed, there, hears)
                    (Holds-intro Sent (l ∷ [], to u l ∷ []) (apart, tt))
            ]
      ]
    ]
  ]

  emit_loop-Unheard :
      (ls : List ThreadEventListener) (queue : List ThreadEvent)
      → Unheard t queue
      → Holds Sent (emit_loop s id event_data ls queue)
  unfolding emit_loop
  emit_loop-Unheard [] queue free = Holds-intro Sent ([], queue) free
  emit_loop-Unheard (l ∷ ls) queue free =
      Holds-both Sent Sent (emit_one s id event_data l) _ (emit_one-Unheard l) (λ r sent.
        Holds-both Sent Sent (emit_loop s id event_data ls (queue ++ r.1)) _
          (emit_loop-Unheard ls (queue ++ r.1)
            (All-append (λ (e : ThreadEvent). (e.thread == t) ≡ false) queue r.1 free sent))
          (λ r' sent'. Holds-intro Sent (r.0 ++ r'.0, r'.1) sent'))

-- What stays as it is, for a thread `t` that is gone.
pub record Kept (t : ℕ) (s s' : Scheduler) : Type 0 where
  pub threads : s'.threads ≡ s.threads
  pub current : s'.current_thread ≡ s.current_thread
  pub queue : s'.thread_execution_queue ≡ s.thread_execution_queue
  pub list : s'.process_list ≡ s.process_list
  pub events : Unheard t s'.thread_event_queue

pub emit_event-Kept :
    (s : Scheduler) (t q id event_data : ℕ)
    → s.threads t ≡ none
    → Unheard t s.thread_event_queue
    → Holds (Kept t s) (emit_event s q id event_data)
unfolding emit_event
emit_event-Kept s t q id event_data gone free =
    Holds-bind (Kept t s) (load_process s q) _ (λ sender.
      elim (Bool-cases (length sender.hooked_threads == 0)) [
        | inl nobody ↦ rw nobody (
            Holds-intro (Kept t s) s
              (record { threads = refl; current = refl; queue = refl; list = refl; events = free }))
        | inr hooked ↦ rw hooked (
            Holds-both (Sent s t gone id event_data) (Kept t s)
              (emit_loop s id event_data sender.hooked_threads s.thread_event_queue) _
              (emit_loop-Unheard s t gone id event_data sender.hooked_threads s.thread_event_queue
                free)
              (λ r sent. Holds-intro (Kept t s) _ (record {
                threads = refl;
                current = refl;
                queue = refl;
                list = refl;
                events = sent;
              })))
      ])

-- The processes, but the one that emits, are as they were.
pub record Others (q : ℕ) (s s' : Scheduler) : Type 0 where
  pub list : s'.process_list ≡ s.process_list
  pub names : s'.process_name_list ≡ s.process_name_list
  pub processes : (r : ℕ) → (r == q) ≡ false → s'.processes r ≡ s.processes r

pub emit_event-Others :
    (s : Scheduler) (q id event_data : ℕ) → Holds (Others q s) (emit_event s q id event_data)
unfolding emit_event
emit_event-Others s q id event_data = Holds-bind (Others q s) (load_process s q) _ (λ sender.
    elim (Bool-cases (length sender.hooked_threads == 0)) [
      | inl nobody ↦ rw nobody (
          Holds-intro (Others q s) s
            (record { list = refl; names = refl; processes = λ r n. refl }))
      | inr hooked ↦ rw hooked (
          Holds-bind (Others q s)
            (emit_loop s id event_data sender.hooked_threads s.thread_event_queue) _
            (λ r.
              Holds-intro (Others q s) _
                (record { list = refl; names = refl; processes = λ r' n. rw n refl })))
    ])
