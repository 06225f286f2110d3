-- ===== src/Scheduler/Events/Emit.antt =====
-- Who hears an event, and who stays hooked to a process.
use Prim.Native.Nat.{bit_and}
use mathlib.Core.List.{append_assoc, append-nil}
use speedy_os.Common.{
  update, ℕ, ◌≡◌, refl, sym, ap, ◌∙◌, inl, inr, Bool, true, false, ◌&&◌, not, List, [], ◌∷◌, ◌++◌,
  Option, none, some, ◌==◌, Bool-cases, Option-cases, length, if◌then◌else◌, ok, arith,
}
use speedy_os.Scheduler.State.{Thread, ThreadEventListener, ThreadEvent, Process, Scheduler, lookup}
use speedy_os.Scheduler.Events.{is_busy, emit_one, emit_loop, emit_event}

-- What `thread_list` leads to is there.
abbrev pub ListIsValid : Scheduler → Type 0
ListIsValid s =
    (id t : ℕ) → lookup id s.thread_list ≡ some t → (thread : Thread) × (s.threads t ≡ some thread)

-- The listener has asked for the event.
unfoldable pub listens : ℕ → ThreadEventListener → Bool
listens id l = not (bit_and l.enabled_event_ids id == 0)

abbrev pub is_some {ℓ} : {A : Type ℓ} → Option A → Bool
is_some none = false
is_some (some a) = true

-- A listener stays hooked, unless it has asked for the event and its thread is gone.
pub stays : Scheduler → ℕ → ThreadEventListener → List ThreadEventListener
stays s id l =
    if listens id l && not (is_some (lookup l.thread_id s.thread_list)) then [] else l ∷ []

-- The thread that can take an event for the listener: it is there, and not busy.
pub receiver : Scheduler → ThreadEventListener → Option ℕ
receiver s l = elim (lookup l.thread_id s.thread_list) [
  | none ↦ none
  | some t ↦ elim (s.threads t) [
    | none ↦ none
    | some thread ↦ if is_busy thread.execution_policy then none else some t
  ]
]

-- One event, if the listener has asked for it and its thread can take it.
pub sent : Scheduler → (id event_data : ℕ) → ThreadEventListener → List ThreadEvent
unfolding receiver listens
sent s id event_data l = if not (listens id l) then [] else elim (receiver s l) [
  | none ↦ []
  | some t ↦ record { thread = t; event_id = id; event_data = event_data; handler = l.handler } ∷ []
]

unfoldable pub remaining : Scheduler → ℕ → List ThreadEventListener → List ThreadEventListener
unfolding stays
remaining s id [] = []
remaining s id (l ∷ ls) = stays s id l ++ remaining s id ls

unfoldable pub deliveries :
    Scheduler → (id event_data : ℕ) → List ThreadEventListener → List ThreadEvent
unfolding sent
deliveries s id event_data [] = []
deliveries s id event_data (l ∷ ls) = sent s id event_data l ++ deliveries s id event_data ls

module _ (s : Scheduler) (valid : ListIsValid s) (id event_data : ℕ) where
  emit_one_lem :
      (l : ThreadEventListener)
      → emit_one s id event_data l ≡ ok (stays s id l, sent s id event_data l)
  unfolding emit_one stays sent receiver listens
  emit_one_lem l = elim (Option-cases (lookup l.thread_id s.thread_list)) [
    | inl gone ↦ ground arith
    | inr (t, found) ↦ let (thread, there) = valid l.thread_id t found in ground (arith, there)
  ]

  emit_loop-deliveries :
      (ls : List ThreadEventListener) (queue : List ThreadEvent)
      → emit_loop s id event_data ls queue
        ≡ ok (remaining s id ls, queue ++ deliveries s id event_data ls)
  unfolding emit_loop remaining deliveries
  emit_loop-deliveries [] queue = rw append-nil
  emit_loop-deliveries (l ∷ ls) queue =
      rw (emit_one_lem l, emit_loop-deliveries ls (queue ++ sent s id event_data l), append_assoc)

  -- An event that a process emits goes to each of its listeners that has asked for it and whose
  -- thread is there and not busy, in the order in which they were hooked, behind the events that
  -- wait already; the listeners that have asked for it and whose thread is gone are unhooked, and
  -- no others.
  pub emit_event-deliveries :
      (p : ℕ) (sender : Process)
      → s.processes p ≡ some sender
      → (s' : Scheduler) × (emit_event s p id event_data ≡ ok s')
        × (s'.thread_event_queue
            ≡ s.thread_event_queue ++ deliveries s id event_data sender.hooked_threads)
        × (s'.processes p
            ≡ some (record sender { hooked_threads = remaining s id sender.hooked_threads }))
        × (s'.thread_execution_queue ≡ s.thread_execution_queue)
        × (s'.threads ≡ s.threads)
  unfolding emit_event remaining deliveries
  emit_event-deliveries p sender there = elim (Bool-cases (length sender.hooked_threads == 0)) [
    | inl nobody ↦
        let empty : sender.hooked_threads ≡ [] = ground arith in
        let same : sender.hooked_threads ≡ remaining s id sender.hooked_threads =
          empty ∙ ap (remaining s id) (sym empty) in
        (
          s,
          rw there (simp nobody),
          sym (append-nil s.thread_event_queue)
              ∙ ap (λ ls. s.thread_event_queue ++ deliveries s id event_data ls) (sym empty),
          there ∙ ap (λ ls. some (record sender { hooked_threads = ls })) same,
          refl,
          refl,
        )
    | inr some_hooked ↦
        let hooked = remaining s id sender.hooked_threads in
        (
          record s {
            thread_event_queue =
                s.thread_event_queue ++ deliveries s id event_data sender.hooked_threads;
            processes = update s.processes p (some (record sender { hooked_threads = hooked }));
          },
          rw there
              (simp (some_hooked, emit_loop-deliveries sender.hooked_threads s.thread_event_queue)),
          refl,
          ground arith,
          refl,
          refl,
        )
  ]
