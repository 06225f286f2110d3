-- ===== src/Scheduler/Events/Stale.antt =====
-- An event for a listener whose thread is gone while `thread_list` still has it.
use Prim.Native.Nat.{bit_and}
use speedy_os.Common.{
  ℕ, ◌≡◌, ◌⊎◌, inl, inr, true, false, List, [], ◌∷◌, ◌++◌, none, some, ◌==◌, Bool-cases,
  Option-cases, length, if◌then◌else◌, ok, fault, arith,
}
use speedy_os.Scheduler.State.{ThreadEventListener, ThreadEvent, Process, Scheduler, lookup}
use speedy_os.Scheduler.Events.{is_busy, emit_one, emit_loop, emit_event}
use speedy_os.Scheduler.Events.Emit.{listens}

-- A listener whose identifier leads to no thread.
pub record Stale (s : Scheduler) (id : ℕ) (listener : ThreadEventListener) : Type 0 where
  pub thread : ℕ
  pub asked : listens id listener ≡ true
  pub listed : lookup listener.thread_id s.thread_list ≡ some thread
  pub gone : s.threads thread ≡ none

module _ (s : Scheduler) (id event_data : ℕ) where
  emit_one-Stale : (l : ThreadEventListener) → Stale s id l → emit_one s id event_data l ≡ fault
  unfolding emit_one listens
  emit_one-Stale l h =
      let asked = h.asked in let listed = h.listed in let gone = h.gone in ground arith

  emit_one-ends :
      (l : ThreadEventListener)
      → (emit_one s id event_data l ≡ fault)
        ⊎ ((r : List ThreadEventListener × List ThreadEvent) × (emit_one s id event_data l ≡ ok r))
  unfolding emit_one
  emit_one-ends l = elim (Bool-cases (bit_and l.enabled_event_ids id == 0)) [
    | inl unasked ↦ inr ((l ∷ [], []), rw unasked)
    | inr asked ↦ elim (Option-cases (lookup l.thread_id s.thread_list)) [
      | inl unlisted ↦ inr (([], []), rw (asked, unlisted))
      | inr (t, listed) ↦ elim (Option-cases (s.threads t)) [
        | inl gone ↦ inl (rw (asked, listed, gone))
        | inr (thread, there) ↦ inr (
          (
            l ∷ [],
            if is_busy thread.execution_policy
                then []
                else record {
                  thread = t;
                  event_id = id;
                  event_data = event_data;
                  handler = l.handler;
                }
                  ∷ [],
          ),
          rw (asked, listed, there),
        )
      ]
    ]
  ]

  emit_loop-Stale :
      (earlier rest : List ThreadEventListener) (l : ThreadEventListener) (queue : List ThreadEvent)
      → Stale s id l
      → emit_loop s id event_data (earlier ++ (l ∷ rest)) queue ≡ fault
  unfolding emit_loop
  emit_loop-Stale [] rest l queue h = rw (emit_one-Stale l h)
  emit_loop-Stale (e ∷ earlier) rest l queue h = elim (emit_one-ends e) [
    | inl fails ↦ rw fails
    | inr ((kept, sent), runs) ↦ rw (runs, emit_loop-Stale earlier rest l (queue ++ sent) h)
  ]

length-inner :
    (earlier rest : List ThreadEventListener) (l : ThreadEventListener)
    → (length (earlier ++ (l ∷ rest)) == 0) ≡ false
length-inner [] rest l = ground arith
length-inner (e ∷ earlier) rest l = ground arith

pub emit_event-Stale :
    (s : Scheduler) (id event_data q : ℕ) (sender : Process)
    (earlier rest : List ThreadEventListener) (l : ThreadEventListener)
    → s.processes q ≡ some sender
    → sender.hooked_threads ≡ earlier ++ (l ∷ rest)
    → Stale s id l
    → emit_event s q id event_data ≡ fault
unfolding emit_event
emit_event-Stale s id event_data q sender earlier rest l there hooked h = rw (
  there,
  hooked,
  length-inner earlier rest l,
  emit_loop-Stale s id event_data earlier rest l s.thread_event_queue h,
)
