-- ===== src/Scheduler/Events.antt =====
-- kernel/src/cpp/scheduling/events.cpp: events for the threads that listen to a process.
pub mod Emit
pub mod Stale
pub mod Kept
use Prim.Native.Nat.{bit_and}
use speedy_os.Common.{
  ℕ, Bool, true, false, List, [], ◌∷◌, ◌++◌, none, some, ◌==◌, if◌then◌else◌, length, Run, ok,
  ◌>>=◌,
}
use speedy_os.Scheduler.State.{
  ThreadExecutionPolicy, busy, ThreadEventListener, ThreadEvent, Scheduler, load_thread,
  load_process, store_process, lookup,
}

abbrev pub is_busy : ThreadExecutionPolicy → Bool
is_busy busy = true
is_busy _ = false

-- One round of the loop over the listeners: the listener, if it stays hooked, and the event that it
-- is sent, if any.
unfoldable pub emit_one :
    Scheduler
    → (id event_data : ℕ) → ThreadEventListener
    → Run (List ThreadEventListener × List ThreadEvent)
emit_one s id event_data listener =
    if bit_and listener.enabled_event_ids id == 0
    then ok (listener ∷ [], [])
    else elim (lookup listener.thread_id s.thread_list) [
      | none ↦ ok ([], [])
      | some t ↦ load_thread s t >>= λ thread. ok (
        listener ∷ [],
        if is_busy thread.execution_policy
            then []
            else record {
              thread = t;
              event_id = id;
              event_data = event_data;
              handler = listener.handler;
            }
              ∷ [],
      )
    ]

-- The loop over the listeners that are left: it returns those that stay hooked, and the queue.
unfoldable pub emit_loop :
    Scheduler
    → (id event_data : ℕ) → List ThreadEventListener
    → List ThreadEvent
    → Run (List ThreadEventListener × List ThreadEvent)
unfolding emit_one
emit_loop s id event_data [] queue = ok ([], queue)
emit_loop s id event_data (listener ∷ rest) queue = do
  (kept, sent) ← emit_one s id event_data listener
  (hooked, queue') ← emit_loop s id event_data rest (queue ++ sent)
  ok (kept ++ hooked, queue')

unfoldable pub emit_event : Scheduler → (sender_process : ℕ) → (id event_data : ℕ) → Run Scheduler
unfolding emit_loop
emit_event s sender_process id event_data = do
  sender ← load_process s sender_process
  if length sender.hooked_threads == 0 then ok s else do
    (hooked, queue) ← emit_loop s id event_data sender.hooked_threads s.thread_event_queue
    let s' = store_process s sender_process (record sender { hooked_threads = hooked })
    ok (record s' { thread_event_queue = queue })
