-- ===== src/Scheduler/Processes/Kill.antt =====
-- What `kill_process` leaves: nothing of the process runs or waits any more.
use speedy_os.Common.{
  ℕ, ◌≡◌, ◌≢◌, refl, sym, ap, subst, ◌∙◌, inl, inr, Bool, false, List, [], ◌∷◌, ◌++◌, Option, none,
  some, ◌==◌, Bool-cases, Option-cases, update, ok, ◌>>=◌, from_option, Holds, Holds-bind,
  Holds-intro, Holds-both, Holds-fault, Holds-elim, arith,
}
use speedy_os.HashMap.{hash_string_fnv1a}
use speedy_os.Scheduler.State.{
  Thread, Process, Scheduler, load_process, physical_of, store_physical,
}
use speedy_os.Scheduler.Events.{emit_event}
use speedy_os.Scheduler.Events.Kept.{Unheard, Kept, emit_event-Kept}
use speedy_os.Scheduler.Switch.Select.{All}
use speedy_os.Scheduler.Lifecycle.{kill_thread}
use speedy_os.Scheduler.Lifecycle.Kill.{kill_thread-Holds}
use speedy_os.Scheduler.Lifecycle.Without.{
  All-without, All-without_events, without-out, without_events-out,
}
use speedy_os.Scheduler.Processes.{
  leave_current, kill_threads, remove_key, remove_sinks, free_pages, kill_process,
}

-- The thread is not there, it does not run, and no queue of the scheduler leads to it.
pub record IsDead (t : ℕ) (s : Scheduler) : Type 0 where
  pub gone : s.threads t ≡ none
  pub stopped : s.current_thread ≢ some t
  pub unqueued : All (λ u. (u == t) ≡ false) s.thread_execution_queue
  pub unheard : Unheard t s.thread_event_queue

-- The same, but that it may still be the current thread.
pub record Ending (t : ℕ) (s : Scheduler) : Type 0 where
  pub gone : s.threads t ≡ none
  pub unqueued : All (λ u. (u == t) ≡ false) s.thread_execution_queue
  pub unheard : Unheard t s.thread_event_queue

module _ (t : ℕ) where
  pub kill_thread-Ending :
      (s : Scheduler) (remove : Bool) → Holds (Ending t) (kill_thread s t remove)
  kill_thread-Ending s remove = kill_thread-Holds (Ending t) s t remove (λ thread process p.
      record {
        gone = ground arith;
        unqueued = without-out t s.thread_execution_queue;
        unheard = without_events-out t s.thread_event_queue;
      })

  kill_thread-IsDead :
      (s : Scheduler) (remove : Bool)
      → s.current_thread ≢ some t
      → Holds (IsDead t) (kill_thread s t remove)
  kill_thread-IsDead s remove idle = kill_thread-Holds (IsDead t) s t remove (λ thread process p.
      record {
        gone = ground arith;
        stopped = idle;
        unqueued = without-out t s.thread_execution_queue;
        unheard = without_events-out t s.thread_event_queue;
      })

  IsDead-kill_thread :
      (s : Scheduler) (u : ℕ) (remove : Bool)
      → IsDead t s
      → Holds (IsDead t) (kill_thread s u remove)
  IsDead-kill_thread s u remove d = kill_thread-Holds (IsDead t) s u remove (λ thread process p.
      let gone = d.gone in
      record {
        gone = ground arith;
        stopped = d.stopped;
        unqueued =
            All-without (λ v. (v == t) ≡ false) (λ v. (v == t) ≡ false) u (λ v n a. a)
              s.thread_execution_queue d.unqueued;
        unheard =
            All-without_events (λ v. (v == t) ≡ false) (λ v. (v == t) ≡ false) u (λ v n a. a)
              s.thread_event_queue d.unheard;
      })

  IsDead-kill_threads :
      (ts : List ℕ) (s : Scheduler) → IsDead t s → Holds (IsDead t) (kill_threads s ts)
  unfolding kill_threads
  IsDead-kill_threads [] s d = Holds-intro (IsDead t) s d
  IsDead-kill_threads (u ∷ ts) s d =
      Holds-both (IsDead t) (IsDead t) (kill_thread s u false) _ (IsDead-kill_thread s u false d)
        (λ s' d'. IsDead-kill_threads ts s' d')

  kill_threads-IsDead :
      (before after : List ℕ) (s : Scheduler)
      → s.current_thread ≢ some t
      → Holds (IsDead t) (kill_threads s (before ++ (t ∷ after)))
  unfolding kill_threads
  kill_threads-IsDead [] after s idle =
      Holds-both (IsDead t) (IsDead t) (kill_thread s t false) _ (kill_thread-IsDead s false idle)
        (λ s' d. IsDead-kill_threads after s' d)
  kill_threads-IsDead (u ∷ before) after s idle =
      Holds-both (λ e. e.current_thread ≢ some t) (IsDead t) (kill_thread s u false) _
        (kill_thread-Holds (λ e. e.current_thread ≢ some t) s u false (λ thread process p. idle))
        (λ s' idle'. kill_threads-IsDead before after s' idle')

  abbrev process_of : Option Thread → Option ℕ
  process_of none = none
  process_of (some thread) = some thread.process

  abbrev IsStopped : Scheduler → Scheduler → Type 0
  IsStopped s e = (e.current_thread ≢ some t) × (e.processes ≡ s.processes)

  -- The current thread, if there is one, is none of the process any more.
  leave_current-IsStopped :
      (s : Scheduler) (p : ℕ) (thread : Thread)
      → s.threads t ≡ some thread
      → thread.process ≡ p
      → Holds (IsStopped s) (leave_current s p)
  unfolding leave_current
  leave_current-IsStopped s p thread there owned = elim (Option-cases s.current_thread) [
    | inl nobody ↦
        rw (nobody, leave_current) (Holds-intro (IsStopped s) s (λ e. ground arith, refl))
    | inr (c, running) ↦ elim (Option-cases (s.threads c)) [
      | inl missing ↦ rw (running, missing) (Holds-fault (IsStopped s))
      | inr (other, loaded) ↦ elim (Bool-cases (other.process == p)) [
        | inl same ↦
            rw (running, loaded, same)
              (Holds-intro (IsStopped s)
                (record s { current_thread = none; temporary_registers = none })
                (λ e. ground arith, refl))
        | inr apart ↦
            let other_id : c ≢ t = λ e.
              let one : ◌≡◌ {A = Option ℕ} (some other.process) (some thread.process) =
                sym (ap (λ o. process_of o) loaded)
                ∙ ap (λ u. process_of (s.threads u)) e
                ∙ ap (λ o. process_of o) there in
              ground arith in
            let result : leave_current s p ≡ ok s = ground (arith, running, loaded, apart) in
            subst (Holds (IsStopped s)) (sym result) (
              Holds-intro (IsStopped s) s (
                λ e.
                    (let both : ◌≡◌ {A = Option ℕ} (some c) (some t) = sym running ∙ e in
                      other_id (ground arith)),
                refl,
              ))
      ]
    ]
  ]

  abbrev Ended : ℕ → Scheduler → Type 0
  Ended p e = IsDead t e × (e.processes p ≡ none)

  abbrev unlisted : Scheduler → Process → Scheduler
  unlisted s q = record s {
    process_list = remove_key q.id s.process_list;
    process_name_list = remove_key (hash_string_fnv1a q.name) s.process_name_list;
  }

  abbrev without_sinks : Scheduler → Process → Scheduler
  without_sinks s q = record s { active_sinks = remove_sinks q.steady_sinks s.active_sinks }

  -- The steps after the loop over the threads.
  end-Ended :
      (p : ℕ) (process : Process) (s : Scheduler)
      → IsDead t s
      → Holds (Ended p) (
          from_option s.scheduler_event_process >>= λ q.
          emit_event (without_sinks s process) q 2 process.id >>= λ s3.
          free_pages process (physical_of s3) >>= λ m.
          ok (let s4 = store_physical s3 m in record s4 { processes = update s4.processes p none }))
  end-Ended p process s dead = Holds-bind (Ended p) (from_option s.scheduler_event_process) _ (λ q.
      Holds-both (Kept t (without_sinks s process)) (Ended p)
        (emit_event (without_sinks s process) q 2 process.id) _
        (emit_event-Kept (without_sinks s process) t q 2 process.id dead.gone dead.unheard)
        (λ s3 kept. Holds-bind (Ended p) (free_pages process (physical_of s3)) _ (λ m.
          let s4 = store_physical s3 m in
          Holds-intro (Ended p) (record s4 { processes = update s4.processes p none })
            (
              record {
                gone = ap (λ f. f t) kept.threads ∙ dead.gone;
                stopped = λ e. dead.stopped (sym kept.current ∙ e);
                unqueued = subst (All (λ u. (u == t) ≡ false)) (sym kept.queue) dead.unqueued;
                unheard = kept.events;
              },
              ground arith,
            ))))

  kill_process-Ended :
      (s : Scheduler) (p : ℕ) (process : Process) (thread : Thread) (before after : List ℕ)
      → s.processes p ≡ some process
      → process.threads ≡ before ++ (t ∷ after)
      → s.threads t ≡ some thread
      → thread.process ≡ p
      → Holds (Ended p) (kill_process s p)
  unfolding kill_process
  kill_process-Ended s p process thread before after there listed loaded owned =
      Holds-both (IsStopped s) (Ended p) (leave_current s p) _
        (leave_current-IsStopped s p thread loaded owned)
        (λ s1 stopped.
          let same : s1.processes p ≡ some process = ap (λ f. f p) stopped.1 ∙ there in
          Holds-both (λ q. q ≡ process) (Ended p) (load_process s1 p) _
            (subst (λ o. Holds (λ q. q ≡ process) (from_option o)) (sym same)
              (Holds-intro (λ q. q ≡ process) process refl))
            (λ q e.
              Holds-both (IsDead t) (Ended p) (kill_threads (unlisted s1 q) q.threads) _
                (subst (λ ts. Holds (IsDead t) (kill_threads (unlisted s1 q) ts))
                  (sym (ap (λ (r : Process). r.threads) e ∙ listed))
                  (kill_threads-IsDead before after (unlisted s1 q) stopped.0))
                (λ s2 dead. end-Ended p q s2 dead)))

  -- A process is killed, with its threads: when `kill_process` returns, the process is gone, and a
  -- thread of it, wherever it is in its list, is gone too: it does not run, and neither the execution
  -- queue nor the event queue leads to it, also when the end of the process is announced to others.
  pub kill_process-IsDead :
      (s s' : Scheduler) (p : ℕ) (process : Process) (thread : Thread) (before after : List ℕ)
      → s.processes p ≡ some process
      → process.threads ≡ before ++ (t ∷ after)
      → s.threads t ≡ some thread
      → thread.process ≡ p
      → kill_process s p ≡ ok s'
      → IsDead t s' × (s'.processes p ≡ none)
  kill_process-IsDead s s' p process thread before after there listed loaded owned run =
      Holds-elim (Ended p) run
        (kill_process-Ended s p process thread before after there listed loaded owned)
