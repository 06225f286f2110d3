-- ===== src/Scheduler/Processes/Create.antt =====
-- What `create_process` leaves, for a process without threads of its own.
use speedy_os.Common.{
  ℕ, ◌≡◌, refl, ap, ◌∙◌, Bool, true, false, List, [], ◌∷◌, ◌++◌, none, some, ◌==◌, update, add32,
  ok, Holds-elim, arith,
}
use speedy_os.HashMap.{hash_string_fnv1a}
use speedy_os.Scheduler.State.{Thread, ThreadEventListener, Process, Scheduler, lookup}
use speedy_os.Scheduler.Events.{emit_event}
use speedy_os.Scheduler.Events.Emit.{ListIsValid, sent, deliveries, emit_event-deliveries}
use speedy_os.Scheduler.Events.Kept.{Others, emit_event-Others}
use speedy_os.Scheduler.Lifecycle.{set_entry}
use speedy_os.Scheduler.Processes.{ProcessFlags, register_process, announce, create_process}

module _ (fuel : ℕ) (s : Scheduler) (name : List ℕ) (entry : ℕ) (flags : ProcessFlags)
    (schedule_immediately : Bool) (p : ℕ) (raw : Process) (t : ℕ) (raw_thread : Thread) where
  abbrev pub new_process : Process
  new_process = record raw {
    id = s.next_process_id;
    name = name;
    threads = [];
    hooked_threads = [];
    steady_sinks = [];
  }

  abbrev pub registered : Scheduler
  registered = record s {
    processes = update s.processes p (some new_process);
    next_process_id = add32 s.next_process_id 1;
    process_list = (s.next_process_id, p) ∷ s.process_list;
    process_name_list = (hash_string_fnv1a name, p) ∷ s.process_name_list;
  }

  register_process-registered :
      lookup s.next_process_id s.process_list ≡ none
      → lookup (hash_string_fnv1a name) s.process_name_list ≡ none
      → register_process s name p raw ≡ ok (new_process, registered)
  unfolding register_process set_entry
  register_process-registered unused fresh = rw (unused, set_entry) (rw (fresh, set_entry) refl)

  registered-ListIsValid : ListIsValid s → ListIsValid registered
  registered-ListIsValid valid id u listed = valid id u listed

  deliveries-registered :
      (id event_data : ℕ) (ls : List ThreadEventListener)
      → deliveries registered id event_data ls ≡ deliveries s id event_data ls
  unfolding deliveries
  deliveries-registered id event_data [] = refl
  deliveries-registered id event_data (l ∷ ls) =
      ap (λ es. sent s id event_data l ++ es) (deliveries-registered id event_data ls)

  create_process-announce :
      flags.virtual_process ≡ true
      → lookup s.next_process_id s.process_list ≡ none
      → lookup (hash_string_fnv1a name) s.process_name_list ≡ none
      → create_process fuel s name entry flags schedule_immediately p raw t raw_thread
        ≡ announce registered 1 s.next_process_id
  unfolding create_process
  create_process-announce symbolic unused fresh =
      rw (register_process-registered unused fresh) (rw symbolic refl)

  -- `create_process` of a virtual process, when its identifier and the hash of its name are unused
  -- and what `thread_list` leads to is there: the process is known under both, starts without
  -- threads, listeners and sinks, and the threads that listen to the scheduler's process are sent the
  -- event 1 with its identifier.
  pub create_process-virtual :
      (q : ℕ) (listened : Process)
      → flags.virtual_process ≡ true
      → lookup s.next_process_id s.process_list ≡ none
      → lookup (hash_string_fnv1a name) s.process_name_list ≡ none
      → s.scheduler_event_process ≡ some q
      → s.processes q ≡ some listened
      → (p == q) ≡ false
      → ListIsValid s
      → (s' : Scheduler) × (create_process fuel s name entry flags schedule_immediately p raw t
            raw_thread
          ≡ ok s')
        × (lookup s.next_process_id s'.process_list ≡ some p)
        × (lookup (hash_string_fnv1a name) s'.process_name_list ≡ some p)
        × (s'.processes p ≡ some new_process)
        × (s'.thread_event_queue
            ≡ s.thread_event_queue ++ deliveries s 1 s.next_process_id listened.hooked_threads)
  unfolding announce
  create_process-virtual q listened symbolic unused fresh watched there apart valid =
      let there' : registered.processes q ≡ some listened = ground arith in
      let (s', emitted, queue, _, _, _) =
        emit_event-deliveries registered (registered-ListIsValid valid) 1 s.next_process_id q
          listened there' in
      let others =
        Holds-elim (Others q registered) emitted
          (emit_event-Others registered q 1 s.next_process_id) in
      let here : registered.processes p ≡ some new_process = ground arith in
      let known : lookup s.next_process_id registered.process_list ≡ some p = ground arith in
      let named : lookup (hash_string_fnv1a name) registered.process_name_list ≡ some p =
        ground arith in
      (
        s',
        create_process-announce symbolic unused fresh
            ∙ ap
                (λ o. elim o [
                  | none ↦ ok registered
                  | some q' ↦ emit_event registered q' 1 s.next_process_id
                ])
                watched
            ∙ emitted,
        ap (lookup s.next_process_id) others.list ∙ known,
        ap (lookup (hash_string_fnv1a name)) others.names ∙ named,
        others.processes p apart ∙ here,
        queue
            ∙ ap (λ es. s.thread_event_queue ++ es)
                (deliveries-registered 1 s.next_process_id listened.hooked_threads),
      )
