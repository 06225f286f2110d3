-- ===== src/Scheduler/Processes/Tests.antt =====
-- Processes that are made and killed.
use speedy_os.Common.{
  ℕ, zero, suc, ◌<◌, ◌≢◌, get_elem?, add32, update, ◌*◌, ◌≡◌, refl, true, false, [], ◌∷◌, ◌++◌,
  none, some, ok, arith,
}
use speedy_os.HashMap.{hash_string_fnv1a}
use speedy_os.Physical.{Physical, free_physical_page, page_index}
use speedy_os.Paging.{address_to_pi, fetch_page_index, reset_virtual_pages, reset_page}
use speedy_os.Scheduler.State.{Process, Scheduler, lookup}
use speedy_os.Scheduler.Fixtures.{driver, idle, worker}
use speedy_os.Scheduler.Events.{emit_event, emit_loop, emit_one}
use speedy_os.Scheduler.Events.Emit.{ListIsValid, deliveries}
use speedy_os.Scheduler.Lifecycle.{without, without_events, kill_thread}
use speedy_os.Scheduler.Processes.{
  ProcessFlags, map_tables, create_process, kill_process, leave_current, kill_threads, free_pages,
  free_directories, remove_key, remove_sinks,
}
use speedy_os.Physical.FirstFit.{AllFree}
use speedy_os.Paging.NewPage.{IsHeld}
use speedy_os.Scheduler.Processes.Table.{Mapped}
use speedy_os.Scheduler.Processes.Tables.{map_tables-Mapped}
use speedy_os.Scheduler.Processes.Kill.{IsDead, kill_process-IsDead}
use speedy_os.Scheduler.Processes.Create.{new_process, create_process-virtual}

abbrev stale : Physical
stale = record { data_meta = []; memory = λ a. 0x0000_0200; reserved_blocks = 0 }

-- The directory in the first page, and two free pages.
abbrev two_free : Physical
two_free = record stale { data_meta = true ∷ false ∷ false ∷ [] }

two_free-AllFree : AllFree two_free.data_meta 1 2
two_free-AllFree zero h = refl
two_free-AllFree (suc zero) h = refl
two_free-AllFree (suc (suc j)) h = absurd (omega arith)

map_tables-Mapped_example :
    (p' : Physical) × (map_tables 2 0 0x0120_0000 false two_free ≡ ok p')
    × ((m : ℕ) → m < 2 → Mapped 0x0120_0000 0 false refl (omega arith) m two_free p')
    × ((b : ℕ)
        → IsHeld two_free b
        → ((m : ℕ) → m < 2 → b ≢ add32 0x0120_0000 (4 * m))
        → p'.memory b ≡ two_free.memory b)
    × ((j : ℕ) → get_elem? two_free.data_meta j ≡ some true → get_elem? p'.data_meta j ≡ some true)
map_tables-Mapped_example =
    map_tables-Mapped 0x0120_0000 0 false refl (omega arith) 2 1 two_free refl two_free-AllFree
      (omega arith) (omega arith)

abbrev watched : Scheduler
watched = record idle { scheduler_event_process = some 8 }

watched-ListIsValid : ListIsValid watched
watched-ListIsValid id t listed = ground arith

abbrev virtual_process : ProcessFlags
virtual_process = record { kernel_process = true; iopl_0 = false; virtual_process = true }

-- A process with the name "K".
create_process-virtual_example :
    (s' : Scheduler) × (create_process 9 watched (75 ∷ []) 0 virtual_process true 24 driver 0 worker
      ≡ ok s')
    × (lookup 2 s'.process_list ≡ some 24)
    × (lookup (hash_string_fnv1a (75 ∷ [])) s'.process_name_list ≡ some 24)
    × (s'.processes 24
        ≡ some (new_process 9 watched (75 ∷ []) 0 virtual_process true 24 driver 0 worker))
    × (s'.thread_event_queue ≡ [] ++ deliveries watched 1 2 driver.hooked_threads)
create_process-virtual_example =
    create_process-virtual 9 watched (75 ∷ []) 0 virtual_process true 24 driver 0 worker 8 driver
      refl refl refl refl refl refl watched-ListIsValid

-- The driver's process, its directories in the first page and its thread at 16.
abbrev doomed : Process
doomed = record driver {
  directories = 0x0120_0000;
  kernel_thread_page = 0x0120_1000;
  threads = 16 ∷ [];
  kernel_blocks = true ∷ [];
}

abbrev running : Scheduler
running = record watched {
  current_thread = some 16;
  threads = update (λ t. none) 16 (some worker);
  processes = update (update (λ p. none) 8 (some doomed)) 24 (some driver);
  scheduler_event_process = some 24;
  data_meta = true ∷ true ∷ [];
}

abbrev after_end : Scheduler
after_end = record running {
  current_thread = none;
  temporary_registers = none;
  process_list = [];
  thread_execution_queue = without 16 [];
  thread_event_queue = without_events 16 [];
  threads = update running.threads 16 none;
  processes =
      update
        (update (update running.processes 8 (some (record doomed { kernel_blocks = false ∷ [] })))
          24 (some driver))
        8 none;
  data_meta = false ∷ false ∷ [];
}

end_8 : kill_process running 8 ≡ ok after_end
unfolding kill_process leave_current kill_threads remove_key remove_sinks kill_thread
    reset_virtual_pages fetch_page_index address_to_pi emit_event emit_loop emit_one free_pages
    free_directories free_physical_page page_index reset_page without_events
end_8 = refl

kill_process-IsDead_example : IsDead 16 after_end × (after_end.processes 8 ≡ none)
kill_process-IsDead_example =
    kill_process-IsDead 16 running after_end 8 doomed worker [] [] refl refl refl refl end_8
