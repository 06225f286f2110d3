-- ===== src/Scheduler/Syscalls/Tests.antt =====
-- System calls on pages and threads.

use speedy_os.Common.{
  update, ℕ, ◌+◌, ◌*◌, ◌/◌, ◌%◌, ◌<◌, ◌≡◌, refl, inl, true, false, [], ◌∷◌, none, some, ◌==◌,
  if◌then◌else◌, ok, arith,
}
use speedy_os.Physical.FirstFit.{AllFree}
use speedy_os.Paging.{
  address_to_pi, pi_to_address, fetch_page_index, reset_virtual_pages, reset_page,
  preferred_virtual_pages_free, pages_free_loop, is_used,
}
use speedy_os.Paging.NewPage.{IsHeld}
use speedy_os.Paging.Fault.{Demanded}
use speedy_os.Scheduler.State.{Process, Scheduler, physical_of}
use speedy_os.Scheduler.Fixtures.{driver, idle, worker}
use speedy_os.Scheduler.Lifecycle.{cleared, kill_thread, without, without_events}
use speedy_os.Scheduler.Syscalls.{resume, halt, caller}
use speedy_os.Scheduler.Syscalls.Pages.{allocate_pages}
use speedy_os.Scheduler.Syscalls.Pages.Demand.{allocate_pages-Demanded}
use speedy_os.Scheduler.Syscalls.Lifecycle.{end_thread}

-- The directories are in the first page, the table of the pages behind the first 100 MB is in the
-- second, and the third page is free.
abbrev owner : Process
owner = record driver { directories = 0x0120_0000; threads = 16 ∷ [] }

abbrev asking : Scheduler
asking = record idle {
  current_thread = some 16;
  threads = update (λ t. none) 16 (some worker);
  processes = update (λ p. none) 8 (some owner);
  data_meta = true ∷ true ∷ false ∷ [];
  memory = λ a. if a == 0x0120_0064 then 0x0120_1005 else 0;
}

two_free :
    preferred_virtual_pages_free 0x0120_0000 (0x0640_5000 / 4096) 2 (physical_of asking) ≡ ok true
unfolding preferred_virtual_pages_free pages_free_loop is_used fetch_page_index pi_to_address
two_free = refl

at_table : pi_to_address 0x1201 ≡ 0x0120_1000
unfolding pi_to_address
at_table = refl

allocate_pages-Demanded_example :
    (s' : Scheduler) × (allocate_pages 9 asking 0x0640_5000 2 1 ≡ ok (resume, s'))
    × (s'.threads 16 ≡ some (record worker { registers = record cleared { eax = 0x0640_5000 } }))
    × ((j target : ℕ)
        → j < 2
        → AllFree asking.data_meta target 1
        → target < 1043967
        → IsHeld (physical_of asking) (0x0120_1000 + 4 * (25605 % 1024 + j))
        → (page : ℕ) × (p' : _) × Demanded 0x0120_0000
            ((25605 + j) / 1024)
            ((25605 + j) % 1024)
            (physical_of s')
            page
            p')
allocate_pages-Demanded_example =
    allocate_pages-Demanded 9 asking 16 worker owner 0x0640_5000 2 1 0x0120_1000 refl refl refl
      (omega arith) (omega arith) refl (omega arith) refl refl (omega arith) (omega arith)
      (inl (omega arith)) refl at_table two_free

abbrev after_exit : Scheduler
after_exit = record asking {
  current_thread = none;
  temporary_registers = none;
  thread_execution_queue = without 16 [];
  thread_event_queue = without_events 16 [];
  threads = update asking.threads 16 none;
  processes = update asking.processes 8 (some (record owner { threads = without 16 (16 ∷ []) }));
  data_meta = asking.data_meta;
}

exit_16 :
    end_thread (record asking { memory = λ a. 0 }) 0
    ≡ ok (halt, record after_exit { memory = λ a. 0 })
unfolding end_thread caller kill_thread reset_virtual_pages reset_page fetch_page_index
    address_to_pi
exit_16 = refl
