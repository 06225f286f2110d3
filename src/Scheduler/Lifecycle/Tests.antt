-- ===== src/Scheduler/Lifecycle/Tests.antt =====
-- Threads that are made and killed, in a scheduler with two threads of one process.
use speedy_os.Common.{
  update, ℕ, ◌+◌, ◌≡◌, ◌≢◌, refl, true, false, [], ◌∷◌, none, some, ◌==◌, if◌then◌else◌, ok, panic,
  fault, arith,
}
use mathlib.Core.List.{Perm}
use speedy_os.Physical.{
  Physical, alloc_physical_page, find_blocks, mark_blocks, wipe_words, page_address,
}
use speedy_os.Paging.{
  address_to_pi, pi_to_address, fetch_page_index, reset_virtual_pages, reset_page, find_free_loop,
  find_free_virtual_pages, write_word,
}
use speedy_os.Paging.Fields.{entry_address}
use speedy_os.Scheduler.State.{Thread, Process, Scheduler, Machine, physical_of, lookup}
use speedy_os.Scheduler.Fixtures.{driver, idle, worker}
use speedy_os.Scheduler.Events.{emit_event}
use speedy_os.Scheduler.Events.Emit.{listens}
use speedy_os.Scheduler.Switch.{Action, handle_context_switch}
use speedy_os.Scheduler.Switch.Select.{Loaded}
use speedy_os.Scheduler.Switch.Total.{scheduled, WellFormed}
use speedy_os.Scheduler.Lifecycle.{without, kill_thread, create_thread, map_stack, stack_word}
use speedy_os.Scheduler.Lifecycle.Kill.{
  killed, kill_thread-handle_context_switch, kill_thread-emit_event,
}
use speedy_os.Scheduler.Lifecycle.Create.{
  last_free, new_thread, created, create_thread-created, create_thread-WellFormed,
  create_thread-panic,
}
use speedy_os.Scheduler.Lifecycle.Stack.{entry_of, map_stack-entry}

abbrev two_workers : Scheduler
two_workers = record idle {
  thread_list = (1, 16) ∷ (2, 32) ∷ [];
  thread_execution_queue = 32 ∷ 16 ∷ [];
  threads = update (update (λ t. none) 16 (some worker)) 32 (some (record worker { id = 2 }));
}

abbrev machine : Machine
machine = record { remaining_countdown = 2; add_float = ◌+◌ }

Loaded-16 : Loaded two_workers 16
Loaded-16 = record { thread = worker; process = driver; thread_there = refl; process_there = refl }

Loaded-32 : Loaded two_workers 32
Loaded-32 = record {
  thread = record worker { id = 2 };
  process = driver;
  thread_there = refl;
  process_there = refl;
}

two_workers-WellFormed : WellFormed two_workers
two_workers-WellFormed = record { current = tt; queue = (Loaded-32, (Loaded-16, tt)); events = tt }

-- The page of the stack has no table, so there is nothing to reset.
nothing_mapped :
    reset_virtual_pages 2 driver.directories
      (address_to_pi worker.virtual_stack)
      true
      (physical_of two_workers)
    ≡ ok (physical_of two_workers)
unfolding reset_virtual_pages reset_page fetch_page_index address_to_pi
nothing_mapped = refl

kill_thread-handle_context_switch_example :
    (s' : Scheduler) × (kill_thread two_workers 16 true ≡ ok s')
    × (s'.threads 16 ≡ none)
    × WellFormed s'
    × ((action : Action) × (s'' : Scheduler) × (handle_context_switch machine s' ≡ ok (action, s''))
        × Perm (scheduled s'') (without 16 (scheduled two_workers)))
kill_thread-handle_context_switch_example =
    kill_thread-handle_context_switch two_workers 16 true worker driver (physical_of two_workers)
      machine two_workers-WellFormed (ground arith) refl refl nothing_mapped

abbrev after_kill : Scheduler
after_kill = killed two_workers 16 true worker driver (physical_of two_workers)

kill_16 : kill_thread two_workers 16 true ≡ ok after_kill
unfolding kill_thread reset_virtual_pages reset_page fetch_page_index address_to_pi
kill_16 = refl

listens-4 :
    listens 4 (record { thread_id = 1; enabled_event_ids = 4; handler = 0x0800_4000 }) ≡ true
unfolding listens
listens-4 = refl

kill_thread-emit_event_example : emit_event after_kill 8 4 97 ≡ fault
unfolding without
kill_thread-emit_event_example =
    kill_thread-emit_event two_workers after_kill 16 true kill_16 8 4 97
      (record driver { threads = []; kernel_blocks = [] }) refl [] []
      (record { thread_id = 1; enabled_event_ids = 4; handler = 0x0800_4000 }) refl listens-4 refl

-- The directories of the process are in the first page, the table of the pages behind the first
-- 100 MB is in the second, and the next two are free.
abbrev owner : Process
owner = record driver { directories = 0x0120_0000; kernel_blocks = true ∷ false ∷ [] }

abbrev roomy : Scheduler
roomy = record idle {
  data_meta = true ∷ true ∷ false ∷ false ∷ [];
  memory = λ a. if a == 0x0120_0064 then 0x0120_1005 else 0;
  processes = update (λ p. none) 8 (some owner);
}

abbrev with_stack : Physical
with_stack = record {
  data_meta = true ∷ true ∷ true ∷ true ∷ [];
  memory = wipe_words 2048 roomy.memory 0x0120_2000;
  reserved_blocks = 1;
}

stack_pages : alloc_physical_page 2 true (physical_of roomy) ≡ ok (0x0120_2000, with_stack)
unfolding alloc_physical_page find_blocks mark_blocks page_address
stack_pages = refl

stack_place : find_free_virtual_pages 9 owner.directories 2 with_stack ≡ ok (25600, with_stack)
unfolding find_free_virtual_pages find_free_loop fetch_page_index pi_to_address wipe_words
stack_place = refl

abbrev map_round : (i : ℕ) → Physical → Physical
map_round i p =
    write_word p 0x0120_1000 (stack_word (p.memory 0x0120_1000) (address_to_pi 0x0120_2000 + i))

abbrev with_map : Physical
with_map = map_round 1 (map_round 0 with_stack)

stack_map : map_stack 2 0 owner.directories 25600 0x0120_2000 with_stack ≡ ok with_map
unfolding map_stack fetch_page_index pi_to_address wipe_words
stack_map = refl

roomy-WellFormed : WellFormed roomy
roomy-WellFormed = record { current = tt; queue = tt; events = tt }

free_block : last_free owner.kernel_blocks 0 none ≡ some 1
unfolding last_free
free_block = refl

abbrev made : Thread
made = new_thread roomy 8 0x0800_0000 1 0x0120_2000 25600 worker

create_thread-WellFormed_example :
    (s' : Scheduler) × (process' : Process) × (create_thread 9 roomy 8 0x0800_0000 77 48 worker
      ≡ ok (4, s'))
    × (lookup 4 s'.thread_list ≡ some 48)
    × (s'.threads 48 ≡ some made)
    × (s'.thread_execution_queue ≡ 48 ∷ [])
    × (s'.processes 8 ≡ some process')
    × (process'.threads ≡ 48 ∷ [])
    × WellFormed s'
create_thread-WellFormed_example =
    create_thread-WellFormed roomy 8 0x0800_0000 77 48 worker owner 9 1 0x0120_2000 25600 with_stack
      with_stack with_map refl free_block stack_pages stack_place stack_map refl refl
      roomy-WellFormed

abbrev after_create : Scheduler
after_create = created roomy 8 48 77 0x0120_2000 owner with_map made

create_48 : create_thread 9 roomy 8 0x0800_0000 77 48 worker ≡ ok (4, after_create)
create_48 =
    create_thread-created roomy 8 0x0800_0000 77 48 worker owner 9 1 0x0120_2000 25600 with_stack
      with_stack with_map refl free_block stack_pages stack_place stack_map refl

create_thread-panic_example : create_thread 9 after_create 8 0x0800_0000 78 64 worker ≡ panic
create_thread-panic_example =
    create_thread-panic 9 roomy 8 0x0800_0000 77 48 worker 4 after_create create_48 9 0x0800_0000 78
      64 worker

map_stack-entry_example :
    (p' : Physical) × (map_stack 2 0 0x0120_0000 25600 0x0120_2000 (physical_of roomy) ≡ ok p')
    × (entry_address (p'.memory (entry_of 0x0120_0000 25600 (physical_of roomy))) ≡ 0x1203)
    × ((a : ℕ) → a ≢ entry_of 0x0120_0000 25600 (physical_of roomy) → p'.memory a ≡ roomy.memory a)
unfolding address_to_pi pi_to_address
map_stack-entry_example =
    map_stack-entry 0x0120_0000 25600 0x0120_2000 (physical_of roomy) refl (omega arith)
      (omega arith)
