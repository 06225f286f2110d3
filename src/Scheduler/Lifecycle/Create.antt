-- ===== src/Scheduler/Lifecycle/Create.antt =====
-- What `create_thread` leaves: a thread that is scheduled, in a process whose blocks are all taken.
use speedy_os.Common.{
  ℕ, zero, suc, ◌+◌, ◌≡◌, refl, inl, inr, Bool, true, false, List, [], ◌∷◌, ◌++◌, Option, none,
  some, ◌==◌, Bool-cases, if◌then◌else◌, length, replicate, add32, sub32, ok, panic, Holds,
  Holds-bind, Holds-intro, Holds-panic, Holds-elim, arith,
}
use speedy_os.Physical.{Physical, alloc_physical_page}
use speedy_os.Paging.{pi_to_address, find_free_virtual_pages, write_word}
use speedy_os.Scheduler.State.{
  Thread, Process, Scheduler, load_process, physical_of, store_physical, store_process,
  store_thread, lookup,
}
use speedy_os.Scheduler.Switch.Select.{Loaded}
use speedy_os.Scheduler.Switch.Total.{
  current_list, WellFormed, All-append, All-transfer, All-transfer_events,
}
use speedy_os.Scheduler.Lifecycle.{
  cleared, take_blocks, virtual_registers_of, map_stack, set_entry, start_thread, create_thread,
}

-- The place of the last block that is free, counted from `i`.
unfoldable pub last_free : List Bool → (i : ℕ) → Option ℕ → Option ℕ
last_free [] i found = found
last_free (allocated ∷ blocks) i found =
    last_free blocks (i + 1) (if allocated then found else some i)

take_blocks-last_free :
    (blocks : List Bool) (i : ℕ) (found : Option ℕ)
    → take_blocks blocks i found ≡ (last_free blocks i found, replicate (length blocks) true)
unfolding take_blocks last_free
take_blocks-last_free [] i found = refl
take_blocks-last_free (allocated ∷ blocks) i found =
    rw (take_blocks-last_free blocks (i + 1) (if allocated then found else some i))

last_free-replicate : (n i : ℕ) → last_free (replicate n true) i none ≡ none
unfolding last_free
last_free-replicate zero i = refl
last_free-replicate (suc n) i = last_free-replicate n (i + 1)

-- A new thread, as `create_thread` writes it.
abbrev pub new_thread : Scheduler → (process_address entry index stack page : ℕ) → Thread → Thread
new_thread s process_address entry index stack page raw = record raw {
  id = s.next_thread_id;
  process = process_address;
  kernel_block = index;
  virtual_registers = virtual_registers_of index;
  physical_stack = stack;
  virtual_stack = pi_to_address page;
  registers = record cleared {
    eip = entry;
    fpu_state = s.fpu_boot_state;
    esp = sub32 (sub32 (add32 (pi_to_address page) 8192) 4) 8;
    eflags = 0x3202;
  };
}

-- The scheduler after `create_thread`.
abbrev pub created :
    Scheduler → (process_address t capture stack : ℕ) → Process → Physical → Thread → Scheduler
created s process_address t capture stack process p thread =
    let process' = record process {
      kernel_blocks = replicate (length process.kernel_blocks) true;
      threads = process.threads ++ (t ∷ []);
    } in
    let s' =
      store_process (store_physical s (write_word p (add32 stack 8188) capture)) process_address
        process' in
    record (store_thread s' t thread) {
      next_thread_id = add32 s.next_thread_id 1;
      thread_list = (s.next_thread_id, t) ∷ s.thread_list;
      thread_execution_queue = s.thread_execution_queue ++ (t ∷ []);
    }

module _ (s : Scheduler) (process_address entry capture t : ℕ) (raw : Thread) (process : Process)
    (fuel index stack page : ℕ) (p1 p2 p3 : Physical) where
  abbrev pub thread : Thread
  thread = new_thread s process_address entry index stack page raw

  abbrev pub end : Scheduler
  end = created s process_address t capture stack process p3 thread

  module _ (owner : s.processes process_address ≡ some process)
      (block : last_free process.kernel_blocks 0 none ≡ some index)
      (pages : alloc_physical_page 2 true (physical_of s) ≡ ok (stack, p1))
      (place : find_free_virtual_pages fuel process.directories 2 p1 ≡ ok (page, p2))
      (mapped : map_stack 2 0 process.directories page stack p2 ≡ ok p3)
      (unused : lookup s.next_thread_id s.thread_list ≡ none) where
    start_thread-created :
        (blocks : List Bool)
        → blocks ≡ replicate (length process.kernel_blocks) true
        → start_thread fuel s process_address entry capture t raw process (some index) blocks
          ≡ ok (s.next_thread_id, end)
    unfolding start_thread set_entry
    start_thread-created blocks e = rw pages (rw place (rw mapped (rw (unused, set_entry) (rw e))))

    pub create_thread-created :
        create_thread fuel s process_address entry capture t raw ≡ ok (s.next_thread_id, end)
    unfolding create_thread
    create_thread-created =
        rw (owner, take_blocks-last_free process.kernel_blocks 0 none, block)
          (start_thread-created (replicate (length process.kernel_blocks) true) refl)

    Loaded-created : s.threads t ≡ none → (u : ℕ) → Loaded s u → Loaded end u
    Loaded-created fresh u l =
        let there = l.thread_there in
        let other : (u == t) ≡ false = ground arith in
        elim (Bool-cases (l.thread.process == process_address)) [
          | inl same ↦ record {
            thread = l.thread;
            process = record process {
              kernel_blocks = replicate (length process.kernel_blocks) true;
              threads = process.threads ++ (t ∷ []);
            };
            thread_there = rw other there;
            process_there = rw same;
          }
          | inr different ↦ record {
            thread = l.thread;
            process = l.process;
            thread_there = rw other there;
            process_there = rw different l.process_there;
          }
        ]

    new-Loaded : Loaded end t
    new-Loaded = record {
      thread = thread;
      process = record process {
        kernel_blocks = replicate (length process.kernel_blocks) true;
        threads = process.threads ++ (t ∷ []);
      };
      thread_there = ground arith;
      process_there = ground arith;
    }

    WellFormed-created : s.threads t ≡ none → WellFormed s → WellFormed end
    WellFormed-created fresh wf =
        let kept = Loaded-created fresh in
        record {
          current = All-transfer kept (current_list s.current_thread) wf.current;
          queue =
              All-append (Loaded end) s.thread_execution_queue (t ∷ [])
                (All-transfer kept s.thread_execution_queue wf.queue) (new-Loaded, tt);
          events = All-transfer_events kept s.thread_event_queue wf.events;
        }

    -- `create_thread`, when the process has a free block, the pages of the stack are found and mapped,
    -- the next identifier is unused, and `new` answers an address without a thread: it returns that
    -- identifier, under which `thread_list` then leads to the thread; the thread is `new_thread` at that
    -- entry and block, the last of the execution queue and of its process; and everything that the
    -- scheduler refers to is there, if it was before.
    pub create_thread-WellFormed :
        s.threads t ≡ none
        → WellFormed s
        → (s' : Scheduler) × (process' : Process) × (create_thread fuel s process_address entry
              capture t raw
            ≡ ok (s.next_thread_id, s'))
          × (lookup s.next_thread_id s'.thread_list ≡ some t)
          × (s'.threads t ≡ some thread)
          × (s'.thread_execution_queue ≡ s.thread_execution_queue ++ (t ∷ []))
          × (s'.processes process_address ≡ some process')
          × (process'.threads ≡ process.threads ++ (t ∷ []))
          × WellFormed s'
    unfolding new-Loaded
    create_thread-WellFormed fresh wf = (
      end,
      new-Loaded.process,
      create_thread-created,
      ground arith,
      ground arith,
      refl,
      ground arith,
      refl,
      WellFormed-created fresh wf,
    )

-- The blocks of the process are all taken.
abbrev pub IsFull : (process_address : ℕ) → ℕ × Scheduler → Type 0
IsFull process_address (id, s) =
    (process : Process) × (n : ℕ) × (s.processes process_address ≡ some process)
    × (process.kernel_blocks ≡ replicate n true)

module _ (fuel : ℕ) (s : Scheduler) (process_address entry capture t : ℕ) (raw : Thread) where
  start_thread-IsFull :
      (block : Option ℕ) (n : ℕ) (process : Process)
      → Holds
          (IsFull process_address)
          (start_thread fuel s process_address entry capture t raw process block (replicate n true))
  unfolding start_thread
  start_thread-IsFull none n process = Holds-panic (IsFull process_address)
  start_thread-IsFull (some index) n process =
      Holds-bind (IsFull process_address) (alloc_physical_page 2 true (physical_of s)) _
        (λ (stack, p1).
          Holds-bind (IsFull process_address)
            (find_free_virtual_pages fuel process.directories 2 p1) _
            (λ (page, p2).
              Holds-bind (IsFull process_address) (map_stack 2 0 process.directories page stack p2)
                _
                (λ p3.
                  Holds-bind (IsFull process_address) (set_entry s.next_thread_id t s.thread_list) _
                    (λ list. Holds-intro (IsFull process_address) _ (
                      record process {
                        kernel_blocks = replicate n true;
                        threads = process.threads ++ (t ∷ []);
                      },
                      n,
                      ground arith,
                      refl,
                    )))))

  create_thread-IsFull :
      Holds (IsFull process_address) (create_thread fuel s process_address entry capture t raw)
  unfolding create_thread
  create_thread-IsFull =
      Holds-bind (IsFull process_address) (load_process s process_address) _ (λ process.
        rw (take_blocks-last_free process.kernel_blocks 0 none) (
          start_thread-IsFull (last_free process.kernel_blocks 0 none)
            (length process.kernel_blocks) process))

-- The loop over the blocks does not stop at the first free one: after a call of `create_thread` that
-- returns, the next one for the same process panics, whatever its other arguments are.
pub create_thread-panic :
    (fuel : ℕ) (s : Scheduler) (process_address entry capture t : ℕ) (raw : Thread) (id : ℕ)
    (s' : Scheduler)
    → create_thread fuel s process_address entry capture t raw ≡ ok (id, s')
    → (fuel' entry' capture' t' : ℕ) (raw' : Thread)
    → create_thread fuel' s' process_address entry' capture' t' raw' ≡ panic
unfolding create_thread start_thread
create_thread-panic fuel s process_address entry capture t raw id s' run fuel' entry' capture' t'
      raw' =
    let (process, n, there, full) =
      Holds-elim (IsFull process_address) run
        (create_thread-IsFull fuel s process_address entry capture t raw) in
    rw (there, take_blocks-last_free process.kernel_blocks 0 none, full, last_free-replicate n 0)
