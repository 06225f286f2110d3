-- ===== src/Scheduler/Syscalls/Pages/Demand.antt =====
-- Pages that a program reserves get their memory when it first touches them.

use speedy_os.Common.{
  ℕ, ◌+◌, ◌*◌, ◌/◌, ◌%◌, ◌^◌, ◌≡◌, ◌<◌, ◌≤◌, ◌⊎◌, refl, sym, ap, subst, ◌∙◌, inl, inr, true, false,
  ◌==◌, some, get_elem?, ◌-◌, add32, ok, arith,
}
use speedy_os.Physical.{Physical, data_location}
use speedy_os.Physical.FirstFit.{AllFree}
use speedy_os.Paging.{address_to_pi, pi_to_address, directory_slot, preferred_virtual_pages_free}
use speedy_os.Paging.NewPage.{IsHeld}
use speedy_os.Paging.Fault.{fault_entry, is_demanded, Demanded, handle_page_fault-outcome}
use speedy_os.Paging.Fields.{present, entry_address}
use speedy_os.Scheduler.State.{Thread, Process, Scheduler, physical_of, store_physical}
use speedy_os.Scheduler.Syscalls.{resume, set_eax}
use speedy_os.Scheduler.Syscalls.Callers.{caller_lem}
use speedy_os.Scheduler.Syscalls.Pages.Words.{IsReserved}
use speedy_os.Scheduler.Syscalls.Pages.Reserve.{
  reserve_all, allocate_loop-reserve_all, reserve_all-within, data_meta-reserve_all,
}
use speedy_os.Scheduler.Syscalls.Pages.{has_flag, choose_pages, allocate_pages}

-- The entry that a fault at a reserved page reads asks for memory.
reserved-is_demanded :
    (directories directory_entry table_entry : ℕ) (p : Physical)
    → present (p.memory (add32 directories (4 * directory_entry))) ≡ true
    → IsReserved (p.memory (fault_entry directories directory_entry table_entry p))
    → is_demanded directories directory_entry table_entry p ≡ true
reserved-is_demanded directories directory_entry table_entry p there r =
    rw (there, r.absent, r.dynamic) refl

module _ (directories start count flags table : ℕ) (later : has_flag flags 2 ≡ false)
    (on_access : has_flag flags 1 ≡ true) (one_table : start % 1024 + count ≤ 1024)
    (low : start + count ≤ 1048576) (bound : table + 4096 ≤ 2 ^ 32)
    (apart : (directory_slot directories start < table)
      ⊎ (table + 4096 ≤ directory_slot directories start)) where
  abbrev all_reserved : Physical → Physical
  all_reserved p =
      reserve_all directories start count flags table later on_access one_table low bound count 0 p

  -- After the loop, a fault at one of the pages is answered with memory.
  all_reserved-Demanded :
      (p : Physical)
      → present (p.memory (directory_slot directories start)) ≡ true
      → pi_to_address (entry_address (p.memory (directory_slot directories start))) ≡ table
      → (j target : ℕ) → j < count
      → AllFree p.data_meta target 1
      → target < 1043967
      → IsHeld p (table + 4 * (start % 1024 + j))
      → (page : ℕ) × (p' : Physical) × Demanded directories
          ((start + j) / 1024)
          ((start + j) % 1024)
          (all_reserved p)
          page
          p'
  all_reserved-Demanded p there at_table j target inside fit small held =
      let q = all_reserved p in
      let (_, (there', at_table')) =
        allocate_loop-reserve_all directories start count flags table later on_access one_table low
          bound apart count 0 p (omega arith) (there, at_table) in
      let group : (start + j) / 1024 ≡ start / 1024 = omega arith in
      let same : add32 directories (4 * ((start + j) / 1024)) ≡ directory_slot directories start =
        ap (λ n. add32 directories (4 * n)) group in
      let exact : add32 table (4 * ((start + j) % 1024)) ≡ table + 4 * (start % 1024 + j) =
        omega arith in
      let read : fault_entry directories ((start + j) / 1024) ((start + j) % 1024) q
          ≡ table + 4 * (start % 1024 + j) =
        ap (λ a. add32 (pi_to_address (entry_address (q.memory a))) (4 * ((start + j) % 1024))) same
        ∙ ap (λ b. add32 b (4 * ((start + j) % 1024))) at_table'
        ∙ exact in
      let is_reserved =
        reserve_all-within directories start count flags table later on_access one_table low bound
          count 0 j p (omega arith) (omega arith) in
      let meta =
        data_meta-reserve_all directories start count flags table later on_access one_table low
          bound count 0 p in
      let asked : is_demanded directories ((start + j) / 1024) ((start + j) % 1024) q ≡ true =
        reserved-is_demanded directories ((start + j) / 1024) ((start + j) % 1024) q
          (ap (λ a. present (q.memory a)) same ∙ there')
          (subst (λ a. IsReserved (q.memory a)) (sym read) is_reserved) in
      let held' : IsHeld q (fault_entry directories ((start + j) / 1024) ((start + j) % 1024) q) =
        subst (IsHeld q) (sym read) (
          subst
            (λ m.
              (table + 4 * (start % 1024 + j) < data_location)
              ⊎ (get_elem? m ((table + 4 * (start % 1024 + j) - data_location) / 4096) ≡ some true))
            (sym meta) held) in
      elim (handle_page_fault-outcome directories ((start + j) / 1024) ((start + j) % 1024) q target
        (subst (λ m. AllFree m target 1) (sym meta) fit) small held') [
          | inl (_, page, p', d) ↦ (page, p', d)
          | inr (refused, _) ↦ absurd cc
        ]

pi_to_address-aligned :
    (address : ℕ) → address < 2 ^ 32 → address % 4096 ≡ 0 → pi_to_address (address / 4096) ≡ address
unfolding pi_to_address
pi_to_address-aligned address small aligned = omega arith

-- System call 21 from the thread `t` with ALLOCATE_ON_ACCESS alone, for some pages at an address that
-- is page-aligned and whose pages are free and share a page table that is there: it returns the
-- address, and when the thread first touches one of the pages while a physical page is free, the
-- page fault handler goes on with that page's entry mapping a physical page that
-- was free, that is cleared and marked as taken, no other mark being changed.
pub allocate_pages-Demanded :
    (fuel : ℕ) (s : Scheduler) (t : ℕ) (thread : Thread) (process : Process)
    (address count flags table : ℕ)
    → s.current_thread ≡ some t
    → s.threads t ≡ some thread
    → s.processes thread.process ≡ some process
    → 0 < address
    → address < 2 ^ 32
    → address % 4096 ≡ 0
    → 0 < count
    → (later : has_flag flags 2 ≡ false) → (on_access : has_flag flags 1 ≡ true)
    → (one_table : address / 4096 % 1024 + count ≤ 1024) → (bound : table + 4096 ≤ 2 ^ 32)
    → (apart : (directory_slot process.directories (address / 4096) < table)
        ⊎ (table + 4096 ≤ directory_slot process.directories (address / 4096)))
    → present (s.memory (directory_slot process.directories (address / 4096))) ≡ true
    → pi_to_address (entry_address (s.memory (directory_slot process.directories (address / 4096))))
      ≡ table
    → preferred_virtual_pages_free process.directories (address / 4096) count (physical_of s)
      ≡ ok true
    → (s' : Scheduler) × (allocate_pages fuel s address count flags ≡ ok (resume, s'))
      × (s'.threads t
          ≡ some (record thread { registers = record (thread.registers) { eax = address } }))
      × ((j target : ℕ)
          → j < count
          → AllFree s.data_meta target 1
          → target < 1043967
          → IsHeld (physical_of s) (table + 4 * (address / 4096 % 1024 + j))
          → (page : ℕ) × (p' : Physical) × Demanded process.directories
              ((address / 4096 + j) / 1024)
              ((address / 4096 + j) % 1024)
              (physical_of s')
              page
              p')
unfolding allocate_pages choose_pages address_to_pi
allocate_pages-Demanded fuel s t thread process address count flags table current loaded owner pos
      small aligned some_pages later on_access one_table bound apart there at_table free =
    let start = address / 4096 in
    let low : address / 4096 + count ≤ 1048576 = omega arith in
    let q =
      reserve_all process.directories (address / 4096) count flags table later on_access one_table
        low bound count 0 (physical_of s) in
    let (loop, _) =
      allocate_loop-reserve_all process.directories (address / 4096) count flags table later
        on_access one_table low bound apart count 0 (physical_of s) (omega arith)
        (there, at_table) in
    let asked : (address == 0) ≡ false = ground arith in
    let even : (address % 4096 == 0) ≡ true = ground arith in
    let chosen : choose_pages fuel process.directories address count (physical_of s)
        ≡ ok (some (address / 4096), physical_of s) =
      rw (asked, choose_pages) (rw even (rw free refl)) in
    let more : (count == 0) ≡ false = ground arith in
    let back : pi_to_address (address / 4096) ≡ address =
      pi_to_address-aligned address small aligned in
    (
      set_eax (store_physical s q) (record { address = t; thread = thread; process = process })
          address,
      rw (caller_lem s t thread process current loaded owner)
          (rw (more, chosen) (rw loop (rw back refl))),
      ground arith,
      λ j target inside fit near held.
          all_reserved-Demanded process.directories (address / 4096) count flags table later
            on_access one_table low bound apart (physical_of s) there at_table j target inside fit
            near held,
    )
