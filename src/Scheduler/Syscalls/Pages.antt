-- ===== src/Scheduler/Syscalls/Pages.antt =====
-- The system call 21 of kernel/src/cpp/scheduling/syscalls.cpp, which allocates pages.
pub mod Words
pub mod Reserve
pub mod Demand
use Prim.Native.Nat.{bit_and}
use speedy_os.Common.{
  ℕ, zero, suc, ◌+◌, ◌%◌, Bool, true, false, not, Option, none, some, ◌==◌, if◌then◌else◌, add32,
  Run, ok, fault, ◌>>=◌,
}
use speedy_os.Physical.{Physical, alloc_physical_page}
use speedy_os.Paging.{
  address_to_pi, pi_to_address, fetch_page_index, find_free_virtual_pages,
  preferred_virtual_pages_free, write_word,
}
use speedy_os.Paging.Fields.{
  put_present, set_address, set_user_supervisor, set_read_write, set_kernel_flags,
}
use speedy_os.Scheduler.State.{Scheduler, physical_of, store_physical}
use speedy_os.Scheduler.Syscalls.{Reply, resume, Caller, caller, set_eax}

abbrev pub has_flag : (flags flag : ℕ) → Bool
has_flag flags flag = not (bit_and flags flag == 0)

-- The flags of an entry: PROCESS_OWNED, and DYNAMIC_PAGE_ALLOCATION for ALLOCATE_ON_ACCESS.
abbrev pub flag_word : (flags word : ℕ) → ℕ
flag_word flags word =
    let owned = set_kernel_flags (set_read_write (set_user_supervisor word)) 1 in
    if has_flag flags 1 then set_kernel_flags owned 3 else owned

abbrev pub modify : Physical → (address : ℕ) → (ℕ → ℕ) → Physical
modify p address f = write_word p address (f (p.memory address))

-- The entry at the address `e`, with a page for ALLOCATE_IMMEDIATELY.
pub allocate_page : (e flags : ℕ) → Physical → Run Physical
allocate_page e flags p = do
  let p1 = modify p e (λ w. put_present w (has_flag flags 2))
  (page, p2) ←
      (if has_flag flags 2
        then (alloc_physical_page 1 true p1 >>= λ (address, q). ok (address_to_pi address, q))
        else ok (0, p1))
  ok (modify p2 e (λ w. flag_word flags (set_address w page)))

-- The loop over the pages, from round `i` on.
pub allocate_loop : ℕ → (i : ℕ) → (directories page_index_start flags : ℕ) → Physical → Run Physical
allocate_loop zero i directories page_index_start flags p = ok p
allocate_loop (suc k) i directories page_index_start flags p =
    fetch_page_index directories (add32 page_index_start i) true p >>= λ (entry, p'). elim entry [
      | none ↦ fault
      | some e ↦ allocate_page e flags p' >>= λ p''.
          allocate_loop k (i + 1) directories page_index_start flags p''
    ]

-- Where the pages go: at the address that the program asks for, if it can have it, or anywhere.
pub choose_pages : (fuel directories address count : ℕ) → Physical → Run (Option ℕ × Physical)
choose_pages fuel directories address count p =
    if address == 0
    then (find_free_virtual_pages fuel directories count p >>= λ (start, p'). ok (some start, p'))
    else if not (address % 4096 == 0)
    then ok (none, p)
    else (preferred_virtual_pages_free directories (address_to_pi address) count p >>= λ free.
        ok (if free then some (address_to_pi address) else none, p))

pub allocate_pages : (fuel : ℕ) → Scheduler → (address count flags : ℕ) → Run (Reply × Scheduler)
allocate_pages fuel s address count flags = do
  c ← caller s
  if count == 0 then ok (resume, set_eax s c 0) else do
    (chosen, p) ← choose_pages fuel c.process.directories address count (physical_of s)
    elim chosen [
      | none ↦ ok (resume, set_eax (store_physical s p) c 0)
      | some start ↦ do
        p' ← allocate_loop count 0 c.process.directories start flags p
        ok (resume, set_eax (store_physical s p') c (pi_to_address start))
    ]
