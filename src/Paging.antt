-- ===== src/Paging.antt =====
-- kernel/src/cpp/paging: the page directories of processes, and the faults of their pages.
--
-- A directory entry and a page entry are 32-bit words of physical memory; the bit fields of the
-- structures are read from these. A process is the address of its directories.
pub mod Fields
pub mod NewPage
pub mod Memory
pub mod Fetch
pub mod Available
pub mod Fault
mod Tests
use Fields.{present, is_dynamic, entry_address, set_present, set_user_supervisor, set_address}
use speedy_os.Common.{
  ℕ, zero, suc, ◌+◌, ◌*◌, ◌/◌, ◌%◌, Bool, true, false, Option, none, some, not, ◌&&◌, ◌==◌,
  if◌then◌else◌, update, add32, mul32, Run, ok, fault, out_of_fuel, ◌>>=◌,
}
use speedy_os.Physical.{Physical, alloc_physical_page, free_physical_page}

unfoldable pub address_to_pi : ℕ → ℕ
address_to_pi address = address / 4096

unfoldable pub pi_to_address : ℕ → ℕ
pi_to_address pi = mul32 pi 4096

abbrev pub write_word : Physical → (address value : ℕ) → Physical
write_word p address value = record p { memory = update p.memory address value }

-- The address of the directory entry of a page.
abbrev pub directory_slot : (directories index : ℕ) → ℕ
directory_slot directories index = add32 directories (4 * (index / 1024))

-- The directory entry of a new table.
abbrev pub table_word : (word table : ℕ) → ℕ
table_word word table = set_user_supervisor (set_present (set_address word (address_to_pi table)))

-- The address of the page's entry; without a table `none`, or a new table.
unfoldable pub fetch_page_index :
    (directories index : ℕ) → (allocate_directory : Bool) → Physical → Run (Option ℕ × Physical)
fetch_page_index directories index allocate_directory p =
    if present (p.memory (directory_slot directories index))
    then ok (
      some (
          add32 (pi_to_address (entry_address (p.memory (directory_slot directories index))))
            (4 * (index % 1024))),
      p,
    )
    else if allocate_directory
    then (alloc_physical_page 1 true p >>= λ (table, p'). ok (
      some (add32 table (4 * (index % 1024))),
      write_word p' (directory_slot directories index)
          (table_word (p'.memory (directory_slot directories index)) table),
    ))
    else ok (none, p)

-- The search loop: the round `i` at `offset`, with fuel.
unfoldable pub find_free_loop : ℕ → (directories count offset i : ℕ) → Physical → Run (ℕ × Physical)
find_free_loop zero directories count offset i p = out_of_fuel
find_free_loop (suc k) directories count offset i p =
    if i == count
    then ok (offset, p)
    else fetch_page_index directories (add32 offset i) true p >>= λ (entry, p'). elim entry [
      | none ↦ fault
      | some e ↦
          let free = p'.memory e == 0 in
          find_free_loop k directories count (if free then offset else add32 offset (add32 i 1))
            (if free then add32 i 1 else 0) p'
    ]

unfoldable pub find_free_virtual_pages : ℕ → (directories count : ℕ) → Physical → Run (ℕ × Physical)
find_free_virtual_pages fuel directories count p =
    find_free_loop fuel directories count (104857600 / 4096) 0 p

-- An entry that is there and is not empty.
unfoldable pub is_used : Option ℕ → Physical → Bool
is_used none p = false
is_used (some entry) p = not (p.memory entry == 0)

-- The loop of `preferred_virtual_pages_free`, with `k` rounds left.
unfoldable pub pages_free_loop : ℕ → (directories index : ℕ) → Physical → Run Bool
pages_free_loop zero directories index p = ok true
pages_free_loop (suc k) directories index p =
    let rest = pages_free_loop k directories (add32 index 1) p in
    fetch_page_index directories index false p >>= λ (entry, p').
    if is_used entry p then ok false else rest

unfoldable pub preferred_virtual_pages_free :
    (directories virtual_index_start count : ℕ) → Physical → Run Bool
preferred_virtual_pages_free directories virtual_index_start count p =
    pages_free_loop count directories virtual_index_start p

-- One round of `reset_virtual_pages`.
unfoldable pub reset_page : (entry : Option ℕ) → (deallocate_page : Bool) → Physical → Run Physical
reset_page none deallocate_page p = ok p
reset_page (some entry) deallocate_page p =
    (if deallocate_page
      then free_physical_page (pi_to_address (entry_address (p.memory entry))) p
      else ok (false, p))
    >>= λ (was_allocated, p'). ok (write_word p' entry 0)

-- Each round is at the first page.
unfoldable pub reset_virtual_pages :
    (count : ℕ)
    → (directories virtual_index_start : ℕ) → (deallocate_page : Bool) → Physical
    → Run Physical
reset_virtual_pages zero directories virtual_index_start deallocate_page p = ok p
reset_virtual_pages (suc k) directories virtual_index_start deallocate_page p = do
  (entry, p1) ← fetch_page_index directories virtual_index_start false p
  p2 ← reset_page entry deallocate_page p1
  reset_virtual_pages k directories virtual_index_start deallocate_page p2

-- How `HandlePageFault_hl` ends: the thread goes on, or the process is killed.
pub data FaultResult : Type 0 where
  resumes kills_process : FaultResult

-- The handler up to the call of `kill_process`; the address is split into its two indices.
pub handle_page_fault :
    (directories directory_entry table_entry : ℕ) → Physical → Run (FaultResult × Physical)
handle_page_fault directories directory_entry table_entry p =
    let directory = p.memory (add32 directories (4 * directory_entry)) in
    let entry = add32 (pi_to_address (entry_address directory)) (4 * table_entry) in
    if not (present directory)
    then ok (kills_process, p)
    else if present (p.memory entry)
    then ok (kills_process, p)
    else if not (is_dynamic (p.memory entry))
    then ok (kills_process, p)
    else (alloc_physical_page 1 true p >>= λ (physical_page, p').
        if physical_page == 0
        then ok (kills_process, p')
        else ok (
          resumes,
          write_word p' entry
              (set_address (set_present (p'.memory entry)) (address_to_pi physical_page)),
        ))
