-- ===== src/Loader.antt =====
-- kernel/src/cpp/loader/elf.cpp: a program file becomes a process.
--
-- The file lies in memory; its header and the headers of its segments are arguments, as the fields
-- that the code reads.
pub mod Accepted
mod Tests
use speedy_os.Common.{
  ℕ, zero, suc, ◌+◌, ◌/◌, ◌%◌, ◌-◌, Bool, true, false, not, ◌&&◌, List, [], ◌∷◌, Option, none, some,
  ◌==◌, if◌then◌else◌, add32, Run, ok, panic, fault, ◌>>=◌,
}
use speedy_os.Physical.{Physical, alloc_physical_page}
use speedy_os.Paging.{address_to_pi, fetch_page_index, preferred_virtual_pages_free, write_word}
use speedy_os.Paging.Fields.{
  set_present, set_address, set_kernel_flags, set_user_supervisor, set_read_write, read_write,
}
use speedy_os.Paging.Memory.{read_bytes, write_bytes}
use speedy_os.Scheduler.State.{
  Thread, Process, Scheduler, load_process, physical_of, store_physical,
}
use speedy_os.Scheduler.Processes.{ProcessFlags, create_process, kill_process}

pub record Elf32Header : Type 0 where
  pub magic_number : ℕ
  pub bits : ℕ
  pub elf_type : ℕ
  pub architecture : ℕ
  pub virtual_entry_address : ℕ

pub record Elf32ProgramHeader : Type 0 where
  pub segment_type : ℕ
  pub data_offset : ℕ
  pub virtual_start_address : ℕ
  pub segment_size : ℕ
  pub segment_memory_size : ℕ
  pub writable : Bool
  pub data_required_alignment : ℕ

-- The segment is to be loaded.
abbrev pub loadable : Elf32ProgramHeader → Bool
loadable header = header.segment_type == 1

-- The tests of the header.
pub header_accepted : Elf32Header → Bool
header_accepted header =
    header.magic_number == 1179403647
    && (header.bits == 1
        && (header.architecture == 3
            && (header.elf_type == 2 && not (header.virtual_entry_address == 0))))

-- The loop that looks for a segment to load.
pub segments_accepted : List Elf32ProgramHeader → Bool
segments_accepted [] = false
segments_accepted (header ∷ headers) =
    if loadable header then header.data_required_alignment == 4096 else segments_accepted headers

-- The write of a computed bit.
abbrev pub put_read_write : (word : ℕ) → Bool → ℕ
put_read_write word bit =
    if bit then set_read_write word else if read_write word then word - 2 else word

-- The entry of a page of a segment, with RELEASE_PHYSICAL_ON_EXIT.
abbrev pub segment_word : (word pi : ℕ) → (writable : Bool) → ℕ
segment_word word pi writable =
    put_read_write (set_user_supervisor (set_kernel_flags (set_address (set_present word) pi) 4))
      writable

-- The loop that maps the pages of a segment, from round `j` on.
pub map_segment :
    ℕ
    → (j : ℕ) → (directories virtual_start physical_start : ℕ) → (writable : Bool) → Physical
    → Run Physical
map_segment zero j directories virtual_start physical_start writable p = ok p
map_segment (suc k) j directories virtual_start physical_start writable p =
    fetch_page_index directories (add32 virtual_start j) true p >>= λ (entry, p'). elim entry [
      | none ↦ fault
      | some e ↦
          map_segment k (j + 1) directories virtual_start physical_start writable
            (write_word p' e (segment_word (p'.memory e) (physical_start + j) writable))
    ]

-- One segment; false where its pages are not free.
pub load_segment :
    (elf_start directories : ℕ) → Elf32ProgramHeader → Physical → Run (Bool × Physical)
load_segment elf_start directories header p = do
  let start = address_to_pi header.virtual_start_address
  let count =
      header.segment_memory_size / 4096 + (if header.segment_memory_size % 4096 == 0 then 0 else 1)
  free ← preferred_virtual_pages_free directories start count p
  if not free then ok (false, p) else do
    (pages, p1) ← alloc_physical_page count true p
    if pages == 0 then panic else do
      let bytes = read_bytes header.segment_size p1 (add32 elf_start header.data_offset)
      let p2 = write_bytes bytes p1 pages
      p3 ← map_segment count 0 directories start (address_to_pi pages) header.writable p2
      ok (true, p3)

-- The loop over the segments; the process is killed where one has no place.
pub load_segments :
    (elf_start process_address : ℕ)
    → Process
    → List Elf32ProgramHeader
    → Scheduler
    → Run (Option ℕ × Scheduler)
load_segments elf_start process_address process [] s = ok (some process_address, s)
load_segments elf_start process_address process (header ∷ headers) s =
    if not (loadable header)
    then load_segments elf_start process_address process headers s
    else (load_segment elf_start process.directories header (physical_of s) >>= λ (placed, p).
        if placed
        then load_segments elf_start process_address process headers (store_physical s p)
        else (kill_process (store_physical s p) process_address >>= λ s'. ok (none, s')))

-- The process is made at the address `p`, its main thread at `t`.
pub load_elf32_executable_as_process :
    (fuel : ℕ)
    → Scheduler
    → (name : List ℕ) → ProcessFlags
    → (elf_start : ℕ) → Elf32Header
    → List Elf32ProgramHeader
    → (p : ℕ) → (raw : Process) → (t : ℕ) → (raw_thread : Thread) → Run (Option ℕ × Scheduler)
load_elf32_executable_as_process fuel s name flags elf_start header headers p raw t raw_thread =
    if not (header_accepted header)
    then ok (none, s)
    else if not (segments_accepted headers)
    then ok (none, s)
    else (create_process fuel s name header.virtual_entry_address flags true p raw t raw_thread
        >>= λ s1. load_process s1 p >>= λ process. load_segments elf_start p process headers s1)
