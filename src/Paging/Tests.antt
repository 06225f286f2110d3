-- ===== src/Paging/Tests.antt =====
-- The theorems on paging at concrete memories.
use speedy_os.Common.{
  ℕ, suc, zero, ◌≡◌, ◌⊎◌, ◌↔◌, inr, refl, Bool, true, false, [], ◌∷◌, some, ok, ◌>>=◌, ◌==◌,
  if◌then◌else◌, arith,
}
use speedy_os.Physical.{Physical, data_location}
use speedy_os.Physical.FirstFit.{AllFree}
use speedy_os.Paging.{
  fetch_page_index, preferred_virtual_pages_free, reset_virtual_pages, handle_page_fault,
  kills_process, pi_to_address, is_used, pages_free_loop, reset_page,
}
use speedy_os.Paging.NewPage.{IsHeld}
use speedy_os.Paging.Fetch.{Fetched, fetch_page_index-Fetched}
use speedy_os.Paging.Available.{AllUnmapped, preferred_virtual_pages_free-AllUnmapped}
use speedy_os.Paging.Fault.{Demanded, is_demanded, fault_entry, handle_page_fault-outcome}

-- The directories are in the first page, the table of their first entry in the second. Its entry 3
-- asks for memory on the first access, its entry 4 is mapped, and the third page is free.
abbrev mapped : Physical
mapped = record {
  data_meta = true ∷ true ∷ false ∷ [];
  memory = λ a.
      if a == data_location
      then 0x0120_1005
      else if a == 0x0120_100C
      then 1024
      else if a == 0x0120_1010
      then 0x0000_5007
      else 0;
  reserved_blocks = 2;
}

third_free : AllFree mapped.data_meta 2 1
third_free zero h = refl
third_free (suc j) h = absurd (omega arith)

-- The page 5000 has no table yet.
fetch_page_index-Fetched_example :
    (entry : ℕ) × (p' : Physical) × (fetch_page_index data_location 5000 true mapped
      ≡ ok (some entry, p'))
    × Fetched data_location 5000 mapped entry p'
fetch_page_index-Fetched_example =
    fetch_page_index-Fetched data_location 5000 2 mapped third_free (omega arith) (inr refl)

preferred_virtual_pages_free-AllUnmapped_example :
    (free : Bool) × (preferred_virtual_pages_free data_location 4 3 mapped ≡ ok free)
    × ((free ≡ true) ↔ AllUnmapped data_location 4 3 mapped)
preferred_virtual_pages_free-AllUnmapped_example =
    preferred_virtual_pages_free-AllUnmapped data_location 4 3 mapped (omega arith)

page_4_used : preferred_virtual_pages_free data_location 4 3 mapped ≡ ok false
unfolding preferred_virtual_pages_free pages_free_loop fetch_page_index is_used pi_to_address
page_4_used = refl

entry-IsHeld : IsHeld mapped (fault_entry data_location 0 3 mapped)
unfolding pi_to_address
entry-IsHeld = inr refl

handle_page_fault-outcome_example :
    ((is_demanded data_location 0 3 mapped ≡ true)
      × (page : ℕ) × (p' : Physical) × Demanded data_location 0 3 mapped page p')
    ⊎ ((is_demanded data_location 0 3 mapped ≡ false)
        × (handle_page_fault data_location 0 3 mapped ≡ ok (kills_process, mapped)))
handle_page_fault-outcome_example =
    handle_page_fault-outcome data_location 0 3 mapped 2 third_free (omega arith) entry-IsHeld

abbrev entry_4 : Physical → ℕ
entry_4 p = p.memory 0x0120_1010

-- A reset of the pages 3 and 4 leaves the page 4 mapped.
page_4_kept :
    (reset_virtual_pages 2 data_location 3 false mapped >>= λ p. ok (entry_4 p)) ≡ ok 0x0000_5007
unfolding reset_virtual_pages fetch_page_index reset_page pi_to_address
page_4_kept = refl
