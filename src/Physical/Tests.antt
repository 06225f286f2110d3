-- ===== src/Physical/Tests.antt =====
-- The page allocator at a table of six pages.
use speedy_os.Common.{
  ℕ, zero, suc, ◌+◌, ◌*◌, u32_mod, ◌≤◌, ◌≡◌, ◌⊎◌, refl, true, false, [], ◌∷◌, ok, arith,
}
use speedy_os.Physical.{
  Physical, data_location, page_address, alloc_physical_page, find_blocks, mark_blocks, wipe_words,
}
use speedy_os.Physical.FirstFit.{AllFree, lt_of_AllFree}
use speedy_os.Physical.Alloc.{
  Allocated, alloc_physical_page-first_fit, alloc_physical_page-disjoint,
}

-- The second and the fourth to sixth pages are free.
abbrev table : Physical
table = record {
  data_meta = true ∷ false ∷ true ∷ false ∷ false ∷ false ∷ [];
  memory = λ a. 7;
  reserved_blocks = 2;
}

fit_two : AllFree table.data_meta 4 2
fit_two zero h = refl
fit_two (suc zero) h = refl
fit_two (suc (suc j)) h = absurd (omega arith)

not_five : (o : ℕ) → ¬ AllFree table.data_meta o 5
not_five zero free = cc (free 0 (omega arith))
not_five (suc zero) free = cc (free 1 (omega arith))
not_five (suc (suc o)) free =
    absurd (omega (arith, lt_of_AllFree table.data_meta (suc (suc o)) 5 4 free (omega arith)))

abbrev after_two : Physical
after_two = record {
  data_meta = true ∷ false ∷ true ∷ true ∷ true ∷ false ∷ [];
  memory = table.memory;
  reserved_blocks = 3;
}

alloc_two : alloc_physical_page 2 false table ≡ ok (0x0120_3000, after_two)
unfolding alloc_physical_page find_blocks mark_blocks page_address
alloc_two = refl

alloc_physical_page-first_fit_example :
    (address : ℕ) × (p' : Physical) × (alloc_physical_page 2 false table ≡ ok (address, p'))
    × Allocated 2 table address p'
alloc_physical_page-first_fit_example =
    alloc_physical_page-first_fit 2 false table 4 (omega arith) fit_two

abbrev after_three : Physical
after_three = record {
  data_meta = true ∷ true ∷ true ∷ true ∷ true ∷ false ∷ [];
  memory = table.memory;
  reserved_blocks = 4;
}

alloc_one : alloc_physical_page 1 false after_two ≡ ok (0x0120_1000, after_three)
unfolding alloc_physical_page find_blocks mark_blocks page_address
alloc_one = refl

alloc_physical_page-disjoint_example :
    ((data_location ≤ 0x0120_3000) × (0x0120_3000 + 2 * 4096 ≤ u32_mod))
    × ((data_location ≤ 0x0120_1000) × (0x0120_1000 + 1 * 4096 ≤ u32_mod))
    × ((0x0120_3000 + 2 * 4096 ≤ 0x0120_1000) ⊎ (0x0120_1000 + 1 * 4096 ≤ 0x0120_3000))
alloc_physical_page-disjoint_example =
    alloc_physical_page-disjoint 2 1 false false table (omega arith) (omega arith) (omega arith)
      alloc_two alloc_one

abbrev after_reset : Physical
after_reset = record {
  data_meta = true ∷ true ∷ true ∷ false ∷ false ∷ false ∷ [];
  memory = wipe_words 1024 table.memory 0x0120_1000;
  reserved_blocks = 3;
}

alloc_reset : alloc_physical_page 1 true table ≡ ok (0x0120_1000, after_reset)
unfolding alloc_physical_page find_blocks mark_blocks page_address
alloc_reset = refl
