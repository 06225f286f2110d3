-- ===== src/Paging/Memory/Tests.antt =====
-- Reads of the memory of a process with two pages.
use speedy_os.Common.{
  ℕ, ◌+◌, ◌*◌, ◌%◌, ◌≡◌, ◌<◌, ◌≤◌, subst, List, Run, u32_mod, inl, refl, Bool, true, [], ◌∷◌, some,
  ok, ◌==◌, if◌then◌else◌, arith,
}
use speedy_os.Physical.{Physical, data_location}
use speedy_os.Paging.{fetch_page_index, pi_to_address, address_to_pi}
use speedy_os.Paging.Memory.{byte_at, read_bytes, page_base, read_rest, read_virtual_memory}
use speedy_os.Paging.Memory.Read.{IsRead, translate, read_virtual_memory-IsRead}

-- The pages 4 and 5 are at 0x5000 and 0x6000; the directories and the table are in the first two
-- pages of the data area.
abbrev two_pages : Physical
two_pages = record {
  data_meta = true ∷ true ∷ [];
  memory = λ a.
      if a == data_location
      then 0x0120_1005
      else if a == 0x0120_1010
      then 0x0000_5007
      else if a == 0x0120_1014
      then 0x0000_6007
      else a % 256;
  reserved_blocks = 2;
}

abbrev frames : ℕ → ℕ
frames index = if index == 4 then 0x5000 else 0x6000

framed : (index : ℕ) → frames index + 4096 ≤ u32_mod
framed index = ground arith

page_4_based : page_base (λ w. true) data_location 4 two_pages ≡ ok (some (frames 4))
unfolding page_base fetch_page_index pi_to_address
page_4_based = refl

page_5_based :
    (index : ℕ)
    → 5 ≤ index
    → index * 4096 < 4 * 4096 + 5000
    → page_base (λ w. true) data_location index two_pages ≡ ok (some (frames index))
unfolding page_base fetch_page_index pi_to_address
page_5_based index l l' =
    let e : 5 ≡ index = omega arith in
    subst (λ i. page_base (λ w. true) data_location i two_pages ≡ ok (some (frames i))) e refl

-- A read of one page and a part of the next.
read_virtual_memory-IsRead_example :
    (bytes : List ℕ) × (read_virtual_memory data_location (4 * 4096) 5000 true two_pages
      ≡ ok (true, bytes))
    × IsRead bytes 5000 two_pages (λ i. translate frames (4 * 4096 + i))
read_virtual_memory-IsRead_example =
    read_virtual_memory-IsRead data_location frames two_pages framed true (4 * 4096) 5000
      (omega arith) (omega arith) (inl refl) page_4_based page_5_based

-- The two bytes from the end of page 4 on: the second is read at the offset 4095 of page 5.
abbrev across : Run (Bool × List ℕ)
across = read_virtual_memory data_location (4 * 4096 + 4095) 2 true two_pages

across_bytes : across ≡ ok (true, byte_at two_pages 0x5FFF ∷ byte_at two_pages 0x6FFF ∷ [])
unfolding read_virtual_memory read_rest page_base fetch_page_index pi_to_address address_to_pi
    read_bytes
across_bytes = refl
