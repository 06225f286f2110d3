-- ===== src/Physical.antt =====
-- kernel/src/cpp/heap/physical.cpp: the allocator of 4096-byte physical pages.
--
-- `data_meta`, one `bool` for each page, is a list; an access beyond its end is a `fault`. The
-- memory itself is a function from addresses to 32-bit words.
pub mod FirstFit
pub mod Alloc
pub mod Free
mod Tests
use speedy_os.Common.{
  ℕ, zero, suc, ◌+◌, ◌-◌, ◌/◌, Bool, true, false, List, get_elem?, set, length, ◌==◌, if◌then◌else◌,
  add32, sub32, mul32, Run, ok, out_of_fuel, ◌>>=◌, from_option,
}

abbrev pub data_meta_address : ℕ
data_meta_address = 0x0100_0000

abbrev pub data_location : ℕ
data_location = 0x0120_0000

pub record Physical : Type 0 where
  pub data_meta : List Bool
  pub memory : ℕ → ℕ
  pub reserved_blocks : ℕ

-- One write of `init`: the four bytes, so the four entries, from `i` on.
clear_word : List Bool → ℕ → List Bool
clear_word m i = set (set (set (set m i false) (i + 1) false) (i + 2) false) (i + 3) false

-- The loop of `init`, with `k` rounds left.
init_loop : ℕ → ℕ → List Bool → List Bool
init_loop zero i m = m
init_loop (suc k) i m = init_loop k (i + 1) (clear_word m i)

pub init : Physical → Physical
unfolding init_loop clear_word
init p = record p { data_meta = init_loop ((data_location - data_meta_address) / 4) 0 p.data_meta }

-- The search loop: the round `i` at `offset`. Each round reads an entry further on, so the fuel
-- `length m + 1` is enough; every index read lies in the list, so none of the sums wraps.
unfoldable pub find_blocks : ℕ → List Bool → ℕ → ℕ → ℕ → Run ℕ
find_blocks zero m count offset i = out_of_fuel
find_blocks (suc k) m count offset i = if i == count then ok offset else do
  taken ← from_option (get_elem? m (offset + i))
  find_blocks k m count (if taken then offset + (i + 1) else offset) (if taken then 0 else i + 1)

-- `count` entries from `offset` on are set to true.
unfoldable pub mark_blocks : ℕ → List Bool → ℕ → List Bool
mark_blocks zero m offset = m
mark_blocks (suc k) m offset = mark_blocks k (set m offset true) (offset + 1)

-- The wipe: `words` words from the address `a` on.
unfoldable pub wipe_words : ℕ → (ℕ → ℕ) → ℕ → ℕ → ℕ
wipe_words zero mem a = mem
wipe_words (suc k) mem a = wipe_words k (λ b. if b == a then 0 else mem b) (add32 a 4)

unfoldable pub page_address : ℕ → ℕ
page_address offset = add32 data_location (mul32 offset 4096)

unfoldable pub alloc_physical_page : ℕ → Bool → Physical → Run (ℕ × Physical)
alloc_physical_page count reset p = do
  offset ← find_blocks (length p.data_meta + 1) p.data_meta count 0 0
  let data_address = page_address offset
  let mem = if reset then wipe_words (mul32 1024 count) p.memory data_address else p.memory
  ok (
    data_address,
    record p {
      data_meta = mark_blocks count p.data_meta offset;
      memory = mem;
      reserved_blocks = add32 p.reserved_blocks 1;
    },
  )

unfoldable pub page_index : ℕ → ℕ
page_index address = sub32 address data_location / 4096

unfoldable pub free_physical_page : ℕ → Physical → Run (Bool × Physical)
free_physical_page address p = do
  old_val ← from_option (get_elem? p.data_meta (page_index address))
  ok (old_val, record p { data_meta = set p.data_meta (page_index address) false })
