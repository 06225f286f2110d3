-- ===== src/KernelHeap/Tests.antt =====
-- The theorems on the kernel's heap at concrete heaps.
use speedy_os.Common.{
  ℕ, suc, zero, ◌+◌, ◌-◌, ◌/◌, ◌≤◌, ◌<◌, ◌≡◌, refl, Bool, true, false, [], ◌∷◌, some, ok, arith,
  get_elem?,
}
use speedy_os.Physical.{Physical, data_location}
use speedy_os.Physical.FirstFit.{AllFree}
use speedy_os.KernelHeap.{
  Heap, magic_number, new_block, claim, is_suitable, kmalloc, kfree, kallocated, find_block, chain,
}
use speedy_os.KernelHeap.Inv.{Inv}
use speedy_os.KernelHeap.Safety.{Given, kmalloc-Given}
use speedy_os.KernelHeap.Free.{kmalloc-overrun, kfree-Inv}

abbrev pages : Bool → Physical
pages first = record {
  data_meta = first ∷ false ∷ false ∷ [];
  memory = λ a. 0;
  reserved_blocks = 1;
}

-- A free block of 200 bytes and an allocated one of 40.
abbrev two_blocks : Heap
two_blocks = record {
  before_tail =
      record { address = 0x0120_0000; size = 200; allocated = false; magic = magic_number } ∷ [];
  tail_block = record { address = 0x0120_00D8; size = 40; allocated = true; magic = magic_number };
  bytes = λ a. 0;
  physical = pages true;
}

first_page :
    (a : ℕ)
    → data_location ≤ a
    → a < data_location + 4096
    → get_elem? (true ∷ false ∷ false ∷ []) ((a - data_location) / 4096) ≡ some true
first_page a l u = let e : (a - data_location) / 4096 ≡ 0 = omega arith in rw e refl

two_blocks-Inv : Inv two_blocks
two_blocks-Inv = record {
  sound = ((omega arith, λ a l u. first_page a (omega arith) (omega arith)), tt);
  tail_sound = (omega arith, λ a l u. first_page a (omega arith) (omega arith));
  separate = (tt, tt);
  tail_apart = (omega arith, tt);
  fits = omega arith;
}

second_free : (first : Bool) → AllFree (pages first).data_meta 1 1
second_free first zero h = refl
second_free first (suc j) h = absurd (omega arith)

-- A request of 1000 bytes.
kmalloc-Given_example :
    (a : ℕ) × (h : Heap) × (kmalloc 1000 true two_blocks ≡ ok (a, h)) × Given 1000 two_blocks a h
kmalloc-Given_example =
    kmalloc-Given 1000 true two_blocks two_blocks-Inv (λ e. omega arith) (omega arith) 1
      (second_free true)

-- The tail fills its page.
abbrev full_page : Heap
full_page = record {
  before_tail = [];
  tail_block = record {
    address = 0x0120_0000;
    size = 4080;
    allocated = true;
    magic = magic_number;
  };
  bytes = λ a. 0;
  physical = pages true;
}

kmalloc-overrun_example :
    (h : Heap) × (kmalloc 24 false full_page ≡ ok (0x0120_1010, h))
    × (h.tail_block ≡ new_block 0x0120_1000 24)
    × (h.physical ≡ full_page.physical)
unfolding claim is_suitable
kmalloc-overrun_example =
    kmalloc-overrun 24 false full_page refl refl refl (omega arith) (omega arith)

kfree-Inv_example :
    (h : Heap) × (kfree 0x0120_00E8 two_blocks ≡ ok (true, h))
    × Inv h
    × (kallocated 0x0120_00E8 h ≡ ok false)
unfolding find_block chain
kfree-Inv_example = kfree-Inv 0x0120_00E8 two_blocks two_blocks.tail_block two_blocks-Inv refl refl
