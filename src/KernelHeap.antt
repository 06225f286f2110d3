-- ===== src/KernelHeap.antt =====
-- kernel/src/cpp/heap/kernelalloc.cpp: the heap of the kernel, a chain of blocks with headers.
--
-- The chain from `head_block` is a list; its last block, `tail_block`, stands apart. The contents of
-- the data areas are a map from addresses to bytes. A header that no one has written is a `fault`.
-- Sizes and addresses wrap at 32 bits.
pub mod Spans
pub mod Inv
pub mod Extend
pub mod Safety
pub mod Free
mod Tests
use speedy_os.Common.{
  ℕ, zero, suc, ◌+◌, ◌-◌, ◌/◌, ◌%◌, Bool, true, false, ◌&&◌, ◌||◌, not, List, [], ◌∷◌, ◌++◌, Option,
  none, some, ltb, leb, ◌==◌, if◌then◌else◌, add32, sub32, Run, ok, panic, fault, ◌>>=◌,
  from_option,
}
use speedy_os.Physical.{Physical, alloc_physical_page}

abbrev pub magic_number : ℕ
magic_number = 42859

-- `sizeof(BlockMeta)`
abbrev pub header : ℕ
header = 16

pub record BlockMeta : Type 0 where
  pub address : ℕ
  pub size : ℕ
  pub allocated : Bool
  pub magic : ℕ

pub record Heap : Type 0 where
  pub before_tail : List BlockMeta
  pub tail_block : BlockMeta
  pub bytes : ℕ → ℕ
  pub physical : Physical

-- The address of a block's data area.
abbrev pub data_address : BlockMeta → ℕ
data_address b = add32 b.address header

abbrev pub memset : (ℕ → ℕ) → (start value count : ℕ) → ℕ → ℕ
memset bytes start value count a = if leb start a && ltb a (start + count) then value else bytes a

-- The areas do not overlap where this is called.
abbrev pub memcpy : (ℕ → ℕ) → (to from count : ℕ) → ℕ → ℕ
memcpy bytes to from count a =
    if leb to a && ltb a (to + count) then bytes (from + (a - to)) else bytes a

-- The first page: a head block of 200 bytes, whose fields are written twice, and a tail block that
-- is left as the page was cleared.
pub init : (ℕ → ℕ) → Physical → Run Heap
init bytes p = do
  (page, p') ← alloc_physical_page 1 true p
  ok (record {
    before_tail =
        record { address = page; size = 200; allocated = false; magic = magic_number } ∷ [];
    tail_block = record { address = add32 page 216; size = 0; allocated = false; magic = 0 };
    bytes = bytes;
    physical = p';
  })

-- A block that a request of `size` bytes takes over.
pub is_suitable : ℕ → BlockMeta → Bool
is_suitable size b = if b.allocated then false else not (ltb b.size size || ltb 60 (b.size - size))

abbrev pub occupy : BlockMeta → BlockMeta
occupy b = record b { allocated = true }

-- The loop over the blocks: the first suitable one, and the blocks with it allocated.
pub claim : ℕ → List BlockMeta → Option (BlockMeta × List BlockMeta)
claim size [] = none
claim size (b ∷ bs) =
    if is_suitable size b
    then some (b, occupy b ∷ bs)
    else elim (claim size bs) [ none ↦ none | some (c, cs) ↦ some (c, b ∷ cs) ]

abbrev pub new_block : (address size : ℕ) → BlockMeta
new_block address size = record {
  address = address;
  size = size;
  allocated = true;
  magic = magic_number;
}

-- The new block becomes the tail.
abbrev pub append : BlockMeta → Heap → Heap
append b h = record h { before_tail = h.before_tail ++ (h.tail_block ∷ []); tail_block = b }

abbrev pub clear_if : Bool → BlockMeta → Heap → Heap
clear_if reset b h =
    if reset then record h { bytes = memset h.bytes (data_address b) 0 b.size } else h

abbrev pub next_free_area : Heap → ℕ
next_free_area h = add32 (data_address h.tail_block) h.tail_block.size

abbrev pub remaining_page_size : Heap → ℕ
remaining_page_size h = 4096 - next_free_area h % 4096

abbrev pub required_pages : ℕ → ℕ
required_pages size = add32 size header / 4096 + (if add32 size header % 4096 == 0 then 0 else 1)

-- The rest of the page, if it is large enough, becomes a block that stays allocated.
pub use_up : Heap → Heap
use_up h =
    if leb (header + 20) (remaining_page_size h)
    then append (new_block (next_free_area h) (remaining_page_size h - header)) h
    else h

-- A new block after the tail, or in new pages.
pub extend : ℕ → Bool → Heap → Run (ℕ × Heap)
extend size reset h =
    if leb (add32 header size) (remaining_page_size h)
    then (let b = new_block (next_free_area h) size in
        ok (data_address b, clear_if reset b (append b h)))
    else (do
      let h1 = use_up h
      (page, p) ← alloc_physical_page (required_pages size) false h1.physical
      let b = new_block page size
      ok (data_address b, clear_if reset b (append b (record h1 { physical = p }))))

pub kmalloc : ℕ → Bool → Heap → Run (ℕ × Heap)
kmalloc size reset h = elim (claim size h.before_tail) [
  | some (b, bs) ↦ ok (data_address b, clear_if reset b (record h { before_tail = bs }))
  | none ↦
      if is_suitable size h.tail_block
      then ok (
        data_address h.tail_block,
        clear_if reset h.tail_block (record h { tail_block = occupy h.tail_block }),
      )
      else extend size reset h
]

-- The block whose data area is at an address.
pub find_block : ℕ → List BlockMeta → Option BlockMeta
find_block address [] = none
find_block address (b ∷ bs) = if data_address b == address then some b else find_block address bs

pub chain : Heap → List BlockMeta
chain h = h.before_tail ++ (h.tail_block ∷ [])

abbrev pub free_at : ℕ → BlockMeta → BlockMeta
free_at address b = if data_address b == address then record b { allocated = false } else b

pub free_blocks : ℕ → List BlockMeta → List BlockMeta
free_blocks address [] = []
free_blocks address (b ∷ bs) = free_at address b ∷ free_blocks address bs

pub kfree : ℕ → Heap → Run (Bool × Heap)
kfree address h = do
  b ← from_option (find_block address (chain h))
  if not (b.magic == magic_number)
      then panic
      else ok (
        b.allocated,
        record h {
          before_tail = free_blocks address h.before_tail;
          tail_block = free_at address h.tail_block;
        },
      )

pub kallocated : ℕ → Heap → Run Bool
kallocated address h = do
  b ← from_option (find_block address (chain h))
  if not (b.magic == magic_number) then panic else ok b.allocated

pub krealloc : ℕ → ℕ → Heap → Run (ℕ × Heap)
krealloc address size h = do
  b ← from_option (find_block address (chain h))
  (new_address, h1) ← kmalloc size false h
  let copied = memcpy h1.bytes new_address address b.size
  let cleared = memset copied new_address 0 (sub32 size b.size)
  (_, h2) ← kfree address (record h1 { bytes = cleared })
  ok (new_address, h2)
