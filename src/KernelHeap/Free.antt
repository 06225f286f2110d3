-- ===== src/KernelHeap/Free.antt =====
-- The start of the heap, `kfree`, and the request after a tail that ends with its page.
use speedy_os.Common.{
  ℕ, ◌+◌, ◌-◌, ◌*◌, ◌/◌, ◌%◌, ◌≤◌, ◌<◌, ◌≡◌, ◌≢◌, refl, ap, ◌∙◌, Bool, true, false, List, [], ◌∷◌,
  ◌++◌, some, none, length, u32_mod, All, Bool-cases, if-cases, arith, ◌==◌, ok, add32, inl, inr,
  leb,
}
use speedy_os.Physical.{Physical, data_location, page_address}
use speedy_os.Physical.FirstFit.{AllFree, lt_of_AllFree}
use speedy_os.Physical.Alloc.{alloc_at, alloc_physical_page-at, taken_after, length-mark_blocks}
use speedy_os.KernelHeap.{
  BlockMeta, Heap, header, magic_number, new_block, append, clear_if, extend, next_free_area,
  remaining_page_size, data_address, init, claim, is_suitable, kmalloc, chain, find_block, free_at,
  free_blocks, kfree, kallocated,
}
use speedy_os.KernelHeap.Inv.{Inv, block_end, page_end, Sound, Outside, Separate}

-- When a page is free, `init` sets up a heap that has the invariant, and whose tail does not end
-- with its page.
pub init-Inv :
    (bytes : ℕ → ℕ) (p : Physical) (target : ℕ)
    → AllFree p.data_meta target 1
    → data_location + length p.data_meta * 4096 ≤ u32_mod
    → (h : Heap) × (init bytes p ≡ ok h) × Inv h × (block_end h.tail_block % 4096 ≢ 0)
unfolding init page_address
init-Inv bytes p target fit bound =
    let (start, run, free, _) = alloc_physical_page-at 1 true p target (omega arith) fit in
    let inside = lt_of_AllFree p.data_meta start 1 0 free (omega arith) in
    let q = alloc_at 1 true p start in
    let taken = taken_after 1 p.data_meta start free in
    let len = length-mark_blocks 1 p.data_meta start in
    let page = page_address start in
    let at : page ≡ data_location + start * 4096 = omega arith in
    (
      record {
        before_tail =
            record { address = page; size = 200; allocated = false; magic = magic_number } ∷ [];
        tail_block = record { address = add32 page 216; size = 0; allocated = false; magic = 0 };
        bytes = bytes;
        physical = q;
      },
      rw run refl,
      record {
        sound = (
          (omega arith, λ a l u. taken ((a - data_location) / 4096) (omega arith) (omega arith)),
          tt,
        );
        tail_sound =
            (omega arith, λ a l u. taken ((a - data_location) / 4096) (omega arith) (omega arith));
        separate = (tt, tt);
        tail_apart = (omega arith, tt);
        fits = omega (arith, len);
      },
      λ e. omega arith,
    )

clear_if_fields :
    (reset : Bool) (b : BlockMeta) (h : Heap)
    → ((clear_if reset b h).tail_block ≡ h.tail_block)
      × ((clear_if reset b h).physical ≡ h.physical)
clear_if_fields true b h = (refl, refl)
clear_if_fields false b h = (refl, refl)

-- When no block is suitable and the tail ends with its page, a request that fits a page is met
-- with a block at the start of the page behind the tail, and the page table stays as it is: it is
-- not asked whether that page is taken.
pub kmalloc-overrun :
    (size : ℕ) (reset : Bool) (h : Heap)
    → claim size h.before_tail ≡ none
    → is_suitable size h.tail_block ≡ false
    → block_end h.tail_block % 4096 ≡ 0
    → block_end h.tail_block + header < u32_mod
    → size + header ≤ 4096
    → (h' : Heap) × (kmalloc size reset h ≡ ok (block_end h.tail_block + header, h'))
      × (h'.tail_block ≡ new_block (block_end h.tail_block) size)
      × (h'.physical ≡ h.physical)
unfolding kmalloc extend
kmalloc-overrun size reset h no_claim no_tail full bound small =
    let b = new_block (next_free_area h) size in
    let next : next_free_area h ≡ block_end h.tail_block = omega arith in
    let room : leb (add32 header size) (remaining_page_size h) ≡ true = ground (arith, next) in
    let (tail, physical) = clear_if_fields reset b (append b h) in
    (
      clear_if reset b (append b h),
      rw (no_claim, no_tail, kmalloc, room)
          (ap (λ n. ok (n, clear_if reset b (append b h))) (omega arith)),
      tail ∙ ap (λ n. new_block n size) next,
      physical,
    )

module _ (address : ℕ) where
  free_at-same :
      (P : BlockMeta → Type 0) (b : BlockMeta)
      → (P (record b { allocated = false }))
      → P b
      → P (free_at address b)
  free_at-same P b p p' = if-cases P (data_address b == address) _ b (λ _. p) (λ _. p')

  free_blocks-All :
      (P : BlockMeta → Type 0) (bs : List BlockMeta)
      → ((b : BlockMeta) → P b → P (record b { allocated = false }))
      → All P bs
      → All P (free_blocks address bs)
  unfolding free_blocks
  free_blocks-All P [] h all = tt
  free_blocks-All P (b ∷ bs) h (p, ps) = (free_at-same P b (h b p) p, free_blocks-All P bs h ps)

  free_blocks-Separate : (bs : List BlockMeta) → Separate bs → Separate (free_blocks address bs)
  unfolding free_blocks
  free_blocks-Separate [] s = tt
  free_blocks-Separate (b ∷ bs) (o, s) = (
    free_at-same (λ c. All (Outside c.address (block_end c)) (free_blocks address bs)) b
        (free_blocks-All _ bs (λ c p. p) o) (free_blocks-All _ bs (λ c p. p) o),
    free_blocks-Separate bs s,
  )

  freed-Inv :
      (h : Heap)
      → Inv h
      → Inv (record h {
        before_tail = free_blocks address h.before_tail;
        tail_block = free_at address h.tail_block;
      })
  freed-Inv h inv = record {
    sound = free_blocks-All _ h.before_tail (λ c p. p) inv.sound;
    tail_sound =
        free_at-same (Sound h.physical.data_meta) h.tail_block inv.tail_sound inv.tail_sound;
    separate = free_blocks-Separate h.before_tail inv.separate;
    tail_apart =
        free_at-same
          (λ t.
            All (Outside t.address (page_end (block_end t))) (free_blocks address h.before_tail))
          h.tail_block (free_blocks-All _ h.before_tail (λ c p. p) inv.tail_apart)
          (free_blocks-All _ h.before_tail (λ c p. p) inv.tail_apart);
    fits = inv.fits;
  }

  -- The block at an address, after the blocks at that address have been freed.
  find_block-free_blocks :
      (bs : List BlockMeta) (b : BlockMeta)
      → find_block address bs ≡ some b
      → find_block address (free_blocks address bs) ≡ some (record b { allocated = false })
  unfolding find_block free_blocks
  find_block-free_blocks [] b e = absurd cc
  find_block-free_blocks (c ∷ cs) b e = elim (Bool-cases (data_address c == address)) [
    | inl here ↦ ground arith
    | inr away ↦ ground (arith, find_block-free_blocks cs b)
  ]

  free_blocks-append :
      (xs ys : List BlockMeta)
      → free_blocks address xs ++ free_blocks address ys ≡ free_blocks address (xs ++ ys)
  unfolding free_blocks
  free_blocks-append [] ys = refl
  free_blocks-append (x ∷ xs) ys = ap (λ l. free_at address x ∷ l) (free_blocks-append xs ys)

  abbrev freed : Heap → Heap
  freed h = record h {
    before_tail = free_blocks address h.before_tail;
    tail_block = free_at address h.tail_block;
  }

  chain-freed : (h : Heap) → chain (freed h) ≡ free_blocks address (chain h)
  unfolding chain free_blocks
  chain-freed h = free_blocks-append h.before_tail (h.tail_block ∷ [])

  -- To free the data area of a block with an intact header succeeds, and tells whether the block was
  -- allocated. The block is then free, and the heap keeps its invariant.
  pub kfree-Inv :
      (h : Heap) (b : BlockMeta)
      → Inv h
      → find_block address (chain h) ≡ some b
      → b.magic ≡ magic_number
      → (h' : Heap) × (kfree address h ≡ ok (b.allocated, h'))
        × Inv h'
        × (kallocated address h' ≡ ok false)
  unfolding kfree kallocated
  kfree-Inv h b inv found intact =
      let again : find_block address (chain (freed h)) ≡ some (record b { allocated = false }) =
        ap (find_block address) (chain-freed h) ∙ find_block-free_blocks (chain h) b found in
      let good : (b.magic == magic_number) ≡ true = ground arith in
      (freed h, rw (found, good) refl, freed-Inv h inv, rw (again, good) refl)
