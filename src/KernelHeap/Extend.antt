-- ===== src/KernelHeap/Extend.antt =====
-- The heap grows: a new block in the rest of the last page, or in new pages.
use native.Mathlib.Decide.{dec_lt}
use speedy_os.Common.{
  ℕ, ◌+◌, ◌-◌, ◌*◌, ◌/◌, ◌%◌, ◌≤◌, ◌<◌, ◌≡◌, ◌≢◌, inl, inr, refl, ap, subst, sym, ◌∙◌, Bool, true,
  List, [], ◌∷◌, ◌++◌, some, get_elem?, length, lt_of_get_elem?, u32_mod, All, All-append, All-map,
  if◌then◌else◌, if-cases, arith, leb,
}
use speedy_os.Physical.{Physical, data_location, mark_blocks, page_address}
use speedy_os.Physical.FirstFit.{AllFree, lt_of_AllFree}
use speedy_os.Physical.Alloc.{
  length-mark_blocks, get_elem?-mark_blocks_out, get_elem?-mark_blocks_in, taken_after,
}
use speedy_os.KernelHeap.{BlockMeta, Heap, header, new_block, append, use_up, next_free_area}
use speedy_os.KernelHeap.Spans.{Marked, Apart-of_Marked, Marked-of_AllFree}
use speedy_os.KernelHeap.Inv.{Inv, block_end, page_end, Sound, Outside, Separate-snoc}

-- A block in the pages of the table ends within the address space.
pub Sound-bounded :
    (m : List Bool) (b : BlockMeta)
    → data_location + length m * 4096 ≤ u32_mod
    → Sound m b
    → block_end b ≤ u32_mod
Sound-bounded m b fits (low, marked) =
    let last = block_end b - 1 in
    let lt =
      lt_of_get_elem? m ((last - data_location) / 4096) (marked last (omega arith) (omega arith)) in
    omega arith

module _ (h : Heap) (inv : Inv h) where
  -- The tail ends within the memory.
  tail_end_bound : block_end h.tail_block ≤ u32_mod
  tail_end_bound = Sound-bounded h.physical.data_meta h.tail_block inv.fits inv.tail_sound

  module _ (inside : block_end h.tail_block % 4096 ≢ 0) where
    pub next_free_area-eq : next_free_area h ≡ block_end h.tail_block
    next_free_area-eq = omega (arith, tail_end_bound)

    -- The rest of the tail's page is taken.
    rest_taken :
        Marked h.physical.data_meta true h.tail_block.address (page_end (block_end h.tail_block))
    rest_taken a low high = elim (dec_lt a (block_end h.tail_block)) [
      | yes l ↦ inv.tail_sound.1 a low l
      | no l ↦
          let last = block_end h.tail_block - 1 in
          let start : data_location ≤ h.tail_block.address = inv.tail_sound.0 in
          let same : (last - data_location) / 4096 ≡ (a - data_location) / 4096 = omega arith in
          subst (λ j. get_elem? h.physical.data_meta j ≡ some true) same
            (inv.tail_sound.1 last (omega arith) (omega arith))
    ]

    -- A block that fits behind the tail in its page.
    pub append-Inv :
        (size : ℕ)
        → header + size + block_end h.tail_block % 4096 ≤ 4096
        → Inv (append (new_block (block_end h.tail_block) size) h)
    append-Inv size room =
        let t = h.tail_block in
        let start : data_location ≤ t.address = inv.tail_sound.0 in
        record {
          sound = All-append _ h.before_tail (t ∷ []) inv.sound (inv.tail_sound, tt);
          tail_sound = (omega arith, λ a low high. rest_taken a (omega arith) (omega arith));
          separate =
              Separate-snoc h.before_tail t inv.separate
                (All-map _ _ h.before_tail (λ c o. omega arith) inv.tail_apart);
          tail_apart =
              All-append _ h.before_tail (t ∷ [])
                (All-map _ _ h.before_tail (λ c o. omega arith) inv.tail_apart) (omega arith, tt);
          fits = inv.fits;
        }

    use_up-eq : use_up h ≡ (
        if leb (header + 20) (4096 - block_end h.tail_block % 4096)
        then append
            (new_block (block_end h.tail_block) (4096 - block_end h.tail_block % 4096 - header))
            h
        else h)
    unfolding use_up
    use_up-eq =
        ap
          (λ (n : ℕ).
            if leb (header + 20) (4096 - n % 4096)
            then append (new_block n (4096 - n % 4096 - header)) h
            else h)
          next_free_area-eq

    -- What is left of the page may become a block.
    pub use_up-Inv : Inv (use_up h) × ((use_up h).physical ≡ h.physical)
    use_up-Inv =
        subst (λ g. Inv g × (g.physical ≡ h.physical)) (sym use_up-eq)
          (if-cases (λ (g : Heap). Inv g × (g.physical ≡ h.physical))
            (leb (header + 20) (4096 - block_end h.tail_block % 4096)) _ _
            (λ e. (append-Inv _ (ground arith), refl)) (λ e. (inv, refl)))

-- Marking keeps what was taken.
mark_blocks-keeps :
    (k : ℕ) (m : List Bool) (o j : ℕ)
    → get_elem? m j ≡ some true
    → get_elem? (mark_blocks k m o) j ≡ some true
mark_blocks-keeps k m o j e = elim (dec_lt j o) [
  | yes l ↦ get_elem?-mark_blocks_out k m o j (inl l) ∙ e
  | no l ↦ elim (dec_lt j (o + k)) [
    | no l' ↦ get_elem?-mark_blocks_out k m o j (inr (omega arith)) ∙ e
    | yes l' ↦ get_elem?-mark_blocks_in k m o j (omega arith) l' (lt_of_get_elem? m j e)
  ]
]

module _ (h : Heap) (inv : Inv h) (start count size : ℕ)
    (free : AllFree h.physical.data_meta start count) (pos : 0 < count)
    (fit : size + header ≤ count * 4096) where
  abbrev pub page : ℕ
  page = data_location + start * 4096

  pub page_address-eq : page_address start ≡ page
  unfolding page_address
  page_address-eq =
      let inside = lt_of_AllFree h.physical.data_meta start count (count - 1) free (omega arith) in
      omega (arith, inv.fits)

  -- The blocks that are there are apart from the new pages.
  pub old_apart :
      (b : BlockMeta)
      → Sound h.physical.data_meta b
      → Outside page (page_end (page + header + size)) b
  old_apart b (low, marked) =
      Apart-of_Marked h.physical.data_meta b.address (block_end b) page
        (page_end (page + header + size)) (omega arith) (omega arith) marked
        (λ a l u. Marked-of_AllFree h.physical.data_meta start count free a l (omega arith))

  kept :
      (b : BlockMeta)
      → Sound h.physical.data_meta b
      → Sound (mark_blocks count h.physical.data_meta start) b
  kept b (low, marked) =
      (low, λ a l u. mark_blocks-keeps count h.physical.data_meta start _ (marked a l u))

  -- A block in new pages.
  pub new_page-Inv :
      (p : Physical)
      → p.data_meta ≡ mark_blocks count h.physical.data_meta start
      → Inv (append (new_block page size) (record h { physical = p }))
  new_page-Inv p e =
      let t = h.tail_block in
      let m = h.physical.data_meta in
      let old = All-append _ h.before_tail (t ∷ []) inv.sound (inv.tail_sound, tt) in
      record {
        sound =
            subst (λ n. All (Sound n) (h.before_tail ++ (t ∷ []))) (sym e)
              (All-map _ _ (h.before_tail ++ (t ∷ [])) kept old);
        tail_sound = (
          omega arith,
          λ a l u.
              subst (λ n. get_elem? n ((a - data_location) / 4096) ≡ some true) (sym e)
                (taken_after count m start free ((a - data_location) / 4096) (omega arith)
                  (omega arith)),
        );
        separate =
            Separate-snoc h.before_tail t inv.separate
              (All-map _ _ h.before_tail (λ c o. omega arith) inv.tail_apart);
        tail_apart = All-map _ _ (h.before_tail ++ (t ∷ [])) old_apart old;
        fits =
            subst (λ n. data_location + length n * 4096 ≤ u32_mod) (sym e)
              (omega (arith, inv.fits, length-mark_blocks count m start));
      }
