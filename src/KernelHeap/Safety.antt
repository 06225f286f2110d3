-- ===== src/KernelHeap/Safety.antt =====
-- `kmalloc` hands out memory that no live block uses.
use mathlib.Core.List.{append_assoc, append-nil}
use speedy_os.Common.{
  ℕ, ◌+◌, ◌*◌, ◌%◌, ◌≤◌, ◌<◌, ◌≡◌, ◌≢◌, inl, inr, refl, ◌⊎◌, length, ap, ◌∙◌, ◌-◌, subst, sym, Bool,
  true, false, List, [], ◌∷◌, ◌++◌, u32_mod, All, All-append, All-append-inv, All-map, Bool-cases,
  arith, leb, ok, add32,
}
use speedy_os.Physical.{Physical, page_address}
use speedy_os.Physical.FirstFit.{AllFree}
use speedy_os.Physical.Alloc.{alloc_at, alloc_physical_page-at}
use speedy_os.KernelHeap.{
  BlockMeta, Heap, header, new_block, append, use_up, next_free_area, remaining_page_size, clear_if,
  extend, required_pages, data_address, occupy, is_suitable, kmalloc, chain,
}
use speedy_os.KernelHeap.Inv.{
  Inv, block_end, page_end, Sound, Outside, Separate, Claimed, claim-Claimed, suitable_lem,
  Separate-middle, Separate-occupy, All-occupy,
}
use speedy_os.KernelHeap.Extend.{
  next_free_area-eq, append-Inv, use_up-Inv, page, page_address-eq, old_apart, new_page-Inv,
  Sound-bounded,
}

-- A block is apart from each allocated one of a list.
abbrev pub ApartFromLive : BlockMeta → List BlockMeta → Type 0
ApartFromLive b bs = All (λ c. c.allocated ≡ true → Outside b.address (block_end b) c) bs

-- What a request of `size` bytes gives: the data area, which lies in the address space, of a block
-- that is large enough and overlaps no live one. The block is in the chain afterwards, allocated;
-- the other blocks are those from before, where the block was among them and free, or all blocks
-- from before with at most a filler.
pub record Given (size : ℕ) (h : Heap) (a : ℕ) (h' : Heap) : Type 0 where
  pub block : BlockMeta
  pub before : List BlockMeta
  pub after : List BlockMeta
  pub listed : chain h' ≡ before ++ (occupy block ∷ after)
  pub was :
      ((block.allocated ≡ false) × (chain h ≡ before ++ (block ∷ after)))
      ⊎ ((after ≡ [])
          × (filler : List BlockMeta) × (before ≡ chain h ++ filler)
          × (length filler ≤ 1))
  pub located : a ≡ data_address block
  pub bounded : block_end block ≤ u32_mod
  pub large : size ≤ block.size
  pub apart : ApartFromLive block (chain h)
  pub kept : Inv h'

clear_if-Inv : (reset : Bool) (b : BlockMeta) (h : Heap) → Inv h → Inv (clear_if reset b h)
clear_if-Inv false b h inv = inv
clear_if-Inv true b h inv = record {
  sound = inv.sound;
  tail_sound = inv.tail_sound;
  separate = inv.separate;
  tail_apart = inv.tail_apart;
  fits = inv.fits;
}

chain-clear_if : (reset : Bool) (b : BlockMeta) (h : Heap) → chain (clear_if reset b h) ≡ chain h
unfolding chain
chain-clear_if false b h = refl
chain-clear_if true b h = refl

-- The blocks of the chain end within the address space.
block_end-bounded :
    (h : Heap) (b : BlockMeta) (before after : List BlockMeta)
    → Inv h
    → chain h ≡ before ++ (b ∷ after)
    → block_end b ≤ u32_mod
unfolding chain
block_end-bounded h b before after inv e =
    let m = h.physical.data_meta in
    let all : All (Sound m) (before ++ (b ∷ after)) =
      subst (All (Sound m)) e
        (All-append _ h.before_tail (h.tail_block ∷ []) inv.sound (inv.tail_sound, tt)) in
    let (_, (sound, _)) = All-append-inv (Sound m) before (b ∷ after) all in
    Sound-bounded m b inv.fits sound

module _ (size : ℕ) (h h' : Heap) (block : BlockMeta) (before after : List BlockMeta) where
  given :
      chain h' ≡ before ++ (occupy block ∷ after)
      → ((block.allocated ≡ false) × (chain h ≡ before ++ (block ∷ after)))
        ⊎ ((after ≡ [])
            × (filler : List BlockMeta) × (before ≡ chain h ++ filler)
            × (length filler ≤ 1))
      → size ≤ block.size
      → ApartFromLive block (chain h)
      → Inv h'
      → Given size h (data_address block) h'
  given listed was large apart kept = record {
    block = block;
    before = before;
    after = after;
    listed = listed;
    was = was;
    located = refl;
    bounded = block_end-bounded h' (occupy block) before after kept listed;
    large = large;
    apart = apart;
    kept = kept;
  }

-- At most one block is put behind the tail before new pages are taken.
chain-use_up :
    (h : Heap)
    → (filler : List BlockMeta) × (chain (use_up h) ≡ chain h ++ filler) × (length filler ≤ 1)
unfolding chain use_up
chain-use_up h = elim (Bool-cases (leb (header + 20) (remaining_page_size h))) [
  | inl e ↦
      (new_block (next_free_area h) (remaining_page_size h - header) ∷ [], rw e refl, omega arith)
  | inr e ↦ ([], rw e (sym (append-nil (chain h))), omega arith)
]

-- Blocks that are all apart from a span are, whether live or not.
live :
    (b : BlockMeta) (bs : List BlockMeta)
    → All (Outside b.address (block_end b)) bs
    → ApartFromLive b bs
live b bs o = All-map _ _ bs (λ c p _. p) o

required_pages-fits :
    (size : ℕ) → size + header < u32_mod → size + header ≤ required_pages size * 4096
required_pages-fits size bound = ground arith

module _ (size : ℕ) (reset : Bool) (h : Heap) (inv : Inv h) where
  -- A suitable block of the chain is handed out again.
  Claimed-Given :
      (b : BlockMeta) (bs : List BlockMeta)
      → Claimed size h.before_tail b bs
      → Given size h (data_address b) (clear_if reset b (record h { before_tail = bs }))
  unfolding chain
  Claimed-Given b bs r =
      let t = h.tail_block in
      let (free, large) = suitable_lem size b r.suitable in
      let (f, l) = Separate-middle r.first b r.last (subst Separate r.was inv.separate) in
      let (_, (tail, _)) =
        All-append-inv _ r.first (b ∷ r.last)
          (subst (All (Outside t.address (page_end (block_end t)))) r.was inv.tail_apart) in
      given size h (clear_if reset b (record h { before_tail = bs })) b r.first (r.last ++ (t ∷ []))
        (chain-clear_if reset b (record h { before_tail = bs })
          ∙ ap (λ cs. cs ++ (t ∷ [])) r.becomes
          ∙ append_assoc r.first (occupy b ∷ r.last) (t ∷ []))
        (inl (free, ap (λ cs. cs ++ (t ∷ [])) r.was ∙ append_assoc r.first (b ∷ r.last) (t ∷ [])))
        large
        (All-append _ h.before_tail (t ∷ [])
          (subst (ApartFromLive b) (sym r.was) (
            All-append _ r.first (b ∷ r.last) (live b r.first f)
              ((λ e. absurd (ground arith)), live b r.last l)))
          ((λ _. omega arith), tt))
        (clear_if-Inv reset b (record h { before_tail = bs })
          (record {
            sound = subst (All (Sound h.physical.data_meta)) (sym r.becomes) (
                All-occupy (Sound h.physical.data_meta) r.first b r.last (λ s. s)
                  (subst (All (Sound h.physical.data_meta)) r.was inv.sound));
            tail_sound = inv.tail_sound;
            separate =
                subst Separate (sym r.becomes)
                  (Separate-occupy r.first b r.last (subst Separate r.was inv.separate));
            tail_apart = subst (All (Outside t.address (page_end (block_end t)))) (sym r.becomes) (
                All-occupy (Outside t.address (page_end (block_end t))) r.first b r.last (λ s. s)
                  (subst (All (Outside t.address (page_end (block_end t)))) r.was inv.tail_apart));
            fits = inv.fits;
          }))

  -- So is a suitable tail.
  tail-Given :
      is_suitable size h.tail_block ≡ true
      → Given size h
          (data_address h.tail_block)
          (clear_if reset h.tail_block (record h { tail_block = occupy h.tail_block }))
  unfolding chain
  tail-Given e =
      let t = h.tail_block in
      let (free, large) = suitable_lem size t e in
      given size h (clear_if reset t (record h { tail_block = occupy t })) t h.before_tail []
        (chain-clear_if reset t (record h { tail_block = occupy t })) (inl (free, refl)) large
        (All-append _ h.before_tail (t ∷ [])
          (live t h.before_tail (All-map _ _ h.before_tail (λ c o. omega arith) inv.tail_apart))
          ((λ e. absurd (ground arith)), tt))
        (clear_if-Inv reset t (record h { tail_block = occupy t })
          (record {
            sound = inv.sound;
            tail_sound = inv.tail_sound;
            separate = inv.separate;
            tail_apart = inv.tail_apart;
            fits = inv.fits;
          }))

  module _ (inside : block_end h.tail_block % 4096 ≢ 0) (bound : size + header < u32_mod) where
    extend-Given :
        (target : ℕ)
        → AllFree h.physical.data_meta target (required_pages size)
        → (a : ℕ) × (h' : Heap) × (extend size reset h ≡ ok (a, h')) × Given size h a h'
    unfolding extend chain
    extend-Given target fit = elim (Bool-cases (leb (add32 header size) (remaining_page_size h))) [
      | inl e ↦
          let t = h.tail_block in
          let b = new_block (next_free_area h) size in
          let next = next_free_area-eq h inv inside in
          let fits : header + size + block_end t % 4096 ≤ 4096 = ground (arith, next) in
          (
            data_address b,
            clear_if reset b (append b h),
            rw e refl,
            given size h (clear_if reset b (append b h)) b (chain h) []
                (chain-clear_if reset b (append b h))
                (inr (refl, [], sym (append-nil (chain h)), omega arith)) (omega arith)
                (All-append _ h.before_tail (t ∷ [])
                  (live b h.before_tail
                    (All-map _ _ h.before_tail (λ c o. omega arith) inv.tail_apart))
                  ((λ _. omega arith), tt))
                (clear_if-Inv reset b (append b h) (
                  subst (λ n. Inv (append (new_block n size) h)) (sym next)
                    (append-Inv h inv inside size fits))),
          )
      | inr e ↦
          let t = h.tail_block in
          let count = required_pages size in
          let pos : 0 < count = ground arith in
          let h1 = use_up h in
          let (filler, grown, short) = chain-use_up h in
          let (inv1, same) = use_up-Inv h inv inside in
          let back = λ (s : ℕ) (f : AllFree h1.physical.data_meta s count).
            subst (λ (q : Physical). AllFree q.data_meta s count) same f in
          let (start, run, free1, _) =
            alloc_physical_page-at count false h1.physical target pos
              (subst (λ (q : Physical). AllFree q.data_meta target count) (sym same) fit) in
          let free = back start free1 in
          let fits = required_pages-fits size bound in
          let at = page_address-eq h1 inv1 start count size free1 pos fits in
          let b = new_block (page_address start) size in
          let h2 = record h1 { physical = alloc_at count false h1.physical start } in
          (
            data_address b,
            clear_if reset b (append b h2),
            rw (e, run) refl,
            given size h (clear_if reset b (append b h2)) b (chain h1) []
                (chain-clear_if reset b (append b h2)) (inr (refl, filler, grown, short))
                (omega arith)
                (All-map _ _ (h.before_tail ++ (t ∷ []))
                  (λ c p _.
                    let o : Outside (page h inv start count size free pos fits)
                        (page_end (page h inv start count size free pos fits + header + size)) c =
                      old_apart h inv start count size free pos fits c p in
                    omega (arith, at))
                  (All-append _ h.before_tail (t ∷ []) inv.sound (inv.tail_sound, tt)))
                (clear_if-Inv reset b (append b h2) (
                  subst (λ n. Inv (append (new_block n size) h2)) (sym at)
                    (new_page-Inv h1 inv1 start count size free1 pos fits
                      (alloc_at count false h1.physical start) refl))),
          )
    ]

    -- On a heap whose blocks lie in taken pages without overlap, and whose tail does not end with a
    -- page, a request that does not wrap, for which enough pages are free, is met. The block is
    -- large enough, ends within the address space and overlaps no allocated block. Afterwards it
    -- is in the chain and allocated, where it was before and free or at the end; the other blocks
    -- are as they were, with at most one more before a block at the end; and the heap keeps its
    -- invariant.
    pub kmalloc-Given :
        (target : ℕ)
        → AllFree h.physical.data_meta target (required_pages size)
        → (a : ℕ) × (h' : Heap) × (kmalloc size reset h ≡ ok (a, h')) × Given size h a h'
    unfolding kmalloc
    kmalloc-Given target fit = elim (claim-Claimed size h.before_tail) [
      | inl (b, bs, found, r) ↦ (_, _, rw (found, kmalloc) refl, Claimed-Given b bs r)
      | inr none_found ↦ elim (Bool-cases (is_suitable size h.tail_block)) [
        | inl e ↦ (_, _, rw (none_found, e, kmalloc) refl, tail-Given e)
        | inr e ↦
            let (a, h', run, given) = extend-Given target fit in
            (a, h', rw (none_found, e, kmalloc) run, given)
      ]
    ]
