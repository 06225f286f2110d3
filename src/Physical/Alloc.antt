-- ===== src/Physical/Alloc.antt =====
-- What `alloc_physical_page` and `free_physical_page` do to the page table and to the memory.
use native.Mathlib.Decide.{dec_lt}
use speedy_os.Common.{
  ℕ, zero, suc, ◌+◌, ◌-◌, ◌≤◌, ◌<◌, ◌≡◌, ◌⊎◌, inl, inr, refl, ap, sym, subst, u32_mod, ◌∙◌, ◌*◌,
  Bool, true, List, some, get_elem?, set, length, length-set, get_elem?-set_self, get_elem?-set_ne,
  if◌then◌else◌, add32, mul32, ok-inversion, ok, fault, arith,
}
use speedy_os.Physical.{
  find_blocks, Physical, mark_blocks, wipe_words, page_address, alloc_physical_page, data_location,
}
use speedy_os.Physical.FirstFit.{
  AllFree, lt_of_AllFree, find_blocks-Found, find_blocks-AllFree, not-AllFree, find_blocks-fault,
}

pub length-mark_blocks : (k : ℕ) (m : List Bool) (o : ℕ) → length (mark_blocks k m o) ≡ length m
unfolding mark_blocks
length-mark_blocks zero m o = refl
length-mark_blocks (suc k) m o = length-mark_blocks k (set m o true) (o + 1) ∙ length-set m o true

pub get_elem?-mark_blocks_out :
    (k : ℕ) (m : List Bool) (o j : ℕ)
    → (j < o) ⊎ (o + k ≤ j)
    → get_elem? (mark_blocks k m o) j ≡ get_elem? m j
unfolding mark_blocks
get_elem?-mark_blocks_out zero m o j h = refl
get_elem?-mark_blocks_out (suc k) m o j h =
    get_elem?-mark_blocks_out k (set m o true) (o + 1) j (omega arith)
    ∙ get_elem?-set_ne m o j true (omega arith)

pub get_elem?-mark_blocks_in :
    (k : ℕ) (m : List Bool) (o j : ℕ)
    → o ≤ j
    → j < o + k
    → j < length m
    → get_elem? (mark_blocks k m o) j ≡ some true
unfolding mark_blocks
get_elem?-mark_blocks_in zero m o j h1 h2 h3 = absurd (omega arith)
get_elem?-mark_blocks_in (suc k) m o j h1 h2 h3 = elim (dec_lt o j) [
  | yes h ↦
      get_elem?-mark_blocks_in k (set m o true) (o + 1) j (omega arith) (omega arith)
        (omega (arith, length-set m o true))
  | no h ↦
      let e : o ≡ j = omega arith in
      get_elem?-mark_blocks_out k (set m o true) (o + 1) j (omega arith)
      ∙ rw e (get_elem?-set_self m j true h3)
]

-- A run that was free is taken when it has been marked.
pub taken_after :
    (count : ℕ) (m : List Bool) (s : ℕ)
    → AllFree m s count
    → (j : ℕ) → s ≤ j
    → j < s + count
    → get_elem? (mark_blocks count m s) j ≡ some true
taken_after count m s free j h1 h2 =
    let inside = lt_of_AllFree m s count (j - s) free (omega arith) in
    get_elem?-mark_blocks_in count m s j h1 h2 (omega arith)

-- The outcome of an allocation of `count` pages: where they lie, and what it changes.
pub record Allocated (count : ℕ) (p : Physical) (address : ℕ) (p' : Physical) : Type 0 where
  pub start : ℕ
  pub located : address ≡ page_address start
  pub free : AllFree p.data_meta start count
  pub first : (o : ℕ) → o < start → ¬ AllFree p.data_meta o count
  pub taken : (j : ℕ) → start ≤ j → j < start + count → get_elem? p'.data_meta j ≡ some true
  pub others :
      (j : ℕ)
      → (j < start) ⊎ (start + count ≤ j)
      → get_elem? p'.data_meta j ≡ get_elem? p.data_meta j

module _ (count : ℕ) (reset : Bool) (p : Physical) where
  -- the state that an allocation at `start` leaves
  abbrev pub alloc_at : ℕ → Physical
  alloc_at start = record p {
    data_meta = mark_blocks count p.data_meta start;
    memory =
        if reset then wipe_words (mul32 1024 count) p.memory (page_address start) else p.memory;
    reserved_blocks = add32 p.reserved_blocks 1;
  }

  alloc_at-Allocated :
      (start : ℕ)
      → AllFree p.data_meta start count
      → ((o : ℕ) → o < start → ¬ AllFree p.data_meta o count)
      → Allocated count p (page_address start) (alloc_at start)
  alloc_at-Allocated start free first = record {
    start = start;
    located = refl;
    free = free;
    first = first;
    taken = taken_after count p.data_meta start free;
    others = λ j h. get_elem?-mark_blocks_out count p.data_meta start j h;
  }

  -- With a free run at `target` the allocation is at the first free run, which is no later.
  pub alloc_physical_page-at :
      (target : ℕ)
      → 0 < count
      → AllFree p.data_meta target count
      → (start : ℕ) × (alloc_physical_page count reset p ≡ ok (page_address start, alloc_at start))
        × AllFree p.data_meta start count
        × ((o : ℕ) → o < start → ¬ AllFree p.data_meta o count)
  unfolding alloc_physical_page
  alloc_physical_page-at target pos fit =
      let found =
        find_blocks-Found p.data_meta count pos (length p.data_meta + 1) target 0 0 fit
          (omega arith) (omega arith) (λ j h. absurd (omega arith)) (omega arith) in
      (found.start, rw found.result, found.free, λ o h. found.first o (omega arith) h)

  -- As long as some run of `count` pages is free, an allocation succeeds: it takes the first such
  -- run, marks exactly its pages as taken, and returns the address of its first page.
  pub alloc_physical_page-first_fit :
      (target : ℕ)
      → 0 < count
      → AllFree p.data_meta target count
      → (address : ℕ) × (p' : Physical) × (alloc_physical_page count reset p ≡ ok (address, p'))
        × Allocated count p address p'
  alloc_physical_page-first_fit target pos fit =
      let (start, done, free, first) = alloc_physical_page-at target pos fit in
      (page_address start, alloc_at start, done, alloc_at-Allocated start free first)

  -- When no run of `count` pages is free, an allocation does not return: the search leaves the
  -- table of pages.
  pub alloc_physical_page-fault :
      0 < count
      → ((o : ℕ) → ¬ AllFree p.data_meta o count)
      → alloc_physical_page count reset p ≡ fault
  unfolding alloc_physical_page
  alloc_physical_page-fault pos none_fit = rw (
      find_blocks-fault p.data_meta count pos (length p.data_meta + 1) 0 0 (λ o h. none_fit o)
        (omega arith) (omega arith) (λ j h. absurd (omega arith)) (omega arith))

-- What a successful allocation returns, and the run of pages that it has taken.
pub alloc_physical_page-inv :
    (count : ℕ) (reset : Bool) (p : Physical) {a : ℕ} {q : Physical}
    → alloc_physical_page count reset p ≡ ok (a, q)
    → (start : ℕ) × AllFree p.data_meta start count
      × (a ≡ page_address start)
      × (q.data_meta ≡ mark_blocks count p.data_meta start)
      × (q.memory ≡ (
          if reset then wipe_words (mul32 1024 count) p.memory (page_address start) else p.memory))
unfolding alloc_physical_page
alloc_physical_page-inv count reset p {a} {q} e =
    let search = find_blocks (length p.data_meta + 1) p.data_meta count 0 0 in
    let (start, found, rest) = ok-inversion search e in
    (
      start,
      find_blocks-AllFree (length p.data_meta + 1) p.data_meta count 0 0 found (omega arith)
          (λ j h. absurd (omega arith)),
      ground arith,
      ground arith,
      ground arith,
    )

-- Two runs of entries, of which the second is free where the first is taken.
runs_apart :
    (m : List Bool) (s t count count' : ℕ)
    → 0 < count
    → 0 < count'
    → ((j : ℕ) → s ≤ j → j < s + count → get_elem? m j ≡ some true)
    → AllFree m t count'
    → (s + count ≤ t) ⊎ (t + count' ≤ s)
runs_apart m s t count count' pos pos' taken free = elim (dec_lt t (s + count)) [
  | no h ↦ inl (omega arith)
  | yes h ↦ elim (dec_lt s (t + count')) [
    | no h' ↦ inr (omega arith)
    | yes h' ↦ elim (dec_lt s t) [
      | yes l ↦
          absurd
            (not-AllFree m count' t t (taken t (omega arith) h) (omega arith) (omega arith) free)
      | no l ↦
          absurd
            (not-AllFree m count' t s (taken s (omega arith) (omega arith)) (omega arith) h' free)
    ]
  ]
]

-- The address of a run of pages that lies in the table, and its end.
page_address-bounded :
    (m : List Bool) (start count : ℕ)
    → data_location + length m * 4096 ≤ u32_mod
    → 0 < count
    → AllFree m start count
    → (page_address start ≡ data_location + start * 4096)
      × (data_location + start * 4096 + count * 4096 ≤ u32_mod)
unfolding page_address
page_address-bounded m start count bound pos free =
    let inside = lt_of_AllFree m start count (count - 1) free (omega arith) in
    (omega arith, omega arith)

-- Where the pages of the table lie in the address space, two allocations of one page or more, one
-- after the other, that both succeed return areas of memory from `data_location` on that end within
-- the address space and do not overlap: one ends before the other starts.
pub alloc_physical_page-disjoint :
    (count count' : ℕ) (reset reset' : Bool) (p : Physical) {p' p'' : Physical} {a b : ℕ}
    → data_location + length p.data_meta * 4096 ≤ u32_mod
    → 0 < count
    → 0 < count'
    → alloc_physical_page count reset p ≡ ok (a, p')
    → alloc_physical_page count' reset' p' ≡ ok (b, p'')
    → ((data_location ≤ a) × (a + count * 4096 ≤ u32_mod))
      × ((data_location ≤ b) × (b + count' * 4096 ≤ u32_mod))
      × ((a + count * 4096 ≤ b) ⊎ (b + count' * 4096 ≤ a))
alloc_physical_page-disjoint count count' reset reset' p {p'} bound pos pos' e e' =
    let (s, free, at, marked, _) = alloc_physical_page-inv count reset p e in
    let (t, free', at', _, _) = alloc_physical_page-inv count' reset' p' e' in
    let same : length p'.data_meta ≡ length p.data_meta =
      ap length marked ∙ length-mark_blocks count p.data_meta s in
    let taken : (j : ℕ) → s ≤ j → j < s + count → get_elem? p'.data_meta j ≡ some true =
      subst (λ m. (j : ℕ) → s ≤ j → j < s + count → get_elem? m j ≡ some true) (sym marked)
        (taken_after count p.data_meta s free) in
    let (exact, end) = page_address-bounded p.data_meta s count bound pos free in
    let (exact', end') = page_address-bounded p'.data_meta t count' (omega arith) pos' free' in
    let apart = runs_apart p'.data_meta s t count count' pos pos' taken free' in
    ((omega arith, omega arith), (omega arith, omega arith), omega arith)
