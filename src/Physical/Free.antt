-- ===== src/Physical/Free.antt =====
-- `free_physical_page` against `alloc_physical_page`, the wipe of new pages, and `init`.
use native.Mathlib.Decide.{dec_lt}
use speedy_os.Common.{
  ℕ, zero, suc, ◌+◌, ◌-◌, ◌*◌, ◌^◌, ◌≤◌, ◌<◌, ◌≡◌, ◌⊎◌, refl, ap, ◌∙◌, Bool, true, false, List, [],
  ◌∷◌, some, get_elem?, set, lt_of_get_elem?, get_elem?-set_self, ◌==◌, if◌then◌else◌, add32, mul32,
  ok, arith, u32_mod,
}
use speedy_os.Physical.{
  Physical, mark_blocks, wipe_words, page_address, page_index, alloc_physical_page,
  free_physical_page,
}
use speedy_os.Physical.FirstFit.{AllFree}
use speedy_os.Physical.Alloc.{alloc_physical_page-inv, alloc_physical_page-at, alloc_at}

set-set_restore :
    (m : List Bool) (i : ℕ) → get_elem? m i ≡ some false → set (set m i true) i false ≡ m
set-set_restore [] i h = refl
set-set_restore (true ∷ m) zero h = cc
set-set_restore (false ∷ m) zero h = refl
set-set_restore (x ∷ m) (suc i) h = ap (λ t. x ∷ t) (set-set_restore m i h)

-- The address of a page leads back to the page, below the end of the address space.
pub page_index-page_address : (s : ℕ) → s < 2 ^ 20 → page_index (page_address s) ≡ s
unfolding page_index page_address
page_index-page_address s h = omega arith

wipe_words_out :
    (k : ℕ) (mem : ℕ → ℕ) (a b : ℕ)
    → a + 4 * k < u32_mod
    → (b < a) ⊎ (a + 4 * k ≤ b)
    → wipe_words k mem a b ≡ mem b
unfolding wipe_words
wipe_words_out zero mem a b small h = refl
wipe_words_out (suc k) mem a b small h =
    let next : add32 a 4 ≡ a + 4 = omega arith in
    rw next (
      wipe_words_out k (λ c. if c == a then 0 else mem c) (a + 4) b (omega arith) (omega arith)
      ∙ ground arith)

wipe_words_in :
    (k : ℕ) (mem : ℕ → ℕ) (a j : ℕ)
    → a + 4 * k < u32_mod
    → j < k
    → wipe_words k mem a (a + 4 * j) ≡ 0
unfolding wipe_words
wipe_words_in zero mem a j small h = absurd (omega arith)
wipe_words_in (suc k) mem a j small h =
    let next : add32 a 4 ≡ a + 4 = omega arith in
    let mem' : ℕ → ℕ = λ c. if c == a then 0 else mem c in
    rw next (elim (dec_lt 0 j) [
      | yes pos ↦
          let e : a + 4 * j ≡ a + 4 + 4 * (j - 1) = omega arith in
          rw e (wipe_words_in k mem' (a + 4) (j - 1) (omega arith) (omega arith))
      | no here ↦
          let e : a + 4 * j ≡ a = omega arith in
          rw e (wipe_words_out k mem' (a + 4) a (omega arith) (omega arith) ∙ ground arith)
    ])

-- An allocation with `reset` hands out zeroed pages, and writes to no other memory.
pub alloc_physical_page-reset :
    (count : ℕ) (p : Physical) {a : ℕ} {q : Physical}
    → alloc_physical_page count true p ≡ ok (a, q)
    → a + 4096 * count < u32_mod
    → ((j : ℕ) → j < 1024 * count → q.memory (a + 4 * j) ≡ 0)
      × ((b : ℕ) → (b < a) ⊎ (a + 4096 * count ≤ b) → q.memory b ≡ p.memory b)
alloc_physical_page-reset count p {a} {q} e small =
    let (start, free, at, marked, wiped) = alloc_physical_page-inv count true p e in
    let words : mul32 1024 count ≡ 1024 * count = omega arith in
    (
      λ j h. rw (wiped, ← at, words) (wipe_words_in (1024 * count) p.memory a j (omega arith) h),
      λ b h.
          rw (wiped, ← at, words)
            (wipe_words_out (1024 * count) p.memory a b (omega arith) (omega arith)),
    )

set_same : (m : List Bool) (i : ℕ) → get_elem? m i ≡ some false → set m i false ≡ m
set_same [] i h = refl
set_same (true ∷ m) zero h = cc
set_same (false ∷ m) zero h = refl
set_same (x ∷ m) (suc i) h = ap (λ t. x ∷ t) (set_same m i h)

free_at :
    (a : ℕ) (p : Physical) (s : ℕ) {b : Bool}
    → page_index a ≡ s
    → get_elem? p.data_meta s ≡ some b
    → free_physical_page a p ≡ ok (b, record p { data_meta = set p.data_meta s false })
unfolding free_physical_page
free_at a p s e h = rw (e, h)

-- While an addressable page is free, freeing the page that was just allocated answers true and
-- gives the page table back as it was; freeing it once more answers false and changes nothing.
pub free_physical_page-alloc_physical_page :
    (reset : Bool) (p : Physical) (target : ℕ)
    → target < 2 ^ 20
    → get_elem? p.data_meta target ≡ some false
    → (a : ℕ) × (q r s : Physical) × (alloc_physical_page 1 reset p ≡ ok (a, q))
      × (free_physical_page a q ≡ ok (true, r))
      × (r.data_meta ≡ p.data_meta)
      × (free_physical_page a r ≡ ok (false, s))
      × (s.data_meta ≡ p.data_meta)
unfolding mark_blocks
free_physical_page-alloc_physical_page reset p target small free =
    let fit : AllFree p.data_meta target 1 =
      λ j h. let e : target + j ≡ target = omega arith in rw e free in
    let (start, done, run, first) = alloc_physical_page-at 1 reset p target (omega arith) fit in
    let below : start ≤ target = elim (dec_lt target start) [
      | yes h ↦ absurd (first target h fit)
      | no h ↦ omega arith
    ] in
    let e0 : start + 0 ≡ start = omega arith in
    let was_free : get_elem? p.data_meta start ≡ some false = rw e0 at (run 0 (omega arith)) in
    let inside = lt_of_get_elem? p.data_meta start was_free in
    let index = page_index-page_address start (omega arith) in
    let q = alloc_at 1 reset p start in
    let now_taken : get_elem? q.data_meta start ≡ some true =
      get_elem?-set_self p.data_meta start true inside in
    let restored : set q.data_meta start false ≡ p.data_meta =
      set-set_restore p.data_meta start was_free in
    let r = record q { data_meta = p.data_meta } in
    (
      page_address start,
      q,
      r,
      record r { data_meta = set p.data_meta start false },
      done,
      free_at (page_address start) q start index now_taken
          ∙ ap (λ m. ok (true, record q { data_meta = m })) restored,
      refl,
      free_at (page_address start) r start index was_free,
      set_same p.data_meta start was_free,
    )
