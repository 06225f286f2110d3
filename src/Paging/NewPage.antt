-- ===== src/Paging/NewPage.antt =====
-- A page that is allocated and cleared, among the words that are in use.
use native.Mathlib.Decide.{dec_lt}
use speedy_os.Common.{
  ℕ, ◌+◌, ◌-◌, ◌*◌, ◌/◌, ◌%◌, ◌≤◌, ◌<◌, ◌≡◌, ◌≢◌, ◌⊎◌, inl, inr, ◌∙◌, subst, true, false, some,
  update, get_elem?, u32_mod, ok, arith,
}
use speedy_os.Physical.{Physical, data_location, page_address, alloc_physical_page}
use speedy_os.Physical.FirstFit.{AllFree}
use speedy_os.Physical.Alloc.{alloc_physical_page-first_fit}
use speedy_os.Physical.Free.{alloc_physical_page-reset}

-- An address in a page that is taken, or below all pages.
abbrev pub IsHeld : Physical → (address : ℕ) → Type 0
IsHeld p address =
    (address < data_location)
    ⊎ (get_elem? p.data_meta ((address - data_location) / 4096) ≡ some true)

-- The address of a page of the table, below the end of the address space.
pub page_address-exact :
    (start : ℕ) → start < 1043967 → page_address start ≡ data_location + start * 4096
unfolding page_address
page_address-exact start h = omega arith

module _ (target : ℕ) (p : Physical) (fit : AllFree p.data_meta target 1)
    (low : target < 1043967) where
  -- A page that is allocated: it was free, it is marked as taken, and no other page is. It lies
  -- in the address space, and an address that is held keeps its word.
  pub record NewPage (page : ℕ) (q : Physical) : Type 0 where
    pub run : alloc_physical_page 1 true p ≡ ok (page, q)
    pub frame : ℕ
    pub located : page ≡ data_location + frame * 4096
    pub was_free : get_elem? p.data_meta frame ≡ some false
    pub taken : get_elem? q.data_meta frame ≡ some true
    pub rest : (j : ℕ) → j ≢ frame → get_elem? q.data_meta j ≡ get_elem? p.data_meta j
    pub above : data_location ≤ page
    pub bounded : page + 4096 < u32_mod
    pub aligned : page % 4096 ≡ 0
    pub apart : (b : ℕ) → IsHeld p b → (b < page) ⊎ (page + 4096 ≤ b)
    pub kept : (b : ℕ) → IsHeld p b → q.memory b ≡ p.memory b
    pub cleared : (j : ℕ) → j < 1024 → q.memory (page + 4 * j) ≡ 0

  held-apart :
      (start page b : ℕ)
      → AllFree p.data_meta start 1
      → page ≡ data_location + start * 4096
      → IsHeld p b
      → (b < page) ⊎ (page + 4096 * 1 ≤ b)
  held-apart start page b free exact (inl below) = inl (omega arith)
  held-apart start page b free exact (inr taken) = elim (dec_lt b page) [
    | yes l ↦ inl l
    | no n ↦ elim (dec_lt b (page + 4096)) [
      | no n' ↦ inr (omega arith)
      | yes l ↦
          let e : (b - data_location) / 4096 ≡ start + 0 = omega arith in
          let f : get_elem? p.data_meta (start + 0) ≡ some true = rw e at taken in
          let g = free 0 (omega arith) in absurd cc
    ]
  ]

  pub new_page : (page : ℕ) × (q : Physical) × NewPage page q
  new_page =
      let (page, q, run, at) = alloc_physical_page-first_fit 1 true p target (omega arith) fit in
      let start_low : at.start ≤ target = elim (dec_lt target at.start) [
        | yes l ↦ absurd (at.first target l fit)
        | no n ↦ omega arith
      ] in
      let exact = at.located ∙ page_address-exact at.start (omega arith) in
      let bounded : page + 4096 < u32_mod = omega arith in
      let (cleared, kept) = alloc_physical_page-reset 1 p run (omega arith) in
      (
        page,
        q,
        record {
          run = run;
          frame = at.start;
          located = exact;
          was_free =
              subst (λ n. get_elem? p.data_meta n ≡ some false) (omega arith)
                (at.free 0 (omega arith));
          taken = at.taken at.start (omega arith) (omega arith);
          rest = λ j other. at.others j (omega arith);
          above = omega (arith, exact);
          bounded = bounded;
          aligned = omega arith;
          apart = λ b held. held-apart at.start page b at.free exact held;
          kept = λ b held. kept b (held-apart at.start page b at.free exact held);
          cleared = λ j h. cleared j (omega arith);
        },
      )

-- A word that has been written.
pub update-here : (f : ℕ → ℕ) (a v : ℕ) → update f a v a ≡ v
update-here f a v = ground arith

pub update-elsewhere : (f : ℕ → ℕ) (a v b : ℕ) → b ≢ a → update f a v b ≡ f b
update-elsewhere f a v b h = ground arith
