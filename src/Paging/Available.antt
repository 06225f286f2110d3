-- ===== src/Paging/Available.antt =====
-- When preferred pages are free.
use speedy_os.Common.{
  ℕ, zero, suc, ◌*◌, ◌%◌, ◌<◌, ◌≡◌, ◌↔◌, refl, ap, sym, ◌∙◌, Bool, true, false, Option, none, some,
  if◌then◌else◌, add32, u32_mod, Bool-cases, inl, inr, ok, arith,
}
use speedy_os.Physical.{Physical}
use speedy_os.Paging.Fields.{present, entry_address}
use speedy_os.Paging.{
  pi_to_address, directory_slot, fetch_page_index, pages_free_loop, is_used,
  preferred_virtual_pages_free,
}

-- The entry of a page in memory: where its table is, if the directory has one.
pub lookup : (directories index : ℕ) → Physical → Option ℕ
lookup directories index p =
    let word = p.memory (directory_slot directories index) in
    if present word
    then some (add32 (pi_to_address (entry_address word)) (4 * (index % 1024)))
    else none

pub lookup-memory :
    (directories index : ℕ) (p p' : Physical)
    → p'.memory (directory_slot directories index) ≡ p.memory (directory_slot directories index)
    → lookup directories index p' ≡ lookup directories index p
unfolding lookup
lookup-memory directories index p p' e =
    ap
      (λ w.
        if present w
        then some (add32 (pi_to_address (entry_address w)) (4 * (index % 1024)))
        else none)
      e

-- No address is mapped for a page: it has no table, or its entry there is 0.
pub IsUnmapped : (directories index : ℕ) → Physical → Type 0
IsUnmapped directories index p =
    (entry : ℕ) → lookup directories index p ≡ some entry → p.memory entry ≡ 0

pub fetch_page_index-lookup :
    (directories index : ℕ) (p : Physical)
    → fetch_page_index directories index false p ≡ ok (lookup directories index p, p)
unfolding fetch_page_index lookup
fetch_page_index-lookup directories index p =
    elim (Bool-cases (present (p.memory (directory_slot directories index)))) [
      | inl t ↦ rw t refl
      | inr f ↦ rw f refl
    ]

is_used-IsUnmapped :
    (directories index : ℕ) (p : Physical)
    → (is_used (lookup directories index p) p ≡ false) ↔ IsUnmapped directories index p
unfolding is_used IsUnmapped
is_used-IsUnmapped directories index p = go (lookup directories index p) refl
  where
    go :
        (o : Option ℕ)
        → lookup directories index p ≡ o
        → (is_used o p ≡ false)
          ↔ ((entry : ℕ) → lookup directories index p ≡ some entry → p.memory entry ≡ 0)
    go none e = (λ h entry e'. absurd cc, λ h. refl)
    go (some a) e = (
      λ h entry e'.
          let same : a ≡ entry = cc in
          let z : p.memory a ≡ 0 = ground arith in ap p.memory (sym same) ∙ z,
      λ h. let z = h a e in ground arith,
    )

-- The pages from `index` on, `count` of them, are unmapped.
abbrev pub AllUnmapped : (directories index count : ℕ) → Physical → Type 0
AllUnmapped directories index count p =
    (i : ℕ) → i < count → IsUnmapped directories (add32 index i) p

shifted : (index j : ℕ) → add32 (add32 index 1) j ≡ add32 index (suc j)
shifted index j = omega arith

pages_free_loop-AllUnmapped :
    (k directories index : ℕ) (p : Physical)
    → index < u32_mod
    → (free : Bool) × (pages_free_loop k directories index p ≡ ok free)
      × ((free ≡ true) ↔ AllUnmapped directories index k p)
unfolding pages_free_loop
pages_free_loop-AllUnmapped zero directories index p h =
    (true, refl, (λ e i l. absurd (omega arith), λ a. refl))
pages_free_loop-AllUnmapped (suc k) directories index p h =
    let (free, run, iff) =
      pages_free_loop-AllUnmapped k directories (add32 index 1) p (omega arith) in
    let first = is_used-IsUnmapped directories index p in
    let here : add32 index 0 ≡ index = omega arith in
    elim (Bool-cases (is_used (lookup directories index p) p)) [
      | inl t ↦ (
        false,
        rw (fetch_page_index-lookup directories index p, t) refl,
        (
          λ e. absurd cc,
          λ all.
              let unused : is_used (lookup directories index p) p ≡ false =
                first.1 (rw here at (all 0 (omega arith))) in
              cc,
        ),
      )
      | inr f ↦ (
        free,
        rw (fetch_page_index-lookup directories index p, f) run,
        (
          λ e i. elim i as (λ i. i < suc k → IsUnmapped directories (add32 index i) p) [
            | zero ↦ λ l. rw here (first.0 f)
            | suc j ↦ λ l. rw (shifted index j) at (iff.0 e j (omega arith))
          ],
          λ all. iff.1 (λ j l. rw (shifted index j) (all (suc j) (omega arith))),
        ),
      )
    ]

-- Asking for `count` preferred pages returns, and answers true exactly if no entry is in use for
-- any of them: each has no table or an entry of 0. The index of the first page is below 2 ^ 32, and
-- the others follow it with the wrap-around.
pub preferred_virtual_pages_free-AllUnmapped :
    (directories virtual_index_start count : ℕ) (p : Physical)
    → virtual_index_start < u32_mod
    → (free : Bool) × (preferred_virtual_pages_free directories virtual_index_start count p
        ≡ ok free)
      × ((free ≡ true) ↔ AllUnmapped directories virtual_index_start count p)
unfolding preferred_virtual_pages_free
preferred_virtual_pages_free-AllUnmapped directories virtual_index_start count p h =
    pages_free_loop-AllUnmapped count directories virtual_index_start p h
