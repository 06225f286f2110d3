-- ===== src/KernelHeap/Spans.antt =====
-- Spans of addresses, and the pages that they lie in.
use native.Mathlib.Decide.{dec_lt}
use speedy_os.Common.{
  ℕ, ◌+◌, ◌-◌, ◌*◌, ◌/◌, ◌≤◌, ◌<◌, ◌≡◌, ◌⊎◌, inl, inr, Bool, true, false, List, some, get_elem?,
  arith,
}
use speedy_os.Physical.{data_location}
use speedy_os.Physical.FirstFit.{AllFree}

-- The pages of the addresses from `low` to before `high` are all marked as `state`.
abbrev pub Marked : List Bool → Bool → ℕ → ℕ → Type 0
Marked m state low high =
    (a : ℕ) → low ≤ a → a < high → get_elem? m ((a - data_location) / 4096) ≡ some state

-- One span ends before the other starts.
abbrev pub Apart : ℕ → ℕ → ℕ → ℕ → Type 0
Apart low high low' high' = (high ≤ low') ⊎ (high' ≤ low)

-- A span of taken pages and one of free pages are apart.
pub Apart-of_Marked :
    (m : List Bool) (low high low' high' : ℕ)
    → low < high
    → low' < high'
    → Marked m true low high
    → Marked m false low' high'
    → Apart low high low' high'
Apart-of_Marked m low high low' high' pos pos' taken free = elim (dec_lt low' high) [
  | no h ↦ inl (omega arith)
  | yes h ↦ elim (dec_lt low high') [
    | no h' ↦ inr (omega arith)
    | yes h' ↦ elim (dec_lt low low') [
      | yes l ↦ absurd (ground (arith, taken low' (omega arith) h, free low' (omega arith) pos'))
      | no l ↦ absurd (ground (arith, taken low (omega arith) pos, free low (omega arith) h'))
    ]
  ]
]

-- A free run of pages, as a span.
pub Marked-of_AllFree :
    (m : List Bool) (start count : ℕ)
    → AllFree m start count
    → Marked m false (data_location + start * 4096) (data_location + (start + count) * 4096)
Marked-of_AllFree m start count free a low high =
    let page = (a - data_location) / 4096 in
    let e : start + (page - start) ≡ page = omega arith in
    let f = free (page - start) (omega arith) in rw e at f
