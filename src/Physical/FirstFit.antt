-- ===== src/Physical/FirstFit.antt =====
-- The search loop of `alloc_physical_page`: it finds the first run of free pages.
use speedy_os.Common.{
  ℕ, zero, suc, ◌+◌, ◌-◌, ◌≤◌, ◌<◌, ◌≡◌, inl, inr, refl, Bool, true, false, List, some, get_elem?,
  length, lt_of_get_elem?, get_elem?-Bool-cases, get_elem?-none_of_le, ◌==◌, Bool-cases,
  Option-cases, Run, ok, fault, arith,
}
use native.Mathlib.Decide.{dec_lt}
use speedy_os.Physical.{find_blocks}

-- The `count` entries from `offset` on are there, and are free.
abbrev pub AllFree : List Bool → ℕ → ℕ → Type 0
AllFree m offset count = (j : ℕ) → j < count → get_elem? m (offset + j) ≡ some false

-- What the search finds from `offset` on: the first run of free entries.
pub record Found (m : List Bool) (count offset : ℕ) (r : Run ℕ) : Type 0 where
  pub start : ℕ
  pub result : r ≡ ok start
  pub free : AllFree m start count
  pub later : offset ≤ start
  pub first : (o : ℕ) → offset ≤ o → o < start → ¬ AllFree m o count

-- A taken entry is in no free run.
pub not-AllFree :
    (m : List Bool) (count o k : ℕ)
    → get_elem? m k ≡ some true
    → o ≤ k
    → k < o + count
    → ¬ AllFree m o count
not-AllFree m count o k t h1 h2 free =
    let f = free (k - o) (omega arith) in
    let e : o + (k - o) ≡ k = omega arith in let g : get_elem? m k ≡ some false = rw e at f in cc

-- Free runs lie in the table.
pub lt_of_AllFree :
    (m : List Bool) (o count j : ℕ) → AllFree m o count → j < count → o + j < length m
lt_of_AllFree m o count j free h = lt_of_get_elem? m (o + j) (free j h)

AllFree-suc :
    (m : List Bool) (o i : ℕ)
    → AllFree m o i
    → get_elem? m (o + i) ≡ some false
    → AllFree m o (i + 1)
AllFree-suc m o i free e j h = elim (Bool-cases (j == i)) [
  | inl s ↦ let q : j ≡ i = ground arith in rw q e
  | inr n ↦ free j (ground arith)
]

skip-le :
    (m : List Bool) (count offset i target : ℕ)
    → AllFree m target count
    → offset ≤ target
    → i < count
    → get_elem? m (offset + i) ≡ some true
    → offset + (i + 1) ≤ target
skip-le m count offset i target fit le lt taken = elim (dec_lt (offset + i) target) [
  | yes h ↦ omega arith
  | no h ↦ absurd (not-AllFree m count target (offset + i) taken (omega arith) (omega arith) fit)
]

-- A search that goes on behind a taken entry has skipped no free run.
Found-skip :
    (m : List Bool) (count offset i : ℕ) {r : Run ℕ}
    → i < count
    → get_elem? m (offset + i) ≡ some true
    → Found m count (offset + (i + 1)) r
    → Found m count offset r
Found-skip m count offset i lt taken found = record {
  start = found.start;
  result = found.result;
  free = found.free;
  later = omega (arith, found.later);
  first = λ o h h'. elim (dec_lt (offset + i) o) [
    | yes behind ↦ found.first o (omega arith) h'
    | no before ↦ not-AllFree m count o (offset + i) taken (omega arith) (omega arith)
  ];
}

module _ (m : List Bool) (count : ℕ) (pos : 0 < count) where
  -- The search ends with the first free run, given that there is one at `target`.
  pub find_blocks-Found :
      (k target offset i : ℕ)
      → AllFree m target count
      → offset ≤ target
      → i ≤ count
      → AllFree m offset i
      → length m < k + offset + i
      → Found m count offset (find_blocks k m count offset i)
  unfolding find_blocks
  find_blocks-Found zero target offset i fit le small seen fuel =
      absurd (omega (arith, lt_of_AllFree m target count (count - 1) fit (omega arith)))
  find_blocks-Found (suc k) target offset i fit le small seen fuel =
      elim (Bool-cases (i == count)) [
        | inl done ↦ rw done (record {
          start = offset;
          result = refl;
          free = λ j h. seen j (ground arith);
          later = omega arith;
          first = λ o h h'. absurd (omega arith);
        })
        | inr more ↦
            let lt : i < count = ground arith in
            let inside : offset + i < length m =
              omega (arith, lt_of_AllFree m target count i fit lt) in
            elim (get_elem?-Bool-cases m (offset + i) inside) [
              | inl taken ↦
                  let skip = skip-le m count offset i target fit le lt taken in
                  rw (more, taken)
                    (Found-skip m count offset i lt taken (
                      find_blocks-Found k target (offset + (i + 1)) 0 fit skip (omega arith)
                        (λ j h. absurd (omega arith)) (omega arith)))
              | inr free ↦
                  rw (more, free)
                    (find_blocks-Found k target offset (i + 1) fit le (omega arith)
                      (AllFree-suc m offset i seen free) (omega arith))
            ]
      ]

  -- With no free run from `offset` on the search leaves the table.
  pub find_blocks-fault :
      (k offset i : ℕ)
      → ((o : ℕ) → offset ≤ o → ¬ AllFree m o count)
      → i ≤ count
      → offset + i ≤ length m
      → AllFree m offset i
      → length m < k + offset + i
      → find_blocks k m count offset i ≡ fault
  unfolding find_blocks
  find_blocks-fault zero offset i none_fit small inside seen fuel = absurd (omega arith)
  find_blocks-fault (suc k) offset i none_fit small inside seen fuel =
      elim (Bool-cases (i == count)) [
        | inl done ↦
            let e : i ≡ count = ground arith in
            absurd (none_fit offset (omega arith) (rw e at seen))
        | inr more ↦ elim (dec_lt (offset + i) (length m)) [
          | no out ↦ rw (more, get_elem?-none_of_le m (offset + i) (omega arith))
          | yes within ↦ elim (get_elem?-Bool-cases m (offset + i) within) [
            | inl taken ↦
                rw (more, taken)
                  (find_blocks-fault k (offset + (i + 1)) 0 (λ o h. none_fit o (omega arith))
                    (omega arith) (omega arith) (λ j h. absurd (omega arith)) (omega arith))
            | inr free ↦
                rw (more, free)
                  (find_blocks-fault k offset (i + 1) none_fit (ground arith) (omega arith)
                    (AllFree-suc m offset i seen free) (omega arith))
          ]
        ]
      ]

-- Whatever the search returns is a free run.
pub find_blocks-AllFree :
    (k : ℕ) (m : List Bool) (count offset i : ℕ) {r : ℕ}
    → find_blocks k m count offset i ≡ ok r
    → i ≤ count
    → AllFree m offset i
    → AllFree m r count
unfolding find_blocks
find_blocks-AllFree zero m count offset i e small seen = cc
find_blocks-AllFree (suc k) m count offset i {r} e small seen = elim (Bool-cases (i == count)) [
  | inl done ↦
      let q : i ≡ count = ground arith in let o : offset ≡ r = ground arith in rw (← o, ← q) seen
  | inr more ↦ elim (Option-cases (get_elem? m (offset + i))) [
    | inl out ↦ absurd (ground arith)
    | inr (true, taken) ↦
        find_blocks-AllFree k m count (offset + (i + 1)) 0 (rw (more, taken) at e) (omega arith)
          (λ j h. absurd (omega arith))
    | inr (false, free) ↦
        find_blocks-AllFree k m count offset (i + 1) (rw (more, free) at e) (ground arith)
          (AllFree-suc m offset i seen free)
  ]
]
