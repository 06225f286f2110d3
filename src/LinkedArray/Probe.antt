-- ===== src/LinkedArray/Probe.antt =====
-- `probe_index` of the linked array finds a free entry.
use speedy_os.Common.{
  ℕ, zero, suc, ◌+◌, ◌≤◌, ◌<◌, ◌≡◌, ◌≢◌, refl, sym, subst, ◌⊎◌, inl, inr, List, [], ◌∷◌, ◌++◌, true,
  false, ◌==◌, Bool-cases, length, length-append, arith, ok, ap,
}
use speedy_os.LinkedArray.{null_pointer, slot, LinkedArray, find_slot, probe_index}
use speedy_os.LinkedArray.Links.{Each, Each-middle, Each-insert, Fresh}
use speedy_os.LinkedArray.Inv.{Slot, Cached, Inv}

Fresh-cases :
    (a : ℕ) (cs : List ℕ) → Fresh a cs ⊎ ((xs : List ℕ) × (ys : List ℕ) × (cs ≡ xs ++ (a ∷ ys)))
unfolding Each
Fresh-cases a [] = inl tt
Fresh-cases a (c ∷ cs) = elim (Bool-cases (c == a)) [
  | inl e ↦ inr ([], cs, ap (λ x. x ∷ cs) (ground arith))
  | inr e ↦ elim (Fresh-cases a cs) [
    | inl f ↦ inl ((λ i. ground arith), f)
    | inr (xs, ys, i) ↦ inr (c ∷ xs, ys, ap (λ x. c ∷ x) i)
  ]
]

-- A list that holds the first `n` slots has `n` entries.
pigeonhole : (n : ℕ) (cs : List ℕ) → ((j : ℕ) → j < n → Fresh (slot j) cs → ⊥) → n ≤ length cs
pigeonhole zero cs h = omega arith
pigeonhole (suc n) cs h = elim (Fresh-cases (slot n) cs) [
  | inl f ↦ absurd (h n (omega arith) f)
  | inr (xs, ys, e) ↦
      let rest = pigeonhole n (xs ++ ys) (λ j lt f.
        h j (omega arith)
          (subst (Fresh (slot j)) (sym e) (Each-insert _ xs (slot n) ys (λ i. omega arith) f))) in
      let len = length-append xs (slot n ∷ ys) in
      let len' = length-append xs ys in let len'' = ap length e in omega arith
]

Cached-used :
    (capacity : ℕ) (cs : List ℕ) (a : ℕ)
    → Cached capacity cs a
    → a ≢ null_pointer
    → Slot capacity a × Fresh a cs
Cached-used capacity cs a (inl e) n = absurd (n e)
Cached-used capacity cs a (inr h) n = h

module _ {ℓ} {A : Type ℓ} (l : LinkedArray A) where
  find_slot-cases :
      (k i : ℕ)
      → i + k ≡ l.capacity
      → ((a : ℕ) × (find_slot k i l ≡ ok a) × Slot l.capacity a × (l.entry_occupied a ≡ false))
        ⊎ ((j : ℕ) → i ≤ j → j < l.capacity → l.entry_occupied (slot j) ≡ true)
  unfolding find_slot
  find_slot-cases zero i e = inr (λ j h h'. absurd (omega arith))
  find_slot-cases (suc k) i e = elim (Bool-cases (l.entry_occupied (slot i))) [
    | inr free ↦ inl (slot i, rw free refl, (omega arith, omega arith), free)
    | inl taken ↦ elim (find_slot-cases k (i + 1) (omega arith)) [
      | inl (a, found, slot_a, free) ↦ inl (a, rw taken found, slot_a, free)
      | inr all ↦ inr (λ j h h'. elim (Bool-cases (j == i)) [
        | inl same ↦ subst (λ x. l.entry_occupied (slot x) ≡ true) (ground arith) taken
        | inr other ↦ all j (ground arith) h'
      ])
    ]
  ]

  find_slot-Fresh :
      (cs : List ℕ)
      → Inv l cs
      → (a : ℕ) × (find_slot l.capacity 0 l ≡ ok a) × Slot l.capacity a × Fresh a cs
  find_slot-Fresh cs inv = elim (find_slot-cases l.capacity 0 (omega arith)) [
    | inl (a, found, slot_a, free) ↦ (
      a,
      found,
      slot_a,
      elim (Fresh-cases a cs) [
        | inl f ↦ f
        | inr (xs, ys, e) ↦
            let taken = Each-middle _ xs a ys (subst (Each _) e inv.taken) in absurd (ground arith)
      ],
    )
    | inr all ↦
        let full = pigeonhole l.capacity cs (λ j h f.
          let free = inv.free (slot j) (omega arith, omega arith) f in
          let taken = all j (omega arith) h in ground arith) in
        absurd (omega (arith, full, inv.room))
  ]

  -- The caches may be overwritten.
  pub with_caches-Inv :
      (cs : List ℕ) (b b' : ℕ)
      → Inv l cs
      → Cached l.capacity cs b
      → Cached l.capacity cs b'
      → (b ≡ b' → b ≡ null_pointer)
      → Inv (record l { next_index = b; next_index_2 = b' }) cs
  with_caches-Inv cs b b' inv c c' once = record {
    linked = inv.linked;
    distinct = inv.distinct;
    slots = inv.slots;
    taken = inv.taken;
    free = inv.free;
    count = inv.count;
    room = inv.room;
    small = inv.small;
    cached = c;
    cached_2 = c';
    cached_once = once;
  }

  -- The entry that `probe_index` answers is free, and no cache names it any more.
  pub probe_index-Inv :
      (cs : List ℕ)
      → Inv l cs
      → (a : ℕ) × (l' : LinkedArray A) × (probe_index l ≡ ok (a, l'))
        × Slot l.capacity a
        × Fresh a cs
        × Inv l' cs
        × (l'.next_index ≢ a)
        × (l'.next_index_2 ≢ a)
        × (l'.value ≡ l.value)
        × (l'.capacity ≡ l.capacity)
  unfolding probe_index
  probe_index-Inv cs inv = elim (Bool-cases (l.next_index == null_pointer)) [
    | inr used ↦
        let (slot_a, fresh) = Cached-used l.capacity cs l.next_index inv.cached (ground arith) in
        let once = inv.cached_once in
        (
          l.next_index,
          record l { next_index = null_pointer },
          rw used refl,
          slot_a,
          fresh,
          with_caches-Inv cs null_pointer l.next_index_2 inv (inl refl) inv.cached_2 (λ e. refl),
          λ e. ground arith,
          λ e. ground arith,
          refl,
          refl,
        )
    | inl none1 ↦ elim (Bool-cases (l.next_index_2 == null_pointer)) [
      | inr used ↦
          let (slot_a, fresh) =
            Cached-used l.capacity cs l.next_index_2 inv.cached_2 (ground arith) in
          (
            l.next_index_2,
            record l { next_index_2 = null_pointer },
            rw (none1, used) refl,
            slot_a,
            fresh,
            with_caches-Inv cs l.next_index null_pointer inv inv.cached (inl refl) (λ e. e),
            λ e. ground arith,
            λ e. ground arith,
            refl,
            refl,
          )
      | inl none2 ↦
          let (a, found, slot_a, fresh) = find_slot-Fresh cs inv in
          (
            a,
            l,
            rw (none1, none2, found) refl,
            slot_a,
            fresh,
            inv,
            (λ e. ground arith),
            (λ e. ground arith),
            refl,
            refl,
          )
    ]
  ]
