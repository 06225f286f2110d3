-- ===== src/LinkedArray/Push.antt =====
-- `push` and `unshift` of the linked array, which grow the storage where they have to.
use speedy_os.Common.{
  ℕ, ◌+◌, ◌≤◌, ◌<◌, ◌≡◌, ◌≢◌, refl, sym, subst, ◌∙◌, inl, inr, List, [], ◌∷◌, ◌++◌, true, false,
  Bool-cases, length, map, update, if◌then◌else◌, arith, Run, ok, step-through, ap, u32_mod, ltb,
  ◌^◌, ◌>>=◌, add32,
}
use mathlib.Core.List.{append-nil}
use speedy_os.LinkedArray.{
  head, tail, LinkedArray, Allocation, resize, probe_index, push, unshift, link_last, link_first,
  fill_entry, linked_array,
}
use speedy_os.LinkedArray.Links.{
  Each, Fresh, Distinct, Linked, Linked-last, Linked-first, Linked-link_last, Linked-link_first,
}
use speedy_os.LinkedArray.Inv.{Slot, Inv, Distinct-ends, link-Inv}
use speedy_os.LinkedArray.Probe.{probe_index-Inv}
use speedy_os.LinkedArray.Resize.{resize-Inv, length-slots_from}
use speedy_os.LinkedArray.Represents.{
  Represents, map-update, map-append, Entry, Entries-of_Slots, write_prev-Entry, write_next-Entry,
}

-- The largest capacity that grows in bounds.
abbrev pub largest : ℕ
largest = 2 ^ 30

-- What is asked of the allocation: a new storage is clear, and a product is larger than the
-- capacity and within 32 bits. The first is not ensured by the code: the entries come from
-- `kmalloc`, which leaves in a block what it held before.
pub record IsSound {ℓ} {A : Type ℓ} (allocation : Allocation A) : Type ℓ where
  pub clear : (a : ℕ) → allocation.fresh_occupied a ≡ false
  pub double_grows :
      (c : ℕ)
      → 2 ≤ c
      → c < largest
      → (c < allocation.double c) × (allocation.double c + 1 < u32_mod)
  pub times_1_9_grows :
      (c : ℕ)
      → 2 ≤ c
      → c < largest
      → (c < allocation.times_1_9 c) × (allocation.times_1_9 c + 1 < u32_mod)

module _ {ℓ} {A : Type ℓ} (allocation : Allocation A) (sound : IsSound allocation) where
  -- A run answers an array with the values of `l` at `cs`, and with room for another.
  Roomy : LinkedArray A → List ℕ → Run (LinkedArray A) → Type ℓ
  Roomy l cs run =
      (l' : LinkedArray A) × (cs' : List ℕ) × (run ≡ ok l')
      × Inv l' cs'
      × (map l'.value cs' ≡ map l.value cs)
      × (length cs' + 1 < l'.capacity)
      × (2 ≤ l'.capacity)

  make_room :
      (l : LinkedArray A) (new_capacity : ℕ) (cs : List ℕ)
      → Inv l cs
      → 2 ≤ l.capacity
      → l.capacity < new_capacity
      → new_capacity + 1 < u32_mod
      → Roomy l cs
          (if ltb l.capacity (add32 l.occupied 2) then resize allocation new_capacity l else ok l)
  unfolding Roomy
  make_room l new_capacity [] inv two grows small =
      let fits : ltb l.capacity (add32 l.occupied 2) ≡ false = ground (arith, inv.count) in
      (l, [], rw fits refl, inv, refl, omega arith, two)
  make_room l new_capacity (d ∷ ds) inv two grows small =
      elim (Bool-cases (ltb l.capacity (add32 l.occupied 2))) [
        | inl e ↦
            let (l', run, inv', same, cap) =
              resize-Inv allocation l new_capacity d ds sound.clear inv (omega (arith, inv.room))
                small in
            let len = length-slots_from 0 (length (d ∷ ds)) in
            (l', _, rw e run, inv', same, omega (arith, inv.room, cap, len), omega arith)
        | inr e ↦
            (l, d ∷ ds, rw e refl, inv, refl, ground (arith, inv.count, inv.room, inv.small), two)
      ]

  link_last-Represents :
      (l : LinkedArray A) (cs : List ℕ) (a : ℕ) (v : A)
      → Inv l cs
      → Slot l.capacity a
      → Fresh a cs
      → l.next_index ≢ a
      → l.next_index_2 ≢ a
      → length cs + 1 < l.capacity
      → (l' : LinkedArray A) × (link_last allocation l a v ≡ ok l')
        × Represents l' (map l.value cs ++ (v ∷ []))
  unfolding link_last fill_entry Represents Each
  link_last-Represents l cs a v inv slot_a fresh ne ne_2 room =
      let last =
        Linked-last (Entry l.capacity) l.next l.prev head cs tail
          (refl, Entries-of_Slots l.capacity cs inv.slots) inv.linked in
      let nil = append-nil cs in
      let (low, high) = slot_a in
      let here : update l.value a v a ≡ v = ground arith in
      (
        _,
        rw (write_next-Entry (fill_entry allocation l a v tail (l.prev tail)) (l.prev tail) last a)
            refl,
        (
          cs ++ (a ∷ []),
          link-Inv l cs a [] _ _ _ (subst (Inv l) (sym nil) inv) slot_a
              (subst (Fresh a) (sym nil) fresh) ne ne_2
              (subst (λ z. length z + 1 < l.capacity) (sym nil) room)
              (Linked-link_last l.next l.prev head cs tail a
                (Distinct-ends l.capacity cs inv.slots inv.distinct)
                (ground arith, (ground arith, fresh)) inv.linked),
          map-append (update l.value a v) cs (a ∷ [])
              ∙ rw (map-update l.value a v cs fresh, here) refl,
          omega arith,
        ),
      )

  link_first-Represents :
      (l : LinkedArray A) (cs : List ℕ) (a : ℕ) (v : A)
      → Inv l cs
      → Slot l.capacity a
      → Fresh a cs
      → l.next_index ≢ a
      → l.next_index_2 ≢ a
      → length cs + 1 < l.capacity
      → (l' : LinkedArray A) × (link_first allocation l a v ≡ ok l')
        × Represents l' (v ∷ map l.value cs)
  unfolding link_first fill_entry Represents Each
  link_first-Represents l cs a v inv slot_a fresh ne ne_2 room =
      let first =
        Linked-first (Entry l.capacity) l.next l.prev head cs tail
          (refl, Entries-of_Slots l.capacity cs inv.slots) inv.linked in
      let (low, high) = slot_a in
      let here : update l.value a v a ≡ v = ground arith in
      (
        record l {
          next = update (update l.next a (l.next head)) head a;
          prev = update (update l.prev a head) (l.next head) a;
          value = update l.value a v;
          entry_occupied = update l.entry_occupied a true;
          occupied = add32 l.occupied 1;
        },
        rw (write_prev-Entry (fill_entry allocation l a v (l.next head) head) (l.next head) first a)
            refl,
        (
          a ∷ cs,
          link-Inv l [] a cs _ _ _ inv slot_a fresh ne ne_2 room (
              Linked-link_first l.next l.prev head cs tail a
                (Distinct-ends l.capacity cs inv.slots inv.distinct)
                (ground arith, (ground arith, fresh)) inv.linked),
          rw (map-update l.value a v cs fresh, here) refl,
          omega arith,
        ),
      )

  -- A free entry of an array with the values of `l`, in which it can be linked.
  Prepared : LinkedArray A → List ℕ → Run (ℕ × LinkedArray A) → Type ℓ
  Prepared l cs run =
      (a : ℕ) × (l' : LinkedArray A) × (cs' : List ℕ) × (run ≡ ok (a, l'))
      × Inv l' cs'
      × Slot l'.capacity a
      × Fresh a cs'
      × (l'.next_index ≢ a)
      × (l'.next_index_2 ≢ a)
      × (length cs' + 1 < l'.capacity)
      × (map l'.value cs' ≡ map l.value cs)

  prepare :
      (l : LinkedArray A) (new_capacity : ℕ) (cs : List ℕ)
      → Inv l cs
      → 2 ≤ l.capacity
      → (l.capacity < new_capacity) × (new_capacity + 1 < u32_mod)
      → Prepared l cs (
          (if ltb l.capacity (add32 l.occupied 2) then resize allocation new_capacity l else ok l)
          >>= probe_index)
  unfolding Prepared Roomy
  prepare l new_capacity cs inv two (grows, small) =
      let (l1, cs1, run1, inv1, same1, room, _) = make_room l new_capacity cs inv two grows small in
      let (a, l2, run2, slot_a, fresh, inv2, ne, ne_2, same2, cap2) = probe_index-Inv l1 cs1 inv1 in
      (
        a,
        l2,
        cs1,
        rw run1 run2,
        inv2,
        subst (λ z. Slot z a) (sym cap2) slot_a,
        fresh,
        ne,
        ne_2,
        omega (arith, room, cap2),
        ap (λ f. map f cs1) same2 ∙ same1,
      )

  -- If a new storage has no entry marked as occupied, which `kmalloc` does not see to, and if the
  -- products of a capacity are larger and within 32 bits: from an array that represents `vs`, below
  -- a capacity of 2 ^ 30, `push` makes one that represents `vs` and the new value after it, the
  -- storage grown where it has to be.
  pub push-snoc :
      (l : LinkedArray A) (vs : List A) (v : A)
      → Represents l vs
      → l.capacity < largest
      → (l' : LinkedArray A) × (push allocation v l ≡ ok l') × Represents l' (vs ++ (v ∷ []))
  unfolding push Prepared Represents
  push-snoc l vs v (cs, inv, e, two) bound =
      let (a, l2, cs', run, inv2, slot_a, fresh, ne, ne_2, room, same) =
        prepare l (allocation.double l.capacity) cs inv two
          (sound.double_grows l.capacity two bound) in
      let (l3, run3, result) = link_last-Represents l2 cs' a v inv2 slot_a fresh ne ne_2 room in
      (
        l3,
        step-through _ probe_index (λ (b, l4). link_last allocation l4 b v) run ∙ run3,
        subst (λ z. Represents l3 (z ++ (v ∷ []))) (same ∙ e) result,
      )

  -- With the same assumptions, from an array that represents `vs`, below a capacity of 2 ^ 30,
  -- `unshift` makes one that
  -- represents `vs` and the new value before it, the storage grown where it has to be.
  pub unshift-cons :
      (l : LinkedArray A) (vs : List A) (v : A)
      → Represents l vs
      → l.capacity < largest
      → (l' : LinkedArray A) × (unshift allocation v l ≡ ok l') × Represents l' (v ∷ vs)
  unfolding unshift Prepared Represents
  unshift-cons l vs v (cs, inv, e, two) bound =
      let (a, l2, cs', run, inv2, slot_a, fresh, ne, ne_2, room, same) =
        prepare l (allocation.times_1_9 l.capacity) cs inv two
          (sound.times_1_9_grows l.capacity two bound) in
      let (l3, run3, result) = link_first-Represents l2 cs' a v inv2 slot_a fresh ne ne_2 room in
      (
        l3,
        step-through _ probe_index (λ (b, l4). link_first allocation l4 b v) run ∙ run3,
        subst (λ z. Represents l3 (v ∷ z)) (same ∙ e) result,
      )

  -- The constructor makes an array that represents the empty list.
  pub linked_array-Represents :
      (n : ℕ) → 2 ≤ n → n + 1 < u32_mod → Represents (linked_array allocation n) []
  unfolding linked_array Represents Linked Distinct Each
  linked_array-Represents n two small = (
    [],
    record {
      linked = (refl, refl);
      distinct = tt;
      slots = tt;
      taken = tt;
      free = λ a (low, high) f. let c = sound.clear a in ground arith;
      count = refl;
      room = omega arith;
      small = small;
      cached = inl refl;
      cached_2 = inl refl;
      cached_once = λ e. refl;
    },
    refl,
    two,
  )
