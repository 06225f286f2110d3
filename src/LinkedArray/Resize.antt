-- ===== src/LinkedArray/Resize.antt =====
-- `resize` of the linked array copies the chain to the start of a new storage, in order.
use speedy_os.Common.{
  ℕ, zero, suc, ◌+◌, ◌≤◌, ◌<◌, ◌≡◌, refl, sym, ◌∙◌, inl, List, [], ◌∷◌, true, false, ◌==◌, length,
  map, update, if◌then◌else◌, arith, ok, ap, u32_mod, ltb,
}
use speedy_os.LinkedArray.{
  null_pointer, head, tail, slot, LinkedArray, Allocation, copy_entry, copy_loop, with_storage,
  resize,
}
use speedy_os.LinkedArray.Links.{Each, Fresh, Distinct, Linked}
use speedy_os.LinkedArray.Inv.{Slot, Inv}

-- `n` entries from the slot `i` on.
pub slots_from : ℕ → ℕ → List ℕ
slots_from i zero = []
slots_from i (suc n) = slot i ∷ slots_from (i + 1) n

module _ {ℓ} {A : Type ℓ} (l : LinkedArray A) where
  -- The entries `ds`, the first of them after `p`, stand in the slots of `t` from `i` on.
  unfoldable Copied : LinkedArray A → ℕ → ℕ → List ℕ → Type ℓ
  Copied t i p [] = Unit
  Copied t i p (d ∷ ds) =
      (t.value (slot i) ≡ l.value d)
      × (t.entry_occupied (slot i) ≡ true)
      × (t.prev (slot i) ≡ (if p == head then head else i + 3))
      × (t.next (slot i) ≡ (if l.next d == tail then tail else slot (i + 1)))
      × Copied t (i + 1) d ds

  -- An entry that has not been written.
  Kept : LinkedArray A → LinkedArray A → ℕ → Type ℓ
  Kept target t a =
      (t.value a ≡ target.value a)
      × (t.entry_occupied a ≡ target.entry_occupied a)
      × (t.prev a ≡ target.prev a)
      × (t.next a ≡ target.next a)

  -- What the loop makes of `target`.
  record CopyOf (target : LinkedArray A) (i p : ℕ) (ds : List ℕ) (t : LinkedArray A) : Type ℓ where
    pub copied : Copied t i p ds
    pub below : (a : ℕ) → a < slot i → Kept target t a
    pub above : (a : ℕ) → slot (i + length ds) ≤ a → Kept target t a
    pub same_capacity : t.capacity ≡ target.capacity
    pub same_occupied : t.occupied ≡ target.occupied

  copy_loop-lem :
      (k i p : ℕ) (ds : List ℕ) (target : LinkedArray A)
      → Linked l.next l.prev p ds tail
      → Each (Slot l.capacity) ds
      → length ds < k
      → i + length ds ≤ target.capacity
      → (t : LinkedArray A) × (copy_loop k l (l.next p) i target ≡ ok (i + length ds, t))
        × CopyOf target i p ds t
  unfolding copy_loop copy_entry Linked Each Copied Kept
  copy_loop-lem zero i p ds target linked s h room = absurd (omega arith)
  copy_loop-lem (suc k) i p [] target (e, _) s h room = (
    target,
    rw e (ap (λ n. ok (n, target)) (omega arith)),
    record {
      copied = tt;
      below = λ a h'. (refl, refl, refl, refl);
      above = λ a h'. (refl, refl, refl, refl);
      same_capacity = refl;
      same_occupied = refl;
    },
  )
  copy_loop-lem (suc k) i p (d ∷ ds) target (e, e', rest) (s, ss) h room =
      let (t, run, copy) =
        copy_loop-lem k (i + 1) d ds (copy_entry l d i target) rest ss (omega arith)
          (omega arith) in
      let kept = copy.below in
      let (v, o, pr, nx) = copy.below (slot i) (omega arith) in
      (
        t,
        rw e (ground (arith, run)),
        record {
          copied = (ground arith, ground arith, ground arith, ground arith, copy.copied);
          below = λ a h'.
              let (v', o', pr', nx') = copy.below a (omega arith) in
              (ground arith, ground arith, ground arith, ground arith);
          above = λ a h'.
              let (v', o', pr', nx') = copy.above a (omega arith) in
              (ground arith, ground arith, ground arith, ground arith);
          same_capacity = copy.same_capacity;
          same_occupied = copy.same_occupied;
        },
      )

  -- The copies are linked as the entries were.
  Copied-Linked :
      (t : LinkedArray A) (next prev : ℕ → ℕ) (i p p' d : ℕ) (ds : List ℕ)
      → Copied t i p (d ∷ ds)
      → Linked l.next l.prev p (d ∷ ds) tail
      → Each (Slot l.capacity) (d ∷ ds)
      → ((j : ℕ) → (next (slot j) ≡ t.next (slot j)) × (prev (slot j) ≡ t.prev (slot j)))
      → next p' ≡ slot i
      → p' ≡ (if p == head then head else i + 3)
      → prev tail ≡ i + length ds + 4
      → Linked next prev p' (slots_from i (suc (length ds))) tail
  unfolding Copied Linked Each slots_from
  Copied-Linked t next prev i p p' d [] (v, o, pr, nx, _) (e, e', (n, n')) s same first start last =
      let (same_next, same_prev) = same i in
      (first, same_prev ∙ pr ∙ sym start, (ground arith, ground arith))
  Copied-Linked t next prev i p p' d (c ∷ ds) (v, o, pr, nx, copied) (e, e', (n, n', rest))
        (s, ((low, high), ss)) same first start last =
      let (same_next, same_prev) = same i in
      let (low_d, _) = s in
      (
        first,
        same_prev ∙ pr ∙ sym start,
        Copied-Linked t next prev (i + 1) d (slot i) c ds copied (n, n', rest) ((low, high), ss)
            same (ground arith) (ground arith) (ground arith),
      )

  Copied-values :
      (t : LinkedArray A) (i p : ℕ) (ds : List ℕ)
      → Copied t i p ds
      → map t.value (slots_from i (length ds)) ≡ map l.value ds
  unfolding Copied slots_from
  Copied-values t i p [] c = refl
  Copied-values t i p (d ∷ ds) (v, _, _, _, c) = rw (v, Copied-values t (i + 1) d ds c) refl

  Copied-taken :
      (t : LinkedArray A) (i p : ℕ) (ds : List ℕ)
      → Copied t i p ds
      → Each (λ c. t.entry_occupied c ≡ true) (slots_from i (length ds))
  unfolding Copied slots_from Each
  Copied-taken t i p [] c = tt
  Copied-taken t i p (d ∷ ds) (_, o, _, _, c) = (o, Copied-taken t (i + 1) d ds c)

slots_from-Fresh : (i n a : ℕ) → a < slot i → Fresh a (slots_from i n)
unfolding slots_from Each
slots_from-Fresh i zero a h = tt
slots_from-Fresh i (suc n) a h = (λ e. omega arith, slots_from-Fresh (i + 1) n a (omega arith))

slots_from-Distinct : (i n : ℕ) → Distinct (slots_from i n)
unfolding slots_from Distinct
slots_from-Distinct i zero = tt
slots_from-Distinct i (suc n) =
    (slots_from-Fresh (i + 1) n (slot i) (omega arith), slots_from-Distinct (i + 1) n)

slots_from-Slots : (capacity i n : ℕ) → i + n ≤ capacity → Each (Slot capacity) (slots_from i n)
unfolding slots_from Each
slots_from-Slots capacity i zero h = tt
slots_from-Slots capacity i (suc n) h =
    ((omega arith, omega arith), slots_from-Slots capacity (i + 1) n (omega arith))

pub length-slots_from : (i n : ℕ) → length (slots_from i n) ≡ n
unfolding slots_from
length-slots_from i zero = refl
length-slots_from i (suc n) = ap suc (length-slots_from (i + 1) n)

-- A slot from `i` on that is none of the `n` comes after them.
slots_from-after : (i n a : ℕ) → slot i ≤ a → Fresh a (slots_from i n) → slot (i + n) ≤ a
unfolding slots_from Each
slots_from-after i zero a h f = omega arith
slots_from-after i (suc n) a h (m, f) = omega (arith, slots_from-after (i + 1) n a (ground arith) f)

module _ {ℓ} {A : Type ℓ} (allocation : Allocation A) (l : LinkedArray A) where
  -- The chain of an array that is not empty moves to the start of the new storage, in order.
  pub resize-Inv :
      (new_capacity d : ℕ) (ds : List ℕ)
      → ((a : ℕ) → allocation.fresh_occupied a ≡ false)
      → Inv l (d ∷ ds)
      → length (d ∷ ds) < new_capacity
      → new_capacity + 1 < u32_mod
      → (l' : LinkedArray A) × (resize allocation new_capacity l ≡ ok l')
        × Inv l' (slots_from 0 (length (d ∷ ds)))
        × (map l'.value (slots_from 0 (length (d ∷ ds))) ≡ map l.value (d ∷ ds))
        × (l'.capacity ≡ new_capacity)
  unfolding resize with_storage Kept
  resize-Inv new_capacity d ds clear inv room small =
      let (t, run, copy) =
        copy_loop-lem l (l.occupied + 1) 0 head (d ∷ ds) (with_storage allocation new_capacity l)
          inv.linked inv.slots (omega (arith, inv.count)) (omega (arith, room)) in
      let has_room : ltb new_capacity l.occupied ≡ false = ground (arith, inv.count, room) in
      let len = length-slots_from 0 (length (d ∷ ds)) in
      (
        record t {
          next = update t.next head (slot 0);
          prev = update t.prev tail (0 + length (d ∷ ds) + 3);
          next_index = null_pointer;
          next_index_2 = null_pointer;
        },
        rw (has_room, run) refl,
        record {
          linked =
              Copied-Linked l t _ _ 0 head head d ds copy.copied inv.linked inv.slots
                (λ j. (ground arith, ground arith)) (ground arith) (ground arith) (ground arith);
          distinct = slots_from-Distinct 0 (length (d ∷ ds));
          slots =
              slots_from-Slots t.capacity 0 (length (d ∷ ds))
                (omega (arith, copy.same_capacity, room));
          taken = Copied-taken l t 0 head (d ∷ ds) copy.copied;
          free = λ a (low, high) f.
              let (_, o, _, _) = copy.above a (slots_from-after 0 (length (d ∷ ds)) a low f) in
              let c = clear a in ground arith;
          count = copy.same_occupied ∙ inv.count ∙ sym len;
          room = omega (arith, len, copy.same_capacity, room);
          small = omega (arith, copy.same_capacity, small);
          cached = inl refl;
          cached_2 = inl refl;
          cached_once = λ e. refl;
        },
        Copied-values l t 0 head (d ∷ ds) copy.copied,
        copy.same_capacity,
      )
