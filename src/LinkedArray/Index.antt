-- ===== src/LinkedArray/Index.antt =====
-- Access to a linked array by index, and removal in the middle: `get_at`, `remove_at` and
-- `iterator::remove`.
use speedy_os.Common.{
  ℕ, zero, suc, ◌<◌, ◌≡◌, refl, sym, subst, ◌∙◌, inl, inr, List, [], ◌∷◌, ◌++◌, false, Bool-cases,
  length, length-append, map, update, arith, Run, ok, panic, ap, leb, Option, none, some, get_elem?,
  get_elem?-none_of_le,
}
use speedy_os.LinkedArray.{
  head, tail, LinkedArray, follow, get_at, unlink, remove_at, iterator_remove, release, cache_index,
}
use speedy_os.LinkedArray.Links.{Each, Linked, Each-append-inv}
use speedy_os.LinkedArray.Inv.{Slot, Inv}
use speedy_os.LinkedArray.Represents.{
  Represents, Represents-split, Entry-of_Slot, around, without, without-Represents, read_prev-Entry,
  read_next-Entry, write_prev-Entry, write_next-Entry,
}

-- The element at an index, or the panic of an index out of range.
abbrev pub checked {ℓ} : {A : Type ℓ} → Option A → Run A
checked none = panic
checked (some v) = ok v

length-map {ℓ} : {A : Type ℓ} (f : ℕ → A) (cs : List ℕ) → length (map f cs) ≡ length cs
length-map f [] = refl
length-map f (c ∷ cs) = ap suc (length-map f cs)

-- A list at one of its indices.
split_at {ℓ} :
    {A : Type ℓ} (vs : List A) (i : ℕ)
    → i < length vs
    → (xs : List A) × (v : A) × (ys : List A) × (vs ≡ xs ++ (v ∷ ys))
      × (length xs ≡ i)
      × (get_elem? vs i ≡ some v)
split_at [] i h = absurd (omega arith)
split_at (v ∷ vs) zero h = ([], v, vs, refl, refl, refl)
split_at (x ∷ vs) (suc i) h =
    let (xs, v, ys, e, len, found) = split_at vs i (omega arith) in
    (x ∷ xs, v, ys, ap (λ z. x ∷ z) e, ap suc len, found)

module _ {ℓ} {A : Type ℓ} (l : LinkedArray A) where
  -- The links lead from entry to entry.
  follow-Linked :
      (p : ℕ) (cs : List ℕ) (a : ℕ) (ds : List ℕ)
      → Linked l.next l.prev p (cs ++ (a ∷ ds)) tail
      → Each (Slot l.capacity) cs
      → follow (length cs) l (l.next p) ≡ ok a
  unfolding follow Linked Each
  follow-Linked p [] a ds (e, _, _) s = ap ok e
  follow-Linked p (c ∷ cs) a ds (e, _, rest) (s, ss) =
      rw (e, read_next-Entry l c (Entry-of_Slot l.capacity c s)) (follow-Linked c cs a ds rest ss)

  occupied-Represents : (vs : List A) → Represents l vs → l.occupied ≡ length vs
  unfolding Represents
  occupied-Represents vs (cs, inv, e, _) = inv.count ∙ sym (length-map l.value cs) ∙ ap length e

  follow-split :
      (xs : List A) (cs : List ℕ) (a : ℕ) (ds : List ℕ)
      → Inv l (cs ++ (a ∷ ds))
      → map l.value cs ≡ xs
      → follow (length xs) l (l.next head) ≡ ok a
  follow-split xs cs a ds inv j =
      let (slots, _) = Each-append-inv _ cs (a ∷ ds) inv.slots in
      subst (λ n. follow n l (l.next head) ≡ ok a) (sym (length-map l.value cs) ∙ ap length j)
        (follow-Linked head cs a ds inv.linked slots)

  -- `get_at` answers the value at the index of the list that the array represents, and panics from
  -- the length of the list on.
  pub get_at-Represents :
      (vs : List A) (i : ℕ) → Represents l vs → get_at i l ≡ checked (get_elem? vs i)
  unfolding get_at
  get_at-Represents vs i r = elim (Bool-cases (leb l.occupied i)) [
    | inl e ↦
        let count = occupied-Represents vs r in
        rw (e, get_elem?-none_of_le vs i (ground arith)) refl
    | inr e ↦
        let count = occupied-Represents vs r in
        let (xs, v, ys, split, len, at) = split_at vs i (ground arith) in
        let (cs, a, ds, inv, j, k, m, two) =
          Represents-split l xs v ys (subst (Represents l) split r) in
        let found =
          subst (λ n. follow n l (l.next head) ≡ ok a) len (follow-split xs cs a ds inv j) in
        rw (e, at, found, k) refl
  ]

  unlink-without :
      (cs : List ℕ) (a : ℕ) (ds : List ℕ)
      → Inv l (cs ++ (a ∷ ds))
      → unlink l a
        ≡ ok (record l {
          next = update l.next (l.prev a) (l.next a);
          prev = update l.prev (l.next a) (l.prev a);
        })
  unfolding unlink
  unlink-without cs a ds inv =
      let (here, before, after) = around l cs a ds inv in
      rw
        (
          read_prev-Entry l a here,
          read_next-Entry l a here,
          write_next-Entry l (l.prev a) before (l.next a),
          write_prev-Entry (record l { next = update l.next (l.prev a) (l.next a) }) (l.next a)
              after (l.prev a),
        )
        refl

  -- From an array that represents a list with a value in it, `remove_at` at the index of that value
  -- makes an array that represents the list without it.
  pub remove_at-middle :
      (xs : List A) (v : A) (ys : List A)
      → Represents l (xs ++ (v ∷ ys))
      → (l' : LinkedArray A) × (remove_at (length xs) l ≡ ok l') × Represents l' (xs ++ ys)
  unfolding remove_at
  remove_at-middle xs v ys r =
      let (cs, a, ds, inv, j, k, m, two) = Represents-split l xs v ys r in
      let count = occupied-Represents (xs ++ (v ∷ ys)) r in
      let len = length-append xs (v ∷ ys) in
      let in_range : leb l.occupied (length xs) ≡ false = ground arith in
      (
        without l a,
        rw (in_range, follow-split xs cs a ds inv j, unlink-without cs a ds inv) refl,
        subst (Represents (without l a)) (rw (j, m) refl) (without-Represents l cs a ds inv two),
      )

  iterator_remove-without :
      (cs : List ℕ) (a : ℕ) (ds : List ℕ)
      → Inv l (cs ++ (a ∷ ds))
      → iterator_remove a l ≡ ok (l.prev a, without l a)
  unfolding iterator_remove
  iterator_remove-without cs a ds inv =
      let back : update l.prev (l.next a) (l.prev a) a ≡ l.prev a = ground arith in
      rw (unlink-without cs a ds inv) (ap (λ z. ok (z, without l a)) back)

  -- An iterator that stands at a value of the list removes it: the array then represents the list
  -- without it, and the next entry that the iterator leads to is the one after the removed entry.
  pub iterator_remove-middle :
      (xs : List A) (v : A) (ys : List A)
      → Represents l (xs ++ (v ∷ ys))
      → (a : ℕ) × (current : ℕ) × (l' : LinkedArray A) × (follow (length xs) l (l.next head) ≡ ok a)
        × (iterator_remove a l ≡ ok (current, l'))
        × Represents l' (xs ++ ys)
        × (l'.next current ≡ l.next a)
  unfolding release cache_index
  iterator_remove-middle xs v ys r =
      let (cs, a, ds, inv, j, k, m, two) = Represents-split l xs v ys r in
      (
        a,
        l.prev a,
        without l a,
        follow-split xs cs a ds inv j,
        iterator_remove-without cs a ds inv,
        subst (Represents (without l a)) (rw (j, m) refl) (without-Represents l cs a ds inv two),
        ground arith,
      )
