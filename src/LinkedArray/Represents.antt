-- ===== src/LinkedArray/Represents.antt =====
-- The list that a linked array represents, and what is left of it without an entry.
use speedy_os.Common.{
  ℕ, ◌≤◌, ◌≡◌, refl, subst, List, [], ◌∷◌, ◌++◌, true, map, update, arith, ok, ap,
}
use speedy_os.LinkedArray.{
  head, tail, is_entry, LinkedArray, release, cache_index, read_prev, read_next, write_next,
  write_prev,
}
use speedy_os.LinkedArray.Links.{
  Each, Fresh, Linked-split, Linked-unlink, Linked-last, Linked-first, Each-middle, Each-append-inv,
}
use speedy_os.LinkedArray.Inv.{Slot, Inv, Distinct-ends, release-Inv}

-- The array holds the values `vs`, first to last, and room for two entries at least.
unfoldable pub Represents {ℓ} : {A : Type ℓ} → LinkedArray A → List A → Type ℓ
Represents l vs = (cs : List ℕ) × Inv l cs × (map l.value cs ≡ vs) × (2 ≤ l.capacity)

-- The parts of a list whose image is split.
pub map-split {ℓ} :
    {A : Type ℓ} (f : ℕ → A) (cs : List ℕ) (xs : List A) (v : A) (ys : List A)
    → map f cs ≡ xs ++ (v ∷ ys)
    → (front : List ℕ) × (a : ℕ) × (bs : List ℕ) × (cs ≡ front ++ (a ∷ bs))
      × (map f front ≡ xs)
      × (f a ≡ v)
      × (map f bs ≡ ys)
map-split f [] [] v ys e = absurd cc
map-split f [] (x ∷ xs) v ys e = absurd cc
map-split f (c ∷ cs) [] v ys e = ([], c, cs, refl, refl, cc, cc)
map-split f (c ∷ cs) (x ∷ xs) v ys e =
    let (front, a, bs, i, j, k, m) = map-split f cs xs v ys cc in
    (c ∷ front, a, bs, ap (λ z. c ∷ z) i, cc, k, m)

pub map-eq-nil {ℓ} : {A : Type ℓ} (f : ℕ → A) (cs : List ℕ) → map f cs ≡ [] → cs ≡ []
map-eq-nil f [] e = refl
map-eq-nil f (c ∷ cs) e = absurd cc

pub map-update {ℓ} :
    {A : Type ℓ} (f : ℕ → A) (a : ℕ) (v : A) (cs : List ℕ)
    → Fresh a cs
    → map (update f a v) cs ≡ map f cs
unfolding Each
map-update f a v [] h = refl
map-update f a v (c ∷ cs) (n, h) =
    let head_eq : update f a v c ≡ f c = ground arith in rw (head_eq, map-update f a v cs h) refl

pub map-append {ℓ} :
    {A : Type ℓ} (f : ℕ → A) (front bs : List ℕ) → map f (front ++ bs) ≡ map f front ++ map f bs
map-append f [] bs = refl
map-append f (a ∷ front) bs = ap (λ z. f a ∷ z) (map-append f front bs)

abbrev pub Entry : ℕ → ℕ → Type 0
Entry capacity a = is_entry capacity a ≡ true

pub Entry-of_Slot : (capacity a : ℕ) → Slot capacity a → Entry capacity a
Entry-of_Slot capacity a (low, high) = ground arith

pub Entries-of_Slots :
    (capacity : ℕ) (cs : List ℕ) → Each (Slot capacity) cs → Each (Entry capacity) cs
unfolding Each
Entries-of_Slots capacity [] s = tt
Entries-of_Slots capacity (c ∷ cs) (s, ss) =
    (Entry-of_Slot capacity c s, Entries-of_Slots capacity cs ss)

-- What is left when an entry has been unlinked and released.
abbrev pub without {ℓ} : {A : Type ℓ} → LinkedArray A → ℕ → LinkedArray A
without l a =
    release
      (record l {
        next = update l.next (l.prev a) (l.next a);
        prev = update l.prev (l.next a) (l.prev a);
      })
      a

-- The entry that holds a value of the list.
pub Represents-split {ℓ} :
    {A : Type ℓ} (l : LinkedArray A) (xs : List A) (v : A) (ys : List A)
    → Represents l (xs ++ (v ∷ ys))
    → (cs : List ℕ) × (a : ℕ) × (ds : List ℕ) × Inv l (cs ++ (a ∷ ds))
      × (map l.value cs ≡ xs)
      × (l.value a ≡ v)
      × (map l.value ds ≡ ys)
      × (2 ≤ l.capacity)
unfolding Represents
Represents-split l xs v ys (es, inv, e, two) =
    let (cs, a, ds, i, j, k, m) = map-split l.value es xs v ys e in
    (cs, a, ds, subst (Inv l) i inv, j, k, m, two)

-- The links of an entry can be read and written.
module _ {ℓ} {A : Type ℓ} (l : LinkedArray A) (p : ℕ) (entry : Entry l.capacity p) where
  pub read_prev-Entry : read_prev l p ≡ ok (l.prev p)
  unfolding read_prev
  read_prev-Entry = rw entry refl

  pub read_next-Entry : read_next l p ≡ ok (l.next p)
  unfolding read_next
  read_next-Entry = rw entry refl

  pub write_prev-Entry : (q : ℕ) → write_prev l p q ≡ ok (record l { prev = update l.prev p q })
  unfolding write_prev
  write_prev-Entry q = rw entry refl

  pub write_next-Entry : (q : ℕ) → write_next l p q ≡ ok (record l { next = update l.next p q })
  unfolding write_next
  write_next-Entry q = rw entry refl

module _ {ℓ} {A : Type ℓ} (l : LinkedArray A) (cs : List ℕ) (a : ℕ) (ds : List ℕ)
    (inv : Inv l (cs ++ (a ∷ ds))) where
  -- An entry of the chain and its neighbours exist.
  pub around : Entry l.capacity a × Entry l.capacity (l.prev a) × Entry l.capacity (l.next a)
  unfolding Each
  around =
      let (slot_a, slots) = Each-middle _ cs a ds inv.slots in
      let (slots_cs, (_, slots_ds)) = Each-append-inv _ cs (a ∷ ds) inv.slots in
      let (first, second) = Linked-split l.next l.prev head cs a ds tail inv.linked in
      (
        Entry-of_Slot l.capacity a slot_a,
        Linked-last (Entry l.capacity) l.next l.prev head cs a
            (refl, Entries-of_Slots l.capacity cs slots_cs) first,
        Linked-first (Entry l.capacity) l.next l.prev a ds tail
            (refl, Entries-of_Slots l.capacity ds slots_ds) second,
      )

  -- What is left represents the list without the value.
  pub without-Represents :
      2 ≤ l.capacity → Represents (without l a) (map l.value cs ++ map l.value ds)
  unfolding Represents release cache_index
  without-Represents two = (
    cs ++ ds,
    release-Inv l cs a ds _ _ inv (
        Linked-unlink l.next l.prev head cs a ds tail
          (Distinct-ends l.capacity (cs ++ (a ∷ ds)) inv.slots inv.distinct) inv.linked),
    map-append l.value cs ds,
    two,
  )
