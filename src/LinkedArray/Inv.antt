-- ===== src/LinkedArray/Inv.antt =====
-- The invariant of the linked array, and that the common ends of its operations keep it.
use speedy_os.Common.{
  ℕ, ◌+◌, ◌≤◌, ◌<◌, ◌≡◌, ◌≢◌, sym, ◌⊎◌, inl, inr, List, [], ◌∷◌, ◌++◌, Bool, true, false, ◌==◌,
  Bool-cases, length, length-append, update, if◌then◌else◌, arith, u32_mod, add32,
}
use speedy_os.LinkedArray.{null_pointer, head, tail, LinkedArray, cache_index, release}
use speedy_os.LinkedArray.Links.{
  Each, Each-middle, Each-insert, Each-both, Fresh, Distinct, Distinct-middle, Distinct-insert,
  Linked,
}

-- The address of an entry of the storage.
abbrev pub Slot : ℕ → ℕ → Type 0
Slot capacity a = (4 ≤ a) × (a < capacity + 4)

-- A cached index: none, or that of an entry outside the chain.
abbrev pub Cached : ℕ → List ℕ → ℕ → Type 0
Cached capacity cs a = (a ≡ null_pointer) ⊎ (Slot capacity a × Fresh a cs)

-- The chain of the array runs through the entries `cs`.
pub record Inv {ℓ} {A : Type ℓ} (l : LinkedArray A) (cs : List ℕ) : Type 0 where
  pub linked : Linked l.next l.prev head cs tail
  pub distinct : Distinct cs
  pub slots : Each (Slot l.capacity) cs
  pub taken : Each (λ c. l.entry_occupied c ≡ true) cs
  pub free : (a : ℕ) → Slot l.capacity a → Fresh a cs → l.entry_occupied a ≡ false
  pub count : l.occupied ≡ length cs
  pub room : length cs < l.capacity
  pub small : l.capacity + 1 < u32_mod
  pub cached : Cached l.capacity cs l.next_index
  pub cached_2 : Cached l.capacity cs l.next_index_2
  pub cached_once : l.next_index ≡ l.next_index_2 → l.next_index ≡ null_pointer

pub Fresh-of_Slots : (capacity a : ℕ) (cs : List ℕ) → a < 4 → Each (Slot capacity) cs → Fresh a cs
unfolding Each
Fresh-of_Slots capacity a [] h s = tt
Fresh-of_Slots capacity a (c ∷ cs) h ((low, high), s) =
    (λ e. omega arith, Fresh-of_Slots capacity a cs h s)

-- The ends of the chain and its entries are distinct.
pub Distinct-ends :
    (capacity : ℕ) (cs : List ℕ)
    → Each (Slot capacity) cs
    → Distinct cs
    → Distinct (tail ∷ head ∷ cs)
unfolding Each Distinct
Distinct-ends capacity cs s d = (
  (λ e. omega arith, Fresh-of_Slots capacity tail cs (omega arith) s),
  (Fresh-of_Slots capacity head cs (omega arith) s, d),
)

module _ (capacity : ℕ) (cs : List ℕ) (a : ℕ) (ds : List ℕ) where
  Cached-keep : (b : ℕ) → Cached capacity (cs ++ (a ∷ ds)) b → Cached capacity (cs ++ ds) b
  Cached-keep b (inl e) = inl e
  Cached-keep b (inr (s, f)) = inr (s, (Each-middle _ cs a ds f).1)

  Cached-ne : (b : ℕ) → Slot capacity a → Cached capacity (cs ++ (a ∷ ds)) b → b ≢ a
  Cached-ne b (low, _) (inl e) = λ i. omega arith
  Cached-ne b s (inr (_, f)) = λ i. (Each-middle _ cs a ds f).0 (sym i)

  Cached-insert :
      (b : ℕ) → b ≢ a → Cached capacity (cs ++ ds) b → Cached capacity (cs ++ (a ∷ ds)) b
  Cached-insert b n (inl e) = inl e
  Cached-insert b n (inr (s, f)) = inr (s, Each-insert _ cs a ds (λ e. n (sym e)) f)

Cached-if :
    (capacity : ℕ) (cs : List ℕ) (test : Bool) (a b : ℕ)
    → Cached capacity cs a
    → Cached capacity cs b
    → Cached capacity cs (if test then a else b)
Cached-if capacity cs true a b c d = c
Cached-if capacity cs false a b c d = d

module _ {ℓ} {A : Type ℓ} (l : LinkedArray A) (cs : List ℕ) (a : ℕ) (ds : List ℕ) where
  -- Once an entry is no longer linked, `release` makes it free.
  pub release-Inv :
      (next prev : ℕ → ℕ)
      → Inv l (cs ++ (a ∷ ds))
      → Linked next prev head (cs ++ ds) tail
      → Inv (release (record l { next = next; prev = prev }) a) (cs ++ ds)
  unfolding release cache_index
  release-Inv next prev inv linked =
      let (slot_a, slots) = Each-middle _ cs a ds inv.slots in
      let (fresh, distinct) = Distinct-middle cs a ds inv.distinct in
      let (taken_a, taken) = Each-middle _ cs a ds inv.taken in
      let (lo, hi) = slot_a in
      let len = length-append cs (a ∷ ds) in
      let len' = length-append cs ds in
      let keep = Cached-keep l.capacity cs a ds l.next_index inv.cached in
      let keep_2 = Cached-keep l.capacity cs a ds l.next_index_2 inv.cached_2 in
      let ne = Cached-ne l.capacity cs a ds l.next_index slot_a inv.cached in
      let ne_2 = Cached-ne l.capacity cs a ds l.next_index_2 slot_a inv.cached_2 in
      let once = inv.cached_once in
      record {
        linked = linked;
        distinct = distinct;
        slots = slots;
        taken = Each-both (cs ++ ds) (λ c n t. ground arith) fresh taken;
        free = λ b s f. elim (Bool-cases (b == a)) [
          | inl e ↦ ground arith
          | inr e ↦
              let old = inv.free b s (Each-insert _ cs a ds (λ i. ground arith) f) in ground arith
        ];
        count = ground (arith, inv.count, len, len', inv.small, inv.room);
        room = omega (arith, inv.room, len, len');
        small = inv.small;
        cached = Cached-if _ _ _ _ _ (inr (slot_a, fresh)) keep;
        cached_2 = Cached-if _ _ _ _ _ keep_2 (Cached-if _ _ _ _ _ (inr (slot_a, fresh)) keep_2);
        cached_once = λ e. ground arith;
      }

  -- A free entry that has been linked into the chain and marked belongs to it.
  pub link-Inv :
      (next prev : ℕ → ℕ) (value : ℕ → A)
      → Inv l (cs ++ ds)
      → Slot l.capacity a
      → Fresh a (cs ++ ds)
      → l.next_index ≢ a
      → l.next_index_2 ≢ a
      → length (cs ++ ds) + 1 < l.capacity
      → Linked next prev head (cs ++ (a ∷ ds)) tail
      → Inv
          (record l {
            next = next;
            prev = prev;
            value = value;
            entry_occupied = update l.entry_occupied a true;
            occupied = add32 l.occupied 1;
          })
          (cs ++ (a ∷ ds))
  link-Inv next prev value inv slot_a fresh ne ne_2 room linked =
      let len = length-append cs (a ∷ ds) in
      let len' = length-append cs ds in
      record {
        linked = linked;
        distinct = Distinct-insert cs a ds fresh inv.distinct;
        slots = Each-insert _ cs a ds slot_a inv.slots;
        taken =
            Each-insert _ cs a ds (ground arith)
              (Each-both (cs ++ ds) (λ c n t. ground arith) fresh inv.taken);
        free = λ b s f.
            let (n, f') = Each-middle _ cs a ds f in let old = inv.free b s f' in ground arith;
        count = ground (arith, inv.count, len, len', inv.small, inv.room);
        room = omega (arith, room, len, len');
        small = inv.small;
        cached = Cached-insert l.capacity cs a ds l.next_index ne inv.cached;
        cached_2 = Cached-insert l.capacity cs a ds l.next_index_2 ne_2 inv.cached_2;
        cached_once = inv.cached_once;
      }
