-- ===== src/FlexArray/Room.antt =====
-- The values that a flexible array without gaps holds, and the room that it makes for one more.
use mathlib.Core.List.{append-nil}
use speedy_os.Common.{
  ℕ, suc, ◌+◌, ◌≤◌, ◌<◌, ◌≡◌, refl, ap, ◌∙◌, true, false, List, [], ◌∷◌, ◌++◌, map, some, ltb,
  length, length-append, get_elem?, set, add32, sub32, ok, arith,
}
use speedy_os.FlexArray.{Entry, FlexArray, Allocation, capacity, copy_entries, resize, make_room}

-- New memory has room for the entries that it is asked for.
abbrev pub IsSound {ℓ} : {T : Type ℓ} → Allocation T → Type 0
IsSound a = (n : ℕ) → length (a.fresh n) ≡ n

ltb-false : (m n : ℕ) → n ≤ m → ltb m n ≡ false
ltb-false m n h = ground arith

ltb-full : (c i : ℕ) → c ≤ 2147483646 → i ≡ c → ltb c (add32 i 1) ≡ true
ltb-full c i h e = let wrap : add32 i 1 ≡ c + 1 = omega arith in rw wrap (ground arith)

grown-size :
    (c i g : ℕ)
    → i ≡ c
    → c + 1 + g ≤ 2147483646
    → add32 (add32 c (sub32 (add32 i 1) c)) g ≡ c + 1 + g
grown-size c i g e h =
    let one : sub32 (add32 i 1) c ≡ 1 = omega arith in
    ap (λ d. add32 (add32 c d) g) one ∙ omega arith

module _ {ℓ} {T : Type ℓ} where
  abbrev pub full : T → Entry T
  full v = record { empty = false; value = v }

  -- The array holds the values, in their order, at its start.
  pub record Represents (f : FlexArray T) (vs : List T) : Type ℓ where
    pub rest : List (Entry T)
    pub shape : f.storage ≡ map full vs ++ rest
    pub count : f.occupied ≡ length vs
    pub next : f.next_index ≡ length vs
    pub whole : f.fragmented ≡ false
    pub small : capacity f ≤ 2147483646

  pub length-full : (vs : List T) → length (map full vs) ≡ length vs
  length-full [] = refl
  length-full (v ∷ vs) = ap suc (length-full vs)

  pub full-snoc :
      (vs : List T) (v : T) (rest : List (Entry T))
      → map full (vs ++ (v ∷ [])) ++ rest ≡ map full vs ++ (full v ∷ rest)
  full-snoc [] v rest = refl
  full-snoc (u ∷ vs) v rest = ap (λ es. full u ∷ es) (full-snoc vs v rest)

  pub get_elem?-middle :
      (vs : List T) (e : Entry T) (rest : List (Entry T))
      → get_elem? (map full vs ++ (e ∷ rest)) (length vs) ≡ some e
  get_elem?-middle [] e rest = refl
  get_elem?-middle (v ∷ vs) e rest = get_elem?-middle vs e rest

  pub set-middle :
      (vs : List T) (e x : Entry T) (rest : List (Entry T))
      → set (map full vs ++ (e ∷ rest)) (length vs) x ≡ map full vs ++ (x ∷ rest)
  set-middle [] e x rest = refl
  set-middle (v ∷ vs) e x rest = ap (λ es. full v ∷ es) (set-middle vs e x rest)

  -- The old entries are kept at the start of larger storage.
  copy_entries-append :
      (old new : List (Entry T))
      → length old ≤ length new
      → (tail : List (Entry T)) × (copy_entries old new ≡ ok (old ++ tail))
        × (length old + length tail ≡ length new)
  unfolding copy_entries
  copy_entries-append [] new h = (new, refl, omega arith)
  copy_entries-append (e ∷ old) [] h = absurd (omega arith)
  copy_entries-append (e ∷ old) (g ∷ new) h =
      let (tail, copied, sum) = copy_entries-append old new (omega arith) in
      (tail, rw copied refl, omega (arith, sum))

  -- What `make_room` answers: the same array, with an entry at the index.
  pub record Roomy (a : Allocation T) (f : FlexArray T) (vs : List T) : Type ℓ where
    pub storage : List (Entry T)
    pub next : Entry T
    pub rest : List (Entry T)
    pub run : make_room a f f.next_index ≡ ok (record f { storage = storage })
    pub shape : storage ≡ map full vs ++ (next ∷ rest)
    pub small : length storage ≤ 2147483646

  module _ (a : Allocation T) (sound : IsSound a) (f : FlexArray T) (vs : List T)
      (r : Represents f vs) (room : capacity f + 1 + a.growth (capacity f) ≤ 2147483646) where
    pub length-storage : capacity f ≡ length vs + length r.rest
    length-storage =
        ap length r.shape
        ∙ length-append (map full vs) r.rest
        ∙ ap (λ n. n + length r.rest) (length-full vs)

    abbrev grown : ℕ
    grown = capacity f + 1 + a.growth (capacity f)

    resize-copied :
        f.next_index ≡ capacity f
        → (e : Entry T) (tail : List (Entry T))
        → copy_entries f.storage (a.fresh grown) ≡ ok (f.storage ++ (e ∷ tail))
        → make_room a f f.next_index ≡ ok (record f { storage = f.storage ++ (e ∷ tail) })
    unfolding make_room resize
    resize-copied at_end e tail copied =
        let over = ltb-full (capacity f) f.next_index r.small at_end in
        let size = grown-size (capacity f) f.next_index (a.growth (capacity f)) at_end room in
        let fits : ltb 2147483646 grown ≡ false = ground arith in
        let keeps : ltb grown f.occupied ≡ false =
          ltb-false grown f.occupied (omega (arith, r.count, r.next, at_end)) in
        let whole = r.whole in rw over (rw size (rw (fits, whole, keeps, copied) refl))

    make_room-grows :
        (tail : List (Entry T))
        → r.rest ≡ []
        → f.next_index ≡ capacity f
        → copy_entries f.storage (a.fresh grown) ≡ ok (f.storage ++ tail)
        → capacity f + length tail ≡ grown
        → Roomy a f vs
    make_room-grows [] none_left at_end copied sum = absurd (omega arith)
    make_room-grows (e ∷ tail) none_left at_end copied sum = record {
      storage = f.storage ++ (e ∷ tail);
      next = e;
      rest = tail;
      run = resize-copied at_end e tail copied;
      shape =
          ap (λ es. es ++ (e ∷ tail))
            (r.shape ∙ ap (λ es. map full vs ++ es) none_left ∙ append-nil (map full vs));
      small = rw (length-append f.storage (e ∷ tail)) (omega (arith, sum, room));
    }

    make_room-stays : (e : Entry T) (rest : List (Entry T)) → r.rest ≡ e ∷ rest → Roomy a f vs
    unfolding make_room
    make_room-stays e rest left =
        let n = length-storage in
        let m : length r.rest ≡ suc (length rest) = ap length left in
        let inside : f.next_index < capacity f = omega (arith, n, m, r.next) in
        let wrap : add32 f.next_index 1 ≡ f.next_index + 1 = omega (arith, inside, r.small) in
        let fits : ltb (capacity f) (add32 f.next_index 1) ≡ false =
          ltb-false (capacity f) (add32 f.next_index 1) (omega (arith, wrap, inside)) in
        record {
          storage = f.storage;
          next = e;
          rest = rest;
          run = rw fits refl;
          shape = r.shape ∙ ap (λ es. map full vs ++ es) left;
          small = r.small;
        }

    pub make_room-Roomy : (rest : List (Entry T)) → r.rest ≡ rest → Roomy a f vs
    make_room-Roomy (e ∷ rest) left = make_room-stays e rest left
    make_room-Roomy [] left =
        let n = length-storage in
        let m : length r.rest ≡ 0 = ap length left in
        let size : length (a.fresh grown) ≡ grown = sound grown in
        let (tail, copied, sum) =
          copy_entries-append f.storage (a.fresh grown) (omega (arith, size)) in
        make_room-grows tail left (omega (arith, n, m, r.next)) copied (sum ∙ size)
