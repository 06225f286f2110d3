-- ===== src/FlexArray.antt =====
-- shared/flex_array.h: the array whose entries may be empty.
--
-- The storage is a list of entries; an access beyond it is a `fault`. What new memory holds, and the
-- floating-point product by which the array grows, are the record `Allocation`.
pub mod Room
pub mod Stack
mod Tests
use speedy_os.Common.{
  ℕ, zero, suc, ◌+◌, ◌-◌, ◌≤◌, Bool, true, false, not, ◌&&◌, List, [], ◌∷◌, ◌++◌, Option, none,
  some, ltb, ◌==◌, if◌then◌else◌, length, get_elem?, set, replicate, add32, sub32, Run, ok, panic,
  fault, out_of_fuel, ◌>>=◌, from_option,
}

pub record Entry {ℓ} (T : Type ℓ) : Type ℓ where
  pub empty : Bool
  pub value : T

pub record FlexArray {ℓ} (T : Type ℓ) : Type ℓ where
  pub storage : List (Entry T)
  pub occupied : ℕ
  pub next_index : ℕ
  pub fragmented : Bool

-- What the memory of `n` entries holds, and the product of a capacity and 1.9.
pub record Allocation {ℓ} (T : Type ℓ) : Type ℓ where
  pub fresh : (n : ℕ) → List (Entry T)
  pub growth : ℕ → ℕ

module _ {ℓ} {T : Type ℓ} where
  abbrev pub capacity : FlexArray T → ℕ
  capacity f = length f.storage

  -- `entry()`, whose value is that of `T()`.
  abbrev pub blank : T → Entry T
  blank default_value = record { empty = true; value = default_value }

  pub flexible_array : (default_value : T) → (initial_size : ℕ) → Run (FlexArray T)
  flexible_array default_value initial_size =
      if ltb 2147483646 initial_size
      then panic
      else ok (record {
        storage = replicate initial_size (blank default_value);
        occupied = 0;
        next_index = 0;
        fragmented = false;
      })

  -- The old entries at the start of the new storage; more than fit are a write beyond it.
  pub copy_entries : (old new : List (Entry T)) → Run (List (Entry T))
  copy_entries [] new = ok new
  copy_entries (e ∷ old) [] = fault
  copy_entries (e ∷ old) (g ∷ new) = copy_entries old new >>= λ rest. ok (e ∷ rest)

  pub resize :
      Allocation T → FlexArray T → (new_capacity : ℕ) → (unsafe_resize : Bool) → Run (FlexArray T)
  resize a f new_capacity unsafe_resize =
      let copied = copy_entries f.storage (a.fresh new_capacity) >>= λ storage.
      ok (record f { storage = storage }) in
      if ltb 2147483646 new_capacity
      then panic
      else if f.fragmented && (not unsafe_resize && ltb new_capacity (capacity f))
      then panic
      else if not f.fragmented && (not unsafe_resize && ltb new_capacity f.occupied)
      then panic
      else copied

  -- The loop of `defragment` at the index `i`, with the empty index that has been found, if any. An
  -- entry that is moved sends the loop back to where it went.
  pub defragment_loop :
      ℕ
      → (default_value : T) → (i : ℕ) → (empty_index : Option ℕ) → List (Entry T)
      → Run (List (Entry T))
  defragment_loop zero d i empty_index storage = out_of_fuel
  defragment_loop (suc k) d i empty_index storage = elim (get_elem? storage i) [
    | none ↦ ok storage
    | some e ↦
        if e.empty
        then defragment_loop k d (i + 1) (elim empty_index [ none ↦ some i | some j ↦ some j ])
            storage
        else elim empty_index [
          | none ↦ defragment_loop k d (i + 1) none storage
          | some j ↦ defragment_loop k d (j + 1) none (set (set storage j e) i (blank d))
        ]
  ]

  pub defragment : (fuel : ℕ) → (default_value : T) → FlexArray T → Run (FlexArray T)
  defragment fuel d f = do
    storage ← defragment_loop fuel d 0 none f.storage
    ok (record f { storage = storage; next_index = f.occupied; fragmented = false })

  pub is_empty_at : FlexArray T → (index : ℕ) → Run Bool
  is_empty_at f index =
      if ltb (capacity f) (add32 index 1)
      then ok false
      else (from_option (get_elem? f.storage index) >>= λ e. ok e.empty)

  -- `operator[]`, of which `get_at` is another name.
  pub get_at : FlexArray T → (index : ℕ) → Run T
  get_at f index = if ltb (capacity f) (add32 index 1) then panic else do
    empty ← is_empty_at f index
    if empty then panic else (from_option (get_elem? f.storage index) >>= λ e. ok e.value)

  -- The array with room for the entry at `index`.
  pub make_room : Allocation T → FlexArray T → (index : ℕ) → Run (FlexArray T)
  make_room a f index =
      let grown =
        add32 (add32 (capacity f) (sub32 (add32 index 1) (capacity f))) (a.growth (capacity f)) in
      if ltb (capacity f) (add32 index 1) then resize a f grown false else ok f

  pub set_at : Allocation T → FlexArray T → (index : ℕ) → T → Run (FlexArray T)
  set_at a f index value = do
    g ← make_room a f index
    e ← from_option (get_elem? g.storage index)
    let storage = set g.storage index (record { empty = false; value = value })
    let filled : FlexArray T = record g {
      storage = storage;
      fragmented = if index == g.next_index then g.fragmented else true;
      occupied = add32 g.occupied 1;
      next_index = add32 g.next_index 1;
    }
    ok (if e.empty then filled else record g { storage = storage })

  pub remove_at : FlexArray T → (index : ℕ) → Run (FlexArray T)
  remove_at f index = if ltb (capacity f) (add32 index 1) then ok f else do
    e ← from_option (get_elem? f.storage index)
    let emptied : FlexArray T = record f {
      storage = set f.storage index (record e { empty = true });
      fragmented = if index == sub32 f.next_index 1 then f.fragmented else true;
      next_index = sub32 f.next_index 1;
      occupied = sub32 f.occupied 1;
    }
    ok (if e.empty then f else emptied)

  -- The write at the end of `push`.
  abbrev pub append_entry : FlexArray T → T → FlexArray T
  append_entry g value = record g {
    storage = set g.storage g.next_index (record { empty = false; value = value });
    occupied = add32 g.occupied 1;
    next_index = add32 g.next_index 1;
  }

  pub push : Allocation T → FlexArray T → T → Run (FlexArray T)
  push a f value = if f.fragmented then panic else do
    g ← make_room a f f.next_index
    old ← from_option (get_elem? g.storage g.next_index)
    ok (append_entry g value)

  -- The loop of `pop`, and the entry that it has read last.
  pub pop_loop : (amount : ℕ) → Entry T → FlexArray T → Run (Entry T × FlexArray T)
  pop_loop zero element f = ok (element, f)
  pop_loop (suc k) element f = do
    e ← from_option (get_elem? f.storage (sub32 f.next_index 1))
    let f' = record f {
      storage = set f.storage (sub32 f.next_index 1) (record e { empty = true });
      occupied = sub32 f.occupied 1;
      next_index = sub32 f.next_index 1;
    }
    pop_loop k e (if e.empty then f else f')

  pub pop : (default_value : T) → FlexArray T → (amount : ℕ) → Run (T × FlexArray T)
  pop d f amount =
      if f.fragmented then panic else (pop_loop amount (blank d) f >>= λ (e, f'). ok (e.value, f'))

  -- The loop of `shift` at round `i`: each round empties the first entry.
  pub shift_loop : (amount : ℕ) → (i : ℕ) → Entry T → FlexArray T → Run (Entry T × FlexArray T)
  shift_loop zero i element f = ok (element, f)
  shift_loop (suc k) i element f = do
    e ← from_option (get_elem? f.storage i)
    first ← from_option (get_elem? f.storage 0)
    let f' = record f {
      storage = set f.storage 0 (record first { empty = true });
      occupied = sub32 f.occupied 1;
    }
    shift_loop k (i + 1) e (if e.empty then f else f')

  pub shift : (fuel : ℕ) → (default_value : T) → FlexArray T → (amount : ℕ) → Run (T × FlexArray T)
  shift fuel d f amount = if f.fragmented then panic else do
    (e, f') ← shift_loop amount 0 (blank d) f
    f'' ← defragment fuel d f'
    ok (e.value, f'')

  -- The loop of `reset`.
  pub empty_all : List (Entry T) → List (Entry T)
  empty_all [] = []
  empty_all (e ∷ storage) = record e { empty = true } ∷ empty_all storage

  pub reset : FlexArray T → FlexArray T
  reset f = record f {
    storage = empty_all f.storage;
    occupied = 0;
    next_index = 0;
    fragmented = false;
  }
