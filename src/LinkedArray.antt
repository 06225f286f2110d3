-- ===== src/LinkedArray.antt =====
-- shared/linked_array.h: the linked list in an array that serves the kernel as queue and stack.
--
-- An entry's address is a number: 0 is the null pointer, 1 the head entry, 2 the tail entry, and
-- `slot i` is `&storage_ptr[i]`; 3 is the address before the storage. The fields of the entries
-- are a map from addresses each. An access through an address that holds no entry is a `fault`.
-- Addresses of a storage that `resize` has freed are not told from those of the new one.
pub mod Links
pub mod Inv
pub mod Probe
pub mod Resize
pub mod Represents
pub mod Queue
pub mod Push
pub mod Index
mod Tests
use speedy_os.Common.{
  ℕ, zero, suc, ◌+◌, Bool, true, false, ◌&&◌, ◌||◌, not, Option, none, some, ltb, leb, ◌==◌, update,
  if◌then◌else◌, add32, sub32, Run, ok, panic, fault, out_of_fuel, ◌>>=◌,
}

abbrev pub null_pointer : ℕ
null_pointer = 0

abbrev pub head : ℕ
head = 1

abbrev pub tail : ℕ
tail = 2

abbrev pub slot : ℕ → ℕ
slot i = i + 4

pub record LinkedArray {ℓ} (A : Type ℓ) : Type ℓ where
  pub next : ℕ → ℕ
  pub prev : ℕ → ℕ
  pub value : ℕ → A
  pub entry_occupied : ℕ → Bool
  pub occupied : ℕ
  pub capacity : ℕ
  pub next_index : ℕ
  pub next_index_2 : ℕ

-- What the class takes from outside: the contents of an allocated storage, whose entries no one has
-- written, and the products of a capacity with 2 and 1.9 as floating-point numbers.
pub record Allocation {ℓ} (A : Type ℓ) : Type ℓ where
  pub fresh_next : ℕ → ℕ
  pub fresh_prev : ℕ → ℕ
  pub fresh_value : ℕ → A
  pub fresh_occupied : ℕ → Bool
  pub double : ℕ → ℕ
  pub times_1_9 : ℕ → ℕ

abbrev pub is_slot : ℕ → ℕ → Bool
is_slot capacity p = leb 4 p && ltb p (capacity + 4)

abbrev pub is_entry : ℕ → ℕ → Bool
is_entry capacity p = (p == head) || (p == tail) || is_slot capacity p

module _ {ℓ} {A : Type ℓ} where
  pub read_next : LinkedArray A → ℕ → Run ℕ
  read_next l p = if is_entry l.capacity p then ok (l.next p) else fault

  pub read_prev : LinkedArray A → ℕ → Run ℕ
  read_prev l p = if is_entry l.capacity p then ok (l.prev p) else fault

  pub write_next : LinkedArray A → ℕ → ℕ → Run (LinkedArray A)
  write_next l p q =
      if is_entry l.capacity p then ok (record l { next = update l.next p q }) else fault

  pub write_prev : LinkedArray A → ℕ → ℕ → Run (LinkedArray A)
  write_prev l p q =
      if is_entry l.capacity p then ok (record l { prev = update l.prev p q }) else fault

  pub cache_index : LinkedArray A → ℕ → LinkedArray A
  cache_index l index = record l {
    next_index = if l.next_index == null_pointer then index else l.next_index;
    next_index_2 =
        if l.next_index == null_pointer
        then l.next_index_2
        else if l.next_index_2 == null_pointer
        then index
        else l.next_index_2;
  }

  -- The search for an empty slot at round `i`, with `k` rounds left.
  pub find_slot : ℕ → ℕ → LinkedArray A → Run ℕ
  find_slot zero i l = panic
  find_slot (suc k) i l =
      let rest = find_slot k (i + 1) l in if l.entry_occupied (slot i) then rest else ok (slot i)

  pub probe_index : LinkedArray A → Run (ℕ × LinkedArray A)
  probe_index l =
      if not (l.next_index == null_pointer)
      then ok (l.next_index, record l { next_index = null_pointer })
      else if not (l.next_index_2 == null_pointer)
      then ok (l.next_index_2, record l { next_index_2 = null_pointer })
      else do index ← find_slot l.capacity 0 l; ok (index, l)

  -- The end of each removal: the entry is marked as empty.
  pub release : LinkedArray A → ℕ → LinkedArray A
  release l element =
      let l' =
        cache_index (record l { entry_occupied = update l.entry_occupied element false }) element in
      record l' { occupied = sub32 l'.occupied 1 }

  pub pop : LinkedArray A → Run (A × LinkedArray A)
  pop l = do
    let element = l.prev tail
    before ← read_prev l element
    l1 ← write_next l before tail
    ok (l.value element, release (record l1 { prev = update l1.prev tail before }) element)

  pub peek : LinkedArray A → A
  peek l = l.value (l.prev tail)

  pub shift : LinkedArray A → Run (A × LinkedArray A)
  shift l = do
    let element = l.next head
    after ← read_next l element
    l1 ← write_prev (record l { next = update l.next head after }) after head
    ok (l.value element, release l1 element)

  pub peek_front : LinkedArray A → A
  peek_front l = l.value (l.next head)

  -- The entry `k` links after an entry.
  pub follow : ℕ → LinkedArray A → ℕ → Run ℕ
  follow zero l current = ok current
  follow (suc k) l current = do after ← read_next l current; follow k l after

  pub get_at : ℕ → LinkedArray A → Run A
  get_at index l =
      if leb l.occupied index
      then panic
      else do current ← follow index l (l.next head); ok (l.value current)

  -- The entries beside an entry are linked to each other.
  pub unlink : LinkedArray A → ℕ → Run (LinkedArray A)
  unlink l element = do
    before ← read_prev l element
    after ← read_next l element
    l1 ← write_next l before after
    write_prev l1 after before

  pub remove_at : ℕ → LinkedArray A → Run (LinkedArray A)
  remove_at index l =
      if leb l.occupied index
      then panic
      else do element ← follow index l (l.next head); l1 ← unlink l element; ok (release l1 element)

  -- `iterator::remove` at an entry, with the entry at which the iterator then stands.
  pub iterator_remove : ℕ → LinkedArray A → Run (ℕ × LinkedArray A)
  iterator_remove current l = do l1 ← unlink l current; ok (l1.prev current, release l1 current)

  pub iterator_has_next : ℕ → LinkedArray A → Bool
  iterator_has_next current l = not (l.next current == tail)

  pub iterator_next : ℕ → LinkedArray A → ℕ × A
  iterator_next current l = (l.next current, l.value (l.next current))

  -- One round of the copy: the entry `current` of `l` becomes the entry `index` of `target`.
  copy_entry : LinkedArray A → ℕ → ℕ → LinkedArray A → LinkedArray A
  copy_entry l current index target = record target {
    value = update target.value (slot index) (l.value current);
    entry_occupied = update target.entry_occupied (slot index) true;
    prev = update target.prev (slot index) (if l.prev current == head then head else index + 3);
    next =
        update target.next (slot index) (if l.next current == tail then tail else slot (index + 1));
  }

  -- The loop of `resize`, with the number of entries copied. A chain has no more entries than
  -- `occupied`, so `occupied + 1` rounds are enough.
  copy_loop : ℕ → LinkedArray A → ℕ → ℕ → LinkedArray A → Run (ℕ × LinkedArray A)
  copy_loop zero l current index target = out_of_fuel
  copy_loop (suc k) l current index target =
      if current == tail
      then ok (index, target)
      else if is_entry l.capacity current && ltb index target.capacity
      then copy_loop k l (l.next current) (index + 1) (copy_entry l current index target)
      else fault

module _ {ℓ} {A : Type ℓ} (allocation : Allocation A) where
  -- A list over storage that has just been allocated, with the head and the tail of `l`. What the
  -- storage holds is the allocation's: no one clears it.
  with_storage : ℕ → LinkedArray A → LinkedArray A
  with_storage capacity l = record l {
    next = λ p. if leb p tail then l.next p else allocation.fresh_next p;
    prev = λ p. if leb p tail then l.prev p else allocation.fresh_prev p;
    value = λ p. if leb p tail then l.value p else allocation.fresh_value p;
    entry_occupied = λ p. if leb p tail then l.entry_occupied p else allocation.fresh_occupied p;
    capacity = capacity;
  }

  pub resize : ℕ → LinkedArray A → Run (LinkedArray A)
  resize new_capacity l = if ltb new_capacity l.occupied then panic else do
    (index, target) ← copy_loop (l.occupied + 1) l (l.next head) 0 (with_storage new_capacity l)
    ok (record target {
      next = update target.next head (slot 0);
      prev = update target.prev tail (index + 3);
      next_index = null_pointer;
      next_index_2 = null_pointer;
    })

  -- The constructor.
  pub linked_array : ℕ → LinkedArray A
  linked_array initial_size = record {
    next = update (update allocation.fresh_next head tail) tail null_pointer;
    prev = update (update allocation.fresh_prev head null_pointer) tail head;
    value = allocation.fresh_value;
    entry_occupied = update (update allocation.fresh_occupied head true) tail true;
    occupied = 0;
    capacity = initial_size;
    next_index = null_pointer;
    next_index_2 = null_pointer;
  }

  -- The value and the links of a new entry are written, its own fields first.
  fill_entry : LinkedArray A → ℕ → A → ℕ → ℕ → LinkedArray A
  fill_entry l index value next prev = record l {
    value = update l.value index value;
    entry_occupied = update l.entry_occupied index true;
    next = update l.next index next;
    prev = update l.prev index prev;
  }

  pub link_last : LinkedArray A → ℕ → A → Run (LinkedArray A)
  link_last l index value = do
    l1 ← write_next (fill_entry l index value tail (l.prev tail)) (l.prev tail) index
    ok (record l1 { prev = update l1.prev tail index; occupied = add32 l1.occupied 1 })

  pub link_first : LinkedArray A → ℕ → A → Run (LinkedArray A)
  link_first l index value = do
    l1 ← write_prev (fill_entry l index value (l.next head) head) (l.next head) index
    ok (record l1 { next = update l1.next head index; occupied = add32 l1.occupied 1 })

  pub push : A → LinkedArray A → Run (LinkedArray A)
  push value l = do
    l1 ←
        if ltb l.capacity (add32 l.occupied 2)
        then resize (allocation.double l.capacity) l
        else ok l
    (index, l2) ← probe_index l1
    link_last l2 index value

  pub unshift : A → LinkedArray A → Run (LinkedArray A)
  unshift value l = do
    l1 ←
        if ltb l.capacity (add32 l.occupied 2)
        then resize (allocation.times_1_9 l.capacity) l
        else ok l
    (index, l2) ← probe_index l1
    link_first l2 index value
