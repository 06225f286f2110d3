-- ===== src/LinkedArray/Tests.antt =====
-- The theorems on the linked array at concrete arrays of numbers.
use speedy_os.Common.{update, inr, inl, ℕ, ◌*◌, ◌/◌, ◌≡◌, refl, true, false, [], ◌∷◌, arith, ok}
use speedy_os.LinkedArray.{
  LinkedArray, Allocation, linked_array, push, shift, iterator_remove, follow,
}
use speedy_os.LinkedArray.Links.{Each, Distinct, Linked}
use speedy_os.LinkedArray.Represents.{Represents}
use speedy_os.LinkedArray.Queue.{shift-cons}
use speedy_os.LinkedArray.Push.{IsSound, push-snoc, linked_array-Represents}
use speedy_os.LinkedArray.Index.{iterator_remove-middle}

abbrev clear_storage : Allocation ℕ
clear_storage = record {
  fresh_next = λ a. 0;
  fresh_prev = λ a. 0;
  fresh_value = λ a. 77;
  fresh_occupied = λ a. false;
  double = λ c. c * 2;
  times_1_9 = λ c. c * 19 / 10;
}

clear_storage-IsSound : IsSound clear_storage
clear_storage-IsSound = record {
  clear = λ a. refl;
  double_grows = λ c two small. (omega arith, omega arith);
  times_1_9_grows = λ c two small. (omega arith, omega arith);
}

abbrev empty : LinkedArray ℕ
empty = linked_array clear_storage 2

empty-Represents : Represents empty []
empty-Represents =
    linked_array-Represents clear_storage clear_storage-IsSound 2 (omega arith) (omega arith)

-- 5, 6 in the slots 2 and 0 of three; the slot 1 is cached.
abbrev pair : LinkedArray ℕ
pair = record {
  next = update (update (update (λ a. 0) 1 6) 6 4) 4 2;
  prev = update (update (update (λ a. 0) 2 4) 4 6) 6 1;
  value = update (update (λ a. 77) 6 5) 4 6;
  entry_occupied = update (update (λ a. false) 6 true) 4 true;
  occupied = 2;
  capacity = 3;
  next_index = 5;
  next_index_2 = 0;
}

pair-Represents : Represents pair (5 ∷ 6 ∷ [])
unfolding Represents Linked Distinct Each
pair-Represents = (
  6 ∷ 4 ∷ [],
  record {
    linked = (refl, refl, (refl, refl, (refl, refl)));
    distinct = ((λ e. omega arith, tt), (tt, tt));
    slots = ((omega arith, omega arith), ((omega arith, omega arith), tt));
    taken = (refl, (refl, tt));
    free = λ a s (n, (m, _)). ground arith;
    count = refl;
    room = omega arith;
    small = omega arith;
    cached = inr ((omega arith, omega arith), (λ e. omega arith, (λ e. omega arith, tt)));
    cached_2 = inl refl;
    cached_once = λ e. omega arith;
  },
  refl,
  omega arith,
)

push-snoc_example :
    (l : LinkedArray ℕ) × (push clear_storage 7 pair ≡ ok l) × Represents l (5 ∷ 6 ∷ 7 ∷ [])
push-snoc_example =
    push-snoc clear_storage clear_storage-IsSound pair (5 ∷ 6 ∷ []) 7 pair-Represents (omega arith)

shift-cons_example : (l : LinkedArray ℕ) × (shift pair ≡ ok (5, l)) × Represents l (6 ∷ [])
shift-cons_example = shift-cons pair 5 (6 ∷ []) pair-Represents

iterator_remove-middle_example :
    (a : ℕ) × (current : ℕ) × (l : LinkedArray ℕ) × (follow 0 pair 6 ≡ ok a)
    × (iterator_remove a pair ≡ ok (current, l))
    × Represents l (6 ∷ [])
    × (l.next current ≡ pair.next a)
iterator_remove-middle_example = iterator_remove-middle pair [] 5 (6 ∷ []) pair-Represents
