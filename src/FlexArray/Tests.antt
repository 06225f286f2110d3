-- ===== src/FlexArray/Tests.antt =====
-- A flexible array that has no room left.
use speedy_os.Common.{ℕ, ◌*◌, ◌≡◌, refl, false, [], ◌∷◌, replicate, length-replicate, ok, arith}
use speedy_os.FlexArray.{FlexArray, Allocation, push, pop}
use speedy_os.FlexArray.Room.{IsSound, full, Represents}
use speedy_os.FlexArray.Stack.{pop-push}

-- New memory holds entries that look occupied.
abbrev allocation : Allocation ℕ
allocation = record { fresh = λ n. replicate n (full 99); growth = λ n. 2 * n }

allocation-IsSound : IsSound allocation
allocation-IsSound n = length-replicate n (full 99)

abbrev two_full : FlexArray ℕ
two_full = record {
  storage = full 4 ∷ full 5 ∷ [];
  occupied = 2;
  next_index = 2;
  fragmented = false;
}

two_full-Represents : Represents two_full (4 ∷ 5 ∷ [])
two_full-Represents = record {
  rest = [];
  shape = refl;
  count = refl;
  next = refl;
  whole = refl;
  small = omega arith;
}

pop-push_example :
    (f' : FlexArray ℕ) × (f'' : FlexArray ℕ) × (push allocation two_full 6 ≡ ok f')
    × Represents f' (4 ∷ 5 ∷ 6 ∷ [])
    × (pop 0 f' 1 ≡ ok (6, f''))
    × Represents f'' (4 ∷ 5 ∷ [])
pop-push_example =
    pop-push allocation allocation-IsSound two_full (4 ∷ 5 ∷ []) two_full-Represents (omega arith) 0
      6
