-- ===== src/FlexArray/Stack.antt =====
-- A flexible array without gaps is a stack: `push` and `pop` at its end.

use speedy_os.Common.{
  ◌+◌, ◌≤◌, ◌<◌, ◌≡◌, refl, sym, ap, ◌∙◌, true, List, [], ◌∷◌, ◌++◌, map, some, if◌then◌else◌,
  length, length-append, length-set, get_elem?, set, sub32, Run, ok, panic, ◌>>=◌, from_option,
  bind_assoc, arith,
}
use speedy_os.FlexArray.{
  Entry, FlexArray, Allocation, capacity, blank, make_room, append_entry, push, pop_loop, pop,
}
use speedy_os.FlexArray.Room.{
  IsSound, full, Represents, length-full, full-snoc, get_elem?-middle, set-middle, length-storage,
  make_room-Roomy,
}

module _ {ℓ} {T : Type ℓ} where
  module _ (a : Allocation T) (sound : IsSound a) (f : FlexArray T) (vs : List T)
      (r : Represents f vs) (room : capacity f + 1 + a.growth (capacity f) ≤ 2147483646) where
    -- `push` puts the value behind the others, in larger storage where there is no room.
    push-Represents :
        (v : T) → (f' : FlexArray T) × (push a f v ≡ ok f') × Represents f' (vs ++ (v ∷ []))
    unfolding push
    push-Represents v =
        let g = make_room-Roomy a sound f vs r room r.rest refl in
        let f' = append_entry (record f { storage = g.storage }) v in
        let found : get_elem? g.storage f.next_index ≡ some g.next =
          ap (λ i. get_elem? g.storage i) r.next
          ∙ ap (λ es. get_elem? es (length vs)) g.shape
          ∙ get_elem?-middle vs g.next g.rest in
        let put : set g.storage f.next_index (full v) ≡ map full (vs ++ (v ∷ [])) ++ g.rest =
          ap (λ i. set g.storage i (full v)) r.next
          ∙ ap (λ es. set es (length vs) (full v)) g.shape
          ∙ set-middle vs g.next (full v) g.rest
          ∙ sym (full-snoc vs v g.rest) in
        let more = length-append vs (v ∷ []) in
        let low : length vs < 2147483647 =
          omega (arith, length-storage a sound f vs r room, r.small) in
        let write : FlexArray T → Run (FlexArray T) =
          λ h. from_option (get_elem? h.storage h.next_index) >>= λ old. ok (append_entry h v) in
        (
          f',
          ap (λ b. if b then panic else (make_room a f f.next_index >>= write)) r.whole
              ∙ ap (λ m. m >>= write) g.run
              ∙ ap (λ o. from_option o >>= λ old. ok f') found,
          record {
            rest = g.rest;
            shape = put;
            count = omega (arith, r.count, more, low);
            next = omega (arith, r.next, more, low);
            whole = r.whole;
            small = rw (length-set g.storage f.next_index (full v)) g.small;
          },
        )

  abbrev pop_round : FlexArray T → Entry T → Entry T × FlexArray T
  pop_round f e = (
    e,
    if e.empty then f else record f {
      storage = set f.storage (sub32 f.next_index 1) (record e { empty = true });
      occupied = sub32 f.occupied 1;
      next_index = sub32 f.next_index 1;
    },
  )

  abbrev taken : Entry T × FlexArray T → Run (T × FlexArray T)
  taken r = ok (r.0.value, r.1)

  pop_one :
      (f : FlexArray T) (d : T)
      → (pop_loop 1 (blank d) f >>= taken)
        ≡ (from_option (get_elem? f.storage (sub32 f.next_index 1)) >>= λ e. taken (pop_round f e))
  unfolding pop_loop
  pop_one f d =
      bind_assoc (from_option (get_elem? f.storage (sub32 f.next_index 1)))
        (λ e. ok (pop_round f e)) taken

  -- `pop` takes the last value off.
  pop-Represents :
      (d : T) (f : FlexArray T) (vs : List T) (v : T)
      → Represents f (vs ++ (v ∷ []))
      → (f' : FlexArray T) × (pop d f 1 ≡ ok (v, f')) × Represents f' vs
  unfolding pop pop_loop
  pop-Represents d f vs v r =
      let more = length-append vs (v ∷ []) in
      let n : capacity f ≡ length (vs ++ (v ∷ [])) + length r.rest =
        ap length r.shape
        ∙ length-append (map full (vs ++ (v ∷ []))) r.rest
        ∙ ap (λ m. m + length r.rest) (length-full (vs ++ (v ∷ []))) in
      let last : sub32 f.next_index 1 ≡ length vs = omega (arith, r.next, more, n, r.small) in
      let split : f.storage ≡ map full vs ++ (full v ∷ r.rest) = r.shape ∙ full-snoc vs v r.rest in
      let found : get_elem? f.storage (sub32 f.next_index 1) ≡ some (full v) =
        ap (λ i. get_elem? f.storage i) last
        ∙ ap (λ es. get_elem? es (length vs)) split
        ∙ get_elem?-middle vs (full v) r.rest in
      let gone : Entry T = record { empty = true; value = v } in
      let f' : FlexArray T = record f {
        storage = set f.storage (sub32 f.next_index 1) gone;
        occupied = sub32 f.occupied 1;
        next_index = sub32 f.next_index 1;
      } in
      (
        f',
        ap (λ b. if b then panic else (pop_loop 1 (blank d) f >>= taken)) r.whole
            ∙ pop_one f d
            ∙ ap (λ o. from_option o >>= λ e. taken (pop_round f e)) found,
        record {
          rest = gone ∷ r.rest;
          shape =
              ap (λ i. set f.storage i gone) last
              ∙ ap (λ es. set es (length vs) gone) split
              ∙ set-middle vs (full v) gone r.rest;
          count = omega (arith, r.count, more, n, r.small);
          next = last;
          whole = r.whole;
          small = rw (length-set f.storage (sub32 f.next_index 1) gone) r.small;
        },
      )

  -- A flexible array without gaps that holds some values, when what it may grow to stays below the
  -- limit: `push` returns, in larger storage where there is no room, and the array then holds the
  -- value behind the others; `pop` returns that value and leaves an array that holds what was there.
  pub pop-push :
      (a : Allocation T)
      → IsSound a
      → (f : FlexArray T) (vs : List T) → Represents f vs
      → capacity f + 1 + a.growth (capacity f) ≤ 2147483646
      → (d v : T)
      → (f' : FlexArray T) × (f'' : FlexArray T) × (push a f v ≡ ok f')
        × Represents f' (vs ++ (v ∷ []))
        × (pop d f' 1 ≡ ok (v, f''))
        × Represents f'' vs
  pop-push a sound f vs r room d v =
      let (f', pushed, r') = push-Represents a sound f vs r room v in
      let (f'', popped, r'') = pop-Represents d f' vs v r' in (f', f'', pushed, r', popped, r'')
