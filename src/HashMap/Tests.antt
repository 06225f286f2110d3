-- ===== src/HashMap/Tests.antt =====
-- The hash map on concrete keys.
use mathlib.Core.List.{Perm}
use speedy_os.Common.{
  ℕ, ◌≡◌, refl, true, false, Run, ok, fault, ◌>>=◌, none, [], ◌∷◌, ◌<◌, ◌*◌, leb, arith,
}
use speedy_os.HashMap.Place.{entries}
use speedy_os.HashMap.Set.{IsCounted, set_key-IsCounted}
use speedy_os.HashMap.{
  Map, init, exists, set_key, fetch, remove, locate_bucket, blank, locate_loop, step, is_some,
  place, write, place_loop, shift_loop, hash_string_fnv1a, hash_loop,
}

abbrev pairs : Run (Map ℕ)
pairs = do
  a ← set_key 0 3 (init 0 10) 9 90 true
  b ← set_key 0 3 a 19 190 true
  set_key 0 3 b 20 200 true

set_fetch : (pairs >>= λ m. fetch m 20) ≡ ok 200
unfolding set_key fetch init remove locate_bucket blank locate_loop step is_some place write
    place_loop shift_loop
set_fetch = refl

abbrev new_map : Map ℕ
new_map = init 0 10

key_0 : exists new_map 0 ≡ ok true
unfolding exists init locate_bucket blank is_some
key_0 = refl

wrap : (pairs >>= λ m. remove 0 m 9) ≡ fault
unfolding set_key fetch init remove locate_bucket blank locate_loop step is_some place write
    place_loop shift_loop
wrap = refl

abbrev new_words : Map ℕ
new_words = init 0 10

new_words-IsCounted : IsCounted new_words
unfolding init blank entries
new_words-IsCounted = record { long = refl; counted = refl; fits = omega arith }

absent : locate_bucket new_words 7 ≡ ok none
unfolding locate_bucket locate_loop step init blank
absent = refl

room : new_words.occupied_buckets < new_words.capacity
unfolding init
room = omega arith

small : leb (92 * new_words.capacity) (100 * new_words.occupied_buckets) ≡ false
unfolding init
small = refl

set_key-IsCounted_example :
    (m' : Map ℕ) × (set_key 0 1 new_words 7 70 true ≡ ok m')
    × IsCounted m'
    × Perm (entries m'.storage) ((7, 70) ∷ entries new_words.storage)
set_key-IsCounted_example =
    set_key-IsCounted 0 0 new_words 7 70 true new_words-IsCounted room small absent

-- The published value for "a".
hash_a : hash_string_fnv1a (97 ∷ []) ≡ 0xE40C292C
unfolding hash_string_fnv1a hash_loop
hash_a = refl
