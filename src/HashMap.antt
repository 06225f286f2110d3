-- ===== src/HashMap.antt =====
-- shared/map.h: the hash map from 32-bit keys, with displacement, and the hash of a name of
-- shared/algorithm.cpp, by which the operations on names find their key.
--
-- The storage is a list of `capacity` buckets; an access beyond its end is a `fault`. A loop over
-- the buckets has the capacity as its fuel: each round is at another bucket, so a search that runs
-- out has seen them all and goes on for ever. The load factor and the growth are computed on the
-- numbers themselves, which gives the values of the floating-point code for capacities below
-- 2 ^ 16.
pub mod Place
pub mod Set
mod Tests
use Prim.Native.Nat.{bit_xor}
use speedy_os.Common.{
  ℕ, zero, suc, ◌+◌, ◌-◌, ◌*◌, ◌/◌, ◌%◌, Bool, true, false, ◌&&◌, List, [], ◌∷◌, Option, none, some,
  get_elem?, set, length, replicate, ltb, leb, ◌==◌, if◌then◌else◌, add32, sub32, mul32, Run, ok,
  panic, fault, out_of_fuel, ◌>>=◌, from_option,
}

pub record Entry {ℓ} (V : Type ℓ) : Type ℓ where
  pub empty : Bool
  pub probes : ℕ
  pub key : ℕ
  pub value : V

pub record Map {ℓ} (V : Type ℓ) : Type ℓ where
  pub storage : List (Entry V)
  pub capacity : ℕ
  pub occupied_buckets : ℕ

-- An index that has been incremented, with the boundary check.
pub step : (capacity index : ℕ) → ℕ
step capacity index = if ltb (sub32 capacity 1) (add32 index 1) then 0 else add32 index 1

pub is_some : Option ℕ → Bool
is_some none = false
is_some (some i) = true

-- `blank_value` is the value of an entry that is empty: all of its bytes are 0.
module _ {ℓ} {V : Type ℓ} (blank_value : V) where
  pub blank : Entry V
  blank = record { empty = true; probes = 0; key = 0; value = blank_value }

  pub init : (initial_capacity : ℕ) → Map V
  init initial_capacity = record {
    storage = replicate initial_capacity blank;
    capacity = initial_capacity;
    occupied_buckets = 0;
  }

module _ {ℓ} {V : Type ℓ} where
  pub locate_loop : ℕ → Map V → (key index : ℕ) → Run (Option ℕ)
  locate_loop zero m key index = out_of_fuel
  locate_loop (suc k) m key index =
      let i = step m.capacity index in
      let rest = locate_loop k m key i in
      from_option (get_elem? m.storage i) >>= λ bucket.
      if bucket.probes == 0 then ok none else if bucket.key == key then ok (some i) else rest

  -- The index of a key, where it is found; a capacity of 0 is a division by 0.
  pub locate_bucket : Map V → (key : ℕ) → Run (Option ℕ)
  locate_bucket m key = if m.capacity == 0 then fault else do
    bucket ← from_option (get_elem? m.storage (key % m.capacity))
    if bucket.key == key
        then ok (some (key % m.capacity))
        else locate_loop m.capacity m key (key % m.capacity)

  pub exists : Map V → (key : ℕ) → Run Bool
  exists m key = locate_bucket m key >>= λ found. ok (is_some found)

  pub fetch : Map V → (key : ℕ) → Run V
  fetch m key = locate_bucket m key >>= λ found. elim found [
    | none ↦ panic
    | some i ↦ from_option (get_elem? m.storage i) >>= λ bucket. ok bucket.value
  ]

  pub write : List (Entry V) → ℕ → Entry V → Run (List (Entry V))
  write storage i e = if ltb i (length storage) then ok (set storage i e) else fault

  -- The probes for a place: the entry that is carried on has fewer of them than the one put down.
  pub place_loop :
      ℕ → (capacity : ℕ) → List (Entry V) → Entry V → (index : ℕ) → Run (List (Entry V))
  place_loop zero capacity storage target index = out_of_fuel
  place_loop (suc k) capacity storage target index =
      let i = step capacity index in
      let moved = record target { probes = add32 target.probes 1 } in
      from_option (get_elem? storage i) >>= λ bucket.
      let richer = ltb bucket.probes moved.probes in
      let rest =
        place_loop k capacity (if richer then set storage i moved else storage)
          (if richer then bucket else moved) i in
      if bucket.empty then write storage i moved else rest

  pub place : Map V → (key : ℕ) → V → Run (Map V)
  place m key value = if m.capacity == 0 then fault else do
    bucket ← from_option (get_elem? m.storage (key % m.capacity))
    let target : Entry V = record { empty = false; probes = 0; key = key; value = value }
    storage ←
        if bucket.empty
        then write m.storage (key % m.capacity) target
        else place_loop m.capacity m.capacity m.storage target (key % m.capacity)
    ok (record m { storage = storage; occupied_buckets = add32 m.occupied_buckets 1 })

  -- The loop that puts the entries into the new storage, by `set_entry`.
  pub rehash : (set_entry : Map V → ℕ → V → Run (Map V)) → List (Entry V) → Map V → Run (Map V)
  rehash set_entry [] m = ok m
  rehash set_entry (e ∷ old) m =
      (if e.empty then ok m else set_entry m e.key e.value) >>= rehash set_entry old

module _ {ℓ} {V : Type ℓ} (blank_value : V) where
  pub resize : (set_entry : Map V → ℕ → V → Run (Map V)) → Map V → (new_capacity : ℕ) → Run (Map V)
  resize set_entry m new_capacity =
      if leb new_capacity m.capacity
      then ok m
      else rehash set_entry m.storage (init blank_value new_capacity)

  -- `set` with the calls that its rehashing makes, the fuel being how deep these may nest.
  pub set_key : ℕ → Map V → (key : ℕ) → V → (auto_optimise : Bool) → Run (Map V)
  set_key zero m key value auto_optimise = out_of_fuel
  set_key (suc k) m key value auto_optimise = do
    found ← locate_bucket m key
    if is_some found then panic else (do
      m' ←
          if auto_optimise && leb (92 * m.capacity) (100 * m.occupied_buckets)
          then resize (λ m1 k1 v1. set_key k m1 k1 v1 true) m (m.capacity * 19 / 10)
          else ok m
      if leb m'.capacity m'.occupied_buckets then panic else place m' key value)

  -- The entries behind a removed one move back, up to one that has no probes.
  pub shift_loop : ℕ → (capacity : ℕ) → List (Entry V) → (shift_index : ℕ) → Run (List (Entry V))
  shift_loop zero capacity storage shift_index = out_of_fuel
  shift_loop (suc k) capacity storage shift_index =
      let i = step capacity shift_index in
      from_option (get_elem? storage i) >>= λ bucket. if bucket.probes == 0 then ok storage else (do
        moved ← write storage (sub32 i 1) (record bucket { probes = sub32 bucket.probes 1 })
        shift_loop k capacity (set moved i (blank blank_value)) i)

  pub remove : Map V → (key : ℕ) → Run (Map V)
  remove m key = locate_bucket m key >>= λ found. elim found [
    | none ↦ ok m
    | some i ↦ do
      storage ← shift_loop m.capacity m.capacity (set m.storage i (blank blank_value)) i
      ok (record m { storage = storage; occupied_buckets = sub32 m.occupied_buckets 1 })
  ]

-- The iterator is the index of its current entry: `has_next` moves it to an entry, if there is one.
module _ {ℓ} {V : Type ℓ} where
  pub has_next : ℕ → Map V → (current_entry : ℕ) → Run (Bool × ℕ)
  has_next zero m current_entry = out_of_fuel
  has_next (suc k) m current_entry =
      let rest = has_next k m (add32 current_entry 1) in
      if current_entry == m.capacity then ok (false, current_entry) else (do
        e ← from_option (get_elem? m.storage current_entry)
        if e.empty then rest else ok (true, current_entry))

  pub next : Map V → (current_entry : ℕ) → Run (V × ℕ)
  next m current_entry = do
    e ← from_option (get_elem? m.storage current_entry)
    ok (e.value, add32 current_entry 1)

-- A character as a signed `char` that is widened to 32 bits.
abbrev pub character_code : (c : ℕ) → ℕ
character_code c = if ltb c 128 then c else c + (4294967296 - 256)

pub hash_loop : List ℕ → (hash : ℕ) → ℕ
hash_loop [] hash = hash
hash_loop (c ∷ key) hash = hash_loop key (mul32 (bit_xor hash (character_code c)) 16777619)

-- The key of a name, given by its characters.
pub hash_string_fnv1a : List ℕ → ℕ
hash_string_fnv1a key = hash_loop key 2166136261
