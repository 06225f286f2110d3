-- ===== src/DataSink.antt =====
-- kernel/src/cpp/scheduling/datasink.cpp and structures/datasink.h, and shared/id_generator.cpp:
-- streams of bytes between processes, and their identifiers.
--
-- A buffer is its address with the bytes that it holds. The `memcpy` to a destination is the list
-- of the bytes written there, in order, and the calls of `kfree` are the list of the buffers freed.
pub mod Stream
pub mod Append
pub mod Identifiers
mod Tests
use speedy_os.Common.{
  ℕ, zero, suc, ◌+◌, ◌-◌, Bool, true, false, not, List, [], ◌∷◌, ◌++◌, Option, none, some, leb, ltb,
  ◌==◌, if◌then◌else◌, length, take, drop, add32, sub32, Run, ok, panic, fault, out_of_fuel, ◌>>=◌,
}
use speedy_os.HashMap.{Map, exists, set_key}
use speedy_os.KernelHeap.{Heap, kmalloc}

pub record DataFragment : Type 0 where
  pub address : ℕ
  pub contents : List ℕ
  pub data_ptr : ℕ
  pub size_remaining : ℕ
  pub actual_size : ℕ
  pub unique : Bool

pub data AppendType : Type 0 where
  copy_buffer transfer_buffer_ownership existing_buffer : AppendType

pub new_fragment : (address : ℕ) → (contents : List ℕ) → (size : ℕ) → (unique : Bool) → DataFragment
new_fragment address contents size unique = record {
  address = address;
  contents = contents;
  data_ptr = 0;
  size_remaining = size;
  actual_size = size;
  unique = unique;
}

-- The buffer that is appended, of `buffer_size` bytes.
pub append_data :
    (buffer : ℕ) (contents : List ℕ) (buffer_size : ℕ)
    → AppendType
    → List DataFragment
    → Heap
    → Run (Bool × List DataFragment × Heap)
append_data buffer contents buffer_size type fragments h =
    if buffer_size == 0 then ok (false, fragments, h) else elim type [
      | copy_buffer ↦ kmalloc buffer_size false h >>= λ (address, h').
          ok (true, fragments ++ (new_fragment address contents buffer_size true ∷ []), h')
      | transfer_buffer_ownership ↦
          ok (true, fragments ++ (new_fragment buffer contents buffer_size true ∷ []), h)
      | existing_buffer ↦
          ok (true, fragments ++ (new_fragment buffer contents buffer_size false ∷ []), h)
    ]

-- What a call of `consume_data_stream` has read, written and freed, and what is left.
pub record Consumed : Type 0 where
  pub read_bytes : ℕ
  pub written : List ℕ
  pub freed : List ℕ
  pub left : List DataFragment

-- `size` bytes from the position of a fragment.
pub read_fragment : DataFragment → ℕ → Run (List ℕ)
read_fragment f size =
    if leb (f.data_ptr + size) (length f.contents)
    then ok (take size (drop f.data_ptr f.contents))
    else fault

abbrev pub owned_by : DataFragment → List ℕ
owned_by f = if f.unique then f.address ∷ [] else []

-- A fragment of which `size` bytes have been read.
abbrev pub advance : DataFragment → ℕ → DataFragment
advance f size = record f {
  size_remaining = sub32 f.size_remaining size;
  data_ptr = f.data_ptr + size;
}

-- The loop; each round but the last takes a fragment away.
pub consume_loop : List DataFragment → (consume_size read_bytes : ℕ) → Run Consumed
consume_loop [] consume_size read_bytes =
    ok (record { read_bytes = read_bytes; written = []; freed = []; left = [] })
consume_loop (f ∷ fragments) consume_size read_bytes =
    let rest =
      consume_loop fragments (sub32 consume_size f.size_remaining)
        (add32 read_bytes f.size_remaining) in
    if consume_size == 0
    then ok (record { read_bytes = read_bytes; written = []; freed = []; left = f ∷ fragments })
    else if leb f.size_remaining consume_size
    then (do
      bytes ← read_fragment f f.size_remaining
      r ← rest
      ok (record r { written = bytes ++ r.written; freed = owned_by f ++ r.freed }))
    else (do
      bytes ← read_fragment f consume_size
      ok (record {
        read_bytes = add32 read_bytes consume_size;
        written = bytes;
        freed = [];
        left = advance f consume_size ∷ fragments;
      }))

pub consume_data_stream : List DataFragment → ℕ → Run Consumed
consume_data_stream fragments consume_size = consume_loop fragments consume_size 0

-- The buffer freed, if any, and the fragments left.
pub consume_block : List DataFragment → Bool × List ℕ × List DataFragment
consume_block [] = (false, [], [])
consume_block (f ∷ fragments) = (true, owned_by f, fragments)

-- `id_generator::next` from the last identifier, with fuel: the loop has no bound of its own.
pub next : ℕ → (validate : ℕ → Run Bool) → (prev_id : ℕ) → Run ℕ
next zero validate prev_id = out_of_fuel
next (suc k) validate prev_id =
    let rest = next k validate (add32 prev_id 1) in
    validate (add32 prev_id 1) >>= λ valid. if valid then ok (add32 prev_id 1) else rest

-- The sinks by identifier, of all processes and of one, and the last identifier given.
pub record Sinks : Type 0 where
  pub active_sinks : Map ℕ
  pub steady_sinks : Map ℕ
  pub prev_id : ℕ

-- `sink` is the address of the new sink; the validator is the one that `initialise` installs.
pub create_steady_datasink : (fuel : ℕ) → (sink : ℕ) → Sinks → Run (ℕ × Sinks)
create_steady_datasink fuel sink s = do
  handle_id ← next fuel (exists s.active_sinks) s.prev_id
  steady ← set_key 0 fuel s.steady_sinks handle_id sink true
  active ← set_key 0 fuel s.active_sinks handle_id sink true
  ok (sink, record { active_sinks = active; steady_sinks = steady; prev_id = handle_id })
