-- ===== src/DataSink/Tests.antt =====
-- The theorems on data sinks at concrete sinks.
use speedy_os.Common.{
  ℕ, suc, ◌+◌, ◌≡◌, ◌≢◌, refl, Bool, true, false, if◌then◌else◌, [], ◌∷◌, List, Run, ok, ◌<◌, ◌==◌,
  ◌++◌, u32_mod, add32, length, arith,
}
use speedy_os.HashMap.{init}
use speedy_os.KernelHeap.{Heap, kmalloc, magic_number}
use speedy_os.DataSink.{
  DataFragment, copy_buffer, existing_buffer, append_data, Consumed, consume_data_stream, next,
  Sinks, create_steady_datasink,
}
use speedy_os.DataSink.Stream.{stream, Reads, consume_data_stream-Reads}
use speedy_os.DataSink.Append.{append_data-consume_data_stream}
use speedy_os.DataSink.Identifiers.{IsFirst, next-returns, create_steady_datasink-fails}

-- Two bytes that are left of three, in a buffer that the sink owns, and four of another's.
abbrev two_fragments : List DataFragment
two_fragments =
    record {
      address = 100;
      contents = 1 ∷ 2 ∷ 3 ∷ [];
      data_ptr = 1;
      size_remaining = 2;
      actual_size = 3;
      unique = true;
    }
    ∷ record {
      address = 200;
      contents = 4 ∷ 5 ∷ 6 ∷ 7 ∷ [];
      data_ptr = 0;
      size_remaining = 4;
      actual_size = 4;
      unique = false;
    }
    ∷ []

consume_data_stream-Reads_example :
    (r : Consumed) × (consume_data_stream two_fragments 3 ≡ ok r) × Reads two_fragments 3 0 r
consume_data_stream-Reads_example =
    consume_data_stream-Reads two_fragments 3 (refl, (refl, tt)) (omega arith, (omega arith, tt))
      (omega arith)

-- Any heap does where nothing is copied.
abbrev one_block : Heap
one_block = record {
  before_tail = [];
  tail_block = record {
    address = 0x0120_0000;
    size = 200;
    allocated = false;
    magic = magic_number;
  };
  bytes = λ a. 0;
  physical = record { data_meta = true ∷ []; memory = λ a. 0; reserved_blocks = 1 };
}

existing_copies : existing_buffer ≡ copy_buffer → kmalloc 2 false one_block ≡ ok (0, one_block)
existing_copies e = cc

total : length (stream two_fragments) + 2 < u32_mod
unfolding stream
total = omega arith

append_data-consume_data_stream_example :
    (fragments' : List DataFragment) × (h2 : Heap) × (r : Consumed) × (append_data 300
        (8 ∷ 9 ∷ [])
        2
        existing_buffer
        two_fragments
        one_block
      ≡ ok (true, fragments', h2))
    × (consume_data_stream fragments' (length (stream two_fragments) + 2) ≡ ok r)
    × (r.written ≡ stream two_fragments ++ (8 ∷ 9 ∷ []))
    × (stream r.left ≡ [])
append_data-consume_data_stream_example =
    append_data-consume_data_stream two_fragments (8 ∷ 9 ∷ []) 2 (refl, (refl, tt))
      (omega arith, (omega arith, tt)) refl (omega arith) 300 0 existing_buffer one_block one_block
      (omega arith) existing_copies total

-- Identifiers of which 5 and 7 are accepted.
abbrev odd : ℕ → Run Bool
odd id = ok (if id == 5 then true else id == 7)

next-returns_example : (n : ℕ) × (next u32_mod odd 3 ≡ ok (add32 3 (suc n))) × IsFirst odd 3 n
next-returns_example = next-returns odd (λ id. (_, refl)) 3 7 (omega arith) (omega arith) refl

abbrev no_sinks : Sinks
no_sinks = record { active_sinks = init 0 10; steady_sinks = init 0 10; prev_id = 0 }

create_steady_datasink-fails_example :
    create_steady_datasink 100 4096 no_sinks ≢ ok (4096, no_sinks)
create_steady_datasink-fails_example =
    create_steady_datasink-fails 100 4096 no_sinks (4096, no_sinks)
