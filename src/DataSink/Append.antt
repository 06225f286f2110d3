-- ===== src/DataSink/Append.antt =====
-- What is appended to a sink comes out after what was there.

use speedy_os.Common.{
  ℕ, ◌+◌, ◌≤◌, ◌<◌, ◌≡◌, ◌≢◌, refl, ap, ◌∙◌, Bool, true, false, List, [], ◌∷◌, ◌++◌, ◌==◌, length,
  take-all, drop-all, length-append, All, All-append, u32_mod, ok, arith,
}
use speedy_os.KernelHeap.{Heap, kmalloc}
use speedy_os.DataSink.{
  DataFragment, AppendType, copy_buffer, transfer_buffer_ownership, existing_buffer, new_fragment,
  append_data, Consumed, consume_data_stream,
}
use speedy_os.DataSink.Stream.{
  stream, stream-append, stream-one, IsWhole, FitsWord, consume_data_stream-Reads,
}

-- A call that has put one fragment with the bytes `contents` behind the others.
pub record Appends (fragments : List DataFragment) (contents : List ℕ)
    (fragments' : List DataFragment) : Type 0 where
  pub bytes : stream fragments' ≡ stream fragments ++ contents
  pub whole : All IsWhole fragments'
  pub fits : All FitsWord fragments'

module _ (fragments : List DataFragment) (contents : List ℕ) (buffer_size : ℕ)
    (ws : All IsWhole fragments) (fs : All FitsWord fragments) (len : length contents ≡ buffer_size)
    (bound : buffer_size < u32_mod) where
  new_fragment-Appends :
      (address : ℕ) (unique : Bool)
      → Appends fragments contents
          (fragments ++ (new_fragment address contents buffer_size unique ∷ []))
  unfolding new_fragment
  new_fragment-Appends address unique =
      let f = new_fragment address contents buffer_size unique in
      record {
        bytes = stream-append fragments (f ∷ []) ∙ ap (λ l. stream fragments ++ l) (stream-one f);
        whole = All-append IsWhole fragments (f ∷ []) ws (omega arith, tt);
        fits = All-append FitsWord fragments (f ∷ []) fs (bound, tt);
      }

  -- A call with bytes to append returns true, where the allocation of a copy returns.
  pub append_data-Appends :
      (buffer address : ℕ) (type : AppendType) (h h' : Heap)
      → buffer_size ≢ 0
      → (type ≡ copy_buffer → kmalloc buffer_size false h ≡ ok (address, h'))
      → (fragments' : List DataFragment) × (h2 : Heap) × (append_data buffer contents buffer_size
            type fragments h
          ≡ ok (true, fragments', h2))
        × Appends fragments contents fragments'
  unfolding append_data
  append_data-Appends buffer address copy_buffer h h' nz run =
      let z : (buffer_size == 0) ≡ false = ground arith in
      (_, h', rw (z, run refl) refl, new_fragment-Appends address true)
  append_data-Appends buffer address transfer_buffer_ownership h h' nz run =
      let z : (buffer_size == 0) ≡ false = ground arith in
      (_, h, rw z refl, new_fragment-Appends buffer true)
  append_data-Appends buffer address existing_buffer h h' nz run =
      let z : (buffer_size == 0) ≡ false = ground arith in
      (_, h, rw z refl, new_fragment-Appends buffer false)

  -- On fragments that are whole and of sizes below 2 ^ 32: appending a buffer of `buffer_size`
  -- bytes, not 0 and below 2 ^ 32, in any of the three ways, where the allocation of a copy
  -- returns, and then asking for as many bytes as the sink holds, fewer than 2 ^ 32 in all. Both
  -- calls return, the bytes that were there come out first, then the appended ones, and nothing is
  -- left.
  pub append_data-consume_data_stream :
      (buffer address : ℕ) (type : AppendType) (h h' : Heap)
      → buffer_size ≢ 0
      → (type ≡ copy_buffer → kmalloc buffer_size false h ≡ ok (address, h'))
      → length (stream fragments) + buffer_size < u32_mod
      → (fragments' : List DataFragment) × (h2 : Heap) × (r : Consumed) × (append_data buffer
            contents buffer_size type fragments h
          ≡ ok (true, fragments', h2))
        × (consume_data_stream fragments' (length (stream fragments) + buffer_size) ≡ ok r)
        × (r.written ≡ stream fragments ++ contents)
        × (stream r.left ≡ [])
  append_data-consume_data_stream buffer address type h h' nz run total =
      let (fragments', h2, appended, a) = append_data-Appends buffer address type h h' nz run in
      let size = length (stream fragments) + buffer_size in
      let (r, consumed, reads) = consume_data_stream-Reads fragments' size a.whole a.fits total in
      let all : length (stream fragments') ≤ size =
        omega (arith, ap length a.bytes, length-append (stream fragments) contents) in
      (
        fragments',
        h2,
        r,
        appended,
        consumed,
        reads.written ∙ take-all size (stream fragments') all ∙ a.bytes,
        reads.rest ∙ drop-all size (stream fragments') all,
      )
