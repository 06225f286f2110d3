-- ===== src/DataSink/Stream.antt =====
-- A sink is a stream of bytes: what is appended comes out in order, each byte once.
use mathlib.Core.List.{append-nil, append_assoc}
use speedy_os.Common.{
  ℕ, ◌+◌, ◌-◌, ◌≤◌, ◌<◌, ◌≡◌, refl, ap, sym, ◌∙◌, List, [], ◌∷◌, ◌++◌, leb, ◌==◌, length, take,
  drop, length-drop, length-take, take-all, drop-all, drop-drop, take-append, drop-append, take-nil,
  drop-nil, length-append, All, u32_mod, add32, sub32, Bool-cases, inl, inr, ok, arith,
}
use speedy_os.DataSink.{
  DataFragment, Consumed, read_fragment, owned_by, advance, consume_loop, consume_data_stream,
}

-- The bytes of a fragment that have not been read, and those of all fragments.
abbrev pub unread : DataFragment → List ℕ
unread f = drop f.data_ptr f.contents

unfoldable pub stream : List DataFragment → List ℕ
stream [] = []
stream (f ∷ fragments) = unread f ++ stream fragments

pub stream-append : (a b : List DataFragment) → stream (a ++ b) ≡ stream a ++ stream b
unfolding stream
stream-append [] b = refl
stream-append (f ∷ a) b =
    ap (λ l. unread f ++ l) (stream-append a b)
    ∙ sym (append_assoc (unread f) (stream a) (stream b))

pub stream-one : (f : DataFragment) → stream (f ∷ []) ≡ unread f
unfolding stream
stream-one f = append-nil (unread f)

-- The buffers that the fragments own.
pub owned : List DataFragment → List ℕ
owned [] = []
owned (f ∷ fragments) = owned_by f ++ owned fragments

-- The size of a fragment is that of its unread bytes.
abbrev pub IsWhole : DataFragment → Type 0
IsWhole f = f.data_ptr + f.size_remaining ≡ length f.contents

-- A call for `size` bytes has taken as many bytes off the front of the stream as there are.
pub record Reads (fragments : List DataFragment) (size before : ℕ) (r : Consumed) : Type 0 where
  pub written : r.written ≡ take size (stream fragments)
  pub rest : stream r.left ≡ drop size (stream fragments)
  pub counted : r.read_bytes ≡ before + length r.written
  pub freed : r.freed ++ owned r.left ≡ owned fragments
  pub whole : All IsWhole r.left

length-unread : (f : DataFragment) → IsWhole f → length (unread f) ≡ f.size_remaining
length-unread f w = omega (arith, length-drop f.data_ptr f.contents)

read_fragment-IsWhole :
    (f : DataFragment) (size : ℕ)
    → IsWhole f
    → size ≤ f.size_remaining
    → read_fragment f size ≡ ok (take size (unread f))
unfolding read_fragment
read_fragment-IsWhole f size w h = ground arith

-- Reading a whole fragment, and going on with the others.
Reads-whole :
    (f : DataFragment) (fragments : List DataFragment) (size before : ℕ) (r : Consumed)
    → IsWhole f
    → f.size_remaining ≤ size
    → Reads fragments (size - f.size_remaining) (before + f.size_remaining) r
    → Reads (f ∷ fragments) size before (record r {
      written = take f.size_remaining (unread f) ++ r.written;
      freed = owned_by f ++ r.freed;
    })
unfolding stream owned
Reads-whole f fragments size before r w h reads =
    let len = length-unread f w in
    let all : take f.size_remaining (unread f) ≡ unread f =
      take-all f.size_remaining (unread f) (omega arith) in
    record {
      written =
          rw
            (
              all,
              take-append size (unread f) (stream fragments),
              take-all size (unread f) (omega arith),
              len,
              reads.written,
            )
            refl;
      rest =
          rw
            (
              drop-append size (unread f) (stream fragments),
              drop-all size (unread f) (omega arith),
              len,
            )
            reads.rest;
      counted = omega (
        arith,
        reads.counted,
        ap length all,
        length-append (take f.size_remaining (unread f)) r.written,
      );
      freed =
          append_assoc (owned_by f) r.freed (owned r.left) ∙ ap (λ l. owned_by f ++ l) reads.freed;
      whole = reads.whole;
    }

-- Reading the start of a fragment.
Reads-part :
    (f : DataFragment) (fragments : List DataFragment) (size before : ℕ)
    → IsWhole f
    → All IsWhole fragments
    → size < f.size_remaining
    → f.size_remaining < u32_mod
    → Reads (f ∷ fragments) size before (record {
      read_bytes = before + size;
      written = take size (unread f);
      freed = [];
      left = advance f size ∷ fragments;
    })
unfolding stream owned
Reads-part f fragments size before w ws h bound =
    let len = length-unread f w in
    let none_left : size - length (unread f) ≡ 0 = omega arith in
    record {
      written =
          rw (take-append size (unread f) (stream fragments), none_left)
            (sym (append-nil (take size (unread f))));
      rest =
          rw
            (
              drop-append size (unread f) (stream fragments),
              none_left,
              drop-drop f.data_ptr size f.contents,
            )
            refl;
      counted = omega (arith, length-take size (unread f) (omega arith));
      freed = refl;
      whole = (omega arith, ws);
    }

-- The sum of the sizes that are left stays in a word.
abbrev pub FitsWord : DataFragment → Type 0
FitsWord f = f.size_remaining < u32_mod

-- A call for `size` bytes returns, having read what there is.
pub consume_loop-Reads :
    (fragments : List DataFragment) (size before : ℕ)
    → All IsWhole fragments
    → All FitsWord fragments
    → before + size < u32_mod
    → (r : Consumed) × (consume_loop fragments size before ≡ ok r) × Reads fragments size before r
unfolding consume_loop stream owned
consume_loop-Reads [] size before ws fs bound = (
  record { read_bytes = before; written = []; freed = []; left = [] },
  refl,
  record {
    written = sym (take-nil size);
    rest = sym (drop-nil size);
    counted = omega arith;
    freed = refl;
    whole = ws;
  },
)
consume_loop-Reads (f ∷ fragments) size before (w, ws) (b, bs) bound =
    let len = length-unread f w in
    elim (Bool-cases (size == 0)) [
      | inl e ↦
          let z : size ≡ 0 = ground arith in
          (
            record { read_bytes = before; written = []; freed = []; left = f ∷ fragments },
            rw e refl,
            record {
              written = rw z refl;
              rest = rw z refl;
              counted = omega arith;
              freed = refl;
              whole = (w, ws);
            },
          )
      | inr e ↦ elim (Bool-cases (leb f.size_remaining size)) [
        | inl g ↦
            let le : f.size_remaining ≤ size = ground arith in
            let (r, run, reads) =
              consume_loop-Reads fragments (size - f.size_remaining) (before + f.size_remaining) ws
                bs (omega arith) in
            let e1 : sub32 size f.size_remaining ≡ size - f.size_remaining = omega arith in
            let e2 : add32 before f.size_remaining ≡ before + f.size_remaining = omega arith in
            (
              record r {
                written = take f.size_remaining (unread f) ++ r.written;
                freed = owned_by f ++ r.freed;
              },
              rw (e, g, read_fragment-IsWhole f f.size_remaining w (omega arith), e1, e2, run) refl,
              Reads-whole f fragments size before r w (omega arith) reads,
            )
        | inr g ↦
            let lt : size < f.size_remaining = ground arith in
            let e2 : add32 before size ≡ before + size = omega arith in
            (
              record {
                read_bytes = before + size;
                written = take size (unread f);
                freed = [];
                left = advance f size ∷ fragments;
              },
              rw (e, g, read_fragment-IsWhole f size w (omega arith), e2) refl,
              Reads-part f fragments size before w ws (omega arith) b,
            )
      ]
    ]

-- A call for `size` bytes, at most 2 ^ 32 - 1, on fragments that are whole and of sizes below
-- 2 ^ 32 returns. It writes the first `size` bytes of the stream, or all where there are fewer,
-- and returns how many; what is left is the rest of the stream, in whole fragments; and each
-- buffer that the sink owned is either freed, once, or still owned.
pub consume_data_stream-Reads :
    (fragments : List DataFragment) (size : ℕ)
    → All IsWhole fragments
    → All FitsWord fragments
    → size < u32_mod
    → (r : Consumed) × (consume_data_stream fragments size ≡ ok r) × Reads fragments size 0 r
unfolding consume_data_stream
consume_data_stream-Reads fragments size ws fs bound =
    consume_loop-Reads fragments size 0 ws fs (omega arith)
