-- ===== src/KernelHeap/Inv.antt =====
-- The invariant of the kernel's heap: its blocks lie in taken pages and do not overlap.
use speedy_os.Common.{
  ℕ, ◌+◌, ◌*◌, ◌/◌, ◌≤◌, ◌≡◌, ◌⊎◌, inl, inr, refl, ap, Bool, true, false, List, [], ◌∷◌, ◌++◌, some,
  none, length, u32_mod, All, All-append, All-append-inv, Bool-cases, arith,
}
use speedy_os.Physical.{data_location}
use speedy_os.KernelHeap.{BlockMeta, Heap, header, occupy, claim, is_suitable}
use speedy_os.KernelHeap.Spans.{Marked, Apart}

-- Where a block ends, its header counted.
abbrev pub block_end : BlockMeta → ℕ
block_end b = b.address + header + b.size

-- The end of the page in which a span ends.
abbrev pub page_end : ℕ → ℕ
page_end a = (a + 4095) / 4096 * 4096

-- The pages of a block are taken.
abbrev pub Sound : List Bool → BlockMeta → Type 0
Sound m b = (data_location ≤ b.address) × Marked m true b.address (block_end b)

-- A block is apart from a span.
abbrev pub Outside : (low high : ℕ) → BlockMeta → Type 0
Outside low high b = Apart b.address (block_end b) low high

-- No two of the blocks overlap.
abbrev pub Separate : List BlockMeta → Type 0
Separate [] = Unit
Separate (b ∷ bs) = All (Outside b.address (block_end b)) bs × Separate bs

-- The tail has the rest of its last page to itself.
pub record Inv (h : Heap) : Type 0 where
  pub sound : All (Sound h.physical.data_meta) h.before_tail
  pub tail_sound : Sound h.physical.data_meta h.tail_block
  pub separate : Separate h.before_tail
  pub tail_apart :
      All (Outside h.tail_block.address (page_end (block_end h.tail_block))) h.before_tail
  pub fits : data_location + length h.physical.data_meta * 4096 ≤ u32_mod

pub Separate-snoc :
    (bs : List BlockMeta) (b : BlockMeta)
    → Separate bs
    → All (Outside b.address (block_end b)) bs
    → Separate (bs ++ (b ∷ []))
Separate-snoc [] b s o = (tt, tt)
Separate-snoc (c ∷ cs) b (a, s) (o, os) =
    (All-append _ cs (b ∷ []) a (ground arith, tt), Separate-snoc cs b s os)

-- A block claimed from a list: its place, and that it was suitable.
pub record Claimed (size : ℕ) (bs : List BlockMeta) (b : BlockMeta) (cs : List BlockMeta)
    : Type 0 where
  pub first : List BlockMeta
  pub last : List BlockMeta
  pub was : bs ≡ first ++ (b ∷ last)
  pub becomes : cs ≡ first ++ (occupy b ∷ last)
  pub suitable : is_suitable size b ≡ true

pub claim-Claimed :
    (size : ℕ) (bs : List BlockMeta)
    → ((b : BlockMeta) × (cs : List BlockMeta) × (claim size bs ≡ some (b, cs))
        × Claimed size bs b cs)
      ⊎ (claim size bs ≡ none)
unfolding claim
claim-Claimed size [] = inr refl
claim-Claimed size (b ∷ bs) = elim (Bool-cases (is_suitable size b)) [
  | inl e ↦ inl (
    b,
    occupy b ∷ bs,
    rw e refl,
    record { first = []; last = bs; was = refl; becomes = refl; suitable = e },
  )
  | inr e ↦ elim (claim-Claimed size bs) [
    | inr e' ↦ inr (rw (e, e') refl)
    | inl (c, cs, e', r) ↦ inl (
      c,
      b ∷ cs,
      rw (e, e') refl,
      record {
        first = b ∷ r.first;
        last = r.last;
        was = ap (λ l. b ∷ l) r.was;
        becomes = ap (λ l. b ∷ l) r.becomes;
        suitable = r.suitable;
      },
    )
  ]
]

-- A claimed block was free and is large enough.
pub suitable_lem :
    (size : ℕ) (b : BlockMeta) → is_suitable size b ≡ true → (b.allocated ≡ false) × (size ≤ b.size)
unfolding is_suitable
suitable_lem size b e = ground arith

-- The others are apart from a block of a list without overlap.
pub Separate-middle :
    (first : List BlockMeta) (b : BlockMeta) (last : List BlockMeta)
    → Separate (first ++ (b ∷ last))
    → All (Outside b.address (block_end b)) first × All (Outside b.address (block_end b)) last
Separate-middle [] b last (o, s) = (tt, o)
Separate-middle (c ∷ cs) b last (o, s) =
    let (_, (p, _)) = All-append-inv _ cs (b ∷ last) o in
    let (f, l) = Separate-middle cs b last s in ((ground arith, f), l)

-- The spans of the blocks do not depend on their flags.
pub Separate-occupy :
    (first : List BlockMeta) (b : BlockMeta) (last : List BlockMeta)
    → Separate (first ++ (b ∷ last))
    → Separate (first ++ (occupy b ∷ last))
Separate-occupy [] b last s = s
Separate-occupy (c ∷ cs) b last (o, s) =
    let (f, (p, l)) = All-append-inv _ cs (b ∷ last) o in
    (All-append _ cs (occupy b ∷ last) f (p, l), Separate-occupy cs b last s)

pub All-occupy {κ} :
    (P : BlockMeta → Type κ) (first : List BlockMeta) (b : BlockMeta) (last : List BlockMeta)
    → (P b → P (occupy b))
    → All P (first ++ (b ∷ last))
    → All P (first ++ (occupy b ∷ last))
All-occupy P first b last h all =
    let (f, (p, l)) = All-append-inv P first (b ∷ last) all in
    All-append P first (occupy b ∷ last) f (h p, l)
