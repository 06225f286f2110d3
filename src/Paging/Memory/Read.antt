-- ===== src/Paging/Memory/Read.antt =====
-- What is read of the memory of a process.
use native.Mathlib.Decide.{dec_lt}
use speedy_os.Common.{
  ℕ, zero, suc, ◌+◌, ◌-◌, ◌*◌, ◌/◌, ◌%◌, ◌≤◌, ◌<◌, ◌≡◌, ◌≢◌, ◌⊎◌, inl, inr, refl, ap, ◌∙◌, Bool,
  true, ◌||◌, List, [], ◌∷◌, ◌++◌, some, length, length-append, get_elem?, get_elem?-append_left,
  get_elem?-append_right, ltb, leb, ◌==◌, add32, u32_mod, Bool-cases, ok, arith,
}
use speedy_os.Physical.{Physical}
use speedy_os.Paging.Fields.{user_supervisor}
use speedy_os.Paging.{address_to_pi}
use speedy_os.Paging.Memory.{
  byte_at, read_bytes, is_owned, page_base, read_rest, read_virtual_memory,
}

-- The bytes at the addresses `place 0`, `place 1` and so on.
pub record IsRead (bytes : List ℕ) (size : ℕ) (p : Physical) (place : ℕ → ℕ) : Type 0 where
  pub long : length bytes ≡ size
  pub each : (i : ℕ) → i < size → get_elem? bytes i ≡ some (byte_at p (place i))

IsRead-cong :
    (bytes : List ℕ) (size : ℕ) (p : Physical) (f g : ℕ → ℕ)
    → ((i : ℕ) → i < size → f i ≡ g i)
    → IsRead bytes size p f
    → IsRead bytes size p g
IsRead-cong bytes size p f g same read = record {
  long = read.long;
  each = λ i h. read.each i h ∙ ap (λ a. some (byte_at p a)) (same i h);
}

IsRead-append :
    (xs ys : List ℕ) (m n total : ℕ) (p : Physical) (f : ℕ → ℕ)
    → m + n ≡ total
    → IsRead xs m p f
    → IsRead ys n p (λ i. f (m + i))
    → IsRead (xs ++ ys) total p f
IsRead-append xs ys m n total p f sum first second = record {
  long = omega (arith, length-append xs ys, first.long, second.long);
  each = λ i h. elim (dec_lt i m) [
    | yes l ↦ get_elem?-append_left xs ys i (omega (arith, first.long)) ∙ first.each i l
    | no l ↦
        let e : i - length xs ≡ i - m = ap (λ k. i - k) first.long in
        let e' : m + (i - m) ≡ i = omega arith in
        get_elem?-append_right xs ys i (omega (arith, first.long))
        ∙ ap (get_elem? ys) e
        ∙ second.each (i - m) (omega arith)
        ∙ ap (λ k. some (byte_at p (f k))) e'
  ];
}

read_bytes-IsRead :
    (count : ℕ) (p : Physical) (address : ℕ)
    → address + count ≤ u32_mod
    → IsRead (read_bytes count p address) count p (λ i. address + i)
unfolding read_bytes
read_bytes-IsRead zero p address h = record { long = refl; each = λ i l. absurd (omega arith) }
read_bytes-IsRead (suc k) p address h =
    let rest = read_bytes-IsRead k p (add32 address 1) (omega arith) in
    record {
      long = omega (arith, rest.long);
      each = λ i.
          elim i
            as (λ i.
              i < suc k
              → get_elem? (byte_at p address ∷ read_bytes k p (add32 address 1)) i
                ≡ some (byte_at p (address + i))) [
                  | zero ↦ λ l.
                      let e : address ≡ address + 0 = omega arith in ap (λ a. some (byte_at p a)) e
                  | suc j ↦ λ l.
                      let e : add32 address 1 + j ≡ address + suc j = omega arith in
                      rest.each j (omega arith) ∙ ap (λ a. some (byte_at p a)) e
                ];
    }

-- The physical address of a virtual one, where the pages have the frames.
abbrev pub translate : (frames : ℕ → ℕ) → (address : ℕ) → ℕ
translate frames address = frames (address / 4096) + address % 4096

module _ (directories : ℕ) (frames : ℕ → ℕ) (p : Physical)
    (framed : (index : ℕ) → frames index + 4096 ≤ u32_mod) (allow_kernel_pages : Bool) where
  -- The pages from `first` up to the address `last` have their frames.
  abbrev AreMapped : (check : ℕ → Bool) → (first last : ℕ) → Type 0
  AreMapped check first last =
      (index : ℕ)
      → first ≤ index
      → index * 4096 < last
      → page_base check directories index p ≡ ok (some (frames index))

  -- The start of a page.
  page_start-IsRead :
      (index count : ℕ)
      → count ≤ 4096
      → IsRead
          (read_bytes count p (frames index))
          count
          p
          (λ i. translate frames (index * 4096 + i))
  page_start-IsRead index count h =
      let b = framed index in
      IsRead-cong (read_bytes count p (frames index)) count p (λ i. frames index + i)
        (λ i. translate frames (index * 4096 + i))
        (λ i l.
          let e : index ≡ (index * 4096 + i) / 4096 = omega arith in
          let e' : i ≡ (index * 4096 + i) % 4096 = omega arith in
          ap (λ k. frames k + i) e ∙ ap (λ k. frames ((index * 4096 + i) / 4096) + k) e')
        (read_bytes-IsRead count p (frames index) (omega arith))

  read_rest-IsRead :
      (k index remaining offset : ℕ)
      → remaining / 4096 < k
      → index * 4096 + remaining ≤ u32_mod
      → (offset ≡ 0) ⊎ (remaining % 4096 ≡ 0)
      → AreMapped (λ w. allow_kernel_pages || is_owned w) index (index * 4096 + remaining)
      → (bytes : List ℕ) × (read_rest k directories index remaining offset allow_kernel_pages p
          ≡ ok (true, bytes))
        × IsRead bytes remaining p (λ i. translate frames (index * 4096 + i))
  unfolding read_rest
  read_rest-IsRead zero index remaining offset h b straight mapped = absurd (omega arith)
  read_rest-IsRead (suc k) index remaining offset h b straight mapped =
      elim (Bool-cases (remaining == 0)) [
        | inl z ↦
            let none_left : remaining ≡ 0 = ground arith in
            ([], rw z refl, record { long = omega arith; each = λ i l. absurd (omega arith) })
        | inr z ↦
            let some_left : remaining ≢ 0 = ground arith in
            let here = mapped index (omega arith) (omega arith) in
            elim (Bool-cases (leb 4096 remaining)) [
              | inl g ↦
                  let le : 4096 ≤ remaining = ground arith in
                  let next : add32 index 1 ≡ index + 1 = omega arith in
                  let (bytes, run, rest) =
                    read_rest-IsRead k (index + 1) (remaining - 4096) offset (omega arith)
                      (omega arith) (elim straight [ inl e ↦ inl e | inr e ↦ inr (omega arith) ])
                      (λ j l l'. mapped j (omega arith) (omega arith)) in
                  let run' =
                    ap
                      (λ i.
                        read_rest k directories i (remaining - 4096) offset allow_kernel_pages p)
                      next
                    ∙ run in
                  (
                    read_bytes 4096 p (frames index) ++ bytes,
                    rw (z, here, g, run') refl,
                    IsRead-append (read_bytes 4096 p (frames index)) bytes 4096 (remaining - 4096)
                        remaining p (λ i. translate frames (index * 4096 + i)) (omega arith)
                        (page_start-IsRead index 4096 (omega arith))
                        (IsRead-cong bytes (remaining - 4096) p
                          (λ i. translate frames ((index + 1) * 4096 + i))
                          (λ i. translate frames (index * 4096 + (4096 + i)))
                          (λ i l.
                            let e : (index + 1) * 4096 + i ≡ index * 4096 + (4096 + i) =
                              omega arith in
                            ap (translate frames) e)
                          rest),
                  )
              | inr g ↦
                  let lt : remaining < 4096 = ground arith in
                  let b' = framed index in
                  let zero_offset : offset ≡ 0 = elim straight [
                    | inl e ↦ e
                    | inr e ↦ absurd (omega arith)
                  ] in
                  let exact : add32 (frames index) offset ≡ frames index = omega arith in
                  (
                    read_bytes remaining p (frames index),
                    rw (z, here, g, exact) refl,
                    page_start-IsRead index remaining (omega arith),
                  )
            ]
      ]

  -- The bytes of the first page.
  first-IsRead :
      (start count : ℕ)
      → start % 4096 + count ≤ 4096
      → IsRead
          (read_bytes count p (add32 (frames (start / 4096)) (start % 4096)))
          count
          p
          (λ i. translate frames (start + i))
  first-IsRead start count h =
      let b = framed (start / 4096) in
      let base = add32 (frames (start / 4096)) (start % 4096) in
      let exact : base ≡ frames (start / 4096) + start % 4096 = omega arith in
      IsRead-cong (read_bytes count p base) count p (λ i. base + i)
        (λ i. translate frames (start + i))
        (λ i l.
          let e : start / 4096 ≡ (start + i) / 4096 = omega arith in
          let e' : base + i ≡ frames (start / 4096) + (start + i) % 4096 = omega arith in
          e' ∙ ap (λ k. frames k + (start + i) % 4096) e)
        (read_bytes-IsRead count p base (omega arith))

  module _ (start size : ℕ) (bound : start + size ≤ u32_mod) (low : start < u32_mod)
      (straight : (start % 4096 ≡ 0) ⊎ (((start + size) % 4096 ≡ 0) ⊎ (start % 4096 + size ≤ 4096)))
      (first : page_base (λ w. allow_kernel_pages || user_supervisor w) directories (start / 4096) p
        ≡ ok (some (frames (start / 4096))))
      (mapped : AreMapped
        (λ w. allow_kernel_pages || is_owned w)
        (start / 4096 + 1)
        (start + size)) where
    IsRead-from :
        (n : ℕ)
        → n ≤ size
        → start % 4096 + n ≤ 4096
        → (n ≡ size) ⊎ (start % 4096 + n ≡ 4096)
        → (bytes : List ℕ) × (read_rest
              (size / 4096 + 1)
              directories
              (add32 (start / 4096) 1)
              (size - n)
              (start % 4096)
              allow_kernel_pages
              p
            ≡ ok (true, bytes))
          × IsRead
              (read_bytes n p (add32 (frames (start / 4096)) (start % 4096)) ++ bytes)
              size
              p
              (λ i. translate frames (start + i))
    IsRead-from n h inside ends =
        let next : add32 (start / 4096) 1 ≡ start / 4096 + 1 = omega arith in
        let straight' : (start % 4096 ≡ 0) ⊎ ((size - n) % 4096 ≡ 0) = elim straight [
          | inl e ↦ inl e
          | inr (inl e) ↦ inr (omega arith)
          | inr (inr e) ↦ inr (omega arith)
        ] in
        let (bytes, run, rest) =
          read_rest-IsRead (size / 4096 + 1) (start / 4096 + 1) (size - n) (start % 4096)
            (omega arith) (omega arith) straight' (λ j l l'. mapped j l (omega arith)) in
        let head = read_bytes n p (add32 (frames (start / 4096)) (start % 4096)) in
        (
          bytes,
          ap
                (λ i.
                  read_rest (size / 4096 + 1) directories i (size - n) (start % 4096)
                    allow_kernel_pages p)
                next
              ∙ run,
          IsRead-append head bytes n (size - n) size p (λ i. translate frames (start + i))
              (omega arith) (first-IsRead start n inside)
              (IsRead-cong bytes (size - n) p
                (λ i. translate frames ((start / 4096 + 1) * 4096 + i))
                (λ i. translate frames (start + (n + i)))
                (λ i l.
                  let e : (start / 4096 + 1) * 4096 + i ≡ start + (n + i) = omega arith in
                  ap (translate frames) e)
                rest),
        )

    -- A read of `size` bytes up to the end of the address space at most, whose start or end is at the
    -- start of a page, or which lies in one page, and where the first page passes its check and the
    -- others theirs: it succeeds, and gives the byte at the physical address of each virtual one.
    pub read_virtual_memory-IsRead :
        (bytes : List ℕ) × (read_virtual_memory directories start size allow_kernel_pages p
          ≡ ok (true, bytes))
        × IsRead bytes size p (λ i. translate frames (start + i))
    unfolding read_virtual_memory address_to_pi
    read_virtual_memory-IsRead =
        let head = λ (n : ℕ). read_bytes n p (add32 (frames (start / 4096)) (start % 4096)) in
        elim (Bool-cases (ltb (4096 - start % 4096) size)) [
          | inl more ↦
              let lt : 4096 - start % 4096 < size = ground arith in
              let (bytes, run, all) =
                IsRead-from (4096 - start % 4096) (omega arith) (omega arith) (inr (omega arith)) in
              (head (4096 - start % 4096) ++ bytes, rw (first, more, run) refl, all)
          | inr less ↦
              let le : size ≤ 4096 - start % 4096 = ground arith in
              let (bytes, run, all) = IsRead-from size (omega arith) (omega arith) (inl refl) in
              (head size ++ bytes, rw (first, less, run) refl, all)
        ]
