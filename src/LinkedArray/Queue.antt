-- ===== src/LinkedArray/Queue.antt =====
-- The linked array as a queue and a stack: `push`, `pop`, `unshift` and `shift` at the two ends of
-- the list that it represents.
use speedy_os.Common.{ℕ, ◌≡◌, refl, subst, ◌∙◌, List, [], ◌∷◌, ◌++◌, update, ok, ap}
use mathlib.Core.List.{append-nil}
use speedy_os.LinkedArray.{head, tail, LinkedArray, pop, shift}
use speedy_os.LinkedArray.Links.{Linked, Linked-split}
use speedy_os.LinkedArray.Inv.{Inv}
use speedy_os.LinkedArray.Represents.{
  Represents, Represents-split, read_prev-Entry, read_next-Entry, write_prev-Entry,
  write_next-Entry, map-eq-nil, around, without, without-Represents,
}

module _ {ℓ} {A : Type ℓ} (l : LinkedArray A) where
  pop-without : (cs : List ℕ) (a : ℕ) → Inv l (cs ++ (a ∷ [])) → pop l ≡ ok (l.value a, without l a)
  unfolding pop Linked
  pop-without cs a inv =
      let (_, (after, last)) = Linked-split l.next l.prev head cs a [] tail inv.linked in
      let (here, before, _) = around l cs a [] inv in
      rw (last, read_prev-Entry l a here, write_next-Entry l (l.prev a) before tail, after) refl

  -- From an array that represents a list with a last value, `pop` takes that value and leaves an
  -- array that represents the values before it.
  pub pop-snoc :
      (vs : List A) (v : A)
      → Represents l (vs ++ (v ∷ []))
      → (l' : LinkedArray A) × (pop l ≡ ok (v, l')) × Represents l' vs
  pop-snoc vs v r =
      let (cs, a, ds, inv, j, k, m, two) = Represents-split l vs v [] r in
      let none_after = map-eq-nil l.value ds m in
      let inv' = subst (λ z. Inv l (cs ++ (a ∷ z))) none_after inv in
      (
        without l a,
        pop-without cs a inv' ∙ ap (λ z. ok (z, without l a)) k,
        subst (Represents (without l a)) (rw (none_after, j) (append-nil vs))
            (without-Represents l cs a ds inv two),
      )

  shift-without : (a : ℕ) (ds : List ℕ) → Inv l (a ∷ ds) → shift l ≡ ok (l.value a, without l a)
  unfolding shift Linked
  shift-without a ds inv =
      let (first, back, rest) = inv.linked in
      let (here, _, after) = around l [] a ds inv in
      rw
        (
          first,
          read_next-Entry l a here,
          write_prev-Entry (record l { next = update l.next head (l.next a) }) (l.next a) after
              head,
          back,
        )
        refl

  -- From an array that represents a list with a first value, `shift` takes that value and leaves an
  -- array that represents the values after it.
  pub shift-cons :
      (v : A) (vs : List A)
      → Represents l (v ∷ vs)
      → (l' : LinkedArray A) × (shift l ≡ ok (v, l')) × Represents l' vs
  shift-cons v vs r =
      let (cs, a, ds, inv, j, k, m, two) = Represents-split l [] v vs r in
      let none_before = map-eq-nil l.value cs j in
      let inv' = subst (λ z. Inv l (z ++ (a ∷ ds))) none_before inv in
      (
        without l a,
        shift-without a ds inv' ∙ ap (λ z. ok (z, without l a)) k,
        subst (Represents (without l a)) (rw (none_before, m) refl)
            (without-Represents l cs a ds inv two),
      )
