-- ===== src/LinkedArray/Links.antt =====
-- Doubly linked chains over two maps of links, and what the writes of the linked array do to them.
use speedy_os.Common.{ℕ, ◌≡◌, ◌≢◌, List, [], ◌∷◌, ◌++◌, update, arith, sym, subst, ◌∙◌}

-- A property of each entry of a list.
unfoldable pub Each : (ℕ → Type 0) → List ℕ → Type 0
Each P [] = Unit
Each P (c ∷ cs) = P c × Each P cs

-- No entry of a list is `a`.
abbrev pub Fresh : ℕ → List ℕ → Type 0
Fresh a cs = Each (λ c. c ≢ a) cs

unfoldable pub Distinct : List ℕ → Type 0
Distinct [] = Unit
Distinct (c ∷ cs) = Fresh c cs × Distinct cs

-- From `p` the links lead through `cs` to `q`, and back.
unfoldable pub Linked : (ℕ → ℕ) → (ℕ → ℕ) → ℕ → List ℕ → ℕ → Type 0
Linked next prev p [] q = (next p ≡ q) × (prev q ≡ p)
Linked next prev p (c ∷ cs) q = (next p ≡ c) × (prev c ≡ p) × Linked next prev c cs q

module _ (P : ℕ → Type 0) where
  pub Each-append : (xs ys : List ℕ) → Each P xs → Each P ys → Each P (xs ++ ys)
  unfolding Each
  Each-append [] ys f g = g
  Each-append (x ∷ xs) ys (h, f) g = (h, Each-append xs ys f g)

  pub Each-append-inv : (xs ys : List ℕ) → Each P (xs ++ ys) → Each P xs × Each P ys
  unfolding Each
  Each-append-inv [] ys f = (tt, f)
  Each-append-inv (x ∷ xs) ys (h, f) =
      let (first, second) = Each-append-inv xs ys f in ((h, first), second)

  -- What holds of each entry holds of the one in the middle and of each of the others.
  pub Each-middle :
      (xs : List ℕ) (a : ℕ) (ys : List ℕ) → Each P (xs ++ (a ∷ ys)) → P a × Each P (xs ++ ys)
  unfolding Each
  Each-middle [] a ys (h, f) = (h, f)
  Each-middle (x ∷ xs) a ys (h, f) = let (h', f') = Each-middle xs a ys f in (h', (h, f'))

  pub Each-insert :
      (xs : List ℕ) (a : ℕ) (ys : List ℕ) → P a → Each P (xs ++ ys) → Each P (xs ++ (a ∷ ys))
  unfolding Each
  Each-insert [] a ys h f = (h, f)
  Each-insert (x ∷ xs) a ys h (h', f) = (h', Each-insert xs a ys h f)

pub Each-both :
    {P Q R : ℕ → Type 0} (xs : List ℕ)
    → ((c : ℕ) → P c → Q c → R c)
    → Each P xs
    → Each Q xs
    → Each R xs
unfolding Each
Each-both [] f p q = tt
Each-both (x ∷ xs) f (h, p) (h', q) = (f x h h', Each-both xs f p q)

pub Distinct-middle :
    (xs : List ℕ) (a : ℕ) (ys : List ℕ)
    → Distinct (xs ++ (a ∷ ys))
    → Fresh a (xs ++ ys) × Distinct (xs ++ ys)
unfolding Distinct Each
Distinct-middle [] a ys (f, d) = (f, d)
Distinct-middle (x ∷ xs) a ys (f, d) =
    let (f', d') = Distinct-middle xs a ys d in
    let (n, g) = Each-middle _ xs a ys f in ((λ e. n (sym e), f'), (g, d'))

pub Distinct-insert :
    (xs : List ℕ) (a : ℕ) (ys : List ℕ)
    → Fresh a (xs ++ ys)
    → Distinct (xs ++ ys)
    → Distinct (xs ++ (a ∷ ys))
unfolding Distinct Each
Distinct-insert [] a ys f d = (f, d)
Distinct-insert (x ∷ xs) a ys (n, f) (g, d) =
    (Each-insert _ xs a ys (λ e. n (sym e)) g, Distinct-insert xs a ys f d)

-- The links of other entries do not matter.
pub Linked-update_next :
    (next prev : ℕ → ℕ) (p : ℕ) (cs : List ℕ) (q a v : ℕ)
    → Fresh a (p ∷ cs)
    → Linked next prev p cs q
    → Linked (update next a v) prev p cs q
unfolding Linked Each
Linked-update_next next prev p [] q a v (n, _) (e, e') = (ground arith, e')
Linked-update_next next prev p (c ∷ cs) q a v (n, f) (e, e', rest) =
    (ground arith, e', Linked-update_next next prev c cs q a v f rest)

pub Linked-update_prev :
    (next prev : ℕ → ℕ) (p : ℕ) (cs : List ℕ) (q a v : ℕ)
    → Fresh a (q ∷ cs)
    → Linked next prev p cs q
    → Linked next (update prev a v) p cs q
unfolding Linked Each
Linked-update_prev next prev p [] q a v (n, _) (e, e') = (e, ground arith)
Linked-update_prev next prev p (c ∷ cs) q a v (m, (n, f)) (e, e', rest) =
    (e, ground arith, Linked-update_prev next prev c cs q a v (m, f) rest)

-- The link back from the end leads into the chain or to its start.
pub Linked-last :
    (P : ℕ → Type 0) (next prev : ℕ → ℕ) (p : ℕ) (cs : List ℕ) (q : ℕ)
    → Each P (p ∷ cs)
    → Linked next prev p cs q
    → P (prev q)
unfolding Linked Each
Linked-last P next prev p [] q (h, _) (e, e') = subst P (sym e') h
Linked-last P next prev p (c ∷ cs) q (_, f) (_, _, rest) = Linked-last P next prev c cs q f rest

-- The first link leads into the chain or to its end.
pub Linked-first :
    (P : ℕ → Type 0) (next prev : ℕ → ℕ) (p : ℕ) (cs : List ℕ) (q : ℕ)
    → Each P (q ∷ cs)
    → Linked next prev p cs q
    → P (next p)
unfolding Linked Each
Linked-first P next prev p [] q (h, _) (e, e') = subst P (sym e) h
Linked-first P next prev p (c ∷ cs) q (_, (h, _)) (e, _, _) = subst P (sym e) h

-- A new entry before the end, as `push` links it.
pub Linked-link_last :
    (next prev : ℕ → ℕ) (p : ℕ) (cs : List ℕ) (q a : ℕ)
    → Distinct (q ∷ p ∷ cs)
    → Fresh a (q ∷ p ∷ cs)
    → Linked next prev p cs q
    → Linked
        (update (update next a q) (prev q) a)
        (update (update prev a (prev q)) q a)
        p
        (cs ++ (a ∷ []))
        q
unfolding Linked Each Distinct
Linked-link_last next prev p [] q a ((n, _), _) (m, (m', _)) (e, e') =
    (ground arith, ground arith, (ground arith, ground arith))
Linked-link_last next prev p (c ∷ cs) q a ((n, f), (g, d)) (m, (m', f')) (e, e', rest) =
    let last_ne = Linked-last (λ x. x ≢ p) next prev c cs q g rest in
    (ground arith, ground arith, Linked-link_last next prev c cs q a (f, d) (m, f') rest)

-- A new entry after the start, as `unshift` links it.
pub Linked-link_first :
    (next prev : ℕ → ℕ) (p : ℕ) (cs : List ℕ) (q a : ℕ)
    → Distinct (q ∷ p ∷ cs)
    → Fresh a (q ∷ p ∷ cs)
    → Linked next prev p cs q
    → Linked
        (update (update next a (next p)) p a)
        (update (update prev a p) (next p) a)
        p
        (a ∷ cs)
        q
unfolding Linked Each Distinct
Linked-link_first next prev p [] q a d (m, (m', _)) (e, e') =
    (ground arith, ground arith, (ground arith, ground arith))
Linked-link_first next prev p (c ∷ cs) q a ((n, (n', f)), ((o, g), (h, d))) (m, (m', (m'', f')))
      (e, e', rest) =
    (
      ground arith,
      ground arith,
      (
        ground arith,
        ground arith,
        Linked-update_next (update next a (next p)) (update (update prev a p) (next p) a) c cs q p a
            (o, g)
            (Linked-update_next next (update (update prev a p) (next p) a) c cs q a (next p)
              (m'', f')
              (Linked-update_prev next (update prev a p) c cs q (next p) a
                (λ i. n' (sym (i ∙ e)), subst (λ x. Fresh x cs) (sym e) h)
                (Linked-update_prev next prev c cs q a p (m, f') rest))),
      ),
    )

-- A chain through an entry is a chain to it and one from it.
pub Linked-split :
    (next prev : ℕ → ℕ) (p : ℕ) (cs : List ℕ) (a : ℕ) (ds : List ℕ) (q : ℕ)
    → Linked next prev p (cs ++ (a ∷ ds)) q
    → Linked next prev p cs a × Linked next prev a ds q
unfolding Linked
Linked-split next prev p [] a ds q (e, e', rest) = ((e, e'), rest)
Linked-split next prev p (c ∷ cs) a ds q (e, e', rest) =
    let (first, second) = Linked-split next prev c cs a ds q rest in ((e, e', first), second)

-- An entry whose neighbours are linked to each other is gone from the chain.
pub Linked-unlink :
    (next prev : ℕ → ℕ) (p : ℕ) (cs : List ℕ) (a : ℕ) (ds : List ℕ) (q : ℕ)
    → Distinct (q ∷ p ∷ (cs ++ (a ∷ ds)))
    → Linked next prev p (cs ++ (a ∷ ds)) q
    → Linked (update next (prev a) (next a)) (update prev (next a) (prev a)) p (cs ++ ds) q
unfolding Linked Each Distinct
Linked-unlink next prev p [] a [] q d (e, e', (h, h')) = (ground arith, ground arith)
Linked-unlink next prev p [] a (c ∷ ds) q ((_, (_, (n, _))), ((_, (o, g)), (_, (f, _))))
      (e, e', (h, h', rest)) =
    (
      ground arith,
      ground arith,
      Linked-update_next next (update prev (next a) (prev a)) c ds q (prev a) (next a)
          (subst (λ x. Fresh x (c ∷ ds)) (sym e') (o, g))
          (Linked-update_prev next prev c ds q (next a) (prev a)
            (subst (λ x. Fresh x (q ∷ ds)) (sym h) (λ i. n (sym i), f)) rest),
    )
Linked-unlink next prev p (c ∷ cs) a ds q ((_, (n, f)), ((o, g), (h, d))) (e, e', rest) =
    let (first, second) = Linked-split next prev c cs a ds q rest in
    let before =
      Linked-last (λ x. x ≢ p) next prev c cs a (o, (Each-append-inv _ cs (a ∷ ds) g).0) first in
    let (_, (_, h')) = Each-append-inv _ cs (a ∷ ds) h in
    let after = Linked-first (λ x. x ≢ c) next prev a ds q (λ i. n (sym i), h') second in
    (ground arith, ground arith, Linked-unlink next prev c cs a ds q ((n, f), (h, d)) rest)
