-- ===== src/Locks/Exclusion.antt =====
-- Whether two threads hold the lock at once.

use speedy_os.Common.{
  ℕ, Bool, true, false, List, [], ◌∷◌, ◌≡◌, ◌≢◌, refl, ap, sym, subst, ◌∙◌, ◌==◌, if◌then◌else◌,
  update, Bool-cases, inl, inr, arith,
}
use speedy_os.Locks.{
  Position, outside, testing, queueing, waiting, parking, taking, inside, releasing, shifting,
  awaking, faulted, Mutex, unparked, is_empty, init, at, move, unlock_queue, advance,
}

-- A thread that has found the lock free, or holds it.
pub holds : Position → Bool
holds taking = true
holds inside = true
holds _ = false

unfoldable pub is_taking : Position → Bool
is_taking taking = true
is_taking _ = false

unfoldable pub is_inside : Position → Bool
is_inside inside = true
is_inside _ = false

-- A run in which a thread that has found the lock free takes it before another thread runs. Events
-- may be delivered at any time.
pub data Undisturbed : Mutex → Type 0 where
  start : Undisturbed init
  notified : {m : Mutex} (i : ℕ) → Undisturbed m → i ≢ 0 → Undisturbed (unparked i m)
  later :
      {m : Mutex} (i : ℕ)
      → Undisturbed m
      → i ≢ 0
      → m.parked i ≡ false
      → ((j : ℕ) → j ≢ i → is_taking (m.position j) ≡ false)
      → Undisturbed (advance i m)

holds_lem : (p : Position) → is_taking p ≡ false → is_inside p ≡ false → holds p ≡ false
unfolding holds is_taking is_inside
holds_lem taking t f = absurd cc
holds_lem inside t f = absurd cc
holds_lem outside t f = refl
holds_lem testing t f = refl
holds_lem queueing t f = refl
holds_lem waiting t f = refl
holds_lem parking t f = refl
holds_lem releasing t f = refl
holds_lem shifting t f = refl
holds_lem faulted t f = refl
holds_lem (awaking j) t f = refl

holds-is_inside : (p : Position) → is_inside p ≡ true → holds p ≡ true
unfolding holds is_inside
holds-is_inside inside t = refl
holds-is_inside taking t = refl
holds-is_inside outside t = cc
holds-is_inside testing t = cc
holds-is_inside queueing t = cc
holds-is_inside waiting t = cc
holds-is_inside parking t = cc
holds-is_inside releasing t = cc
holds-is_inside shifting t = cc
holds-is_inside faulted t = cc
holds-is_inside (awaking j) t = cc

pub record Inv (m : Mutex) : Type 0 where
  pub alone : (i j : ℕ) → holds (m.position i) ≡ true → holds (m.position j) ≡ true → i ≡ j
  pub locked : (i : ℕ) → is_inside (m.position i) ≡ true → m.locked_by_thread ≢ 0

-- The others hold nothing while `i` moves to a position `p`.
alone-update :
    (m : Mutex) (i : ℕ) (p : Position)
    → ((j : ℕ) → j ≢ i → holds p ≡ true → holds (m.position j) ≡ false)
    → ((a b : ℕ) → holds (m.position a) ≡ true → holds (m.position b) ≡ true → a ≡ b)
    → (a b : ℕ) → holds (update m.position i p a) ≡ true
    → holds (update m.position i p b) ≡ true
    → a ≡ b
alone-update m i p apart alone a b = ground (arith, apart a, apart b, alone a b)

-- Nothing is inside but what was, or `i` now.
inside-update :
    (m : Mutex) (i : ℕ) (p : Position) (word : ℕ)
    → (is_inside p ≡ true → word ≢ 0)
    → ((a : ℕ) → a ≢ i → is_inside (m.position a) ≡ true → word ≢ 0)
    → (a : ℕ) → is_inside (update m.position i p a) ≡ true
    → word ≢ 0
inside-update m i p word here others a = ground (arith, others a)

module _ (m : Mutex) (i : ℕ) (inv : Inv m) (nonzero : i ≢ 0)
    (calm : (j : ℕ) → j ≢ i → is_taking (m.position j) ≡ false) where
  -- A move to a position that holds nothing, the word of the lock being kept.
  leave-Inv :
      (p : Position) (m' : Mutex)
      → holds p ≡ false
      → is_inside p ≡ false
      → m'.position ≡ update m.position i p
      → m'.locked_by_thread ≡ m.locked_by_thread
      → Inv m'
  leave-Inv p m' h h' e w = record {
    alone =
        subst (λ f. (a b : ℕ) → holds (f a) ≡ true → holds (f b) ≡ true → a ≡ b) (sym e)
          (alone-update m i p (λ j n t. absurd cc) inv.alone);
    locked =
        subst (λ f. (a : ℕ) → is_inside (f a) ≡ true → m'.locked_by_thread ≢ 0) (sym e)
          (inside-update m i p m'.locked_by_thread (λ t. absurd cc)
            (λ a n t. rw w (inv.locked a t)));
  }

  -- No other thread holds anything while the lock is free.
  free-apart : m.locked_by_thread ≡ 0 → (j : ℕ) → j ≢ i → holds (m.position j) ≡ false
  free-apart free j n = elim (Bool-cases (is_inside (m.position j))) [
    | inl t ↦ absurd (inv.locked j t free)
    | inr f ↦ holds_lem (m.position j) (calm j n) f
  ]

  -- The test of the lock, with the position that follows where it is taken.
  test-Inv :
      (p : Position)
      → holds p ≡ false
      → is_inside p ≡ false
      → Inv (at m i (if m.locked_by_thread == 0 then taking else p))
  unfolding is_inside
  test-Inv p h h' = elim (Bool-cases (m.locked_by_thread == 0)) [
    | inl t ↦
        let free : m.locked_by_thread ≡ 0 = ground arith in
        rw t (record {
          alone = alone-update m i taking (λ j n held. free-apart free j n) inv.alone;
          locked =
              inside-update m i taking m.locked_by_thread (λ f. absurd cc)
                (λ a n t. inv.locked a t);
        })
    | inr f ↦ rw f (leave-Inv p (at m i p) h h' refl refl)
  ]

  -- A thread that holds something is the only one.
  alone-apart : holds (m.position i) ≡ true → (j : ℕ) → j ≢ i → holds (m.position j) ≡ false
  alone-apart here j n = elim (Bool-cases (holds (m.position j))) [
    | inl t ↦ absurd (n (inv.alone j i t here))
    | inr f ↦ f
  ]

  unlock_queue-Inv : (queue : List ℕ) → Inv (unlock_queue queue i m)
  unfolding unlock_queue holds is_inside
  unlock_queue-Inv [] = leave-Inv faulted (at m i faulted) refl refl refl refl
  unlock_queue-Inv (j ∷ queue) =
      leave-Inv (awaking j) (record (at m i (awaking j)) { thread_queue = queue }) refl refl refl
        refl

  move-Inv : (p : Position) → m.position i ≡ p → Inv (move p i m)
  unfolding move unlock_queue holds is_inside
  move-Inv outside e = leave-Inv testing (at m i testing) refl refl refl refl
  move-Inv testing e = test-Inv queueing refl refl
  move-Inv queueing e = leave-Inv waiting (move queueing i m) refl refl refl refl
  move-Inv waiting e = test-Inv parking refl refl
  move-Inv parking e = leave-Inv waiting (move parking i m) refl refl refl refl
  move-Inv taking e =
      let held : holds (m.position i) ≡ true = ap holds e in
      record {
        alone = alone-update m i inside (λ j n t. alone-apart held j n) inv.alone;
        locked = inside-update m i inside i (λ t. nonzero) (λ a n t. nonzero);
      }
  move-Inv inside e =
      let held : holds (m.position i) ≡ true = ap holds e in
      record {
        alone = alone-update m i releasing (λ j n t. absurd cc) inv.alone;
        locked =
            inside-update m i releasing 0 (λ t. absurd cc)
              (λ a n t. absurd (n (inv.alone a i (holds-is_inside (m.position a) t) held)));
      }
  move-Inv releasing e = elim (Bool-cases (is_empty m.thread_queue)) [
    | inl t ↦ rw t (leave-Inv outside (at m i outside) refl refl refl refl)
    | inr f ↦ rw f (leave-Inv shifting (at m i shifting) refl refl refl refl)
  ]
  move-Inv shifting e = unlock_queue-Inv m.thread_queue
  move-Inv faulted e = inv
  move-Inv (awaking j) e = leave-Inv outside (move (awaking j) i m) refl refl refl refl

Undisturbed-Inv : {m : Mutex} → Undisturbed m → Inv m
unfolding holds is_inside
Undisturbed-Inv start = record { alone = λ i j t. absurd cc; locked = λ i t. absurd cc }
Undisturbed-Inv (notified i run nonzero) =
    let inv = Undisturbed-Inv run in record { alone = inv.alone; locked = inv.locked }
Undisturbed-Inv (later {m} i run nonzero awake calm) =
    move-Inv m i (Undisturbed-Inv run) nonzero calm (m.position i) refl

-- In every run in which a thread that finds the lock free takes it before another one runs, at most
-- one thread is between the end of `lock` and the write of `unlock`.
pub mutual_exclusion :
    {m : Mutex} (i j : ℕ)
    → Undisturbed m
    → is_inside (m.position i) ≡ true
    → is_inside (m.position j) ≡ true
    → i ≡ j
mutual_exclusion {m} i j run a b =
    (Undisturbed-Inv run).alone i j (holds-is_inside (m.position i) a)
      (holds-is_inside (m.position j) b)

abbrev take : Mutex → (thread : ℕ) → Mutex
take m i = record (at m i inside) { locked_by_thread = i }

find_free :
    (m : Mutex) (i : ℕ)
    → m.position i ≡ testing
    → m.locked_by_thread ≡ 0
    → advance i m ≡ at m i taking
unfolding move
find_free m i e free =
    let t : (m.locked_by_thread == 0) ≡ true = ground arith in
    ap (λ p. move p i m) e ∙ ap (λ b. at m i (if b then taking else queueing)) t

take_lem : (m : Mutex) (i : ℕ) → m.position i ≡ taking → advance i m ≡ take m i
unfolding move
take_lem m i e = ap (λ p. move p i m) e

-- Where two threads are both at the start of `lock` and the lock is free, each of them can test it
-- before the other takes it: then both are inside.
pub mutual_exclusion-fails :
    (m : Mutex) (i j : ℕ)
    → i ≢ j
    → m.locked_by_thread ≡ 0
    → m.position i ≡ testing
    → m.position j ≡ testing
    → (is_inside ((advance j (advance i (advance j (advance i m)))).position i) ≡ true)
      × (is_inside ((advance j (advance i (advance j (advance i m)))).position j) ≡ true)
unfolding is_inside
mutual_exclusion-fails m i j n free a b =
    let m1 = at m i taking in
    let m2 = at m1 j taking in
    let m3 = take m2 i in
    let at_j : m1.position j ≡ testing = ground arith in
    let at_i : m2.position i ≡ taking = ground arith in
    let then_j : m3.position j ≡ taking = ground arith in
    let e1 = find_free m i a free in
    let e2 = find_free m1 j at_j free in
    let run : advance j (advance i (advance j (advance i m))) ≡ take m3 j =
      ap (λ n. advance j (advance i n)) (ap (advance j) e1 ∙ e2)
      ∙ ap (advance j) (take_lem m2 i at_i)
      ∙ take_lem m3 j then_j in
    let end_i : (take m3 j).position i ≡ inside = ground arith in
    let end_j : (take m3 j).position j ≡ inside = ground arith in
    (
      ap (λ n. is_inside (n.position i)) run ∙ ap is_inside end_i,
      ap (λ n. is_inside (n.position j)) run ∙ ap is_inside end_j,
    )
