-- ===== src/Locks/Wakeup.antt =====
-- A thread that is parked too late is not awoken by the threads that use the lock.
use speedy_os.Common.{
  ℕ, Bool, true, false, List, [], ◌∷◌, ◌≡◌, ◌≢◌, refl, ap, sym, subst, ◌∙◌, ◌==◌, if◌then◌else◌,
  update, All, All-append, arith,
}
use speedy_os.Locks.{
  Position, outside, testing, queueing, waiting, parking, taking, inside, releasing, shifting,
  awaking, faulted, Mutex, unparked, is_empty, at, move, unlock_queue, advance, pick, Reach, here,
  later,
}

-- The thread is parked, and no other has it in hand: it is not in the queue, and no thread is about
-- to awake it.
pub record IsLost (thread : ℕ) (m : Mutex) : Type 0 where
  pub asleep : m.parked thread ≡ true
  pub unqueued : All (λ j. j ≢ thread) m.thread_queue
  pub forgotten : (i : ℕ) → m.position i ≢ awaking thread

module _ (thread : ℕ) (m : Mutex) (i : ℕ) (lost : IsLost thread m) (runs : m.parked i ≡ false) where
  apart : i ≢ thread
  apart e = let sleeping = ap m.parked e ∙ lost.asleep in absurd cc

  -- A move to a position other than the call that awakes the thread.
  forgotten-update :
      (p : Position) → p ≢ awaking thread → (j : ℕ) → update m.position i p j ≢ awaking thread
  forgotten-update p n j = ground (arith, lost.forgotten j)

  -- A move that leaves the marks and the queue, up to its first threads, as they are.
  keep-IsLost :
      (p : Position) (m' : Mutex)
      → p ≢ awaking thread
      → m'.position ≡ update m.position i p
      → m'.parked thread ≡ true
      → All (λ j. j ≢ thread) m'.thread_queue
      → IsLost thread m'
  keep-IsLost p m' n e asleep unqueued = record {
    asleep = asleep;
    unqueued = unqueued;
    forgotten = subst (λ f. (j : ℕ) → f j ≢ awaking thread) (sym e) (forgotten-update p n);
  }

  test-IsLost :
      (p q : Position)
      → p ≢ awaking thread
      → q ≢ awaking thread
      → (test : Bool) → IsLost thread (at m i (if test then p else q))
  test-IsLost p q n n' true = keep-IsLost p (at m i p) n refl lost.asleep lost.unqueued
  test-IsLost p q n n' false = keep-IsLost q (at m i q) n' refl lost.asleep lost.unqueued

  unlock_queue-IsLost :
      (queue : List ℕ) → All (λ j. j ≢ thread) queue → IsLost thread (unlock_queue queue i m)
  unfolding unlock_queue
  unlock_queue-IsLost [] others =
      keep-IsLost faulted (at m i faulted) (λ e. cc) refl lost.asleep lost.unqueued
  unlock_queue-IsLost (j ∷ queue) (n, others) =
      keep-IsLost (awaking j) (record (at m i (awaking j)) { thread_queue = queue }) (λ e. n (cc))
        refl lost.asleep others

  move-IsLost : (p : Position) → m.position i ≡ p → IsLost thread (move p i m)
  unfolding move
  move-IsLost outside e =
      keep-IsLost testing (at m i testing) (λ e. cc) refl lost.asleep lost.unqueued
  move-IsLost testing e = test-IsLost taking queueing (λ e. cc) (λ e. cc) (m.locked_by_thread == 0)
  move-IsLost queueing e =
      keep-IsLost waiting (move queueing i m) (λ e. cc) refl lost.asleep
        (All-append (λ j. j ≢ thread) m.thread_queue (i ∷ []) lost.unqueued (apart, tt))
  move-IsLost waiting e = test-IsLost taking parking (λ e. cc) (λ e. cc) (m.locked_by_thread == 0)
  move-IsLost parking e =
      let sleeping = lost.asleep in
      keep-IsLost waiting (move parking i m) (λ e. cc) refl (ground arith) lost.unqueued
  move-IsLost taking e =
      keep-IsLost inside (move taking i m) (λ e. cc) refl lost.asleep lost.unqueued
  move-IsLost inside e =
      keep-IsLost releasing (move inside i m) (λ e. cc) refl lost.asleep lost.unqueued
  move-IsLost releasing e =
      test-IsLost outside shifting (λ e. cc) (λ e. cc) (is_empty m.thread_queue)
  move-IsLost shifting e = unlock_queue-IsLost m.thread_queue lost.unqueued
  move-IsLost faulted e = lost
  move-IsLost (awaking j) e =
      let sleeping = lost.asleep in
      let other : j ≢ thread = λ same. lost.forgotten i (e ∙ ap awaking same) in
      keep-IsLost outside (move (awaking j) i m) (λ e. cc) refl (ground arith) lost.unqueued

-- A run in which no event is delivered to the thread.
pub data Unnotified (thread : ℕ) (m : Mutex) : Mutex → Type 0 where
  still : Unnotified thread m m
  picked :
      {n : Mutex} (i : ℕ)
      → Unnotified thread m n
      → i ≢ 0
      → n.parked i ≡ false
      → Unnotified thread m (advance i n)
  notified :
      {n : Mutex} (i : ℕ)
      → Unnotified thread m n
      → i ≢ 0
      → i ≢ thread
      → Unnotified thread m (unparked i n)

unparked-IsLost :
    (thread i : ℕ) (m : Mutex) → i ≢ thread → IsLost thread m → IsLost thread (unparked i m)
unparked-IsLost thread i m other lost =
    let sleeping = lost.asleep in
    record { asleep = ground arith; unqueued = lost.unqueued; forgotten = lost.forgotten }

Unnotified-IsLost :
    {thread : ℕ} {m n : Mutex} → IsLost thread m → Unnotified thread m n → IsLost thread n
Unnotified-IsLost lost still = lost
Unnotified-IsLost {thread} lost (picked {n} i run nonzero awake) =
    move-IsLost thread n i (Unnotified-IsLost lost run) awake (n.position i) refl
Unnotified-IsLost {thread} lost (notified {n} i run nonzero other) =
    unparked-IsLost thread i n other (Unnotified-IsLost lost run)

-- One thread unlocks, and then another goes on.
abbrev pub after_unlock : (owner thread : ℕ) → Mutex → Mutex
after_unlock i j m = advance j (advance i (advance i (advance i (advance i m))))

module _ (m : Mutex) (i j : ℕ) (queue : List ℕ) (apart_ij : i ≢ j) (owner : m.position i ≡ inside)
    (late : m.position j ≡ parking) (first : m.thread_queue ≡ j ∷ queue)
    (once : All (λ k. k ≢ j) queue) (alone : (k : ℕ) → m.position k ≢ awaking j)
    (runs_i : m.parked i ≡ false) (runs_j : m.parked j ≡ false) where
  -- The states between, as the moves give them.
  abbrev unlocked : Mutex
  unlocked = record (at m i releasing) { locked_by_thread = 0 }

  abbrev tested : Mutex
  tested = at unlocked i shifting

  abbrev taken : Mutex
  taken = record (at tested i (awaking j)) { thread_queue = queue }

  abbrev awoken : Mutex
  awoken = record (at taken i outside) { parked = update m.parked j false }

  abbrev late_sleeper : Mutex
  late_sleeper = record (at awoken j waiting) { parked = update awoken.parked j true }

  run_unlocked : advance i m ≡ unlocked
  unfolding move
  run_unlocked = ap (λ p. move p i m) owner

  run_tested : advance i unlocked ≡ tested
  unfolding move
  run_tested =
      let e : unlocked.position i ≡ releasing = ground arith in
      ap (λ p. move p i unlocked) e
      ∙ ap (λ q. at unlocked i (if is_empty q then outside else shifting)) first

  run_taken : advance i tested ≡ taken
  unfolding move unlock_queue
  run_taken =
      let e : tested.position i ≡ shifting = ground arith in
      ap (λ p. move p i tested) e ∙ ap (λ q. unlock_queue q i tested) first

  run_awoken : advance i taken ≡ awoken
  unfolding move
  run_awoken = let e : taken.position i ≡ awaking j = ground arith in ap (λ p. move p i taken) e

  run_late : advance j awoken ≡ late_sleeper
  unfolding move
  run_late = let e : awoken.position j ≡ parking = ground arith in ap (λ p. move p j awoken) e

  after_unlock_lem : after_unlock i j m ≡ late_sleeper
  after_unlock_lem =
      ap (λ n. advance j (advance i (advance i (advance i n)))) run_unlocked
      ∙ ap (λ n. advance j (advance i (advance i n))) run_tested
      ∙ ap (λ n. advance j (advance i n)) run_taken
      ∙ ap (advance j) run_awoken
      ∙ run_late

  late_sleeper-IsLost : IsLost j late_sleeper
  late_sleeper-IsLost = record {
    asleep = ground arith;
    unqueued = once;
    forgotten = λ k. ground (arith, alone k);
  }

  Reach-late_sleeper : i ≢ 0 → j ≢ 0 → Reach m late_sleeper
  Reach-late_sleeper ni nj =
      let s1 : Reach m unlocked = subst (Reach m) run_unlocked (later here (pick i ni runs_i)) in
      let s1' : Reach m tested = subst (Reach m) run_tested (later s1 (pick i ni runs_i)) in
      let s2 : Reach m taken = subst (Reach m) run_taken (later s1' (pick i ni runs_i)) in
      let s3 : Reach m awoken = subst (Reach m) run_awoken (later s2 (pick i ni runs_i)) in
      let awake_j : awoken.parked j ≡ false = ground arith in
      subst (Reach m) run_late (later s3 (pick j nj awake_j))

  -- Where a thread holds the lock, another has tested it and is about to park, being the first in
  -- the queue and in it once, and no thread awakes it yet: the first one can unlock before the other
  -- parks. Then the lock is free, and the other thread is parked in every state that follows as long
  -- as no event is delivered to it, for which it has to listen to some: whatever the threads do with
  -- the lock does not awake it.
  pub lost_wakeup :
      (n : Mutex)
      → i ≢ 0
      → j ≢ 0
      → Unnotified j (after_unlock i j m) n
      → Reach m (after_unlock i j m)
        × ((after_unlock i j m).locked_by_thread ≡ 0)
        × (n.parked j ≡ true)
  lost_wakeup n ni nj run = (
    subst (Reach m) (sym after_unlock_lem) (Reach-late_sleeper ni nj),
    ap (λ n. n.locked_by_thread) after_unlock_lem,
    (Unnotified-IsLost (subst (IsLost j) (sym after_unlock_lem) late_sleeper-IsLost) run).asleep,
  )
