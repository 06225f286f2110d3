-- ===== src/Locks/Tests.antt =====
-- The lock in runs of two threads.
use speedy_os.Common.{ℕ, true, [], ◌∷◌, ◌≡◌, ◌≢◌, ◌==◌, refl, if◌then◌else◌, arith}
use speedy_os.Locks.{outside, testing, inside, parking, awaking, Mutex, init, move, advance, Reach}
use speedy_os.Locks.Exclusion.{is_inside, is_taking, Undisturbed, start, later, mutual_exclusion}
use speedy_os.Locks.Wakeup.{still, after_unlock, lost_wakeup}

-- Thread 1 has gone through `lock`.
locked_once : Undisturbed (advance 1 (advance 1 (advance 1 init)))
unfolding move is_taking
locked_once =
    let one : Undisturbed (advance 1 init) = later 1 start (omega arith) refl (λ j n. refl) in
    let two : Undisturbed (advance 1 (advance 1 init)) =
      later 1 one (omega arith) refl (λ j n. ground arith) in
    later 1 two (omega arith) refl (λ j n. ground arith)

inside_once : is_inside ((advance 1 (advance 1 (advance 1 init))).position 1) ≡ true
unfolding move is_inside
inside_once = refl

mutual_exclusion_example : ◌≡◌ {A = ℕ} 1 1
mutual_exclusion_example = mutual_exclusion 1 1 locked_once inside_once inside_once

abbrev two_testers : Mutex
two_testers = record init {
  position = λ k. if k == 1 then testing else if k == 2 then testing else outside;
}

-- Thread 1 holds the lock, and thread 2 has found it taken.
abbrev late_parker : Mutex
late_parker = record init {
  locked_by_thread = 1;
  thread_queue = 2 ∷ [];
  position = λ k. if k == 1 then inside else if k == 2 then parking else outside;
}

none_awakes : (k : ℕ) → late_parker.position k ≢ awaking 2
none_awakes k = ground arith

lost_wakeup_example :
    Reach late_parker (after_unlock 1 2 late_parker)
    × ((after_unlock 1 2 late_parker).locked_by_thread ≡ 0)
    × ((after_unlock 1 2 late_parker).parked 2 ≡ true)
lost_wakeup_example =
    lost_wakeup late_parker 1 2 [] (omega arith) refl refl refl tt none_awakes refl refl
      (after_unlock 1 2 late_parker) (omega arith) (omega arith) still
