-- ===== src/Locks.antt =====
-- software/include/mutex.cpp: the lock that the threads of a user program share.
--
-- A step is one access of a thread to what is shared: the word of the lock, its queue, or the mark
-- of a thread as parked, which the calls of the kernel set and clear. The timer may switch threads
-- between any two steps, so a run is any sequence of steps of threads that are not parked. It may
-- also deliver an event to a thread that listens to some, which unparks it
-- (kernel/src/cpp/scheduling/scheduler.cpp). The call of an operation of the queue is one step.
pub mod Exclusion
pub mod Wakeup
mod Tests
use speedy_os.Common.{
  ℕ, Bool, true, false, List, [], ◌∷◌, ◌++◌, ◌≡◌, ◌≢◌, ◌==◌, if◌then◌else◌, update,
}

-- Where a thread stands.
pub data Position : Type 0 where
  outside : Position  -- before a call of `lock`
  testing : Position  -- the first test of `lock`
  queueing : Position
  waiting : Position  -- the test of the loop
  parking : Position  -- before the call of `park_thread`
  taking : Position  -- before the write at the end of `lock`
  inside : Position  -- the lock is held, up to the write of `unlock`
  releasing : Position  -- the test of the queue in `unlock`
  shifting : Position  -- before the call of `shift` in `unlock`
  faulted : Position  -- `shift` has found no entry, and its accesses have failed
  awaking : (thread : ℕ) → Position  -- before the call of `awake_thread`

-- A thread is its identifier, which is not 0.
pub record Mutex : Type 0 where
  pub locked_by_thread : ℕ
  pub thread_queue : List ℕ
  pub parked : ℕ → Bool
  pub position : ℕ → Position

abbrev pub init : Mutex
init = record {
  locked_by_thread = 0;
  thread_queue = [];
  parked = λ i. false;
  position = λ i. outside;
}

abbrev pub at : Mutex → (thread : ℕ) → Position → Mutex
at m i p = record m { position = update m.position i p }

abbrev pub is_empty : List ℕ → Bool
is_empty [] = true
is_empty (j ∷ queue) = false

-- The call of `shift`, with the queue that it finds: another `unlock` may have emptied it after the
-- test.
unlock_queue : List ℕ → (thread : ℕ) → Mutex → Mutex
unlock_queue [] i m = at m i faulted
unlock_queue (j ∷ queue) i m = record (at m i (awaking j)) { thread_queue = queue }

pub move : Position → (thread : ℕ) → Mutex → Mutex
unfolding unlock_queue
move outside i m = at m i testing
move testing i m = at m i (if m.locked_by_thread == 0 then taking else queueing)
move queueing i m = record (at m i waiting) { thread_queue = m.thread_queue ++ (i ∷ []) }
move waiting i m = at m i (if m.locked_by_thread == 0 then taking else parking)
move parking i m = record (at m i waiting) { parked = update m.parked i true }
move taking i m = record (at m i inside) { locked_by_thread = i }
move inside i m = record (at m i releasing) { locked_by_thread = 0 }
move releasing i m = at m i (if is_empty m.thread_queue then outside else shifting)
move shifting i m = unlock_queue m.thread_queue i m
move (awaking j) i m = record (at m i outside) { parked = update m.parked j false }
move faulted i m = m

-- The next step of a thread.
abbrev pub advance : (thread : ℕ) → Mutex → Mutex
advance i m = move (m.position i) i m

-- An event is delivered to a thread, which unparks it.
abbrev pub unparked : (thread : ℕ) → Mutex → Mutex
unparked i m = record m { parked = update m.parked i false }

-- The kernel runs a thread that is not parked, or delivers an event to a thread.
pub data Step (m : Mutex) : Mutex → Type 0 where
  pick : (i : ℕ) → i ≢ 0 → m.parked i ≡ false → Step m (advance i m)
  notify : (i : ℕ) → i ≢ 0 → Step m (unparked i m)

pub data Reach (m : Mutex) : Mutex → Type 0 where
  here : Reach m m
  later : {n o : Mutex} → Reach m n → Step n o → Reach m o
