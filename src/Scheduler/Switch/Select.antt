-- ===== src/Scheduler/Switch/Select.antt =====
-- Which thread a switch selects from the execution queue.
use mathlib.Core.List.{append_assoc, append-nil}
use speedy_os.Common.{
  ℕ, zero, suc, ◌+◌, ◌≤◌, ◌≡◌, sym, ap, ◌∙◌, true, false, List, [], ◌∷◌, ◌++◌, Option, none, some,
  length, length-append, ltb, Run, ok, arith,
}
use speedy_os.Scheduler.State.{Thread, Process, Scheduler}
use speedy_os.Scheduler.Switch.{consider, execute, select_loop}

abbrev pub with_queue : Scheduler → List ℕ → Scheduler
with_queue s q = record s { thread_execution_queue = q }

-- The thread `t` and its process are there.
pub record Loaded (s : Scheduler) (t : ℕ) : Type 0 where
  pub thread : Thread
  pub process : Process
  pub thread_there : s.threads t ≡ some thread
  pub process_there : s.processes thread.process ≡ some process

-- The thread `t` cannot run now.
pub record Blocked (s : Scheduler) (t : ℕ) : Type 0 where
  pub loaded : Loaded s t
  pub refused : consider s.elapsed_ms loaded.process loaded.thread ≡ none

-- The thread `t` can run now.
pub record Ready (s : Scheduler) (t : ℕ) : Type 0 where
  pub loaded : Loaded s t
  pub resumed : Thread
  pub accepted : consider s.elapsed_ms loaded.process loaded.thread ≡ some resumed

abbrev pub All {ℓ κ} : {A : Type ℓ} → (A → Type κ) → List A → Type κ
All P [] = Unit
All P (x ∷ xs) = P x × All P xs

abbrev pub Outcome : Type 0
Outcome = Run (Option Scheduler × Scheduler)

module _ (s : Scheduler) where
  step-Blocked :
      (k i t : ℕ) (queue : List ℕ)
      → Blocked s t
      → i ≤ length queue
      → select_loop (suc k) i (with_queue s (t ∷ queue))
        ≡ select_loop k (i + 1) (with_queue s (queue ++ (t ∷ [])))
  unfolding select_loop
  step-Blocked k i t queue b h =
      let inside : ltb i (suc (length queue)) ≡ true = ground arith in
      rw (inside, b.loaded.thread_there, b.loaded.process_there) (ground arith)

  step-ready :
      (k i t : ℕ) (queue : List ℕ) (r : Ready s t)
      → i ≤ length queue
      → select_loop (suc k) i (with_queue s (t ∷ queue))
        ≡ ok (
          some (execute (with_queue s queue) t r.resumed r.loaded.process),
          with_queue s (t ∷ queue),
        )
  unfolding select_loop
  step-ready k i t queue r h =
      let inside : ltb i (suc (length queue)) ≡ true = ground arith in
      rw (inside, r.loaded.thread_there, r.loaded.process_there) (ground arith)

  -- The threads at the front that cannot run go behind the others, in their order.
  skip-Blocked :
      (xs ys : List ℕ) (f k i : ℕ)
      → All (Blocked s) xs
      → f ≡ length xs + k
      → i ≤ length ys
      → select_loop f i (with_queue s (xs ++ ys))
        ≡ select_loop k (i + length xs) (with_queue s (ys ++ xs))
  skip-Blocked [] ys f k i b e h =
      let fuel : f ≡ k = omega arith in
      let round : i + 0 ≡ i = omega arith in rw (fuel, round, append-nil)
  skip-Blocked (x ∷ xs) ys zero k i b e h = absurd (omega arith)
  skip-Blocked (x ∷ xs) ys (suc f) k i b e h =
      let round : i + suc (length xs) ≡ i + 1 + length xs = omega arith in
      step-Blocked f i x (xs ++ ys) b.0 (omega (arith, length-append xs ys))
      ∙ ap (λ q. select_loop f (i + 1) (with_queue s q)) (append_assoc xs ys (x ∷ []))
      ∙ skip-Blocked xs (ys ++ (x ∷ [])) f k (i + 1) b.1 (omega arith)
          (omega (arith, length-append ys (x ∷ [])))
      ∙ rw (round, append_assoc)

  -- A switch selects the first thread of the execution queue that can run: the threads before it
  -- go to the end of the queue, in their order, and those behind it move up.
  pub select_loop-first :
      (skipped rest : List ℕ) (t : ℕ)
      → s.thread_execution_queue ≡ skipped ++ (t ∷ rest)
      → All (Blocked s) skipped
      → (r : Ready s t)
      → (left : Scheduler) × (select_loop (length s.thread_execution_queue + 1) 0 s
          ≡ ok (some (execute (with_queue s (rest ++ skipped)) t r.resumed r.loaded.process), left))
  select_loop-first skipped rest t e b r =
      let size = ap length e ∙ length-append skipped (t ∷ rest) in
      let fuel : length s.thread_execution_queue + 1 ≡ length skipped + suc (suc (length rest)) =
        omega arith in
      (
        with_queue s (t ∷ (rest ++ skipped)),
        ap (λ q. select_loop (length s.thread_execution_queue + 1) 0 (with_queue s q)) e
            ∙ skip-Blocked skipped (t ∷ rest) (length s.thread_execution_queue + 1)
                (suc (suc (length rest))) 0 b fuel (omega arith)
            ∙ step-ready (suc (length rest)) (0 + length skipped) t (rest ++ skipped) r
                (omega (arith, length-append rest skipped)),
      )

  -- When no thread of the execution queue can run, a switch selects none and leaves the queue as
  -- it is.
  pub select_loop-none :
      All (Blocked s) s.thread_execution_queue
      → select_loop (length s.thread_execution_queue + 1) 0 s ≡ ok (none, s)
  unfolding select_loop
  select_loop-none b =
      let q = s.thread_execution_queue in
      let ends : ltb (0 + length q) (length q) ≡ false = ground arith in
      ap (λ q'. select_loop (length q + 1) 0 (with_queue s q')) (sym (append-nil q))
      ∙ skip-Blocked q [] (length q + 1) (suc 0) 0 b (omega arith) (omega arith)
      ∙ rw ends
