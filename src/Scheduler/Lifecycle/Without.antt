-- ===== src/Scheduler/Lifecycle/Without.antt =====
-- Lists without a thread.
use speedy_os.Common.{ℕ, ◌≡◌, inl, inr, false, List, [], ◌∷◌, ◌==◌, Bool-cases}
use speedy_os.Scheduler.State.{ThreadEvent}
use speedy_os.Scheduler.Switch.Select.{All}
use speedy_os.Scheduler.Lifecycle.{without, without_events}

pub All-without :
    (P Q : ℕ → Type 0) (t : ℕ)
    → ((u : ℕ) → (u == t) ≡ false → P u → Q u)
    → (us : List ℕ) → All P us
    → All Q (without t us)
unfolding without
All-without P Q t f [] a = tt
All-without P Q t f (u ∷ us) a = elim (Bool-cases (u == t)) [
  | inl e ↦ rw e (All-without P Q t f us a.1)
  | inr e ↦ rw e (f u e a.0, All-without P Q t f us a.1)
]

pub All-without_events :
    (P Q : ℕ → Type 0) (t : ℕ)
    → ((u : ℕ) → (u == t) ≡ false → P u → Q u)
    → (es : List ThreadEvent) → All (λ (e : ThreadEvent). P e.thread) es
    → All (λ (e : ThreadEvent). Q e.thread) (without_events t es)
unfolding without_events
All-without_events P Q t f [] a = tt
All-without_events P Q t f (e ∷ es) a = elim (Bool-cases (e.thread == t)) [
  | inl same ↦ rw same (All-without_events P Q t f es a.1)
  | inr other ↦ rw other (f e.thread other a.0, All-without_events P Q t f es a.1)
]

pub without-out : (t : ℕ) (us : List ℕ) → All (λ u. (u == t) ≡ false) (without t us)
unfolding without
without-out t [] = tt
without-out t (u ∷ us) = elim (Bool-cases (u == t)) [
  | inl e ↦ rw e (without-out t us)
  | inr e ↦ rw e (e, without-out t us)
]

pub without_events-out :
    (t : ℕ) (es : List ThreadEvent)
    → All (λ (e : ThreadEvent). (e.thread == t) ≡ false) (without_events t es)
unfolding without_events
without_events-out t [] = tt
without_events-out t (e ∷ es) = elim (Bool-cases (e.thread == t)) [
  | inl same ↦ rw same (without_events-out t es)
  | inr other ↦ rw other (other, without_events-out t es)
]
