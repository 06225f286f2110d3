-- ===== src/Common/Runs.antt =====
-- The outcome of a run of kernel code.
use mathlib.Core.Path.{◌≡◌, refl, subst}
use mathlib.Core.Option.{Option, none, some}

-- `panic` is a call of `kernel::panic` (`_shared_panic`); `fault` is an access outside the memory
-- that the code owns, after which nothing is known; `out_of_fuel` is a loop that has not ended in
-- the rounds that it was given.
pub data Run {ℓ} (A : Type ℓ) : Type ℓ where
  panic : Run A
  fault : Run A
  out_of_fuel : Run A
  ok : A → Run A

-- One run after the other.
infixl 5 ◌>>=◌
abbrev pub ◌>>=◌ {ℓ κ} : {A : Type ℓ} {B : Type κ} → Run A → (A → Run B) → Run B
panic >>= next = panic
fault >>= next = fault
out_of_fuel >>= next = out_of_fuel
ok value >>= next = next value

-- A read through an index that may be out of range.
abbrev pub from_option {ℓ} : {A : Type ℓ} → Option A → Run A
from_option (some value) = ok value
from_option none = fault

-- What a run that ends well has passed through.
pub ok-inversion {ℓ κ} :
    {A : Type ℓ} {B : Type κ} {next : A → Run B} {result : B} (first : Run A)
    → (first >>= next) ≡ ok result
    → (value : A) × (first ≡ ok value) × (next value ≡ ok result)
ok-inversion (ok value) e = (value, refl, e)
ok-inversion panic e = cc
ok-inversion fault e = cc
ok-inversion out_of_fuel e = cc

-- A run that goes on after two steps goes on from where they lead.
pub step-through {ℓ κ ν} :
    {A : Type ℓ} {B : Type κ} {C : Type ν} (first : Run A) (next : A → Run B) (rest : B → Run C)
    {result : B}
    → (first >>= next) ≡ ok result
    → (first >>= λ value. next value >>= rest) ≡ rest result
step-through (ok value) next rest e = rw e refl
step-through panic next rest e = absurd cc
step-through fault next rest e = absurd cc
step-through out_of_fuel next rest e = absurd cc

-- The result of the run, if there is one, satisfies `P`.
pub Holds {ℓ} : {A : Type ℓ} → (A → Type 0) → Run A → Type 0
Holds P (ok value) = P value
Holds P panic = Unit
Holds P fault = Unit
Holds P out_of_fuel = Unit

pub Holds-bind {ℓ κ} :
    {A : Type ℓ} {B : Type κ} (P : B → Type 0) (first : Run A) (next : A → Run B)
    → ((value : A) → Holds P (next value))
    → Holds P (first >>= next)
unfolding Holds
Holds-bind P (ok value) next h = h value
Holds-bind P panic next h = tt
Holds-bind P fault next h = tt
Holds-bind P out_of_fuel next h = tt

pub Holds-intro {ℓ} : {A : Type ℓ} (P : A → Type 0) (value : A) → P value → Holds P (ok value)
unfolding Holds
Holds-intro P value h = h

pub Holds-elim {ℓ} :
    {A : Type ℓ} (P : A → Type 0) {run : Run A} {value : A} → run ≡ ok value → Holds P run → P value
unfolding Holds
Holds-elim P e h = subst (Holds P) e h

pub Holds-panic {ℓ} : {A : Type ℓ} (P : A → Type 0) → Holds P panic
unfolding Holds
Holds-panic P = tt

pub Holds-fault {ℓ} : {A : Type ℓ} (P : A → Type 0) → Holds P fault
unfolding Holds
Holds-fault P = tt

-- What holds of the first run may be used for the second.
pub Holds-both {ℓ κ} :
    {A : Type ℓ} {B : Type κ} (P : A → Type 0) (Q : B → Type 0) (first : Run A) (next : A → Run B)
    → Holds P first
    → ((value : A) → P value → Holds Q (next value))
    → Holds Q (first >>= next)
unfolding Holds
Holds-both P Q (ok value) next h f = f value h
Holds-both P Q panic next h f = tt
Holds-both P Q fault next h f = tt
Holds-both P Q out_of_fuel next h f = tt

pub bind_assoc {ℓ κ ν} :
    {A : Type ℓ} {B : Type κ} {C : Type ν} (first : Run A) (next : A → Run B) (rest : B → Run C)
    → (first >>= next >>= rest) ≡ (first >>= λ value. next value >>= rest)
bind_assoc (ok value) next rest = refl
bind_assoc panic next rest = refl
bind_assoc fault next rest = refl
bind_assoc out_of_fuel next rest = refl
