-- ===== src/DataSink/Identifiers.antt =====
-- The generator gives the first identifier that validates; a sink cannot be created.
use speedy_os.Common.{
  ℕ, zero, suc, ◌+◌, ◌-◌, ◌%◌, ◌≤◌, ◌<◌, ◌≡◌, ◌≢◌, refl, ap, sym, ◌∙◌, Bool, true, false,
  if◌then◌else◌, u32_mod, add32, Run, ok, ok-inversion, arith,
}
use speedy_os.HashMap.{exists, set_key}
use speedy_os.HashMap.Set.{set_key-duplicate}
use speedy_os.DataSink.{next, Sinks, create_steady_datasink}

-- The identifier that follows the last one after `n` that do not validate.
pub record IsFirst (validate : ℕ → Run Bool) (prev_id n : ℕ) : Type 0 where
  pub valid : validate (add32 prev_id (suc n)) ≡ ok true
  pub skipped : (i : ℕ) → i < n → validate (add32 prev_id (suc i)) ≡ ok false

add32-add32 : (a d : ℕ) → add32 (add32 a 1) d ≡ add32 a (suc d)
add32-add32 a d = omega arith

IsFirst-suc :
    (validate : ℕ → Run Bool) (prev_id n : ℕ)
    → validate (add32 prev_id 1) ≡ ok false
    → IsFirst validate (add32 prev_id 1) n
    → IsFirst validate prev_id (suc n)
IsFirst-suc validate prev_id n e first = record {
  valid = ap validate (sym (add32-add32 prev_id (suc n))) ∙ first.valid;
  skipped = λ i. elim i as (λ k. k < suc n → validate (add32 prev_id (suc k)) ≡ ok false) [
    | zero ↦ λ h. e
    | suc j ↦ λ h. ap validate (sym (add32-add32 prev_id (suc j))) ∙ first.skipped j (omega arith)
  ];
}

module _ (validate : ℕ → Run Bool)
    (total : (id : ℕ) → (valid : Bool) × (validate id ≡ ok valid)) where
  next-IsFirst :
      (fuel prev_id d : ℕ)
      → d < fuel
      → validate (add32 prev_id (suc d)) ≡ ok true
      → (n : ℕ) × (n ≤ d)
        × (next fuel validate prev_id ≡ ok (add32 prev_id (suc n)))
        × IsFirst validate prev_id n
  unfolding next
  next-IsFirst zero prev_id d h e = absurd (omega arith)
  next-IsFirst (suc fuel) prev_id zero h e =
      (zero, omega arith, rw e refl, record { valid = e; skipped = λ i l. absurd (omega arith) })
  next-IsFirst (suc fuel) prev_id (suc d) h e =
      let (valid, accepted) = total (add32 prev_id 1) in
      elim valid
          as (λ b.
            validate (add32 prev_id 1) ≡ ok b
            → (n : ℕ) × (n ≤ suc d)
              × (next (suc fuel) validate prev_id ≡ ok (add32 prev_id (suc n)))
              × IsFirst validate prev_id n) [
                | true ↦ λ v. (
                  zero,
                  omega arith,
                  rw v refl,
                  record { valid = v; skipped = λ i l. absurd (omega arith) },
                )
                | false ↦ λ v.
                    let (n, le, run, first) =
                      next-IsFirst fuel (add32 prev_id 1) d (omega arith)
                        (ap validate (add32-add32 prev_id (suc d)) ∙ e) in
                    (
                      suc n,
                      omega arith,
                      rw (v, run, add32-add32 prev_id (suc n)) refl,
                      IsFirst-suc validate prev_id n v first,
                    )
              ]
        accepted

  -- Where the validator returns for every number and accepts some 32-bit number, the generator
  -- returns within 2 ^ 32 rounds: with the first number after the last identifier, in the order of
  -- the wrapping sum, that the validator accepts.
  pub next-returns :
      (prev_id id : ℕ)
      → prev_id < u32_mod
      → id < u32_mod
      → validate id ≡ ok true
      → (n : ℕ) × (next u32_mod validate prev_id ≡ ok (add32 prev_id (suc n)))
        × IsFirst validate prev_id n
  next-returns prev_id id bound id_bound e =
      let d : ℕ = (id + (u32_mod - (prev_id + 1))) % u32_mod in
      let same : add32 prev_id (suc d) ≡ id = omega arith in
      let (n, le, run, first) =
        next-IsFirst u32_mod prev_id d (omega arith) (ap validate same ∙ e) in
      (n, run, first)

next-valid :
    (validate : ℕ → Run Bool) (fuel prev_id id : ℕ)
    → next fuel validate prev_id ≡ ok id
    → validate id ≡ ok true
unfolding next
next-valid validate zero prev_id id run = cc
next-valid validate (suc fuel) prev_id id run =
    let (valid, v, e) = ok-inversion (validate (add32 prev_id 1)) run in
    elim valid
        as (λ b.
          validate (add32 prev_id 1) ≡ ok b
          → (if b then ok (add32 prev_id 1) else next fuel validate (add32 prev_id 1)) ≡ ok id
          → validate id ≡ ok true) [
            | true ↦ λ v e. let same : add32 prev_id 1 ≡ id = cc in ap validate (sym same) ∙ v
            | false ↦ λ v e. next-valid validate fuel (add32 prev_id 1) id e
          ]
      v e

-- For the generator that the code sets up, `create_steady_datasink` never returns a sink, however
-- long it runs and whatever sinks there are: the generator stops only at an identifier that is in
-- use, and setting that key panics.
pub create_steady_datasink-fails :
    (fuel sink : ℕ) (s : Sinks) (result : ℕ × Sinks)
    → create_steady_datasink fuel sink s ≢ ok result
unfolding create_steady_datasink
create_steady_datasink-fails fuel sink s result e =
    let (id, run, e1) = ok-inversion (next fuel (exists s.active_sinks) s.prev_id) e in
    let (steady, set1, e2) = ok-inversion (set_key 0 fuel s.steady_sinks id sink true) e1 in
    let (active, set2, e3) = ok-inversion (set_key 0 fuel s.active_sinks id sink true) e2 in
    set_key-duplicate 0 fuel s.active_sinks id sink true active
      (next-valid (exists s.active_sinks) fuel s.prev_id id run) set2
