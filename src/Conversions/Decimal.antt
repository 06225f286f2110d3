-- ===== src/Conversions/Decimal.antt =====
-- The decimal text of a number stands for it.
use speedy_os.Common.{
  ℕ, zero, suc, ◌+◌, ◌-◌, ◌*◌, ◌/◌, ◌%◌, ◌≤◌, ◌<◌, ◌≡◌, refl, ◌∙◌, inl, inr, ap, true, List, [],
  ◌∷◌, ◌==◌, Bool-cases, arith, ok, length,
}
use speedy_os.Conversions.{write_digits, u_int_to_char}

-- The number of a text of decimal digits, after the number of the digits before it.
unfoldable pub decimal : ℕ → List ℕ → ℕ
decimal before [] = before
decimal before (c ∷ text) = decimal (before * 10 + (c - 48)) text

-- Digits only.
unfoldable pub Digits : List ℕ → Type 0
Digits [] = Unit
Digits (c ∷ text) = (48 ≤ c) × (c ≤ 57) × Digits text

power_of_ten : ℕ → ℕ
power_of_ten zero = 1
power_of_ten (suc n) = 10 * power_of_ten n

write_digits-decimal :
    (loc i : ℕ) (text : List ℕ)
    → i < power_of_ten loc
    → Digits text
    → (loc' : ℕ) × (text' : List ℕ) × (write_digits loc i text ≡ ok (loc', text'))
      × (decimal 0 text' ≡ decimal i text)
      × Digits text'
      × (loc' + length text' ≡ loc + length text)
unfolding write_digits decimal Digits power_of_ten
write_digits-decimal zero i text h d =
    let none_left : (i == 0) ≡ true = ground arith in
    (0, text, rw none_left refl, ap (λ n. decimal n text) (omega arith), d, refl)
write_digits-decimal (suc loc) i text h d = elim (Bool-cases (i == 0)) [
  | inl e ↦ (suc loc, text, rw e refl, ap (λ n. decimal n text) (ground arith), d, refl)
  | inr e ↦
      let (loc', text', run, same, digits, len) =
        write_digits-decimal loc (i / 10) ((48 + i % 10) ∷ text) (omega arith)
          (omega arith, omega arith, d) in
      (
        loc',
        text',
        rw e run,
        same ∙ ap (λ n. decimal n text) (omega arith),
        digits,
        omega (arith, len),
      )
]

-- Each number below 10 ^ 11 has a text of decimal digits, at least one, that stands for it.
pub u_int_to_char-decimal :
    (i : ℕ)
    → i < 100000000000
    → (text : List ℕ) × (u_int_to_char i ≡ ok text)
      × (decimal 0 text ≡ i)
      × Digits text
      × (0 < length text)
unfolding u_int_to_char decimal Digits power_of_ten
u_int_to_char-decimal i h =
    let (loc, text, run, same, digits, len) = write_digits-decimal 11 i [] h tt in
    elim (Bool-cases (loc == 11)) [
      | inl e ↦ (48 ∷ text, rw (run, e) refl, same, (omega arith, omega arith, digits), omega arith)
      | inr e ↦ (text, rw (run, e) refl, same, digits, ground arith)
    ]
