-- ===== src/Conversions/Signed.antt =====
-- Reading the text of a signed number gives the number.
use mathlib.Core.List.{append-nil, reverse, reverse_aux, reverse-cons}
use native.Mathlib.Nat.{add-mul, mul-add, mul_assoc, mul_comm, mul-add-mod_self_left}
use speedy_os.Common.{
  ℕ, ◌+◌, ◌-◌, ◌*◌, ◌/◌, ◌%◌, ◌≤◌, ◌<◌, ◌≡◌, refl, ap, sym, ◌∙◌, Bool, true, false, ◌&&◌, List, [],
  ◌∷◌, ◌++◌, some, ◌==◌, if◌then◌else◌, ltb, length, add32, sub32, mul32, u32_mod, ok, ok-inversion,
  arith,
}
use speedy_os.Conversions.{
  write_digits, u_int_to_char, s_int_to_char, is_empty, is_minus, u_char_to_int, read_digits,
  char_to_s_int,
}
use speedy_os.Conversions.Decimal.{decimal, Digits, u_int_to_char-decimal}

-- The value of digits with the lowest first.
reverse_value : List ℕ → ℕ
reverse_value [] = 0
reverse_value (c ∷ text) = c - 48 + 10 * reverse_value text

mod-mul : (a b : ℕ) → (a % u32_mod * b) % u32_mod ≡ (a * b) % u32_mod
mod-mul a b =
    let e : a ≡ u32_mod * (a / u32_mod) + a % u32_mod = omega arith in
    sym (
      ap (λ n. n * b % u32_mod) e
      ∙ ap (λ n. n % u32_mod)
          (add-mul (u32_mod * (a / u32_mod)) (a % u32_mod) b
            ∙ ap (λ n. n + a % u32_mod * b) (mul_assoc u32_mod (a / u32_mod) b))
      ∙ mul-add-mod_self_left u32_mod (a / u32_mod * b) (a % u32_mod * b))

-- One digit more in the sum.
add-digit :
    (total d m v : ℕ)
    → add32 (add32 total (mul32 d m)) (mul32 (mul32 m 10) v) ≡ add32 total (mul32 m (d + 10 * v))
add-digit total d m v =
    let shifted : (mul32 m 10 * v) % u32_mod ≡ m * 10 * v % u32_mod = mod-mul (m * 10) v in
    let product : m * (d + 10 * v) ≡ d * m + m * 10 * v =
      mul-add m d (10 * v)
      ∙ ap (λ n. n + m * (10 * v)) (mul_comm m d)
      ∙ ap (λ n. d * m + n) (sym (mul_assoc m 10 v)) in
    rw (shifted, product) (omega arith)

abbrev sign : Bool → List ℕ
sign negative = if negative then 45 ∷ [] else []

-- A number of the sign and the magnitude, as a 32-bit word.
abbrev pub signed_word : (negative : Bool) → (magnitude : ℕ) → ℕ
signed_word negative magnitude = if negative then sub32 0 magnitude else magnitude

and_false : (a : Bool) → (a && false) ≡ false
and_false true = refl
and_false false = refl

u_char_to_int-digit : (c : ℕ) → 48 ≤ c → c ≤ 57 → u_char_to_int c ≡ some (c - 48)
unfolding u_char_to_int
u_char_to_int-digit c l u =
    let above : ltb 57 c ≡ false = ground arith in
    let below : ltb c 48 ≡ false = ground arith in rw (above, below) refl

read_digits-Digits :
    (text : List ℕ) (negative : Bool) (mult total : ℕ)
    → Digits text
    → total < u32_mod
    → read_digits (text ++ sign negative) mult total
      ≡ signed_word negative (add32 total (mul32 mult (reverse_value text)))
unfolding read_digits reverse_value Digits is_empty
read_digits-Digits [] true mult total d h =
    let e : total ≡ add32 total (mul32 mult 0) = omega arith in ap (sub32 0) e
read_digits-Digits [] false mult total d h = omega arith
read_digits-Digits (c ∷ text) negative mult total (l, u, d) h =
    let no_minus : (c == 45) ≡ false = ground arith in
    rw (no_minus, and_false (is_empty (text ++ sign negative)), u_char_to_int-digit c l u)
      (read_digits-Digits text negative (mul32 mult 10) (add32 total (mul32 (c - 48) mult)) d
          (omega arith)
        ∙ ap (signed_word negative) (add-digit total (c - 48) mult (reverse_value text)))

Digits-reverse_aux :
    (text done : List ℕ) → Digits text → Digits done → Digits (reverse_aux text done)
unfolding Digits
Digits-reverse_aux [] done d e = e
Digits-reverse_aux (c ∷ text) done (l, u, d) e = Digits-reverse_aux text (c ∷ done) d (l, u, e)

reverse_value-reverse_aux :
    (text done : List ℕ) → reverse_value (reverse_aux text done) ≡ decimal (reverse_value done) text
unfolding reverse_value decimal
reverse_value-reverse_aux [] done = refl
reverse_value-reverse_aux (c ∷ text) done =
    let e : c - 48 + 10 * reverse_value done ≡ reverse_value done * 10 + (c - 48) = omega arith in
    reverse_value-reverse_aux text (c ∷ done) ∙ ap (λ n. decimal n text) e

-- The text with its sign, read from the end.
reverse-sign :
    (text : List ℕ) (negative : Bool)
    → reverse (sign negative ++ text) ≡ reverse text ++ sign negative
reverse-sign text true = reverse-cons 45 text
reverse-sign text false = sym (append-nil (reverse text))

read_text :
    (text : List ℕ) (negative : Bool)
    → Digits text
    → 0 < length text
    → char_to_s_int (sign negative ++ text) ≡ read_digits (reverse (sign negative ++ text)) 1 0
unfolding char_to_s_int is_empty is_minus Digits
read_text [] negative d h = absurd (omega arith)
read_text (c ∷ text) true d h = refl
read_text (c ∷ text) false (l, u, d) h =
    let no_minus : (c == 45) ≡ false = ground arith in rw (no_minus, and_false (is_empty text)) refl

s_int_to_char-sign :
    (negative : Bool) (magnitude : ℕ) (text : List ℕ)
    → u_int_to_char magnitude ≡ ok text
    → s_int_to_char negative magnitude ≡ ok (sign negative ++ text)
unfolding u_int_to_char s_int_to_char
s_int_to_char-sign negative magnitude text run =
    let ((loc, digits), wrote, e) = ok-inversion (write_digits 11 magnitude []) run in
    let same : (if loc == 11 then 48 ∷ digits else digits) ≡ text = cc in
    rw (wrote, same) (ok_sign negative text)
  where
    ok_sign :
        (negative : Bool) (text : List ℕ)
        → ok (if negative then 45 ∷ text else text) ≡ ok (sign negative ++ text)
    ok_sign true text = refl
    ok_sign false text = refl

-- A number of a magnitude up to 2 ^ 31, with its sign: it has a text, and reading the text gives
-- the number back, as a 32-bit word.
pub char_to_s_int-s_int_to_char :
    (negative : Bool) (magnitude : ℕ)
    → magnitude ≤ 2147483648
    → (text : List ℕ) × (s_int_to_char negative magnitude ≡ ok text)
      × (char_to_s_int text ≡ signed_word negative magnitude)
unfolding reverse_value Digits
char_to_s_int-s_int_to_char negative magnitude h =
    let (text, run, value, digits, some_digit) = u_int_to_char-decimal magnitude (omega arith) in
    let same : reverse_value (reverse text) ≡ magnitude =
      reverse_value-reverse_aux text [] ∙ value in
    let word : add32 0 (mul32 1 (reverse_value (reverse text))) ≡ magnitude = omega (arith, same) in
    (
      sign negative ++ text,
      s_int_to_char-sign negative magnitude text run,
      read_text text negative digits some_digit
          ∙ ap (λ t. read_digits t 1 0) (reverse-sign text negative)
          ∙ read_digits-Digits (reverse text) negative 1 0 (Digits-reverse_aux text [] digits tt)
              (omega arith)
          ∙ ap (signed_word negative) word,
    )
