-- ===== src/Conversions.antt =====
-- shared/conversions.cpp: numbers and text.
--
-- Text is the list of its character codes without the terminator. The buffer of a function is
-- filled from its end: `loc` is the place of the first character, and a write before the buffer is
-- a `fault`.
pub mod Decimal
pub mod Hexadecimal
pub mod Signed
mod Tests
use mathlib.Core.List.{reverse}
use speedy_os.Common.{
  ℕ, zero, suc, ◌+◌, ◌-◌, ◌/◌, ◌%◌, ◌^◌, Bool, true, false, ◌&&◌, ◌||◌, Option, none, some, ltb,
  length, add32, sub32, mul32, List, [], ◌∷◌, ◌==◌, if◌then◌else◌, Run, ok, fault, ◌>>=◌,
}

-- The loop over the digits.
pub write_digits : (loc i : ℕ) → List ℕ → Run (ℕ × List ℕ)
write_digits zero i text = if i == 0 then ok (0, text) else fault
write_digits (suc loc) i text =
    let rest = write_digits loc (i / 10) ((48 + i % 10) ∷ text) in
    if i == 0 then ok (suc loc, text) else rest

pub u_int_to_char : ℕ → Run (List ℕ)
u_int_to_char i = do (loc, text) ← write_digits 11 i []; ok (if loc == 11 then 48 ∷ text else text)

-- A 32-bit `int` is its sign and its magnitude, of at most 2 ^ 31.
pub s_int_to_char : (negative : Bool) → (magnitude : ℕ) → Run (List ℕ)
s_int_to_char negative magnitude = do
  (loc, text) ← write_digits 11 magnitude []
  let digits = if loc == 11 then 48 ∷ text else text
  ok (if negative then 45 ∷ digits else digits)

-- The character of a nibble.
pub hex_char : ℕ → ℕ
hex_char nibble = if ltb nibble 10 then 48 + nibble else 55 + nibble

-- The last `k` nibbles of a number.
pub write_nibbles : (k : ℕ) → ℕ → List ℕ
write_nibbles zero num = []
write_nibbles (suc k) num = hex_char (num / 16 ^ k % 16) ∷ write_nibbles k num

pub u_int32_to_hex : ℕ → List ℕ
u_int32_to_hex num = 48 ∷ 120 ∷ write_nibbles 8 num

-- `none` is the result -1.
pub u_char_to_int : (text : ℕ) → Option ℕ
u_char_to_int text = if ltb 57 text || ltb text 48 then none else some (text - 48)

pub is_empty : List ℕ → Bool
is_empty [] = true
is_empty (c ∷ text) = false

-- The text of a minus alone.
pub is_minus : List ℕ → Bool
is_minus [] = false
is_minus (c ∷ text) = is_empty text && (c == 45)

-- The loop from the last character on: `text` is in reverse, so the character 0 comes last. The
-- number is kept modulo 2 ^ 32, and 0 is returned for what is no digit.
pub read_digits : List ℕ → (tenth_multiplier total_number : ℕ) → ℕ
read_digits [] tenth_multiplier total_number = total_number
read_digits (c ∷ text) tenth_multiplier total_number =
    if is_empty text && (c == 45) then sub32 0 total_number else elim (u_char_to_int c) [
      | none ↦ 0
      | some number ↦
          read_digits text (mul32 tenth_multiplier 10)
            (add32 total_number (mul32 number tenth_multiplier))
    ]

pub char_to_s_int : List ℕ → ℕ
char_to_s_int text = if is_empty text || is_minus text then 0 else read_digits (reverse text) 1 0

-- The same loop, that only looks.
pub valid_digits : List ℕ → Bool
valid_digits [] = true
valid_digits (c ∷ text) =
    let rest = valid_digits text in
    if is_empty text && (c == 45)
    then true
    else elim (u_char_to_int c) [ none ↦ false | some number ↦ rest ]

pub char_valid_s_int : List ℕ → Bool
char_valid_s_int text =
    if is_empty text || is_minus text
    then false
    else if ltb 11 (length text)
    then false
    else valid_digits (reverse text)
