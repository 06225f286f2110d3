-- ===== src/Conversions/Hexadecimal.antt =====
-- The hexadecimal text of a number stands for it.
use native.Mathlib.Nat.{pow-zero, pow-suc, div-div-eq-div-mul}
use speedy_os.Common.{
  ℕ, zero, suc, ◌+◌, ◌-◌, ◌*◌, ◌/◌, ◌%◌, ◌^◌, ◌≤◌, ◌<◌, ◌≡◌, refl, ap, sym, ◌∙◌, List, [], ◌∷◌, ltb,
  length, u32_mod, if◌then◌else◌, All, Bool-cases, ◌⊎◌, inl, inr, arith,
}
use speedy_os.Conversions.{hex_char, write_nibbles, u_int32_to_hex}

-- The value of a hexadecimal digit, and of a text of them after the number `n`.
nibble_value : ℕ → ℕ
nibble_value c = if ltb c 58 then c - 48 else c - 55

pub hex_value : (n : ℕ) → List ℕ → ℕ
hex_value n [] = n
hex_value n (c ∷ text) = hex_value (n * 16 + nibble_value c) text

nibble_value-hex_char : (d : ℕ) → d < 16 → nibble_value (hex_char d) ≡ d
unfolding nibble_value hex_char
nibble_value-hex_char d h = ground arith

length-write_nibbles : (k num : ℕ) → length (write_nibbles k num) ≡ k
unfolding write_nibbles
length-write_nibbles zero num = refl
length-write_nibbles (suc k) num = ap suc (length-write_nibbles k num)

hex_value-write_nibbles : (k num : ℕ) → hex_value (num / 16 ^ k) (write_nibbles k num) ≡ num
unfolding hex_value write_nibbles
hex_value-write_nibbles zero num = rw (pow-zero 16) (omega arith)
hex_value-write_nibbles (suc k) num =
    let digit = nibble_value-hex_char (num / 16 ^ k % 16) (omega arith) in
    let above : num / 16 ^ suc k ≡ num / 16 ^ k / 16 =
      ap (λ m. num / m) (pow-suc 16 k) ∙ sym (div-div-eq-div-mul num (16 ^ k) 16) in
    let next : num / 16 ^ suc k * 16 + nibble_value (hex_char (num / 16 ^ k % 16)) ≡ num / 16 ^ k =
      omega (arith, digit, above) in
    ap (λ n. hex_value n (write_nibbles k num)) next ∙ hex_value-write_nibbles k num

-- The characters 0 to 9 and A to F.
abbrev pub IsNibble : ℕ → Type 0
IsNibble c = ((48 ≤ c) × (c ≤ 57)) ⊎ ((65 ≤ c) × (c ≤ 70))

hex_char-IsNibble : (d : ℕ) → d < 16 → IsNibble (hex_char d)
unfolding hex_char
hex_char-IsNibble d h = elim (Bool-cases (ltb d 10)) [
  | inl t ↦ let l : d < 10 = ground arith in inl (rw t (omega arith), rw t (omega arith))
  | inr f ↦ let l : 10 ≤ d = ground arith in inr (rw f (omega arith), rw f (omega arith))
]

write_nibbles-IsNibble : (k num : ℕ) → All IsNibble (write_nibbles k num)
unfolding write_nibbles
write_nibbles-IsNibble zero num = tt
write_nibbles-IsNibble (suc k) num =
    (hex_char-IsNibble (num / 16 ^ k % 16) (omega arith), write_nibbles-IsNibble k num)

-- A text of `0x` and as many characters as a buffer for eight digits has.
pub record IsHexadecimal (num : ℕ) (text : List ℕ) : Type 0 where
  pub digits : List ℕ
  pub prefixed : text ≡ 48 ∷ 120 ∷ digits
  pub eight : length digits ≡ 8
  pub characters : All IsNibble digits
  pub value : hex_value 0 digits ≡ num

-- The text of a number below 2 ^ 32 is `0x` and eight hexadecimal digits that stand for it.
pub u_int32_to_hex-IsHexadecimal :
    (num : ℕ) → num < u32_mod → IsHexadecimal num (u_int32_to_hex num)
unfolding u_int32_to_hex
u_int32_to_hex-IsHexadecimal num h =
    let none_above : num / 16 ^ 8 ≡ 0 = omega arith in
    record {
      digits = write_nibbles 8 num;
      prefixed = refl;
      eight = length-write_nibbles 8 num;
      characters = write_nibbles-IsNibble 8 num;
      value =
          ap (λ n. hex_value n (write_nibbles 8 num)) (sym none_above)
          ∙ hex_value-write_nibbles 8 num;
    }
