-- ===== src/Conversions/Tests.antt =====
-- The theorems on the conversions at concrete numbers.
use speedy_os.Common.{ℕ, ◌≡◌, refl, true, false, [], ◌∷◌, arith, List, ok}
use speedy_os.Conversions.{
  s_int_to_char, write_digits, char_to_s_int, read_digits, u_char_to_int, is_empty, is_minus,
  char_valid_s_int, valid_digits,
}
use speedy_os.Conversions.Signed.{signed_word, char_to_s_int-s_int_to_char}

-- "-12" is read as 2 ^ 32 - 12, and written from the magnitude 12.
minus_twelve : char_to_s_int (45 ∷ 49 ∷ 50 ∷ []) ≡ 4294967284
unfolding char_to_s_int read_digits u_char_to_int is_empty is_minus
minus_twelve = refl

minus_twelve_text : s_int_to_char true 12 ≡ ok (45 ∷ 49 ∷ 50 ∷ [])
unfolding s_int_to_char write_digits
minus_twelve_text = refl

valid_text : char_valid_s_int (45 ∷ 49 ∷ 50 ∷ []) ≡ true
unfolding char_valid_s_int valid_digits u_char_to_int is_empty is_minus
valid_text = refl

invalid_text : char_valid_s_int (49 ∷ 45 ∷ []) ≡ false
unfolding char_valid_s_int valid_digits u_char_to_int is_empty is_minus
invalid_text = refl

char_to_s_int-s_int_to_char_example :
    (text : List ℕ) × (s_int_to_char true 12 ≡ ok text) × (char_to_s_int text ≡ signed_word true 12)
char_to_s_int-s_int_to_char_example = char_to_s_int-s_int_to_char true 12 (omega arith)
