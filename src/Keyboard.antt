-- ===== src/Keyboard.antt =====
-- kernel/src/cpp/drivers/keyboard/keyboard.cpp: scan codes of the keyboard become events.
--
-- The driver's process is an address in the store of processes. The bytes that the port 0x60 gives
-- are arguments; the second is read only after 0xE0. A read outside a table is a `fault`.
pub mod Codes
mod Tests
use speedy_os.Common.{
  ℕ, ◌+◌, Bool, true, false, not, List, [], ◌∷◌, ltb, leb, ◌==◌, ◌&&◌, if◌then◌else◌, update, sub32,
  Run, ok, fault, ◌>>=◌,
}
use speedy_os.Scheduler.State.{Scheduler}
use speedy_os.Scheduler.Events.{emit_event}

pub record Keyboard : Type 0 where
  pub keys_pressed_map : ℕ → ℕ
  pub keys_released_map : ℕ → ℕ
  pub modifiers_pressed_map : ℕ → ℕ
  pub modifiers_released_map : ℕ → ℕ

-- The writes of `setup_char_table`, in its order: the index and the value, a character as its code.
abbrev keys_pressed_entries : List (ℕ × ℕ)
keys_pressed_entries =
    (0x04, 51)
    ∷ (0x08, 55)
    ∷ (0x10, 113)
    ∷ (0x14, 116)
    ∷ (0x18, 111)
    ∷ (0x20, 100)
    ∷ (0x24, 106)
    ∷ (0x2C, 122)
    ∷ (0x30, 98)
    ∷ (0x05, 52)
    ∷ (0x09, 56)
    ∷ (0x11, 119)
    ∷ (0x15, 121)
    ∷ (0x19, 112)
    ∷ (0x21, 102)
    ∷ (0x25, 107)
    ∷ (0x2D, 120)
    ∷ (0x31, 110)
    ∷ (0x39, 32)
    ∷ (0x02, 49)
    ∷ (0x06, 53)
    ∷ (0x0A, 57)
    ∷ (0x12, 101)
    ∷ (0x16, 117)
    ∷ (0x1E, 97)
    ∷ (0x22, 103)
    ∷ (0x26, 108)
    ∷ (0x2E, 99)
    ∷ (0x32, 109)
    ∷ (0x03, 50)
    ∷ (0x07, 54)
    ∷ (0x0B, 48)
    ∷ (0x13, 114)
    ∷ (0x17, 105)
    ∷ (0x1F, 115)
    ∷ (0x23, 104)
    ∷ (0x2F, 118)
    ∷ (0x0C, 45)
    ∷ (0x28, 39)
    ∷ (0x34, 46)
    ∷ (0x0D, 61)
    ∷ (0x29, 96)
    ∷ (0x35, 47)
    ∷ (0x1A, 91)
    ∷ (0x1B, 93)
    ∷ (0x27, 59)
    ∷ (0x2B, 92)
    ∷ (0x33, 44)
    ∷ []

abbrev keys_released_entries : List (ℕ × ℕ)
keys_released_entries =
    (0x84, 51)
    ∷ (0x88, 55)
    ∷ (0x90, 113)
    ∷ (0x94, 116)
    ∷ (0x98, 111)
    ∷ (0xA0, 100)
    ∷ (0xA4, 106)
    ∷ (0xAC, 122)
    ∷ (0xB0, 98)
    ∷ (0x85, 52)
    ∷ (0x89, 56)
    ∷ (0x91, 119)
    ∷ (0x95, 121)
    ∷ (0x99, 112)
    ∷ (0xA1, 102)
    ∷ (0xA5, 107)
    ∷ (0xAD, 120)
    ∷ (0xB1, 110)
    ∷ (0xB9, 32)
    ∷ (0x82, 49)
    ∷ (0x86, 53)
    ∷ (0x8A, 57)
    ∷ (0x92, 101)
    ∷ (0x96, 117)
    ∷ (0x9E, 97)
    ∷ (0xA2, 103)
    ∷ (0xA6, 108)
    ∷ (0xAE, 99)
    ∷ (0xB2, 109)
    ∷ (0x83, 50)
    ∷ (0x87, 54)
    ∷ (0x8B, 48)
    ∷ (0x93, 114)
    ∷ (0x97, 105)
    ∷ (0x9F, 115)
    ∷ (0xA3, 104)
    ∷ (0xAF, 118)
    ∷ (0x8C, 45)
    ∷ (0xA8, 39)
    ∷ (0xB4, 46)
    ∷ (0x8D, 61)
    ∷ (0xA9, 96)
    ∷ (0xB5, 47)
    ∷ (0x9A, 91)
    ∷ (0x9B, 93)
    ∷ (0xA7, 59)
    ∷ (0xAB, 92)
    ∷ (0xB3, 44)
    ∷ []

abbrev modifiers_pressed_entries : List (ℕ × ℕ)
modifiers_pressed_entries =
    (0x1C, 1)
    ∷ (0x01, 1)
    ∷ (0x0E, 1)
    ∷ (0x3A, 1)
    ∷ (0x2A, 1)
    ∷ (0x1D, 1)
    ∷ (0xFF + 0x48, 1)
    ∷ (0xFF + 0x50, 1)
    ∷ (0xFF + 0x4B, 1)
    ∷ (0xFF + 0x4D, 1)
    ∷ (0xFF + 0xC8, 1)
    ∷ (0xFF + 0xD0, 1)
    ∷ (0xFF + 0xCB, 1)
    ∷ (0xFF + 0xCD, 1)
    ∷ []

abbrev modifiers_released_entries : List (ℕ × ℕ)
modifiers_released_entries =
    (0x9C, 0x1C) ∷ (0x81, 0x01) ∷ (0x8E, 0x0E) ∷ (0xBA, 0x3A) ∷ (0xAA, 0x2A) ∷ (0x9D, 0x1D) ∷ []

-- The writes of a list, one after the other.
store_all : List (ℕ × ℕ) → (ℕ → ℕ) → ℕ → ℕ
store_all [] table = table
store_all ((index, value) ∷ entries) table = store_all entries (update table index value)

pub setup_char_table : Keyboard → Keyboard
unfolding store_all
setup_char_table keyboard = record {
  keys_pressed_map = store_all keys_pressed_entries keyboard.keys_pressed_map;
  keys_released_map = store_all keys_released_entries keyboard.keys_released_map;
  modifiers_pressed_map = store_all modifiers_pressed_entries keyboard.modifiers_pressed_map;
  modifiers_released_map = store_all modifiers_released_entries keyboard.modifiers_released_map;
}

abbrev pub read_table : (ℕ → ℕ) → ℕ → Run ℕ
read_table table index = if ltb index 512 then ok (table index) else fault

pub keycode_to_ascii : Keyboard → (keycode : ℕ) → (pressed : Bool) → Run ℕ
keycode_to_ascii keyboard keycode pressed =
    read_table (if pressed then keyboard.keys_pressed_map else keyboard.keys_released_map) keycode

pub modifier_supported : Keyboard → (key : ℕ) → (pressed : Bool) → Run Bool
modifier_supported keyboard key pressed = do
  entry ←
      read_table
        (if pressed then keyboard.modifiers_pressed_map else keyboard.modifiers_released_map) key
  ok (not (entry == 0))

-- The scan code: a code of two bytes stands after those of one.
pub scan_code : (first second : ℕ) → ℕ
scan_code first second = if first == 0xE0 then 0xFF + second else first

pub handle_key : Keyboard → (process key_raw : ℕ) → Scheduler → Run Scheduler
unfolding keycode_to_ascii modifier_supported
handle_key keyboard process key_raw s = do
  char_press ← keycode_to_ascii keyboard key_raw true
  if not (char_press == 0) then emit_event s process 1 char_press else do
    char_release ← keycode_to_ascii keyboard key_raw false
    if not (char_release == 0) then emit_event s process 2 char_release else do
      modifier_pressed ← modifier_supported keyboard key_raw true
      if modifier_pressed then emit_event s process 4 key_raw else do
        modifier_released ← modifier_supported keyboard key_raw false
        if modifier_released then emit_event s process 8 key_raw else ok s

pub handle_interrupt : Keyboard → (process first second : ℕ) → Scheduler → Run Scheduler
unfolding handle_key scan_code
handle_interrupt keyboard process first second s =
    handle_key keyboard process (scan_code first second) s

pub ascii_to_uppercase : ℕ → ℕ
ascii_to_uppercase character =
    if leb 97 character && leb character 122 then sub32 character 32 else character
