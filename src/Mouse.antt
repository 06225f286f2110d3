-- ===== src/Mouse.antt =====
-- kernel/src/cpp/drivers/mouse/mouse.cpp: bytes of the mouse become events.
--
-- The driver's process is an address in the store of processes. What the ports give is an argument:
-- the first status, and for each round of the loop the data byte with the status read after it.
-- `int8_t` is a byte with its two's complement meaning.
pub mod Packets
mod Tests
use Prim.Native.Nat.{bit_and, bit_or}
use speedy_os.Common.{
  ℕ, suc, ◌+◌, ◌-◌, ◌*◌, ◌%◌, Bool, true, false, ◌&&◌, ◌||◌, not, List, [], ◌∷◌, ltb, ◌==◌,
  if◌then◌else◌, Run, ok, out_of_fuel, ◌>>=◌, add32,
}
use speedy_os.Scheduler.State.{Scheduler}
use speedy_os.Scheduler.Events.{emit_event}

pub record Mouse : Type 0 where
  pub left_button_pressed : Bool
  pub right_button_pressed : Bool
  pub middle_button_pressed : Bool

-- `MOUSE_BUTTONS`; the release of a button follows its press.
abbrev pub left_press : ℕ
left_press = 0

abbrev pub right_press : ℕ
right_press = 2

abbrev pub middle_press : ℕ
middle_press = 4

-- The magnitude of a signed byte, and whether it is positive.
abbrev pub byte_abs : ℕ → ℕ
byte_abs b = if ltb b 128 then b else 256 - b

abbrev pub is_positive : ℕ → Bool
is_positive b = not (b == 0) && ltb b 128

pub movement_data : (x y : ℕ) → ℕ
movement_data x y =
    let magnitudes = bit_or (byte_abs x * 256) (byte_abs y) in
    let with_x = if is_positive x then bit_or magnitudes 0x20000 else magnitudes in
    if is_positive y then bit_or with_x 0x10000 else with_x

-- One button: whether it is down now, and whether it was.
pub update_button : (process press : ℕ) → (down was_down : Bool) → Scheduler → Run Scheduler
update_button process press down was_down s =
    if down
    then (if not was_down then emit_event s process 1 press else ok s)
    else (if was_down then emit_event s process 2 (press + 1) else ok s)

pub update_buttons : (process byte : ℕ) → Mouse → Scheduler → Run (Mouse × Scheduler)
update_buttons process byte mouse s = do
  let left = not (bit_and byte 1 == 0)
  s1 ← update_button process left_press left mouse.left_button_pressed s
  let right = not (bit_and byte 2 == 0)
  s2 ← update_button process right_press right mouse.right_button_pressed s1
  let middle = not (bit_and byte 4 == 0)
  s3 ← update_button process middle_press middle mouse.middle_button_pressed s2
  ok (
    record {
      left_button_pressed = left;
      right_button_pressed = right;
      middle_button_pressed = middle;
    },
    s3,
  )

pub move : (process x y : ℕ) → Scheduler → Run Scheduler
move process x y s =
    if not (y == 0) || not (x == 0) then emit_event s process 4 (movement_data x y) else ok s

-- The loop: the status, the number of the packet, and the movement along X so far. The bytes that
-- the ports will give are its fuel.
pub packet_loop :
    (process status packet x : ℕ) → List (ℕ × ℕ) → Mouse → Scheduler → Run (Mouse × Scheduler)
packet_loop process status packet x [] mouse s =
    if bit_and status 1 == 0 then ok (mouse, s) else out_of_fuel
packet_loop process status packet x ((byte, next_status) ∷ bytes) mouse s =
    if bit_and status 1 == 0 then ok (mouse, s) else do
      (mouse', s') ←
          if packet == 0
          then update_buttons process byte mouse s
          else if packet == 2
          then (move process x byte s >>= λ s''. ok (mouse, s''))
          else ok (mouse, s)
      packet_loop process next_status (((packet + 1) % 256)) (if packet == 1 then byte else x) bytes
          mouse' s'

pub handle_interrupt :
    (process status : ℕ) → List (ℕ × ℕ) → Mouse → Scheduler → Run (Mouse × Scheduler)
handle_interrupt process status bytes mouse s = packet_loop process status 0 0 bytes mouse s
