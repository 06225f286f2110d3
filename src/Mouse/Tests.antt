-- ===== src/Mouse/Tests.antt =====
-- The theorem on the mouse at a concrete packet.
use speedy_os.Common.{ok, ◌≡◌, [], ◌∷◌, ◌++◌, true, false, ◌>>=◌}
use speedy_os.Scheduler.Fixtures.{idle}
use speedy_os.Mouse.{Mouse, handle_interrupt}
use speedy_os.Mouse.Packets.{emit_all, buttons, changes, movement, handle_interrupt-packet}

abbrev right_down : Mouse
right_down = record {
  left_button_pressed = false;
  right_button_pressed = true;
  middle_button_pressed = false;
}

-- The left button goes down and the right one up, with a movement by 5 and -2.
handle_interrupt-packet_example :
    handle_interrupt 8 1 ((9, 1) ∷ (5, 1) ∷ (254, 0) ∷ []) right_down idle ≡ (
      emit_all 8 (changes (buttons 9) right_down ++ movement 5 254) idle >>= λ s. ok (buttons 9, s))
handle_interrupt-packet_example = handle_interrupt-packet 8 9 5 254 right_down idle
