-- ===== src/Keyboard/Tests.antt =====
-- The theorems on the keyboard at concrete scan codes.
use speedy_os.Common.{arith}
use speedy_os.Keyboard.Codes.{loaded, PressAndRelease, handle_interrupt-PressAndRelease}

-- The key `q`.
handle_interrupt-PressAndRelease_example : PressAndRelease loaded 0x10
handle_interrupt-PressAndRelease_example =
    handle_interrupt-PressAndRelease 0x10 (omega arith) (λ e. omega arith)
