-- ===== src/Paging/Fields.antt =====
-- kernel/src/cpp/paging/paging.h: the bit fields of the entries of directories and tables.
use speedy_os.Common.{ℕ, ◌+◌, ◌-◌, ◌*◌, ◌/◌, ◌%◌, Bool, true, ◌==◌, if◌then◌else◌, ◌≡◌, ◌<◌, arith}

abbrev pub present : ℕ → Bool
present word = word % 2 == 1

abbrev pub user_supervisor : ℕ → Bool
user_supervisor word = word / 4 % 2 == 1

abbrev pub read_write : ℕ → Bool
read_write word = word / 2 % 2 == 1

-- Bits 9 to 11.
abbrev pub kernel_flags : ℕ → ℕ
kernel_flags word = word / 512 % 8

-- The second of the flags.
abbrev pub is_dynamic : ℕ → Bool
is_dynamic word = kernel_flags word / 2 % 2 == 1

abbrev pub entry_address : ℕ → ℕ
entry_address word = word / 4096

abbrev pub set_present : ℕ → ℕ
set_present word = if present word then word else word + 1

abbrev pub set_read_write : ℕ → ℕ
set_read_write word = if read_write word then word else word + 2

abbrev pub set_user_supervisor : ℕ → ℕ
set_user_supervisor word = if user_supervisor word then word else word + 4

-- The field has 20 bits.
abbrev pub set_address : (word pi : ℕ) → ℕ
set_address word pi = pi % 1048576 * 4096 + word % 4096

abbrev pub clear_present : ℕ → ℕ
clear_present word = if present word then word - 1 else word

abbrev pub clear_global : ℕ → ℕ
clear_global word = if word / 256 % 2 == 1 then word - 256 else word

-- A write of a computed bit.
abbrev pub put_present : (word : ℕ) → Bool → ℕ
put_present word bit = if bit then set_present word else clear_present word

abbrev pub put_user_supervisor : (word : ℕ) → Bool → ℕ
put_user_supervisor word bit =
    if bit then set_user_supervisor word else if user_supervisor word then word - 4 else word

abbrev pub set_kernel_flags : (word flags : ℕ) → ℕ
set_kernel_flags word flags = word / 4096 * 4096 + flags % 8 * 512 + word % 512

pub present-set_present : (w : ℕ) → present (set_present w) ≡ true
present-set_present w = ground arith

-- What a field is after the writes of the others.
pub present-set_user_supervisor :
    (w : ℕ) → present w ≡ true → present (set_user_supervisor w) ≡ true
present-set_user_supervisor w h = ground arith

pub entry_address-set_user_supervisor :
    (w : ℕ) → entry_address (set_user_supervisor w) ≡ entry_address w
entry_address-set_user_supervisor w = ground arith

pub entry_address-set_present : (w : ℕ) → entry_address (set_present w) ≡ entry_address w
entry_address-set_present w = ground arith

pub entry_address-set_address : (w pi : ℕ) → pi < 1048576 → entry_address (set_address w pi) ≡ pi
entry_address-set_address w pi h = omega arith
