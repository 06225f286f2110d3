-- ===== src/Scheduler/Syscalls/Pages/Words.antt =====
-- The entries that the system call writes for pages that are allocated on access.
use speedy_os.Common.{ℕ, ◌/◌, ◌%◌, ◌≡◌, ap, ◌∙◌, true, false, ◌==◌, arith}
use speedy_os.Paging.Fields.{
  present, is_dynamic, kernel_flags, put_present, set_address, set_user_supervisor, set_read_write,
  set_kernel_flags,
}

-- The entry of a page that is reserved: the process owns it, and memory comes on the first access.
pub record IsReserved (word : ℕ) : Type 0 where
  pub absent : present word ≡ false
  pub dynamic : is_dynamic word ≡ true
  pub owned : kernel_flags word ≡ 3

-- What the writes make of an entry, for ALLOCATE_ON_ACCESS without ALLOCATE_IMMEDIATELY.
abbrev pub reserved_word : ℕ → ℕ
reserved_word w =
    set_kernel_flags
      (set_kernel_flags (set_read_write (set_user_supervisor (set_address (put_present w false) 0)))
        1)
      3

kernel_flags-set_kernel_flags : (w : ℕ) → kernel_flags (set_kernel_flags w 3) ≡ 3
kernel_flags-set_kernel_flags w = omega arith

present-set_kernel_flags : (w f : ℕ) → present (set_kernel_flags w f) ≡ present w
present-set_kernel_flags w f = ap (λ r. r == 1) (omega arith)

present-put_present : (w : ℕ) → present (put_present w false) ≡ false
present-put_present w = ground arith

present-set_address : (w pi : ℕ) → present (set_address w pi) ≡ present w
present-set_address w pi = ap (λ r. r == 1) (omega arith)

present-set_user_supervisor : (w : ℕ) → present (set_user_supervisor w) ≡ present w
present-set_user_supervisor w = ground arith

present-set_read_write : (w : ℕ) → present (set_read_write w) ≡ present w
present-set_read_write w = ground arith

pub reserved_word-IsReserved : (w : ℕ) → IsReserved (reserved_word w)
reserved_word-IsReserved w =
    let w1 = put_present w false in
    let w2 = set_address w1 0 in
    let w3 = set_user_supervisor w2 in
    let w4 = set_read_write w3 in
    let w5 = set_kernel_flags w4 1 in
    let flags : kernel_flags (set_kernel_flags w5 3) ≡ 3 = kernel_flags-set_kernel_flags w5 in
    record {
      absent =
          present-set_kernel_flags w5 3
          ∙ present-set_kernel_flags w4 1
          ∙ present-set_read_write w3
          ∙ present-set_user_supervisor w2
          ∙ present-set_address w1 0
          ∙ present-put_present w;
      dynamic = ap (λ f. f / 2 % 2 == 1) flags;
      owned = flags;
    }
