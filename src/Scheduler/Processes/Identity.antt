-- ===== src/Scheduler/Processes/Identity.antt =====
-- The entries of one of the tables with which a new process maps the first 100 MB.
use speedy_os.Common.{
  ℕ, zero, suc, ◌+◌, ◌*◌, ◌^◌, ◌≡◌, ◌≢◌, ◌<◌, ◌≤◌, refl, sym, ap, subst, Bool-cases, ◌∙◌, inl, inr,
  Bool, true, false, ◌==◌, add32, arith,
}
use speedy_os.Physical.{Physical}
use speedy_os.Paging.{write_word}
use speedy_os.Paging.NewPage.{update-here, update-elsewhere}
use speedy_os.Paging.Fields.{
  present, read_write, user_supervisor, kernel_flags, entry_address, set_present, set_read_write,
  clear_global, set_address, put_user_supervisor, present-set_present, entry_address-set_address,
}
use speedy_os.Scheduler.Processes.{identity_word, map_entries}

-- The fields of an entry that has been written.
pub record IsIdentity (pi : ℕ) (kernel_process : Bool) (old word : ℕ) : Type 0 where
  pub address : entry_address word ≡ pi
  pub is_present : present word ≡ true
  pub is_writable : read_write word ≡ true
  pub access : user_supervisor word ≡ kernel_process
  pub kept_flags : kernel_flags word ≡ kernel_flags old

-- What the writes of the single fields keep.
set_present-fields :
    (w : ℕ)
    → (entry_address (set_present w) ≡ entry_address w)
      × (kernel_flags (set_present w) ≡ kernel_flags w)
set_present-fields w = (ground arith, ground arith)

set_read_write-fields :
    (w : ℕ)
    → (entry_address (set_read_write w) ≡ entry_address w)
      × (kernel_flags (set_read_write w) ≡ kernel_flags w)
      × (present (set_read_write w) ≡ present w)
      × (read_write (set_read_write w) ≡ true)
set_read_write-fields w = (ground arith, ground arith, ground arith, ground arith)

clear_global-fields :
    (w : ℕ)
    → (entry_address (clear_global w) ≡ entry_address w)
      × (kernel_flags (clear_global w) ≡ kernel_flags w)
      × (present (clear_global w) ≡ present w)
      × (read_write (clear_global w) ≡ read_write w)
clear_global-fields w = (ground arith, ground arith, ground arith, ground arith)

put_user_supervisor-fields :
    (w : ℕ) (b : Bool)
    → (entry_address (put_user_supervisor w b) ≡ entry_address w)
      × (kernel_flags (put_user_supervisor w b) ≡ kernel_flags w)
      × (present (put_user_supervisor w b) ≡ present w)
      × (read_write (put_user_supervisor w b) ≡ read_write w)
put_user_supervisor-fields w true = (ground arith, ground arith, ground arith, ground arith)
put_user_supervisor-fields w false = (ground arith, ground arith, ground arith, ground arith)

user_supervisor-put_user_supervisor :
    (w : ℕ) (b : Bool) → user_supervisor (put_user_supervisor w b) ≡ b
user_supervisor-put_user_supervisor w true = ground arith
user_supervisor-put_user_supervisor w false = ground arith

kernel_flags-set_address : (w pi : ℕ) → kernel_flags (set_address w pi) ≡ kernel_flags w
kernel_flags-set_address w pi = omega arith

identity_word-IsIdentity :
    (pi : ℕ) (kernel_process : Bool) (old : ℕ)
    → pi < 1048576
    → IsIdentity pi kernel_process old (identity_word old pi kernel_process)
identity_word-IsIdentity pi b old h =
    let w1 = set_address old pi in
    let w2 = set_present w1 in
    let w3 = set_read_write w2 in
    let w4 = clear_global w3 in
    let (a2, f2) = set_present-fields w1 in
    let (a3, f3, p3, r3) = set_read_write-fields w2 in
    let (a4, f4, p4, r4) = clear_global-fields w3 in
    let (a5, f5, p5, r5) = put_user_supervisor-fields w4 b in
    record {
      address = a5 ∙ a4 ∙ a3 ∙ a2 ∙ entry_address-set_address old pi h;
      is_present = p5 ∙ p4 ∙ p3 ∙ present-set_present w1;
      is_writable = r5 ∙ r4 ∙ r3;
      access = user_supervisor-put_user_supervisor w4 b;
      kept_flags = f5 ∙ f4 ∙ f3 ∙ f2 ∙ kernel_flags-set_address old pi;
    }

module _ (i tables : ℕ) (kernel_process : Bool) (bound : tables + 4096 ≤ 2 ^ 32) where
  abbrev slot : ℕ → ℕ
  slot j = add32 tables (4 * j)

  abbrev written : (j : ℕ) → Physical → Physical
  written j p =
      write_word p (slot j) (identity_word (p.memory (slot j)) (i * 1024 + j) kernel_process)

  written-other :
      (j m : ℕ) (p : Physical)
      → j < 1024
      → m < 1024
      → m ≢ j
      → (written j p).memory (slot m) ≡ p.memory (slot m)
  written-other j m p h g n =
      let apart : slot m ≢ slot j = λ e. n (omega arith) in
      update-elsewhere p.memory (slot j)
        (identity_word (p.memory (slot j)) (i * 1024 + j) kernel_process) (slot m) apart

  map_entries-before :
      (k j m : ℕ) (p : Physical)
      → j + k ≤ 1024
      → m < j
      → (map_entries k j i tables kernel_process p).memory (slot m) ≡ p.memory (slot m)
  unfolding map_entries
  map_entries-before zero j m p h g = refl
  map_entries-before (suc k) j m p h g =
      map_entries-before k (j + 1) m (written j p) (omega arith) (omega arith)
      ∙ written-other j m p (omega arith) (omega arith) (omega arith)

  map_entries-within :
      (k j m : ℕ) (p : Physical)
      → j + k ≤ 1024
      → j ≤ m
      → m < j + k
      → (map_entries k j i tables kernel_process p).memory (slot m)
        ≡ identity_word (p.memory (slot m)) (i * 1024 + m) kernel_process
  unfolding map_entries
  map_entries-within zero j m p h g l = absurd (omega arith)
  map_entries-within (suc k) j m p h g l = elim (Bool-cases (m == j)) [
    | inl e ↦
        let same : m ≡ j = ground arith in
        let here =
          update-here p.memory (slot j)
            (identity_word (p.memory (slot j)) (i * 1024 + j) kernel_process) in
        rw same (map_entries-before k (j + 1) j (written j p) (omega arith) (omega arith) ∙ here)
    | inr n ↦
        let apart : m ≢ j = ground arith in
        let later : j < m = omega arith in
        map_entries-within k (j + 1) m (written j p) (omega arith) (omega arith) (omega arith)
        ∙ ap (λ w. identity_word w (i * 1024 + m) kernel_process)
            (written-other j m p (omega arith) (omega arith) apart)
  ]

  -- The loop over the entries of the table `i`, when the table does not run over the end of the
  -- address space: each entry maps its page to the same physical page, present, writable, and open
  -- to the program exactly when the process is a kernel process; its kernel flags are those that the
  -- memory held before.
  pub map_entries-IsIdentity :
      (p : Physical) (j : ℕ)
      → i < 1024
      → j < 1024
      → IsIdentity
          (i * 1024 + j)
          kernel_process
          (p.memory (add32 tables (4 * j)))
          ((map_entries 1024 0 i tables kernel_process p).memory (add32 tables (4 * j)))
  map_entries-IsIdentity p j h g =
      subst (IsIdentity (i * 1024 + j) kernel_process (p.memory (slot j)))
        (sym (map_entries-within 1024 0 j p (omega arith) (omega arith) (omega arith)))
        (identity_word-IsIdentity (i * 1024 + j) kernel_process (p.memory (slot j)) (omega arith))
