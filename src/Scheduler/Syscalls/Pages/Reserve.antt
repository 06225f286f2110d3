-- ===== src/Scheduler/Syscalls/Pages/Reserve.antt =====
-- The loop of the system call on pages that are allocated on access: it reserves each of them.

use speedy_os.Common.{
  ℕ, zero, suc, ◌+◌, ◌*◌, ◌/◌, ◌%◌, ◌^◌, ◌≡◌, ◌≢◌, ◌<◌, ◌≤◌, ◌⊎◌, refl, sym, ap, subst, ◌∙◌, inl,
  inr, true, false, ◌==◌, Bool-cases, some, add32, ok, arith,
}
use speedy_os.Physical.{Physical}
use speedy_os.Paging.{pi_to_address, directory_slot, fetch_page_index}
use speedy_os.Paging.NewPage.{update-here}
use speedy_os.Paging.Fetch.{fetch_page_index-present}
use speedy_os.Paging.Fields.{
  present, entry_address, put_present, set_address, set_user_supervisor, set_read_write,
  set_kernel_flags,
}
use speedy_os.Scheduler.Syscalls.Pages.Words.{IsReserved, reserved_word, reserved_word-IsReserved}
use speedy_os.Scheduler.Syscalls.Pages.{has_flag, modify, allocate_page, allocate_loop}

-- The two writes to an entry.
abbrev pub reserve : (e : ℕ) → Physical → Physical
reserve e p = modify (modify p e (λ w. put_present w false)) e (λ w.
    set_kernel_flags (set_kernel_flags (set_read_write (set_user_supervisor (set_address w 0))) 1)
      3)

reserve-here : (e : ℕ) (p : Physical) → (reserve e p).memory e ≡ reserved_word (p.memory e)
reserve-here e p =
    let q = modify p e (λ w. put_present w false) in
    let f : ℕ → ℕ = λ w.
      set_kernel_flags (set_kernel_flags (set_read_write (set_user_supervisor (set_address w 0))) 1)
        3 in
    update-here q.memory e (f (q.memory e))
    ∙ ap f (update-here p.memory e (put_present (p.memory e) false))

reserve-elsewhere : (e b : ℕ) (p : Physical) → b ≢ e → (reserve e p).memory b ≡ p.memory b
reserve-elsewhere e b p n = ground arith

module _ (directories start count flags table : ℕ) (later : has_flag flags 2 ≡ false)
    (on_access : has_flag flags 1 ≡ true) (one_table : start % 1024 + count ≤ 1024)
    (low : start + count ≤ 1048576) (bound : table + 4096 ≤ 2 ^ 32) where
  abbrev slot : ℕ
  slot = directory_slot directories start

  -- The address of the entry of the page `j`.
  abbrev pub entry : ℕ → ℕ
  entry j = table + 4 * (start % 1024 + j)

  -- The directory has the table.
  abbrev pub HasTable : Physical → Type 0
  HasTable p =
      (present (p.memory slot) ≡ true) × (pi_to_address (entry_address (p.memory slot)) ≡ table)

  abbrev pub reserve_all : ℕ → (i : ℕ) → Physical → Physical
  reserve_all zero i p = p
  reserve_all (suc k) i p = reserve_all k (i + 1) (reserve (entry i) p)

  allocate_page-reserve : (e : ℕ) (p : Physical) → allocate_page e flags p ≡ ok (reserve e p)
  unfolding allocate_page
  allocate_page-reserve e p = rw later (rw on_access refl)

  fetch-entry :
      (j : ℕ) (p : Physical)
      → j < count
      → HasTable p
      → fetch_page_index directories (add32 start j) true p ≡ ok (some (entry j), p)
  fetch-entry j p h (there, at_table) =
      let index : add32 start j ≡ start + j = omega arith in
      let group : (start + j) / 1024 ≡ start / 1024 = omega arith in
      let same : directory_slot directories (add32 start j) ≡ slot =
        ap (λ n. add32 directories (4 * (n / 1024))) index
        ∙ ap (λ n. add32 directories (4 * n)) group in
      let exact : add32 table (4 * (add32 start j % 1024)) ≡ entry j = omega arith in
      fetch_page_index-present directories start p there true (add32 start j) same
      ∙ ap (λ t. ok (some (add32 t (4 * (add32 start j % 1024))), p)) at_table
      ∙ ap (λ e. ok (some e, p)) exact

  module _ (apart : (slot < table) ⊎ (table + 4096 ≤ slot)) where
    off_slot : (j : ℕ) → j < count → slot ≢ entry j
    off_slot j h e = elim apart [ inl l ↦ omega arith | inr l ↦ omega arith ]

    HasTable-reserve :
        (j : ℕ) (p : Physical) → j < count → HasTable p → HasTable (reserve (entry j) p)
    HasTable-reserve j p h (there, at_table) =
        let same = reserve-elsewhere (entry j) slot p (off_slot j h) in
        (ap present same ∙ there, ap (λ w. pi_to_address (entry_address w)) same ∙ at_table)

    pub allocate_loop-reserve_all :
        (k i : ℕ) (p : Physical)
        → i + k ≤ count
        → HasTable p
        → (allocate_loop k i directories start flags p ≡ ok (reserve_all k i p))
          × HasTable (reserve_all k i p)
    unfolding allocate_loop
    allocate_loop-reserve_all zero i p h t = (refl, t)
    allocate_loop-reserve_all (suc k) i p h t =
        let (rest, t') =
          allocate_loop-reserve_all k (i + 1) (reserve (entry i) p) (omega arith)
            (HasTable-reserve i p (omega arith) t) in
        (rw (fetch-entry i p (omega arith) t) (rw (allocate_page-reserve (entry i) p) rest), t')

  reserve_all-elsewhere :
      (k i : ℕ) (p : Physical) (b : ℕ)
      → (b < entry i) ⊎ (entry (i + k) ≤ b)
      → (reserve_all k i p).memory b ≡ p.memory b
  reserve_all-elsewhere zero i p b h = refl
  reserve_all-elsewhere (suc k) i p b h =
      let out : (b < entry (i + 1)) ⊎ (entry (i + 1 + k) ≤ b) = elim h [
        | inl l ↦ inl (omega arith)
        | inr l ↦ inr (omega arith)
      ] in
      let apart : b ≢ entry i = λ e. elim h [ inl l ↦ omega arith | inr l ↦ omega arith ] in
      reserve_all-elsewhere k (i + 1) (reserve (entry i) p) b out
      ∙ reserve-elsewhere (entry i) b p apart

  pub reserve_all-within :
      (k i j : ℕ) (p : Physical)
      → i ≤ j
      → j < i + k
      → IsReserved ((reserve_all k i p).memory (entry j))
  reserve_all-within zero i j p h l = absurd (omega arith)
  reserve_all-within (suc k) i j p h l = elim (Bool-cases (i == j)) [
    | inl e ↦
        let same : i ≡ j = ground arith in
        let before : entry j < entry (i + 1) = omega (arith, same) in
        let here : (reserve_all k (i + 1) (reserve (entry i) p)).memory (entry j)
            ≡ reserved_word (p.memory (entry i)) =
          reserve_all-elsewhere k (i + 1) (reserve (entry i) p) (entry j) (inl before)
          ∙ ap (λ m. (reserve (entry i) p).memory (entry m)) (sym same)
          ∙ reserve-here (entry i) p in
        subst IsReserved (sym here) (reserved_word-IsReserved (p.memory (entry i)))
    | inr n ↦
        let later_one : i < j = ground arith in
        reserve_all-within k (i + 1) j (reserve (entry i) p) (omega arith) (omega arith)
  ]

  pub data_meta-reserve_all : (k i : ℕ) (p : Physical) → (reserve_all k i p).data_meta ≡ p.data_meta
  data_meta-reserve_all zero i p = refl
  data_meta-reserve_all (suc k) i p = data_meta-reserve_all k (i + 1) (reserve (entry i) p)
