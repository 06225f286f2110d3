-- ===== src/Paging/Fault.antt =====
-- Pages that are allocated when they are first accessed.
use speedy_os.Common.{
  ℕ, ◌+◌, ◌*◌, ◌/◌, ◌%◌, ◌<◌, ◌≡◌, ◌≢◌, ◌⊎◌, inl, inr, refl, ◌∙◌, Bool, true, false, not, ◌&&◌,
  ◌==◌, update, get_elem?, some, add32, u32_mod, Bool-cases, ok, arith,
}
use speedy_os.Physical.{Physical, data_location}
use speedy_os.Physical.FirstFit.{AllFree}
use speedy_os.Paging.Fields.{
  present, is_dynamic, entry_address, set_present, set_address, entry_address-set_address,
}
use speedy_os.Paging.NewPage.{IsHeld, new_page, update-here, update-elsewhere}
use speedy_os.Paging.{
  address_to_pi, pi_to_address, write_word, resumes, kills_process, handle_page_fault,
}

both : (a b : Bool) → (a && b) ≡ true → (a ≡ true) × (b ≡ true)
both true b e = (refl, e)
both false b e = absurd cc

false_of_not : (a : Bool) → not a ≡ true → a ≡ false
false_of_not true e = cc
false_of_not false e = refl

-- What the entry of a page becomes.
demanded_word : (word page : ℕ) → ℕ
demanded_word word page = set_address (set_present word) (address_to_pi page)

demanded_word-flags :
    (word page : ℕ) → present word ≡ false → demanded_word word page % 4096 ≡ word % 4096 + 1
unfolding demanded_word
demanded_word-flags word page h = ground arith

demanded_word-address :
    (word page : ℕ)
    → page < u32_mod
    → page % 4096 ≡ 0
    → pi_to_address (entry_address (demanded_word word page)) ≡ page
unfolding demanded_word pi_to_address address_to_pi
demanded_word-address word page h aligned =
    let e = entry_address-set_address (set_present word) (page / 4096) (omega arith) in
    rw e (omega arith)

module _ (directories directory_entry table_entry : ℕ) (p : Physical) where
  -- The two words that a fault reads.
  abbrev pub directory_word : ℕ
  directory_word = p.memory (add32 directories (4 * directory_entry))

  abbrev pub fault_entry : ℕ
  fault_entry = add32 (pi_to_address (entry_address directory_word)) (4 * table_entry)

  -- A page with a table whose entry asks for memory on the first access.
  abbrev pub is_demanded : Bool
  is_demanded =
      present directory_word
      && (not (present (p.memory fault_entry)) && is_dynamic (p.memory fault_entry))

  -- The thread goes on with a new page, cleared, in its entry, whose other bits are as they were.
  -- The page was free, is marked as taken, and no other page changes its mark.
  pub record Demanded (page : ℕ) (p' : Physical) : Type 0 where
    pub run : handle_page_fault directories directory_entry table_entry p ≡ ok (resumes, p')
    pub mapped : pi_to_address (entry_address (p'.memory fault_entry)) ≡ page
    pub frame : ℕ
    pub located : page ≡ data_location + frame * 4096
    pub was_free : get_elem? p.data_meta frame ≡ some false
    pub taken : get_elem? p'.data_meta frame ≡ some true
    pub rest : (j : ℕ) → j ≢ frame → get_elem? p'.data_meta j ≡ get_elem? p.data_meta j
    pub flags : p'.memory fault_entry % 4096 ≡ p.memory fault_entry % 4096 + 1
    pub cleared : (j : ℕ) → j < 1024 → p'.memory (page + 4 * j) ≡ 0
    pub others : (b : ℕ) → b ≢ fault_entry → IsHeld p b → p'.memory b ≡ p.memory b

  handle_page_fault-Demanded :
      (target : ℕ)
      → AllFree p.data_meta target 1
      → target < 1043967
      → IsHeld p fault_entry
      → is_demanded ≡ true
      → (page : ℕ) × (p' : Physical) × Demanded page p'
  unfolding handle_page_fault demanded_word
  handle_page_fault-Demanded target fit low held demanded =
      let (d, rest) =
        both (present directory_word)
          (not (present (p.memory fault_entry)) && is_dynamic (p.memory fault_entry)) demanded in
      let (absent, dynamic) =
        both (not (present (p.memory fault_entry))) (is_dynamic (p.memory fault_entry)) rest in
      let missing : present (p.memory fault_entry) ≡ false =
        false_of_not (present (p.memory fault_entry)) absent in
      let (page, q, new) = new_page target p fit low in
      let nonzero : (page == 0) ≡ false = ground (arith, new.above) in
      let kept = new.kept fault_entry held in
      let word = demanded_word (q.memory fault_entry) page in
      let here : update q.memory fault_entry word fault_entry ≡ word =
        update-here q.memory fault_entry word in
      (
        page,
        write_word q fault_entry word,
        record {
          run = rw (d, missing, dynamic, new.run, nonzero) refl;
          mapped = rw here (
              demanded_word-address (q.memory fault_entry) page (omega (arith, new.bounded))
                new.aligned);
          frame = new.frame;
          located = new.located;
          was_free = new.was_free;
          taken = new.taken;
          rest = new.rest;
          flags = rw (here, kept) (demanded_word-flags (p.memory fault_entry) page missing);
          cleared = λ j h.
              update-elsewhere q.memory fault_entry word (page + 4 * j) (λ e.
                elim (new.apart fault_entry held) [ inl l ↦ omega arith | inr l ↦ omega arith ])
              ∙ new.cleared j h;
          others = λ b apart held'.
              update-elsewhere q.memory fault_entry word b apart ∙ new.kept b held';
        },
      )

  handle_page_fault-kills :
      is_demanded ≡ false
      → handle_page_fault directories directory_entry table_entry p ≡ ok (kills_process, p)
  unfolding handle_page_fault
  handle_page_fault-kills refused = elim (Bool-cases (present directory_word)) [
    | inr d ↦ rw d refl
    | inl d ↦ elim (Bool-cases (present (p.memory fault_entry))) [
      | inl e ↦ rw (d, e) refl
      | inr e ↦
          let static : is_dynamic (p.memory fault_entry) ≡ false = rw (d, e) at refused in
          rw (d, e, static) refl
    ]
  ]

  -- Where a page is free below the end of the address space and the entry is not in a free page,
  -- the handler returns. If the entry asks for memory and has none, it gets a page that was free and
  -- that is marked as taken, no other mark being changed; the page is cleared, the flags of the
  -- entry are kept, and no other word that is in use changes; if not, the process is
  -- killed and the memory is as it was.
  pub handle_page_fault-outcome :
      (target : ℕ)
      → AllFree p.data_meta target 1
      → target < 1043967
      → IsHeld p fault_entry
      → ((is_demanded ≡ true) × (page : ℕ) × (p' : Physical) × Demanded page p')
        ⊎ ((is_demanded ≡ false)
            × (handle_page_fault directories directory_entry table_entry p ≡ ok (kills_process, p)))
  handle_page_fault-outcome target fit low held = elim (Bool-cases is_demanded) [
    | inl t ↦
        let (page, p', d) = handle_page_fault-Demanded target fit low held t in inl (t, page, p', d)
    | inr f ↦ inr (f, handle_page_fault-kills f)
  ]
