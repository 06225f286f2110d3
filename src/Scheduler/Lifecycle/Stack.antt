-- ===== src/Scheduler/Lifecycle/Stack.antt =====
-- The pages of the stack of a new thread.
use speedy_os.Common.{ℕ, ◌+◌, ◌*◌, ◌%◌, ◌≡◌, ◌≢◌, ◌<◌, refl, ap, ◌∙◌, true, some, add32, ok, arith}
use speedy_os.Physical.{Physical}
use speedy_os.Paging.{address_to_pi, pi_to_address, directory_slot, write_word}
use speedy_os.Paging.Fields.{present, entry_address}
use speedy_os.Paging.NewPage.{update-here}
use speedy_os.Paging.Fetch.{fetch_page_index-present}
use speedy_os.Scheduler.Lifecycle.{stack_word, map_stack}

-- The address of the entry of a page, in the table that the directory has.
abbrev pub entry_of : (directories page : ℕ) → Physical → ℕ
entry_of directories page p =
    add32 (pi_to_address (entry_address (p.memory (directory_slot directories page))))
      (4 * (page % 1024))

entry_address-stack_word : (word pi : ℕ) → pi < 1048576 → entry_address (stack_word word pi) ≡ pi
entry_address-stack_word word pi h = ground arith

module _ (directories page stack : ℕ) (p : Physical)
    (there : present (p.memory (directory_slot directories page)) ≡ true)
    (apart : entry_of directories page p ≢ directory_slot directories page)
    (bound : address_to_pi stack + 1 < 1048576) where
  abbrev once : Physical
  once =
      write_word p (entry_of directories page p)
        (stack_word (p.memory (entry_of directories page p)) (address_to_pi stack + 0))

  abbrev twice : Physical
  twice =
      write_word once (entry_of directories page p)
        (stack_word (once.memory (entry_of directories page p)) (address_to_pi stack + 1))

  same_slot :
      once.memory (directory_slot directories page) ≡ p.memory (directory_slot directories page)
  same_slot = ground arith

  -- The two rounds of the loop that maps the stack write to the same entry, that of the first page,
  -- when its table is there: the entry ends with the second physical page, and the memory is else as
  -- it was, so no other page of the process gets mapped.
  pub map_stack-entry :
      (p' : Physical) × (map_stack 2 0 directories page stack p ≡ ok p')
      × (entry_address (p'.memory (entry_of directories page p)) ≡ address_to_pi stack + 1)
      × ((a : ℕ) → a ≢ entry_of directories page p → p'.memory a ≡ p.memory a)
  unfolding map_stack
  map_stack-entry =
      let first = fetch_page_index-present directories page p there true page refl in
      let second =
        fetch_page_index-present directories page once (ap present same_slot ∙ there) true page refl
        ∙ ap (λ w. ok (some (add32 (pi_to_address (entry_address w)) (4 * (page % 1024))), once))
            same_slot in
      let last =
        update-here once.memory (entry_of directories page p)
          (stack_word (once.memory (entry_of directories page p)) (address_to_pi stack + 1)) in
      (
        twice,
        rw first (rw second refl),
        ap entry_address last
            ∙ entry_address-stack_word (once.memory (entry_of directories page p))
                (address_to_pi stack + 1) bound,
        λ a n. ground arith,
      )
