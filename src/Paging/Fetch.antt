-- ===== src/Paging/Fetch.antt =====
-- A page that has been given a table keeps it.

use speedy_os.Common.{
  ℕ, ◌+◌, ◌*◌, ◌/◌, ◌%◌, ◌<◌, ◌≡◌, ◌≢◌, inl, inr, refl, ap, ◌∙◌, Bool, true, false, some, add32,
  u32_mod, Bool-cases, ok, arith,
}
use speedy_os.Physical.{Physical}
use speedy_os.Physical.FirstFit.{AllFree}
use speedy_os.Paging.Fields.{
  present, entry_address, set_present, set_address, present-set_present,
  present-set_user_supervisor, entry_address-set_user_supervisor, entry_address-set_present,
  entry_address-set_address,
}
use speedy_os.Paging.Available.{lookup, lookup-memory}
use speedy_os.Paging.NewPage.{IsHeld, new_page, update-here, update-elsewhere}
use speedy_os.Paging.{
  address_to_pi, pi_to_address, directory_slot, table_word, write_word, fetch_page_index,
}

table_word-present : (word table : ℕ) → present (table_word word table) ≡ true
table_word-present word table =
    present-set_user_supervisor (set_present (set_address word (address_to_pi table)))
      (present-set_present (set_address word (address_to_pi table)))

table_word-address :
    (word table : ℕ)
    → table < u32_mod
    → table % 4096 ≡ 0
    → pi_to_address (entry_address (table_word word table)) ≡ table
unfolding pi_to_address address_to_pi
table_word-address word table h aligned =
    let w = set_address word (address_to_pi table) in
    let e : entry_address (table_word word table) ≡ table / 4096 =
      entry_address-set_user_supervisor (set_present w)
      ∙ entry_address-set_present w
      ∙ entry_address-set_address word (address_to_pi table) (omega arith) in
    rw e (omega arith)

-- After a call that may allocate: where the table is, and what the later calls answer.
pub record Fetched (directories index : ℕ) (p : Physical) (entry : ℕ) (p' : Physical) : Type 0 where
  pub table : ℕ
  pub located : entry ≡ add32 table (4 * (index % 1024))
  pub stable :
      (index' : ℕ) (allocate : Bool)
      → directory_slot directories index' ≡ directory_slot directories index
      → fetch_page_index directories index' allocate p'
        ≡ ok (some (add32 table (4 * (index' % 1024))), p')
  pub others :
      (index' : ℕ)
      → directory_slot directories index' ≢ directory_slot directories index
      → IsHeld p (directory_slot directories index')
      → lookup directories index' p' ≡ lookup directories index' p
  pub fresh : present (p.memory (directory_slot directories index)) ≡ false → p'.memory entry ≡ 0

module _ (directories index : ℕ) (p : Physical) where
  pub fetch_page_index-present :
      present (p.memory (directory_slot directories index)) ≡ true
      → (allocate : Bool) (index' : ℕ)
      → directory_slot directories index' ≡ directory_slot directories index
      → fetch_page_index directories index' allocate p
        ≡ ok (
          some (
              add32
                (pi_to_address (entry_address (p.memory (directory_slot directories index))))
                (4 * (index' % 1024))),
          p,
        )
  unfolding fetch_page_index
  fetch_page_index-present h allocate index' same = rw (same, h) refl

fetch_new-Fetched :
    (directories index target : ℕ) (p : Physical)
    → AllFree p.data_meta target 1
    → target < 1043967
    → IsHeld p (directory_slot directories index)
    → present (p.memory (directory_slot directories index)) ≡ false
    → (entry : ℕ) × (p' : Physical) × (fetch_page_index directories index true p
        ≡ ok (some entry, p'))
      × Fetched directories index p entry p'
unfolding fetch_page_index
fetch_new-Fetched directories index target p fit low held missing =
    let (table, q, new) = new_page target p fit low in
    let slot = directory_slot directories index in
    let word = table_word (q.memory slot) table in
    let q' = write_word q slot word in
    let here : q'.memory slot ≡ word = update-here q.memory slot word in
    let found : present (q'.memory slot) ≡ true =
      ap present here ∙ table_word-present (q.memory slot) table in
    let address : pi_to_address (entry_address (q'.memory slot)) ≡ table =
      ap (λ w. pi_to_address (entry_address w)) here
      ∙ table_word-address (q.memory slot) table (omega (arith, new.bounded)) new.aligned in
    let j = index % 1024 in
    let exact : add32 table (4 * j) ≡ table + 4 * j = omega (arith, new.bounded) in
    let off_slot : table + 4 * j ≢ slot =
      λ e. elim (new.apart slot held) [ inl l ↦ omega arith | inr l ↦ omega arith ] in
    (
      add32 table (4 * j),
      q',
      rw (missing, new.run) refl,
      record {
        table = table;
        located = refl;
        stable = λ index' allocate same.
            fetch_page_index-present directories index q' found allocate index' same
            ∙ ap (λ t. ok (some (add32 t (4 * (index' % 1024))), q')) address;
        others = λ index' apart held'. lookup-memory directories index' p q' (
            update-elsewhere q.memory slot word (directory_slot directories index') apart
            ∙ new.kept (directory_slot directories index') held');
        fresh = λ f.
            ap q'.memory exact
            ∙ update-elsewhere q.memory slot word (table + 4 * j) off_slot
            ∙ new.cleared j (omega arith);
      },
    )

-- Where a page is free below the end of the address space, a call with `allocate_directory`
-- returns an entry. From then on every page of the same directory entry is looked up in the same
-- table, without another allocation, and a page of another directory entry as before, if that
-- entry is not itself in a free page. The entry of a page without a table is empty.
pub fetch_page_index-Fetched :
    (directories index target : ℕ) (p : Physical)
    → AllFree p.data_meta target 1
    → target < 1043967
    → IsHeld p (directory_slot directories index)
    → (entry : ℕ) × (p' : Physical) × (fetch_page_index directories index true p
        ≡ ok (some entry, p'))
      × Fetched directories index p entry p'
unfolding fetch_page_index
fetch_page_index-Fetched directories index target p fit low held =
    elim (Bool-cases (present (p.memory (directory_slot directories index)))) [
      | inl t ↦ (
        _,
        p,
        rw t refl,
        record {
          table = pi_to_address (entry_address (p.memory (directory_slot directories index)));
          located = refl;
          stable = λ index' allocate same.
              fetch_page_index-present directories index p t allocate index' same;
          others = λ index' apart held'. refl;
          fresh = λ f. absurd cc;
        },
      )
      | inr f ↦ fetch_new-Fetched directories index target p fit low held f
    ]
