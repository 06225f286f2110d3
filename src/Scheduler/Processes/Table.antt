-- ===== src/Scheduler/Processes/Table.antt =====
-- One round of the loop over the tables with which a new process maps the first 100 MB.

use speedy_os.Common.{
  ℕ, zero, suc, ◌+◌, ◌-◌, ◌*◌, ◌/◌, ◌%◌, ◌≤◌, ◌<◌, ◌≡◌, ◌≢◌, ◌⊎◌, ◌==◌, refl, sym, ap, subst, ◌∙◌,
  inl, inr, Bool, true, false, some, get_elem?, add32, ok, arith, ◌^◌,
}
use speedy_os.Physical.{Physical, data_location, page_address, alloc_physical_page, mark_blocks}
use speedy_os.Physical.FirstFit.{AllFree}
use speedy_os.Physical.Alloc.{alloc_at, get_elem?-mark_blocks_out, taken_after}
use speedy_os.Paging.{write_word, address_to_pi, pi_to_address}
use speedy_os.Paging.NewPage.{IsHeld, page_address-exact, update-here, update-elsewhere}
use speedy_os.Paging.Fields.{
  present, entry_address, set_present, set_address, present-set_present, entry_address-set_address,
}
use speedy_os.Scheduler.Processes.{map_entries, map_tables, identity_word}
use speedy_os.Scheduler.Processes.Identity.{IsIdentity, map_entries-IsIdentity}

-- The loop over the entries of a table writes to the table only.
map_entries-outside :
    (k j i tables : ℕ) (kernel_process : Bool) (p : Physical) (b : ℕ)
    → tables + 4096 ≤ 2 ^ 32
    → j + k ≤ 1024
    → (b < tables) ⊎ (tables + 4096 ≤ b)
    → (map_entries k j i tables kernel_process p).memory b ≡ p.memory b
unfolding map_entries
map_entries-outside zero j i tables kernel_process p b h l o = refl
map_entries-outside (suc k) j i tables kernel_process p b h l o =
    let slot = add32 tables (4 * j) in
    let word = identity_word (p.memory slot) (i * 1024 + j) kernel_process in
    map_entries-outside k (j + 1) i tables kernel_process (write_word p slot word) b h (omega arith)
      o
    ∙ update-elsewhere p.memory slot word b (λ e. omega arith)

data_meta-map_entries :
    (k j i tables : ℕ) (kernel_process : Bool) (p : Physical)
    → (map_entries k j i tables kernel_process p).data_meta ≡ p.data_meta
unfolding map_entries
data_meta-map_entries zero j i tables kernel_process p = refl
data_meta-map_entries (suc k) j i tables kernel_process p =
    data_meta-map_entries k (j + 1) i tables kernel_process (
      write_word p (add32 tables (4 * j))
        (identity_word (p.memory (add32 tables (4 * j))) (i * 1024 + j) kernel_process))

-- The entry of the directory leads to the table.
directory_word-table :
    (word table : ℕ)
    → table < 2 ^ 32
    → table % 4096 ≡ 0
    → (present (set_address (set_present word) (address_to_pi table)) ≡ true)
      × (pi_to_address (entry_address (set_address (set_present word) (address_to_pi table)))
          ≡ table)
unfolding address_to_pi pi_to_address
directory_word-table word table small aligned = (
  let e : set_address (set_present word) (address_to_pi table) % 2 ≡ set_present word % 2 =
        omega arith in
      ap (λ (n : ℕ). n == 1) e ∙ present-set_present word,
  rw (entry_address-set_address (set_present word) (table / 4096) (omega arith)) (omega arith),
)

module _ (directories d : ℕ) (kernel_process : Bool)
    (at_page : directories ≡ data_location + d * 4096) (low : d < 1043967) where
  abbrev pub directory_slot : ℕ → ℕ
  directory_slot m = add32 directories (4 * m)

  -- The entry `m` of the directory leads to a table in a page that was free and is taken, whose
  -- entries map the pages from `m * 1024` on to themselves.
  pub record Mapped (m : ℕ) (p p' : Physical) : Type 0 where
    pub frame : ℕ
    pub bounded : frame < 1043967
    pub was_free : get_elem? p.data_meta frame ≡ some false
    pub taken : get_elem? p'.data_meta frame ≡ some true
    pub there : present (p'.memory (directory_slot m)) ≡ true
    pub leads :
        pi_to_address (entry_address (p'.memory (directory_slot m))) ≡ data_location + frame * 4096
    pub entries :
        (j : ℕ)
        → j < 1024
        → IsIdentity
            (m * 1024 + j)
            kernel_process
            (p.memory (data_location + frame * 4096 + 4 * j))
            (p'.memory (data_location + frame * 4096 + 4 * j))

  -- What a round does, or several from the entry `i` of the directory up to `n`.
  pub record Effect (i n : ℕ) (p p' : Physical) : Type 0 where
    pub mapped : (m : ℕ) → i ≤ m → m < n → Mapped m p p'
    pub marks : (j : ℕ) → get_elem? p.data_meta j ≡ some true → get_elem? p'.data_meta j ≡ some true
    pub free :
        (j : ℕ) → get_elem? p'.data_meta j ≡ some false → get_elem? p.data_meta j ≡ some false
    pub untouched :
        (b : ℕ)
        → data_location ≤ b
        → get_elem? p'.data_meta ((b - data_location) / 4096) ≡ some false
        → p'.memory b ≡ p.memory b
    pub kept :
        (b : ℕ)
        → IsHeld p b
        → ((m : ℕ) → i ≤ m → m < n → b ≢ directory_slot m)
        → p'.memory b ≡ p.memory b

  -- One table.
  module _ (i start : ℕ) (p : Physical) (free : AllFree p.data_meta start 1)
      (dir : get_elem? p.data_meta d ≡ some true) (small : start < 1043967) (room : i < 1024) where
    abbrev table : ℕ
    table = data_location + start * 4096

    abbrev linked : Physical
    linked =
        let p1 = alloc_at 1 false p start in
        write_word p1 (directory_slot i)
          (set_address (set_present (p1.memory (directory_slot i))) (address_to_pi table))

    abbrev pub after_table : Physical
    after_table = map_entries 1024 0 i table kernel_process linked

    not_start : (j : ℕ) → get_elem? p.data_meta j ≡ some true → j ≢ start
    not_start j e same =
        let f = free 0 (omega arith) in
        let g : get_elem? p.data_meta (start + 0) ≡ some true =
          subst (λ n. get_elem? p.data_meta n ≡ some true) (omega arith) e in
        absurd cc

    bounded : table + 4096 ≤ 2 ^ 32
    bounded = omega arith

    slot_i : directory_slot i ≡ data_location + d * 4096 + 4 * i
    slot_i = omega arith

    slot_apart : (directory_slot i < table) ⊎ (table + 4096 ≤ directory_slot i)
    slot_apart = let n = not_start d dir in omega (arith, slot_i)

    marks_after : after_table.data_meta ≡ mark_blocks 1 p.data_meta start
    marks_after = data_meta-map_entries 1024 0 i table kernel_process linked

    taken_frame : get_elem? after_table.data_meta start ≡ some true
    taken_frame =
        subst (λ m. get_elem? m start ≡ some true) (sym marks_after)
          (taken_after 1 p.data_meta start free start (omega arith) (omega arith))

    pub keep_mark :
        (j : ℕ) → j ≢ start → get_elem? after_table.data_meta j ≡ get_elem? p.data_meta j
    keep_mark j n =
        ap (λ m. get_elem? m j) marks_after
        ∙ get_elem?-mark_blocks_out 1 p.data_meta start j (omega arith)

    -- A word outside the table that is not the entry of the directory.
    keep_word :
        (b : ℕ)
        → (b < table) ⊎ (table + 4096 ≤ b)
        → b ≢ directory_slot i
        → after_table.memory b ≡ p.memory b
    keep_word b apart n =
        map_entries-outside 1024 0 i table kernel_process linked b bounded (omega arith) apart
        ∙ update-elsewhere p.memory (directory_slot i)
            (set_address (set_present (p.memory (directory_slot i))) (address_to_pi table)) b n

    -- A word in use.
    held_apart : (b : ℕ) → IsHeld p b → (b < table) ⊎ (table + 4096 ≤ b)
    held_apart b (inl below) = inl (omega arith)
    held_apart b (inr e) = let n = not_start ((b - data_location) / 4096) e in omega arith

    directory_word : ℕ
    directory_word = set_address (set_present (p.memory (directory_slot i))) (address_to_pi table)

    at_slot : after_table.memory (directory_slot i) ≡ directory_word
    unfolding directory_word
    at_slot =
        map_entries-outside 1024 0 i table kernel_process linked (directory_slot i) bounded
          (omega arith) slot_apart
        ∙ update-here p.memory (directory_slot i) directory_word

    table_entry :
        (j : ℕ)
        → j < 1024
        → IsIdentity
            (i * 1024 + j)
            kernel_process
            (p.memory (table + 4 * j))
            (after_table.memory (table + 4 * j))
    table_entry j h =
        let exact : add32 table (4 * j) ≡ table + 4 * j = omega arith in
        let old : linked.memory (table + 4 * j) ≡ p.memory (table + 4 * j) =
          update-elsewhere p.memory (directory_slot i)
            (set_address (set_present (p.memory (directory_slot i))) (address_to_pi table))
            (table + 4 * j) (let a = slot_apart in λ e. omega arith) in
        let found = map_entries-IsIdentity i table kernel_process bounded linked j room h in
        subst (λ w. IsIdentity (i * 1024 + j) kernel_process w (after_table.memory (table + 4 * j)))
          old
          (subst
            (λ b. IsIdentity (i * 1024 + j) kernel_process (linked.memory b) (after_table.memory b))
            exact found)

    table-Mapped : Mapped i p after_table
    unfolding directory_word
    table-Mapped =
        let (a, b) =
          directory_word-table (p.memory (directory_slot i)) table (omega arith) (omega arith) in
        record {
          frame = start;
          bounded = small;
          was_free =
              subst (λ n. get_elem? p.data_meta n ≡ some false) (omega arith)
                (free 0 (omega arith));
          taken = taken_frame;
          there = ap present at_slot ∙ a;
          leads = ap (λ w. pi_to_address (entry_address w)) at_slot ∙ b;
          entries = table_entry;
        }

    pub map_tables-round :
        (k : ℕ)
        → alloc_physical_page 1 false p ≡ ok (page_address start, alloc_at 1 false p start)
        → map_tables (suc k) i directories kernel_process p
          ≡ map_tables k (i + 1) directories kernel_process after_table
    unfolding map_tables
    map_tables-round k run =
        let run' : alloc_physical_page 1 false p ≡ ok (table, alloc_at 1 false p start) =
          run ∙ ap (λ a. ok (a, alloc_at 1 false p start)) (page_address-exact start small) in
        rw run' refl

    -- A page that is still free is not the table's.
    free_not_start : (j : ℕ) → get_elem? after_table.data_meta j ≡ some false → j ≢ start
    free_not_start j e same =
        let f : get_elem? after_table.data_meta start ≡ some false =
          subst (λ n. get_elem? after_table.data_meta n ≡ some false) same e in
        let g = taken_frame in absurd cc

    free_not_d : (j : ℕ) → get_elem? after_table.data_meta j ≡ some false → j ≢ d
    free_not_d j e same =
        let f : get_elem? p.data_meta d ≡ some false =
          subst (λ n. get_elem? p.data_meta n ≡ some false) same
            (sym (keep_mark j (free_not_start j e)) ∙ e) in
        absurd cc

    pub after_table-Effect : Effect i (i + 1) p after_table
    after_table-Effect = record {
      mapped = λ m l h.
          let e : i ≡ m = omega arith in subst (λ n. Mapped n p after_table) e table-Mapped;
      marks = λ j e. keep_mark j (not_start j e) ∙ e;
      free = λ j e. sym (keep_mark j (free_not_start j e)) ∙ e;
      untouched = λ b low_b e.
          let n = free_not_start ((b - data_location) / 4096) e in
          let n' = free_not_d ((b - data_location) / 4096) e in
          let at = slot_i in keep_word b (omega arith) (λ same. omega arith);
      kept = λ b held other. keep_word b (held_apart b held) (other i (omega arith) (omega arith));
    }
