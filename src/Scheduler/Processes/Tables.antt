-- ===== src/Scheduler/Processes/Tables.antt =====
-- The tables with which a new process maps the first 100 MB, all of them.
use native.Mathlib.Decide.{dec_lt}
use speedy_os.Common.{
  ℕ, zero, suc, ◌+◌, ◌-◌, ◌*◌, ◌/◌, ◌≤◌, ◌<◌, ◌≡◌, ◌≢◌, refl, sym, ap, subst, ◌∙◌, inl, inr, Bool,
  true, false, some, get_elem?, ok, arith,
}
use speedy_os.Physical.{Physical, data_location}
use speedy_os.Physical.FirstFit.{AllFree}
use speedy_os.Physical.Alloc.{alloc_physical_page-at}
use speedy_os.Paging.{pi_to_address}
use speedy_os.Paging.NewPage.{IsHeld}
use speedy_os.Paging.Fields.{present, entry_address}
use speedy_os.Scheduler.Processes.{map_tables}
use speedy_os.Scheduler.Processes.Identity.{IsIdentity}
use speedy_os.Scheduler.Processes.Table.{
  directory_slot, Mapped, Effect, after_table, after_table-Effect, keep_mark, map_tables-round,
}

module _ (directories d : ℕ) (kernel_process : Bool)
    (at_page : directories ≡ data_location + d * 4096) (low : d < 1043967) where
  -- Rounds, one after the other.
  module _ (i l n : ℕ) (p q r : Physical)
      (first : Effect directories d kernel_process at_page low i l p q)
      (second : Effect directories d kernel_process at_page low l n q r) (small : n ≤ 1024)
      (above : l ≤ n) (dir : get_elem? p.data_meta d ≡ some true) where
    slot-IsHeld :
        (m : ℕ) → m < 1024 → IsHeld q (directory_slot directories d kernel_process at_page low m)
    slot-IsHeld m h =
        let e : d
            ≡ (directory_slot directories d kernel_process at_page low m - data_location) / 4096 =
          omega arith in
        inr (subst (λ j. get_elem? q.data_meta j ≡ some true) e (first.marks d dir))

    -- A table of the first rounds is as it was after the others.
    Mapped-first :
        (m : ℕ)
        → m < l
        → Mapped directories d kernel_process at_page low m p q
        → Mapped directories d kernel_process at_page low m p r
    Mapped-first m h mp =
        let slot_same : r.memory (directory_slot directories d kernel_process at_page low m)
            ≡ q.memory (directory_slot directories d kernel_process at_page low m) =
          second.kept (directory_slot directories d kernel_process at_page low m)
            (slot-IsHeld m (omega arith)) (λ m' a b. λ e. omega arith) in
        let apart : mp.frame ≢ d = λ e.
          let f : get_elem? p.data_meta d ≡ some false =
            subst (λ j. get_elem? p.data_meta j ≡ some false) e mp.was_free in
          absurd cc in
        record {
          frame = mp.frame;
          bounded = mp.bounded;
          was_free = mp.was_free;
          taken = second.marks mp.frame mp.taken;
          there = ap present slot_same ∙ mp.there;
          leads = ap (λ w. pi_to_address (entry_address w)) slot_same ∙ mp.leads;
          entries = λ j g.
              let b : ℕ = data_location + mp.frame * 4096 + 4 * j in
              let e : mp.frame ≡ (b - data_location) / 4096 = omega arith in
              let held : IsHeld q b =
                inr (subst (λ f. get_elem? q.data_meta f ≡ some true) e mp.taken) in
              let same : r.memory b ≡ q.memory b =
                second.kept b held (λ m' x y. λ e'. omega arith) in
              subst (IsIdentity (m * 1024 + j) kernel_process (p.memory b)) (sym same)
                (mp.entries j g);
        }

    Mapped-second :
        (m : ℕ)
        → Mapped directories d kernel_process at_page low m q r
        → Mapped directories d kernel_process at_page low m p r
    Mapped-second m mp = record {
      frame = mp.frame;
      bounded = mp.bounded;
      was_free = first.free mp.frame mp.was_free;
      taken = mp.taken;
      there = mp.there;
      leads = mp.leads;
      entries = λ j g.
          let b : ℕ = data_location + mp.frame * 4096 + 4 * j in
          let e : mp.frame ≡ (b - data_location) / 4096 = omega arith in
          let same : q.memory b ≡ p.memory b =
            first.untouched b (omega arith)
              (subst (λ f. get_elem? q.data_meta f ≡ some false) e mp.was_free) in
          subst (λ w. IsIdentity (m * 1024 + j) kernel_process w (r.memory b)) same
            (mp.entries j g);
    }

    Effect-trans : i ≤ l → Effect directories d kernel_process at_page low i n p r
    Effect-trans below = record {
      mapped = λ m a b. elim (dec_lt m l) [
        | yes h ↦ Mapped-first m h (first.mapped m a h)
        | no h ↦ Mapped-second m (second.mapped m (omega arith) b)
      ];
      marks = λ j e. second.marks j (first.marks j e);
      free = λ j e. first.free j (second.free j e);
      untouched =
          λ b low_b e. second.untouched b low_b e ∙ first.untouched b low_b (second.free _ e);
      kept = λ b held other.
          second.kept b (still_held b held) (λ m x y. other m (omega arith) y)
          ∙ first.kept b held (λ m x y. other m x (omega arith));
    }
      where
        still_held : (b : ℕ) → IsHeld p b → IsHeld q b
        still_held b (inl lower) = inl lower
        still_held b (inr e) = inr (first.marks _ e)

  Effect-none : (i : ℕ) (p : Physical) → Effect directories d kernel_process at_page low i i p p
  Effect-none i p = record {
    mapped = λ m a b. absurd (omega arith);
    marks = λ j e. e;
    free = λ j e. e;
    untouched = λ b low_b e. refl;
    kept = λ b held other. refl;
  }

  map_tables-Effect :
      (k i target : ℕ) (p : Physical)
      → get_elem? p.data_meta d ≡ some true
      → AllFree p.data_meta target k
      → target + k ≤ 1043967
      → i + k ≤ 1024
      → (p' : Physical) × (map_tables k i directories kernel_process p ≡ ok p')
        × Effect directories d kernel_process at_page low i (i + k) p p'
  unfolding map_tables
  map_tables-Effect zero i target p dir free bound small = (
    p,
    refl,
    subst (λ n. Effect directories d kernel_process at_page low i n p p) (omega arith)
        (Effect-none i p),
  )
  map_tables-Effect (suc k) i target p dir free bound small =
      let fit : AllFree p.data_meta target 1 = λ j h. free j (omega arith) in
      let (start, run, free1, first) = alloc_physical_page-at 1 false p target (omega arith) fit in
      let early : start ≤ target = elim (dec_lt target start) [
        | yes l ↦ absurd (first target l fit)
        | no n ↦ omega arith
      ] in
      let q =
        after_table directories d kernel_process at_page low i start p free1 dir (omega arith)
          (omega arith) in
      let round =
        after_table-Effect directories d kernel_process at_page low i start p free1 dir
          (omega arith) (omega arith) in
      let free_q : AllFree q.data_meta (target + 1) k = λ j h.
        keep_mark directories d kernel_process at_page low i start p free1 dir (omega arith)
          (omega arith) (target + 1 + j) (λ e. omega arith)
        ∙ subst (λ n. get_elem? p.data_meta n ≡ some false) (omega arith)
            (free (j + 1) (omega arith)) in
      let (r, rest, effect) =
        map_tables-Effect k (i + 1) (target + 1) q (round.marks d dir) free_q (omega arith)
          (omega arith) in
      (
        r,
        map_tables-round directories d kernel_process at_page low i start p free1 dir (omega arith)
              (omega arith) k run
            ∙ rest,
        subst (λ n. Effect directories d kernel_process at_page low i n p r) (omega arith)
            (Effect-trans i (i + 1) (i + 1 + k) p q r round effect (omega arith) (omega arith) dir
              (omega arith)),
      )

  -- The loop over the tables of a new process, `k` of them, which is 25 for the first 100 MB. The
  -- page of the directory is taken and lies below the end of the address space, `k` pages in a row
  -- are free below the end of the address space, and `k` is at most 1024. Then the loop returns.
  -- Each of the first `k` entries of the directory leads, present, to a table in a page that was
  -- free and is taken now. The entry `j` of the table `m` maps the page `m * 1024 + j` to the same
  -- physical page, present, writable, and open to the program exactly when the process is a kernel
  -- process; its kernel flags are those that the memory held before. Other words in use, and pages
  -- that were taken, are as they were.
  pub map_tables-Mapped :
      (k target : ℕ) (p : Physical)
      → get_elem? p.data_meta d ≡ some true
      → AllFree p.data_meta target k
      → target + k ≤ 1043967
      → k ≤ 1024
      → (p' : Physical) × (map_tables k 0 directories kernel_process p ≡ ok p')
        × ((m : ℕ) → m < k → Mapped directories d kernel_process at_page low m p p')
        × ((b : ℕ)
            → IsHeld p b
            → ((m : ℕ) → m < k → b ≢ directory_slot directories d kernel_process at_page low m)
            → p'.memory b ≡ p.memory b)
        × ((j : ℕ) → get_elem? p.data_meta j ≡ some true → get_elem? p'.data_meta j ≡ some true)
  map_tables-Mapped k target p dir free bound small =
      let (p', run, effect) = map_tables-Effect k 0 target p dir free bound (omega arith) in
      (
        p',
        run,
        λ m h. effect.mapped m (omega arith) (omega arith),
        λ b held other. effect.kept b held (λ m l h. other m (omega arith)),
        effect.marks,
      )
