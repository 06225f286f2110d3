-- ===== src/Loader/Accepted.antt =====
-- Which program files are loaded.
use speedy_os.Common.{
  ℕ, ◌≡◌, ◌⊎◌, refl, ap, ◌∙◌, inl, inr, Bool, true, false, List, [], ◌∷◌, ◌++◌, none, ◌==◌,
  Bool-cases, ok, arith,
}
use speedy_os.Scheduler.State.{Thread, Process, Scheduler}
use speedy_os.Scheduler.Switch.Select.{All}
use speedy_os.Scheduler.Processes.{ProcessFlags}
use speedy_os.Loader.{
  Elf32Header, Elf32ProgramHeader, loadable, header_accepted, segments_accepted,
  load_elf32_executable_as_process,
}

-- An executable for 32-bit x86 with an entry point.
pub record IsExecutable (header : Elf32Header) : Type 0 where
  pub magic : header.magic_number ≡ 1179403647
  pub width : header.bits ≡ 1
  pub machine : header.architecture ≡ 3
  pub kind : header.elf_type ≡ 2
  pub entry : (header.virtual_entry_address == 0) ≡ false

-- There is a segment to load, and the first one is aligned to pages.
pub record FirstAligned (headers : List Elf32ProgramHeader) : Type 0 where
  pub before : List Elf32ProgramHeader
  pub first : Elf32ProgramHeader
  pub after : List Elf32ProgramHeader
  pub split : headers ≡ before ++ (first ∷ after)
  pub skipped : All (λ h. loadable h ≡ false) before
  pub found : loadable first ≡ true
  pub aligned : first.data_required_alignment ≡ 4096

segments_accepted-FirstAligned :
    (headers : List Elf32ProgramHeader) → segments_accepted headers ≡ true → FirstAligned headers
unfolding segments_accepted
segments_accepted-FirstAligned [] e = absurd cc
segments_accepted-FirstAligned (h ∷ headers) e = elim (Bool-cases (loadable h)) [
  | inl l ↦
      let a : (h.data_required_alignment == 4096) ≡ true = rw l at e in
      record {
        before = [];
        first = h;
        after = headers;
        split = refl;
        skipped = tt;
        found = l;
        aligned = ground arith;
      }
  | inr n ↦
      let rest : segments_accepted headers ≡ true = rw n at e in
      let f = segments_accepted-FirstAligned headers rest in
      record {
        before = h ∷ f.before;
        first = f.first;
        after = f.after;
        split = ap (λ hs. h ∷ hs) f.split;
        skipped = (n, f.skipped);
        found = f.found;
        aligned = f.aligned;
      }
]

FirstAligned-accepted :
    (before after : List Elf32ProgramHeader) (first : Elf32ProgramHeader)
    → All (λ h. loadable h ≡ false) before
    → loadable first ≡ true
    → first.data_required_alignment ≡ 4096
    → segments_accepted (before ++ (first ∷ after)) ≡ true
unfolding segments_accepted
FirstAligned-accepted [] after first skipped found aligned = rw found (ap (λ n. n == 4096) aligned)
FirstAligned-accepted (h ∷ before) after first (n, skipped) found aligned =
    rw n (FirstAligned-accepted before after first skipped found aligned)

true-false : {b : Bool} → b ≡ true → b ≡ false → ⊥
true-false {b} yes_it no_it = absurd cc

header_accepted-IsExecutable :
    (header : Elf32Header) → header_accepted header ≡ true → IsExecutable header
unfolding header_accepted
header_accepted-IsExecutable header e = record {
  magic = ground arith;
  width = ground arith;
  machine = ground arith;
  kind = ground arith;
  entry = ground arith;
}

IsExecutable-accepted : (header : Elf32Header) → IsExecutable header → header_accepted header ≡ true
unfolding header_accepted
IsExecutable-accepted header x =
    let m = x.magic in
    let w = x.width in let a = x.machine in let k = x.kind in let n = x.entry in ground arith

-- A file is either an executable whose first segment to load is aligned to pages, or it is refused:
-- then no process is made, and nothing is changed.
pub load-IsExecutable :
    (fuel : ℕ) (s : Scheduler) (name : List ℕ) (flags : ProcessFlags) (elf_start : ℕ)
    (header : Elf32Header) (headers : List Elf32ProgramHeader) (p : ℕ) (raw : Process) (t : ℕ)
    (raw_thread : Thread)
    → (IsExecutable header × FirstAligned headers)
      ⊎ ((load_elf32_executable_as_process fuel s name flags elf_start header headers p raw t
              raw_thread
            ≡ ok (none, s))
          × ¬ (IsExecutable header × FirstAligned headers))
unfolding load_elf32_executable_as_process
load-IsExecutable fuel s name flags elf_start header headers p raw t raw_thread =
    elim (Bool-cases (header_accepted header)) [
      | inr no_header ↦ inr (
        rw no_header refl,
        λ (x, f). absurd (true-false (IsExecutable-accepted header x) no_header),
      )
      | inl good_header ↦ elim (Bool-cases (segments_accepted headers)) [
        | inr no_segment ↦ inr (
          rw (good_header, no_segment) refl,
          λ (x, f).
              let again : segments_accepted headers ≡ true =
                ap segments_accepted f.split
                ∙ FirstAligned-accepted f.before f.after f.first f.skipped f.found f.aligned in
              absurd (true-false again no_segment),
        )
        | inl good_segment ↦ inl (
          header_accepted-IsExecutable header good_header,
          segments_accepted-FirstAligned headers good_segment,
        )
      ]
    ]
