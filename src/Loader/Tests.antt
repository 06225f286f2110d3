-- ===== src/Loader/Tests.antt =====
-- A file that is not a program.
use speedy_os.Common.{◌≡◌, ◌⊎◌, false, [], ◌∷◌, none, ok}
use speedy_os.Scheduler.Fixtures.{driver, idle, worker}
use speedy_os.Scheduler.Processes.{ProcessFlags}
use speedy_os.Loader.{Elf32Header, Elf32ProgramHeader, load_elf32_executable_as_process}
use speedy_os.Loader.Accepted.{IsExecutable, FirstAligned, load-IsExecutable}

abbrev user_process : ProcessFlags
user_process = record { kernel_process = false; iopl_0 = false; virtual_process = false }

abbrev header : Elf32Header
header = record {
  magic_number = 1179403647;
  bits = 1;
  elf_type = 2;
  architecture = 3;
  virtual_entry_address = 0x0800_0000;
}

-- A segment that is aligned to 16 bytes only.
abbrev segment : Elf32ProgramHeader
segment = record {
  segment_type = 1;
  data_offset = 0x1000;
  virtual_start_address = 0x0800_0000;
  segment_size = 512;
  segment_memory_size = 512;
  writable = false;
  data_required_alignment = 16;
}

load-IsExecutable_example :
    (IsExecutable header × FirstAligned (segment ∷ []))
    ⊎ ((load_elf32_executable_as_process 9 idle
            (75 ∷ [])
            user_process
            0x0040_0000
            header
            (segment ∷ [])
            24
            driver
            48
            worker
          ≡ ok (none, idle))
        × ¬ (IsExecutable header × FirstAligned (segment ∷ [])))
load-IsExecutable_example =
    load-IsExecutable 9 idle (75 ∷ []) user_process 0x0040_0000 header (segment ∷ []) 24 driver 48
      worker
