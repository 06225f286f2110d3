-- ===== src/Scheduler/Syscalls/Lifecycle.antt =====
-- System calls of kernel/src/cpp/scheduling/syscalls.cpp that ask for data, and that make and end
-- threads and processes.
pub mod Exit
use speedy_os.Common.{
  ℕ, ◌+◌, ◌*◌, ◌%◌, Bool, true, false, ◌||◌, List, [], ◌∷◌, none, some, ltb, ◌==◌, if◌then◌else◌,
  Run, ok, ◌>>=◌,
}
use speedy_os.HashMap.{hash_string_fnv1a}
use speedy_os.Paging.Memory.{read_virtual_memory}
use speedy_os.Scheduler.State.{Thread, Scheduler, load_process, lookup, physical_of}
use speedy_os.Scheduler.Lifecycle.{create_thread, kill_thread}
use speedy_os.Scheduler.Processes.{kill_process}
use speedy_os.Scheduler.Syscalls.{Reply, resume, halt, Caller, caller, set_eax}

-- ID 0.
pub nop : Scheduler → Run (Reply × Scheduler)
nop s = caller s >>= λ c. ok (resume, set_eax s c 3009)

-- ID 1: the time, the identifiers of the caller, and the resolution and depth of the screen.
pub query :
    (resolution_width resolution_height : ℕ) → Scheduler → (what : ℕ) → Run (Reply × Scheduler)
query resolution_width resolution_height s what = do
  c ← caller s
  ok (
    resume,
    if what == 0
        then set_eax s c s.elapsed_ms
        else if what == 1
        then set_eax s c c.process.id
        else if what == 2
        then set_eax s c c.thread.id
        else if what == 3
        then set_eax s c (resolution_width % 65536 * 65536 + resolution_height % 65536)
        else if what == 4
        then set_eax s c 32
        else s,
  )

-- ID 2: the calling process ends.
pub end_process : Scheduler → Run (Reply × Scheduler)
end_process s = do c ← caller s; s' ← kill_process s c.thread.process; ok (halt, s')

-- A name ends at its first zero byte.
pub c_string : List ℕ → List ℕ
c_string [] = []
c_string (b ∷ bytes) = if b == 0 then [] else b ∷ c_string bytes

-- ID 10: the process with the name that lies at an address of the caller.
pub find_process : Scheduler → (address size : ℕ) → Run (Reply × Scheduler)
find_process s address size = do
  c ← caller s
  if size == 0 || ltb 2048 size then ok (resume, set_eax s c 0) else do
    (read, bytes) ← read_virtual_memory c.process.directories address size false (physical_of s)
    if read
        then elim (lookup (hash_string_fnv1a (c_string bytes)) s.process_name_list) [
          | none ↦ ok (resume, set_eax s c 0)
          | some p ↦ load_process s p >>= λ process. ok (resume, set_eax s c process.id)
        ]
        else ok (resume, set_eax s c 0)

-- ID 14: what the hardware answers.
pub random : (value_available value : ℕ) → Scheduler → (what : ℕ) → Run (Reply × Scheduler)
random value_available value s what = do
  c ← caller s
  ok (
    resume,
    if what == 0 then set_eax s c value_available else if what == 1 then set_eax s c value else s,
  )

-- ID 15: a new thread of the calling process.
pub spawn_thread :
    (fuel : ℕ)
    → Scheduler
    → (entry capture : ℕ) → (t : ℕ) → (raw : Thread) → Run (Reply × Scheduler)
spawn_thread fuel s entry capture t raw = do
  c ← caller s
  (id, s') ← create_thread fuel s c.thread.process entry capture t raw
  c' ← caller s'
  ok (resume, set_eax s' c' id)

-- ID 16: the calling thread ends, or another one is killed.
unfoldable pub end_thread : Scheduler → (thread_id : ℕ) → Run (Reply × Scheduler)
end_thread s thread_id = do
  c ← caller s
  if thread_id == 0 || thread_id == c.thread.id
      then (kill_thread s c.address true >>= λ s'.
          ok (halt, record s' { current_thread = none; temporary_registers = none }))
      else elim (lookup thread_id s.thread_list) [
        | none ↦ ok (resume, set_eax s c 0)
        | some t ↦ kill_thread s t true >>= λ s'. caller s' >>= λ c'. ok (resume, set_eax s' c' 1)
      ]
