-- ===== src/Paging/Memory.antt =====
-- kernel/src/cpp/paging/virtual.cpp: reads and writes of the memory of a process.
--
-- Bytes lie in the words of physical memory, the lowest first. `page_index + 1` and the like wrap.
pub mod Read
mod Tests
use speedy_os.Paging.Fields.{user_supervisor, read_write, kernel_flags, entry_address}
use speedy_os.Common.{
  ℕ, zero, suc, ◌+◌, ◌-◌, ◌*◌, ◌/◌, ◌%◌, ◌^◌, Bool, true, false, not, ◌&&◌, ◌||◌, List, [], ◌∷◌,
  ◌++◌, Option, none, some, ltb, leb, ◌==◌, if◌then◌else◌, take, drop, add32, Run, ok, fault,
  out_of_fuel, ◌>>=◌,
}
use speedy_os.Physical.{Physical}
use speedy_os.Paging.{address_to_pi, pi_to_address, fetch_page_index, write_word}

abbrev pub byte_at : Physical → (address : ℕ) → ℕ
byte_at p address = p.memory (address - address % 4) / 256 ^ (address % 4) % 256

abbrev pub set_byte : Physical → (address value : ℕ) → Physical
set_byte p address value =
    let word = p.memory (address - address % 4) in
    let unit = 256 ^ (address % 4) in
    write_word p (address - address % 4) (word - byte_at p address * unit + value % 256 * unit)

-- The two directions of `memcpy`.
pub read_bytes : (count : ℕ) → Physical → (address : ℕ) → List ℕ
read_bytes zero p address = []
read_bytes (suc k) p address = byte_at p address ∷ read_bytes k p (add32 address 1)

pub write_bytes : List ℕ → Physical → (address : ℕ) → Physical
write_bytes [] p address = p
write_bytes (b ∷ bytes) p address = write_bytes bytes (set_byte p address b) (add32 address 1)

-- Whether the kernel owns a page only.
abbrev pub is_owned : ℕ → Bool
is_owned word = kernel_flags word % 2 == 1

-- The physical page behind a virtual one, where the entry passes the check.
pub page_base : (check : ℕ → Bool) → (directories index : ℕ) → Physical → Run (Option ℕ)
page_base check directories index p = fetch_page_index directories index false p >>= λ (entry, p').
    elim entry [
      | none ↦ ok none
      | some e ↦
          ok
            (if check (p.memory e) then some (pi_to_address (entry_address (p.memory e))) else none)
    ]

-- The pages after the first: whole ones, and what remains, read at the offset of the start.
pub read_rest :
    ℕ
    → (directories index remaining_bytes offset : ℕ) → (allow_kernel_pages : Bool) → Physical
    → Run (Bool × List ℕ)
read_rest zero directories index remaining_bytes offset allow_kernel_pages p = out_of_fuel
read_rest (suc k) directories index remaining_bytes offset allow_kernel_pages p =
    let rest =
      read_rest k directories (add32 index 1) (remaining_bytes - 4096) offset allow_kernel_pages
        p in
    if remaining_bytes == 0
    then ok (true, [])
    else (page_base (λ w. allow_kernel_pages || is_owned w) directories index p >>= λ base.
        elim base [
          | none ↦ ok (false, [])
          | some physical ↦
              if leb 4096 remaining_bytes
              then (rest >>= λ (done, bytes). ok (done, read_bytes 4096 p physical ++ bytes))
              else ok (true, read_bytes remaining_bytes p (add32 physical offset))
        ])

-- The result, and the bytes written to `out`. A round of `read_rest` is for one page.
pub read_virtual_memory :
    (directories virtual_address_start size : ℕ)
    → (allow_kernel_pages : Bool) → Physical
    → Run (Bool × List ℕ)
read_virtual_memory directories virtual_address_start size allow_kernel_pages p =
    let offset = virtual_address_start % 4096 in
    let bytes_to_read = if ltb (4096 - offset) size then 4096 - offset else size in
    page_base (λ w. allow_kernel_pages || user_supervisor w) directories
      (address_to_pi virtual_address_start) p
    >>= λ base. elim base [
      | none ↦ ok (false, [])
      | some physical ↦ do
        (done, bytes) ←
            read_rest (size / 4096 + 1) directories (add32 (address_to_pi virtual_address_start) 1)
              (size - bytes_to_read) offset allow_kernel_pages p
        ok (done, read_bytes bytes_to_read p (add32 physical offset) ++ bytes)
    ]

-- The check of `count` pages before anything is written.
pub all_writable :
    (count : ℕ) → (directories index : ℕ) → (allow_kernel_pages : Bool) → Physical → Run Bool
all_writable zero directories index allow_kernel_pages p = ok true
all_writable (suc k) directories index allow_kernel_pages p =
    let rest = all_writable k directories (add32 index 1) allow_kernel_pages p in
    page_base (λ w. (allow_kernel_pages || is_owned w) && read_write w) directories index p
    >>= λ base. elim base [ none ↦ ok false | some physical ↦ rest ]

-- A page without an entry would be reached through a null pointer here.
pub known_page : (directories index : ℕ) → Physical → Run ℕ
known_page directories index p = page_base (λ w. true) directories index p >>= λ base. elim base [
  | none ↦ fault
  | some physical ↦ ok physical
]

pub write_rest :
    ℕ
    → (directories index : ℕ) → (bytes : List ℕ) → (remaining_bytes offset : ℕ) → Physical
    → Run Physical
write_rest zero directories index bytes remaining_bytes offset p = out_of_fuel
write_rest (suc k) directories index bytes remaining_bytes offset p =
    if remaining_bytes == 0
    then ok p
    else (known_page directories index p >>= λ physical.
        let rest =
          write_rest k directories (add32 index 1) (drop 4096 bytes) (remaining_bytes - 4096) offset
            (write_bytes (take 4096 bytes) p physical) in
        if leb 4096 remaining_bytes
        then rest
        else ok (write_bytes (take remaining_bytes bytes) p (add32 physical offset)))

one_if : Bool → ℕ
one_if b = if b then 1 else 0

pub write_virtual_memory :
    (directories virtual_address_start size : ℕ)
    → (buffer : List ℕ) → (allow_kernel_pages : Bool) → Physical
    → Run (Bool × Physical)
write_virtual_memory directories virtual_address_start size buffer allow_kernel_pages p =
    let offset = virtual_address_start % 4096 in
    let index = address_to_pi virtual_address_start in
    let bytes_to_write = if ltb (4096 - offset) size then 4096 - offset else size in
    let pages =
      size / 4096
      + one_if (not (offset == 0))
      + one_if (not (add32 virtual_address_start size % 4096 == 0)) in
    all_writable pages directories index allow_kernel_pages p >>= λ writable.
    if not writable then ok (false, p) else (do
      physical ← known_page directories index p
      let first = write_bytes (take bytes_to_write buffer) p (add32 physical offset)
      p' ←
          write_rest (size / 4096 + 1) directories (add32 index 1) (drop bytes_to_write buffer)
            (size - bytes_to_write) offset first
      ok (true, p'))
