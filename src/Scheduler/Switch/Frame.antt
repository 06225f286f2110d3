-- ===== src/Scheduler/Switch/Frame.antt =====
-- Where the event loop writes the words that the handler of an event finds on its stack.
use speedy_os.Common.{
  ℕ, ◌+◌, ◌-◌, ◌≤◌, ◌<◌, ◌≡◌, ◌≢◌, refl, ap, ◌∙◌, true, false, some, ◌==◌, u32_mod, sub32, arith,
}
use speedy_os.Scheduler.State.{Thread, ThreadEvent, Scheduler}
use speedy_os.Scheduler.Switch.{enter_event, physical_esp, deliver, write_frame}

-- For a stack pointer inside the two pages of the stack, the frame of the handler has the same place
-- in the physical stack.
physical_esp-eq :
    (thread : Thread) (esp : ℕ)
    → thread.virtual_stack + 8192 ≤ u32_mod
    → thread.physical_stack + 8192 ≤ u32_mod
    → thread.virtual_stack ≤ esp
    → esp < thread.virtual_stack + 8192
    → physical_esp thread esp ≡ thread.physical_stack + (esp - thread.virtual_stack)
unfolding physical_esp
physical_esp-eq thread esp h1 h2 h3 h4 = omega arith

-- The words of a frame that does not run over the end of the address space, and the others.
write_frame-words :
    (mem : ℕ → ℕ) (a : ℕ) (event : ThreadEvent)
    → a + 12 ≤ u32_mod
    → (write_frame mem a event a ≡ 0xd3ad_b33f)
      × (write_frame mem a event (a + 4) ≡ event.event_id)
      × (write_frame mem a event (a + 8) ≡ event.event_data)
      × ((b : ℕ) → b ≢ a → b ≢ a + 4 → b ≢ a + 8 → write_frame mem a event b ≡ mem b)
write_frame-words mem a event h =
    (ground arith, ground arith, ground arith, λ b n n4 n8. ground arith)

module _ (s : Scheduler) (event : ThreadEvent) (thread : Thread) where
  -- The physical address of the frame.
  abbrev pub frame : ℕ
  frame = thread.physical_stack + (thread.registers.esp - 12 - thread.virtual_stack)

  -- When an event is delivered to a thread whose two pages of stack, virtual and physical, lie in the
  -- address space, and whose stack pointer has room for 12 bytes above the start of the stack and is
  -- not behind its end, the thread goes on in the handler, its registers backed up and its stack
  -- pointer 12 lower. The physical memory of the stack at that place holds the return address, the
  -- event and its data, all within the stack, and no other word changes.
  pub deliver-write_frame :
      thread.virtual_stack + 8192 ≤ u32_mod
      → thread.physical_stack + 8192 ≤ u32_mod
      → thread.virtual_stack + 12 ≤ thread.registers.esp
      → thread.registers.esp ≤ thread.virtual_stack + 8192
      → ((entered : Thread) × ((deliver s event thread).threads event.thread ≡ some entered)
          × (entered.registers.eip ≡ event.handler)
          × (entered.registers.esp ≡ thread.registers.esp - 12)
          × (entered.backup_registers ≡ thread.registers)
          × (entered.processing_event ≡ true)
          × (entered.parked ≡ false))
        × (frame + 12 ≤ thread.physical_stack + 8192)
        × ((deliver s event thread).memory frame ≡ 0xd3ad_b33f)
        × ((deliver s event thread).memory (frame + 4) ≡ event.event_id)
        × ((deliver s event thread).memory (frame + 8) ≡ event.event_data)
        × ((b : ℕ)
            → b ≢ frame
            → b ≢ frame + 4
            → b ≢ frame + 8
            → (deliver s event thread).memory b ≡ s.memory b)
  unfolding deliver enter_event
  deliver-write_frame virtual physical low high =
      let esp : sub32 thread.registers.esp 12 ≡ thread.registers.esp - 12 = omega arith in
      let at : physical_esp thread (sub32 thread.registers.esp 12) ≡ frame =
        ap (physical_esp thread) esp
        ∙ physical_esp-eq thread (thread.registers.esp - 12) virtual physical (omega arith)
            (omega arith) in
      let memory : (b : ℕ)
          → (deliver s event thread).memory b ≡ write_frame s.memory frame event b =
        λ b. ap (λ a. write_frame s.memory a event b) at in
      let (w0, w4, w8, others) = write_frame-words s.memory frame event (omega arith) in
      let own : (event.thread == event.thread) ≡ true = ground arith in
      (
        (enter_event event thread, simp own refl, refl, esp, refl, refl, refl),
        omega arith,
        memory frame ∙ w0,
        memory (frame + 4) ∙ w4,
        memory (frame + 8) ∙ w8,
        λ b n n4 n8. memory b ∙ others b n n4 n8,
      )
