-- ===== src/Keyboard/Codes.antt =====
-- The events of the scan codes.
use speedy_os.Common.{
  ℕ, zero, suc, ◌+◌, ◌-◌, ◌<◌, ◌≡◌, ◌≢◌, refl, ◌⊎◌, inl, inr, Bool, true, ◌&&◌, ◌||◌, not, leb,
  ◌==◌, if◌then◌else◌, Bool-cases, arith, ok, subst,
}
use speedy_os.Scheduler.State.{Scheduler}
use speedy_os.Scheduler.Events.{emit_event}
use speedy_os.Keyboard.{
  Keyboard, setup_char_table, store_all, keycode_to_ascii, modifier_supported, scan_code,
  handle_key, handle_interrupt,
}

-- The tables are static, so zero, before they are set up.
abbrev pub loaded : Keyboard
unfolding setup_char_table store_all
loaded = setup_char_table (record {
  keys_pressed_map = λ k. 0;
  keys_released_map = λ k. 0;
  modifiers_pressed_map = λ k. 0;
  modifiers_released_map = λ k. 0;
})

-- A test of each number below a bound.
all_below : ℕ → (ℕ → Bool) → Bool
all_below zero test = true
all_below (suc n) test = test n && all_below n test

all_below-at : (n : ℕ) (test : ℕ → Bool) → all_below n test ≡ true → (i : ℕ) → i < n → test i ≡ true
unfolding all_below
all_below-at zero test h i lt = absurd (omega arith)
all_below-at (suc n) test h i lt = elim (Bool-cases (i == n)) [
  | inl e ↦
      let same : n ≡ i = ground arith in
      let here : test n ≡ true = ground arith in subst (λ j. test j ≡ true) same here
  | inr e ↦ all_below-at n test (ground arith) i (ground arith)
]

module _ (keyboard : Keyboard) where
  -- What the tables say of a code and of the code with bit 7 set.
  matches : ℕ → Bool
  matches code =
      (keyboard.keys_released_map code == 0)
      && (keyboard.keys_pressed_map (code + 128) == 0)
      && (keyboard.keys_released_map (code + 128) == keyboard.keys_pressed_map code)
      && (keyboard.modifiers_released_map code == 0)
      && (keyboard.modifiers_pressed_map (code + 128) == 0)
      && (if keyboard.modifiers_pressed_map code == 0
          then keyboard.modifiers_released_map (code + 128) == 0
          else not (keyboard.modifiers_released_map (code + 128) == 0))

  -- The scan code makes the keyboard's process send an event.
  pub Sends : (code id event_data : ℕ) → Type 0
  Sends code id event_data =
      (process second : ℕ) (s : Scheduler)
      → handle_interrupt keyboard process code second s ≡ emit_event s process id event_data

  pub Ignored : (code : ℕ) → Type 0
  Ignored code =
      (process second : ℕ) (s : Scheduler) → handle_interrupt keyboard process code second s ≡ ok s

  -- The events of a code and of the code with bit 7 set: those of a character, where the table of
  -- pressed keys has one for the code, those of a modifier key, where the table of pressed modifiers
  -- has the code, and none, where neither has.
  pub PressAndRelease : (code : ℕ) → Type 0
  PressAndRelease code =
      ((keyboard.keys_pressed_map code ≢ 0)
        × Sends code 1 (keyboard.keys_pressed_map code)
        × Sends (code + 128) 2 (keyboard.keys_pressed_map code))
      ⊎ (((keyboard.keys_pressed_map code ≡ 0)
            × (keyboard.modifiers_pressed_map code ≢ 0)
            × Sends code 4 code
            × Sends (code + 128) 8 (code + 128))
          ⊎ ((keyboard.keys_pressed_map code ≡ 0)
              × (keyboard.modifiers_pressed_map code ≡ 0)
              × Ignored code
              × Ignored (code + 128)))

  matches-PressAndRelease :
      (code : ℕ) → code < 128 → code ≢ 0x60 → matches code ≡ true → PressAndRelease code
  unfolding matches PressAndRelease Sends Ignored handle_interrupt scan_code handle_key
      keycode_to_ascii modifier_supported
  matches-PressAndRelease code h n t = elim (Bool-cases (keyboard.keys_pressed_map code == 0)) [
    | inr e ↦ inl (ground arith, λ process second s. ground arith, λ process second s. ground arith)
    | inl e ↦ elim (Bool-cases (keyboard.modifiers_pressed_map code == 0)) [
      | inr e' ↦ inr (
          inl (
            ground arith,
            ground arith,
            λ process second s. ground arith,
            λ process second s. ground arith,
          ))
      | inl e' ↦ inr (
          inr (
            ground arith,
            ground arith,
            λ process second s. ground arith,
            λ process second s. ground arith,
          ))
    ]
  ]

loaded-matches : all_below 128 (matches loaded) ≡ true
unfolding all_below matches loaded setup_char_table store_all
loaded-matches = refl

-- For a key whose code is one byte below 128 and not 0x60, with which the release would be the prefix
-- 0xE0 of the codes of two bytes: pressing it and releasing it, which sets bit 7 of the code, send
-- the events 1 and 2 with the same character if the table of pressed keys has one for the code, the
-- events 4 and 8 with the two codes if the table of pressed modifiers has the code, and nothing if
-- neither has. Keys behind the prefix, as the cursor keys, are not among these.
pub handle_interrupt-PressAndRelease :
    (code : ℕ) → code < 128 → code ≢ 0x60 → PressAndRelease loaded code
handle_interrupt-PressAndRelease code h n =
    matches-PressAndRelease loaded code h n
      (all_below-at 128 (matches loaded) loaded-matches code h)

-- The codes of the cursor keys after the prefix, as pressed and as released.
abbrev pub is_cursor : ℕ → Bool
is_cursor second =
    let code = if leb 128 second then second - 128 else second in
    (code == 0x48) || (code == 0x50) || (code == 0x4B) || (code == 0x4D)

-- What the tables say of a code after the prefix.
extended_matches : ℕ → Bool
extended_matches second =
    (loaded.keys_pressed_map (0xFF + second) == 0)
    && (loaded.keys_released_map (0xFF + second) == 0)
    && (loaded.modifiers_released_map (0xFF + second) == 0)
    && (if is_cursor second
        then not (loaded.modifiers_pressed_map (0xFF + second) == 0)
        else loaded.modifiers_pressed_map (0xFF + second) == 0)

loaded-extended_matches : all_below 256 extended_matches ≡ true
unfolding all_below extended_matches loaded setup_char_table store_all
loaded-extended_matches = refl

-- After the prefix 0xE0 each byte is handled within the tables: the four cursor keys send the event
-- 4, for their release as for their press, and no other byte sends an event.
pub handle_interrupt-extended :
    (second : ℕ)
    → second < 256
    → (process : ℕ) (s : Scheduler)
    → handle_interrupt loaded process 0xE0 second s
      ≡ (if is_cursor second then emit_event s process 4 (0xFF + second) else ok s)
unfolding extended_matches handle_interrupt scan_code handle_key keycode_to_ascii modifier_supported
handle_interrupt-extended second h process s =
    let t = all_below-at 256 extended_matches loaded-extended_matches second h in
    elim (Bool-cases (is_cursor second)) [
      | inl e ↦ rw e (ground arith)
      | inr e ↦ rw e (ground arith)
    ]
