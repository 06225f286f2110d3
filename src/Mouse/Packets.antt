-- ===== src/Mouse/Packets.antt =====
-- The events of a packet of the mouse.
use Prim.Native.Nat.{bit_and}
use speedy_os.Common.{
  ℕ, ◌+◌, ◌≡◌, refl, Bool, true, false, ◌&&◌, not, List, [], ◌∷◌, ◌++◌, ◌==◌, if◌then◌else◌, Run,
  ok, panic, fault, out_of_fuel, ◌>>=◌, ◌∙◌, sym, ap, Bool-cases, inl, inr,
}
use speedy_os.Scheduler.State.{Scheduler}
use speedy_os.Scheduler.Events.{emit_event}
use speedy_os.Mouse.{
  Mouse, left_press, right_press, middle_press, movement_data, update_button, update_buttons, move,
  packet_loop, handle_interrupt,
}

-- Events of a process, each with its number and its data, sent one after the other.
pub emit_all : ℕ → List (ℕ × ℕ) → Scheduler → Run Scheduler
emit_all process [] s = ok s
emit_all process ((id, event_data) ∷ events) s = do
  s' ← emit_event s process id event_data
  emit_all process events s'

-- The event of a button that has changed.
pub change : (press : ℕ) → (now before : Bool) → List (ℕ × ℕ)
change press true true = []
change press true false = (1, press) ∷ []
change press false true = (2, press + 1) ∷ []
change press false false = []

-- The buttons that the first byte of a packet shows as down.
pub buttons : ℕ → Mouse
buttons byte = record {
  left_button_pressed = not (bit_and byte 1 == 0);
  right_button_pressed = not (bit_and byte 2 == 0);
  middle_button_pressed = not (bit_and byte 4 == 0);
}

pub changes : (now before : Mouse) → List (ℕ × ℕ)
changes now before =
    change left_press now.left_button_pressed before.left_button_pressed
    ++ (change right_press now.right_button_pressed before.right_button_pressed
        ++ change middle_press now.middle_button_pressed before.middle_button_pressed)

pub movement : (x y : ℕ) → List (ℕ × ℕ)
movement x y = if (x == 0) && (y == 0) then [] else (4, movement_data x y) ∷ []

module _ {ℓ} {A : Type ℓ} where
  >>=-assoc :
      {B C : Type 0} (r : Run A) (f : A → Run B) (g : B → Run C)
      → ((r >>= f) >>= g) ≡ (r >>= λ a. f a >>= g)
  >>=-assoc (ok a) f g = refl
  >>=-assoc panic f g = refl
  >>=-assoc fault f g = refl
  >>=-assoc out_of_fuel f g = refl

  >>=-cong :
      {B : Type 0} {r r' : Run A} {f g : A → Run B}
      → r ≡ r'
      → ((a : A) → f a ≡ g a)
      → (r >>= f) ≡ (r' >>= g)
  >>=-cong {B} {r} {r'} {f} {g} e h = rw e (pointwise r')
    where
      pointwise : (q : Run A) → (q >>= f) ≡ (q >>= g)
      pointwise (ok a) = h a
      pointwise panic = refl
      pointwise fault = refl
      pointwise out_of_fuel = refl

emit_all-append :
    (process : ℕ) (xs ys : List (ℕ × ℕ)) (s : Scheduler)
    → emit_all process (xs ++ ys) s ≡ (emit_all process xs s >>= emit_all process ys)
unfolding emit_all
emit_all-append process [] ys s = refl
emit_all-append process ((id, d) ∷ xs) ys s =
    >>=-cong refl (λ s'. emit_all-append process xs ys s')
    ∙ sym (>>=-assoc (emit_event s process id d) (emit_all process xs) (emit_all process ys))

-- Two lists of events, and what follows them.
emit_all-append_then :
    {A : Type 0} (process : ℕ) (xs ys : List (ℕ × ℕ)) (s : Scheduler) (rest : Scheduler → Run A)
    → (emit_all process (xs ++ ys) s >>= rest)
      ≡ (emit_all process xs s >>= λ s'. emit_all process ys s' >>= rest)
emit_all-append_then process xs ys s rest =
    ap (λ r. r >>= rest) (emit_all-append process xs ys s)
    ∙ >>=-assoc (emit_all process xs s) (emit_all process ys) rest

>>=-ok : (r : Run Scheduler) → (r >>= ok) ≡ r
>>=-ok (ok a) = refl
>>=-ok panic = refl
>>=-ok fault = refl
>>=-ok out_of_fuel = refl

update_button-change :
    (process press : ℕ) (now before : Bool) (s : Scheduler)
    → update_button process press now before s ≡ emit_all process (change press now before) s
unfolding update_button emit_all change
update_button-change process press true true s = refl
update_button-change process press true false s = sym (>>=-ok (emit_event s process 1 press))
update_button-change process press false true s = sym (>>=-ok (emit_event s process 2 (press + 1)))
update_button-change process press false false s = refl

update_buttons-changes :
    (process byte : ℕ) (mouse : Mouse) (s : Scheduler)
    → update_buttons process byte mouse s
      ≡ (emit_all process (changes (buttons byte) mouse) s >>= λ s'. ok (buttons byte, s'))
unfolding update_buttons changes buttons
update_buttons-changes process byte mouse s =
    let left = change left_press (buttons byte).left_button_pressed mouse.left_button_pressed in
    let right = change right_press (buttons byte).right_button_pressed mouse.right_button_pressed in
    let middle =
      change middle_press (buttons byte).middle_button_pressed mouse.middle_button_pressed in
    >>=-cong (update_button-change process left_press _ _ s) (λ s1.
      >>=-cong (update_button-change process right_press _ _ s1)
        (λ s2. >>=-cong (update_button-change process middle_press _ _ s2) (λ s3. refl)))
    ∙ sym (
        emit_all-append_then process left (right ++ middle) s (λ s'. ok (buttons byte, s'))
        ∙ >>=-cong refl
            (λ s1. emit_all-append_then process right middle s1 (λ s'. ok (buttons byte, s'))))

move-movement :
    (process x y : ℕ) (s : Scheduler) → move process x y s ≡ emit_all process (movement x y) s
unfolding move movement emit_all
move-movement process x y s = elim (Bool-cases (x == 0)) [
  | inl e ↦ elim (Bool-cases (y == 0)) [
    | inl e' ↦ rw (e, e') refl
    | inr e' ↦ rw (e, e') (sym (>>=-ok (emit_event s process 4 (movement_data x y))))
  ]
  | inr e ↦ elim (Bool-cases (y == 0)) [
    | inl e' ↦ rw (e, e') (sym (>>=-ok (emit_event s process 4 (movement_data x y))))
    | inr e' ↦ rw (e, e') (sym (>>=-ok (emit_event s process 4 (movement_data x y))))
  ]
]

-- A packet of three bytes, after which nothing is left to read, makes the driver's process send one
-- event for each button that the first byte shows as changed, and one for the movement of the
-- other two unless it is none, in this order; the buttons are then those of the first byte.
pub handle_interrupt-packet :
    (process byte x y : ℕ) (mouse : Mouse) (s : Scheduler)
    → handle_interrupt process 1 ((byte, 1) ∷ (x, 1) ∷ (y, 0) ∷ []) mouse s ≡ (
        emit_all process (changes (buttons byte) mouse ++ movement x y) s >>= λ s'.
        ok (buttons byte, s'))
unfolding handle_interrupt packet_loop
handle_interrupt-packet process byte x y mouse s =
    >>=-cong (update_buttons-changes process byte mouse s) (λ m. refl)
    ∙ >>=-assoc (emit_all process (changes (buttons byte) mouse) s) _ _
    ∙ >>=-cong refl (λ s'.
      >>=-assoc (move process x y s') _ _ ∙ >>=-cong (move-movement process x y s') (λ s''. refl))
    ∙ sym (
        emit_all-append_then process (changes (buttons byte) mouse) (movement x y) s
          (λ s'. ok (buttons byte, s')))
