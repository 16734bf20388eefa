-- ===== src/Keyboard/Trace.antt =====
-- Interrupts and reads of keyboard.c in any order, against the queue of `Queue.type_ahead`.
use matrix_os.Prelude.{
  ℕ, ◌≡◌, refl, ap, ◌∙◌, List, [], ◌∷◌, ◌==◌, if◌then◌else◌, Bool-cases, ==→eq, inl, inr,
}
use matrix_os.Keyboard.{Keyboard, interrupt_handler, keyboard_get_char}
use matrix_os.Keyboard.Queue.{
  IsValid, contents, type_ahead, key_of, keyboard_input_handler_lem, keyboard_get_char_lem,
}

-- What the machine does to the keyboard: an interrupt with its vector and the byte that the data
-- port holds, or a read.
pub data Event : Type 0 where
  interrupt : ℕ → ℕ → Event
  read : Event

-- The characters that the reads return.
unfoldable pub run : List Event → Keyboard → List ℕ
run [] k = []
run (interrupt n sc ∷ es) k = run es (interrupt_handler n sc k []).0
run (read ∷ es) k = let (c, k') = keyboard_get_char k in c ∷ run es k'

-- The same over the queue; an empty queue reads as 0.
unfoldable pub run_queue : List Event → List ℕ → List ℕ
run_queue [] q = []
run_queue (interrupt n sc ∷ es) q =
    run_queue es (if n == 33 then (if key_of sc == 0 then q else type_ahead q (key_of sc)) else q)
run_queue (read ∷ es) [] = 0 ∷ run_queue es []
run_queue (read ∷ es) (c ∷ q) = c ∷ run_queue es q

interrupt_handler_lem :
    (n sc : ℕ) (k : Keyboard)
    → IsValid k
    → let k' = (interrupt_handler n sc k []).0 in
      (contents k' ≡ (
        if n == 33
        then (if key_of sc == 0 then contents k else type_ahead (contents k) (key_of sc))
        else contents k))
      × IsValid k'
unfolding interrupt_handler
interrupt_handler_lem n sc k v = elim (Bool-cases (n == 33)) [
  | inl key ↦ let (next, valid, _) = keyboard_input_handler_lem sc k [] v in rw key (next, valid)
  | inr other ↦ rw other (refl, v)
]

-- No sequence of interrupts and reads tells a well-formed ring from the queue of its contents, a queue
-- that empties itself with the 256th character that waits.
pub run_refines :
    (es : List Event) (k : Keyboard) → IsValid k → run es k ≡ run_queue es (contents k)
unfolding run run_queue
run_refines [] k v = refl
run_refines (interrupt n sc ∷ es) k v =
    let (next, valid) = interrupt_handler_lem n sc k v in
    run_refines es _ valid ∙ ap (run_queue es) next
run_refines (read ∷ es) k v =
    let (front, valid, stays) = keyboard_get_char_lem k v in
    let rest = run_refines es _ valid in
    elim (Bool-cases ((keyboard_get_char k).0 == 0)) [
      | inl none_left ↦
          let zero = ==→eq _ 0 none_left in
          let gone = rw none_left at front in
          rw (gone, zero)
            (ap (◌∷◌ 0) (rest ∙ ap (run_queue es) (ap contents (rw none_left at stays) ∙ gone)))
      | inr some_char ↦ rw (front, some_char) (ap (◌∷◌ (keyboard_get_char k).0) rest)
    ]
