-- ===== src/Keyboard/Tests.antt =====
-- keyboard.c on concrete scan codes, and its theorems at concrete inputs.
use matrix_os.Prelude.{
  ◌≡◌, refl, List, [], ◌∷◌, ◌++◌, arith, ◌==◌, if◌then◌else◌, replicate, length,
}
use matrix_os.Pic.{pic_eoi}
use matrix_os.Keyboard.{
  Keyboard, normal_map, put_char, scancode_to_char, keyboard_input_handler, isr_common_stub,
  keyboard_get_char, interrupt_handler,
}
use matrix_os.Keyboard.Queue.{IsValid, contents, type_ahead, key_of, isr_common_stub_lem}
use matrix_os.Keyboard.Trace.{Event, run, run_queue, run_refines}

-- The scan codes of "hi", Enter, a release, and a status byte.
scancodes :
    (scancode_to_char 0x23 ≡ b'h')
    × (scancode_to_char 0x17 ≡ b'i')
    × (scancode_to_char 0x1C ≡ 10)
    × (scancode_to_char 0x39 ≡ b' ')
    × (scancode_to_char 0xA3 ≡ 0)
unfolding scancode_to_char
scancodes = (refl, refl, refl, refl, refl)

map_size : length normal_map ≡ 128
map_size = refl

-- Two characters wait across the end of the ring.
abbrev wrapped : Keyboard
wrapped = record { kbuf = b'i' ∷ replicate 254 0 ++ b'h' ∷ []; khead = 1; ktail = 255 }

wrapped-IsValid : IsValid wrapped
wrapped-IsValid = record {
  size = refl;
  head_in = omega arith;
  tail_in = omega arith;
  typed = omega arith;
}

abbrev script : List Event
script =
    Event.read
    ∷ Event.interrupt 33 0x1C
    ∷ Event.interrupt 32 0x23
    ∷ Event.read
    ∷ Event.read
    ∷ Event.read
    ∷ []

run-wrapped : run script wrapped ≡ b'h' ∷ b'i' ∷ 10 ∷ 0 ∷ []
unfolding run interrupt_handler keyboard_input_handler scancode_to_char put_char keyboard_get_char
    pic_eoi
run-wrapped = refl

isr_common_stub_lem_example :
    (contents (isr_common_stub 33 0x1C wrapped []).0 ≡ (
      if key_of 0x1C == 0 then contents wrapped else type_ahead (contents wrapped) (key_of 0x1C)))
    × IsValid (isr_common_stub 33 0x1C wrapped []).0
    × ((isr_common_stub 33 0x1C wrapped []).1 ≡ (0x20, 0x20) ∷ (0x20, 0x20) ∷ [])
isr_common_stub_lem_example = isr_common_stub_lem 33 0x1C wrapped [] wrapped-IsValid

run_refines_example : run script wrapped ≡ run_queue script (contents wrapped)
run_refines_example = run_refines script wrapped wrapped-IsValid
