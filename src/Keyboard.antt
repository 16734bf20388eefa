-- ===== src/Keyboard.antt =====
-- kernel/interrupts/keyboard.c: scan codes, and the ring of typed characters. Port writes (`outb`)
-- are a list, newest first; the bytes that `inb` reads are arguments.
pub mod Queue
pub mod Trace
pub mod Controller
mod Tests
use matrix_os.Prelude.{
  ℕ, suc, ◌+◌, ◌%◌, ◌<◌, Bool, ◌||◌, not, List, [], ◌∷◌, ◌++◌, ◌==◌, ltb, leb, if◌then◌else◌,
  get_or, set, replicate,
}
use matrix_os.Pic.{Ports, pic_eoi}

abbrev pub kbuf_size : ℕ
kbuf_size = 256

pub record Keyboard : Type 0 where
  pub kbuf : List ℕ
  pub khead : ℕ
  pub ktail : ℕ

abbrev pub empty_keyboard : Keyboard
empty_keyboard = record { kbuf = replicate 256 0; khead = 0; ktail = 0 }

-- The 128 entries of `normal_map`, scan code to ASCII.
abbrev pub normal_map : List ℕ
normal_map =
    0
    ∷ 0
    ∷ b'1'
    ∷ b'2'
    ∷ b'3'
    ∷ b'4'
    ∷ b'5'
    ∷ b'6'
    ∷ b'7'
    ∷ b'8'
    ∷ b'9'
    ∷ b'0'
    ∷ b'-'
    ∷ b'='
    ∷ 8
    ∷ 9
    ∷ b'q'
    ∷ b'w'
    ∷ b'e'
    ∷ b'r'
    ∷ b't'
    ∷ b'y'
    ∷ b'u'
    ∷ b'i'
    ∷ b'o'
    ∷ b'p'
    ∷ b'['
    ∷ b']'
    ∷ 10
    ∷ 0
    ∷ b'a'
    ∷ b's'
    ∷ b'd'
    ∷ b'f'
    ∷ b'g'
    ∷ b'h'
    ∷ b'j'
    ∷ b'k'
    ∷ b'l'
    ∷ b';'
    ∷ 39
    ∷ b'`'
    ∷ 0
    ∷ 92
    ∷ b'z'
    ∷ b'x'
    ∷ b'c'
    ∷ b'v'
    ∷ b'b'
    ∷ b'n'
    ∷ b'm'
    ∷ b','
    ∷ b'.'
    ∷ b'/'
    ∷ 0
    ∷ b'*'
    ∷ 0
    ∷ b' '
    ∷ replicate 70 0

unfoldable pub scancode_to_char : ℕ → ℕ
scancode_to_char sc =
    if leb 128 sc
    then 0
    else if sc == 0x0E
    then 8
    else if sc == 0x1C
    then 10
    else get_or normal_map sc 0

-- `kbuf[khead] = c; khead = (khead + 1) % KBUF_SIZE`.
unfoldable pub put_char : ℕ → Keyboard → Keyboard
put_char c k = record k { kbuf = set k.kbuf k.khead c; khead = (k.khead + 1) % kbuf_size }

unfoldable pub keyboard_input_handler : ℕ → Keyboard → Ports → Keyboard × Ports
keyboard_input_handler sc k io =
    if sc == 0xFA || sc == 0xAA || sc == 0x00 || sc == 0xFF
    then (k, pic_eoi 1 io)
    else (let c = scancode_to_char sc in
        if not (c == 0) then (put_char c k, pic_eoi 1 io) else (k, pic_eoi 1 io))

unfoldable pub keyboard_get_char : Keyboard → ℕ × Keyboard
keyboard_get_char k =
    if k.khead == k.ktail
    then (0, k)
    else (get_or k.kbuf k.ktail 0, record k { ktail = (k.ktail + 1) % kbuf_size })

-- `interrupt_handler`: `sc` is what `inb(KEYBOARD_PORT)` gives, read for vector 33 alone.
unfoldable pub interrupt_handler : ℕ → ℕ → Keyboard → Ports → Keyboard × Ports
interrupt_handler int_no sc k io = if int_no == 33 then keyboard_input_handler sc k io else (k, io)

-- `isr_common_stub` of kernel/interrupts/interrupt_asm.asm for a vector that comes without an error
-- code: the handler, and then a command to the master controller by the assembly code itself.
unfoldable pub isr_common_stub : ℕ → ℕ → Keyboard → Ports → Keyboard × Ports
isr_common_stub int_no sc k io =
    let (after, written) = interrupt_handler int_no sc k io in (after, (0x20, 0x20) ∷ written)
