-- ===== src/Pic.antt =====
-- kernel/interrupts/pic.c: the commands that go to the two interrupt controllers. The port writes
-- are a list of (port, byte), newest first.
pub mod Laws
mod Tests
use matrix_os.Prelude.{ℕ, ◌+◌, ◌-◌, ◌%◌, ◌^◌, Bool, List, [], ◌∷◌, leb, ltb, if◌then◌else◌}
use Prim.Native.Nat.{bit_and, bit_or, bit_xor}

abbrev pub Ports : Type 0
Ports = List (ℕ × ℕ)

unfoldable pub pic_eoi : ℕ → Ports → Ports
pic_eoi irq io = if leb 8 irq then (0x20, 0x20) ∷ (0xA0, 0x20) ∷ io else (0x20, 0x20) ∷ io

-- The data port of the controller that serves `irq`, and the line's number there.
abbrev pub line : ℕ → ℕ × ℕ
line irq = if ltb irq 8 then (0x21, irq) else (0xA1, irq - 8)

-- `inb` is what the port reads; the result is cut to a byte by the assignment to `value`.
unfoldable pub pic_set_mask : ℕ → (ℕ → ℕ) → Ports → Ports
pic_set_mask irq inb io =
    let (port, bit) = line irq in (port, bit_or (inb port) (2 ^ bit) % 256) ∷ io

unfoldable pub pic_clear_mask : ℕ → (ℕ → ℕ) → Ports → Ports
pic_clear_mask irq inb io =
    let (port, bit) = line irq in
    (port, bit_and (inb port) (bit_xor 0xFFFF_FFFF (2 ^ bit % 2 ^ 32)) % 256) ∷ io

-- The two masks are read before the initialisation words and written back after them.
unfoldable pub pic_remap : ℕ → ℕ → (ℕ → ℕ) → Ports → Ports
pic_remap offset1 offset2 inb io =
    (0xA1, inb 0xA1)
    ∷ (0x21, inb 0x21)
    ∷ (0xA1, 0xFF)
    ∷ (0x21, 0xFF)
    ∷ (0xA1, 0x01)
    ∷ (0x21, 0x01)
    ∷ (0xA1, 0x02)
    ∷ (0x21, 0x04)
    ∷ (0xA1, offset2 % 256)
    ∷ (0x21, offset1 % 256)
    ∷ (0xA0, 0x11)
    ∷ (0x20, 0x11)
    ∷ io
