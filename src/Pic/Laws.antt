-- ===== src/Pic/Laws.antt =====
-- What the commands of pic.c do to the interrupt masks.
use matrix_os.Prelude.{
  ℕ, zero, suc, ◌/◌, ◌%◌, ◌^◌, ◌<◌, ◌≡◌, refl, Bool, true, ◌&&◌, arith, [], ◌∷◌, ◌==◌,
  if◌then◌else◌, ==→eq,
}
use Prim.Native.Nat.{bit_and, bit_or, bit_xor}
use matrix_os.Pic.{Ports, line, pic_set_mask, pic_clear_mask}

-- Bit `i` of a byte.
abbrev pub bit : ℕ → ℕ → ℕ
bit i v = v / 2 ^ i % 2

-- A test of every number below `bound`, from the largest down.
passes : (ℕ → Bool) → ℕ → Bool
passes test zero = true
passes test (suc top) = passes test top && test top

passes_sound :
    (test : ℕ → Bool) (i bound : ℕ) → passes test bound ≡ true → i < bound → test i ≡ true
unfolding passes
passes_sound test i zero passed below = absurd (omega arith)
passes_sound test i (suc top) passed below = ground (arith, passes_sound test i top)

-- Whether the byte `f v b` differs from `v` in bit `b` alone, which it makes `to`.
abbrev changes : (ℕ → ℕ → ℕ) → ℕ → ℕ → ℕ → ℕ → Bool
changes f to b i v = bit i (f v b) == (if i == b then to else bit i v)

abbrev with_bit : ℕ → ℕ → ℕ
with_bit v b = bit_or v (2 ^ b) % 256

abbrev without_bit : ℕ → ℕ → ℕ
without_bit v b = bit_and v (bit_xor 0xFFFF_FFFF (2 ^ b % 2 ^ 32)) % 256

abbrev table : (ℕ → ℕ → ℕ) → ℕ → Bool
table f to = passes (λ b. passes (λ i. passes (changes f to b i) 256) 8) 8

set_table : table with_bit 1 ≡ true
unfolding passes
set_table = refl

clear_table : table without_bit 0 ≡ true
unfolding passes
clear_table = refl

table_sound :
    (f : ℕ → ℕ → ℕ) (to b i v : ℕ)
    → table f to ≡ true
    → b < 8
    → i < 8
    → v < 256
    → bit i (f v b) ≡ (if i == b then to else bit i v)
table_sound f to b i v h hb hi hv = ==→eq (bit i (f v b)) (if i == b then to else bit i v) (
    passes_sound (changes f to b i) v 256
      (passes_sound (λ i. passes (changes f to b i) 256) i 8
        (passes_sound (λ b. passes (λ i. passes (changes f to b i) 256) 8) b 8 h hb) hi)
      hv)

-- The one port write of a mask command.
abbrev pub last_write : Ports → ℕ × ℕ
last_write [] = (0, 0)
last_write (w ∷ io) = w

-- The interrupt lines 0 to 15: `pic_set_mask` and `pic_clear_mask` write to the data port of the
-- controller that serves the line, set or clear the mask bit of that line, and keep the other seven.
pub mask_commands :
    (irq i : ℕ) (inb : ℕ → ℕ) (io : Ports)
    → irq < 16
    → i < 8
    → ((port : ℕ) → inb port < 256)
    → let (port, b) = line irq in
      ((last_write (pic_set_mask irq inb io)).0 ≡ port)
      × (bit i (last_write (pic_set_mask irq inb io)).1 ≡ (if i == b then 1 else bit i (inb port)))
      × ((last_write (pic_clear_mask irq inb io)).0 ≡ port)
      × (bit i (last_write (pic_clear_mask irq inb io)).1
          ≡ (if i == b then 0 else bit i (inb port)))
unfolding pic_set_mask pic_clear_mask
mask_commands irq i inb io h hi bytes =
    let small : (line irq).1 < 8 = ground arith in
    (
      refl,
      table_sound with_bit 1 (line irq).1 i (inb (line irq).0) set_table small hi
          (bytes (line irq).0),
      refl,
      table_sound without_bit 0 (line irq).1 i (inb (line irq).0) clear_table small hi
          (bytes (line irq).0),
    )
