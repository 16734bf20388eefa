-- ===== src/Serial.antt =====
-- kernel/drivers/serial.c: the serial port and its formatted output. The bytes that the line status
-- port gives, read after read, are a parameter `status`; a wait for it that would go on after
-- `patience` reads is `none`. A C string is the list of the bytes from its pointer on.
pub mod Reversal
pub mod Loops
pub mod Digits
pub mod Format
pub mod Output
mod Tests
use matrix_os.Prelude.{
  ℕ, zero, suc, ◌+◌, ◌-◌, ◌*◌, ◌/◌, ◌%◌, ◌^◌, Bool, true, false, ◌&&◌, not, List, [], ◌∷◌, ◌++◌,
  Option, none, some, ◌==◌, ltb, if◌then◌else◌, get_or, set, length, ◌>>=◌,
}
use matrix_os.Prelude.Int.{ℤ, pos, negsuc, is_neg, is_positive, signed32, unsigned32, sub_ℕ}
use matrix_os.Prelude.Word.{add32, sub32}
use matrix_os.Pic.{Ports}
use Prim.Native.Nat.{bit_and}

-- `reads` counts the reads of the line status port.
pub record Uart : Type 0 where
  pub reads : ℕ
  pub io : Ports

unfoldable pub serial_init : ℕ → ℕ → Uart → Uart
serial_init port divisor u =
    let put = λ (offset byte : ℕ) (io : Ports). (add32 port offset, byte) ∷ io in
    let dlab = put 3 0x80 (put 1 0x00 u.io) in
    let rate = put 1 (divisor / 256 % 256) (put 0 (divisor % 256) dlab) in
    record { reads = u.reads; io = put 4 0x03 (put 2 0xC7 (put 3 0x03 rate)) }

unfoldable pub serial_transmit_empty : ℕ → ℕ
serial_transmit_empty byte = bit_and byte 0x20

-- The loop ends where a pointer from below meets one from above.
unfoldable pub swap_ends : ℕ → ℕ → ℕ → List ℕ → List ℕ
swap_ends zero lo hi text = text
swap_ends (suc fuel) lo hi text =
    let rest =
      swap_ends fuel (lo + 1) (hi - 1)
        (set (set text hi (get_or text lo 0)) lo (get_or text hi 0)) in
    if ltb lo hi then rest else text

unfoldable pub reverse_in_place : List ℕ → List ℕ
reverse_in_place text = swap_ends (length text) 0 (length text - 1) text

-- `num / 10` and `'0' + num % 10` of an int: C divides towards zero.
abbrev pub div_ten : ℤ → ℤ
div_ten (pos n) = pos (n / 10)
div_ten (negsuc n) = sub_ℕ 0 (suc n / 10)

abbrev pub dec_char : ℤ → ℕ
dec_char (pos n) = b'0' + n % 10
dec_char (negsuc n) = b'0' - suc n % 10

-- `-num`, which is `num` again for the least int.
abbrev pub negate : ℤ → ℤ
negate num = signed32 (sub32 0 (unsigned32 num))

-- The characters that the loop writes, the last digit first.
unfoldable pub dec_loop : ℕ → ℤ → Option (List ℕ)
dec_loop zero num = none
dec_loop (suc fuel) num =
    let more = dec_loop fuel (div_ten num) in
    do rest ← if is_positive (div_ten num) then more else some []; some (dec_char num ∷ rest)

abbrev pub is_zero_int : ℤ → Bool
is_zero_int num = unsigned32 num == 0

unfoldable pub itoa_dec : ℤ → Option (List ℕ)
itoa_dec num =
    if is_zero_int num
    then some (b'0' ∷ [])
    else if is_neg num
    then (do digits ← dec_loop 10 (negate num); some (reverse_in_place (digits ++ (b'-' ∷ []))))
    else (do digits ← dec_loop 10 num; some (reverse_in_place digits))

abbrev pub hex_char : ℕ → ℕ
hex_char digit = if ltb digit 10 then b'0' + digit else b'a' + digit - 10

-- `count` is the count after the round's `count++`.
unfoldable pub hex_loop : ℕ → ℕ → ℕ → Option (List ℕ)
hex_loop zero count num = none
hex_loop (suc fuel) count num =
    let more = hex_loop fuel (count + 1) (num / 16) in
    do
      rest ← if not (num / 16 == 0) && ltb count 8 then more else some []
      some (hex_char (bit_and num 0xF) ∷ rest)

unfoldable pub itoa_hex : ℕ → Option (List ℕ)
itoa_hex num =
    if num == 0
    then some (b'0' ∷ [])
    else (do digits ← hex_loop 8 1 num; some (reverse_in_place digits))

-- `log_level_t`.
pub data LogLevel : Type 0 where
  debug : LogLevel
  info : LogLevel
  error : LogLevel

unfoldable pub level_text : LogLevel → List ℕ
level_text debug = b'[' ∷ b'D' ∷ b'E' ∷ b'B' ∷ b'U' ∷ b'G' ∷ b']' ∷ b' ' ∷ []
level_text info = b'[' ∷ b'I' ∷ b'N' ∷ b'F' ∷ b'O' ∷ b']' ∷ b' ' ∷ []
level_text error = b'[' ∷ b'E' ∷ b'R' ∷ b'R' ∷ b'O' ∷ b'R' ∷ b']' ∷ b' ' ∷ []

module _ (status : ℕ → ℕ) (patience port : ℕ) where
  -- `while (!serial_transmit_empty(port))` from read number `n` on, and the read after the last.
  unfoldable pub wait_from : ℕ → ℕ → Option ℕ
  unfolding serial_transmit_empty
  wait_from zero n = none
  wait_from (suc fuel) n =
      let rest = wait_from fuel (n + 1) in
      if serial_transmit_empty (status n) == 0 then rest else some (n + 1)

  unfoldable pub serial_write_char : ℕ → Uart → Option Uart
  serial_write_char c u = do
    n ← wait_from patience u.reads
    some (record { reads = n; io = (port, c % 256) ∷ u.io })

  unfoldable pub serial_write : List ℕ → Uart → Option Uart
  serial_write [] u = some u
  serial_write (c ∷ text) u =
      if c == 0 then some u else (do v ← serial_write_char c u; serial_write text v)

  -- `args` are the words of the variable arguments, and `text_at` the string at an address.
  module _ (args : ℕ → ℕ) (text_at : ℕ → List ℕ) where
    -- The conversion for the character after a '%', with the number of the next argument before
    -- and after.
    unfoldable pub convert : ℕ → ℕ → Uart → Option (ℕ × Uart)
    convert c i u =
        if c == b'd'
        then (do text ← itoa_dec (signed32 (args i)); v ← serial_write text u; some (i + 1, v))
        else if c == b'x'
        then (do text ← itoa_hex (args i); v ← serial_write text u; some (i + 1, v))
        else if c == b's'
        then (do v ← serial_write (text_at (args i)) u; some (i + 1, v))
        else if c == b'c'
        then (do v ← serial_write_char (args i % 256) u; some (i + 1, v))
        else if c == b'p'
        then (do text ← itoa_hex (args i); v ← serial_write (b'0' ∷ b'x' ∷ text) u; some (i + 1, v))
        else if c == b'%'
        then (do v ← serial_write_char b'%' u; some (i, v))
        else (do v ← serial_write_char b'%' u; w ← serial_write_char c v; some (i, w))

    -- The loop at a place of the format; a '%' takes the byte after it along, the terminator too.
    unfoldable pub serial_vprintf : List ℕ → ℕ → Uart → Option Uart
    serial_vprintf [] i u = some u
    serial_vprintf (c ∷ []) i u =
        if c == 0
        then some u
        else if not (c == b'%')
        then serial_write_char c u
        else (do (j, v) ← convert 0 i u; some v)
    serial_vprintf (c ∷ d ∷ format) i u =
        if c == 0
        then some u
        else if not (c == b'%')
        then (do v ← serial_write_char c u; serial_vprintf (d ∷ format) i v)
        else (do (j, v) ← convert d i u; serial_vprintf format j v)

    unfoldable pub serial_printf : List ℕ → Uart → Option Uart
    serial_printf format u = serial_vprintf format 0 u

    unfoldable pub serial_log : LogLevel → List ℕ → Uart → Option Uart
    serial_log level format u = do
      v ← serial_write (level_text level) u
      w ← serial_vprintf format 0 v
      serial_write (b'\n' ∷ []) w
