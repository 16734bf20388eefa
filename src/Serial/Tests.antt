-- ===== src/Serial/Tests.antt =====
-- The serial output at concrete inputs.
use matrix_os.Prelude.{
  ℕ, ◌+◌, ◌-◌, ◌%◌, ◌^◌, ◌<◌, ◌≤◌, ◌≡◌, ◌≢◌, refl, List, [], ◌∷◌, arith, ◌==◌, if◌then◌else◌, some,
  length,
}
use matrix_os.Prelude.Int.{negsuc, signed32}
use mathlib.Core.Option
use Prim.Native.Nat.{bit_and}
use matrix_os.Serial.{
  Uart, itoa_dec, serial_vprintf, serial_init, dec_loop, reverse_in_place, swap_ends,
}
use matrix_os.Serial.Loops.{read_dec}
use matrix_os.Serial.Digits.{itoa_dec_lem}
use matrix_os.Serial.Format.{formatted, sent}
use matrix_os.Serial.Output.{serial_vprintf_lem}

abbrev com1 : ℕ
com1 = 0x3F8

abbrev idle_port : Uart
idle_port = record { reads = 0; io = [] }

-- A transmitter that is busy at every second look.
abbrev busy_and_free : ℕ → ℕ
busy_and_free n = if n % 2 == 0 then 0 else 0x60

abbrev one_more : ℕ → ℕ
one_more n = 1 - n % 2

one_more-ready : (n : ℕ) → bit_and (busy_and_free (n + one_more n)) 0x20 ≢ 0
one_more-ready n =
    let odd : (n + (1 - n % 2)) % 2 ≡ 1 = omega arith in rw odd (λ e. omega (arith, e))

abbrev numbers : ℕ → ℕ
numbers i = if i == 0 then 0xFFFFFFD6 else 0xBEEF

abbrev no_strings : ℕ → List ℕ
no_strings address = []

numbers-small : (i : ℕ) → numbers i < 2 ^ 32
numbers-small i = ground arith

-- "n=%d %x"
abbrev report : List ℕ
report = b'n' ∷ b'=' ∷ b'%' ∷ b'd' ∷ b' ' ∷ b'%' ∷ b'x' ∷ 0 ∷ []

itoa_dec_lem_example :
    (text : List ℕ) × (itoa_dec (signed32 0xFFFFFFD6) ≡ some text)
    × (length text + 1 ≤ 12)
    × (read_dec text ≡ signed32 0xFFFFFFD6)
itoa_dec_lem_example = itoa_dec_lem 0xFFFFFFD6 (omega arith) (λ e. omega (arith, e))

serial_vprintf_lem_example :
    Option.map
      (λ v. v.io)
      (serial_vprintf busy_and_free 3 com1 numbers no_strings report 0 idle_port)
    ≡ some (sent com1 (formatted numbers no_strings report 0) [])
serial_vprintf_lem_example =
    serial_vprintf_lem busy_and_free 3 com1 one_more (λ n. omega arith) one_more-ready numbers
      no_strings numbers-small report 0 idle_port

negative_number : itoa_dec (negsuc 41) ≡ some (b'-' ∷ b'4' ∷ b'2' ∷ [])
unfolding itoa_dec dec_loop reverse_in_place swap_ends
negative_number = refl

port_set_up :
    (serial_init com1 3 idle_port).io
    ≡ (0x3FC, 3)
      ∷ (0x3FA, 0xC7)
      ∷ (0x3FB, 3)
      ∷ (0x3F9, 0)
      ∷ (0x3F8, 3)
      ∷ (0x3FB, 0x80)
      ∷ (0x3F9, 0)
      ∷ []
unfolding serial_init
port_set_up = refl
