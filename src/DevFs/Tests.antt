-- ===== src/DevFs/Tests.antt =====
-- The console with a line and a half typed ahead, and the theorem on its reads at this input.
use matrix_os.Prelude.{◌≡◌, refl, ◌∷◌, arith, replicate}
use matrix_os.CString.{Memory}
use matrix_os.Keyboard.{Keyboard, keyboard_get_char}
use matrix_os.Keyboard.Queue.{IsValid, contents}
use matrix_os.DevFs.{read_console}
use matrix_os.DevFs.Console.{Reads, take_line, read_console_lem}

-- "a", newline, "b".
abbrev typed_ahead : Keyboard
typed_ahead = record { kbuf = b'a' ∷ 10 ∷ b'b' ∷ replicate 253 0; khead = 3; ktail = 0 }

typed_ahead-IsValid : IsValid typed_ahead
typed_ahead-IsValid = record {
  size = refl;
  head_in = omega arith;
  tail_in = omega arith;
  typed = (omega arith, (omega arith, (omega arith, tt)));
}

abbrev blank : Memory
blank x = 0

-- Ten characters are asked for, two come.
takes_line : (read_console 10 0 100 typed_ahead blank).0 ≡ 2
unfolding read_console keyboard_get_char
takes_line = refl

read_console_lem_example :
    Reads
      (take_line 10 (contents typed_ahead))
      0
      100
      (contents typed_ahead)
      blank
      (read_console 10 0 100 typed_ahead blank)
read_console_lem_example = read_console_lem 10 100 typed_ahead blank typed_ahead-IsValid
