-- ===== src/Keyboard/Controller.antt =====
-- keyboard_init of kernel/interrupts/keyboard.c: the commands to the keyboard controller, and the waits
-- for it. `status` is what the controller's status port gives, read after read.
use matrix_os.Prelude.{
  ℕ, zero, suc, ◌+◌, Bool, not, [], ◌∷◌, Option, none, some, ◌==◌, if◌then◌else◌, ◌>>=◌,
}
use matrix_os.Pic.{Ports}
use Prim.Native.Nat.{bit_and}

-- How the initialisation ends, by its message to the log.
pub data Ending : Type 0 where
  timeout1 : Ending
  timeout2 : Ending
  timeout3 : Ending
  no_data : Ending
  done : Ending

module _ (status : ℕ → ℕ) where
  -- `while (--timeout && test);` from read number `n` on: the next read, or none where the time is up.
  unfoldable pub wait_while : (ℕ → Bool) → ℕ → ℕ → Option ℕ
  wait_while test zero n = none
  wait_while test (suc timeout) n =
      let rest = wait_while test timeout (n + 1) in
      if timeout == 0 then none else if test (status n) then rest else some (n + 1)

  abbrev pub is_full : ℕ → Bool
  is_full byte = not (bit_and byte 0x02 == 0)

  abbrev pub has_data : ℕ → Bool
  has_data byte = not (bit_and byte 0x01 == 0)

  -- `while (inb(0x64) & 0x01) inb(0x60);`; `none` where `fuel` reads do not end it.
  unfoldable pub drain : ℕ → ℕ → Option ℕ
  drain zero n = none
  drain (suc fuel) n =
      let rest = drain fuel (n + 1) in if has_data (status n) then rest else some (n + 1)

  -- From the command that enables the keyboard on.
  unfoldable pub enable : ℕ → Ports → Ending × Ports
  enable n io = elim (wait_while is_full 10000 n) [
    | none ↦ (timeout3, (0x64, 0xAE) ∷ io)
    | some m ↦ elim (wait_while (λ byte. not (has_data byte)) 10000 m) [
      | none ↦ (no_data, (0x60, 0xF4) ∷ (0x64, 0xAE) ∷ io)
      | some l ↦ (done, (0x60, 0xF4) ∷ (0x64, 0xAE) ∷ io)
    ]
  ]

  unfoldable pub keyboard_init : ℕ → Ports → Option (Ending × Ports)
  keyboard_init fuel io = elim (wait_while is_full 10000 0) [
    | none ↦ some (timeout1, io)
    | some n ↦ elim (wait_while is_full 10000 n) [
      | none ↦ some (timeout2, (0x64, 0xAD) ∷ io)
      | some m ↦ (do
        drained ← drain fuel m
        some (enable drained ((0x64, 0xA7) ∷ (0x64, 0xAD) ∷ io)))
    ]
  ]

-- The commands that have been sent by each ending, the last first.
abbrev pub sent_by : Ending → Ports
sent_by timeout1 = []
sent_by timeout2 = (0x64, 0xAD) ∷ []
sent_by timeout3 = (0x64, 0xAE) ∷ (0x64, 0xA7) ∷ (0x64, 0xAD) ∷ []
sent_by no_data = (0x60, 0xF4) ∷ (0x64, 0xAE) ∷ (0x64, 0xA7) ∷ (0x64, 0xAD) ∷ []
sent_by done = (0x60, 0xF4) ∷ (0x64, 0xAE) ∷ (0x64, 0xA7) ∷ (0x64, 0xAD) ∷ []
