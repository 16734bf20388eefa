-- ===== src/Syscall/Calls.antt =====
-- The system calls over any state: registers, unknown numbers, sequences, and the exit.
use matrix_os.Prelude.{ℕ, ◌≡◌, subst, arith, Bool, false, ◌||◌, ◌&&◌, List, Option, none, some, leb}
use matrix_os.Vfs.Calls
use matrix_os.Kernel.{Store}
use matrix_os.Process.{Machine, process_exit_current}
use matrix_os.Process.Calls.{WellFormed}
use matrix_os.Process.History
use matrix_os.Syscall.{Regs, System, late_syscall, file_syscall, syscall_handler}
use matrix_os.Syscall.Effects.{
  with_eax, Served, exiting, printing, silent, typed, answered, filed, stored, overwriting,
  handler-Served,
}

-- The user's registers after a system call.
KeepsRegs : Regs → Option (Regs × System) → Type 0
KeepsRegs r result = (v : ℕ) × (n : System) × (result ≡ some (with_eax v r, n))

-- The numbers of syscall.h.
abbrev pub is_syscall : ℕ → Bool
is_syscall n = (leb 1 n && leb n 5) || (leb 10 n && leb n 16)

-- A number that syscall.h does not define, which is none of 1 to 5 and of 10 to 16, answers
-- 0xFFFFFFFF and changes nothing.
pub syscall_unknown :
    (string_at : Store → ℕ → List ℕ) (r : Regs) (k : System)
    → is_syscall r.eax ≡ false
    → syscall_handler string_at r k ≡ some (with_eax 0xFFFF_FFFF r, k)
unfolding syscall_handler file_syscall late_syscall
syscall_unknown string_at r k unknown = ground arith

-- What holds of the process table and of the descriptors.
pub record IsSound (k : System) : Type 0 where
  pub processes : WellFormed k.processes.table
  pub descriptors : Calls.IsSound k.vfs

exit-WellFormed : (m : Machine) → WellFormed m.table → WellFormed (process_exit_current m).table
exit-WellFormed m w =
    let moves = History.Call-Moves m (process_exit_current m) History.exits w in moves.formed

-- The state after a system call.
SoundAfter : Option (Regs × System) → Type 0
SoundAfter none = Unit
SoundAfter (some (r, k)) = IsSound k

Served-SoundAfter :
    (r : Regs) (k : System) (result : Option (Regs × System))
    → Served r k result
    → IsSound k
    → SoundAfter result
unfolding SoundAfter
Served-SoundAfter r k _ (overwriting over) s = tt
Served-SoundAfter r k _ (exiting e) s = record {
  processes = exit-WellFormed k.processes s.processes;
  descriptors = s.descriptors;
}
Served-SoundAfter r k _ (printing screen) s = record {
  processes = s.processes;
  descriptors = s.descriptors;
}
Served-SoundAfter r k _ silent s = s
Served-SoundAfter r k _ (typed v keyboard) s = record {
  processes = s.processes;
  descriptors = s.descriptors;
}
Served-SoundAfter r k _ (answered v) s = s
Served-SoundAfter r k _ (filed v w store call) s = record {
  processes = s.processes;
  descriptors = Calls.Call-IsSound k.vfs w call s.descriptors;
}
Served-SoundAfter r k _ (stored v store) s = record {
  processes = s.processes;
  descriptors = s.descriptors;
}

handler-IsSound :
    (string_at : Store → ℕ → List ℕ) (r next : Regs) (k m : System)
    → IsSound k
    → syscall_handler string_at r k ≡ some (next, m)
    → IsSound m
unfolding SoundAfter
handler-IsSound string_at r next k m s returns =
    subst SoundAfter returns
      (Served-SoundAfter r k (syscall_handler string_at r k) (handler-Served string_at r k) s)

-- System calls and the kernel's own calls of process.c, one after another.
pub data Reach (k : System) : System → Type 0 where
  here : Reach k k
  syscall :
      {m n : System} (string_at : Store → ℕ → List ℕ) (r next : Regs)
      → Reach k m
      → syscall_handler string_at r m ≡ some (next, n)
      → Reach k n
  scheduling :
      {m : System} (p : Machine)
      → Reach k m
      → History.Call m.processes p
      → Reach k (record m { processes = p })

-- Any sequence of system calls whose buffers to write to do not reach the kernel's half of memory, with
-- calls of process.c by the kernel between them, keeps the process table well formed and the
-- descriptor table sound: 32 handles, each zeroed or with one reference.
pub syscalls-IsSound : (k m : System) → IsSound k → Reach k m → IsSound m
syscalls-IsSound k _ s here = s
syscalls-IsSound k n s (syscall {m = before} string_at r next reach returns) =
    handler-IsSound string_at r next before n (syscalls-IsSound k before s reach) returns
syscalls-IsSound k _ s (scheduling {m = before} p reach call) =
    let sound = syscalls-IsSound k before s reach in
    let moves = History.Call-Moves before.processes p call sound.processes in
    record { processes = moves.formed; descriptors = sound.descriptors }
