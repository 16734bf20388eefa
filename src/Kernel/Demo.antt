-- ===== src/Kernel/Demo.antt =====
-- kernel/fs/test_fs.c: the calls of vfs.c that the demonstration of the file systems makes. The
-- addresses of its buffer and of its two messages are arguments; what it logs is left out.
use matrix_os.Prelude.{ℕ, zero, suc, ◌+◌, some, if◌then◌else◌, inl, inr, Bool-cases}
use matrix_os.Prelude.Int.{ℤ, pos, negsuc, is_neg}
use matrix_os.CString.{store}
use matrix_os.Loader.{hello}
use matrix_os.Vfs.{Vfs, o_rdonly, o_wronly, vfs_open, vfs_close, vfs_read, vfs_write}
use matrix_os.Vfs.Calls
use matrix_os.DevFs.{console_path}
use matrix_os.Kernel.{Store, machine}

-- `if (bytes_read > 0) buffer[bytes_read] = '\0'`.
abbrev pub terminated_at : ℕ → ℤ → Store → Store
terminated_at buffer (pos zero) s = s
terminated_at buffer (pos (suc n)) s = record s {
  devices = record s.devices { memory = store s.devices.memory (buffer + suc n) 0 };
}
terminated_at buffer (negsuc n) s = s

-- Test 2 with its descriptor.
unfoldable pub read_file : ℕ → ℤ → Vfs Store → Store → Vfs Store × Store
read_file buffer fd v s =
    let (bytes_read, w, t) = vfs_read fd buffer 127 v s in
    let (result, x, u) = vfs_close fd w (terminated_at buffer bytes_read t) in
    if is_neg fd then (v, s) else (x, u)

-- Test 3 with its descriptor.
unfoldable pub write_console : ℕ → ℤ → Vfs Store → Store → Vfs Store × Store
write_console msg fd v s =
    let (written, w, t) = vfs_write machine fd msg 36 v s in
    let (result, x, u) = vfs_close fd w t in if is_neg fd then (v, s) else (x, u)

unfoldable pub run_filesystem_tests : ℕ → ℕ → ℕ → Vfs Store → Store → Vfs Store × Store
run_filesystem_tests buffer msg stdout_msg v s =
    let (fd, opened, opened_store) = vfs_open (some hello) o_rdonly v s in
    let (after_read, read_store) = read_file buffer fd opened opened_store in
    let (console_fd, console, console_store) =
      vfs_open (some console_path) o_wronly after_read read_store in
    let (after_write, write_store) = write_console msg console_fd console console_store in
    let (written, w, t) = vfs_write machine (pos 1) stdout_msg 28 after_write write_store in (w, t)

read_file-IsSound :
    (buffer : ℕ) (fd : ℤ) (v : Vfs Store) (s : Store)
    → Calls.IsSound v
    → Calls.IsSound (read_file buffer fd v s).0
unfolding read_file
read_file-IsSound buffer fd v s sound = elim (Bool-cases (is_neg fd)) [
  | inl e ↦ rw e sound
  | inr e ↦ rw e (
      Calls.Call-IsSound _ _ (Calls.closing fd _)
        (Calls.Call-IsSound v _ (Calls.reading fd buffer 127 s) sound))
]

write_console-IsSound :
    (msg : ℕ) (fd : ℤ) (v : Vfs Store) (s : Store)
    → Calls.IsSound v
    → Calls.IsSound (write_console msg fd v s).0
unfolding write_console
write_console-IsSound msg fd v s sound = elim (Bool-cases (is_neg fd)) [
  | inl e ↦ rw e sound
  | inr e ↦ rw e (
      Calls.Call-IsSound _ _ (Calls.closing fd _)
        (Calls.Call-IsSound v _ (Calls.writing machine fd msg 36 s) sound))
]

pub run_filesystem_tests-IsSound :
    (buffer msg stdout_msg : ℕ) (v : Vfs Store) (s : Store)
    → Calls.IsSound v
    → Calls.IsSound (run_filesystem_tests buffer msg stdout_msg v s).0
unfolding run_filesystem_tests
run_filesystem_tests-IsSound buffer msg stdout_msg v s sound =
    let (fd, opened, opened_store) = vfs_open (some hello) o_rdonly v s in
    let first = Calls.Call-IsSound v opened (Calls.opening (some hello) o_rdonly s) sound in
    let second = read_file-IsSound buffer fd opened opened_store first in
    let (after_read, read_store) = read_file buffer fd opened opened_store in
    let (console_fd, console, console_store) =
      vfs_open (some console_path) o_wronly after_read read_store in
    let third =
      Calls.Call-IsSound after_read console (Calls.opening (some console_path) o_wronly read_store)
        second in
    let fourth = write_console-IsSound msg console_fd console console_store third in
    let (after_write, write_store) = write_console msg console_fd console console_store in
    Calls.Call-IsSound after_write _ (Calls.writing machine (pos 1) stdout_msg 28 write_store)
      fourth
