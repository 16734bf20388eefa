-- ===== src/Syscall/Effects.antt =====
-- What a system call may change, whatever its number and arguments.
use matrix_os.Prelude.{
  ℕ, ◌+◌, ◌-◌, ◌%◌, ◌^◌, ◌≡◌, ◌∙◌, refl, inl, inr, Bool, true, false, ltb, if◌then◌else◌, ◌||◌,
  List, [], ◌∷◌, Option, none, some, ◌==◌, Bool-cases, ==→eq,
}
use matrix_os.Prelude.Int.{ℤ, signed32, unsigned32}
use matrix_os.FrameBuffer.{Screen, fb_puts, fb_putchar}
use matrix_os.Keyboard.{Keyboard, keyboard_get_char}
use matrix_os.Vfs.{
  Vfs, FileStat, einval, vfs_open, vfs_close, vfs_read, vfs_write, vfs_seek, vfs_ioctl, vfs_stat,
}
use matrix_os.Vfs.Calls
use matrix_os.Kernel.{Store, machine}
use matrix_os.Process.{process_exit_current}
use matrix_os.Syscall.{
  Regs, System, set_screen, user_tag, current_pid, char_word, after_vfs, after_store, after_stat,
  put_stat, kernel_start, with_buffer, sys_puts, sys_getc, sys_open, sys_read, sys_write, sys_stat,
  late_syscall, file_syscall, syscall_handler,
}

abbrev pub with_eax : ℕ → Regs → Regs
with_eax v r = record r { eax = v }

abbrev pub set_keyboard : Keyboard → System → System
set_keyboard keyboard k = record k {
  store = record k.store { devices = record k.store.devices { keyboard = keyboard } };
}

-- Whether the buffer that a call writes to reaches the kernel's half of memory.
abbrev pub reaches_kernel : Regs → Bool
reaches_kernel r =
    if r.eax == 12
    then ltb kernel_start (r.ecx + r.edx)
    else if r.eax == 15
    then ltb kernel_start (r.edx + 4)
    else if r.eax == 16
    then ltb kernel_start (r.ecx + 16)
    else false

-- The outcomes of a system call.
pub data Served (r : Regs) (k : System) : Option (Regs × System) → Type 0 where
  overwriting : reaches_kernel r ≡ true → Served r k none
  exiting :
      r.eax ≡ 1 → Served r k (some (r, record k { processes = process_exit_current k.processes }))
  printing : (s : Screen) → Served r k (some (r, set_screen s k))
  silent : Served r k (some (r, k))
  typed : (v : ℕ) (keyboard : Keyboard) → Served r k (some (with_eax v r, set_keyboard keyboard k))
  answered : (v : ℕ) → Served r k (some (with_eax v r, k))
  filed :
      (v : ℕ) (w : Vfs Store) (s : Store)
      → Calls.Call k.vfs w
      → Served r k (some (with_eax v r, record k { vfs = w; store = s }))
  stored : (v : ℕ) (s : Store) → Served r k (some (with_eax v r, record k { store = s }))

after_vfs-Served :
    (r : Regs) (k : System) (result : ℤ × Vfs Store × Store)
    → Calls.Call k.vfs (Calls.table result)
    → Served r k (some (after_vfs r k result))
after_vfs-Served r k (result, w, s) call = filed (unsigned32 result) w s call

after_store-Served :
    (r : Regs) (k : System) (result : ℤ × Store) → Served r k (some (after_store r k result))
after_store-Served r k (result, s) = stored (unsigned32 result) s

after_stat-Served :
    (r : Regs) (address : ℕ) (k : System) (result : ℤ × Option FileStat)
    → Served r k (some (after_stat r address k result))
after_stat-Served r address k (result, none) = answered (unsigned32 result)
after_stat-Served r address k (result, some stat) =
    stored (unsigned32 result) (put_stat address stat k).store

getc-Served : (r : Regs) (k : System) → Served r k (some (sys_getc r k))
unfolding sys_getc
getc-Served r k =
    let (c, keyboard) = keyboard_get_char k.store.devices.keyboard in
    elim (Bool-cases ((keyboard_get_char k.store.devices.keyboard).0 == 0)) [
      | inl e ↦ rw e (typed 0 (keyboard_get_char k.store.devices.keyboard).1)
      | inr e ↦ rw e (
          typed (char_word (keyboard_get_char k.store.devices.keyboard).0)
            (keyboard_get_char k.store.devices.keyboard).1)
    ]

-- A call with a buffer for the kernel to write to.
buffer-Served :
    (r : Regs) (k : System) (address size : ℕ) (result : Regs × System)
    → reaches_kernel r ≡ ltb kernel_start (address + size)
    → Served r k (some result)
    → Served r k (with_buffer address size result)
buffer-Served r k address size result buffer served =
    elim (Bool-cases (ltb kernel_start (address + size))) [
      | inl e ↦ rw e (overwriting (buffer ∙ e))
      | inr e ↦ rw e served
    ]

read-Served : (r : Regs) (k : System) → r.eax ≡ 12 → Served r k (sys_read r k)
unfolding sys_read
read-Served r k number = elim (Bool-cases (r.ecx == 0)) [
  | inl e ↦ rw e (answered (unsigned32 einval))
  | inr e ↦ rw e (
      buffer-Served r k r.ecx r.edx
        (after_vfs r k (vfs_read (signed32 r.ebx) r.ecx r.edx k.vfs k.store)) (rw number refl)
        (after_vfs-Served r k (vfs_read (signed32 r.ebx) r.ecx r.edx k.vfs k.store)
          (Calls.reading (signed32 r.ebx) r.ecx r.edx k.store)))
]

write-Served : (r : Regs) (k : System) → Served r k (some (sys_write r k))
unfolding sys_write
write-Served r k = elim (Bool-cases (r.ecx == 0)) [
  | inl e ↦ rw e (answered (unsigned32 einval))
  | inr e ↦ rw e (
      after_vfs-Served r k (vfs_write machine (signed32 r.ebx) r.ecx r.edx k.vfs k.store)
        (Calls.writing machine (signed32 r.ebx) r.ecx r.edx k.store))
]

module _ (string_at : Store → ℕ → List ℕ) (r : Regs) (k : System) where
  puts-Served : Served r k (some (r, sys_puts string_at r.ebx k))
  unfolding sys_puts
  puts-Served = elim (Bool-cases (r.ebx == 0)) [
    | inl e ↦ rw e silent
    | inr e ↦ rw e (
        printing (
          fb_puts (some (b'\n' ∷ 0 ∷ [])) (
            fb_puts (some (string_at k.store r.ebx))
              (fb_puts (some user_tag) k.store.devices.screen))))
  ]

  open-Served : Served r k (some (sys_open string_at r k))
  unfolding sys_open
  open-Served = elim (Bool-cases (r.ebx == 0)) [
    | inl e ↦ rw e (answered (unsigned32 einval))
    | inr e ↦ rw e (
        after_vfs-Served r k (vfs_open (some (string_at k.store r.ebx)) r.ecx k.vfs k.store)
          (Calls.opening (some (string_at k.store r.ebx)) r.ecx k.store))
  ]

  stat-Served : r.eax ≡ 16 → Served r k (sys_stat string_at r k)
  unfolding sys_stat
  stat-Served number = elim (Bool-cases ((r.ebx == 0) || (r.ecx == 0))) [
    | inl e ↦ rw e (answered (unsigned32 einval))
    | inr e ↦
        let result = vfs_stat (some (string_at k.store r.ebx)) true k.vfs k.store in
        rw e (
          buffer-Served r k r.ecx 16 (after_stat r r.ecx k result) (rw number refl)
            (after_stat-Served r r.ecx k result))
  ]

  -- The last three numbers, and those that are none.
  late-Served : Served r k (late_syscall string_at r k)
  unfolding late_syscall
  late-Served = elim (Bool-cases (r.eax == 14)) [
    | inl e ↦ rw e (
        after_store-Served r k
          (vfs_seek (signed32 r.ebx) (signed32 r.ecx) (signed32 r.edx) k.vfs k.store))
    | inr n14 ↦ elim (Bool-cases (r.eax == 15)) [
      | inl e ↦
          rw (n14, e)
            (buffer-Served r k r.edx 4
              (after_store r k (vfs_ioctl (signed32 r.ebx) (signed32 r.ecx) r.edx k.vfs k.store))
              (rw (==→eq r.eax 15 e) refl)
              (after_store-Served r k
                (vfs_ioctl (signed32 r.ebx) (signed32 r.ecx) r.edx k.vfs k.store)))
      | inr n15 ↦ elim (Bool-cases (r.eax == 16)) [
        | inl e ↦ rw (n14, n15, e) (stat-Served (==→eq r.eax 16 e))
        | inr n16 ↦ rw (n14, n15, n16) (answered (2 ^ 32 - 1))
      ]
    ]
  ]

  file-Served : Served r k (file_syscall string_at r k)
  unfolding file_syscall
  file-Served = elim (Bool-cases (r.eax == 10)) [
    | inl e ↦ rw e open-Served
    | inr n10 ↦ elim (Bool-cases (r.eax == 11)) [
      | inl e ↦
          rw (n10, e)
            (after_vfs-Served r k (vfs_close (signed32 r.ebx) k.vfs k.store)
              (Calls.closing (signed32 r.ebx) k.store))
      | inr n11 ↦ elim (Bool-cases (r.eax == 12)) [
        | inl e ↦ rw (n10, n11, e) (read-Served r k (==→eq r.eax 12 e))
        | inr n12 ↦ elim (Bool-cases (r.eax == 13)) [
          | inl e ↦ rw (n10, n11, n12, e) (write-Served r k)
          | inr n13 ↦ rw (n10, n11, n12, n13) late-Served
        ]
      ]
    ]
  ]

  pub handler-Served : Served r k (syscall_handler string_at r k)
  unfolding syscall_handler
  handler-Served = elim (Bool-cases (r.eax == 1)) [
    | inl e ↦ rw e (exiting (==→eq r.eax 1 e))
    | inr n1 ↦ elim (Bool-cases (r.eax == 2)) [
      | inl e ↦ rw (n1, e) puts-Served
      | inr n2 ↦ elim (Bool-cases (r.eax == 4)) [
        | inl e ↦ rw (n1, n2, e) (printing (fb_putchar (r.ebx % 256) k.store.devices.screen))
        | inr n4 ↦ elim (Bool-cases (r.eax == 3)) [
          | inl e ↦ rw (n1, n2, n4, e) (getc-Served r k)
          | inr n3 ↦ elim (Bool-cases (r.eax == 5)) [
            | inl e ↦ rw (n1, n2, n4, n3, e) (answered (current_pid k))
            | inr n5 ↦ rw (n1, n2, n4, n3, n5) file-Served
          ]
        ]
      ]
    ]
  ]
