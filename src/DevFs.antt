-- ===== src/DevFs.antt =====
-- kernel/fs/devfs.c: the devices /dev/console, /dev/null and /dev/zero. The console reads the keyboard's
-- ring and writes to the screen.
pub mod Console
mod Tests
use matrix_os.Prelude.{
  ℕ, zero, suc, ◌+◌, ◌<◌, Bool, ◌||◌, List, [], ◌∷◌, Option, none, some, ◌==◌, leb, if◌then◌else◌,
  get_or, set, replicate,
}
use matrix_os.Prelude.Int.{ℤ, pos, negsuc, signed32, unsigned32}
use matrix_os.CString.{Memory, store, strcmp, memset}
use matrix_os.Keyboard.{Keyboard, keyboard_get_char}
use matrix_os.FrameBuffer.{Screen, fb_putchar, fb_clear}
use matrix_os.Vfs.{FileStat, enoent, emfile, ebadf, einval, eio, is_zero}

abbrev pub device_console : ℕ
device_console = 1

abbrev pub device_null : ℕ
device_null = 2

abbrev pub device_zero : ℕ
device_zero = 3

-- `struct devfs_private`; device 0 is a free handle.
pub record DevHandle : Type 0 where
  pub device : ℕ
  pub pos : ℕ

-- What the calls change: the handles, the keyboard's ring, the screen, and memory.
pub record Devices : Type 0 where
  pub devfs_handles : List DevHandle
  pub keyboard : Keyboard
  pub screen : Screen
  pub memory : Memory

abbrev pub free_handle : DevHandle
free_handle = record { device = 0; pos = 0 }

abbrev pub console_path : List ℕ
console_path =
    b'/' ∷ b'd' ∷ b'e' ∷ b'v' ∷ b'/' ∷ b'c' ∷ b'o' ∷ b'n' ∷ b's' ∷ b'o' ∷ b'l' ∷ b'e' ∷ 0 ∷ []

abbrev pub null_path : List ℕ
null_path = b'/' ∷ b'd' ∷ b'e' ∷ b'v' ∷ b'/' ∷ b'n' ∷ b'u' ∷ b'l' ∷ b'l' ∷ 0 ∷ []

abbrev pub zero_path : List ℕ
zero_path = b'/' ∷ b'd' ∷ b'e' ∷ b'v' ∷ b'/' ∷ b'z' ∷ b'e' ∷ b'r' ∷ b'o' ∷ 0 ∷ []

-- `none` for -1.
unfoldable pub devfs_resolve_device : List ℕ → Option ℕ
devfs_resolve_device path =
    if is_zero (strcmp path console_path)
    then some device_console
    else if is_zero (strcmp path null_path)
    then some device_null
    else if is_zero (strcmp path zero_path)
    then some device_zero
    else none

-- The search for a free handle, over the handles from index `i` on.
unfoldable pub find_handle : ℕ → List DevHandle → Option ℕ
find_handle i [] = none
find_handle i (h ∷ rest) =
    let later = find_handle (i + 1) rest in if h.device == 0 then some i else later

abbrev pub set_handle : Devices → ℕ → DevHandle → Devices
set_handle d h p = record d { devfs_handles = set d.devfs_handles h p }

unfoldable pub devfs_open : List ℕ → ℕ → Devices → ℤ × Devices
devfs_open path flags d = elim (devfs_resolve_device path) [
  | none ↦ (enoent, d)
  | some device ↦ elim (find_handle 0 d.devfs_handles) [
    | none ↦ (emfile, d)
    | some h ↦ (pos h, set_handle d h (record { device = device; pos = 0 }))
  ]
]

-- The device behind a handle, 0 where the handle is out of range or free.
abbrev pub device_of : ℤ → Devices → ℕ
device_of (negsuc n) d = 0
device_of (pos h) d = if leb 32 h then 0 else (get_or d.devfs_handles h free_handle).device

abbrev index_of : ℤ → ℕ
index_of (negsuc n) = 0
index_of (pos h) = h

unfoldable pub devfs_close : ℤ → Devices → ℤ × Devices
devfs_close handle d =
    if device_of handle d == 0
    then (ebadf, d)
    else (pos 0, set_handle d (index_of handle) free_handle)

-- The loop of the console read, with the rounds left: `read_count` bytes have been stored at `buf`.
unfoldable pub read_console : ℕ → ℕ → ℕ → Keyboard → Memory → ℕ × Keyboard × Memory
read_console zero read_count buf k m = (read_count, k, m)
read_console (suc n) read_count buf k m =
    let (c, k') = keyboard_get_char k in
    let m' = store m (buf + read_count) c in
    let rest = read_console n (read_count + 1) buf k' m' in
    if c == 0 then (read_count, k', m) else if c == 10 then (read_count + 1, k', m') else rest

unfoldable pub devfs_read : ℤ → ℕ → ℕ → Devices → ℤ × Devices
devfs_read handle buf count d =
    let device = device_of handle d in
    let (read_count, k, m) = read_console count 0 buf d.keyboard d.memory in
    if device == 0
    then (ebadf, d)
    else if device == device_console
    then (signed32 read_count, record d { keyboard = k; memory = m })
    else if device == device_null
    then (pos 0, d)
    else if device == device_zero
    then (signed32 count, record d { memory = memset buf 0 count d.memory })
    else (eio, d)

-- `for (i = 0; i < count; i++) fb_putchar(buffer[i])`, from index `i`, with the rounds left.
unfoldable pub put_chars : ℕ → ℕ → ℕ → Memory → Screen → Screen
put_chars zero i buf m s = s
put_chars (suc n) i buf m s = put_chars n (i + 1) buf m (fb_putchar (m (buf + i)) s)

unfoldable pub devfs_write : ℤ → ℕ → ℕ → Devices → ℤ × Devices
devfs_write handle buf count d =
    let device = device_of handle d in
    if device == 0
    then (ebadf, d)
    else if device == device_console
    then (signed32 count, record d { screen = put_chars count 0 buf d.memory d.screen })
    else if device == device_null
    then (signed32 count, d)
    else if device == device_zero
    then (signed32 count, d)
    else (eio, d)

unfoldable pub devfs_seek : ℤ → ℤ → ℤ → ℤ
devfs_seek handle offset whence = einval

-- The 32-bit word at `a` set to zero.
abbrev clear_word : ℕ → Memory → Memory
clear_word a m = memset a 0 4 m

unfoldable pub devfs_ioctl : ℤ → ℤ → ℕ → Devices → ℤ × Devices
devfs_ioctl handle (negsuc n) argp d = if device_of handle d == 0 then (ebadf, d) else (einval, d)
devfs_ioctl handle (pos request) argp d =
    if device_of handle d == 0
    then (ebadf, d)
    else if device_of handle d == device_console
    then (if request == 1
        then (pos 0, record d { screen = fb_clear d.screen })
        else if request == 2
        then (if argp == 0
            then (einval, d)
            else (pos 0, record d { memory = clear_word argp d.memory }))
        else (einval, d))
    else (einval, d)

-- Mode 0666.
unfoldable pub devfs_stat : List ℕ → ℤ × Option FileStat
devfs_stat path = elim (devfs_resolve_device path) [
  | none ↦ (enoent, none)
  | some device ↦ (pos 0, some (record { size = 0; mode = 438; type = 3; inode = device }))
]

unfoldable pub devfs_init : Devices → Devices
devfs_init d = record d { devfs_handles = replicate 32 free_handle }
