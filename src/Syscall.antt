-- ===== src/Syscall.antt =====
-- kernel/syscall/syscall.c: the handler of int 0x80 over processes, screen, keyboard and files. A
-- user's pointer is an address in memory as the kernel sees it; `string_at` gives the string at one.
-- What the kernel writes to its log is left out. The kernel writes to buffers without a check of
-- their addresses: a call whose buffer reaches the kernel's half of memory, where its tables and its
-- stack lie, is `none`.
pub mod Effects
pub mod Calls
mod Tests
use matrix_os.Prelude.{
  ℕ, ◌+◌, ◌-◌, ◌%◌, ◌^◌, Bool, true, false, not, ◌||◌, List, [], ◌∷◌, Option, none, some, ◌==◌, ltb,
  if◌then◌else◌, get_or,
}
use matrix_os.Prelude.Int.{ℤ, pos, signed32, unsigned32}
use matrix_os.CString.{Memory}
use matrix_os.Paging.{store_word}
use matrix_os.Keyboard.{keyboard_get_char}
use matrix_os.FrameBuffer.{Screen, fb_puts, fb_putchar}
use matrix_os.Vfs.{
  Vfs, FileStat, einval, vfs_open, vfs_close, vfs_read, vfs_write, vfs_seek, vfs_ioctl, vfs_stat,
}
use matrix_os.Kernel.{Store, machine}
use matrix_os.Process.{Machine, Pcb, Table, zeroed, process_exit_current, process_get_current}

abbrev pub syscall_exit : ℕ
syscall_exit = 1

abbrev pub syscall_puts : ℕ
syscall_puts = 2

abbrev pub syscall_getc : ℕ
syscall_getc = 3

abbrev pub syscall_putchar : ℕ
syscall_putchar = 4

abbrev pub syscall_getpid : ℕ
syscall_getpid = 5

abbrev pub syscall_open : ℕ
syscall_open = 10

abbrev pub syscall_close : ℕ
syscall_close = 11

abbrev pub syscall_read : ℕ
syscall_read = 12

abbrev pub syscall_write : ℕ
syscall_write = 13

abbrev pub syscall_seek : ℕ
syscall_seek = 14

abbrev pub syscall_ioctl : ℕ
syscall_ioctl = 15

abbrev pub syscall_stat : ℕ
syscall_stat = 16

-- `struct regs`.
pub record Regs : Type 0 where
  pub gs : ℕ
  pub fs : ℕ
  pub es : ℕ
  pub ds : ℕ
  pub edi : ℕ
  pub esi : ℕ
  pub ebp : ℕ
  pub esp : ℕ
  pub ebx : ℕ
  pub edx : ℕ
  pub ecx : ℕ
  pub eax : ℕ
  pub int_no : ℕ
  pub err_code : ℕ
  pub eip : ℕ
  pub cs : ℕ
  pub eflags : ℕ
  pub useresp : ℕ
  pub ss : ℕ

-- What a system call reads and changes.
pub record System : Type 0 where
  pub processes : Machine
  pub vfs : Vfs Store
  pub store : Store

abbrev pub set_screen : Screen → System → System
set_screen screen k = record k {
  store = record k.store { devices = record k.store.devices { screen = screen } };
}

-- `current ? current->pid : 0`.
abbrev pub pid_of : Option ℕ → Table → ℕ
pid_of none t = 0
pid_of (some place) t = (get_or t.processes place zeroed).pid

abbrev pub current_pid : System → ℕ
current_pid k = pid_of (process_get_current k.processes.table) k.processes.table

-- A `char` as `uint32_t`: its sign goes into the upper bits.
abbrev pub char_word : ℕ → ℕ
char_word c = if ltb c 128 then c else c + (2 ^ 32 - 256)

abbrev pub user_tag : List ℕ
user_tag = b'[' ∷ b'U' ∷ b'S' ∷ b'E' ∷ b'R' ∷ b']' ∷ b' ' ∷ 0 ∷ []

abbrev pub set_eax : ℤ → Regs → Regs
set_eax result r = record r { eax = unsigned32 result }

unfoldable pub sys_getc : Regs → System → Regs × System
sys_getc r k =
    let (c, keyboard) = keyboard_get_char k.store.devices.keyboard in
    (
      (if not (c == 0) then record r { eax = char_word c } else record r { eax = 0 }),
      record k {
        store = record k.store { devices = record k.store.devices { keyboard = keyboard } };
      },
    )

-- A call of vfs.c that gives the table and the store back.
abbrev pub after_vfs : Regs → System → ℤ × Vfs Store × Store → Regs × System
after_vfs r k (result, v, s) = (set_eax result r, record k { vfs = v; store = s })

-- A call that gives the store back.
abbrev pub after_store : Regs → System → ℤ × Store → Regs × System
after_store r k (result, s) = (set_eax result r, record k { store = s })

-- `struct file_stat` at an address.
abbrev pub put_stat : ℕ → FileStat → System → System
put_stat address stat k =
    let put = λ (place word : ℕ) (m : Memory). store_word m (address + place) word in
    record k {
      store = record k.store {
        devices = record k.store.devices {
          memory =
              put 12 stat.inode
                (put 8 stat.type (put 4 stat.mode (put 0 stat.size k.store.devices.memory)));
        };
      };
    }

abbrev pub after_stat : Regs → ℕ → System → ℤ × Option FileStat → Regs × System
after_stat r address k (result, none) = (set_eax result r, k)
after_stat r address k (result, some stat) = (set_eax result r, put_stat address stat k)

-- The kernel's half of memory starts here.
abbrev pub kernel_start : ℕ
kernel_start = 0xC000_0000

-- A call that may write to the `size` bytes from a user's pointer on: the count of a read, a file_stat,
-- and the int of an ioctl, whatever its request.
abbrev pub with_buffer : ℕ → ℕ → Regs × System → Option (Regs × System)
with_buffer address size result = if ltb kernel_start (address + size) then none else some result

unfoldable pub sys_read : Regs → System → Option (Regs × System)
sys_read r k =
    if r.ecx == 0
    then some (set_eax einval r, k)
    else with_buffer r.ecx r.edx
        (after_vfs r k (vfs_read (signed32 r.ebx) r.ecx r.edx k.vfs k.store))

unfoldable pub sys_write : Regs → System → Regs × System
sys_write r k =
    if r.ecx == 0
    then (set_eax einval r, k)
    else after_vfs r k (vfs_write machine (signed32 r.ebx) r.ecx r.edx k.vfs k.store)

module _ (string_at : Store → ℕ → List ℕ) where
  unfoldable pub sys_puts : ℕ → System → System
  sys_puts str k =
      let tagged = fb_puts (some user_tag) k.store.devices.screen in
      let shown = fb_puts (some (string_at k.store str)) tagged in
      if str == 0 then k else set_screen (fb_puts (some (b'\n' ∷ 0 ∷ [])) shown) k

  unfoldable pub sys_open : Regs → System → Regs × System
  sys_open r k =
      if r.ebx == 0
      then (set_eax einval r, k)
      else after_vfs r k (vfs_open (some (string_at k.store r.ebx)) r.ecx k.vfs k.store)

  unfoldable pub sys_stat : Regs → System → Option (Regs × System)
  sys_stat r k =
      if (r.ebx == 0) || (r.ecx == 0)
      then some (set_eax einval r, k)
      else with_buffer r.ecx 16
          (after_stat r r.ecx k (vfs_stat (some (string_at k.store r.ebx)) true k.vfs k.store))

  -- The cases from SYSCALL_SEEK on.
  unfoldable pub late_syscall : Regs → System → Option (Regs × System)
  late_syscall r k =
      if r.eax == syscall_seek
      then some (
          after_store r k
            (vfs_seek (signed32 r.ebx) (signed32 r.ecx) (signed32 r.edx) k.vfs k.store))
      else if r.eax == syscall_ioctl
      then with_buffer r.edx 4
          (after_store r k (vfs_ioctl (signed32 r.ebx) (signed32 r.ecx) r.edx k.vfs k.store))
      else if r.eax == syscall_stat
      then sys_stat r k
      else some (record r { eax = 2 ^ 32 - 1 }, k)

  -- The cases from SYSCALL_OPEN to SYSCALL_WRITE, and the rest.
  unfoldable pub file_syscall : Regs → System → Option (Regs × System)
  file_syscall r k =
      if r.eax == syscall_open
      then some (sys_open r k)
      else if r.eax == syscall_close
      then some (after_vfs r k (vfs_close (signed32 r.ebx) k.vfs k.store))
      else if r.eax == syscall_read
      then sys_read r k
      else if r.eax == syscall_write
      then some (sys_write r k)
      else late_syscall r k

  -- `case SYSCALL_EXIT` leaves the registers as they are, and so do the two cases that print.
  unfoldable pub syscall_handler : Regs → System → Option (Regs × System)
  syscall_handler r k =
      if r.eax == syscall_exit
      then some (r, record k { processes = process_exit_current k.processes })
      else if r.eax == syscall_puts
      then some (r, sys_puts r.ebx k)
      else if r.eax == syscall_putchar
      then some (r, set_screen (fb_putchar (r.ebx % 256) k.store.devices.screen) k)
      else if r.eax == syscall_getc
      then some (sys_getc r k)
      else if r.eax == syscall_getpid
      then some (record r { eax = current_pid k }, k)
      else file_syscall r k
