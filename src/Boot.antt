-- ===== src/Boot.antt =====
-- kernel/boot.c and kernel/kmain.c: how the kernel puts its components together at the start, with and
-- without the demonstrations. What goes to the log is left out.
pub mod Start
mod Tests
use matrix_os.Prelude.{
  ℕ, ◌+◌, ◌^◌, Bool, true, false, not, List, [], ◌∷◌, Option, none, some, ◌==◌, if◌then◌else◌,
  ◌>>=◌,
}
use Prim.Native.Nat.{bit_and}
use matrix_os.Pic.{Ports}
use matrix_os.Serial.{Uart, serial_init}
use matrix_os.FrameBuffer.{Screen, fb_init, fb_puts, fb_putchar}
use matrix_os.Pmm.{Buddy, pmm_init}
use matrix_os.Paging.{Mm, set_buddy, temp_mapping_init}
use matrix_os.Kmalloc.{kmalloc_init}
use matrix_os.Loader.{Loader, GrubModule, hello, loader_init, loader_get_module_count}
use matrix_os.Interrupts.{Interrupts, isr_install}
use matrix_os.Keyboard.{keyboard_get_char}
use matrix_os.Keyboard.Controller.{keyboard_init}
use matrix_os.Kernel.{Store, boot_vfs_init}
use matrix_os.Kernel.Demo.{run_filesystem_tests}
use matrix_os.Process.{Machine, process_init, process_create_from_module, process_start}
use matrix_os.Syscall.{System, set_screen}

abbrev pub multiboot_bootloader_magic : ℕ
multiboot_bootloader_magic = 0x2BAD_B002

abbrev pub boot_pmm_phys_start : ℕ
boot_pmm_phys_start = 0x0100_0000

abbrev pub boot_pmm_phys_end : ℕ
boot_pmm_phys_end = 0x0200_0000

abbrev pub boot_mbi_flag_modules : ℕ
boot_mbi_flag_modules = 2 ^ 3

-- The words of `multiboot_info_t` that the kernel reads; the records at `mods_addr` are a list.
pub record MultibootInfo : Type 0 where
  pub flags : ℕ
  pub mods_count : ℕ
  pub mods : List GrubModule

-- The whole kernel: what system calls work on, the modules, the interrupt tables, and the port writes.
pub record Kernel : Type 0 where
  pub system : System
  pub loader : Loader
  pub interrupts : Interrupts
  pub io : Ports

-- What the start takes from outside: addresses of data and of assembly entries, the stack pointer,
-- and what the ports read.
pub record Hardware : Type 0 where
  pub files_addr : ℕ
  pub idt_addr : ℕ
  pub vectors : ℕ → ℕ
  pub syscall_entry : ℕ
  pub kernel_esp : ℕ
  pub inb : ℕ → ℕ
  pub inb_later : ℕ → ℕ
  pub status : ℕ → ℕ
  pub test_buffer : ℕ
  pub console_msg : ℕ
  pub stdout_msg : ℕ

abbrev pub with_system : System → Kernel → Kernel
with_system s k = record k { system = s }

abbrev pub screen : Kernel → Screen
screen k = k.system.store.devices.screen

-- "MatrixOS Booting...\n".
abbrev pub booting : List ℕ
booting =
    b'M' ∷ b'a' ∷ b't' ∷ b'r' ∷ b'i' ∷ b'x' ∷ b'O' ∷ b'S' ∷ b' ' ∷ b'B' ∷ b'o' ∷ b'o' ∷ b't' ∷ b'i'
    ∷ b'n' ∷ b'g' ∷ b'.' ∷ b'.' ∷ b'.' ∷ b'\n' ∷ 0 ∷ []

-- "System Ready!\n".
abbrev pub system_ready : List ℕ
system_ready =
    b'S' ∷ b'y' ∷ b's' ∷ b't' ∷ b'e' ∷ b'm' ∷ b' ' ∷ b'R' ∷ b'e' ∷ b'a' ∷ b'd' ∷ b'y' ∷ b'!' ∷ b'\n'
    ∷ 0 ∷ []

-- "No user modules found\n".
abbrev pub no_modules_text : List ℕ
no_modules_text =
    b'N' ∷ b'o' ∷ b' ' ∷ b'u' ∷ b's' ∷ b'e' ∷ b'r' ∷ b' ' ∷ b'm' ∷ b'o' ∷ b'd' ∷ b'u' ∷ b'l' ∷ b'e'
    ∷ b's' ∷ b' ' ∷ b'f' ∷ b'o' ∷ b'u' ∷ b'n' ∷ b'd' ∷ b'\n' ∷ 0 ∷ []

-- "Starting user program...\n".
abbrev pub starting_text : List ℕ
starting_text =
    b'S' ∷ b't' ∷ b'a' ∷ b'r' ∷ b't' ∷ b'i' ∷ b'n' ∷ b'g' ∷ b' ' ∷ b'u' ∷ b's' ∷ b'e' ∷ b'r' ∷ b' '
    ∷ b'p' ∷ b'r' ∷ b'o' ∷ b'g' ∷ b'r' ∷ b'a' ∷ b'm' ∷ b'.' ∷ b'.' ∷ b'.' ∷ b'\n' ∷ 0 ∷ []

unfoldable pub boot_early_console : Kernel → Kernel
boot_early_console k = record k {
  system = set_screen (fb_puts (some booting) (fb_init (screen k))) k.system;
  io = (serial_init 0x3F8 1 (record { reads = 0; io = k.io })).io;
}

unfoldable pub boot_multiboot_ok : ℕ → Bool
boot_multiboot_ok magic = magic == multiboot_bootloader_magic

-- pmm_init and temp_mapping_init.
unfoldable pub init_pages : Mm → Mm
init_pages s =
    temp_mapping_init (set_buddy (pmm_init boot_pmm_phys_start boot_pmm_phys_end s.buddy) s)

unfoldable pub boot_mm_init : System → System
boot_mm_init s =
    let pages = init_pages s.processes.mm in
    let (heap, b) = kmalloc_init pages.buddy in
    record s {
      processes = record s.processes { mm = set_buddy b pages };
      store = record s.store { heap = heap };
    }

unfoldable pub boot_kernel_subsystems_init : System → System
boot_kernel_subsystems_init s = record s {
  processes = record s.processes { table = process_init s.processes.table };
}

unfoldable pub boot_modules_from_mbi : MultibootInfo → Loader → Loader
boot_modules_from_mbi mbi l =
    if not (bit_and mbi.flags boot_mbi_flag_modules == 0)
    then loader_init mbi.mods_count mbi.mods l
    else l

-- boot_vfs_init of the file systems, over the modules.
unfoldable pub mount : ℕ → Loader → System → System
mount files_addr l s =
    let (v, store) = boot_vfs_init files_addr l s.store in record s { vfs = v; store = store }

-- `patience` bounds the reads that empty the keyboard's output buffer.
unfoldable pub boot_interrupts_and_input : ℕ → Hardware → Kernel → Option Kernel
boot_interrupts_and_input patience h k =
    let (tables, io) =
      isr_install h.idt_addr h.vectors h.syscall_entry h.kernel_esp h.inb h.inb_later
        (k.interrupts, k.io) in
    do
      (ending, written) ← keyboard_init h.status patience io
      some (record k { interrupts = tables; io = written })

unfoldable pub boot_print_ready : System → System
boot_print_ready s = set_screen (fb_puts (some system_ready) s.store.devices.screen) s

-- The state once the components are there, before the interrupts are on.
unfoldable pub boot_components : ℕ → MultibootInfo → Kernel → Kernel
boot_components files_addr mbi k =
    let console = boot_early_console k in
    let l = boot_modules_from_mbi mbi console.loader in
    record console {
      system = mount files_addr l (boot_kernel_subsystems_init (boot_mm_init console.system));
      loader = l;
    }

-- The calls of test_fs.c, in the build with the demonstrations.
unfoldable pub boot_filesystem_demo : Hardware → System → System
boot_filesystem_demo h s =
    let (v, store) = run_filesystem_tests h.test_buffer h.console_msg h.stdout_msg s.vfs s.store in
    record s { vfs = v; store = store }

-- The components, and in the build with the demonstrations (`demo`, CONFIG_DEMO_STARTUP) what they show
-- of the file systems.
unfoldable pub boot_before_interrupts : Bool → Hardware → MultibootInfo → Kernel → Kernel
boot_before_interrupts demo h mbi k =
    let ready = boot_components h.files_addr mbi k in
    if demo then with_system (boot_filesystem_demo h ready.system) ready else ready

-- Up to "System Ready!".
unfoldable pub boot_until_ready : ℕ → Bool → Hardware → MultibootInfo → Kernel → Option Kernel
boot_until_ready patience demo h mbi k = do
  ready ← boot_interrupts_and_input patience h (boot_before_interrupts demo h mbi k)
  some (with_system (boot_print_ready ready.system) ready)

-- The text goes to the screen where a process has been made; what `switch_to_user_mode` is called
-- with is the second result.
unfoldable pub start_demo : ℕ × Machine → Kernel → Kernel × Option (ℕ × ℕ × ℕ)
start_demo (pid, m) k =
    let shown =
      set_screen (fb_puts (some starting_text) (screen k)) (record k.system { processes = m }) in
    let (t, entered) = process_start pid m.table in
    if pid == 0
    then (with_system (record k.system { processes = m }) k, none)
    else (with_system (record shown { processes = record m { table = t } }) k, entered)

unfoldable pub boot_user_demo : Kernel → Option (Kernel × Option (ℕ × ℕ × ℕ))
boot_user_demo k =
    if loader_get_module_count k.loader == 0
    then some
        (with_system (set_screen (fb_puts (some no_modules_text) (screen k)) k.system) k, none)
    else (do
      created ← process_create_from_module hello k.loader k.system.processes
      some (start_demo created k))

-- From there to the idle loop, or to a user program.
unfoldable pub boot_after_ready : Bool → Kernel → Option (Kernel × Option (ℕ × ℕ × ℕ))
boot_after_ready demo k = if demo then boot_user_demo k else some (k, none)

-- Up to the idle loop, or to the switch to a user program, whose arguments are the second result;
-- with a wrong magic number the kernel goes back to the assembly code, which halts. The memory tests
-- are off, as boot_config.h has them.
unfoldable pub kmain :
    ℕ → Bool → Hardware → ℕ → MultibootInfo → Kernel → Option (Kernel × Option (ℕ × ℕ × ℕ))
kmain patience demo h magic mbi k =
    if not (boot_multiboot_ok magic)
    then some (boot_early_console k, none)
    else (do ready ← boot_until_ready patience demo h mbi k; boot_after_ready demo ready)

-- A round of the idle loop, up to its `hlt`.
unfoldable pub idle_round : System → System
idle_round s =
    let (c, keyboard) = keyboard_get_char s.store.devices.keyboard in
    let read = record s {
      store = record s.store { devices = record s.store.devices { keyboard = keyboard } };
    } in
    if c == 0 then read else set_screen (fb_putchar c read.store.devices.screen) read
