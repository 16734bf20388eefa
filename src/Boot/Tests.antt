-- ===== src/Boot/Tests.antt =====
-- The start of the kernel on a machine whose keyboard answers at once.
use matrix_os.Prelude.{
  ℕ, ◌+◌, ◌*◌, ◌≡◌, refl, arith, inr, true, false, ◌==◌, [], Option, none, some, leb, if◌then◌else◌,
  replicate,
}
use matrix_os.Keyboard.{empty_keyboard}
use matrix_os.Keyboard.Controller.{keyboard_init, wait_while, drain, enable}
use matrix_os.Loader.{empty_loader}
use matrix_os.Process.{zeroed}
use matrix_os.Interrupts.{Interrupts}
use matrix_os.Interrupts.Gates.{no_gate}
use matrix_os.Syscall.{System}
use matrix_os.Boot.{
  MultibootInfo, Kernel, Hardware, multiboot_bootloader_magic, boot_multiboot_ok,
  boot_interrupts_and_input, boot_until_ready, boot_after_ready, boot_before_interrupts,
  boot_user_demo, boot_components, boot_modules_from_mbi, boot_early_console, kmain,
}
use matrix_os.Paging.{load_word}
use matrix_os.CString.{Memory}
use matrix_os.Syscall.Calls.{IsSound}
use matrix_os.Boot.Start.{IsStatic, IsStarted, kmain-IsStarted}

-- The directory's entry for the slots leads to the page table at 0x10E000.
abbrev page_tables : Memory
page_tables a =
    if a == 0x0010_DC00
    then 3
    else if a == 0x0010_DC01
    then 0xE0
    else if a == 0x0010_DC02
    then 0x10
    else 0

abbrev static_data : System
static_data = record {
  processes = record {
    table = record { processes = replicate 16 zeroed; current = none; next_pid = 1 };
    mm = record {
      temp = record { lock = false; available_slots = 0; ref_count = replicate 4 0 };
      buddy = record {
        total_pages = 0;
        managed_pages = 0;
        base_addr = 0;
        free_area = [];
        bitmap = λ i. false;
        page_order = λ a. 0;
      };
      phys = page_tables;
      directory = 0x0010_D000;
    };
  };
  vfs = record { fs_list = []; open_files = [] };
  store = record {
    devices = record {
      devfs_handles = [];
      keyboard = empty_keyboard;
      screen = record { vram = λ x. 0; cursor_pos = 0; current_fg = 7; current_bg = 0; io = [] };
      memory = λ x. 0;
    };
    ramfs = record { files = []; file_count = 0; ramfs_handles = [] };
    heap = record { blocks = []; total_allocated = 0; total_freed = 0; current_usage = 0 };
  };
}

abbrev tables : Interrupts
tables = record {
  idt = replicate 256 no_gate;
  idt_ptr = record { limit = 0; base = 0 };
  tss = record {
    prev_tss = 0;
    esp0 = 0;
    ss0 = 0;
    esp1 = 0;
    ss1 = 0;
    esp2 = 0;
    ss2 = 0;
    cr3 = 0;
    eip = 0;
    eflags = 0;
    eax = 0;
    ecx = 0;
    edx = 0;
    ebx = 0;
    esp = 0;
    ebp = 0;
    esi = 0;
    edi = 0;
    es = 0;
    cs = 0;
    ss = 0;
    ds = 0;
    fs = 0;
    gs = 0;
    ldt = 0;
    trap = 0;
    iomap_base = 0;
  };
}

abbrev kernel : Kernel
kernel = record { system = static_data; loader = empty_loader; interrupts = tables; io = [] }

-- The controller has data from its fifth status read on.
abbrev pc : Hardware
pc = record {
  files_addr = 0xC011_0000;
  idt_addr = 0xC012_0000;
  vectors = λ i. 0xC010_0000 + i * 16;
  syscall_entry = 0xC010_8000;
  kernel_esp = 0xC013_0000;
  inb = λ port. 0xFF;
  inb_later = λ port. 0xFF;
  status = λ n. if leb 4 n then 1 else 0;
  test_buffer = 0xC013_0000;
  console_msg = 0xC011_8000;
  stdout_msg = 0xC011_9000;
}

abbrev no_modules : MultibootInfo
no_modules = record { flags = 0; mods_count = 0; mods = [] }

abbrev or_kernel : Option (Kernel × Option (ℕ × ℕ × ℕ)) → Kernel
or_kernel none = kernel
or_kernel (some (k, entered)) = k

abbrev started : Kernel
started = or_kernel (kmain 10 true pc multiboot_bootloader_magic no_modules kernel)

comes_to_its_end :
    kmain 10 true pc multiboot_bootloader_magic no_modules kernel ≡ some (started, none)
unfolding kmain boot_multiboot_ok boot_until_ready boot_interrupts_and_input keyboard_init
    wait_while drain enable boot_after_ready boot_user_demo boot_before_interrupts boot_components
    boot_modules_from_mbi boot_early_console
comes_to_its_end = refl

static : IsStatic static_data
unfolding load_word
static = record {
  current = refl;
  next_pid = refl;
  counters = refl;
  paged = record { present = refl; apart = inr (omega arith) };
}

kmain-IsStarted_example :
    (ready : Kernel) × (boot_until_ready 10 true pc no_modules kernel ≡ some ready)
    × IsStarted ready.system
    × (boot_after_ready true ready ≡ some (started, none))
    × IsSound started.system
kmain-IsStarted_example =
    kmain-IsStarted 10 true pc no_modules kernel started none static comes_to_its_end
