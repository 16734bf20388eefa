-- ===== src/Syscall/Tests.antt =====
-- System calls in a kernel that has just started, with one process.
use matrix_os.Prelude.{
  ℕ, ◌≡◌, refl, true, false, List, [], ◌∷◌, Option, none, some, replicate, arith,
}
use matrix_os.Keyboard.{empty_keyboard}
use matrix_os.Pmm.{no_blocks}
use matrix_os.Paging.Slots.{slots}
use matrix_os.Vfs.{
  vfs_init, vfs_open, vfs_read, vfs_resolve_fs, vfs_find_registered, vfs_close, in_use,
}
use matrix_os.Vfs.Calls
use matrix_os.Kernel.{Store}
use matrix_os.Process.{Machine, Pcb, running, zeroed}
use matrix_os.Process.Numbers.{all_zeroed, behind, process}
use matrix_os.Syscall.{Regs, System, sys_open, sys_read, file_syscall, syscall_handler}
use matrix_os.Syscall.Effects.{with_eax}
use matrix_os.Syscall.Calls.{IsSound, here, syscall, syscalls-IsSound}

abbrev store : Store
store = record {
  devices = record {
    devfs_handles = [];
    keyboard = empty_keyboard;
    screen = record { vram = λ x. 0; cursor_pos = 0; current_fg = 7; current_bg = 0; io = [] };
    memory = λ x. 0;
  };
  ramfs = record { files = []; file_count = 0; ramfs_handles = [] };
  heap = record { blocks = []; total_allocated = 0; total_freed = 0; current_usage = 0 };
}

abbrev one_running : Pcb
one_running = record zeroed {
  pid = 1;
  state = running;
  page_directory = 0x0100_2000;
  kernel_stack = 0x0100_8000;
}

abbrev processes : Machine
processes = record {
  table = record { processes = one_running ∷ replicate 15 zeroed; current = some 0; next_pid = 2 };
  mm = record {
    temp = slots (replicate 4 false);
    buddy = record {
      total_pages = 4096;
      managed_pages = 4096;
      base_addr = 0x0100_0000;
      free_area = replicate 12 no_blocks;
      bitmap = λ i. true;
      page_order = λ a. 0;
    };
    phys = λ a. 0;
    directory = 0x1000;
  };
}

abbrev system : System
system = record { processes = processes; vfs = vfs_init; store = store }

abbrev regs : Regs
regs = record {
  gs = 0x23;
  fs = 0x23;
  es = 0x23;
  ds = 0x23;
  edi = 0;
  esi = 0;
  ebp = 0;
  esp = 0;
  ebx = 3;
  edx = 10;
  ecx = 0x8000;
  eax = 12;
  int_no = 0x80;
  err_code = 0;
  eip = 0x40;
  cs = 0x1B;
  eflags = 0x202;
  useresp = 0xBFFF_FFF0;
  ss = 0x23;
}

abbrev a_name : Store → ℕ → List ℕ
a_name s address = b'a' ∷ 0 ∷ []

system-IsSound : IsSound system
system-IsSound = record {
  processes = record {
    size = refl;
    numbered =
        process 0 2 one_running (replicate 15 zeroed) refl refl
          (behind 1 (replicate 15 zeroed) (all_zeroed 15));
    current = (omega arith, refl);
  };
  descriptors = Calls.vfs_init-IsSound;
}

abbrev or_system : Option (Regs × System) → System
or_system none = system
or_system (some (r, k)) = k

-- An open that fails, and a read of a descriptor that is closed.
abbrev opened : System
opened = or_system (syscall_handler a_name (with_eax 10 regs) system)

opens : syscall_handler a_name (with_eax 10 regs) system ≡ some (with_eax 0xFFFF_FFFF regs, opened)
unfolding syscall_handler file_syscall sys_open vfs_open vfs_resolve_fs vfs_find_registered vfs_init
opens = refl

abbrev after_read : System
after_read = or_system (syscall_handler a_name regs opened)

reads : syscall_handler a_name regs opened ≡ some (with_eax 0xFFFF_FFFC regs, after_read)
unfolding syscall_handler file_syscall sys_read vfs_read in_use sys_open vfs_open vfs_resolve_fs
    vfs_find_registered vfs_init
reads = refl

syscalls-IsSound_example : IsSound after_read
syscalls-IsSound_example = syscalls-IsSound system after_read system-IsSound (
    syscall a_name regs (with_eax 0xFFFF_FFFC regs)
      (syscall a_name (with_eax 10 regs) (with_eax 0xFFFF_FFFF regs) here opens) reads)

-- Descriptor 3 is closed at the start: EBADF.
closed_descriptor :
    syscall_handler a_name (with_eax 11 regs) system ≡ some (with_eax 0xFFFF_FFFC regs, system)
unfolding syscall_handler file_syscall vfs_close in_use vfs_init
closed_descriptor = refl
