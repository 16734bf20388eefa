-- ===== src/Boot/Start.antt =====
-- What the start of the kernel establishes.
use matrix_os.Prelude.{
  ℕ, ◌≡◌, refl, sym, ap, ◌∙◌, subst, inl, inr, arith, Bool, true, false, Bool-cases, ◌==◌, Option,
  List, [], ◌∷◌, none, some, length, set, Option-cases,
}
use mathlib.Core.Option.{some-injective, some-ne-none}
use matrix_os.Pmm.{Buddy, pmm_init, pmm_alloc_pages}
use matrix_os.Pmm.Alloc.{pmm_alloc_pages_lem}
use matrix_os.Pmm.Init.{IsRange, pmm_init_lem}
use matrix_os.Kmalloc.{kmalloc_init}
use matrix_os.Loader.{Loader, hello, loader_get_module_count}
use matrix_os.Interrupts.{isr_install}
use matrix_os.Keyboard.Controller.{keyboard_init}
use matrix_os.Paging.{temp_mapping_init}
use matrix_os.Paging.Slots.{slots}
use matrix_os.Vmm.Accounts.{Managed}
use matrix_os.Vfs.{vfs_init, ramfs_name, devfs_name}
use matrix_os.Vfs.Calls
use matrix_os.Kernel.{Store, machine, ramfs_ops, devfs_ops, mount_ramfs, mount_devfs, boot_vfs_init}
use matrix_os.RamFs.{ramfs_init}
use matrix_os.DevFs.{devfs_init}
use matrix_os.Process.{Machine, process_init, process_start, process_create_from_module}
use matrix_os.Process.Calls.{WellFormed}
use matrix_os.Process.History
use matrix_os.Process.History.{IsFresh, fresh-WellFormed}
use matrix_os.Kernel.Demo.{run_filesystem_tests-IsSound}
use matrix_os.Paging.Entries.{HasTable}
use matrix_os.Syscall.{System}
use matrix_os.Syscall.Calls.{IsSound}
use matrix_os.Boot.{
  MultibootInfo, Kernel, Hardware, with_system, boot_pmm_phys_start, boot_pmm_phys_end,
  multiboot_bootloader_magic, boot_early_console, boot_multiboot_ok, init_pages, boot_mm_init,
  boot_kernel_subsystems_init, mount, boot_interrupts_and_input, boot_print_ready, boot_components,
  boot_filesystem_demo, boot_before_interrupts, boot_until_ready, boot_after_ready, start_demo,
  boot_user_demo, kmain,
}

boot_vfs-IsSound :
    (files_addr : ℕ) (l : Loader) (s : Store) → Calls.IsSound (boot_vfs_init files_addr l s).0
unfolding boot_vfs_init mount_ramfs mount_devfs
boot_vfs-IsSound files_addr l s =
    let first = mount_ramfs files_addr l vfs_init s in
    let ramfs_store = record s { ramfs = ramfs_init l } in
    Calls.register-IsSound machine (some devfs_name) (some devfs_ops) first.0
      (record first.1 { devices = devfs_init first.1.devices })
      (Calls.register-IsSound machine (some ramfs_name) (some (ramfs_ops files_addr)) vfs_init
        ramfs_store Calls.vfs_init-IsSound)

boot_range : IsRange boot_pmm_phys_start boot_pmm_phys_end
boot_range = record { multiple = 2; starts = refl; page = omega arith; ends = omega arith }

pmm-Managed : (b : Buddy) → Managed (pmm_init boot_pmm_phys_start boot_pmm_phys_end b)
pmm-Managed b =
    let made = pmm_init_lem boot_pmm_phys_start boot_pmm_phys_end b 0 boot_range in
    record { valid = made.1; above = omega (arith, made.2) }

alloc-Managed : (order : ℕ) (b : Buddy) → Managed b → Managed (pmm_alloc_pages order b).1
alloc-Managed order b m = elim (pmm_alloc_pages_lem order b m.valid) [
  | inl refused ↦ subst Managed (sym (ap (λ (r : ℕ × Buddy). r.1) refused)) m
  | inr done ↦ record { valid = done.valid; above = omega (arith, done.bases, m.above) }
]

heap-Managed : (b : Buddy) → Managed b → Managed (kmalloc_init b).1
unfolding kmalloc_init
heap-Managed b m = alloc-Managed 8 b m

-- What the kernel's data and the page tables of the assembly code hold: no current process, the number 1
-- for the first, four counters, and a page table for the slots of temporary mappings.
pub record IsStatic (s : System) : Type 0 where
  pub current : s.processes.table.current ≡ none
  pub next_pid : s.processes.table.next_pid ≡ 1
  pub counters : length s.processes.mm.temp.ref_count ≡ 4
  pub paged : HasTable s.processes.mm

-- The state when the kernel is ready.
pub record IsStarted (s : System) : Type 0 where
  pub empty : IsFresh s.processes.table
  pub sound : IsSound s
  pub pages : Managed s.processes.mm.buddy
  pub mappings : s.processes.mm.temp ≡ slots (false ∷ false ∷ false ∷ false ∷ [])
  pub paged : HasTable s.processes.mm

four_zeros :
    (counts : List ℕ)
    → length counts ≡ 4
    → set (set (set (set counts 0 0) 1 0) 2 0) 3 0 ≡ 0 ∷ 0 ∷ 0 ∷ 0 ∷ []
four_zeros (a ∷ b ∷ c ∷ d ∷ []) four = refl
four_zeros [] four = absurd (omega arith)
four_zeros (a ∷ []) four = absurd (omega arith)
four_zeros (a ∷ b ∷ []) four = absurd (omega arith)
four_zeros (a ∷ b ∷ c ∷ []) four = absurd (omega arith)
four_zeros (a ∷ b ∷ c ∷ d ∷ e ∷ more) four = absurd (omega arith)

components-IsStarted :
    (files_addr : ℕ) (mbi : MultibootInfo) (k : Kernel)
    → IsStatic k.system
    → IsStarted (boot_components files_addr mbi k).system
unfolding boot_components mount boot_kernel_subsystems_init boot_mm_init init_pages process_init
    temp_mapping_init boot_early_console
components-IsStarted files_addr mbi k static = record {
  empty = record { processes = refl; current = static.current; next_pid = static.next_pid };
  sound = record {
    processes =
        fresh-WellFormed (process_init k.system.processes.table)
          (record { processes = refl; current = static.current; next_pid = static.next_pid });
    descriptors = boot_vfs-IsSound files_addr _ _;
  };
  pages =
      heap-Managed (pmm_init boot_pmm_phys_start boot_pmm_phys_end k.system.processes.mm.buddy)
        (pmm-Managed k.system.processes.mm.buddy);
  mappings =
      ap (λ (counts : List ℕ). record { lock = false; available_slots = 15; ref_count = counts })
        (four_zeros k.system.processes.mm.temp.ref_count static.counters);
  paged = record { present = static.paged.present; apart = static.paged.apart };
}

filesystem_demo-IsStarted :
    (h : Hardware) (s : System) → IsStarted s → IsStarted (boot_filesystem_demo h s)
unfolding boot_filesystem_demo
filesystem_demo-IsStarted h s started = record {
  empty = started.empty;
  sound = record {
    processes = started.sound.processes;
    descriptors =
        run_filesystem_tests-IsSound h.test_buffer h.console_msg h.stdout_msg s.vfs s.store
          started.sound.descriptors;
  };
  pages = started.pages;
  mappings = started.mappings;
  paged = started.paged;
}

before_interrupts-IsStarted :
    (demo : Bool) (h : Hardware) (mbi : MultibootInfo) (k : Kernel)
    → IsStatic k.system
    → IsStarted (boot_before_interrupts demo h mbi k).system
unfolding boot_before_interrupts
before_interrupts-IsStarted true h mbi k static =
    filesystem_demo-IsStarted h (boot_components h.files_addr mbi k).system
      (components-IsStarted h.files_addr mbi k static)
before_interrupts-IsStarted false h mbi k static = components-IsStarted h.files_addr mbi k static

print_ready-IsStarted : (s : System) → IsStarted s → IsStarted (boot_print_ready s)
unfolding boot_print_ready
print_ready-IsStarted s started = record {
  empty = started.empty;
  sound = record { processes = started.sound.processes; descriptors = started.sound.descriptors };
  pages = started.pages;
  mappings = started.mappings;
  paged = started.paged;
}

interrupts-system :
    (patience : ℕ) (h : Hardware) (k m : Kernel)
    → boot_interrupts_and_input patience h k ≡ some m
    → m.system ≡ k.system
unfolding boot_interrupts_and_input
interrupts-system patience h k m result =
    let tables =
      isr_install h.idt_addr h.vectors h.syscall_entry h.kernel_esp h.inb h.inb_later
        (k.interrupts, k.io) in
    elim (Option-cases (keyboard_init h.status patience tables.1)) [
      | inl e ↦
          let stuck : boot_interrupts_and_input patience h k ≡ none = rw e refl in
          absurd (some-ne-none m (sym result ∙ stuck))
      | inr ((ending, io), e) ↦
          let on : boot_interrupts_and_input patience h k
              ≡ some (record k { interrupts = tables.0; io = io }) =
            rw e refl in
          sym (
            ap (λ (n : Kernel). n.system)
              (some-injective (record k { interrupts = tables.0; io = io }) m (sym on ∙ result)))
    ]

until_ready-IsStarted :
    (patience : ℕ) (demo : Bool) (h : Hardware) (mbi : MultibootInfo) (k ready : Kernel)
    → IsStatic k.system
    → boot_until_ready patience demo h mbi k ≡ some ready
    → IsStarted ready.system
unfolding boot_until_ready
until_ready-IsStarted patience demo h mbi k ready static result =
    let first = boot_before_interrupts demo h mbi k in
    elim (Option-cases (boot_interrupts_and_input patience h first)) [
      | inl e ↦
          let stuck : boot_until_ready patience demo h mbi k ≡ none = rw e refl in
          absurd (some-ne-none ready (sym result ∙ stuck))
      | inr (on, e) ↦
          let end = with_system (boot_print_ready on.system) on in
          let returns : boot_until_ready patience demo h mbi k ≡ some end = rw e refl in
          let at_end =
            ap (λ (n : Kernel). n.system) (some-injective end ready (sym returns ∙ result)) in
          subst IsStarted at_end (
            print_ready-IsStarted on.system (
              subst IsStarted (sym (interrupts-system patience h first on e))
                (before_interrupts-IsStarted demo h mbi k static)))
    ]

-- The state that a result leaves, if there is one.
SoundAfter : Option (Kernel × Option (ℕ × ℕ × ℕ)) → Type 0
SoundAfter none = Unit
SoundAfter (some (k, entered)) = IsSound k.system

start_demo-SoundAfter :
    (pid : ℕ) (p : Machine) (k : Kernel)
    → IsSound k.system
    → WellFormed p.table
    → SoundAfter (some (start_demo (pid, p) k))
unfolding SoundAfter start_demo
start_demo-SoundAfter pid p k s formed =
    let started =
      History.Call-Moves p (record p { table = (process_start pid p.table).0 }) (History.starts pid)
        formed in
    elim (Bool-cases (pid == 0)) [
      | inl e ↦ rw e (record { processes = formed; descriptors = s.descriptors })
      | inr e ↦ rw e (record { processes = started.formed; descriptors = s.descriptors })
    ]

user_demo-SoundAfter : (k : Kernel) → IsSound k.system → SoundAfter (boot_user_demo k)
unfolding SoundAfter boot_user_demo
user_demo-SoundAfter k s = elim (Bool-cases (loader_get_module_count k.loader == 0)) [
  | inl e ↦ rw e (record { processes = s.processes; descriptors = s.descriptors })
  | inr e ↦ elim (Option-cases (process_create_from_module hello k.loader k.system.processes)) [
    | inl f ↦ rw (e, f) tt
    | inr ((pid, p), f) ↦
        let created =
          History.Call-Moves k.system.processes p (History.create hello k.loader pid p f)
            s.processes in
        rw (e, f) (start_demo-SoundAfter pid p k s created.formed)
  ]
]

after_ready-SoundAfter :
    (demo : Bool) (k : Kernel) → IsSound k.system → SoundAfter (boot_after_ready demo k)
unfolding SoundAfter boot_after_ready
after_ready-SoundAfter true k s = user_demo-SoundAfter k s
after_ready-SoundAfter false k s = s

-- With GRUB's magic number, from the kernel's static data and page tables on, in the build with the
-- demonstrations (`demo`) and in the one without: where kmain comes to the idle loop or to a user
-- program, the kernel was ready before, with an empty process table, a sound descriptor table, a
-- valid page allocator that does not manage page 0, and the four slots for temporary mappings free,
-- with their page table; and from there, through the demonstration of a user program if any, the
-- process table is still well formed at the end and the descriptor table sound.
pub kmain-IsStarted :
    (patience : ℕ) (demo : Bool) (h : Hardware) (mbi : MultibootInfo) (k m : Kernel)
    (entered : Option (ℕ × ℕ × ℕ))
    → IsStatic k.system
    → kmain patience demo h multiboot_bootloader_magic mbi k ≡ some (m, entered)
    → (ready : Kernel) × (boot_until_ready patience demo h mbi k ≡ some ready)
      × IsStarted ready.system
      × (boot_after_ready demo ready ≡ some (m, entered))
      × IsSound m.system
unfolding kmain boot_multiboot_ok SoundAfter
kmain-IsStarted patience demo h mbi k m entered static result =
    elim (Option-cases (boot_until_ready patience demo h mbi k)) [
      | inl e ↦
          let stuck : kmain patience demo h multiboot_bootloader_magic mbi k ≡ none = rw e refl in
          absurd (some-ne-none (m, entered) (sym result ∙ stuck))
      | inr (ready, e) ↦
          let started = until_ready-IsStarted patience demo h mbi k ready static e in
          let goes_on : kmain patience demo h multiboot_bootloader_magic mbi k
              ≡ boot_after_ready demo ready =
            rw e refl in
          let ends = sym goes_on ∙ result in
          (
            ready,
            e,
            started,
            ends,
            subst SoundAfter ends (after_ready-SoundAfter demo ready started.sound),
          )
    ]
