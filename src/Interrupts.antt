-- ===== src/Interrupts.antt =====
-- kernel/interrupts/idt.c, tss.c and interrupt.c: the gates of the interrupt table, the task state
-- segment, and their installation. The addresses of the assembly entries are arguments.
pub mod Gates
mod Tests
use matrix_os.Prelude.{
  ℕ, zero, suc, ◌+◌, ◌-◌, ◌*◌, ◌/◌, ◌%◌, ◌^◌, List, [], ◌∷◌, ◌==◌, if◌then◌else◌, set,
}
use matrix_os.Prelude.Loops.{for_range}
use matrix_os.Pic.{Ports, pic_remap, pic_clear_mask}

abbrev pub idt_entries : ℕ
idt_entries = 256

-- `struct idt_entry`.
pub record IdtEntry : Type 0 where
  pub base_low : ℕ
  pub sel : ℕ
  pub zero : ℕ
  pub flags : ℕ
  pub base_high : ℕ

-- `struct idt_ptr`.
pub record IdtPtr : Type 0 where
  pub limit : ℕ
  pub base : ℕ

-- `tss_entry_t`.
pub record Tss : Type 0 where
  pub prev_tss : ℕ
  pub esp0 : ℕ
  pub ss0 : ℕ
  pub esp1 : ℕ
  pub ss1 : ℕ
  pub esp2 : ℕ
  pub ss2 : ℕ
  pub cr3 : ℕ
  pub eip : ℕ
  pub eflags : ℕ
  pub eax : ℕ
  pub ecx : ℕ
  pub edx : ℕ
  pub ebx : ℕ
  pub esp : ℕ
  pub ebp : ℕ
  pub esi : ℕ
  pub edi : ℕ
  pub es : ℕ
  pub cs : ℕ
  pub ss : ℕ
  pub ds : ℕ
  pub fs : ℕ
  pub gs : ℕ
  pub ldt : ℕ
  pub trap : ℕ
  pub iomap_base : ℕ

-- The tables, and whether the processor has been told of each.
pub record Interrupts : Type 0 where
  pub idt : List IdtEntry
  pub idt_ptr : IdtPtr
  pub tss : Tss

unfoldable pub idt_set_gate : ℕ → ℕ → ℕ → List IdtEntry → List IdtEntry
idt_set_gate n handler flags idt = set idt n (record {
  base_low = handler % 2 ^ 16;
  base_high = handler / 2 ^ 16 % 2 ^ 16;
  sel = 0x08;
  zero = 0;
  flags = flags;
})

-- A round of the loop: the system call's gate may be used from user mode.
unfoldable pub install_gate : (ℕ → ℕ) → ℕ → ℕ → List IdtEntry → List IdtEntry
unfolding idt_set_gate
install_gate vectors syscall_entry i idt =
    if i == 0x80
    then idt_set_gate 0x80 syscall_entry 0xEE idt
    else idt_set_gate i (vectors i) 0x8E idt

unfoldable pub idt_install : ℕ → (ℕ → ℕ) → ℕ → Interrupts → Interrupts
idt_install idt_addr vectors syscall_entry s = record s {
  idt = for_range 256 0 (install_gate vectors syscall_entry) s.idt;
  idt_ptr = record { limit = 8 * idt_entries - 1; base = idt_addr };
}

unfoldable pub tss_init : Tss → Tss
tss_init t = record {
  prev_tss = 0;
  esp0 = 0xC013_0000;
  ss0 = 0x10;
  esp1 = 0;
  ss1 = 0;
  esp2 = 0;
  ss2 = 0;
  cr3 = 0;
  eip = 0;
  eflags = 0;
  eax = 0;
  ecx = 0;
  edx = 0;
  ebx = 0;
  esp = 0;
  ebp = 0;
  esi = 0;
  edi = 0;
  es = 0x10;
  cs = 0x08;
  ss = 0x10;
  ds = 0x10;
  fs = 0x10;
  gs = 0x10;
  ldt = 0;
  trap = 0;
  iomap_base = 104;
}

unfoldable pub tss_set_stack : ℕ → ℕ → Tss → Tss
tss_set_stack kernel_ss kernel_esp t = record t { ss0 = kernel_ss; esp0 = kernel_esp }

-- `kernel_esp` is the stack pointer at the call, `inb` what the ports read.
unfoldable pub isr_install :
    ℕ → (ℕ → ℕ) → ℕ → ℕ → (ℕ → ℕ) → (ℕ → ℕ) → Interrupts × Ports → Interrupts × Ports
isr_install idt_addr vectors syscall_entry kernel_esp inb inb_later (s, io) =
    let installed = idt_install idt_addr vectors syscall_entry s in
    (
      record installed { tss = tss_set_stack 0x10 kernel_esp (tss_init installed.tss) },
      pic_clear_mask 1 inb_later (pic_remap 0x20 0x28 inb io),
    )
