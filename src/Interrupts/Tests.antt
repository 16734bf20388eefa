-- ===== src/Interrupts/Tests.antt =====
-- The interrupt table with handlers 16 bytes apart.
use matrix_os.Prelude.{ℕ, ◌+◌, ◌*◌, ◌^◌, ◌≡◌, refl, arith, get_or, replicate}
use matrix_os.Interrupts.{Interrupts, idt_install}
use matrix_os.Interrupts.Gates.{no_gate, idt_install_lem}

abbrev handlers : ℕ → ℕ
handlers i = 0xC010_0000 + i * 16

abbrev empty : Interrupts
empty = record {
  idt = replicate 256 no_gate;
  idt_ptr = record { limit = 0; base = 0 };
  tss = record {
    prev_tss = 0;
    esp0 = 0;
    ss0 = 0;
    esp1 = 0;
    ss1 = 0;
    esp2 = 0;
    ss2 = 0;
    cr3 = 0;
    eip = 0;
    eflags = 0;
    eax = 0;
    ecx = 0;
    edx = 0;
    ebx = 0;
    esp = 0;
    ebp = 0;
    esi = 0;
    edi = 0;
    es = 0;
    cs = 0;
    ss = 0;
    ds = 0;
    fs = 0;
    gs = 0;
    ldt = 0;
    trap = 0;
    iomap_base = 0;
  };
}

idt_install_lem_example :
    ((get_or (idt_install 0xC020_0000 handlers 0xC010_8000 empty).idt 0x80 no_gate).base_low
        + (get_or (idt_install 0xC020_0000 handlers 0xC010_8000 empty).idt 0x80 no_gate).base_high
          * 2 ^ 16
      ≡ 0xC010_8000)
    × ((get_or (idt_install 0xC020_0000 handlers 0xC010_8000 empty).idt 0x80 no_gate).sel ≡ 0x08)
    × ((get_or (idt_install 0xC020_0000 handlers 0xC010_8000 empty).idt 0x80 no_gate).flags ≡ 0xEE)
idt_install_lem_example =
    idt_install_lem 0xC020_0000 0xC010_8000 0x80 handlers empty refl (omega arith) (omega arith)
      (omega arith)
