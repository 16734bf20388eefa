-- ===== src/Interrupts/Gates.antt =====
-- The gates that idt_install leaves.
use matrix_os.Prelude.{
  ℕ, zero, suc, ◌+◌, ◌*◌, ◌/◌, ◌%◌, ◌^◌, ◌≤◌, ◌<◌, ◌≡◌, ◌≢◌, refl, ap, ◌∙◌, inl, inr, arith, List,
  ◌==◌, if◌then◌else◌, length, get_or, set, length-set, get_or-set_self, get_or-set_ne, leb, ltb,
  ◌&&◌, Bool-cases, ==→eq, ==_false→ne,
}
use matrix_os.Prelude.Loops.{for_range}
use matrix_os.Interrupts.{IdtEntry, Interrupts, idt_set_gate, install_gate, idt_install}

abbrev pub no_gate : IdtEntry
no_gate = record { base_low = 0; sel = 0; zero = 0; flags = 0; base_high = 0 }

-- The gate for the vector `i`.
abbrev pub gate : (ℕ → ℕ) → ℕ → ℕ → IdtEntry
gate vectors syscall_entry i =
    let handler = if i == 0x80 then syscall_entry else vectors i in
    record {
      base_low = handler % 2 ^ 16;
      base_high = handler / 2 ^ 16 % 2 ^ 16;
      sel = 0x08;
      zero = 0;
      flags = if i == 0x80 then 0xEE else 0x8E;
    }

-- Which entries the rounds from the first, and those behind it, reach.
at_start :
    (from rounds i : ℕ) (x y : IdtEntry)
    → from ≡ i
    → (if leb (from + 1) i && ltb i (from + 1 + rounds) then x else x)
      ≡ (if leb from i && ltb i (from + suc rounds) then x else y)
at_start from rounds i x y same = ground arith

off_start :
    (from rounds i : ℕ) (x y : IdtEntry)
    → from ≢ i
    → (if leb (from + 1) i && ltb i (from + 1 + rounds) then x else y)
      ≡ (if leb from i && ltb i (from + suc rounds) then x else y)
off_start from rounds i x y away = ground arith

reached : (i : ℕ) (x y : IdtEntry) → i < 256 → (if leb 0 i && ltb i 256 then x else y) ≡ x
reached i x y inside = ground arith

module _ (vectors : ℕ → ℕ) (syscall_entry : ℕ) where
  install_gate-set :
      (i : ℕ) (idt : List IdtEntry)
      → install_gate vectors syscall_entry i idt ≡ set idt i (gate vectors syscall_entry i)
  unfolding install_gate idt_set_gate
  install_gate-set i idt = elim (Bool-cases (i == 0x80)) [
    | inl e ↦ rw (==→eq i 0x80 e) refl
    | inr e ↦ rw e refl
  ]

  -- The rounds from `from` on write the gates from there, and leave those before.
  gates_from :
      (rounds from i : ℕ) (idt : List IdtEntry)
      → from + rounds ≤ length idt
      → get_or (for_range rounds from (install_gate vectors syscall_entry) idt) i no_gate ≡ (
          if leb from i && ltb i (from + rounds)
          then gate vectors syscall_entry i
          else get_or idt i no_gate)
  unfolding for_range
  gates_from zero from i idt fits = ground arith
  gates_from (suc rounds) from i idt fits =
      let first = install_gate-set from idt in
      let rest =
        gates_from rounds (from + 1) i (install_gate vectors syscall_entry from idt)
          (omega (arith, ap length first, length-set idt from (gate vectors syscall_entry from))) in
      elim (Bool-cases (from == i)) [
        | inl e ↦
            let same = ==→eq from i e in
            let here =
              ap (λ (l : List IdtEntry). get_or l i no_gate) first
              ∙ (ap (λ (k : ℕ). get_or (set idt k (gate vectors syscall_entry from)) i no_gate) same
                  ∙ (get_or-set_self idt i (gate vectors syscall_entry from) no_gate
                        (omega (arith, same))
                      ∙ ap (gate vectors syscall_entry) same)) in
            rest
            ∙ rw here
                (at_start from rounds i (gate vectors syscall_entry i) (get_or idt i no_gate) same)
        | inr e ↦
            let away = ==_false→ne from i e in
            let there =
              ap (λ (l : List IdtEntry). get_or l i no_gate) first
              ∙ get_or-set_ne idt from i (gate vectors syscall_entry from) no_gate away in
            rest
            ∙ rw there
                (off_start from rounds i (gate vectors syscall_entry i) (get_or idt i no_gate) away)
      ]

-- Over a table of 256 entries idt_install leaves, for every vector, a gate of the kernel's code segment
-- that leads to the vector's handler, and to the system call entry for 0x80; that gate alone has the
-- flags 0xEE, which let the user's code call it.
pub idt_install_lem :
    (idt_addr syscall_entry i : ℕ) (vectors : ℕ → ℕ) (s : Interrupts)
    → length s.idt ≡ 256
    → i < 256
    → vectors i < 2 ^ 32
    → syscall_entry < 2 ^ 32
    → let g = get_or (idt_install idt_addr vectors syscall_entry s).idt i no_gate in
      (g.base_low + g.base_high * 2 ^ 16 ≡ (if i == 0x80 then syscall_entry else vectors i))
      × (g.sel ≡ 0x08)
      × (g.flags ≡ (if i == 0x80 then 0xEE else 0x8E))
unfolding idt_install
idt_install_lem idt_addr syscall_entry i vectors s size inside small small_entry =
    let written =
      gates_from vectors syscall_entry 256 0 i s.idt (omega (arith, size))
      ∙ reached i (gate vectors syscall_entry i) (get_or s.idt i no_gate) inside in
    rw written (ground arith, refl, refl)
