-- ===== src/Process/Exit.antt =====
-- process_exit_current: which pages come back.
use matrix_os.Prelude.{
  ℕ, ◌+◌, ◌≡◌, refl, sym, arith, subst, some, ◌==◌, get_or, Bool-cases, inl, inr, ne→==_false,
}
use matrix_os.Prelude.Word.{sub32}
use matrix_os.Pmm.Cover.{cover, in_block, IsBlock}
use matrix_os.Paging.{Mm}
use matrix_os.Vmm.{give_page, vmm_destroy_user_space}
use matrix_os.Vmm.Accounts.{Managed, Gives, give_page_lem}
use matrix_os.Process.{Pcb, Machine, zeroed, exit_at, terminate_at, process_exit_current}

-- The process that a place holds.
abbrev pub process_at : ℕ → Machine → Pcb
process_at place k = get_or k.table.processes place zeroed

abbrev pub stack_page : ℕ → Machine → ℕ
stack_page place k = sub32 (process_at place k).kernel_stack 4096

destroy_lem :
    (dir : ℕ) (s : Mm)
    → Managed s.buddy
    → IsBlock s.buddy.base_addr 0 dir
    → Gives dir s.buddy (vmm_destroy_user_space dir s).buddy
unfolding vmm_destroy_user_space
destroy_lem dir s m block =
    rw (ne→==_false dir 0 (λ e. omega (arith, e, block.starts, m.above)))
      (give_page_lem dir s m block)

destroy-phys : (dir : ℕ) (s : Mm) → (vmm_destroy_user_space dir s).phys ≡ s.phys
unfolding vmm_destroy_user_space give_page
destroy-phys dir s = elim (Bool-cases (dir == 0)) [ inl e ↦ rw e refl | inr e ↦ rw e refl ]

-- Over a valid allocator that does not manage page 0, with a current process whose page directory
-- and kernel stack are pages of it: process_exit_current gives back exactly these two pages, and none
-- of those that the program was loaded into; it writes no memory, marks the process as terminated,
-- and leaves no current process.
pub process_exit_current_lem :
    (k : Machine) (place x : ℕ)
    → k.table.current ≡ some place
    → Managed k.mm.buddy
    → IsBlock k.mm.buddy.base_addr 0 (process_at place k).page_directory
    → IsBlock k.mm.buddy.base_addr 0 (stack_page place k)
    → (cover (process_exit_current k).mm.buddy x
        ≡ cover k.mm.buddy x
          + in_block 0 (process_at place k).page_directory x
          + in_block 0 (stack_page place k) x)
      × ((process_exit_current k).table ≡ terminate_at place k.table)
      × ((process_exit_current k).mm.phys ≡ k.mm.phys)
unfolding process_exit_current exit_at give_page
process_exit_current_lem k place x is m dir_block stack_block =
    let dir = (process_at place k).page_directory in
    let destroyed = destroy_lem dir k.mm m dir_block in
    let s = vmm_destroy_user_space dir k.mm in
    let given =
      give_page_lem (stack_page place k) s destroyed.managed
        (subst (λ (b : ℕ). IsBlock b 0 (stack_page place k)) (sym destroyed.bases) stack_block) in
    rw is (omega (arith, given.covers x, destroyed.covers x), refl, destroy-phys dir k.mm)
