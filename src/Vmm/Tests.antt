-- ===== src/Vmm/Tests.antt =====
-- vmm.c where the allocator has a single page left.
use matrix_os.Prelude.{
  ℕ, ◌≡◌, refl, arith, false, true, [], ◌∷◌, some, replicate, ◌==◌, if◌then◌else◌, inr, ◌⊎◌, ◌+◌,
  ◌*◌, ltb, get_or, sym, ap, Bool, List,
}
use mathlib.Core.Bool.{true≢false}
use matrix_os.Prelude.Loops.{for_range}
use matrix_os.CString.{Memory}
use matrix_os.Pmm.{
  Buddy, no_blocks, pmm_alloc_pages, find_area, split, take_first, hand_out, mark_pages,
}
use matrix_os.Pmm.Cover.{cover, in_block, no_blocks-AllAreas}
use matrix_os.Paging.{Mm, load_word}
use matrix_os.Paging.Slots.{slots}
use matrix_os.Paging.Entries.{HasTable}
use matrix_os.Vmm.{take_page, give_page, vmm_load_user_program, vmm_create_user_space}
use matrix_os.Vmm.Space.{Fixed, vmm_create_user_space_lem}
use matrix_os.Vmm.Accounts.{Managed}
use matrix_os.Vmm.Failure.{vmm_load_user_program_fails}

abbrev tables : Memory
tables a = if a == 0x1C00 then 3 else if a == 0x1C01 then 0x20 else 0

abbrev last_page : Buddy
last_page = record {
  total_pages = 4096;
  managed_pages = 4096;
  base_addr = 0x0100_0000;
  free_area = (record { free_list = 0x0100_4000 ∷ []; nr_free = 1 }) ∷ replicate 11 no_blocks;
  bitmap = λ i. true;
  page_order = λ a. 0;
}

last_page-Managed : Managed last_page
last_page-Managed = record {
  valid = record {
    base_multiple = 2;
    base = refl;
    size = refl;
    areas = (
      record {
        blocks = (record { index = 4; starts = refl; ends = omega arith }, tt);
        count = refl;
      },
      no_blocks-AllAreas 0x0100_0000 1 11,
    );
  };
  above = omega arith;
}

abbrev memory : Mm
memory = record {
  temp = slots (replicate 4 false);
  buddy = last_page;
  phys = tables;
  directory = 0x1000;
}

memory-HasTable : HasTable memory
unfolding load_word
memory-HasTable = record { present = refl; apart = inr (omega arith) }

-- The page for the code is taken, there is none for the stack, and it is given back.
abbrev given_back : Mm
given_back = give_page 0x0100_4000 (take_page (take_page memory).1).1

gives_up : vmm_load_user_program 0x5000 0x9000 100 memory ≡ some (0, given_back)
unfolding vmm_load_user_program take_page pmm_alloc_pages find_area split take_first hand_out
    mark_pages for_range
gives_up = refl

vmm_load_user_program_fails_example :
    ((x : ℕ) → cover given_back.buddy x ≡ cover last_page x) × (given_back.temp ≡ memory.temp)
vmm_load_user_program_fails_example =
    vmm_load_user_program_fails 0x5000 0x9000 100 (replicate 4 false) memory given_back refl refl
      memory-HasTable refl (omega arith) last_page-Managed gives_up

memory-Fixed : Fixed memory
unfolding load_word
memory-Fixed = record {
  table = memory-HasTable;
  pages = inr (omega arith);
  bytes = λ x. ground arith;
  table_kept = λ d. ground arith;
  directory_kept = λ d. ground arith;
}

-- Word 768 of the new page directory is the kernel's.
vmm_create_user_space_lem_example :
    (vmm_create_user_space memory ≡ some (0, memory))
    ⊎ ((page : ℕ) × (t : Mm) × (vmm_create_user_space memory ≡ some (page, t))
        × ((page == 0) ≡ false)
        × (t.temp ≡ memory.temp)
        × ((x : ℕ) → cover t.buddy x + in_block 0 page x ≡ cover last_page x)
        × (load_word t.phys (page + 4 * 768)
            ≡ (if ltb 768 768 then 0 else load_word tables (0x1000 + 4 * 768))))
vmm_create_user_space_lem_example =
    vmm_create_user_space_lem (replicate 4 false) memory 768 refl refl
      (λ e. true≢false (sym (ap (λ (used : List Bool). get_or used 0 true) e))) last_page-Managed
      memory-Fixed (omega arith)
