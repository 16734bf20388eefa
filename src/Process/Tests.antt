-- ===== src/Process/Tests.antt =====
-- The process table at concrete inputs.
use matrix_os.Prelude.{
  ℕ, zero, suc, subst, ◌+◌, ◌≤◌, ◌≡◌, refl, arith, false, true, List, [], ◌∷◌, none, some,
  replicate,
}
use matrix_os.Loader.{empty_loader, loader_find_module, find_module_from}
use matrix_os.Pmm.{Buddy, no_blocks}
use matrix_os.Pmm.Cover.{cover, in_block, no_blocks-AllAreas}
use matrix_os.Paging.{Mm}
use matrix_os.Paging.Slots.{slots}
use matrix_os.Vmm.Accounts.{Managed}
use matrix_os.Process.{
  Pcb, Table, Machine, ready, running, terminated, zeroed, set_state, process_create_from_module,
  process_start, process_exit_current, terminate_at,
}
use matrix_os.Process.Numbers.{all_zeroed, Numbered, behind, process}
use matrix_os.Process.Calls.{WellFormed, rank, state_of}
use matrix_os.Process.History.{
  create, starts, exits, here, next, processes-WellFormed, processes_forward, sixteen_processes,
}
use matrix_os.Process.Exit.{stack_page, process_exit_current_lem}

-- An allocator of the pages from 0x01000000 on, all of them taken.
abbrev no_pages : Buddy
no_pages = record {
  total_pages = 4096;
  managed_pages = 4096;
  base_addr = 0x0100_0000;
  free_area = replicate 12 no_blocks;
  bitmap = λ i. true;
  page_order = λ a. 0;
}

no_pages-Managed : Managed no_pages
no_pages-Managed = record {
  valid = record {
    base_multiple = 2;
    base = refl;
    size = refl;
    areas = no_blocks-AllAreas 0x0100_0000 0 12;
  };
  above = omega arith;
}

abbrev memory : Mm
memory = record {
  temp = slots (replicate 4 false);
  buddy = no_pages;
  phys = λ a. 0;
  directory = 0x1000;
}

abbrev fresh : Table
fresh = record { processes = replicate 16 zeroed; current = none; next_pid = 1 }

abbrev fresh_machine : Machine
fresh_machine = record { table = fresh; mm = memory }

-- A process whose page directory and kernel stack are pages of the allocator.
abbrev one_ready : Pcb
one_ready = record zeroed {
  pid = 1;
  state = ready;
  page_directory = 0x0100_2000;
  kernel_stack = 0x0100_8000;
}

abbrev with_one : Machine
with_one = record {
  table = record { processes = one_ready ∷ replicate 15 zeroed; current = none; next_pid = 2 };
  mm = memory;
}

abbrev with_running : Machine
with_running = record {
  table = record {
    processes = set_state running one_ready ∷ replicate 15 zeroed;
    current = some 0;
    next_pid = 2;
  };
  mm = memory;
}

unknown_module :
    process_create_from_module (b'a' ∷ 0 ∷ []) empty_loader fresh_machine ≡ some (0, fresh_machine)
unfolding process_create_from_module loader_find_module find_module_from
unknown_module = refl

processes-WellFormed_example : WellFormed fresh
processes-WellFormed_example =
    processes-WellFormed fresh_machine fresh_machine
      (record { processes = refl; current = refl; next_pid = refl })
      (next here (create (b'a' ∷ 0 ∷ []) empty_loader 0 fresh_machine unknown_module))

with_one-WellFormed : WellFormed with_one.table
with_one-WellFormed = record {
  size = refl;
  numbered =
      process 0 2 one_ready (replicate 15 zeroed) refl refl
        (behind 1 (replicate 15 zeroed) (all_zeroed 15));
  current = tt;
}

processes_forward_example :
    rank ready
    ≤ rank (
        state_of
          (process_exit_current
            (record with_one { table = (process_start 1 with_one.table).0 })).table
          0)
processes_forward_example =
    processes_forward with_one
      (process_exit_current (record with_one { table = (process_start 1 with_one.table).0 })) 0
      with_one-WellFormed (next (next here (starts 1)) exits)

-- Sixteen processes that have ended.
abbrev ended : ℕ → ℕ → List Pcb
ended zero i = []
ended (suc n) i = (record zeroed { pid = suc i; state = terminated }) ∷ ended n (suc i)

ended-Numbered : (n i : ℕ) → Numbered i (suc (i + n)) (ended n i)
ended-Numbered zero i = subst (λ (m : ℕ). Numbered i m []) (omega arith) (behind i [] tt)
ended-Numbered (suc n) i =
    process i (suc (i + suc n)) (record zeroed { pid = suc i; state = terminated })
      (ended n (suc i)) refl refl
      (subst (λ (m : ℕ). Numbered (suc i) m (ended n (suc i))) (omega arith)
        (ended-Numbered n (suc i)))

abbrev all_ended : Machine
all_ended = record {
  table = record { processes = ended 16 0; current = none; next_pid = 17 };
  mm = memory;
}

all_ended-WellFormed : WellFormed all_ended.table
all_ended-WellFormed = record { size = refl; numbered = ended-Numbered 16 0; current = tt }

sixteen_processes_example :
    process_create_from_module (b'a' ∷ 0 ∷ []) empty_loader all_ended ≡ some (0, all_ended)
sixteen_processes_example =
    sixteen_processes all_ended (b'a' ∷ 0 ∷ []) empty_loader all_ended-WellFormed refl

process_exit_current_lem_example :
    (cover (process_exit_current with_running).mm.buddy 0x0100_2008
      ≡ cover no_pages 0x0100_2008
        + in_block 0 0x0100_2000 0x0100_2008
        + in_block 0 (stack_page 0 with_running) 0x0100_2008)
    × ((process_exit_current with_running).table ≡ terminate_at 0 with_running.table)
    × ((process_exit_current with_running).mm.phys ≡ memory.phys)
process_exit_current_lem_example =
    process_exit_current_lem with_running 0 0x0100_2008 refl no_pages-Managed
      (record { index = 2; starts = refl; ends = omega arith })
      (record { index = 7; starts = refl; ends = omega arith })
