-- ===== src/Pmm/Tests.antt =====
-- The page allocator of pmm.c on a range of two 8 MB blocks, as the kernel boots with, and the
-- theorems at these inputs.
use matrix_os.Prelude.{ℕ, ◌+◌, ◌≡◌, refl, ◌⊎◌, false, replicate, [], ◌∷◌, arith, ◌≤◌}
use matrix_os.Prelude.Loops.{for_range}
use matrix_os.Pmm.{
  Buddy, area, no_blocks, pmm_init, add_blocks, first_block, push_block, mark_pages,
  pmm_alloc_pages, find_area, split, take_first, hand_out, pmm_free_pages, merge, has_block,
  list_del, take_block, find_buddy_pfn,
}
use matrix_os.Pmm.Cover.{cover, IsValid, no_blocks-IsArea, no_blocks-AllAreas}
use matrix_os.Pmm.Alloc.{Allocates, pmm_alloc_pages_lem, pmm_alloc_pages_succeeds}
use matrix_os.Pmm.Free.{Frees, pmm_free_pages_lem}
use matrix_os.Pmm.Init.{IsRange, pmm_init_overruns}
use matrix_os.Pmm.History.{System, Reach, Step, owners, owners-Reach, owners-le-one}

abbrev ram_start : ℕ
ram_start = 0x0100_0000

abbrev ram_end : ℕ
ram_end = 0x0200_0000

-- Static storage is zero.
abbrev zeroed : Buddy
zeroed = record {
  total_pages = 0;
  managed_pages = 0;
  base_addr = 0;
  free_area = [];
  bitmap = λ i. false;
  page_order = λ a. 0;
}

abbrev ram : IsRange ram_start ram_end
ram = record { multiple = 2; starts = refl; page = omega arith; ends = omega arith }

-- One free block of order 2 at the second block size from the base, and nothing else.
abbrev small : Buddy
small = record {
  total_pages = 4096;
  managed_pages = 4096;
  base_addr = ram_start;
  free_area =
      no_blocks
      ∷ no_blocks
      ∷ (record { free_list = 0x0100_4000 ∷ []; nr_free = 1 })
      ∷ replicate 9 no_blocks;
  bitmap = λ i. false;
  page_order = λ a. 0;
}

small-IsValid : IsValid small
small-IsValid = record {
  base_multiple = 2;
  base = refl;
  size = refl;
  areas = (
    no_blocks-IsArea ram_start 0,
    (
      no_blocks-IsArea ram_start 1,
      (
        record {
          blocks = (record { index = 1; starts = refl; ends = omega arith }, tt);
          count = refl;
        },
        no_blocks-AllAreas ram_start 3 9,
      ),
    ),
  );
}

-- A page out of the block of four: the halves are split off, highest first.
alloc_splits :
    ((pmm_alloc_pages 0 small).0 ≡ 0x0100_4000)
    × ((area (pmm_alloc_pages 0 small).1 0).free_list ≡ 0x0100_5000 ∷ [])
    × ((area (pmm_alloc_pages 0 small).1 1).free_list ≡ 0x0100_6000 ∷ [])
    × ((area (pmm_alloc_pages 0 small).1 2).free_list ≡ [])
unfolding pmm_alloc_pages find_area split take_first hand_out push_block mark_pages for_range
alloc_splits = (refl, refl, refl, refl)

-- And back: the buddies merge into the block of four again.
free_merges :
    (area (pmm_free_pages 0x0100_4000 0 (pmm_alloc_pages 0 small).1) 2).free_list ≡ 0x0100_4000 ∷ []
unfolding pmm_alloc_pages find_area split take_first hand_out push_block mark_pages for_range
    pmm_free_pages merge find_buddy_pfn has_block list_del take_block
free_merges = refl

pmm_alloc_pages_lem_example :
    (pmm_alloc_pages 0 small ≡ (0, small))
    ⊎ Allocates 0 (pmm_alloc_pages 0 small).0 small (pmm_alloc_pages 0 small).1
pmm_alloc_pages_lem_example = pmm_alloc_pages_lem 0 small small-IsValid

pmm_alloc_pages_succeeds_example :
    Allocates 0 (pmm_alloc_pages 0 small).0 small (pmm_alloc_pages 0 small).1
pmm_alloc_pages_succeeds_example =
    pmm_alloc_pages_succeeds 0 2 0x0100_4000 [] small small-IsValid (omega arith) (omega arith) refl

pmm_free_pages_lem_example : Frees 1 0x0100_2000 small (pmm_free_pages 0x0100_2000 1 small)
pmm_free_pages_lem_example =
    pmm_free_pages_lem 1 0x0100_2000 small small-IsValid (omega arith)
      (record { index = 1; starts = refl; ends = omega arith })

pmm_init_overruns_example :
    (cover (pmm_init ram_start ram_end zeroed) (ram_end + 5) ≡ 1)
    × (cover (pmm_init ram_start ram_end zeroed) (ram_start + 5) ≡ 0)
pmm_init_overruns_example = pmm_init_overruns ram_start ram_end 2 zeroed 5 ram refl (omega arith)

abbrev after_page : System
after_page = record {
  buddy = (pmm_alloc_pages 0 small).1;
  live = (0, (pmm_alloc_pages 0 small).0) ∷ [];
}

takes_page : Reach (record { buddy = small; live = [] }) after_page
unfolding pmm_alloc_pages find_area
takes_page = Reach.next Reach.here (Step.allocate 0 small [] (omega arith) (omega arith))

owners-Reach_example :
    (owners after_page 0x0100_4000 ≡ cover small 0x0100_4000) × IsValid after_page.buddy
owners-Reach_example =
    owners-Reach small after_page 0x0100_4000 small-IsValid (omega arith) takes_page

abbrev booted : System
booted = record { buddy = pmm_init ram_start ram_end zeroed; live = [] }

-- A page is handed out, another one too, and the first comes back.
abbrev first_page : Buddy
first_page = (pmm_alloc_pages 0 booted.buddy).1

abbrev second_page : Buddy
second_page = (pmm_alloc_pages 0 first_page).1

abbrev first_addr : ℕ
first_addr = (pmm_alloc_pages 0 booted.buddy).0

abbrev second_addr : ℕ
second_addr = (pmm_alloc_pages 0 first_page).0

abbrev one_held : System
one_held = record { buddy = pmm_free_pages first_addr 0 second_page; live = (0, second_addr) ∷ [] }

first_at : first_addr ≡ 0x0200_0000
unfolding pmm_alloc_pages find_area pmm_init add_blocks mark_pages for_range push_block first_block
first_at = refl

second_at : second_addr ≡ 0x0200_1000
unfolding pmm_alloc_pages find_area pmm_init add_blocks mark_pages for_range push_block first_block
    split take_first hand_out
second_at = refl

history : Reach booted one_held
history =
    Reach.next
      (Reach.next
        (Reach.next Reach.here
          (Step.allocate 0 booted.buddy [] (omega arith) (λ e. omega (arith, e, first_at))))
        (Step.allocate 0 first_page ((0, first_addr) ∷ []) (omega arith)
          (λ e. omega (arith, e, second_at))))
      (Step.release 0 first_addr second_page ((0, second_addr) ∷ []) [])

owners-le-one_example : owners one_held 0x0200_0000 ≤ 1
owners-le-one_example =
    owners-le-one ram_start ram_end zeroed one_held 0x0200_0000 ram (omega arith) history
