-- ===== src/Kmalloc/Tests.antt =====
-- A heap of three blocks, the middle one in use, and the theorems of kmalloc.c at this input.
use matrix_os.Prelude.{
  ◌^◌, ◌++◌, replicate, ◌+◌, ◌≤◌, ◌≡◌, refl, ◌⊎◌, inl, inr, true, false, [], ◌∷◌, arith,
}
use matrix_os.CString.{Memory}
use matrix_os.Pmm.{Buddy, no_blocks, pmm_alloc_pages, find_area}
use matrix_os.Kmalloc.Calls.{here, next, request, heap_Reach}
use matrix_os.Kmalloc.{
  kmalloc_init, Block, Heap, kmalloc, kfree, best_from, block_at, release, absorb_next,
}
use matrix_os.Kmalloc.Tiling.{in_block, held, Tiles, IsCoalesced}
use matrix_os.Kmalloc.Alloc.{Hands, kmalloc_lem, kmalloc_succeeds}
use matrix_os.Kmalloc.Release.{kfree_lem}

abbrev low : Block
low = record { addr = 4096; size = 64; is_free = true }

abbrev middle : Block
middle = record { addr = 4160; size = 32; is_free = false }

abbrev high : Block
high = record { addr = 4192; size = 1024; is_free = true }

abbrev heap : Heap
heap = record {
  blocks = low ∷ middle ∷ high ∷ [];
  total_allocated = 16;
  total_freed = 0;
  current_usage = 32;
}

abbrev dirty : Memory
dirty x = 7

heap-Tiles : Tiles 4096 5216 heap.blocks
heap-Tiles = (refl, omega arith, (refl, omega arith, (refl, omega arith, refl)))

-- The smallest block that fits is taken, not the first.
best_fit : (kmalloc 40 heap dirty).0 ≡ 4112
unfolding kmalloc best_from
best_fit = refl

-- The three blocks become one.
joined : (kfree 4176 heap).blocks ≡ record { addr = 4096; size = 1120; is_free = true } ∷ []
unfolding kfree block_at release absorb_next
joined = refl

kmalloc_lem_example :
    (kmalloc 100 heap dirty ≡ (0, heap, dirty))
    ⊎ Hands 100 4096 5216 heap dirty (kmalloc 100 heap dirty)
kmalloc_lem_example = kmalloc_lem 100 4096 5216 heap dirty heap-Tiles

kmalloc_succeeds_example : Hands 100 4096 5216 heap dirty (kmalloc 100 heap dirty)
kmalloc_succeeds_example =
    kmalloc_succeeds 100 4096 5216 heap dirty high heap-Tiles (omega arith) (omega arith)
      (inr (inr (inl refl))) refl (omega arith)

kfree_lem_example :
    Tiles 4096 5216 (kfree (4160 + 16) heap).blocks
    × (held (kfree (4160 + 16) heap).blocks 4170 + in_block middle 4170 ≡ held heap.blocks 4170)
    × IsCoalesced (kfree (4160 + 16) heap).blocks
kfree_lem_example =
    kfree_lem 4096 5216 heap middle 4170 heap-Tiles (omega arith) (inr (inl refl)) refl
      (refl, (refl, (refl, tt)))

-- A page allocator with one free block of order 8.
abbrev pages : Buddy
pages = record {
  total_pages = 2048;
  managed_pages = 2048;
  base_addr = 0x0100_0000;
  free_area = replicate 8 no_blocks ++ record { free_list = 0x0110_0000 ∷ []; nr_free = 1 } ∷ [];
  bitmap = λ i. false;
  page_order = λ a. 0;
}

gives_pages : (pmm_alloc_pages 8 pages).0 ≡ 0x0110_0000
unfolding pmm_alloc_pages find_area
gives_pages = refl

abbrev after_request : Heap
after_request = (kmalloc 100 (kmalloc_init pages).0 dirty).1

heap_Reach_example :
    Tiles 0x0110_0000 (0x0110_0000 + 2 ^ 20) after_request.blocks
    × (held after_request.blocks 0x0110_0010 ≤ 1)
    × IsCoalesced after_request.blocks
heap_Reach_example =
    heap_Reach pages 0x0110_0000 0x0110_0010 after_request gives_pages (omega arith) (omega arith)
      (next (kmalloc_init pages).0 after_request here (request 100 (kmalloc_init pages).0 dirty))
