-- ===== src/Kmalloc/Calls.antt =====
-- The heap from kmalloc_init on, under any sequence of requests and releases.
use matrix_os.Prelude.{
  ℕ, ◌+◌, ◌^◌, ◌≤◌, ◌<◌, ◌≡◌, refl, sym, ap, ◌∙◌, subst, inl, inr, Bool, true, false, ◌&&◌, List,
  [], ◌∷◌, none, arith, ◌==◌, ltb, Bool-cases, Option-cases, ne→==_false,
}
use matrix_os.CString.{Memory}
use matrix_os.Pmm.{Buddy, pmm_alloc_pages}
use matrix_os.Kmalloc.{
  Block, Heap, actual_size, best_from, is_split, carve_block, carve, kmalloc, kfree, kmalloc_init,
}
use matrix_os.Kmalloc.Tiling.{held, Tiles, In, In-above, held_le_one, head_free, IsCoalesced}
use matrix_os.Kmalloc.Alloc.{kmalloc_lem, best_from-In}
use matrix_os.Kmalloc.Release.{kfree_lem}

carve_block-IsCoalesced :
    (need : ℕ) (b : Block) (l : List Block)
    → b.is_free ≡ true
    → IsCoalesced (b ∷ l)
    → IsCoalesced (carve_block need b l)
carve_block-IsCoalesced need b l free apart =
    let next_used : head_free l ≡ false = rw (free) at apart.0 in
    elim (Bool-cases (is_split need b)) [
      | inl split ↦ rw (split) (refl, (next_used, apart.1))
      | inr whole ↦ rw (whole) (refl, apart.1)
    ]

-- The carving frees no first block.
head_free-carve :
    (need addr : ℕ) (before : Bool) (l : List Block)
    → (before && head_free l) ≡ false
    → (before && head_free (carve need addr l)) ≡ false
unfolding carve
head_free-carve need addr before [] apart = apart
head_free-carve need addr before (b ∷ l) apart = elim (Bool-cases (b.addr == addr)) [
  | inl here ↦ elim (Bool-cases (is_split need b)) [
    | inl split ↦ rw (here) (rw (split) (ground arith))
    | inr whole ↦ rw (here) (rw (whole) (ground arith))
  ]
  | inr other ↦ rw (other) apart
]

carve-IsCoalesced :
    (need from to : ℕ) (b : Block) (l : List Block)
    → b.is_free ≡ true
    → Tiles from to l
    → In b l
    → IsCoalesced l
    → IsCoalesced (carve need b.addr l)
unfolding carve
carve-IsCoalesced need from to b [] free tiles member apart = tt
carve-IsCoalesced need from to b (c ∷ l) free tiles (inl here) apart =
    let test : (c.addr == b.addr) ≡ true = ground (arith, ap (λ t. t.addr) here) in
    rw (test) (carve_block-IsCoalesced need c l (ap (λ t. t.is_free) here ∙ free) apart)
carve-IsCoalesced need from to b (c ∷ l) free tiles (inr later) apart =
    let above : c.addr < b.addr =
      omega (arith, In-above b (from + c.size) to l tiles.2 later, tiles.0, tiles.1) in
    rw (ne→==_false c.addr b.addr (omega (arith, above))) (
      head_free-carve need b.addr c.is_free l apart.0,
      carve-IsCoalesced need (from + c.size) to b l free tiles.2 later apart.1,
    )

kmalloc-IsCoalesced :
    (size from to : ℕ) (h : Heap) (m : Memory)
    → Tiles from to h.blocks
    → IsCoalesced h.blocks
    → IsCoalesced (kmalloc size h m).1.blocks
unfolding kmalloc
kmalloc-IsCoalesced size from to h m tiles apart = elim (Bool-cases (size == 0)) [
  | inl none_asked ↦ rw (none_asked) apart
  | inr some_asked ↦ elim (Bool-cases (ltb 4194304 size)) [
    | inl large ↦ rw (some_asked) (rw (large) apart)
    | inr small ↦ elim (Option-cases (best_from (actual_size size) none h.blocks)) [
      | inl full ↦ rw (some_asked, kmalloc) (rw (small) (rw (full) apart))
      | inr (b, found) ↦
          rw (some_asked, kmalloc)
            (rw (small) (
              rw (found) (elim (best_from-In (actual_size size) none h.blocks b found) [
                | inl absent ↦ absurd (ground arith)
                | inr (member, fit) ↦
                    carve-IsCoalesced (actual_size size) from to b h.blocks fit.0 tiles member apart
              ])))
    ]
  ]
]

-- A request of any size, or the release of the data of a block in use.
pub data Step : Heap → Heap → Type 0 where
  request : (size : ℕ) (h : Heap) (m : Memory) → Step h (kmalloc size h m).1
  give_back :
      (h : Heap) (b : Block) → In b h.blocks → b.is_free ≡ false → Step h (kfree (b.addr + 16) h)

pub data Reach (start : Heap) : Heap → Type 0 where
  here : Reach start start
  next : (h t : Heap) → Reach start h → Step h t → Reach start t

record IsSound (from to : ℕ) (h : Heap) : Type 0 where
  tiles : Tiles from to h.blocks
  apart : IsCoalesced h.blocks

Step-IsSound :
    (from to : ℕ) (h t : Heap) → to < 2 ^ 32 → Step h t → IsSound from to h → IsSound from to t
Step-IsSound from to h _ small (request size _ m) sound = record {
  tiles = elim (kmalloc_lem size from to h m sound.tiles) [
    | inl refused ↦ subst (λ r. Tiles from to r.1.blocks) (sym refused) sound.tiles
    | inr handed ↦ handed.tiles
  ];
  apart = kmalloc-IsCoalesced size from to h m sound.tiles sound.apart;
}
Step-IsSound from to h _ small (give_back _ b member used) sound = record {
  tiles = (kfree_lem from to h b 0 sound.tiles small member used sound.apart).0;
  apart = (kfree_lem from to h b 0 sound.tiles small member used sound.apart).2;
}

Reach-IsSound :
    (from to : ℕ) (start h : Heap)
    → to < 2 ^ 32
    → IsSound from to start
    → Reach start h
    → IsSound from to h
Reach-IsSound from to start _ small sound here = sound
Reach-IsSound from to start h small sound (next t _ before step) =
    Step-IsSound from to t h small step (Reach-IsSound from to start t small sound before)

-- Where the page allocator gave `kmalloc_init` the megabyte at `from`, below 4 GB, no sequence of requests
-- and releases of blocks in use tears the heap: its blocks fill the megabyte side by side, no two blocks
-- in use share an address, and no free block has a free successor.
pub heap_Reach :
    (s : Buddy) (from x : ℕ) (h : Heap)
    → (pmm_alloc_pages 8 s).0 ≡ from
    → 0 < from
    → from + 2 ^ 20 < 2 ^ 32
    → Reach (kmalloc_init s).0 h
    → Tiles from (from + 2 ^ 20) h.blocks × (held h.blocks x ≤ 1) × IsCoalesced h.blocks
unfolding kmalloc_init
heap_Reach s from x h given positive small reach =
    let start : IsSound from (from + 2 ^ 20) (kmalloc_init s).0 =
      rw (given, kmalloc_init)
        (rw (ne→==_false from 0 (omega (arith, positive)))
          (record { tiles = (refl, omega arith, omega arith); apart = (refl, tt) })) in
    let sound = Reach-IsSound from (from + 2 ^ 20) (kmalloc_init s).0 h small start reach in
    (sound.tiles, held_le_one from (from + 2 ^ 20) h.blocks x sound.tiles, sound.apart)
