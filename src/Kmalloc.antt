-- ===== src/Kmalloc.antt =====
-- kernel/mm/kmalloc.c: the kernel's heap. The chain of block headers is the list of the blocks from
-- `heap_mgr.head` on, each with the address of its header, and a pointer to a header is that address.
-- The headers are kept apart from the bytes of memory, which hold the data of the blocks.
pub mod Tiling
pub mod Alloc
pub mod Release
pub mod Calls
mod Tests
use matrix_os.Prelude.{
  ℕ, zero, suc, ◌+◌, ◌-◌, ◌*◌, ◌/◌, ◌%◌, ◌<◌, Bool, true, false, ◌&&◌, List, [], ◌∷◌, Option, none,
  some, ◌==◌, ltb, leb, if◌then◌else◌,
}
use matrix_os.Prelude.Word.{add32, sub32, mul32}
use matrix_os.CString.{Memory, memset, memcpy}
use matrix_os.Pmm.{Buddy, pmm_alloc_pages}

-- `struct kmalloc_header`, of 16 bytes; `size` counts them.
pub record Block : Type 0 where
  pub addr : ℕ
  pub size : ℕ
  pub is_free : Bool

-- `struct heap_manager`.
pub record Heap : Type 0 where
  pub blocks : List Block
  pub total_allocated : ℕ
  pub total_freed : ℕ
  pub current_usage : ℕ

abbrev pub kmalloc_max_size : ℕ
kmalloc_max_size = 4 * 1024 * 1024

-- A heap of 256 pages. Where the allocator has none, the head is NULL and the chain empty.
unfoldable pub kmalloc_init : Buddy → Heap × Buddy
kmalloc_init s =
    let (heap_start, s') = pmm_alloc_pages 8 s in
    let first : Block = record { addr = heap_start; size = 256 * 4096; is_free = true } in
    (
      record {
        blocks = if heap_start == 0 then [] else first ∷ [];
        total_allocated = 0;
        total_freed = 0;
        current_usage = 0;
      },
      s',
    )

-- `ALIGN_UP(size + sizeof(struct kmalloc_header), 8)`, for sizes up to `kmalloc_max_size`.
abbrev pub actual_size : ℕ → ℕ
actual_size size = (size + 16 + 7) / 8 * 8

-- `!best_fit || current->size < best_fit->size`.
abbrev pub is_better : Block → Option Block → Bool
is_better b none = true
is_better b (some best) = ltb b.size best.size

-- The walk over the chain, with `best_fit` so far.
unfoldable pub best_from : ℕ → Option Block → List Block → Option Block
best_from need best [] = best
best_from need best (b ∷ rest) =
    best_from need (if b.is_free && leb need b.size && is_better b best then some b else best) rest

-- Whether the block is split: room for another header and KMALLOC_MIN_SIZE bytes.
abbrev pub is_split : ℕ → Block → Bool
is_split need b = leb (need + 16 + 16) b.size

-- The size of the block that is handed out.
abbrev pub granted : ℕ → Block → ℕ
granted need b = if is_split need b then need else b.size

-- The block is taken; what the split leaves of it follows it in the chain.
abbrev pub carve_block : ℕ → Block → List Block → List Block
carve_block need b rest =
    if is_split need b
    then (record { addr = b.addr; size = need; is_free = false }
        ∷ record { addr = b.addr + need; size = b.size - need; is_free = true }
        ∷ rest)
    else record b { is_free = false } ∷ rest

unfoldable pub carve : ℕ → ℕ → List Block → List Block
carve need addr [] = []
carve need addr (b ∷ rest) =
    let later = b ∷ carve need addr rest in
    if b.addr == addr then carve_block need b rest else later

unfoldable pub kmalloc : ℕ → Heap → Memory → ℕ × Heap × Memory
kmalloc size h m =
    if size == 0
    then (0, h, m)
    else if ltb kmalloc_max_size size
    then (0, h, m)
    else (elim (best_from (actual_size size) none h.blocks) [
      | none ↦ (0, h, m)
      | some b ↦ (
        b.addr + 16,
        record h {
          blocks = carve (actual_size size) b.addr h.blocks;
          total_allocated = add32 h.total_allocated size;
          current_usage = add32 h.current_usage (granted (actual_size size) b);
        },
        memset (b.addr + 16) 0 size m,
      )
    ])

-- The block whose header stands at an address; elsewhere the source reads what memory happens to hold.
unfoldable pub block_at : ℕ → List Block → Option Block
block_at addr [] = none
block_at addr (b ∷ rest) =
    let later = block_at addr rest in if b.addr == addr then some b else later

-- A block takes in its successor in the chain, where that is free.
unfoldable pub absorb_next : Block → List Block → List Block
absorb_next b [] = b ∷ []
absorb_next b (c ∷ rest) =
    if c.is_free then record b { size = b.size + c.size } ∷ rest else b ∷ c ∷ rest

abbrev pub starts_at : ℕ → List Block → Bool
starts_at addr [] = false
starts_at addr (b ∷ rest) = b.addr == addr

-- The block is marked free, takes in its successor, and is taken in by its predecessor.
unfoldable pub release : ℕ → List Block → List Block
release addr [] = []
release addr (b ∷ rest) =
    let later = release addr rest in
    if b.addr == addr
    then absorb_next (record b { is_free = true }) rest
    else if starts_at addr rest && b.is_free
    then absorb_next b later
    else b ∷ later

unfoldable pub kfree : ℕ → Heap → Heap
kfree ptr h = if ptr == 0 then h else (elim (block_at (sub32 ptr 16) h.blocks) [
  | none ↦ h
  | some b ↦ if b.is_free then h else record {
    blocks = release b.addr h.blocks;
    total_allocated = h.total_allocated;
    total_freed = add32 h.total_freed (sub32 b.size 16);
    current_usage = sub32 h.current_usage b.size;
  }
])

unfoldable pub kcalloc : ℕ → ℕ → Heap → Memory → ℕ × Heap × Memory
kcalloc num size h m =
    let (ptr, h', m') = kmalloc (mul32 num size) h m in
    if ptr == 0 then (ptr, h', m') else (ptr, h', memset ptr 0 (mul32 num size) m')

-- After the new block is there: the old data is copied, and the old block freed.
abbrev pub move_data : ℕ → ℕ → ℕ × Heap × Memory → ℕ × Heap × Memory
move_data ptr old_size (new_ptr, h, m) =
    if new_ptr == 0 then (0, h, m) else (new_ptr, kfree ptr h, memcpy new_ptr ptr old_size m)

unfoldable pub krealloc : ℕ → ℕ → Heap → Memory → ℕ × Heap × Memory
krealloc ptr size h m =
    if ptr == 0
    then kmalloc size h m
    else if size == 0
    then (0, kfree ptr h, m)
    else (elim (block_at (sub32 ptr 16) h.blocks) [
      | none ↦ (0, h, m)
      | some b ↦
          if leb size (sub32 b.size 16)
          then (ptr, h, m)
          else move_data ptr (sub32 b.size 16) (kmalloc size h m)
    ])
