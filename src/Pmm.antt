-- ===== src/Pmm.antt =====
-- kernel/mm/pmm.c and pmm.h: the buddy allocator of physical pages. A free list is the list of its
-- blocks' addresses, first entry first: `list_add` puts a block in front, `list_del` takes it out.
-- The spinlock is taken and released within each call, and calls do not interleave.
pub mod Xor
pub mod Cover
pub mod Updates
pub mod Alloc
pub mod Pairs
pub mod Free
pub mod History
pub mod Init
mod Tests
use matrix_os.Prelude.{
  ℕ, zero, suc, ◌+◌, ◌-◌, ◌*◌, ◌/◌, ◌%◌, ◌^◌, ◌<◌, Bool, true, false, ◌||◌, List, [], ◌∷◌, ◌==◌,
  ltb, leb, if◌then◌else◌, get_or, set, replicate, Option, none, some,
}
use matrix_os.Prelude.Word.{add32, sub32, mul32, align_down}
use matrix_os.Prelude.Loops.{for_range}
use Prim.Native.Nat.{bit_xor}

abbrev pub max_order : ℕ
max_order = 11

abbrev pub page_size : ℕ
page_size = 4096

-- `struct free_area`.
pub record FreeArea : Type 0 where
  pub free_list : List ℕ
  pub nr_free : ℕ

-- `struct buddy_system`, with the `order` words that it writes at the heads of blocks. A place of
-- `bitmap` is one bit: bit `i % 8` of byte `i / 8`.
pub record Buddy : Type 0 where
  pub total_pages : ℕ
  pub managed_pages : ℕ
  pub base_addr : ℕ
  pub free_area : List FreeArea
  pub bitmap : ℕ → Bool
  pub page_order : ℕ → ℕ

abbrev pub no_blocks : FreeArea
no_blocks = record { free_list = []; nr_free = 0 }

abbrev pub area : Buddy → ℕ → FreeArea
area s k = get_or s.free_area k no_blocks

-- `list_add(&page->list, &area->free_list); area->nr_free++`.
abbrev pub add_block : ℕ → FreeArea → FreeArea
add_block addr a = record { free_list = addr ∷ a.free_list; nr_free = add32 a.nr_free 1 }

-- After `page->order = order`.
unfoldable pub push_block : ℕ → ℕ → Buddy → Buddy
push_block k addr s = record s {
  free_area = set s.free_area k (add_block addr (area s k));
  page_order = λ a. if a == addr then k else s.page_order a;
}

-- `bitmap[i / 8] |= 1 << (i % 8)`, and `&= ~…`.
abbrev pub mark : Bool → ℕ → Buddy → Buddy
mark b i s = record s { bitmap = λ j. if j == i then b else s.bitmap j }

-- The loop that marks the `n` pages from `first` on.
unfoldable pub mark_pages : Bool → ℕ → ℕ → Buddy → Buddy
mark_pages b first n s = for_range n 0 (λ i s. mark b (first + i) s) s

-- `(addr - base_addr) / PAGE_SIZE`.
abbrev pub page_index : ℕ → Buddy → ℕ
page_index addr s = sub32 addr s.base_addr / page_size

abbrev pub max_order_pages : ℕ
max_order_pages = 2 ^ 11

-- The loop of `pmm_init` over the blocks of the highest order.
unfoldable pub add_blocks : ℕ → ℕ → ℕ → Buddy → Buddy
add_blocks zero remaining addr s = s
add_blocks (suc fuel) remaining addr s =
    let rest =
      add_blocks fuel (remaining - max_order_pages) (add32 addr (max_order_pages * page_size))
        (mark_pages true (page_index addr s) max_order_pages (push_block max_order addr s)) in
    if leb max_order_pages remaining then rest else s

-- `current_addr` after the alignment to the highest order.
unfoldable pub first_block : ℕ → ℕ → ℕ
first_block memory_start bitmap_size =
    align_down (add32 (add32 memory_start bitmap_size) (max_order_pages * page_size - 1))
      (max_order_pages * page_size)

-- `bitmap_size`, in bytes.
abbrev pub bitmap_bytes : ℕ → ℕ
bitmap_bytes total = add32 total 7 / 8

-- Before the loop: empty lists, and a cleared bitmap; other bits are what memory held.
abbrev pub cleared : ℕ → ℕ → Buddy → Buddy
cleared memory_start total s = record s {
  total_pages = total;
  managed_pages = total;
  base_addr = memory_start;
  free_area = replicate 12 no_blocks;
  bitmap = λ i. if ltb i (bitmap_bytes total * 8) then false else s.bitmap i;
}

-- Each round of the loop takes 2048 pages off, so one round more than `total_pages` is enough fuel.
unfoldable pub pmm_init : ℕ → ℕ → Buddy → Buddy
pmm_init memory_start memory_end s =
    let total = sub32 memory_end memory_start / page_size in
    add_blocks (suc total) total (first_block memory_start (bitmap_bytes total))
      (cleared memory_start total s)

-- `for (current = order; current <= MAX_ORDER; current++) if (!list_empty(...)) break;` with the
-- rounds left: the order of the first list with a block, and the list.
unfoldable pub find_area : ℕ → ℕ → Buddy → Option (ℕ × ℕ × List ℕ)
find_area zero k s = none
find_area (suc n) k s =
    let later = find_area n (k + 1) s in
    elim ((area s k).free_list) [ [] ↦ later | addr ∷ rest ↦ some (k, addr, rest) ]

-- `while (current_order > order)`, with the `n` orders left to go down: the upper half of the block
-- at `addr` becomes a free block of the next lower order.
unfoldable pub split : ℕ → ℕ → ℕ → Buddy → Buddy
split zero order addr s = s
split (suc n) order addr s =
    let current = order + n in
    let buddy_addr = bit_xor addr (2 ^ (current + 12)) in
    split n order addr (mark true (page_index buddy_addr s) (push_block current buddy_addr s))

-- `list_del(entry); area->nr_free--`, with the list that is left.
abbrev pub leave : List ℕ → FreeArea → FreeArea
leave rest a = record { free_list = rest; nr_free = sub32 a.nr_free 1 }

unfoldable pub take_first : ℕ → List ℕ → Buddy → Buddy
take_first k rest s = record s { free_area = set s.free_area k (leave rest (area s k)) }

-- After the split: `page->order = order`, and the marks of the pages handed out.
unfoldable pub hand_out : ℕ → ℕ → Buddy → Buddy
hand_out addr order s =
    mark_pages true (page_index addr s) (2 ^ order)
      (record s { page_order = λ a. if a == addr then order else s.page_order a })

unfoldable pub pmm_alloc_pages : ℕ → Buddy → ℕ × Buddy
pmm_alloc_pages order s =
    if ltb max_order order then (0, s) else (elim (find_area (max_order + 1 - order) order s) [
      | none ↦ (0, s)
      | some (current, addr, rest) ↦ (
        addr,
        hand_out addr order (split (current - order) order addr (take_first current rest s)),
      )
    ])

unfoldable pub find_buddy_pfn : ℕ → ℕ → ℕ
find_buddy_pfn page_idx order = bit_xor page_idx (2 ^ order)

-- `list_for_each` with the comparison, and the list after `list_del` of the entry that it finds.
pub has_block : ℕ → List ℕ → Bool
has_block addr [] = false
has_block addr (a ∷ l) = a == addr || has_block addr l

pub list_del : ℕ → List ℕ → List ℕ
list_del addr [] = []
list_del addr (a ∷ l) = if a == addr then l else a ∷ list_del addr l

unfoldable pub take_block : ℕ → ℕ → Buddy → Buddy
take_block k addr s = record s {
  free_area = set s.free_area k (leave (list_del addr (area s k).free_list) (area s k));
}

-- `while (current_order < MAX_ORDER)`, with the rounds left: the block grows by its buddy as long as
-- that is free. The result is the final order and address, and the state without the buddies.
unfoldable pub merge : ℕ → ℕ → ℕ → ℕ → Buddy → ℕ × ℕ × Buddy
merge zero order addr idx s = (order, addr, s)
merge (suc n) order addr idx s =
    let buddy_idx = find_buddy_pfn idx order in
    let buddy_addr = add32 s.base_addr (mul32 buddy_idx page_size) in
    let is_lower = ltb buddy_addr addr in
    let rest =
      merge n (order + 1) (if is_lower then buddy_addr else addr)
        (if is_lower then buddy_idx else idx) (take_block order buddy_addr s) in
    if has_block buddy_addr (area s order).free_list then rest else (order, addr, s)

unfoldable pub pmm_free_pages : ℕ → ℕ → Buddy → Buddy
pmm_free_pages page_addr order s =
    if ltb max_order order || ltb page_addr s.base_addr
    then s
    else (let idx = page_index page_addr s in
        let (k, addr, s') =
          merge (max_order - order) order page_addr idx (mark_pages false idx (2 ^ order) s) in
        push_block k addr s')

-- The numbers that `pmm_stats` prints: used and free pages, and the usage in percent. The division
-- by `managed_pages` faults where that is 0.
unfoldable pub free_pages_from : ℕ → List FreeArea → ℕ
free_pages_from i [] = 0
free_pages_from i (a ∷ areas) = add32 (a.nr_free * 2 ^ i) (free_pages_from (i + 1) areas)

pub record Stats : Type 0 where
  pub used_pages : ℕ
  pub free_pages : ℕ
  pub usage : ℕ

unfoldable pub pmm_stats : Buddy → Option Stats
pmm_stats s =
    let total_free = free_pages_from 0 s.free_area in
    let used = sub32 s.managed_pages total_free in
    if s.managed_pages == 0
    then none
    else some (record {
      used_pages = used;
      free_pages = total_free;
      usage = mul32 used 100 / s.managed_pages;
    })
