-- ===== src/Paging.antt =====
-- kernel/mm/temp_mapping.c and the page tables that it writes: the slots of temporary mappings and
-- physical memory by byte. `none` is a kernel that does not go on: it spins on a lock that nobody
-- gives back, or it has no page at the address it uses.
pub mod Words
pub mod Slots
pub mod Entries
pub mod Mapping
pub mod Release
pub mod Undo
pub mod History
pub mod Deadlock
mod Tests
use matrix_os.Prelude.{
  ℕ, zero, suc, ◌+◌, ◌-◌, ◌*◌, ◌/◌, ◌%◌, ◌^◌, Bool, true, false, ◌||◌, List, [], ◌∷◌, Option, none,
  some, ◌==◌, not, ltb, if◌then◌else◌, get_or, set, ◌>>=◌,
}
use matrix_os.Prelude.Word.{add32, sub32, align_down}
use matrix_os.CString.{Memory, store, memset}
use matrix_os.Pmm.{Buddy, page_size, pmm_alloc_pages}
use Prim.Native.Nat.{bit_and, bit_or, bit_xor}

abbrev pub temp_mapping_addr : ℕ
temp_mapping_addr = 0xC03F_F000

abbrev pub temp_mapping_count : ℕ
temp_mapping_count = 4

-- `struct temp_mapping_manager`.
pub record TempManager : Type 0 where
  pub lock : Bool
  pub available_slots : ℕ
  pub ref_count : List ℕ

-- The memory manager: `temp_mgr`, the page allocator, physical memory, and the physical address of
-- the page directory, which the kernel sees at 0xFFFFF000.
pub record Mm : Type 0 where
  pub temp : TempManager
  pub buddy : Buddy
  pub phys : Memory
  pub directory : ℕ

-- A `uint32_t` in memory, its lowest byte first.
unfoldable pub load_word : Memory → ℕ → ℕ
load_word m a = m a + m (a + 1) * 2 ^ 8 + m (a + 2) * 2 ^ 16 + m (a + 3) * 2 ^ 24

unfoldable pub store_word : Memory → ℕ → ℕ → Memory
store_word m a w =
    store (store (store (store m a (w % 256)) (a + 1) (w / 2 ^ 8 % 256)) (a + 2) (w / 2 ^ 16 % 256))
      (a + 3) (w / 2 ^ 24 % 256)

abbrev pub page_dir_index : ℕ → ℕ
page_dir_index v = v / 2 ^ 22

abbrev pub page_tab_index : ℕ → ℕ
page_tab_index v = v / 2 ^ 12 % 1024

-- The addresses of `page_dir[page_dir_index]` and of `page_table[page_tab_index]`, the table that
-- the directory names.
abbrev pub directory_entry : ℕ → Mm → ℕ
directory_entry v s = s.directory + 4 * page_dir_index v

abbrev pub table_entry : ℕ → Mm → ℕ
table_entry v s = align_down (load_word s.phys (directory_entry v s)) 4096 + 4 * page_tab_index v

-- The physical address behind a virtual one.
unfoldable pub translate : ℕ → Mm → Option ℕ
translate v s =
    let entry = load_word s.phys (table_entry v s) in
    if bit_and (load_word s.phys (directory_entry v s)) 1 == 0
    then none
    else if bit_and entry 1 == 0
    then none
    else some (align_down entry 4096 + v % 4096)

abbrev pub set_phys : Memory → Mm → Mm
set_phys m s = record s { phys = m }

abbrev pub set_temp : TempManager → Mm → Mm
set_temp t s = record s { temp = t }

abbrev pub set_buddy : Buddy → Mm → Mm
set_buddy b s = record s { buddy = b }

-- `memset(page, 0, PAGE_SIZE)` of a page by its virtual address.
unfoldable pub clear_page : ℕ → Mm → Option Mm
clear_page v s = do frame ← translate v s; some (set_phys (memset frame 0 page_size s.phys) s)

abbrev pub set_lock : Bool → TempManager → TempManager
set_lock lock t = record t { lock = lock }

unfoldable pub temp_mapping_init : Mm → Mm
temp_mapping_init s =
    set_temp
      (record {
        lock = false;
        available_slots = 2 ^ temp_mapping_count - 1;
        ref_count = set (set (set (set s.temp.ref_count 0 0) 1 0) 2 0) 3 0;
      })
      s

-- The loop for a slot from number `i` on, with the rounds left.
unfoldable pub first_slot : ℕ → ℕ → ℕ → Option ℕ
first_slot zero i available = none
first_slot (suc n) i available =
    let rest = first_slot n (i + 1) available in
    if bit_and available (2 ^ i) == 0 then rest else some i

unfoldable pub unmap_page : ℕ → Mm → Mm
unmap_page v s = set_phys (store_word s.phys (table_entry v s) 0) s

-- A slot that comes into use, and one whose last user is gone.
abbrev pub take_slot : ℕ → TempManager → TempManager
take_slot slot t = record t {
  available_slots = bit_and t.available_slots (bit_xor 0xFFFF_FFFF (2 ^ slot));
  ref_count = set t.ref_count slot (add32 (get_or t.ref_count slot 0) 1);
}

abbrev pub count_down : ℕ → TempManager → TempManager
count_down slot t = record t {
  ref_count = set t.ref_count slot (sub32 (get_or t.ref_count slot 0) 1);
}

abbrev pub free_slot : ℕ → TempManager → TempManager
free_slot slot t = record t { available_slots = bit_or t.available_slots (2 ^ slot) }

-- The part of `temp_unmap_page` under the lock.
unfoldable pub release_slot : ℕ → ℕ → Mm → Mm
unfolding unmap_page
release_slot v slot s =
    let counted = set_temp (count_down slot s.temp) s in
    if get_or s.temp.ref_count slot 0 == 0
    then s
    else if get_or counted.temp.ref_count slot 0 == 0
    then (let t = unmap_page v counted in set_temp (free_slot slot t.temp) t)
    else counted

unfoldable pub temp_unmap_page : ℕ → Mm → Option Mm
temp_unmap_page v s =
    let slot = (temp_mapping_addr - v) / page_size in
    if ltb v (temp_mapping_addr - (temp_mapping_count - 1) * page_size) || ltb temp_mapping_addr v
    then some s
    else if s.temp.lock
    then none
    else (let locked = set_temp (set_lock true s.temp) s in
        let t = if ltb slot temp_mapping_count then release_slot v slot locked else locked in
        some (set_temp (set_lock false t.temp) t))

-- `map_page`, which calls `temp_map_page` where the page table does not exist yet.
unfoldable pub map_page : (ℕ → Mm → Option (ℕ × Mm)) → ℕ → ℕ → ℕ → Mm → Option Mm
map_page temp_map v physical flags s =
    let write =
      λ (t : Mm). set_phys (store_word t.phys (table_entry v t) (bit_or physical flags)) t in
    if bit_and (load_word s.phys (directory_entry v s)) 1 == 0
    then (do
      let (new_page_table, b) = pmm_alloc_pages 0 s.buddy
      (temp_mapping, t) ← temp_map new_page_table (set_buddy b s)
      cleared ← clear_page temp_mapping t
      entered ← some (
          set_phys
            (store_word cleared.phys (directory_entry v cleared) (bit_or new_page_table flags))
            cleared)
      unmapped ← temp_unmap_page temp_mapping entered
      some (write unmapped))
    else some (write s)

-- The part of `temp_map_page` under the lock, which `s` has taken, from the loop's answer on.
unfoldable pub map_slot : (ℕ → Mm → Option (ℕ × Mm)) → ℕ → Option ℕ → Mm → Option (ℕ × Mm)
map_slot temp_map physical none s = some (0, set_temp (set_lock false s.temp) s)
map_slot temp_map physical (some slot) s =
    let v = temp_mapping_addr - slot * page_size in
    do
      t ← map_page temp_map v physical 0x03 s
      some (v, set_temp (set_lock false (take_slot slot t.temp)) t)

-- The calls of `map_page` in `temp_map_page` and back are counted by fuel.
unfoldable pub temp_map_from : ℕ → ℕ → Mm → Option (ℕ × Mm)
temp_map_from zero physical s = none
temp_map_from (suc fuel) physical s =
    let inner = temp_map_from fuel in
    if not (bit_and physical 0xFFF == 0)
    then some (0, s)
    else if s.temp.lock
    then none
    else map_slot inner physical (first_slot temp_mapping_count 0 s.temp.available_slots)
        (set_temp (set_lock true s.temp) s)

unfoldable pub temp_map_page : ℕ → Mm → Option (ℕ × Mm)
temp_map_page physical s = temp_map_from 2 physical s

unfoldable pub temp_get_mapping : ℕ → Mm → Option (ℕ × Mm)
temp_get_mapping physical s = temp_map_page physical s
