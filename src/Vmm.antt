-- ===== src/Vmm.antt =====
-- kernel/mm/vmm.c: the address space of a user program. Memory is written through temporary
-- mappings, by their virtual addresses.
pub mod Accounts
pub mod Failure
pub mod Pages
pub mod Copy
pub mod Fill
pub mod Space
mod Tests
use matrix_os.Prelude.{ℕ, zero, suc, ◌+◌, ◌*◌, Option, none, some, ◌==◌, if◌then◌else◌, ◌>>=◌}
use matrix_os.CString.{store}
use matrix_os.Pmm.{pmm_alloc_pages, pmm_free_pages}
use matrix_os.Paging.{
  Mm, load_word, store_word, translate, set_phys, set_buddy, clear_page, temp_map_page,
  temp_unmap_page,
}
use Prim.Native.Nat.{bit_or}

-- `page[i] = word` of a page by its virtual address.
unfoldable pub put_word : ℕ → ℕ → ℕ → Mm → Option Mm
put_word page i word s = do
  a ← translate (page + 4 * i) s
  some (set_phys (store_word s.phys a word) s)

-- The loop over the kernel's entries from number `i` on, with the rounds left.
unfoldable pub copy_entries : ℕ → ℕ → ℕ → Mm → Option Mm
copy_entries zero i page_dir s = some s
copy_entries (suc n) i page_dir s = do
  t ← put_word page_dir i (load_word s.phys (s.directory + 4 * i)) s
  copy_entries n (i + 1) page_dir t

-- A page from the allocator, or 0.
unfoldable pub take_page : Mm → ℕ × Mm
take_page s = let (page, b) = pmm_alloc_pages 0 s.buddy in (page, set_buddy b s)

unfoldable pub give_page : ℕ → Mm → Mm
give_page page s = set_buddy (pmm_free_pages page 0 s.buddy) s

unfoldable pub fill_directory : ℕ → Mm → Option Mm
fill_directory user_page_dir s = do
  (temp_mapping, t) ← temp_map_page user_page_dir s
  cleared ← clear_page temp_mapping t
  copied ← copy_entries 256 768 temp_mapping cleared
  temp_unmap_page temp_mapping copied

unfoldable pub vmm_create_user_space : Mm → Option (ℕ × Mm)
unfolding take_page
vmm_create_user_space s =
    let (user_page_dir, taken) = take_page s in
    if user_page_dir == 0
    then some (0, taken)
    else (do filled ← fill_directory user_page_dir taken; some (user_page_dir, filled))

unfoldable pub vmm_destroy_user_space : ℕ → Mm → Mm
unfolding give_page
vmm_destroy_user_space page_dir s = if page_dir == 0 then s else give_page page_dir s

-- A page table with one entry: cleared, and entry `i` set to the page, present for the user.
unfoldable pub fill_table : ℕ → ℕ → ℕ → Mm → Option Mm
fill_table table i page s = do
  (temp_table, t) ← temp_map_page table s
  cleared ← clear_page temp_table t
  entered ← put_word temp_table i (bit_or page 0x07) cleared
  temp_unmap_page temp_table entered

-- `memcpy` between virtual addresses, with the bytes left.
unfoldable pub copy_bytes : ℕ → ℕ → ℕ → Mm → Option Mm
copy_bytes zero dst src s = some s
copy_bytes (suc n) dst src s = do
  from ← translate src s
  to ← translate dst s
  copy_bytes n (dst + 1) (src + 1) (set_phys (store s.phys to (s.phys from)) s)

-- The part of `vmm_load_user_program` after all pages are there: `temp_page_dir` is where the page
-- directory has been mapped.
unfoldable pub fill_program : ℕ → ℕ → ℕ → ℕ → ℕ → ℕ → ℕ → Mm → Option Mm
fill_program temp_page_dir code_page stack_page code_table stack_table binary_phys size s = do
  code_entry ← put_word temp_page_dir 0 (bit_or code_table 0x07) s
  code_filled ← fill_table code_table 0 code_page code_entry
  stack_entry ← put_word temp_page_dir 0x3FE (bit_or stack_table 0x07) code_filled
  stack_filled ← fill_table stack_table 0x3FF stack_page stack_entry
  left ← temp_unmap_page temp_page_dir stack_filled
  (temp_src, source) ← temp_map_page binary_phys left
  (temp_dst, target) ← temp_map_page code_page source
  copied ← copy_bytes size temp_dst temp_src target
  unmapped ← temp_unmap_page temp_src copied
  temp_unmap_page temp_dst unmapped

-- The allocations of the two page tables, with the page directory mapped at `temp_page_dir`.
unfoldable pub load_tables : ℕ → ℕ → ℕ → ℕ → ℕ → Mm → Option (ℕ × Mm)
load_tables temp_page_dir code_page stack_page binary_phys size s =
    let (code_table, with_code) = take_page s in
    let (stack_table, with_stack) = take_page with_code in
    if code_table == 0
    then (do
      t ← temp_unmap_page temp_page_dir with_code
      some (0, give_page stack_page (give_page code_page t)))
    else if stack_table == 0
    then (do
      t ← temp_unmap_page temp_page_dir with_stack
      some (0, give_page code_table (give_page stack_page (give_page code_page t))))
    else (do
      t ←
          fill_program temp_page_dir code_page stack_page code_table stack_table binary_phys size
            with_stack
      some (1, t))

unfoldable pub vmm_load_user_program : ℕ → ℕ → ℕ → Mm → Option (ℕ × Mm)
vmm_load_user_program page_dir binary_phys size s =
    let (code_page, with_code) = take_page s in
    let (stack_page, with_stack) = take_page with_code in
    if code_page == 0
    then some (0, with_code)
    else if stack_page == 0
    then some (0, give_page code_page with_stack)
    else (do
      (temp_page_dir, t) ← temp_map_page page_dir with_stack
      load_tables temp_page_dir code_page stack_page binary_phys size t)
