-- ===== src/Vmm/Fill.antt =====
-- fill_directory of vmm_create_user_space: the state after it, and the words of the page.
use matrix_os.Prelude.{
  ℕ, ◌+◌, ◌*◌, ◌/◌, ◌%◌, ◌^◌, ◌≤◌, ◌<◌, ◌≡◌, inl, inr, refl, ap, ◌∙◌, arith, Bool, true, false,
  List, some, length, if◌then◌else◌, ltb, get_or, set, length-set, get_or-set_self,
}
use matrix_os.Prelude.Word.{align_down}
use matrix_os.CString.{Memory}
use matrix_os.Paging.{
  Mm, set_phys, load_word, store_word, table_entry, temp_map_page, temp_unmap_page,
}
use matrix_os.Paging.Words.{load_word-store_word, load_word-elsewhere, bit_or-three, Apart}
use matrix_os.Paging.Slots.{slots}
use matrix_os.Paging.Entries.{HasTable, slot_addr, near_slot, entry_at, same_place, same_directory}
use matrix_os.Paging.Mapping.{mapped}
use matrix_os.Paging.Release.{unmapped, in_use_slot}
use matrix_os.Paging.Undo.{mapped-HasTable, undone-temp}
use matrix_os.Vmm.{fill_directory}
use matrix_os.Vmm.Pages.{PagesApart, slot_table}
use matrix_os.Vmm.Copy.{Filled, clear_and_copy, one_word, Agrees-HasTable}
use Prim.Native.Nat.{bit_or}

store_word-bytes :
    (m : Memory) (a w : ℕ) → ((x : ℕ) → m x < 256) → (x : ℕ) → store_word m a w x < 256
unfolding store_word
store_word-bytes m a w bytes x = ground (arith, bytes x)

swap_apart : (a b : ℕ) → PagesApart a b → PagesApart b a
swap_apart a b (inl h) = inr h
swap_apart a b (inr h) = inl h

-- Words of a page do not lie in an entry of a page table apart from it.
Apart-PagesApart :
    (table page entry j : ℕ)
    → PagesApart page table
    → table ≤ entry
    → entry + 4 ≤ table + 4096
    → j < 1024
    → Apart entry (page + 4 * j)
Apart-PagesApart table page entry j (inl h) from to small = inr (omega arith)
Apart-PagesApart table page entry j (inr h) from to small = inl (omega arith)

-- A page directory made of the page `p`: the slots and the allocator as they were, 768 empty entries
-- and the kernel's 256.
pub record IsFilled (p : ℕ) (s : Mm) : Type 0 where
  pub after : Mm
  pub returns : fill_directory p s ≡ some after
  pub same_pages : after.buddy ≡ s.buddy
  pub same_slots : after.temp ≡ s.temp
  pub words :
      (j : ℕ)
      → j < 1024
      → load_word after.phys (p + 4 * j)
        ≡ (if ltb j 768 then 0 else load_word s.phys (s.directory + 4 * j))

-- A page `p`, and a free slot for it.
module _ (p : ℕ) (used : List Bool) (s : Mm) (four : length used ≡ 4) (held : s.temp ≡ slots used)
    (has_table : HasTable s) (pages : PagesApart (slot_table s) s.directory)
    (bytes : (x : ℕ) → s.phys x < 256) (slot : ℕ) (below : slot < 4)
    (unused : get_or used slot true ≡ false) (aligned : p % 4096 ≡ 0) (word : p < 2 ^ 32)
    (no_table : PagesApart p (slot_table s)) (no_directory : PagesApart p s.directory) where
  abbrev pub v : ℕ
  v = slot_addr slot

  abbrev pub entered : Mm
  entered = mapped p slot used s

  near : v / 2 ^ 22 ≡ 768
  near = near_slot slot below

  entered-HasTable : HasTable entered
  entered-HasTable = mapped-HasTable p used s four held has_table slot below unused

  entered_word : load_word entered.phys (table_entry v entered) ≡ bit_or p 3
  entered_word =
      ap (load_word entered.phys) (same_place s has_table v near v (bit_or p 3) near)
      ∙ load_word-store_word s.phys (table_entry v s) (bit_or p 3) (omega (arith, bit_or-three p))

  same_table : slot_table entered ≡ slot_table s
  same_table = ap (λ (w : ℕ). align_down w 4096) (same_directory s has_table v near (bit_or p 3))

  whole : v % 4096 ≡ 0
  whole = omega (arith, below)

  on : load_word entered.phys (table_entry v entered) % 2 ≡ 1
  on = omega (arith, entered_word, bit_or-three p)

  leads : align_down (load_word entered.phys (table_entry v entered)) 4096 ≡ p
  leads = omega (arith, entered_word, bit_or-three p, aligned)

  clear_of_table : PagesApart p (slot_table entered)
  clear_of_table = rw same_table no_table

  filled : Filled entered p v entered-HasTable near whole on leads clear_of_table no_directory
  filled =
      clear_and_copy entered p v entered-HasTable near whole on leads clear_of_table no_directory
        (store_word-bytes s.phys (table_entry v s) (bit_or p 3) bytes)

  -- Memory with the page filled, and the state after the unmap.
  abbrev full : Mm
  full = set_phys filled.final entered

  abbrev created : Mm
  created = unmapped v (set used slot true) full

  created-returns : temp_map_page p s ≡ some (v, entered) → fill_directory p s ≡ some created
  unfolding fill_directory
  created-returns mapping = rw mapping (
      filled.returns (λ t. temp_unmap_page v t)
      ∙ in_use_slot v (set used slot true) full (length-set used slot true ∙ four) refl
          (omega arith) (omega arith)
          (ap (λ (k : ℕ). get_or (set used slot true) k true) (omega arith)
            ∙ get_or-set_self used slot true true (omega (arith, below, four))))

  created-temp : created.temp ≡ s.temp
  created-temp = undone-temp p used s four held has_table slot below unused

  slot_entry : table_entry v full ≡ slot_table s + 4 * (v / 2 ^ 12 % 1024)
  slot_entry =
      let agrees = filled.agrees in
      let has =
        Agrees-HasTable entered p v entered-HasTable near whole on leads clear_of_table no_directory
          filled.final agrees in
      let one =
        one_word entered p v entered-HasTable near whole on leads clear_of_table no_directory
          filled.final agrees in
      omega (arith, entry_at full has v near, one, same_table)

  created_words :
      (j : ℕ)
      → j < 1024
      → load_word created.phys (p + 4 * j)
        ≡ (if ltb j 768 then 0 else load_word s.phys (s.directory + 4 * j))
  created_words j small =
      let entry = entry_at s has_table v near in
      load_word-elsewhere filled.final (table_entry v full) 0 (p + 4 * j) (
        Apart-PagesApart (slot_table s) p (table_entry v full) j no_table
          (omega (arith, slot_entry)) (omega (arith, slot_entry)) small)
      ∙ filled.words j small
      ∙ ap (λ (w : ℕ). if ltb j 768 then 0 else w)
          (load_word-elsewhere s.phys (table_entry v s) (bit_or p 3) (s.directory + 4 * j) (
            Apart-PagesApart (slot_table s) s.directory (table_entry v s) j
              (swap_apart (slot_table s) s.directory pages) (omega (arith, entry))
              (omega (arith, entry)) small))

  pub fill_directory-IsFilled : temp_map_page p s ≡ some (v, entered) → IsFilled p s
  fill_directory-IsFilled mapping = record {
    after = created;
    returns = created-returns mapping;
    same_pages = refl;
    same_slots = created-temp;
    words = created_words;
  }
