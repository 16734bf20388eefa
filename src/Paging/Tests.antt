-- ===== src/Paging/Tests.antt =====
-- Temporary mappings in a memory whose page directory stands at 0x1000 and the slots' table at 0x2000.
use matrix_os.Prelude.{
  ℕ, ◌%◌, ◌<◌, ◌≡◌, ◌≢◌, ◌⊎◌, inr, refl, sym, ap, Bool, true, false, List, [], ◌∷◌, arith, ◌==◌,
  if◌then◌else◌, some, none, length, get_or, replicate, ◌>>=◌,
}
use mathlib.Core.Bool.{true≢false}
use matrix_os.CString.{Memory}
use matrix_os.Pmm.{Buddy, no_blocks, pmm_alloc_pages, find_area}
use matrix_os.Paging.{
  Mm, load_word, translate, temp_map_page, temp_map_from, temp_unmap_page, temp_mapping_init,
  first_slot, map_slot, map_page, store_word,
}
use matrix_os.Paging.Slots.{slots}
use matrix_os.Paging.Entries.{HasTable, slot_addr}
use matrix_os.Paging.Mapping.{mapped, temp_map_page_lem}
use matrix_os.Paging.Undo.{temp_unmap_page-temp_map_page}
use matrix_os.Paging.History.{start, after, map_call, temp_mapping_calls_return}
use matrix_os.Paging.Deadlock.{temp_map_page_deadlock}

abbrev tables : Memory
tables a = if a == 0x1C00 then 3 else if a == 0x1C01 then 0x20 else 0

abbrev pages : Buddy
pages = record {
  total_pages = 4096;
  managed_pages = 4096;
  base_addr = 0x0100_0000;
  free_area = (record { free_list = 0x0100_4000 ∷ []; nr_free = 1 }) ∷ replicate 11 no_blocks;
  bitmap = λ i. false;
  page_order = λ a. 0;
}

abbrev with_slots : List Bool → Memory → Mm
with_slots used m = record { temp = slots used; buddy = pages; phys = m; directory = 0x1000 }

-- The second slot is in use.
abbrev one_used : List Bool
one_used = false ∷ true ∷ false ∷ false ∷ []

abbrev none_used : List Bool
none_used = false ∷ false ∷ false ∷ false ∷ []

tables-HasTable : (used : List Bool) → HasTable (with_slots used tables)
unfolding load_word
tables-HasTable used = record { present = refl; apart = inr (omega arith) }

temp_map_page_lem_example :
    ((slot : ℕ) × (slot < 4)
      × (get_or one_used slot true ≡ false)
      × (temp_map_page 0x5000 (with_slots one_used tables)
          ≡ some (slot_addr slot, mapped 0x5000 slot one_used (with_slots one_used tables)))
      × (translate (slot_addr slot) (mapped 0x5000 slot one_used (with_slots one_used tables))
          ≡ some 0x5000))
    ⊎ ((temp_map_page 0x5000 (with_slots one_used tables) ≡ some (0, with_slots one_used tables))
        × (one_used ≡ true ∷ true ∷ true ∷ true ∷ []))
temp_map_page_lem_example =
    temp_map_page_lem 0x5000 one_used (with_slots one_used tables) refl refl
      (tables-HasTable one_used) refl (omega arith)

temp_unmap_page-temp_map_page_example :
    (u : Mm) × ((do (v, t) ← temp_map_page 0x5000 (with_slots one_used tables); temp_unmap_page v t)
      ≡ some u)
    × (u.temp ≡ slots one_used)
    × ((get_or one_used 1 true ≡ false)
        ⊎ (translate (slot_addr 1) u ≡ translate (slot_addr 1) (with_slots one_used tables)))
temp_unmap_page-temp_map_page_example =
    temp_unmap_page-temp_map_page 0x5000 one_used (with_slots one_used tables) 1 refl refl
      (tables-HasTable one_used) refl (omega arith) (omega arith)

first_map :
    temp_map_page 0x5000 (with_slots none_used tables)
    ≡ some (slot_addr 0, mapped 0x5000 0 none_used (with_slots none_used tables))
unfolding temp_map_page temp_map_from first_slot map_slot map_page load_word store_word
first_map = refl

temp_mapping_calls_return_example :
    ((used : List Bool) × (length used ≡ 4)
      × ((mapped 0x5000 0 none_used (with_slots none_used tables)).temp ≡ slots used))
    × (temp_map_page 0x6000 (mapped 0x5000 0 none_used (with_slots none_used tables)) ≢ none)
    × (temp_unmap_page (slot_addr 0) (mapped 0x5000 0 none_used (with_slots none_used tables))
        ≢ none)
temp_mapping_calls_return_example =
    temp_mapping_calls_return (with_slots none_used tables)
      (mapped 0x5000 0 none_used (with_slots none_used tables)) 0x6000 (slot_addr 0) refl
      (tables-HasTable none_used)
      (after start (
        map_call 0x5000 (slot_addr 0) (mapped 0x5000 0 none_used (with_slots none_used tables)) refl
          (omega arith) first_map))
      refl (omega arith)

load_zero : load_word (λ a. 0) 0x1C00 % 2 ≡ 0
unfolding load_word
load_zero = refl

page_handed_out : (pmm_alloc_pages 0 pages).0 % 4096 ≡ 0
unfolding pmm_alloc_pages find_area
page_handed_out = refl

temp_map_page_deadlock_example : temp_map_from 2 0x5000 (with_slots none_used (λ a. 0)) ≡ none
temp_map_page_deadlock_example =
    temp_map_page_deadlock 2 0x5000 none_used (with_slots none_used (λ a. 0)) refl refl
      (λ e. true≢false (ap (λ (l : List Bool). get_or l 0 true) (sym e))) load_zero page_handed_out
      refl

-- What temp_mapping_init leaves where the kernel's zeroed data is.
slots_at_start :
    (temp_mapping_init (record {
      temp = record { lock = true; available_slots = 0; ref_count = replicate 4 0 };
      buddy = pages;
      phys = tables;
      directory = 0x1000;
    })).temp
    ≡ slots none_used
unfolding temp_mapping_init
slots_at_start = refl
