-- ===== src/Paging/Deadlock.antt =====
-- temp_map_page where the page table of the slots does not exist.
use matrix_os.Prelude.{
  ℕ, zero, suc, ◌+◌, ◌*◌, ◌/◌, ◌%◌, ◌^◌, ◌≡◌, ◌≢◌, refl, ap, ◌∙◌, arith, Bool, true, List, [], ◌∷◌,
  Option, none, length,
}
use matrix_os.Prelude.Word.{bit_and-page, bit_and-one}
use Prim.Native.Nat.{bit_and}
use matrix_os.Pmm.{pmm_alloc_pages}
use matrix_os.Paging.{
  TempManager, Mm, set_temp, set_lock, set_buddy, load_word, directory_entry, temp_mapping_addr,
  first_slot, map_slot, map_page, temp_map_from,
}
use matrix_os.Paging.Slots.{slots, free_bits, Choice, free, full, first_slot-Choice, all_in_use}
use matrix_os.Paging.Entries.{slot_addr, near_slot}
use matrix_os.Paging.Mapping.{opened}

-- A map under the lock waits for ever.
locked_out :
    (fuel p : ℕ) (s : Mm) → p % 4096 ≡ 0 → s.temp.lock ≡ true → temp_map_from fuel p s ≡ none
unfolding temp_map_from
locked_out zero p s aligned held = refl
locked_out (suc fuel) p s aligned held = rw (bit_and-page p ∙ aligned, held) refl

map_page-missing :
    (fuel v p : ℕ) (s : Mm)
    → v / 2 ^ 22 ≡ 768
    → load_word s.phys (directory_entry temp_mapping_addr s) % 2 ≡ 0
    → (pmm_alloc_pages 0 s.buddy).0 % 4096 ≡ 0
    → s.temp.lock ≡ true
    → map_page (temp_map_from fuel) v p 3 s ≡ none
unfolding map_page
map_page-missing fuel v p s near missing page held =
    let entry = ap (λ (i : ℕ). load_word s.phys (s.directory + 4 * i)) near in
    let absent : bit_and (load_word s.phys (directory_entry v s)) 1 ≡ 0 =
      omega (arith, entry, missing, bit_and-one (load_word s.phys (directory_entry v s))) in
    let (table, b) = pmm_alloc_pages 0 s.buddy in
    let stuck =
      locked_out fuel (pmm_alloc_pages 0 s.buddy).0 (set_buddy (pmm_alloc_pages 0 s.buddy).1 s) page
        held in
    rw (absent, stuck) refl

map_slot-missing :
    (fuel p : ℕ) (used : List Bool) (s : Mm) (choice : Option ℕ)
    → Choice used choice
    → length used ≡ 4
    → used ≢ true ∷ true ∷ true ∷ true ∷ []
    → load_word s.phys (directory_entry temp_mapping_addr s) % 2 ≡ 0
    → (pmm_alloc_pages 0 s.buddy).0 % 4096 ≡ 0
    → s.temp.lock ≡ true
    → map_slot (temp_map_from fuel) p choice s ≡ none
unfolding map_slot
map_slot-missing fuel p used s _ (free slot below unused) four room missing page held =
    rw (map_page-missing fuel (slot_addr slot) p s (near_slot slot below) missing page held) refl
map_slot-missing fuel p used s _ (full all_used) four room missing page held =
    absurd (room (all_in_use used four all_used))

-- A page directory with no page table for the slots, a free slot, and a page address: temp_map_page
-- calls itself for the new page table, whose address is one of a page, while it holds the lock, and
-- does not return, however many calls of itself it is given.
pub temp_map_page_deadlock :
    (fuel p : ℕ) (used : List Bool) (s : Mm)
    → length used ≡ 4
    → s.temp ≡ slots used
    → used ≢ true ∷ true ∷ true ∷ true ∷ []
    → load_word s.phys (directory_entry temp_mapping_addr s) % 2 ≡ 0
    → (pmm_alloc_pages 0 s.buddy).0 % 4096 ≡ 0
    → p % 4096 ≡ 0
    → temp_map_from fuel p s ≡ none
unfolding temp_map_from
temp_map_page_deadlock zero p used s four held room missing page aligned = refl
temp_map_page_deadlock (suc fuel) p used s four held room missing page aligned =
    let locked = set_temp (set_lock true s.temp) s in
    opened p fuel used s held (bit_and-page p ∙ aligned)
    ∙ (ap
          (λ (t : TempManager).
            map_slot (temp_map_from fuel) p (first_slot 4 0 t.available_slots) locked)
          held
        ∙ map_slot-missing fuel p used locked (first_slot 4 0 (free_bits used))
            (first_slot-Choice used four) four room missing page refl)
