-- ===== src/Paging/Mapping.antt =====
-- temp_map_page where the page table of the slots exists.
use matrix_os.Prelude.{
  ℕ, suc, ◌%◌, ◌^◌, ◌<◌, ◌≡◌, ◌⊎◌, inl, inr, refl, sym, ap, ◌∙◌, subst, arith, Bool, true, false,
  List, [], ◌∷◌, Option, some, length, get_or, set,
}
use matrix_os.Prelude.Word.{bit_and-page}
use Prim.Native.Nat.{bit_and, bit_or}
use matrix_os.Paging.{
  TempManager, Mm, set_temp, set_lock, take_slot, load_word, table_entry, translate,
  temp_mapping_count, first_slot, map_slot, temp_map_from, temp_map_page,
}
use matrix_os.Paging.Words.{load_word-store_word, bit_or-three}
use matrix_os.Paging.Slots.{
  slots, free_bits, Choice, free, full, first_slot-Choice, all_in_use, take_slot-slots,
}
use matrix_os.Paging.Entries.{
  slot_addr, HasTable, with_entry, with_entry-HasTable, map_page-present, same_place,
  translate-present, near_slot, with_temp-HasTable,
}

-- The state after a page has been mapped in a slot.
abbrev pub mapped : ℕ → ℕ → List Bool → Mm → Mm
mapped p slot used s =
    set_temp (slots (set used slot true)) (with_entry (slot_addr slot) (bit_or p 3) s)

-- Past the test of the address and the lock.
pub opened :
    (p fuel : ℕ) (used : List Bool) (s : Mm)
    → s.temp ≡ slots used
    → bit_and p 4095 ≡ 0
    → temp_map_from (suc fuel) p s
      ≡ map_slot
          (temp_map_from fuel)
          p
          (first_slot temp_mapping_count 0 s.temp.available_slots)
          (set_temp (set_lock true s.temp) s)
unfolding temp_map_from
opened p fuel used s held in_page =
    let unlocked = ap (λ (t : TempManager). t.lock) held in rw (in_page, unlocked) refl

module _ (p : ℕ) (used : List Bool) (s : Mm) (four : length used ≡ 4) (held : s.temp ≡ slots used)
    (has : HasTable s) where
  map_slot-free :
      (f : ℕ → Mm → Option (ℕ × Mm)) (slot : ℕ)
      → slot < 4
      → get_or used slot true ≡ false
      → map_slot f p (some slot) (set_temp (set_lock true s.temp) s)
        ≡ some (slot_addr slot, mapped p slot used s)
  unfolding map_slot
  map_slot-free f slot below unused =
      let locked = set_temp (set_lock true s.temp) s in
      let entered =
        map_page-present locked (with_temp-HasTable (set_lock true s.temp) s has) (slot_addr slot)
          (near_slot slot below) f p in
      let taken =
        ap (λ (t : TempManager). set_lock false (take_slot slot (set_lock true t))) held
        ∙ take_slot-slots used four slot below unused in
      rw (entered, taken) refl

  -- The map of a page in the first free slot, or the refusal.
  pub Mapped : Option (ℕ × Mm) → Type 0
  Mapped result =
      ((slot : ℕ) × (slot < 4)
        × (get_or used slot true ≡ false)
        × (result ≡ some (slot_addr slot, mapped p slot used s)))
      ⊎ ((result ≡ some (0, s)) × ((k : ℕ) → k < 4 → get_or used k true ≡ true))

  map_slot-Choice :
      (f : ℕ → Mm → Option (ℕ × Mm)) (choice : Option ℕ)
      → Choice used choice
      → Mapped (map_slot f p choice (set_temp (set_lock true s.temp) s))
  unfolding Mapped map_slot
  map_slot-Choice f _ (free slot below unused) =
      inl (slot, below, unused, map_slot-free f slot below unused)
  map_slot-Choice f _ (full all_used) = inr (
    ap (λ (t : TempManager). some (0, set_temp t s)) (ap (set_lock false) held ∙ sym held),
    all_used,
  )

  temp_map_from-Mapped : (fuel : ℕ) → p % 4096 ≡ 0 → Mapped (temp_map_from (suc fuel) p s)
  temp_map_from-Mapped fuel aligned =
      let here = λ (t : TempManager).
        map_slot (temp_map_from fuel) p (first_slot temp_mapping_count 0 t.available_slots)
          (set_temp (set_lock true s.temp) s) in
      let looks = opened p fuel used s held (bit_and-page p ∙ aligned) ∙ ap here held in
      subst Mapped (sym looks) (
        map_slot-Choice (temp_map_from fuel) (first_slot 4 0 (free_bits used))
          (first_slot-Choice used four))

  -- The address of the slot leads to the page.
  pub mapped-translate :
      (slot : ℕ)
      → slot < 4
      → p % 4096 ≡ 0
      → p < 2 ^ 32
      → translate (slot_addr slot) (mapped p slot used s) ≡ some p
  mapped-translate slot below aligned word =
      let v = slot_addr slot in
      let near = near_slot slot below in
      let after = mapped p slot used s in
      let entry = bit_or p 3 in
      let flags = bit_or-three p in
      let stored =
        ap (load_word after.phys) (same_place s has v near v entry near)
        ∙ load_word-store_word s.phys (table_entry v s) entry (omega (arith, flags)) in
      let has_after =
        with_temp-HasTable after.temp (with_entry v entry s)
          (with_entry-HasTable s has v near entry) in
      translate-present after has_after v near entry stored (omega (arith, flags))
      ∙ ap some (omega (arith, flags))

-- The manager with the slots `used` in use, no call under way, and a page table for the slots: for a
-- page address temp_map_page takes a free slot, whose address then leads to the page, and changes nothing but that slot and its table entry; or all four slots are in use, and
-- it answers 0 and changes nothing.
pub temp_map_page_lem :
    (p : ℕ) (used : List Bool) (s : Mm)
    → length used ≡ 4
    → s.temp ≡ slots used
    → HasTable s
    → p % 4096 ≡ 0
    → p < 2 ^ 32
    → ((slot : ℕ) × (slot < 4)
        × (get_or used slot true ≡ false)
        × (temp_map_page p s ≡ some (slot_addr slot, mapped p slot used s))
        × (translate (slot_addr slot) (mapped p slot used s) ≡ some p))
      ⊎ ((temp_map_page p s ≡ some (0, s)) × (used ≡ true ∷ true ∷ true ∷ true ∷ []))
unfolding Mapped temp_map_page
temp_map_page_lem p used s four held has aligned word =
    elim (temp_map_from-Mapped p used s four held has 1 aligned) [
      | inl (slot, below, unused, result) ↦ inl (
        slot,
        below,
        unused,
        result,
        mapped-translate p used s four held has slot below aligned word,
      )
      | inr (result, all_used) ↦ inr (result, all_in_use used four all_used)
    ]
