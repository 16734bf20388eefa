-- ===== src/Paging/Undo.antt =====
-- temp_unmap_page after temp_map_page.
use matrix_os.Prelude.{
  ℕ, ◌/◌, ◌%◌, ◌^◌, ◌<◌, ◌≡◌, ◌≢◌, ◌⊎◌, Bool-cases, inl, inr, refl, sym, ap, ◌∙◌, arith, Bool, true,
  false, List, ◌>>=◌, none, some, length, length-set, get_or, get_or-set_self, set-set_self,
  set-get_or, set,
}
use mathlib.Core.Bool.{true≢false}
use Prim.Native.Nat.{bit_or}
use matrix_os.Paging.{Mm, load_word, table_entry, translate, temp_map_page, temp_unmap_page}
use matrix_os.Paging.Words.{load_word-store_word}
use matrix_os.Paging.Slots.{slots}
use matrix_os.Paging.Entries.{
  slot_addr, HasTable, with_entry, with_entry-HasTable, same_place, near_slot, translate-absent,
  with_temp-HasTable,
}
use matrix_os.Paging.Mapping.{mapped, temp_map_page_lem}
use matrix_os.Paging.Release.{slot_of, unmapped, outside, in_use_slot, translate-other}

other_slot :
    (i k : ℕ) → i < 4 → k < 4 → i ≢ k → slot_addr i / 2 ^ 12 % 1024 ≢ slot_addr k / 2 ^ 12 % 1024
other_slot i k below small other same = other (omega arith)

-- A map that found a slot, undone.
module _ (p : ℕ) (used : List Bool) (s : Mm) (four : length used ≡ 4) (held : s.temp ≡ slots used)
    (has : HasTable s) (slot : ℕ) (below : slot < 4) (unused : get_or used slot true ≡ false) where
  pub mapped-HasTable : HasTable (mapped p slot used s)
  mapped-HasTable =
      with_temp-HasTable (slots (set used slot true)) (with_entry (slot_addr slot) (bit_or p 3) s)
        (with_entry-HasTable s has (slot_addr slot) (near_slot slot below) (bit_or p 3))

  abbrev pub undone : Mm
  undone = unmapped (slot_addr slot) (set used slot true) (mapped p slot used s)

  pub undone-returns : temp_unmap_page (slot_addr slot) (mapped p slot used s) ≡ some undone
  undone-returns =
      in_use_slot (slot_addr slot) (set used slot true) (mapped p slot used s)
        (length-set used slot true ∙ four) refl (omega arith) (omega arith)
        (ap (λ (k : ℕ). get_or (set used slot true) k true) (omega arith)
          ∙ get_or-set_self used slot true true (omega (arith, below, four)))

  pub undone-temp : undone.temp ≡ s.temp
  undone-temp =
      let same_slot : slot_of (slot_addr slot) ≡ slot = omega arith in
      let back =
        set-set_self used slot true false
        ∙ (ap (set used slot) (sym unused) ∙ set-get_or used slot true) in
      ap (λ (k : ℕ). slots (set (set used slot true) k false)) same_slot
      ∙ (ap slots back ∙ sym held)

  undone-translate : translate (slot_addr slot) undone ≡ none
  undone-translate =
      let v = slot_addr slot in
      let near = near_slot slot below in
      let entered = mapped p slot used s in
      let has_entered = mapped-HasTable in
      let cleared =
        ap (load_word undone.phys) (same_place entered has_entered v near v 0 near)
        ∙ load_word-store_word entered.phys (table_entry v entered) 0 (omega arith) in
      translate-absent undone
        (with_temp-HasTable undone.temp (with_entry v 0 entered)
          (with_entry-HasTable entered has_entered v near 0))
        v near cleared

  undone-other :
      (k : ℕ)
      → k < 4
      → get_or used k true ≡ true
      → translate (slot_addr k) undone ≡ translate (slot_addr k) s
  unfolding translate
  undone-other k small busy =
      let v = slot_addr slot in
      let near = near_slot slot below in
      let close = near_slot k small in
      let other = other_slot slot k below small (λ same.
        true≢false (sym busy ∙ (ap (λ (i : ℕ). get_or used i true) (sym same) ∙ unused))) in
      translate-other (mapped p slot used s) v (slot_addr k) 0 mapped-HasTable near close other
      ∙ translate-other s v (slot_addr k) (bit_or p 3) has near close other

-- The manager with the slots `used` in use, no call under way, and a page table for the slots:
-- temp_unmap_page of what temp_map_page answered for a page address returns, leaves the manager as
-- it was before, also where the answer was 0, and each of the four slots is not in use or leads where
-- it did.
pub temp_unmap_page-temp_map_page :
    (p : ℕ) (used : List Bool) (s : Mm) (k : ℕ)
    → length used ≡ 4
    → s.temp ≡ slots used
    → HasTable s
    → p % 4096 ≡ 0
    → p < 2 ^ 32
    → k < 4
    → (u : Mm) × ((do (v, t) ← temp_map_page p s; temp_unmap_page v t) ≡ some u)
      × (u.temp ≡ s.temp)
      × ((get_or used k true ≡ false) ⊎ (translate (slot_addr k) u ≡ translate (slot_addr k) s))
temp_unmap_page-temp_map_page p used s k four held has aligned word small =
    elim (temp_map_page_lem p used s four held has aligned word) [
      | inl (slot, below, unused, result, leads) ↦ (
        undone p used s four held has slot below unused,
        rw result (undone-returns p used s four held has slot below unused),
        undone-temp p used s four held has slot below unused,
        elim (Bool-cases (get_or used k true)) [
          | inl busy ↦ inr (undone-other p used s four held has slot below unused k small busy)
          | inr idle ↦ inl idle
        ],
      )
      | inr (result, all_used) ↦
          (s, rw result (outside 0 used s four held (inl (omega arith))), refl, inr refl)
    ]
