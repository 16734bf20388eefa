-- ===== src/Paging/Release.antt =====
-- temp_unmap_page: what it does to a slot and to the slots beside it.
use matrix_os.Prelude.{
  ℕ, zero, suc, ◌-◌, ◌*◌, ◌/◌, ◌%◌, ◌^◌, ◌≤◌, ◌<◌, ◌≡◌, ◌≢◌, ◌⊎◌, inl, inr, refl, sym, ap, ◌∙◌,
  arith, Bool, true, false, List, [], ◌∷◌, Option, some, length, get_or, set, map, Bool-cases, ltb,
  ltb→lt, lt→ltb, le→ltb_false, ltb_false→le,
}
use matrix_os.Prelude.Word.{sub32}
use matrix_os.Paging.{
  TempManager, Mm, set_temp, set_lock, count_down, free_slot, table_entry, translate,
  temp_mapping_addr, page_size, release_slot, unmap_page, temp_unmap_page,
}
use matrix_os.Paging.Words.{load_word-elsewhere}
use matrix_os.Paging.Slots.{slots, count, get_or-map, free_slot-slots, used_count, get_or_inside}
use matrix_os.Paging.Entries.{HasTable, with_entry, entries-Apart, directory_word}

-- The number of the slot of an address.
abbrev pub slot_of : ℕ → ℕ
slot_of v = (temp_mapping_addr - v) / page_size

-- The state after the last unmap of an address.
abbrev pub unmapped : ℕ → List Bool → Mm → Mm
unmapped v used s = set_temp (slots (set used (slot_of v) false)) (with_entry v 0 s)

zero_back : (counts : List ℕ) (k : ℕ) → get_or (set counts k 0) k 0 ≡ 0
zero_back [] k = refl
zero_back (c ∷ counts) zero = refl
zero_back (c ∷ counts) (suc k) = zero_back counts k

module _ (v k : ℕ) (used : List Bool) (s : Mm) where
  release_slot-used :
      get_or (map count used) k 0 ≡ 1
      → release_slot v k (set_temp (set_lock true (slots used)) s)
        ≡ set_temp (free_slot k (count_down k (set_lock true (slots used)))) (with_entry v 0 s)
  unfolding release_slot unmap_page
  release_slot-used one =
      let none_left : get_or (set (map count used) k (sub32 (get_or (map count used) k 0) 1)) k 0
          ≡ 0 =
        ap (λ (n : ℕ). get_or (set (map count used) k (sub32 n 1)) k 0) one
        ∙ zero_back (map count used) k in
      rw (none_left, one) refl

  release_slot-unused :
      get_or (map count used) k 0 ≡ 0
      → release_slot v k (set_temp (set_lock true (slots used)) s)
        ≡ set_temp (set_lock true (slots used)) s
  unfolding release_slot
  release_slot-unused none_used = rw none_used refl

module _ (v : ℕ) (used : List Bool) (s : Mm) (four : length used ≡ 4)
    (held : s.temp ≡ slots used) where
  pub outside :
      (v < temp_mapping_addr - 3 * page_size) ⊎ (temp_mapping_addr < v)
      → temp_unmap_page v s ≡ some s
  unfolding temp_unmap_page
  outside (inl h) = rw (lt→ltb v (temp_mapping_addr - 3 * page_size) h) refl
  outside (inr h) = ground arith

  module _ (from : temp_mapping_addr - 3 * page_size ≤ v) (to : v ≤ temp_mapping_addr) where
    inside :
        temp_unmap_page v s
        ≡ some (
            set_temp
              (set_lock false (release_slot v (slot_of v) (set_temp (set_lock true s.temp) s)).temp)
              (release_slot v (slot_of v) (set_temp (set_lock true s.temp) s)))
    unfolding temp_unmap_page
    inside =
        let unlocked = ap (λ (t : TempManager). t.lock) held in
        let small = lt→ltb (slot_of v) 4 (omega arith) in
        let low = le→ltb_false v (temp_mapping_addr - 3 * page_size) from in
        let high = le→ltb_false temp_mapping_addr v to in rw (low, high, unlocked, small) refl

    unlocked_after : TempManager → Option Mm
    unlocked_after t =
        let after = release_slot v (slot_of v) (set_temp (set_lock true t) s) in
        some (set_temp (set_lock false after.temp) after)

    slot_below : slot_of v < 4
    slot_below = omega arith

    pub in_use_slot :
        get_or used (slot_of v) true ≡ true → temp_unmap_page v s ≡ some (unmapped v used s)
    unfolding unlocked_after
    in_use_slot busy =
        let in_use = get_or_inside used (slot_of v) false true (omega (arith, slot_below)) ∙ busy in
        let released =
          release_slot-used v (slot_of v) used s
            (used_count used four (slot_of v) slot_below in_use) in
        inside
        ∙ (ap unlocked_after held
            ∙ (ap (λ (t : Mm). some (set_temp (set_lock false t.temp) t)) released
                ∙ ap (λ (t : TempManager). some (set_temp t (with_entry v 0 s)))
                    (free_slot-slots used four (slot_of v) slot_below in_use)))

    free_already : get_or used (slot_of v) true ≡ false → temp_unmap_page v s ≡ some s
    unfolding unlocked_after
    free_already idle =
        let unused = get_or_inside used (slot_of v) false true (omega (arith, slot_below)) ∙ idle in
        let kept =
          release_slot-unused v (slot_of v) used s
            (get_or-map used (slot_of v) ∙ ap count unused) in
        inside
        ∙ (ap unlocked_after held
            ∙ (ap (λ (t : Mm). some (set_temp (set_lock false t.temp) t)) kept
                ∙ ap (λ (t : TempManager). some (set_temp t s)) (sym held)))

-- What temp_unmap_page does: it changes nothing, or it frees the slot of the address.
pub data Unmaps (v : ℕ) (used : List Bool) (s : Mm) : Option Mm → Type 0 where
  kept : Unmaps v used s (some s)
  freed : (v / 2 ^ 22 ≡ 768) → Unmaps v used s (some (unmapped v used s))

pub temp_unmap_page-Unmaps :
    (v : ℕ) (used : List Bool) (s : Mm)
    → length used ≡ 4
    → s.temp ≡ slots used
    → Unmaps v used s (temp_unmap_page v s)
temp_unmap_page-Unmaps v used s four held =
    elim (Bool-cases (ltb v (temp_mapping_addr - 3 * page_size))) [
      | inl low ↦
          rw (outside v used s four held (inl (ltb→lt v (temp_mapping_addr - 3 * page_size) low)))
            kept
      | inr not_low ↦ elim (Bool-cases (ltb temp_mapping_addr v)) [
        | inl high ↦ rw (outside v used s four held (inr (ltb→lt temp_mapping_addr v high))) kept
        | inr not_high ↦
            let from = ltb_false→le v (temp_mapping_addr - 3 * page_size) not_low in
            let to = ltb_false→le temp_mapping_addr v not_high in
            elim (Bool-cases (get_or used (slot_of v) true)) [
              | inl busy ↦ rw (in_use_slot v used s four held from to busy) (freed (omega arith))
              | inr idle ↦ rw (free_already v used s four held from to idle) kept
            ]
      ]
    ]

-- Another slot's address leads where it did.
pub translate-other :
    (s : Mm) (v w entry : ℕ)
    → HasTable s
    → v / 2 ^ 22 ≡ 768
    → w / 2 ^ 22 ≡ 768
    → v / 2 ^ 12 % 1024 ≢ w / 2 ^ 12 % 1024
    → translate w (with_entry v entry s) ≡ translate w s
unfolding translate
translate-other s v w entry has near close other =
    let word =
      load_word-elsewhere s.phys (table_entry v s) entry (table_entry w s)
        (entries-Apart s has v w near close other) in
    let directory = directory_word s has v w near close entry in rw (directory, word) refl
