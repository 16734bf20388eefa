-- ===== src/Paging/Entries.antt =====
-- The page table of the slots: where the entries stand, and what is read after one has been written.
use matrix_os.Prelude.{
  ℕ, ◌+◌, ◌-◌, ◌*◌, ◌/◌, ◌%◌, ◌^◌, ◌≤◌, ◌<◌, ◌≡◌, ◌≢◌, ◌⊎◌, inl, inr, refl, sym, ap, ◌∙◌, arith,
  false, Option, none, some, ◌==◌, ne→==_false, ltb, ltb→lt, ltb_false→le, ne_above, Bool-cases,
}
use matrix_os.Prelude.Word.{bit_and-one, align_down}
use Prim.Native.Nat.{bit_and, bit_or}
use matrix_os.Paging.{
  TempManager, Mm, set_temp, set_phys, load_word, store_word, directory_entry, table_entry,
  translate, temp_mapping_addr, page_size, map_page,
}
use matrix_os.CString.{Memory}
use matrix_os.Paging.Words.{Apart, load_word-elsewhere}

abbrev pub slot_addr : ℕ → ℕ
slot_addr slot = temp_mapping_addr - slot * page_size

-- The directory names a page table for the slots, a page that does not hold that entry of the
-- directory itself.
pub record HasTable (s : Mm) : Type 0 where
  pub present : load_word s.phys (directory_entry temp_mapping_addr s) % 2 ≡ 1
  pub apart :
      (align_down (load_word s.phys (directory_entry temp_mapping_addr s)) 4096 + 4096
        ≤ directory_entry temp_mapping_addr s)
      ⊎ (directory_entry temp_mapping_addr s + 4
          ≤ align_down (load_word s.phys (directory_entry temp_mapping_addr s)) 4096)

-- Memory after the entry of a slot has been written.
abbrev pub with_entry : ℕ → ℕ → Mm → Mm
with_entry v entry s = set_phys (store_word s.phys (table_entry v s) entry) s

module _ (s : Mm) (has : HasTable s) (v : ℕ) (near : v / 2 ^ 22 ≡ 768) where
  one_entry : directory_entry v s ≡ directory_entry temp_mapping_addr s
  one_entry = ap (λ (i : ℕ). s.directory + 4 * i) near

  pub entry_at :
      table_entry v s
      ≡ align_down (load_word s.phys (directory_entry temp_mapping_addr s)) 4096
        + 4 * (v / 2 ^ 12 % 1024)
  entry_at =
      ap (λ (e : ℕ). align_down (load_word s.phys e) 4096 + 4 * (v / 2 ^ 12 % 1024)) one_entry

  entry-Apart : Apart (table_entry v s) (directory_entry temp_mapping_addr s)
  entry-Apart = elim (has.apart) [
    | inl h ↦ inl (omega (arith, entry_at, h))
    | inr h ↦ inr (omega (arith, entry_at, h))
  ]

  pub same_directory :
      (entry : ℕ)
      → load_word (store_word s.phys (table_entry v s) entry) (directory_entry temp_mapping_addr s)
        ≡ load_word s.phys (directory_entry temp_mapping_addr s)
  same_directory entry =
      load_word-elsewhere s.phys (table_entry v s) entry (directory_entry temp_mapping_addr s)
        entry-Apart

  pub with_entry-HasTable : (entry : ℕ) → HasTable (with_entry v entry s)
  with_entry-HasTable entry = record {
    present = ap (λ (w : ℕ). w % 2) (same_directory entry) ∙ has.present;
    apart = rw (same_directory entry) has.apart;
  }

  is_present : (bit_and (load_word s.phys (directory_entry v s)) 1 == 0) ≡ false
  is_present = ne→==_false (bit_and (load_word s.phys (directory_entry v s)) 1) 0 (λ e. omega (
    arith,
    e,
    has.present,
    ap (load_word s.phys) one_entry,
    bit_and-one (load_word s.phys (directory_entry v s)),
  ))

  pub map_page-present :
      (f : ℕ → Mm → Option (ℕ × Mm)) (p : ℕ)
      → map_page f v p 3 s ≡ some (with_entry v (bit_or p 3) s)
  unfolding map_page
  map_page-present f p = rw is_present refl

  -- The entry of an address stays where it is when another is written.
  pub same_place :
      (w entry : ℕ) → w / 2 ^ 22 ≡ 768 → table_entry w (with_entry v entry s) ≡ table_entry w s
  same_place w entry close =
      let at = λ (m : Memory) (e : ℕ). align_down (load_word m e) 4096 + 4 * (w / 2 ^ 12 % 1024) in
      let place = λ (i : ℕ). s.directory + 4 * i in
      ap (λ (i : ℕ). at (store_word s.phys (table_entry v s) entry) (place i)) close
      ∙ (ap (λ (word : ℕ). align_down word 4096 + 4 * (w / 2 ^ 12 % 1024)) (same_directory entry)
          ∙ sym (ap (λ (i : ℕ). at s.phys (place i)) close))

  pub translate-present :
      (m : ℕ)
      → load_word s.phys (table_entry v s) ≡ m
      → m % 2 ≡ 1
      → translate v s ≡ some (align_down m 4096 + v % 4096)
  unfolding translate
  translate-present m entry on =
      let set_bit = ne→==_false (bit_and m 1) 0 (λ e. omega (arith, e, on, bit_and-one m)) in
      rw (is_present, entry, set_bit) refl

  pub translate-absent : load_word s.phys (table_entry v s) ≡ 0 → translate v s ≡ none
  unfolding translate
  translate-absent entry = rw (is_present, entry) refl

Apart-places : (table i j : ℕ) → i ≢ j → Apart (table + 4 * i) (table + 4 * j)
Apart-places table i j other = elim (Bool-cases (ltb i j)) [
  | inl e ↦ inl (omega (arith, ltb→lt i j e))
  | inr e ↦ inr (omega (arith, ltb_false→le i j e, ne_above j i (ltb_false→le i j e) other))
]

-- Two addresses with different places in the table.
module _ (s : Mm) (has : HasTable s) (v w : ℕ) (near : v / 2 ^ 22 ≡ 768)
    (close : w / 2 ^ 22 ≡ 768) where
  pub entries-Apart :
      v / 2 ^ 12 % 1024 ≢ w / 2 ^ 12 % 1024 → Apart (table_entry v s) (table_entry w s)
  entries-Apart other =
      let table = align_down (load_word s.phys (directory_entry temp_mapping_addr s)) 4096 in
      rw (entry_at s has v near, entry_at s has w close)
        (Apart-places table (v / 2 ^ 12 % 1024) (w / 2 ^ 12 % 1024) other)

  pub directory_word :
      (entry : ℕ)
      → load_word (store_word s.phys (table_entry v s) entry) (directory_entry w s)
        ≡ load_word s.phys (directory_entry w s)
  directory_word entry =
      let place = λ (i : ℕ). s.directory + 4 * i in
      ap (λ (i : ℕ). load_word (store_word s.phys (table_entry v s) entry) (place i)) close
      ∙ (same_directory s has v near entry ∙ sym (ap (λ (i : ℕ). load_word s.phys (place i)) close))

pub near_slot : (slot : ℕ) → slot < 4 → slot_addr slot / 2 ^ 22 ≡ 768
near_slot slot below = omega arith

pub with_temp-HasTable : (t : TempManager) (s : Mm) → HasTable s → HasTable (set_temp t s)
with_temp-HasTable t s has = record { present = has.present; apart = has.apart }
