-- ===== src/Vmm/Space.antt =====
-- vmm_create_user_space: what the page directory of a new program holds.
use matrix_os.Prelude.{
  ℕ, ◌+◌, ◌-◌, ◌*◌, ◌%◌, ◌≤◌, ◌<◌, ◌≡◌, ◌≢◌, ◌⊎◌, inl, inr, refl, ap, ◌∙◌, arith, Bool, true, false,
  List, [], ◌∷◌, Option, some, ◌==◌, length, if◌then◌else◌, ltb, Bool-cases, ◌>>=◌, get_or, ltb→lt,
  ltb_false→le,
}
use matrix_os.Pmm.{Buddy}
use matrix_os.Pmm.Cover.{cover, in_block, IsBlock}
use matrix_os.Paging.{Mm, set_buddy, load_word, temp_map_page}
use matrix_os.Paging.Slots.{slots}
use matrix_os.Paging.Entries.{HasTable, slot_addr}
use matrix_os.Paging.Mapping.{mapped, temp_map_page_lem}
use matrix_os.Vmm.{take_page, fill_directory, vmm_create_user_space}
use matrix_os.Vmm.Accounts.{Managed, Takes, take_page_lem}
use matrix_os.Vmm.Pages.{PagesApart, slot_table}
use matrix_os.Vmm.Fill.{fill_directory-IsFilled}

-- The page directory and the page table of the slots are pages apart from each other and from all
-- free ones, and memory holds bytes.
pub record Fixed (s : Mm) : Type 0 where
  pub table : HasTable s
  pub pages : PagesApart (slot_table s) s.directory
  pub bytes : (x : ℕ) → s.phys x < 256
  pub table_kept : (d : ℕ) → cover s.buddy (slot_table s + d % 4096) ≡ 0
  pub directory_kept : (d : ℕ) → cover s.buddy (s.directory + d % 4096) ≡ 0

in_block-inside : (page x : ℕ) → page ≤ x → x < page + 4096 → in_block 0 page x ≡ 1
in_block-inside page x from to = ground arith

-- A page from the allocator is apart from one that is not free.
kept_apart :
    (page q : ℕ) (b c : Buddy)
    → Takes page b c
    → ((d : ℕ) → cover b (q + d % 4096) ≡ 0)
    → PagesApart page q
kept_apart page q b c takes kept = elim (Bool-cases (ltb q (page + 4096))) [
  | inl below ↦ elim (Bool-cases (ltb page (q + 4096))) [
    | inl above ↦
        let low = ltb→lt q (page + 4096) below in
        let high = ltb→lt page (q + 4096) above in
        let x = q + (page - q) % 4096 in
        absurd (
          omega (
            arith,
            kept (page - q),
            takes.covers x,
            in_block-inside page x (omega arith) (omega arith),
          ))
    | inr apart ↦ inr (ltb_false→le page (q + 4096) apart)
  ]
  | inr apart ↦ inl (ltb_false→le q (page + 4096) apart)
]

block_aligned : (b : Buddy) (page : ℕ) → Managed b → IsBlock b.base_addr 0 page → page % 4096 ≡ 0
block_aligned b page m block = omega (arith, m.valid.base, block.starts)

with_page : ℕ × Mm → Option (ℕ × Mm)
with_page (page, taken) =
    if page == 0 then some (0, taken) else (do t ← fill_directory page taken; some (page, t))

vmm_create_user_space-with_page :
    (s : Mm) (r : ℕ × Mm) → take_page s ≡ r → vmm_create_user_space s ≡ with_page r
unfolding vmm_create_user_space take_page with_page
vmm_create_user_space-with_page s r e = ap with_page e

-- What the answer says, for a word of the page directory.
module _ (used : List Bool) (s : Mm) (j : ℕ) (four : length used ≡ 4) (held : s.temp ≡ slots used)
    (managed : Managed s.buddy) (fixed : Fixed s) (small : j < 1024) where
  Creates : Option (ℕ × Mm) → Type 0
  Creates result =
      (page : ℕ) × (t : Mm) × (result ≡ some (page, t))
      × ((page == 0) ≡ false)
      × (t.temp ≡ s.temp)
      × ((x : ℕ) → cover t.buddy x + in_block 0 page x ≡ cover s.buddy x)
      × (load_word t.phys (page + 4 * j)
          ≡ (if ltb j 768 then 0 else load_word s.phys (s.directory + 4 * j)))

  module _ (page : ℕ) (b : Buddy) (takes : Takes page s.buddy b) where
    abbrev taken_state : Mm
    taken_state = set_buddy b s

    taken-HasTable : HasTable taken_state
    taken-HasTable = record { present = fixed.table.present; apart = fixed.table.apart }

    with_page-Creates :
        (slot : ℕ)
        → slot < 4
        → get_or used slot true ≡ false
        → temp_map_page page taken_state ≡ some (slot_addr slot, mapped page slot used taken_state)
        → Creates (with_page (page, taken_state))
    unfolding Creates with_page
    with_page-Creates slot below unused result =
        let aligned = block_aligned s.buddy page managed takes.block in
        let filled =
          fill_directory-IsFilled page used taken_state four held taken-HasTable fixed.pages
            fixed.bytes slot below unused aligned (omega (arith, takes.block.ends))
            (kept_apart page (slot_table s) s.buddy b takes fixed.table_kept)
            (kept_apart page s.directory s.buddy b takes fixed.directory_kept) result in
        (
          page,
          filled.after,
          rw (takes.nonzero, filled.returns) refl,
          takes.nonzero,
          filled.same_slots,
          λ x. ap (λ (c : Buddy). cover c x + in_block 0 page x) filled.same_pages ∙ takes.covers x,
          filled.words j small,
        )

-- The manager with the slots `used` in use, one of the four not, no call under way, a valid
-- allocator that does not manage page 0, memory of bytes, and the page directory and the slots' page
-- table apart from each other and from all free pages: vmm_create_user_space answers 0 and changes
-- nothing, or it returns a page that it has taken out of the allocator, with the slots as they were;
-- the 768 lower words of that page are 0, and the other 256 are those of the kernel's page directory.
pub vmm_create_user_space_lem :
    (used : List Bool) (s : Mm) (j : ℕ)
    → length used ≡ 4
    → s.temp ≡ slots used
    → used ≢ true ∷ true ∷ true ∷ true ∷ []
    → Managed s.buddy
    → Fixed s
    → j < 1024
    → (vmm_create_user_space s ≡ some (0, s))
      ⊎ ((page : ℕ) × (t : Mm) × (vmm_create_user_space s ≡ some (page, t))
          × ((page == 0) ≡ false)
          × (t.temp ≡ s.temp)
          × ((x : ℕ) → cover t.buddy x + in_block 0 page x ≡ cover s.buddy x)
          × (load_word t.phys (page + 4 * j)
              ≡ (if ltb j 768 then 0 else load_word s.phys (s.directory + 4 * j))))
unfolding Creates with_page
vmm_create_user_space_lem used s j four held some_free managed fixed small =
    elim (take_page_lem s managed) [
      | inl refused ↦ inl (vmm_create_user_space-with_page s (0, s) refused)
      | inr (page, b, taken, takes) ↦
          elim (temp_map_page_lem page used (set_buddy b s) four held
            (record { present = fixed.table.present; apart = fixed.table.apart })
            (block_aligned s.buddy page managed takes.block) (omega (arith, takes.block.ends))) [
              | inl (slot, below, unused, result, leads) ↦ inr (
                  rw (vmm_create_user_space-with_page s (page, set_buddy b s) taken) (
                    with_page-Creates used s j four held managed fixed small page b takes slot below
                      unused result))
              | inr (result, all_used) ↦ absurd (some_free all_used)
            ]
    ]
