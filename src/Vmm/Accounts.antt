-- ===== src/Vmm/Accounts.antt =====
-- Which pages vmm_load_user_program holds when it gives up.
use matrix_os.Prelude.{
  ℕ, ◌+◌, ◌%◌, ◌^◌, ◌<◌, ◌≡◌, ◌⊎◌, inl, inr, refl, ap, arith, Bool, false, List, some, ◌==◌, length,
  ne→==_false,
}
use matrix_os.Pmm.{Buddy, pmm_alloc_pages}
use matrix_os.Pmm.Cover.{cover, in_block, IsValid, IsBlock}
use matrix_os.Pmm.Alloc.{pmm_alloc_pages_lem}
use matrix_os.Pmm.Free.{pmm_free_pages_lem}
use matrix_os.Paging.{Mm, set_buddy, temp_map_page, temp_unmap_page}
use matrix_os.Paging.Slots.{slots}
use matrix_os.Paging.Entries.{HasTable, slot_addr}
use matrix_os.Paging.Mapping.{mapped, temp_map_page_lem}
use matrix_os.Paging.Release.{outside}
use matrix_os.Paging.Undo.{undone, undone-returns, undone-temp}
use matrix_os.Vmm.{take_page, give_page}

-- A valid allocator that does not manage page 0.
pub record Managed (b : Buddy) : Type 0 where
  pub valid : IsValid b
  pub above : 0 < b.base_addr

-- One block of a page out of the allocator.
pub record Takes (page : ℕ) (b c : Buddy) : Type 0 where
  pub covers : (x : ℕ) → cover c x + in_block 0 page x ≡ cover b x
  pub managed : Managed c
  pub bases : c.base_addr ≡ b.base_addr
  pub block : IsBlock b.base_addr 0 page
  pub nonzero : (page == 0) ≡ false

pub take_page_lem :
    (s : Mm)
    → Managed s.buddy
    → (take_page s ≡ (0, s))
      ⊎ ((page : ℕ) × (b : Buddy) × (take_page s ≡ (page, set_buddy b s)) × Takes page s.buddy b)
unfolding take_page
take_page_lem s m = elim (pmm_alloc_pages_lem 0 s.buddy m.valid) [
  | inl refused ↦ inl (ap (λ (r : ℕ × Buddy). (r.0, set_buddy r.1 s)) refused)
  | inr done ↦
      let page = (pmm_alloc_pages 0 s.buddy).0 in
      inr (
        page,
        (pmm_alloc_pages 0 s.buddy).1,
        refl,
        record {
          covers = done.covers;
          managed = record { valid = done.valid; above = omega (arith, done.bases, m.above) };
          bases = done.bases;
          block = done.block;
          nonzero = ne→==_false page 0 (λ e. omega (arith, e, done.block.starts, m.above));
        },
      )
]

pub record Gives (page : ℕ) (b c : Buddy) : Type 0 where
  pub covers : (x : ℕ) → cover c x ≡ cover b x + in_block 0 page x
  pub managed : Managed c
  pub bases : c.base_addr ≡ b.base_addr

pub give_page_lem :
    (page : ℕ) (s : Mm)
    → Managed s.buddy
    → IsBlock s.buddy.base_addr 0 page
    → Gives page s.buddy (give_page page s).buddy
unfolding give_page
give_page_lem page s m block =
    let done = pmm_free_pages_lem 0 page s.buddy m.valid (omega arith) block in
    record {
      covers = done.covers;
      managed = record { valid = done.valid; above = omega (arith, done.bases, m.above) };
      bases = done.bases;
    }

-- A map, and the unmap after other pages have been taken.
pub record Lends (p : ℕ) (s : Mm) : Type 0 where
  pub address : ℕ
  pub lent : Mm
  pub returns : temp_map_page p s ≡ some (address, lent)
  pub keeps : lent.buddy ≡ s.buddy
  pub after : Buddy → Mm
  pub given_back : (b : Buddy) → temp_unmap_page address (set_buddy b lent) ≡ some (after b)
  pub same_pages : (b : Buddy) → (after b).buddy ≡ b
  pub same_slots : (b : Buddy) → (after b).temp ≡ s.temp

pub temp_map_page-Lends :
    (p : ℕ) (used : List Bool) (s : Mm)
    → length used ≡ 4
    → s.temp ≡ slots used
    → HasTable s
    → p % 4096 ≡ 0
    → p < 2 ^ 32
    → Lends p s
temp_map_page-Lends p used s four held has aligned word =
    elim (temp_map_page_lem p used s four held has aligned word) [
      | inl (slot, below, unused, result, leads) ↦ record {
        address = slot_addr slot;
        lent = mapped p slot used s;
        returns = result;
        keeps = refl;
        after = λ b.
            undone p used (set_buddy b s) four held
              (record { present = has.present; apart = has.apart }) slot below unused;
        given_back = λ b.
            undone-returns p used (set_buddy b s) four held
              (record { present = has.present; apart = has.apart }) slot below unused;
        same_pages = λ b. refl;
        same_slots = λ b.
            undone-temp p used (set_buddy b s) four held
              (record { present = has.present; apart = has.apart }) slot below unused;
      }
      | inr (result, all_used) ↦ record {
        address = 0;
        lent = s;
        returns = result;
        keeps = refl;
        after = λ b. set_buddy b s;
        given_back = λ b. outside 0 used (set_buddy b s) four held (inl (omega arith));
        same_pages = λ b. refl;
        same_slots = λ b. refl;
      }
    ]
