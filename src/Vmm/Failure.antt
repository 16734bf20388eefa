-- ===== src/Vmm/Failure.antt =====
-- vmm_load_user_program where it gives up: all pages come back.
use matrix_os.Prelude.{
  ℕ, ◌+◌, ◌%◌, ◌^◌, ◌<◌, ◌≡◌, inl, inr, refl, sym, ap, ◌∙◌, subst, arith, Bool, false, List, Option,
  none, some, ◌==◌, length, Option-cases,
}
use mathlib.Core.Option.{some-injective, some-ne-none}
use matrix_os.Pmm.{Buddy}
use matrix_os.Pmm.Cover.{cover, in_block, IsBlock}
use matrix_os.Paging.{Mm, set_buddy, temp_unmap_page}
use matrix_os.Paging.Slots.{slots}
use matrix_os.Paging.Entries.{HasTable}
use matrix_os.Vmm.{take_page, give_page, fill_program, load_tables, vmm_load_user_program}
use matrix_os.Vmm.Accounts.{
  Managed, Takes, take_page_lem, Gives, give_page_lem, Lends, temp_map_page-Lends,
}

-- How a load ends: it does not go on, it has loaded the program, or it has given up with the pages
-- and the slots as they were.
pub data Outcome (s : Mm) : Option (ℕ × Mm) → Type 0 where
  stuck : Outcome s none
  loaded : (t : Mm) → Outcome s (some (1, t))
  given_up :
      (t : Mm)
      → ((x : ℕ) → cover t.buddy x ≡ cover s.buddy x)
      → t.temp ≡ s.temp
      → Outcome s (some (0, t))

at_base : {base other page : ℕ} → other ≡ base → IsBlock base 0 page → IsBlock other 0 page
at_base {page = page} e block = subst (λ (b : ℕ). IsBlock b 0 page) (sym e) block

module _ (s u : Mm) (same_slots : u.temp ≡ s.temp) (m : Managed u.buddy)
    (bases : u.buddy.base_addr ≡ s.buddy.base_addr) (code stack : ℕ)
    (code_block : IsBlock s.buddy.base_addr 0 code)
    (stack_block : IsBlock s.buddy.base_addr 0 stack) where
  first_given : Gives code u.buddy (give_page code u).buddy
  first_given = give_page_lem code u m (at_base bases code_block)

  second_given : Gives stack (give_page code u).buddy (give_page stack (give_page code u)).buddy
  second_given =
      let g = first_given in
      give_page_lem stack (give_page code u) g.managed (at_base (g.bases ∙ bases) stack_block)

  two_back :
      ((x : ℕ) → cover u.buddy x + in_block 0 stack x + in_block 0 code x ≡ cover s.buddy x)
      → Outcome s (some (0, give_page stack (give_page code u)))
  unfolding give_page
  two_back owed =
      let f = first_given in
      let g = second_given in
      given_up (give_page stack (give_page code u))
        (λ x. omega (arith, g.covers x, f.covers x, owed x)) same_slots

  three_back :
      (table : ℕ)
      → IsBlock s.buddy.base_addr 0 table
      → ((x : ℕ)
          → cover u.buddy x + in_block 0 table x + in_block 0 stack x + in_block 0 code x
            ≡ cover s.buddy x)
      → Outcome s (some (0, give_page table (give_page stack (give_page code u))))
  unfolding give_page
  three_back table block owed =
      let f = first_given in
      let g = second_given in
      let h =
        give_page_lem table (give_page stack (give_page code u)) g.managed
          (at_base (g.bases ∙ f.bases ∙ bases) block) in
      given_up (give_page table (give_page stack (give_page code u)))
        (λ x. omega (arith, h.covers x, g.covers x, f.covers x, owed x)) same_slots

-- The rest of the load once the two pages of the program are taken.
module _ (s : Mm) (code stack p : ℕ) (b c : Buddy) (one : Takes code s.buddy b)
    (two : Takes stack b c) (l : Lends p (set_buddy c s)) (binary_phys size : ℕ) where
  lent_managed : Managed l.lent.buddy
  lent_managed = subst Managed (sym l.keeps) two.managed

  stack-IsBlock : IsBlock s.buddy.base_addr 0 stack
  stack-IsBlock = at_base (sym one.bases) two.block

  no_code_table :
      take_page l.lent ≡ (0, l.lent)
      → Outcome s (load_tables l.address code stack binary_phys size l.lent)
  unfolding load_tables
  no_code_table refused =
      let u = l.after c in
      let back : temp_unmap_page l.address l.lent ≡ some u =
        ap (λ (d : Buddy). temp_unmap_page l.address (set_buddy d l.lent)) l.keeps
        ∙ l.given_back c in
      let pages = l.same_pages c in
      rw (refused, back)
        (two_back s u (l.same_slots c) (subst Managed (sym pages) two.managed)
          (ap (λ (d : Buddy). d.base_addr) pages ∙ two.bases ∙ one.bases) code stack one.block
          stack-IsBlock
          (λ x. omega (arith, ap (λ (d : Buddy). cover d x) pages, two.covers x, one.covers x)))

  module _ (table : ℕ) (d : Buddy) (taken : take_page l.lent ≡ (table, set_buddy d l.lent))
      (three : Takes table l.lent.buddy d) where
    table_covers : (x : ℕ) → cover d x + in_block 0 table x ≡ cover c x
    table_covers x = three.covers x ∙ ap (λ (e : Buddy). cover e x) l.keeps

    lent_base : l.lent.buddy.base_addr ≡ s.buddy.base_addr
    lent_base = ap (λ (e : Buddy). e.base_addr) l.keeps ∙ (two.bases ∙ one.bases)

    no_stack_table :
        take_page (set_buddy d l.lent) ≡ (0, set_buddy d l.lent)
        → Outcome s (load_tables l.address code stack binary_phys size l.lent)
    unfolding load_tables
    no_stack_table refused =
        let u = l.after d in
        let pages = l.same_pages d in
        rw (taken, refused, three.nonzero, l.given_back d)
          (three_back s u (l.same_slots d) (subst Managed (sym pages) three.managed)
            (ap (λ (e : Buddy). e.base_addr) pages ∙ three.bases ∙ lent_base) code stack one.block
            stack-IsBlock table (at_base (sym lent_base) three.block)
            (λ x. omega (
              arith,
              ap (λ (e : Buddy). cover e x) pages,
              table_covers x,
              two.covers x,
              one.covers x,
            )))

    all_taken :
        (stack_table : ℕ) (e : Buddy)
        → take_page (set_buddy d l.lent) ≡ (stack_table, set_buddy e l.lent)
        → (stack_table == 0) ≡ false
        → Outcome s (load_tables l.address code stack binary_phys size l.lent)
    unfolding load_tables
    all_taken stack_table e last nonzero =
        elim (Option-cases (
          fill_program l.address code stack table stack_table binary_phys size
            (set_buddy e l.lent))) [
              | inl fails ↦ rw (taken, last, three.nonzero, nonzero, fails) stuck
              | inr (t, fills) ↦ rw (taken, last, three.nonzero, nonzero, fills) (loaded t)
            ]

  tables_Outcome : Outcome s (load_tables l.address code stack binary_phys size l.lent)
  tables_Outcome = elim (take_page_lem l.lent lent_managed) [
    | inl refused ↦ no_code_table refused
    | inr (table, d, taken, three) ↦ elim (take_page_lem (set_buddy d l.lent) three.managed) [
      | inl refused ↦ no_stack_table table d taken three refused
      | inr (stack_table, e, last, four) ↦
          all_taken table d taken three stack_table e last four.nonzero
    ]
  ]

module _ (p binary_phys size : ℕ) (used : List Bool) (s : Mm) (four : length used ≡ 4)
    (held : s.temp ≡ slots used) (has : HasTable s) (aligned : p % 4096 ≡ 0)
    (word : p < 2 ^ 32) where
  both_pages :
      (code stack : ℕ) (b c : Buddy)
      → take_page s ≡ (code, set_buddy b s)
      → Takes code s.buddy b
      → take_page (set_buddy b s) ≡ (stack, set_buddy c s)
      → Takes stack b c
      → Outcome s (vmm_load_user_program p binary_phys size s)
  unfolding vmm_load_user_program
  both_pages code stack b c first one second two =
      let l =
        temp_map_page-Lends p used (set_buddy c s) four held
          (record { present = has.present; apart = has.apart }) aligned word in
      rw (first, second, one.nonzero, two.nonzero, l.returns)
        (tables_Outcome s code stack p b c one two l binary_phys size)

  load_Outcome : Managed s.buddy → Outcome s (vmm_load_user_program p binary_phys size s)
  unfolding vmm_load_user_program give_page
  load_Outcome m = elim (take_page_lem s m) [
    | inl refused ↦ rw refused (given_up s (λ x. refl) refl)
    | inr (code, b, first, one) ↦ elim (take_page_lem (set_buddy b s) one.managed) [
      | inl refused ↦
          let g = give_page_lem code (set_buddy b s) one.managed (at_base one.bases one.block) in
          rw (first, refused, one.nonzero)
            (given_up (give_page code (set_buddy b s))
              (λ x. omega (arith, g.covers x, one.covers x)) refl)
      | inr (stack, c, second, two) ↦ both_pages code stack b c first one second two
    ]
  ]

given_up_pages :
    (s t : Mm) (result : Option (ℕ × Mm))
    → result ≡ some (0, t)
    → Outcome s result
    → ((x : ℕ) → cover t.buddy x ≡ cover s.buddy x) × (t.temp ≡ s.temp)
given_up_pages s t _ e stuck = absurd (some-ne-none (0, t) (sym e))
given_up_pages s t _ e (loaded u) =
    absurd (omega (arith, ap (λ (r : ℕ × Mm). r.0) (some-injective (1, u) (0, t) e)))
given_up_pages s t _ e (given_up u pages slots_kept) =
    let same = ap (λ (r : ℕ × Mm). r.1) (some-injective (0, u) (0, t) e) in
    (
      λ x. sym (ap (λ (v : Mm). cover v.buddy x) same) ∙ pages x,
      sym (ap (λ (v : Mm). v.temp) same) ∙ slots_kept,
    )

-- Over a valid allocator that does not manage page 0, a manager of temporary mappings with the slots
-- `used` in use and no call under way, and a page table for the slots: where vmm_load_user_program
-- answers 0 for a page directory's address, every address is as free or taken as before, whichever of
-- its four allocations failed, and the slots are as they were.
pub vmm_load_user_program_fails :
    (p binary_phys size : ℕ) (used : List Bool) (s t : Mm)
    → length used ≡ 4
    → s.temp ≡ slots used
    → HasTable s
    → p % 4096 ≡ 0
    → p < 2 ^ 32
    → Managed s.buddy
    → vmm_load_user_program p binary_phys size s ≡ some (0, t)
    → ((x : ℕ) → cover t.buddy x ≡ cover s.buddy x) × (t.temp ≡ s.temp)
vmm_load_user_program_fails p binary_phys size used s t four held has aligned word m result =
    given_up_pages s t (vmm_load_user_program p binary_phys size s) result
      (load_Outcome p binary_phys size used s four held has aligned word m)
