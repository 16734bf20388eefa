-- ===== src/Pmm/Init.antt =====
-- pmm_init: the free blocks that it makes, and where they lie.
use matrix_os.Prelude.{
  ℕ, zero, suc, ◌+◌, ◌-◌, ◌*◌, ◌/◌, ◌^◌, ◌≤◌, ◌<◌, ◌≡◌, refl, ap, ◌∙◌, ◌&&◌, inl, inr, arith, leb,
  ltb, true, if◌then◌else◌, Bool-cases,
}
use matrix_os.Prelude.Word.{add32, sub32}
use matrix_os.Pmm.{
  Buddy, add_blocks, first_block, pmm_init, push_block, mark_pages, page_index, cleared,
  bitmap_bytes,
}
use matrix_os.Pmm.Cover.{in_block, cover, IsBlock, IsValid}
use matrix_os.Pmm.Updates.{
  mark_pages-SameLists, SameLists-IsValid, SameLists-cover, cover-push_block, push_block-IsValid,
  base-push_block,
}

-- 1 for the addresses of `n` blocks of the highest order from `addr` on.
abbrev pub in_run : ℕ → ℕ → ℕ → ℕ
in_run n addr x = if leb addr x && ltb x (addr + n * 2 ^ 23) then 1 else 0

in_run-suc :
    (n addr x : ℕ) → in_run (suc n) addr x ≡ in_block 11 addr x + in_run n (addr + 2 ^ 23) x
in_run-suc n addr x = ground arith

record AddsBlocks (n addr : ℕ) (s t : Buddy) : Type 0 where
  covers : (x : ℕ) → cover t x ≡ cover s x + in_run n addr x
  valid : IsValid t
  bases : t.base_addr ≡ s.base_addr

add_blocks-AddsBlocks :
    (fuel remaining addr q : ℕ) (s : Buddy)
    → remaining < fuel
    → IsValid s
    → addr ≡ s.base_addr + q * 2 ^ 23
    → addr + remaining / 2048 * 2 ^ 23 < 2 ^ 32
    → AddsBlocks (remaining / 2048) addr s (add_blocks fuel remaining addr s)
unfolding add_blocks
add_blocks-AddsBlocks zero remaining addr q s h v e u = absurd (omega arith)
add_blocks-AddsBlocks (suc fuel) remaining addr q s h v e u =
    elim (Bool-cases (leb 2048 remaining)) [
      | inl more ↦
          let enough : 2048 ≤ remaining = ground arith in
          let count : remaining / 2048 ≡ suc ((remaining - 2048) / 2048) = omega arith in
          let pushed = push_block 11 addr s in
          let same = mark_pages-SameLists true (page_index addr s) 2048 pushed in
          let base = same.bases ∙ base-push_block 11 addr s in
          let block : IsBlock s.base_addr 11 addr = record {
            index = q;
            starts = e;
            ends = omega arith;
          } in
          let next_addr : add32 addr (2048 * 4096) ≡ addr + 2 ^ 23 = omega arith in
          let rest =
            add_blocks-AddsBlocks fuel (remaining - 2048) (addr + 2 ^ 23) (q + 1)
              (mark_pages true (page_index addr s) 2048 pushed) (omega arith)
              (SameLists-IsValid same (push_block-IsValid 11 addr s v (omega arith) block))
              (omega (arith, base)) (omega arith) in
          rw (more, next_addr)
            (record {
              covers = λ x. omega (
                arith,
                rest.covers x,
                SameLists-cover x same,
                cover-push_block 11 addr s v (omega arith) x,
                in_run-suc ((remaining - 2048) / 2048) addr x,
                ap (λ n. in_run n addr x) count,
              );
              valid = rest.valid;
              bases = rest.bases ∙ base;
            })
      | inr done ↦
          let short : remaining / 2048 ≡ 0 = ground arith in
          rw (done, short) (record { covers = λ x. ground arith; valid = v; bases = refl })
    ]

-- The range that `pmm_init` is given: it starts at a multiple of 8 MB, holds a page or more, and ends
-- 8 MB or more below the top of the address space.
pub record IsRange (memory_start memory_end : ℕ) : Type 0 where
  pub multiple : ℕ
  pub starts : memory_start ≡ multiple * 2 ^ 23
  pub page : memory_start + 4096 ≤ memory_end
  pub ends : memory_end + 2 ^ 23 < 2 ^ 32

first_block_lem :
    (start total m : ℕ)
    → start ≡ m * 2 ^ 23
    → 0 < total
    → total ≤ 2 ^ 20
    → start + 2 ^ 23 < 2 ^ 32
    → first_block start (bitmap_bytes total) ≡ start + 2 ^ 23
unfolding first_block
first_block_lem start total m e p l u = omega arith

cleared-IsValid :
    (start total m : ℕ) (s : Buddy) → start ≡ m * 2 ^ 23 → IsValid (cleared start total s)
cleared-IsValid start total m s e = record {
  base_multiple = m;
  base = e;
  size = refl;
  areas = omega arith;
}

-- What `pmm_init` makes of a range: as many blocks of 8 MB as fit into its length are free, the first
-- of them 8 MB above `memory_start`; nothing else is, and the state is valid.
pub pmm_init_lem :
    (memory_start memory_end : ℕ) (s : Buddy) (x : ℕ)
    → IsRange memory_start memory_end
    → (cover (pmm_init memory_start memory_end s) x
        ≡ in_run ((memory_end - memory_start) / 2 ^ 23) (memory_start + 2 ^ 23) x)
      × IsValid (pmm_init memory_start memory_end s)
      × ((pmm_init memory_start memory_end s).base_addr ≡ memory_start)
unfolding pmm_init
pmm_init_lem memory_start memory_end s x r =
    let total = (memory_end - memory_start) / 4096 in
    let pages : sub32 memory_end memory_start / 4096 ≡ total = omega arith in
    let first =
      first_block_lem memory_start total r.multiple r.starts (omega arith) (omega arith)
        (omega arith) in
    let count : total / 2048 ≡ (memory_end - memory_start) / 2 ^ 23 = omega arith in
    let added =
      add_blocks-AddsBlocks (suc total) total (memory_start + 2 ^ 23) 1
        (cleared memory_start total s) (omega arith)
        (cleared-IsValid memory_start total r.multiple s r.starts) (omega arith) (omega arith) in
    rw (pages, first)
      (
        omega (arith, added.covers x, ap (λ n. in_run n (memory_start + 2 ^ 23) x) count),
        added.valid,
        added.bases,
      )

-- On a range that starts at a multiple of 8 MB, is a number of 8 MB blocks long, not 0, and ends 8 MB or
-- more below the top of the address space, the last block lies outside it: all the 8 MB from
-- `memory_end` on are free after `pmm_init`, and the first 8 MB of the range are not.
pub pmm_init_overruns :
    (memory_start memory_end n : ℕ) (s : Buddy) (x : ℕ)
    → IsRange memory_start memory_end
    → memory_end ≡ memory_start + n * 2 ^ 23
    → x < 2 ^ 23
    → (cover (pmm_init memory_start memory_end s) (memory_end + x) ≡ 1)
      × (cover (pmm_init memory_start memory_end s) (memory_start + x) ≡ 0)
pmm_init_overruns memory_start memory_end n s x r e h =
    let count : (memory_end - memory_start) / 2 ^ 23 ≡ n = omega arith in
    let last = (pmm_init_lem memory_start memory_end s (memory_end + x) r).0 in
    let first = (pmm_init_lem memory_start memory_end s (memory_start + x) r).0 in
    (
      last ∙ ap (λ k. in_run k (memory_start + 2 ^ 23) (memory_end + x)) count ∙ ground arith,
      first ∙ ap (λ k. in_run k (memory_start + 2 ^ 23) (memory_start + x)) count ∙ ground arith,
    )
