-- ===== src/Pmm/Free.antt =====
-- pmm_free_pages: the block that comes back, and its buddies, become one free block.

use native.Mathlib.Nat.{one-le-pow}
use matrix_os.Prelude.{
  ℕ, zero, suc, ◌+◌, ◌-◌, ◌*◌, ◌^◌, ◌≤◌, ◌<◌, ◌≡◌, refl, ap, ◌∙◌, inl, inr, arith, ltb, false,
  if◌then◌else◌, Bool-cases, le→ltb_false,
}
use matrix_os.Prelude.Word.{add32, mul32}
use matrix_os.Pmm.{
  Buddy, area, find_buddy_pfn, merge, take_block, pmm_free_pages, push_block, mark_pages,
  page_index, has_block,
}
use matrix_os.Pmm.Cover.{in_block, cover, IsBlock, IsValid}
use matrix_os.Pmm.Updates.{
  SameLists, mark_pages-SameLists, SameLists-IsValid, SameLists-cover, cover-push_block,
  push_block-IsValid, base-push_block, base-take_block, cover-take_block, take_block-IsValid,
}
use matrix_os.Pmm.Pairs.{IsPlaced, merge-IsPair}

-- What the merge of a block of order `order` at `addr` leaves: one block of a higher order or the same
-- one, made of that block and of free blocks, which are in no list any more.
record Merges (order addr : ℕ) (s : Buddy) (result : ℕ × ℕ × Buddy) : Type 0 where
  top : result.0 < 12
  covers :
      (x : ℕ) → cover result.2 x + in_block result.0 result.1 x ≡ cover s x + in_block order addr x
  valid : IsValid result.2
  bases : result.2.base_addr ≡ s.base_addr
  block : IsBlock s.base_addr result.0 result.1

merge-Merges :
    (n order addr idx : ℕ) (s : Buddy)
    → 11 ≡ order + n
    → IsValid s
    → IsPlaced s.base_addr order addr idx
    → Merges order addr s (merge n order addr idx s)
unfolding merge take_block
merge-Merges zero order addr idx s e v b = record {
  top = omega arith;
  covers = λ x. refl;
  valid = v;
  bases = refl;
  block = b.block;
}
merge-Merges (suc n) order addr idx s e v b =
    elim (Bool-cases (has_block buddy (area s order).free_list)) [
      | inl found ↦
          let inside : order < 12 = omega arith in
          let step : order + 1 ≡ suc order = omega arith in
          let base = base-take_block order buddy s in
          let pair =
            merge-IsPair s.base_addr order addr idx v.base_multiple b (omega arith) v.base in
          let next =
            merge-Merges n (order + 1) (if ltb buddy addr then buddy else addr)
              (if ltb buddy addr then find_buddy_pfn idx order else idx) (take_block order buddy s)
              (omega arith) (take_block-IsValid order buddy s v inside found)
              (rw (base, step) pair.joined) in
          rw found (record {
            top = next.top;
            covers = λ x. omega (
              arith,
              next.covers x,
              pair.halves x,
              cover-take_block order buddy s v inside found x,
              ap (λ k. in_block k (if ltb buddy addr then buddy else addr) x) step,
            );
            valid = next.valid;
            bases = next.bases ∙ base;
            block = rw base at next.block;
          })
      | inr alone ↦ rw alone (record {
        top = omega arith;
        covers = λ x. refl;
        valid = v;
        bases = refl;
        block = b.block;
      })
    ]
  where
    buddy : ℕ
    buddy = add32 s.base_addr (mul32 (find_buddy_pfn idx order) 4096)

-- What `pmm_free_pages` does with a block that it is given back: every address of the block is free
-- once more than before, every other address as often, and the state stays valid.
pub record Frees (order addr : ℕ) (s t : Buddy) : Type 0 where
  pub covers : (x : ℕ) → cover t x ≡ cover s x + in_block order addr x
  pub valid : IsValid t
  pub bases : t.base_addr ≡ s.base_addr

page_index-block :
    (k addr : ℕ) (s : Buddy) (b : IsBlock s.base_addr k addr) → page_index addr s ≡ b.index * 2 ^ k
page_index-block k addr s b = omega (arith, b.starts, b.ends, one-le-pow k 2 (omega arith))

frees :
    (order addr : ℕ) (s marked : Buddy) (result : ℕ × ℕ × Buddy)
    → SameLists s marked
    → Merges order addr marked result
    → Frees order addr s (push_block result.0 result.1 result.2)
frees order addr s marked result same m = record {
  covers = λ x. omega (
    arith,
    cover-push_block result.0 result.1 result.2 m.valid m.top x,
    m.covers x,
    SameLists-cover x same,
  );
  valid = push_block-IsValid result.0 result.1 result.2 m.valid m.top (rw m.bases m.block);
  bases = base-push_block result.0 result.1 result.2 ∙ m.bases ∙ same.bases;
}

-- A block of an order up to 11 that stands at a multiple of its size from the base comes back whole,
-- whatever buddies it is merged with.
pub pmm_free_pages_lem :
    (order addr : ℕ) (s : Buddy)
    → IsValid s
    → order ≤ 11
    → IsBlock s.base_addr order addr
    → Frees order addr s (pmm_free_pages addr order s)
unfolding pmm_free_pages
pmm_free_pages_lem order addr s v h b =
    let marked = mark_pages false (page_index addr s) (2 ^ order) s in
    let same = mark_pages-SameLists false (page_index addr s) (2 ^ order) s in
    let placed : IsPlaced s.base_addr order addr (page_index addr s) = record {
      block = b;
      at = page_index-block order addr s b;
    } in
    let result =
      merge-Merges (11 - order) order addr (page_index addr s) marked (omega arith)
        (SameLists-IsValid same v) (rw same.bases placed) in
    rw (le→ltb_false 11 order h, le→ltb_false addr s.base_addr (omega (arith, b.starts)))
      (frees order addr s marked _ same result)
